-- ===== src/Sched/Schedule/Pick.antt =====
-- Which thread `schedule` takes off the ready queues: the earliest deadline, or else the head of
-- the best line.
use vortex_os.Base.{
  ℕ, zero, suc, ◌+◌, ◌≤◌, ◌<◌, ◌≡◌, refl, ◌⊎◌, inl, inr, Bool, true, false, ◌||◌, Option, none,
  some, List, [], ◌∷◌, arith, ◌==◌, ltb, has, length, Bool-cases, Option-cases, ==→eq, ==-self,
  ltb→ge,
}
use vortex_os.Sched.{Sched, num_priorities}
use vortex_os.Sched.Chain.{Chain}
use vortex_os.Sched.Queues.{Lines, IsQueued, waiting}
use vortex_os.Sched.Schedule.{
  is_dl, max_deadline, Earliest, consider, scan_line, scan_lines, earliest,
}

-- The threads that were looked at are those for which `seen` holds.
record IsEarliest (s : Sched) (seen : ℕ → Bool) (acc : Earliest) : Type 0 where
  none_max : acc.1 ≡ none → acc.0 ≡ max_deadline
  some_seen :
      (x : ℕ)
      → acc.1 ≡ some x
      → (seen x ≡ true)
        × (is_dl (s.tcbs x).policy ≡ true)
        × ((s.tcbs x).abs_deadline ≡ acc.0)
        × (acc.0 < max_deadline)
  small : acc.0 ≤ max_deadline
  least : (y : ℕ) → seen y ≡ true → is_dl (s.tcbs y).policy ≡ true → acc.0 ≤ (s.tcbs y).abs_deadline

consider-IsEarliest :
    (s : Sched) (seen : ℕ → Bool) (x : ℕ) (acc : Earliest)
    → IsEarliest s seen acc
    → IsEarliest s (λ y. seen y || (x == y)) (consider (s.tcbs x) x acc)
unfolding consider
consider-IsEarliest s seen x (d, none) e = record {
  none_max = λ h. ground (arith, e.none_max);
  some_seen = λ y h. ground (arith, e.some_seen y, ==-self x, e.small);
  small = ground (arith, e.small);
  least = λ y h k. ground (arith, e.least y, ==→eq x y);
}
consider-IsEarliest s seen x (d, some b) e = record {
  none_max = λ h. ground (arith, e.none_max);
  some_seen = λ y h. ground (arith, e.some_seen b, ==-self x, e.small);
  small = ground (arith, e.small);
  least = λ y h k. ground (arith, e.least y, ==→eq x y);
}

IsEarliest-same :
    (s : Sched) (seen seen' : ℕ → Bool) (acc : Earliest)
    → ((y : ℕ) → seen' y ≡ seen y)
    → IsEarliest s seen acc
    → IsEarliest s seen' acc
IsEarliest-same s seen seen' acc same e = record {
  none_max = e.none_max;
  some_seen = λ x h. ground (arith, e.some_seen x, same x);
  small = e.small;
  least = λ y h k. ground (arith, e.least y, same y);
}

scan_line-IsEarliest :
    (fuel : ℕ) (s : Sched) (seen : ℕ → Bool) (start : Option ℕ) (l : List ℕ) (acc : Earliest)
    → length l < fuel
    → Chain s.tcbs start l
    → IsEarliest s seen acc
    → IsEarliest s (λ y. seen y || has y l) (scan_line fuel start s acc)
unfolding scan_line
scan_line-IsEarliest zero s seen start l acc h c e = absurd (omega arith)
scan_line-IsEarliest (suc fuel) s seen start [] acc h c e =
    rw (c, scan_line) (IsEarliest-same s seen _ acc (λ y. ground arith) e)
scan_line-IsEarliest (suc fuel) s seen start (x ∷ l) acc h c e =
    rw (c.0, scan_line)
      (IsEarliest-same s (λ y. (seen y || (x == y)) || has y l) _ _ (λ y. ground arith)
        (scan_line-IsEarliest fuel s (λ y. seen y || (x == y)) (s.tcbs x).next l
          (consider (s.tcbs x) x acc) (omega arith) c.1 (consider-IsEarliest s seen x acc e)))

-- Whether a thread waits in a line from `p` on, below `p + n`.
abbrev pub waits_from : ℕ → ℕ → Lines → ℕ → Bool
waits_from zero p ls x = false
waits_from (suc n) p ls x = has x (ls p) || waits_from n (p + 1) ls x

scan_lines-IsEarliest :
    (n p : ℕ) (s : Sched) (ls : Lines) (seen : ℕ → Bool) (acc : Earliest)
    → IsQueued s ls
    → ((q : ℕ) → length (ls q) ≤ s.total_ready)
    → IsEarliest s seen acc
    → IsEarliest s (λ y. seen y || waits_from n p ls y) (scan_lines n p s acc)
unfolding scan_lines
scan_lines-IsEarliest zero p s ls seen acc v long e =
    IsEarliest-same s seen _ acc (λ y. ground arith) e
scan_lines-IsEarliest (suc n) p s ls seen acc v long e =
    IsEarliest-same s (λ y. (seen y || has y (ls p)) || waits_from n (p + 1) ls y) _ _
      (λ y. ground arith)
      (scan_lines-IsEarliest n (p + 1) s ls (λ y. seen y || has y (ls p)) _ v long
        (scan_line-IsEarliest (suc s.total_ready) s seen (s.queues p).head (ls p) acc
          (omega (arith, long p)) (v.chains p) e))

waits_from-has :
    (n p : ℕ) (ls : Lines) (x : ℕ) → waits_from n p ls x ≡ true → (q : ℕ) × (has x (ls q) ≡ true)
waits_from-has zero p ls x h = cc
waits_from-has (suc n) p ls x h = elim (Bool-cases (has x (ls p))) [
  | inl i ↦ (p, i)
  | inr i ↦ waits_from-has n (p + 1) ls x (ground arith)
]

has-waits_from :
    (n p q : ℕ) (ls : Lines) (x : ℕ)
    → p ≤ q
    → q < p + n
    → has x (ls q) ≡ true
    → waits_from n p ls x ≡ true
has-waits_from zero p q ls x a b h = absurd (omega arith)
has-waits_from (suc n) p q ls x a b h = elim (Bool-cases (p == q)) [
  | inl e ↦ ground (arith, ==→eq p q e)
  | inr e ↦ ground (arith, has-waits_from n (p + 1) q ls x)
]

waiting-ge : (n q : ℕ) (ls : Lines) → q < n → length (ls q) ≤ waiting n ls
unfolding waiting
waiting-ge zero q ls h = absurd (omega arith)
waiting-ge (suc n) q ls h = elim (Bool-cases (q == n)) [
  | inl e ↦ rw (==→eq q n e) (omega arith)
  | inr e ↦ ground (arith, waiting-ge n q ls)
]

length-no_member : (l : List ℕ) → ((x : ℕ) → has x l ≡ true → ⊥) → length l ≤ 0
length-no_member [] h = omega arith
length-no_member (x ∷ l) h = absurd (h x (rw ==-self))

-- No line is longer than the count of ready threads.
pub length-le-total :
    (s : Sched) (ls : Lines) → IsQueued s ls → (q : ℕ) → length (ls q) ≤ s.total_ready
length-le-total s ls v q = elim (Bool-cases (ltb q num_priorities)) [
  | inl h ↦ omega (arith, waiting-ge num_priorities q ls (ground arith), v.counted)
  | inr h ↦
      omega
        (arith, length-no_member (ls q) (λ x i. omega (arith, (v.listed q x i).2, ltb→ge _ _ h)))
]

-- `x` has a deadline that counts, and no waiting thread has an earlier one.
pub record IsUrgent (s : Sched) (ls : Lines) (x : ℕ) : Type 0 where
  pub policy : is_dl (s.tcbs x).policy ≡ true
  pub counts : (s.tcbs x).abs_deadline < max_deadline
  pub least :
      (q y : ℕ)
      → has y (ls q) ≡ true
      → is_dl (s.tcbs y).policy ≡ true
      → (s.tcbs x).abs_deadline ≤ (s.tcbs y).abs_deadline

-- No waiting deadline task has a deadline below 2^64 - 1, the only ones that the deadline scan takes.
abbrev pub NoEarlyDeadline : Sched → Lines → Type 0
NoEarlyDeadline s ls =
    (q y : ℕ)
    → has y (ls q) ≡ true
    → is_dl (s.tcbs y).policy ≡ true
    → max_deadline ≤ (s.tcbs y).abs_deadline

pub earliest-cases :
    (s : Sched) (ls : Lines)
    → IsQueued s ls
    → ((earliest s ≡ none) × NoEarlyDeadline s ls)
      ⊎ ((x : ℕ) × (earliest s ≡ some x)
          × (has x (ls (s.tcbs x).priority) ≡ true)
          × IsUrgent s ls x)
unfolding earliest
earliest-cases s ls v =
    let start : IsEarliest s (λ _. false) (max_deadline, none) = record {
      none_max = λ h. refl;
      some_seen = λ x h. cc;
      small = omega arith;
      least = λ y h k. cc;
    } in
    let acc = scan_lines num_priorities 0 s (max_deadline, none) in
    let e =
      scan_lines-IsEarliest num_priorities 0 s ls (λ _. false) (max_deadline, none) v
        (length-le-total s ls v) start in
    let seen = λ (q y : ℕ) (h : has y (ls q) ≡ true).
      has-waits_from num_priorities 0 q ls y (omega arith) (omega (arith, (v.listed q y h).2)) h in
    elim (Option-cases acc.1) [
      | inl n ↦ inl (n, λ q y h k. omega (arith, e.none_max n, e.least y (seen q y h) k))
      | inr (x, n) ↦
          let (w, p, d, small) = e.some_seen x n in
          let (q, i) = waits_from-has num_priorities 0 ls x w in
          inr (
            x,
            n,
            rw ((v.listed q x i).0) i,
            record {
              policy = p;
              counts = omega arith;
              least = λ r y h k. omega (arith, d, e.least y (seen r y h) k);
            },
          )
    ]
