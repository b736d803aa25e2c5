-- ===== src/Sched/Queues.antt =====
-- The ready queues as lists of threads, and what pushing, popping and unlinking do to them.
use vortex_os.Base.{
  ℕ, zero, suc, ◌+◌, ◌%◌, ◌≤◌, ◌<◌, ◌≡◌, refl, inl, inr, true, false, Option, none, some, List, [],
  ◌∷◌, ◌++◌, arith, ◌==◌, if◌then◌else◌, has, Distinct, length, length-append, points_to,
  Bool-cases, update, ==→eq, has-append,
}
use vortex_os.Sched.{Tcb, Sched, ready, append, num_priorities, word32}
use vortex_os.Sched.Chain.{Chain, Chain-same, Chain-append, first_of_append, last?, last?-has}

-- The ready threads of each priority, first in line first.
abbrev pub Lines : Type 0
Lines = ℕ → List ℕ

-- The threads in the lines below the priority `n`.
unfoldable pub waiting : ℕ → Lines → ℕ
waiting zero ls = 0
waiting (suc n) ls = waiting n ls + length (ls n)

abbrev pub all_waiting : Lines → ℕ
all_waiting ls = waiting num_priorities ls

pub record IsQueued (s : Sched) (ls : Lines) : Type 0 where
  pub chains : (p : ℕ) → Chain s.tcbs (s.queues p).head (ls p)
  pub tails : (p : ℕ) → (s.queues p).tail ≡ last? (ls p)
  pub distinct : (p : ℕ) → Distinct (ls p)
  pub listed :
      (p x : ℕ)
      → has x (ls p) ≡ true
      → ((s.tcbs x).priority ≡ p) × ((s.tcbs x).state ≡ ready) × (p < num_priorities)
  pub counted : s.total_ready ≡ all_waiting ls
  pub room : all_waiting ls < word32

waiting_above :
    (n o : ℕ) (ls : Lines) (l : List ℕ) → n ≤ o → waiting n (update ls o l) ≡ waiting n ls
unfolding waiting
waiting_above zero o ls l h = refl
waiting_above (suc n) o ls l h = ground (arith, waiting_above n o ls l)

pub waiting-update :
    (n o : ℕ) (ls : Lines) (l : List ℕ)
    → o < n
    → waiting n (update ls o l) + length (ls o) ≡ waiting n ls + length l
unfolding waiting
waiting-update zero o ls l h = absurd (omega arith)
waiting-update (suc n) o ls l h = elim (Bool-cases (o == n)) [
  | inl e ↦ rw (e, ==→eq o n e) (omega (arith, waiting_above n n ls l (omega arith)))
  | inr e ↦ rw e (ground (arith, waiting-update n o ls l))
]

last?-append : (l : List ℕ) (t : ℕ) → last? (l ++ t ∷ []) ≡ some t
last?-append [] t = refl
last?-append (x ∷ []) t = refl
last?-append (x ∷ y ∷ l) t = last?-append (y ∷ l) t

-- A line is empty where its tail pointer is null.
abbrev head_of_append : Option ℕ → ℕ → Option ℕ → Option ℕ
head_of_append none t start = some t
head_of_append (some x) t start = start

head-first :
    (l : List ℕ) (t : ℕ) (start : Option ℕ)
    → head_of_append (last? l) t start ≡ first_of_append l t start
head-first [] t start = refl
head-first (x ∷ []) t start = refl
head-first (x ∷ y ∷ l) t start = head-first (y ∷ l) t start

append-Distinct : (l : List ℕ) (t : ℕ) → Distinct l → has t l ≡ false → Distinct (l ++ t ∷ [])
append-Distinct [] t d n = (refl, tt)
append-Distinct (x ∷ l) t d n =
    (ground (arith, has-append x l (t ∷ [])), append-Distinct l t d.1 (ground arith))

-- What `append` leaves in the thread `x`, where `last` is the last of the line.
pub record Appended (s : Sched) (p t x : ℕ) (last : Option ℕ) (c : Tcb) : Type 0 where
  pub next :
      c.next ≡ (if points_to last x then some t else if t == x then none else (s.tcbs x).next)
  pub priority : c.priority ≡ (s.tcbs x).priority
  pub state : c.state ≡ (s.tcbs x).state
  pub policy : c.policy ≡ (s.tcbs x).policy
  pub deadline : c.abs_deadline ≡ (s.tcbs x).abs_deadline

pub append-Appended :
    (p t x : ℕ) (s : Sched) → Appended s p t x (s.queues p).tail ((append p t s).tcbs x)
unfolding append
append-Appended p t x s = ground arith

append-head :
    (p t q : ℕ) (s : Sched)
    → ((append p t s).queues q).head
      ≡ (if p == q then head_of_append (s.queues p).tail t (s.queues p).head else (s.queues q).head)
unfolding append
append-head p t q s = ground arith

append-tail :
    (p t q : ℕ) (s : Sched)
    → ((append p t s).queues q).tail ≡ (if p == q then some t else (s.queues q).tail)
unfolding append
append-tail p t q s = ground arith

append-total : (p t : ℕ) (s : Sched) → (append p t s).total_ready ≡ (s.total_ready + 1) % word32
unfolding append
append-total p t s = ground arith

module _ (s : Sched) (ls : Lines) (v : IsQueued s ls) (p t : ℕ) (prio : (s.tcbs t).priority ≡ p)
    (is_ready : (s.tcbs t).state ≡ ready) (small : p < num_priorities) (new : has t (ls p) ≡ false)
    (room : all_waiting ls + 1 < word32) where
  at : (x : ℕ) → Appended s p t x (last? (ls p)) ((append p t s).tcbs x)
  at x = rw (v.tails p) at (append-Appended p t x s)

  append-Chain_here :
      Chain (append p t s).tcbs (first_of_append (ls p) t (s.queues p).head) (ls p ++ t ∷ [])
  append-Chain_here =
      Chain-append s.tcbs (append p t s).tcbs (s.queues p).head (ls p) t (v.chains p) (v.distinct p)
        (λ x h. ground (arith, at x, new, ==→eq t x))
        (ground (arith, at t, last?-has (ls p) t, new))

  append-Chain_else :
      (q : ℕ) → (p == q) ≡ false → Chain (append p t s).tcbs (s.queues q).head (ls q)
  append-Chain_else q n =
      Chain-same s.tcbs (append p t s).tcbs (s.queues q).head (ls q) (v.chains q)
        (λ x h. ground (arith, at x, last?-has (ls p) x, v.listed p x, v.listed q x, ==→eq t x))

  append-Chain :
      (q : ℕ)
      → Chain (append p t s).tcbs ((append p t s).queues q).head (update ls p (ls p ++ t ∷ []) q)
  append-Chain q = elim (Bool-cases (p == q)) [
    | inl e ↦
        rw (append-head p t q s, e, v.tails p, head-first (ls p) t (s.queues p).head)
          append-Chain_here
    | inr n ↦ rw (append-head p t q s, n) (append-Chain_else q n)
  ]

  pub append-IsQueued : IsQueued (append p t s) (update ls p (ls p ++ t ∷ []))
  append-IsQueued = record {
    chains = append-Chain;
    tails = λ q. ground (arith, append-tail p t q s, last?-append (ls p) t, v.tails q);
    distinct = λ q. ground (arith, append-Distinct (ls p) t (v.distinct p) new, v.distinct q);
    listed = λ q x h. ground (
      arith,
      at x,
      has-append x (ls p) (t ∷ []),
      v.listed p x,
      v.listed q x,
      ==→eq t x,
      ==→eq p q,
    );
    counted = omega (
      arith,
      append-total p t s,
      v.counted,
      room,
      length-append (ls p) (t ∷ []),
      waiting-update num_priorities p ls (ls p ++ t ∷ []) small,
    );
    room = omega (
      arith,
      room,
      length-append (ls p) (t ∷ []),
      waiting-update num_priorities p ls (ls p ++ t ∷ []) small,
    );
  }
