-- ===== src/Sched/Schedule/Choose.antt =====
-- The thread that step 2 of `schedule` takes off the ready queues, and the queues it leaves.
use vortex_os.Base.{
  ℕ, zero, suc, ◌+◌, ◌-◌, ◌≤◌, ◌<◌, ◌≡◌, refl, ◌⊎◌, inl, inr, true, none, some, List, [], ◌∷◌,
  arith, subst, ap, ◌==◌, if◌then◌else◌, ltb, has, erase, Bool-cases, List-cases, update, ==→eq,
  ==-self, ltb→lt, ltb→ge,
}
use vortex_os.Sched.{Sched, queue_pop_front, unlink, num_priorities}
use vortex_os.Sched.Chain.{Chain}
use vortex_os.Sched.Queues.{Lines, IsQueued}
use vortex_os.Sched.Unlink.{pred_in, find_prev-pred_in, unlink-IsQueued, pop_head-unlink}
use vortex_os.Sched.Schedule.{take_deadline, pop_down, pop_up, pop_by_priority, choose}
use vortex_os.Sched.Schedule.Pick.{IsUrgent, NoEarlyDeadline, earliest-cases, length-le-total}

-- The order in which the lines are served: 99 down to 0, then 100 up to 139.
abbrev pub rank : ℕ → ℕ
rank p = if ltb p 100 then 99 - p else p

-- `x` is the head of the line `p`, and the lines that are served before it are empty.
pub record IsBest (ls : Lines) (p x : ℕ) : Type 0 where
  pub rest : List ℕ
  pub first : ls p ≡ x ∷ rest
  pub small : p < num_priorities
  pub best : (q : ℕ) → rank q < rank p → ls q ≡ []

pop_front-none :
    (p : ℕ) (s : Sched) (ls : Lines) → IsQueued s ls → ls p ≡ [] → queue_pop_front p s ≡ (none, s)
unfolding queue_pop_front
pop_front-none p s ls v e =
    rw (subst (λ l. Chain s.tcbs (s.queues p).head l) e (v.chains p), queue_pop_front)

pop_front-some :
    (p x : ℕ) (xs : List ℕ) (s : Sched) (ls : Lines)
    → IsQueued s ls
    → ls p ≡ x ∷ xs
    → queue_pop_front p s ≡ (some x, unlink p x none s)
unfolding queue_pop_front
pop_front-some p x xs s ls v e = rw (
  (subst (λ l. Chain s.tcbs (s.queues p).head l) e (v.chains p)).0,
  queue_pop_front,
  pop_head-unlink p x s,
)

pop_down-cases :
    (n : ℕ) (s : Sched) (ls : Lines)
    → IsQueued s ls
    → ((pop_down n s ≡ (none, s)) × ((q : ℕ) → q < n → ls q ≡ []))
      ⊎ ((p x : ℕ) × (xs : List ℕ) × (p < n)
          × (ls p ≡ x ∷ xs)
          × ((q : ℕ) → p < q → q < n → ls q ≡ [])
          × (pop_down n s ≡ (some x, unlink p x none s)))
unfolding pop_down
pop_down-cases zero s ls v = inl (refl, λ q h. absurd (omega arith))
pop_down-cases (suc n) s ls v = elim (List-cases (ls n)) [
  | inl e ↦ elim (pop_down-cases n s ls v) [
    | inl (a, b) ↦ inl (
      rw
          (
            pop_down,
            ap (λ r. r.0) (pop_front-none n s ls v e),
            ap (λ r. r.1) (pop_front-none n s ls v e),
          )
          a,
      λ q h. elim (Bool-cases (q == n)) [ inl k ↦ rw (==→eq q n k) e | inr k ↦ b q (ground arith) ],
    )
    | inr (p, x, xs, h, f, b, a) ↦ inr (
      p,
      x,
      xs,
      omega arith,
      f,
      λ q i j. elim (Bool-cases (q == n)) [
        | inl k ↦ rw (==→eq q n k) e
        | inr k ↦ b q i (ground arith)
      ],
      rw
          (
            pop_down,
            ap (λ r. r.0) (pop_front-none n s ls v e),
            ap (λ r. r.1) (pop_front-none n s ls v e),
          )
          a,
    )
  ]
  | inr (x, xs, e) ↦ inr (
    n,
    x,
    xs,
    omega arith,
    e,
    λ q i j. absurd (omega arith),
    rw (
      pop_down,
      ap (λ r. r.0) (pop_front-some n x xs s ls v e),
      ap (λ r. r.1) (pop_front-some n x xs s ls v e),
    ),
  )
]

pop_up-cases :
    (n o : ℕ) (s : Sched) (ls : Lines)
    → IsQueued s ls
    → ((pop_up n o s ≡ (none, s)) × ((q : ℕ) → o ≤ q → q < o + n → ls q ≡ []))
      ⊎ ((p x : ℕ) × (xs : List ℕ) × (o ≤ p)
          × (p < o + n)
          × (ls p ≡ x ∷ xs)
          × ((q : ℕ) → o ≤ q → q < p → ls q ≡ [])
          × (pop_up n o s ≡ (some x, unlink p x none s)))
unfolding pop_up
pop_up-cases zero o s ls v = inl (refl, λ q h k. absurd (omega arith))
pop_up-cases (suc n) o s ls v = elim (List-cases (ls o)) [
  | inl e ↦ elim (pop_up-cases n (o + 1) s ls v) [
    | inl (a, b) ↦ inl (
      rw
          (
            pop_up,
            ap (λ r. r.0) (pop_front-none o s ls v e),
            ap (λ r. r.1) (pop_front-none o s ls v e),
          )
          a,
      λ q h j. elim (Bool-cases (q == o)) [
        | inl k ↦ rw (==→eq q o k) e
        | inr k ↦ b q (ground arith) (omega arith)
      ],
    )
    | inr (p, x, xs, h, h', f, b, a) ↦ inr (
      p,
      x,
      xs,
      omega arith,
      omega arith,
      f,
      λ q i j. elim (Bool-cases (q == o)) [
        | inl k ↦ rw (==→eq q o k) e
        | inr k ↦ b q (ground arith) j
      ],
      rw
          (
            pop_up,
            ap (λ r. r.0) (pop_front-none o s ls v e),
            ap (λ r. r.1) (pop_front-none o s ls v e),
          )
          a,
    )
  ]
  | inr (x, xs, e) ↦ inr (
    o,
    x,
    xs,
    omega arith,
    omega arith,
    e,
    λ q i j. absurd (omega arith),
    rw (
      pop_up,
      ap (λ r. r.0) (pop_front-some o x xs s ls v e),
      ap (λ r. r.1) (pop_front-some o x xs s ls v e),
    ),
  )
]

pop_by_priority-cases :
    (s : Sched) (ls : Lines)
    → IsQueued s ls
    → ((pop_by_priority s ≡ (none, s)) × ((q : ℕ) → q < num_priorities → ls q ≡ []))
      ⊎ ((p x : ℕ) × IsBest ls p x × (pop_by_priority s ≡ (some x, unlink p x none s)))
unfolding pop_by_priority
pop_by_priority-cases s ls v = elim (pop_down-cases 100 s ls v) [
  | inl (a, b) ↦ elim (pop_up-cases 40 100 s ls v) [
    | inl (c, d) ↦ inl (
      rw (pop_by_priority, ap (λ r. r.0) a, ap (λ r. r.1) a) c,
      λ q h. elim (Bool-cases (ltb q 100)) [
        | inl k ↦ b q (ltb→lt q 100 k)
        | inr k ↦ d q (ltb→ge q 100 k) (omega arith)
      ],
    )
    | inr (p, x, xs, h, h', f, d, c) ↦ inr (
      p,
      x,
      record {
        rest = xs;
        first = f;
        small = omega arith;
        best = λ q r. elim (Bool-cases (ltb q 100)) [
          | inl k ↦ b q (ltb→lt q 100 k)
          | inr k ↦ d q (ltb→ge q 100 k) (ground arith)
        ];
      },
      rw (pop_by_priority, ap (λ r. r.0) a, ap (λ r. r.1) a, ap (λ r. r.0) c, ap (λ r. r.1) c),
    )
  ]
  | inr (p, x, xs, h, f, b, a) ↦ inr (
    p,
    x,
    record {
      rest = xs;
      first = f;
      small = omega arith;
      best = λ q r. b q (ground arith) (ground arith);
    },
    rw (pop_by_priority, ap (λ r. r.0) a, ap (λ r. r.1) a),
  )
]

-- What `choose` does with the lines: the thread it takes leaves its line, and nothing else moves.
pub record IsTaken (s : Sched) (ls : Lines) (x : ℕ) (s' : Sched) : Type 0 where
  pub member : has x (ls (s.tcbs x).priority) ≡ true
  pub left : s' ≡ unlink (s.tcbs x).priority x (pred_in x none (ls (s.tcbs x).priority)) s
  pub queued : IsQueued s' (update ls (s.tcbs x).priority (erase x (ls (s.tcbs x).priority)))

taken :
    (s : Sched) (ls : Lines) (x : ℕ) (s' : Sched)
    → IsQueued s ls
    → has x (ls (s.tcbs x).priority) ≡ true
    → s' ≡ unlink (s.tcbs x).priority x (pred_in x none (ls (s.tcbs x).priority)) s
    → IsTaken s ls x s'
taken s ls x s' v i e = record {
  member = i;
  left = e;
  queued = rw e (unlink-IsQueued s ls v (s.tcbs x).priority x i);
}

take_deadline-some :
    (s : Sched) (ls : Lines) (x : ℕ)
    → IsQueued s ls
    → has x (ls (s.tcbs x).priority) ≡ true
    → take_deadline x s
      ≡ some (some x, unlink (s.tcbs x).priority x (pred_in x none (ls (s.tcbs x).priority)) s)
unfolding take_deadline
take_deadline-some s ls x v i =
    let p = (s.tcbs x).priority in
    rw (
      take_deadline,
      find_prev-pred_in (suc s.total_ready) s (s.queues p).head none (ls p) x
          (omega (arith, length-le-total s ls v p)) (v.chains p) i,
    )

IsTaken-best :
    (s : Sched) (ls : Lines) (p x : ℕ)
    → IsQueued s ls
    → IsBest ls p x
    → IsTaken s ls x (unlink p x none s) × ((s.tcbs x).priority ≡ p)
IsTaken-best s ls p x v b =
    let i : has x (ls p) ≡ true = rw (b.first, ==-self x) in
    let e : (s.tcbs x).priority ≡ p = (v.listed p x i).0 in
    let first : pred_in x none (ls p) ≡ none = rw (b.first, ==-self x) in
    (taken s ls x (unlink p x none s) v (rw e i) (rw (e, first)), e)

-- `choose` on well-formed queues never follows a null pointer. Where a deadline task with a
-- deadline below 2^64 - 1 waits, it takes a waiting deadline task that has the earliest deadline of
-- all. Otherwise (a deadline task with the deadline 2^64 - 1 counts as a task without) it takes the
-- head of the first line that is not empty, in the order 99 down to 0, then 100 up to 139, and none
-- only where every line is empty.
pub choose-cases :
    (s : Sched) (ls : Lines)
    → IsQueued s ls
    → (NoEarlyDeadline s ls
        × (choose s ≡ some (none, s))
        × ((p : ℕ) → p < num_priorities → ls p ≡ []))
      ⊎ ((x : ℕ) × (s' : Sched) × (choose s ≡ some (some x, s'))
          × IsTaken s ls x s'
          × (IsUrgent s ls x ⊎ (NoEarlyDeadline s ls × IsBest ls (s.tcbs x).priority x)))
unfolding choose
choose-cases s ls v = elim (earliest-cases s ls v) [
  | inl (e, n) ↦ elim (pop_by_priority-cases s ls v) [
    | inl (a, b) ↦ inl (n, rw (choose, e, a), b)
    | inr (p, x, b, a) ↦
        let (t, q) = IsTaken-best s ls p x v b in
        inr (x, unlink p x none s, rw (choose, e, a), t, inr (n, rw q b))
  ]
  | inr (x, e, i, u) ↦ inr (
    x,
    unlink (s.tcbs x).priority x (pred_in x none (ls (s.tcbs x).priority)) s,
    rw (choose, e) (take_deadline-some s ls x v i),
    taken s ls x _ v i refl,
    inl u,
  )
]
