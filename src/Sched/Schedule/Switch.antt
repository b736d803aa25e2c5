-- ===== src/Sched/Schedule/Switch.antt =====
-- A whole call of `schedule`: the current thread goes to the end of its line, the thread to run
-- next is taken, and it becomes the current one.
use vortex_os.Base.{
  ℕ, ◌+◌, ◌<◌, ◌≡◌, refl, ◌⊎◌, inl, inr, true, false, Option, none, some, [], ◌∷◌, ◌++◌, arith,
  if◌then◌else◌, has, erase, Bool-cases, update, ==→eq, subst, ◌∙◌,
}
use vortex_os.Sched.{
  ThreadState, ready, Sched, set_state, append, queue_push_back, unlink, num_priorities, word32,
}
use vortex_os.Sched.Chain.{Chain-same}
use vortex_os.Sched.Queues.{Lines, IsQueued, all_waiting, append-IsQueued, append-Appended}
use vortex_os.Sched.Unlink.{pred_in, pred_in_self, unlink-Unlinked}
use vortex_os.Sched.Schedule.{is_running, reenqueue, choose}
use vortex_os.Sched.Schedule.Pick.{IsUrgent, NoEarlyDeadline}
use vortex_os.Sched.Schedule.Choose.{IsBest, IsTaken, choose-cases}

-- No line holds `x`.
abbrev pub IsOff : ℕ → Lines → Type 0
IsOff x ls = (q : ℕ) → has x (ls q) ≡ false

-- The lines when step 1 of `schedule` is done.
abbrev pub requeued : ℕ → Sched → Lines → Lines
requeued c s ls =
    if is_running (s.tcbs c).state
    then update ls (s.tcbs c).priority (ls (s.tcbs c).priority ++ c ∷ [])
    else ls

-- The thread `c` runs, or has just stopped, and all others that can run wait in `ls`.
pub record IsCurrent (s : Sched) (ls : Lines) (c : ℕ) : Type 0 where
  pub queued : IsQueued s ls
  pub on : s.enabled ≡ true
  pub current : s.current ≡ some c
  pub off : IsOff c ls
  pub small : (s.tcbs c).priority < num_priorities
  pub room : all_waiting ls + 1 < word32

pub set_state-IsQueued :
    (s : Sched) (ls : Lines) (c : ℕ) (st : ThreadState)
    → IsQueued s ls
    → IsOff c ls
    → IsQueued (set_state c st s) ls
set_state-IsQueued s ls c st v n = record {
  chains = λ p.
      Chain-same s.tcbs (set_state c st s).tcbs (s.queues p).head (ls p) (v.chains p)
        (λ x h. ground arith);
  tails = v.tails;
  distinct = v.distinct;
  listed = λ p x h. ground (arith, v.listed p x, n p, ==→eq c x);
  counted = v.counted;
  room = v.room;
}

-- What no step of `schedule` before the switch changes.
pub record IsKept (s s' : Sched) : Type 0 where
  pub on : s'.enabled ≡ s.enabled
  pub current : s'.current ≡ s.current
  pub idle : s'.idle ≡ s.idle
  pub trace : s'.trace ≡ s.trace
  pub policy : (x : ℕ) → (s'.tcbs x).policy ≡ (s.tcbs x).policy
  pub deadline : (x : ℕ) → (s'.tcbs x).abs_deadline ≡ (s.tcbs x).abs_deadline
  pub priority : (x : ℕ) → (s'.tcbs x).priority ≡ (s.tcbs x).priority

append-IsKept : (p t : ℕ) (s : Sched) → IsKept s (append p t s)
unfolding append
append-IsKept p t s = record {
  on = ground arith;
  current = ground arith;
  idle = ground arith;
  trace = ground arith;
  policy = λ x. (append-Appended p t x s).policy;
  deadline = λ x. (append-Appended p t x s).deadline;
  priority = λ x. (append-Appended p t x s).priority;
}

set_state-IsKept : (c : ℕ) (st : ThreadState) (s : Sched) → IsKept s (set_state c st s)
set_state-IsKept c st s = record {
  on = refl;
  current = refl;
  idle = refl;
  trace = refl;
  policy = λ x. ground arith;
  deadline = λ x. ground arith;
  priority = λ x. ground arith;
}

unlink-kept :
    (p t : ℕ) (prev : Option ℕ) (s : Sched)
    → ((unlink p t prev s).enabled ≡ s.enabled)
      × ((unlink p t prev s).current ≡ s.current)
      × ((unlink p t prev s).idle ≡ s.idle)
      × ((unlink p t prev s).trace ≡ s.trace)
unfolding unlink
unlink-kept p t prev s = ground arith

taken-IsKept : (s s' : Sched) (ls : Lines) (x : ℕ) → IsTaken s ls x s' → IsKept s s'
taken-IsKept s s' ls x t =
    let p = (s.tcbs x).priority in
    let prev = pred_in x none (ls p) in
    let k = unlink-kept p x prev s in
    let at = λ (y : ℕ). unlink-Unlinked p x y prev s (pred_in_self x none (ls p) refl) in
    rw t.left (record {
      on = k.0;
      current = k.1;
      idle = k.2;
      trace = k.3;
      policy = λ y. (at y).policy;
      deadline = λ y. (at y).deadline;
      priority = λ y. (at y).priority;
    })

pub reenqueue-some :
    (s : Sched) (ls : Lines) (c : ℕ)
    → IsCurrent s ls c
    → (s1 : Sched) × (reenqueue c s ≡ some s1) × IsQueued s1 (requeued c s ls) × IsKept s s1
unfolding reenqueue queue_push_back
reenqueue-some s ls c v = elim (Bool-cases (is_running (s.tcbs c).state)) [
  | inl h ↦
      let s0 = set_state c ready s in
      let p = (s.tcbs c).priority in
      let q = set_state-IsQueued s ls c ready v.queued v.off in
      let k = append-IsKept p c s0 in
      (
        append p c s0,
        ground (arith, v.small),
        rw h (append-IsQueued s0 ls q p c (ground arith) (ground arith) v.small (v.off p) v.room),
        record {
          on = k.on;
          current = k.current;
          idle = k.idle;
          trace = k.trace;
          policy = λ x. k.policy x ∙ (set_state-IsKept c ready s).policy x;
          deadline = λ x. k.deadline x ∙ (set_state-IsKept c ready s).deadline x;
          priority = λ x. k.priority x ∙ (set_state-IsKept c ready s).priority x;
        },
      )
  | inr h ↦ (
    s,
    ground arith,
    rw h v.queued,
    record {
      on = refl;
      current = refl;
      idle = refl;
      trace = refl;
      policy = λ x. refl;
      deadline = λ x. refl;
      priority = λ x. refl;
    },
  )
]

-- The lines that step 2 leaves: without the thread it took, if it took one.
abbrev pub lines_after : Option ℕ → Sched → Lines → Lines
lines_after none s ls = ls
lines_after (some x) s ls = update ls (s.tcbs x).priority (erase x (ls (s.tcbs x).priority))

-- Why `x` is the right thread to run when step 2 starts with the lines `ls`.
abbrev pub IsRightNext : Sched → Lines → Option ℕ → Type 0
IsRightNext s ls none = NoEarlyDeadline s ls × ((p : ℕ) → p < num_priorities → ls p ≡ [])
IsRightNext s ls (some x) =
    (has x (ls (s.tcbs x).priority) ≡ true)
    × (IsUrgent s ls x ⊎ (NoEarlyDeadline s ls × IsBest ls (s.tcbs x).priority x))

IsUrgent-kept :
    (s s1 : Sched) (ls : Lines) (x : ℕ) → IsKept s s1 → IsUrgent s1 ls x → IsUrgent s ls x
IsUrgent-kept s s1 ls x k u = record {
  policy = ground (arith, u.policy, k.policy x);
  counts = ground (arith, u.counts, k.deadline x);
  least = λ q y h d. ground (arith, u.least q y h, k.policy y, k.deadline x, k.deadline y);
}

NoEarlyDeadline-kept :
    (s s1 : Sched) (ls : Lines) → IsKept s s1 → NoEarlyDeadline s1 ls → NoEarlyDeadline s ls
NoEarlyDeadline-kept s s1 ls k u = λ q y h d. ground (arith, u q y h, k.policy y, k.deadline y)

-- What `choose` returns, in the terms of the state before step 1.
pub record IsChosen (s s1 s2 : Sched) (ls : Lines) (next : Option ℕ) : Type 0 where
  pub chosen : choose s1 ≡ some (next, s2)
  pub right : IsRightNext s ls next
  pub queued : IsQueued s2 (lines_after next s ls)
  pub kept : IsKept s s2

pub choose-IsChosen :
    (s s1 : Sched) (ls : Lines)
    → IsQueued s1 ls
    → IsKept s s1
    → (next : Option ℕ) × (s2 : Sched) × IsChosen s s1 s2 ls next
choose-IsChosen s s1 ls v k = elim (choose-cases s1 ls v) [
  | inl (n, e, empty) ↦ (
    none,
    s1,
    record { chosen = e; right = (NoEarlyDeadline-kept s s1 ls k n, empty); queued = v; kept = k },
  )
  | inr (x, s2, e, t, why) ↦
      let k2 = taken-IsKept s1 s2 ls x t in
      (
        some x,
        s2,
        record {
          chosen = e;
          right = (
            subst (λ p. has x (ls p) ≡ true) (k.priority x) t.member,
            elim why [
              | inl u ↦ inl (IsUrgent-kept s s1 ls x k u)
              | inr (n, b) ↦
                  inr
                    (NoEarlyDeadline-kept s s1 ls k n, subst (λ p. IsBest ls p x) (k.priority x) b)
            ],
          );
          queued = subst (λ p. IsQueued s2 (update ls p (erase x (ls p)))) (k.priority x) t.queued;
          kept = record {
            on = k2.on ∙ k.on;
            current = k2.current ∙ k.current;
            idle = k2.idle ∙ k.idle;
            trace = k2.trace ∙ k.trace;
            policy = λ y. k2.policy y ∙ k.policy y;
            deadline = λ y. k2.deadline y ∙ k.deadline y;
            priority = λ y. k2.priority y ∙ k.priority y;
          };
        },
      )
]
