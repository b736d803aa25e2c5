-- ===== src/Sched/Schedule/Idle.antt =====
-- The idle thread as `thread_init` makes it: with the priority 0, which is served before 100 to
-- 139.
use vortex_os.Base.{
  ℕ, ◌<◌, ◌≡◌, ◌≢◌, inl, inr, true, false, Option, none, some, [], ◌∷◌, arith, ◌==◌, ltb,
  Bool-cases, ==→eq, subst, ltb→lt, ltb→ge,
}
use vortex_os.Sched.{Sched}
use vortex_os.Sched.Queues.{Lines}
use vortex_os.Sched.Schedule.{is_running, is_dl, schedule}
use vortex_os.Sched.Schedule.Choose.{IsBest}
use vortex_os.Sched.Schedule.Switch.{IsCurrent, requeued}
use vortex_os.Sched.Schedule.Next.{IsScheduled, schedule-IsScheduled}

-- No waiting thread is a deadline task, nor is `c`, and the lines 0 to 99 are empty.
pub record IsOrdinary (s : Sched) (ls : Lines) (c : ℕ) : Type 0 where
  pub running : is_running (s.tcbs c).state ≡ true
  pub lowest : (s.tcbs c).priority ≡ 0
  pub no_deadline : (x : ℕ) → is_dl (s.tcbs x).policy ≡ false
  pub no_rt : (p : ℕ) → p < 100 → ls p ≡ []

requeued-own : (s : Sched) (ls : Lines) (c : ℕ) → IsOrdinary s ls c → requeued c s ls 0 ≡ c ∷ []
requeued-own s ls c o = rw (o.running, o.lowest, o.no_rt 0 (omega arith))

requeued-rt :
    (s : Sched) (ls : Lines) (c p : ℕ)
    → IsOrdinary s ls c
    → p ≢ 0
    → p < 100
    → requeued c s ls p ≡ []
requeued-rt s ls c p o n h = ground (arith, o.running, o.lowest, o.no_rt p h, ==→eq 0 p)

best_is_own :
    (s : Sched) (ls : Lines) (c p x : ℕ) → IsOrdinary s ls c → IsBest (requeued c s ls) p x → x ≡ c
best_is_own s ls c p x o b = elim (Bool-cases (p == 0)) [
  | inl e ↦ ground (
    arith,
    subst (λ q. requeued c s ls q ≡ x ∷ b.rest) (==→eq p 0 e) b.first,
    requeued-own s ls c o,
  )
  | inr n ↦ elim (Bool-cases (ltb p 100)) [
    | inl h ↦
        absurd
          (ground (arith, b.first, requeued-rt s ls c p o (λ e. ground arith) (ltb→lt p 100 h)))
    | inr h ↦
        absurd
          (ground (arith, b.best 0 (rw h (omega (arith, ltb→ge p 100 h))), requeued-own s ls c o))
  ]
]

next_is_own :
    (s : Sched) (ls : Lines) (c n : ℕ) (picked : Option ℕ) (s' : Sched)
    → IsOrdinary s ls c
    → IsScheduled s ls c picked n s'
    → n ≡ c
next_is_own s ls c n none s' o h =
    absurd (ground (arith, h.right.1 0 (omega arith), requeued-own s ls c o))
next_is_own s ls c n (some x) s' o h = elim h.right.1 [
  | inl u ↦ absurd (ground (arith, u.policy, o.no_deadline x))
  | inr (d, b) ↦ ground (arith, h.next, best_is_own s ls c (s.tcbs x).priority x o b)
]

-- A running thread with the priority 0, which is what `thread_init` gives the idle thread, calls
-- `schedule` while no deadline task exists and no thread with a priority below 100 waits: it is
-- taken again, whatever threads with priorities from 100 to 139 wait.
pub schedule-idle_first :
    (hhdm : ℕ) (s : Sched) (ls : Lines) (c : ℕ)
    → IsCurrent s ls c
    → s.idle ≡ some c
    → IsOrdinary s ls c
    → (s' : Sched) × (schedule hhdm s ≡ some s') × (s'.current ≡ some c) × (s'.trace ≡ s.trace)
schedule-idle_first hhdm s ls c v idle o =
    let (picked, n, s', e, h) = schedule-IsScheduled hhdm s ls c c v idle v.small in
    let same = next_is_own s ls c n picked s' o h in
    (s', e, subst (λ x. s'.current ≡ some x) same h.current.current, h.stays same)
