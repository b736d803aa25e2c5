-- ===== src/Sched/Schedule/Timer.antt =====
-- What leads to `schedule`: the timer interrupt and a new thread.
use vortex_os.Base.{
  ℕ, ◌+◌, ◌<◌, ◌≡◌, inl, inr, true, false, not, ◌||◌, Option, none, some, [], ◌∷◌, ◌++◌, arith,
  if◌then◌else◌, has, Bool-cases, update, ==→eq, ==-self, subst, ◌∙◌, ◌>>=◌,
}
use vortex_os.Sched.{
  ready, Sched, eoi, arm_timer, set_state, append, queue_push_back, num_priorities, word32,
}
use vortex_os.Sched.Queues.{Lines, IsQueued, all_waiting, append-IsQueued, append-Appended}
use vortex_os.Sched.Schedule.{
  is_running, is_fifo, schedule, apic_timer_handler, enqueue_thread, any_above, tick_interval_ms,
}
use vortex_os.Sched.Schedule.Switch.{IsCurrent, IsOff, requeued, set_state-IsQueued}
use vortex_os.Sched.Schedule.Next.{IsScheduled, schedule-IsScheduled}

-- A thread that is not waiting and has a priority below 140 is put at the end of its line, READY,
-- without a panic; where there was room for it, the queues stay well formed.
pub enqueue_thread-IsQueued :
    (s : Sched) (ls : Lines) (t : ℕ)
    → IsQueued s ls
    → IsOff t ls
    → (s.tcbs t).priority < num_priorities
    → all_waiting ls + 1 < word32
    → (s' : Sched) × (enqueue_thread t s ≡ some s')
      × IsQueued s' (update ls (s.tcbs t).priority (ls (s.tcbs t).priority ++ t ∷ []))
      × ((s'.tcbs t).state ≡ ready)
unfolding enqueue_thread queue_push_back
enqueue_thread-IsQueued s ls t v o small room =
    let s0 = set_state t ready s in
    let p = (s.tcbs t).priority in
    let q = set_state-IsQueued s ls t ready v o in
    (
      append p t s0,
      ground arith,
      append-IsQueued s0 ls q p t (ground arith) (ground arith) small (o p) room,
      ground (arith, (append-Appended p t t s0).state),
    )

only_c :
    (s : Sched) (ls : Lines) (c x : ℕ)
    → ((q : ℕ) → ls q ≡ [])
    → has x (requeued c s ls (s.tcbs x).priority) ≡ true
    → x ≡ c
only_c s ls c x e h = elim (Bool-cases (is_running (s.tcbs c).state)) [
  | inl k ↦
      let i : has x
            (update ls (s.tcbs c).priority (ls (s.tcbs c).priority ++ c ∷ []) (s.tcbs x).priority)
          ≡ true =
        ground arith in
      ground (arith, e (s.tcbs c).priority, e (s.tcbs x).priority, ==→eq c x, ==→eq x c)
  | inr k ↦ absurd (ground (arith, e (s.tcbs x).priority))
]

-- A timer interrupt that finds `c` running and no other thread waiting.
timer-alone_next :
    (s : Sched) (ls : Lines) (c i : ℕ) (picked : Option ℕ) (n : ℕ) (s' : Sched)
    → IsScheduled s ls c picked n s'
    → is_running (s.tcbs c).state ≡ true
    → (s.tcbs c).priority < num_priorities
    → ((q : ℕ) → ls q ≡ [])
    → n ≡ c
timer-alone_next s ls c i none n s' h run small e = absurd (
    ground
      (arith, h.right.1 (s.tcbs c).priority, e (s.tcbs c).priority, ==-self (s.tcbs c).priority))
timer-alone_next s ls c i (some x) n s' h run small e =
    ground (arith, h.next, only_c s ls c x e h.right.0)

handler-schedules :
    (hhdm : ℕ) (s : Sched) (c : ℕ)
    → s.current ≡ some c
    → is_fifo (s.tcbs c).policy ≡ false
    → apic_timer_handler hhdm s ≡ schedule hhdm (record s { trace = eoi ∷ s.trace })
unfolding apic_timer_handler
handler-schedules hhdm s c e f =
    let s1 = record s { trace = eoi ∷ s.trace } in
    let first : (o : Option ℕ)
        → o ≡ some c
        → (o >>= λ c.
            if not (is_fifo (s.tcbs c).policy) || any_above 100 (s.tcbs c).priority s1
            then schedule hhdm s1
            else some (record s1 { trace = arm_timer tick_interval_ms ∷ s1.trace }))
          ≡ schedule hhdm s1 =
      λ o k. rw (k, f) in
    first s.current e

-- A timer interrupt in a running thread `c` that is not FIFO, while no other thread waits, the
-- queues being well formed and the priorities of `c` and of the idle thread below 140: the thread
-- goes on, and the interrupt is acknowledged and nothing else is done; the one-shot timer is not
-- armed again.
pub timer-alone :
    (hhdm : ℕ) (s : Sched) (ls : Lines) (c i : ℕ)
    → IsCurrent s ls c
    → s.idle ≡ some i
    → (s.tcbs i).priority < num_priorities
    → is_running (s.tcbs c).state ≡ true
    → is_fifo (s.tcbs c).policy ≡ false
    → ((q : ℕ) → ls q ≡ [])
    → (s' : Sched) × (apic_timer_handler hhdm s ≡ some s')
      × (s'.current ≡ some c)
      × (s'.trace ≡ eoi ∷ s.trace)
timer-alone hhdm s ls c i v idle small run f e =
    let s0 = record s { trace = eoi ∷ s.trace } in
    let q : IsQueued s0 ls = record {
      chains = v.queued.chains;
      tails = v.queued.tails;
      distinct = v.queued.distinct;
      listed = v.queued.listed;
      counted = v.queued.counted;
      room = v.queued.room;
    } in
    let v0 : IsCurrent s0 ls c = record {
      queued = q;
      on = v.on;
      current = v.current;
      off = v.off;
      small = v.small;
      room = v.room;
    } in
    let (picked, n, s', eq, h) = schedule-IsScheduled hhdm s0 ls c i v0 idle small in
    let same = timer-alone_next s0 ls c i picked n s' h run v.small e in
    (
      s',
      handler-schedules hhdm s c v.current f ∙ eq,
      subst (λ x. s'.current ≡ some x) same h.current.current,
      h.stays same,
    )
