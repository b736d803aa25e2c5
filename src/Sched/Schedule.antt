-- ===== src/Sched/Schedule.antt =====
-- `schedule` and what calls it: src/kernel/scheduler.cpp.
pub mod Pick
pub mod Choose
pub mod Switch
pub mod Next
pub mod Timer
pub mod Idle
use vortex_os.Base.{
  ℕ, zero, suc, ◌+◌, ◌-◌, ◌*◌, ◌%◌, ◌^◌, Bool, true, false, not, ◌&&◌, ◌||◌, Option, none, some,
  List, ◌∷◌, ltb, leb, ◌==◌, if◌then◌else◌, ◌>>=◌, is_none,
}
use vortex_os.Sched.{
  ThreadState, ready, running, blocked, dead, SchedPolicy, fifo, rr, dl, normal, Tcb, Sched, Action,
  set_rsp0, switch, arm_timer, eoi, num_priorities, set_state, queue_push_back, queue_pop_front,
  find_prev, unlink,
}

abbrev pub is_dl : SchedPolicy → Bool
is_dl dl = true
is_dl _ = false

abbrev pub is_fifo : SchedPolicy → Bool
is_fifo fifo = true
is_fifo _ = false

abbrev pub is_running : ThreadState → Bool
is_running running = true
is_running _ = false

abbrev pub max_deadline : ℕ
max_deadline = 2 ^ 64 - 1

-- The earliest deadline so far, and the thread that has it.
abbrev pub Earliest : Type 0
Earliest = ℕ × Option ℕ

unfoldable pub consider : Tcb → ℕ → Earliest → Earliest
consider c x (d, best) =
    if is_dl c.policy && ltb c.abs_deadline d then (c.abs_deadline, some x) else (d, best)

-- The walk over one queue, on fuel.
unfoldable pub scan_line : ℕ → Option ℕ → Sched → Earliest → Earliest
scan_line zero curr s acc = acc
scan_line (suc fuel) none s acc = acc
scan_line (suc fuel) (some x) s acc = scan_line fuel (s.tcbs x).next s (consider (s.tcbs x) x acc)

-- `for (p = 0; p < 140; ++p)`, with the rounds that are left. No queue is longer than the count
-- of all ready threads.
unfoldable pub scan_lines : ℕ → ℕ → Sched → Earliest → Earliest
scan_lines zero p s acc = acc
scan_lines (suc rounds) p s acc =
    scan_lines rounds (p + 1) s (scan_line (suc s.total_ready) (s.queues p).head s acc)

unfoldable pub earliest : Sched → Option ℕ
earliest s = (scan_lines num_priorities 0 s (max_deadline, none)).1

unfoldable pub take_deadline : ℕ → Sched → Option (Option ℕ × Sched)
take_deadline t s = do
  let prio = (s.tcbs t).priority
  prev ← find_prev (suc s.total_ready) (s.queues prio).head none t s
  some (some t, unlink prio t prev s)

-- `for (p = 99; p >= 0; --p)`, from `p - 1` down.
unfoldable pub pop_down : ℕ → Sched → Option ℕ × Sched
pop_down zero s = (none, s)
pop_down (suc p) s =
    let (next, s') = queue_pop_front p s in
    elim next [ some t ↦ (some t, s') | none ↦ pop_down p s' ]

-- `for (p = 100; p < 140; ++p)`, with the rounds that are left.
unfoldable pub pop_up : ℕ → ℕ → Sched → Option ℕ × Sched
pop_up zero p s = (none, s)
pop_up (suc rounds) p s =
    let (next, s') = queue_pop_front p s in
    elim next [ some t ↦ (some t, s') | none ↦ pop_up rounds (p + 1) s' ]

unfoldable pub pop_by_priority : Sched → Option ℕ × Sched
pop_by_priority s =
    let (next, s') = pop_down 100 s in elim next [ some t ↦ (some t, s') | none ↦ pop_up 40 100 s' ]

unfoldable pub choose : Sched → Option (Option ℕ × Sched)
choose s = elim (earliest s) [ some t ↦ take_deadline t s | none ↦ some (pop_by_priority s) ]

-- Step 1 of `schedule`: a thread that still runs goes to the end of its queue.
unfoldable pub reenqueue : ℕ → Sched → Option Sched
reenqueue c s =
    if is_running (s.tcbs c).state
    then queue_push_back (s.tcbs c).priority c (set_state c ready s)
    else some s

-- The part of step 3 before the switch, for `next != current`.
unfoldable pub switch_to : ℕ → ℕ → (hhdm : ℕ) → Sched → Sched
switch_to c n hhdm s =
    let s1 = record (set_state n running s) { current = some n } in
    let t = s1.tcbs n in
    let top = (t.stack_base + hhdm + t.stack_pages * 4096) % 2 ^ 64 in
    let s2 = if t.stack_base == 0 then s1 else record s1 { trace = set_rsp0 top ∷ s1.trace } in
    record s2 { trace = switch c n ∷ s2.trace }

unfoldable pub dispatch : ℕ → ℕ → (hhdm : ℕ) → Sched → Sched
unfolding switch_to
dispatch c n hhdm s = if n == c then set_state n running s else switch_to c n hhdm s

abbrev pub or_else : Option ℕ → Option ℕ → Option ℕ
or_else (some x) y = some x
or_else none y = y

-- `schedule` up to the return of its caller, or up to the switch to another thread. `none` is a
-- panic or a null pointer.
unfoldable pub schedule : (hhdm : ℕ) → Sched → Option Sched
schedule hhdm s = if not s.enabled then some s else do
  c ← s.current
  s1 ← reenqueue c s
  (next, s2) ← choose s1
  n ← or_else next s2.idle
  some (dispatch c n hhdm s2)

abbrev pub tick_interval_ms : ℕ
tick_interval_ms = 1

-- What is left of a call of `schedule` when its thread runs again: `next` is the thread that the
-- call switched to.
unfoldable pub after_switch : ℕ → Sched → Sched
after_switch next s =
    let quantum = if is_fifo (s.tcbs next).policy then 10 else tick_interval_ms in
    record s { trace = arm_timer quantum ∷ s.trace }

-- `for (p = 99; p > priority; --p) if (kReadyQueues[p].head)`, from `p - 1` down.
unfoldable pub any_above : ℕ → ℕ → Sched → Bool
any_above zero prio s = false
any_above (suc p) prio s =
    let rest = any_above p prio s in
    if not (ltb prio p) then false else if is_none (s.queues p).head then rest else true

unfoldable pub apic_timer_handler : (hhdm : ℕ) → Sched → Option Sched
apic_timer_handler hhdm s = do
  let s1 = record s { trace = eoi ∷ s.trace }
  c ← s1.current
  let t = s1.tcbs c
  if not (is_fifo t.policy) || any_above 100 t.priority s1
      then schedule hhdm s1
      else some (record s1 { trace = arm_timer tick_interval_ms ∷ s1.trace })

unfoldable pub yield_now : (hhdm : ℕ) → Sched → Option Sched
yield_now hhdm s = schedule hhdm s

-- The test for preemption at the end of `enqueue_thread` has an empty body.
unfoldable pub enqueue_thread : ℕ → Sched → Option Sched
enqueue_thread t s = queue_push_back (s.tcbs t).priority t (set_state t ready s)

pub ready_queue_size : Sched → ℕ
ready_queue_size s = s.total_ready

unfoldable pub scheduler_start : Sched → Sched
scheduler_start s = record s { enabled = true; trace = arm_timer tick_interval_ms ∷ s.trace }
