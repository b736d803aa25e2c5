-- ===== src/Sched/Tests.antt =====
-- Four threads: 0 is the idle thread, 1 runs, 2 waits with the priority 50 and 3 with a deadline.
use vortex_os.Base.{
  ℕ, zero, suc, ◌<◌, ◌≡◌, refl, ◌⊎◌, true, false, Option, none, some, [], ◌∷◌, arith, update, ap,
}
use vortex_os.Sched.{
  Tcb, Sched, ready, running, fifo, dl, normal, SchedPolicy, ThreadState, eoi, append,
  queue_push_back, find_prev, unlink, queue_pop_front, num_priorities,
}
use vortex_os.Sched.Queues.{Lines, IsQueued, waiting, append-IsQueued, append-Appended}
use vortex_os.Sched.Schedule.{
  schedule, choose, apic_timer_handler, enqueue_thread, is_dl, reenqueue, earliest, scan_lines,
  scan_line, consider, dispatch, take_deadline, pop_by_priority, pop_down,
}
use vortex_os.Sched.Schedule.Pick.{IsUrgent, NoEarlyDeadline}
use vortex_os.Sched.Schedule.Choose.{IsBest, IsTaken, choose-cases}
use vortex_os.Sched.Schedule.Switch.{IsCurrent}
use vortex_os.Sched.Schedule.Next.{IsScheduled, schedule-IsScheduled}
use vortex_os.Sched.Schedule.Idle.{schedule-idle_first}
use vortex_os.Sched.Schedule.Timer.{enqueue_thread-IsQueued, timer-alone}

abbrev thread : ThreadState → SchedPolicy → (priority deadline : ℕ) → Tcb
thread st pol prio deadline = record {
  context = record { rbx = 0; rbp = 0; r12 = 0; r13 = 0; r14 = 0; r15 = 0; rsp = 0 };
  stack_base = 4096;
  stack_pages = 4;
  state = st;
  policy = pol;
  priority = prio;
  runtime_ns = 0;
  deadline_ns = 0;
  period_ns = 0;
  abs_deadline = deadline;
  id = 0;
  name = 0;
  process = none;
  next = none;
}

abbrev threads : ℕ → Tcb
threads zero = thread ready normal 139 0
threads (suc zero) = thread running normal 120 0
threads (suc (suc zero)) = thread ready fifo 50 0
threads (suc (suc (suc x))) = thread ready dl 20 1000

-- Only the thread 1 runs, and no thread waits.
abbrev alone : Sched
alone = record {
  tcbs = threads;
  next_tcb_index = 4;
  next_thread_id = 4;
  current = some 1;
  idle = some 0;
  queues = λ p. record { head = none; tail = none };
  total_ready = 0;
  enabled = true;
  trace = [];
}

abbrev no_lines : Lines
no_lines p = []

no_lines-waiting : (n : ℕ) → waiting n no_lines ≡ 0
unfolding waiting
no_lines-waiting zero = refl
no_lines-waiting (suc n) = rw (no_lines-waiting n)

alone-IsQueued : IsQueued alone no_lines
alone-IsQueued = record {
  chains = λ p. refl;
  tails = λ p. refl;
  distinct = λ p. tt;
  listed = λ p x h. cc;
  counted = rw (no_lines-waiting num_priorities);
  room = omega (arith, no_lines-waiting num_priorities);
}

alone-IsCurrent : IsCurrent alone no_lines 1
alone-IsCurrent = record {
  queued = alone-IsQueued;
  on = refl;
  current = refl;
  off = λ q. refl;
  small = omega arith;
  room = omega (arith, no_lines-waiting num_priorities);
}

-- The thread 2 waits, then the thread 3 too.
abbrev one_ready : Sched
one_ready = append 50 2 alone

abbrev one_line : Lines
one_line = update no_lines 50 (2 ∷ [])

one_ready-IsQueued : IsQueued one_ready one_line
one_ready-IsQueued =
    append-IsQueued alone no_lines alone-IsQueued 50 2 refl refl (omega arith) refl
      (omega (arith, no_lines-waiting num_priorities))

timer-alone_example :
    (s' : Sched) × (apic_timer_handler 0 alone ≡ some s')
    × (s'.current ≡ some 1)
    × (s'.trace ≡ eoi ∷ [])
timer-alone_example =
    timer-alone 0 alone no_lines 1 0 alone-IsCurrent refl (omega arith) refl refl (λ q. refl)

enqueue_thread-IsQueued_example :
    (s' : Sched) × (enqueue_thread 3 alone ≡ some s')
    × IsQueued s' (update no_lines 20 (3 ∷ []))
    × ((s'.tcbs 3).state ≡ ready)
enqueue_thread-IsQueued_example =
    enqueue_thread-IsQueued alone no_lines 3 alone-IsQueued (λ q. refl) (omega arith)
      (omega (arith, no_lines-waiting num_priorities))

one_ready-IsCurrent : IsCurrent one_ready one_line 1
unfolding append
one_ready-IsCurrent = record {
  queued = one_ready-IsQueued;
  on = refl;
  current = refl;
  off = λ q. ground arith;
  small = omega arith;
  room = omega (arith, one_ready-IsQueued.counted);
}

-- The thread 2 has the better priority.
schedule-IsScheduled_example :
    (picked : Option ℕ) × (n : ℕ) × (s' : Sched) × (schedule 0 one_ready ≡ some s')
    × IsScheduled one_ready one_line 1 picked n s'
unfolding append
schedule-IsScheduled_example =
    schedule-IsScheduled 0 one_ready one_line 1 0 one_ready-IsCurrent refl (omega arith)

choose-cases_example :
    (NoEarlyDeadline one_ready one_line
      × (choose one_ready ≡ some (none, one_ready))
      × ((p : ℕ) → p < num_priorities → one_line p ≡ []))
    ⊎ ((x : ℕ) × (s' : Sched) × (choose one_ready ≡ some (some x, s'))
        × IsTaken one_ready one_line x s'
        × (IsUrgent one_ready one_line x
            ⊎ (NoEarlyDeadline one_ready one_line × IsBest one_line (one_ready.tcbs x).priority x)))
choose-cases_example = choose-cases one_ready one_line one_ready-IsQueued

abbrev running_after : Option Sched → Option ℕ
running_after none = none
running_after (some s) = s.current

-- The deadline task goes before the better priority.
picks_deadline : running_after (schedule 0 (append 20 3 one_ready)) ≡ some 3
unfolding schedule append reenqueue queue_push_back choose earliest scan_lines scan_line consider
    dispatch take_deadline find_prev unlink
picks_deadline = refl

picks_priority : running_after (schedule 0 one_ready) ≡ some 2
unfolding schedule append reenqueue queue_push_back choose earliest scan_lines scan_line consider
    dispatch pop_by_priority pop_down queue_pop_front
picks_priority = refl

-- The idle thread 0 runs, and the thread 1 waits with the priority 120.
abbrev idle_threads : ℕ → Tcb
idle_threads zero = thread running fifo 0 0
idle_threads (suc x) = thread ready normal 120 0

abbrev idling : Sched
idling = append 120 1 (record alone { tcbs = idle_threads; current = some 0 })

abbrev normal_line : Lines
normal_line = update no_lines 120 (1 ∷ [])

idling-IsCurrent : IsCurrent idling normal_line 0
unfolding append
idling-IsCurrent =
    let empty : IsQueued (record alone { tcbs = idle_threads; current = some 0 }) no_lines =
      record {
        chains = λ p. refl;
        tails = λ p. refl;
        distinct = λ p. tt;
        listed = λ p x h. cc;
        counted = rw (no_lines-waiting num_priorities);
        room = omega (arith, no_lines-waiting num_priorities);
      } in
    let queued =
      append-IsQueued _ no_lines empty 120 1 refl refl (omega arith) refl
        (omega (arith, no_lines-waiting num_priorities)) in
    record {
      queued = queued;
      on = refl;
      current = refl;
      off = λ q. ground arith;
      small = omega arith;
      room = omega (arith, queued.counted);
    }

idling-policy : (x : ℕ) → is_dl (idling.tcbs x).policy ≡ false
idling-policy zero =
    ap is_dl
      (append-Appended 120 1 zero (record alone { tcbs = idle_threads; current = some 0 })).policy
idling-policy (suc x) =
    ap is_dl
      (append-Appended 120 1 (suc x)
        (record alone { tcbs = idle_threads; current = some 0 })).policy

schedule-idle_first_example :
    (s' : Sched) × (schedule 0 idling ≡ some s') × (s'.current ≡ some 0) × (s'.trace ≡ [])
unfolding append
schedule-idle_first_example =
    schedule-idle_first 0 idling normal_line 0 idling-IsCurrent refl (record {
      running = refl;
      lowest = refl;
      no_deadline = idling-policy;
      no_rt = λ p h. ground arith;
    })
