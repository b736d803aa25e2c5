-- ===== src/Sched.antt =====
-- Threads and ready queues: include/vortex/kernel/thread.hpp and src/kernel/scheduler.cpp.
-- A `ThreadControlBlock*` is its index in the pool `kTcbPool`; a null pointer is `none`.
pub mod Chain
pub mod Queues
pub mod Unlink
pub mod Schedule
mod Tests
use vortex_os.Base.{
  ℕ, zero, suc, ◌+◌, ◌-◌, ◌*◌, ◌%◌, ◌^◌, Bool, true, false, Option, none, some, List, ◌∷◌, ltb, leb,
  ◌==◌, if◌then◌else◌, update,
}

pub data ThreadState : Type 0 where
  ready running blocked dead : ThreadState

pub data SchedPolicy : Type 0 where
  fifo rr dl normal : SchedPolicy

pub record CpuContext : Type 0 where
  pub rbx : ℕ
  pub rbp : ℕ
  pub r12 : ℕ
  pub r13 : ℕ
  pub r14 : ℕ
  pub r15 : ℕ
  pub rsp : ℕ

pub record Tcb : Type 0 where
  pub context : CpuContext
  pub stack_base : ℕ
  pub stack_pages : ℕ
  pub state : ThreadState
  pub policy : SchedPolicy
  pub priority : ℕ
  pub runtime_ns : ℕ
  pub deadline_ns : ℕ
  pub period_ns : ℕ
  pub abs_deadline : ℕ
  pub id : ℕ
  pub name : ℕ
  pub process : Option ℕ
  pub next : Option ℕ

pub record ReadyQueue : Type 0 where
  pub head : Option ℕ
  pub tail : Option ℕ

-- What the scheduler does to the processor, in the order of time from the end of the list.
pub data Action : Type 0 where
  set_rsp0 : ℕ → Action
  switch : (old new : ℕ) → Action
  arm_timer : (ms : ℕ) → Action
  eoi : Action

pub record Sched : Type 0 where
  pub tcbs : ℕ → Tcb
  pub next_tcb_index : ℕ
  pub next_thread_id : ℕ
  pub current : Option ℕ
  pub idle : Option ℕ
  pub queues : ℕ → ReadyQueue
  pub total_ready : ℕ
  pub enabled : Bool
  pub trace : List Action

abbrev pub num_priorities : ℕ
num_priorities = 140

abbrev pub word32 : ℕ
word32 = 2 ^ 32

-- The writes of one field.
abbrev pub set_tcb : ℕ → Tcb → Sched → Sched
set_tcb i t s = record s { tcbs = update s.tcbs i t }

abbrev pub set_next : ℕ → Option ℕ → Sched → Sched
set_next i p s = set_tcb i (record (s.tcbs i) { next = p }) s

abbrev pub set_state : ℕ → ThreadState → Sched → Sched
set_state i st s = set_tcb i (record (s.tcbs i) { state = st }) s

abbrev pub set_queue : ℕ → ReadyQueue → Sched → Sched
set_queue p q s = record s { queues = update s.queues p q }

abbrev pub set_head : ℕ → Option ℕ → Sched → Sched
set_head p h s = set_queue p (record (s.queues p) { head = h }) s

abbrev pub set_tail : ℕ → Option ℕ → Sched → Sched
set_tail p t s = set_queue p (record (s.queues p) { tail = t }) s

-- `if (tail) tail->next = tcb; else head = tcb;`
unfoldable pub link_last : Option ℕ → ℕ → ℕ → Sched → Sched
link_last (some last) prio t s = set_next last (some t) s
link_last none prio t s = set_head prio (some t) s

-- The body of `queue_push_back`, behind its check.
unfoldable pub append : ℕ → ℕ → Sched → Sched
unfolding link_last
append prio t s =
    let s1 = set_next t none s in
    let s2 = set_tail prio (some t) (link_last (s1.queues prio).tail prio t s1) in
    record s2 { total_ready = (s2.total_ready + 1) % word32 }

-- `none` is the panic of `KERNEL_BUG_ON(prio >= 140)`.
unfoldable pub queue_push_back : ℕ → ℕ → Sched → Option Sched
queue_push_back prio t s = if leb num_priorities prio then none else some (append prio t s)

-- `if (!head) tail = nullptr;`, by the new head.
unfoldable pub drop_tail : Option ℕ → ℕ → Sched → Sched
drop_tail none prio s = set_tail prio none s
drop_tail (some n) prio s = s

-- The body of `queue_pop_front` for a queue with the head `t`.
unfoldable pub pop_head : ℕ → ℕ → Sched → Sched
unfolding drop_tail
pop_head prio t s =
    let s1 = set_head prio (s.tcbs t).next s in
    let s3 = set_next t none (drop_tail (s.tcbs t).next prio s1) in
    record s3 { total_ready = (s3.total_ready + word32 - 1) % word32 }

unfoldable pub queue_pop_front : ℕ → Sched → Option ℕ × Sched
unfolding pop_head
queue_pop_front prio s = elim (s.queues prio).head [
  | none ↦ (none, s)
  | some t ↦ (some t, pop_head prio t s)
]

-- How `schedule` takes a thread from the middle of its queue, `prev` being the one before it.
unfoldable pub skip : Option ℕ → ℕ → Option ℕ → Sched → Sched
skip (some x) prio n s = set_next x n s
skip none prio n s = set_head prio n s

unfoldable pub end_at : Option ℕ → ℕ → Option ℕ → Sched → Sched
end_at (some n) prio prev s = s
end_at none prio prev s = set_tail prio prev s

unfoldable pub unlink : ℕ → ℕ → Option ℕ → Sched → Sched
unfolding skip end_at
unlink prio t prev s =
    let s1 = skip prev prio (s.tcbs t).next s in
    let s2 = end_at (s1.tcbs t).next prio prev s1 in
    let s3 = set_next t none s2 in
    record s3 { total_ready = (s3.total_ready + word32 - 1) % word32 }

-- `while (curr != next) { prev = curr; curr = curr->next; }` on fuel; `none` is a null pointer
-- followed, or the fuel run out.
unfoldable pub find_prev : ℕ → Option ℕ → Option ℕ → ℕ → Sched → Option (Option ℕ)
find_prev zero curr prev t s = none
find_prev (suc fuel) none prev t s = none
find_prev (suc fuel) (some x) prev t s =
    let rest = find_prev fuel (s.tcbs x).next (some x) t s in if x == t then some prev else rest
