-- ===== src/Thread.antt =====
-- The life of a kernel thread: src/kernel/thread.cpp, and the switch between two threads,
-- src/arch/x86_64/context_switch.S.
pub mod Switch
pub mod Create
mod Tests
use vortex_os.Base.{
  ℕ, zero, suc, ◌+◌, ◌-◌, ◌*◌, ◌%◌, ◌^◌, Bool, true, false, Option, none, some, List, [], ◌∷◌, leb,
  ◌==◌, if◌then◌else◌, update,
}
use vortex_os.Mm.{Pmm, pmm_alloc_pages, pmm_get_hhdm_offset, page_size, word}
use vortex_os.Sched.{
  ThreadState, ready, running, dead, fifo, CpuContext, Tcb, Sched, set_tcb, set_state, word32,
}

-- The 64-bit words of memory, by their addresses.
abbrev pub Memory : Type 0
Memory = ℕ → ℕ

-- The registers that `context_switch` reads and writes.
pub record Cpu : Type 0 where
  pub rbx : ℕ
  pub rbp : ℕ
  pub r12 : ℕ
  pub r13 : ℕ
  pub r14 : ℕ
  pub r15 : ℕ
  pub rsp : ℕ
  pub rip : ℕ

-- What the creation of a thread reads and writes.
pub record Kernel : Type 0 where
  pub sched : Sched
  pub pmm : Pmm
  pub memory : Memory

abbrev pub kthread_stack_pages : ℕ
kthread_stack_pages = 4

abbrev pub max_threads : ℕ
max_threads = 64

-- A control block with all bytes 0.
abbrev pub zero_tcb : Tcb
zero_tcb = record {
  context = record { rbx = 0; rbp = 0; r12 = 0; r13 = 0; r14 = 0; r15 = 0; rsp = 0 };
  stack_base = 0;
  stack_pages = 0;
  state = ready;
  policy = fifo;
  priority = 0;
  runtime_ns = 0;
  deadline_ns = 0;
  period_ns = 0;
  abs_deadline = 0;
  id = 0;
  name = 0;
  process = none;
  next = none;
}

unfoldable pub alloc_tcb : Sched → Option ℕ × Sched
alloc_tcb s =
    let i = s.next_tcb_index in
    if leb max_threads i then (none, s) else (
      some i,
      record (set_tcb i (record zero_tcb { id = s.next_thread_id }) s) {
        next_tcb_index = (i + 1) % word32;
        next_thread_id = (s.next_thread_id + 1) % word32;
      },
    )

-- The address of the string "idle" is an argument. `none` is the panic of `KERNEL_BUG_ON`.
unfoldable pub thread_init : (idle_name : ℕ) → Sched → Option Sched
thread_init idle_name s =
    let (tcb, s1) = alloc_tcb s in
    let s2 = record s1 { idle = tcb } in
    elim tcb [
      | none ↦ none
      | some i ↦
          let t = record (s2.tcbs i) {
            name = idle_name;
            priority = 0;
            state = running;
            stack_base = 0;
            stack_pages = 0;
          } in
          some (record (set_tcb i t s2) { current = some i })
    ]

-- `*--sp = v`.
unfoldable pub push : ℕ → ℕ × Memory → ℕ × Memory
push v (sp, m) = let sp' = (sp + word - 8) % word in (sp', update m sp' v)

-- The first frame of a thread, below the top of its stack.
unfoldable pub first_frame : (trampoline func top : ℕ) → Memory → ℕ × Memory
first_frame trampoline func top m =
    push 0 (push 0 (push func (push 0 (push 0 (push 0 (push trampoline (top, m)))))))

-- How the fields of the control block are set when the stack is there.
abbrev pub new_thread : (name priority stack_phys sp : ℕ) → Tcb → Tcb
new_thread name priority stack_phys sp t = record t {
  name = name;
  priority = priority;
  state = ready;
  stack_base = stack_phys;
  stack_pages = kthread_stack_pages;
  next = none;
  context = record t.context { rsp = sp };
}

abbrev pub stack_top : ℕ → Pmm → ℕ
stack_top stack_phys p =
    (stack_phys + pmm_get_hhdm_offset p + kthread_stack_pages * page_size) % word

-- `kthread_create`; `trampoline` is the address of `thread_trampoline`. `none` is the panic when
-- there is no memory for the stack; a null pointer is returned when the pool is used up.
unfoldable pub kthread_create :
    (trampoline func name priority : ℕ) → Kernel → Option (Option ℕ × Kernel)
kthread_create trampoline func name priority k =
    let (tcb, s1) = alloc_tcb k.sched in
    elim tcb [
      | none ↦ some (none, record k { sched = s1 })
      | some i ↦
          let (stack_phys, pmm1) = pmm_alloc_pages kthread_stack_pages k.pmm in
          let (sp, m1) = first_frame trampoline func (stack_top stack_phys pmm1) k.memory in
          if stack_phys == 0
          then none
          else some (
            some i,
            record {
              sched = set_tcb i (new_thread name priority stack_phys sp (s1.tcbs i)) s1;
              pmm = pmm1;
              memory = m1;
            },
          )
    ]

-- The state that `thread_exit` leaves before it halts for good; `none` is a null pointer.
unfoldable pub thread_exit : Sched → Option Sched
thread_exit s = elim s.current [ none ↦ none | some c ↦ some (set_state c dead s) ]

unfoldable pub thread_set_current : Option ℕ → Sched → Sched
thread_set_current tcb s = record s { current = tcb }

-- The first half of `context_switch`: the registers of the old thread go to its stack. The value
-- for `old_ctx->rsp` comes first.
unfoldable pub save_context : Cpu → Memory → ℕ × Memory
save_context c m =
    push c.r15 (push c.r14 (push c.r13 (push c.r12 (push c.rbp (push c.rbx (c.rsp, m))))))

-- The second half: the registers of the new thread come from its stack, and `ret` takes the
-- return address.
unfoldable pub restore_context : ℕ → Memory → Cpu
restore_context sp m = record {
  r15 = m sp;
  r14 = m ((sp + 8) % word);
  r13 = m ((sp + 16) % word);
  r12 = m ((sp + 24) % word);
  rbp = m ((sp + 32) % word);
  rbx = m ((sp + 40) % word);
  rip = m ((sp + 48) % word);
  rsp = (sp + 56) % word;
}

-- `context_switch`, with `old_ctx` and `new_ctx` as the control blocks that hold them.
unfoldable pub context_switch : (old new : ℕ) → Cpu → Sched → Memory → Cpu × Sched × Memory
context_switch old new c s m =
    let (sp, m1) = save_context c m in
    let t = s.tcbs old in
    let s1 = set_tcb old (record t { context = record t.context { rsp = sp } }) s in
    (restore_context (s1.tcbs new).context.rsp m1, s1, m1)
