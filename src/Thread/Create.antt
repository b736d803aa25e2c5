-- ===== src/Thread/Create.antt =====
-- What `kthread_create` makes of the next free control block, and where the new thread starts.
use vortex_os.Base.{
  ℕ, ◌+◌, ◌-◌, ◌%◌, ◌≤◌, ◌<◌, ◌≡◌, ◌≢◌, refl, false, none, some, arith, leb, ◌==◌, update, ap, sym,
  ne→==, ==-self, ==→eq, Bool-cases, ◌⊎◌, inl, inr,
}
use vortex_os.Mm.{pmm_alloc_pages, word}
use vortex_os.Sched.{ready, Sched, set_tcb, word32}
use vortex_os.Thread.{
  Memory, Cpu, Kernel, max_threads, kthread_stack_pages, alloc_tcb, first_frame, stack_top,
  kthread_create, restore_context, new_thread, zero_tcb,
}
use vortex_os.Thread.Switch.{push-eq}

-- The memory with the first frame of a thread.
unfoldable pub framed : (trampoline func top : ℕ) → Memory → Memory
framed trampoline func top m =
    update
      (update
        (update
          (update (update (update (update m (top - 8) trampoline) (top - 16) 0) (top - 24) 0)
            (top - 32) 0)
          (top - 40) func)
        (top - 48) 0)
      (top - 56) 0

first_frame-eq :
    (trampoline func top : ℕ) (m : Memory)
    → 56 ≤ top
    → top < word
    → first_frame trampoline func top m ≡ (top - 56, framed trampoline func top m)
unfolding first_frame framed
first_frame-eq trampoline func top m h k =
    let start : top ≡ top - 0 = omega arith in
    push-eq 48 0 top _ _
      (push-eq 40 0 top _ _
        (push-eq 32 func top _ _
          (push-eq 24 0 top _ _
            (push-eq 16 0 top _ _
              (push-eq 8 0 top _ _
                (push-eq 0 trampoline top (top, m) m (ap (λ a. (a, m)) start) (omega arith) k)
                (omega arith) k)
              (omega arith) k)
            (omega arith) k)
          (omega arith) k)
        (omega arith) k)
      (omega arith) k

-- The registers with which a new thread starts.
abbrev pub first_registers : (trampoline func top : ℕ) → Cpu
first_registers trampoline func top = record {
  rbx = 0;
  rbp = 0;
  r12 = 0;
  r13 = func;
  r14 = 0;
  r15 = 0;
  rsp = top;
  rip = trampoline;
}

restore-framed :
    (trampoline func top : ℕ) (m : Memory)
    → 56 ≤ top
    → top < word
    → restore_context (top - 56) (framed trampoline func top m)
      ≡ first_registers trampoline func top
unfolding restore_context framed
restore-framed trampoline func top m h k =
    let at : (i j : ℕ) → i + j ≡ 56 → (top - 56 + i) % word ≡ top - j = λ i j e. omega arith in
    let a0 : (top - 56 + 56) % word ≡ top = omega arith in
    rw (at 8 48 refl, at 16 40 refl, at 24 32 refl, at 32 24 refl, at 40 16 refl, at 48 8 refl, a0)
      (ground arith)

-- The thread `i` as `kthread_create` leaves it, all other threads untouched.
pub record IsCreated (trampoline func title prio : ℕ) (k : Kernel) (i : ℕ) (k' : Kernel)
    : Type 0 where
  pub stack : (k'.sched.tcbs i).stack_base ≡ (pmm_alloc_pages kthread_stack_pages k.pmm).0
  pub pmm : k'.pmm ≡ (pmm_alloc_pages kthread_stack_pages k.pmm).1
  pub state : (k'.sched.tcbs i).state ≡ ready
  pub priority : (k'.sched.tcbs i).priority ≡ prio
  pub name : (k'.sched.tcbs i).name ≡ title
  pub id : (k'.sched.tcbs i).id ≡ k.sched.next_thread_id
  pub others : (x : ℕ) → x ≢ i → k'.sched.tcbs x ≡ k.sched.tcbs x
  pub next_free : k'.sched.next_tcb_index ≡ i + 1
  pub starts :
      restore_context (k'.sched.tcbs i).context.rsp k'.memory
      ≡ first_registers trampoline func (
          stack_top
            (pmm_alloc_pages kthread_stack_pages k.pmm).0
            (pmm_alloc_pages kthread_stack_pages k.pmm).1)

alloc_tcb-full : (s : Sched) → max_threads ≤ s.next_tcb_index → alloc_tcb s ≡ (none, s)
unfolding alloc_tcb
alloc_tcb-full s h = ground arith

-- The state when a control block is taken.
abbrev with_tcb : Sched → Sched
with_tcb s = record (set_tcb s.next_tcb_index (record zero_tcb { id = s.next_thread_id }) s) {
  next_tcb_index = (s.next_tcb_index + 1) % word32;
  next_thread_id = (s.next_thread_id + 1) % word32;
}

alloc_tcb-free :
    (s : Sched) → s.next_tcb_index < max_threads → alloc_tcb s ≡ (some s.next_tcb_index, with_tcb s)
unfolding alloc_tcb
alloc_tcb-free s h = rw (alloc_tcb, full)
  where
    full : leb max_threads s.next_tcb_index ≡ false
    full = ground arith

-- The result of `kthread_create` with the control block `i` and the stack at `base`.
abbrev created : (trampoline func name priority : ℕ) → Kernel → Kernel
created trampoline func name priority k =
    let i = k.sched.next_tcb_index in
    let (base, pmm1) = pmm_alloc_pages kthread_stack_pages k.pmm in
    let (sp, m1) = first_frame trampoline func (stack_top base pmm1) k.memory in
    record {
      sched =
          set_tcb i (new_thread name priority base sp ((with_tcb k.sched).tcbs i))
            (with_tcb k.sched);
      pmm = pmm1;
      memory = m1;
    }

-- Provided the top of the stack that the allocator gives is not below address 56:
-- `kthread_create` returns a null pointer and changes nothing when the pool of control blocks is
-- used up, and panics when there are no pages for the stack. Otherwise it takes the next control
-- block and no other, makes the thread READY with the priority and the stack it was given, and
-- the switch to the new thread goes to the trampoline with the stack pointer at the top of the
-- stack, R12 being 0 and the thread's function in R13.
pub kthread_create-cases :
    (trampoline func name priority : ℕ) (k : Kernel)
    → 56
      ≤ stack_top
          (pmm_alloc_pages kthread_stack_pages k.pmm).0
          (pmm_alloc_pages kthread_stack_pages k.pmm).1
    → ((max_threads ≤ k.sched.next_tcb_index)
        × (kthread_create trampoline func name priority k ≡ some (none, k)))
      ⊎ ((k.sched.next_tcb_index < max_threads)
          × ((((pmm_alloc_pages kthread_stack_pages k.pmm).0 ≡ 0)
                × (kthread_create trampoline func name priority k ≡ none))
              ⊎ ((k' : Kernel) × (kthread_create trampoline func name priority k
                    ≡ some (some k.sched.next_tcb_index, k'))
                  × IsCreated trampoline func name priority k k.sched.next_tcb_index k')))
unfolding kthread_create
kthread_create-cases trampoline func name priority k h =
    elim (Bool-cases (leb max_threads k.sched.next_tcb_index)) [
      | inl full ↦
          let e = alloc_tcb-full k.sched (ground arith) in
          inl (ground arith, rw (kthread_create, ap (λ r. r.0) e, ap (λ r. r.1) e))
      | inr free ↦
          let e = alloc_tcb-free k.sched (ground arith) in
          let i = k.sched.next_tcb_index in
          let small : i < max_threads = ground arith in
          let top =
            stack_top (pmm_alloc_pages kthread_stack_pages k.pmm).0
              (pmm_alloc_pages kthread_stack_pages k.pmm).1 in
          inr (
            ground arith,
            elim (Bool-cases ((pmm_alloc_pages kthread_stack_pages k.pmm).0 == 0)) [
              | inl z ↦ inl (==→eq _ _ z, rw (kthread_create, ap (λ r. r.0) e, z))
              | inr z ↦
                  let frame = first_frame-eq trampoline func top k.memory h (omega arith) in
                  inr (
                    created trampoline func name priority k,
                    rw (kthread_create, ap (λ r. r.0) e, ap (λ r. r.1) e, z),
                    record {
                      stack = rw (==-self i);
                      pmm = refl;
                      state = rw (==-self i);
                      priority = rw (==-self i);
                      name = rw (==-self i);
                      id = rw (==-self i);
                      others = λ x n. rw (ne→== i x (λ q. n (sym q)));
                      next_free = omega (arith, small);
                      starts =
                          rw (==-self i, ap (λ r. r.0) frame, ap (λ r. r.1) frame)
                            (restore-framed trampoline func top k.memory h (omega arith));
                    },
                  )
            ],
          )
    ]
