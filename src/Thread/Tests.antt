-- ===== src/Thread/Tests.antt =====
-- Runs of thread.cpp and the theorems at them.
use vortex_os.Base.{
  ℕ, ◌+◌, ◌*◌, ◌^◌, ◌≤◌, ◌<◌, ◌≡◌, refl, ◌⊎◌, inr, true, false, none, some, [], arith, ◌==◌,
  if◌then◌else◌,
}
use vortex_os.Mm.{
  Pmm, pmm_alloc_pages, order_for, alloc_from, take_block, split, list_remove, hand_out,
  pfn_to_phys, pmm_get_hhdm_offset,
}
use vortex_os.Sched.{Sched}
use vortex_os.Thread.{
  Memory, Cpu, Kernel, kthread_create, zero_tcb, stack_top, context_switch, kthread_stack_pages,
  max_threads,
}
use vortex_os.Thread.Switch.{context_switch-back}
use vortex_os.Thread.Create.{IsCreated, kthread_create-cases}

abbrev fresh : Sched
fresh = record {
  tcbs = λ x. zero_tcb;
  next_tcb_index = 0;
  next_thread_id = 1;
  current = none;
  idle = none;
  queues = λ p. record { head = none; tail = none };
  total_ready = 0;
  enabled = false;
  trace = [];
}

abbrev cpu : ℕ → Cpu
cpu sp = record { rbx = 1; rbp = 2; r12 = 3; r13 = 4; r14 = 5; r15 = 6; rsp = sp; rip = 7 }

abbrev blank : Memory
blank a = 0

-- The thread 0 gives way to the thread 1, which gives way to it at once.
context_switch-back_example :
    (context_switch 1 0
      (cpu 9000)
      (context_switch 0 1 (cpu 5000) fresh blank).1
      (context_switch 0 1 (cpu 5000) fresh blank).2).0
    ≡ record (cpu 5000) { rip = 0; rsp = 5008 }
context_switch-back_example =
    context_switch-back 0 1 1 (cpu 5000) (cpu 9000) fresh
      (context_switch 0 1 (cpu 5000) fresh blank).1 blank
      (context_switch 0 1 (cpu 5000) fresh blank).2 (omega arith) (omega arith) (omega arith)
      (omega arith) (inr (omega arith)) (λ e. omega arith) refl (λ a h k. refl)

-- Memory with one free block: the four pages from page 16.
abbrev four_pages : Pmm
four_pages = record {
  frames = λ p. record {
    order = 2;
    flags = record { free = true; used = false; reserved = false; poison = false; pinned = false };
    refcount = 0;
    numa_node = 0;
    private_data = none;
    next = none;
    prev = none;
  };
  frames_addr = 0;
  total_pages = 32;
  free_pages = 4;
  hhdm_offset = 2 ^ 40;
  free_lists = λ o. if o == 2 then some 16 else none;
}

abbrev kernel : Kernel
kernel = record { sched = fresh; pmm = four_pages; memory = blank }

four_pages-top :
    stack_top
      (pmm_alloc_pages kthread_stack_pages four_pages).0
      (pmm_alloc_pages kthread_stack_pages four_pages).1
    ≡ 2 ^ 40 + 20 * 4096
unfolding pmm_alloc_pages order_for alloc_from take_block split list_remove hand_out pfn_to_phys
    pmm_get_hhdm_offset
four_pages-top = refl

kthread_create-cases_example :
    ((max_threads ≤ 0) × (kthread_create 100 200 300 7 kernel ≡ some (none, kernel)))
    ⊎ ((0 < max_threads)
        × ((((pmm_alloc_pages kthread_stack_pages four_pages).0 ≡ 0)
              × (kthread_create 100 200 300 7 kernel ≡ none))
            ⊎ ((k' : Kernel) × (kthread_create 100 200 300 7 kernel ≡ some (some 0, k'))
                × IsCreated 100 200 300 7 kernel 0 k')))
kthread_create-cases_example =
    kthread_create-cases 100 200 300 7 kernel (omega (arith, four_pages-top))
