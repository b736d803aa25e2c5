-- ===== src/Process/Tests.antt =====
-- Runs of process.cpp and the theorems at them.
use vortex_os.Base.{
  Option, none, ℕ, ◌≡◌, refl, ap, ◌⊎◌, true, false, none, some, List, [], ◌∷◌, has, erase, arith,
}
use vortex_os.Mm.{Pmm}
use vortex_os.Process.{
  Processes, alive, proc_find, proc_create, proc_create_from_parent, proc_remove, born, inherit,
}
use vortex_os.Process.Table.{IsTable, proc_remove-cases}
use vortex_os.Process.Create.{
  IsFresh, IsCreated, proc_create-IsCreated, proc_create_from_parent-IsCreated,
}

abbrev no_pages : Pmm
no_pages = record {
  frames = λ p. record {
    order = 0;
    flags = record { free = false; used = true; reserved = false; poison = false; pinned = false };
    refcount = 0;
    numa_node = 0;
    private_data = none;
    next = none;
    prev = none;
  };
  frames_addr = 0;
  total_pages = 32;
  free_pages = 0;
  hhdm_offset = 0;
  free_lists = λ o. none;
}

-- The process 7 with the number 1 is in the list; the next from `kmalloc` is 8.
abbrev one : Processes
one = record {
  processes = λ x. record {
    pid = 1;
    ppid = 0;
    state = alive;
    addr_space = some 3;
    main_thread = none;
    uid = 10;
    gid = 10;
    euid = 10;
    egid = 10;
    cpu_time_ns = 0;
    fork_frame = [];
    next = none;
  };
  list = some 7;
  count = 1;
  next_pid = 2;
  vm = record {
    pmm = no_pages;
    memory = λ a. 0;
    cr3 = 4096;
    spaces = λ x. record { pml4 = 4096; brk = 0 };
    supply = 8 ∷ 5 ∷ [];
    heap = λ supply r. r;
  };
}

one-IsTable : IsTable one (7 ∷ [])
one-IsTable = record {
  linked = (refl, refl);
  distinct = (refl, tt);
  counted = refl;
  numbered = λ x h. omega arith;
  single = λ x y h k e. ground arith;
}

first_of : List ℕ → ℕ
first_of [] = 0
first_of (x ∷ l) = x

one-IsFresh : IsFresh one (7 ∷ [])
unfolding first_of
one-IsFresh i rest e = let same : 8 ≡ i = ap first_of e in ground (arith, same)

proc_remove-cases_example :
    ((has 7 (7 ∷ []) ≡ false) × (proc_remove 7 one ≡ one))
    ⊎ ((has 7 (7 ∷ []) ≡ true)
        × IsTable (proc_remove 7 one) (erase 7 (7 ∷ []))
        × (proc_find 1 (proc_remove 7 one) ≡ none))
proc_remove-cases_example = proc_remove-cases 7 one (7 ∷ []) one-IsTable (omega arith)

proc_create-IsCreated_example :
    IsCreated (λ i. born 2 0 (one.processes i)) one (7 ∷ []) (proc_create one)
proc_create-IsCreated_example =
    proc_create-IsCreated one (7 ∷ []) one-IsTable (omega arith) (omega arith) one-IsFresh

proc_create_from_parent-IsCreated_example :
    (((one.processes 7).addr_space ≡ none) × (proc_create_from_parent 7 one ≡ none))
    ⊎ ((out : Option ℕ × Processes) × (proc_create_from_parent 7 one ≡ some out)
        × IsCreated (λ i. inherit (one.processes 7) (born 2 1 (one.processes i))) one (7 ∷ []) out)
proc_create_from_parent-IsCreated_example =
    proc_create_from_parent-IsCreated 7 one (7 ∷ []) one-IsTable refl (omega arith) (omega arith)
      one-IsFresh
