-- ===== src/Process.antt =====
-- Processes: src/kernel/process.cpp, include/vortex/kernel/process.hpp. A `Process*` is a number, a
-- null pointer is `none`.
pub mod Create
pub mod Table
mod Tests
use vortex_os.Base.{
  ℕ, suc, ◌+◌, ◌-◌, ◌%◌, ◌^◌, Option, none, some, List, [], ◌∷◌, ◌==◌, update, find_link,
  find_pointer,
}
use vortex_os.Sched.{Sched}
use vortex_os.Vmm.{Vm, kmalloc, vmm_create_address_space, vmm_clone_address_space}

pub data ProcessState : Type 0 where
  alive zombie terminated : ProcessState

-- `fork_frame` is the saved frame, as the registers in it.
pub record Process : Type 0 where
  pub pid : ℕ
  pub ppid : ℕ
  pub state : ProcessState
  pub addr_space : Option ℕ
  pub main_thread : Option ℕ
  pub uid : ℕ
  pub gid : ℕ
  pub euid : ℕ
  pub egid : ℕ
  pub cpu_time_ns : ℕ
  pub fork_frame : List ℕ
  pub next : Option ℕ

-- `vm` has the page tables, and the results of `kmalloc` to come: for a process, its number.
pub record Processes : Type 0 where
  pub processes : ℕ → Process
  pub list : Option ℕ
  pub count : ℕ
  pub next_pid : ℕ
  pub vm : Vm

abbrev pub link : Processes → ℕ → Option ℕ
link s x = (s.processes x).next

abbrev pub set_process : ℕ → Process → Processes → Processes
set_process i p s = record s { processes = update s.processes i p }

-- The process of the current thread.
unfoldable pub proc_current : Sched → Option ℕ
proc_current s = elim s.current [ none ↦ none | some cur ↦ (s.tcbs cur).process ]

-- The walk is on fuel: no more steps than there are processes.
unfoldable pub proc_find : (pid : ℕ) → Processes → Option ℕ
proc_find pid s = find_link (suc s.count) (link s) (λ x. (s.processes x).pid == pid) s.list

unfoldable pub proc_add : ℕ → Processes → Processes
proc_add i s =
    let s1 = set_process i (record (s.processes i) { next = s.list }) s in
    record s1 { list = some i; count = (s1.count + 1) % 2 ^ 32 }

-- `*pp = proc->next`, `pp` being the link of `at` or the head of the list.
unfoldable pub overwrite : Option ℕ → ℕ → Processes → Processes
overwrite none i s = record s { list = link s i; count = (s.count + 2 ^ 32 - 1) % 2 ^ 32 }
overwrite (some p) i s = record (set_process p (record (s.processes p) { next = link s i }) s) {
  count = (s.count + 2 ^ 32 - 1) % 2 ^ 32;
}

unfoldable pub proc_remove : ℕ → Processes → Processes
proc_remove i s = elim (find_pointer (suc s.count) (link s) i none s.list) [
  | none ↦ s
  | some at ↦ overwrite at i s
]

-- What is written into a new process first.
abbrev pub born : (pid ppid : ℕ) → Process → Process
born pid ppid p = record p { pid = pid; ppid = ppid; state = alive; main_thread = none }

-- The process `i`, from `kmalloc`, with its number and its parent's. The other fields are as memory
-- has them.
unfoldable pub start_process : (i ppid : ℕ) → (rest : List ℕ) → Processes → Processes
start_process i ppid rest s = record (set_process i (born s.next_pid ppid (s.processes i)) s) {
  next_pid = (s.next_pid + 1) % 2 ^ 32;
  vm = record (kmalloc s.vm) { supply = rest };
}

-- With the address space that was made, or given up without one.
unfoldable pub finish_process : (i : ℕ) → (made : Option ℕ × Vm) → Processes → Option ℕ × Processes
finish_process i (none, vm) s =
    (none, set_process i (record (s.processes i) { addr_space = none }) (record s { vm = vm }))
finish_process i (some space, vm) s = (
  some i,
  proc_add i
      (set_process i (record (s.processes i) { addr_space = some space }) (record s { vm = vm })),
)

unfoldable pub proc_create : Processes → Option ℕ × Processes
proc_create s = elim s.vm.supply [
  | [] ↦ (none, record s { vm = kmalloc s.vm })
  | i ∷ rest ↦
      let s1 = start_process i 0 rest s in finish_process i (vmm_create_address_space s1.vm) s1
]

-- The parent's credentials, which are copied where there is an address space.
abbrev pub inherit : (parent : Process) → Process → Process
inherit parent p = record p {
  uid = parent.uid;
  gid = parent.gid;
  euid = parent.euid;
  egid = parent.egid;
}

unfoldable pub finish_child :
    (i parent : ℕ) → (made : Option ℕ × Vm) → Processes → Option ℕ × Processes
finish_child i parent (none, vm) s = finish_process i (none, vm) s
finish_child i parent (some space, vm) s =
    finish_process i (some space, vm)
      (set_process i (inherit (s.processes parent) (s.processes i)) s)

-- `none` is a fault: the parent has no address space, whose null pointer is followed.
unfoldable pub proc_create_from_parent : (parent : ℕ) → Processes → Option (Option ℕ × Processes)
proc_create_from_parent parent s = elim s.vm.supply [
  | [] ↦ some (none, record s { vm = kmalloc s.vm })
  | i ∷ rest ↦
      let s1 = start_process i (s.processes parent).pid rest s in
      elim (vmm_clone_address_space (s1.processes parent).addr_space s1.vm) [
        | none ↦ none
        | some made ↦ some (finish_child i parent made s1)
      ]
]

-- `vmm_destroy_address_space` does nothing, and what `kfree` does is not seen here.
unfoldable pub proc_destroy : ℕ → Processes → Processes
proc_destroy i s = proc_remove i s
