-- ===== src/Process/Create.antt =====
-- New processes in process.cpp: `proc_create` and `proc_create_from_parent`.
use vortex_os.Base.{
  ℕ, ◌+◌, ◌%◌, ◌^◌, ◌<◌, ◌≡◌, refl, ◌∙◌, sym, subst, ap, ◌⊎◌, inl, inr, true, false, Option, none,
  some, List, ◌∷◌, arith, ◌==◌, if◌then◌else◌, has, length, Bool-cases, Option-cases, List-cases,
  ==→eq, ==-self, Linked-same, update, update_self,
}
use vortex_os.Vmm.{Vm, kmalloc, vmm_create_address_space, vmm_clone_address_space}
use vortex_os.Process.{
  Process, Processes, link, set_process, born, proc_find, proc_add, start_process, finish_process,
  proc_create, inherit, finish_child, proc_create_from_parent,
}
use vortex_os.Process.Table.{IsTable, proc_find-own, Same-IsTable}

-- A state on the way to a new process `i`: it has the next number, and the rest is as before.
record IsStarted (i : ℕ) (s s' : Processes) : Type 0 where
  others : (x : ℕ) → (i == x) ≡ false → s'.processes x ≡ s.processes x
  list : s'.list ≡ s.list
  count : s'.count ≡ s.count
  next_pid : s'.next_pid ≡ s.next_pid + 1
  pid : (s'.processes i).pid ≡ s.next_pid

outside : (i x : ℕ) (ls : List ℕ) → has i ls ≡ false → has x ls ≡ true → (i == x) ≡ false
outside i x ls new h = elim (Bool-cases (i == x)) [
  | inl e ↦ absurd (ground (arith, ap (λ y. has y ls) (==→eq i x e)))
  | inr e ↦ e
]

started-IsTable :
    (i : ℕ) (s s' : Processes) (ls : List ℕ)
    → IsTable s ls
    → has i ls ≡ false
    → IsStarted i s s'
    → IsTable s' ls
started-IsTable i s s' ls v new t =
    Same-IsTable s s' ls v (λ x h. t.others x (outside i x ls new h)) t.list t.count
      (omega (arith, t.next_pid))

proc_add-parts :
    (i x : ℕ) (s : Processes)
    → (((proc_add i s).processes x).pid ≡ (s.processes x).pid)
      × (link (proc_add i s) x ≡ (if i == x then s.list else link s x))
      × ((proc_add i s).list ≡ some i)
      × ((proc_add i s).count ≡ (s.count + 1) % 2 ^ 32)
      × ((proc_add i s).next_pid ≡ s.next_pid)
unfolding proc_add
proc_add-parts i x s = ground arith

added-IsTable :
    (i : ℕ) (s s' : Processes) (ls : List ℕ)
    → IsTable s ls
    → has i ls ≡ false
    → length ls + 1 < 2 ^ 32
    → IsStarted i s s'
    → IsTable (proc_add i s') (i ∷ ls)
added-IsTable i s s' ls v new room t =
    let w = started-IsTable i s s' ls v new t in
    let below : (x : ℕ) → has x ls ≡ true → (s'.processes x).pid < s.next_pid = λ x h.
      omega
        (arith, v.numbered x h, ap (λ (p : Process). p.pid) (t.others x (outside i x ls new h))) in
    record {
      linked = (
        (proc_add-parts i i s').2,
        rw ((proc_add-parts i i s').1, ==-self i)
            (Linked-same (link s') (link (proc_add i s')) s'.list ls w.linked
              (λ x h. rw ((proc_add-parts i x s').1, outside i x ls new h) refl)),
      );
      distinct = (new, v.distinct);
      counted = omega (arith, (proc_add-parts i i s').3, w.counted);
      numbered = λ x h. elim (Bool-cases (i == x)) [
        | inl e ↦
            let same = ==→eq i x e in
            omega
              (arith, proc_add-parts i x s', t.pid, t.next_pid, ap (λ y. (s'.processes y).pid) same)
        | inr e ↦ omega (arith, proc_add-parts i x s', w.numbered x (ground arith))
      ];
      single = λ x y h k e.
          let e' : (s'.processes x).pid ≡ (s'.processes y).pid =
            sym (proc_add-parts i x s').0 ∙ e ∙ (proc_add-parts i y s').0 in
          elim (Bool-cases (i == x)) [
            | inl a ↦ elim (Bool-cases (i == y)) [
              | inl b ↦ sym (==→eq i x a) ∙ ==→eq i y b
              | inr b ↦ absurd (
                  omega (
                    arith,
                    below y (ground arith),
                    t.pid,
                    e',
                    ap (λ z. (s'.processes z).pid) (==→eq i x a),
                  ))
            ]
            | inr a ↦ elim (Bool-cases (i == y)) [
              | inl b ↦ absurd (
                  omega (
                    arith,
                    below x (ground arith),
                    t.pid,
                    e',
                    ap (λ z. (s'.processes z).pid) (==→eq i y b),
                  ))
              | inr b ↦ w.single x y (ground arith) (ground arith) e'
            ]
          ];
    }

start-IsStarted :
    (i ppid : ℕ) (rest : List ℕ) (s : Processes)
    → s.next_pid + 1 < 2 ^ 32
    → IsStarted i s (start_process i ppid rest s)
unfolding start_process
start-IsStarted i ppid rest s h = record {
  others = λ x n. rw n refl;
  list = refl;
  count = refl;
  next_pid = omega arith;
  pid = rw (==-self i) refl;
}

-- The fields of a process that its address space and the list do not touch.
pub record IsLike (p q : Process) : Type 0 where
  pub pid : p.pid ≡ q.pid
  pub ppid : p.ppid ≡ q.ppid
  pub state : p.state ≡ q.state
  pub uid : p.uid ≡ q.uid
  pub gid : p.gid ≡ q.gid
  pub euid : p.euid ≡ q.euid
  pub egid : p.egid ≡ q.egid

-- What a new process is: it stands in front of the list, which stays well formed, and is found by its
-- number, the next one.
pub record IsEntered (i : ℕ) (p : Process) (s : Processes) (ls : List ℕ) (s' : Processes)
    : Type 0 where
  pub table : IsTable s' (i ∷ ls)
  pub found : proc_find s.next_pid s' ≡ some i
  pub like : IsLike (s'.processes i) p

set-IsStarted :
    (i : ℕ) (vm : Vm) (p : Process) (s s' : Processes)
    → IsStarted i s s'
    → p.pid ≡ s.next_pid
    → IsStarted i s (record s' { processes = update s'.processes i p; vm = vm })
set-IsStarted i vm p s s' t h = record {
  others = λ x n. rw n (t.others x n);
  list = t.list;
  count = t.count;
  next_pid = t.next_pid;
  pid = rw (==-self i) h;
}

proc_add-IsLike : (i : ℕ) (s : Processes) → IsLike ((proc_add i s).processes i) (s.processes i)
unfolding proc_add
proc_add-IsLike i s = record {
  pid = ground arith;
  ppid = ground arith;
  state = ground arith;
  uid = ground arith;
  gid = ground arith;
  euid = ground arith;
  egid = ground arith;
}

proc_add-addr_space :
    (i : ℕ) (s : Processes) → ((proc_add i s).processes i).addr_space ≡ (s.processes i).addr_space
unfolding proc_add
proc_add-addr_space i s = ground arith

module _ (i : ℕ) (s s' : Processes) (ls : List ℕ) (v : IsTable s ls) (new : has i ls ≡ false)
    (room : length ls + 1 < 2 ^ 32) (t : IsStarted i s s') where
  finish-IsEntered :
      (made : Option ℕ × Vm)
      → let out = finish_process i made s' in
        ((made.0 ≡ none) × (out.0 ≡ none) × IsTable out.1 ls)
        ⊎ ((space : ℕ) × (made.0 ≡ some space)
            × (out.0 ≡ some i)
            × IsEntered i (s'.processes i) s ls out.1
            × ((out.1.processes i).addr_space ≡ some space))
  unfolding finish_process
  finish-IsEntered (none, vm) =
      inl (refl, refl, started-IsTable i s _ ls v new (set-IsStarted i vm _ s s' t t.pid))
  finish-IsEntered (some space, vm) =
      let p = record (s'.processes i) { addr_space = some space } in
      let s2 = record s' { processes = update s'.processes i p; vm = vm } in
      let t2 = set-IsStarted i vm p s s' t t.pid in
      let w = added-IsTable i s s2 ls v new room t2 in
      let own = update_self s'.processes i p in
      let l = subst (IsLike ((proc_add i s2).processes i)) own (proc_add-IsLike i s2) in
      inr (
        space,
        refl,
        refl,
        record {
          table = w;
          found =
              subst (λ n. proc_find n (proc_add i s2) ≡ some i) ((proc_add-parts i i s2).0 ∙ t2.pid)
                (proc_find-own i (proc_add i s2) (i ∷ ls) w (ground (arith, ==-self i)));
          like = record {
            pid = l.pid;
            ppid = l.ppid;
            state = l.state;
            uid = l.uid;
            gid = l.gid;
            euid = l.euid;
            egid = l.egid;
          };
        },
        proc_add-addr_space i s2 ∙ ap (λ (q : Process). q.addr_space) own,
      )

-- What the next process from `kmalloc` is not: one in the list.
abbrev pub IsFresh : Processes → List ℕ → Type 0
IsFresh s ls = (i : ℕ) (rest : List ℕ) → s.vm.supply ≡ i ∷ rest → has i ls ≡ false

-- What comes of a creation: nothing, or a process like `p i`, in front of the list.
abbrev pub IsCreated : (p : ℕ → Process) → Processes → List ℕ → Option ℕ × Processes → Type 0
IsCreated p s ls out =
    ((out.0 ≡ none) × IsTable out.1 ls)
    ⊎ ((i space : ℕ) × (out.0 ≡ some i)
        × IsEntered i (p i) s ls out.1
        × ((out.1.processes i).addr_space ≡ some space))

finish-IsCreated :
    (p : ℕ → Process) (i : ℕ) (s s' : Processes) (ls : List ℕ) (made : Option ℕ × Vm)
    → IsTable s ls
    → has i ls ≡ false
    → length ls + 1 < 2 ^ 32
    → IsStarted i s s'
    → s'.processes i ≡ p i
    → IsCreated p s ls (finish_process i made s')
finish-IsCreated p i s s' ls made v new room t own =
    elim (finish-IsEntered i s s' ls v new room t made) [
      | inl (n, o, w) ↦ inl (o, w)
      | inr (space, n, o, w, a) ↦
          inr (i, space, o, subst (λ q. IsEntered i q s ls (finish_process i made s').1) own w, a)
    ]

start-born :
    (i ppid : ℕ) (rest : List ℕ) (s : Processes)
    → (start_process i ppid rest s).processes i ≡ born s.next_pid ppid (s.processes i)
unfolding start_process
start-born i ppid rest s = update_self s.processes i (born s.next_pid ppid (s.processes i))

IsCreated-none :
    (p : ℕ → Process) (s : Processes) (ls : List ℕ) (vm : Vm)
    → IsTable s ls
    → IsCreated p s ls (none, record s { vm = vm })
IsCreated-none p s ls vm v = inl (refl, Same-IsTable s _ ls v (λ x h. refl) refl refl (omega arith))

-- `proc_create`, on a well-formed list with room for another process and for its number, and with
-- memory from `kmalloc` that is no process of the list, either returns a null pointer and leaves the
-- list as it is; or it returns a living process with the next number, no parent and an address space,
-- in front of the list, where `proc_find` finds it. Its credentials are what stood in that memory.
pub proc_create-IsCreated :
    (s : Processes) (ls : List ℕ)
    → IsTable s ls
    → length ls + 1 < 2 ^ 32
    → s.next_pid + 1 < 2 ^ 32
    → IsFresh s ls
    → IsCreated (λ i. born s.next_pid 0 (s.processes i)) s ls (proc_create s)
unfolding proc_create
proc_create-IsCreated s ls v room number fresh =
    let p : ℕ → Process = λ i. born s.next_pid 0 (s.processes i) in
    elim (List-cases s.vm.supply) [
      | inl e ↦
          let out : proc_create s ≡ (none, record s { vm = kmalloc s.vm }) =
            simp (proc_create, e) in
          subst (IsCreated p s ls) (sym out) (IsCreated-none p s ls (kmalloc s.vm) v)
      | inr (i, rest, e) ↦
          let s1 = start_process i 0 rest s in
          let out : proc_create s ≡ finish_process i (vmm_create_address_space s1.vm) s1 =
            simp (proc_create, e) in
          subst (IsCreated p s ls) (sym out) (
            finish-IsCreated p i s s1 ls (vmm_create_address_space s1.vm) v (fresh i rest e) room
              (start-IsStarted i 0 rest s number) (start-born i 0 rest s))
    ]

inherited-IsStarted :
    (i : ℕ) (parent : Process) (s s' : Processes)
    → IsStarted i s s'
    → IsStarted i s (set_process i (inherit parent (s'.processes i)) s')
inherited-IsStarted i parent s s' t = record {
  others = λ x n. rw n (t.others x n);
  list = t.list;
  count = t.count;
  next_pid = t.next_pid;
  pid = rw (==-self i) t.pid;
}

child-IsCreated :
    (i parent : ℕ) (rest : List ℕ) (s : Processes) (ls : List ℕ) (made : Option ℕ × Vm)
    → IsTable s ls
    → has i ls ≡ false
    → has parent ls ≡ true
    → length ls + 1 < 2 ^ 32
    → s.next_pid + 1 < 2 ^ 32
    → IsCreated
        (λ i.
          inherit (s.processes parent) (born s.next_pid (s.processes parent).pid (s.processes i)))
        s
        ls
        (finish_child i parent made (start_process i (s.processes parent).pid rest s))
unfolding finish_child finish_process
child-IsCreated i parent rest s ls (none, vm) v new m room number =
    let s1 = start_process i (s.processes parent).pid rest s in
    let t = start-IsStarted i (s.processes parent).pid rest s number in
    inl (refl, started-IsTable i s _ ls v new (set-IsStarted i vm _ s s1 t t.pid))
child-IsCreated i parent rest s ls (some space, vm) v new m room number =
    let ppid = (s.processes parent).pid in
    let s1 = start_process i ppid rest s in
    let t = start-IsStarted i ppid rest s number in
    let same = t.others parent (outside i parent ls new m) in
    finish-IsCreated _ i s _ ls (some space, vm) v new room
      (inherited-IsStarted i (s1.processes parent) s s1 t)
      (update_self s1.processes i _
        ∙ ap (λ q. inherit q (s1.processes i)) same
        ∙ ap (inherit (s.processes parent)) (start-born i ppid rest s))

-- `vmm_clone_address_space` faults only where its null pointer is followed.
vmm_clone_address_space-null :
    (src_as : Option ℕ) (vm : Vm) → vmm_clone_address_space src_as vm ≡ none → src_as ≡ none
unfolding vmm_clone_address_space
vmm_clone_address_space-null none vm h = refl
vmm_clone_address_space-null (some src) vm h = elim (Option-cases (vmm_create_address_space vm).0) [
  | inl e ↦ ground (arith, e, h)
  | inr (space, e) ↦ ground (arith, e, h)
]

-- `proc_create_from_parent`, for a parent in a well-formed list with room for another process and for
-- its number, and with memory from `kmalloc` that is no process of the list, follows a null pointer
-- only where the parent has no address space. Otherwise either it returns a null
-- pointer, and leaves the list as it is; or it returns a living process with the next number, the
-- parent's number as its parent, the parent's credentials and an address space, in front of the list,
-- where `proc_find` finds it.
pub proc_create_from_parent-IsCreated :
    (parent : ℕ) (s : Processes) (ls : List ℕ)
    → IsTable s ls
    → has parent ls ≡ true
    → length ls + 1 < 2 ^ 32
    → s.next_pid + 1 < 2 ^ 32
    → IsFresh s ls
    → (((s.processes parent).addr_space ≡ none) × (proc_create_from_parent parent s ≡ none))
      ⊎ ((out : Option ℕ × Processes) × (proc_create_from_parent parent s ≡ some out)
          × IsCreated
              (λ i.
                inherit
                  (s.processes parent)
                  (born s.next_pid (s.processes parent).pid (s.processes i)))
              s
              ls
              out)
unfolding proc_create_from_parent
proc_create_from_parent-IsCreated parent s ls v m room number fresh =
    elim (List-cases s.vm.supply) [
      | inl e ↦ inr (_, simp (proc_create_from_parent, e), IsCreated-none _ s ls (kmalloc s.vm) v)
      | inr (i, rest, e) ↦
          let ppid = (s.processes parent).pid in
          let s1 = start_process i ppid rest s in
          let other =
            (start-IsStarted i ppid rest s number).others parent
              (outside i parent ls (fresh i rest e) m) in
          let made = vmm_clone_address_space (s1.processes parent).addr_space s1.vm in
          elim (Option-cases made) [
            | inl f ↦ inl (
              ap (λ (q : Process). q.addr_space) (sym other)
                  ∙ vmm_clone_address_space-null (s1.processes parent).addr_space s1.vm f,
              simp (proc_create_from_parent, e, f),
            )
            | inr (made, f) ↦ inr (
              finish_child i parent made s1,
              simp (proc_create_from_parent, e, f),
              child-IsCreated i parent rest s ls made v (fresh i rest e) m room number,
            )
          ]
    ]
