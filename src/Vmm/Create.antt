-- ===== src/Vmm/Create.antt =====
-- A new address space in vmm.cpp: its first table, and what becomes of the rest of memory.
use vortex_os.Base.{
  ℕ, zero, suc, ◌+◌, ◌%◌, ◌≤◌, ◌<◌, ◌≡◌, ◌≢◌, ◌∙◌, ◌⊎◌, inl, inr, refl, sym, subst, ap, none, some,
  List, [], ◌∷◌, ◌==◌, update, update_self, update_ne, ne→==, Bool-cases, ==→eq, ==→ne, List-cases,
  arith,
}
use vortex_os.Mm.{pmm_alloc_page, pmm_get_hhdm_offset, word}
use vortex_os.Thread.{Memory}
use vortex_os.Vmm.{
  Vm, kmalloc, AddressSpace, slot, load, store, fill, copy_entries, get_current_pml4, new_space,
  vmm_create_address_space,
}

fill-outside :
    (n from : ℕ) (f : ℕ → ℕ) (table a : ℕ) (s : Vm)
    → ((i : ℕ) → from ≤ i → i < from + n → slot table i ≢ a)
    → (fill n from f table s).memory a ≡ s.memory a
unfolding fill
fill-outside zero from f table a s h = refl
fill-outside (suc n) from f table a s h =
    fill-outside n (from + 1) f table a (store table from (f from) s)
      (λ i p q. h i (omega arith) (omega arith))
    ∙ update_ne s.memory (slot table from) a (f from)
        (ne→== _ _ (h from (omega arith) (omega arith)))

fill-inside :
    (n from : ℕ) (f : ℕ → ℕ) (table i : ℕ) (s : Vm)
    → from ≤ i
    → i < from + n
    → load table i (fill n from f table s) ≡ f i
unfolding fill
fill-inside zero from f table i s p q = absurd (omega arith)
fill-inside (suc n) from f table i s p q = elim (Bool-cases (from == i)) [
  | inl e ↦
      let same = ==→eq from i e in
      fill-outside n (from + 1) f table (slot table i) (store table from (f from) s)
        (λ j k l m. absurd (omega arith))
      ∙ ground (arith, ap f same)
  | inr e ↦
      fill-inside n (from + 1) f table i (store table from (f from) s)
        (omega (arith, ==→ne from i e)) (omega arith)
]

-- Two tables in different pages.
abbrev pub Apart : (t u : ℕ) → Type 0
Apart t u = (t + 4096 ≤ u) ⊎ (u + 4096 ≤ t)

pub copy-outside :
    (n from src dst a : ℕ) (s : Vm)
    → ((i : ℕ) → from ≤ i → i < from + n → slot dst i ≢ a)
    → (copy_entries n from src dst s).memory a ≡ s.memory a
unfolding copy_entries
copy-outside zero from src dst a s h = refl
copy-outside (suc n) from src dst a s h =
    copy-outside n (from + 1) src dst a (store dst from (load src from s) s)
      (λ i p q. h i (omega arith) (omega arith))
    ∙ update_ne s.memory (slot dst from) a (load src from s)
        (ne→== _ _ (h from (omega arith) (omega arith)))

pub copy-inside :
    (n from src dst i : ℕ) (s : Vm)
    → Apart src dst
    → from + n ≤ 512
    → from ≤ i
    → i < from + n
    → load dst i (copy_entries n from src dst s) ≡ load src i s
unfolding copy_entries
copy-inside zero from src dst i s apart b p q = absurd (omega arith)
copy-inside (suc n) from src dst i s apart b p q = elim (Bool-cases (from == i)) [
  | inl e ↦
      let same = ==→eq from i e in
      copy-outside n (from + 1) src dst (slot dst i) (store dst from (load src from s) s)
        (λ j k l m. absurd (omega arith))
      ∙ ground (arith, ap (λ j. load src j s) same)
  | inr e ↦
      copy-inside n (from + 1) src dst i (store dst from (load src from s) s) apart (omega arith)
        (omega (arith, ==→ne from i e)) (omega arith)
      ∙ update_ne s.memory (slot dst from) (slot src i) (load src from s) (ne→== _ _ (omega arith))
]

-- `kmalloc` leaves the page `pml4` alone, whatever is in the page.
abbrev pub Spares : (pml4 : ℕ) → Vm → Type 0
Spares pml4 s =
    (memory : Memory)
    → ((a : ℕ) → (a < pml4) ⊎ (pml4 + 4096 ≤ a) → memory a ≡ s.memory a)
    → (a : ℕ) → pml4 ≤ a
    → a < pml4 + 4096
    → (s.heap s.supply (s.pmm, memory)).1 a ≡ memory a

-- What is left once the page `pml4` is filled, and `kmalloc` is called then: with the memory before the
-- call, which was changed in this page only, the allocator and memory are what the call makes of them.
pub record IsFilled (pml4 : ℕ) (s s' : Vm) : Type 0 where
  pub before : Memory
  pub rest : (a : ℕ) → (a < pml4) ⊎ (pml4 + 4096 ≤ a) → before a ≡ s.memory a
  pub heap : (s'.pmm, s'.memory) ≡ s.heap s.supply (s.pmm, before)

-- What a new address space is: its first table `pml4` is a page from the allocator, with nothing in
-- the user half and the kernel's entries in the other.
pub record IsNew (space pml4 : ℕ) (s s' : Vm) : Type 0 where
  pub table : (s'.spaces space).pml4 ≡ pml4
  pub user : (i : ℕ) → i < 256 → load pml4 i s' ≡ 0
  pub kernel : (i : ℕ) → 256 ≤ i → i < 512 → load pml4 i s' ≡ load (get_current_pml4 s) i s
  pub filled : IsFilled pml4 s s'
  pub others : (x : ℕ) → x ≢ space → s'.spaces x ≡ s.spaces x

fill-memory :
    (n from : ℕ) (f : ℕ → ℕ) (table : ℕ) (s : Vm)
    → fill n from f table s ≡ record s { memory = (fill n from f table s).memory }
unfolding fill
fill-memory zero from f table s = refl
fill-memory (suc n) from f table s = fill-memory n (from + 1) f table (store table from (f from) s)

pub copy-memory :
    (n from src dst : ℕ) (s : Vm)
    → copy_entries n from src dst s ≡ record s { memory = (copy_entries n from src dst s).memory }
unfolding copy_entries
copy-memory zero from src dst s = refl
copy-memory (suc n) from src dst s =
    copy-memory n (from + 1) src dst (store dst from (load src from s) s)

-- The first table of a new address space, when its page was taken.
made : (pml4 : ℕ) → Vm → Vm
made pml4 s =
    let s2 = fill 512 0 (λ i. 0) pml4 s in copy_entries 256 256 (get_current_pml4 s2) pml4 s2

made-memory : (pml4 : ℕ) (s : Vm) → made pml4 s ≡ record s { memory = (made pml4 s).memory }
unfolding made
made-memory pml4 s =
    let s2 = fill 512 0 (λ i. 0) pml4 s in
    copy-memory 256 256 (get_current_pml4 s2) pml4 s2
    ∙ ap {A = Vm} (λ t. record t { memory = (made pml4 s).memory })
        (fill-memory 512 0 (λ i. 0) pml4 s)

made-user : (pml4 i : ℕ) (s : Vm) → i < 256 → load pml4 i (made pml4 s) ≡ 0
unfolding made
made-user pml4 i s h =
    let s2 = fill 512 0 (λ i. 0) pml4 s in
    copy-outside 256 256 (get_current_pml4 s2) pml4 (slot pml4 i) s2
      (λ j k l m. absurd (omega arith))
    ∙ fill-inside 512 0 (λ i. 0) pml4 i s (omega arith) (omega arith)

made-kernel :
    (pml4 i : ℕ) (s : Vm)
    → Apart (get_current_pml4 s) pml4
    → 256 ≤ i
    → i < 512
    → load pml4 i (made pml4 s) ≡ load (get_current_pml4 s) i s
unfolding made get_current_pml4
made-kernel pml4 i s apart p q =
    let s2 = fill 512 0 (λ i. 0) pml4 s in
    let current : get_current_pml4 s2 ≡ get_current_pml4 s =
      ap get_current_pml4 (fill-memory 512 0 (λ i. 0) pml4 s) in
    rw current (
      copy-inside 256 256 (get_current_pml4 s) pml4 i s2 apart (omega arith) p (omega arith)
      ∙ fill-outside 512 0 (λ i. 0) pml4 (slot (get_current_pml4 s) i) s
          (λ j k l m. absurd (omega arith)))

made-rest :
    (pml4 a : ℕ) (s : Vm) → (a < pml4) ⊎ (pml4 + 4096 ≤ a) → (made pml4 s).memory a ≡ s.memory a
unfolding made
made-rest pml4 a s h =
    let s2 = fill 512 0 (λ i. 0) pml4 s in
    copy-outside 256 256 (get_current_pml4 s2) pml4 a s2 (λ j k l m. absurd (omega arith))
    ∙ fill-outside 512 0 (λ i. 0) pml4 a s (λ j k l m. absurd (omega arith))

made-heap :
    (pml4 : ℕ) (s : Vm)
    → s.heap (made pml4 s).supply ((made pml4 s).pmm, (made pml4 s).memory)
      ≡ s.heap s.supply (s.pmm, (made pml4 s).memory)
made-heap pml4 s =
    ap (λ (t : Vm). s.heap t.supply (t.pmm, (made pml4 s).memory)) (made-memory pml4 s)

made-IsFilled : (pml4 : ℕ) (s : Vm) → IsFilled pml4 s (kmalloc (made pml4 s))
made-IsFilled pml4 s = record {
  before = (made pml4 s).memory;
  rest = λ a h. made-rest pml4 a s h;
  heap =
      ap (λ (t : Vm). t.heap (made pml4 s).supply ((made pml4 s).pmm, (made pml4 s).memory))
        (made-memory pml4 s)
      ∙ made-heap pml4 s;
}

new_space-none : (pml4 : ℕ) (s : Vm) → s.supply ≡ [] → new_space pml4 s ≡ (none, kmalloc s)
unfolding new_space
new_space-none pml4 s e = simp (e, new_space)

new_space-some :
    (pml4 space : ℕ) (rest : List ℕ) (s : Vm)
    → s.supply ≡ space ∷ rest
    → new_space pml4 s ≡ (
      some space,
      record (kmalloc s) {
        spaces = update s.spaces space (record { pml4 = pml4; brk = 0 });
        supply = rest;
      },
    )
unfolding new_space
new_space-some pml4 space rest s e = simp (e, new_space)

-- The table is still there after `kmalloc`.
kmalloc-slot :
    (pml4 i : ℕ) (s : Vm)
    → Spares pml4 s
    → i < 512
    → load pml4 i (kmalloc (made pml4 s)) ≡ load pml4 i (made pml4 s)
kmalloc-slot pml4 i s spares h =
    ap
      (λ (t : Vm).
        (t.heap (made pml4 s).supply ((made pml4 s).pmm, (made pml4 s).memory)).1 (slot pml4 i))
      (made-memory pml4 s)
    ∙ ap (λ r. r.1 (slot pml4 i)) (made-heap pml4 s)
    ∙ spares (made pml4 s).memory (λ a k. made-rest pml4 a s k) (slot pml4 i) (omega arith)
        (omega arith)

made-IsNew :
    (pml4 space : ℕ) (rest : List ℕ) (s : Vm)
    → Apart (get_current_pml4 s) pml4
    → Spares pml4 s
    → IsNew space pml4 s (record (kmalloc (made pml4 s)) {
      spaces = update (made pml4 s).spaces space (record { pml4 = pml4; brk = 0 });
      supply = rest;
    })
made-IsNew pml4 space rest s apart spares =
    let filled = made-IsFilled pml4 s in
    record {
      table = ap (λ (a : AddressSpace). a.pml4) (update_self (made pml4 s).spaces space _);
      user = λ i h. kmalloc-slot pml4 i s spares (omega arith) ∙ made-user pml4 i s h;
      kernel = λ i p q. kmalloc-slot pml4 i s spares q ∙ made-kernel pml4 i s apart p q;
      filled = record { before = filled.before; rest = filled.rest; heap = filled.heap };
      others = λ x n.
          update_ne (made pml4 s).spaces space x _ (ne→== space x (λ e. n (sym e)))
          ∙ ap (λ t. t.spaces x) (made-memory pml4 s);
    }

-- `vmm_create_address_space`, where the allocator's page is not the page of the current first table
-- and `kmalloc` leaves the page alone: without a page it returns a null pointer and changes nothing
-- but the allocator; without memory for the object it returns a null pointer, and does not give the
-- page back: the allocator stays as the failed call of `kmalloc` leaves it; otherwise it returns the object that
-- `kmalloc` gives, with a first table in that page, which has nothing in the user half and the
-- current table's entries in the kernel half, and the other objects stay. Memory outside the page is
-- as it was until the call of `kmalloc`, and the allocator and memory are then as the call leaves
-- them.
pub vmm_create_address_space-cases :
    (s : Vm)
    → let phys = (pmm_alloc_page s.pmm).0 in
      let pml4 = (phys + pmm_get_hhdm_offset s.pmm) % word in
      let s1 = record s { pmm = (pmm_alloc_page s.pmm).1 } in
      let made = vmm_create_address_space s in
      Apart (get_current_pml4 s1) pml4
      → Spares pml4 s1
      → ((phys ≡ 0) × (made ≡ (none, s1)))
        ⊎ ((phys ≢ 0) × (s.supply ≡ []) × (made.0 ≡ none) × IsFilled pml4 s1 made.1)
        ⊎ ((space : ℕ) × (rest : List ℕ) × (s.supply ≡ space ∷ rest)
            × (made.0 ≡ some space)
            × (made.1.supply ≡ rest)
            × IsNew space pml4 s1 made.1)
unfolding vmm_create_address_space made
vmm_create_address_space-cases s apart spares =
    let page = pmm_alloc_page s.pmm in
    let pml4 = (page.0 + pmm_get_hhdm_offset s.pmm) % word in
    let s1 = record s { pmm = page.1 } in
    let kept = made-memory pml4 s1 in
    elim (Bool-cases (page.0 == 0)) [
      | inl e ↦ inl (==→eq page.0 0 e, rw (vmm_create_address_space, e) refl)
      | inr e ↦
          let built : vmm_create_address_space s ≡ new_space pml4 (made pml4 s1) =
            rw (vmm_create_address_space, e) refl in
          elim (List-cases s.supply) [
            | inl out ↦
                let left = ap (λ t. t.supply) kept ∙ out in
                let got = built ∙ new_space-none pml4 (made pml4 s1) left in
                inr (
                  inl (
                    ==→ne page.0 0 e,
                    out,
                    ap (λ r. r.0) got,
                    subst (IsFilled pml4 s1) (ap (λ r. r.1) (sym got)) (made-IsFilled pml4 s1),
                  ))
            | inr (space, rest, given) ↦
                let left = ap (λ t. t.supply) kept ∙ given in
                let got = built ∙ new_space-some pml4 space rest (made pml4 s1) left in
                inr (
                  inr (
                    space,
                    rest,
                    given,
                    ap (λ r. r.0) got,
                    ap (λ r. r.1.supply) got,
                    subst (IsNew space pml4 s1) (ap (λ r. r.1) (sym got))
                        (made-IsNew pml4 space rest s1 apart spares),
                  ))
          ]
    ]
