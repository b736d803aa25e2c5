-- ===== src/Vmm/Tests.antt =====
-- Runs of vmm.cpp and the theorems at them.
use vortex_os.Base.{
  ℕ, ◌+◌, ◌%◌, ◌≡◌, ◌≢◌, refl, ◌⊎◌, inl, true, false, none, some, List, [], ◌∷◌, ◌==◌,
  if◌then◌else◌, arith, update, update_ne, ne→==,
}
use vortex_os.Mm.{
  Pmm, pmm_alloc_page, pmm_alloc_pages, order_for, alloc_from, take_block, split, list_remove,
  skip_from, skip_to, clear_free, hand_out, pfn_to_phys, pmm_get_hhdm_offset, word,
}
use vortex_os.Vmm.{
  Vm, AddressSpace, address, vmm_map_page, vmm_unmap_page, vmm_walk_page_table,
  vmm_create_address_space, get_current_pml4,
}
use vortex_os.Vmm.Mapping.{
  place, translate, Above, HasTables, vmm_map_page-translate, vmm_unmap_page-translate,
}
use vortex_os.Thread.{Memory}
use vortex_os.Vmm.Create.{Apart, Spares, IsFilled, IsNew, vmm_create_address_space-cases}

-- Memory with one free page, the page 16.
abbrev pages_left : Pmm
pages_left = record {
  frames = λ p. record {
    order = 0;
    flags = record { free = true; used = false; reserved = false; poison = false; pinned = false };
    refcount = 0;
    numa_node = 0;
    private_data = none;
    next = none;
    prev = none;
  };
  frames_addr = 0;
  total_pages = 32;
  free_pages = 1;
  hhdm_offset = 0;
  free_lists = λ o. if o == 0 then some 16 else none;
}

abbrev first : AddressSpace
first = record { pml4 = 4096; brk = 0 }

-- A call of `kmalloc` writes the head of a list at 65280.
abbrev small_heap : List ℕ → Pmm × Memory → Pmm × Memory
small_heap supply (pmm, memory) = (pmm, update memory 65280 7)

-- Four tables, each in a page, for the lowest addresses; the last one is empty.
abbrev machine : Vm
machine = record {
  pmm = pages_left;
  memory =
      λ a. if a == 4096 then 8193 else if a == 8192 then 12289 else if a == 12288 then 16385 else 0;
  cr3 = 4096;
  spaces = λ x. record { pml4 = 4096; brk = 0 };
  supply = 5 ∷ [];
  heap = small_heap;
}

machine-HasTables : HasTables 4096 0 machine
unfolding pmm_get_hhdm_offset
machine-HasTables = record { present4 = refl; present3 = refl; present2 = refl }

machine-Above : (virt : ℕ) → virt ≡ 0 → Above 4096 virt (place 4096 0 machine) machine
unfolding pmm_get_hhdm_offset
machine-Above virt e =
    rw e (record { first = omega arith; second = omega arith; third = omega arith })

vmm_map_page-translate_example :
    let w = place 4096 0 machine in
    let mapped = vmm_map_page first 0 20480 2 machine in
    (mapped.0 ≡ true)
    × (translate 4096 0 mapped.1 ≡ some (address 20480))
    × (vmm_walk_page_table first 0 mapped.1 ≡ (address 20480, mapped.1))
    × ((a : ℕ) → a ≢ w → mapped.1.memory a ≡ machine.memory a)
    × ((pml4' virt' : ℕ)
        → Above pml4' virt' w machine
        → place pml4' virt' machine ≢ w
        → translate pml4' virt' mapped.1 ≡ translate pml4' virt' machine)
vmm_map_page-translate_example =
    vmm_map_page-translate first 0 20480 2 machine (omega arith) machine-HasTables
      (machine-Above 0 refl)

vmm_unmap_page-translate_example :
    let w = place 4096 0 machine in
    let after = vmm_unmap_page first 0 machine in
    (translate 4096 0 after ≡ none)
    × ((a : ℕ) → a ≢ w → after.memory a ≡ machine.memory a)
    × ((pml4' virt' : ℕ)
        → Above pml4' virt' w machine
        → place pml4' virt' machine ≢ w
        → translate pml4' virt' after ≡ translate pml4' virt' machine)
vmm_unmap_page-translate_example = vmm_unmap_page-translate first 0 machine (machine-Above 0 refl)

machine-Apart :
    Apart
      (get_current_pml4 (record machine { pmm = (pmm_alloc_page pages_left).1 }))
      (((pmm_alloc_page pages_left).0 + pmm_get_hhdm_offset pages_left) % word)
unfolding get_current_pml4 pmm_get_hhdm_offset pmm_alloc_page pmm_alloc_pages order_for alloc_from
    take_block split list_remove skip_from skip_to clear_free hand_out pfn_to_phys
machine-Apart = inl (omega arith)

machine-Spares :
    Spares
      (((pmm_alloc_page pages_left).0 + pmm_get_hhdm_offset pages_left) % word)
      (record machine { pmm = (pmm_alloc_page pages_left).1 })
unfolding get_current_pml4 pmm_get_hhdm_offset pmm_alloc_page pmm_alloc_pages order_for alloc_from
    take_block split list_remove skip_from skip_to clear_free hand_out pfn_to_phys
machine-Spares memory same a p q = update_ne memory 65280 a 7 (ne→== 65280 a (omega arith))

vmm_create_address_space-cases_example :
    let phys = (pmm_alloc_page pages_left).0 in
    let pml4 = (phys + pmm_get_hhdm_offset pages_left) % word in
    let s1 = record machine { pmm = (pmm_alloc_page pages_left).1 } in
    let made = vmm_create_address_space machine in
    ((phys ≡ 0) × (made ≡ (none, s1)))
    ⊎ ((phys ≢ 0) × (◌≡◌ {A = List ℕ} (5 ∷ []) []) × (made.0 ≡ none) × IsFilled pml4 s1 made.1)
    ⊎ ((space : ℕ) × (rest : List ℕ) × (◌≡◌ {A = List ℕ} (5 ∷ []) (space ∷ rest))
        × (made.0 ≡ some space)
        × (made.1.supply ≡ rest)
        × IsNew space pml4 s1 made.1)
vmm_create_address_space-cases_example =
    vmm_create_address_space-cases machine machine-Apart machine-Spares
