-- ===== src/PageFault/Tests.antt =====
-- A run of pf.cpp and the theorem at it.
use vortex_os.Base.{
  ◌+◌, ◌%◌, ◌≡◌, refl, inl, true, false, none, some, [], ◌==◌, if◌then◌else◌, arith,
}
use vortex_os.Mm.{
  Pmm, pmm_alloc_page, pmm_alloc_pages, order_for, alloc_from, take_block, pfn_to_phys,
  pmm_get_hhdm_offset, word,
}
use vortex_os.Vmm.{Vm, address, get_current_pml4}
use vortex_os.Vmm.Mapping.{place, Above, HasTables}
use vortex_os.Vmm.Create.{Apart}
use vortex_os.PageFault.{page_fault_handler}
use vortex_os.PageFault.Copy.{AreOutside, IsCopied, page_fault_handler-IsCopied}

-- Memory with one free page, the page 16.
abbrev one_page : Pmm
one_page = record {
  frames = λ p. record {
    order = 0;
    flags = record { free = true; used = false; reserved = false; poison = false; pinned = false };
    refcount = 0;
    numa_node = 0;
    private_data = none;
    next = none;
    prev = none;
  };
  frames_addr = 0;
  total_pages = 32;
  free_pages = 1;
  hhdm_offset = 0;
  free_lists = λ o. if o == 0 then some 16 else none;
}

-- The lowest page is mapped to the frame 5, without the right to write.
abbrev shared : Vm
shared = record {
  pmm = one_page;
  memory = λ a.
      if a == 4096
      then 8199
      else if a == 8192
      then 12295
      else if a == 12288
      then 16391
      else if a == 16384
      then 20485
      else 0;
  cr3 = 4096;
  spaces = λ x. record { pml4 = 4096; brk = 0 };
  supply = [];
  heap = λ supply r. r;
}

sixteenth : (pmm_alloc_page one_page).0 ≡ 65536
unfolding pmm_alloc_page pmm_alloc_pages order_for alloc_from take_block pfn_to_phys
sixteenth = refl

shared-HasTables : HasTables (get_current_pml4 shared) 0 shared
unfolding pmm_get_hhdm_offset get_current_pml4
shared-HasTables = record { present4 = refl; present3 = refl; present2 = refl }

shared-Above : Above (get_current_pml4 shared) 0 (place (get_current_pml4 shared) 0 shared) shared
unfolding pmm_get_hhdm_offset get_current_pml4
shared-Above = record { first = omega arith; second = omega arith; third = omega arith }

shared-AreOutside :
    AreOutside
      (get_current_pml4 shared)
      0
      (((pmm_alloc_page one_page).0 + pmm_get_hhdm_offset one_page) % word)
      shared
unfolding pmm_get_hhdm_offset get_current_pml4
shared-AreOutside = rw sixteenth (record {
  first = inl (omega arith);
  second = inl (omega arith);
  third = inl (omega arith);
  last = inl (omega arith);
})

shared-Apart :
    Apart
      ((address (shared.memory (place (get_current_pml4 shared) 0 shared))
          + pmm_get_hhdm_offset one_page)
        % word)
      (((pmm_alloc_page one_page).0 + pmm_get_hhdm_offset one_page) % word)
unfolding pmm_get_hhdm_offset get_current_pml4
shared-Apart = rw sixteenth (inl (omega arith))

shared-frame : address (shared.memory (place (get_current_pml4 shared) 0 shared)) ≡ 20480
unfolding pmm_get_hhdm_offset get_current_pml4
shared-frame = refl

page_fault_handler-IsCopied_example :
    let pml4 = get_current_pml4 shared in
    let old_phys = address (shared.memory (place pml4 0 shared)) in
    let new_phys = (pmm_alloc_page one_page).0 in
    (s' : Vm) × (page_fault_handler 7 12 shared ≡ some s')
    × IsCopied pml4 0 new_phys
        ((old_phys + pmm_get_hhdm_offset one_page) % word)
        ((new_phys + pmm_get_hhdm_offset one_page) % word)
        shared
        s'
page_fault_handler-IsCopied_example =
    page_fault_handler-IsCopied 7 12 shared refl shared-HasTables shared-Above
      (omega (arith, shared-frame)) shared-AreOutside shared-Apart
