-- ===== src/PageFault.antt =====
-- The handler of page faults: src/kernel/pf.cpp, for pages that were made read-only when an address
-- space was cloned. `none` is a panic.
pub mod Copy
mod Tests
use vortex_os.Base.{
  ℕ, ◌+◌, ◌-◌, ◌/◌, ◌%◌, ◌^◌, Bool, true, false, not, ◌&&◌, Option, none, some, ◌==◌, if◌then◌else◌,
}
use vortex_os.Mm.{pmm_alloc_page, pmm_get_hhdm_offset, word}
use vortex_os.Vmm.{
  Vm, AddressSpace, get_current_pml4, copy_entries, vmm_walk_page_table, vmm_map_page,
}

-- A new frame with the old one's content, mapped with the flags PAGE_WRITE and PAGE_USER.
unfoldable pub copy_on_write : AddressSpace → (virt old_phys : ℕ) → Vm → Vm
copy_on_write space virt old_phys s =
    let (new_phys, pmm1) = pmm_alloc_page s.pmm in
    let hhdm = pmm_get_hhdm_offset pmm1 in
    let s1 = record s { pmm = pmm1 } in
    let s2 = copy_entries 512 0 ((old_phys + hhdm) % word) ((new_phys + hhdm) % word) s1 in
    (vmm_map_page space virt new_phys 6 s2).1

-- `cr2` is the address of the fault.
unfoldable pub page_fault_handler : (error_code cr2 : ℕ) → Vm → Option Vm
page_fault_handler error_code cr2 s =
    let space : AddressSpace = record { pml4 = get_current_pml4 s; brk = 0 } in
    let virt = cr2 - cr2 % 2 ^ 12 in
    let (old_phys, s1) = vmm_walk_page_table space virt s in
    if (error_code % 2 == 1) && (error_code / 2 % 2 == 1) && (error_code / 4 % 2 == 1)
    then (if old_phys == 0 then none else some (copy_on_write space virt old_phys s1))
    else none
