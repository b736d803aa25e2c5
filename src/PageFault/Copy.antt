-- ===== src/PageFault/Copy.antt =====
-- What the handler in pf.cpp does to a page that is shared until it is written.
use vortex_os.Base.{
  ℕ, ◌+◌, ◌-◌, ◌/◌, ◌%◌, ◌^◌, ◌≤◌, ◌<◌, ◌≡◌, ◌≢◌, ◌∙◌, ◌⊎◌, refl, sym, subst, ap, true, some, ◌==◌,
  ne→==, arith,
}
use vortex_os.Mm.{pmm_alloc_page, pmm_get_hhdm_offset, word}
use vortex_os.Mm.Offset.{pmm_alloc_page-offset}
use vortex_os.Vmm.{
  Vm, AddressSpace, slot, load, is_present, address, table_of, get_current_pml4, copy_entries,
  get_pml4_idx, get_pdpt_idx, get_pd_idx, get_pt_idx, vmm_walk_page_table, vmm_map_page,
}
use vortex_os.Vmm.Mapping.{
  entry4, entry3, entry2, place, translate, Above, HasTables, last_table-present,
  vmm_map_page-translate,
}
use vortex_os.Vmm.Create.{Apart, copy-outside, copy-inside, copy-memory}
use vortex_os.PageFault.{copy_on_write, page_fault_handler}

-- The second state has the same tables on the way to a page.
record HasSame (pml4 virt : ℕ) (s t : Vm) : Type 0 where
  offset : pmm_get_hhdm_offset t.pmm ≡ pmm_get_hhdm_offset s.pmm
  first : t.memory (slot pml4 (get_pml4_idx virt)) ≡ entry4 pml4 virt s
  second :
      t.memory (slot (table_of (entry4 pml4 virt s) s) (get_pdpt_idx virt)) ≡ entry3 pml4 virt s
  third : t.memory (slot (table_of (entry3 pml4 virt s) s) (get_pd_idx virt)) ≡ entry2 pml4 virt s

module _ (pml4 virt : ℕ) (s t : Vm) (h : HasSame pml4 virt s t) where
  same_table : (e e' : ℕ) → e ≡ e' → table_of e t ≡ table_of e' s
  same_table e e' p = λ i. (address (p i) + h.offset i) % word

  same3 : entry3 pml4 virt t ≡ entry3 pml4 virt s
  same3 =
      ap (λ u. t.memory (slot u (get_pdpt_idx virt)))
        (same_table (entry4 pml4 virt t) (entry4 pml4 virt s) h.first)
      ∙ h.second

  same2 : entry2 pml4 virt t ≡ entry2 pml4 virt s
  same2 =
      ap (λ u. t.memory (slot u (get_pd_idx virt)))
        (same_table (entry3 pml4 virt t) (entry3 pml4 virt s) same3)
      ∙ h.third

  same-place : place pml4 virt t ≡ place pml4 virt s
  same-place =
      ap (λ u. slot u (get_pt_idx virt))
        (same_table (entry2 pml4 virt t) (entry2 pml4 virt s) same2)

  same-HasTables : HasTables pml4 virt s → HasTables pml4 virt t
  same-HasTables v = record {
    present4 = ap is_present h.first ∙ v.present4;
    present3 = ap is_present same3 ∙ v.present3;
    present2 = ap is_present same2 ∙ v.present2;
  }

  same-Above : Above pml4 virt (place pml4 virt s) s → Above pml4 virt (place pml4 virt t) t
  same-Above a = record {
    first = λ e. a.first (e ∙ same-place);
    second = λ e. a.second (
        ap (λ u. slot u (get_pdpt_idx virt))
          (sym (same_table (entry4 pml4 virt t) (entry4 pml4 virt s) h.first))
        ∙ e
        ∙ same-place);
    third = λ e. a.third (
        ap (λ u. slot u (get_pd_idx virt))
          (sym (same_table (entry3 pml4 virt t) (entry3 pml4 virt s) same3))
        ∙ e
        ∙ same-place);
  }

-- An address outside the page of a table.
abbrev pub Outside : (table a : ℕ) → Type 0
Outside table a = (a < table) ⊎ (table + 4096 ≤ a)

-- The entries of a page, the last one included, are outside a table.
pub record AreOutside (pml4 virt table : ℕ) (s : Vm) : Type 0 where
  pub first : Outside table (slot pml4 (get_pml4_idx virt))
  pub second : Outside table (slot (table_of (entry4 pml4 virt s) s) (get_pdpt_idx virt))
  pub third : Outside table (slot (table_of (entry3 pml4 virt s) s) (get_pd_idx virt))
  pub last : Outside table (place pml4 virt s)

copied-outside :
    (src dst a : ℕ) (s : Vm) → Outside dst a → (copy_entries 512 0 src dst s).memory a ≡ s.memory a
copied-outside src dst a s h =
    copy-outside 512 0 src dst a s (λ i p q. λ e. absurd (omega (arith, e)))

walk-present :
    (space : AddressSpace) (virt : ℕ) (s : Vm)
    → HasTables space.pml4 virt s
    → vmm_walk_page_table space virt s ≡ (address (s.memory (place space.pml4 virt s)), s)
unfolding vmm_walk_page_table
walk-present space virt s t =
    let last = last_table-present space.pml4 virt s t in
    rw (vmm_walk_page_table, ap (λ r. r.0) last, ap (λ r. r.1) last) refl

-- What the write of a shared page comes to: the page is translated to the frame `new_phys`, which has
-- the content of the old frame, seen at `src`; memory outside the new frame, seen at `dst`, and
-- outside the page's last entry is as before.
pub record IsCopied (pml4 virt new_phys src dst : ℕ) (s s' : Vm) : Type 0 where
  pub mapped : translate pml4 virt s' ≡ some (address new_phys)
  pub content : (i : ℕ) → i < 512 → load dst i s' ≡ load src i s
  pub rest : (a : ℕ) → Outside dst a → a ≢ place pml4 virt s → s'.memory a ≡ s.memory a

copy_on_write-IsCopied :
    (space : AddressSpace) (virt old_phys : ℕ) (s : Vm)
    → let new_phys = (pmm_alloc_page s.pmm).0 in
      let src = (old_phys + pmm_get_hhdm_offset s.pmm) % word in
      let dst = (new_phys + pmm_get_hhdm_offset s.pmm) % word in
      HasTables space.pml4 virt s
      → Above space.pml4 virt (place space.pml4 virt s) s
      → AreOutside space.pml4 virt dst s
      → Apart src dst
      → IsCopied space.pml4 virt new_phys src dst s (copy_on_write space virt old_phys s)
unfolding copy_on_write pmm_get_hhdm_offset
copy_on_write-IsCopied space virt old_phys s t a o apart =
    let page = pmm_alloc_page s.pmm in
    let s1 : Vm = record s { pmm = page.1 } in
    let same = pmm_alloc_page-offset s.pmm in
    let src = (old_phys + s.pmm.hhdm_offset) % word in
    let dst = (page.0 + s.pmm.hhdm_offset) % word in
    let s2 = copy_entries 512 0 src dst s1 in
    let kept = copy-memory 512 0 src dst s1 in
    let h : HasSame space.pml4 virt s s2 = record {
      offset = ap (λ u. u.pmm.hhdm_offset) kept ∙ same;
      first = copied-outside src dst _ s1 o.first;
      second = copied-outside src dst _ s1 o.second;
      third = copied-outside src dst _ s1 o.third;
    } in
    let at = same-place space.pml4 virt s s2 h in
    let m =
      vmm_map_page-translate space virt page.0 6 s2 (omega arith)
        (same-HasTables space.pml4 virt s s2 h t) (same-Above space.pml4 virt s s2 h a) in
    subst
      (λ hhdm.
        IsCopied space.pml4 virt page.0 src dst s
          (vmm_map_page space virt page.0 6
            (copy_entries 512 0 ((old_phys + hhdm) % word) ((page.0 + hhdm) % word) s1)).1)
      (sym same)
      (record {
        mapped = m.1;
        content = λ i q.
            m.3 (slot dst i) (λ e. absurd (omega (arith, e, at, o.last)))
            ∙ copy-inside 512 0 src dst i s1 apart (omega arith) (omega arith) (omega arith);
        rest = λ b p n. m.3 b (λ e. n (e ∙ at)) ∙ copied-outside src dst b s1 p;
      })

-- A write by user code to a page that is present is answered with a copy: where the tables of the
-- page are there and its frame is not frame 0, the page is afterwards translated to a frame from the
-- allocator with the same content, and memory outside that frame and the page's last entry is as it
-- was. The new frame, as the kernel sees it, is apart from the old one and from the entries of the
-- page, and the page's last entry is none of those above it. The frame may be 0, where the allocator
-- has none left.
pub page_fault_handler-IsCopied :
    (error_code cr2 : ℕ) (s : Vm)
    → let pml4 = get_current_pml4 s in
      let virt = cr2 - cr2 % 2 ^ 12 in
      let old_phys = address (s.memory (place pml4 virt s)) in
      let new_phys = (pmm_alloc_page s.pmm).0 in
      let src = (old_phys + pmm_get_hhdm_offset s.pmm) % word in
      let dst = (new_phys + pmm_get_hhdm_offset s.pmm) % word in
      error_code % 8 ≡ 7
      → HasTables pml4 virt s
      → Above pml4 virt (place pml4 virt s) s
      → old_phys ≢ 0
      → AreOutside pml4 virt dst s
      → Apart src dst
      → (s' : Vm) × (page_fault_handler error_code cr2 s ≡ some s')
        × IsCopied pml4 virt new_phys src dst s s'
unfolding page_fault_handler
page_fault_handler-IsCopied error_code cr2 s c t a n o apart =
    let space : AddressSpace = record { pml4 = get_current_pml4 s; brk = 0 } in
    let virt = cr2 - cr2 % 2 ^ 12 in
    let old_phys = address (s.memory (place space.pml4 virt s)) in
    let walk = walk-present space virt s t in
    let present : (error_code % 2 == 1) ≡ true = ground arith in
    let write : (error_code / 2 % 2 == 1) ≡ true = ground arith in
    let user : (error_code / 4 % 2 == 1) ≡ true = ground arith in
    (
      copy_on_write space virt old_phys s,
      rw
          (
            page_fault_handler,
            ap (λ r. r.0) walk,
            ap (λ r. r.1) walk,
            present,
            write,
            user,
            ne→== old_phys 0 n,
          )
          refl,
      copy_on_write-IsCopied space virt old_phys s t a o apart,
    )
