-- ===== src/Vmm/Mapping.antt =====
-- Mapping and unmapping a page in vmm.cpp, against the walk of the page tables in memory, as tables of
-- pages of 4 KiB. The TLB, which vmm.cpp does not flush, and large pages are left out.
use Prim.Native.Nat.{bit_or}
use vortex_os.Base.{
  ℕ, ◌/◌, ◌%◌, ◌^◌, ◌<◌, ◌≡◌, ◌≢◌, ◌∙◌, refl, ap, true, Bool-cases, inl, inr, Option, none, some,
  if◌then◌else◌, not, ◌&&◌, ◌||◌, update, update_self, update_ne, ne→==, arith,
}
use vortex_os.Base.Ors.{bit_or-apart, bit_or-one}
use vortex_os.Vmm.{
  Vm, AddressSpace, slot, load, is_present, address, table_of, get_pml4_idx, get_pdpt_idx,
  get_pd_idx, get_pt_idx, get_or_create_next_level, then_level, last_table, vmm_map_page,
  vmm_unmap_page, vmm_walk_page_table,
}

-- The entries that a walk reads for a virtual address, from the first table on.
abbrev pub entry4 : (pml4 virt : ℕ) → Vm → ℕ
entry4 pml4 virt s = load pml4 (get_pml4_idx virt) s

abbrev pub entry3 : (pml4 virt : ℕ) → Vm → ℕ
entry3 pml4 virt s = load (table_of (entry4 pml4 virt s) s) (get_pdpt_idx virt) s

abbrev pub entry2 : (pml4 virt : ℕ) → Vm → ℕ
entry2 pml4 virt s = load (table_of (entry3 pml4 virt s) s) (get_pd_idx virt) s

-- Where the last entry stands.
abbrev pub place : (pml4 virt : ℕ) → Vm → ℕ
place pml4 virt s = slot (table_of (entry2 pml4 virt s) s) (get_pt_idx virt)

-- The page frame of a virtual address by a walk of four tables of pages of 4 KiB, none where an entry
-- on the way is not present. The bit of large pages is not looked at.
abbrev pub translate : (pml4 virt : ℕ) → Vm → Option ℕ
translate pml4 virt s =
    if is_present (entry4 pml4 virt s)
      && is_present (entry3 pml4 virt s)
      && is_present (entry2 pml4 virt s)
      && is_present (s.memory (place pml4 virt s))
    then some (address (s.memory (place pml4 virt s)))
    else none

-- The entries of the three upper tables do not stand at `w`.
pub record Above (pml4 virt w : ℕ) (s : Vm) : Type 0 where
  pub first : slot pml4 (get_pml4_idx virt) ≢ w
  pub second : slot (table_of (entry4 pml4 virt s) s) (get_pdpt_idx virt) ≢ w
  pub third : slot (table_of (entry3 pml4 virt s) s) (get_pd_idx virt) ≢ w

-- The three upper entries are present.
pub record HasTables (pml4 virt : ℕ) (s : Vm) : Type 0 where
  pub present4 : is_present (entry4 pml4 virt s) ≡ true
  pub present3 : is_present (entry3 pml4 virt s) ≡ true
  pub present2 : is_present (entry2 pml4 virt s) ≡ true

abbrev pub written : (w v : ℕ) → Vm → Vm
written w v s = record s { memory = update s.memory w v }

unwritten : (w v a : ℕ) (s : Vm) → a ≢ w → update s.memory w v a ≡ s.memory a
unwritten w v a s n = update_ne s.memory w a v (ne→== w a (λ e. n (ground arith)))

-- A write below leaves the entries above as they are.
Above-written :
    (pml4 virt w v : ℕ) (s : Vm)
    → Above pml4 virt w s
    → (entry4 pml4 virt (written w v s) ≡ entry4 pml4 virt s)
      × (entry3 pml4 virt (written w v s) ≡ entry3 pml4 virt s)
      × (entry2 pml4 virt (written w v s) ≡ entry2 pml4 virt s)
Above-written pml4 virt w v s h =
    let e4 = unwritten w v (slot pml4 (get_pml4_idx virt)) s h.first in
    let e3 =
      unwritten w v (slot (table_of (entry4 pml4 virt s) s) (get_pdpt_idx virt)) s h.second in
    let e2 = unwritten w v (slot (table_of (entry3 pml4 virt s) s) (get_pd_idx virt)) s h.third in
    let t3 = ap (λ e. update s.memory w v (slot (table_of e s) (get_pdpt_idx virt))) e4 ∙ e3 in
    let t2 = ap (λ e. update s.memory w v (slot (table_of e s) (get_pd_idx virt))) t3 ∙ e2 in
    (e4, t3, t2)

-- The translation after a write below.
translate-written :
    (pml4 virt w v : ℕ) (s : Vm)
    → Above pml4 virt w s
    → translate pml4 virt (written w v s) ≡ (
        if is_present (entry4 pml4 virt s)
          && is_present (entry3 pml4 virt s)
          && is_present (entry2 pml4 virt s)
          && is_present (update s.memory w v (place pml4 virt s))
        then some (address (update s.memory w v (place pml4 virt s)))
        else none)
translate-written pml4 virt w v s h =
    let (e4, e3, e2) = Above-written pml4 virt w v s h in
    λ i.
      if is_present (e4 i)
        && is_present (e3 i)
        && is_present (e2 i)
        && is_present (update s.memory w v (slot (table_of (e2 i) s) (get_pt_idx virt)))
      then some (address (update s.memory w v (slot (table_of (e2 i) s) (get_pt_idx virt))))
      else none

-- The page itself, when its last entry is written.
translate_own :
    (pml4 virt v : ℕ) (s : Vm)
    → HasTables pml4 virt s
    → Above pml4 virt (place pml4 virt s) s
    → translate pml4 virt (written (place pml4 virt s) v s)
      ≡ (if is_present v then some (address v) else none)
translate_own pml4 virt v s t h =
    translate-written pml4 virt (place pml4 virt s) v s h
    ∙ rw (t.present4, t.present3, t.present2, update_self s.memory (place pml4 virt s) v) refl

-- Another page.
translate_other :
    (pml4 virt w v : ℕ) (s : Vm)
    → Above pml4 virt w s
    → place pml4 virt s ≢ w
    → translate pml4 virt (written w v s) ≡ translate pml4 virt s
translate_other pml4 virt w v s h n =
    translate-written pml4 virt w v s h ∙ rw (unwritten w v (place pml4 virt s) s n) refl

next_level-present :
    (table idx : ℕ) (s : Vm)
    → is_present (load table idx s) ≡ true
    → get_or_create_next_level table idx s ≡ (some (table_of (load table idx s) s), s)
unfolding get_or_create_next_level
next_level-present table idx s h = rw (get_or_create_next_level, h)

pub last_table-present :
    (pml4 virt : ℕ) (s : Vm)
    → HasTables pml4 virt s
    → last_table pml4 virt s ≡ (some (table_of (entry2 pml4 virt s) s), s)
unfolding last_table then_level
last_table-present pml4 virt s t =
    let a = next_level-present pml4 (get_pml4_idx virt) s t.present4 in
    let b = next_level-present (table_of (entry4 pml4 virt s) s) (get_pdpt_idx virt) s t.present3 in
    let c = next_level-present (table_of (entry3 pml4 virt s) s) (get_pd_idx virt) s t.present2 in
    ap (λ r. then_level (get_pd_idx virt) (then_level (get_pdpt_idx virt) r)) a
    ∙ ap (then_level (get_pd_idx virt)) b
    ∙ c

written-HasTables :
    (pml4 virt w v : ℕ) (s : Vm)
    → HasTables pml4 virt s
    → Above pml4 virt w s
    → HasTables pml4 virt (written w v s)
written-HasTables pml4 virt w v s t h =
    let (e4, e3, e2) = Above-written pml4 virt w v s h in
    record {
      present4 = ap is_present e4 ∙ t.present4;
      present3 = ap is_present e3 ∙ t.present3;
      present2 = ap is_present e2 ∙ t.present2;
    }

-- The walk finds the entry that was written.
walk-found :
    (space : AddressSpace) (virt v : ℕ) (s : Vm)
    → let pml4 = space.pml4 in
      let w = place pml4 virt s in
      HasTables pml4 virt s
      → Above pml4 virt w s
      → vmm_walk_page_table space virt (written w v s) ≡ (address v, written w v s)
unfolding vmm_walk_page_table
walk-found space virt v s t h =
    let pml4 = space.pml4 in
    let w = place pml4 virt s in
    let last =
      last_table-present pml4 virt (written w v s) (written-HasTables pml4 virt w v s t h) in
    let (e4, e3, e2) = Above-written pml4 virt w v s h in
    let same : (last_table pml4 virt (written w v s)).0 ≡ some (table_of (entry2 pml4 virt s) s) =
      ap (λ r. r.0) last ∙ ap (λ e. some (table_of e s)) e2 in
    rw (vmm_walk_page_table, same, ap (λ r. r.1) last, update_self s.memory w v) refl

-- The entry that `vmm_map_page` writes, for flags of the lowest 12 bits.
entry-mapped :
    (phys flags : ℕ)
    → flags < 2 ^ 12
    → let entry = bit_or (bit_or (address phys) flags) 1 in
      (is_present entry ≡ true) × (address entry ≡ address phys)
entry-mapped phys flags h =
    let both = bit_or-apart 12 (phys / 2 ^ 12 % 2 ^ 40) flags h in
    let one = bit_or-one (bit_or (address phys) flags) in rw (one, both) (ground arith, omega arith)

-- `vmm_map_page` on a page whose upper tables are there, with flags below 2 ^ 12, returns true and
-- touches no memory but the page's last entry: a walk of the tables, as tables of pages of 4 KiB, then
-- translates the page to the frame, `vmm_walk_page_table` finds it too and changes nothing, and every
-- page that has its entries elsewhere is translated as before. The last entry of the page is none of
-- the entries above it.
pub vmm_map_page-translate :
    (space : AddressSpace) (virt phys flags : ℕ) (s : Vm)
    → flags < 2 ^ 12
    → HasTables space.pml4 virt s
    → Above space.pml4 virt (place space.pml4 virt s) s
    → let pml4 = space.pml4 in
      let w = place pml4 virt s in
      let mapped = vmm_map_page space virt phys flags s in
      (mapped.0 ≡ true)
      × (translate pml4 virt mapped.1 ≡ some (address phys))
      × (vmm_walk_page_table space virt mapped.1 ≡ (address phys, mapped.1))
      × ((a : ℕ) → a ≢ w → mapped.1.memory a ≡ s.memory a)
      × ((pml4' virt' : ℕ)
          → Above pml4' virt' w s
          → place pml4' virt' s ≢ w
          → translate pml4' virt' mapped.1 ≡ translate pml4' virt' s)
unfolding vmm_map_page vmm_walk_page_table
vmm_map_page-translate space virt phys flags s f t h =
    let pml4 = space.pml4 in
    let w = place pml4 virt s in
    let entry = bit_or (bit_or (address phys) flags) 1 in
    let last = last_table-present pml4 virt s t in
    let (present, frame) = entry-mapped phys flags f in
    let mapped : vmm_map_page space virt phys flags s ≡ (true, written w entry s) =
      rw (vmm_map_page, ap (λ r. r.0) last, ap (λ r. r.1) last) refl in
    rw mapped (
      refl,
      translate_own pml4 virt entry s t h ∙ rw (present, frame) refl,
      walk-found space virt entry s t h ∙ ap (λ a. (a, written w entry s)) frame,
      λ a n. unwritten w entry a s n,
      λ pml4' virt' above n. translate_other pml4' virt' w entry s above n,
    )

-- `vmm_unmap_page` takes a page out of the page tables: afterwards a walk of the tables in memory, as
-- tables of pages of 4 KiB, finds no frame for it, only the page's last entry changes, and every page
-- that has its entries elsewhere is found as before. The last entry of the page is none of the
-- entries above it. What the TLB still holds of the page, which the code does not flush, and large
-- pages are not part of the statement.
pub vmm_unmap_page-translate :
    (space : AddressSpace) (virt : ℕ) (s : Vm)
    → Above space.pml4 virt (place space.pml4 virt s) s
    → let pml4 = space.pml4 in
      let w = place pml4 virt s in
      let after = vmm_unmap_page space virt s in
      (translate pml4 virt after ≡ none)
      × ((a : ℕ) → a ≢ w → after.memory a ≡ s.memory a)
      × ((pml4' virt' : ℕ)
          → Above pml4' virt' w s
          → place pml4' virt' s ≢ w
          → translate pml4' virt' after ≡ translate pml4' virt' s)
unfolding vmm_unmap_page
vmm_unmap_page-translate space virt s h =
    let pml4 = space.pml4 in
    let w = place pml4 virt s in
    let missing =
      not (is_present (entry4 pml4 virt s))
      || not (is_present (entry3 pml4 virt s))
      || not (is_present (entry2 pml4 virt s)) in
    elim (Bool-cases missing) [
      | inl e ↦ rw (vmm_unmap_page, e) (ground arith, λ a n. refl, λ pml4' virt' above n. refl)
      | inr e ↦
          let t : HasTables pml4 virt s = record {
            present4 = ground arith;
            present3 = ground arith;
            present2 = ground arith;
          } in
          rw (vmm_unmap_page, e)
            (
              translate_own pml4 virt 0 s t h,
              λ a n. unwritten w 0 a s n,
              λ pml4' virt' above n. translate_other pml4' virt' w 0 s above n,
            )
    ]
