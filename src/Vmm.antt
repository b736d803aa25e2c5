-- ===== src/Vmm.antt =====
-- Page tables: src/kernel/vmm.cpp, include/vortex/kernel/vmm.hpp. Memory is 64-bit words by their
-- addresses. A table is the address of its first entry, and lies in one page. A mask or a bit that is
-- tested is written as a quotient and a remainder.
pub mod Create
pub mod Mapping
mod Tests
use Prim.Native.Nat.{bit_or}
use vortex_os.Base.{
  ℕ, zero, suc, ◌+◌, ◌-◌, ◌*◌, ◌/◌, ◌%◌, ◌^◌, Bool, true, false, not, ◌||◌, Option, none, some,
  List, [], ◌∷◌, leb, ◌==◌, if◌then◌else◌, update,
}
use vortex_os.Mm.{Pmm, pmm_alloc_page, pmm_get_hhdm_offset, word}
use vortex_os.Thread.{Memory}

pub record AddressSpace : Type 0 where
  pub pml4 : ℕ
  pub brk : ℕ

-- `cr3` is the processor's register. An `AddressSpace*` is a number, or the
-- object itself where a function only reads it; `supply` has what the calls of
-- `kmalloc` to come return, a null pointer where it has run out. What a call does to the allocator
-- and to memory, when these calls are to come, is `heap`, which stands for heap.cpp.
pub record Vm : Type 0 where
  pub pmm : Pmm
  pub memory : Memory
  pub cr3 : ℕ
  pub spaces : ℕ → AddressSpace
  pub supply : List ℕ
  pub heap : List ℕ → Pmm × Memory → Pmm × Memory

-- After a call of `kmalloc`, but for what it returns.
abbrev pub kmalloc : Vm → Vm
kmalloc s = record s {
  pmm = (s.heap s.supply (s.pmm, s.memory)).0;
  memory = (s.heap s.supply (s.pmm, s.memory)).1;
}

abbrev pub slot : (table idx : ℕ) → ℕ
slot table idx = table + 8 * idx

abbrev pub load : (table idx : ℕ) → Vm → ℕ
load table idx s = s.memory (slot table idx)

abbrev pub store : (table idx entry : ℕ) → Vm → Vm
store table idx entry s = record s { memory = update s.memory (slot table idx) entry }

-- `entry & PAGE_PRESENT`.
abbrev pub is_present : ℕ → Bool
is_present entry = entry % 2 == 1

-- `entry & 0x000FFFFFFFFFF000`.
abbrev pub address : ℕ → ℕ
address entry = entry / 2 ^ 12 % 2 ^ 40 * 2 ^ 12

-- The table that an entry leads to.
abbrev pub table_of : (entry : ℕ) → Vm → ℕ
table_of entry s = (address entry + pmm_get_hhdm_offset s.pmm) % word

unfoldable pub get_current_pml4 : Vm → ℕ
get_current_pml4 s = (s.cr3 + pmm_get_hhdm_offset s.pmm) % word

abbrev pub get_pml4_idx : ℕ → ℕ
get_pml4_idx virt = virt / 2 ^ 39 % 512

abbrev pub get_pdpt_idx : ℕ → ℕ
get_pdpt_idx virt = virt / 2 ^ 30 % 512

abbrev pub get_pd_idx : ℕ → ℕ
get_pd_idx virt = virt / 2 ^ 21 % 512

abbrev pub get_pt_idx : ℕ → ℕ
get_pt_idx virt = virt / 2 ^ 12 % 512

-- `for (i = from; i < from + n; ++i) table[i] = f(i);`
unfoldable pub fill : (n from : ℕ) → (f : ℕ → ℕ) → (table : ℕ) → Vm → Vm
fill zero from f table s = s
fill (suc n) from f table s = fill n (from + 1) f table (store table from (f from) s)

unfoldable pub get_or_create_next_level : (current_table idx : ℕ) → Vm → Option ℕ × Vm
get_or_create_next_level current_table idx s =
    let (phys, pmm1) = pmm_alloc_page s.pmm in
    let s1 = record s { pmm = pmm1 } in
    let s2 = store current_table idx (bit_or (bit_or (bit_or phys 1) 2) 4) s1 in
    let s3 = fill 512 0 (λ i. 0) ((phys + pmm_get_hhdm_offset s.pmm) % word) s2 in
    if is_present (load current_table idx s)
    then (some (table_of (load current_table idx s) s), s)
    else if phys == 0
    then (none, s1)
    else (some (table_of (load current_table idx s3) s), s3)

-- The next level, unless the one before was not there: `if (!table) return …;`
unfoldable pub then_level : (idx : ℕ) → Option ℕ × Vm → Option ℕ × Vm
then_level idx (none, s) = (none, s)
then_level idx (some table, s) = get_or_create_next_level table idx s

-- `vmm_map_page` and `vmm_walk_page_table` down to the last table.
unfoldable pub last_table : (pml4 virt : ℕ) → Vm → Option ℕ × Vm
last_table pml4 virt s =
    then_level (get_pd_idx virt)
      (then_level (get_pdpt_idx virt) (get_or_create_next_level pml4 (get_pml4_idx virt) s))

-- The physical address, 0 where a table cannot be made.
unfoldable pub vmm_walk_page_table : AddressSpace → (virt : ℕ) → Vm → ℕ × Vm
vmm_walk_page_table space virt s =
    let (pt, s1) = last_table space.pml4 virt s in
    elim pt [ none ↦ (0, s1) | some pt ↦ (address (load pt (get_pt_idx virt) s1), s1) ]

-- `flags` is a 32-bit number.
unfoldable pub vmm_map_page : AddressSpace → (virt phys flags : ℕ) → Vm → Bool × Vm
vmm_map_page space virt phys flags s =
    let (pt, s1) = last_table space.pml4 virt s in
    elim pt [
      | none ↦ (false, s1)
      | some pt ↦ (true, store pt (get_pt_idx virt) (bit_or (bit_or (address phys) flags) 1) s1)
    ]

unfoldable pub vmm_unmap_page : AddressSpace → (virt : ℕ) → Vm → Vm
vmm_unmap_page space virt s =
    let entry4 = load space.pml4 (get_pml4_idx virt) s in
    let entry3 = load (table_of entry4 s) (get_pdpt_idx virt) s in
    let entry2 = load (table_of entry3 s) (get_pd_idx virt) s in
    if not (is_present entry4) || not (is_present entry3) || not (is_present entry2)
    then s
    else store (table_of entry2 s) (get_pt_idx virt) 0 s

-- `for (i = from; i < from + n; ++i) dst[i] = src[i];`
unfoldable pub copy_entries : (n from src dst : ℕ) → Vm → Vm
copy_entries zero from src dst s = s
copy_entries (suc n) from src dst s =
    copy_entries n (from + 1) src dst (store dst from (load src from s) s)

-- The object of a new address space.
unfoldable pub new_space : (pml4 : ℕ) → Vm → Option ℕ × Vm
new_space pml4 s = elim s.supply [
  | [] ↦ (none, kmalloc s)
  | space ∷ rest ↦ (
    some space,
    record (kmalloc s) {
      spaces = update s.spaces space (record { pml4 = pml4; brk = 0 });
      supply = rest;
    },
  )
]

unfoldable pub vmm_create_address_space : Vm → Option ℕ × Vm
vmm_create_address_space s =
    let (phys, pmm1) = pmm_alloc_page s.pmm in
    let s1 = record s { pmm = pmm1 } in
    let pml4 = (phys + pmm_get_hhdm_offset s.pmm) % word in
    let s2 = fill 512 0 (λ i. 0) pml4 s1 in
    let current = get_current_pml4 s2 in
    let s3 = copy_entries 256 256 current pml4 s2 in
    if phys == 0 then (none, s1) else new_space pml4 s3

-- The loop over the entries from the `n`th last on, with what copies a lower table.
unfoldable pub copy_rest :
    (copy_lower : (src_table dst_table : ℕ) → Vm → Bool × Vm) (is_pt is_kernel : Bool)
    (n src_table dst_table : ℕ)
    → Vm
    → Bool × Vm
copy_rest copy_lower is_pt is_kernel zero src_table dst_table s = (true, s)
copy_rest copy_lower is_pt is_kernel (suc n) src_table dst_table s =
    let i = 512 - suc n in
    let entry = load src_table i s in
    let read_only = entry - entry / 2 % 2 * 2 in
    let s_pt = store src_table i read_only (store dst_table i read_only s) in
    let (phys, pmm1) = pmm_alloc_page s.pmm in
    let s1 = record s { pmm = pmm1 } in
    let new_table = (phys + pmm_get_hhdm_offset s.pmm) % word in
    let (ok, s2) = copy_lower (table_of entry s) new_table s1 in
    let s3 = store dst_table i (bit_or phys (load src_table i s2 % 2 ^ 12)) s2 in
    let rest = copy_rest copy_lower is_pt is_kernel n src_table dst_table in
    if not (is_present entry)
    then rest s
    else if is_kernel || leb 256 i
    then rest (store dst_table i entry s)
    else if is_pt
    then rest s_pt
    else if phys == 0
    then (false, s1)
    else if ok
    then rest s3
    else (false, s2)

-- With the levels that are below: none at level 3.
unfoldable pub copy_page_table_level :
    (below : ℕ) → (src_table dst_table : ℕ) → (is_kernel : Bool) → Vm → Bool × Vm
copy_page_table_level zero src_table dst_table is_kernel s =
    copy_rest (λ src dst t. (true, t)) true is_kernel 512 src_table dst_table s
copy_page_table_level (suc below) src_table dst_table is_kernel s =
    copy_rest (λ src dst t. copy_page_table_level below src dst false t) false is_kernel 512
      src_table dst_table s

-- `none` is a fault: a null pointer that is followed, once there is a new address space.
-- `vmm_destroy_address_space` does nothing.
unfoldable pub vmm_clone_address_space : (src_as : Option ℕ) → Vm → Option (Option ℕ × Vm)
vmm_clone_address_space src_as s =
    let (dst, s1) = vmm_create_address_space s in
    elim dst [
      | none ↦ some (none, s1)
      | some dst_as ↦ elim src_as [
        | none ↦ none
        | some src ↦
            let (ok, s2) =
              copy_page_table_level 3 (s1.spaces src).pml4 (s1.spaces dst_as).pml4 false s1 in
            some (if ok then some dst_as else none, s2)
      ]
    ]

unfoldable pub vmm_switch_address_space : AddressSpace → Vm → Vm
vmm_switch_address_space space s = record s {
  cr3 = (space.pml4 + word - pmm_get_hhdm_offset s.pmm) % word;
}
