-- ===== src/Mm/Init.antt =====
-- `pmm_init` of mm.cpp: the memory map that the boot loader hands over becomes free blocks.
-- `none` is the panic for want of room for the metadata.
pub mod Region
pub mod Regions
pub mod Ready
use vortex_os.Base.{
  ℕ, zero, suc, ◌+◌, ◌-◌, ◌*◌, ◌/◌, ◌%◌, ◌^◌, Bool, true, false, not, ◌&&◌, ◌||◌, Option, none,
  some, List, [], ◌∷◌, ltb, leb, ◌==◌, if◌then◌else◌, update,
}
use vortex_os.Mm.{
  PageFrame, Flags, Pmm, max_order, page_size, word, page_align_up, page_align_down, phys_to_pfn,
  list_add,
}

-- The kinds of memory of include/limine/limine.hpp, by their numbers.
abbrev pub usable : ℕ
usable = 0

pub record MemmapEntry : Type 0 where
  pub base : ℕ
  pub length : ℕ
  pub kind : ℕ

-- `sizeof(PageFrame)`: 1 + 1 + 2 + 4 bytes and three pointers.
abbrev pub frame_size : ℕ
frame_size = 32

unfoldable pub highest_end : ℕ → List MemmapEntry → ℕ
highest_end highest [] = highest
highest_end highest (e ∷ es) =
    let end = (e.base + e.length) % word in
    highest_end (if ltb highest end then end else highest) es

-- The first usable region that is large enough.
unfoldable pub place_metadata : ℕ → List MemmapEntry → Option ℕ
place_metadata size [] = none
place_metadata size (e ∷ es) =
    if (e.kind == usable) && leb size e.length then some e.base else place_metadata size es

unfoldable pub reserve_frame : PageFrame → PageFrame
reserve_frame f = record f {
  order = 0;
  flags = record { free = false; used = false; reserved = true; poison = false; pinned = false };
  refcount = 0;
  numa_node = 0;
  next = none;
  prev = none;
}

-- The loop `while (order < MAX_ORDER && …)` with the rounds that are left.
unfoldable pub largest_order : ℕ → ℕ → ℕ → ℕ → ℕ → ℕ
largest_order zero order pfn end_pfn meta_start = order
largest_order (suc rounds) order pfn end_pfn meta_start =
    let size = 2 ^ (order + 1) in
    let rest = largest_order rounds (order + 1) pfn end_pfn meta_start in
    if not ((pfn % size == 0) && leb (pfn + size) end_pfn)
    then order
    else if ltb pfn meta_start && ltb meta_start (pfn + size)
    then order
    else rest

-- `kFrames[pfn].flags = 0;`
unfoldable pub clear_flags : ℕ → Pmm → Pmm
clear_flags pfn s = record s {
  frames = update s.frames pfn (record (s.frames pfn) {
    flags = record { free = false; used = false; reserved = false; poison = false; pinned = false };
  });
}

-- The body of the loop over a region: one block goes to its free list.
unfoldable pub free_block : ℕ → ℕ → Pmm → Pmm
free_block order pfn s =
    let s2 = list_add order pfn (clear_flags pfn s) in
    record s2 { free_pages = (s2.free_pages + 2 ^ order) % word }

-- `for (pfn = start_pfn; pfn < end_pfn; )` on fuel: each round but one moves on by a block, and
-- that one jumps over the metadata.
unfoldable pub free_region : ℕ → ℕ → ℕ → ℕ → ℕ → Pmm → Pmm
free_region zero pfn end_pfn meta_start meta_end s = s
free_region (suc fuel) pfn end_pfn meta_start meta_end s =
    let order = largest_order max_order 0 pfn end_pfn meta_start in
    let over = free_region fuel meta_end end_pfn meta_start meta_end s in
    let next =
      free_region fuel (pfn + 2 ^ order) end_pfn meta_start meta_end (free_block order pfn s) in
    if not (ltb pfn end_pfn)
    then s
    else if leb meta_start pfn && ltb pfn meta_end
    then over
    else next

-- The pages that lie wholly inside an entry.
abbrev pub start_pfn : MemmapEntry → ℕ
start_pfn e = phys_to_pfn (page_align_up e.base)

abbrev pub end_pfn : MemmapEntry → ℕ
end_pfn e = phys_to_pfn (page_align_down ((e.base + e.length) % word))

unfoldable pub free_regions : ℕ → ℕ → List MemmapEntry → Pmm → Pmm
free_regions meta_start meta_end [] s = s
free_regions meta_start meta_end (e ∷ es) s =
    let s1 =
      free_region (suc (end_pfn e - start_pfn e)) (start_pfn e) (end_pfn e) meta_start meta_end s in
    free_regions meta_start meta_end es (if e.kind == usable then s1 else s)

-- The pages of the metadata at `base`.
abbrev pub meta_size : List MemmapEntry → ℕ
meta_size entries = phys_to_pfn (highest_end 0 entries) * frame_size % word

abbrev pub meta_first : ℕ → ℕ
meta_first base = phys_to_pfn base

abbrev pub meta_last : List MemmapEntry → ℕ → ℕ
meta_last entries base =
    (meta_first base + (meta_size entries + page_size - 1) % word / page_size) % word

-- The metadata as it is before any block is freed.
unfoldable pub init_frames : List MemmapEntry → ℕ → ℕ → Pmm → Pmm
init_frames entries hhdm base s =
    let total = phys_to_pfn (highest_end 0 entries) in
    record s {
      frames = λ i. if ltb i total then reserve_frame (s.frames i) else s.frames i;
      frames_addr = (base + hhdm) % word;
      total_pages = total;
      hhdm_offset = hhdm;
    }

unfoldable pub pmm_init : List MemmapEntry → ℕ → Pmm → Option Pmm
pmm_init entries hhdm s = elim (place_metadata (meta_size entries) entries) [
  | none ↦ none
  | some base ↦ some (
      free_regions (meta_first base) (meta_last entries base) entries
        (init_frames entries hhdm base s))
]
