-- ===== src/Mm.antt =====
-- The physical memory manager: src/kernel/mm.cpp and include/vortex/kernel/mm.hpp.
-- A `PageFrame*` is its index in `kFrames`, the page frame number; a null pointer is `none`.
-- The bits of a frame's flags are five Booleans, a `uint64_t` counter wraps modulo `word`.
pub mod Chain
pub mod FreeLists
pub mod Blocks
pub mod Split
pub mod Alloc
pub mod Free
pub mod Offset
pub mod Reserved
mod Tests
pub mod Init
use Prim.Native.Nat.{bit_xor}
use vortex_os.Base.{
  ℕ, zero, suc, ◌+◌, ◌-◌, ◌*◌, ◌/◌, ◌%◌, ◌^◌, Bool, true, false, not, ◌||◌, Option, none, some, ltb,
  leb, ◌==◌, if◌then◌else◌, update,
}

abbrev pub max_order : ℕ
max_order = 10

abbrev pub page_size : ℕ
page_size = 4096

abbrev pub word : ℕ
word = 2 ^ 64

pub record Flags : Type 0 where
  pub free : Bool
  pub used : Bool
  pub reserved : Bool
  pub poison : Bool
  pub pinned : Bool

pub record PageFrame : Type 0 where
  pub order : ℕ
  pub flags : Flags
  pub refcount : ℕ
  pub numa_node : ℕ
  pub private_data : Option ℕ
  pub next : Option ℕ
  pub prev : Option ℕ

pub record Pmm : Type 0 where
  pub frames : ℕ → PageFrame
  pub frames_addr : ℕ
  pub total_pages : ℕ
  pub free_pages : ℕ
  pub hhdm_offset : ℕ
  pub free_lists : ℕ → Option ℕ

unfoldable pub page_align_down : ℕ → ℕ
page_align_down addr = addr - addr % page_size

unfoldable pub page_align_up : ℕ → ℕ
unfolding page_align_down
page_align_up addr = page_align_down ((addr + (page_size - 1)) % word)

unfoldable pub phys_to_pfn : ℕ → ℕ
phys_to_pfn phys = phys / page_size

unfoldable pub pfn_to_phys : ℕ → ℕ
pfn_to_phys pfn = pfn * page_size % word

unfoldable pub buddy_of : ℕ → ℕ → ℕ
buddy_of pfn order = bit_xor pfn (2 ^ order)

-- The writes of one field through a pointer.
abbrev set_frame : ℕ → PageFrame → Pmm → Pmm
set_frame i f s = record s { frames = update s.frames i f }

abbrev set_next : ℕ → Option ℕ → Pmm → Pmm
set_next i p s = set_frame i (record (s.frames i) { next = p }) s

abbrev set_prev : ℕ → Option ℕ → Pmm → Pmm
set_prev i p s = set_frame i (record (s.frames i) { prev = p }) s

abbrev set_flags : ℕ → Flags → Pmm → Pmm
set_flags i f s = set_frame i (record (s.frames i) { flags = f }) s

abbrev set_order : ℕ → ℕ → Pmm → Pmm
set_order i o s = set_frame i (record (s.frames i) { order = o }) s

abbrev set_list : ℕ → Option ℕ → Pmm → Pmm
set_list order p s = record s { free_lists = update s.free_lists order p }

mark_free : ℕ → Pmm → Pmm
mark_free i s = set_flags i (record ((s.frames i).flags) { free = true }) s

unfoldable pub clear_free : ℕ → Pmm → Pmm
clear_free i s = set_flags i (record ((s.frames i).flags) { free = false }) s

mark_used : ℕ → Pmm → Pmm
mark_used i s = set_flags i (record ((s.frames i).flags) { used = true }) s

clear_used : ℕ → Pmm → Pmm
clear_used i s = set_flags i (record ((s.frames i).flags) { used = false }) s

-- `if (kFreeLists[order]) kFreeLists[order]->prev = frame;`
link_back : Option ℕ → ℕ → Pmm → Pmm
link_back none frame s = s
link_back (some h) frame s = set_prev h (some frame) s

unfoldable pub list_add : ℕ → ℕ → Pmm → Pmm
unfolding link_back mark_free
list_add order frame s =
    let s1 = set_prev frame none (set_next frame (s.free_lists order) s) in
    let s2 = link_back (s.free_lists order) frame s1 in
    let s3 = set_list order (some frame) s2 in set_order frame order (mark_free frame s3)

-- The two halves of `list_remove`: the pointer into the frame, and the pointer back to it.
unfoldable pub skip_from : Option ℕ → ℕ → Option ℕ → Pmm → Pmm
skip_from (some p) order n s = set_next p n s
skip_from none order n s = set_list order n s

unfoldable pub skip_to : Option ℕ → Option ℕ → Pmm → Pmm
skip_to (some n) p s = set_prev n p s
skip_to none p s = s

unfoldable pub list_remove : ℕ → ℕ → Pmm → Pmm
unfolding skip_from skip_to clear_free
list_remove order frame s =
    let s1 = skip_from (s.frames frame).prev order (s.frames frame).next s in
    let s2 = skip_to (s1.frames frame).next (s1.frames frame).prev s1 in clear_free frame s2

-- `while ((1ULL << target_order) < count) target_order++;` on fuel.
unfoldable pub order_for : ℕ → ℕ → ℕ → ℕ
order_for zero order count = order
order_for (suc fuel) order count =
    let rest = order_for fuel (order + 1) count in if ltb (2 ^ order) count then rest else order

-- `while (order > target_order) { order--; …; list_add(order, buddy); }`
unfoldable pub split : ℕ → ℕ → ℕ → Pmm → Pmm
split zero target pfn s = s
split (suc order) target pfn s =
    let rest = split order target pfn (list_add order (buddy_of pfn order) s) in
    if ltb target (suc order) then rest else s

-- What is written into the frame that is handed out, and the count of free pages.
unfoldable pub hand_out : ℕ → ℕ → Pmm → Pmm
unfolding mark_used
hand_out target pfn s =
    let s1 = set_order pfn target (mark_used pfn s) in
    record s1 { free_pages = (s1.free_pages + word - 2 ^ target) % word }

-- The body of the search for a list that is not empty.
unfoldable pub take_block : ℕ → ℕ → ℕ → Pmm → ℕ × Pmm
take_block target order pfn s =
    (pfn_to_phys pfn, hand_out target pfn (split order target pfn (list_remove order pfn s)))

-- `for (order = target_order; order <= MAX_ORDER; ++order)`, with the rounds that are left.
unfoldable pub alloc_from : ℕ → ℕ → ℕ → Pmm → ℕ × Pmm
alloc_from zero target order s = (0, s)
alloc_from (suc rounds) target order s = elim (s.free_lists order) [
  | some pfn ↦ take_block target order pfn s
  | none ↦ alloc_from rounds target (order + 1) s
]

-- 64 rounds give every order that `1ULL << order` has.
unfoldable pub pmm_alloc_pages : ℕ → Pmm → ℕ × Pmm
pmm_alloc_pages count s =
    let target = order_for 64 0 count in
    if count == 0
    then (0, s)
    else if ltb max_order target
    then (0, s)
    else alloc_from (max_order + 1 - target) target target s

unfoldable pub pmm_alloc_page : Pmm → ℕ × Pmm
pmm_alloc_page s = pmm_alloc_pages 1 s

-- `!(buddy->flags & PAGE_FREE) || buddy->order != order || (buddy->flags & PAGE_RESERVED)`
unfoldable pub stops_merge : PageFrame → ℕ → Bool
stops_merge buddy order = not buddy.flags.free || not (buddy.order == order) || buddy.flags.reserved

-- The loop `while (order < MAX_ORDER)`, with the rounds `MAX_ORDER - order` that are left, and
-- the `list_add` behind it.
unfoldable pub merge : ℕ → ℕ → ℕ → Pmm → Pmm
merge zero order pfn s = list_add order pfn s
merge (suc rounds) order pfn s =
    let buddy = buddy_of pfn order in
    let rest =
      merge rounds (order + 1) (if ltb buddy pfn then buddy else pfn) (list_remove order buddy s) in
    if leb s.total_pages buddy || stops_merge (s.frames buddy) order
    then list_add order pfn s
    else rest

-- The argument `count` is not read.
unfoldable pub pmm_free_pages : ℕ → ℕ → Pmm → Pmm
unfolding clear_used
pmm_free_pages phys count s =
    let pfn = phys_to_pfn phys in
    let order = (s.frames pfn).order in
    let s1 = record s { free_pages = (s.free_pages + 2 ^ order) % word } in
    if phys == 0 then s else merge (max_order - order) order pfn (clear_used pfn s1)

unfoldable pub pmm_free_page : ℕ → Pmm → Pmm
pmm_free_page phys s = pmm_free_pages phys 1 s

unfoldable pub pmm_get_frame : ℕ → Pmm → Option PageFrame
pmm_get_frame phys s =
    let pfn = phys_to_pfn phys in if leb s.total_pages pfn then none else some (s.frames pfn)

pub record PmmStats : Type 0 where
  pub total_pages : ℕ
  pub free_pages : ℕ
  pub used_pages : ℕ
  pub total_bytes : ℕ

pub pmm_get_stats : Pmm → PmmStats
pmm_get_stats s = record {
  total_pages = s.total_pages;
  free_pages = s.free_pages;
  used_pages = (s.total_pages + word - s.free_pages) % word;
  total_bytes = s.total_pages * page_size % word;
}

unfoldable pub pmm_get_hhdm_offset : Pmm → ℕ
pmm_get_hhdm_offset s = s.hhdm_offset
