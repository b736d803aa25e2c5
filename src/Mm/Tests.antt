-- ===== src/Mm/Tests.antt =====
-- Runs of mm.cpp on small memories, and its theorems at them.
use vortex_os.Base.{
  ℕ, ◌*◌, ◌^◌, ◌≤◌, ◌<◌, ◌≡◌, refl, ◌⊎◌, inl, inr, true, false, Option, none, some, List, [], ◌∷◌,
  arith, update, Bool-cases, ==→eq, ◌==◌,
}
use vortex_os.Mm.{
  PageFrame, Pmm, list_add, list_remove, max_order, buddy_of, order_for, split, hand_out,
  take_block, alloc_from, merge, stops_merge, pmm_alloc_pages, pmm_free_pages, pfn_to_phys,
  phys_to_pfn, page_align_up, page_align_down,
}
use vortex_os.Mm.FreeLists.{Lists}
use vortex_os.Mm.Blocks.{IsBlock, IsHeld, IsWf}
use vortex_os.Mm.Alloc.{IsHandedOut, NoBlock, pmm_alloc_pages-cases, take_block-IsAllocated}
use vortex_os.Mm.Free.{IsReturned, pmm_free_pages-IsReturned}
use vortex_os.Mm.Reserved.{reserved, pmm-reserved, pmm_free_pages-stuck}
use vortex_os.Mm.Init.{
  MemmapEntry, highest_end, place_metadata, largest_order, clear_flags, free_block, free_region,
  free_regions, init_frames, reserve_frame, pmm_init,
}
use vortex_os.Mm.Init.Region.{free_block-IsPlaced}
use vortex_os.Mm.Init.Regions.{AllUsable, IsFresh, no_blocks, init_frames-IsWf, init_frames-free}
use vortex_os.Mm.Init.Ready.{IsRegular, IsSize, IsReady, pmm_init-IsReady}

abbrev zero_frame : PageFrame
zero_frame = record {
  order = 0;
  flags = record { free = false; used = false; reserved = false; poison = false; pinned = false };
  refcount = 0;
  numa_node = 0;
  private_data = none;
  next = none;
  prev = none;
}

abbrev zeroed : Pmm
zeroed = record {
  frames = λ _. zero_frame;
  frames_addr = 0;
  total_pages = 0;
  free_pages = 0;
  hhdm_offset = 0;
  free_lists = λ _. none;
}

zeroed-IsFresh : IsFresh zeroed
zeroed-IsFresh = record { no_frame = λ _. refl; no_list = λ _. refl; no_page = refl }

-- Eleven usable pages from page 1, the first of which takes the metadata.
abbrev small_map : List MemmapEntry
small_map =
    record { base = 4096; length = 11 * 4096; kind = 0 }
    ∷ record { base = 0xFEE00; length = 10; kind = 1 }
    ∷ []

abbrev tiny_map : List MemmapEntry
tiny_map = record { base = 4096; length = 11 * 4096; kind = 0 } ∷ []

after_init : Option (ℕ × Option ℕ × Option ℕ × Option ℕ)
unfolding pmm_init highest_end place_metadata init_frames free_regions free_region largest_order
    free_block clear_flags list_add page_align_up page_align_down phys_to_pfn reserve_frame
after_init = elim (pmm_init tiny_map 0 zeroed) [
  | none ↦ none
  | some s ↦ some (s.free_pages, s.free_lists 0, s.free_lists 1, s.free_lists 2)
]

after_init_blocks : after_init ≡ some (10, none, some 2, some 8)
unfolding after_init
after_init_blocks = refl

tiny_map-IsRegular : IsRegular tiny_map
tiny_map-IsRegular = (λ _. (record { aligned = refl; bounded = omega arith }, tt), tt)

pmm_init-IsReady_example :
    (size : ℕ) × IsSize size tiny_map
    × ((AllUsable (λ e. e.length < size) tiny_map × (pmm_init tiny_map 0 zeroed ≡ none))
        ⊎ ((base : ℕ) × (s' : Pmm) × (ls' : Lists) × (pmm_init tiny_map 0 zeroed ≡ some s')
            × IsReady tiny_map base size s' ls'))
pmm_init-IsReady_example = pmm_init-IsReady tiny_map 0 zeroed tiny_map-IsRegular zeroed-IsFresh

-- Initialised metadata, and then one free block of four pages at page 8.
abbrev booted : Pmm
booted = init_frames tiny_map 0 4096 zeroed

booted-IsWf : IsWf booted no_blocks
booted-IsWf = init_frames-IsWf tiny_map 0 4096 zeroed zeroed-IsFresh

booted-IsBlock : (a o m : ℕ) → a ≡ m * 2 ^ o → o ≤ max_order → IsBlock booted a o
booted-IsBlock a o m e h = record {
  small = h;
  aligned = (m, e);
  outside = λ y f. ground (arith, init_frames-free tiny_map 0 4096 y zeroed zeroed-IsFresh);
}

abbrev pool : Pmm
pool = free_block 2 8 booted

abbrev pool_lists : Lists
pool_lists = update no_blocks 2 (8 ∷ [])

pool-IsWf : IsWf pool pool_lists
pool-IsWf =
    (free_block-IsPlaced 2 8 booted no_blocks booted-IsWf
      (booted-IsBlock 8 2 2 refl (omega arith))).wf

pmm_alloc_pages-cases_example :
    ((pmm_alloc_pages 1 pool ≡ (0, pool)) × NoBlock 1 pool_lists)
    ⊎ ((a target : ℕ) × (ls' : Lists) × IsHandedOut 1 pool pool_lists a target ls')
pmm_alloc_pages-cases_example = pmm_alloc_pages-cases 1 pool pool_lists (omega arith) pool-IsWf

-- The lower page of the block is handed out, and the rest is split off.
split_pool :
    let (phys, s) = pmm_alloc_pages 1 pool in
    (phys ≡ 8 * 4096)
    × (s.free_lists 0 ≡ some 9)
    × (s.free_lists 1 ≡ some 10)
    × (s.free_lists 2 ≡ none)
    × (s.free_pages ≡ 3)
unfolding pmm_alloc_pages order_for alloc_from take_block split hand_out list_add list_remove
    pfn_to_phys buddy_of free_block clear_flags init_frames reserve_frame highest_end phys_to_pfn
split_pool = (refl, refl, refl, refl, refl)

-- Page 8 in use beside a free block of page 9.
abbrev pair : Pmm
pair = free_block 0 9 booted

abbrev pair_lists : Lists
pair_lists = update no_blocks 0 (9 ∷ [])

pair-IsWf : IsWf pair pair_lists
pair-IsWf =
    (free_block-IsPlaced 0 9 booted no_blocks booted-IsWf
      (booted-IsBlock 9 0 9 refl (omega arith))).wf

pair_order : (pair.frames 8).order ≡ 0
unfolding free_block list_add clear_flags init_frames phys_to_pfn highest_end reserve_frame
pair_order = refl

IsHeld-page : IsHeld pair 8 0
IsHeld-page =
    let p =
      free_block-IsPlaced 0 9 booted no_blocks booted-IsWf
        (booted-IsBlock 9 0 9 refl (omega arith)) in
    record {
      block = record {
        small = omega arith;
        aligned = (8, refl);
        outside = λ y f. elim (Bool-cases (9 == y)) [
          | inl e ↦ inl (omega (arith, ==→eq 9 y e))
          | inr n ↦
              ground (arith, p.other y n, init_frames-free tiny_map 0 4096 y zeroed zeroed-IsFresh)
        ];
      };
      order = pair_order;
    }

pmm_free_pages-IsReturned_example :
    (ls' : Lists) × IsReturned pair pair_lists 8 0 (pmm_free_pages (pfn_to_phys 8) 1 pair) ls'
pmm_free_pages-IsReturned_example =
    pmm_free_pages-IsReturned 8 0 1 pair pair_lists (omega arith) (omega arith) pair-IsWf
      IsHeld-page

-- The two pages come back as one block.
free_pair :
    let s = pmm_free_pages (8 * 4096) 1 pair in
    (s.free_lists 0 ≡ none) × (s.free_lists 1 ≡ some 8) × (s.free_pages ≡ 2)
unfolding pmm_free_pages merge stops_merge list_add list_remove phys_to_pfn buddy_of free_block
    clear_flags init_frames reserve_frame highest_end
free_pair = (refl, refl, refl)

-- The pool after its page 8 was handed out.
abbrev split_state : Pmm
split_state = (take_block 0 2 8 pool).1

split_state-IsHeld : IsHeld split_state 8 0
split_state-IsHeld =
    (take_block-IsAllocated 0 2 8 pool pool_lists (omega arith) pool-IsWf.free refl).1.taken

pmm_free_pages-stuck_example :
    let s' = pmm_free_pages (pfn_to_phys 8) 1 split_state in
    ((s'.frames 8).flags.free ≡ true) × ((s'.frames 8).order ≡ 0) × (s'.free_lists 0 ≡ some 8)
unfolding take_block split hand_out list_add list_remove buddy_of free_block clear_flags init_frames
    reserve_frame highest_end phys_to_pfn
pmm_free_pages-stuck_example =
    pmm_free_pages-stuck 8 0 1 split_state (omega arith) (omega arith) (omega arith)
      split_state-IsHeld refl

pmm-reserved_example :
    (reserved (pmm_alloc_pages 1 pool).1 9 ≡ reserved pool 9)
    × (reserved (pmm_free_pages 0x8000 1 pool) 9 ≡ reserved pool 9)
pmm-reserved_example = pmm-reserved 1 0x8000 9 pool
