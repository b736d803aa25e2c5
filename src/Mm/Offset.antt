-- ===== src/Mm/Offset.antt =====
-- The allocator in mm.cpp keeps the offset of the direct map.
use vortex_os.Base.{ℕ, zero, suc, ◌+◌, ◌≡◌, ◌∙◌, refl, inl, inr, Option-cases, arith}
use vortex_os.Mm.{
  Pmm, list_add, list_remove, skip_from, skip_to, clear_free, buddy_of, split, hand_out, take_block,
  alloc_from, order_for, pmm_alloc_pages, pmm_alloc_page,
}

list_add-offset : (o a : ℕ) (s : Pmm) → (list_add o a s).hhdm_offset ≡ s.hhdm_offset
unfolding list_add
list_add-offset o a s = ground arith

list_remove-offset : (o a : ℕ) (s : Pmm) → (list_remove o a s).hhdm_offset ≡ s.hhdm_offset
unfolding list_remove skip_from skip_to clear_free
list_remove-offset o a s = ground arith

split-offset :
    (order target pfn : ℕ) (s : Pmm) → (split order target pfn s).hhdm_offset ≡ s.hhdm_offset
unfolding split
split-offset zero target pfn s = refl
split-offset (suc order) target pfn s = ground (
  arith,
  split-offset order target pfn (list_add order (buddy_of pfn order) s),
  list_add-offset order (buddy_of pfn order) s,
)

take_block-offset :
    (target order pfn : ℕ) (s : Pmm) → (take_block target order pfn s).1.hhdm_offset ≡ s.hhdm_offset
unfolding take_block hand_out
take_block-offset target order pfn s =
    split-offset order target pfn (list_remove order pfn s) ∙ list_remove-offset order pfn s

alloc_from-offset :
    (rounds target order : ℕ) (s : Pmm)
    → (alloc_from rounds target order s).1.hhdm_offset ≡ s.hhdm_offset
unfolding alloc_from
alloc_from-offset zero target order s = refl
alloc_from-offset (suc rounds) target order s = elim (Option-cases (s.free_lists order)) [
  | inl e ↦ simp (e, alloc_from) (alloc_from-offset rounds target (order + 1) s)
  | inr (pfn, e) ↦ simp (e, alloc_from) (take_block-offset target order pfn s)
]

pub pmm_alloc_page-offset : (s : Pmm) → (pmm_alloc_page s).1.hhdm_offset ≡ s.hhdm_offset
unfolding pmm_alloc_page pmm_alloc_pages order_for
pmm_alloc_page-offset s = alloc_from-offset 11 0 0 s
