-- ===== src/Mm/Reserved.antt =====
-- The flag RESERVED: nothing after `pmm_init` ever clears it, and it keeps buddies from merging.
use vortex_os.Base.{
  ℕ, zero, suc, ◌+◌, ◌-◌, ◌*◌, ◌%◌, ◌^◌, ◌<◌, ◌≡◌, refl, inl, inr, Bool, true, some, ◌||◌, arith,
  ◌==◌, ltb, leb, Bool-cases, ◌∙◌, Option-cases,
}
use vortex_os.Mm.{
  Pmm, list_add, list_remove, max_order, split, hand_out, take_block, alloc_from, merge,
  stops_merge, pmm_alloc_pages, pmm_free_pages, pfn_to_phys, clear_used, buddy_of, word, page_size,
  order_for, phys_to_pfn,
}
use vortex_os.Mm.FreeLists.{list_add-Added, list_add-free_lists}
use vortex_os.Mm.Blocks.{IsHeld}
use vortex_os.Mm.Free.{released, pmm_free_pages-merge}

abbrev pub reserved : Pmm → ℕ → Bool
reserved s x = (s.frames x).flags.reserved

list_add-reserved : (o a x : ℕ) (s : Pmm) → reserved (list_add o a s) x ≡ reserved s x
unfolding list_add
list_add-reserved o a x s = ground arith

list_remove-reserved : (o a x : ℕ) (s : Pmm) → reserved (list_remove o a s) x ≡ reserved s x
unfolding list_remove
list_remove-reserved o a x s = ground arith

split-reserved : (o t a x : ℕ) (s : Pmm) → reserved (split o t a s) x ≡ reserved s x
unfolding split
split-reserved zero t a x s = refl
split-reserved (suc o) t a x s = ground (
  arith,
  split-reserved o t a x (list_add o (buddy_of a o) s),
  list_add-reserved o (buddy_of a o) x s,
)

hand_out-reserved : (t a x : ℕ) (s : Pmm) → reserved (hand_out t a s) x ≡ reserved s x
unfolding hand_out
hand_out-reserved t a x s = ground arith

alloc_from-reserved : (n t o x : ℕ) (s : Pmm) → reserved (alloc_from n t o s).1 x ≡ reserved s x
unfolding alloc_from take_block
alloc_from-reserved zero t o x s = refl
alloc_from-reserved (suc n) t o x s = elim (Option-cases (s.free_lists o)) [
  | inl e ↦ rw (e, alloc_from) (alloc_from-reserved n t (o + 1) x s)
  | inr (a, e) ↦
      rw (e, alloc_from)
        (hand_out-reserved t a x _ ∙ split-reserved o t a x _ ∙ list_remove-reserved o a x s)
]

pmm_alloc_pages-reserved :
    (count x : ℕ) (s : Pmm) → reserved (pmm_alloc_pages count s).1 x ≡ reserved s x
unfolding pmm_alloc_pages
pmm_alloc_pages-reserved count x s = elim (Bool-cases (count == 0)) [
  | inl z ↦ rw z
  | inr nz ↦ elim (Bool-cases (ltb max_order (order_for 64 0 count))) [
    | inl big ↦ rw (nz, big)
    | inr fits ↦ rw (nz, fits) (alloc_from-reserved _ _ _ x s)
  ]
]

merge-reserved : (n o a x : ℕ) (s : Pmm) → reserved (merge n o a s) x ≡ reserved s x
unfolding merge
merge-reserved zero o a x s = list_add-reserved o a x s
merge-reserved (suc n) o a x s =
    let b = buddy_of a o in
    elim (Bool-cases (leb s.total_pages b || stops_merge (s.frames b) o)) [
      | inl stop ↦ rw stop (list_add-reserved o a x s)
      | inr go ↦ rw go (merge-reserved n (o + 1) _ x _ ∙ list_remove-reserved o b x s)
    ]

clear_used-reserved :
    (a n x : ℕ) (s : Pmm) → reserved (clear_used a (record s { free_pages = n })) x ≡ reserved s x
unfolding clear_used
clear_used-reserved a n x s = ground arith

released-reserved : (a o x : ℕ) (s : Pmm) → reserved (released a o s) x ≡ reserved s x
unfolding released
released-reserved a o x s = clear_used-reserved a ((s.free_pages + 2 ^ o) % word) x s

stops_at_reserved : (s : Pmm) (b o : ℕ) → reserved s b ≡ true → stops_merge (s.frames b) o ≡ true
unfolding stops_merge
stops_at_reserved s b o r = ground arith

merge-once :
    (n m o a : ℕ) (s : Pmm)
    → m ≡ suc n
    → (leb s.total_pages (buddy_of a o) || stops_merge (s.frames (buddy_of a o)) o) ≡ true
    → merge m o a s ≡ list_add o a s
unfolding merge
merge-once n m o a s e stop = rw (e, merge, stop)

pmm_free_pages-reserved :
    (phys count x : ℕ) (s : Pmm) → reserved (pmm_free_pages phys count s) x ≡ reserved s x
unfolding pmm_free_pages
pmm_free_pages-reserved phys count x s = elim (Bool-cases (phys == 0)) [
  | inl z ↦ rw z
  | inr nz ↦ rw nz (
      merge-reserved _ _ _ x _
      ∙ clear_used-reserved (phys_to_pfn phys)
          ((s.free_pages + 2 ^ (s.frames (phys_to_pfn phys)).order) % word) x s)
]

-- No allocation and no free changes the flag RESERVED of any frame, in use, split off, merged or
-- left alone.
pub pmm-reserved :
    (count phys x : ℕ) (s : Pmm)
    → (reserved (pmm_alloc_pages count s).1 x ≡ reserved s x)
      × (reserved (pmm_free_pages phys count s) x ≡ reserved s x)
pmm-reserved count phys x s =
    (pmm_alloc_pages-reserved count x s, pmm_free_pages-reserved phys count x s)

-- A held block below the top order whose buddy's first frame is RESERVED goes back as it is, at its
-- own order, even where the buddy is free and of that order.
pub pmm_free_pages-stuck :
    (a o count : ℕ) (s : Pmm)
    → 0 < a
    → a * page_size < word
    → o < max_order
    → IsHeld s a o
    → reserved s (buddy_of a o) ≡ true
    → let s' = pmm_free_pages (pfn_to_phys a) count s in
      ((s'.frames a).flags.free ≡ true) × ((s'.frames a).order ≡ o) × (s'.free_lists o ≡ some a)
pmm_free_pages-stuck a o count s pos small top k r =
    let s1 = released a o s in
    let stop : (leb s1.total_pages (buddy_of a o) || stops_merge (s1.frames (buddy_of a o)) o)
        ≡ true =
      ground
        (arith, stops_at_reserved s1 (buddy_of a o) o, released-reserved a o (buddy_of a o) s) in
    let once : merge (max_order - o) o a s1 ≡ list_add o a s1 =
      merge-once (max_order - suc o) (max_order - o) o a s1 (omega arith) stop in
    rw (pmm_free_pages-merge a o count s pos small k.order, once)
      (
        ground (arith, list_add-Added o a a s1),
        ground (arith, list_add-Added o a a s1),
        ground (arith, list_add-free_lists o a o s1),
      )
