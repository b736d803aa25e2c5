-- ===== src/Mm/Alloc.antt =====
-- `pmm_alloc_pages`: the order that is chosen, the block that is handed out, and what stays.
use vortex_os.Base.{
  ℕ, zero, suc, ◌+◌, ◌-◌, ◌%◌, ◌^◌, ◌≤◌, ◌<◌, ◌≡◌, refl, ◌⊎◌, inl, inr, true, false, none, [],
  arith, ◌==◌, if◌then◌else◌, ltb, has, erase, update, ltb→lt, ltb→ge, subst, Bool-cases,
  Option-cases, ==→eq, ==-self,
}
use vortex_os.Mm.{
  Pmm, list_remove, max_order, split, order_for, take_block, alloc_from, pmm_alloc_pages,
  pfn_to_phys, hand_out, word,
}
use vortex_os.Mm.FreeLists.{Lists}
use vortex_os.Mm.Chain.{Chain, Chain-none, Chain-has_head}
use vortex_os.Mm.Blocks.{
  IsFree, IsBlock-unlisted, IsHeld, Apart, all_pages, pow_pos, pow_mono, IsWf, pages-remove,
  list_remove-IsFree, list_remove-IsHeld, list_remove-taken, Same, Same-IsFree, Same-IsBlock,
}
use vortex_os.Mm.Split.{list_remove-free_pages, split-IsSplit}

-- The smallest order whose blocks hold `count` pages.
pub record IsOrder (count lo r : ℕ) : Type 0 where
  pub above : lo ≤ r
  pub enough : count ≤ 2 ^ r
  pub least : (k : ℕ) → lo ≤ k → k < r → 2 ^ k < count

order_for-from :
    (fuel lo count : ℕ) → count ≤ 2 ^ (lo + fuel) → IsOrder count lo (order_for fuel lo count)
unfolding order_for
order_for-from zero lo count h = record {
  above = omega arith;
  enough = subst (λ (k : ℕ). count ≤ 2 ^ k) (omega arith) h;
  least = λ k p q. absurd (omega arith);
}
order_for-from (suc fuel) lo count h = elim (Bool-cases (ltb (2 ^ lo) count)) [
  | inl e ↦
      let r =
        order_for-from fuel (lo + 1) count (subst (λ (k : ℕ). count ≤ 2 ^ k) (omega arith) h) in
      rw e (record {
        above = omega (arith, r.above);
        enough = r.enough;
        least = λ k p q. ground (arith, r.least k, ltb→lt (2 ^ lo) count e);
      })
  | inr e ↦ rw e (record {
    above = omega arith;
    enough = omega (arith, ltb→ge _ _ e);
    least = λ k p q. absurd (omega arith);
  })
]

-- Any order that is large enough is not below the one that is chosen.
order_for-le : (count k : ℕ) → count < word → count ≤ 2 ^ k → order_for 64 0 count ≤ k
order_for-le count k h e = elim (Bool-cases (ltb k (order_for 64 0 count))) [
  | inl lt ↦ absurd (
      omega
        (arith, (order_for-from 64 0 count (omega arith)).least k (omega arith) (ltb→lt k _ lt)))
  | inr ge ↦ ltb→ge k _ ge
]

-- The state `s'` after a block was handed out of `s`: it was free, and no block in use meets it.
pub record IsAllocated (s : Pmm) (ls : Lists) (target a : ℕ) (s' : Pmm) (ls' : Lists) : Type 0 where
  pub free : IsFree s' ls'
  pub taken : IsHeld s' a target
  pub used : (s'.frames a).flags.used ≡ true
  pub count : all_pages ls' + 2 ^ target ≡ all_pages ls
  pub free_pages : s'.free_pages ≡ (s.free_pages + word - 2 ^ target) % word
  pub held : (c p : ℕ) → IsHeld s c p → IsHeld s' c p × Apart c p a target

hand_out-Same :
    (target a : ℕ) (s : Pmm) → (s.frames a).flags.free ≡ false → Same s (hand_out target a s)
unfolding hand_out
hand_out-Same target a s h = record {
  next = λ x. ground arith;
  prev = λ x. ground arith;
  free = λ x. ground arith;
  order = λ x f. ground arith;
  lists = λ o. refl;
}

hand_out-order :
    (target a c : ℕ) (s : Pmm)
    → ((hand_out target a s).frames c).order ≡ (if a == c then target else (s.frames c).order)
unfolding hand_out
hand_out-order target a c s = ground arith

hand_out-used : (target a : ℕ) (s : Pmm) → ((hand_out target a s).frames a).flags.used ≡ true
unfolding hand_out
hand_out-used target a s = ground arith

hand_out-free_pages :
    (target a : ℕ) (s : Pmm)
    → (hand_out target a s).free_pages ≡ (s.free_pages + word - 2 ^ target) % word
unfolding hand_out
hand_out-free_pages target a s = ground arith

pub take_block-IsAllocated :
    (target order a : ℕ) (s : Pmm) (ls : Lists)
    → target ≤ order
    → IsFree s ls
    → has a (ls order) ≡ true
    → (ls' : Lists) × IsAllocated s ls target a (take_block target order a s).1 ls'
unfolding take_block
take_block-IsAllocated target order a s ls h v i =
    let s1 = list_remove order a s in
    let ls1 : Lists = update ls order (erase a (ls order)) in
    let v1 = list_remove-IsFree s ls v a order i in
    let b1 = list_remove-taken s ls v a order i in
    let (ls2, r) = split-IsSplit order target a s1 ls1 h v1 b1 in
    let s2 = split order target a s1 in
    let same = hand_out-Same target a s2 (IsBlock-unlisted s2 a target r.block) in
    let listed = v.linked.listed order a i in
    (
      ls2,
      record {
        free = Same-IsFree s2 _ same ls2 r.free;
        taken = record {
          block = Same-IsBlock s2 _ same a target r.block;
          order = ground (arith, hand_out-order target a a s2);
        };
        used = hand_out-used target a s2;
        count = omega (arith, r.count, pages-remove order a ls b1.small i);
        free_pages =
            rw (hand_out-free_pages target a s2, r.free_pages, list_remove-free_pages order a s);
        held = λ c p k.
            let w : Apart c p a order = subst (Apart c p a) listed.1 (k.block.outside a listed.0) in
            let k2 = r.held c p (list_remove-IsHeld s ls v a order i c p k) w in
            (
              record {
                block = Same-IsBlock s2 _ same c p k2.block;
                order =
                    ground
                      (arith, hand_out-order target a c s2, k2.order, pow_pos p, pow_pos order);
              },
              omega (arith, w, pow_mono target order h),
            );
      },
    )

-- The search ends with the first block that it finds, or with no list that holds one.
abbrev Searched : ℕ → ℕ → ℕ → Pmm → Lists → Type 0
Searched rounds target order s ls =
    ((alloc_from rounds target order s ≡ (0, s))
      × ((k : ℕ) → order ≤ k → k < order + rounds → ls k ≡ []))
    ⊎ ((a : ℕ) × (ls' : Lists) × ((alloc_from rounds target order s).0 ≡ pfn_to_phys a)
        × IsAllocated s ls target a (alloc_from rounds target order s).1 ls')

alloc_from-cases :
    (rounds target order : ℕ) (s : Pmm) (ls : Lists)
    → target ≤ order
    → IsFree s ls
    → Searched rounds target order s ls
unfolding alloc_from take_block
alloc_from-cases zero target order s ls h v = inl (refl, λ k p q. absurd (omega arith))
alloc_from-cases (suc rounds) target order s ls h v = elim (Option-cases (s.free_lists order)) [
  | inr (a, e) ↦
      let (ls', r) =
        take_block-IsAllocated target order a s ls h v (
          Chain-has_head s.frames _ none (ls order) a (v.linked.chains order) (rw e (==-self a))) in
      inr (a, ls', rw (e, alloc_from, take_block), rw (e, alloc_from) r)
  | inl e ↦
      let empty : ls order ≡ [] =
        Chain-none s.frames none (ls order)
          (subst (λ q. Chain s.frames q none (ls order)) e (v.linked.chains order)) in
      rw (e, alloc_from)
        (elim (alloc_from-cases rounds target (order + 1) s ls (omega arith) v) [
          | inl (same, none_left) ↦ inl (
            same,
            λ k p q. elim (Bool-cases (order == k)) [
              | inl hit ↦ rw (← ==→eq order k hit) empty
              | inr miss ↦ none_left k (ground arith) (omega arith)
            ],
          )
          | inr found ↦ inr found
        ])
]

-- The counter follows the lists.
IsAllocated-IsWf :
    (s : Pmm) (ls : Lists) (target a : ℕ) (s' : Pmm) (ls' : Lists)
    → IsWf s ls
    → IsAllocated s ls target a s' ls'
    → IsWf s' ls'
IsAllocated-IsWf s ls target a s' ls' v r = record {
  free = r.free;
  counted =
      omega
        (arith, r.free_pages, v.counted, r.count, pow_mono target max_order r.taken.block.small);
}

-- What a caller of `pmm_alloc_pages` sees: nothing changed, or a block of the right order.
pub record IsHandedOut (count : ℕ) (s : Pmm) (ls : Lists) (a target : ℕ) (ls' : Lists)
    : Type 0 where
  pub phys : (pmm_alloc_pages count s).0 ≡ pfn_to_phys a
  pub order : IsOrder count 0 target
  pub wf : IsWf (pmm_alloc_pages count s).1 ls'
  pub allocated : IsAllocated s ls target a (pmm_alloc_pages count s).1 ls'

abbrev pub NoBlock : ℕ → Lists → Type 0
NoBlock count ls =
    (count ≡ 0) ⊎ (2 ^ max_order < count) ⊎ ((k : ℕ) → count ≤ 2 ^ k → k ≤ max_order → ls k ≡ [])

-- `pmm_alloc_pages`, for a count up to 2 ^ 63 (above which its shift is undefined) and on
-- well-formed free lists, either returns 0 and changes nothing, and then the
-- count is 0, or over 2 ^ 10, or no order that is large enough has a free block; or it returns the
-- address of a block of the smallest order that holds `count` pages. That block was free memory:
-- it is now held and marked used, meets no free block and no block held before, all of which stay
-- held, and the free page count goes down by its size.
pub pmm_alloc_pages-cases :
    (count : ℕ) (s : Pmm) (ls : Lists)
    → count ≤ 2 ^ 63
    → IsWf s ls
    → ((pmm_alloc_pages count s ≡ (0, s)) × NoBlock count ls)
      ⊎ ((a target : ℕ) × (ls' : Lists) × IsHandedOut count s ls a target ls')
unfolding pmm_alloc_pages
pmm_alloc_pages-cases count s ls h v =
    let r = order_for-from 64 0 count (omega arith) in
    elim (Bool-cases (count == 0)) [
      | inl z ↦ inl (rw z, inl (==→eq count 0 z))
      | inr nz ↦ elim (Bool-cases (ltb max_order (order_for 64 0 count))) [
        | inl big ↦ inl (rw (nz, big), inr (inl (r.least max_order (omega arith) (ltb→lt _ _ big))))
        | inr fits ↦
            let small = ltb→ge max_order _ fits in
            rw (nz, fits)
              (elim (alloc_from-cases (max_order + 1 - order_for 64 0 count) (order_for 64 0 count)
                (order_for 64 0 count) s ls (omega arith) v.free) [
                  | inl (same, empty) ↦ inl (
                    same,
                    inr (
                        inr
                          (λ k p q. empty k (order_for-le count k (omega arith) p) (omega arith))),
                  )
                  | inr (a, ls', phys, got) ↦ inr (
                    a,
                    order_for 64 0 count,
                    ls',
                    record {
                      phys = rw (nz, fits) phys;
                      order = r;
                      wf =
                          rw (nz, fits)
                            (IsAllocated-IsWf s ls (order_for 64 0 count) a _ ls' v got);
                      allocated = rw (nz, fits) got;
                    },
                  )
                ])
      ]
    ]
