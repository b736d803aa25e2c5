-- ===== src/Mm/Init/Region.antt =====
-- The loop of `pmm_init` over one usable region.
use native.Mathlib.Nat.{div-add-mod'}
use vortex_os.Base.{
  ℕ, zero, suc, ◌+◌, ◌-◌, ◌*◌, ◌/◌, ◌%◌, ◌^◌, ◌≤◌, ◌<◌, ◌≡◌, refl, ◌⊎◌, inl, inr, true, false, ◌&&◌,
  ◌∷◌, arith, ◌==◌, ltb, leb, update, Bool-cases, ==→eq, ==→ne, ltb→lt, ltb→ge,
}
use vortex_os.Mm.{Pmm, list_add, max_order}
use vortex_os.Mm.Init.{largest_order, clear_flags, free_block, free_region}
use vortex_os.Mm.FreeLists.{Lists, list_add-Added}
use vortex_os.Mm.Blocks.{
  IsFreeFrame, IsBlock, IsBlock-unlisted, IsWf, Aligned, pow_pos, pages-add, list_add-IsFree, Same,
  Same-IsFree, Same-IsBlock,
}
use vortex_os.Mm.Split.{list_add-free_pages}

div_of_mod : (n m : ℕ) → n % m ≡ 0 → n ≡ n / m * m
div_of_mod n m h = omega (arith, div-add-mod' n m)

-- A block that may be freed at `pfn`: aligned, inside the region, and not over the metadata.
pub record Fits (pfn end_pfn meta_start o : ℕ) : Type 0 where
  pub small : o ≤ max_order
  pub aligned : Aligned pfn o
  pub inside : pfn + 2 ^ o ≤ end_pfn
  pub clear : pfn < meta_start → pfn + 2 ^ o ≤ meta_start

pub largest_order-Fits :
    (rounds o pfn end_pfn meta_start : ℕ)
    → o + rounds ≤ max_order
    → Fits pfn end_pfn meta_start o
    → Fits pfn end_pfn meta_start (largest_order rounds o pfn end_pfn meta_start)
unfolding largest_order
largest_order-Fits zero o pfn end_pfn meta_start h f = f
largest_order-Fits (suc rounds) o pfn end_pfn meta_start h f =
    elim (Bool-cases ((pfn % 2 ^ (o + 1) == 0) && leb (pfn + 2 ^ (o + 1)) end_pfn)) [
      | inr stop ↦ rw stop f
      | inl go ↦ elim (Bool-cases (ltb pfn meta_start && ltb meta_start (pfn + 2 ^ (o + 1)))) [
        | inl over ↦ rw (go, over) f
        | inr under ↦
            rw (go, under)
              (largest_order-Fits rounds (o + 1) pfn end_pfn meta_start (omega arith) (record {
                small = omega arith;
                aligned = (pfn / 2 ^ (o + 1), div_of_mod pfn (2 ^ (o + 1)) (ground arith));
                inside = ground arith;
                clear = λ lt. ground arith;
              }))
      ]
    ]

-- No free block meets the frames from `lo` to `hi`.
abbrev pub Unfree : Pmm → ℕ → ℕ → Type 0
Unfree s lo hi = (y : ℕ) → IsFreeFrame s y → (y + 2 ^ (s.frames y).order ≤ lo) ⊎ (hi ≤ y)

-- What one block adds to a well-formed state.
pub record IsPlaced (s : Pmm) (ls : Lists) (o a : ℕ) (s' : Pmm) : Type 0 where
  pub wf : IsWf s' (update ls o (a ∷ ls o))
  pub here : ((s'.frames a).flags.free ≡ true) × ((s'.frames a).order ≡ o)
  pub other :
      (y : ℕ)
      → (a == y) ≡ false
      → ((s'.frames y).flags.free ≡ (s.frames y).flags.free)
        × ((s'.frames y).order ≡ (s.frames y).order)

clear_flags-Same : (a : ℕ) (s : Pmm) → (s.frames a).flags.free ≡ false → Same s (clear_flags a s)
unfolding clear_flags
clear_flags-Same a s h = record {
  next = λ x. ground arith;
  prev = λ x. ground arith;
  free = λ x. ground arith;
  order = λ x f. ground arith;
  lists = λ o. refl;
}

free_block-frames :
    (o a : ℕ) (s : Pmm) → (free_block o a s).frames ≡ (list_add o a (clear_flags a s)).frames
unfolding free_block
free_block-frames o a s = refl

clear_flags-other : (a y : ℕ) (s : Pmm) → (a == y) ≡ false → (clear_flags a s).frames y ≡ s.frames y
unfolding clear_flags
clear_flags-other a y s h = rw h

recount-Same : (n : ℕ) (s : Pmm) → Same s (record s { free_pages = n })
recount-Same n s = record {
  next = λ x. refl;
  prev = λ x. refl;
  free = λ x. refl;
  order = λ x f. refl;
  lists = λ o. refl;
}

clear_flags-free_pages : (a : ℕ) (s : Pmm) → (clear_flags a s).free_pages ≡ s.free_pages
unfolding clear_flags
clear_flags-free_pages a s = refl

pub free_block-IsPlaced :
    (o a : ℕ) (s : Pmm) (ls : Lists)
    → IsWf s ls
    → IsBlock s a o
    → IsPlaced s ls o a (free_block o a s)
unfolding free_block
free_block-IsPlaced o a s ls v b =
    let s1 = clear_flags a s in
    let same = clear_flags-Same a s (IsBlock-unlisted s a o b) in
    let v1 =
      list_add-IsFree s1 ls (Same-IsFree s s1 same ls v.free) a o (Same-IsBlock s s1 same a o b) in
    record {
      wf = record {
        free = Same-IsFree (list_add o a s1) _ (recount-Same _ (list_add o a s1)) _ v1;
        counted = omega (
          arith,
          list_add-free_pages o a s1,
          clear_flags-free_pages a s,
          v.counted,
          pages-add o a ls b.small,
        );
      };
      here = ground (arith, list_add-Added o a a s1);
      other = λ y n. ground (arith, list_add-Added o a y s1, clear_flags-other a y s n);
    }

-- The pages from `lo` to `hi` that are not metadata lie in free blocks.
abbrev pub Covered : Pmm → (lo hi meta_start meta_end : ℕ) → Type 0
Covered s lo hi meta_start meta_end =
    (x : ℕ)
    → lo ≤ x
    → x < hi
    → (x < meta_start) ⊎ (meta_end ≤ x)
    → (y : ℕ) × IsFreeFrame s y × (y ≤ x) × (x < y + 2 ^ (s.frames y).order)

-- What the loop over the region from `lo` to `hi` does.
pub record IsRegion (s : Pmm) (lo hi meta_start meta_end : ℕ) (s' : Pmm) (ls' : Lists)
    : Type 0 where
  pub wf : IsWf s' ls'
  pub kept :
      (y : ℕ) → IsFreeFrame s y → IsFreeFrame s' y × ((s'.frames y).order ≡ (s.frames y).order)
  pub new :
      (y : ℕ)
      → IsFreeFrame s' y
      → (IsFreeFrame s y)
        ⊎ ((lo ≤ y)
            × (y + 2 ^ (s'.frames y).order ≤ hi)
            × ((y + 2 ^ (s'.frames y).order ≤ meta_start) ⊎ (meta_end ≤ y)))
  pub covers : Covered s' lo hi meta_start meta_end

IsRegion-done :
    (s : Pmm) (ls : Lists) (lo hi meta_start meta_end : ℕ)
    → IsWf s ls
    → hi ≤ lo
    → IsRegion s lo hi meta_start meta_end s ls
IsRegion-done s ls lo hi meta_start meta_end v h = record {
  wf = v;
  kept = λ y f. (f, refl);
  new = λ y f. inl f;
  covers = λ x p q _. absurd (omega arith);
}

-- The jump over the metadata.
IsRegion-jump :
    (s s' : Pmm) (ls' : Lists) (lo hi meta_start meta_end : ℕ)
    → meta_start ≤ lo
    → lo < meta_end
    → IsRegion s meta_end hi meta_start meta_end s' ls'
    → IsRegion s lo hi meta_start meta_end s' ls'
IsRegion-jump s s' ls' lo hi meta_start meta_end p q r = record {
  wf = r.wf;
  kept = r.kept;
  new = λ y f. ground (arith, r.new y f);
  covers = λ x a b c. r.covers x (omega arith) b c;
}

-- One block, and what the rest of the loop does behind it.
IsRegion-step :
    (s s1 s' : Pmm) (ls ls' : Lists) (lo hi meta_start meta_end o : ℕ)
    → (s.frames lo).flags.free ≡ false
    → (lo < meta_start) ⊎ (meta_end ≤ lo)
    → Fits lo hi meta_start o
    → IsPlaced s ls o lo s1
    → IsRegion s1 (lo + 2 ^ o) hi meta_start meta_end s' ls'
    → IsRegion s lo hi meta_start meta_end s' ls'
IsRegion-step s s1 s' ls ls' lo hi meta_start meta_end o new off fit p r = record {
  wf = r.wf;
  kept = λ y f. ground (arith, p.other y, r.kept y, ==→eq lo y, ==→ne lo y);
  new = λ y f. elim (Bool-cases (lo == y)) [
    | inl e ↦ ground (arith, r.new y f, r.kept y, ==→eq lo y e, fit.inside, fit.clear, pow_pos o)
    | inr n ↦ ground (arith, r.new y f, p.other y n)
  ];
  covers = λ x a b c. elim (Bool-cases (ltb x (lo + 2 ^ o))) [
    | inl here ↦ (lo, ground (arith, r.kept lo), a, ground (arith, r.kept lo))
    | inr past ↦ r.covers x (ltb→ge x _ past) b c
  ];
}

-- The rest of the region stays clear of free blocks.
placed-Unfree :
    (s s1 : Pmm) (ls : Lists) (lo hi o : ℕ)
    → Unfree s lo hi
    → IsPlaced s ls o lo s1
    → Unfree s1 (lo + 2 ^ o) hi
placed-Unfree s s1 ls lo hi o u p y f = elim (Bool-cases (lo == y)) [
  | inl e ↦ inl (ground (arith, p.here, ==→eq lo y e))
  | inr n ↦ ground (arith, p.other y n, u y)
]

pub free_region-IsRegion :
    (fuel pfn end_pfn meta_start meta_end : ℕ) (s : Pmm) (ls : Lists)
    → end_pfn - pfn < fuel
    → IsWf s ls
    → Unfree s pfn end_pfn
    → (ls' : Lists) × IsRegion s pfn end_pfn meta_start meta_end
        (free_region fuel pfn end_pfn meta_start meta_end s)
        ls'
unfolding free_region
free_region-IsRegion zero pfn end_pfn meta_start meta_end s ls h v u = absurd (omega arith)
free_region-IsRegion (suc fuel) pfn end_pfn meta_start meta_end s ls h v u =
    elim (Bool-cases (ltb pfn end_pfn)) [
      | inr done ↦
          rw done (ls, IsRegion-done s ls pfn end_pfn meta_start meta_end v (ltb→ge _ _ done))
      | inl more ↦ elim (Bool-cases (leb meta_start pfn && ltb pfn meta_end)) [
        | inl over ↦
            let (ls', r) =
              free_region-IsRegion fuel meta_end end_pfn meta_start meta_end s ls (ground arith) v
                (λ y f. ground (arith, u y f)) in
            rw (more, over)
              (
                ls',
                IsRegion-jump s _ ls' pfn end_pfn meta_start meta_end (ground arith) (ground arith)
                    r,
              )
        | inr off ↦
            let fit = largest_order-Fits max_order 0 pfn end_pfn meta_start (omega arith) (record {
              small = omega arith;
              aligned = (pfn, omega arith);
              inside = ground arith;
              clear = λ lt. omega arith;
            }) in
            let o = largest_order max_order 0 pfn end_pfn meta_start in
            let b : IsBlock s pfn o = record {
              small = fit.small;
              aligned = fit.aligned;
              outside = λ y f. omega (arith, u y f, fit.inside);
            } in
            let p = free_block-IsPlaced o pfn s ls v b in
            let (ls', r) =
              free_region-IsRegion fuel (pfn + 2 ^ o) end_pfn meta_start meta_end
                (free_block o pfn s) (update ls o (pfn ∷ ls o))
                (omega (arith, pow_pos o, ltb→lt _ _ more)) p.wf
                (placed-Unfree s (free_block o pfn s) ls pfn end_pfn o u p) in
            rw (more, off)
              (
                ls',
                IsRegion-step s _ _ ls ls' pfn end_pfn meta_start meta_end o
                    (IsBlock-unlisted s pfn o b) (ground arith) fit p r,
              )
      ]
    ]
