-- ===== src/Mm/Split.antt =====
-- The allocation half of mm.cpp: splitting a block down to the order that is wanted.
use native.Mathlib.Nat.{pow-suc}
use vortex_os.Base.{
  ℕ, zero, suc, ◌+◌, ◌*◌, ◌^◌, ◌≤◌, ◌≡◌, refl, inl, inr, ◌∷◌, arith, ap, ltb, update, ltb→lt,
  ltb→ge, Bool-cases, ◌∙◌,
}
use vortex_os.Base.Bits.{bit_xor-clear}
use vortex_os.Mm.{Pmm, list_add, list_remove, buddy_of, split}
use vortex_os.Mm.FreeLists.{Lists}
use vortex_os.Mm.Blocks.{
  IsFree, IsBlock, IsHeld, Aligned, Apart, all_pages, pages-add, list_add-IsFree, list_add-IsBlock,
  list_add-IsHeld,
}

-- The upper half of a block is the buddy of its lower half.
pub buddy_of-upper :
    (a o : ℕ) → Aligned a (suc o) → (buddy_of a o ≡ a + 2 ^ o) × Aligned a o × Aligned (a + 2 ^ o) o
unfolding buddy_of
buddy_of-upper a o (m, e) =
    let even : a ≡ 2 * m * 2 ^ o = omega (arith, ap (λ (k : ℕ). m * k) (pow-suc 2 o)) in
    (rw (even, bit_xor-clear o m) (omega arith), (2 * m, even), (2 * m + 1, omega arith))

-- Both halves of a block in hand are blocks.
halves : (s : Pmm) (a o : ℕ) → IsBlock s a (suc o) → IsBlock s a o × IsBlock s (a + 2 ^ o) o
halves s a o b =
    let (_, lo, hi) = buddy_of-upper a o b.aligned in
    let two = pow-suc 2 o in
    (
      record {
        small = omega (arith, b.small);
        aligned = lo;
        outside = λ y f. ground (arith, b.outside y, two);
      },
      record {
        small = omega (arith, b.small);
        aligned = hi;
        outside = λ y f. ground (arith, b.outside y, two);
      },
    )

pub list_add-free_pages : (o a : ℕ) (s : Pmm) → (list_add o a s).free_pages ≡ s.free_pages
unfolding list_add
list_add-free_pages o a s = ground arith

pub list_remove-free_pages : (o a : ℕ) (s : Pmm) → (list_remove o a s).free_pages ≡ s.free_pages
unfolding list_remove
list_remove-free_pages o a s = ground arith

-- What splitting the block `a` of order `from` in hand down to `to` leaves.
pub record IsSplit (s : Pmm) (ls : Lists) (a from to : ℕ) (s' : Pmm) (ls' : Lists) : Type 0 where
  pub free : IsFree s' ls'
  pub block : IsBlock s' a to
  pub count : all_pages ls' + 2 ^ to ≡ all_pages ls + 2 ^ from
  pub held : (c p : ℕ) → IsHeld s c p → Apart c p a from → IsHeld s' c p
  pub free_pages : s'.free_pages ≡ s.free_pages

pub split-IsSplit :
    (from to a : ℕ) (s : Pmm) (ls : Lists)
    → to ≤ from
    → IsFree s ls
    → IsBlock s a from
    → (ls' : Lists) × IsSplit s ls a from to (split from to a s) ls'
unfolding split
split-IsSplit zero to a s ls h v b =
    let e : to ≡ 0 = omega arith in
    (ls, record { free = v; block = rw e b; count = rw e; held = λ c p k _. k; free_pages = refl })
split-IsSplit (suc o) to a s ls h v b = elim (Bool-cases (ltb to (suc o))) [
  | inr e ↦
      let same : to ≡ suc o = omega (arith, ltb→ge to (suc o) e) in
      rw e (
        ls,
        record {
          free = v;
          block = rw same b;
          count = rw same;
          held = λ c p k _. k;
          free_pages = refl;
        },
      )
  | inl e ↦
      let (at, _, _) = buddy_of-upper a o b.aligned in
      let (lower, upper) = halves s a o b in
      let two = pow-suc 2 o in
      let u : ℕ = a + 2 ^ o in
      let s1 = list_add o u s in
      let ls1 : Lists = update ls o (u ∷ ls o) in
      let v1 = list_add-IsFree s ls v u o upper in
      let b1 = list_add-IsBlock s ls v u o a o lower (inl (omega arith)) in
      let (ls', r) = split-IsSplit o to a s1 ls1 (omega (arith, ltb→lt to (suc o) e)) v1 b1 in
      rw (e, at)
        (
          ls',
          record {
            free = r.free;
            block = r.block;
            count = omega (arith, r.count, pages-add o u ls upper.small, two);
            held = λ c p k w.
                r.held c p (list_add-IsHeld s ls v u o c p k (ground (arith, two)))
                  (ground (arith, two));
            free_pages = r.free_pages ∙ list_add-free_pages o u s;
          },
        )
]
