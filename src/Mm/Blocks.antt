-- ===== src/Mm/Blocks.antt =====
-- The free blocks of mm.cpp: aligned, pairwise apart, and apart from the blocks in use.
use native.Mathlib.Nat.{pow-suc}
use vortex_os.Base.{
  ℕ, zero, suc, ◌+◌, ◌*◌, ◌%◌, ◌^◌, ◌≤◌, ◌<◌, ◌≡◌, ◌∙◌, sym, subst, refl, ◌⊎◌, inl, inr, true,
  false, none, List, ◌∷◌, arith, ap, ◌==◌, has, erase, length, length-erase, Bool-cases, update,
  ==→eq,
}
use vortex_os.Mm.{Pmm, list_add, list_remove, max_order, word}
use vortex_os.Mm.Chain.{Chain-same}
use vortex_os.Mm.FreeLists.{Lists, IsLinked, list_add-IsLinked, list_remove-IsLinked}
use vortex_os.Mm.FreeLists.{list_add-Added, remove-at}

pub pow_pos : (k : ℕ) → 0 < 2 ^ k
pow_pos zero = omega arith
pow_pos (suc k) = rw (pow-suc 2 k) (omega (arith, pow_pos k))

pub pow_mono : (a b : ℕ) → a ≤ b → 2 ^ a ≤ 2 ^ b
pow_mono zero b h = pow_pos b
pow_mono (suc a) zero h = absurd (omega arith)
pow_mono (suc a) (suc b) h =
    rw (pow-suc 2 a, pow-suc 2 b) (omega (arith, pow_mono a b (omega arith)))

-- A block of 2 ^ o frames starts at a multiple of its size.
abbrev pub Aligned : ℕ → ℕ → Type 0
Aligned a o = (m : ℕ) × (a ≡ m * 2 ^ o)

-- Two blocks share no frame.
abbrev pub Apart : (a o b p : ℕ) → Type 0
Apart a o b p = (a + 2 ^ o ≤ b) ⊎ (b + 2 ^ p ≤ a)

abbrev pub IsFreeFrame : Pmm → ℕ → Type 0
IsFreeFrame s x = (s.frames x).flags.free ≡ true

pub record IsFree (s : Pmm) (ls : Lists) : Type 0 where
  pub linked : IsLinked s ls
  pub small : (x : ℕ) → IsFreeFrame s x → (s.frames x).order ≤ max_order
  pub aligned : (x : ℕ) → IsFreeFrame s x → Aligned x (s.frames x).order
  pub apart :
      (x y : ℕ)
      → IsFreeFrame s x
      → IsFreeFrame s y
      → (x == y) ≡ false
      → Apart x (s.frames x).order y (s.frames y).order

-- A block in use, or in the hands of the allocator: no free block meets it.
pub record IsBlock (s : Pmm) (a o : ℕ) : Type 0 where
  pub small : o ≤ max_order
  pub aligned : Aligned a o
  pub outside : (y : ℕ) → IsFreeFrame s y → Apart a o y (s.frames y).order

-- A block whose first frame records its order, as `pmm_free_pages` reads it.
pub record IsHeld (s : Pmm) (a o : ℕ) : Type 0 where
  pub block : IsBlock s a o
  pub order : (s.frames a).order ≡ o

pub IsBlock-unlisted : (s : Pmm) (a o : ℕ) → IsBlock s a o → (s.frames a).flags.free ≡ false
IsBlock-unlisted s a o b = elim (Bool-cases (s.frames a).flags.free) [
  | inr e ↦ e
  | inl e ↦ absurd (omega (arith, b.outside a e, pow_pos o, pow_pos (s.frames a).order))
]

-- The pages in the lists of the orders below `n`.
unfoldable pub pages : ℕ → Lists → ℕ
pages zero ls = 0
pages (suc n) ls = pages n ls + length (ls n) * 2 ^ n

abbrev pub all_pages : Lists → ℕ
all_pages ls = pages (suc max_order) ls

pages_above : (n o : ℕ) (ls : Lists) (l : List ℕ) → n ≤ o → pages n (update ls o l) ≡ pages n ls
unfolding pages
pages_above zero o ls l h = refl
pages_above (suc n) o ls l h = ground (arith, pages_above n o ls l)

pages-update :
    (n o : ℕ) (ls : Lists) (l : List ℕ)
    → o < n
    → pages n (update ls o l) + length (ls o) * 2 ^ o ≡ pages n ls + length l * 2 ^ o
unfolding pages
pages-update zero o ls l h = absurd (omega arith)
pages-update (suc n) o ls l h = elim (Bool-cases (o == n)) [
  | inl e ↦ rw (e, ==→eq o n e) (omega (arith, pages_above n n ls l (omega arith)))
  | inr e ↦ rw e (ground (arith, pages-update n o ls l))
]

pub pages-add :
    (o a : ℕ) (ls : Lists)
    → o ≤ max_order
    → all_pages (update ls o (a ∷ ls o)) ≡ all_pages ls + 2 ^ o
pages-add o a ls h = omega (arith, pages-update (suc max_order) o ls (a ∷ ls o) (omega arith))

pub pages-remove :
    (o a : ℕ) (ls : Lists)
    → o ≤ max_order
    → has a (ls o) ≡ true
    → all_pages (update ls o (erase a (ls o))) + 2 ^ o ≡ all_pages ls
pages-remove o a ls h i =
    let n = length-erase a (ls o) i in
    omega (
      arith,
      pages-update (suc max_order) o ls (erase a (ls o)) (omega arith),
      ap (λ (k : ℕ). k * 2 ^ o) n,
    )

-- `list_add` of a block in hand, and `list_remove` of a free one.
module _ (s : Pmm) (ls : Lists) (v : IsFree s ls) (a o : ℕ) where
  pub list_add-IsFree : IsBlock s a o → IsFree (list_add o a s) (update ls o (a ∷ ls o))
  list_add-IsFree b = record {
    linked = list_add-IsLinked s ls v.linked o a (IsBlock-unlisted s a o b);
    small = λ x f. ground (arith, list_add-Added o a x s, v.small x, b.small);
    aligned = λ x f. elim (Bool-cases (a == x)) [
      | inl e ↦
          let here : ((list_add o a s).frames x).order ≡ o =
            ground (arith, list_add-Added o a x s) in
          rw (here, ← ==→eq a x e) b.aligned
      | inr e ↦
          let there : ((list_add o a s).frames x).order ≡ (s.frames x).order =
            ground (arith, list_add-Added o a x s) in
          rw there (v.aligned x (ground (arith, list_add-Added o a x s)))
    ];
    apart = λ x y f g n. ground (
      arith,
      list_add-Added o a x s,
      list_add-Added o a y s,
      v.apart x y,
      b.outside x,
      b.outside y,
      ==→eq a x,
      ==→eq a y,
    );
  }

  pub list_add-IsBlock : (c p : ℕ) → IsBlock s c p → Apart c p a o → IsBlock (list_add o a s) c p
  list_add-IsBlock c p b apart = record {
    small = b.small;
    aligned = b.aligned;
    outside = λ y f. ground (arith, list_add-Added o a y s, b.outside y, ==→eq a y);
  }

  pub list_add-IsHeld : (c p : ℕ) → IsHeld s c p → Apart c p a o → IsHeld (list_add o a s) c p
  list_add-IsHeld c p b apart = record {
    block = list_add-IsBlock c p b.block apart;
    order = ground (arith, list_add-Added o a c s, pow_pos p, pow_pos o, b.order, ==→eq a c);
  }

  module _ (old : has a (ls o) ≡ true) where
    pub list_remove-IsFree : IsFree (list_remove o a s) (update ls o (erase a (ls o)))
    list_remove-IsFree = record {
      linked = list_remove-IsLinked s ls v.linked o a old;
      small = λ x f. ground (arith, remove-at s ls v.linked o a old x, v.small x);
      aligned = λ x f.
          rw ((remove-at s ls v.linked o a old x).order)
            (v.aligned x (ground (arith, remove-at s ls v.linked o a old x)));
      apart = λ x y f g n. ground (
        arith,
        remove-at s ls v.linked o a old x,
        remove-at s ls v.linked o a old y,
        v.apart x y,
      );
    }

    pub list_remove-IsBlock : (c p : ℕ) → IsBlock s c p → IsBlock (list_remove o a s) c p
    list_remove-IsBlock c p b = record {
      small = b.small;
      aligned = b.aligned;
      outside = λ y f. ground (arith, remove-at s ls v.linked o a old y, b.outside y);
    }

    pub list_remove-IsHeld : (c p : ℕ) → IsHeld s c p → IsHeld (list_remove o a s) c p
    list_remove-IsHeld c p b = record {
      block = list_remove-IsBlock c p b.block;
      order = (remove-at s ls v.linked o a old c).order ∙ b.order;
    }

    -- The block that is taken off its list is then in hand.
    pub list_remove-taken : IsBlock (list_remove o a s) a o
    list_remove-taken =
        let listed = v.linked.listed o a old in
        record {
          small = ground (arith, v.small a);
          aligned = subst (Aligned a) listed.1 (v.aligned a listed.0);
          outside = λ y f. ground (arith, remove-at s ls v.linked o a old y, v.apart a y);
        }

-- A state that differs only in what no free list and no free block shows.
pub record Same (s s' : Pmm) : Type 0 where
  pub next : (x : ℕ) → (s'.frames x).next ≡ (s.frames x).next
  pub prev : (x : ℕ) → (s'.frames x).prev ≡ (s.frames x).prev
  pub free : (x : ℕ) → (s'.frames x).flags.free ≡ (s.frames x).flags.free
  pub order : (x : ℕ) → IsFreeFrame s x → (s'.frames x).order ≡ (s.frames x).order
  pub lists : (o : ℕ) → s'.free_lists o ≡ s.free_lists o

module _ (s s' : Pmm) (e : Same s s') where
  pub Same-IsFree : (ls : Lists) → IsFree s ls → IsFree s' ls
  Same-IsFree ls v = record {
    linked = record {
      chains = λ o. rw (e.lists o) (
          Chain-same s.frames s'.frames (s.free_lists o) none (ls o) (v.linked.chains o)
            (λ x _. (e.next x, e.prev x)));
      distinct = v.linked.distinct;
      listed = λ o x h. ground (arith, v.linked.listed o x, e.free x, e.order x);
      complete = λ x f. ground (arith, v.linked.complete x, e.free x, e.order x);
    };
    small = λ x f. ground (arith, e.free x, e.order x, v.small x);
    aligned = λ x f. rw (e.order x (sym (e.free x) ∙ f)) (v.aligned x (sym (e.free x) ∙ f));
    apart = λ x y f g n. ground (arith, e.free x, e.order x, e.free y, e.order y, v.apart x y);
  }

  pub Same-IsBlock : (a o : ℕ) → IsBlock s a o → IsBlock s' a o
  Same-IsBlock a o b = record {
    small = b.small;
    aligned = b.aligned;
    outside = λ y f. ground (arith, e.free y, e.order y, b.outside y);
  }

-- The whole invariant: the free lists, and the counter over them.
pub record IsWf (s : Pmm) (ls : Lists) : Type 0 where
  pub free : IsFree s ls
  pub counted : s.free_pages ≡ all_pages ls % word
