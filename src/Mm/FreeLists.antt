-- ===== src/Mm/FreeLists.antt =====
-- `list_add` and `list_remove` of mm.cpp on the free lists seen as lists of page frame numbers.
use vortex_os.Base.{
  points_to, points_to-some, ℕ, ◌≡◌, refl, inl, inr, true, false, Option, none, some, List, ◌∷◌,
  arith, ◌==◌, if◌then◌else◌, has, erase, Distinct, Bool-cases, update, is_none, ◌&&◌, ==→eq,
  ==-self, has-erase_ne, subst, has-erase_self, erase-Distinct,
}
use vortex_os.Mm.{PageFrame, Pmm, list_add, list_remove}
use vortex_os.Mm.Chain.{
  Chain, Chain-same, Chain-head, Chain-erase, Chain-links, Chain-start, Chain-end, Chain-has_head,
  Unlinked,
}

-- The free list of each order.
abbrev pub Lists : Type 0
Lists = ℕ → List ℕ

-- The pointers hold the lists `ls`, and a frame's flag and order say whether and where it is.
pub record IsLinked (s : Pmm) (ls : Lists) : Type 0 where
  pub chains : (o : ℕ) → Chain s.frames (s.free_lists o) none (ls o)
  pub distinct : (o : ℕ) → Distinct (ls o)
  pub listed :
      (o x : ℕ) → has x (ls o) ≡ true → ((s.frames x).flags.free ≡ true) × ((s.frames x).order ≡ o)
  pub complete : (x : ℕ) → (s.frames x).flags.free ≡ true → has x (ls (s.frames x).order) ≡ true

-- What `list_add` leaves in each frame.
pub record Added (s : Pmm) (o a x : ℕ) (f : PageFrame) : Type 0 where
  pub next : f.next ≡ (if a == x then s.free_lists o else (s.frames x).next)
  pub prev : f.prev ≡ (
      if points_to (s.free_lists o) x then some a else if a == x then none else (s.frames x).prev)
  pub flags :
      f.flags ≡ (if a == x then record ((s.frames x).flags) { free = true } else (s.frames x).flags)
  pub order : f.order ≡ (if a == x then o else (s.frames x).order)

pub list_add-Added : (o a x : ℕ) (s : Pmm) → Added s o a x ((list_add o a s).frames x)
unfolding list_add
list_add-Added o a x s = ground arith

pub list_add-free_lists :
    (o a p : ℕ) (s : Pmm)
    → (list_add o a s).free_lists p ≡ (if o == p then some a else s.free_lists p)
unfolding list_add
list_add-free_lists o a p s = ground arith

module _ (s : Pmm) (ls : Lists) (v : IsLinked s ls) (o a : ℕ)
    (new : (s.frames a).flags.free ≡ false) where
  not-has-new : (p : ℕ) → has a (ls p) ≡ false
  not-has-new p = ground (arith, v.listed p a)

  head-has : (p x : ℕ) → points_to (s.free_lists p) x ≡ true → has x (ls p) ≡ true
  head-has p x h = Chain-has_head s.frames (s.free_lists p) none (ls p) x (v.chains p) h

  add-Chain_here : Chain (list_add o a s).frames (some a) none (a ∷ ls o)
  add-Chain_here =
      let here = list_add-Added o a a s in
      (
        refl,
        ground (arith, head-has o a, not-has-new o),
        rw (here.next, ==-self)
            (Chain-head s.frames (list_add o a s).frames (s.free_lists o) none (some a) (ls o)
              (v.chains o) (v.distinct o)
              (λ x h. ground (arith, list_add-Added o a x s, not-has-new o, ==→eq a x))),
      )

  add-Chain_else :
      (p : ℕ) → (o == p) ≡ false → Chain (list_add o a s).frames (s.free_lists p) none (ls p)
  add-Chain_else p h =
      Chain-same s.frames (list_add o a s).frames (s.free_lists p) none (ls p) (v.chains p) (λ x i.
        ground (
          arith,
          list_add-Added o a x s,
          not-has-new p,
          ==→eq a x,
          head-has o x,
          v.listed o x,
          v.listed p x,
        ))

  add-Chain :
      (p : ℕ)
      → Chain
          (list_add o a s).frames
          ((list_add o a s).free_lists p)
          none
          (update ls o (a ∷ ls o) p)
  add-Chain p = elim (Bool-cases (o == p)) [
    | inl hit ↦ rw (list_add-free_lists o a p s, hit) add-Chain_here
    | inr miss ↦ rw (list_add-free_lists o a p s, miss) (add-Chain_else p miss)
  ]

  -- A frame that is not free becomes the head of the list of its order.
  pub list_add-IsLinked : IsLinked (list_add o a s) (update ls o (a ∷ ls o))
  list_add-IsLinked = record {
    chains = add-Chain;
    distinct = λ p. ground (arith, v.distinct p, v.distinct o, not-has-new o);
    listed = λ p x h. ground (arith, list_add-Added o a x s, v.listed p x, v.listed o x);
    complete = λ x h. ground (arith, list_add-Added o a x s, v.complete x);
  }

-- What `list_remove` leaves in each frame, where `n` and `p` are the links of the frame `a`.
pub record Removed (s : Pmm) (n p : Option ℕ) (a x : ℕ) (f : PageFrame) : Type 0 where
  pub next : f.next ≡ (if points_to p x then n else (s.frames x).next)
  pub prev : f.prev ≡ (if points_to n x then p else (s.frames x).prev)
  pub flags :
      f.flags
      ≡ (if a == x then record ((s.frames x).flags) { free = false } else (s.frames x).flags)
  pub order : f.order ≡ (s.frames x).order

list_remove-Removed :
    (o a x : ℕ) (s : Pmm) (n p : Option ℕ)
    → (s.frames a).next ≡ n
    → (s.frames a).prev ≡ p
    → points_to n a ≡ false
    → points_to p a ≡ false
    → Removed s n p a x ((list_remove o a s).frames x)
unfolding list_remove
list_remove-Removed o a x s none none en ep hn hp = ground arith
list_remove-Removed o a x s none (some p) en ep hn hp = ground arith
list_remove-Removed o a x s (some n) none en ep hn hp = ground arith
list_remove-Removed o a x s (some n) (some p) en ep hn hp = ground arith

list_remove-free_lists :
    (o a p : ℕ) (s : Pmm)
    → (list_remove o a s).free_lists p
      ≡ (if is_none (s.frames a).prev && (o == p) then (s.frames a).next else s.free_lists p)
unfolding list_remove
list_remove-free_lists o a p s = ground arith

module _ (s : Pmm) (ls : Lists) (v : IsLinked s ls) (o a : ℕ) (old : has a (ls o) ≡ true) where
  next-own : points_to (s.frames a).next a ≡ false
  next-own =
      ground (arith, Chain-end s.frames (s.free_lists o) (ls o) (v.chains o) a (v.distinct o) old)

  prev-own : points_to (s.frames a).prev a ≡ false
  prev-own =
      ground (arith, Chain-start s.frames (s.free_lists o) (ls o) (v.chains o) a (v.distinct o) old)

  next-has : (x : ℕ) → points_to (s.frames a).next x ≡ true → has x (ls o) ≡ true
  next-has x h = ground (
    arith,
    points_to-some _ x h,
    Chain-end s.frames (s.free_lists o) (ls o) (v.chains o) a (v.distinct o) old,
  )

  prev-has : (x : ℕ) → points_to (s.frames a).prev x ≡ true → has x (ls o) ≡ true
  prev-has x h = ground (
    arith,
    points_to-some _ x h,
    Chain-start s.frames (s.free_lists o) (ls o) (v.chains o) a (v.distinct o) old,
  )

  pub remove-at :
      (x : ℕ) → Removed s (s.frames a).next (s.frames a).prev a x ((list_remove o a s).frames x)
  remove-at x =
      list_remove-Removed o a x s (s.frames a).next (s.frames a).prev refl refl next-own prev-own

  remove-Unlinked : (x : ℕ) → has x (ls o) ≡ true → Unlinked s.frames (list_remove o a s).frames a x
  remove-Unlinked x h = (
    rw (← Chain-links s.frames (s.free_lists o) (ls o) (v.chains o) x a h old) at
        (remove-at x).next,
    rw (Chain-links s.frames (s.free_lists o) (ls o) (v.chains o) a x old h) at (remove-at x).prev,
  )

  remove-start :
      (list_remove o a s).free_lists o
      ≡ (if points_to (s.free_lists o) a then (s.frames a).next else s.free_lists o)
  remove-start = ground (
    arith,
    list_remove-free_lists o a o s,
    Chain-start s.frames (s.free_lists o) (ls o) (v.chains o) a (v.distinct o) old,
  )

  remove-Chain_here :
      Chain (list_remove o a s).frames ((list_remove o a s).free_lists o) none (erase a (ls o))
  remove-Chain_here =
      Chain-erase s.frames (list_remove o a s).frames a (s.free_lists o) none _ none (ls o)
        (v.chains o) (v.distinct o) (λ x h _. remove-Unlinked x h) remove-start refl

  remove-Chain_else :
      (p : ℕ)
      → (o == p) ≡ false
      → Chain (list_remove o a s).frames ((list_remove o a s).free_lists p) none (ls p)
  remove-Chain_else p h =
      let same : (list_remove o a s).free_lists p ≡ s.free_lists p =
        ground (arith, list_remove-free_lists o a p s) in
      rw same (
        Chain-same s.frames (list_remove o a s).frames (s.free_lists p) none (ls p) (v.chains p)
          (λ x i. ground (arith, remove-at x, next-has x, prev-has x, v.listed o x, v.listed p x)))

  remove-Chain :
      (p : ℕ)
      → Chain
          (list_remove o a s).frames
          ((list_remove o a s).free_lists p)
          none
          (update ls o (erase a (ls o)) p)
  remove-Chain p = elim (Bool-cases (o == p)) [
    | inl hit ↦
        subst
          (λ q.
            Chain (list_remove o a s).frames ((list_remove o a s).free_lists q) none
              (update ls o (erase a (ls o)) q))
          (==→eq o p hit) (rw ==-self remove-Chain_here)
    | inr miss ↦ rw miss (remove-Chain_else p miss)
  ]

  -- In well-formed free lists, `list_remove` takes a frame out of the list that holds it, wherever
  -- it stands there, keeps the order of the others, leaves the other lists as they are and the free
  -- lists well formed.
  pub list_remove-IsLinked : IsLinked (list_remove o a s) (update ls o (erase a (ls o)))
  list_remove-IsLinked = record {
    chains = remove-Chain;
    distinct = λ p. ground (arith, v.distinct p, erase-Distinct a (ls o) (v.distinct o));
    listed = λ p x h. ground (
      arith,
      remove-at x,
      v.listed p x,
      v.listed o x,
      v.listed p a,
      v.listed o a,
      has-erase_self a (ls o) (v.distinct o),
      has-erase_ne a x (ls o),
      ==→eq a x,
    );
    complete =
        λ x h. ground (arith, remove-at x, v.complete x, has-erase_ne a x (ls o), v.listed o a);
  }
