-- ===== src/Mm/Chain.antt =====
-- A free list of `mm.cpp` as a chain of `next` and `prev` pointers, and what relinking does to it.
use vortex_os.Base.{
  points_to, points_to-some, ℕ, ◌≡◌, refl, ◌∙◌, ◌⊎◌, inl, inr, true, false, Option, none, some,
  List, [], ◌∷◌, arith, ◌==◌, if◌then◌else◌, has, erase, Distinct, Bool-cases, ==→eq, ==-self,
  erase-absent, Option-cases,
}
use vortex_os.Mm.{PageFrame}

-- From `start` the `next` pointers run through `l` to null, and `prev` points back along them.
abbrev pub Chain : (ℕ → PageFrame) → Option ℕ → Option ℕ → List ℕ → Type 0
Chain f start prev [] = start ≡ none
Chain f start prev (x ∷ xs) =
    (start ≡ some x) × ((f x).prev ≡ prev) × Chain f (f x).next (some x) xs

-- The frame's own links are all that a chain reads.
pub Chain-same :
    (f g : ℕ → PageFrame) (start prev : Option ℕ) (l : List ℕ)
    → Chain f start prev l
    → ((x : ℕ) → has x l ≡ true → ((g x).next ≡ (f x).next) × ((g x).prev ≡ (f x).prev))
    → Chain g start prev l
Chain-same f g start prev [] c same = c
Chain-same f g start prev (x ∷ xs) c same =
    let here = same x (ground arith) in
    (
      c.0,
      here.1 ∙ c.1,
      rw (here.0) (Chain-same f g (f x).next (some x) xs c.2 (λ y h. same y (ground arith))),
    )

-- What follows a member of a chain is a member, and points back to it.
pub Chain-next :
    (f : ℕ → PageFrame) (start prev : Option ℕ) (l : List ℕ) (x y : ℕ)
    → Chain f start prev l
    → has x l ≡ true
    → (f x).next ≡ some y
    → (has y l ≡ true) × ((f y).prev ≡ some x)
Chain-next f start prev [] x y c h e = cc
Chain-next f start prev (a ∷ []) x y c h e = ground arith
Chain-next f start prev (a ∷ b ∷ l) x y c h e = elim (Bool-cases (a == x)) [
  | inl at ↦ ground arith
  | inr off ↦
      let r = Chain-next f (f a).next (some a) (b ∷ l) x y c.2 (ground arith) e in
      (ground arith, r.1)
]

-- A member is the head, or the `next` of the member that it points back to.
pub Chain-prev :
    (f : ℕ → PageFrame) (start prev : Option ℕ) (l : List ℕ) (y : ℕ)
    → Chain f start prev l
    → has y l ≡ true
    → ((start ≡ some y) × ((f y).prev ≡ prev))
      ⊎ ((x : ℕ) × (has x l ≡ true) × ((f x).next ≡ some y) × ((f y).prev ≡ some x))
Chain-prev f start prev [] y c h = cc
Chain-prev f start prev (a ∷ l) y c h = elim (Bool-cases (a == y)) [
  | inl at ↦ inl (ground arith)
  | inr off ↦ elim (Chain-prev f (f a).next (some a) l y c.2 (ground arith)) [
    | inl e ↦ inr (a, ground arith, e.0, e.1)
    | inr (x, i, e, p) ↦ inr (x, ground arith, e, p)
  ]
]

-- What the members of `l` look like once `a` is taken out between its neighbours.
abbrev pub Unlinked : (f g : ℕ → PageFrame) → ℕ → ℕ → Type 0
Unlinked f g a x =
    ((g x).next ≡ (if points_to (f x).next a then (f a).next else (f x).next))
    × ((g x).prev ≡ (if points_to (f x).prev a then (f a).prev else (f x).prev))

pub Chain-erase :
    (f g : ℕ → PageFrame) (a : ℕ) (start prev start' prev' : Option ℕ) (l : List ℕ)
    → Chain f start prev l
    → Distinct l
    → ((x : ℕ) → has x l ≡ true → (x == a) ≡ false → Unlinked f g a x)
    → start' ≡ (if points_to start a then (f a).next else start)
    → prev' ≡ (if points_to prev a then (f a).prev else prev)
    → Chain g start' prev' (erase a l)
Chain-erase f g a start prev start' prev' [] c d out es ep = ground arith
Chain-erase f g a start prev start' prev' (x ∷ xs) c d out es ep = elim (Bool-cases (x == a)) [
  | inl at ↦
      let same : x ≡ a = ==→eq x a at in
      let gone : has a xs ≡ false = rw (← same) d.0 in
      let rest =
        Chain-erase f g a (f x).next (some x) start' prev' xs c.2 d.1
          (λ y h n. out y (ground arith) n) (ground arith) (ground arith) in
      rw at (rw (erase-absent a xs gone) at rest)
  | inr off ↦
      let here = out x (rw ==-self) off in
      let rest =
        Chain-erase f g a (f x).next (some x) (g x).next (some x) xs c.2 d.1
          (λ y h n. out y (ground arith) n) here.0 (ground arith) in
      rw off (ground arith, ground arith, rest)
]

-- A chain whose head gets another `prev`.
pub Chain-head :
    (f g : ℕ → PageFrame) (start prev prev' : Option ℕ) (l : List ℕ)
    → Chain f start prev l
    → Distinct l
    → ((x : ℕ)
        → has x l ≡ true
        → ((g x).next ≡ (f x).next)
          × ((g x).prev ≡ (if points_to start x then prev' else (f x).prev)))
    → Chain g start prev' l
Chain-head f g start prev prev' [] c d out = c
Chain-head f g start prev prev' (x ∷ xs) c d out =
    let here = out x (rw ==-self) in
    (
      c.0,
      ground arith,
      rw (here.0)
          (Chain-same f g (f x).next (some x) xs c.2 (λ y h. ground (arith, out y, ==→eq x y))),
    )

-- No member follows itself.
Chain-next_ne :
    (f : ℕ → PageFrame) (start prev : Option ℕ) (l : List ℕ) (a : ℕ)
    → Chain f start prev l
    → Distinct l
    → has a l ≡ true
    → points_to (f a).next a ≡ false
Chain-next_ne f start prev [] a c d h = cc
Chain-next_ne f start prev (x ∷ []) a c d h = ground arith
Chain-next_ne f start prev (x ∷ y ∷ l) a c d h = elim (Bool-cases (x == a)) [
  | inl at ↦ ground arith
  | inr off ↦ Chain-next_ne f (f x).next (some x) (y ∷ l) a c.2 d.1 (ground arith)
]

Chain-first :
    (f : ℕ → PageFrame) (start prev : Option ℕ) (l : List ℕ) (a : ℕ)
    → Chain f start prev l
    → start ≡ some a
    → (f a).prev ≡ prev
Chain-first f start prev [] a c e = cc
Chain-first f start prev (x ∷ l) a c e = ground arith

-- The facts about one chain from null to null.
module _ (f : ℕ → PageFrame) (start : Option ℕ) (l : List ℕ) (c : Chain f start none l) where
  -- `next` and `prev` are inverse relations on the members.
  pub Chain-links :
      (x y : ℕ) → has x l ≡ true → has y l ≡ true → points_to (f x).next y ≡ points_to (f y).prev x
  Chain-links x y h k = elim (Bool-cases (points_to (f x).next y)) [
    | inl e ↦ ground (arith, Chain-next f start none l x y c h (points_to-some _ y e))
    | inr e ↦ elim (Bool-cases (points_to (f y).prev x)) [
      | inr e' ↦ ground arith
      | inl e' ↦
          let back = points_to-some _ x e' in
          elim (Chain-prev f start none l y c k) [
            | inl (_, p) ↦ cc
            | inr (z, _, n, p) ↦ ground arith
          ]
    ]
  ]

  pub Chain-start :
      (a : ℕ)
      → Distinct l
      → has a l ≡ true
      → (((f a).prev ≡ none) × (start ≡ some a))
        ⊎ ((p : ℕ) × ((f a).prev ≡ some p)
            × (has p l ≡ true)
            × (points_to start a ≡ false)
            × ((p == a) ≡ false))
  Chain-start a d h = elim (Chain-prev f start none l a c h) [
    | inl (e, p) ↦ inl (p, e)
    | inr (p, i, n, q) ↦ inr (
      p,
      q,
      i,
      ground (arith, points_to-some start a, Chain-first f start none l a c),
      ground (arith, Chain-next_ne f start none l a c d h),
    )
  ]

  pub Chain-end :
      (a : ℕ)
      → Distinct l
      → has a l ≡ true
      → ((f a).next ≡ none)
        ⊎ ((n : ℕ) × ((f a).next ≡ some n) × (has n l ≡ true) × ((n == a) ≡ false))
  Chain-end a d h = elim (Option-cases (f a).next) [
    | inl e ↦ inl e
    | inr (n, e) ↦ inr (
      n,
      e,
      (Chain-next f start none l a n c h e).0,
      ground (arith, Chain-next_ne f start none l a c d h),
    )
  ]

pub Chain-has_head :
    (f : ℕ → PageFrame) (start prev : Option ℕ) (l : List ℕ) (a : ℕ)
    → Chain f start prev l
    → points_to start a ≡ true
    → has a l ≡ true
Chain-has_head f start prev [] a c h = ground arith
Chain-has_head f start prev (x ∷ l) a c h = ground arith

pub Chain-none : (f : ℕ → PageFrame) (prev : Option ℕ) (l : List ℕ) → Chain f none prev l → l ≡ []
Chain-none f prev [] c = refl
Chain-none f prev (x ∷ l) c = cc
