-- ===== src/Sched/Chain.antt =====
-- A ready queue as a chain of `next` pointers, and what relinking does to it.
use vortex_os.Base.{
  ℕ, ◌≡◌, refl, inl, inr, true, false, Option, none, some, List, [], ◌∷◌, ◌++◌, arith, ◌==◌,
  if◌then◌else◌, has, erase, Distinct, points_to, Bool-cases, ==→eq, ==-self, erase-absent,
}
use vortex_os.Sched.{Tcb}

abbrev pub Chain : (ℕ → Tcb) → Option ℕ → List ℕ → Type 0
Chain f start [] = start ≡ none
Chain f start (x ∷ xs) = (start ≡ some x) × Chain f (f x).next xs

abbrev pub last? : List ℕ → Option ℕ
last? [] = none
last? (x ∷ []) = some x
last? (x ∷ y ∷ l) = last? (y ∷ l)

pub Chain-same :
    (f g : ℕ → Tcb) (start : Option ℕ) (l : List ℕ)
    → Chain f start l
    → ((x : ℕ) → has x l ≡ true → (g x).next ≡ (f x).next)
    → Chain g start l
Chain-same f g start [] c same = c
Chain-same f g start (x ∷ xs) c same = (
  c.0,
  rw (same x (ground arith)) (Chain-same f g (f x).next xs c.1 (λ y h. same y (ground arith))),
)

pub last?-has : (l : List ℕ) (x : ℕ) → points_to (last? l) x ≡ true → has x l ≡ true
last?-has [] x h = ground arith
last?-has (a ∷ []) x h = ground arith
last?-has (a ∷ b ∷ l) x h = ground (arith, last?-has (b ∷ l) x h)

last?-has-not : (l : List ℕ) (x : ℕ) → has x l ≡ false → points_to (last? l) x ≡ false
last?-has-not l x h = ground (arith, last?-has l x)

-- Where a line starts once `t` stands at its end.
abbrev pub first_of_append : List ℕ → ℕ → Option ℕ → Option ℕ
first_of_append [] t start = some t
first_of_append (x ∷ l) t start = start

-- The last member's `next` becomes the new thread.
pub Chain-append :
    (f g : ℕ → Tcb) (start : Option ℕ) (l : List ℕ) (t : ℕ)
    → Chain f start l
    → Distinct l
    → ((x : ℕ)
        → has x l ≡ true
        → (g x).next ≡ (if points_to (last? l) x then some t else (f x).next))
    → (g t).next ≡ none
    → Chain g (first_of_append l t start) (l ++ t ∷ [])
Chain-append f g start [] t c d out end = (refl, end)
Chain-append f g start (x ∷ []) t c d out end = (c.0, (ground (arith, out x), end))
Chain-append f g start (x ∷ y ∷ l) t c d out end =
    let rest = Chain-append f g (f x).next (y ∷ l) t c.1 d.1 (λ z h. out z (ground arith)) end in
    (c.0, rw (out x (rw ==-self), last?-has-not (y ∷ l) x d.0) rest)

-- The member `a` is bypassed.
pub Chain-erase :
    (f g : ℕ → Tcb) (a : ℕ) (start start' : Option ℕ) (l : List ℕ)
    → Chain f start l
    → Distinct l
    → ((x : ℕ)
        → has x l ≡ true
        → (x == a) ≡ false
        → (g x).next ≡ (if points_to (f x).next a then (f a).next else (f x).next))
    → start' ≡ (if points_to start a then (f a).next else start)
    → Chain g start' (erase a l)
Chain-erase f g a start start' [] c d out e = ground arith
Chain-erase f g a start start' (x ∷ xs) c d out e = elim (Bool-cases (x == a)) [
  | inl at ↦
      let same : x ≡ a = ==→eq x a at in
      let gone : has a xs ≡ false = rw (← same) d.0 in
      let rest =
        Chain-erase f g a (f x).next start' xs c.1 d.1 (λ y h n. out y (ground arith) n)
          (ground arith) in
      rw at (rw (erase-absent a xs gone) at rest)
  | inr off ↦
      let rest =
        Chain-erase f g a (f x).next (g x).next xs c.1 d.1 (λ y h n. out y (ground arith) n)
          (out x (rw ==-self) off) in
      rw off (ground arith, rest)
]
