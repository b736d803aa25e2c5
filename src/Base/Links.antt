-- ===== src/Base/Links.antt =====
-- A singly linked list in a store: links by number, read as a list; the walk to the first element
-- that passes a test, and the removal of an element.
use Prim.Native.Nat.{ℕ, zero, suc, ◌<◌}
use mathlib.Core.Path.{◌≡◌, refl, ◌∙◌, subst}
use mathlib.Core.Logic.{inl, inr}
use mathlib.Core.Bool.{Bool, true, false}
use mathlib.Core.Option.{Option, none, some}
use mathlib.Core.List.{List, [], ◌∷◌}
use native.Mathlib.Omega.{arith}
use vortex_os.Base.Tests.{◌==◌, if◌then◌else◌, Bool-cases, ==→eq, ==-self}
use vortex_os.Base.Store.{update}
use vortex_os.Base.Lists.{length, has, erase, Distinct}

abbrev pub Linked : (ℕ → Option ℕ) → Option ℕ → List ℕ → Type 0
Linked next start [] = start ≡ none
Linked next start (x ∷ l) = (start ≡ some x) × Linked next (next x) l

-- The first that passes, of a list.
unfoldable pub find : {A : Type 0} → (A → Bool) → List A → Option A
find test [] = none
find test (x ∷ l) = if test x then some x else find test l

pub find-none :
    (test : ℕ → Bool) (l : List ℕ) → find test l ≡ none → (x : ℕ) → has x l ≡ true → test x ≡ false
unfolding find
find-none test [] h x i = ground arith
find-none test (y ∷ l) h x i =
    let rest : find test l ≡ none = ground arith in
    elim (Bool-cases (y == x)) [
      | inl e ↦ ground (arith, ==→eq y x e)
      | inr e ↦ find-none test l rest x (ground arith)
    ]

-- An element that is found is in the list and passes.
pub find-some :
    (test : ℕ → Bool) (l : List ℕ) (x : ℕ)
    → find test l ≡ some x
    → (has x l ≡ true) × (test x ≡ true)
unfolding find
find-some test [] x h = cc
find-some test (y ∷ l) x h = ground (arith, find-some test l x, ==-self x)

-- `for (p = start; p; p = p->next) if (test(p)) return p; return nullptr;` on fuel.
unfoldable pub find_link : ℕ → (ℕ → Option ℕ) → (ℕ → Bool) → Option ℕ → Option ℕ
find_link zero next test start = none
find_link (suc fuel) next test none = none
find_link (suc fuel) next test (some x) =
    let rest = find_link fuel next test (next x) in if test x then some x else rest

pub find_link-find :
    (fuel : ℕ) (next : ℕ → Option ℕ) (test : ℕ → Bool) (start : Option ℕ) (l : List ℕ)
    → length l < fuel
    → Linked next start l
    → find_link fuel next test start ≡ find test l
unfolding find_link find
find_link-find zero next test start l h c = absurd (omega arith)
find_link-find (suc fuel) next test start [] h c = rw (c, find_link)
find_link-find (suc fuel) next test start (x ∷ l) h c =
    rw (c.0, find_link, find_link-find fuel next test (next x) l (omega arith) c.1)

pub Linked-same :
    (next next' : ℕ → Option ℕ) (start : Option ℕ) (l : List ℕ)
    → Linked next start l
    → ((x : ℕ) → has x l ≡ true → next' x ≡ next x)
    → Linked next' start l
Linked-same next next' start [] c h = c
Linked-same next next' start (x ∷ l) c h = (
  c.0,
  rw (h x (ground (arith, ==-self x)))
      (Linked-same next next' (next x) l c.1 (λ y m. h y (ground arith))),
)

-- The link that points to `t`, from `prev` on: the loop `while (*pp) { if (*pp == t) …; pp =
-- &(*pp)->next; }` on fuel. The outer `none` is a list without `t`.
unfoldable pub find_pointer : ℕ → (ℕ → Option ℕ) → ℕ → Option ℕ → Option ℕ → Option (Option ℕ)
find_pointer zero next t prev start = none
find_pointer (suc fuel) next t prev none = none
find_pointer (suc fuel) next t prev (some x) =
    let rest = find_pointer fuel next t (some x) (next x) in if x == t then some prev else rest

-- Where `*pp = t->next` writes: to the head, or to the link of the element before.
abbrev pub head_after : Option ℕ → Option ℕ → Option ℕ → Option ℕ
head_after none next_of_t start = next_of_t
head_after (some p) next_of_t start = start

abbrev pub links_after : Option ℕ → Option ℕ → (ℕ → Option ℕ) → ℕ → Option ℕ
links_after none next_of_t next = next
links_after (some p) next_of_t next = update next p next_of_t

pub find_pointer-none :
    (fuel : ℕ) (next : ℕ → Option ℕ) (t : ℕ) (prev start : Option ℕ) (l : List ℕ)
    → length l < fuel
    → Linked next start l
    → has t l ≡ false
    → find_pointer fuel next t prev start ≡ none
unfolding find_pointer
find_pointer-none zero next t prev start l h c n = absurd (omega arith)
find_pointer-none (suc fuel) next t prev start [] h c n = rw (c, find_pointer)
find_pointer-none (suc fuel) next t prev start (x ∷ l) h c n =
    rw
      (
        c.0,
        find_pointer,
        find_pointer-none fuel next t (some x) (next x) l (omega arith) c.1 (ground arith),
      )
      (ground arith)

-- The element before `t` in a list, `prev` being the one before the list.
abbrev pub before : ℕ → Option ℕ → List ℕ → Option ℕ
before t prev [] = none
before t prev (x ∷ l) = if x == t then prev else before t (some x) l

pub find_pointer-before :
    (fuel : ℕ) (next : ℕ → Option ℕ) (t : ℕ) (prev start : Option ℕ) (l : List ℕ)
    → length l < fuel
    → Linked next start l
    → has t l ≡ true
    → find_pointer fuel next t prev start ≡ some (before t prev l)
unfolding find_pointer
find_pointer-before zero next t prev start l h c i = absurd (omega arith)
find_pointer-before (suc fuel) next t prev start [] h c i = ground arith
find_pointer-before (suc fuel) next t prev start (x ∷ l) h c i = elim (Bool-cases (x == t)) [
  | inl e ↦ rw (c.0, find_pointer, e)
  | inr n ↦
      rw (c.0, find_pointer, n)
        (find_pointer-before fuel next t (some x) (next x) l (omega arith) c.1 (ground arith))
]

-- A list, that `p` links to, when the link to `t` was overwritten.
tail_after : ℕ → (ℕ → Option ℕ) → ℕ → List ℕ → ℕ → Option ℕ
tail_after t next p l = links_after (before t (some p) l) (next t) next

tail_after-own :
    (t : ℕ) (next : ℕ → Option ℕ) (p x : ℕ) (l : List ℕ)
    → has t l ≡ true
    → (p == x) ≡ false
    → has x l ≡ false
    → tail_after t next p l x ≡ next x
unfolding tail_after
tail_after-own t next p x [] i n m = refl
tail_after-own t next p x (y ∷ l) i n m = elim (Bool-cases (y == t)) [
  | inl e ↦ ground arith
  | inr e ↦ rw e (tail_after-own t next y x l (ground arith) (ground arith) (ground arith))
]

tail_after-Linked :
    (t : ℕ) (next : ℕ → Option ℕ) (p : ℕ) (l : List ℕ)
    → Linked next (next p) l
    → Distinct l
    → has p l ≡ false
    → has t l ≡ true
    → Linked (tail_after t next p l) (tail_after t next p l p) (erase t l)
unfolding tail_after
tail_after-Linked t next p [] c d n i = ground arith
tail_after-Linked t next p (x ∷ l) c d n i = elim (Bool-cases (x == t)) [
  | inl e ↦
      let same = ==→eq x t e in
      rw (e, ==-self p)
        (Linked-same next (update next p (next t)) (next t) l
          (subst (λ y. Linked next (next y) l) same c.1) (λ y m. ground (arith, ==→eq p y)))
  | inr e ↦ rw e (
    tail_after-own t next x p l (ground arith) (ground (arith, ==→eq x p, ==-self p)) (ground arith)
        ∙ c.0,
    tail_after-Linked t next x l c.1 d.1 d.0 (ground arith),
  )
]

before-head :
    (t x : ℕ) (start next_of_t : Option ℕ) (l : List ℕ)
    → has t l ≡ true
    → head_after (before t (some x) l) next_of_t start ≡ start
before-head t x start n [] i = ground arith
before-head t x start n (y ∷ l) i = ground (arith, before-head t y start n l)

erased_tail :
    (t : ℕ) (next : ℕ → Option ℕ) (start : Option ℕ) (x : ℕ) (l : List ℕ)
    → Linked next start (x ∷ l)
    → Distinct (x ∷ l)
    → has t l ≡ true
    → Linked
        (links_after (before t (some x) l) (next t) next)
        (head_after (before t (some x) l) (next t) start)
        (x ∷ erase t l)
unfolding tail_after
erased_tail t next start x l c d i =
    (before-head t x start (next t) l i ∙ c.0, tail_after-Linked t next x l c.1 d.1 d.0 i)

-- The element `t` leaves the list when the link to it is overwritten with its own.
pub Linked-erase :
    (t : ℕ) (next : ℕ → Option ℕ) (start : Option ℕ) (l : List ℕ)
    → Linked next start l
    → Distinct l
    → has t l ≡ true
    → Linked
        (links_after (before t none l) (next t) next)
        (head_after (before t none l) (next t) start)
        (erase t l)
Linked-erase t next start [] c d i = ground arith
Linked-erase t next start (x ∷ l) c d i = elim (Bool-cases (x == t)) [
  | inl e ↦ rw e (subst (λ y. Linked next (next y) l) (==→eq x t e) c.1)
  | inr e ↦ rw e (erased_tail t next start x l c d (ground arith))
]
