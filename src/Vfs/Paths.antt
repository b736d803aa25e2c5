-- ===== src/Vfs/Paths.antt =====
-- A path as the list of its components, and the walk along them.
use vortex_os.Base.{
  ℕ, zero, suc, ◌-◌, ◌≤◌, ◌<◌, ◌≡◌, ◌≢◌, refl, ◌∙◌, ap, inl, inr, true, false, Option, none, some,
  List, [], ◌∷◌, ◌++◌, arith, ◌==◌, length, length-append, Bool-cases, ==→eq, ==-self, Text, ◌>>=◌,
  leb, find, if◌then◌else◌,
}
use vortex_os.Vfs.{
  Fs, Mount, dot, dot_dot, dir_open, can_open, mount_resolve, resolve_in, char_difference, str_cmp,
  is_zero, slash, name_size, skip_slashes, next_component, enter, resolve_from, resolve_path,
  vfs_open,
}

-- A C string has no zero before its end.
abbrev pub IsText : Text → Type 0
IsText [] = Unit {0}
IsText (c ∷ a) = (0 < c) × IsText a

pub str_cmp_self : (a : Text) → is_zero (str_cmp a a) ≡ true
unfolding str_cmp
str_cmp_self [] = refl
str_cmp_self (c ∷ a) = rw (==-self c) (str_cmp_self a)

difference-ne : (x y : ℕ) → x ≢ y → is_zero (char_difference x y) ≡ false
unfolding char_difference
difference-ne x y h = elim (Bool-cases (leb y x)) [
  | inl e ↦ let d : suc (x - y - 1) ≡ x - y = ground arith in rw (e, char_difference, ← d)
  | inr e ↦ rw (e, char_difference)
]

pub str_cmp→eq : (a b : Text) → IsText a → IsText b → is_zero (str_cmp a b) ≡ true → a ≡ b
unfolding str_cmp
str_cmp→eq [] [] s t h = refl
str_cmp→eq [] (y ∷ b) s t h = ground (arith, difference-ne 0 y)
str_cmp→eq (x ∷ a) [] s t h = ground (arith, difference-ne x 0)
str_cmp→eq (x ∷ a) (y ∷ b) s t h = elim (Bool-cases (x == y)) [
  | inl e ↦ ground (arith, ==→eq x y e, str_cmp→eq a b s.1 t.1)
  | inr e ↦ ground (arith, difference-ne x y, ==-self x)
]

-- A component that the code handles whole: not empty, without a slash, at most 255 characters.
abbrev pub NoSlash : Text → Type 0
NoSlash [] = Unit {0}
NoSlash (c ∷ a) = ((c == slash) ≡ false) × NoSlash a

pub record IsComponent (a : Text) : Type 0 where
  pub filled : 0 < length a
  pub no_slash : NoSlash a
  pub short : length a < name_size

abbrev pub AreComponents : List Text → Type 0
AreComponents [] = Unit {0}
AreComponents (a ∷ l) = IsComponent a × AreComponents l

-- The components, with a slash before each.
abbrev pub join : List Text → Text
join [] = []
join (a ∷ l) = slash ∷ (a ++ join l)

-- The root of the first file system that is mounted at the node, or the node itself.
abbrev pub mounted_at : Fs → ℕ → ℕ
mounted_at s n = elim (find (λ (m : Mount). m.0 == n) s.mounts) [ none ↦ n | some m ↦ m.1 ]

-- What a name means in the directory `i`: itself, its parent if it has one, or what opening the
-- name in it gives, with what is mounted there in its place.
abbrev pub step : Fs → ℕ → Text → Option ℕ
step s i a =
    if is_zero (str_cmp a dot)
    then some i
    else if is_zero (str_cmp a dot_dot)
    then some (elim (s.nodes i).parent [ none ↦ i | some p ↦ p ])
    else if can_open (s.nodes i).ops
    then (dir_open i a s >>= λ n. some (mounted_at s n))
    else none

-- The meaning of a path: a step for each component in turn.
abbrev pub walk : Fs → ℕ → List Text → Option ℕ
walk s i [] = some i
walk s i (a ∷ l) = step s i a >>= λ n. walk s n l

bind_same : (o : Option ℕ) (f g : ℕ → Option ℕ) → ((n : ℕ) → f n ≡ g n) → (o >>= f) ≡ (o >>= g)
bind_same none f g h = refl
bind_same (some n) f g h = h n

resolve_in-find :
    (ms : List Mount) (n : ℕ)
    → resolve_in ms n ≡ elim (find (λ (m : Mount). m.0 == n) ms) [ none ↦ n | some m ↦ m.1 ]
unfolding resolve_in find
resolve_in-find [] n = refl
resolve_in-find ((point, root) ∷ ms) n = elim (Bool-cases (point == n)) [
  | inl e ↦ rw e refl
  | inr e ↦ rw e (resolve_in-find ms n)
]

enter-step : (i : ℕ) (a : Text) (s : Fs) → enter i a s ≡ step s i a
unfolding enter mount_resolve
enter-step i a s =
    let there : (dir_open i a s >>= λ n. some (resolve_in s.mounts n))
        ≡ (dir_open i a s >>= λ n. some (mounted_at s n)) =
      bind_same (dir_open i a s) _ _ (λ n. ap some (resolve_in-find s.mounts n)) in
    elim (Bool-cases (can_open (s.nodes i).ops)) [ inl e ↦ rw (e, there) refl | inr e ↦ rw e refl ]

next_component-slash : (n : ℕ) (l : List Text) → next_component n (join l) ≡ ([], join l)
unfolding next_component
next_component-slash zero l = refl
next_component-slash (suc n) [] = refl
next_component-slash (suc n) (a ∷ l) = refl

next_component-name :
    (n : ℕ) (a : Text) (l : List Text)
    → NoSlash a
    → length a ≤ n
    → next_component n (a ++ join l) ≡ (a, join l)
unfolding next_component
next_component-name n [] l h k = next_component-slash n l
next_component-name zero (c ∷ a) l h k = absurd (omega arith)
next_component-name (suc n) (c ∷ a) l h k =
    let e = next_component-name n a l h.1 (omega arith) in
    rw (next_component, ap (λ r. r.0) e, ap (λ r. r.1) e, h.0)

resolve_from-empty : (fuel i : ℕ) (s : Fs) → resolve_from fuel i [] s ≡ some i
unfolding resolve_from skip_slashes
resolve_from-empty zero i s = refl
resolve_from-empty (suc fuel) i s = refl

resolve_from-slash :
    (fuel i : ℕ) (path : Text) (s : Fs)
    → resolve_from (suc fuel) i (slash ∷ path) s ≡ resolve_from (suc fuel) i path s
unfolding resolve_from skip_slashes
resolve_from-slash fuel i path s = refl

-- One round of the loop, at a component.
round :
    (fuel i : ℕ) (a : Text) (l : List Text) (s : Fs)
    → IsComponent a
    → resolve_from (suc fuel) i (a ++ join l) s
      ≡ (step s i a >>= λ n. resolve_from fuel n (join l) s)
unfolding resolve_from skip_slashes
round fuel i [] l s h = absurd (omega (arith, h.filled))
round fuel i (c ∷ a) l s h =
    let e = next_component-name (name_size - 1) (c ∷ a) l h.no_slash (omega (arith, h.short)) in
    rw (resolve_from, h.no_slash.0, ap (λ r. r.0) e, ap (λ r. r.1) e)
      (ap (λ o. o >>= λ n. resolve_from fuel n (join l) s) (enter-step i (c ∷ a) s))

resolve_join :
    (fuel i : ℕ) (l : List Text) (s : Fs)
    → length (join l) < fuel
    → AreComponents l
    → resolve_from fuel i (join l) s ≡ walk s i l
resolve_join zero i l s h c = absurd (omega arith)
resolve_join (suc fuel) i [] s h c = resolve_from-empty (suc fuel) i s
resolve_join (suc fuel) i (a ∷ l) s h c =
    resolve_from-slash fuel i (a ++ join l) s
    ∙ round fuel i a l s c.0
    ∙ bind_same (step s i a) _ _
        (λ n. resolve_join fuel n l s (omega (arith, length-append a (join l))) c.1)

resolve_relative :
    (fuel i : ℕ) (a : Text) (l : List Text) (s : Fs)
    → length (a ++ join l) < fuel
    → IsComponent a
    → AreComponents l
    → resolve_from fuel i (a ++ join l) s ≡ walk s i (a ∷ l)
resolve_relative zero i a l s h c d = absurd (omega arith)
resolve_relative (suc fuel) i a l s h c d =
    round fuel i a l s c
    ∙ bind_same (step s i a) _ _
        (λ n. resolve_join fuel n l s (omega (arith, length-append a (join l), c.filled)) d)

resolve_path-walk :
    (i : ℕ) (a : Text) (l : List Text) (s : Fs)
    → IsComponent a
    → AreComponents l
    → resolve_path i (a ++ join l) s ≡ walk s i (a ∷ l)
unfolding resolve_path
resolve_path-walk i a l s c d = resolve_relative _ i a l s (omega arith) c d

-- `vfs_open` on a path whose components are not empty, have no slash and at most 255 characters
-- each, with a slash before each or before each but the first, starts at the root and takes the
-- components in turn: "." stays, ".." goes to the node's parent if it has one (the root of a mounted
-- file system has what its `parent` says, and no step back through the mount is made), and any other
-- name is opened by the directory, if it has operations that open, with the file system mounted at
-- the node that is found in its place.
pub vfs_open-walk :
    (r : ℕ) (a : Text) (l : List Text) (s : Fs)
    → s.root ≡ some r
    → IsComponent a
    → AreComponents l
    → (vfs_open (join (a ∷ l)) s ≡ walk s r (a ∷ l)) × (vfs_open (a ++ join l) s ≡ walk s r (a ∷ l))
unfolding vfs_open
vfs_open-walk r [] l s e c d = absurd (omega (arith, c.filled))
vfs_open-walk r (x ∷ a) l s e c d =
    let at_root : (s.root >>= λ r. resolve_path r ((x ∷ a) ++ join l) s) ≡ walk s r ((x ∷ a) ∷ l) =
      ap (λ o. o >>= λ r. resolve_path r ((x ∷ a) ++ join l) s) e
      ∙ resolve_path-walk r (x ∷ a) l s c d in
    (at_root, rw c.no_slash.0 at_root)

next_component-full :
    (n : ℕ) (a rest : Text) → NoSlash a → length a ≡ n → next_component n (a ++ rest) ≡ (a, rest)
unfolding next_component
next_component-full zero [] rest h k = refl
next_component-full zero (c ∷ a) rest h k = absurd (omega arith)
next_component-full (suc n) [] rest h k = absurd (omega arith)
next_component-full (suc n) (c ∷ a) rest h k =
    let e = next_component-full n a rest h.1 (omega arith) in
    rw (next_component, ap (λ r. r.0) e, ap (λ r. r.1) e, h.0)

long_round :
    (fuel i : ℕ) (a rest : Text) (s : Fs)
    → NoSlash a
    → length a ≡ name_size - 1
    → resolve_from (suc fuel) i (a ++ rest) s ≡ (step s i a >>= λ n. resolve_from fuel n rest s)
unfolding resolve_from skip_slashes
long_round fuel i [] rest s h k = absurd (omega arith)
long_round fuel i (c ∷ a) rest s h k =
    let e = next_component-full (name_size - 1) (c ∷ a) rest h k in
    rw (resolve_from, h.0, ap (λ r. r.0) e, ap (λ r. r.1) e)
      (ap (λ o. o >>= λ n. resolve_from fuel n rest s) (enter-step i (c ∷ a) s))

-- A component of more than 255 characters is cut: a path that starts with 255 characters `a` and
-- goes on with `b` without a slash between them is resolved like the one with a slash there, that
-- is, as a node `b` in the directory `a`.
pub resolve_path-cut :
    (i : ℕ) (a b : Text) (l : List Text) (s : Fs)
    → NoSlash a
    → length a ≡ name_size - 1
    → IsComponent b
    → AreComponents l
    → resolve_path i (a ++ (b ++ join l)) s ≡ walk s i (a ∷ b ∷ l)
unfolding resolve_path
resolve_path-cut i a b l s h k c d =
    long_round (length (a ++ (b ++ join l))) i a (b ++ join l) s h k
    ∙ bind_same (step s i a) _ _
        (λ n. resolve_relative _ n b l s (omega (arith, length-append a (b ++ join l))) c d)
