-- ===== src/Base/Strings.antt =====
-- C strings as the lists of their characters before the closing zero.
use Prim.Native.Nat.{ℕ}
use Prim.Native.Char.{code}
use Prim.Native.String.{String}
use mathlib.Core.Path.{◌≡◌, refl}
use mathlib.Core.Bool.{Bool, true, false, ◌&&◌}
use mathlib.Core.List.{List, [], ◌∷◌}
use native.Mathlib.Omega.{arith}
use vortex_os.Base.Tests.{◌==◌, ==→eq, ==-self}

abbrev pub Text : Type 0
Text = List ℕ

-- Whether the loop `while (*a && *b && *a == *b) { a++; b++; }` ends at both ends.
unfoldable pub same_text : Text → Text → Bool
same_text [] [] = true
same_text [] (y ∷ b) = false
same_text (x ∷ a) [] = false
same_text (x ∷ a) (y ∷ b) = (x == y) && same_text a b

pub same_text_self : (a : Text) → same_text a a ≡ true
unfolding same_text
same_text_self [] = refl
same_text_self (x ∷ a) = ground (arith, ==-self x, same_text_self a)

pub same_text→eq : (a b : Text) → same_text a b ≡ true → a ≡ b
unfolding same_text
same_text→eq [] [] h = refl
same_text→eq [] (y ∷ b) h = cc
same_text→eq (x ∷ a) [] h = cc
same_text→eq (x ∷ a) (y ∷ b) h = ground (arith, ==→eq x y, same_text→eq a b)

-- The code points of a text: its bytes, if it is ASCII.
abbrev pub codes : String → Text
codes String.[] = []
codes (String.◌∷◌ c s) = code c ∷ codes s
