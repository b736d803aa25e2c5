-- ===== src/Base/Loops.antt =====
-- `for (i = 0; i < n; ++i) if (test(i)) return i;`, with `none` for a loop that runs to its end.
use Prim.Native.Nat.{ℕ, zero, suc, ◌+◌, ◌≤◌, ◌<◌}
use mathlib.Core.Path.{◌≡◌}
use mathlib.Core.Logic.{inl, inr}
use mathlib.Core.Bool.{Bool, true, false}
use mathlib.Core.Option.{Option, none, some}
use native.Mathlib.Omega.{arith}
use vortex_os.Base.Tests.{Bool-cases}

-- `rounds` counts the rounds left, `i` is the loop variable.
unfoldable pub first_from : ℕ → ℕ → (ℕ → Bool) → Option ℕ
first_from zero i test = none
first_from (suc rounds) i test = elim (test i) [
  | true ↦ some i
  | false ↦ first_from rounds (i + 1) test
]

abbrev pub first_below : ℕ → (ℕ → Bool) → Option ℕ
first_below n test = first_from n 0 test

-- The index that the loop returns is the least one that passes the test.
pub record IsFirst (test : ℕ → Bool) (lo hi i : ℕ) : Type 0 where
  pub above : lo ≤ i
  pub below : i < hi
  pub passes : test i ≡ true
  pub least : (j : ℕ) → lo ≤ j → j < i → test j ≡ false

pub first_from-some :
    (n lo : ℕ) (test : ℕ → Bool) (i : ℕ)
    → first_from n lo test ≡ some i
    → IsFirst test lo (lo + n) i
unfolding first_from
first_from-some zero lo test i h = cc
first_from-some (suc n) lo test i h = elim (Bool-cases (test lo)) [
  | inl e ↦
      let same : lo ≡ i = ground arith in
      record {
        above = omega arith;
        below = omega arith;
        passes = rw (← same) e;
        least = λ j p q. absurd (omega arith);
      }
  | inr e ↦
      let r = first_from-some n (lo + 1) test i (rw (e, first_from) at h) in
      record {
        above = omega (arith, r.above);
        below = omega (arith, r.below);
        passes = r.passes;
        least = λ j p q. ground (arith, r.least j);
      }
]

pub first_from-none :
    (n lo : ℕ) (test : ℕ → Bool)
    → first_from n lo test ≡ none
    → (j : ℕ) → lo ≤ j
    → j < lo + n
    → test j ≡ false
unfolding first_from
first_from-none zero lo test h j p q = absurd (omega arith)
first_from-none (suc n) lo test h j p q = elim (Bool-cases (test lo)) [
  | inl e ↦ ground arith
  | inr e ↦ ground (arith, first_from-none n (lo + 1) test (rw (e, first_from) at h) j)
]
