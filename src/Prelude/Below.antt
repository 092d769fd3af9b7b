-- ===== src/Prelude/Below.antt =====
-- A test on all numbers below a bound.
use Prim.Native.Nat.{ℕ, zero, suc, ◌<◌}
use mathlib.Core.Path.{◌≡◌, ap, ◌∙◌}
use mathlib.Core.Logic.{inl, inr}
use mathlib.Core.Bool.{Bool, true, ◌&&◌}
use native.Mathlib.Omega.{arith}
use ofm_auth_service.Prelude.Tests.{◌==ℕ◌, Bool-cases}

abbrev pub all_below : ℕ → (ℕ → Bool) → Bool
all_below zero p = true
all_below (suc k) p = p k && all_below k p

pub all_below_lem : (k : ℕ) (p : ℕ → Bool) → all_below k p ≡ true → (n : ℕ) → n < k → p n ≡ true
all_below_lem zero p h n lt = absurd (omega arith)
all_below_lem (suc k) p h n lt = elim (Bool-cases (n ==ℕ k)) [
  | inl same ↦ ap p (n_is_k same) ∙ first_true (p k) _ h
  | inr other ↦ all_below_lem k p (second_true (p k) _ h) n (ground arith)
]
  where
    n_is_k : (n ==ℕ k) ≡ true → n ≡ k
    n_is_k same = ground arith

    first_true : (a b : Bool) → (a && b) ≡ true → a ≡ true
    first_true a b e = ground arith

    second_true : (a b : Bool) → (a && b) ≡ true → b ≡ true
    second_true a b e = ground arith
