-- ===== src/Prelude/Ranking.antt =====
-- Termination by a rank, and by a weight where the rank stays.
use Prim.Native.Nat.{ℕ, zero, suc, ◌<◌}
use mathlib.Core.Path.{◌≡◌}
use mathlib.Core.Logic.{◌⊎◌, inl, inr}
use mathlib.Core.WellFounded.{Acc}
use native.Mathlib.Omega.{arith}

module _ {ℓ κ μ} {S : Type ℓ} (R : S → S → Type κ) (P : S → Type μ) (rank weight : S → ℕ) where
  -- From a state with P each step goes to one with P, of lower rank, or of the same and lighter.
  abbrev pub Descends : Type (ℓ ⊔ κ ⊔ μ)
  Descends =
      (s t : S)
      → P s
      → R t s
      → P t × ((rank t < rank s) ⊎ ((rank t ≡ rank s) × (weight t < weight s)))

  module _ (down : Descends) where
    lighter :
        (n : ℕ)
        → ((s : S) → P s → rank s < n → Acc R s)
        → (m : ℕ) (s : S) → P s
        → rank s < suc n
        → weight s < m
        → Acc R s
    lighter n lower zero s p r w = absurd (omega arith)
    lighter n lower (suc m) s p r w = Acc.intro s λ t next.
        let (p', d) = down s t p next in
        elim d [
          | inl less ↦ lower t p' (omega arith)
          | inr (same, less) ↦ lighter n lower m t p' (omega arith) (omega arith)
        ]

    below : (n : ℕ) (s : S) → P s → rank s < n → Acc R s
    below zero s p r = absurd (omega arith)
    below (suc n) s p r = lighter n (below n) (suc (weight s)) s p r (omega arith)

    pub Acc-of-Descends : (s : S) → P s → Acc R s
    Acc-of-Descends s p = below (suc (rank s)) s p (omega arith)
