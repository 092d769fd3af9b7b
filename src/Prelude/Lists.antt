-- ===== src/Prelude/Lists.antt =====
-- Lists as the tables and queues of the program use them: selection, update of the rows that
-- satisfy a test, and predicates on all rows.
use Prim.Native.Nat.{ℕ, zero, suc, ◌%◌}
use mathlib.Core.Bool.{Bool, false, ◌||◌}
use mathlib.Core.Option.{Option, none, some}
use mathlib.Core.List.{List, [], ◌∷◌}
use ofm_auth_service.Prelude.Tests.{if◌then◌else◌}

module _ {ℓ} {A : Type ℓ} where
  abbrev pub length : List A → ℕ
  length [] = 0
  length (x ∷ xs) = suc (length xs)

  abbrev pub get_elem? : List A → ℕ → Option A
  get_elem? [] i = none
  get_elem? (x ∷ xs) zero = some x
  get_elem? (x ∷ xs) (suc i) = get_elem? xs i

  -- The rows that satisfy a WHERE clause.
  unfoldable pub select : (A → Bool) → List A → List A
  select p [] = []
  select p (x ∷ xs) = let rest = select p xs in if p x then x ∷ rest else rest

  -- Whether some row satisfies it.
  unfoldable pub exists_row : (A → Bool) → List A → Bool
  exists_row p [] = false
  exists_row p (x ∷ xs) = p x || exists_row p xs

  -- The rows that satisfy it are rewritten, in place.
  unfoldable pub update_rows : (A → Bool) → (A → A) → List A → List A
  update_rows p f [] = []
  update_rows p f (x ∷ xs) = (if p x then f x else x) ∷ update_rows p f xs

  -- One of the rows, the index taken round the number of rows.
  unfoldable pub pick_row : ℕ → List A → Option A
  pick_row i [] = none
  pick_row i (x ∷ xs) = get_elem? (x ∷ xs) (i % suc (length xs))

  abbrev pub All {κ} : (A → Type κ) → List A → Type κ
  All P [] = Unit
  All P (x ∷ xs) = P x × All P xs
