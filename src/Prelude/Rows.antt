-- ===== src/Prelude/Rows.antt =====
-- The lemmas on selection, update and predicates of rows that the tables' invariants use.
use mathlib.Core.Path.{◌≡◌, refl, subst, ap}
use mathlib.Core.Bool.{Bool, true, false}
use mathlib.Core.Option.{some, some-injective}
use mathlib.Core.List.{List, [], ◌∷◌}
use native.Mathlib.Omega.{arith}
use Prim.Native.Nat.{ℕ, zero, suc, ◌%◌, ◌<◌}
use Prim.Native.String.{String}
use ofm_auth_service.Prelude.Tests.{if◌then◌else◌}
use ofm_auth_service.Prelude.Text.{◌==◌}
use ofm_auth_service.Prelude.Lists.{
  length, get_elem?, select, exists_row, update_rows, pick_row, All,
}

module _ {ℓ} {A : Type ℓ} where
  -- No two rows have the same key.
  abbrev pub Unique : (A → String) → List A → Type 0
  Unique key [] = Unit
  Unique key (x ∷ xs) = (exists_row (λ y. key y == key x) xs ≡ false) × Unique key xs

  pub All-select {κ} :
      (P : A → Type κ) (p : A → Bool) (xs : List A) → All P xs → All P (select p xs)
  unfolding select
  All-select P p [] h = tt
  All-select P p (x ∷ xs) h = ground (arith, All-select P p xs h.1)

  pub All-update_rows {κ} :
      {P : A → Type κ} (p : A → Bool) (f : A → A) (xs : List A)
      → ((x : A) → P x → P (f x))
      → All P xs
      → All P (update_rows p f xs)
  unfolding update_rows
  All-update_rows p f [] k h = tt
  All-update_rows p f (x ∷ xs) k h = ground (arith, All-update_rows p f xs k h.1, k x h.0)

  pub All-mono {κ} : {P Q : A → Type κ} (xs : List A) → ((x : A) → P x → Q x) → All P xs → All Q xs
  All-mono [] k h = tt
  All-mono (x ∷ xs) k h = (k x h.0, All-mono xs k h.1)

  -- An update that keeps a test's answer on each row keeps its answer on the table.
  pub exists_row-update_rows :
      (q p : A → Bool) (f : A → A) (xs : List A)
      → ((x : A) → q (f x) ≡ q x)
      → exists_row q (update_rows p f xs) ≡ exists_row q xs
  unfolding exists_row update_rows
  exists_row-update_rows q p f [] k = refl
  exists_row-update_rows q p f (x ∷ xs) k = ground (arith, exists_row-update_rows q p f xs k, k x)

  -- What no row satisfies, no selected row does.
  pub exists_row-select_none :
      (q p : A → Bool) (xs : List A) → exists_row q xs ≡ false → exists_row q (select p xs) ≡ false
  unfolding exists_row select
  exists_row-select_none q p [] h = refl
  exists_row-select_none q p (x ∷ xs) h = ground (arith, exists_row-select_none q p xs)

  -- What some row satisfies, some selected row does, if all such rows are selected.
  pub exists_row-select_some :
      (q p : A → Bool) (xs : List A)
      → ((x : A) → q x ≡ true → p x ≡ true)
      → exists_row q xs ≡ true
      → exists_row q (select p xs) ≡ true
  unfolding exists_row select
  exists_row-select_some q p [] k h = h
  exists_row-select_some q p (x ∷ xs) k h = ground (arith, exists_row-select_some q p xs k, k x)

  pub Unique-select :
      (key : A → String) (p : A → Bool) (xs : List A) → Unique key xs → Unique key (select p xs)
  unfolding select
  Unique-select key p [] h = tt
  Unique-select key p (x ∷ xs) h =
      ground
        (arith, Unique-select key p xs h.1, exists_row-select_none (λ y. key y == key x) p xs h.0)

  key-if :
      (key : A → String) (b : Bool) (f : A → A) (x : A)
      → key (f x) ≡ key x
      → key (if b then f x else x) ≡ key x
  key-if key true f x e = e
  key-if key false f x e = refl

  pub Unique-update_rows :
      (key : A → String) (p : A → Bool) (f : A → A) (xs : List A)
      → ((x : A) → key (f x) ≡ key x)
      → Unique key xs
      → Unique key (update_rows p f xs)
  unfolding update_rows
  Unique-update_rows key p f [] k h = tt
  Unique-update_rows key p f (x ∷ xs) k h = rw (key-if key (p x) f x (k x)) (
    rw (exists_row-update_rows (λ y. key y == key x) p f xs (λ y. ap (λ s. s == key x) (k y))) h.0,
    Unique-update_rows key p f xs k h.1,
  )

  -- No row of an updated table satisfies a test that the update clears.
  pub exists_row-update_clears :
      (p : A → Bool) (f : A → A) (xs : List A)
      → ((x : A) → p (f x) ≡ false)
      → exists_row p (update_rows p f xs) ≡ false
  unfolding exists_row update_rows
  exists_row-update_clears p f [] k = refl
  exists_row-update_clears p f (x ∷ xs) k = ground (arith, exists_row-update_clears p f xs k, k x)

  -- Selection is empty exactly where no row satisfies the test.
  pub select_empty : (p : A → Bool) (xs : List A) → exists_row p xs ≡ false → select p xs ≡ []
  unfolding exists_row select
  select_empty p [] h = refl
  select_empty p (x ∷ xs) h = ground (arith, select_empty p xs)

  pub get_elem?-All {κ} :
      (P : A → Type κ) (xs : List A) (i : ℕ) {x : A} → All P xs → get_elem? xs i ≡ some x → P x
  get_elem?-All P [] i h e = cc
  get_elem?-All P (y ∷ xs) zero h e = subst P (some-injective y _ e) h.0
  get_elem?-All P (y ∷ xs) (suc i) h e = get_elem?-All P xs i h.1 e

  pub get_elem?-some : (xs : List A) (i : ℕ) → i < length xs → (x : A) × (get_elem? xs i ≡ some x)
  get_elem?-some [] i h = absurd (omega arith)
  get_elem?-some (x ∷ xs) zero h = (x, refl)
  get_elem?-some (x ∷ xs) (suc i) h = get_elem?-some xs i (omega arith)

  -- A picked row is one of the rows.
  pub pick_row-All {κ} :
      (P : A → Type κ) (i : ℕ) (xs : List A) {x : A} → All P xs → pick_row i xs ≡ some x → P x
  unfolding pick_row
  pick_row-All P i [] h e = cc
  pick_row-All P i (y ∷ xs) h e = get_elem?-All P (y ∷ xs) (i % suc (length xs)) h e

  -- From a table with rows one is picked.
  pub pick_row-some : (i : ℕ) (y : A) (xs : List A) → (x : A) × (pick_row i (y ∷ xs) ≡ some x)
  unfolding pick_row
  pick_row-some i y xs = get_elem?-some (y ∷ xs) (i % suc (length xs)) (grind arith)

  -- All selected rows satisfy the test.
  pub select-All : (p : A → Bool) (xs : List A) → All (λ x. p x ≡ true) (select p xs)
  unfolding select
  select-All p [] = tt
  select-All p (x ∷ xs) = ground (arith, select-All p xs)
