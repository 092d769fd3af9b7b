-- ===== src/Repository/Transactions/Serial.antt =====
-- The two actions of a call, one behind the other with nothing between, are the transaction of
-- repository.go.
use ofm_auth_service.Prelude.{◌≡◌, refl, ap, ◌∙◌, sym, arith}
use ofm_auth_service.Domain.{Credential}
use ofm_auth_service.Action.{
  Env, World, Outcome, ok, err, panicked, Action, continue, pure, request, transaction, conclude,
  ◌>>=◌, ◌>>◌,
}
use ofm_auth_service.Repository.{RefreshTokenMutationRow, rotate_body, revoke_body}
use ofm_auth_service.Repository.Translator.{translate_rotate_refresh_token_error}
use ofm_auth_service.Repository.Transactions.{
  Mutation, rotation, revocation, begin_mutation, finish_mutation, writes,
}
use ofm_auth_service.Repository.Transactions.Writes.{begin_mutation-reads}

module _ {A B C : Type 0} where
  continue_assoc :
      (r : Outcome A × World) (f : A → Action B) (g : B → Action C)
      → (let (o, w) = (let (o, w) = r in continue o f w) in continue o g w)
        ≡ (let (o, w) = r in continue o (λ a. f a >>= g) w)
  unfolding ◌>>=◌
  continue_assoc (ok a, w) f g = refl
  continue_assoc (err e, w) f g = refl
  continue_assoc (panicked, w) f g = refl

  bind_assoc :
      (m : Action A) (f : A → Action B) (g : B → Action C) (w : World)
      → ((m >>= f) >>= g) w ≡ (m >>= λ a. f a >>= g) w
  unfolding ◌>>=◌
  bind_assoc m f g w = continue_assoc (m w) f g

module _ (env : Env) where
  -- The statements between BeginTxx and Commit of a call.
  abbrev pub body : Mutation → Action Credential
  body (rotation p) = rotate_body env p
  body (revocation p) = revoke_body env p

  abbrev ended : World → Outcome Credential × World → Outcome Credential × World
  ended w = conclude env translate_rotate_refresh_token_error w.db

  writes_then :
      (call : Mutation) (w : World) (r : Outcome RefreshTokenMutationRow × World)
      → r.1.db ≡ w.db
      → (let (o, u) = r in continue o (finish_mutation env call) u)
        ≡ ended w (let (o, u) = r in continue o (writes env call) u)
  unfolding finish_mutation ◌>>=◌
  writes_then call w (ok row, u) same =
      ap (λ db. conclude env translate_rotate_refresh_token_error db (writes env call row u)) same
  writes_then call w (err e, u) same = ground (arith, same)
  writes_then call w (panicked, u) same = ground (arith, same)

  body_lem :
      (call : Mutation) (w : World)
      → (begin_mutation env call >>= writes env call) w
        ≡ (request env translate_rotate_refresh_token_error (pure tt) >> body call) w
  unfolding begin_mutation rotate_body revoke_body
  body_lem (rotation p) w = bind_assoc _ _ _ w
  body_lem (revocation p) w = bind_assoc _ _ _ w

  transaction_lem :
      (call : Mutation) (w : World)
      → transaction env translate_rotate_refresh_token_error (body call) w
        ≡ ended w ((begin_mutation env call >>= writes env call) w)
  unfolding transaction
  transaction_lem call w = ap (ended w) (sym (body_lem call w))

  -- A call's two actions with nothing between them are its transaction: the same result and the same
  -- state.
  pub begin_mutation-finish_mutation :
      (call : Mutation) (w : World)
      → (begin_mutation env call >>= finish_mutation env call) w
        ≡ transaction env translate_rotate_refresh_token_error (body call) w
  begin_mutation-finish_mutation call w =
      unfold ◌>>=◌ in
      (writes_then call w (begin_mutation env call w) (begin_mutation-reads env call w)
        ∙ sym (transaction_lem call w))
