-- ===== src/Repository/Transactions.antt =====
-- RotateRefreshToken and RevokeRefreshToken of repository.go side by side. A call is two actions on
-- the shared tables: up to the row that SELECT … FOR UPDATE returns, and from there to Commit. As
-- PostgreSQL documents, the lock on the two rows it returned keeps every other such SELECT waiting
-- until the transaction ends, and what a transaction writes is seen by others from its Commit on.
pub mod Writes
pub mod Tokens
pub mod Once
pub mod Serial
use ofm_auth_service.Prelude.{
  ℕ, String, Bool, true, false, ◌||◌, is_none, ◌≡◌, ◌≢◌, if◌then◌else◌, ◌==ℕ◌,
}
use ofm_auth_service.Domain.{
  Time, Credential, Err, RotateRefreshTokenParams, RevokeRefreshTokenParams,
}
use ofm_auth_service.Action.{Env, World, ok, err, Action, pure, request, ◌>>=◌, ◌>>◌, conclude}
use ofm_auth_service.Repository.{
  RefreshTokenMutationRow, load_refresh_token_for_mutation, rotate_writes, revoke_writes,
}
use ofm_auth_service.Repository.Translator.{translate_rotate_refresh_token_error}

pub data Mutation : Type 0 where
  rotation : RotateRefreshTokenParams → Mutation
  revocation : RevokeRefreshTokenParams → Mutation

abbrev pub presented_hash : Mutation → String
presented_hash (rotation p) = p.current_token_hash
presented_hash (revocation p) = p.current_token_hash

abbrev pub started_at : Mutation → Time
started_at (rotation p) = p.now
started_at (revocation p) = p.now

module _ (env : Env) where
  -- BeginTxx and loadRefreshTokenForMutation.
  unfoldable pub begin_mutation : Mutation → Action RefreshTokenMutationRow
  begin_mutation call = do
    request env translate_rotate_refresh_token_error (pure tt)
    load_refresh_token_for_mutation env (presented_hash call) (started_at call)

  abbrev pub writes : Mutation → RefreshTokenMutationRow → Action Credential
  writes (rotation p) = rotate_writes env p
  writes (revocation p) = revoke_writes env p

  -- The other statements and Commit, and the deferred Rollback where one of them fails.
  unfoldable pub finish_mutation : Mutation → RefreshTokenMutationRow → Action Credential
  finish_mutation call row w =
      conclude env translate_rotate_refresh_token_error w.db (writes call row w)

  -- Whether a Commit in this state goes through, with an error or without.
  abbrev pub goes_through : World → Bool
  goes_through w = is_none (env.fault w.tick) || env.commit_kept w.tick

-- How far a call has come: before its SELECT has returned, with the locks, or behind its Commit or
-- its Rollback. A Commit that reports an error may have gone through, and then the call is committed.
-- A call that is committed or rolled back holds no lock.
pub data Stage : Type 0 where
  waiting : Stage
  holding : RefreshTokenMutationRow → Stage
  committed : String → Stage  -- with the token that it has revoked
  rolled_back : Stage

-- The tables and the environment's clock, and the stage of each call.
pub record Shared : Type 0 where
  pub world : World
  pub stage : ℕ → Stage

-- No call has begun.
abbrev pub at_start : World → Shared
at_start w = record { world = w; stage = λ n. waiting }

abbrev pub set_stage : ℕ → Stage → (ℕ → Stage) → ℕ → Stage
set_stage n x stage m = if n ==ℕ m then x else stage m

-- No other call holds a lock on the row's token or on its owner.
abbrev pub IsUnlocked : ℕ → RefreshTokenMutationRow → Shared → Type 0
IsUnlocked n row s =
    (m : ℕ) (other : RefreshTokenMutationRow)
    → n ≢ m
    → s.stage m ≡ holding other
    → (other.refresh_token_id ≢ row.refresh_token_id)
      × (other.credential.user_id ≢ row.credential.user_id)

-- One action of one call.
pub data Interleaves (env : Env) (calls : ℕ → Mutation) (s t : Shared) : Type 0 where
  lock :
      (n : ℕ) (row : RefreshTokenMutationRow) (w : World)
      → s.stage n ≡ waiting
      → begin_mutation env (calls n) s.world ≡ (ok row, w)
      → IsUnlocked n row s
      → t ≡ record { world = w; stage = set_stage n (holding row) s.stage }
      → Interleaves env calls s t
  refuse :
      (n : ℕ) (e : Err) (w : World)
      → s.stage n ≡ waiting
      → begin_mutation env (calls n) s.world ≡ (err e, w)
      → t ≡ record { world = w; stage = set_stage n rolled_back s.stage }
      → Interleaves env calls s t
  commit :
      (n : ℕ) (row : RefreshTokenMutationRow) (c : Credential) (u : World)
      → s.stage n ≡ holding row
      → writes env (calls n) row s.world ≡ (ok c, u)
      → goes_through env u ≡ true
      → t ≡ record {
        world = (finish_mutation env (calls n) row s.world).1;
        stage = set_stage n (committed row.refresh_token_id) s.stage;
      }
      → Interleaves env calls s t
  undo :
      (n : ℕ) (row : RefreshTokenMutationRow)
      → s.stage n ≡ holding row
      → ((c : Credential) (u : World)
          → writes env (calls n) row s.world ≡ (ok c, u)
          → goes_through env u ≡ false)
      → t ≡ record {
        world = (finish_mutation env (calls n) row s.world).1;
        stage = set_stage n rolled_back s.stage;
      }
      → Interleaves env calls s t

-- From one state to another by actions of the calls.
pub data InterleavesTo (env : Env) (calls : ℕ → Mutation) (s : Shared) : Shared → Type 0 where
  here : InterleavesTo env calls s s
  then :
      {t u : Shared}
      → InterleavesTo env calls s t
      → Interleaves env calls t u
      → InterleavesTo env calls s u
