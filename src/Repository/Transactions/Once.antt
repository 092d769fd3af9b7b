-- ===== src/Repository/Transactions/Once.antt =====
-- In every interleaving of rotations and revocations a stored token is revoked by one of them at most.
use ofm_auth_service.Prelude.{
  ℕ, String, true, false, List, ◌≡◌, ◌≢◌, ◌⊎◌, inl, inr, subst, sym, ap, ◌∙◌, arith, Bool-cases,
  exists_row, ◌==ℕ◌,
}
use ofm_auth_service.Domain.{Time, Err}
use ofm_auth_service.Db.{RefreshTokenRow, Postgres, Db}
use ofm_auth_service.Db.Statements.{is_live_token}
use ofm_auth_service.Db.Invariant.{IsCanonical}
use ofm_auth_service.Action.{Env, World, Outcome, err}
use ofm_auth_service.Repository.{RefreshTokenMutationRow}
use ofm_auth_service.Repository.Transactions.{
  Mutation, Stage, holding, committed, rolled_back, Shared, set_stage, at_start, Interleaves, lock,
  refuse, commit, undo, InterleavesTo, here, then, begin_mutation, finish_mutation, started_at,
  writes,
}
use ofm_auth_service.Repository.Transactions.Tokens.{
  AreReadBack, IsOpen-read, IsOpen-has_token, IsStep, IsWritten-IsStep,
}
use ofm_auth_service.Repository.Transactions.Writes.{
  IsOpen, has_token, begin_mutation-IsOpen, begin_mutation-reads, finish_mutation-IsWritten,
  conclude-undone,
}

set_stage-cases :
    (n : ℕ) (x : Stage) (stage : ℕ → Stage) (m : ℕ) (y : Stage)
    → set_stage n x stage m ≡ y
    → ((n ≡ m) × (x ≡ y)) ⊎ ((n ≢ m) × (stage m ≡ y))
set_stage-cases n x stage m y e = elim (Bool-cases (n ==ℕ m)) [
  | inl same ↦ inl (ground (arith, same), rw same at e)
  | inr other ↦ inr ((λ q. ground (arith, q, other)), rw other at e)
]

abbrev IsClosed : String → List RefreshTokenRow → Type 0
IsClosed id ts = (exists_row (is_live_token id) ts ≡ false) × (has_token id ts ≡ true)

-- The calls that hold a token are its only ones and it is open; a call that has committed is the only
-- one that has for its token, which is revoked.
record IsExclusive (pg : Postgres) (ts : List RefreshTokenRow) (stage : ℕ → Stage) : Type 0 where
  read_back : AreReadBack pg ts
  held :
      (n : ℕ) (row : RefreshTokenMutationRow)
      → stage n ≡ holding row
      → IsOpen row.refresh_token_id ts
  apart :
      (n m : ℕ) (row other : RefreshTokenMutationRow)
      → n ≢ m
      → stage n ≡ holding row
      → stage m ≡ holding other
      → other.refresh_token_id ≢ row.refresh_token_id
  spent : (n : ℕ) (id : String) → stage n ≡ committed id → IsClosed id ts
  once : (n m : ℕ) (id : String) → stage n ≡ committed id → stage m ≡ committed id → n ≡ m

-- A stage that the change does not make was there before.
set_stage-kept :
    (n : ℕ) (x : Stage) (stage : ℕ → Stage) (m : ℕ) (y : Stage)
    → x ≢ y
    → set_stage n x stage m ≡ y
    → stage m ≡ y
set_stage-kept n x stage m y d e = elim (set_stage-cases n x stage m y e) [
  | inl (_, q) ↦ absurd (d q)
  | inr (_, q) ↦ q
]

holding-injective :
    (row other : RefreshTokenMutationRow) → holding row ≡ holding other → row ≡ other
holding-injective row other e = cc

module _ (env : Env) (ts : List RefreshTokenRow) (stage : ℕ → Stage) (n : ℕ)
    (h : IsExclusive env.pg ts stage) where
  rolled_back-IsExclusive : IsExclusive env.pg ts (set_stage n rolled_back stage)
  rolled_back-IsExclusive =
      let kept = λ (m : ℕ) (y : Stage). set_stage-kept n rolled_back stage m y in
      record {
        read_back = h.read_back;
        held = λ m row e. h.held m row (kept m _ (λ q. cc q) e);
        apart = λ m k row other d e f.
            h.apart m k row other d (kept m _ (λ q. cc q) e) (kept k _ (λ q. cc q) f);
        spent = λ m id e. h.spent m id (kept m _ (λ q. cc q) e);
        once = λ m k id e f. h.once m k id (kept m _ (λ q. cc q) e) (kept k _ (λ q. cc q) f);
      }

  lock-IsExclusive :
      (row : RefreshTokenMutationRow)
      → IsOpen row.refresh_token_id ts
      → ((m : ℕ) (other : RefreshTokenMutationRow)
          → n ≢ m
          → stage m ≡ holding other
          → other.refresh_token_id ≢ row.refresh_token_id)
      → IsExclusive env.pg ts (set_stage n (holding row) stage)
  lock-IsExclusive row opened alone =
      let kept = λ (m : ℕ) (y : Stage). set_stage-kept n (holding row) stage m y in
      record {
        read_back = h.read_back;
        held = λ m other e. elim (set_stage-cases n (holding row) stage m _ e) [
          | inl (_, q) ↦
              subst (λ (x : RefreshTokenMutationRow). IsOpen x.refresh_token_id ts)
                (holding-injective row other q) opened
          | inr (_, q) ↦ h.held m other q
        ];
        apart = λ m k one other d e f.
            parted m k one other d (set_stage-cases n (holding row) stage m _ e)
              (set_stage-cases n (holding row) stage k _ f);
        spent = λ m id e. h.spent m id (kept m _ (λ q. cc q) e);
        once = λ m k id e f. h.once m k id (kept m _ (λ q. cc q) e) (kept k _ (λ q. cc q) f);
      }
    where
      parted :
          (m k : ℕ) (one other : RefreshTokenMutationRow)
          → m ≢ k
          → ((n ≡ m) × (holding row ≡ holding one)) ⊎ ((n ≢ m) × (stage m ≡ holding one))
          → ((n ≡ k) × (holding row ≡ holding other)) ⊎ ((n ≢ k) × (stage k ≡ holding other))
          → other.refresh_token_id ≢ one.refresh_token_id
      parted m k one other d (inl (a, q)) (inl (b, r)) = absurd (d (sym a ∙ b))
      parted m k one other d (inl (a, q)) (inr (b, r)) =
          subst (λ (x : RefreshTokenMutationRow). other.refresh_token_id ≢ x.refresh_token_id)
            (holding-injective row one q) (alone k other b r)
      parted m k one other d (inr (a, q)) (inl (b, r)) =
          subst (λ (x : RefreshTokenMutationRow). x.refresh_token_id ≢ one.refresh_token_id)
            (holding-injective row other r) (λ z. alone m one a q (sym z))
      parted m k one other d (inr (a, q)) (inr (b, r)) = h.apart m k one other d q r

  -- The other calls do not hold or spend the token of a call that holds one.
  alone-holding :
      (row : RefreshTokenMutationRow) (m : ℕ) (id : String)
      → stage n ≡ holding row
      → stage m ≡ committed id
      → id ≢ row.refresh_token_id
  alone-holding row m id e f q =
      let opened = h.held n row e in let (shut, _) = h.spent m id f in absurd (cc (opened, shut, q))

  commit-IsExclusive :
      (now : Time) (row : RefreshTokenMutationRow) (after : List RefreshTokenRow)
      → stage n ≡ holding row
      → IsStep env row.refresh_token_id now ts after
      → IsExclusive env.pg after (set_stage n (committed row.refresh_token_id) stage)
  commit-IsExclusive now row after e step =
      let id = row.refresh_token_id in
      let kept = λ (m : ℕ) (y : Stage). set_stage-kept n (committed id) stage m y in
      record {
        read_back = step.reads h.read_back;
        held = λ m other f. elim (set_stage-cases n (committed id) stage m _ f) [
          | inl (_, q) ↦ absurd (cc q)
          | inr (d, q) ↦
              step.opens other.refresh_token_id (h.apart n m row other d e q) (h.held m other q)
        ];
        apart = λ m k one other d f g.
            h.apart m k one other d (kept m _ (λ q. cc q) f) (kept k _ (λ q. cc q) g);
        spent = λ m x f. elim (set_stage-cases n (committed id) stage m _ f) [
          | inl (_, q) ↦ spent_by m x q
          | inr (d, q) ↦
              let (shut, there) = h.spent m x q in (step.closes x there shut, step.has x there)
        ];
        once = λ m k x f g.
            matched m k x (set_stage-cases n (committed id) stage m _ f)
              (set_stage-cases n (committed id) stage k _ g);
      }
    where
      spent_by :
          (m : ℕ) (x : String) → committed row.refresh_token_id ≡ committed x → IsClosed x after
      spent_by m x q =
          subst (λ i. IsClosed i after) (cc q)
            (step.clears, step.has row.refresh_token_id (IsOpen-has_token _ ts (h.held n row e)))

      matched :
          (m k : ℕ) (x : String)
          → ((n ≡ m) × (committed row.refresh_token_id ≡ committed x))
            ⊎ ((n ≢ m) × (stage m ≡ committed x))
          → ((n ≡ k) × (committed row.refresh_token_id ≡ committed x))
            ⊎ ((n ≢ k) × (stage k ≡ committed x))
          → m ≡ k
      matched m k x (inl (a, q)) (inl (b, r)) = sym a ∙ b
      matched m k x (inl (a, q)) (inr (b, r)) = absurd (alone-holding row k x e r (cc q))
      matched m k x (inr (a, q)) (inl (b, r)) = absurd (alone-holding row m x e q (cc r))
      matched m k x (inr (a, q)) (inr (b, r)) = h.once m k x q r

refused_db :
    (env : Env) (call : Mutation) (w : World) {e : Err} {v : World}
    → begin_mutation env call w ≡ (err e, v)
    → v.db ≡ w.db
refused_db env call w q =
    sym (ap (λ (r : Outcome RefreshTokenMutationRow × World). r.1.db) q)
    ∙ begin_mutation-reads env call w

module _ (env : Env) (canonical : IsCanonical env.pg) (calls : ℕ → Mutation) where
  -- The tables and stages of a state.
  abbrev IsSafe : Shared → Type 0
  IsSafe s = IsExclusive env.pg s.world.db.refresh_tokens s.stage

  Interleaves-IsSafe : {s t : Shared} → IsSafe s → Interleaves env calls s t → IsSafe t
  unfolding finish_mutation
  Interleaves-IsSafe {s} {t} h (lock n row w at e free is_t) =
      let (opened, same) = begin_mutation-IsOpen env (calls n) s.world w row e in
      subst IsSafe (sym is_t) (
        subst (λ ts. IsExclusive env.pg ts (set_stage n (holding row) s.stage))
          (sym (ap (λ (d : Db). d.refresh_tokens) same))
          (lock-IsExclusive env s.world.db.refresh_tokens s.stage n h row opened
            λ m other d q. (free m other d q).0))
  Interleaves-IsSafe {s} {t} h (refuse n e w at q is_t) = subst IsSafe (sym is_t) (
      subst (λ ts. IsExclusive env.pg ts (set_stage n rolled_back s.stage))
        (sym (ap (λ (d : Db). d.refresh_tokens) (refused_db env (calls n) s.world q)))
        (rolled_back-IsExclusive env s.world.db.refresh_tokens s.stage n h))
  Interleaves-IsSafe {s} {t} h (commit n row c u at q through is_t) =
      let opened = h.held n row at in
      let id = row.refresh_token_id in
      let step =
        IsWritten-IsStep env id (started_at (calls n)) s.world.db.refresh_tokens
          (finish_mutation env (calls n) row s.world).1.db.refresh_tokens
          (IsOpen-has_token id s.world.db.refresh_tokens opened)
          (finish_mutation-IsWritten env (calls n) row s.world u c canonical
            (IsOpen-read env.pg id s.world.db.refresh_tokens h.read_back opened) q through) in
      subst IsSafe (sym is_t) (
        commit-IsExclusive env s.world.db.refresh_tokens s.stage n h (started_at (calls n)) row _ at
          step)
  Interleaves-IsSafe {s} {t} h (undo n row at undone is_t) = subst IsSafe (sym is_t) (
      subst (λ ts. IsExclusive env.pg ts (set_stage n rolled_back s.stage))
        (sym (
          ap (λ (d : Db). d.refresh_tokens)
            (conclude-undone env s.world.db (writes env (calls n) row s.world) undone)))
        (rolled_back-IsExclusive env s.world.db.refresh_tokens s.stage n h))

  InterleavesTo-IsSafe : {s t : Shared} → IsSafe s → InterleavesTo env calls s t → IsSafe t
  InterleavesTo-IsSafe h here = h
  InterleavesTo-IsSafe h (then path x) = Interleaves-IsSafe (InterleavesTo-IsSafe h path) x

  start-IsSafe : (w : World) → AreReadBack env.pg w.db.refresh_tokens → IsSafe (at_start w)
  start-IsSafe w back = record {
    read_back = back;
    held = λ n row e. absurd (cc e);
    apart = λ n m row other d e f. absurd (cc e);
    spent = λ n id e. absurd (cc e);
    once = λ n m id e f. absurd (cc e);
  }

  -- Let PostgreSQL read the identifiers that it writes, and those of the stored tokens, as they are.
  -- In every state that rotations and revocations side by side reach from one where none has begun,
  -- at most one has committed on a stored token, and that token is revoked in the tables.
  pub committed_once :
      (w : World) (s : Shared) (n m : ℕ) (id : String)
      → AreReadBack env.pg w.db.refresh_tokens
      → InterleavesTo env calls (at_start w) s
      → n ≢ m
      → s.stage n ≡ committed id
      → (s.stage m ≢ committed id)
        × (exists_row (is_live_token id) s.world.db.refresh_tokens ≡ false)
  committed_once w s n m id back path d e =
      let safe = InterleavesTo-IsSafe (start-IsSafe w back) path in
      ((λ f. d (safe.once n m id e f)), (safe.spent n id e).0)
