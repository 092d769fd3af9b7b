-- ===== src/Action/Reaches.antt =====
-- Calls that succeed, with what holds behind them: the rules that show that a call gets through.
use ofm_auth_service.Prelude.{none, ◌≡◌, refl, ℕ}
use ofm_auth_service.Domain.{Err}
use ofm_auth_service.Db.{Db, DbError, answer, Statement}
use ofm_auth_service.Action.{
  Env, World, Outcome, ok, Action, ◌>>=◌, execute, transaction, advance, with_db,
}
use ofm_auth_service.Action.Post.{Post, Post-eq-ok}

-- No request to the database fails.
abbrev pub IsSound : Env → Type 0
IsSound env = (n : ℕ) → env.fault n ≡ none

abbrev pub Reaches : {A : Type 0} → (A → World → Type 0) → Outcome A × World → Type 0
Reaches {A} Q r = (a : A) × (v : World) × (r ≡ (ok a, v)) × Q a v

module _ {A : Type 0} (Q : A → World → Type 0) where
  -- A call that gets through has its postcondition.
  pub Reaches-Post :
      {R : A → World → Type 0} (r : Outcome A × World) → Reaches R r → Post Q r → Reaches Q r
  Reaches-Post r (a, v, e, k) h = (a, v, e, Post-eq-ok Q r h e)

  pub Reaches-execute :
      (env : Env) (translate : DbError → Err) (s : Statement A) (w : World) (a : A) (db : Db)
      → IsSound env
      → s (env.moment w.tick) w.db ≡ answer a db
      → Q a (with_db db (advance w))
      → Reaches Q (execute env translate s w)
  unfolding execute
  Reaches-execute env translate s w a db sound e q =
      (a, with_db db (advance w), rw (sound w.tick, e) refl, q)

  pub Reaches-transaction :
      (env : Env) (translate : DbError → Err) (body : Action A) (w : World)
      → IsSound env
      → Reaches (λ a u. Q a (advance u)) (body (advance w))
      → Reaches Q (transaction env translate body w)
  unfolding transaction ◌>>=◌
  Reaches-transaction env translate body w sound (a, u, e, q) =
      (a, advance u, rw (sound w.tick, e, sound u.tick) refl, q)

module _ {A B : Type 0} where
  pub Reaches-bind :
      (R : A → World → Type 0) (Q : B → World → Type 0) (m : Action A) (f : A → Action B)
      (w : World)
      → Reaches R (m w)
      → ((a : A) (u : World) → R a u → Reaches Q (f a u))
      → Reaches Q ((m >>= f) w)
  unfolding ◌>>=◌
  Reaches-bind R Q m f w (a, u, e, r) k = let (b, v, d, q) = k a u r in (b, v, rw e d, q)
