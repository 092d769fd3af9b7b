-- ===== src/Action/Post.antt =====
-- What holds when a call succeeds: one rule for each way to build a call, read forwards from a
-- known state. A call that fails or panics satisfies every postcondition, and a theorem that uses
-- one has the success as its hypothesis.
use ofm_auth_service.Prelude.{Bool, true, false, ◌≡◌, refl, subst, sym, ap, ◌∙◌}
use ofm_auth_service.Domain.{Err}
use ofm_auth_service.Db.{Db, DbError, answer, Statement}
use ofm_auth_service.Action.{
  Env, World, Outcome, ok, err, panicked, Action, continue, catch_with, fail_if, or_err, ◌>>=◌,
  execute, transaction, advance, with_db,
}
use ofm_auth_service.Action.Inversion.{execute-eq-ok, transaction-eq-ok}
use ofm_auth_service.Action.Keeps.{Keeps}

abbrev pub Post : {A : Type 0} → (A → World → Type 0) → Outcome A × World → Type 0
Post Q (ok a, v) = Q a v
Post Q (err e, v) = Unit
Post Q (panicked, v) = Unit

module _ {A : Type 0} where
  -- The postcondition of a call that is known to have succeeded.
  pub Post-eq-ok :
      (Q : A → World → Type 0) (r : Outcome A × World) {a : A} {v : World}
      → Post Q r
      → r ≡ (ok a, v)
      → Q a v
  Post-eq-ok Q r h e = subst (Post Q) e h

  pub Post-of-eq :
      (Q : A → World → Type 0) (r : Outcome A × World)
      → ((a : A) (v : World) → r ≡ (ok a, v) → Q a v)
      → Post Q r
  Post-of-eq Q (ok a, v) h = h a v refl
  Post-of-eq Q (err e, v) h = tt
  Post-of-eq Q (panicked, v) h = tt

  pub Post-or_err :
      (Q : A → World → Type 0) (m : Action A) (e : Err) (w : World)
      → Post Q (m w)
      → Post Q (or_err m e w)
  unfolding or_err
  Post-or_err Q m e w h = caught (m w) h
    where
      caught : (r : Outcome A × World) → Post Q r → Post Q (let (o, w') = r in (catch_with o e, w'))
      caught (ok a, v) k = k
      caught (err x, v) k = tt
      caught (panicked, v) k = tt

  pub Post-execute :
      (Q : A → World → Type 0) (env : Env) (translate : DbError → Err) (s : Statement A) (w : World)
      → ((a : A) (db : Db)
          → s (env.moment w.tick) w.db ≡ answer a db
          → Q a (with_db db (advance w)))
      → Post Q (execute env translate s w)
  Post-execute Q env translate s w h = Post-of-eq Q _ λ a v e.
      let (db, q, moved) = execute-eq-ok env translate s w e in subst (Q a) (sym moved) (h a db q)

  pub Post-transaction :
      (Q : A → World → Type 0) (env : Env) (translate : DbError → Err) (body : Action A) (w : World)
      → Post (λ a u. Q a (advance u)) (body (advance w))
      → Post Q (transaction env translate body w)
  Post-transaction Q env translate body w h = Post-of-eq Q _ λ a v e.
      let (u, done, moved) = transaction-eq-ok env translate body w e in
      subst (Q a) (sym moved) (Post-eq-ok (λ x y. Q x (advance y)) _ h done)

pub Post-fail_if :
    (Q : Unit {0} → World → Type 0) (b : Bool) (e : Err) (w : World)
    → (b ≡ false → Q tt w)
    → Post Q (fail_if b e w)
unfolding fail_if
Post-fail_if Q true e w h = tt
Post-fail_if Q false e w h = h refl

module _ {A B : Type 0} where
  continue-Post :
      (R : A → World → Type 0) (Q : B → World → Type 0) (f : A → Action B) (r : Outcome A × World)
      → Post R r
      → ((a : A) (u : World) → R a u → Post Q (f a u))
      → Post Q (let (o, w) = r in continue o f w)
  continue-Post R Q f (ok a, w) h k = k a w h
  continue-Post R Q f (err e, w) h k = tt
  continue-Post R Q f (panicked, w) h k = tt

  pub Post-bind :
      (R : A → World → Type 0) (Q : B → World → Type 0) (m : Action A) (f : A → Action B)
      (w : World)
      → Post R (m w)
      → ((a : A) (u : World) → R a u → Post Q (f a u))
      → Post Q ((m >>= f) w)
  unfolding ◌>>=◌
  Post-bind R Q m f w h k = continue-Post R Q f (m w) h k

-- A call that keeps every property of the tables leaves them equal.
pub Post-reads :
    {A : Type 0} {m : Action A} (db : Db) (u : World)
    → u.db ≡ db
    → Keeps (λ d. d ≡ db) m
    → Post (λ _ v. v.db ≡ db) (m u)
Post-reads db u e k = Post-of-eq _ _ λ a v q. sym (ap (λ r. r.1.db) q) ∙ k.at u e
