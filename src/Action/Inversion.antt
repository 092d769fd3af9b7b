-- ===== src/Action/Inversion.antt =====
-- What a call that succeeded did: one lemma for each way to build a call.
use ofm_auth_service.Prelude.{
  ap, subst, Bool, true, false, Option, none, some, ◌≡◌, refl, arith, ◌⊎◌, inl, inr,
}
use ofm_auth_service.Domain.{Err}
use ofm_auth_service.Db.{Db, DbError, Answer, answer, refuse, Statement}
use ofm_auth_service.Action.{
  Env, World, Outcome, ok, err, panicked, Action, continue, catch_with, pure, fail_if, or_err,
  ◌>>=◌, request, execute, transaction, settle, guarded, conclude, commit_with, advance, with_db,
  succeeded, or_error,
}

module _ {A B : Type 0} where
  continue_ok :
      (r : Outcome A × World) (f : A → Action B) {b : B} {v : World}
      → (let (o, w) = r in continue o f w) ≡ (ok b, v)
      → (a : A) × (u : World) × (r ≡ (ok a, u)) × (f a u ≡ (ok b, v))
  continue_ok (ok a, w) f h = (a, w, refl, h)
  continue_ok (err e, w) f h = cc
  continue_ok (panicked, w) f h = cc

  pub bind-eq-ok :
      (m : Action A) (f : A → Action B) (w : World) {b : B} {v : World}
      → (m >>= f) w ≡ (ok b, v)
      → (a : A) × (u : World) × (m w ≡ (ok a, u)) × (f a u ≡ (ok b, v))
  unfolding ◌>>=◌
  bind-eq-ok m f w h = continue_ok (m w) f h

pub Outcome-cases :
    {A : Type 0} (r : Outcome A × World)
    → ((a : A) × (v : World) × (r ≡ (ok a, v))) ⊎ (succeeded r.0 ≡ false)
Outcome-cases (ok a, v) = inl (a, v, refl)
Outcome-cases (err e, v) = inr refl
Outcome-cases (panicked, v) = inr refl

pub fail_if-eq-ok :
    (b : Bool) (e : Err) (w : World) {u : Unit {0}} {v : World}
    → fail_if b e w ≡ (ok u, v)
    → (b ≡ false) × (v ≡ w)
unfolding fail_if
fail_if-eq-ok true e w h = ground arith
fail_if-eq-ok false e w h = ground arith

module _ {A : Type 0} where
  catch_ok :
      (r : Outcome A × World) (e : Err) {a : A} {v : World}
      → ◌≡◌ {A = Outcome A × World} (let (o, w) = r in (catch_with o e, w)) (ok a, v)
      → r ≡ (ok a, v)
  catch_ok (ok a, w) e h = h
  catch_ok (err x, w) e h = cc
  catch_ok (panicked, w) e h = cc

  pub or_err-eq-ok :
      (m : Action A) (e : Err) (w : World) {a : A} {v : World}
      → or_err m e w ≡ (ok a, v)
      → m w ≡ (ok a, v)
  unfolding or_err
  or_err-eq-ok m e w h = catch_ok (m w) e h

module _ (env : Env) {A : Type 0} where
  guarded_ok :
      (fault : Option DbError) (translate : DbError → Err) (m : Action A) (w : World) {a : A}
      {v : World}
      → guarded env fault translate m w ≡ (ok a, v)
      → m w ≡ (ok a, v)
  guarded_ok none translate m w h = h
  guarded_ok (some e) translate m w h = ground arith

  pub request-eq-ok :
      (translate : DbError → Err) (m : Action A) (w : World) {a : A} {v : World}
      → request env translate m w ≡ (ok a, v)
      → m (advance w) ≡ (ok a, v)
  unfolding request
  request-eq-ok translate m w h = guarded_ok (env.fault w.tick) translate m _ h

  settle_ok :
      (translate : DbError → Err) (r : Answer A) (w : World) {a : A} {v : World}
      → settle env translate r w ≡ (ok a, v)
      → (db : Db) × (r ≡ answer a db) × (v ≡ with_db db w)
  settle_ok translate (answer x db) w h = (db, ground arith, ground arith)
  settle_ok translate (refuse x) w h = ground arith

  -- A statement that succeeded gave an answer, and its tables are the new ones.
  pub execute-eq-ok :
      (translate : DbError → Err) (s : Statement A) (w : World) {a : A} {v : World}
      → execute env translate s w ≡ (ok a, v)
      → (db : Db) × (s (env.moment w.tick) w.db ≡ answer a db) × (v ≡ with_db db (advance w))
  unfolding execute
  execute-eq-ok translate s w h =
      settle_ok translate (s (env.moment w.tick) w.db) (advance w) (request-eq-ok translate _ w h)

  commit_with-ok :
      (translate : DbError → Err) (db : Db) (fault : Option DbError) (kept : Bool) (x : A)
      (w : World) {a : A} {v : World}
      → commit_with env translate db fault kept x w ≡ (ok a, v)
      → (x ≡ a) × (v ≡ w)
  commit_with-ok translate db none kept x w h = (ground arith, ground arith)
  commit_with-ok translate db (some e) true x w h = absurd (cc h)
  commit_with-ok translate db (some e) false x w h = absurd (cc h)

  -- What ended well went well before its Commit.
  pub conclude-ok :
      (translate : DbError → Err) (db : Db) (r : Outcome A × World) {a : A} {v : World}
      → conclude env translate db r ≡ (ok a, v)
      → (u : World) × (r ≡ (ok a, u)) × (v ≡ advance u)
  conclude-ok translate db (ok x, w) h =
      let (same, moved) = commit_with-ok translate db _ _ x (advance w) h in
      (w, ap (λ y. (ok y, w)) same, moved)
  conclude-ok translate db (err e, w) h = absurd (cc h)
  conclude-ok translate db (panicked, w) h = absurd (cc h)

  -- A request that computes nothing passes its value on.
  pub request-pure-eq-ok :
      (translate : DbError → Err) (x : A) (w : World) {a : A} {v : World}
      → request env translate (pure x) w ≡ (ok a, v)
      → (x ≡ a) × (v ≡ advance w)
  unfolding pure
  request-pure-eq-ok translate x w h =
      let e = request-eq-ok translate (pure x) w h in (ground arith, ground arith)

module _ (env : Env) {A : Type 0} where
  -- A transaction that succeeded is its body between two requests.
  pub transaction-eq-ok :
      (translate : DbError → Err) (body : Action A) (w : World) {a : A} {v : World}
      → transaction env translate body w ≡ (ok a, v)
      → (u : World) × (body (advance w) ≡ (ok a, u)) × (v ≡ advance u)
  unfolding transaction ◌>>=◌
  transaction-eq-ok translate body w {a} h =
      let (u, done, moved) = conclude-ok env translate w.db _ h in
      let (_, u', begun, rest) = bind-eq-ok (request env translate (pure tt)) _ w done in
      let (_, same) = request-pure-eq-ok env translate tt w begun in
      (u, subst (λ x. body x ≡ (ok a, u)) same rest, moved)

-- A value that was not lacking.
pub or_error-eq-ok :
    {A : Type 0} (o : Option A) (e : Err) (w : World) {a : A} {v : World}
    → or_error o e w ≡ (ok a, v)
    → o ≡ some a
unfolding or_error
or_error-eq-ok none e w h = absurd (cc h)
or_error-eq-ok (some a) e w h = cc h
