-- ===== src/Action/Keeps.antt =====
-- What a call keeps of the tables, however it ends: one rule for each way to build a call.
use ofm_auth_service.Prelude.{Bool, true, false, Option, none, some, arith, if◌then◌else◌}
use ofm_auth_service.Domain.{Err}
use ofm_auth_service.Db.{Db, DbError, Moment, Answer, answer, refuse, Statement}
use ofm_auth_service.Action.{
  Env, World, Outcome, ok, err, panicked, Action, continue, pure, throw, fail_if, or_err, or_error,
  ◌>>=◌, now_utc, new_uuid, read_random, request, execute, transaction, settle, guarded, conclude,
  commit_with, ◌>>◌,
}

-- Holds of the tables that a statement leaves, if it leaves any.
abbrev pub Ensures : {A : Type 0} → (Db → Type 0) → Answer A → Type 0
Ensures P (answer a db) = P db
Ensures P (refuse e) = Unit

pub record StatementKeeps {A : Type 0} (P : Db → Type 0) (s : Statement A) : Type 0 where
  pub at : (m : Moment) (db : Db) → P db → Ensures P (s m db)

pub record Keeps {A : Type 0} (P : Db → Type 0) (m : Action A) : Type 0 where
  pub at : (w : World) → P w.db → P (m w).1.db

module _ {A : Type 0} {P : Db → Type 0} where
  pub Keeps-pure : (a : A) → Keeps P (pure a)
  unfolding pure
  Keeps-pure a = record { at = λ w h. h }

  pub Keeps-throw : (e : Err) → Keeps P (throw {A = A} e)
  unfolding throw
  Keeps-throw e = record { at = λ w h. h }

  pub Keeps-or_error : (o : Option A) (e : Err) → Keeps P (or_error o e)
  unfolding or_error
  Keeps-or_error none e = record { at = λ w h. h }
  Keeps-or_error (some a) e = record { at = λ w h. h }

  pub Keeps-or_err : (m : Action A) (e : Err) → Keeps P m → Keeps P (or_err m e)
  unfolding or_err
  Keeps-or_err m e k = record { at = λ w h. k.at w h }

  pub Keeps-if : (b : Bool) (m n : Action A) → Keeps P m → Keeps P n → Keeps P (if b then m else n)
  Keeps-if true m n km kn = km
  Keeps-if false m n km kn = kn

pub Keeps-fail_if : {P : Db → Type 0} (b : Bool) (e : Err) → Keeps P (fail_if b e)
unfolding fail_if
Keeps-fail_if true e = record { at = λ w h. h }
Keeps-fail_if false e = record { at = λ w h. h }

module _ {A B : Type 0} {P : Db → Type 0} where
  continue-Keeps :
      (r : Outcome A × World) (f : A → Action B)
      → ((a : A) → Keeps P (f a))
      → P r.1.db
      → P (let (o, w) = r in continue o f w).1.db
  continue-Keeps (ok a, w) f k h = (k a).at w h
  continue-Keeps (err e, w) f k h = h
  continue-Keeps (panicked, w) f k h = h

  pub Keeps-bind :
      (m : Action A) (f : A → Action B) → Keeps P m → ((a : A) → Keeps P (f a)) → Keeps P (m >>= f)
  unfolding ◌>>=◌
  Keeps-bind m f km kf = record { at = λ w h. continue-Keeps (m w) f kf (km.at w h) }

module _ {P : Db → Type 0} (env : Env) where
  pub Keeps-now_utc : Keeps P (now_utc env)
  unfolding now_utc
  Keeps-now_utc = record { at = λ w h. h }

  pub Keeps-new_uuid : Keeps P (new_uuid env)
  unfolding new_uuid
  Keeps-new_uuid = record { at = λ w h. ground arith }

  pub Keeps-read_random : Keeps P (read_random env)
  unfolding read_random
  Keeps-read_random = record { at = λ w h. h }

module _ {A : Type 0} (P : Db → Type 0) (env : Env) where
  settle_Keeps :
      (translate : DbError → Err) (r : Answer A) (w : World)
      → Ensures P r
      → P w.db
      → P (settle env translate r w).1.db
  settle_Keeps translate (answer a db) w e h = e
  settle_Keeps translate (refuse x) w e h = h

  commit_with-Keeps :
      (translate : DbError → Err) (db : Db) (fault : Option DbError) (kept : Bool) (a : A)
      (w : World)
      → P db
      → P w.db
      → P (commit_with env translate db fault kept a w).1.db
  commit_with-Keeps translate db none kept a w h k = k
  commit_with-Keeps translate db (some e) true a w h k = k
  commit_with-Keeps translate db (some e) false a w h k = h

  conclude-Keeps :
      (translate : DbError → Err) (db : Db) (r : Outcome A × World)
      → P db
      → P r.1.db
      → P (conclude env translate db r).1.db
  conclude-Keeps translate db (ok a, w) h k = commit_with-Keeps translate db _ _ a _ h k
  conclude-Keeps translate db (err e, w) h k = h
  conclude-Keeps translate db (panicked, w) h k = h

module _ {A : Type 0} {P : Db → Type 0} (env : Env) where
  guarded_Keeps :
      (fault : Option DbError) (translate : DbError → Err) (m : Action A)
      → Keeps P m
      → (w : World) → P w.db
      → P (guarded env fault translate m w).1.db
  guarded_Keeps none translate m k w h = k.at w h
  guarded_Keeps (some e) translate m k w h = h

  pub Keeps-request :
      (translate : DbError → Err) (m : Action A) → Keeps P m → Keeps P (request env translate m)
  unfolding request
  Keeps-request translate m k = record {
    at = λ w h. guarded_Keeps (env.fault w.tick) translate m k _ h;
  }

  pub Keeps-execute :
      (translate : DbError → Err) (s : Statement A)
      → StatementKeeps P s
      → Keeps P (execute env translate s)
  unfolding execute
  Keeps-execute translate s k = record {
    at = λ w h.
        guarded_Keeps (env.fault w.tick) translate _
          (record {
            at = λ w' h'.
                settle_Keeps P env translate (s (env.moment w.tick) w.db) w'
                  (k.at (env.moment w.tick) w.db h) h';
          })
          _ h;
  }

module _ {A : Type 0} {P : Db → Type 0} (env : Env) where
  pub Keeps-transaction :
      (translate : DbError → Err) (m : Action A) → Keeps P m → Keeps P (transaction env translate m)
  unfolding transaction
  Keeps-transaction translate m k = record {
    at = λ w h. conclude-Keeps P env translate w.db _ h (whole.at w h);
  }
    where
      whole : Keeps P (request env translate (pure tt) >> m)
      whole = Keeps-bind _ _ (Keeps-request env translate _ (Keeps-pure tt)) λ _. k

pub ruleset keeps_rules = (
  Keeps-pure, Keeps-throw, Keeps-or_error, Keeps-or_err, Keeps-if, Keeps-fail_if, Keeps-bind,
  Keeps-now_utc, Keeps-new_uuid, Keeps-read_random, Keeps-request, Keeps-execute, Keeps-transaction,
)
