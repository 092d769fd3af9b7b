-- ===== src/Action/Quiet.antt =====
-- Calls that publish nothing, however they end: one rule for each way to build a call.
use ofm_auth_service.Prelude.{
  Bool, true, false, Option, none, some, ◌≡◌, refl, arith, ◌∙◌, if◌then◌else◌,
}
use ofm_auth_service.Domain.{Err}
use ofm_auth_service.Db.{DbError, Answer, answer, refuse, Statement}
use ofm_auth_service.Action.{
  Env, World, Outcome, ok, err, panicked, Action, continue, pure, throw, fail_if, or_err, or_error,
  ◌>>=◌, now_utc, new_uuid, read_random, execute, settle, guarded,
}

pub record IsQuiet {A : Type 0} (m : Action A) : Type 0 where
  pub at : (w : World) → (m w).1.sent ≡ w.sent

module _ {A : Type 0} where
  pub IsQuiet-pure : (a : A) → IsQuiet (pure a)
  unfolding pure
  IsQuiet-pure a = record { at = λ w. refl }

  pub IsQuiet-throw : (e : Err) → IsQuiet (throw {A = A} e)
  unfolding throw
  IsQuiet-throw e = record { at = λ w. refl }

  pub IsQuiet-or_error : (o : Option A) (e : Err) → IsQuiet (or_error o e)
  unfolding or_error
  IsQuiet-or_error none e = record { at = λ w. refl }
  IsQuiet-or_error (some a) e = record { at = λ w. refl }

  pub IsQuiet-or_err : (m : Action A) (e : Err) → IsQuiet m → IsQuiet (or_err m e)
  unfolding or_err
  IsQuiet-or_err m e k = record { at = λ w. k.at w }

  pub IsQuiet-if :
      (b : Bool) (m n : Action A) → IsQuiet m → IsQuiet n → IsQuiet (if b then m else n)
  IsQuiet-if true m n km kn = km
  IsQuiet-if false m n km kn = kn

pub IsQuiet-fail_if : (b : Bool) (e : Err) → IsQuiet (fail_if b e)
unfolding fail_if
IsQuiet-fail_if true e = record { at = λ w. refl }
IsQuiet-fail_if false e = record { at = λ w. refl }

module _ {A B : Type 0} where
  continue-sent :
      (r : Outcome A × World) (f : A → Action B)
      → ((a : A) → IsQuiet (f a))
      → (let (o, w) = r in continue o f w).1.sent ≡ r.1.sent
  continue-sent (ok a, w) f k = (k a).at w
  continue-sent (err e, w) f k = refl
  continue-sent (panicked, w) f k = refl

  pub IsQuiet-bind :
      (m : Action A) (f : A → Action B) → IsQuiet m → ((a : A) → IsQuiet (f a)) → IsQuiet (m >>= f)
  unfolding ◌>>=◌
  IsQuiet-bind m f km kf = record { at = λ w. continue-sent (m w) f kf ∙ km.at w }

module _ (env : Env) where
  pub IsQuiet-now_utc : IsQuiet (now_utc env)
  unfolding now_utc
  IsQuiet-now_utc = record { at = λ w. refl }

  pub IsQuiet-new_uuid : IsQuiet (new_uuid env)
  unfolding new_uuid
  IsQuiet-new_uuid = record { at = λ w. ground arith }

  pub IsQuiet-read_random : IsQuiet (read_random env)
  unfolding read_random
  IsQuiet-read_random = record { at = λ w. refl }

module _ {A : Type 0} (env : Env) where
  settle-sent :
      (translate : DbError → Err) (r : Answer A) (w : World)
      → (settle env translate r w).1.sent ≡ w.sent
  settle-sent translate (answer a db) w = refl
  settle-sent translate (refuse e) w = refl

  guarded-sent :
      (fault : Option DbError) (translate : DbError → Err) (m : Action A)
      → IsQuiet m
      → (w : World) → (guarded env fault translate m w).1.sent ≡ w.sent
  guarded-sent none translate m k w = k.at w
  guarded-sent (some e) translate m k w = refl

  pub IsQuiet-execute :
      (translate : DbError → Err) (s : Statement A) → IsQuiet (execute env translate s)
  unfolding execute
  IsQuiet-execute translate s = record {
    at = λ w.
        guarded-sent (env.fault w.tick) translate _
          (record { at = λ w'. settle-sent translate _ w' }) _;
  }

pub ruleset quiet_rules = (
  IsQuiet-pure, IsQuiet-throw, IsQuiet-or_error, IsQuiet-or_err, IsQuiet-if, IsQuiet-fail_if,
  IsQuiet-bind, IsQuiet-now_utc, IsQuiet-new_uuid, IsQuiet-read_random, IsQuiet-execute,
)
