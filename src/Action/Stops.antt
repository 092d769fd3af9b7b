-- ===== src/Action/Stops.antt =====
-- What holds of the tables when a call does not succeed: one rule for each way to build a call.
-- The reason is the error that is returned, or none for a panic.
use ofm_auth_service.Prelude.{Bool, true, false, Option, none, some, ◌≡◌, sym, subst}
use ofm_auth_service.Domain.{Err}
use ofm_auth_service.Db.{Db, DbError}
use ofm_auth_service.Action.{
  Env, World, Outcome, ok, err, panicked, Action, continue, ◌>>=◌, transaction, conclude,
  commit_with, guarded, pure, advance, request,
}
use ofm_auth_service.Action.Keeps.{Keeps}
use ofm_auth_service.Action.Post.{Post, Post-reads}

abbrev pub Stops : {A : Type 0} → (Option Err → Db → Type 0) → Outcome A × World → Type 0
Stops E (ok a, v) = Unit
Stops E (err e, v) = E (some e) v.db
Stops E (panicked, v) = E none v.db

module _ {A : Type 0} where
  pub Stops-of-db :
      (E : Option Err → Db → Type 0) (r : Outcome A × World)
      → ((o : Option Err) → E o r.1.db)
      → Stops E r
  Stops-of-db E (ok a, v) h = tt
  Stops-of-db E (err e, v) h = h (some e)
  Stops-of-db E (panicked, v) h = h none

  pub Stops-mono :
      (D E : Option Err → Db → Type 0) (r : Outcome A × World)
      → ((o : Option Err) (d : Db) → D o d → E o d)
      → Stops D r
      → Stops E r
  Stops-mono D E (ok a, v) f h = tt
  Stops-mono D E (err e, v) f h = f (some e) v.db h
  Stops-mono D E (panicked, v) f h = f none v.db h

  -- A call that keeps the tables as they were at db.
  pub Stops-reads :
      (E : Option Err → Db → Type 0) (db : Db) (m : Action A) (u : World)
      → ((o : Option Err) → E o db)
      → u.db ≡ db
      → Keeps (λ d. d ≡ db) m
      → Stops E (m u)
  Stops-reads E db m u h e k = Stops-of-db E (m u) λ o. subst (E o) (sym (k.at u e)) (h o)

  pub Stops-transaction :
      (E : Option Err → Db → Type 0) (env : Env) (translate : DbError → Err) (body : Action A)
      (w : World)
      → ((o : Option Err) → E o w.db)
      → Post (λ _ u. (o : Option Err) → E o u.db) (body (advance w))
      → Stops E (transaction env translate body w)
  unfolding transaction request ◌>>=◌ pure
  Stops-transaction E env translate body w h k = concluded _ (begun (env.fault w.tick))
    where
      Q : A → World → Type 0
      Q a u = (o : Option Err) → E o u.db

      begun :
          (fault : Option DbError)
          → Post Q (
              let (o, u) = guarded env fault translate (pure tt) (advance w) in
              continue o (λ _. body) u)
      begun none = k
      begun (some e) = tt

      committed :
          (fault : Option DbError) (kept : Bool) (a : A) (u : World)
          → Q a u
          → Stops E (commit_with env translate w.db fault kept a (advance u))
      committed none kept a u q = tt
      committed (some e) true a u q = q _
      committed (some e) false a u q = h _

      concluded : (r : Outcome A × World) → Post Q r → Stops E (conclude env translate w.db r)
      concluded (ok a, u) q = committed _ _ a u q
      concluded (err e, u) q = h (some e)
      concluded (panicked, u) q = h none

module _ {A B : Type 0} where
  continue-Stops :
      (Q : A → World → Type 0) (E : Option Err → Db → Type 0) (f : A → Action B)
      (r : Outcome A × World)
      → Post Q r
      → Stops E r
      → ((a : A) (u : World) → Q a u → Stops E (f a u))
      → Stops E (let (o, w) = r in continue o f w)
  continue-Stops Q E f (ok a, w) q s k = k a w q
  continue-Stops Q E f (err e, w) q s k = s
  continue-Stops Q E f (panicked, w) q s k = s

  pub Stops-bind :
      (Q : A → World → Type 0) (E : Option Err → Db → Type 0) (m : Action A) (f : A → Action B)
      (w : World)
      → Post Q (m w)
      → Stops E (m w)
      → ((a : A) (u : World) → Q a u → Stops E (f a u))
      → Stops E ((m >>= f) w)
  unfolding ◌>>=◌
  Stops-bind Q E m f w q s k = continue-Stops Q E f (m w) q s k

-- Reading, then going on from the same tables.
pub Stops-after-reads :
    {A B : Type 0} (E : Option Err → Db → Type 0) (db : Db) (m : Action A) (f : A → Action B)
    (w : World)
    → ((o : Option Err) → E o db)
    → w.db ≡ db
    → Keeps (λ d. d ≡ db) m
    → ((a : A) (u : World) → u.db ≡ db → Stops E (f a u))
    → Stops E ((m >>= f) w)
Stops-after-reads E db m f w h e k next =
    Stops-bind (λ _ u. u.db ≡ db) E m f w (Post-reads db w e k) (Stops-reads E db m w h e k) next
