-- ===== src/Action/Refuses.antt =====
-- Calls that do not succeed and change no table.
use ofm_auth_service.Prelude.{false, ◌≡◌, refl}
use ofm_auth_service.Db.{Db}
use ofm_auth_service.Action.{World, Outcome, ok, err, panicked, Action, continue, ◌>>=◌, succeeded}

abbrev pub Refuses : {A : Type 0} → Db → Outcome A × World → Type 0
Refuses db r = (succeeded r.0 ≡ false) × (r.1.db ≡ db)

module _ {A B : Type 0} (db : Db) where
  continue-Refuses :
      (f : A → Action B) (r : Outcome A × World)
      → r.1.db ≡ db
      → ((a : A) (u : World) → u.db ≡ db → Refuses db (f a u))
      → Refuses db (let (o, w) = r in continue o f w)
  continue-Refuses f (ok a, w) h k = k a w h
  continue-Refuses f (err e, w) h k = (refl, h)
  continue-Refuses f (panicked, w) h k = (refl, h)

  -- Behind a call that changes no table comes one that refuses.
  pub Refuses-bind :
      (m : Action A) (f : A → Action B) (w : World)
      → (m w).1.db ≡ db
      → ((a : A) (u : World) → u.db ≡ db → Refuses db (f a u))
      → Refuses db ((m >>= f) w)
  unfolding ◌>>=◌
  Refuses-bind m f w h k = continue-Refuses f (m w) h k

  stop-Refuses :
      (f : A → Action B) (r : Outcome A × World)
      → Refuses db r
      → Refuses db (let (o, w) = r in continue o f w)
  stop-Refuses f (ok a, w) h = absurd (cc h.0)
  stop-Refuses f (err e, w) h = (refl, h.1)
  stop-Refuses f (panicked, w) h = (refl, h.1)

  -- What comes behind a call that refuses is not run.
  pub Refuses-first :
      (m : Action A) (f : A → Action B) (w : World) → Refuses db (m w) → Refuses db ((m >>= f) w)
  unfolding ◌>>=◌
  Refuses-first m f w h = stop-Refuses f (m w) h
