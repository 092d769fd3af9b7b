-- ===== src/Wiring/Migrated.antt =====
-- The migrations of internal/fx/storage.go stand before the connection.
use ofm_auth_service.Prelude.{
  Option, none, some, List, [], ◌∷◌, ◌≡◌, ◌⊎◌, inl, inr, refl, sym, subst, ◌∙◌, All,
}
use ofm_auth_service.Storage.{run_migrations}
use ofm_auth_service.Wiring.{
  Part, config, logger, metrics, database, event_broker, translator, repository, service,
  saga_subscriber, recovery_subscriber, grpc_server, metrics_listener, start_log, migrations,
  saga_consumer, recovery_consumer, grpc_listener, needs, invokes, Process, call, StartError,
  storage_failed, behind, called, Hook,
}
use ofm_auth_service.Wiring.Container.{
  add_hook, Has, Wants, itself, through, Startup, at_start, Starts, construct, run, StartsTo, here,
  next,
}

-- What is called for the Invokes up to the migrations.
abbrev IsEarly : Part → Type 0
IsEarly config = Unit
IsEarly logger = Unit
IsEarly metrics = Unit
IsEarly metrics_listener = Unit
IsEarly start_log = Unit
IsEarly migrations = Unit
IsEarly database = ⊥
IsEarly event_broker = ⊥
IsEarly translator = ⊥
IsEarly repository = ⊥
IsEarly service = ⊥
IsEarly saga_subscriber = ⊥
IsEarly recovery_subscriber = ⊥
IsEarly grpc_server = ⊥
IsEarly saga_consumer = ⊥
IsEarly recovery_consumer = ⊥
IsEarly grpc_listener = ⊥

All-Has : {A : Type 0} (P : A → Type 0) (x : A) (xs : List A) → All P xs → Has x xs → P x
All-Has P x [] h m = absurd m
All-Has P x (y ∷ ys) h (inl e) = subst P (sym e) h.0
All-Has P x (y ∷ ys) h (inr m) = All-Has P x ys h.1 m

-- An early part takes early parts.
needs-IsEarly : (by : Part) → IsEarly by → All IsEarly (needs by)
unfolding needs
needs-IsEarly config h = tt
needs-IsEarly logger h = (tt, tt)
needs-IsEarly metrics h = (tt, tt)
needs-IsEarly metrics_listener h = (tt, (tt, (tt, tt)))
needs-IsEarly start_log h = (tt, tt)
needs-IsEarly migrations h = (tt, (tt, tt))
needs-IsEarly database h = absurd h
needs-IsEarly event_broker h = absurd h
needs-IsEarly translator h = absurd h
needs-IsEarly repository h = absurd h
needs-IsEarly service h = absurd h
needs-IsEarly saga_subscriber h = absurd h
needs-IsEarly recovery_subscriber h = absurd h
needs-IsEarly grpc_server h = absurd h
needs-IsEarly saga_consumer h = absurd h
needs-IsEarly recovery_consumer h = absurd h
needs-IsEarly grpc_listener h = absurd h

Wants-IsEarly : {part by : Part} → IsEarly by → Wants part by → IsEarly part
Wants-IsEarly h itself = h
Wants-IsEarly h (through by middle m w) =
    Wants-IsEarly (All-Has IsEarly middle (needs by) (needs-IsEarly by h) m) w

abbrev behind_migrations : List Part
behind_migrations = saga_consumer ∷ recovery_consumer ∷ grpc_listener ∷ []

-- The migrations are still to be run.
abbrev IsPending : List Part → Type 0
IsPending waiting =
    (waiting ≡ invokes)
    ⊎ (waiting ≡ start_log ∷ migrations ∷ behind_migrations)
    ⊎ (waiting ≡ migrations ∷ behind_migrations)

is_early : (early : Part) {part : Part} → early ≡ part → IsEarly early → IsEarly part
is_early early e h = subst IsEarly e h

head-IsEarly :
    (waiting later : List Part) (invoke : Part)
    → IsPending waiting
    → waiting ≡ invoke ∷ later
    → IsEarly invoke × ((IsPending later) ⊎ (invoke ≡ migrations))
head-IsEarly waiting later invoke (inl a) e =
    let same : invoke ∷ later ≡ invokes = sym e ∙ a in
    (is_early metrics_listener (cc same) tt, inl (inr (inl (cc same))))
head-IsEarly waiting later invoke (inr (inl b)) e =
    let same : invoke ∷ later ≡ start_log ∷ migrations ∷ behind_migrations = sym e ∙ b in
    (is_early start_log (cc same) tt, inl (inr (inr (cc same))))
head-IsEarly waiting later invoke (inr (inr c)) e =
    let same : invoke ∷ later ≡ migrations ∷ behind_migrations = sym e ∙ c in
    (is_early migrations (cc same) tt, inr (cc same))

-- Until the migrations have been run only early parts are called.
abbrev IsOrdered : Startup → Type 0
IsOrdered s = (All IsEarly s.parts × IsPending s.waiting) ⊎ Has migrations s.parts

module _ (p : Process) where
  -- If the migrations have been run, then without an error.
  abbrev IsRun : List Part → Type 0
  IsRun parts = Has migrations parts → run_migrations p.platform p.migrator p.cfg.db ≡ none

  behind-called :
      {A : Type 0} (wrap : A → StartError) (hook hook' : Option Hook) (o : Option A)
      → behind wrap hook o ≡ called hook'
      → o ≡ none
  behind-called wrap hook hook' none e = refl
  behind-called wrap hook hook' (some x) e = absurd (cc e)

  run_migrations-none :
      (hook : Option Hook)
      → call p migrations ≡ called hook
      → run_migrations p.platform p.migrator p.cfg.db ≡ none
  unfolding call
  run_migrations-none hook e = behind-called storage_failed none hook _ e

  called-IsRun :
      (part : Part) (parts : List Part) (hook : Option Hook)
      → IsRun parts
      → call p part ≡ called hook
      → IsRun (part ∷ parts)
  called-IsRun part parts hook h e (inl same) = run_migrations-none hook (rw same e)
  called-IsRun part parts hook h e (inr before) = h before

  Starts-IsOrdered : {s t : Startup} → IsOrdered s → Starts p s t → IsOrdered t
  Starts-IsOrdered {s} {t} (inr run_before)
        (construct part invoke later hook w wants new own takes ok is_t) =
      subst IsOrdered (sym is_t) (inr (inr run_before))
  Starts-IsOrdered {s} {t} (inl (early, pending))
        (construct part invoke later hook w wants new own takes ok is_t) =
      let (invoked, _) = head-IsEarly s.waiting later invoke pending w in
      subst IsOrdered (sym is_t) (inl ((Wants-IsEarly invoked wants, early), pending))
  Starts-IsOrdered {s} {t} (inr run_before) (run invoke later hook w takes ok is_t) =
      subst IsOrdered (sym is_t) (inr (inr run_before))
  Starts-IsOrdered {s} {t} (inl (early, pending)) (run invoke later hook w takes ok is_t) =
      let (invoked, rest) = head-IsEarly s.waiting later invoke pending w in
      let ordered : IsOrdered
          (record { parts = invoke ∷ s.parts; hooks = add_hook hook s.hooks; waiting = later }) =
        elim rest [ inl still ↦ inl ((invoked, early), still) | inr now ↦ inr (inl (sym now)) ] in
      subst IsOrdered (sym is_t) ordered

  Starts-IsRun : {s t : Startup} → IsRun s.parts → Starts p s t → IsRun t.parts
  Starts-IsRun {s} {t} h (construct part invoke later hook w wants new own takes ok is_t) =
      subst (λ (x : Startup). IsRun x.parts) (sym is_t) (called-IsRun part s.parts hook h ok)
  Starts-IsRun {s} {t} h (run invoke later hook w takes ok is_t) =
      subst (λ (x : Startup). IsRun x.parts) (sym is_t) (called-IsRun invoke s.parts hook h ok)

  StartsTo-IsOrdered : {s t : Startup} → IsOrdered s → StartsTo p s t → IsOrdered t
  StartsTo-IsOrdered h here = h
  StartsTo-IsOrdered h (next path step) = Starts-IsOrdered (StartsTo-IsOrdered h path) step

  StartsTo-IsRun : {s t : Startup} → IsRun s.parts → StartsTo p s t → IsRun t.parts
  StartsTo-IsRun h here = h
  StartsTo-IsRun h (next path step) = Starts-IsRun (StartsTo-IsRun h path) step

  unordered :
      (s : Startup) (part : Part)
      → ¬ IsEarly part
      → IsOrdered s
      → Has part s.parts
      → Has migrations s.parts
  unordered s part late (inl (early, _)) m = absurd (late (All-Has IsEarly part s.parts early m))
  unordered s part late (inr before) m = before

  -- In every state of a start that follows the container's rules, where a part that takes the
  -- connection, directly or through its parameters, or the connection itself has been constructed or
  -- run, the migrations have been run, and without an error.
  pub migrated_first :
      (s : Startup) (part : Part)
      → Wants database part
      → StartsTo p at_start s
      → Has part s.parts
      → Has migrations s.parts × (run_migrations p.platform p.migrator p.cfg.db ≡ none)
  migrated_first s part wants path m =
      let before =
        unordered s part (λ early. Wants-IsEarly early wants)
          (StartsTo-IsOrdered (inl (tt, inl refl)) path) m in
      (before, StartsTo-IsRun (λ h. absurd h) path before)
