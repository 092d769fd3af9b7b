-- ===== src/Wiring/Complete.antt =====
-- A start of internal/fx in which no function fails.
use ofm_auth_service.Prelude.{List, [], ◌∷◌, ◌≡◌, refl, arith}
use ofm_auth_service.Wiring.{
  Part, config, logger, metrics, database, event_broker, translator, repository, service,
  saga_subscriber, recovery_subscriber, grpc_server, metrics_listener, start_log, migrations,
  saga_consumer, recovery_consumer, grpc_listener, needs, invokes, Process, call, called, hook_of,
}
use ofm_auth_service.Wiring.Container.{
  hooks_of, Has, HasAll, Wants, itself, through, Startup, at_start, construct, run, StartsTo, here,
  next,
}

module _ (p : Process) (works : (part : Part) → call p part ≡ called (hook_of part)) where
  abbrev pub state : List Part → List Part → Startup
  state parts waiting = record { parts = parts; hooks = hooks_of parts; waiting = waiting }

  built :
      (part invoke : Part) (parts later : List Part)
      → Wants part invoke
      → ¬ Has part parts
      → ¬ Has part invokes
      → HasAll (needs part) parts
      → StartsTo p at_start (state parts (invoke ∷ later))
      → StartsTo p at_start (state (part ∷ parts) (invoke ∷ later))
  built part invoke parts later wants new own takes path =
      next path
        (construct part invoke later (hook_of part) refl wants new own takes (works part) refl)

  ran :
      (invoke : Part) (parts later : List Part)
      → HasAll (needs invoke) parts
      → StartsTo p at_start (state parts (invoke ∷ later))
      → StartsTo p at_start (state (invoke ∷ parts) later)
  ran invoke parts later takes path =
      next path (run invoke later (hook_of invoke) refl takes (works invoke) refl)

  abbrev pub first_parts : List Part
  first_parts = migrations ∷ start_log ∷ metrics_listener ∷ metrics ∷ logger ∷ config ∷ []

  migrated :
      StartsTo p at_start
        (state first_parts (saga_consumer ∷ recovery_consumer ∷ grpc_listener ∷ []))
  unfolding needs
  migrated = ran migrations _ _ (ground arith) (
      ran start_log _ _ (ground arith) (
        ran metrics_listener _ _ (ground arith) (
          built metrics metrics_listener _ _
            (through metrics_listener metrics (ground arith) itself) (λ h. ground arith)
            (λ h. ground arith) (ground arith)
            (built logger metrics_listener _ _
              (through metrics_listener logger (ground arith) itself) (λ h. ground arith)
              (λ h. ground arith) (ground arith)
              (built config metrics_listener _ _
                (through metrics_listener config (ground arith) itself) (λ h. ground arith)
                (λ h. ground arith) (ground arith) here)))))

  Wants-subscriber : Wants saga_subscriber saga_consumer
  unfolding needs
  Wants-subscriber = through saga_consumer saga_subscriber (ground arith) itself

  Wants-broker : Wants event_broker saga_consumer
  unfolding needs
  Wants-broker =
      through saga_consumer saga_subscriber (ground arith)
        (through saga_subscriber event_broker (ground arith) itself)

  Wants-service : Wants service saga_consumer
  unfolding needs
  Wants-service =
      through saga_consumer saga_subscriber (ground arith)
        (through saga_subscriber service (ground arith) itself)

  Wants-repository : Wants repository saga_consumer
  unfolding needs
  Wants-repository = through saga_consumer saga_subscriber (ground arith) (
      through saga_subscriber service (ground arith)
        (through service repository (ground arith) itself))

  Wants-translator : Wants translator saga_consumer
  unfolding needs
  Wants-translator = through saga_consumer saga_subscriber (ground arith) (
      through saga_subscriber service (ground arith) (
        through service repository (ground arith)
          (through repository translator (ground arith) itself)))

  Wants-database : Wants database saga_consumer
  unfolding needs
  Wants-database = through saga_consumer saga_subscriber (ground arith) (
      through saga_subscriber event_broker (ground arith)
        (through event_broker database (ground arith) itself))

  abbrev pub consuming_parts : List Part
  consuming_parts =
      saga_consumer ∷ saga_subscriber ∷ service ∷ repository ∷ translator ∷ event_broker ∷ database
      ∷ first_parts

  consuming : StartsTo p at_start (state consuming_parts (recovery_consumer ∷ grpc_listener ∷ []))
  unfolding needs
  consuming = ran saga_consumer _ _ (ground arith) (
      built saga_subscriber saga_consumer _ _ Wants-subscriber (λ h. ground arith)
        (λ h. ground arith) (ground arith)
        (built service saga_consumer _ _ Wants-service (λ h. ground arith) (λ h. ground arith)
          (ground arith)
          (built repository saga_consumer _ _ Wants-repository (λ h. ground arith)
            (λ h. ground arith) (ground arith)
            (built translator saga_consumer _ _ Wants-translator (λ h. ground arith)
              (λ h. ground arith) (ground arith)
              (built event_broker saga_consumer _ _ Wants-broker (λ h. ground arith)
                (λ h. ground arith) (ground arith)
                (built database saga_consumer _ _ Wants-database (λ h. ground arith)
                  (λ h. ground arith) (ground arith) migrated))))))

  abbrev pub all_parts : List Part
  all_parts =
      grpc_listener ∷ grpc_server ∷ recovery_consumer ∷ recovery_subscriber ∷ consuming_parts

  -- If no function fails, then the container's rules allow a start that runs every Invoke.
  pub start_completes : StartsTo p at_start (state all_parts [])
  unfolding needs
  start_completes = ran grpc_listener _ _ (ground arith) (
      built grpc_server grpc_listener _ _ (through grpc_listener grpc_server (ground arith) itself)
        (λ h. ground arith) (λ h. ground arith) (ground arith)
        (ran recovery_consumer _ _ (ground arith) (
          built recovery_subscriber recovery_consumer _ _
            (through recovery_consumer recovery_subscriber (ground arith) itself)
            (λ h. ground arith) (λ h. ground arith) (ground arith) consuming)))
