-- ===== src/Wiring/Stopping.antt =====
-- The OnStop hooks of internal/fx, in the order in which they run.
use ofm_auth_service.Prelude.{
  ℕ, zero, suc, Option, none, some, List, [], ◌∷◌, ◌≡◌, inl, inr, refl, arith, sym, subst,
}
use ofm_auth_service.Wiring.{
  Part, config, logger, metrics, database, event_broker, translator, repository, service,
  saga_subscriber, recovery_subscriber, grpc_server, metrics_listener, start_log, migrations,
  saga_consumer, recovery_consumer, grpc_listener, needs, Process, StartError, called, behind, call,
  provide_config, Hook, hook_of, sync_logger, cancel_metrics, close_database, close_broker,
  cancel_saga, cancel_recovery, shutdown_grpc,
}
use ofm_auth_service.Config.{load}
use ofm_auth_service.Grpc.Server.{new_server}
use ofm_auth_service.Wiring.Container.{
  Has, HasAll, Startup, at_start, Starts, construct, run, StartsTo, here, next, add_hook, hooks_of,
}

-- What is used until a hook has run, by the hook that ends it.
abbrev pub relies : Hook → List Hook
relies sync_logger = []
relies cancel_metrics = sync_logger ∷ []
relies close_database = sync_logger ∷ []
relies close_broker = close_database ∷ sync_logger ∷ []
relies cancel_saga = close_broker ∷ close_database ∷ sync_logger ∷ []
relies cancel_recovery = close_broker ∷ close_database ∷ sync_logger ∷ []
relies shutdown_grpc = close_database ∷ sync_logger ∷ []

behind-hook :
    {A : Type 0} (wrap : A → StartError) (own : Option Hook) (o : Option A) (hook : Option Hook)
    → behind wrap own o ≡ called hook
    → hook ≡ own
behind-hook wrap own none hook e = cc e
behind-hook wrap own (some x) hook e = absurd (cc e)

abbrev relied : Option Hook → List Hook
relied none = []
relied (some h) = relies h

-- Whatever a hook relies on is ended behind it.
abbrev pub IsSafeOrder : List Hook → Type 0
IsSafeOrder [] = Unit
IsSafeOrder (h ∷ hs) = HasAll (relies h) hs × IsSafeOrder hs

-- The hooks behind the first n, which have not been started.
abbrev pub drop : {A : Type 0} → ℕ → List A → List A
drop zero xs = xs
drop (suc n) [] = []
drop (suc n) (x ∷ xs) = drop n xs

drop-IsSafeOrder : (n : ℕ) (hooks : List Hook) → IsSafeOrder hooks → IsSafeOrder (drop n hooks)
drop-IsSafeOrder zero hooks h = h
drop-IsSafeOrder (suc n) [] h = h
drop-IsSafeOrder (suc n) (x ∷ hooks) h = drop-IsSafeOrder n hooks h.1

-- Every part has been called behind all that it takes.
abbrev IsClosed : List Part → Type 0
IsClosed [] = Unit
IsClosed (part ∷ parts) = HasAll (needs part) parts × IsClosed parts

HasAll-cons : {A : Type 0} (y : A) (xs ys : List A) → HasAll xs ys → HasAll xs (y ∷ ys)
HasAll-cons y [] ys h = tt
HasAll-cons y (x ∷ xs) ys h = (inr h.0, HasAll-cons y xs ys h.1)

closed-HasAll :
    (part : Part) (parts : List Part) → IsClosed parts → Has part parts → HasAll (needs part) parts
closed-HasAll part [] c m = absurd m
closed-HasAll part (first ∷ parts) c (inl e) =
    subst (λ x. HasAll (needs x) (first ∷ parts)) (sym e) (HasAll-cons first _ parts c.0)
closed-HasAll part (first ∷ parts) c (inr m) =
    HasAll-cons first _ parts (closed-HasAll part parts c.1 m)

add_hook-Has :
    (h : Hook) (o : Option Hook) (hooks : List Hook) → Has h hooks → Has h (add_hook o hooks)
add_hook-Has h none hooks m = m
add_hook-Has h (some x) hooks m = inr m

hooks_of-Has :
    (part : Part) (h : Hook) (parts : List Part)
    → hook_of part ≡ some h
    → Has part parts
    → Has h (hooks_of parts)
hooks_of-Has part h [] e m = absurd m
hooks_of-Has part h (first ∷ parts) e (inl same) = rw (← same, e) (inl refl)
hooks_of-Has part h (first ∷ parts) e (inr m) =
    add_hook-Has h (hook_of first) (hooks_of parts) (hooks_of-Has part h parts e m)

module _ (parts : List Part) (closed : IsClosed parts) where
  logger_stops : Has logger parts → Has sync_logger (hooks_of parts)
  unfolding hook_of
  logger_stops m = hooks_of-Has logger sync_logger parts refl m

  database_stops : Has database parts → HasAll (close_database ∷ sync_logger ∷ []) (hooks_of parts)
  unfolding hook_of needs
  database_stops m =
      let (_, (l, _)) = closed-HasAll database parts closed m in
      (hooks_of-Has database close_database parts refl m, (logger_stops l, tt))

  broker_stops :
      Has event_broker parts
      → HasAll (close_broker ∷ close_database ∷ sync_logger ∷ []) (hooks_of parts)
  unfolding hook_of needs
  broker_stops m =
      let (_, (d, _)) = closed-HasAll event_broker parts closed m in
      (hooks_of-Has event_broker close_broker parts refl m, database_stops d)

  service_stops : Has service parts → HasAll (close_database ∷ sync_logger ∷ []) (hooks_of parts)
  unfolding needs
  service_stops m =
      let (r, _) = closed-HasAll service parts closed m in
      let (d, _) = closed-HasAll repository parts closed r in database_stops d

  -- What the hook of a part relies on is there when the part is called.
  part_stops :
      (part : Part) → HasAll (needs part) parts → HasAll (relied (hook_of part)) (hooks_of parts)
  unfolding hook_of needs
  part_stops logger takes = tt
  part_stops database (_, (l, _)) = (logger_stops l, tt)
  part_stops event_broker (_, (d, _)) = database_stops d
  part_stops metrics_listener (_, (_, (l, _))) = (logger_stops l, tt)
  part_stops saga_consumer (s, _) =
      let (b, _) = closed-HasAll saga_subscriber parts closed s in broker_stops b
  part_stops recovery_consumer (s, _) =
      let (b, _) = closed-HasAll recovery_subscriber parts closed s in broker_stops b
  part_stops grpc_listener (g, _) =
      let (s, _) = closed-HasAll grpc_server parts closed g in service_stops s
  part_stops config takes = tt
  part_stops metrics takes = tt
  part_stops translator takes = tt
  part_stops repository takes = tt
  part_stops service takes = tt
  part_stops saga_subscriber takes = tt
  part_stops recovery_subscriber takes = tt
  part_stops grpc_server takes = tt
  part_stops start_log takes = tt
  part_stops migrations takes = tt

add_hook-IsSafeOrder :
    (o : Option Hook) (hooks : List Hook)
    → HasAll (relied o) hooks
    → IsSafeOrder hooks
    → IsSafeOrder (add_hook o hooks)
add_hook-IsSafeOrder none hooks r h = h
add_hook-IsSafeOrder (some x) hooks r h = (r, h)

hooks_of-IsSafeOrder : (parts : List Part) → IsClosed parts → IsSafeOrder (hooks_of parts)
hooks_of-IsSafeOrder [] c = tt
hooks_of-IsSafeOrder (part ∷ parts) c =
    add_hook-IsSafeOrder (hook_of part) (hooks_of parts) (part_stops parts c.1 part c.0)
      (hooks_of-IsSafeOrder parts c.1)

load-hook : (p : Process) (hook : Option Hook) → provide_config p ≡ called hook → hook ≡ none
unfolding provide_config load
load-hook p hook e = ground (arith, e)

-- A function that succeeds has appended its part's hook.
call-hook_of :
    (p : Process) (part : Part) (hook : Option Hook)
    → call p part ≡ called hook
    → hook ≡ hook_of part
unfolding call hook_of new_server
call-hook_of p config hook e = load-hook p hook e
call-hook_of p logger hook e = behind-hook _ _ _ hook e
call-hook_of p database hook e = behind-hook _ _ _ hook e
call-hook_of p event_broker hook e = behind-hook _ _ _ hook e
call-hook_of p repository hook e = behind-hook _ _ _ hook e
call-hook_of p service hook e = behind-hook _ _ _ hook e
call-hook_of p saga_subscriber hook e = behind-hook _ _ _ hook e
call-hook_of p recovery_subscriber hook e = behind-hook _ _ _ hook e
call-hook_of p migrations hook e = behind-hook _ _ _ hook e
call-hook_of p grpc_server hook e = cc e
call-hook_of p metrics hook e = cc e
call-hook_of p translator hook e = cc e
call-hook_of p metrics_listener hook e = cc e
call-hook_of p start_log hook e = cc e
call-hook_of p saga_consumer hook e = cc e
call-hook_of p recovery_consumer hook e = cc e
call-hook_of p grpc_listener hook e = cc e

-- Each function stands behind all that it takes, and the hooks are those of the parts.
abbrev IsBuilt : Startup → Type 0
IsBuilt s = IsClosed s.parts × (s.hooks ≡ hooks_of s.parts)

add_hook-IsBuilt :
    (p : Process) (s : Startup) (part : Part) (hook : Option Hook) (later : List Part)
    → IsBuilt s
    → HasAll (needs part) s.parts
    → call p part ≡ called hook
    → IsBuilt (record { parts = part ∷ s.parts; hooks = add_hook hook s.hooks; waiting = later })
add_hook-IsBuilt p s part hook later (closed, same) takes e =
    ((takes, closed), rw (call-hook_of p part hook e, same) refl)

Starts-IsBuilt : (p : Process) {s t : Startup} → IsBuilt s → Starts p s t → IsBuilt t
Starts-IsBuilt p {s} {t} h (construct part invoke later hook w wants new own takes ok is_t) =
    subst IsBuilt (sym is_t) (add_hook-IsBuilt p s part hook s.waiting h takes ok)
Starts-IsBuilt p {s} {t} h (run invoke later hook w takes ok is_t) =
    subst IsBuilt (sym is_t) (add_hook-IsBuilt p s invoke hook later h takes ok)

StartsTo-IsBuilt : (p : Process) {s t : Startup} → IsBuilt s → StartsTo p s t → IsBuilt t
StartsTo-IsBuilt p h here = h
StartsTo-IsBuilt p h (next path step) = Starts-IsBuilt p (StartsTo-IsBuilt p h path) step

-- In every state of a start that follows the container's rules, the OnStop hooks that were appended,
-- without those whose start was not reached, stand in an order in which a hook ends nothing that a
-- later one relies on: the consumers are cancelled before the broker is closed, the broker, the
-- consumers and the gRPC server are ended before the database is closed, and the logger is last of
-- these.
pub stop_order_safe :
    (p : Process) (s : Startup) (n : ℕ) → StartsTo p at_start s → IsSafeOrder (drop n s.hooks)
stop_order_safe p s n path =
    let (closed, same) = StartsTo-IsBuilt p (tt, refl) path in
    drop-IsSafeOrder n s.hooks (subst IsSafeOrder (sym same) (hooks_of-IsSafeOrder s.parts closed))
