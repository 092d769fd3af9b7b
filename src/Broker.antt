-- ===== src/Broker.antt =====
-- internal/presentation/event_broker/type.go and the commands that its transports receive
-- (nats/commands.go, and the same types in kafka/registration_saga_subscriber.go).
pub mod Publishing
use Prim.Native.String.{◌++◌}
use ofm_auth_service.Prelude.{String, Option, none, some}
use ofm_auth_service.Action.{Env, World, Message, publish}

pub record CreateAuthCommand : Type 0 where
  pub session_id : String
  pub client_id : String
  pub user_id : String
  pub email : String
  pub username : String
  pub password_hash : String
  pub saga_id : String

pub record DeleteAuthCommand : Type 0 where
  pub user_id : String
  pub saga_id : String

-- The texts of the errors of json.Unmarshal behind fmt.Errorf or the Wrap functions of nats/error.go.
unfoldable pub unmarshal_create_auth_command_error : String → String
unmarshal_create_auth_command_error e = "unmarshal create auth command: " ++ e

unfoldable pub unmarshal_delete_auth_command_error : String → String
unmarshal_delete_auth_command_error e = "unmarshal delete auth command: " ++ e

-- How a MessageHandler ends: with a nil error, with an error, with one that errors.As finds to be
-- a resilience.PermanentError, or by a panic.
pub data Handled : Type 0 where
  handled : Handled
  failed : String → Handled
  failed_permanently : String → Handled
  crashed : Handled

module _ (env : Env) where
  abbrev pub publish_then : Option String × World → (World → Handled × World) → Handled × World
  publish_then (none, w) k = k w
  publish_then (some e, w) k = (failed e, w)

  -- The handler returns what Publish returns.
  unfoldable pub publish_last : Message → World → Handled × World
  publish_last msg w = publish_then (publish env msg w) λ w'. (handled, w')

  -- An error of Publish is returned; otherwise the handler goes on.
  unfoldable pub publish_first : Message → (World → Handled × World) → World → Handled × World
  publish_first msg k w = publish_then (publish env msg w) k

  -- time.Now().UTC().Format(time.RFC3339Nano)
  abbrev pub timestamp : World → String
  timestamp w = env.format_time (env.clock w.tick)
