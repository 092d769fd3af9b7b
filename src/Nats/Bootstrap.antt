-- ===== src/Nats/Bootstrap.antt =====
-- pkg/messaging/nats/bootstrap.go: the connection and the streams of JetStream.
pub mod Streams
use ofm_auth_service.Prelude.{String, Bool, List, [], ◌∷◌, ◌*◌, not, if◌then◌else◌}
use ofm_auth_service.Prelude.Int.{pos, negsuc}
use ofm_auth_service.Prelude.Text.{◌!=◌}
use ofm_auth_service.Config.{NatsConfig}
use ofm_auth_service.Service.{second}
use ofm_auth_service.Nats.Client.{
  ConnectOption, name, max_reconnects, user_info, StreamConfig, Client, nil_logger, connect_error,
  init_jet_stream_error, ensure_stream_error, Result, made, try_, try_or, refuse_when,
}

-- The options of Connect; NewBroker of event_broker/nats builds the same.
unfoldable pub connect_options : NatsConfig → List ConnectOption
connect_options cfg =
    name "auth-service"
    ∷ max_reconnects (negsuc 0)
    ∷ (if cfg.user != "" then user_info cfg.user cfg.password ∷ [] else [])

abbrev stream : String → List String → StreamConfig
stream stream_name subjects = record {
  name = stream_name;
  subjects = subjects;
  storage = "file";
  retention = "limits";
  replicas = 1;
  max_age = pos (7 * 24 * 3600 * second);
}

abbrev pub events_stream : NatsConfig → StreamConfig
events_stream cfg = stream cfg.auth_events_stream (
    cfg.auth_created_subject ∷ cfg.saga_create_auth_result_subject
    ∷ cfg.saga_delete_auth_result_subject ∷ [])

abbrev pub saga_stream : NatsConfig → StreamConfig
saga_stream cfg =
    stream cfg.saga_commands_stream
      (cfg.saga_create_auth_subject ∷ cfg.saga_delete_auth_subject ∷ [])

abbrev pub mail_stream : NatsConfig → StreamConfig
mail_stream cfg = stream cfg.mail_commands_stream (cfg.mail_send_subject ∷ [])

module _ {S : Type 0} (client : Client S) where
  -- Connect
  unfoldable pub connect : NatsConfig → (S → Result (Unit {0}) × S) → S → Result (Unit {0}) × S
  unfolding connect_options
  connect cfg k s = try_ (client.connect cfg.url (connect_options cfg) s) connect_error k

  -- AddStream, or UpdateStream where that fails.
  unfoldable pub add_or_update :
      StreamConfig → (S → Result (Unit {0}) × S) → S → Result (Unit {0}) × S
  add_or_update stream_cfg k s =
      try_or (client.add_stream stream_cfg s) (client.update_stream stream_cfg)
        (ensure_stream_error stream_cfg.name) k

  -- The part of EnsureStream between Connect and the deferred Close.
  unfoldable pub ensure_streams : NatsConfig → S → Result (Unit {0}) × S
  unfolding add_or_update
  ensure_streams cfg s = try_ (client.jet_stream s) init_jet_stream_error (
      add_or_update (events_stream cfg)
        (add_or_update (mail_stream cfg) (add_or_update (saga_stream cfg) (λ s'. (made tt, s')))))

  abbrev closing : Result (Unit {0}) × S → Result (Unit {0}) × S
  closing (r, s) = (r, client.close s)

  -- EnsureStream
  unfoldable pub ensure_stream : Bool → NatsConfig → S → Result (Unit {0}) × S
  unfolding connect ensure_streams
  ensure_stream has_logger cfg =
      refuse_when (not has_logger) nil_logger (connect cfg (λ s. closing (ensure_streams cfg s)))
