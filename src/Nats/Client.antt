-- ===== src/Nats/Client.antt =====
-- The calls of the NATS client library that the program makes. What they do is a parameter; a
-- state `S` stands for the client and the server.
pub mod Upsert
use ofm_auth_service.Prelude.{ℕ, String, Bool, true, false, Option, none, some, List}
use ofm_auth_service.Prelude.Int.{ℤ}
use ofm_auth_service.Domain.{Duration}
use ofm_auth_service.Nats.PullConsumer.{ConfigError}

-- nats.Name, nats.MaxReconnects, nats.UserInfo
pub data ConnectOption : Type 0 where
  name : String → ConnectOption
  max_reconnects : ℤ → ConnectOption
  user_info : String → String → ConnectOption

-- The fields of nats.StreamConfig that are set.
pub record StreamConfig : Type 0 where
  pub name : String
  pub subjects : List String
  pub storage : String
  pub retention : String
  pub replicas : ℕ
  pub max_age : Duration

-- The fields of nats.ConsumerConfig that are set.
pub record ConsumerConfig : Type 0 where
  pub durable : String
  pub filter_subject : String
  pub ack_policy : String
  pub ack_wait : Duration
  pub max_deliver : ℤ

-- A call that returns an error, `none` for nil, and leaves a state.
abbrev pub Call : Type 0 → Type 0
Call S = S → Option String × S

-- The context of FlushWithContext: the caller's, or one with this timeout on context.Background().
pub data FlushContext : Type 0 where
  callers_context : FlushContext
  timeout_context : Duration → FlushContext

-- Connect and Close of a connection, the JetStream context's methods, Publish and Flush.
pub record Client (S : Type 0) : Type 0 where
  pub connect : String → List ConnectOption → Call S
  pub close : S → S
  pub jet_stream : Call S
  pub add_stream : StreamConfig → Call S
  pub update_stream : StreamConfig → Call S
  pub add_consumer : String → ConsumerConfig → Call S
  pub update_consumer : String → ConsumerConfig → Call S
  pub pull_subscribe : String → String → String → Call S
  pub publish : String → String → Call S
  pub subscribe : String → (String → String → S → S) → Call S
  pub flush : FlushContext → Call S

-- The errors of nats/error.go and pkg/messaging/nats/error.go, with what they wrap.
pub data NatsError : Type 0 where
  empty_nats_url nil_logger nil_broker nil_auth_service nil_failure_reason_resolver : NatsError
  connect_error init_jet_stream_error flush_error : String → NatsError
  publish_error subscribe_error : String → String → NatsError
  ensure_stream_error : String → String → String → NatsError
  ensure_consumer_error : String → String → String → String → NatsError
  pull_subscriber_error : String → String → String → NatsError
  config_error : ConfigError → NatsError

-- A result or an error.
pub data Result (A : Type 0) : Type 0 where
  made : A → Result A
  refused : NatsError → Result A

-- `if err != nil { return wrap(err) }` behind a call.
abbrev pub try_ :
    {S A : Type 0} → Option String × S → (String → NatsError) → (S → Result A × S) → Result A × S
try_ (none, s) wrap k = k s
try_ (some e, s) wrap k = (refused (wrap e), s)

-- The same behind a call whose error asks for another call first.
abbrev pub try_or :
    {S A : Type 0}
    → Option String × S
    → Call S
    → (String → String → NatsError)
    → (S → Result A × S)
    → Result A × S
try_or (none, s) update wrap k = k s
try_or (some e, s) update wrap k = try_ (update s) (wrap e) k

-- `if test { return e }`
abbrev pub refuse_when : {S A : Type 0} → Bool → NatsError → (S → Result A × S) → S → Result A × S
refuse_when true e k s = (refused e, s)
refuse_when false e k s = k s
