-- ===== src/Examples/Events/JetStream.antt =====
-- The bootstrap of the streams and the start of the saga's consumers, on a small server that keeps
-- lists and refuses to add a name twice.
use ofm_auth_service.Prelude.{
  String, true, false, Option, none, some, List, [], ◌∷◌, ◌≡◌, ◌≢◌, refl, arith, ◌&&◌,
  if◌then◌else◌, is_none, eq_iff, eq_refl, subst,
}
use ofm_auth_service.Prelude.Int.{pos}
use ofm_auth_service.Prelude.Text.{◌==◌}
use ofm_auth_service.Nats.PullConsumer.{validate, build_pull_consumer_config}
use ofm_auth_service.Nats.PullConsumer.Runtime.{Runtime, start}
use ofm_auth_service.Nats.Client.{Client, StreamConfig, ConsumerConfig, made}
use ofm_auth_service.Nats.Bootstrap.{ensure_stream}
use ofm_auth_service.Nats.Bootstrap.Streams.{
  KeepsStreams, HasNames, HasStreams, ensure_stream_stores,
}
use ofm_auth_service.Nats.Broker.{subscribe_saga, run_pull_consumer}
use ofm_auth_service.Nats.Broker.Consumers.{
  KeepsConsumers, IsStarted, creates_config, deletes_config, subscribe_saga_starts,
}
use ofm_auth_service.Examples.Events.{subjects}

record Server : Type 0 where
  streams : List StreamConfig
  consumers : List (String × ConsumerConfig)

abbrev find_stream : String → List StreamConfig → Option StreamConfig
find_stream n [] = none
find_stream n (c ∷ cs) = if c.name == n then some c else find_stream n cs

abbrev find_consumer : String → String → List (String × ConsumerConfig) → Option ConsumerConfig
find_consumer stream n [] = none
find_consumer stream n ((at, c) ∷ cs) =
    if at == stream && c.durable == n then some c else find_consumer stream n cs

abbrev stream_of : String → Server → Option StreamConfig
stream_of n s = find_stream n s.streams

abbrev consumer_of : String → String → Server → Option ConsumerConfig
consumer_of stream n s = find_consumer stream n s.consumers

abbrev put_stream : StreamConfig → Server → Server
put_stream c s = record s { streams = c ∷ s.streams }

abbrev put_consumer : String → ConsumerConfig → Server → Server
put_consumer stream c s = record s { consumers = (stream, c) ∷ s.consumers }

abbrev small_client : Client Server
small_client = record {
  connect = λ url options s. (none, s);
  close = λ s. s;
  jet_stream = λ s. (none, s);
  add_stream =
      λ c s. if is_none (stream_of c.name s) then (none, put_stream c s) else (some "in use", s);
  update_stream = λ c s. (none, put_stream c s);
  add_consumer = λ stream c s.
      if is_none (consumer_of stream c.durable s)
      then (none, put_consumer stream c s)
      else (some "in use", s);
  update_consumer = λ stream c s. (none, put_consumer stream c s);
  pull_subscribe = λ subject durable stream s. (none, s);
  publish = λ subject payload s. (none, s);
  subscribe = λ subject callback s. (none, s);
  flush = λ context s. (none, s);
}

stream_server : KeepsStreams small_client stream_of
stream_server = record {
  stores = record {
    added = λ c s t e. ground (arith, eq_refl c.name);
    updated = λ c s t e. ground (arith, eq_refl c.name);
    others_added = λ c n s ne. ground (arith, eq_iff c.name n);
    others_updated = λ c n s ne. ground (arith, eq_iff c.name n);
  };
  outlives = λ n s. refl;
}

consumer_server : KeepsConsumers small_client consumer_of
consumer_server = record {
  stores = λ stream. record {
    added = λ c s t e. ground (arith, eq_refl c.durable, eq_refl stream);
    updated = λ c s t e. ground (arith, eq_refl c.durable, eq_refl stream);
    others_added = λ c n s ne. ground (arith, eq_iff c.durable n);
    others_updated = λ c n s ne. ground (arith, eq_iff c.durable n);
  };
  context = λ stream n s. refl;
  subscribed = λ stream n subject durable from s. refl;
}

abbrev empty_server : Server
empty_server = record { streams = []; consumers = [] }

differ : (a b : String) → (a == b) ≡ false → a ≢ b
differ a b h e = absurd (cc (h, subst (λ x. (a == x) ≡ true) e (eq_refl a)))

names_differ : HasNames small_client stream_of stream_server subjects
names_differ = (differ "AUTH" "MAIL" refl, differ "AUTH" "SAGA" refl, differ "MAIL" "SAGA" refl)

abbrev after_bootstrap : Server
after_bootstrap = (ensure_stream small_client true subjects empty_server).1

bootstrapped : ensure_stream small_client true subjects empty_server ≡ (made tt, after_bootstrap)
unfolding ensure_stream
bootstrapped = refl

ensure_stream_stores_example :
    HasStreams small_client stream_of stream_server subjects after_bootstrap
ensure_stream_stores_example =
    ensure_stream_stores small_client stream_of stream_server true subjects empty_server
      after_bootstrap names_differ bootstrapped

abbrev after_subscribe : Server
after_subscribe = (subscribe_saga small_client subjects (pos 0) (pos 1) empty_server).1

abbrev creates : Runtime
creates = start (creates_config small_client consumer_of consumer_server subjects) (pos 0)

abbrev deletes : Runtime
deletes = start (deletes_config small_client consumer_of consumer_server subjects) (pos 1)

subscribed :
    subscribe_saga small_client subjects (pos 0) (pos 1) empty_server
    ≡ (made (creates, deletes), after_subscribe)
unfolding subscribe_saga run_pull_consumer validate build_pull_consumer_config
subscribed = refl

subscribe_saga_starts_example :
    IsStarted small_client consumer_of consumer_server
      (creates_config small_client consumer_of consumer_server subjects)
      (pos 0)
      creates
      after_subscribe
    × IsStarted small_client consumer_of consumer_server
        (deletes_config small_client consumer_of consumer_server subjects)
        (pos 1)
        deletes
        after_subscribe
subscribe_saga_starts_example =
    subscribe_saga_starts small_client consumer_of consumer_server subjects (pos 0) (pos 1) creates
      deletes empty_server after_subscribe (differ "auth-create" "auth-delete" refl) subscribed
