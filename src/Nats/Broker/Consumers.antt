-- ===== src/Nats/Broker/Consumers.antt =====
-- What is true of a pull consumer that was started without an error.
use ofm_auth_service.Prelude.{String, Option, none, some, ◌≡◌, ◌≢◌, refl, sym, ap, ◌∙◌}
use ofm_auth_service.Domain.{Time}
use ofm_auth_service.Config.{NatsConfig, PullConsumerConfig}
use ofm_auth_service.Nats.PullConsumer.{validate, ConfigError, build_pull_consumer_config}
use ofm_auth_service.Nats.PullConsumer.Plan.{IsSound, validate-IsSound}
use ofm_auth_service.Nats.PullConsumer.Runtime.{Runtime, start}
use ofm_auth_service.Nats.Client.{
  Client, ConsumerConfig, NatsError, Result, made, refused, try_, try_or,
}
use ofm_auth_service.Nats.Client.Upsert.{Stores, IsStored, try_or-IsStored}
use ofm_auth_service.Nats.Broker.{
  consumer_config, create, run_validated, run_pull_consumer, and_then, subscribe_saga,
}

-- What the server does with the consumers of a stream: it stores what AddConsumer or UpdateConsumer
-- accepts, and neither a JetStream context nor a pull subscription changes one.
pub record KeepsConsumers {S : Type 0} (client : Client S)
    (stored : String → String → S → Option ConsumerConfig) : Type 0 where
  pub stores :
      (stream : String)
      → Stores
          (λ (c : ConsumerConfig). c.durable)
          (client.add_consumer stream)
          (client.update_consumer stream)
          (stored stream)
  pub context :
      (stream n : String) (s : S) → stored stream n (client.jet_stream s).1 ≡ stored stream n s
  pub subscribed :
      (stream n subject durable from : String) (s : S)
      → stored stream n (client.pull_subscribe subject durable from s).1 ≡ stored stream n s

module _ {S : Type 0} (client : Client S) (stored : String → String → S → Option ConsumerConfig)
    (server : KeepsConsumers client stored) where
  -- The consumer is on the server, and the others of its stream are as before.
  abbrev pub HasConsumer : PullConsumerConfig → S → S → Type 0
  HasConsumer cfg s v =
      (stored cfg.stream cfg.durable v ≡ some (consumer_config cfg))
      × ((n : String) → n ≢ cfg.durable → stored cfg.stream n v ≡ stored cfg.stream n s)

  subscribed-last :
      {A : Type 0} (cfg : PullConsumerConfig) (b a : A) (u v : S) (wrap : String → NatsError)
      (r : Option String × S)
      → client.pull_subscribe cfg.subject cfg.durable cfg.stream u ≡ r
      → try_ r wrap (λ x. (made b, x)) ≡ (made a, v)
      → (a ≡ b) × ((n : String) → stored cfg.stream n v ≡ stored cfg.stream n u)
  subscribed-last cfg b a u v wrap (some e, x) q h = absurd (cc h)
  subscribed-last {A = A} cfg b a u v wrap (none, x) q h = (
    cc h,
    λ n.
        ap (λ (y : Result A × S). stored cfg.stream n y.1) (sym h)
        ∙ ap (λ (y : Option String × S). stored cfg.stream n y.1) (sym q)
        ∙ server.subscribed cfg.stream n cfg.subject cfg.durable cfg.stream u,
  )

  behind_context :
      {A : Type 0} (cfg : PullConsumerConfig) (b a : A) (s v : S) (wrap : String → NatsError)
      (failed : String → String → NatsError) (last : String → NatsError) (r : Option String × S)
      → client.jet_stream s ≡ r
      → try_ r wrap (λ s1.
        try_or
          (client.add_consumer cfg.stream (consumer_config cfg) s1)
          (client.update_consumer cfg.stream (consumer_config cfg))
          failed
          λ s2.
            try_
              (client.pull_subscribe cfg.subject cfg.durable cfg.stream s2)
              last
              λ x. (made b, x))
        ≡ (made a, v)
      → (a ≡ b) × HasConsumer cfg s v
  unfolding consumer_config
  behind_context cfg b a s v wrap failed last (some e, s1) q h = absurd (cc h)
  behind_context cfg b a s v wrap failed last (none, s1) q h =
      let (u, has, keeps, h') : IsStored (λ (c : ConsumerConfig). c.durable) (stored cfg.stream)
          (consumer_config cfg) s1
          (λ s2.
            try_ (client.pull_subscribe cfg.subject cfg.durable cfg.stream s2) last
              λ x. (made b, x))
          a v =
        try_or-IsStored (λ (c : ConsumerConfig). c.durable) _ _ (stored cfg.stream)
          (server.stores cfg.stream) (consumer_config cfg) s1 v _ failed a h in
      let (same, over) = subscribed-last cfg b a u v last _ refl h' in
      (
        same,
        (
          over cfg.durable ∙ has,
          λ n ne.
              over n
              ∙ keeps n ne
              ∙ ap (λ (y : Option String × S). stored cfg.stream n y.1) (sym q)
              ∙ server.context cfg.stream n s,
        ),
      )

  run_validated-made :
      (cfg : PullConsumerConfig) (now : Time) (r : Runtime) (s v : S) (o : Option ConfigError)
      → validate cfg ≡ o
      → run_validated client cfg now o s ≡ (made r, v)
      → IsSound cfg × (r ≡ start cfg now) × HasConsumer cfg s v
  unfolding run_validated create
  run_validated-made cfg now r s v (some x) q e = absurd (cc e)
  run_validated-made cfg now r s v none q e =
      let (fresh, has) =
        behind_context cfg (start cfg now) r s v _ _ _ (client.jet_stream s) refl e in
      ((validate-IsSound cfg).0 q, fresh, has)

  run_pull_consumer-made :
      (cfg : PullConsumerConfig) (now : Time) (r : Runtime) (s v : S)
      → run_pull_consumer client cfg now s ≡ (made r, v)
      → IsSound cfg × (r ≡ start cfg now) × HasConsumer cfg s v
  unfolding run_pull_consumer
  run_pull_consumer-made cfg now r s v e = run_validated-made cfg now r s v (validate cfg) refl e

  -- The settings are sound, the server has the consumer, and the runtime is a fresh one.
  abbrev pub IsStarted : PullConsumerConfig → Time → Runtime → S → Type 0
  IsStarted cfg now r v =
      IsSound cfg
      × (r ≡ start cfg now)
      × (stored cfg.stream cfg.durable v ≡ some (consumer_config cfg))

  abbrev pub creates_config : NatsConfig → PullConsumerConfig
  creates_config cfg =
      build_pull_consumer_config cfg cfg.saga_create_auth_subject cfg.saga_create_auth_durable

  abbrev pub deletes_config : NatsConfig → PullConsumerConfig
  deletes_config cfg =
      build_pull_consumer_config cfg cfg.saga_delete_auth_subject cfg.saga_delete_auth_durable

  both-IsStarted :
      (cfg : NatsConfig) (now later : Time) (creates deletes : Runtime) (s v : S)
      (x : Result Runtime × S)
      → cfg.saga_create_auth_durable ≢ cfg.saga_delete_auth_durable
      → run_pull_consumer client (creates_config cfg) now s ≡ x
      → and_then client {B = Runtime × Runtime} x (λ r s1.
        and_then client {B = Runtime × Runtime}
          (run_pull_consumer client (deletes_config cfg) later s1)
          λ r' s2. (made (r, r'), s2))
        ≡ (made (creates, deletes), v)
      → IsStarted (creates_config cfg) now creates v
        × IsStarted (deletes_config cfg) later deletes v
  unfolding build_pull_consumer_config
  both-IsStarted cfg now later creates deletes s v (refused e, u) ne q h = absurd (cc h)
  both-IsStarted cfg now later creates deletes s v (made r, u) ne q h =
      second_started (run_pull_consumer client (deletes_config cfg) later u) refl h
    where
      second_started :
          (y : Result Runtime × S)
          → run_pull_consumer client (deletes_config cfg) later u ≡ y
          → and_then client {B = Runtime × Runtime} y (λ r' s2. (made (r, r'), s2))
            ≡ (made (creates, deletes), v)
          → IsStarted (creates_config cfg) now creates v
            × IsStarted (deletes_config cfg) later deletes v
      second_started (refused e, t) q2 h2 = absurd (cc h2)
      second_started (made r', t) q2 h2 =
          let (sound1, fresh1, (has1, _)) =
            run_pull_consumer-made (creates_config cfg) now r s u q in
          let (sound2, fresh2, (has2, keeps2)) =
            run_pull_consumer-made (deletes_config cfg) later r' u t q2 in
          let kept = keeps2 cfg.saga_create_auth_durable ne in
          ((sound1, cc (h2, fresh1), cc (h2, kept, has1)), (sound2, cc (h2, fresh2), cc (h2, has2)))

  -- If the server stores a consumer that it accepts and leaves those of other names, and if the two
  -- durable names differ, then a Subscribe of the saga's subscriber that returns no error has checked
  -- both configurations, which are sound, has left both consumers on the server as configured, and
  -- has started a fresh runtime for each.
  pub subscribe_saga_starts :
      (cfg : NatsConfig) (now later : Time) (creates deletes : Runtime) (s v : S)
      → cfg.saga_create_auth_durable ≢ cfg.saga_delete_auth_durable
      → subscribe_saga client cfg now later s ≡ (made (creates, deletes), v)
      → IsStarted (creates_config cfg) now creates v
        × IsStarted (deletes_config cfg) later deletes v
  unfolding subscribe_saga
  subscribe_saga_starts cfg now later creates deletes s v ne e =
      both-IsStarted cfg now later creates deletes s v _ ne refl e
