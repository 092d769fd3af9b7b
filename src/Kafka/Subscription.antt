-- ===== src/Kafka/Subscription.antt =====
-- The constructors and Subscribe of kafka/registration_saga_subscriber.go and
-- kafka/recovery_subscriber.go, and newBroker, Publish and the group of a consumer in
-- kafka/broker.go. Wrapping a payload and writing a message are parameters, and so are the headers
-- of the context.
use Prim.Native.String.{◌++◌}
use ofm_auth_service.Prelude.{
  ℕ, String, Bool, true, false, Option, none, some, List, [], ◌∷◌, ◌≡◌, refl, sym, ap, ◌∙◌, ◌||◌,
  if◌then◌else◌, exists_row, not,
}
use ofm_auth_service.Prelude.Text.{◌==◌, trim_space}
use ofm_auth_service.Action.{World, Reply, value, failure}
use ofm_auth_service.Broker.{Handled}
use ofm_auth_service.Kafka.Consumer.{
  Delivery, KafkaMessage, Fate, skipped, retried, committed, dead_lettered, stopped, aborted,
  run_pull_consumer,
}

-- newBroker: the error, if the list of brokers is empty.
unfoldable pub new_broker : List String → Option String
new_broker [] = some "kafka brokers are empty"
new_broker (b ∷ bs) = none

-- NewRegistrationSagaSubscriber: the error, if a dependency is nil.
unfoldable pub new_saga_subscriber : Bool → Bool → Bool → Option String
new_saga_subscriber true true true = none
new_saga_subscriber true true false = some "logger is nil"
new_saga_subscriber true false has_logger = some "auth service is nil"
new_saga_subscriber false has_service has_logger = some "event broker is nil"

-- NewAuthRecoverySubscriber
unfoldable pub new_recovery_subscriber : Bool → Bool → Bool → Option String
new_recovery_subscriber has_broker has_service has_logger =
    if not has_broker || not has_service || not has_logger
    then some "invalid auth recovery subscriber dependency"
    else none

-- The consumer group of RunPullConsumer, from the configuration's and the broker's.
unfoldable pub consumer_group : String → String → String → String
consumer_group configured group subject =
    if trim_space configured == ""
    then trim_space group ++ "-" ++ trim_space subject
    else trim_space configured

abbrev write_wrapped :
    (String → List ℕ)
    → (String → KafkaMessage → Option String)
    → List (String × String)
    → String
    → Reply String
    → Option String
write_wrapped sha256 write headers subject (failure e) = some e
write_wrapped sha256 write headers subject (value enveloped) =
    write subject (record { key = sha256 enveloped; body = enveloped; headers = headers })

-- Publish: the key is the hash of the envelope, and the headers are the context's outgoing ones.
unfoldable pub publish :
    (String → List ℕ)
    → (String → String → Reply String)
    → (String → KafkaMessage → Option String)
    → List (String × String)
    → String
    → String
    → Option String
publish sha256 wrap write headers subject payload =
    write_wrapped sha256 write headers subject (wrap subject payload)

-- How a consumer returns: with an error or nil, or by a panic of its handler.
pub data Return : Type 0 where
  returned : Option String → Return
  panicked_return : Return

-- What RunPullConsumer returns behind its messages; `last` is FetchMessage's error, which ends a loop
-- that no message ends.
unfoldable pub return_of : String → List (Delivery × Fate) → Return
return_of last [] = returned (some last)
return_of last ((m, dead_lettered r) ∷ rest) = returned none
return_of last ((m, stopped e) ∷ rest) = returned (some e)
return_of last ((m, aborted) ∷ rest) = panicked_return
return_of last ((m, skipped) ∷ rest) = return_of last rest
return_of last ((m, retried n) ∷ rest) = return_of last rest
return_of last ((m, committed) ∷ rest) = return_of last rest

abbrev pub is_dead_lettered : Delivery × Fate → Bool
is_dead_lettered (m, dead_lettered r) = true
is_dead_lettered (m, _) = false

-- What a Subscribe of the saga's subscriber has done with the messages of both topics.
pub record Subscribed : Type 0 where
  pub creates : List (Delivery × Fate)
  pub deletes : List (Delivery × Fate)
  pub result : Return

module _ (max_attempts : ℕ) (with_db : Bool) (create_topic delete_topic : String)
    (handle_create handle_delete : String → World → Handled × World) where
  -- The delete consumer, once the create consumer has returned.
  unfoldable pub then_deletes :
      List Delivery → String → List (Delivery × Fate) → Return → World → Subscribed × World
  then_deletes deletes last creates (returned none) w =
      let (fates, v) =
        run_pull_consumer max_attempts with_db delete_topic handle_delete deletes w in
      (record { creates = creates; deletes = fates; result = return_of last fates }, v)
  then_deletes deletes last creates (returned (some e)) w =
      (record { creates = creates; deletes = []; result = returned (some e) }, w)
  then_deletes deletes last creates panicked_return w =
      (record { creates = creates; deletes = []; result = panicked_return }, w)

  -- Subscribe, on the messages that are there to be fetched and the errors that end the fetching.
  unfoldable pub subscribe :
      List Delivery → String → List Delivery → String → World → Subscribed × World
  unfolding then_deletes
  subscribe creates last deletes last' w =
      let (fates, u) =
        run_pull_consumer max_attempts with_db create_topic handle_create creates w in
      then_deletes deletes last' fates (return_of last fates) u

  returned-none :
      (last : String) (fates : List (Delivery × Fate))
      → return_of last fates ≡ returned none
      → exists_row is_dead_lettered fates ≡ true
  unfolding return_of exists_row
  returned-none last [] e = absurd (cc e)
  returned-none last ((m, dead_lettered r) ∷ rest) e = refl
  returned-none last ((m, stopped x) ∷ rest) e = absurd (cc e)
  returned-none last ((m, aborted) ∷ rest) e = absurd (cc e)
  returned-none last ((m, skipped) ∷ rest) e = returned-none last rest e
  returned-none last ((m, retried n) ∷ rest) e = returned-none last rest e
  returned-none last ((m, committed) ∷ rest) e = returned-none last rest e

  then_deletes-waits :
      (deletes : List Delivery) (last last' : String) (creates : List (Delivery × Fate))
      (r : Return) (w : World)
      → return_of last' creates ≡ r
      → exists_row is_dead_lettered creates ≡ false
      → (then_deletes deletes last creates r w).0.deletes ≡ []
  unfolding then_deletes
  then_deletes-waits deletes last last' creates (returned none) w e h =
      absurd (cc (returned-none last' creates e, h))
  then_deletes-waits deletes last last' creates (returned (some x)) w e h = refl
  then_deletes-waits deletes last last' creates panicked_return w e h = refl

  then_deletes-creates :
      (deletes : List Delivery) (last : String) (creates : List (Delivery × Fate)) (r : Return)
      (w : World)
      → (then_deletes deletes last creates r w).0.creates ≡ creates
  unfolding then_deletes
  then_deletes-creates deletes last creates (returned none) w = refl
  then_deletes-creates deletes last creates (returned (some x)) w = refl
  then_deletes-creates deletes last creates panicked_return w = refl

  -- A Subscribe of the Kafka saga subscriber handles delete commands only behind a create command
  -- that was dead-lettered: if none was, it has fetched no delete command, however many there are.
  pub deletes_wait :
      (creates deletes : List Delivery) (last last' : String) (w : World)
      → exists_row is_dead_lettered (subscribe creates last deletes last' w).0.creates ≡ false
      → (subscribe creates last deletes last' w).0.deletes ≡ []
  unfolding subscribe
  deletes_wait creates deletes last last' w h =
      let (fates, u) =
        run_pull_consumer max_attempts with_db create_topic handle_create creates w in
      let end = return_of last fates in
      then_deletes-waits deletes last' last fates end u refl (
        ap (exists_row is_dead_lettered) (sym (then_deletes-creates deletes last' fates end u)) ∙ h)
