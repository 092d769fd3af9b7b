-- ===== src/Kafka/Consumer.antt =====
-- kafka/broker.go: the loop of RunPullConsumer over the messages that its reader fetches. The
-- broker, the table of claimed events and the envelopes are libraries: what each of them answers
-- about a message stands beside the message.
pub mod Accounting
use ofm_auth_service.Prelude.{
  ℕ, suc, String, Bool, true, false, Option, none, some, List, [], ◌∷◌, if◌then◌else◌, ltb, map,
}
use ofm_auth_service.Prelude.Int.{ℤ, pos}
use ofm_auth_service.Prelude.Text.{◌==◌, has_prefix}
use ofm_auth_service.Domain.{Time}
use ofm_auth_service.Action.{World, Reply, value, failure}
use ofm_auth_service.Broker.{Handled, handled, failed, failed_permanently, crashed}

-- A header, with what strconv.Atoi makes of its value.
pub record Header : Type 0 where
  pub key : String
  pub value : String
  pub number : Option ℤ

-- What is written to a topic.
pub record KafkaMessage : Type 0 where
  pub key : List ℕ
  pub body : String
  pub headers : List (String × String)

-- resilience.DLQRecord
pub record DlqRecord : Type 0 where
  pub original_key : List ℕ
  pub original_value : String
  pub original_topic : String
  pub original_partition : ℤ
  pub original_offset : ℤ
  pub attempts : ℕ
  pub error_class : String
  pub error : String
  pub failed_at : Time

-- A fetched message, with the libraries' answers about it.
pub record Delivery : Type 0 where
  pub key : List ℕ
  pub headers : List Header
  pub value : String
  pub partition : ℤ
  pub offset : ℤ
  pub claim : Reply Bool  -- idempotency.ClaimDB, which is asked only over a database
  pub unwrap : Reply String  -- commonevents.Unwrap
  pub enqueue : Option String  -- the error of the retry queue
  pub error_class : String  -- what `%T` makes of the cause of a dead letter
  pub now : Time  -- time.Now, for a dead letter
  pub marshal_dlq : DlqRecord → Reply String  -- resilience.MarshalDLQ
  pub dead_letter : KafkaMessage → Option String  -- the error of the dead-letter topic
  pub commit : Option String  -- the error of CommitMessages

-- What one run of the loop's body did with a message.
pub data Fate : Type 0 where
  skipped : Fate  -- claimed before, so neither handled nor committed
  retried : ℕ → Fate  -- put on the retry topic as this attempt, not committed
  committed : Fate
  dead_lettered : DlqRecord → Fate  -- the function returns, with a nil error
  stopped : String → Fate  -- the function returns this error
  aborted : Fate  -- the handler panicked

-- retryAttempt
abbrev attempt_of : Option ℤ → ℕ → ℕ
attempt_of (some (pos (suc n))) rest = suc n
attempt_of _ rest = rest

unfoldable pub retry_attempt : List Header → ℕ
retry_attempt [] = 1
retry_attempt (h ∷ hs) =
    let rest = retry_attempt hs in
    if h.key == "x-ofm-retry-attempt" then attempt_of h.number rest else rest

abbrev pub after : Option String → Fate → Fate
after none fate = fate
after (some e) fate = stopped e

-- The record of deadLetterMessage, and the message that it writes.
unfoldable pub dlq_record : String → Delivery → String → DlqRecord
unfolding retry_attempt
dlq_record subject m cause = record {
  original_key = m.key;
  original_value = m.value;
  original_topic = subject;
  original_partition = m.partition;
  original_offset = m.offset;
  attempts = retry_attempt m.headers;
  error_class = m.error_class;
  error = cause;
  failed_at = m.now;
}

abbrev pub dlq_message : Delivery → String → KafkaMessage
dlq_message m payload = record {
  key = m.key;
  body = payload;
  headers = map (λ h. (h.key, h.value)) m.headers;
}

abbrev pub write_dead_letter : Delivery → DlqRecord → Reply String → Fate
write_dead_letter m r (failure e) = stopped e
write_dead_letter m r (value payload) =
    after (m.dead_letter (dlq_message m payload)) (dead_lettered r)

-- deadLetterMessage
unfoldable pub to_dead_letters : String → Delivery → String → Fate
unfolding dlq_record
to_dead_letters subject m cause =
    let r = dlq_record subject m cause in write_dead_letter m r (m.marshal_dlq r)

-- resilience.DefaultRetryPolicy.MaxAttempts is the library's.
module _ (max_attempts : ℕ) (with_db : Bool) (subject : String)
    (handler : String → World → Handled × World) where
  -- What the handler gets: the whole message of a recovery command, else what was unwrapped.
  unfoldable pub handed : Delivery → String → String
  handed m payload = if has_prefix "migration.recovery.commands." subject then m.value else payload

  unfoldable pub after_handler : Delivery → Handled → Fate
  after_handler m handled = after m.commit committed
  after_handler m (failed e) =
      if ltb (retry_attempt m.headers) max_attempts
      then after m.enqueue (retried (suc (retry_attempt m.headers)))
      else to_dead_letters subject m e
  after_handler m (failed_permanently e) = to_dead_letters subject m e
  after_handler m crashed = aborted

  abbrev pub run_handler : Delivery → Reply String → World → Fate × World
  run_handler m (failure e) w = (to_dead_letters subject m e, w)
  run_handler m (value payload) w =
      let (r, w') = handler (handed m payload) w in (after_handler m r, w')

  abbrev pub claim_then : Delivery → Reply Bool → World → Fate × World
  claim_then m (failure e) w = (stopped e, w)
  claim_then m (value false) w = (skipped, w)
  claim_then m (value true) w = run_handler m m.unwrap w

  -- The body of the loop behind FetchMessage.
  unfoldable pub consume : Delivery → World → Fate × World
  unfolding after_handler
  consume m w = if with_db then claim_then m m.claim w else run_handler m m.unwrap w

  -- Whether the loop goes on.
  abbrev pub goes_on : Fate → Bool
  goes_on skipped = true
  goes_on (retried n) = true
  goes_on committed = true
  goes_on _ = false

  -- The messages that have been fetched so far, with their fates; the loop stops where one of them
  -- makes it return.
  unfoldable pub run_pull_consumer : List Delivery → World → List (Delivery × Fate) × World
  unfolding consume
  run_pull_consumer [] w = ([], w)
  run_pull_consumer (m ∷ ms) w =
      let (fate, w') = consume m w in
      let (fates, v) = run_pull_consumer ms w' in
      if goes_on fate then ((m, fate) ∷ fates, v) else ((m, fate) ∷ [], w')
