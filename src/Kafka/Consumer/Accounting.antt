-- ===== src/Kafka/Consumer/Accounting.antt =====
-- The fates of the messages of a run.
use ofm_auth_service.Prelude.{
  ℕ, String, Bool, true, false, Option, none, some, List, [], ◌∷◌, ◌≡◌, refl, arith, All, ltb, ◌≤◌,
  ◌⊎◌, inl, inr, if◌then◌else◌, suc, map, ltb→lt,
}
use ofm_auth_service.Action.{World, Reply, value, failure}
use ofm_auth_service.Broker.{Handled, handled, failed, failed_permanently, crashed}
use ofm_auth_service.Kafka.Consumer.{
  Delivery, Fate, skipped, retried, committed, dead_lettered, stopped, aborted, retry_attempt,
  after_handler, consume, goes_on, run_pull_consumer, after, to_dead_letters, run_handler,
  claim_then, DlqRecord, dlq_record, dlq_message, write_dead_letter, handed,
}

module _ (max_attempts : ℕ) (with_db : Bool) (subject : String)
    (handler : String → World → Handled × World) where
  -- The handler was run on the message, on what was unwrapped or on the whole of it, and ended so.
  abbrev pub IsRun : Delivery → Handled → Type 0
  IsRun m r =
      (raw : String) × (w : World) × (v : World) × (m.unwrap ≡ value raw)
      × (handler (handed max_attempts with_db subject handler m raw) w ≡ (r, v))

  -- The message was not to be read, or it failed for good or on its last attempt, with this error.
  abbrev pub IsFailed : Delivery → String → Type 0
  IsFailed m e =
      (m.unwrap ≡ failure e)
      ⊎ IsRun m (failed_permanently e)
      ⊎ (IsRun m (failed e) × (max_attempts ≤ retry_attempt m.headers))

  -- The record tells the message, where it stood, how often it was tried and the error.
  abbrev pub IsRecordOf : Delivery → String → DlqRecord → Type 0
  IsRecordOf m e r =
      (r.original_key ≡ m.key)
      × (r.original_value ≡ m.value)
      × (r.original_topic ≡ subject)
      × (r.original_partition ≡ m.partition)
      × (r.original_offset ≡ m.offset)
      × (r.attempts ≡ retry_attempt m.headers)
      × (r.error_class ≡ m.error_class)
      × (r.error ≡ e)
      × (r.failed_at ≡ m.now)

  dlq_record-IsRecordOf : (m : Delivery) (e : String) → IsRecordOf m e (dlq_record subject m e)
  unfolding dlq_record
  dlq_record-IsRecordOf m e = (refl, refl, refl, refl, refl, refl, refl, refl, refl)

  -- The record was marshalled, and the dead-letter topic took it under the message's key and headers.
  abbrev pub IsWritten : Delivery → DlqRecord → Type 0
  IsWritten m r =
      (payload : String) × (m.marshal_dlq r ≡ value payload)
      × (m.dead_letter (record {
        key = m.key;
        body = payload;
        headers = map (λ h. (h.key, h.value)) m.headers;
      })
          ≡ none)

  -- What a fate says of its message.
  abbrev pub IsJustified : Delivery × Fate → Type 0
  IsJustified (m, committed) = IsRun m handled × (m.commit ≡ none)
  IsJustified (m, retried n) =
      (e : String) × IsRun m (failed e)
      × (n ≡ suc (retry_attempt m.headers))
      × (n ≤ max_attempts)
      × (m.enqueue ≡ none)
  IsJustified (m, skipped) = (with_db ≡ true) × (m.claim ≡ value false)
  IsJustified (m, dead_lettered r) = (e : String) × IsFailed m e × IsRecordOf m e r × IsWritten m r
  IsJustified (m, stopped e) = Unit
  IsJustified (m, aborted) = IsRun m crashed

  to_dead_letters-IsJustified :
      (m : Delivery) (e : String) → IsFailed m e → IsJustified (m, to_dead_letters subject m e)
  unfolding to_dead_letters
  to_dead_letters-IsJustified m e why = marshalled (m.marshal_dlq r) refl
    where
      r : DlqRecord
      r = dlq_record subject m e

      written :
          (payload : String)
          → m.marshal_dlq r ≡ value payload
          → (o : Option String) → m.dead_letter (dlq_message m payload) ≡ o
          → IsJustified (m, after o (dead_lettered r))
      written payload c none d = (e, why, dlq_record-IsRecordOf m e, (payload, c, d))
      written payload c (some x) d = tt

      marshalled :
          (a : Reply String) → m.marshal_dlq r ≡ a → IsJustified (m, write_dead_letter m r a)
      marshalled (failure x) c = tt
      marshalled (value payload) c = written payload c (m.dead_letter (dlq_message m payload)) refl

  after_handler-IsJustified :
      (m : Delivery) (r : Handled)
      → IsRun m r
      → IsJustified (m, after_handler max_attempts with_db subject handler m r)
  unfolding after_handler
  after_handler-IsJustified m handled ran = after-committed m.commit refl
    where
      after-committed : (o : Option String) → m.commit ≡ o → IsJustified (m, after o committed)
      after-committed none c = (ran, c)
      after-committed (some e) c = tt
  after_handler-IsJustified m (failed e) ran =
      after-failed (ltb (retry_attempt m.headers) max_attempts) refl
    where
      after-retried :
          (o : Option String)
          → m.enqueue ≡ o
          → ltb (retry_attempt m.headers) max_attempts ≡ true
          → IsJustified (m, after o (retried (suc (retry_attempt m.headers))))
      after-retried none c t = (e, ran, refl, ltb→lt _ _ t, c)
      after-retried (some x) c t = tt

      after-failed :
          (b : Bool)
          → ltb (retry_attempt m.headers) max_attempts ≡ b
          → IsJustified (
            m,
            if b
                then after m.enqueue (retried (suc (retry_attempt m.headers)))
                else to_dead_letters subject m e,
          )
      after-failed true t = after-retried m.enqueue refl t
      after-failed false t = to_dead_letters-IsJustified m e (inr (inr (ran, ground arith)))
  after_handler-IsJustified m (failed_permanently e) ran =
      to_dead_letters-IsJustified m e (inr (inl ran))
  after_handler-IsJustified m crashed ran = ran

  run_handler-IsJustified :
      (m : Delivery) (r : Reply String) (w : World)
      → m.unwrap ≡ r
      → IsJustified (m, (run_handler max_attempts with_db subject handler m r w).0)
  run_handler-IsJustified m (failure e) w q = to_dead_letters-IsJustified m e (inl q)
  run_handler-IsJustified m (value raw) w q = after_handler-IsJustified m _ (raw, w, _, q, refl)

  claim_then-IsJustified :
      (m : Delivery) (w : World)
      → with_db ≡ true
      → (r : Reply Bool) → m.claim ≡ r
      → IsJustified (m, (claim_then max_attempts with_db subject handler m r w).0)
  claim_then-IsJustified m w t (failure e) q = tt
  claim_then-IsJustified m w t (value false) q = (t, q)
  claim_then-IsJustified m w t (value true) q = run_handler-IsJustified m m.unwrap w refl

  All-branch :
      (b : Bool) (x y : List (Delivery × Fate) × World)
      → All IsJustified x.0
      → All IsJustified y.0
      → All IsJustified (if b then x else y).0
  All-branch true x y h k = h
  All-branch false x y h k = k

  consume-IsJustified :
      (m : Delivery) (w : World)
      → IsJustified (m, (consume max_attempts with_db subject handler m w).0)
  unfolding consume
  consume-IsJustified m w = split with_db refl
    where
      split :
          (b : Bool)
          → with_db ≡ b
          → IsJustified (
            m,
            (if b
                then claim_then max_attempts with_db subject handler m m.claim w
                else run_handler max_attempts with_db subject handler m m.unwrap w).0,
          )
      split true t = claim_then-IsJustified m w t m.claim refl
      split false t = run_handler-IsJustified m m.unwrap w refl

  -- In every run of the loop, over any messages and whatever the libraries answer: a message is
  -- committed only if the handler returned no error for it; it is put on the retry topic only after
  -- an error, as the next attempt, which does not exceed the last one; it is dead-lettered only if
  -- it could not be unwrapped, failed permanently or failed on its last attempt, and the topic took
  -- a record that holds it, its topic, partition, offset and attempts and the error's text; and it is skipped only if it was claimed before.
  pub run_pull_consumer-IsJustified :
      (ms : List Delivery) (w : World)
      → All IsJustified (run_pull_consumer max_attempts with_db subject handler ms w).0
  unfolding run_pull_consumer
  run_pull_consumer-IsJustified [] w = tt
  run_pull_consumer-IsJustified (m ∷ ms) w =
      let fate = consume max_attempts with_db subject handler m w in
      let rest = run_pull_consumer max_attempts with_db subject handler ms fate.1 in
      All-branch (goes_on max_attempts with_db subject handler fate.0)
        ((m, fate.0) ∷ rest.0, rest.1) ((m, fate.0) ∷ [], fate.1)
        (consume-IsJustified m w, run_pull_consumer-IsJustified ms fate.1)
        (consume-IsJustified m w, tt)
