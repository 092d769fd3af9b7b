-- ===== src/Nats/PullConsumer/Plan.antt =====
-- What a validated configuration gives the fetcher.
use ofm_auth_service.Prelude.{true, Option, none, List, [], ◌∷◌, ◌≡◌, ◌≢◌, ◌↔◌, arith, eq_iff}
use ofm_auth_service.Prelude.Int.{ℤ, pos, ◌<ℤ◌, ◌≤ℤ◌}
use ofm_auth_service.Domain.{Time}
use ofm_auth_service.Config.{PullConsumerConfig, PullAdaptiveConfig}
use ofm_auth_service.Nats.PullConsumer.{
  validate, validate_adaptive, PullPlan, resolve_pull_plan, FetchState, first_state,
  maybe_update_adaptive_plan,
}

pub record IsSoundAdaptive (a : PullAdaptiveConfig) : Type 0 where
  pub check_interval : pos 0 <ℤ a.check_interval
  pub medium_pending : pos 0 ≤ℤ a.medium_pending
  pub high_pending : a.medium_pending <ℤ a.high_pending
  pub low_batch_size : pos 0 <ℤ a.low_batch_size
  pub low_max_wait : pos 0 <ℤ a.low_max_wait
  pub medium_batch_size : pos 0 <ℤ a.medium_batch_size
  pub medium_max_wait : pos 0 <ℤ a.medium_max_wait
  pub high_batch_size : pos 0 <ℤ a.high_batch_size
  pub high_max_wait : pos 0 <ℤ a.high_max_wait

-- What the consumer's runtime relies on.
pub record IsSound (cfg : PullConsumerConfig) : Type 0 where
  pub stream : cfg.stream ≢ ""
  pub subject : cfg.subject ≢ ""
  pub durable : cfg.durable ≢ ""
  pub batch_size : pos 0 <ℤ cfg.batch_size
  pub max_wait : pos 0 <ℤ cfg.max_wait
  pub workers : pos 0 <ℤ cfg.workers
  pub queue_size : pos 0 <ℤ cfg.queue_size
  pub ack_wait : pos 0 <ℤ cfg.ack_wait
  pub max_deliver : pos 0 <ℤ cfg.max_deliver
  pub adaptive : cfg.adaptive.enabled ≡ true → IsSoundAdaptive cfg.adaptive

pub sound_adaptive : (a : PullAdaptiveConfig) → validate_adaptive a ≡ none → IsSoundAdaptive a
unfolding validate_adaptive
sound_adaptive a h = record {
  check_interval = ground arith;
  medium_pending = ground arith;
  high_pending = ground arith;
  low_batch_size = ground arith;
  low_max_wait = ground arith;
  medium_batch_size = ground arith;
  medium_max_wait = ground arith;
  high_batch_size = ground arith;
  high_max_wait = ground arith;
}

pub accepted_adaptive : (a : PullAdaptiveConfig) → IsSoundAdaptive a → validate_adaptive a ≡ none
unfolding validate_adaptive
accepted_adaptive a h = ground arith

sound : (cfg : PullConsumerConfig) → validate cfg ≡ none → IsSound cfg
unfolding validate
sound cfg h = record {
  stream = ground (arith, eq_iff cfg.stream "");
  subject = ground (arith, eq_iff cfg.subject "");
  durable = ground (arith, eq_iff cfg.durable "");
  batch_size = ground arith;
  max_wait = ground arith;
  workers = ground arith;
  queue_size = ground arith;
  ack_wait = ground arith;
  max_deliver = ground arith;
  adaptive = λ on. sound_adaptive cfg.adaptive (ground arith);
}

accepted : (cfg : PullConsumerConfig) → IsSound cfg → validate cfg ≡ none
unfolding validate
accepted cfg h = ground (
  arith,
  eq_iff cfg.stream "",
  eq_iff cfg.subject "",
  eq_iff cfg.durable "",
  accepted_adaptive cfg.adaptive,
)

-- Validate accepts exactly the configurations with names, positive sizes and waits and, if the
-- adaptive plan is on, thresholds in order and positive plans.
pub validate-IsSound : (cfg : PullConsumerConfig) → (validate cfg ≡ none) ↔ IsSound cfg
validate-IsSound cfg = (sound cfg, accepted cfg)

abbrev pub IsPositive : PullPlan → Type 0
IsPositive p = (pos 0 <ℤ p.batch) × (pos 0 <ℤ p.wait)

pub resolve_pull_plan-IsPositive :
    (cfg : PullConsumerConfig) (pending : ℤ)
    → IsSound cfg
    → IsPositive (resolve_pull_plan cfg pending)
unfolding resolve_pull_plan
resolve_pull_plan-IsPositive cfg pending h = ground arith

-- The plan of the fetcher behind any number of rounds of its loop, each with its time and the
-- answer to its question for the pending messages.
unfoldable pub fetch_rounds : PullConsumerConfig → List (Time × Option ℤ) → FetchState → FetchState
fetch_rounds cfg [] state = state
fetch_rounds cfg ((now, info) ∷ rounds) state =
    fetch_rounds cfg rounds (maybe_update_adaptive_plan cfg now info state)

pub maybe_update-IsPositive :
    (cfg : PullConsumerConfig) (now : Time) (info : Option ℤ) (state : FetchState)
    → IsSound cfg
    → IsPositive state.plan
    → IsPositive (maybe_update_adaptive_plan cfg now info state).plan
unfolding maybe_update_adaptive_plan
maybe_update-IsPositive cfg now info state h k = ground (arith, resolve_pull_plan-IsPositive cfg)

pub fetch_rounds-IsPositive :
    (cfg : PullConsumerConfig) (rounds : List (Time × Option ℤ)) (state : FetchState)
    → IsSound cfg
    → IsPositive state.plan
    → IsPositive (fetch_rounds cfg rounds state).plan
unfolding fetch_rounds
fetch_rounds-IsPositive cfg [] state h k = k
fetch_rounds-IsPositive cfg ((now, info) ∷ rounds) state h k =
    fetch_rounds-IsPositive cfg rounds _ h (maybe_update-IsPositive cfg now info state h k)

-- If Validate accepts the configuration, the fetcher asks for a positive number of messages with a
-- positive wait in each round, whatever the pending counts and the times of its checks.
pub fetch_plan-IsPositive :
    (cfg : PullConsumerConfig) (start : Time) (rounds : List (Time × Option ℤ))
    → validate cfg ≡ none
    → IsPositive (fetch_rounds cfg rounds (first_state cfg start)).plan
unfolding first_state
fetch_plan-IsPositive cfg start rounds e =
    let h = (validate-IsSound cfg).0 e in
    fetch_rounds-IsPositive cfg rounds _ h (h.batch_size, h.max_wait)
