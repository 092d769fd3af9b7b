-- ===== src/Nats/PullConsumer/Runtime.antt =====
-- pull_consumer_runtime.go: the fetcher, the bounded channel of jobs and the workers, as one state
-- that moves. A move is what the scheduler, the server and the handler choose; a goroutine that
-- blocks has no move. The handler's and the server's answers are part of the moves. Logging, metrics
-- and the pause behind a failed fetch are left out.
pub mod Workers
pub mod Safety
pub mod Accounting
pub mod Shutdown
use ofm_auth_service.Prelude.{
  ℕ, zero, suc, String, Bool, true, false, Option, none, some, List, [], ◌∷◌, ◌++◌, if◌then◌else◌,
  length, get_elem?, ltb, ◌≡◌,
}
use ofm_auth_service.Prelude.Int.{ℤ, pos_part}
use ofm_auth_service.Domain.{Time}
use ofm_auth_service.Config.{PullConsumerConfig}
use ofm_auth_service.Nats.PullConsumer.{FetchState, first_state, maybe_update_adaptive_plan}

-- A *nats.Msg.
pub record NatsMsg : Type 0 where
  pub subject : String
  pub body : String

-- nats.ErrTimeout, context.DeadlineExceeded, or another error of Fetch.
pub data FetchError : Type 0 where
  fetch_timeout deadline_exceeded : FetchError
  fetch_failed : String → FetchError

-- What Fetch returns.
pub record FetchAnswer : Type 0 where
  pub msgs : List NatsMsg
  pub error : Option FetchError

-- What became of a message that a worker handled.
pub data Settlement : Type 0 where
  acked naked ack_failed : NatsMsg → Settlement

-- Where runFetcher is: at the top of its loop, before maybeUpdateAdaptivePlan, before Fetch, in
-- dispatchFetchedMessages with the messages still to send, in the deferred wg.Wait, and done.
pub data Fetcher : Type 0 where
  checking planning fetching waiting done : Fetcher
  dispatching : List NatsMsg → Fetcher

-- Where runWorker is: in its select, handling a message, or returned.
pub data Worker : Type 0 where
  idle exited : Worker
  handling : NatsMsg → Worker

-- pullConsumerRuntime with its goroutines and its context, and what became of the messages:
-- `fetched` are those that Fetch returned, `settled` those that a worker finished with, `dropped`
-- those that the fetcher let go.
pub record Runtime : Type 0 where
  pub cancelled : Bool
  pub fetcher : Fetcher
  pub state : FetchState
  pub jobs : List NatsMsg
  pub closed : Bool
  pub workers : List Worker
  pub fetched : List NatsMsg
  pub settled : List Settlement
  pub dropped : List NatsMsg

-- What the fetcher finds at its next action, whichever that is: the time, ConsumerInfo's count of
-- pending messages, Fetch's answer, and which case its select takes.
pub record FetcherInput : Type 0 where
  pub now : Time
  pub pending : Option ℤ
  pub answer : FetchAnswer
  pub takes_done : Bool

-- What a worker finds: which case its select takes, and the errors of the handler and of Ack.
pub record WorkerInput : Type 0 where
  pub takes_done : Bool
  pub failure : Option String
  pub ack_error : Option String

pub data Move : Type 0 where
  cancel : Move
  fetcher_move : FetcherInput → Move
  worker_move : ℕ → WorkerInput → Move

abbrev pub all_exited : List Worker → Bool
all_exited [] = true
all_exited (exited ∷ ws) = all_exited ws
all_exited (idle ∷ ws) = false
all_exited (handling m ∷ ws) = false

-- shouldStop
abbrev pub should_stop : Runtime → Bool
should_stop r = r.cancelled

-- handleFetchError: whether the loop goes on without a batch.
unfoldable pub handle_fetch_error : Option FetchError → Bool
handle_fetch_error none = false
handle_fetch_error (some fetch_timeout) = true
handle_fetch_error (some deadline_exceeded) = true
handle_fetch_error (some (fetch_failed text)) = true

-- Behind Fetch: the next round, or the batch.
unfoldable pub fetched_batch : FetchAnswer → Runtime → Runtime
unfolding handle_fetch_error
fetched_batch answer r =
    if handle_fetch_error answer.error
    then record r {
      fetcher = checking;
      fetched = r.fetched ++ answer.msgs;
      dropped = r.dropped ++ answer.msgs;
    }
    else record r { fetcher = dispatching answer.msgs; fetched = r.fetched ++ answer.msgs }

-- The select of dispatchFetchedMessages where its send goes through.
unfoldable pub send_job : PullConsumerConfig → NatsMsg → List NatsMsg → Runtime → Option Runtime
send_job cfg m ms r =
    if ltb (length r.jobs) (pos_part cfg.queue_size)
    then some (record r { fetcher = dispatching ms; jobs = r.jobs ++ m ∷ [] })
    else none

-- The same select where the context is done.
unfoldable pub abandon_batch : List NatsMsg → Runtime → Option Runtime
abandon_batch ms r =
    if r.cancelled then some (record r { fetcher = waiting; dropped = r.dropped ++ ms }) else none

-- wg.Wait, then close(r.jobs).
unfoldable pub close_jobs : Runtime → Option Runtime
close_jobs r =
    if all_exited r.workers then some (record r { fetcher = done; closed = true }) else none

-- The next action of runFetcher.
unfoldable pub fetcher_step : PullConsumerConfig → FetcherInput → Fetcher → Runtime → Option Runtime
unfolding fetched_batch send_job abandon_batch close_jobs
fetcher_step cfg input checking r =
    some (record r { fetcher = if should_stop r then waiting else planning })
fetcher_step cfg input planning r = some (record r {
  fetcher = fetching;
  state = maybe_update_adaptive_plan cfg input.now input.pending r.state;
})
fetcher_step cfg input fetching r = some (fetched_batch input.answer r)
fetcher_step cfg input (dispatching []) r = some (record r { fetcher = checking })
fetcher_step cfg input (dispatching (m ∷ ms)) r =
    if input.takes_done then abandon_batch (m ∷ ms) r else send_job cfg m ms r
fetcher_step cfg input waiting r = close_jobs r
fetcher_step cfg input done r = none

-- Nak behind an error of the handler, Ack otherwise.
unfoldable pub settle : NatsMsg → Option String → Option String → Settlement
settle m (some failure) ack = naked m
settle m none none = acked m
settle m none (some failure) = ack_failed m

-- The worker's receive: a job, or the end of a closed and empty channel.
unfoldable pub receive_job : List NatsMsg → Runtime → Option (Worker × Runtime)
receive_job (m ∷ rest) r = some (handling m, record r { jobs = rest })
receive_job [] r = if r.closed then some (exited, r) else none

-- The next action of runWorker.
unfoldable pub worker_step : WorkerInput → Worker → Runtime → Option (Worker × Runtime)
unfolding settle receive_job
worker_step input idle r =
    if input.takes_done
    then if r.cancelled then some (exited, r) else none
    else receive_job r.jobs r
worker_step input (handling m) r =
    some (idle, record r { settled = r.settled ++ settle m input.failure input.ack_error ∷ [] })
worker_step input exited r = none

abbrev pub replace : ℕ → Worker → List Worker → List Worker
replace i x [] = []
replace zero x (w ∷ ws) = x ∷ ws
replace (suc i) x (w ∷ ws) = w ∷ replace i x ws

abbrev pub put_worker : ℕ → Option (Worker × Runtime) → Option Runtime
put_worker i none = none
put_worker i (some (w, r)) = some (record r { workers = replace i w r.workers })

abbrev pub move_worker : ℕ → WorkerInput → Option Worker → Runtime → Option Runtime
move_worker i move none r = none
move_worker i move (some w) r = put_worker i (worker_step move w r)

-- One move of one goroutine, or the cancellation of the context, which happens once.
unfoldable pub step : PullConsumerConfig → Move → Runtime → Option Runtime
unfolding fetcher_step worker_step
step cfg cancel r = if r.cancelled then none else some (record r { cancelled = true })
step cfg (fetcher_move move) r = fetcher_step cfg move r.fetcher r
step cfg (worker_move i move) r = move_worker i move (get_elem? r.workers i) r

abbrev pub idle_workers : ℕ → List Worker
idle_workers zero = []
idle_workers (suc n) = idle ∷ idle_workers n

-- Start, on a runtime that Create has made.
unfoldable pub start : PullConsumerConfig → Time → Runtime
start cfg now = record {
  cancelled = false;
  fetcher = checking;
  state = first_state cfg now;
  jobs = [];
  closed = false;
  workers = idle_workers (pos_part cfg.workers);
  fetched = [];
  settled = [];
  dropped = [];
}

-- From one state to another by possible moves.
pub data Reaches (cfg : PullConsumerConfig) : Runtime → Runtime → Type 0 where
  here : {r : Runtime} → Reaches cfg r r
  move : {r s t : Runtime} (m : Move) → step cfg m r ≡ some s → Reaches cfg s t → Reaches cfg r t
