-- ===== src/Examples/Events/Runtime.antt =====
-- The NATS consumer's runtime: a message is fetched, sent to a worker and acknowledged, a second
-- one stays with the fetcher, and the context is cancelled.
use mathlib.Core.WellFounded.{Acc}
use ofm_auth_service.Prelude.{refl, [], ◌∷◌, none, true, false}
use ofm_auth_service.Prelude.Int.{pos, ◌-ℤ◌}
use ofm_auth_service.Prelude.Text.{◌==◌}
use ofm_auth_service.Nats.PullConsumer.{maybe_update_adaptive_plan, first_state}
use ofm_auth_service.Nats.PullConsumer.Runtime.{
  NatsMsg, FetcherInput, Runtime, Reaches, here, move, step, start, cancel, fetcher_move,
  worker_move, WorkerInput, dispatching, acked,
}
use ofm_auth_service.Nats.PullConsumer.Runtime.Safety.{IsSafe, runtime-IsSafe}
use ofm_auth_service.Nats.PullConsumer.Runtime.Accounting.{IsAccounted, messages-IsAccounted}
use ofm_auth_service.Nats.PullConsumer.Runtime.Shutdown.{
  Follows, shutdown_terminates, Shuts, shutdown_completes,
}
use ofm_auth_service.Examples.Settings.{adaptive_cfg}

abbrev first_msg : NatsMsg
first_msg = record { subject = "saga.auth.create"; body = "first" }

abbrev second_msg : NatsMsg
second_msg = record { subject = "saga.auth.create"; body = "second" }

abbrev fetcher_acts : FetcherInput
fetcher_acts = record {
  now = pos 0;
  pending = none;
  answer = record { msgs = first_msg ∷ second_msg ∷ []; error = none };
  takes_done = false;
}

abbrev worker_acts : WorkerInput
worker_acts = record { takes_done = false; failure = none; ack_error = none }

abbrev stopped : Runtime
stopped = record (start adaptive_cfg (pos 0)) {
  cancelled = true;
  fetcher = dispatching (second_msg ∷ []);
  fetched = first_msg ∷ second_msg ∷ [];
  settled = acked first_msg ∷ [];
}

stopped_path : Reaches adaptive_cfg (start adaptive_cfg (pos 0)) stopped
unfolding step start maybe_update_adaptive_plan first_state ◌-ℤ◌
stopped_path = move (fetcher_move fetcher_acts) refl (
    move (fetcher_move fetcher_acts) refl (
      move (fetcher_move fetcher_acts) refl (
        move (fetcher_move fetcher_acts) refl (
          move (worker_move 0 worker_acts) refl
            (move (worker_move 0 worker_acts) refl (move cancel refl here))))))

runtime-IsSafe_example : IsSafe adaptive_cfg stopped
runtime-IsSafe_example = runtime-IsSafe adaptive_cfg (pos 0) stopped stopped_path

messages-IsAccounted_example : IsAccounted (λ m. m.body == "first") stopped
messages-IsAccounted_example =
    messages-IsAccounted adaptive_cfg (λ m. m.body == "first") (pos 0) stopped stopped_path

shutdown_terminates_example : Acc (Follows adaptive_cfg) stopped
shutdown_terminates_example = shutdown_terminates adaptive_cfg stopped refl

shutdown_completes_example : Shuts adaptive_cfg stopped
shutdown_completes_example = shutdown_completes adaptive_cfg (pos 0) stopped stopped_path refl
