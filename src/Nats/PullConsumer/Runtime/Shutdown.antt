-- ===== src/Nats/PullConsumer/Runtime/Shutdown.antt =====
-- What happens behind a cancellation of the consumer's context.
use mathlib.Core.WellFounded.{Acc}
use ofm_auth_service.Prelude.{
  ℕ, ◌+◌, ◌*◌, ◌<◌, Bool, true, false, Option, none, some, List, [], ◌∷◌, ◌≡◌, ◌⊎◌, inl, inr, refl,
  ◌∙◌, arith, get_elem?, if◌then◌else◌, length, Bool-cases, is_none, Option-cases,
}
use ofm_auth_service.Prelude.Ranking.{Acc-of-Descends}
use ofm_auth_service.Prelude.Int.{pos}
use ofm_auth_service.Domain.{Time}
use ofm_auth_service.Config.{PullConsumerConfig}
use ofm_auth_service.Nats.PullConsumer.Runtime.{
  NatsMsg, Runtime, Fetcher, checking, planning, fetching, dispatching, waiting, done, Worker, idle,
  exited, handling, all_exited, FetcherInput, WorkerInput, fetcher_step, worker_step, receive_job,
  move_worker, put_worker, step, Move, cancel, fetcher_move, worker_move, start, Reaches, here,
  move,
}
use ofm_auth_service.Nats.PullConsumer.Runtime.Workers.{
  total, total-replace, is_running, running_worker,
}
use ofm_auth_service.Nats.PullConsumer.Runtime.Safety.{
  IsSafe, length-snoc, runtime-IsSafe, Reaches-IsSafe,
}

abbrev fetcher_rank : Fetcher → ℕ
fetcher_rank planning = 2
fetcher_rank fetching = 1
fetcher_rank _ = 0

abbrev fetcher_weight : Fetcher → ℕ
fetcher_weight waiting = 1
fetcher_weight checking = 2
fetcher_weight (dispatching ms) = 3 + 3 * length ms
fetcher_weight _ = 0

abbrev worker_weight : Worker → ℕ
worker_weight exited = 0
worker_weight idle = 1
worker_weight (handling m) = 2

abbrev rank : Runtime → ℕ
rank r = fetcher_rank r.fetcher

abbrev weight : Runtime → ℕ
weight r = fetcher_weight r.fetcher + 2 * length r.jobs + total worker_weight r.workers

abbrev IsCancelled : Runtime → Type 0
IsCancelled r = r.cancelled ≡ true

-- One state follows another.
abbrev pub Follows : PullConsumerConfig → Runtime → Runtime → Type 0
Follows cfg s r = (m : Move) × (step cfg m r ≡ some s)

abbrev IsLess : Runtime → Runtime → Type 0
IsLess s r = IsCancelled s × ((rank s < rank r) ⊎ ((rank s ≡ rank r) × (weight s < weight r)))

module _ (cfg : PullConsumerConfig) where
  fetcher-IsLess :
      (input : FetcherInput) (f : Fetcher) (r : Runtime) {s : Runtime}
      → r.fetcher ≡ f
      → IsCancelled r
      → fetcher_step cfg input f r ≡ some s
      → IsLess s r
  unfolding fetcher_step
  fetcher-IsLess input checking r at h e = ground (arith, at)
  fetcher-IsLess input planning r at h e = ground (arith, at)
  fetcher-IsLess input fetching r at h e = ground (arith, at)
  fetcher-IsLess input (dispatching []) r at h e = ground (arith, at)
  fetcher-IsLess input (dispatching (m ∷ ms)) r at h e = ground (arith, at, length-snoc r.jobs m)
  fetcher-IsLess input waiting r at h e = ground (arith, at)
  fetcher-IsLess input done r at h e = absurd (cc e)

  worker-IsLess :
      (i : ℕ) (input : WorkerInput) (w : Worker) (r : Runtime) {s : Runtime}
      → get_elem? r.workers i ≡ some w
      → IsCancelled r
      → put_worker i (worker_step input w r) ≡ some s
      → IsLess s r
  unfolding worker_step receive_job
  worker-IsLess i input idle r at h e = chosen input.takes_done r.jobs refl e
    where
      chosen :
          (takes_done : Bool) (js : List NatsMsg) {s : Runtime}
          → r.jobs ≡ js
          → put_worker i (
              if takes_done
              then if r.cancelled then some (exited, r) else none
              else receive_job js r)
            ≡ some s
          → IsLess s r
      chosen true js has q = ground (arith, total-replace worker_weight r.workers i idle exited at)
      chosen false [] has q = ground (arith, total-replace worker_weight r.workers i idle exited at)
      chosen false (m ∷ rest) has q =
          ground (arith, total-replace worker_weight r.workers i idle (handling m) at)
  worker-IsLess i input (handling m) r at h e =
      ground (arith, total-replace worker_weight r.workers i (handling m) idle at)
  worker-IsLess i input exited r at h e = absurd (cc e)

  step-IsLess : (r s : Runtime) → IsCancelled r → Follows cfg s r → IsLess s r
  unfolding step
  step-IsLess r s h (cancel, e) = absurd (cc (e, h))
  step-IsLess r s h (fetcher_move input, e) = fetcher-IsLess input r.fetcher r refl h e
  step-IsLess r s h (worker_move i input, e) = at_worker (get_elem? r.workers i) refl e
    where
      at_worker :
          (o : Option Worker) {s : Runtime}
          → get_elem? r.workers i ≡ o
          → move_worker i input o r ≡ some s
          → IsLess s r
      at_worker none q e' = absurd (cc e')
      at_worker (some w) q e' = worker-IsLess i input w r q h e'

  -- From a state in which the context is cancelled, every sequence of moves ends, whatever the
  -- scheduler, the server and the handler choose.
  pub shutdown_terminates : (r : Runtime) → IsCancelled r → Acc (Follows cfg) r
  shutdown_terminates r h = Acc-of-Descends (Follows cfg) IsCancelled rank weight step-IsLess r h

  abbrev any_input : FetcherInput
  any_input = record {
    now = pos 0;
    pending = none;
    answer = record { msgs = []; error = none };
    takes_done = true;
  }

  abbrev leaving : WorkerInput
  leaving = record { takes_done = true; failure = none; ack_error = none }

  -- Some goroutine does not block.
  abbrev CanMove : Runtime → Type 0
  CanMove r = (m : Move) × (is_none (step cfg m r) ≡ false)

  worker_moves :
      (i : ℕ) (w : Worker) (r : Runtime)
      → IsCancelled r
      → get_elem? r.workers i ≡ some w
      → is_running w ≡ true
      → CanMove r
  unfolding step worker_step
  worker_moves i exited r h at runs = absurd (cc runs)
  worker_moves i idle r h at runs = (worker_move i leaving, rw (at, h) refl)
  worker_moves i (handling m) r h at runs = (worker_move i leaving, rw at refl)

  fetcher_moves :
      (f : Fetcher) (r : Runtime) → r.fetcher ≡ f → IsCancelled r → (f ≡ done) ⊎ CanMove r
  unfolding step fetcher_step
  fetcher_moves done r at h = inl refl
  fetcher_moves checking r at h = inr (fetcher_move any_input, rw at refl)
  fetcher_moves planning r at h = inr (fetcher_move any_input, rw at refl)
  fetcher_moves fetching r at h = inr (fetcher_move any_input, rw at refl)
  fetcher_moves (dispatching []) r at h = inr (fetcher_move any_input, rw at refl)
  fetcher_moves (dispatching (m ∷ ms)) r at h = inr (fetcher_move any_input, rw (at, h) refl)
  fetcher_moves waiting r at h = elim (Bool-cases (all_exited r.workers)) [
    | inl over ↦ inr (fetcher_move any_input, rw (at, over) refl)
    | inr running ↦
        let (i, w, here_, runs) = running_worker r.workers running in
        inr (worker_moves i w r h here_ runs)
  ]

  -- The fetcher is done, all workers have returned, and the channel is closed.
  abbrev pub IsShut : Runtime → Type 0
  IsShut r = (r.fetcher ≡ done) × (all_exited r.workers ≡ true) × (r.closed ≡ true)

  abbrev pub Shuts : Runtime → Type 0
  Shuts r = (s : Runtime) × Reaches cfg r s × IsShut s

  shuts : (r : Runtime) → Acc (Follows cfg) r → IsCancelled r → IsSafe cfg r → Shuts r
  shuts r (Acc.intro _ later) h safe = elim (fetcher_moves r.fetcher r refl h) [
    | inl over ↦ (r, here, (over, safe.done_exited (rw over refl), safe.closed_done ∙ rw over refl))
    | inr (m, possible) ↦ elim (Option-cases (step cfg m r)) [
      | inl blocked ↦ absurd (cc (blocked, possible))
      | inr (s, e) ↦
          let (t, path, shut) =
            shuts s (later s (m, e)) (step-IsLess r s h (m, e)).0
              (Reaches-IsSafe cfg r s safe (move m e here)) in
          (t, move m e path, shut)
    ]
  ]

  -- From a state of a started consumer in which the context is cancelled, moves lead to one in which
  -- the fetcher is done, all workers have returned and the channel is closed.
  pub shutdown_completes :
      (now : Time) (r : Runtime) → Reaches cfg (start cfg now) r → IsCancelled r → Shuts r
  shutdown_completes now r path h =
      shuts r (shutdown_terminates r h) h (runtime-IsSafe cfg now r path)
