-- ===== src/Nats/PullConsumer/Runtime/Safety.antt =====
-- What holds of the runtime in every state that it reaches.
use ofm_auth_service.Nats.PullConsumer.Runtime.Workers.{is_running, running-all_exited}
use ofm_auth_service.Prelude.{
  ℕ, zero, suc, Bool, true, false, Option, none, some, List, [], ◌∷◌, ◌++◌, ◌≡◌, refl, arith,
  length, get_elem?, ◌≤◌, if◌then◌else◌, ap,
}
use ofm_auth_service.Prelude.Int.{pos_part}
use ofm_auth_service.Domain.{Time}
use ofm_auth_service.Config.{PullConsumerConfig}
use ofm_auth_service.Nats.PullConsumer.Runtime.{
  Runtime, Fetcher, checking, planning, fetching, dispatching, waiting, done, Worker, idle, exited,
  handling, all_exited, FetcherInput, WorkerInput, fetcher_step, worker_step, receive_job, replace,
  move_worker, put_worker, step, Move, cancel, fetcher_move, worker_move, start, idle_workers,
  Reaches, here, move, NatsMsg,
}

abbrev pub is_done : Fetcher → Bool
is_done done = true
is_done _ = false

-- The fetcher has left its loop.
abbrev pub is_over : Fetcher → Bool
is_over done = true
is_over waiting = true
is_over _ = false

abbrev pub some_exited : List Worker → Bool
some_exited [] = false
some_exited (exited ∷ ws) = true
some_exited (idle ∷ ws) = some_exited ws
some_exited (handling m ∷ ws) = some_exited ws

-- The bound of the channel, and the order of the shutdown.
pub record IsSafe (cfg : PullConsumerConfig) (r : Runtime) : Type 0 where
  pub bounded : length r.jobs ≤ pos_part cfg.queue_size
  pub closed_done : r.closed ≡ is_done r.fetcher
  pub done_exited : is_done r.fetcher ≡ true → all_exited r.workers ≡ true
  pub over_cancelled : is_over r.fetcher ≡ true → r.cancelled ≡ true
  pub exited_cancelled : some_exited r.workers ≡ true → r.cancelled ≡ true

pub length-snoc : {A : Type 0} (xs : List A) (x : A) → length (xs ++ x ∷ []) ≡ suc (length xs)
length-snoc [] x = refl
length-snoc (y ∷ xs) x = ap suc (length-snoc xs x)

module _ (cfg : PullConsumerConfig) where
  fetcher-IsSafe :
      (input : FetcherInput) (f : Fetcher) (r : Runtime) {s : Runtime}
      → r.fetcher ≡ f
      → IsSafe cfg r
      → fetcher_step cfg input f r ≡ some s
      → IsSafe cfg s
  unfolding fetcher_step
  fetcher-IsSafe input checking r at h e = ground (arith, h)
  fetcher-IsSafe input planning r at h e = ground (arith, h)
  fetcher-IsSafe input fetching r at h e = ground (arith, h)
  fetcher-IsSafe input (dispatching []) r at h e = ground (arith, h)
  fetcher-IsSafe input (dispatching (m ∷ ms)) r at h e = ground (arith, h, length-snoc r.jobs m)
  fetcher-IsSafe input waiting r at h e = ground (arith, h)
  fetcher-IsSafe input done r at h e = absurd (cc e)

replace-some_exited :
    (ws : List Worker) (i : ℕ) (w : Worker)
    → is_running w ≡ true
    → some_exited (replace i w ws) ≡ true
    → some_exited ws ≡ true
replace-some_exited [] i w h e = e
replace-some_exited (exited ∷ ws) i w h e = refl
replace-some_exited (idle ∷ ws) zero idle h e = e
replace-some_exited (idle ∷ ws) zero (handling m) h e = e
replace-some_exited (idle ∷ ws) zero exited h e = absurd (cc h)
replace-some_exited (idle ∷ ws) (suc i) w h e = replace-some_exited ws i w h e
replace-some_exited (handling m ∷ ws) zero idle h e = e
replace-some_exited (handling m ∷ ws) zero (handling m') h e = e
replace-some_exited (handling m ∷ ws) zero exited h e = absurd (cc h)
replace-some_exited (handling m ∷ ws) (suc i) w h e = replace-some_exited ws i w h e

module _ (cfg : PullConsumerConfig) where
  receive-IsSafe :
      (i : ℕ) (js : List NatsMsg) (r : Runtime) {s : Runtime}
      → r.jobs ≡ js
      → get_elem? r.workers i ≡ some idle
      → IsSafe cfg r
      → put_worker i (receive_job js r) ≡ some s
      → IsSafe cfg s
  unfolding receive_job
  receive-IsSafe i [] r has at h e = ground (arith, h, running-all_exited r.workers i at)
  receive-IsSafe i (m ∷ rest) r has at h e = ground (
    arith,
    h,
    running-all_exited r.workers i at,
    replace-some_exited r.workers i (handling m) refl,
  )

  worker-IsSafe :
      (i : ℕ) (input : WorkerInput) (w : Worker) (r : Runtime) {s : Runtime}
      → get_elem? r.workers i ≡ some w
      → IsSafe cfg r
      → put_worker i (worker_step input w r) ≡ some s
      → IsSafe cfg s
  unfolding worker_step
  worker-IsSafe i input idle r at h e = chosen input.takes_done e
    where
      chosen :
          (takes_done : Bool) {s : Runtime}
          → put_worker i (
              if takes_done
              then if r.cancelled then some (exited, r) else none
              else receive_job r.jobs r)
            ≡ some s
          → IsSafe cfg s
      chosen true q = ground (arith, h, running-all_exited r.workers i at)
      chosen false q = receive-IsSafe i r.jobs r refl at h q
  worker-IsSafe i input (handling m) r at h e =
      ground
        (arith, h, running-all_exited r.workers i at, replace-some_exited r.workers i idle refl)
  worker-IsSafe i input exited r at h e = absurd (cc e)

  step-IsSafe :
      (m : Move) (r : Runtime) {s : Runtime} → IsSafe cfg r → step cfg m r ≡ some s → IsSafe cfg s
  unfolding step
  step-IsSafe cancel r h e = ground (arith, h)
  step-IsSafe (fetcher_move input) r h e = fetcher-IsSafe cfg input r.fetcher r refl h e
  step-IsSafe (worker_move i input) r h e = at_worker (get_elem? r.workers i) refl e
    where
      at_worker :
          (o : Option Worker) {s : Runtime}
          → get_elem? r.workers i ≡ o
          → move_worker i input o r ≡ some s
          → IsSafe cfg s
      at_worker none q e' = absurd (cc e')
      at_worker (some w) q e' = worker-IsSafe i input w r q h e'

  idle_workers-some_exited : (n : ℕ) → some_exited (idle_workers n) ≡ false
  idle_workers-some_exited zero = refl
  idle_workers-some_exited (suc n) = idle_workers-some_exited n

  start-IsSafe : (now : Time) → IsSafe cfg (start cfg now)
  unfolding start
  start-IsSafe now = ground (arith, idle_workers-some_exited (pos_part cfg.workers))

  pub Reaches-IsSafe : (r s : Runtime) → IsSafe cfg r → Reaches cfg r s → IsSafe cfg s
  Reaches-IsSafe r s h here = h
  Reaches-IsSafe r s h (move m e rest) = Reaches-IsSafe _ s (step-IsSafe m r h e) rest

  -- In every state that a started consumer reaches, the channel holds at most QueueSize messages; it
  -- is closed exactly when the fetcher is done, and all workers have returned by then; and the
  -- fetcher has left its loop, or a worker has returned, only behind the cancellation.
  pub runtime-IsSafe : (now : Time) (r : Runtime) → Reaches cfg (start cfg now) r → IsSafe cfg r
  runtime-IsSafe now r path = Reaches-IsSafe _ r (start-IsSafe now) path
