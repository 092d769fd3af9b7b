-- ===== src/Nats/PullConsumer/Runtime/Accounting.antt =====
-- Where each fetched message is.
use ofm_auth_service.Nats.PullConsumer.Runtime.Workers.{total, total-replace}
use ofm_auth_service.Prelude.{
  ℕ, zero, suc, ◌+◌, Bool, true, false, Option, none, some, List, [], ◌∷◌, ◌++◌, ◌≡◌, refl, arith,
  get_elem?, if◌then◌else◌,
}
use ofm_auth_service.Domain.{Time}
use ofm_auth_service.Config.{PullConsumerConfig}
use ofm_auth_service.Nats.PullConsumer.Runtime.{
  NatsMsg, Settlement, acked, naked, ack_failed, Runtime, Fetcher, checking, planning, fetching,
  dispatching, waiting, done, Worker, idle, exited, handling, FetcherInput, WorkerInput,
  fetcher_step, worker_step, receive_job, move_worker, put_worker, step, Move, cancel, fetcher_move,
  worker_move, start, idle_workers, Reaches, here, move, settle,
}

unfoldable pub count : (NatsMsg → Bool) → List NatsMsg → ℕ
count p [] = 0
count p (m ∷ ms) = (if p m then 1 else 0) + count p ms

-- The messages that the fetcher has yet to send.
abbrev pub in_batch : Fetcher → List NatsMsg
in_batch (dispatching ms) = ms
in_batch _ = []

abbrev pub carried : Worker → List NatsMsg
carried (handling m) = m ∷ []
carried idle = []
carried exited = []

abbrev pub message_of : Settlement → NatsMsg
message_of (acked m) = m
message_of (naked m) = m
message_of (ack_failed m) = m

abbrev pub in_workers : (NatsMsg → Bool) → List Worker → ℕ
in_workers p ws = total (λ w. count p (carried w)) ws

unfoldable pub in_settled : (NatsMsg → Bool) → List Settlement → ℕ
in_settled p [] = 0
in_settled p (x ∷ xs) = count p (message_of x ∷ []) + in_settled p xs

-- As many messages were fetched as are in the places together.
abbrev pub IsAccounted : (NatsMsg → Bool) → Runtime → Type 0
IsAccounted p r =
    count p r.fetched
    ≡ count p (in_batch r.fetcher)
      + count p r.jobs
      + in_workers p r.workers
      + in_settled p r.settled
      + count p r.dropped

module _ (p : NatsMsg → Bool) where
  count-append : (xs ys : List NatsMsg) → count p (xs ++ ys) ≡ count p xs + count p ys
  unfolding count
  count-append [] ys = omega arith
  count-append (x ∷ xs) ys = ground (arith, count-append xs ys)

  in_settled-snoc :
      (xs : List Settlement) (m : NatsMsg) (failure ack : Option _)
      → in_settled p (xs ++ settle m failure ack ∷ []) ≡ in_settled p xs + count p (m ∷ [])
  unfolding in_settled count settle
  in_settled-snoc [] m failure ack = ground arith
  in_settled-snoc (x ∷ xs) m failure ack = ground (arith, in_settled-snoc xs m failure ack)

module _ (cfg : PullConsumerConfig) (p : NatsMsg → Bool) where
  fetcher-IsAccounted :
      (input : FetcherInput) (f : Fetcher) (r : Runtime) {s : Runtime}
      → r.fetcher ≡ f
      → IsAccounted p r
      → fetcher_step cfg input f r ≡ some s
      → IsAccounted p s
  unfolding fetcher_step count
  fetcher-IsAccounted input checking r at h e = ground (arith, h)
  fetcher-IsAccounted input planning r at h e = ground (arith, h)
  fetcher-IsAccounted input fetching r at h e = ground (
    arith,
    h,
    count-append p r.fetched input.answer.msgs,
    count-append p r.dropped input.answer.msgs,
  )
  fetcher-IsAccounted input (dispatching []) r at h e = ground (arith, h)
  fetcher-IsAccounted input (dispatching (m ∷ ms)) r at h e =
      ground (arith, h, count-append p r.jobs (m ∷ []), count-append p r.dropped (m ∷ ms))
  fetcher-IsAccounted input waiting r at h e = ground (arith, h)
  fetcher-IsAccounted input done r at h e = absurd (cc e)

  worker-IsAccounted :
      (i : ℕ) (input : WorkerInput) (w : Worker) (r : Runtime) {s : Runtime}
      → get_elem? r.workers i ≡ some w
      → IsAccounted p r
      → put_worker i (worker_step input w r) ≡ some s
      → IsAccounted p s
  unfolding worker_step receive_job count
  worker-IsAccounted i input idle r at h e = chosen input.takes_done r.jobs refl e
    where
      chosen :
          (takes_done : Bool) (js : List NatsMsg) {s : Runtime}
          → r.jobs ≡ js
          → put_worker i (
              if takes_done
              then if r.cancelled then some (exited, r) else none
              else receive_job js r)
            ≡ some s
          → IsAccounted p s
      chosen true js has q =
          ground (arith, total-replace (λ w. count p (carried w)) r.workers i idle exited at)
      chosen false [] has q =
          ground (arith, total-replace (λ w. count p (carried w)) r.workers i idle exited at)
      chosen false (m ∷ rest) has q =
          ground (arith, total-replace (λ w. count p (carried w)) r.workers i idle (handling m) at)
  worker-IsAccounted i input (handling m) r at h e = ground (
    arith,
    h,
    in_settled-snoc p r.settled m input.failure input.ack_error,
    total-replace (λ w. count p (carried w)) r.workers i (handling m) idle at,
  )
  worker-IsAccounted i input exited r at h e = absurd (cc e)

  step-IsAccounted :
      (m : Move) (r : Runtime) {s : Runtime}
      → IsAccounted p r
      → step cfg m r ≡ some s
      → IsAccounted p s
  unfolding step
  step-IsAccounted cancel r h e = ground (arith, h)
  step-IsAccounted (fetcher_move input) r h e = fetcher-IsAccounted input r.fetcher r refl h e
  step-IsAccounted (worker_move i input) r h e = at_worker (get_elem? r.workers i) refl e
    where
      at_worker :
          (o : Option Worker) {s : Runtime}
          → get_elem? r.workers i ≡ o
          → move_worker i input o r ≡ some s
          → IsAccounted p s
      at_worker none q e' = absurd (cc e')
      at_worker (some w) q e' = worker-IsAccounted i input w r q h e'

  idle_workers-in_workers : (n : ℕ) → in_workers p (idle_workers n) ≡ 0
  unfolding total count
  idle_workers-in_workers zero = refl
  idle_workers-in_workers (suc n) = ground (arith, idle_workers-in_workers n)

  Reaches-IsAccounted : (r s : Runtime) → IsAccounted p r → Reaches cfg r s → IsAccounted p s
  Reaches-IsAccounted r s h here = h
  Reaches-IsAccounted r s h (move m e rest) =
      Reaches-IsAccounted _ s (step-IsAccounted m r h e) rest

  -- In every state that a started consumer reaches, of the messages that satisfy any test as many have
  -- been fetched as are, together, in the fetcher's batch, in the channel, with a worker, settled and
  -- dropped: none is lost and none is doubled.
  pub messages-IsAccounted :
      (now : Time) (r : Runtime) → Reaches cfg (start cfg now) r → IsAccounted p r
  unfolding start count in_settled
  messages-IsAccounted now r path = Reaches-IsAccounted _ r (rw (idle_workers-in_workers) refl) path
