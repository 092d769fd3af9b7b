-- ===== src/Lifecycle/Restart.antt =====
-- internal/fx/presentation.go: the two loops that start the background consumers again, between
-- OnStart and OnStop, as one machine over the backoff's step. When Subscribe returns, when the timer
-- fires and when OnStop cancels the context are moves.
use ofm_auth_service.Prelude.{ℕ, Bool, true, false, Option, none, some, ◌≡◌, if◌then◌else◌}
use ofm_auth_service.Service.{second}
use ofm_auth_service.Lifecycle.{next_saga_backoff, next_recovery_backoff}

-- Where the loop is: at its test, in Subscribe, in the select with its timer, or returned.
pub data LoopAt : Type 0 where
  testing subscribing sleeping stopped : LoopAt

pub record Loop : Type 0 where
  pub cancelled : Bool
  pub at : LoopAt
  pub backoff : ℕ

-- What the loop finds at its next action: whether Subscribe ended with an error, and which case its
-- select takes.
pub record LoopInput : Type 0 where
  pub failed : Bool
  pub takes_done : Bool

-- OnStop, or the loop's next action.
pub data LoopMove : Type 0 where
  stop : LoopMove
  act : LoopInput → LoopMove

-- A loop: what it does where Subscribe has ended, and its backoff behind the timer.
pub record LoopCode : Type 0 where
  pub ended : Bool → Loop → Loop
  pub next : ℕ → ℕ

unfoldable pub saga_ended : Bool → Loop → Loop
saga_ended false l = record l { at = testing; backoff = second }
saga_ended true l = if l.cancelled then record l { at = testing } else record l { at = sleeping }

unfoldable pub recovery_ended : Bool → Loop → Loop
recovery_ended false l = record l { at = testing; backoff = second }
recovery_ended true l =
    if l.cancelled then record l { at = testing; backoff = second } else record l { at = sleeping }

-- The loops of InvokeSubscribeRegistrationSaga and InvokeSubscribeAuthRecovery.
abbrev pub saga_loop : LoopCode
saga_loop = record { ended = saga_ended; next = next_saga_backoff true }

abbrev pub recovery_loop : LoopCode
recovery_loop = record { ended = recovery_ended; next = next_recovery_backoff true }

unfoldable pub loop_action : LoopCode → LoopInput → LoopAt → Loop → Option Loop
loop_action code input testing l =
    some (record l { at = if l.cancelled then stopped else subscribing })
loop_action code input subscribing l = some (code.ended input.failed l)
loop_action code input sleeping l =
    if input.takes_done
    then if l.cancelled then some (record l { at = stopped }) else none
    else some (record l { at = testing; backoff = code.next l.backoff })
loop_action code input stopped l = none

unfoldable pub loop_step : LoopCode → LoopMove → Loop → Option Loop
unfolding loop_action
loop_step code stop l = if l.cancelled then none else some (record l { cancelled = true })
loop_step code (act input) l = loop_action code input l.at l

-- The goroutine that OnStart starts.
abbrev pub first_loop : Loop
first_loop = record { cancelled = false; at = testing; backoff = second }

-- From one state to another by possible moves.
pub data LoopReaches (code : LoopCode) : Loop → Loop → Type 0 where
  here : {l : Loop} → LoopReaches code l l
  move :
      {l m n : Loop} (x : LoopMove)
      → loop_step code x l ≡ some m
      → LoopReaches code m n
      → LoopReaches code l n
