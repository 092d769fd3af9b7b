-- ===== src/Examples/Serving.antt =====
-- A saga loop whose Subscribe fails once, and the gRPC server behind a sign out.
use mathlib.Core.WellFounded.{Acc}
use ofm_auth_service.Prelude.{◌≡◌, refl, true, false, ◌*◌}
use ofm_auth_service.Service.{second}
use ofm_auth_service.Lifecycle.{next_saga_backoff}
use ofm_auth_service.Lifecycle.Restart.{
  Loop, testing, LoopInput, act, stop, saga_loop, recovery_loop, loop_step, first_loop, LoopReaches,
  here, move, saga_ended,
}
use ofm_auth_service.Lifecycle.Serving.{
  IsServing, IsClamped, saga_loop-IsServing, LoopFollows, loops_terminate,
}
use ofm_auth_service.Grpc.{sign_out}
use ofm_auth_service.Grpc.Status.{response}
use ofm_auth_service.Grpc.Sessions.{service}
use ofm_auth_service.Examples.{test_env, test_cfg, test_world}
use ofm_auth_service.Examples.Sessions.{after_sign_out, signed_out}

abbrev fails : LoopInput
fails = record { failed = true; takes_done = false }

abbrev pressed : Loop
pressed = record { cancelled = true; at = testing; backoff = 2 * second }

pressed_path : LoopReaches saga_loop first_loop pressed
unfolding loop_step saga_ended next_saga_backoff
pressed_path =
    move (act fails) refl (move (act fails) refl (move (act fails) refl (move stop refl here)))

saga_loop-IsServing_example : IsServing IsClamped pressed
saga_loop-IsServing_example = saga_loop-IsServing pressed pressed_path

loops_terminate_example :
    Acc (LoopFollows saga_loop) pressed × Acc (LoopFollows recovery_loop) pressed
loops_terminate_example = loops_terminate pressed refl

sign_out_response :
    sign_out (service test_env test_cfg) "tok" test_world ≡ (response "signed_out", after_sign_out)
unfolding sign_out
sign_out_response = rw signed_out refl
