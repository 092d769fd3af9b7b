-- ===== src/Service/History.antt =====
-- Any sequence of calls of internal/application/service.go over the PostgreSQL repository.
use ofm_auth_service.Prelude.{String, List, [], ◌∷◌}
use ofm_auth_service.Config.{JwtConfig}
use ofm_auth_service.Db.{Db}
use ofm_auth_service.Db.Invariant.{IsValid}
use ofm_auth_service.Action.{Env, World}
use ofm_auth_service.Repository.{repo}
use ofm_auth_service.Repository.Keeps.{repo-Keeps}
use ofm_auth_service.Repository.Validity.{IsValid-IsKept}
use ofm_auth_service.Service.{AuthService, auth_service}
use ofm_auth_service.Service.Keeps.{ServiceKeeps, service-Keeps}

-- A call of the interface, with its arguments.
pub data Call : Type 0 where
  create_credential create_pending_registration : String → String → String → String → Call
  verify_registration_email sign_in : String → String → Call
  exists_by_email get_email_by_user_id issue_registration_tokens refresh : String → Call
  sign_out deactivate_registration_auth delete_credential : String → Call

-- The state behind a call, whatever it returned.
unfoldable pub run_call : AuthService → Call → World → World
run_call s (create_credential user email username hash) w =
    (s.create_credential user email username hash w).1
run_call s (create_pending_registration user email username hash) w =
    (s.create_pending_registration user email username hash w).1
run_call s (verify_registration_email user code) w = (s.verify_registration_email user code w).1
run_call s (sign_in identifier password) w = (s.sign_in identifier password w).1
run_call s (exists_by_email email) w = (s.exists_by_email email w).1
run_call s (get_email_by_user_id user) w = (s.get_email_by_user_id user w).1
run_call s (issue_registration_tokens user) w = (s.issue_registration_tokens user w).1
run_call s (refresh token) w = (s.refresh token w).1
run_call s (sign_out token) w = (s.sign_out token w).1
run_call s (deactivate_registration_auth user) w = (s.deactivate_registration_auth user w).1
run_call s (delete_credential user) w = (s.delete_credential user w).1

unfoldable pub run_calls : AuthService → List Call → World → World
unfolding run_call
run_calls s [] w = w
run_calls s (c ∷ cs) w = run_calls s cs (run_call s c w)

module _ {P : Db → Type 0} (s : AuthService) (k : ServiceKeeps P s) where
  run_call-Keeps : (c : Call) (w : World) → P w.db → P (run_call s c w).db
  unfolding run_call
  run_call-Keeps (create_credential user email username hash) w h =
      (k.create_credential user email username hash).at w h
  run_call-Keeps (create_pending_registration user email username hash) w h =
      (k.create_pending_registration user email username hash).at w h
  run_call-Keeps (verify_registration_email user code) w h =
      (k.verify_registration_email user code).at w h
  run_call-Keeps (sign_in identifier password) w h = (k.sign_in identifier password).at w h
  run_call-Keeps (exists_by_email email) w h = (k.exists_by_email email).at w h
  run_call-Keeps (get_email_by_user_id user) w h = (k.get_email_by_user_id user).at w h
  run_call-Keeps (issue_registration_tokens user) w h = (k.issue_registration_tokens user).at w h
  run_call-Keeps (refresh token) w h = (k.refresh token).at w h
  run_call-Keeps (sign_out token) w h = (k.sign_out token).at w h
  run_call-Keeps (deactivate_registration_auth user) w h =
      (k.deactivate_registration_auth user).at w h
  run_call-Keeps (delete_credential user) w h = (k.delete_credential user).at w h

  pub run_calls-Keeps : (cs : List Call) (w : World) → P w.db → P (run_calls s cs w).db
  unfolding run_calls
  run_calls-Keeps [] w h = h
  run_calls-Keeps (c ∷ cs) w h = run_calls-Keeps cs (run_call s c w) (run_call-Keeps c w h)

-- From valid tables every sequence of service calls, whatever fails on the way, leaves valid
-- tables: keys and emails unique, each code, token and role with its user, and each credential's
-- flag in agreement with its status.
pub run_calls-IsValid :
    (env : Env) (cfg : JwtConfig) (cs : List Call) (w : World)
    → IsValid w.db
    → IsValid (run_calls (auth_service env (repo env) cfg) cs w).db
run_calls-IsValid env cfg cs w h =
    run_calls-Keeps _ (service-Keeps env (repo env) cfg (repo-Keeps env (IsValid-IsKept env))) cs w
      h
