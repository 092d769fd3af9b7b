-- ===== src/Examples/Pending.antt =====
-- A registration that waits for its code, applied to a new user beside the example's.
use ofm_auth_service.Prelude.{◌≡◌, refl, exists_row, [], ◌∷◌, true, List}
use ofm_auth_service.Prelude.Int.{◌+ℤ◌}
use ofm_auth_service.Prelude.Text.{trim_space, nth_char, has_prefix, cut_prefix}
use ofm_auth_service.Domain.{PendingRegistrationResult}
use ofm_auth_service.Db.Statements.{
  create_credential_query, list_roles_by_user_id_query, create_verification_code_query,
}
use ofm_auth_service.Action.{World, ok, execute, read_random, now_utc, new_uuid, ◌>>=◌}
use ofm_auth_service.Repository
use ofm_auth_service.Repository.{
  repo, attach_roles, create_verification_code, map_credential_row_to_domain,
}
use ofm_auth_service.Service.{
  create_pending_registration, create_credential, generate_verification_code,
  hash_verification_code,
}
use ofm_auth_service.Service.Encoding.{hex_encode, six_digits}
use ofm_auth_service.Service.Encoding.Bare.{IsTrimmed}
use ofm_auth_service.Service.Verifiable.{IsAccepted, pending_registration-IsAccepted}
use ofm_auth_service.Action.{value, publish}
use ofm_auth_service.Broker.{publish_first, publish_last}
use ofm_auth_service.Kafka.Saga.{handle_create}
use ofm_auth_service.Kafka.Saga.Registration.{running}
use ofm_auth_service.Examples.Events.{topics, create_bob}
use ofm_auth_service.Kafka.Consumer.{Delivery, Fate, committed, run_pull_consumer, handed}
use ofm_auth_service.Kafka.Saga.Committed.{create_handler}
use ofm_auth_service.Examples.Events.Consumer.{good}
use ofm_auth_service.Examples.{test_env, test_cfg, test_world}

abbrev bob_pending : PendingRegistrationResult
bob_pending = record {
  user_id = "bob-id";
  email = "bob@example.com";
  verification_code = "131844";
  expires_in = "10 minutes";
}

abbrev after_registration : World
after_registration =
    (create_pending_registration test_env (repo test_env) test_cfg "bob-id" "bob@example.com" "bob"
      "pw" test_world).1

bob-IsTrimmed : IsTrimmed "bob-id"
unfolding trim_space
bob-IsTrimmed = (refl, refl)

registered :
    create_pending_registration test_env
      (repo test_env)
      test_cfg
      "bob-id"
      "bob@example.com"
      "bob"
      "pw"
      test_world
    ≡ (ok bob_pending, after_registration)
unfolding create_pending_registration create_credential Repository.create attach_roles
    create_verification_code generate_verification_code hash_verification_code execute now_utc
    new_uuid read_random ◌>>=◌ trim_space hex_encode six_digits nth_char exists_row
    create_credential_query list_roles_by_user_id_query create_verification_code_query
    map_credential_row_to_domain ◌+ℤ◌
registered = refl

pending_registration-IsAccepted_example :
    IsAccepted test_env test_cfg "bob-id" "131844" after_registration
pending_registration-IsAccepted_example =
    pending_registration-IsAccepted test_env test_cfg "bob-id" "bob@example.com" "bob" "pw"
      test_world after_registration bob_pending (λ n. refl) (λ s u e. refl) bob-IsTrimmed registered

abbrev after_command : World
after_command =
    (handle_create test_env (running test_env test_cfg topics) topics (value create_bob)
      test_world).1

abbrev fetched_create : Delivery
fetched_create = record good { value = "create bob"; unwrap = value "create bob" }

abbrev create_run : List (Delivery × Fate) × World
create_run =
    run_pull_consumer 3 true topics.create_topic
      (create_handler test_env test_cfg topics 3 true (λ s. value create_bob)) (fetched_create ∷ [])
      test_world

create_run_commits : create_run.0 ≡ (fetched_create, committed) ∷ []
unfolding run_pull_consumer handed has_prefix cut_prefix handle_create publish_first publish_last
    publish create_pending_registration create_credential Repository.create attach_roles
    create_verification_code generate_verification_code hash_verification_code execute now_utc
    new_uuid read_random ◌>>=◌ trim_space hex_encode six_digits nth_char exists_row
    create_credential_query list_roles_by_user_id_query create_verification_code_query
    map_credential_row_to_domain ◌+ℤ◌
create_run_commits = refl
