-- ===== src/Examples/Events/NatsSaga.antt =====
-- nats/saga_registration_handler.go on two commands.
use ofm_auth_service.Prelude.{◌≡◌, refl}
use ofm_auth_service.Action.{World, value, pure, publish}
use ofm_auth_service.Broker.{handled, publish_first, publish_last}
use ofm_auth_service.Nats.Saga.{handle_create_auth_command, handle_delete_auth_command}
use ofm_auth_service.Examples.{test_env, test_world}
use ofm_auth_service.Examples.Events.{willing, subjects, create_bob, delete_bob}

abbrev after_create_bob : World
after_create_bob =
    (handle_create_auth_command test_env willing subjects (value create_bob) test_world).1

created :
    handle_create_auth_command test_env willing subjects (value create_bob) test_world
    ≡ (handled, after_create_bob)
unfolding handle_create_auth_command publish_first publish_last publish pure
created = refl

abbrev after_delete_bob : World
after_delete_bob =
    (handle_delete_auth_command test_env willing subjects (value delete_bob) test_world).1

deleted :
    handle_delete_auth_command test_env willing subjects (value delete_bob) test_world
    ≡ (handled, after_delete_bob)
unfolding handle_delete_auth_command publish_first publish_last publish pure
deleted = refl
