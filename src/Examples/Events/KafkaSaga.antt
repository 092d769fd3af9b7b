-- ===== src/Examples/Events/KafkaSaga.antt =====
-- kafka/registration_saga_subscriber.go on two commands.
use ofm_auth_service.Prelude.{◌≡◌, refl}
use ofm_auth_service.Action.{World, value, pure, publish}
use ofm_auth_service.Broker.{DeleteAuthCommand, handled, publish_first, publish_last}
use ofm_auth_service.Kafka.Saga.{handle_create, handle_delete}
use ofm_auth_service.Kafka.Saga.Answers.{IsDeleteAnswered, handle_delete-IsDeleteAnswered}
use ofm_auth_service.Examples.{test_env, test_world}
use ofm_auth_service.Examples.Events.{willing, topics, create_bob, delete_bob}

abbrev after_create_bob : World
after_create_bob = (handle_create test_env willing topics (value create_bob) test_world).1

created :
    handle_create test_env willing topics (value create_bob) test_world
    ≡ (handled, after_create_bob)
unfolding handle_create publish_first publish_last publish pure
created = refl

abbrev after_delete_bob : World
after_delete_bob = (handle_delete test_env willing topics (value delete_bob) test_world).1

deleted :
    handle_delete test_env willing topics (value delete_bob) test_world
    ≡ (handled, after_delete_bob)
unfolding handle_delete publish_first publish_last publish pure
deleted = refl

handle_delete-IsDeleteAnswered_example :
    (cmd : DeleteAuthCommand) × (value delete_bob ≡ value cmd)
    × IsDeleteAnswered test_env willing topics cmd
        (willing.delete_credential cmd.user_id test_world)
        after_delete_bob
handle_delete-IsDeleteAnswered_example =
    handle_delete-IsDeleteAnswered test_env willing topics (value delete_bob) test_world
      after_delete_bob deleted
