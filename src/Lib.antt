-- ===== src/Lib.antt =====
-- auth-service keeps credentials, verification codes and refresh tokens in PostgreSQL. The
-- application service (internal/application) is called over gRPC and by the handlers of the
-- registration saga's and the recovery's commands, which arrive over Kafka (the NATS transport is
-- kept beside it).
--
-- Which file models which part:
--   Domain, Config     internal/domain, config: records, status constants, error values, Load;
--                      Config/Defaults: the values of the envDefault tags
--   Db                 migration/postgres and internal/infra/write/postgres/model: the tables;
--                      Db/Statements: query.go, one function for each statement; Db/Invariant: what
--                      the schema keeps; Db/Tokens: the statements on refresh tokens; Db/Sessions:
--                      the table of refresh tokens as a map from hashes to sessions
--   Action             calls as state passing: the environment, the tables, the messages sent, and
--                      the monad of outcomes; its children hold the rules for reasoning about calls
--   Repository         internal/infra/write/postgres: repository.go, error_translator.go, mapper;
--                      Repository/Transactions: rotations and revocations side by side
--   Storage            pkg/storage/postgres: the connection's source name and the migrations
--   Service            internal/application/service.go; Service/Encoding: hex, %06d, base64
--   Grpc               internal/presentation/grpc/server.go: the handlers and their statuses, and
--                      Grpc/Server: the constructor, Start and Shutdown
--   Broker             internal/presentation/event_broker/type.go: handlers and publication
--   Kafka              event_broker/kafka: the saga's and the recovery's handlers, the consumer's loop,
--                      Kafka/Subscription: the constructors, Publish and Subscribe, and
--                      Kafka/Readers: the readers and Close
--   Nats               event_broker/nats: the saga's handlers and payloads, failure reasons;
--                      Nats/Client: the client library's calls; Nats/Broker: the broker and the start
--                      of the consumers; Nats/PullConsumer: validation and plans, and its child
--                      Runtime: fetcher, channel and workers; Nats/Bootstrap: pkg/messaging/nats
--   Lifecycle          internal/fx/presentation.go: the restart loops and their backoff
--   Wiring             internal/fx and cmd/auth-service: what each function takes, its error and its
--                      hook; Wiring/Container: the rules by which the container calls them
--   Prelude            helpers on lists, integers, texts and tables
--   Examples           a concrete environment and the theorems applied to it
--
-- A repository method or a service method is a function of the same name in snake case, from the
-- state to an outcome (a value, an error, a panic) and the state behind it. The service takes the
-- repository as a record of methods (AuthRepository), the transports take the service as one
-- (AuthService), as the interfaces of the source do.
--
-- The environment (Action.Env) gives the clock, random bytes, fresh identifiers, failures of the
-- database and of the broker, each as a function of the number of requests made so far, and
-- SHA-256, bcrypt, the JWT signer, os.Getenv, and PostgreSQL's reading of UUIDs, precision of times
-- and order of texts. Nothing is assumed of it but what a theorem names. A statement that fails has
-- no effect, and neither has a transaction whose body fails. A Commit that reports an error may
-- have gone through all the same, which the environment decides. Calls follow one another, each
-- whole before the next, but in Repository/Transactions. Texts are valid UTF-8. Times are
-- nanoseconds, and with durations and Go's ints they are integers without a bound; lengths of
-- buffers are not bounded either. Where a statement asks for one row of several, the environment
-- picks it. JSON is decoded by parameters, and a message is the members of its object.
--
-- What runs side by side is a machine: the NATS consumer's fetcher and workers with their channel
-- and context, and a restart loop with OnStop. A move is one action of one goroutine, with what it
-- finds (the choice of a select, the time, an answer of the server, the handler's error); a
-- goroutine that blocks has no move. So are rotations and revocations, in two actions each, up to
-- the locked row and from there to Commit, and the start of the process, in calls of the container.
-- The NATS client, the migration library and the platform are records of functions over a state or a
-- text, and where a theorem relies on what they do, it says so.
--
-- Other loops are structural recursion, over the rows of a table, the messages of a run or the
-- rounds of a fetcher; no fuel is used.
--
-- Not modelled: logging and metrics, the outbox, which database triggers fill with each changed row
-- and each deleted one, the library's retry queue that a Kafka consumer starts beside itself, the
-- release of a claim, which the library stores (its later answers are parameters), and the limits
-- of the connection pool. env.Parse is a library's: the settings that it reads and its error are
-- parameters.
pub mod Prelude
pub mod Domain
pub mod Config
pub mod Db
pub mod Action
pub mod Repository
pub mod Service
pub mod Grpc
pub mod Broker
pub mod Nats
pub mod Kafka
pub mod Lifecycle
pub mod Storage
pub mod Wiring
pub mod Examples
