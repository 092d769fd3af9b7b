-- ===== src/Action.antt =====
-- Calls of the service: what they find in their environment, the state that they share, and the
-- monad that chains them. Everything that the program does not decide (the clock, random bytes,
-- fresh identifiers, failures of the database and of the broker) is a function of the number of
-- requests made so far, `tick`, so a statement over all environments covers every run.
pub mod Keeps
pub mod Inversion
pub mod Post
pub mod Quiet
pub mod Reaches
pub mod Refuses
pub mod Stops
use ofm_auth_service.Prelude.{
  ℕ, suc, String, Bool, true, false, Option, none, some, List, [], ◌∷◌, ◌++◌,
}
use ofm_auth_service.Prelude.Int.{ℤ}
use ofm_auth_service.Domain.{Time, Err}
use ofm_auth_service.Db.{Db, DbError, Postgres, Moment, Answer, answer, refuse, Statement}

-- The claims of github.com/ofm-microservices/ofm-common/pkg/jwt; times are Unix seconds.
pub record Claims : Type 0 where
  pub subject : String
  pub email : String
  pub username : String
  pub roles : List String
  pub issued_at : ℤ
  pub expires_at : ℤ

-- What a library call returns: a value, or an error with its text.
pub data Reply (A : Type 0) : Type 0 where
  value : A → Reply A
  failure : String → Reply A

-- The code and the services that the program calls and does not implement.
pub record Env : Type 0 where
  pub pg : Postgres
  pub clock : ℕ → Time  -- time.Now()
  pub moment : ℕ → Moment  -- when and how the database runs a statement
  pub fault : ℕ → Option DbError  -- a failure that no constraint explains
  pub commit_kept : ℕ → Bool  -- whether a Commit that fails so has gone through all the same
  pub random : ℕ → Option (ℕ → ℕ)  -- rand.Read, by index; a byte is taken modulo 256
  pub uuid : ℕ → Option String  -- uuid.NewV7()
  pub getenv : String → String  -- os.Getenv
  pub sha256 : String → List ℕ  -- sha256.Sum256
  pub bcrypt_matches : String → String → Bool  -- bcrypt.CompareHashAndPassword
  pub bcrypt_hash : ℕ → String → Reply String  -- bcrypt.GenerateFromPassword
  pub sign : String → Claims → Reply String  -- Signer.Sign with a secret
  -- The broker's error for a message, and whether the message went out all the same.
  pub publish_fault : ℕ → Option (Bool × String)
  pub format_time : Time → String  -- time.RFC3339Nano

-- A member of a message's JSON object: a text, or an object of texts.
pub data Member : Type 0 where
  text : String → Member
  object : List (String × String) → Member

-- A message on a topic or subject.
pub record Message : Type 0 where
  pub topic : String
  pub fields : List (String × Member)

pub record World : Type 0 where
  pub db : Db
  pub tick : ℕ
  pub sent : List Message  -- oldest first

-- `panicked` is a Go panic, which no caller recovers from.
pub data Outcome (A : Type 0) : Type 0 where
  ok : A → Outcome A
  err : Err → Outcome A
  panicked : Outcome A

abbrev pub succeeded : {A : Type 0} → Outcome A → Bool
succeeded (ok a) = true
succeeded (err e) = false
succeeded panicked = false

abbrev pub Action : Type 0 → Type 0
Action A = World → Outcome A × World

unfoldable pub pure : {A : Type 0} → A → Action A
pure a w = (ok a, w)

unfoldable pub throw : {A : Type 0} → Err → Action A
throw e w = (err e, w)

abbrev pub continue : {A B : Type 0} → Outcome A → (A → Action B) → Action B
continue (ok a) f w = f a w
continue (err e) f w = (err e, w)
continue panicked f w = (panicked, w)

-- A value that a library call may lack, with the error that is returned then.
unfoldable pub or_error : {A : Type 0} → Option A → Err → Action A
or_error none e w = (err e, w)
or_error (some a) e w = (ok a, w)

-- An early return of an error.
unfoldable pub fail_if : Bool → Err → Action (Unit {0})
fail_if true e w = (err e, w)
fail_if false e w = (ok tt, w)

-- `if err != nil { return nil, e }` behind a call: whatever its error was, `e` is returned.
abbrev pub catch_with : {A : Type 0} → Outcome A → Err → Outcome A
catch_with (ok a) e = ok a
catch_with (err e') e = err e
catch_with panicked e = panicked

unfoldable pub or_err : {A : Type 0} → Action A → Err → Action A
or_err m e w = let (r, w') = m w in (catch_with r e, w')

infixl 5 ◌>>=◌ ◌>>◌
-- Opening this opens the actions above that consult no environment.
unfoldable pub ◌>>=◌ : {A B : Type 0} → Action A → (A → Action B) → Action B
unfolding pure throw or_error fail_if or_err
◌>>=◌ m f w = let (r, w') = m w in continue r f w'

abbrev pub ◌>>◌ : {A B : Type 0} → Action A → Action B → Action B
m >> k = m >>= λ _. k

-- The next request to the environment.
abbrev pub advance : World → World
advance w = record w { tick = suc w.tick }

abbrev pub with_db : Db → World → World
with_db db w = record w { db = db }

module _ (env : Env) where
  unfoldable pub now_utc : Action Time
  now_utc w = (ok (env.clock w.tick), advance w)

  -- uuid.Must(uuid.NewV7()).String()
  unfoldable pub new_uuid : Action String
  new_uuid w = elim (env.uuid w.tick) [ none ↦ (panicked, advance w) | some u ↦ (ok u, advance w) ]

  -- rand.Read into a buffer, with its error as `none`.
  unfoldable pub read_random : Action (Option (ℕ → ℕ))
  read_random w = (ok (env.random w.tick), advance w)

  abbrev settle : {A : Type 0} → (DbError → Err) → Answer A → World → Outcome A × World
  settle translate (answer a db) w = (ok a, with_db db w)
  settle translate (refuse e) w = (err (translate e), w)

  abbrev guarded : {A : Type 0} → Option DbError → (DbError → Err) → Action A → Action A
  guarded none translate m w = m w
  guarded (some e) translate m w = (err (translate e), w)

  -- One request to the database that may fail, `translate` making the error that is returned.
  unfoldable pub request : {A : Type 0} → (DbError → Err) → Action A → Action A
  request translate m w = guarded (env.fault w.tick) translate m (advance w)

  -- A statement, run and its result read.
  unfoldable pub execute : {A : Type 0} → (DbError → Err) → Statement A → Action A
  unfolding request
  execute translate s w =
      request translate (λ w'. settle translate (s (env.moment w.tick) w.db) w') w

  -- A Commit with the error that it reports, and whether it has gone through all the same: the
  -- tables of the transaction stay, or the deferred Rollback finds those of its beginning.
  abbrev pub commit_with :
      {A : Type 0} → (DbError → Err) → Db → Option DbError → Bool → A → Action A
  commit_with translate before none kept a w = (ok a, w)
  commit_with translate before (some e) true a w = (err (translate e), w)
  commit_with translate before (some e) false a w = (err (translate e), with_db before w)

  -- Commit behind a body that succeeded, and the deferred Rollback behind one that did not.
  abbrev pub conclude : {A : Type 0} → (DbError → Err) → Db → Outcome A × World → Outcome A × World
  conclude translate before (ok a, w) =
      commit_with translate before (env.fault w.tick) (env.commit_kept w.tick) a (advance w)
  conclude translate before (err e, w) = (err e, with_db before w)
  conclude translate before (panicked, w) = (panicked, with_db before w)

  -- BeginTxx, the body, and Commit or Rollback.
  unfoldable pub transaction : {A : Type 0} → (DbError → Err) → Action A → Action A
  unfolding request ◌>>=◌
  transaction translate body w = conclude translate w.db ((request translate (pure tt) >> body) w)

  -- EventBroker.Publish, with its error.
  unfoldable pub publish : Message → World → Option String × World
  publish msg w = elim (env.publish_fault w.tick) [
    | none ↦ (none, record (advance w) { sent = w.sent ++ msg ∷ [] })
    | some (true, e) ↦ (some e, record (advance w) { sent = w.sent ++ msg ∷ [] })
    | some (false, e) ↦ (some e, advance w)
  ]
