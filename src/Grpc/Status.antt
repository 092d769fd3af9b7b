-- ===== src/Grpc/Status.antt =====
-- The gRPC codes that the handlers use, and how a handler turns the result of a service call into
-- what the client gets.
use ofm_auth_service.Prelude.{String}
use ofm_auth_service.Domain.{Err}
use ofm_auth_service.Action.{World, Action, Outcome, ok, err, panicked}

pub data Code : Type 0 where
  internal not_found invalid_argument failed_precondition unauthenticated : Code

pub data Response (A : Type 0) : Type 0 where
  response : A → Response A
  status : Code → String → Response A
  crashed : Response A

abbrev pub reply : {A B : Type 0} → (A → B) → (Err → Code × String) → Outcome A → Response B
reply build code_of (ok a) = response (build a)
reply build code_of (err e) = let (c, text) = code_of e in status c text
reply build code_of panicked = crashed

abbrev pub respond :
    {A B : Type 0} → (A → B) → (Err → Code × String) → Action A → World → Response B × World
respond build code_of m w = let (r, w') = m w in (reply build code_of r, w')
