-- ===== src/Grpc/Server.antt =====
-- The constructor, Start and Shutdown of grpc/server.go. The answers of net.Listen, Serve and Close
-- are parameters.
use ofm_auth_service.Prelude.{String, Bool, true, false, Option, none, some, ◌⊎◌, inl, inr}

-- ErrNilAuthService and ErrNilLogger of grpc/error.go.
pub data ServerError : Type 0 where
  nil_auth_service nil_logger : ServerError

-- net.ErrClosed, or another error of a listener's Close.
pub data CloseError : Type 0 where
  already_closed : CloseError
  close_failed : String → CloseError

-- Whether the server has its listener, and whether it was stopped.
pub record Server : Type 0 where
  pub listening : Bool
  pub stopped : Bool

-- NewServer; `inl` is the error.
unfoldable pub new_server : Bool → Bool → ServerError ⊎ Server
new_server true true = inr (record { listening = false; stopped = false })
new_server true false = inl nil_logger
new_server false has_logger = inl nil_auth_service

-- Start, with the errors of Listen and Serve.
unfoldable pub start_server : Option String → Option String → Server → Option String × Server
start_server (some e) served s = (some e, s)
start_server none served s = (served, record s { listening = true })

abbrev close_error : Bool → Option CloseError → Option String
close_error false e = none
close_error true none = none
close_error true (some already_closed) = none
close_error true (some (close_failed e)) = some e

-- Shutdown, with the error of Close.
unfoldable pub shutdown : Option CloseError → Server → Option String × Server
shutdown closed s = (close_error s.listening closed, record s { stopped = true })
