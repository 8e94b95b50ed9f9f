-- ===== src/Web.antt =====
-- transport/ws_server.py: the control connections of `create_app`, from the check of a message to the
-- lease. An `Envelope` is a command of the lease's device; a reading is what `access.verify` sees at
-- one moment.
pub mod Own
mod Tests
pub mod Guard
pub mod Session
pub mod Handshake
pub mod Events
use roboparty_rp_server.Prelude.{
  ℕ, Bool, true, false, ◌&&◌, ◌||◌, not, String, Option, none, some, List, [], ◌∷◌, ◌++◌, map, ◌==◌,
  string_eq, if◌then◌else◌,
}
use roboparty_rp_server.Prelude.Dict.{Dict, contains}
use roboparty_rp_server.Prelude.Result.{Result, ok, err}
use roboparty_rp_server.Pairing.{Pairing}
use roboparty_rp_server.Access.{AccessPolicy, AuthError, Claims, verify}
use roboparty_rp_server.Lease.{
  Device, Config, Error, Lease, Notice, Authorize, absent, allows, refuses,
}
use roboparty_rp_server.Lease

-- The kinds of envelopes that `guarded_dispatch` tells apart.
pub data Kind : Type 0 where
  query reset policy_stop stop_clear stop_request command : Kind

-- The tokens that are valid, with their claims, and the apps on file.
pub record Reading : Type 0 where
  pub decode : String → Option Claims
  pub pairing : Pairing

-- An `AuthError`, or what a call of the lease raised.
pub data Failure : Type 0 where
  refused : AuthError → Failure
  lease_error : Error → Failure

-- What is sent to a client. `answered` carries a reply of the handler; the others are built here.
pub data Frame (Reply : Type 0) : Type 0 where
  answered : Reply → Frame Reply
  policy_stopped policy_failed : Frame Reply
  stop_cleared stop_confirmed stop_failed : Frame Reply
  connected heartbeat skill_received skill_unsupported : Frame Reply
  notice : Notice → Frame Reply
  expired released : Frame Reply
  failed : Failure → Frame Reply
  invalid_message auth_failed : Frame Reply

-- An open connection: the credential that it was opened with, and which of the two endpoints.
pub record Conn : Type 0 where
  pub token : String
  pub json : Bool

pub scope_of : Kind → String
scope_of query = "read"
scope_of reset = "admin"
scope_of _ = "control"

pub check : AccessPolicy → Reading → String → String → Result AuthError Claims
check p r token scope = verify r.decode p r.pairing token scope

-- The callback `lambda: access.verify(...)`, at the time when the lease calls it.
pub authorize_of : Result AuthError Claims → Authorize
authorize_of (ok _) = allows
authorize_of (err _) = refuses

-- `ControlError`, which the handlers of `lease.stop` catch.
pub is_control_error : Error → Bool
is_control_error Error.denied = false
is_control_error Error.handler_raised = false
is_control_error Error.cancelled = false
is_control_error _ = true

-- `lease_holders`, a set of sessions.
pub add_holder : String → List String → List String
add_holder session holders = if contains holders session then holders else session ∷ holders

pub discard : String → List String → List String
discard session [] = []
discard session (s ∷ ss) = let rest = discard session ss in if s == session then rest else s ∷ rest
