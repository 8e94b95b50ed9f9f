-- ===== src/Web/Session.antt =====
-- transport/ws_server.py: the endpoints `/ws` and `/ws-json` once they have a token, and
-- `session_watchdog`. A step is one message, one round of a watchdog, or the end of a connection.
pub mod Owners
pub mod Reach
pub mod Revoked
use roboparty_rp_server.Prelude.{
  ℕ, Bool, true, false, ◌&&◌, ◌||◌, not, String, Option, none, some, List, [], ◌∷◌, ◌++◌, map, ◌==◌,
  string_eq, if◌then◌else◌,
}
use roboparty_rp_server.Prelude.Dict.{Dict, get, put, remove, contains}
use roboparty_rp_server.Prelude.Result.{Result, ok, err}
use roboparty_rp_server.Access.{AccessPolicy, AuthError, Claims}
use roboparty_rp_server.Lease.{Device, Config, Error, Lease, Notice, owns}
use roboparty_rp_server.Lease
use roboparty_rp_server.Web.{
  Kind, Reading, Failure, refused, lease_error, Frame, stop_cleared, stop_confirmed, stop_failed,
  connected, skill_received, skill_unsupported, expired, released, failed, invalid_message,
  auth_failed, Conn, check, is_control_error, discard,
}
use roboparty_rp_server.Web.Guard.{
  holders_without, Server, LeaseText, Outcome, latched_stop, gate, guarded_dispatch, lease_message,
}

-- A message on `/ws`: JSON text (`none` where it is no JSON object), or a frame of protobuf (`none`
-- where it is not decoded, or has no body).
pub data Message (Command : Type 0) : Type 0 where
  text : Option LeaseText → Message Command
  bytes : Option Command → Message Command

-- The body of a message on `/ws-json` that is no lease message. `none` is an envelope that could not
-- be built.
pub data JsonBody (Command : Type 0) : Type 0 where
  lease_text : LeaseText → JsonBody Command
  control skill_action : Option Command → JsonBody Command
  stop_now stop_clears other_body : JsonBody Command

module _ (d : Device) where
  pub record JsonMessage : Type 0 where
    -- `msg.get("token")`, where it is not empty
    pub token : Option String
    pub body : JsonBody d.Command

  pub send : String → List (Frame d.Reply) → Server d → Server d
  send session [] s = s
  send session (f ∷ fs) s = send session fs (record s { sent = (session, f) ∷ s.sent })

  pub token_of : Option String → String → String
  token_of none own = own
  token_of (some token) own = token

  module _ (now : ℕ → ℕ) (c : Config) (p : AccessPolicy) (kind_of : d.Command → Kind) where
    -- The `finally` of both endpoints: a release that raises keeps the session among the holders.
    pub leave : Bool → String → Server d → Server d
    leave b session s =
        let (r, l) = Lease.release d now c b session s.lease in
        record s {
          lease = l;
          holders = holders_without d now c p kind_of session r s.holders;
          conns = remove s.conns session;
        }

    -- What is caught behind a message: `AuthError` and `ControlError` are told to the client; a failed
    -- handler is only logged on `/ws`, and ends the connection on `/ws-json`; a cancellation ends it.
    pub settle_error : Bool → Bool → String → Error → Server d → Server d
    settle_error b json session Error.handler_raised s = if json then leave b session s else s
    settle_error b json session Error.cancelled s = leave b session s
    settle_error b json session e s = send session (failed (lease_error e) ∷ []) s

    pub settle : Bool → Bool → String → Outcome d → Server d
    unfolding settle_error send
    settle b json session (ok frames, s) = send session frames s
    settle b json session (err (refused e), s) = send session (failed (refused e) ∷ []) s
    settle b json session (err (lease_error e), s) = settle_error b json session e s

    -- The text of `/ws`: what is no lease message is an error.
    pub settle_text : Bool → String → Option (Outcome d) → Server d → Server d
    unfolding settle
    settle_text b session none s = send session (invalid_message ∷ []) s
    settle_text b session (some outcome) s = settle b false session outcome

    pub receive :
        Reading → Reading → Bool → String → String → Message d.Command → Server d → Server d
    unfolding settle_text settle
    receive early late b session token (text none) s = send session (invalid_message ∷ []) s
    receive early late b session token (text (some t)) s =
        settle_text b session (lease_message d now c p kind_of early late b session token t s) s
    receive early late b session token (bytes none) s = s
    receive early late b session token (bytes (some env)) s =
        settle b false session (guarded_dispatch d now c p kind_of early late b session token env s)

    -- The answers of the handler to a JSON message are not sent on.
    pub silent : List (Frame d.Reply) → Outcome d → Outcome d
    silent frames (ok _, s) = (ok frames, s)
    silent frames (err e, s) = (err e, s)

    pub dispatch_json :
        Reading
        → Reading
        → Bool
        → String
        → String
        → List (Frame d.Reply)
        → Option d.Command
        → Server d
        → Server d
    unfolding settle silent
    dispatch_json early late b session token frames none s = leave b session s
    dispatch_json early late b session token frames (some env) s =
        settle b true session
          (silent frames (guarded_dispatch d now c p kind_of early late b session token env s))

    pub receive_body :
        Reading → Reading → Bool → String → String → JsonBody d.Command → Server d → Server d
    unfolding dispatch_json settle
    receive_body early late b session token (lease_text t) s =
        elim (lease_message d now c p kind_of early late b session token t s) [
          | none ↦ s
          | some outcome ↦ settle b true session outcome
        ]
    receive_body early late b session token (control env) s =
        dispatch_json early late b session token [] env s
    receive_body early late b session token (skill_action env) s =
        dispatch_json early late b session token (skill_received ∷ skill_unsupported ∷ []) env s
    receive_body early late b session token stop_now s = settle b true session (
        gate d now c p kind_of (check p early token "control")
          (latched_stop d now c p kind_of b session stop_confirmed stop_failed) s)
    receive_body early late b session token stop_clears s = settle b true session (
        gate d now c p kind_of (check p early token "control")
          (λ s. (ok (stop_cleared ∷ []), record s { lease = (Lease.clear_stop d now c s.lease).1 }))
          s)
    receive_body early late b session token other_body s = s

    -- `claims_for`, and the rest of the loop where it does not raise. `first` is its reading.
    pub receive_json :
        Reading → Reading → Reading → Bool → String → String → JsonMessage → Server d → Server d
    unfolding receive_body
    receive_json first early late b session token msg s =
        if not (token_of msg.token token == token)
        then leave b session (send session (auth_failed ∷ []) s)
        else elim (check p first token "read") [
          | err e ↦ leave b session (send session (auth_failed ∷ []) s)
          | ok _ ↦ receive_body early late b session token msg.body s
        ]

    -- The watchdog gives up: it releases the lease and closes the connection.
    pub give_up : Bool → String → Server d → Server d
    give_up b session s = record s {
      lease = (Lease.release d now c b session s.lease).1;
      conns = remove s.conns session;
    }

    pub tell_expired : Bool → String → Result Error (Unit {0}) × Lease d → Server d → Server d
    unfolding give_up
    tell_expired b session (err e, l) s =
        if is_control_error e
        then give_up b session (record s { lease = l })
        else record s { lease = l }
    tell_expired b session (ok _, l) s =
        if owns l.owner session
        then record s { lease = l }
        else send session (expired ∷ [])
            (record s { lease = l; holders = discard session s.holders })

    -- A round of `session_watchdog`, with its two readings.
    pub tick : Reading → Reading → Bool → String → String → Server d → Server d
    unfolding tell_expired
    tick early late b session token s = elim (check p early token "read") [
      | err e ↦ give_up b session s
      | ok _ ↦
          if owns s.lease.owner session
          then (elim (check p late token "control") [
            | err e ↦ give_up b session s
            | ok _ ↦ tell_expired b session (Lease.expire d now c b s.lease) s
          ])
          else if contains s.holders session
          then send session (released ∷ []) (record s { holders = discard session s.holders })
          else s
    ]
