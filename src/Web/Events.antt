-- ===== src/Web/Events.antt =====
-- transport/ws_server.py: any interleaving of connections, their messages and watchdogs. Sessions
-- are random; each step runs from one wait for the lease to the next.
pub mod Owners
pub mod Reach
use roboparty_rp_server.Prelude.{
  ℕ, Bool, true, false, String, Option, none, some, List, [], ◌∷◌, string_eq, if◌then◌else◌,
}
use roboparty_rp_server.Prelude.Dict.{Dict, get, put}
use roboparty_rp_server.Access.{AccessPolicy}
use roboparty_rp_server.Lease.{Device, Config, Lease}
use roboparty_rp_server.Web.{Kind, Reading, Conn, connected}
use roboparty_rp_server.Web.Guard.{Server}
use roboparty_rp_server.Web.Session.{Message, JsonMessage, send, receive, receive_json, tick, leave}

module _ (d : Device) where
  -- The events of the connections, each with its readings and whether its coroutine is cancelled.
  pub data Event : Type 0 where
    -- a connection that has a token
    opens : String → Conn → Event
    receives : Reading → Reading → Bool → String → Message d.Command → Event
    receives_json : Reading → Reading → Reading → Bool → String → JsonMessage d → Event
    watches : Reading → Reading → Bool → String → Event
    -- the end of the connection, for whatever reason
    leaves : Bool → String → Event

  pub start : Lease d → Server d
  start l = record { lease = l; holders = []; conns = []; sent = [] }

  module _ (now : ℕ → ℕ) (c : Config) (p : AccessPolicy) (kind_of : d.Command → Kind) where
    -- `/ws` sends its state first.
    pub open_conn : String → Conn → Server d → Server d
    open_conn session conn s =
        let s' : Server d = record s { conns = put s.conns session conn } in
        if conn.json then s' else send d session (connected ∷ []) s'

    -- What happens to a connection that is open; a message to another has no reader.
    pub step : Event → Server d → Server d
    unfolding open_conn
    step (opens session conn) s = open_conn session conn s
    step (receives early late b session msg) s = elim (get s.conns session) [
      | none ↦ s
      | some conn ↦ receive d now c p kind_of early late b session conn.token msg s
    ]
    step (receives_json first early late b session msg) s = elim (get s.conns session) [
      | none ↦ s
      | some conn ↦ receive_json d now c p kind_of first early late b session conn.token msg s
    ]
    step (watches early late b session) s = elim (get s.conns session) [
      | none ↦ s
      | some conn ↦ tick d now c p kind_of early late b session conn.token s
    ]
    step (leaves b session) s = leave d now c p kind_of b session s

    pub run : List Event → Server d → Server d
    run [] s = s
    run (e ∷ es) s = run es (step e s)
