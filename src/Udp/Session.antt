-- ===== src/Udp/Session.antt =====
-- auth/udp_session.py: `SessionManager`. `datetime.now()` is an argument, in milliseconds.
pub mod Cleanup
pub mod Keeps
mod Tests
use roboparty_rp_server.Prelude.{
  ℕ, ◌+◌, Bool, true, false, String, Option, none, some, List, [], ◌∷◌, map, ltb, ◌==◌, string_eq,
  if◌then◌else◌, length,
}
use roboparty_rp_server.Prelude.Dict.{Dict, get, put, remove, remove_all, values}
use roboparty_rp_server.Udp.Auth.{Addr, Text, addr_key}

pub data SessionState : Type 0 where
  disconnected authenticating connected : SessionState

pub record UdpSession : Type 0 where
  pub addr : Addr
  pub device_id : String
  pub device_name : String
  pub token : String
  pub state : SessionState
  pub last_seen : ℕ
  pub last_heartbeat : ℕ
  pub sequence : ℕ
  pub last_control_timestamp : ℕ

pub record SessionManager : Type 0 where
  pub sessions : Dict String UdpSession
  pub timeout : ℕ

unfoldable pub is_connected : SessionState → Bool
is_connected connected = true
is_connected _ = false

pub session_expired : ℕ → ℕ → UdpSession → Bool
session_expired timeout now s = ltb (s.last_seen + timeout) now

pub expired_sessions : ℕ → ℕ → List UdpSession → List UdpSession
unfolding session_expired
expired_sessions timeout now [] = []
expired_sessions timeout now (s ∷ ss) =
    let rest = expired_sessions timeout now ss in
    if session_expired timeout now s then s ∷ rest else rest

module _ (x : Text) where
  pub add_session : UdpSession → SessionManager → SessionManager
  add_session session m = record m { sessions = put m.sessions (addr_key x session.addr) session }

  pub remove_session : Addr → SessionManager → Option UdpSession × SessionManager
  remove_session addr m = (
    get m.sessions (addr_key x addr),
    record m { sessions = remove m.sessions (addr_key x addr) },
  )

  unfoldable pub get_session : Addr → SessionManager → Option UdpSession
  get_session addr m = get m.sessions (addr_key x addr)

  -- A change of the session object that the address has, if it has one.
  pub change :
      (UdpSession → UdpSession) → String → Option UdpSession → SessionManager → SessionManager
  change f key none m = m
  change f key (some session) m = record m { sessions = put m.sessions key (f session) }

  unfoldable pub change_session : (UdpSession → UdpSession) → Addr → SessionManager → SessionManager
  unfolding get_session change
  change_session f addr m = change f (addr_key x addr) (get_session addr m) m

  pub update_activity : ℕ → Addr → SessionManager → SessionManager
  unfolding change_session
  update_activity now = change_session (λ s. record s { last_seen = now })

  pub update_heartbeat : ℕ → Addr → SessionManager → SessionManager
  unfolding change_session
  update_heartbeat now = change_session (λ s. record s { last_heartbeat = now })

  pub set_connected : Addr → String → SessionManager → SessionManager
  unfolding change_session
  set_connected addr token =
      change_session (λ s. record s { state = connected; token = token }) addr

  pub cleanup_expired : ℕ → SessionManager → List UdpSession × SessionManager
  unfolding expired_sessions
  cleanup_expired now m =
      let expired = expired_sessions m.timeout now (values m.sessions) in
      (
        expired,
        record m { sessions = remove_all (map (λ s. addr_key x s.addr) expired) m.sessions },
      )

pub session_count : SessionManager → ℕ
session_count m = length m.sessions

pub connected_of : List UdpSession → List UdpSession
unfolding is_connected
connected_of [] = []
connected_of (s ∷ ss) =
    let rest = connected_of ss in if is_connected s.state then s ∷ rest else rest

pub connected_sessions : SessionManager → List UdpSession
unfolding connected_of
connected_sessions m = connected_of (values m.sessions)
