-- ===== src/Udp/Listener.antt =====
-- transport/udp_listener.py: `UDPJoyListener`, one datagram at a time. What it does to the world is
-- a list of effects; readings of the clocks and random values come as arguments.
pub mod Guards
pub mod Commands
pub mod Stale
pub mod Replay
mod Tests
use roboparty_rp_server.Prelude.{
  ℕ, ◌+◌, Bool, true, false, ◌&&◌, ◌||◌, not, String, Option, none, some, List, [], ◌∷◌, ◌++◌, ltb,
  leb, ◌==◌, nat_eq, string_eq, if◌then◌else◌,
}
use roboparty_rp_server.Prelude.Dict.{Dict, get, put, remove, is_some}
use roboparty_rp_server.Udp.Auth.{
  Addr, Text, Auth, addr_key, generate_challenge, verify_signature, verify_token,
}
use roboparty_rp_server.Udp.Auth
use roboparty_rp_server.Udp.Session.{
  UdpSession, SessionManager, authenticating, connected, is_connected, add_session, get_session,
  change_session, update_activity, update_heartbeat, set_connected, connected_sessions,
}
use roboparty_rp_server.Udp.Session

pub data Body : Type 0 where
  auth_request challenge_response : String → String → Body
  -- token and status
  stop : String → String → Body
  control heartbeat : String → Body
  skill_action ignored : Body

-- A decoded envelope: its header and body, and the axes and buttons that only the handler reads.
pub record Packet : Type 0 where
  pub timestamp_ms : ℕ
  pub sequence : ℕ
  pub body : Body
  pub payload : List ℕ

pub data Reply : Type 0 where
  challenge : String → Reply
  auth_ok : String → ℕ → Reply
  auth_failed beat : Reply

-- What leaves the listener. A task is named by its address key.
pub data Effect : Type 0 where
  sends : Reply → Addr → Effect
  handles : Packet → Effect
  resets_joy runs_stop_script : Effect
  starts_telemetry cancels_telemetry starts_ack cancels_ack : String → Effect

pub record Listener : Type 0 where
  pub auth : Auth
  pub sessions : SessionManager
  pub transport : Bool
  pub telemetry : Bool
  pub joy : Bool
  -- the keys of the tasks; of an acknowledging task, whether it is done
  pub telemetry_tasks : Dict String (Unit {0})
  pub stop_ack_tasks : Dict String Bool
  pub stop_latched : Bool
  pub joy_owner : Option String
  -- the newest first
  pub effects : List Effect

-- The readings and the random values that one datagram may consume.
pub record Inputs : Type 0 where
  pub seen : ℕ
  pub checked : ℕ
  pub issued : ℕ
  pub answered : ℕ
  pub code : String
  pub token : String

pub emit : Effect → Listener → Listener
emit e l = record l { effects = e ∷ l.effects }

pub send : Reply → Addr → Listener → Listener
unfolding emit
send reply addr l = if l.transport then emit (sends reply addr) l else l

-- `task = self._stop_ack_tasks.pop(key, None)`, and `task.cancel()` if there was one
pub pop_ack : String → Listener → Listener
unfolding emit
pop_ack key l =
    let popped = record l { stop_ack_tasks = remove l.stop_ack_tasks key } in
    if is_some (get l.stop_ack_tasks key) then emit (cancels_ack key) popped else popped

pub pop_telemetry : String → Listener → Listener
unfolding emit
pop_telemetry key l =
    let popped = record l { telemetry_tasks = remove l.telemetry_tasks key } in
    if is_some (get l.telemetry_tasks key) then emit (cancels_telemetry key) popped else popped

pub reset_joy : Listener → Listener
unfolding emit
reset_joy l = if l.joy then emit resets_joy l else l

session_connected : Option UdpSession → Bool
unfolding is_connected
session_connected none = false
session_connected (some s) = is_connected s.state

-- The replay checks of `_authorize`; a 0 is a header field that is not set.
pub is_fresh : Packet → UdpSession → Bool
is_fresh packet s =
    (packet.timestamp_ms == 0 || ltb s.last_control_timestamp packet.timestamp_ms)
    && (packet.sequence == 0 || ltb s.sequence packet.sequence)

pub mark : Packet → UdpSession → UdpSession
mark packet s = record s {
  last_control_timestamp =
      if packet.timestamp_ms == 0 then s.last_control_timestamp else packet.timestamp_ms;
  sequence = if packet.sequence == 0 then s.sequence else packet.sequence;
}

module _ (x : Text) where
  pub session_ok : Addr → Listener → Bool
  unfolding session_connected
  session_ok addr l = session_connected (get_session x addr l.sessions)

  pub check_replay : Packet → Addr → Option UdpSession → Listener → Bool × Listener
  unfolding is_fresh mark
  check_replay packet addr none l = (false, l)
  check_replay packet addr (some s) l =
      if is_fresh packet s
      then (true, record l { sessions = change_session x (mark packet) addr l.sessions })
      else (false, l)

  pub check_token : Packet → Addr → Option String × Auth → Listener → Bool × Listener
  unfolding check_replay session_ok
  check_token packet addr (none, auth) l = (false, record l { auth = auth })
  check_token packet addr (some _, auth) l =
      let l' = record l { auth = auth } in
      if session_ok addr l'
      then check_replay packet addr (get_session x addr l'.sessions) l'
      else (false, l')

  -- `_authorize`; no token and an empty token are the same to it.
  pub authorize : Inputs → String → Bool → Packet → Addr → Listener → Bool × Listener
  unfolding check_token check_replay
  authorize i token require_token packet addr l =
      if token == ""
      then (if require_token
          then (false, l)
          else check_replay packet addr (get_session x addr l.sessions) l)
      else check_token packet addr (verify_token i.checked token l.auth) l

  pub handle_auth_request : Inputs → String → String → Addr → Listener → Listener
  unfolding send
  handle_auth_request i device_id device_name addr l =
      if device_id == ""
      then l
      else send (challenge i.code) addr (record l {
        sessions =
            add_session x
              (record {
                addr = addr;
                device_id = device_id;
                device_name = device_name;
                token = "";
                state = authenticating;
                last_seen = i.seen;
                last_heartbeat = i.seen;
                sequence = 0;
                last_control_timestamp = 0;
              })
              l.sessions;
        auth = generate_challenge x i.code i.checked addr l.auth;
      })

  pub start_telemetry : String → Listener → Listener
  unfolding emit
  start_telemetry key l =
      if l.telemetry && not (is_some (get l.telemetry_tasks key))
      then emit (starts_telemetry key) (record l { telemetry_tasks = put l.telemetry_tasks key tt })
      else l

  pub finish_challenge : Inputs → Addr → Option String × Auth → Listener → Listener
  unfolding send start_telemetry
  finish_challenge i addr (none, auth) l = send auth_failed addr (record l { auth = auth })
  finish_challenge i addr (some token, auth) l =
      send (auth_ok token (i.answered + auth.token_ttl)) addr (
        start_telemetry (addr_key x addr)
          (record l { auth = auth; sessions = set_connected x addr token l.sessions }))

  pub handle_challenge_response : Inputs → String → String → Addr → Listener → Listener
  unfolding finish_challenge
  handle_challenge_response i device_id signature addr l =
      if device_id == "" || signature == ""
      then l
      else finish_challenge i addr
          (verify_signature x i.checked i.issued i.token addr device_id signature l.auth) l

  clear_latch : Addr → Bool × Listener → Listener
  clear_latch addr (false, l) = l
  clear_latch addr (true, l) = record (pop_ack (addr_key x addr) l) { stop_latched = false }

  is_running : Option Bool → Bool
  is_running none = false
  is_running (some finished) = not finished

  start_ack : String → Listener → Listener
  unfolding emit is_running
  start_ack key l =
      if is_running (get l.stop_ack_tasks key)
      then l
      else emit (starts_ack key) (record l { stop_ack_tasks = put l.stop_ack_tasks key false })

  set_latch : Listener → Listener
  unfolding reset_joy emit
  set_latch l =
      if l.stop_latched
      then l
      else emit runs_stop_script (reset_joy (record l { stop_latched = true }))

  latch : Addr → Bool × Listener → Listener
  unfolding set_latch start_ack
  latch addr (false, l) = l
  latch addr (true, l) = start_ack (addr_key x addr) (set_latch l)

  pub handle_stop : Inputs → Packet → String → String → Addr → Listener → Listener
  unfolding clear_latch latch pop_ack
  handle_stop i packet token status addr l =
      if status == "received"
      then pop_ack (addr_key x addr) l
      else if status == "clear"
      then clear_latch addr (authorize i token true packet addr l)
      else if not (status == "")
      then l
      else latch addr (authorize i token true packet addr l)

  take_control : Packet → Addr → Bool × Listener → Listener
  unfolding emit
  take_control packet addr (false, l) = l
  take_control packet addr (true, l) =
      emit (handles packet) (record l { joy_owner = some (addr_key x addr) })

  pub handle_control : Inputs → Packet → String → Addr → Listener → Listener
  unfolding take_control
  handle_control i packet token addr l =
      if l.stop_latched then l else take_control packet addr (authorize i token true packet addr l)

  beat_session : Inputs → Addr → Option String × Auth → Listener → Listener
  beat_session i addr (none, auth) l = record l { auth = auth }
  beat_session i addr (some _, auth) l = record l {
    auth = auth;
    sessions = update_heartbeat x i.seen addr l.sessions;
  }

  pub handle_heartbeat : Inputs → String → Addr → Listener → Listener
  unfolding beat_session
  handle_heartbeat i token addr l =
      if token == "" then l else beat_session i addr (verify_token i.checked token l.auth) l

  pub handle_skill_action : Inputs → Packet → Addr → Listener → Listener
  handle_skill_action i packet addr l =
      if l.stop_latched then l else (authorize i "" false packet addr l).1

  pub process : Inputs → Packet → Body → Addr → Listener → Listener
  unfolding handle_auth_request handle_challenge_response handle_stop handle_control
      handle_heartbeat handle_skill_action
  process i packet (auth_request device_id device_name) addr l =
      handle_auth_request i device_id device_name addr l
  process i packet (challenge_response device_id signature) addr l =
      handle_challenge_response i device_id signature addr l
  process i packet (stop token status) addr l = handle_stop i packet token status addr l
  process i packet (control token) addr l = handle_control i packet token addr l
  process i packet (heartbeat token) addr l = handle_heartbeat i token addr l
  process i packet skill_action addr l = handle_skill_action i packet addr l
  process i packet ignored addr l = l

  -- A datagram that `unframe_udp` passed over is `none`.
  pub datagram_received : Inputs → Option Packet → Addr → Listener → Listener
  datagram_received i none addr l = record l { sessions = update_activity x i.seen addr l.sessions }
  datagram_received i (some packet) addr l =
      process i packet packet.body addr
        (record l { sessions = update_activity x i.seen addr l.sessions })

  -- The end of an acknowledging task, after `STOP_ACK_MAX_SECONDS`.
  pub ack_ends : String → Listener → Listener
  ack_ends key l = record l { stop_ack_tasks = remove l.stop_ack_tasks key }

  send_beats : List UdpSession → Listener → Listener
  unfolding send
  send_beats [] l = l
  send_beats (s ∷ ss) l = send_beats ss (send beat s.addr l)

  -- One round of `_heartbeat_loop`.
  pub heartbeat_round : Listener → Listener
  unfolding send_beats
  heartbeat_round l = send_beats (connected_sessions l.sessions) l

  is_owner : Option String → String → Bool
  is_owner none key = false
  is_owner (some o) key = key == o

  release_joy : UdpSession → Listener → Listener
  unfolding is_owner emit
  release_joy s l =
      if l.joy && (is_connected s.state && is_owner l.joy_owner (addr_key x s.addr))
      then emit resets_joy (record l { joy_owner = none })
      else l

  drop_sessions : List UdpSession → Listener → Listener
  unfolding release_joy pop_ack pop_telemetry
  drop_sessions [] l = l
  drop_sessions (s ∷ ss) l =
      let key = addr_key x s.addr in
      drop_sessions ss (release_joy s (pop_ack key (pop_telemetry key l)))

  -- One round of `_cleanup_loop`, whose three parts read their clocks in turn.
  pub cleanup_round : ℕ → ℕ → ℕ → Listener → Listener
  unfolding drop_sessions
  cleanup_round seen now later l =
      let (expired, sessions') = Session.cleanup_expired x seen l.sessions in
      let (_, auth') = Auth.cleanup_expired now later Auth.challenge_max_age l.auth in
      drop_sessions expired (record l { sessions = sessions'; auth = auth' })
