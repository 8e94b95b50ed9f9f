-- ===== src/Udp/Listener/Tests.antt =====
-- A session that drives: witnesses of the theorems on the listener.
use roboparty_rp_server.Prelude.{
  List, ◌≡◌, refl, true, false, [], ◌∷◌, none, some, ◌⊎◌, inl, arith, string_eq,
}
use roboparty_rp_server.Prelude.Dict.{get}
use roboparty_rp_server.Udp.Auth.{Addr, Text, addr_key, verify_token}
use roboparty_rp_server.Udp.Auth
use roboparty_rp_server.Udp.Session.{UdpSession, connected, get_session, is_connected}
use roboparty_rp_server.Udp.Listener.{
  Listener, Packet, Inputs, control, heartbeat, authorize, datagram_received, is_fresh,
  check_replay, session_ok, session_connected,
}
use roboparty_rp_server.Udp.Listener
use roboparty_rp_server.Udp.Listener.Commands.{handled, Drives, datagram_received-handled}
use roboparty_rp_server.Udp.Listener.Guards.{Accepts, authorize_ok}
use roboparty_rp_server.Udp.Listener.Replay.{Event, datagram, beats, cleans, run, authorize_once}

abbrev plain : Text
plain = record { decimal = λ _. "9"; lower = λ s. s; hmac = λ k message. message }

abbrev phone : Addr
phone = record { host = "h"; port = 9 }

abbrev driver : UdpSession
driver = record {
  addr = phone;
  device_id = "d";
  device_name = "";
  token = "t";
  state = connected;
  last_seen = 1000;
  last_heartbeat = 1000;
  sequence = 4;
  last_control_timestamp = 900;
}

abbrev link : Listener
link = record {
  auth = record {
    secret_key = "k";
    token_ttl = 60_000;
    challenges = [];
    tokens = ("t", record { device_id = "d"; expires_at = 62_000 }) ∷ [];
  };
  sessions = record { sessions = ("h:9", driver) ∷ []; timeout = 30_000 };
  transport = true;
  telemetry = false;
  joy = true;
  telemetry_tasks = [];
  stop_ack_tasks = [];
  stop_latched = false;
  joy_owner = none;
  effects = [];
}

abbrev stick : Packet
stick = record { timestamp_ms = 950; sequence = 5; body = control "t"; payload = 12 ∷ [] }

abbrev at_noon : Inputs
at_noon = record {
  seen = 2000;
  checked = 2000;
  issued = 2000;
  answered = 2000;
  code = "c";
  token = "u";
}

passes : (authorize plain at_noon "t" true stick phone link).0 ≡ true
unfolding authorize Listener.check_token session_ok session_connected check_replay is_fresh
    verify_token Auth.check_token get_session get addr_key is_connected
passes = ground arith

authorize_ok_example : Accepts plain at_noon "t" stick phone link
authorize_ok_example = authorize_ok plain at_noon "t" stick phone link passes

abbrev later_packets : List (Event plain)
later_packets =
    datagram at_noon (some stick) phone
    ∷ datagram at_noon (some (record stick { body = heartbeat "t" })) phone
    ∷ beats
    ∷ cleans 3000 3000 3000
    ∷ []

authorize_once_example :
    (authorize plain at_noon "u" false stick phone
      (run plain later_packets (authorize plain at_noon "t" true stick phone link).1)).0
    ≡ false
authorize_once_example =
    authorize_once plain at_noon at_noon "t" "u" true false stick phone later_packets link passes
      (inl (omega arith)) refl

datagram_received-handled_example :
    let l' = datagram_received plain at_noon (some stick) phone link in
    (handled plain l'.effects ≡ handled plain link.effects)
    ⊎ ((handled plain l'.effects ≡ stick ∷ handled plain link.effects)
        × Drives plain at_noon stick phone link)
datagram_received-handled_example = datagram_received-handled plain at_noon stick phone link
