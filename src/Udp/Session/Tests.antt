-- ===== src/Udp/Session/Tests.antt =====
-- A table of two sessions: a witness of the theorem on its cleanup.
use roboparty_rp_server.Prelude.{string_eq, List, [], ◌∷◌}
use roboparty_rp_server.Udp.Auth.{Addr, Text}
use roboparty_rp_server.Udp.Session.{UdpSession, connected}
use roboparty_rp_server.Udp.Session.Cleanup.{Update, adds, sees}

abbrev digits : Text
digits = record { decimal = λ _. "9"; lower = λ s. s; hmac = λ k message. message }

abbrev here : Addr
here = record { host = "h"; port = 9 }

abbrev there : Addr
there = record { host = "i"; port = 9 }

abbrev quiet : UdpSession
quiet = record {
  addr = here;
  device_id = "d";
  device_name = "";
  token = "t";
  state = connected;
  last_seen = 1000;
  last_heartbeat = 1000;
  sequence = 0;
  last_control_timestamp = 0;
}

-- One session is overdue when the cleanup comes, the other was seen since.
abbrev calls : List (Update digits)
calls = adds quiet ∷ adds (record quiet { addr = there }) ∷ sees 20_000 there ∷ []
