-- ===== src/Udp/Listener/Stale.antt =====
-- What the session of an address has taken stays stale for it, until the address asks for a new one.
use roboparty_rp_server.Prelude.{
  ℕ, ◌≡◌, refl, Bool, true, false, ◌&&◌, not, String, Option, none, some, List, [], ◌∷◌, ◌==◌,
  string_eq, nat_eq, arith, Bool-cases, inl, inr,
}
use roboparty_rp_server.Udp.Auth.{Addr, Text, Auth, addr_key, verify_signature, verify_token}
use roboparty_rp_server.Udp.Auth
use roboparty_rp_server.Udp.Session.{
  UdpSession, authenticating, get_session, update_activity, cleanup_expired, connected_sessions,
}
use roboparty_rp_server.Udp.Session.Keeps.{
  Fails, change_session-Fails, add_session-Fails, cleanup_expired-Fails, update_activity-Fails,
  update_heartbeat-Fails, set_connected-Fails,
}
use roboparty_rp_server.Udp.Listener.{
  Listener, Packet, Body, Inputs, auth_request, challenge_response, stop, control, heartbeat,
  skill_action, ignored, is_fresh, mark, check_replay, check_token, authorize, handle_auth_request,
  finish_challenge, handle_challenge_response, clear_latch, latch, handle_stop, take_control,
  handle_control, beat_session, handle_heartbeat, handle_skill_action, process, datagram_received,
  send_beats, heartbeat_round, drop_sessions, cleanup_round, pop_ack, release_joy, pop_telemetry,
}

module _ (x : Text) (key : String) where
  -- Whether a datagram asks for a new session under the key.
  abbrev pub asks : Addr → Body → Bool
  asks addr (auth_request device_id _) = not (device_id == "") && addr_key x addr == key
  asks addr (challenge_response _ _) = false
  asks addr (stop _ _) = false
  asks addr (control _) = false
  asks addr (heartbeat _) = false
  asks addr skill_action = false
  asks addr ignored = false

module _ (x : Text) (packet : Packet) (key : String) where
  -- The session of that key, if there is one, turns the packet down.
  abbrev pub Stale : Listener → Type 0
  Stale l = Fails x (is_fresh packet) key l.sessions

  mark_keeps :
      (other : Packet) (s : UdpSession)
      → is_fresh other s ≡ true
      → is_fresh packet s ≡ false
      → is_fresh packet (mark other s) ≡ false
  unfolding is_fresh mark
  mark_keeps other s h k = ground arith

  check_replay-Stale :
      (other : Packet) (addr : Addr) (o : Option UdpSession) (l : Listener)
      → get_session x addr l.sessions ≡ o
      → Stale l
      → Stale (check_replay x other addr o l).1
  unfolding check_replay
  check_replay-Stale other addr none l found h = h
  check_replay-Stale other addr (some s) l found h = elim (Bool-cases (is_fresh other s)) [
    | inl e ↦
        let kept =
          change_session-Fails x (is_fresh packet) key (mark other) addr l.sessions
            (λ s' same k. mark_keeps other s' (ground arith) k) h in
        ground arith
    | inr e ↦ ground arith
  ]

  check_token-Stale :
      (other : Packet) (addr : Addr) (r : Option String × Auth) (l : Listener)
      → Stale l
      → Stale (check_token x other addr r l).1
  unfolding check_token
  check_token-Stale other addr (none, auth) l h = h
  check_token-Stale other addr (some d, auth) l h = ground (
    arith,
    check_replay-Stale other addr (get_session x addr l.sessions) (record l { auth = auth }) refl h,
  )

  pub authorize-Stale :
      (i : Inputs) (token : String) (required : Bool) (other : Packet) (addr : Addr) (l : Listener)
      → Stale l
      → Stale (authorize x i token required other addr l).1
  unfolding authorize
  authorize-Stale i token required other addr l h = ground (
    arith,
    check_replay-Stale other addr (get_session x addr l.sessions) l refl h,
    check_token-Stale other addr (verify_token i.checked token l.auth) l h,
  )

  finish_challenge-Stale :
      (i : Inputs) (addr : Addr) (r : Option String × Auth) (l : Listener)
      → Stale l
      → Stale (finish_challenge x i addr r l)
  unfolding finish_challenge is_fresh
  finish_challenge-Stale i addr (none, auth) l h = ground arith
  finish_challenge-Stale i addr (some token, auth) l h =
      let kept = set_connected-Fails x (is_fresh packet) key addr token l.sessions (λ s k. k) h in
      ground arith

  pop_ack-Stale : (k : String) (l : Listener) → Stale l → Stale (pop_ack k l)
  unfolding pop_ack
  pop_ack-Stale k l h = ground arith

  clear_latch-Stale : (addr : Addr) (r : Bool × Listener) → Stale r.1 → Stale (clear_latch x addr r)
  unfolding clear_latch
  clear_latch-Stale addr (false, l) h = h
  clear_latch-Stale addr (true, l) h = pop_ack-Stale (addr_key x addr) l h

  latch-Stale : (addr : Addr) (r : Bool × Listener) → Stale r.1 → Stale (latch x addr r)
  unfolding latch
  latch-Stale addr (false, l) h = h
  latch-Stale addr (true, l) h = ground arith

  take_control-Stale :
      (other : Packet) (addr : Addr) (r : Bool × Listener)
      → Stale r.1
      → Stale (take_control x other addr r)
  unfolding take_control
  take_control-Stale other addr (false, l) h = h
  take_control-Stale other addr (true, l) h = h

  beat_session-Stale :
      (i : Inputs) (addr : Addr) (r : Option String × Auth) (l : Listener)
      → Stale l
      → Stale (beat_session x i addr r l)
  unfolding beat_session is_fresh
  beat_session-Stale i addr (none, auth) l h = h
  beat_session-Stale i addr (some d, auth) l h =
      update_heartbeat-Fails x (is_fresh packet) key i.seen addr l.sessions (λ s k. k) h

  handle_auth_request-Stale :
      (i : Inputs) (device_id device_name : String) (addr : Addr) (l : Listener)
      → asks x key addr (auth_request device_id device_name) ≡ false
      → Stale l
      → Stale (handle_auth_request x i device_id device_name addr l)
  unfolding handle_auth_request
  handle_auth_request-Stale i device_id device_name addr l quiet h =
      let session : UdpSession = record {
        addr = addr;
        device_id = device_id;
        device_name = device_name;
        token = "";
        state = authenticating;
        last_seen = i.seen;
        last_heartbeat = i.seen;
        sequence = 0;
        last_control_timestamp = 0;
      } in
      elim (Bool-cases (device_id == "")) [
        | inl e ↦ ground arith
        | inr e ↦
            let other : (addr_key x addr == key) ≡ false = ground arith in
            let kept = add_session-Fails x (is_fresh packet) key session l.sessions other h in
            ground arith
      ]

  process-Stale :
      (i : Inputs) (other : Packet) (b : Body) (addr : Addr) (l : Listener)
      → asks x key addr b ≡ false
      → Stale l
      → Stale (process x i other b addr l)
  unfolding process handle_challenge_response handle_stop handle_control handle_heartbeat
      handle_skill_action
  process-Stale i other (auth_request device_id name) addr l quiet h =
      handle_auth_request-Stale i device_id name addr l quiet h
  process-Stale i other (challenge_response device_id signature) addr l quiet h = ground (
    arith,
    finish_challenge-Stale i addr
        (verify_signature x i.checked i.issued i.token addr device_id signature l.auth) l h,
  )
  process-Stale i other (stop token status) addr l quiet h =
      let r = authorize x i token true other addr l in
      let kept = authorize-Stale i token true other addr l h in
      ground (
        arith,
        pop_ack-Stale (addr_key x addr) l h,
        clear_latch-Stale addr r kept,
        latch-Stale addr r kept,
      )
  process-Stale i other (control token) addr l quiet h =
      let kept = authorize-Stale i token true other addr l h in
      ground (arith, take_control-Stale other addr (authorize x i token true other addr l) kept)
  process-Stale i other (heartbeat token) addr l quiet h =
      ground (arith, beat_session-Stale i addr (verify_token i.checked token l.auth) l h)
  process-Stale i other skill_action addr l quiet h =
      ground (arith, authorize-Stale i "" false other addr l h)
  process-Stale i other ignored addr l quiet h = h

  touch_Stale :
      (i : Inputs) (addr : Addr) (l : Listener)
      → Stale l
      → Stale (record l { sessions = update_activity x i.seen addr l.sessions })
  unfolding is_fresh
  touch_Stale i addr l h =
      update_activity-Fails x (is_fresh packet) key i.seen addr l.sessions (λ s k. k) h

  pub datagram_received-Stale :
      (i : Inputs) (other : Packet) (addr : Addr) (l : Listener)
      → asks x key addr other.body ≡ false
      → Stale l
      → Stale (datagram_received x i (some other) addr l)
  unfolding datagram_received
  datagram_received-Stale i other addr l quiet h =
      process-Stale i other other.body addr
        (record l { sessions = update_activity x i.seen addr l.sessions }) quiet
        (touch_Stale i addr l h)

  pub datagram_passed-Stale :
      (i : Inputs) (addr : Addr) (l : Listener)
      → Stale l
      → Stale (datagram_received x i none addr l)
  unfolding datagram_received
  datagram_passed-Stale i addr l h = touch_Stale i addr l h

  send_beats-Stale : (ss : List UdpSession) (l : Listener) → Stale l → Stale (send_beats x ss l)
  unfolding send_beats
  send_beats-Stale [] l h = h
  send_beats-Stale (s ∷ ss) l h = send_beats-Stale ss _ (ground arith)

  pub heartbeat_round-Stale : (l : Listener) → Stale l → Stale (heartbeat_round x l)
  unfolding heartbeat_round
  heartbeat_round-Stale l h = send_beats-Stale (connected_sessions l.sessions) l h

  pop_telemetry-Stale : (k : String) (l : Listener) → Stale l → Stale (pop_telemetry k l)
  unfolding pop_telemetry
  pop_telemetry-Stale k l h = ground arith

  release_joy-Stale : (s : UdpSession) (l : Listener) → Stale l → Stale (release_joy x s l)
  unfolding release_joy
  release_joy-Stale s l h = ground arith

  drop_sessions-Stale :
      (ss : List UdpSession) (l : Listener) → Stale l → Stale (drop_sessions x ss l)
  unfolding drop_sessions
  drop_sessions-Stale [] l h = h
  drop_sessions-Stale (s ∷ ss) l h =
      let k = addr_key x s.addr in
      drop_sessions-Stale ss _
        (release_joy-Stale s _ (pop_ack-Stale k _ (pop_telemetry-Stale k l h)))

  pub cleanup_round-Stale :
      (seen now later : ℕ) (l : Listener) → Stale l → Stale (cleanup_round x seen now later l)
  unfolding cleanup_round
  cleanup_round-Stale seen now later l h =
      let (expired, sessions') = cleanup_expired x seen l.sessions in
      let (_, auth') = Auth.cleanup_expired now later Auth.challenge_max_age l.auth in
      drop_sessions-Stale expired (record l { sessions = sessions'; auth = auth' })
        (cleanup_expired-Fails x (is_fresh packet) key seen l.sessions h)
