-- ===== src/Udp/Listener/Commands.antt =====
-- Which datagrams become commands to the robot.
use roboparty_rp_server.Prelude.{
  ◌≡◌, refl, Bool, true, false, not, ◌&&◌, String, Option, none, some, List, [], ◌∷◌, string_eq,
  nat_eq, if◌then◌else◌, arith, Bool-cases, ◌⊎◌, inl, inr,
}
use roboparty_rp_server.Udp.Auth.{Addr, Text, Auth, addr_key, verify_signature, verify_token}
use roboparty_rp_server.Udp.Session.{UdpSession, get_session, update_activity}
use roboparty_rp_server.Udp.Listener.{
  Listener, Packet, Body, Inputs, Effect, sends, handles, resets_joy, runs_stop_script,
  starts_telemetry, cancels_telemetry, starts_ack, cancels_ack, auth_request, challenge_response,
  stop, control, heartbeat, skill_action, ignored, pop_ack, check_replay, check_token, authorize,
  finish_challenge, handle_auth_request, handle_challenge_response, clear_latch, latch, handle_stop,
  take_control, handle_control, beat_session, handle_heartbeat, handle_skill_action, process,
  datagram_received,
}
use roboparty_rp_server.Udp.Listener.Guards.{Accepts, authorize_ok}

module _ (x : Text) where
  -- The packets that went to the command handler, the newest first.
  abbrev pub handled : List Effect → List Packet
  handled [] = []
  handled (handles packet ∷ es) = packet ∷ handled es
  handled (sends _ _ ∷ es) = handled es
  handled (resets_joy ∷ es) = handled es
  handled (runs_stop_script ∷ es) = handled es
  handled (starts_telemetry _ ∷ es) = handled es
  handled (cancels_telemetry _ ∷ es) = handled es
  handled (starts_ack _ ∷ es) = handled es
  handled (cancels_ack _ ∷ es) = handled es

  check_replay-effects :
      (packet : Packet) (addr : Addr) (o : Option UdpSession) (l : Listener)
      → (check_replay x packet addr o l).1.effects ≡ l.effects
  unfolding check_replay
  check_replay-effects packet addr none l = refl
  check_replay-effects packet addr (some s) l = ground arith

  check_token-effects :
      (packet : Packet) (addr : Addr) (r : Option String × Auth) (l : Listener)
      → (check_token x packet addr r l).1.effects ≡ l.effects
  unfolding check_token
  check_token-effects packet addr (none, auth) l = refl
  check_token-effects packet addr (some d, auth) l = ground (
    arith,
    check_replay-effects packet addr (get_session x addr l.sessions) (record l { auth = auth }),
  )

  authorize-effects :
      (i : Inputs) (token : String) (required : Bool) (packet : Packet) (addr : Addr) (l : Listener)
      → (authorize x i token required packet addr l).1.effects ≡ l.effects
  unfolding authorize
  authorize-effects i token required packet addr l = ground (
    arith,
    check_replay-effects packet addr (get_session x addr l.sessions) l,
    check_token-effects packet addr (verify_token i.checked token l.auth) l,
  )

  pop_ack-handled :
      (key : String) (l : Listener) → handled (pop_ack key l).effects ≡ handled l.effects
  unfolding pop_ack
  pop_ack-handled key l = ground arith

  clear_latch-handled :
      (addr : Addr) (r : Bool × Listener)
      → handled (clear_latch x addr r).effects ≡ handled r.1.effects
  unfolding clear_latch
  clear_latch-handled addr (false, l) = refl
  clear_latch-handled addr (true, l) = pop_ack-handled (addr_key x addr) l

  latch-handled :
      (addr : Addr) (r : Bool × Listener) → handled (latch x addr r).effects ≡ handled r.1.effects
  unfolding latch
  latch-handled addr (false, l) = refl
  latch-handled addr (true, l) = ground arith

  handle_stop-handled :
      (i : Inputs) (packet : Packet) (token status : String) (addr : Addr) (l : Listener)
      → handled (handle_stop x i packet token status addr l).effects ≡ handled l.effects
  unfolding handle_stop
  handle_stop-handled i packet token status addr l = ground (
    arith,
    pop_ack-handled (addr_key x addr) l,
    clear_latch-handled addr (authorize x i token true packet addr l),
    latch-handled addr (authorize x i token true packet addr l),
    authorize-effects i token true packet addr l,
  )

  finish_challenge-handled :
      (i : Inputs) (addr : Addr) (r : Option String × Auth) (l : Listener)
      → handled (finish_challenge x i addr r l).effects ≡ handled l.effects
  unfolding finish_challenge
  finish_challenge-handled i addr (none, auth) l = ground arith
  finish_challenge-handled i addr (some token, auth) l = ground arith

  beat_session-handled :
      (i : Inputs) (addr : Addr) (r : Option String × Auth) (l : Listener)
      → handled (beat_session x i addr r l).effects ≡ handled l.effects
  unfolding beat_session
  beat_session-handled i addr (none, auth) l = refl
  beat_session-handled i addr (some token, auth) l = refl

  take_control-handled :
      (packet : Packet) (addr : Addr) (r : Bool × Listener)
      → handled (take_control x packet addr r).effects
        ≡ (if r.0 then packet ∷ handled r.1.effects else handled r.1.effects)
  unfolding take_control
  take_control-handled packet addr (false, l) = refl
  take_control-handled packet addr (true, l) = refl

  handle_control-handled :
      (i : Inputs) (packet : Packet) (token : String) (addr : Addr) (l : Listener)
      → handled (handle_control x i packet token addr l).effects ≡ (
          if not l.stop_latched && (authorize x i token true packet addr l).0
          then packet ∷ handled l.effects
          else handled l.effects)
  unfolding handle_control
  handle_control-handled i packet token addr l = ground (
    arith,
    take_control-handled packet addr (authorize x i token true packet addr l),
    authorize-effects i token true packet addr l,
  )

  -- Behind the first line of `datagram_received`.
  abbrev pub touched : Inputs → Addr → Listener → Listener
  touched i addr l = record l { sessions = update_activity x i.seen addr l.sessions }

  -- The conditions on which a datagram drives the robot.
  abbrev pub Drives : Inputs → Packet → Addr → Listener → Type 0
  Drives i packet addr l =
      (token : String) × (packet.body ≡ control token)
      × (l.stop_latched ≡ false)
      × Accepts x i token packet addr (touched i addr l)

  obeyed :
      (i : Inputs) (packet : Packet) (token : String) (addr : Addr) (l l' : Listener)
      → packet.body ≡ control token
      → handled l'.effects ≡ (
          if not l.stop_latched && (authorize x i token true packet addr (touched i addr l)).0
          then packet ∷ handled l.effects
          else handled l.effects)
      → (handled l'.effects ≡ handled l.effects)
        ⊎ ((handled l'.effects ≡ packet ∷ handled l.effects) × Drives i packet addr l)
  obeyed i packet token addr l l' b h =
      elim (Bool-cases
        (not l.stop_latched && (authorize x i token true packet addr (touched i addr l)).0)) [
          | inl e ↦ inr (
            rw e at h,
            (
              token,
              b,
              ground arith,
              authorize_ok x i token packet addr (touched i addr l) (ground arith),
            ),
          )
          | inr e ↦ inl (rw e at h)
        ]

  quiet_challenge :
      (i : Inputs) (device_id signature : String) (addr : Addr) (l : Listener)
      → handled (handle_challenge_response x i device_id signature addr l).effects
        ≡ handled l.effects
  unfolding handle_challenge_response
  quiet_challenge i device_id signature addr l = ground (
    arith,
    finish_challenge-handled i addr
        (verify_signature x i.checked i.issued i.token addr device_id signature l.auth) l,
  )

  quiet_heartbeat :
      (i : Inputs) (token : String) (addr : Addr) (l : Listener)
      → handled (handle_heartbeat x i token addr l).effects ≡ handled l.effects
  unfolding handle_heartbeat
  quiet_heartbeat i token addr l =
      ground (arith, beat_session-handled i addr (verify_token i.checked token l.auth) l)

  quiet_skill :
      (i : Inputs) (packet : Packet) (addr : Addr) (l : Listener)
      → handled (handle_skill_action x i packet addr l).effects ≡ handled l.effects
  unfolding handle_skill_action
  quiet_skill i packet addr l = ground (arith, authorize-effects i "" false packet addr l)

  process-handled :
      (i : Inputs) (packet : Packet) (b : Body) (addr : Addr) (l : Listener)
      → packet.body ≡ b
      → let l' = process x i packet b addr (touched i addr l) in
        (handled l'.effects ≡ handled l.effects)
        ⊎ ((handled l'.effects ≡ packet ∷ handled l.effects) × Drives i packet addr l)
  unfolding process
  process-handled i packet (auth_request device_id name) addr l e =
      inl (unfold handle_auth_request in ground arith)
  process-handled i packet (challenge_response device_id signature) addr l e =
      inl (quiet_challenge i device_id signature addr (touched i addr l))
  process-handled i packet (stop token status) addr l e =
      inl (handle_stop-handled i packet token status addr (touched i addr l))
  process-handled i packet (control token) addr l e =
      obeyed i packet token addr l (handle_control x i packet token addr (touched i addr l)) e
        (handle_control-handled i packet token addr (touched i addr l))
  process-handled i packet (heartbeat token) addr l e =
      inl (quiet_heartbeat i token addr (touched i addr l))
  process-handled i packet skill_action addr l e =
      inl (quiet_skill i packet addr (touched i addr l))
  process-handled i packet ignored addr l e = inl refl

  -- A datagram makes at most one command, its own, and only if it is a control packet that comes
  -- while no stop is latched, with a known token that has not ended, from an address whose session
  -- is connected, and with a timestamp and a sequence each of which is 0, which is not set, or above
  -- the last that the session has taken.
  pub datagram_received-handled :
      (i : Inputs) (packet : Packet) (addr : Addr) (l : Listener)
      → let l' = datagram_received x i (some packet) addr l in
        (handled l'.effects ≡ handled l.effects)
        ⊎ ((handled l'.effects ≡ packet ∷ handled l.effects) × Drives i packet addr l)
  unfolding datagram_received
  datagram_received-handled i packet addr l = process-handled i packet packet.body addr l refl
