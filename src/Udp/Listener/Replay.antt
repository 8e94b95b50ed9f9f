-- ===== src/Udp/Listener/Replay.antt =====
-- A packet is accepted once to a session.
use roboparty_rp_server.Prelude.{
  ℕ, ◌≡◌, ◌≢◌, refl, Bool, true, false, ◌||◌, String, Option, none, some, List, [], ◌∷◌, ◌==◌,
  string_eq, nat_eq, arith, Bool-cases, ◌⊎◌, inl, inr,
}
use roboparty_rp_server.Prelude.Dict.{get-put, same_self, picks}
use roboparty_rp_server.Udp.Auth.{Addr, Text, Auth, addr_key, verify_token}
use roboparty_rp_server.Udp.Session.{UdpSession, SessionManager, get_session, change_session}
use roboparty_rp_server.Udp.Listener.{
  Listener, Packet, Inputs, session_ok, is_fresh, mark, check_replay, check_token, authorize,
  datagram_received, ack_ends, heartbeat_round, cleanup_round,
}
use roboparty_rp_server.Udp.Listener.Stale.{
  Stale, asks, datagram_received-Stale, datagram_passed-Stale, heartbeat_round-Stale,
  cleanup_round-Stale,
}

module _ (x : Text) where
  mark_stale :
      (packet : Packet) (s : UdpSession)
      → (packet.timestamp_ms ≢ 0) ⊎ (packet.sequence ≢ 0)
      → is_fresh packet (mark packet s) ≡ false
  unfolding is_fresh mark
  mark_stale packet s h = ground arith

  check_replay_stale :
      (packet : Packet) (addr : Addr) (o : Option UdpSession) (l : Listener)
      → picks (is_fresh packet) o ≡ false
      → (check_replay x packet addr o l).0 ≡ false
  unfolding check_replay
  check_replay_stale packet addr none l stale = refl
  check_replay_stale packet addr (some s) l stale = ground arith

  check_token_stale :
      (packet : Packet) (addr : Addr) (r : Option String × Auth) (l : Listener)
      → picks (is_fresh packet) (get_session x addr l.sessions) ≡ false
      → (check_token x packet addr r l).0 ≡ false
  unfolding check_token
  check_token_stale packet addr (none, auth) l stale = refl
  check_token_stale packet addr (some d, auth) l stale = ground (
    arith,
    check_replay_stale packet addr (get_session x addr l.sessions) (record l { auth = auth }) stale,
  )

  authorize_stale :
      (i : Inputs) (token : String) (required : Bool) (packet : Packet) (addr : Addr) (l : Listener)
      → picks (is_fresh packet) (get_session x addr l.sessions) ≡ false
      → (authorize x i token required packet addr l).0 ≡ false
  unfolding authorize
  authorize_stale i token required packet addr l stale = ground (
    arith,
    check_replay_stale packet addr (get_session x addr l.sessions) l stale,
    check_token_stale packet addr (verify_token i.checked token l.auth) l stale,
  )

  get_session-change_session :
      (f : UdpSession → UdpSession) (addr : Addr) (m : SessionManager) (s : UdpSession)
      → get_session x addr m ≡ some s
      → get_session x addr (change_session x f addr m) ≡ some (f s)
  unfolding change_session
  get_session-change_session f addr m s found = ground (
    arith,
    get-put m.sessions (addr_key x addr) (addr_key x addr) (f s),
    same_self (addr_key x addr),
  )

  -- The session of the address has taken the packet's timestamp and sequence.
  abbrev Marked : Packet → Addr → Listener → Type 0
  Marked packet addr l = (s : UdpSession) × (get_session x addr l.sessions ≡ some (mark packet s))

  check_replay_marks :
      (packet : Packet) (addr : Addr) (o : Option UdpSession) (l : Listener)
      → get_session x addr l.sessions ≡ o
      → (check_replay x packet addr o l).0 ≡ true
      → Marked packet addr (check_replay x packet addr o l).1
  unfolding check_replay
  check_replay_marks packet addr none l found h = cc
  check_replay_marks packet addr (some s) l found h =
      (s, ground (arith, get_session-change_session (mark packet) addr l.sessions s found))

  check_token_marks :
      (packet : Packet) (addr : Addr) (r : Option String × Auth) (l : Listener)
      → (check_token x packet addr r l).0 ≡ true
      → Marked packet addr (check_token x packet addr r l).1
  unfolding check_token
  check_token_marks packet addr (none, auth) l h = cc
  check_token_marks packet addr (some d, auth) l h =
      elim (Bool-cases (session_ok x addr (record l { auth = auth }))) [
        | inl e ↦
            let l' = record l { auth = auth } in
            let (s, marked) =
              check_replay_marks packet addr (get_session x addr l.sessions) l' refl
                (ground arith) in
            (s, ground arith)
        | inr e ↦ absurd (ground arith)
      ]

  authorize_marks :
      (i : Inputs) (token : String) (required : Bool) (packet : Packet) (addr : Addr) (l : Listener)
      → (authorize x i token required packet addr l).0 ≡ true
      → Marked packet addr (authorize x i token required packet addr l).1
  unfolding authorize
  authorize_marks i token required packet addr l h = elim (Bool-cases (token == "")) [
    | inl e ↦
        let (s, marked) =
          check_replay_marks packet addr (get_session x addr l.sessions) l refl (ground arith) in
        (s, ground arith)
    | inr e ↦
        let (s, marked) =
          check_token_marks packet addr (verify_token i.checked token l.auth) l (ground arith) in
        (s, ground arith)
  ]

  -- What comes to the listener: a datagram, the end of an acknowledging task, a round of the heartbeats
  -- or of the cleanup.
  pub data Event : Type 0 where
    datagram : Inputs → Option Packet → Addr → Event
    acks : String → Event
    beats : Event
    cleans : ℕ → ℕ → ℕ → Event

  pub take : Event → Listener → Listener
  take (datagram i o addr) l = datagram_received x i o addr l
  take (acks k) l = ack_ends x k l
  take beats l = heartbeat_round x l
  take (cleans seen now later) l = cleanup_round x seen now later l

  pub run : List Event → Listener → Listener
  run [] l = l
  run (e ∷ es) l = run es (take e l)

  -- Whether one of the datagrams asks for a new session of the address.
  abbrev pub renews : Addr → List Event → Bool
  renews addr [] = false
  renews addr (datagram i (some other) from ∷ es) =
      asks x (addr_key x addr) from other.body || renews addr es
  renews addr (datagram i none from ∷ es) = renews addr es
  renews addr (acks k ∷ es) = renews addr es
  renews addr (beats ∷ es) = renews addr es
  renews addr (cleans seen now later ∷ es) = renews addr es

  run-Stale :
      (packet : Packet) (addr : Addr) (es : List Event) (l : Listener)
      → renews addr es ≡ false
      → Stale x packet (addr_key x addr) l
      → Stale x packet (addr_key x addr) (run es l)
  unfolding run take ack_ends
  run-Stale packet addr [] l quiet h = h
  run-Stale packet addr (datagram i (some other) from ∷ es) l quiet h =
      run-Stale packet addr es (datagram_received x i (some other) from l) (ground arith)
        (datagram_received-Stale x packet (addr_key x addr) i other from l (ground arith) h)
  run-Stale packet addr (datagram i none from ∷ es) l quiet h =
      run-Stale packet addr es (datagram_received x i none from l) quiet
        (datagram_passed-Stale x packet (addr_key x addr) i from l h)
  run-Stale packet addr (acks k ∷ es) l quiet h = run-Stale packet addr es (ack_ends x k l) quiet h
  run-Stale packet addr (beats ∷ es) l quiet h =
      run-Stale packet addr es (heartbeat_round x l) quiet
        (heartbeat_round-Stale x packet (addr_key x addr) l h)
  run-Stale packet addr (cleans seen now later ∷ es) l quiet h =
      run-Stale packet addr es (cleanup_round x seen now later l) quiet
        (cleanup_round-Stale x packet (addr_key x addr) seen now later l h)

  -- A packet with a timestamp or a sequence is accepted once: sent again, after whatever datagrams
  -- from any address, heartbeats and cleanups, it is refused, whatever token it comes with and whether
  -- or not one is required, unless a datagram in between asked for a new session of its address.
  pub authorize_once :
      (i j : Inputs) (token token' : String) (required required' : Bool) (packet : Packet)
      (addr : Addr) (es : List Event) (l : Listener)
      → (authorize x i token required packet addr l).0 ≡ true
      → (packet.timestamp_ms ≢ 0) ⊎ (packet.sequence ≢ 0)
      → renews addr es ≡ false
      → (authorize x j token' required' packet addr
          (run es (authorize x i token required packet addr l).1)).0
        ≡ false
  unfolding get_session
  authorize_once i j token token' required required' packet addr es l h numbered quiet =
      let l' = (authorize x i token required packet addr l).1 in
      let (s, marked) = authorize_marks i token required packet addr l h in
      let stale = mark_stale packet s numbered in
      authorize_stale j token' required' packet addr (run es l')
        (run-Stale packet addr es l' quiet (ground (arith, marked, stale)))
