-- ===== src/Udp/Listener/Guards.antt =====
-- What a datagram must bring to be obeyed, and that it is obeyed once.
use roboparty_rp_server.Prelude.{
  ℕ, ◌≡◌, ◌≤◌, ◌<◌, ◌⊎◌, refl, true, String, Option, none, some, string_eq, nat_eq, arith,
  Option-cases, inl, inr,
}
use roboparty_rp_server.Prelude.Dict.{get}
use roboparty_rp_server.Udp.Auth.{Addr, Text, TokenInfo, Auth, verify_token}
use roboparty_rp_server.Udp.Session.{UdpSession, SessionState, connected, is_connected, get_session}
use roboparty_rp_server.Udp.Listener.{
  Listener, Packet, Inputs, session_connected, is_fresh, check_replay, check_token, authorize,
}

module _ (x : Text) where
  -- What `_authorize` demands of a token: it is known and has not ended, and the session of the
  -- address is connected, and the timestamp and the sequence are each 0 or above its last.
  abbrev pub Accepts : Inputs → String → Packet → Addr → Listener → Type 0
  Accepts i token packet addr l =
      (info : TokenInfo) × (s : UdpSession) × (get l.auth.tokens token ≡ some info)
      × (i.checked ≤ info.expires_at)
      × (get_session x addr l.sessions ≡ some s)
      × (s.state ≡ connected)
      × ((packet.timestamp_ms ≡ 0) ⊎ (s.last_control_timestamp < packet.timestamp_ms))
      × ((packet.sequence ≡ 0) ⊎ (s.sequence < packet.sequence))

  is_fresh_parts :
      (packet : Packet) (s : UdpSession)
      → is_fresh packet s ≡ true
      → ((packet.timestamp_ms ≡ 0) ⊎ (s.last_control_timestamp < packet.timestamp_ms))
        × ((packet.sequence ≡ 0) ⊎ (s.sequence < packet.sequence))
  unfolding is_fresh
  is_fresh_parts packet s h = ground arith

  is_connected→eq : (s : SessionState) → is_connected s ≡ true → s ≡ connected
  unfolding is_connected
  is_connected→eq SessionState.disconnected h = cc
  is_connected→eq SessionState.authenticating h = cc
  is_connected→eq connected h = refl

  check_replay-true :
      (packet : Packet) (addr : Addr) (o : Option UdpSession) (l : Listener)
      → session_connected o ≡ true
      → (check_replay x packet addr o l).0 ≡ true
      → (s : UdpSession) × (o ≡ some s) × (s.state ≡ connected) × (is_fresh packet s ≡ true)
  unfolding check_replay session_connected
  check_replay-true packet addr none l h e = cc
  check_replay-true packet addr (some s) l h e = (s, refl, is_connected→eq s.state h, ground arith)

  check_token-true :
      (packet : Packet) (addr : Addr) (r : Option String × Auth) (l : Listener)
      → (check_token x packet addr r l).0 ≡ true
      → (device : String) × (s : UdpSession) × (r.0 ≡ some device)
        × (get_session x addr l.sessions ≡ some s)
        × (s.state ≡ connected)
        × (is_fresh packet s ≡ true)
  unfolding check_token
  check_token-true packet addr (none, auth) l h = cc
  check_token-true packet addr (some device, auth) l h =
      let l' = record l { auth = auth } in
      let (s, found, up, fresh) =
        check_replay-true packet addr (get_session x addr l.sessions) l' (ground arith)
          (ground arith) in
      (device, s, refl, found, up, fresh)

  verify_token-some :
      (now : ℕ) (token device : String) (s : Auth)
      → (verify_token now token s).0 ≡ some device
      → (info : TokenInfo) × (get s.tokens token ≡ some info) × (now ≤ info.expires_at)
  unfolding verify_token
  verify_token-some now token device s h = elim (Option-cases (get s.tokens token)) [
    | inl e ↦ absurd (ground arith)
    | inr (info, e) ↦ (info, e, ground arith)
  ]

  -- A packet that needs a token passes only with all of that.
  pub authorize_ok :
      (i : Inputs) (token : String) (packet : Packet) (addr : Addr) (l : Listener)
      → (authorize x i token true packet addr l).0 ≡ true
      → Accepts i token packet addr l
  unfolding authorize
  authorize_ok i token packet addr l h =
      let (device, s, valid, found, up, fresh) =
        check_token-true packet addr (verify_token i.checked token l.auth) l (ground arith) in
      let (info, stored, good) = verify_token-some i.checked token device l.auth valid in
      let (newer, next) = is_fresh_parts packet s fresh in
      (info, s, stored, good, found, up, newer, next)
