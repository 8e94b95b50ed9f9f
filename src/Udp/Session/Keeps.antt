-- ===== src/Udp/Session/Keeps.antt =====
-- What the calls of the session manager keep of the session under one key.
use roboparty_rp_server.Prelude.{
  ℕ, ◌≡◌, refl, Bool, false, String, Option, none, some, ◌==◌, string_eq, arith, Bool-cases, eq_iff,
  inl, inr, map,
}
use roboparty_rp_server.Prelude.Dict.{get, picks, get-put, get-remove_all-contains, values}
use roboparty_rp_server.Udp.Auth.{Addr, Text, addr_key}
use roboparty_rp_server.Udp.Session.{
  UdpSession, SessionManager, connected, get_session, change, change_session, add_session,
  update_activity, update_heartbeat, set_connected, cleanup_expired, expired_sessions,
}

module _ (x : Text) (test : UdpSession → Bool) (key : String) where
  -- The session under the key, if there is one, fails the test.
  abbrev pub Fails : SessionManager → Type 0
  Fails m = picks test (get m.sessions key) ≡ false

  change-Fails :
      (f : UdpSession → UdpSession) (k : String) (o : Option UdpSession) (m : SessionManager)
      → get m.sessions k ≡ o
      → ((s : UdpSession) → o ≡ some s → test s ≡ false → test (f s) ≡ false)
      → Fails m
      → Fails (change x f k o m)
  unfolding change
  change-Fails f k none m found keeps h = h
  change-Fails f k (some s) m found keeps h = elim (Bool-cases (k == key)) [
    | inl e ↦
        let same : k ≡ key = (eq_iff k key).0 e in
        ground (arith, get-put m.sessions k key (f s), keeps s refl)
    | inr e ↦ ground (arith, get-put m.sessions k key (f s))
  ]

  pub change_session-Fails :
      (f : UdpSession → UdpSession) (addr : Addr) (m : SessionManager)
      → ((s : UdpSession) → get_session x addr m ≡ some s → test s ≡ false → test (f s) ≡ false)
      → Fails m
      → Fails (change_session x f addr m)
  unfolding change_session get_session
  change_session-Fails f addr m keeps h =
      change-Fails f (addr_key x addr) (get_session x addr m) m refl keeps h

  pub add_session-Fails :
      (s : UdpSession) (m : SessionManager)
      → (addr_key x s.addr == key) ≡ false
      → Fails m
      → Fails (add_session x s m)
  unfolding add_session
  add_session-Fails s m other h = ground (arith, get-put m.sessions (addr_key x s.addr) key s)

  pub cleanup_expired-Fails :
      (now : ℕ) (m : SessionManager) → Fails m → Fails (cleanup_expired x now m).1
  unfolding cleanup_expired
  cleanup_expired-Fails now m h = ground (
    arith,
    get-remove_all-contains
        (map (λ s. addr_key x s.addr) (expired_sessions m.timeout now (values m.sessions)))
        m.sessions key,
  )

  pub update_activity-Fails :
      (now : ℕ) (addr : Addr) (m : SessionManager)
      → ((s : UdpSession) → test s ≡ false → test (record s { last_seen = now }) ≡ false)
      → Fails m
      → Fails (update_activity x now addr m)
  unfolding update_activity
  update_activity-Fails now addr m keeps h = change_session-Fails _ addr m (λ s _. keeps s) h

  pub update_heartbeat-Fails :
      (now : ℕ) (addr : Addr) (m : SessionManager)
      → ((s : UdpSession) → test s ≡ false → test (record s { last_heartbeat = now }) ≡ false)
      → Fails m
      → Fails (update_heartbeat x now addr m)
  unfolding update_heartbeat
  update_heartbeat-Fails now addr m keeps h = change_session-Fails _ addr m (λ s _. keeps s) h

  pub set_connected-Fails :
      (addr : Addr) (token : String) (m : SessionManager)
      → ((s : UdpSession)
          → test s ≡ false
          → test (record s { state = connected; token = token }) ≡ false)
      → Fails m
      → Fails (set_connected x addr token m)
  unfolding set_connected
  set_connected-Fails addr token m keeps h = change_session-Fails _ addr m (λ s _. keeps s) h
