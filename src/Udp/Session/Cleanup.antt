-- ===== src/Udp/Session/Cleanup.antt =====
-- The session table: its invariant, and which sessions a cleanup drops.
use roboparty_rp_server.Prelude.{
  ℕ, ◌+◌, ltb, Bool, ◌≡◌, refl, ap, ◌∙◌, sym, String, Option, none, some, List, [], ◌∷◌, string_eq,
  arith, eq_iff,
}
use roboparty_rp_server.Prelude.Dict.{Dict, get, put, IsDict, put-IsDict}
use roboparty_rp_server.Udp.Auth.{Addr, Text, addr_key}
use roboparty_rp_server.Udp.Session.{
  UdpSession, SessionManager, add_session, remove_session, get_session, change, change_session,
  update_activity, update_heartbeat, set_connected, cleanup_expired,
}

module _ (x : Text) where
  -- Each session stands under the key of its own address.
  abbrev pub IsKeyed : Dict String UdpSession → Type 0
  IsKeyed [] = Unit {0}
  IsKeyed ((k, s) ∷ d) = (k ≡ addr_key x s.addr) × IsKeyed d

  abbrev pub IsTable : SessionManager → Type 0
  IsTable m = IsDict m.sessions × IsKeyed m.sessions

  put-IsKeyed :
      (d : Dict String UdpSession) (k : String) (s : UdpSession)
      → k ≡ addr_key x s.addr
      → IsKeyed d
      → IsKeyed (put d k s)
  unfolding put
  put-IsKeyed [] k s e h = (e, tt)
  put-IsKeyed ((j, r) ∷ d) k s e h = ground (arith, put-IsKeyed d k s e, eq_iff j k)

  get-IsKeyed :
      (d : Dict String UdpSession) (k : String) (s : UdpSession)
      → IsKeyed d
      → get d k ≡ some s
      → k ≡ addr_key x s.addr
  unfolding get
  get-IsKeyed [] k s h e = cc
  get-IsKeyed ((j, r) ∷ d) k s h e = ground (arith, get-IsKeyed d k s, eq_iff j k)

  change-IsTable :
      (f : UdpSession → UdpSession) (k : String) (o : Option UdpSession) (m : SessionManager)
      → ((s : UdpSession) → (f s).addr ≡ s.addr)
      → get m.sessions k ≡ o
      → IsTable m
      → IsTable (change x f k o m)
  unfolding change
  change-IsTable f k none m keep found h = h
  change-IsTable f k (some s) m keep found (distinct, keyed) = (
    put-IsDict m.sessions k (f s) distinct,
    put-IsKeyed m.sessions k (f s)
        (get-IsKeyed m.sessions k s keyed found ∙ ap (addr_key x) (sym (keep s))) keyed,
  )

  pub change_session-IsTable :
      (f : UdpSession → UdpSession) (addr : Addr) (m : SessionManager)
      → ((s : UdpSession) → (f s).addr ≡ s.addr)
      → IsTable m
      → IsTable (change_session x f addr m)
  unfolding change_session
  change_session-IsTable f addr m keep h =
      change-IsTable f (addr_key x addr) (get_session x addr m) m keep refl h

  -- The calls of the manager that change it.
  pub data Update : Type 0 where
    adds : UdpSession → Update
    removes : Addr → Update
    sees beats : ℕ → Addr → Update
    connects : Addr → String → Update
    cleans : ℕ → Update

  pub apply : Update → SessionManager → SessionManager
  apply (adds s) m = add_session x s m
  apply (removes addr) m = (remove_session x addr m).1
  apply (sees now addr) m = update_activity x now addr m
  apply (beats now addr) m = update_heartbeat x now addr m
  apply (connects addr token) m = set_connected x addr token m
  apply (cleans now) m = (cleanup_expired x now m).1

  -- Whether a session was last seen more than the timeout ago.
  abbrev pub overdue : ℕ → ℕ → UdpSession → Bool
  overdue timeout now s = ltb (s.last_seen + timeout) now

  pub run : List Update → SessionManager → SessionManager
  run [] m = m
  run (u ∷ us) m = run us (apply u m)

  abbrev pub create : ℕ → SessionManager
  create timeout = record { sessions = []; timeout = timeout }
