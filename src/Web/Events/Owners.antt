-- ===== src/Web/Events/Owners.antt =====
-- Who owns control, over all interleavings.
use roboparty_rp_server.Prelude.{
  ℕ, ◌≡◌, Bool, true, false, String, none, List, [], ◌∷◌, string_eq, if◌then◌else◌, arith,
  Option-cases, inl, inr,
}
use roboparty_rp_server.Prelude.Dict.{get, put}
use roboparty_rp_server.Access.{AccessPolicy}
use roboparty_rp_server.Lease.{Device, Config, Lease}
use roboparty_rp_server.Web.{Kind, Conn, connected}
use roboparty_rp_server.Web.Guard.{Server}
use roboparty_rp_server.Web.Session.{send}
use roboparty_rp_server.Web.Events.{
  Event, opens, receives, receives_json, watches, leaves, start, open_conn, step, run,
}
use roboparty_rp_server.Web.Own.{Own-put}
use roboparty_rp_server.Web.Guard.Owners.{IsOwned}
use roboparty_rp_server.Web.Session.Owners.{
  send-IsOwned, leave-IsOwned, receive-IsOwned, receive_json-IsOwned, tick-IsOwned,
}

module _ (d : Device) where
  module _ (now : ℕ → ℕ) (c : Config) (p : AccessPolicy) (kind_of : d.Command → Kind) where
    either-IsOwned :
        (b : Bool) (s s' : Server d) → IsOwned d s → IsOwned d s' → IsOwned d (if b then s else s')
    either-IsOwned true s s' h k = h
    either-IsOwned false s s' h k = k

    open_conn-IsOwned :
        (session : String) (conn : Conn) (s : Server d)
        → IsOwned d s
        → IsOwned d (open_conn d now c p kind_of session conn s)
    unfolding open_conn
    open_conn-IsOwned session conn s h =
        let s' : Server d = record s { conns = put s.conns session conn } in
        let k = Own-put session conn s.holders s.conns s.lease.owner h in
        either-IsOwned conn.json s' (send d session (connected ∷ []) s') k
          (send-IsOwned d session (connected ∷ []) s' k)

    step-IsOwned :
        (e : Event d) (s : Server d) → IsOwned d s → IsOwned d (step d now c p kind_of e s)
    unfolding step
    step-IsOwned (opens session conn) s h = open_conn-IsOwned session conn s h
    step-IsOwned (leaves b session) s h = leave-IsOwned d now c p kind_of b session s h
    step-IsOwned (receives early late b session msg) s h =
        elim (Option-cases (get s.conns session)) [
          | inl e ↦ rw (e, step) h
          | inr (conn, e) ↦
              rw (e, step)
                (receive-IsOwned d now c p kind_of early late b session conn.token msg s
                  (ground (arith, e)) h)
        ]
    step-IsOwned (receives_json first early late b session msg) s h =
        elim (Option-cases (get s.conns session)) [
          | inl e ↦ rw (e, step) h
          | inr (conn, e) ↦
              rw (e, step)
                (receive_json-IsOwned d now c p kind_of first early late b session conn.token msg s
                  (ground (arith, e)) h)
        ]
    step-IsOwned (watches early late b session) s h = elim (Option-cases (get s.conns session)) [
      | inl e ↦ rw (e, step) h
      | inr (conn, e) ↦
          rw (e, step) (tick-IsOwned d now c p kind_of early late b session conn.token s h)
    ]

    run-IsOwned :
        (es : List (Event d)) (s : Server d) → IsOwned d s → IsOwned d (run d now c p kind_of es s)
    unfolding run
    run-IsOwned [] s h = h
    run-IsOwned (e ∷ es) s h = run-IsOwned es (step d now c p kind_of e s) (step-IsOwned e s h)

    -- After any interleaving of connections, messages and watchdogs, from a lease that nobody owns:
    -- when a session owns control, it is among the holders, who were told so, and its connection is
    -- open.
    pub run-start-IsOwned :
        (es : List (Event d)) (l : Lease d)
        → l.owner ≡ none
        → IsOwned d (run d now c p kind_of es (start d l))
    unfolding start
    run-start-IsOwned es l free = run-IsOwned es (start d l) (rw free tt)
