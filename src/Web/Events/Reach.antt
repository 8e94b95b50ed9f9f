-- ===== src/Web/Events/Reach.antt =====
-- The lease of the server, over all interleavings.
use roboparty_rp_server.Prelude.{
  ℕ, Bool, true, false, String, List, [], ◌∷◌, string_eq, if◌then◌else◌, Option-cases, inl, inr,
}
use roboparty_rp_server.Prelude.Dict.{get, put}
use roboparty_rp_server.Access.{AccessPolicy}
use roboparty_rp_server.Lease.{Device, Config, Lease}
use roboparty_rp_server.Web.{Kind, Conn, connected}
use roboparty_rp_server.Web.Guard.{Server}
use roboparty_rp_server.Web.Session.{send}
use roboparty_rp_server.Web.Events.{
  Event, opens, receives, receives_json, watches, leaves, start, open_conn, step, run,
}
use roboparty_rp_server.Web.Guard.Reach.{starts, Reached, IsReached}
use roboparty_rp_server.Web.Session.Reach.{
  send-IsReached, leave-IsReached, receive-IsReached, receive_json-IsReached, tick-IsReached,
}

module _ (d : Device) (now : ℕ → ℕ) (c : Config) (p : AccessPolicy) (kind_of : d.Command → Kind)
    (l : Lease d) where
  abbrev At : Server d → Type 0
  At s = IsReached d now c p kind_of l s

  either-IsReached : (b : Bool) (s s' : Server d) → At s → At s' → At (if b then s else s')
  either-IsReached true s s' h k = h
  either-IsReached false s s' h k = k

  open_conn-IsReached :
      (session : String) (conn : Conn) (s : Server d)
      → At s
      → At (open_conn d now c p kind_of session conn s)
  unfolding open_conn
  open_conn-IsReached session conn s r =
      let s' : Server d = record s { conns = put s.conns session conn } in
      either-IsReached conn.json s' (send d session (connected ∷ []) s') r
        (send-IsReached d now c p kind_of l session (connected ∷ []) s' r)

  step-IsReached : (e : Event d) (s : Server d) → At s → At (step d now c p kind_of e s)
  unfolding step
  step-IsReached (opens session conn) s r = open_conn-IsReached session conn s r
  step-IsReached (leaves b session) s r = leave-IsReached d now c p kind_of l b session s r
  step-IsReached (receives early late b session msg) s r =
      elim (Option-cases (get s.conns session)) [
        | inl e ↦ rw (e, step) r
        | inr (conn, e) ↦
            rw (e, step)
              (receive-IsReached d now c p kind_of l early late b session conn.token msg s r)
      ]
  step-IsReached (receives_json first early late b session msg) s r =
      elim (Option-cases (get s.conns session)) [
        | inl e ↦ rw (e, step) r
        | inr (conn, e) ↦
            rw (e, step)
              (receive_json-IsReached d now c p kind_of l first early late b session conn.token msg
                s r)
      ]
  step-IsReached (watches early late b session) s r = elim (Option-cases (get s.conns session)) [
    | inl e ↦ rw (e, step) r
    | inr (conn, e) ↦
        rw (e, step) (tick-IsReached d now c p kind_of l early late b session conn.token s r)
  ]

  run-IsReached : (es : List (Event d)) (s : Server d) → At s → At (run d now c p kind_of es s)
  unfolding run
  run-IsReached [] s r = r
  run-IsReached (e ∷ es) s r = run-IsReached es (step d now c p kind_of e s) (step-IsReached e s r)

  -- Whatever connections, messages and watchdogs do, in whatever order, the lease of the server is
  -- one that calls of the lease, and queries, lead to.
  pub run-start-Reached :
      (es : List (Event d))
      → Reached d now c p kind_of l (run d now c p kind_of es (start d l)).lease
  unfolding start
  run-start-Reached es = run-IsReached es (start d l) starts
