-- ===== src/Web/Guard/Reach.antt =====
-- What a connection does with the lease: only what the calls of the lease do, and queries, which
-- need no ownership.
use roboparty_rp_server.Prelude.{
  ℕ, ◌≡◌, refl, Bool, true, false, String, Option, none, some, string_eq, inl, inr,
}
use roboparty_rp_server.Prelude.Result.{Result, ok, err, Result-cases}
use roboparty_rp_server.Access.{AccessPolicy, AuthError, Claims}
use roboparty_rp_server.Lease.{
  Device, Config, Lease, Call, acquires, heartbeats, releases, stops, clears, dispatches, step,
}
use roboparty_rp_server.Web.{
  Kind, query, reset, policy_stop, stop_clear, stop_request, stop_confirmed, stop_failed, command,
  Reading, Frame, check, authorize_of, scope_of,
}
use roboparty_rp_server.Web.Guard.{
  Server, LeaseText, other_text, Outcome, latched_stop, handle_query, dispatch_kind, gate,
  guarded_dispatch, lease_message,
}
use roboparty_rp_server.Web.Guard

module _ (d : Device) (now : ℕ → ℕ) (c : Config) (p : AccessPolicy)
    (kind_of : d.Command → Kind) where
  -- The leases that calls and queries lead to.
  pub data Reached (l : Lease d) : Lease d → Type 0 where
    starts : Reached l l
    call : {m : Lease d} (k : Bool × Call d now c) → Reached l m → Reached l (step d now c k m)
    asks :
        {m : Lease d} (env : d.Command)
        → kind_of env ≡ query
        → Reached l m
        → Reached l (record m { dev = (d.handle env m.dev).1 })

  -- What every call and every query keeps, each lease has that they lead to.
  pub Reached-keeps :
      (P : Lease d → Type 0) (l m : Lease d)
      → ((k : Bool × Call d now c) (m : Lease d) → P m → P (step d now c k m))
      → ((env : d.Command) (m : Lease d)
          → kind_of env ≡ query
          → P m
          → P (record m { dev = (d.handle env m.dev).1 }))
      → Reached l m
      → P l
      → P m
  Reached-keeps P l _ keep kept starts h = h
  Reached-keeps P l _ keep kept (call {m} k r) h = keep k m (Reached-keeps P l m keep kept r h)
  Reached-keeps P l _ keep kept (asks {m} env e r) h =
      kept env m e (Reached-keeps P l m keep kept r h)

  module _ (l : Lease d) where
    abbrev pub IsReached : Server d → Type 0
    IsReached s = Reached l s.lease

    pub latched_stop-IsReached :
        (b : Bool) (session : String) (good bad : Frame d.Reply) (s : Server d)
        → IsReached s
        → IsReached (latched_stop d now c p kind_of b session good bad s).1
    unfolding latched_stop step
    latched_stop-IsReached b session good bad s r = call (b, stops true) r

    dispatch_kind-IsReached :
        (late : Reading) (b : Bool) (session token : String) (env : d.Command) (k : Kind)
        (s : Server d)
        → kind_of env ≡ k
        → IsReached s
        → IsReached (dispatch_kind d now c p kind_of late b session token env k s).1
    unfolding dispatch_kind handle_query step scope_of
    dispatch_kind-IsReached late b session token env query s e r = asks env e r
    dispatch_kind-IsReached late b session token env policy_stop s e r = call (b, stops false) r
    dispatch_kind-IsReached late b session token env stop_clear s e r = call (b, clears) r
    dispatch_kind-IsReached late b session token env stop_request s e r =
        latched_stop-IsReached b session stop_confirmed stop_failed s r
    dispatch_kind-IsReached late b session token env reset s e r =
        call (b, dispatches session env (authorize_of (check p late token "admin"))) r
    dispatch_kind-IsReached late b session token env command s e r =
        call (b, dispatches session env (authorize_of (check p late token "control"))) r

    pub gate-IsReached :
        (a : Result AuthError Claims) (next : Server d → Outcome d) (s : Server d)
        → IsReached s
        → IsReached (next s).1
        → IsReached (gate d now c p kind_of a next s).1
    unfolding gate
    gate-IsReached (ok _) next s h k = k
    gate-IsReached (err e) next s h k = h

    pub guarded_dispatch-IsReached :
        (early late : Reading) (b : Bool) (session token : String) (env : d.Command) (s : Server d)
        → IsReached s
        → IsReached (guarded_dispatch d now c p kind_of early late b session token env s).1
    unfolding guarded_dispatch
    guarded_dispatch-IsReached early late b session token env s r =
        gate-IsReached (check p early token (scope_of (kind_of env)))
          (dispatch_kind d now c p kind_of late b session token env (kind_of env)) s r
          (dispatch_kind-IsReached late b session token env (kind_of env) s refl r)

    unfoldable pub IsReached? : Option (Outcome d) → Type 0
    IsReached? none = Unit {0}
    IsReached? (some (_, s)) = IsReached s

    pub lease_message-IsReached :
        (early late : Reading) (b : Bool) (session token : String) (t : LeaseText) (s : Server d)
        → IsReached s
        → IsReached? (lease_message d now c p kind_of early late b session token t s)
    unfolding lease_message IsReached? gate step
    lease_message-IsReached early late b session token Guard.beats s r =
        elim (Result-cases (check p early token "read")) [
          | inl (_, e) ↦ rw e (call (b, heartbeats session) r)
          | inr (_, e) ↦ rw e r
        ]
    lease_message-IsReached early late b session token Guard.acquires s r =
        elim (Result-cases (check p early token "control")) [
          | inl (_, e) ↦
              rw e (call (b, acquires session (authorize_of (check p late token "control"))) r)
          | inr (_, e) ↦ rw e r
        ]
    lease_message-IsReached early late b session token Guard.releases s r =
        elim (Result-cases (check p early token "control")) [
          | inl (_, e) ↦ rw e (call (b, releases session) r)
          | inr (_, e) ↦ rw e r
        ]
    lease_message-IsReached early late b session token other_text s r = tt
