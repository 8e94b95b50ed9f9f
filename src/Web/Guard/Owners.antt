-- ===== src/Web/Guard/Owners.antt =====
-- Who owns control behind the calls of `guarded_dispatch` and `lease_message`.
use roboparty_rp_server.Prelude.{
  ℕ, ◌≡◌, ◌≢◌, Bool, true, false, String, Option, none, some, List, string_eq, arith, eq_iff, inl,
  inr,
}
use roboparty_rp_server.Prelude.Dict.{Dict, get, is_some}
use roboparty_rp_server.Prelude.Result.{Result, ok, err, Result-cases}
use roboparty_rp_server.Access.{AccessPolicy, AuthError, Claims}
use roboparty_rp_server.Lease.{Device, Config, Error, Lease, Notice, Authorize, owns}
use roboparty_rp_server.Lease
use roboparty_rp_server.Lease.Yields.{
  foreign, heartbeat-Yields, dispatch-Yields, stop-none, clear_stop-owner, release_lem, acquire_lem,
}
use roboparty_rp_server.Web.{
  Kind, query, reset, policy_stop, stop_clear, stop_request, stop_confirmed, stop_failed, command,
  Reading, Frame, Conn, check, authorize_of, scope_of,
}
use roboparty_rp_server.Web.Guard.{
  Server, LeaseText, beats, acquires, releases, other_text, Outcome, latched_stop, handle_query,
  dispatch_kind, gate, guarded_dispatch, holders_with, holders_without, lease_message,
}
use roboparty_rp_server.Web.Own.{Own, contains-add_holder, Own-Yields, Own-discard, Own-add_holder}

module _ (d : Device) where
  abbrev pub IsOwned : Server d → Type 0
  IsOwned s = Own s.holders s.conns s.lease.owner

  module _ (now : ℕ → ℕ) (c : Config) (p : AccessPolicy) (kind_of : d.Command → Kind) where
    pub latched_stop-IsOwned :
        (b : Bool) (session : String) (good bad : Frame d.Reply) (s : Server d)
        → IsOwned (latched_stop d now c p kind_of b session good bad s).1
    unfolding latched_stop
    latched_stop-IsOwned b session good bad s = rw (stop-none d now c b true s.lease) tt

    dispatch_kind-IsOwned :
        (late : Reading) (b : Bool) (session token : String) (env : d.Command) (k : Kind)
        (s : Server d)
        → IsOwned s
        → IsOwned (dispatch_kind d now c p kind_of late b session token env k s).1
    unfolding dispatch_kind handle_query
    dispatch_kind-IsOwned late b session token env query s h = h
    dispatch_kind-IsOwned late b session token env policy_stop s h =
        rw (stop-none d now c b false s.lease) tt
    dispatch_kind-IsOwned late b session token env stop_clear s h =
        rw (clear_stop-owner d now c s.lease) h
    dispatch_kind-IsOwned late b session token env stop_request s h =
        latched_stop-IsOwned b session stop_confirmed stop_failed s
    dispatch_kind-IsOwned late b session token env reset s h =
        Own-Yields s.holders s.conns s.lease.owner _
          (dispatch-Yields d now c b session env _ s.lease) h
    dispatch_kind-IsOwned late b session token env command s h =
        Own-Yields s.holders s.conns s.lease.owner _
          (dispatch-Yields d now c b session env _ s.lease) h

    pub gate-IsOwned :
        (r : Result AuthError Claims) (next : Server d → Outcome d) (s : Server d)
        → IsOwned s
        → IsOwned (next s).1
        → IsOwned (gate d now c p kind_of r next s).1
    unfolding gate
    gate-IsOwned (ok _) next s h k = k
    gate-IsOwned (err e) next s h k = h

    pub guarded_dispatch-IsOwned :
        (early late : Reading) (b : Bool) (session token : String) (env : d.Command) (s : Server d)
        → IsOwned s
        → IsOwned (guarded_dispatch d now c p kind_of early late b session token env s).1
    unfolding guarded_dispatch
    guarded_dispatch-IsOwned early late b session token env s h =
        gate-IsOwned (check p early token (scope_of (kind_of env)))
          (dispatch_kind d now c p kind_of late b session token env (kind_of env)) s h
          (dispatch_kind-IsOwned late b session token env (kind_of env) s h)

    beat-IsOwned :
        (b : Bool) (session : String) (s : Server d)
        → IsOwned s
        → Own s.holders s.conns (Lease.heartbeat d now c b session s.lease).1.owner
    beat-IsOwned b session s h =
        Own-Yields s.holders s.conns s.lease.owner _ (heartbeat-Yields d now c b session s.lease) h

    Own-holders_with :
        (session : String) (holders : List String) (conns : Dict String Conn)
        (r : Result Error Notice) (o : Option String)
        → Own holders conns o
        → Own (holders_with d now c p kind_of session r holders) conns o
    unfolding holders_with
    Own-holders_with session holders conns (ok n) o h = Own-add_holder session holders conns o h
    Own-holders_with session holders conns (err e) o h = h

    Own-acquired :
        (session : String) (holders : List String) (conns : Dict String Conn) (n : Notice)
        → is_some (get conns session) ≡ true
        → Own (holders_with d now c p kind_of session (ok n) holders) conns (some session)
    unfolding holders_with
    Own-acquired session holders conns n live =
        (ground (arith, contains-add_holder session holders session, eq_iff session session), live)

    acquire-IsOwned :
        (a : Authorize) (b : Bool) (session : String) (s : Server d)
        → is_some (get s.conns session) ≡ true
        → IsOwned s
        → let (r, l) = Lease.acquire d now c b session a s.lease in
          Own (holders_with d now c p kind_of session r s.holders) s.conns l.owner
    acquire-IsOwned a b session s live h = elim (acquire_lem d now c b session a s.lease) [
      | inl yields ↦
          Own-holders_with session s.holders s.conns _ _
            (Own-Yields s.holders s.conns s.lease.owner _ yields h)
      | inr (e, f) ↦ rw e (rw f (Own-acquired session s.holders s.conns _ live))
    ]

    Own-holders_without :
        (session : String) (holders : List String) (conns : Dict String Conn)
        (r : Result Error Notice) (o : Option String)
        → o ≢ some session
        → Own holders conns o
        → Own (holders_without d now c p kind_of session r holders) conns o
    unfolding holders_without
    Own-holders_without session holders conns (ok n) o foreign h =
        Own-discard session holders conns o foreign h
    Own-holders_without session holders conns (err e) o foreign h = h

    pub release-IsOwned :
        (b : Bool) (session : String) (s : Server d)
        → IsOwned s
        → let (r, l) = Lease.release d now c b session s.lease in
          Own (holders_without d now c p kind_of session r s.holders) s.conns l.owner
    release-IsOwned b session s h =
        let (yields, foreign) = release_lem d now c b session s.lease in
        Own-holders_without session s.holders s.conns _ _ foreign
          (Own-Yields s.holders s.conns s.lease.owner _ yields h)

    unfoldable pub IsOwned? : Option (Outcome d) → Type 0
    IsOwned? none = Unit {0}
    IsOwned? (some (r, s)) = IsOwned s

    pub lease_message-IsOwned :
        (early late : Reading) (b : Bool) (session token : String) (t : LeaseText) (s : Server d)
        → is_some (get s.conns session) ≡ true
        → IsOwned s
        → IsOwned? (lease_message d now c p kind_of early late b session token t s)
    unfolding lease_message IsOwned? gate
    lease_message-IsOwned early late b session token beats s live h =
        elim (Result-cases (check p early token "read")) [
          | inl (_, e) ↦ rw e (beat-IsOwned b session s h)
          | inr (_, e) ↦ rw e h
        ]
    lease_message-IsOwned early late b session token acquires s live h =
        elim (Result-cases (check p early token "control")) [
          | inl (_, e) ↦
              rw e
                (acquire-IsOwned (authorize_of (check p late token "control")) b session s live h)
          | inr (_, e) ↦ rw e h
        ]
    lease_message-IsOwned early late b session token releases s live h =
        elim (Result-cases (check p early token "control")) [
          | inl (_, e) ↦ rw e (release-IsOwned b session s h)
          | inr (_, e) ↦ rw e h
        ]
    lease_message-IsOwned early late b session token other_text s live h = tt
