-- ===== src/Web/Guard/Commands.antt =====
-- Which commands of a connection reach the device.
use roboparty_rp_server.Prelude.{
  ℕ, ◌≡◌, ◌≢◌, refl, ap, Bool, true, false, String, some, List, map, arith, eq_iff, ◌⊎◌, inl, inr,
}
use roboparty_rp_server.Prelude.Result.{Result, ok, err, Result-cases}
use roboparty_rp_server.Access.{AccessPolicy, AuthError, Claims, has_scope}
use roboparty_rp_server.Access.Scopes.{IsAllowed, verify_ok}
use roboparty_rp_server.Lease.{Device, Config, Error, Lease, authorized, body_finite}
use roboparty_rp_server.Lease
use roboparty_rp_server.Lease.Expiry.{due}
use roboparty_rp_server.Lease.Dispatch.{dispatch_ok}
use roboparty_rp_server.Web.{
  Kind, query, policy_stop, stop_clear, stop_request, reset, command, Reading, Frame, answered,
  check, authorize_of, scope_of,
}
use roboparty_rp_server.Web.Guard.{
  Server, Outcome, handler_answers, gate, dispatch_kind, guarded_dispatch,
}

-- At the time of a reading, the token is one that `verify` lets through, with the scope.
abbrev pub Grants : AccessPolicy → Reading → String → String → Type 0
Grants p r token scope =
    (claims : Claims) × IsAllowed r.decode p r.pairing token claims
    × (has_scope claims scope ≡ true)

control_named : ◌≢◌ {A = String} "control" ""
control_named = ground (arith, eq_iff "control" "")

admin_named : ◌≢◌ {A = String} "admin" ""
admin_named = ground (arith, eq_iff "admin" "")

-- What takes a scope: all scopes that the server asks for have a name.
check_ok :
    (p : AccessPolicy) (r : Reading) (token scope : String) (claims : Claims)
    → scope ≢ ""
    → check p r token scope ≡ ok claims
    → Grants p r token scope
unfolding check
check_ok p r token scope claims named h =
    let (allowed, has) = verify_ok r.decode p r.pairing token scope claims h in
    (claims, allowed, has named)

authorize_of_allows :
    (p : AccessPolicy) (r : Reading) (token scope : String)
    → scope ≢ ""
    → authorized (authorize_of (check p r token scope)) ≡ true
    → Grants p r token scope
unfolding authorize_of authorized
authorize_of_allows p r token scope named h = elim (Result-cases (check p r token scope)) [
  | inl (claims, e) ↦ check_ok p r token scope claims named e
  | inr (_, e) ↦ absurd (ground (arith, e))
]

module _ (d : Device) (now : ℕ → ℕ) (c : Config) (p : AccessPolicy)
    (kind_of : d.Command → Kind) where
  handler_answers_ok :
      (r : Result Error (List d.Reply)) (frames : List (Frame d.Reply))
      → handler_answers d now c p kind_of r ≡ ok frames
      → (replies : List d.Reply) × (r ≡ ok replies) × (frames ≡ map answered replies)
  unfolding handler_answers
  handler_answers_ok (ok replies) frames h = (replies, refl, ground arith)
  handler_answers_ok (err e) frames h = cc

  -- What lets a command of a session reach the device: the token is valid for the scope at both
  -- readings, and the session owns the lease, which has not run out.
  abbrev pub Reaches : Reading → Reading → String → String → d.Command → String → Server d → Type 0
  Reaches early late session token env scope s =
      Grants p early token scope
      × Grants p late token scope
      × (due d now c s.lease ≡ false)
      × (s.lease.owner ≡ some session)
      × (body_finite d (d.body env) ≡ true)

  abbrev pub Handled : d.Command → d.Dev → d.Dev → List (Frame d.Reply) → Type 0
  Handled env dev dev' frames =
      (replies : List d.Reply) × (d.handle env dev ≡ (some replies, dev'))
      × (frames ≡ map answered replies)

  lease_dispatch_ok :
      (early late : Reading) (b : Bool) (session token : String) (env : d.Command) (scope : String)
      (s : Server d) (frames : List (Frame d.Reply))
      → scope ≢ ""
      → Grants p early token scope
      → let (r, l) =
          Lease.dispatch d now c b session env (authorize_of (check p late token scope)) s.lease in
        handler_answers d now c p kind_of r ≡ ok frames
        → Reaches early late session token env scope s × Handled env s.lease.dev l.dev frames
  lease_dispatch_ok early late b session token env scope s frames named granted h =
      let a = authorize_of (check p late token scope) in
      let (r, l) = Lease.dispatch d now c b session env a s.lease in
      let (replies, e, f) = handler_answers_ok r frames h in
      let (kept, owned, allowed, finite, handled, _) =
        dispatch_ok d now c b session env a s.lease l replies (ap (λ r. (r, l)) e) in
      (
        (granted, authorize_of_allows p late token scope named allowed, kept, owned, finite),
        (replies, handled, f),
      )

  guarded_dispatch-kind :
      (early late : Reading) (b : Bool) (session token : String) (env : d.Command) (k : Kind)
      (s : Server d)
      → kind_of env ≡ k
      → guarded_dispatch d now c p kind_of early late b session token env s
        ≡ gate d now c p kind_of
            (check p early token (scope_of k))
            (dispatch_kind d now c p kind_of late b session token env k)
            s
  unfolding guarded_dispatch
  guarded_dispatch-kind early late b session token env k s e = rw e refl

  gate-granted :
      (r : Result AuthError Claims) (next : Server d → Outcome d) (s : Server d)
      (frames : List (Frame d.Reply))
      → (gate d now c p kind_of r next s).0 ≡ ok frames
      → ((claims : Claims) × (r ≡ ok claims)) × (gate d now c p kind_of r next s ≡ next s)
  unfolding gate
  gate-granted (ok claims) next s frames h = ((claims, refl), refl)
  gate-granted (err e) next s frames h = cc

  dispatched_ok :
      (early late : Reading) (b : Bool) (session token : String) (env : d.Command) (k : Kind)
      (s : Server d) (frames : List (Frame d.Reply))
      → (k ≡ command) ⊎ (k ≡ reset)
      → let (r, s') =
          gate d now c p kind_of
            (check p early token (scope_of k))
            (dispatch_kind d now c p kind_of late b session token env k)
            s in
        r ≡ ok frames
        → Reaches early late session token env (scope_of k) s
          × Handled env s.lease.dev s'.lease.dev frames
  unfolding dispatch_kind scope_of
  dispatched_ok early late b session token env command s frames k h =
      let ((claims, e), f) =
        gate-granted (check p early token "control")
          (dispatch_kind d now c p kind_of late b session token env command) s frames h in
      rw f (
        lease_dispatch_ok early late b session token env "control" s frames control_named
          (check_ok p early token "control" claims control_named e) (rw f at h))
  dispatched_ok early late b session token env reset s frames k h =
      let ((claims, e), f) =
        gate-granted (check p early token "admin")
          (dispatch_kind d now c p kind_of late b session token env reset) s frames h in
      rw f (
        lease_dispatch_ok early late b session token env "admin" s frames admin_named
          (check_ok p early token "admin" claims admin_named e) (rw f at h))
  dispatched_ok early late b session token env query s frames (inl e) h = cc
  dispatched_ok early late b session token env query s frames (inr e) h = cc
  dispatched_ok early late b session token env policy_stop s frames (inl e) h = cc
  dispatched_ok early late b session token env policy_stop s frames (inr e) h = cc
  dispatched_ok early late b session token env stop_clear s frames (inl e) h = cc
  dispatched_ok early late b session token env stop_clear s frames (inr e) h = cc
  dispatched_ok early late b session token env stop_request s frames (inl e) h = cc
  dispatched_ok early late b session token env stop_request s frames (inr e) h = cc

  -- Frames that answer a command come from the device, which one call of `handle` has moved: the
  -- token is valid, for the control scope, both when the message comes and when the lease lets it
  -- through, and the session owns the lease, which has not run out, with values that are finite. A
  -- reset takes the admin scope.
  pub guarded_dispatch_ok :
      (early late : Reading) (b : Bool) (session token : String) (env : d.Command) (s : Server d)
      (frames : List (Frame d.Reply))
      → (kind_of env ≡ command) ⊎ (kind_of env ≡ reset)
      → let (r, s') = guarded_dispatch d now c p kind_of early late b session token env s in
        r ≡ ok frames
        → Reaches early late session token env (scope_of (kind_of env)) s
          × Handled env s.lease.dev s'.lease.dev frames
  unfolding guarded_dispatch
  guarded_dispatch_ok early late b session token env s frames k h =
      let e = guarded_dispatch-kind early late b session token env (kind_of env) s refl in
      rw e (dispatched_ok early late b session token env (kind_of env) s frames k (rw e at h))
