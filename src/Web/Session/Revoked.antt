-- ===== src/Web/Session/Revoked.antt =====
-- What a round of the watchdog does to a connection whose credential is not good any more.
use roboparty_rp_server.Prelude.{
  ℕ, ◌≡◌, ◌≢◌, Bool, true, String, none, some, arith, eq_iff, string_eq,
}
use roboparty_rp_server.Prelude.Dict.{get, get-remove}
use roboparty_rp_server.Prelude.Result.{err}
use roboparty_rp_server.Access.{AccessPolicy, AuthError, unauthorized, Claims}
use roboparty_rp_server.Access.Scopes.{verify-revoke}
use roboparty_rp_server.Pairing.{App, Pairing, Inputs, get_app, revoke}
use roboparty_rp_server.Lease.{Device, Config}
use roboparty_rp_server.Lease.Yields.{release_lem}
use roboparty_rp_server.Web.{Kind, Reading, check}
use roboparty_rp_server.Web.Guard.{Server}
use roboparty_rp_server.Web.Session.{give_up, tick}

check-revoke :
    (p : AccessPolicy) (r : Reading) (before : Pairing) (i : Inputs) (token scope id : String)
    (app : App) (given : Claims)
    → r.pairing ≡ (revoke i id before).1
    → r.decode token ≡ some given
    → given.sub ≡ some id
    → get_app id before ≡ some app
    → i.saves ≡ true
    → token ≢ p.service_token
    → check p r token scope ≡ err unauthorized
unfolding check
check-revoke p r before i token scope id app given same decoded of_app paired saved other =
    rw same
      (verify-revoke r.decode p before i token scope id app given decoded of_app paired saved other)

module _ (d : Device) (now : ℕ → ℕ) (c : Config) (p : AccessPolicy)
    (kind_of : d.Command → Kind) where
  give_up_lem :
      (b : Bool) (session : String) (s : Server d)
      → let s' = give_up d now c p kind_of b session s in
        (s'.lease.owner ≢ some session) × (get s'.conns session ≡ none)
  unfolding give_up
  give_up_lem b session s =
      let (_, foreign) = release_lem d now c b session s.lease in
      (foreign, ground (arith, get-remove s.conns session session, eq_iff session session))

  tick_refused :
      (early late : Reading) (b : Bool) (session token : String) (s : Server d) (e : AuthError)
      → check p early token "read" ≡ err e
      → let s' = tick d now c p kind_of early late b session token s in
        (s'.lease.owner ≢ some session) × (get s'.conns session ≡ none)
  unfolding tick
  tick_refused early late b session token s e refused = rw (refused, tick) (give_up_lem b session s)

  -- Once the revocation of an app is saved, the next round of the watchdog of each connection that
  -- was opened with a token of the app, other than the service token, closes the connection, and
  -- its session does not own control, however the release of the lease ends.
  pub tick-revoke :
      (early late : Reading) (b : Bool) (session token : String) (s : Server d) (before : Pairing)
      (i : Inputs) (id : String) (app : App) (given : Claims)
      → early.pairing ≡ (revoke i id before).1
      → early.decode token ≡ some given
      → given.sub ≡ some id
      → get_app id before ≡ some app
      → i.saves ≡ true
      → token ≢ p.service_token
      → let s' = tick d now c p kind_of early late b session token s in
        (s'.lease.owner ≢ some session) × (get s'.conns session ≡ none)
  tick-revoke early late b session token s before i id app given same decoded of_app paired saved
        other =
      tick_refused early late b session token s unauthorized (
        check-revoke p early before i token "read" id app given same decoded of_app paired saved
          other)
