-- ===== src/Web/Session/Owners.antt =====
-- Who owns control behind a message, a round of the watchdog or the end of a connection.
use roboparty_rp_server.Prelude.{
  ℕ, ◌≡◌, Bool, true, false, String, Option, none, some, List, [], ◌∷◌, ◌==◌, string_eq,
  if◌then◌else◌, Bool-cases, inl, inr,
}
use roboparty_rp_server.Prelude.Dict.{get, contains, is_some}
use roboparty_rp_server.Prelude.Result.{Result, ok, err, Result-cases}
use roboparty_rp_server.Access.{AccessPolicy}
use roboparty_rp_server.Lease.{Device, Config, Error, Lease, Notice, Authorize, owns}
use roboparty_rp_server.Lease
use roboparty_rp_server.Lease.Yields.{expire-Yields, foreign, clear_stop-owner, release_lem}
use roboparty_rp_server.Web.{
  Kind, stop_confirmed, stop_failed, stop_cleared, skill_received, skill_unsupported, expired,
  released, failed, invalid_message, auth_failed, Reading, refused, lease_error, Frame, check,
  is_control_error, discard,
}
use roboparty_rp_server.Web.Guard.{
  Server, Outcome, latched_stop, gate, guarded_dispatch, holders_without, lease_message,
}
use roboparty_rp_server.Web.Session.{
  Message, text, bytes, JsonBody, lease_text, control, skill_action, stop_now, stop_clears,
  other_body, JsonMessage, send, token_of, leave, settle_error, settle, settle_text, receive,
  silent, dispatch_json, receive_body, receive_json, give_up, tell_expired, tick,
}
use roboparty_rp_server.Web.Own.{Own-Yields, Own-discard, Own-remove}
use roboparty_rp_server.Web.Guard.Owners.{
  IsOwned, latched_stop-IsOwned, gate-IsOwned, guarded_dispatch-IsOwned, release-IsOwned, IsOwned?,
  lease_message-IsOwned,
}

module _ (d : Device) where
  pub send-IsOwned :
      (session : String) (frames : List (Frame d.Reply)) (s : Server d)
      → IsOwned d s
      → IsOwned d (send d session frames s)
  unfolding send
  send-IsOwned session [] s h = h
  send-IsOwned session (f ∷ fs) s h =
      send-IsOwned session fs (record s { sent = (session, f) ∷ s.sent }) h

  module _ (now : ℕ → ℕ) (c : Config) (p : AccessPolicy) (kind_of : d.Command → Kind) where
    give_up-IsOwned :
        (b : Bool) (session : String) (s : Server d)
        → IsOwned d s
        → IsOwned d (give_up d now c p kind_of b session s)
    unfolding give_up
    give_up-IsOwned b session s h =
        let l = (Lease.release d now c b session s.lease).1 in
        let (yields, foreign) = release_lem d now c b session s.lease in
        Own-remove session s.holders s.conns l.owner foreign
          (Own-Yields s.holders s.conns s.lease.owner l.owner yields h)

    pub leave-IsOwned :
        (b : Bool) (session : String) (s : Server d)
        → IsOwned d s
        → IsOwned d (leave d now c p kind_of b session s)
    unfolding leave
    leave-IsOwned b session s h =
        let (r, l) = Lease.release d now c b session s.lease in
        Own-remove session (holders_without d now c p kind_of session r s.holders) s.conns l.owner
          (release_lem d now c b session s.lease).1
          (release-IsOwned d now c p kind_of b session s h)

    settle_error-IsOwned :
        (b json : Bool) (session : String) (e : Error) (s : Server d)
        → IsOwned d s
        → IsOwned d (settle_error d now c p kind_of b json session e s)
    unfolding settle_error
    settle_error-IsOwned b json session Error.stop_failed s h =
        send-IsOwned session (failed (lease_error Error.stop_failed) ∷ []) s h
    settle_error-IsOwned b json session Error.control_stopped s h =
        send-IsOwned session (failed (lease_error Error.control_stopped) ∷ []) s h
    settle_error-IsOwned b json session Error.control_busy s h =
        send-IsOwned session (failed (lease_error Error.control_busy) ∷ []) s h
    settle_error-IsOwned b json session Error.lease_required s h =
        send-IsOwned session (failed (lease_error Error.lease_required) ∷ []) s h
    settle_error-IsOwned b json session Error.invalid_input s h =
        send-IsOwned session (failed (lease_error Error.invalid_input) ∷ []) s h
    settle_error-IsOwned b json session Error.denied s h =
        send-IsOwned session (failed (lease_error Error.denied) ∷ []) s h
    settle_error-IsOwned b true session Error.handler_raised s h = leave-IsOwned b session s h
    settle_error-IsOwned b false session Error.handler_raised s h = h
    settle_error-IsOwned b json session Error.cancelled s h = leave-IsOwned b session s h

    settle-IsOwned :
        (b json : Bool) (session : String) (o : Outcome d)
        → IsOwned d o.1
        → IsOwned d (settle d now c p kind_of b json session o)
    unfolding settle
    settle-IsOwned b json session (ok frames, s) h = send-IsOwned session frames s h
    settle-IsOwned b json session (err (refused e), s) h =
        send-IsOwned session (failed (refused e) ∷ []) s h
    settle-IsOwned b json session (err (lease_error e), s) h =
        settle_error-IsOwned b json session e s h

    settle_text-IsOwned :
        (b : Bool) (session : String) (o : Option (Outcome d)) (s : Server d)
        → IsOwned d s
        → IsOwned? d now c p kind_of o
        → IsOwned d (settle_text d now c p kind_of b session o s)
    unfolding settle_text IsOwned?
    settle_text-IsOwned b session none s h k = send-IsOwned session (invalid_message ∷ []) s h
    settle_text-IsOwned b session (some o) s h k = settle-IsOwned b false session o k

    pub receive-IsOwned :
        (early late : Reading) (b : Bool) (session token : String) (msg : Message d.Command)
        (s : Server d)
        → is_some (get s.conns session) ≡ true
        → IsOwned d s
        → IsOwned d (receive d now c p kind_of early late b session token msg s)
    unfolding receive
    receive-IsOwned early late b session token (text none) s live h =
        send-IsOwned session (invalid_message ∷ []) s h
    receive-IsOwned early late b session token (text (some t)) s live h =
        settle_text-IsOwned b session
          (lease_message d now c p kind_of early late b session token t s) s h
          (lease_message-IsOwned d now c p kind_of early late b session token t s live h)
    receive-IsOwned early late b session token (bytes none) s live h = h
    receive-IsOwned early late b session token (bytes (some env)) s live h =
        settle-IsOwned b false session
          (guarded_dispatch d now c p kind_of early late b session token env s)
          (guarded_dispatch-IsOwned d now c p kind_of early late b session token env s h)

    silent-IsOwned :
        (frames : List (Frame d.Reply)) (o : Outcome d)
        → IsOwned d o.1
        → IsOwned d (silent d now c p kind_of frames o).1
    unfolding silent
    silent-IsOwned frames (ok _, s) h = h
    silent-IsOwned frames (err e, s) h = h

    dispatch_json-IsOwned :
        (early late : Reading) (b : Bool) (session token : String) (frames : List (Frame d.Reply))
        (env : Option d.Command) (s : Server d)
        → IsOwned d s
        → IsOwned d (dispatch_json d now c p kind_of early late b session token frames env s)
    unfolding dispatch_json
    dispatch_json-IsOwned early late b session token frames none s h = leave-IsOwned b session s h
    dispatch_json-IsOwned early late b session token frames (some env) s h =
        let o = guarded_dispatch d now c p kind_of early late b session token env s in
        settle-IsOwned b true session (silent d now c p kind_of frames o) (
          silent-IsOwned frames o
            (guarded_dispatch-IsOwned d now c p kind_of early late b session token env s h))

    lease_text-IsOwned :
        (b : Bool) (session : String) (o : Option (Outcome d)) (s : Server d)
        → IsOwned d s
        → IsOwned? d now c p kind_of o
        → IsOwned d
            (elim o [ none ↦ s | some outcome ↦ settle d now c p kind_of b true session outcome ])
    unfolding IsOwned?
    lease_text-IsOwned b session none s h k = h
    lease_text-IsOwned b session (some o) s h k = settle-IsOwned b true session o k

    receive_body-IsOwned :
        (early late : Reading) (b : Bool) (session token : String) (body : JsonBody d.Command)
        (s : Server d)
        → is_some (get s.conns session) ≡ true
        → IsOwned d s
        → IsOwned d (receive_body d now c p kind_of early late b session token body s)
    unfolding receive_body
    receive_body-IsOwned early late b session token (lease_text t) s live h =
        lease_text-IsOwned b session
          (lease_message d now c p kind_of early late b session token t s) s h
          (lease_message-IsOwned d now c p kind_of early late b session token t s live h)
    receive_body-IsOwned early late b session token (control env) s live h =
        dispatch_json-IsOwned early late b session token [] env s h
    receive_body-IsOwned early late b session token (skill_action env) s live h =
        dispatch_json-IsOwned early late b session token (skill_received ∷ skill_unsupported ∷ [])
          env s h
    receive_body-IsOwned early late b session token stop_now s live h =
        settle-IsOwned b true session
          (gate d now c p kind_of (check p early token "control")
            (latched_stop d now c p kind_of b session stop_confirmed stop_failed) s)
          (gate-IsOwned d now c p kind_of (check p early token "control")
            (latched_stop d now c p kind_of b session stop_confirmed stop_failed) s h
            (latched_stop-IsOwned d now c p kind_of b session stop_confirmed stop_failed s))
    receive_body-IsOwned early late b session token stop_clears s live h =
        let clear : Server d → Outcome d = λ s.
          (ok (stop_cleared ∷ []), record s { lease = (Lease.clear_stop d now c s.lease).1 }) in
        settle-IsOwned b true session
          (gate d now c p kind_of (check p early token "control") clear s)
          (gate-IsOwned d now c p kind_of (check p early token "control") clear s h
            (rw (clear_stop-owner d now c s.lease) h))
    receive_body-IsOwned early late b session token other_body s live h = h

    refused-IsOwned :
        (b : Bool) (session : String) (s : Server d)
        → IsOwned d s
        → IsOwned d (leave d now c p kind_of b session (send d session (auth_failed ∷ []) s))
    refused-IsOwned b session s h =
        leave-IsOwned b session (send d session (auth_failed ∷ []) s)
          (send-IsOwned session (auth_failed ∷ []) s h)

    pub receive_json-IsOwned :
        (first early late : Reading) (b : Bool) (session token : String) (msg : JsonMessage d)
        (s : Server d)
        → is_some (get s.conns session) ≡ true
        → IsOwned d s
        → IsOwned d (receive_json d now c p kind_of first early late b session token msg s)
    unfolding receive_json
    receive_json-IsOwned first early late b session token msg s live h =
        elim (Bool-cases (token_of d msg.token token == token)) [
          | inr e ↦ rw e (refused-IsOwned b session s h)
          | inl e ↦ elim (Result-cases (check p first token "read")) [
            | inr (_, f) ↦ rw e (rw f (refused-IsOwned b session s h))
            | inl (_, f) ↦
                rw e (rw f (receive_body-IsOwned early late b session token msg.body s live h))
          ]
        ]

    expired-IsOwned :
        (session : String) (l : Lease d) (s : Server d)
        → owns l.owner session ≡ false
        → IsOwned d (record s { lease = l })
        → IsOwned d (record s { lease = l; holders = discard session s.holders })
    expired-IsOwned session l s e h =
        Own-discard session s.holders s.conns l.owner (foreign l.owner session e) h

    tell_expired-IsOwned :
        (b : Bool) (session : String) (r : Result Error (Unit {0}) × Lease d) (s : Server d)
        → IsOwned d (record s { lease = r.1 })
        → IsOwned d (tell_expired d now c p kind_of b session r s)
    unfolding tell_expired
    tell_expired-IsOwned b session (err e, l) s h = elim (Bool-cases (is_control_error e)) [
      | inl f ↦ rw f (give_up-IsOwned b session (record s { lease = l }) h)
      | inr f ↦ rw f h
    ]
    tell_expired-IsOwned b session (ok _, l) s h = elim (Bool-cases (owns l.owner session)) [
      | inl f ↦ rw f h
      | inr f ↦ rw f (
          send-IsOwned session (expired ∷ [])
            (record s { lease = l; holders = discard session s.holders })
            (expired-IsOwned session l s f h))
    ]

    tick_owner-IsOwned :
        (late : Reading) (b : Bool) (session token : String) (s : Server d)
        → IsOwned d s
        → IsOwned d (elim (check p late token "control") [
          | err e ↦ give_up d now c p kind_of b session s
          | ok _ ↦ tell_expired d now c p kind_of b session (Lease.expire d now c b s.lease) s
        ])
    tick_owner-IsOwned late b session token s h =
        elim (Result-cases (check p late token "control")) [
          | inr (_, e) ↦ rw e (give_up-IsOwned b session s h)
          | inl (_, e) ↦ rw e (
              tell_expired-IsOwned b session (Lease.expire d now c b s.lease) s (
                Own-Yields s.holders s.conns s.lease.owner (Lease.expire d now c b s.lease).1.owner
                  (expire-Yields d now c b s.lease) h))
        ]

    tick_other-IsOwned :
        (session : String) (s : Server d)
        → owns s.lease.owner session ≡ false
        → IsOwned d s
        → IsOwned d (
            if contains s.holders session
            then send d session (released ∷ []) (record s { holders = discard session s.holders })
            else s)
    tick_other-IsOwned session s e h = elim (Bool-cases (contains s.holders session)) [
      | inl f ↦ rw f (
          send-IsOwned session (released ∷ []) (record s { holders = discard session s.holders })
            (expired-IsOwned session s.lease s e h))
      | inr f ↦ rw f h
    ]

    pub tick-IsOwned :
        (early late : Reading) (b : Bool) (session token : String) (s : Server d)
        → IsOwned d s
        → IsOwned d (tick d now c p kind_of early late b session token s)
    unfolding tick
    tick-IsOwned early late b session token s h = elim (Result-cases (check p early token "read")) [
      | inr (_, e) ↦ rw (e, tick) (give_up-IsOwned b session s h)
      | inl (_, e) ↦ elim (Bool-cases (owns s.lease.owner session)) [
        | inl f ↦ rw (e, tick) (rw f (tick_owner-IsOwned late b session token s h))
        | inr f ↦ rw (e, tick) (rw f (tick_other-IsOwned session s f h))
      ]
    ]
