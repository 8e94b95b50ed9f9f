-- ===== src/Web/Session/Reach.antt =====
-- What messages, rounds of the watchdog and ends of connections do with the lease.
use roboparty_rp_server.Prelude.{
  ℕ, Bool, true, false, String, Option, none, some, List, [], ◌∷◌, ◌==◌, string_eq, if◌then◌else◌,
  Bool-cases, inl, inr,
}
use roboparty_rp_server.Prelude.Dict.{contains}
use roboparty_rp_server.Prelude.Result.{Result, ok, err, Result-cases}
use roboparty_rp_server.Access.{AccessPolicy}
use roboparty_rp_server.Lease.{Device, Config, Error, Lease, owns, step}
use roboparty_rp_server.Lease
use roboparty_rp_server.Web.{
  Kind, stop_confirmed, stop_failed, stop_cleared, skill_received, skill_unsupported, expired,
  released, failed, invalid_message, auth_failed, Reading, refused, lease_error, Frame, check,
  is_control_error, discard,
}
use roboparty_rp_server.Web.Guard.{
  Server, Outcome, latched_stop, gate, guarded_dispatch, lease_message,
}
use roboparty_rp_server.Web.Session.{
  Message, text, bytes, JsonBody, lease_text, control, skill_action, stop_now, stop_clears,
  other_body, JsonMessage, send, token_of, leave, settle_error, settle, settle_text, receive,
  silent, dispatch_json, receive_body, receive_json, give_up, tell_expired, tick,
}
use roboparty_rp_server.Web.Guard.Reach.{
  call, IsReached, IsReached?, latched_stop-IsReached, gate-IsReached, guarded_dispatch-IsReached,
  lease_message-IsReached,
}

module _ (d : Device) (now : ℕ → ℕ) (c : Config) (p : AccessPolicy) (kind_of : d.Command → Kind)
    (l : Lease d) where
  abbrev At : Server d → Type 0
  At s = IsReached d now c p kind_of l s

  pub send-IsReached :
      (session : String) (frames : List (Frame d.Reply)) (s : Server d)
      → At s
      → At (send d session frames s)
  unfolding send
  send-IsReached session [] s r = r
  send-IsReached session (f ∷ fs) s r =
      send-IsReached session fs (record s { sent = (session, f) ∷ s.sent }) r

  give_up-IsReached :
      (b : Bool) (session : String) (s : Server d)
      → At s
      → At (give_up d now c p kind_of b session s)
  unfolding give_up step
  give_up-IsReached b session s r = call (b, Lease.releases session) r

  pub leave-IsReached :
      (b : Bool) (session : String) (s : Server d) → At s → At (leave d now c p kind_of b session s)
  unfolding leave step
  leave-IsReached b session s r = call (b, Lease.releases session) r

  settle_error-IsReached :
      (b json : Bool) (session : String) (e : Error) (s : Server d)
      → At s
      → At (settle_error d now c p kind_of b json session e s)
  unfolding settle_error
  settle_error-IsReached b json session Error.stop_failed s r =
      send-IsReached session (failed (lease_error Error.stop_failed) ∷ []) s r
  settle_error-IsReached b json session Error.control_stopped s r =
      send-IsReached session (failed (lease_error Error.control_stopped) ∷ []) s r
  settle_error-IsReached b json session Error.control_busy s r =
      send-IsReached session (failed (lease_error Error.control_busy) ∷ []) s r
  settle_error-IsReached b json session Error.lease_required s r =
      send-IsReached session (failed (lease_error Error.lease_required) ∷ []) s r
  settle_error-IsReached b json session Error.invalid_input s r =
      send-IsReached session (failed (lease_error Error.invalid_input) ∷ []) s r
  settle_error-IsReached b json session Error.denied s r =
      send-IsReached session (failed (lease_error Error.denied) ∷ []) s r
  settle_error-IsReached b true session Error.handler_raised s r = leave-IsReached b session s r
  settle_error-IsReached b false session Error.handler_raised s r = r
  settle_error-IsReached b json session Error.cancelled s r = leave-IsReached b session s r

  settle-IsReached :
      (b json : Bool) (session : String) (o : Outcome d)
      → At o.1
      → At (settle d now c p kind_of b json session o)
  unfolding settle
  settle-IsReached b json session (ok frames, s) r = send-IsReached session frames s r
  settle-IsReached b json session (err (refused e), s) r =
      send-IsReached session (failed (refused e) ∷ []) s r
  settle-IsReached b json session (err (lease_error e), s) r =
      settle_error-IsReached b json session e s r

  settle_text-IsReached :
      (b : Bool) (session : String) (o : Option (Outcome d)) (s : Server d)
      → At s
      → IsReached? d now c p kind_of l o
      → At (settle_text d now c p kind_of b session o s)
  unfolding settle_text IsReached?
  settle_text-IsReached b session none s r k = send-IsReached session (invalid_message ∷ []) s r
  settle_text-IsReached b session (some o) s r k = settle-IsReached b false session o k

  pub receive-IsReached :
      (early late : Reading) (b : Bool) (session token : String) (msg : Message d.Command)
      (s : Server d)
      → At s
      → At (receive d now c p kind_of early late b session token msg s)
  unfolding receive
  receive-IsReached early late b session token (text none) s r =
      send-IsReached session (invalid_message ∷ []) s r
  receive-IsReached early late b session token (text (some t)) s r =
      settle_text-IsReached b session
        (lease_message d now c p kind_of early late b session token t s) s r
        (lease_message-IsReached d now c p kind_of l early late b session token t s r)
  receive-IsReached early late b session token (bytes none) s r = r
  receive-IsReached early late b session token (bytes (some env)) s r =
      settle-IsReached b false session
        (guarded_dispatch d now c p kind_of early late b session token env s)
        (guarded_dispatch-IsReached d now c p kind_of l early late b session token env s r)

  silent-IsReached :
      (frames : List (Frame d.Reply)) (o : Outcome d)
      → At o.1
      → At (silent d now c p kind_of frames o).1
  unfolding silent
  silent-IsReached frames (ok _, s) r = r
  silent-IsReached frames (err e, s) r = r

  dispatch_json-IsReached :
      (early late : Reading) (b : Bool) (session token : String) (frames : List (Frame d.Reply))
      (env : Option d.Command) (s : Server d)
      → At s
      → At (dispatch_json d now c p kind_of early late b session token frames env s)
  unfolding dispatch_json
  dispatch_json-IsReached early late b session token frames none s r = leave-IsReached b session s r
  dispatch_json-IsReached early late b session token frames (some env) s r =
      let o = guarded_dispatch d now c p kind_of early late b session token env s in
      settle-IsReached b true session (silent d now c p kind_of frames o) (
        silent-IsReached frames o
          (guarded_dispatch-IsReached d now c p kind_of l early late b session token env s r))

  lease_text-IsReached :
      (b : Bool) (session : String) (o : Option (Outcome d)) (s : Server d)
      → At s
      → IsReached? d now c p kind_of l o
      → At (elim o [ none ↦ s | some outcome ↦ settle d now c p kind_of b true session outcome ])
  unfolding IsReached?
  lease_text-IsReached b session none s r k = r
  lease_text-IsReached b session (some o) s r k = settle-IsReached b true session o k

  receive_body-IsReached :
      (early late : Reading) (b : Bool) (session token : String) (body : JsonBody d.Command)
      (s : Server d)
      → At s
      → At (receive_body d now c p kind_of early late b session token body s)
  unfolding receive_body step
  receive_body-IsReached early late b session token (lease_text t) s r =
      lease_text-IsReached b session
        (lease_message d now c p kind_of early late b session token t s) s r
        (lease_message-IsReached d now c p kind_of l early late b session token t s r)
  receive_body-IsReached early late b session token (control env) s r =
      dispatch_json-IsReached early late b session token [] env s r
  receive_body-IsReached early late b session token (skill_action env) s r =
      dispatch_json-IsReached early late b session token (skill_received ∷ skill_unsupported ∷ [])
        env s r
  receive_body-IsReached early late b session token stop_now s r =
      let stop = latched_stop d now c p kind_of b session stop_confirmed stop_failed in
      settle-IsReached b true session
        (gate d now c p kind_of (check p early token "control") stop s)
        (gate-IsReached d now c p kind_of l (check p early token "control") stop s r
          (latched_stop-IsReached d now c p kind_of l b session stop_confirmed stop_failed s r))
  receive_body-IsReached early late b session token stop_clears s r =
      let clear : Server d → Outcome d =
        λ s. (ok (stop_cleared ∷ []), record s { lease = (Lease.clear_stop d now c s.lease).1 }) in
      settle-IsReached b true session
        (gate d now c p kind_of (check p early token "control") clear s)
        (gate-IsReached d now c p kind_of l (check p early token "control") clear s r
          (call (b, Lease.clears) r))
  receive_body-IsReached early late b session token other_body s r = r

  refused-IsReached :
      (b : Bool) (session : String) (s : Server d)
      → At s
      → At (leave d now c p kind_of b session (send d session (auth_failed ∷ []) s))
  refused-IsReached b session s r =
      leave-IsReached b session (send d session (auth_failed ∷ []) s)
        (send-IsReached session (auth_failed ∷ []) s r)

  pub receive_json-IsReached :
      (first early late : Reading) (b : Bool) (session token : String) (msg : JsonMessage d)
      (s : Server d)
      → At s
      → At (receive_json d now c p kind_of first early late b session token msg s)
  unfolding receive_json
  receive_json-IsReached first early late b session token msg s r =
      elim (Bool-cases (token_of d msg.token token == token)) [
        | inr e ↦ rw e (refused-IsReached b session s r)
        | inl e ↦ elim (Result-cases (check p first token "read")) [
          | inr (_, f) ↦ rw e (rw f (refused-IsReached b session s r))
          | inl (_, f) ↦
              rw e (rw f (receive_body-IsReached early late b session token msg.body s r))
        ]
      ]

  tell_expired-IsReached :
      (b : Bool) (session : String) (o : Result Error (Unit {0}) × Lease d) (s : Server d)
      → At (record s { lease = o.1 })
      → At (tell_expired d now c p kind_of b session o s)
  unfolding tell_expired
  tell_expired-IsReached b session (err e, m) s r = elim (Bool-cases (is_control_error e)) [
    | inl f ↦ rw f (give_up-IsReached b session (record s { lease = m }) r)
    | inr f ↦ rw f r
  ]
  tell_expired-IsReached b session (ok _, m) s r = elim (Bool-cases (owns m.owner session)) [
    | inl f ↦ rw f r
    | inr f ↦ rw f (
        send-IsReached session (expired ∷ [])
          (record s { lease = m; holders = discard session s.holders }) r)
  ]

  tick_owner-IsReached :
      (late : Reading) (b : Bool) (session token : String) (s : Server d)
      → At s
      → At (elim (check p late token "control") [
        | err e ↦ give_up d now c p kind_of b session s
        | ok _ ↦ tell_expired d now c p kind_of b session (Lease.expire d now c b s.lease) s
      ])
  unfolding step
  tick_owner-IsReached late b session token s r =
      elim (Result-cases (check p late token "control")) [
        | inr (_, e) ↦ rw e (give_up-IsReached b session s r)
        | inl (_, e) ↦ rw e (
            tell_expired-IsReached b session (Lease.expire d now c b s.lease) s
              (call (b, Lease.expires) r))
      ]

  tick_other-IsReached :
      (session : String) (s : Server d)
      → At s
      → At (
          if contains s.holders session
          then send d session (released ∷ []) (record s { holders = discard session s.holders })
          else s)
  tick_other-IsReached session s r = elim (Bool-cases (contains s.holders session)) [
    | inl f ↦ rw f (
        send-IsReached session (released ∷ []) (record s { holders = discard session s.holders }) r)
    | inr f ↦ rw f r
  ]

  pub tick-IsReached :
      (early late : Reading) (b : Bool) (session token : String) (s : Server d)
      → At s
      → At (tick d now c p kind_of early late b session token s)
  unfolding tick
  tick-IsReached early late b session token s r = elim (Result-cases (check p early token "read")) [
    | inr (_, e) ↦ rw (e, tick) (give_up-IsReached b session s r)
    | inl (_, e) ↦ elim (Bool-cases (owns s.lease.owner session)) [
      | inl f ↦ rw (e, tick) (rw f (tick_owner-IsReached late b session token s r))
      | inr f ↦ rw (e, tick) (rw f (tick_other-IsReached session s r))
    ]
  ]
