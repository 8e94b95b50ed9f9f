-- ===== src/Lease/Dispatch.antt =====
-- Which commands reach the device.
use roboparty_rp_server.Prelude.{
  ℕ, ◌+◌, ◌≡◌, ◌≢◌, refl, ap, ◌⊎◌, inl, inr, Bool, ◌&&◌, ◌∙◌, true, false, Option, none, some, List,
  String, arith, if◌then◌else◌, Bool-cases, string_eq, eq_iff,
}
use roboparty_rp_server.Prelude.Result.{Result, ok, err}
use roboparty_rp_server.Lease.Expiry.{due, seen, expire_locked-due, expire_locked_kept}
use roboparty_rp_server.Lease.{
  Device, Config, Authorize, Error, Lease, after, authorized, halt, owns, body_finite, is_input,
  perform_stop, stop_shielded, command, dispatch,
}

module _ (d : Device) (now : ℕ → ℕ) (c : Config) where
  -- The state behind a command that the handler took, with the device `dev'` and the replies given.
  abbrev pub commanded : d.Command → d.Dev → Lease d → Lease d
  commanded env dev' l =
      if is_input (d.body env)
      then record l {
        dev = dev';
        deadline = now l.reads + c.ttl;
        last_input = some (now (l.reads + 1));
        reads = l.reads + 1 + 1;
      }
      else record l { dev = dev'; deadline = now l.reads + c.ttl; reads = l.reads + 1 }

  owns→eq : (o : Option String) (session : String) → owns o session ≡ true → o ≡ some session
  unfolding owns
  owns→eq none session h = cc
  owns→eq (some o) session h = ap some ((eq_iff o session).0 h)

  eq→owns : (o : Option String) (session : String) → o ≡ some session → owns o session ≡ true
  unfolding owns
  eq→owns none session h = cc
  eq→owns (some o) session h = (eq_iff o session).1 (cc)

  -- `command` behind its three guards.
  abbrev Accepts : String → d.Command → Authorize → Lease d → Type 0
  Accepts session env a l =
      (authorized a ≡ true) × (owns l.owner session ≡ true) × (body_finite d (d.body env) ≡ true)

  command_ok :
      (session : String) (env : d.Command) (a : Authorize) (l l' : Lease d) (replies : List d.Reply)
      → command d now c session env a l ≡ (ok replies, l')
      → Accepts session env a l
        × (d.handle env l.dev ≡ (some replies, l'.dev))
        × (l' ≡ commanded env l'.dev l)
  unfolding command
  command_ok session env a l l' replies h = (ground arith, ground arith, ground arith)

  command_needs_owner :
      (session : String) (env : d.Command) (a : Authorize) (l l' : Lease d) (replies : List d.Reply)
      → l.owner ≡ none
      → command d now c session env a l ≢ (ok replies, l')
  unfolding command owns
  command_needs_owner session env a l l' replies free h = ground arith

  -- A stop leaves no owner, so that the command behind it is turned down.
  stop_shielded-owner : (b : Bool) (l : Lease d) → (stop_shielded d b l).1.owner ≡ none
  unfolding stop_shielded perform_stop
  stop_shielded-owner b l = ground arith

  after_stop :
      (session : String) (env : d.Command) (a : Authorize) (r : Result Error (Unit {0}) × Lease d)
      (l' : Lease d) (replies : List d.Reply)
      → r.1.owner ≡ none
      → after d r (λ _. command d now c session env a) ≢ (ok replies, l')
  after_stop session env a (ok _, l) l' replies free h =
      command_needs_owner session env a l l' replies free h
  after_stop session env a (err e, l) l' replies free h = cc

  -- Replies come from the handler, and only to the owner, whose lease has not run out and whose
  -- input is not stale, for a command that is authorized and whose values are all finite; the
  -- lease is renewed, and the input is on record when the command carries any.
  pub dispatch_ok :
      (b : Bool) (session : String) (env : d.Command) (a : Authorize) (l l' : Lease d)
      (replies : List d.Reply)
      → dispatch d now c b session env a l ≡ (ok replies, l')
      → (due d now c l ≡ false)
        × (l.owner ≡ some session)
        × (authorized a ≡ true)
        × (body_finite d (d.body env) ≡ true)
        × (d.handle env l.dev ≡ (some replies, l'.dev))
        × (l' ≡ commanded env l'.dev (seen d now c l))
  unfolding dispatch
  dispatch_ok b session env a l l' replies h = elim (Bool-cases (due d now c l)) [
    | inl e ↦ absurd (
        after_stop session env a (stop_shielded d b (seen d now c l)) l' replies
          (stop_shielded-owner b (seen d now c l)) (rw (expire_locked-due d now c b l e) at h))
    | inr e ↦
        let h' = rw (expire_locked_kept d now c b l e) at h in
        let (accepts, handled, left) = command_ok session env a (seen d now c l) l' replies h' in
        (e, owns→eq l.owner session accepts.1, accepts.0, accepts.2, handled, left)
  ]

  command_runs :
      (session : String) (env : d.Command) (a : Authorize) (l : Lease d) (replies : List d.Reply)
      (dev' : d.Dev)
      → Accepts session env a l
      → d.handle env l.dev ≡ (some replies, dev')
      → command d now c session env a l ≡ (ok replies, commanded env dev' l)
  unfolding command
  command_runs session env a l replies dev' accepts handled = ground arith

  -- The other way round: such a command of the owner always reaches the handler.
  pub dispatch_runs :
      (b : Bool) (session : String) (env : d.Command) (a : Authorize) (l : Lease d)
      (replies : List d.Reply) (dev' : d.Dev)
      → due d now c l ≡ false
      → l.owner ≡ some session
      → authorized a ≡ true
      → body_finite d (d.body env) ≡ true
      → d.handle env l.dev ≡ (some replies, dev')
      → dispatch d now c b session env a l ≡ (ok replies, commanded env dev' (seen d now c l))
  unfolding dispatch
  dispatch_runs b session env a l replies dev' kept own allowed finite handled =
      rw (expire_locked_kept d now c b l kept) (
        command_runs session env a (seen d now c l) replies dev'
          (allowed, eq→owns l.owner session own, finite) handled)

  -- What a command that is turned down may have done to the device: nothing, or, when the lease of
  -- the owner had run out, what stopping does.
  abbrev pub Spares : Lease d → d.Dev → Type 0
  Spares l dev' =
      ((due d now c l ≡ false) × (dev' ≡ l.dev))
      ⊎ ((due d now c l ≡ true) × (dev' ≡ (halt d l.dev).1))

  command_turned_down :
      (session : String) (env : d.Command) (a : Authorize) (l : Lease d)
      → owns l.owner session && (authorized a && body_finite d (d.body env)) ≡ false
      → (command d now c session env a l).1 ≡ l
  unfolding command
  command_turned_down session env a l h = ground arith

  stop_shielded-dev : (b : Bool) (l : Lease d) → (stop_shielded d b l).1.dev ≡ (halt d l.dev).1
  unfolding stop_shielded perform_stop
  stop_shielded-dev b l = ground arith

  after_stop-dev :
      (session : String) (env : d.Command) (a : Authorize) (r : Result Error (Unit {0}) × Lease d)
      → r.1.owner ≡ none
      → (after d r (λ _. command d now c session env a)).1.dev ≡ r.1.dev
  unfolding command owns
  after_stop-dev session env a (ok _, l) free = ground arith
  after_stop-dev session env a (err e, l) free = refl

  -- A command from a session that does not own control, without authority, or with a value that is
  -- not finite, does not reach the handler: the device is as it was, or stopped because the
  -- owner's lease had run out.
  pub dispatch_turned_down :
      (b : Bool) (session : String) (env : d.Command) (a : Authorize) (l : Lease d)
      → owns l.owner session && (authorized a && body_finite d (d.body env)) ≡ false
      → Spares l (dispatch d now c b session env a l).1.dev
  unfolding dispatch
  dispatch_turned_down b session env a l h = elim (Bool-cases (due d now c l)) [
    | inl e ↦ inr (
      e,
      rw (expire_locked-due d now c b l e) (
          after_stop-dev session env a (stop_shielded d b (seen d now c l))
            (stop_shielded-owner b (seen d now c l))
          ∙ stop_shielded-dev b (seen d now c l)),
    )
    | inr e ↦ inl (
      e,
      rw (expire_locked_kept d now c b l e)
          (ap (λ (m : Lease d). m.dev) (command_turned_down session env a (seen d now c l) h)),
    )
  ]
