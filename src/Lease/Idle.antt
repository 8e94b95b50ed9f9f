-- ===== src/Lease/Idle.antt =====
-- What the device is like while nobody owns control: `Rests` of a device that was halted, and that
-- no command has reached since. `Holds` is what every call keeps.
use roboparty_rp_server.Prelude.{
  ℕ, ◌≡◌, refl, sym, subst, ap, ◌∙◌, Bool, true, false, ◌||◌, Option, none, some, List, [], ◌∷◌,
  String, arith, if◌then◌else◌, Bool-cases, ◌⊎◌, inl, inr,
}
use roboparty_rp_server.Prelude.Result.{Result, ok, err}
use roboparty_rp_server.Lease.Expiry.{due, seen, expire_locked-due, expire_locked_kept}
use roboparty_rp_server.Lease.Safety.{after_keeps}
use roboparty_rp_server.Lease.{
  Device, Config, Authorize, Error, cancelled, Lease, status, released, create, Call, expires,
  acquires, heartbeats, releases, stops, clears, dispatches, is_free, owns, halt, perform_stop,
  stop_shielded, expire_locked, claim, renew_own, command, release, stop, clear_stop, expire,
  acquire, heartbeat, dispatch, step, run,
}

owned : (o : Option String) (session : String) → owns o session ≡ true → is_free o ≡ false
unfolding owns is_free
owned none session h = cc
owned (some o) session h = refl

module _ (d : Device) (Holds Rests : d.Dev → Type 0)
    (halt-Rests : (dev : d.Dev) → Holds dev → Holds (halt d dev).1 × Rests (halt d dev).1)
    (handle-Holds : (env : d.Command) (dev : d.Dev) → Holds dev → Holds (d.handle env dev).1) where
  abbrev pub IsIdleAt : Option String → d.Dev → Type 0
  IsIdleAt owner dev = Holds dev × ((is_free owner ≡ false) ⊎ Rests dev)

  abbrev pub IsIdle : Lease d → Type 0
  IsIdle l = IsIdleAt l.owner l.dev

  perform_stop-IsIdle : (l : Lease d) → Holds l.dev → IsIdle (perform_stop d l).1
  unfolding perform_stop
  perform_stop-IsIdle l h =
      let (holds, rests) = halt-Rests l.dev h in
      let owner : (perform_stop d l).1.owner ≡ none = ground arith in
      let dev : (perform_stop d l).1.dev ≡ (halt d l.dev).1 = ground arith in
      subst (IsIdleAt (perform_stop d l).1.owner) (sym dev) (holds, inr rests)

  stop_shielded-IsIdle : (b : Bool) (l : Lease d) → Holds l.dev → IsIdle (stop_shielded d b l).1
  unfolding stop_shielded
  stop_shielded-IsIdle true l h =
      after_keeps d IsIdle (perform_stop d l) (λ _ k. (err cancelled, k)) (perform_stop-IsIdle l h)
        (λ _ k i. i)
  stop_shielded-IsIdle false l h =
      after_keeps d IsIdle (perform_stop d l) (λ _ k. (ok tt, k)) (perform_stop-IsIdle l h)
        (λ _ k i. i)

  -- A device that is left alone stays idle when an owner comes.
  kept-IsIdle :
      (l l' : Lease d)
      → l'.dev ≡ l.dev
      → (is_free l'.owner ≡ false) ⊎ (l'.owner ≡ l.owner)
      → IsIdle l
      → IsIdle l'
  kept-IsIdle l l' dev (inl taken) (h, rests) = (subst Holds (sym dev) h, inl taken)
  kept-IsIdle l l' dev (inr same) (h, inl owned) =
      (subst Holds (sym dev) h, inl (ap is_free same ∙ owned))
  kept-IsIdle l l' dev (inr same) (h, inr rests) =
      (subst Holds (sym dev) h, inr (subst Rests (sym dev) rests))

  if_keeps :
      (b : Bool) (act : Lease d → Result Error (Unit {0}) × Lease d) (l : Lease d)
      → IsIdle (act l).1
      → IsIdle l
      → IsIdle ((if b then act else λ k. (ok tt, k)) l).1
  if_keeps true act l h k = h
  if_keeps false act l h k = k

  module _ (now : ℕ → ℕ) (c : Config) where
    expire_locked-IsIdle :
        (b : Bool) (l : Lease d) → IsIdle l → IsIdle (expire_locked d now c b l).1
    expire_locked-IsIdle b l h = elim (Bool-cases (due d now c l)) [
      | inl e ↦ rw (expire_locked-due d now c b l e) (stop_shielded-IsIdle b (seen d now c l) h.0)
      | inr e ↦ rw (expire_locked_kept d now c b l e) h
    ]

    claim-dev :
        (session : String) (a : Authorize) (l : Lease d) → (claim d now c session a l).1.dev ≡ l.dev
    unfolding claim
    claim-dev session a l = ground arith

    claim-owner :
        (session : String) (a : Authorize) (l : Lease d)
        → (is_free (claim d now c session a l).1.owner ≡ false)
          ⊎ ((claim d now c session a l).1.owner ≡ l.owner)
    unfolding claim
    claim-owner session a l = ground arith

    claim-IsIdle :
        (session : String) (a : Authorize) (l : Lease d)
        → IsIdle l
        → IsIdle (claim d now c session a l).1
    claim-IsIdle session a l =
        kept-IsIdle l (claim d now c session a l).1 (claim-dev session a l)
          (claim-owner session a l)

    renew_own-IsIdle :
        (session : String) (l : Lease d) → IsIdle l → IsIdle (renew_own d now c session l).1
    unfolding renew_own
    renew_own-IsIdle session l h =
        kept-IsIdle l (renew_own d now c session l).1 (ground arith) (inr (ground arith)) h

    release-IsIdle :
        (b : Bool) (session : String) (l : Lease d)
        → IsIdle l
        → IsIdle (release d now c b session l).1
    unfolding release
    release-IsIdle b session l h =
        after_keeps d IsIdle
          ((if owns l.owner session then stop_shielded d b else λ k. (ok tt, k)) l)
          (λ _ k. (ok (status c released), k))
          (if_keeps (owns l.owner session) (stop_shielded d b) l (stop_shielded-IsIdle b l h.0) h)
          (λ _ k i. i)

    -- A command reaches the device only where somebody owns control.
    command-moves :
        (session : String) (env : d.Command) (a : Authorize) (l : Lease d)
        → ((command d now c session env a l).1.dev ≡ l.dev)
          ⊎ (((command d now c session env a l).1.dev ≡ (d.handle env l.dev).1)
              × (is_free l.owner ≡ false))
    unfolding command
    command-moves session env a l = ground (arith, owned l.owner session)

    command-owner :
        (session : String) (env : d.Command) (a : Authorize) (l : Lease d)
        → (command d now c session env a l).1.owner ≡ l.owner
    unfolding command
    command-owner session env a l = ground arith

    command-IsIdle :
        (session : String) (env : d.Command) (a : Authorize) (l : Lease d)
        → IsIdle l
        → IsIdle (command d now c session env a l).1
    command-IsIdle session env a l h = elim (command-moves session env a l) [
      | inl dev ↦
          kept-IsIdle l (command d now c session env a l).1 dev
            (inr (command-owner session env a l)) h
      | inr moved ↦ (
        subst Holds (sym moved.0) (handle-Holds env l.dev h.0),
        inl (ap is_free (command-owner session env a l) ∙ moved.1),
      )
    ]

    pub step-IsIdle :
        (call : Bool × Call d now c) (l : Lease d) → IsIdle l → IsIdle (step d now c call l)
    unfolding step expire acquire heartbeat release stop clear_stop dispatch
    step-IsIdle (b, expires) l h = expire_locked-IsIdle b l h
    step-IsIdle (b, acquires session a) l h =
        after_keeps d IsIdle (expire_locked d now c b l) (λ _. claim d now c session a)
          (expire_locked-IsIdle b l h) (λ _ k. claim-IsIdle session a k)
    step-IsIdle (b, heartbeats session) l h =
        after_keeps d IsIdle (expire_locked d now c b l) (λ _. renew_own d now c session)
          (expire_locked-IsIdle b l h) (λ _ k. renew_own-IsIdle session k)
    step-IsIdle (b, releases session) l h = release-IsIdle b session l h
    step-IsIdle (b, stops latch) l h =
        stop_shielded-IsIdle b (record l { stopped = latch || l.stopped }) h.0
    step-IsIdle (b, clears) l h = h
    step-IsIdle (b, dispatches session env a) l h =
        after_keeps d IsIdle (expire_locked d now c b l) (λ _. command d now c session env a)
          (expire_locked-IsIdle b l h) (λ _ k. command-IsIdle session env a k)

    -- Calls in any order keep an idle device idle.
    pub run-IsIdle :
        (calls : List (Bool × Call d now c)) (l : Lease d) → IsIdle l → IsIdle (run d now c calls l)
    unfolding run
    run-IsIdle [] l h = h
    run-IsIdle (call ∷ calls) l h = run-IsIdle calls (step d now c call l) (step-IsIdle call l h)

    create-start :
        (dev : d.Dev) (l : Lease d) → create d c dev ≡ some l → (l.dev ≡ dev) × (l.owner ≡ none)
    unfolding create
    create-start dev l made = ground (arith, made)

    -- A lease that is made on a device at rest.
    pub create-IsIdle :
        (dev : d.Dev) (l : Lease d) → Holds dev → Rests dev → create d c dev ≡ some l → IsIdle l
    create-IsIdle dev l held rests made =
        let start = create-start dev l made in
        (subst Holds (sym start.0) held, inr (subst Rests (sym start.0) rests))

    -- A command that leaves the device idle, as a query does.
    pub asked-IsIdle :
        (env : d.Command) (l : Lease d)
        → (Rests l.dev → Rests (d.handle env l.dev).1)
        → IsIdle l
        → IsIdle (record l { dev = (d.handle env l.dev).1 })
    asked-IsIdle env l keeps (held, inl taken) = (handle-Holds env l.dev held, inl taken)
    asked-IsIdle env l keeps (held, inr rests) = (handle-Holds env l.dev held, inr (keeps rests))

    -- Where nobody owns control, an idle device rests.
    pub free-Rests : (l : Lease d) → l.owner ≡ none → IsIdle l → Rests l.dev
    unfolding is_free
    free-Rests l free (held, inl taken) = cc
    free-Rests l free (held, inr rests) = rests
