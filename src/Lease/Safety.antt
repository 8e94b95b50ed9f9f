-- ===== src/Lease/Safety.antt =====
-- Who may own control: the invariant of the lease, and the latch.
use roboparty_rp_server.Prelude.{
  ℕ, ◌≡◌, Bool, false, ◌||◌, Option, none, some, List, [], ◌∷◌, String, arith, Bool-cases, inl, inr,
}
use roboparty_rp_server.Prelude.Result.{Result, ok, err}
use roboparty_rp_server.Lease.Expiry.{due, seen, expire_locked-due, expire_locked_kept}
use roboparty_rp_server.Lease.{
  Device, Config, Authorize, Error, Lease, after, Call, expires, acquires, heartbeats, releases,
  stops, clears, dispatches, create, perform_stop, stop_shielded, expire_locked, claim, renew_own,
  command, release, stop, clear_stop, expire, acquire, heartbeat, dispatch, step, run,
}

module _ (d : Device) where
  -- An owner is there only while control is neither blocked by a failed stop nor latched off; with
  -- no owner there is no stale input either.
  abbrev pub IsSafeAt : Option String → Option ℕ → Bool → Bool → Type 0
  IsSafeAt none last_input fault stopped = last_input ≡ none
  IsSafeAt (some o) last_input fault stopped = (fault ≡ false) × (stopped ≡ false)

  abbrev pub IsSafe : Lease d → Type 0
  IsSafe l = IsSafeAt l.owner l.last_input l.fault l.stopped

  perform_stop-IsSafe : (l : Lease d) → IsSafe (perform_stop d l).1
  unfolding perform_stop
  perform_stop-IsSafe l = ground arith

  stop_shielded-IsSafe : (b : Bool) (l : Lease d) → IsSafe (stop_shielded d b l).1
  unfolding stop_shielded
  stop_shielded-IsSafe b l = ground (arith, perform_stop-IsSafe l)

  -- A coroutine of two parts keeps what both keep, whether or not the first raises.
  pub after_keeps :
      {A B : Type 0} (P : Lease d → Type 0) (first : Result Error A × Lease d)
      (then : A → Lease d → Result Error B × Lease d)
      → P first.1
      → ((a : A) (l : Lease d) → P l → P (then a l).1)
      → P (after d first then).1
  after_keeps P (ok a, l) then h keep = keep a l h
  after_keeps P (err e, l) then h keep = h

  module _ (now : ℕ → ℕ) (c : Config) where
    expire_locked-IsSafe :
        (b : Bool) (l : Lease d) → IsSafe l → IsSafe (expire_locked d now c b l).1
    expire_locked-IsSafe b l h = elim (Bool-cases (due d now c l)) [
      | inl e ↦ rw (expire_locked-due d now c b l e) (stop_shielded-IsSafe b (seen d now c l))
      | inr e ↦ rw (expire_locked_kept d now c b l e) h
    ]

    claim-IsSafe :
        (session : String) (a : Authorize) (l : Lease d)
        → IsSafe l
        → IsSafe (claim d now c session a l).1
    unfolding claim
    claim-IsSafe session a l h = ground arith

    command-IsSafe :
        (session : String) (env : d.Command) (a : Authorize) (l : Lease d)
        → IsSafe l
        → IsSafe (command d now c session env a l).1
    unfolding command
    command-IsSafe session env a l h = ground arith

    renew_own-IsSafe :
        (session : String) (l : Lease d) → IsSafe l → IsSafe (renew_own d now c session l).1
    unfolding renew_own
    renew_own-IsSafe session l h = ground arith

    -- Each call keeps the lease safe, also when it raises or its caller is cancelled.
    pub step-IsSafe :
        (call : Bool × Call d now c) (l : Lease d) → IsSafe l → IsSafe (step d now c call l)
    unfolding step expire acquire heartbeat release stop clear_stop dispatch
    step-IsSafe (b, expires) l h = expire_locked-IsSafe b l h
    step-IsSafe (b, acquires session a) l h =
        after_keeps IsSafe (expire_locked d now c b l) (λ _. claim d now c session a)
          (expire_locked-IsSafe b l h) (λ _ k. claim-IsSafe session a k)
    step-IsSafe (b, heartbeats session) l h =
        after_keeps IsSafe (expire_locked d now c b l) (λ _. renew_own d now c session)
          (expire_locked-IsSafe b l h) (λ _ k. renew_own-IsSafe session k)
    step-IsSafe (b, releases session) l h = ground (arith, stop_shielded-IsSafe b l)
    step-IsSafe (b, stops latch) l h =
        stop_shielded-IsSafe b (record l { stopped = latch || l.stopped })
    step-IsSafe (b, clears) l h = ground arith
    step-IsSafe (b, dispatches session env a) l h =
        after_keeps IsSafe (expire_locked d now c b l) (λ _. command d now c session env a)
          (expire_locked-IsSafe b l h) (λ _ k. command-IsSafe session env a k)

    run-IsSafe :
        (calls : List (Bool × Call d now c)) (l : Lease d) → IsSafe l → IsSafe (run d now c calls l)
    unfolding run
    run-IsSafe [] l h = h
    run-IsSafe (call ∷ calls) l h = run-IsSafe calls (step d now c call l) (step-IsSafe call l h)

    -- After any history of a new lease, an owner is there only while no stop has failed and no
    -- software stop is latched, and without an owner no input is on record.
    pub run-create-IsSafe :
        (dev : d.Dev) (l : Lease d) (calls : List (Bool × Call d now c))
        → create d c dev ≡ some l
        → IsSafe (run d now c calls l)
    unfolding create
    run-create-IsSafe dev l calls made = run-IsSafe calls l (ground arith)
