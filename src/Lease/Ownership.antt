-- ===== src/Lease/Ownership.antt =====
-- How control changes hands: stopping, losing it by staleness, and taking it.
use roboparty_rp_server.Prelude.{
  ℕ, ◌+◌, ◌≤◌, ◌≡◌, ◌≢◌, ◌⊎◌, inl, inr, Bool, true, false, ◌||◌, none, some, List, [], ◌∷◌, map,
  String, arith, if◌then◌else◌, Bool-cases, eq_iff,
}
use roboparty_rp_server.Prelude.Result.{ok, err}
use roboparty_rp_server.Lease.Expiry.{due, seen, expire_locked-due, expire_locked_kept}
use roboparty_rp_server.Lease.Safety.{IsSafe, after_keeps}
use roboparty_rp_server.Lease.{
  Device, Config, Authorize, stop_failed, cancelled, control_busy, Lease, Call, expires, heartbeats,
  authorized, owns, is_free, halt, perform_stop, stop_shielded, expire_locked, claim, renew_own,
  expire, acquire, heartbeat, stop, status, acquired, step, run,
}

module _ (d : Device) (now : ℕ → ℕ) (c : Config) where
  -- A stop, whatever happens to its caller, resets the gamepad, stops a running policy, and leaves
  -- nobody in control. If any of that failed, control is blocked and the call says so.
  pub stop_lem :
      (b latch : Bool) (l : Lease d)
      → let (r, l') = stop d now c b latch l in
        let (errors, dev') = halt d l.dev in
        (l'.owner ≡ none)
        × (l'.last_input ≡ none)
        × (l'.dev ≡ dev')
        × (l'.fault ≡ (errors || l.fault))
        × (l'.stopped ≡ (latch || l.stopped))
        × (r ≡ (if errors then err stop_failed else if b then err cancelled else ok tt))
  unfolding stop perform_stop
  stop_lem b latch l = ground arith

  -- Either nobody owns control, or `o` does with its last input at `t`.
  abbrev Lingers : String → ℕ → Lease d → Type 0
  Lingers o t l = (l.owner ≡ none) ⊎ ((l.owner ≡ some o) × (l.last_input ≡ some t))

  stop_shielded-owner : (b : Bool) (l : Lease d) → (stop_shielded d b l).1.owner ≡ none
  unfolding stop_shielded perform_stop
  stop_shielded-owner b l = ground arith

  expire_locked-Lingers :
      (o : String) (t : ℕ) (b : Bool) (l : Lease d)
      → Lingers o t l
      → Lingers o t (expire_locked d now c b l).1
  expire_locked-Lingers o t b l h = elim (Bool-cases (due d now c l)) [
    | inl e ↦ rw (expire_locked-due d now c b l e) (inl (stop_shielded-owner b (seen d now c l)))
    | inr e ↦ rw (expire_locked_kept d now c b l e) h
  ]

  renew_own-Lingers :
      (o session : String) (t : ℕ) (l : Lease d)
      → Lingers o t l
      → Lingers o t (renew_own d now c session l).1
  unfolding renew_own
  renew_own-Lingers o session t l h = ground arith

  abbrev pub beat : Bool × String → Bool × Call d now c
  beat (b, session) = (b, heartbeats session)

  run_beats-Lingers :
      (o : String) (t : ℕ) (beats : List (Bool × String)) (l : Lease d)
      → Lingers o t l
      → Lingers o t (run d now c (map beat beats) l)
  unfolding run step heartbeat
  run_beats-Lingers o t [] l h = h
  run_beats-Lingers o t ((b, session) ∷ beats) l h = run_beats-Lingers o t beats _ (
      after_keeps d (Lingers o t) (expire_locked d now c b l) (λ _. renew_own d now c session)
        (expire_locked-Lingers o t b l h) (λ _ m g. renew_own-Lingers o session t m g))

  expire_locked_stale :
      (o : String) (t : ℕ) (b : Bool) (l : Lease d)
      → Lingers o t l
      → t + c.input_timeout ≤ now (l.reads + 1)
      → (expire_locked d now c b l).1.owner ≡ none
  expire_locked_stale o t b l (inl free) stale =
      rw (expire_locked_kept d now c b l (ground arith)) free
  expire_locked_stale o t b l (inr (own, input)) stale =
      rw (expire_locked-due d now c b l (ground arith)) (stop_shielded-owner b (seen d now c l))

  -- Heartbeats do not keep stale input alive: after any number of them, by whatever sessions, the
  -- watchdog takes control from an owner whose last input is `input_timeout` old. (Readings of the
  -- clock do not go back.)
  pub stale_input_expires :
      ((n : ℕ) → now n ≤ now (n + 1))
      → (o : String) (t : ℕ) (b : Bool) (beats : List (Bool × String)) (l : Lease d)
      → l.owner ≡ some o
      → l.last_input ≡ some t
      → let l' = run d now c (map beat beats) l in
        t + c.input_timeout ≤ now l'.reads → (step d now c (b, expires) l').owner ≡ none
  unfolding step expire
  stale_input_expires mono o t b beats l own input stale =
      let l' = run d now c (map beat beats) l in
      expire_locked_stale o t b l' (run_beats-Lingers o t beats l (inr (own, input)))
        (omega (arith, mono l'.reads))

  claim_ok :
      (session : String) (a : Authorize) (l : Lease d)
      → authorized a ≡ true
      → l.fault ≡ false
      → l.stopped ≡ false
      → is_free l.owner || owns l.owner session ≡ true
      → claim d now c session a l ≡ (
        ok (status c acquired),
        record l {
          owner = some session;
          deadline = now l.reads + c.ttl;
          last_input = if is_free l.owner then none else l.last_input;
          reads = l.reads + 1;
        },
      )
  unfolding claim
  claim_ok session a l allowed sound open_ free = ground arith

  claim_busy :
      (session : String) (a : Authorize) (l : Lease d)
      → authorized a ≡ true
      → l.fault ≡ false
      → l.stopped ≡ false
      → is_free l.owner || owns l.owner session ≡ false
      → claim d now c session a l ≡ (err control_busy, l)
  unfolding claim
  claim_busy session a l allowed sound open_ taken = ground arith

  -- While an owner's lease lasts, another session is told that control is busy, and nothing changes
  -- but the count of clock readings.
  pub acquire_busy :
      (b : Bool) (o session : String) (a : Authorize) (l : Lease d)
      → IsSafe d l
      → l.owner ≡ some o
      → o ≢ session
      → due d now c l ≡ false
      → authorized a ≡ true
      → acquire d now c b session a l ≡ (err control_busy, seen d now c l)
  unfolding acquire owns is_free
  acquire_busy b o session a l safe own other kept allowed =
      rw (expire_locked_kept d now c b l kept)
        (ground (arith, eq_iff o session, claim_busy session a (seen d now c l)))

  perform_stop_clean :
      (l : Lease d)
      → (halt d l.dev).0 ≡ false
      → stop_shielded d false l
        ≡ (ok tt, record l { owner = none; last_input = none; dev = (halt d l.dev).1 })
  unfolding stop_shielded perform_stop
  perform_stop_clean l h = ground arith

  due_sound :
      (l : Lease d) → IsSafe d l → due d now c l ≡ true → (l.fault ≡ false) × (l.stopped ≡ false)
  due_sound l safe out = (ground arith, ground arith)

  -- When the owner's lease has run out, any authorized session that asks takes control: the old
  -- owner is stopped first, on the device too, and the new lease starts with no input on record.
  pub acquire_takes_over :
      (session : String) (a : Authorize) (l : Lease d)
      → IsSafe d l
      → due d now c l ≡ true
      → (halt d l.dev).0 ≡ false
      → authorized a ≡ true
      → let l' = seen d now c l in
        acquire d now c false session a l ≡ (
          ok (status c acquired),
          record l' {
            owner = some session;
            deadline = now l'.reads + c.ttl;
            last_input = none;
            reads = l'.reads + 1;
            dev = (halt d l.dev).1;
          },
        )
  unfolding acquire is_free
  acquire_takes_over session a l safe out clean allowed =
      rw (expire_locked-due d now c false l out) (
        rw (perform_stop_clean (seen d now c l) clean)
          (ground (arith, due_sound l safe out, claim_ok session a stopped)))
    where
      stopped : Lease d
      stopped =
          let l' = seen d now c l in
          record l' { owner = none; last_input = none; dev = (halt d l.dev).1 }
