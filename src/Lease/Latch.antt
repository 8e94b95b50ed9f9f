-- ===== src/Lease/Latch.antt =====
-- What bars control for good: a failed stop, and a latched software stop until it is cleared.
use roboparty_rp_server.Prelude.{
  ℕ, subst, sym, ◌≡◌, refl, Bool, true, ◌||◌, none, List, [], ◌∷◌, String, All, arith,
  if◌then◌else◌,
}
use roboparty_rp_server.Prelude.Result.{ok, err}
use roboparty_rp_server.Lease.Expiry.{seen, expire_locked_kept}
use roboparty_rp_server.Lease.Safety.{after_keeps}
use roboparty_rp_server.Lease.{
  Device, Config, Authorize, stop_failed, denied, Lease, Call, expires, acquires, heartbeats,
  releases, stops, clears, dispatches, authorized, perform_stop, stop_shielded, expire_locked,
  claim, renew_own, command, release, stop, clear_stop, expire, acquire, heartbeat, dispatch, step,
  run,
}

module _ (d : Device) (now : ℕ → ℕ) (c : Config) where
  -- Nobody owns control, and a stop has failed.
  abbrev pub IsBlocked : Lease d → Type 0
  IsBlocked l = (l.owner ≡ none) × (l.fault ≡ true)

  -- Nobody owns control, and a software stop is latched.
  abbrev pub IsLatched : Lease d → Type 0
  IsLatched l = (l.owner ≡ none) × (l.stopped ≡ true)

  -- With no owner the watchdog does nothing.
  expire_locked_free :
      (b : Bool) (l : Lease d)
      → l.owner ≡ none
      → expire_locked d now c b l ≡ (ok tt, seen d now c l)
  expire_locked_free b l h = expire_locked_kept d now c b l (ground arith)

  expire_locked_keeps :
      (P : Lease d → Type 0) (b : Bool) (l : Lease d)
      → l.owner ≡ none
      → P (seen d now c l)
      → P (expire_locked d now c b l).1
  expire_locked_keeps P b l free h = subst (λ r. P r.1) (sym (expire_locked_free b l free)) h

  stop_shielded-IsBlocked :
      (b : Bool) (l : Lease d) → l.fault ≡ true → IsBlocked (stop_shielded d b l).1
  unfolding stop_shielded perform_stop
  stop_shielded-IsBlocked b l h = ground arith

  stop_shielded-IsLatched :
      (b : Bool) (l : Lease d) → l.stopped ≡ true → IsLatched (stop_shielded d b l).1
  unfolding stop_shielded perform_stop
  stop_shielded-IsLatched b l h = ground arith

  claim-IsBlocked :
      (session : String) (a : Authorize) (l : Lease d)
      → IsBlocked l
      → claim d now c session a l ≡ (err (if authorized a then stop_failed else denied), l)
  unfolding claim
  claim-IsBlocked session a l h = ground arith

  claim-IsLatched :
      (session : String) (a : Authorize) (l : Lease d)
      → IsLatched l
      → IsLatched (claim d now c session a l).1
  unfolding claim
  claim-IsLatched session a l h = ground arith

  -- While a stop has failed, `acquire` is refused to everyone.
  pub acquire-IsBlocked :
      (b : Bool) (session : String) (a : Authorize) (l : Lease d)
      → IsBlocked l
      → (acquire d now c b session a l).0 ≡ err (if authorized a then stop_failed else denied)
  unfolding acquire
  acquire-IsBlocked b session a l h =
      rw (expire_locked_free b l h.0) (rw (claim-IsBlocked session a (seen d now c l) h) refl)

  -- A command without an owner is turned down before it reaches the handler.
  command_free :
      (session : String) (env : d.Command) (a : Authorize) (l : Lease d)
      → l.owner ≡ none
      → (command d now c session env a l).1 ≡ l
  unfolding command
  command_free session env a l h = ground arith

  renew_own_free :
      (session : String) (l : Lease d) → l.owner ≡ none → renew_own d now c session l ≡ (ok tt, l)
  unfolding renew_own
  renew_own_free session l h = ground arith

  -- A failed stop is final: no sequence of calls clears it or gives anyone control.
  pub step-IsBlocked :
      (call : Bool × Call d now c) (l : Lease d) → IsBlocked l → IsBlocked (step d now c call l)
  unfolding step expire acquire heartbeat release stop clear_stop dispatch
  step-IsBlocked (b, expires) l h = expire_locked_keeps IsBlocked b l h.0 h
  step-IsBlocked (b, acquires session a) l h =
      after_keeps d IsBlocked (expire_locked d now c b l) (λ _. claim d now c session a)
        (expire_locked_keeps IsBlocked b l h.0 h) (λ _ m g. rw (claim-IsBlocked session a m g) g)
  step-IsBlocked (b, heartbeats session) l h =
      after_keeps d IsBlocked (expire_locked d now c b l) (λ _. renew_own d now c session)
        (expire_locked_keeps IsBlocked b l h.0 h) (λ _ m g. rw (renew_own_free session m g.0) g)
  step-IsBlocked (b, releases session) l h = ground arith
  step-IsBlocked (b, stops latch) l h =
      stop_shielded-IsBlocked b (record l { stopped = latch || l.stopped }) h.1
  step-IsBlocked (b, clears) l h = h
  step-IsBlocked (b, dispatches session env a) l h =
      after_keeps d IsBlocked (expire_locked d now c b l) (λ _. command d now c session env a)
        (expire_locked_keeps IsBlocked b l h.0 h) (λ _ m g. rw (command_free session env a m g.0) g)

  pub run-IsBlocked :
      (calls : List (Bool × Call d now c)) (l : Lease d)
      → IsBlocked l
      → IsBlocked (run d now c calls l)
  unfolding run
  run-IsBlocked [] l h = h
  run-IsBlocked (call ∷ calls) l h =
      run-IsBlocked calls (step d now c call l) (step-IsBlocked call l h)

  -- The calls other than `clear_stop`.
  abbrev pub KeepsLatch : Bool × Call d now c → Type 0
  KeepsLatch (b, clears) = ⊥
  KeepsLatch (b, _) = Unit {0}

  step-IsLatched :
      (call : Bool × Call d now c) (l : Lease d)
      → KeepsLatch call
      → IsLatched l
      → IsLatched (step d now c call l)
  unfolding step expire acquire heartbeat release stop clear_stop dispatch
  step-IsLatched (b, expires) l k h = expire_locked_keeps IsLatched b l h.0 h
  step-IsLatched (b, acquires session a) l k h =
      after_keeps d IsLatched (expire_locked d now c b l) (λ _. claim d now c session a)
        (expire_locked_keeps IsLatched b l h.0 h) (λ _ m g. claim-IsLatched session a m g)
  step-IsLatched (b, heartbeats session) l k h =
      after_keeps d IsLatched (expire_locked d now c b l) (λ _. renew_own d now c session)
        (expire_locked_keeps IsLatched b l h.0 h) (λ _ m g. rw (renew_own_free session m g.0) g)
  step-IsLatched (b, releases session) l k h = ground arith
  step-IsLatched (b, stops latch) l k h =
      stop_shielded-IsLatched b (record l { stopped = latch || l.stopped }) (ground arith)
  step-IsLatched (b, clears) l k h = absurd k
  step-IsLatched (b, dispatches session env a) l k h =
      after_keeps d IsLatched (expire_locked d now c b l) (λ _. command d now c session env a)
        (expire_locked_keeps IsLatched b l h.0 h) (λ _ m g. rw (command_free session env a m g.0) g)

  run-IsLatched :
      (calls : List (Bool × Call d now c)) (l : Lease d)
      → All KeepsLatch calls
      → IsLatched l
      → IsLatched (run d now c calls l)
  unfolding run
  run-IsLatched [] l k h = h
  run-IsLatched (call ∷ calls) l k h =
      run-IsLatched calls (step d now c call l) k.1 (step-IsLatched call l k.0 h)

  -- A latched stop takes control from its owner at once, and until `clear_stop` no sequence of
  -- calls gives it to anyone.
  pub run-stop_latch :
      (b : Bool) (calls : List (Bool × Call d now c)) (l : Lease d)
      → All KeepsLatch calls
      → IsLatched (run d now c ((b, stops true) ∷ calls) l)
  unfolding run step stop
  run-stop_latch b calls l k =
      run-IsLatched calls _ k (stop_shielded-IsLatched b (record l { stopped = true }) refl)
