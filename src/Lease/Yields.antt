-- ===== src/Lease/Yields.antt =====
-- Which calls may give control to someone: only an `acquire` that returns.
use roboparty_rp_server.Prelude.{
  ℕ, ◌≡◌, ◌≢◌, refl, Bool, false, ◌||◌, Option, none, some, String, arith, eq_iff, Bool-cases, ◌⊎◌,
  inl, inr,
}
use roboparty_rp_server.Prelude.Result.{Result, ok, err}
use roboparty_rp_server.Lease.{
  Device, Config, Authorize, Error, Lease, after, acquired, owns, perform_stop, stop_shielded,
  expire_locked, claim, renew_own, command, release, stop, clear_stop, expire, acquire, heartbeat,
  dispatch, status,
}
use roboparty_rp_server.Lease.Expiry.{due, seen, expire_locked-due, expire_locked_kept}
use roboparty_rp_server.Lease.Safety.{after_keeps}

-- The owner stays, or there is none.
abbrev pub Yields : Option String → Option String → Type 0
Yields o o' = (o' ≡ o) ⊎ (o' ≡ none)

pub Yields-trans : (o o' o'' : Option String) → Yields o o' → Yields o' o'' → Yields o o''
Yields-trans o o' o'' h k = ground arith

pub foreign : (o : Option String) (session : String) → owns o session ≡ false → o ≢ some session
unfolding owns
foreign none session e h = cc
foreign (some o) session e h = ground (arith, eq_iff o session)

module _ (d : Device) where
  stop_shielded-none : (b : Bool) (l : Lease d) → (stop_shielded d b l).1.owner ≡ none
  unfolding stop_shielded perform_stop
  stop_shielded-none b l = ground arith

  module _ (now : ℕ → ℕ) (c : Config) where
    expire_locked-Yields :
        (b : Bool) (l : Lease d) → Yields l.owner (expire_locked d now c b l).1.owner
    expire_locked-Yields b l = elim (Bool-cases (due d now c l)) [
      | inl e ↦ inr (rw (expire_locked-due d now c b l e) (stop_shielded-none b (seen d now c l)))
      | inr e ↦ inl (rw (expire_locked_kept d now c b l e) refl)
    ]

    pub expire-Yields : (b : Bool) (l : Lease d) → Yields l.owner (expire d now c b l).1.owner
    unfolding expire
    expire-Yields b l = expire_locked-Yields b l

    renew_own-owner :
        (session : String) (l : Lease d) → (renew_own d now c session l).1.owner ≡ l.owner
    unfolding renew_own
    renew_own-owner session l = ground arith

    command-owner :
        (session : String) (env : d.Command) (a : Authorize) (l : Lease d)
        → (command d now c session env a l).1.owner ≡ l.owner
    unfolding command
    command-owner session env a l = ground arith

    pub heartbeat-Yields :
        (b : Bool) (session : String) (l : Lease d)
        → Yields l.owner (heartbeat d now c b session l).1.owner
    unfolding heartbeat
    heartbeat-Yields b session l =
        after_keeps d (λ m. Yields l.owner m.owner) (expire_locked d now c b l)
          (λ _. renew_own d now c session) (expire_locked-Yields b l)
          (λ _ m h. rw (renew_own-owner session m) h)

    pub dispatch-Yields :
        (b : Bool) (session : String) (env : d.Command) (a : Authorize) (l : Lease d)
        → Yields l.owner (dispatch d now c b session env a l).1.owner
    unfolding dispatch
    dispatch-Yields b session env a l =
        after_keeps d (λ m. Yields l.owner m.owner) (expire_locked d now c b l)
          (λ _. command d now c session env a) (expire_locked-Yields b l)
          (λ _ m h. rw (command-owner session env a m) h)

    -- Nobody owns control behind a stop.
    pub stop-none : (b latch : Bool) (l : Lease d) → (stop d now c b latch l).1.owner ≡ none
    unfolding stop
    stop-none b latch l = stop_shielded-none b (record l { stopped = latch || l.stopped })

    pub clear_stop-owner : (l : Lease d) → (clear_stop d now c l).1.owner ≡ l.owner
    unfolding clear_stop
    clear_stop-owner l = refl

    -- Behind a release the session does not own control, and nobody does who did not before.
    pub release_lem :
        (b : Bool) (session : String) (l : Lease d)
        → Yields l.owner (release d now c b session l).1.owner
          × ((release d now c b session l).1.owner ≢ some session)
    unfolding release
    release_lem b session l = elim (Bool-cases (owns l.owner session)) [
      | inl e ↦
          let free = stop_shielded-none b l in
          (inr (ground (arith, free)), λ h. ground (arith, free))
      | inr e ↦ (inl (ground arith), λ h. ground (arith, foreign l.owner session e))
    ]

    claim-owner :
        (session : String) (a : Authorize) (l : Lease d)
        → let (r, l') = claim d now c session a l in
          (l'.owner ≡ l.owner) ⊎ ((r ≡ ok (status c acquired)) × (l'.owner ≡ some session))
    unfolding claim
    claim-owner session a l = ground arith

    after-claim-owner :
        (session : String) (a : Authorize) (r : Result Error (Unit {0}) × Lease d)
        → let (r', l') = after d r (λ _. claim d now c session a) in
          (l'.owner ≡ r.1.owner) ⊎ ((r' ≡ ok (status c acquired)) × (l'.owner ≡ some session))
    after-claim-owner session a (ok _, l) = claim-owner session a l
    after-claim-owner session a (err e, l) = inl refl

    -- An `acquire` gives control to nobody, or returns and gives it to its session.
    pub acquire_lem :
        (b : Bool) (session : String) (a : Authorize) (l : Lease d)
        → let (r, l') = acquire d now c b session a l in
          Yields l.owner l'.owner ⊎ ((r ≡ ok (status c acquired)) × (l'.owner ≡ some session))
    unfolding acquire
    acquire_lem b session a l = elim (after-claim-owner session a (expire_locked d now c b l)) [
      | inl e ↦ inl (rw e (expire_locked-Yields b l))
      | inr h ↦ inr h
    ]
