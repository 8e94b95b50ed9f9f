-- ===== src/Policy/Driver/Start.antt =====
-- What a start comes to.
use roboparty_rp_server.Prelude.{
  ℕ, ◌≡◌, refl, Bool, true, false, ◌&&◌, not, String, Option, none, some, List, [], ◌∷◌, string_eq,
  if◌then◌else◌, arith, Bool-cases, Option-cases, inl, inr,
}
use roboparty_rp_server.Policy.{
  Code, Proc, Event, Options, Policy, Probe, Ending, Inputs, emit, poll_proc, poll, is_alive,
  has_exited,
}
use roboparty_rp_server.Policy.Driver.{
  state, report, pause, wait_ready, terminate, give_up, get_ready, check_ready, check_lock,
  launched, launch, clean, chosen, begin, start, stop,
}

abbrev pub pid_of : Option Proc → Option ℕ
pid_of none = none
pid_of (some proc) = some proc.pid

-- A start on the way: the driver has the process of that id under the name and the session.
abbrev IsUnderway : String → String → ℕ → Policy → Type 0
IsUnderway policy session pid p =
    (p.name ≡ policy)
    × (p.session_id ≡ session)
    × (p.stopping ≡ false)
    × (p.stop_requested ≡ false)
    × (pid_of p.proc ≡ some pid)

-- The event that a driver told of last has this phase, under its name and session of then.
abbrev pub Told : String → String → Policy → Type 0
Told phase reason p =
    (earlier : List Event) × (p.events
      ≡ record { phase = phase; reason = reason; policy = p.name; session = p.session_id }
        ∷ earlier)

-- What a start that returns leaves, no longer STARTING: on true the process that it launched and
-- "running" as the last event, with the policy and the session; on false no process, and "failed"
-- as the last event.
abbrev pub Outcome : String → String → Option ℕ → Bool × Policy → Type 0
Outcome policy session spawned (true, p) =
    (p.starting ≡ false)
    × (p.name ≡ policy)
    × (p.session_id ≡ session)
    × (p.stop_requested ≡ false)
    × ((pid : ℕ) × (spawned ≡ some pid) × (pid_of p.proc ≡ some pid))
    × Told "running" "" p
Outcome policy session spawned (false, p) =
    (p.starting ≡ false) × (p.proc ≡ none) × ((reason : String) × Told "failed" reason p)

module _ (matches : String → Bool) (text : Code → String) where
  poll-IsUnderway :
      (o : Option Code) (policy session : String) (pid : ℕ) (p : Policy)
      → IsUnderway policy session pid p
      → IsUnderway policy session pid (poll o p)
  unfolding poll poll_proc
  poll-IsUnderway o policy session pid p h = elim (Option-cases p.proc) [
    | inl e ↦ ground arith
    | inr (proc, e) ↦ elim (Option-cases proc.returncode) [
      | inl f ↦ ground arith
      | inr (code, f) ↦ ground arith
    ]
  ]

  report-IsUnderway :
      (code : Code) (policy session : String) (pid : ℕ) (p : Policy)
      → IsUnderway policy session pid p
      → IsUnderway policy session pid (report matches text code p)
  unfolding report emit
  report-IsUnderway code policy session pid p h =
      ground (arith, poll-IsUnderway (some code) policy session pid p h)

  pause-IsUnderway :
      (o : Option Code) (policy session : String) (pid : ℕ) (p : Policy)
      → IsUnderway policy session pid p
      → IsUnderway policy session pid (pause matches text o p)
  unfolding pause
  pause-IsUnderway none policy session pid p h = h
  pause-IsUnderway (some code) policy session pid p h =
      report-IsUnderway code policy session pid p h

  wait_ready-IsUnderway :
      (probes : List Probe) (policy session : String) (pid : ℕ) (p : Policy)
      → IsUnderway policy session pid p
      → IsUnderway policy session pid (wait_ready matches text probes p).1
  unfolding wait_ready
  wait_ready-IsUnderway [] policy session pid p h = h
  wait_ready-IsUnderway (probe ∷ probes) policy session pid p h =
      let polled = poll-IsUnderway probe.polled policy session pid p h in
      let paused =
        pause-IsUnderway probe.reported policy session pid (poll probe.polled p) polled in
      ground (
        arith,
        polled,
        paused,
        wait_ready-IsUnderway probes policy session pid
            (pause matches text probe.reported (poll probe.polled p)) paused,
      )

  module _ (c : Options) where
    get_ready-Outcome :
        (o : Option Code) (ending : Ending) (policy session : String) (pid : ℕ) (r : Bool × Policy)
        → IsUnderway policy session pid r.1
        → Outcome policy session (some pid) (get_ready matches text c o ending r)
    unfolding get_ready give_up emit
    get_ready-Outcome o ending policy session pid (true, p) (name, id, going, wanted, here) =
        (refl, name, id, wanted, (pid, refl, here), (p.events, refl))
    get_ready-Outcome o ending policy session pid (false, p) h =
        (refl, refl, ("readiness", ((terminate matches text o ending p).events, refl)))

    check_ready-Outcome :
        (i : Inputs) (policy session : String) (pid : ℕ) (p : Policy)
        → IsUnderway policy session pid p
        → Outcome policy session (some pid) (check_ready matches text c i p)
    unfolding check_ready
    check_ready-Outcome i policy session pid p h =
        get_ready-Outcome i.final_poll i.ending policy session pid
          (if c.has_ready_check then wait_ready matches text i.probes p else (true, p))
          (ground (arith, wait_ready-IsUnderway i.probes policy session pid p h))

    check_lock-Outcome :
        (i : Inputs) (policy session : String) (pid : ℕ) (p : Policy)
        → IsUnderway policy session pid p
        → Outcome policy session (some pid) (check_lock matches text c i p)
    unfolding check_lock give_up emit
    check_lock-Outcome i policy session pid p h =
        let q = poll i.polled_later (pause matches text i.slept p) in
        elim (Bool-cases (c.has_lock && not c.developer_mode)) [
          | inl locks ↦ elim (Bool-cases (not (has_exited q.proc))) [
            | inl e ↦
                rw (locks, e)
                  (check_ready-Outcome i policy session pid q (
                    poll-IsUnderway i.polled_later policy session pid (pause matches text i.slept p)
                      (pause-IsUnderway i.slept policy session pid p h)))
            | inr e ↦ rw (locks, e) (refl, refl, ("control_lock", (q.events, refl)))
          ]
          | inr free ↦ rw free (check_ready-Outcome i policy session pid p h)
        ]

    launched-Outcome :
        (i : Inputs) (policy : String) (spawned : Option ℕ) (p : Policy)
        → p.proc ≡ none
        → (p.stopping ≡ false) × (p.stop_requested ≡ false)
        → Outcome policy p.session_id spawned (launched matches text c i policy spawned p)
    unfolding launched emit
    launched-Outcome i policy none p gone calm = (refl, gone, ("start_error", (p.events, refl)))
    launched-Outcome i policy (some pid) p gone (going, wanted) =
        check_lock-Outcome i policy p.session_id pid _ (refl, refl, going, wanted, refl)

    -- What a start of a valid name leaves. One that raises, since it cannot open the log, has no
    -- process and stays STARTING.
    abbrev pub Comes : String → String → Option ℕ → Option Bool × Policy → Type 0
    Comes policy session spawned (none, p) = (p.starting ≡ true) × (p.proc ≡ none)
    Comes policy session spawned (some r, p) = Outcome policy session spawned (r, p)

    launch-Comes :
        (i : Inputs) (policy : String) (p : Policy)
        → p.proc ≡ none
        → (p.stopping ≡ false) × (p.stop_requested ≡ false)
        → p.starting ≡ true
        → Comes policy p.session_id i.spawned (launch matches text c i policy p)
    unfolding launch
    launch-Comes i policy p gone calm on = elim (Bool-cases (c.has_log && not i.log_opens)) [
      | inl e ↦ rw e (on, gone)
      | inr e ↦
          rw e (launched-Outcome i policy i.spawned (record p { log_open = c.has_log }) gone calm)
    ]

    -- A start of a valid name, with no process running, leaves what `Comes` says: true with the
    -- launched process and "running" told of last, false without a process and "failed" told of
    -- last, and in both cases no longer STARTING; or an exception, still STARTING.
    pub start_lem :
        (i : Inputs) (name : String) (p : Policy)
        → is_alive (poll i.polled p).proc ≡ false
        → matches (chosen name) ≡ true
        → Comes (chosen name) i.session i.spawned (start matches text c i name p)
    unfolding start begin clean emit
    start_lem i name p dead valid = elim (Bool-cases (c.has_instance_check && i.instance_runs)) [
      | inl e ↦ rw (dead, valid, e) (refl, refl, ("instance_exists", (_, refl)))
      | inr e ↦ rw (dead, valid, e) (launch-Comes i (chosen name) _ refl (refl, refl) refl)
    ]

    -- A start of an invalid name, with no process running, returns false, but from then on the
    -- driver reports STARTING, and a stop returns true and changes nothing.
    pub start_sticks :
        (i : Inputs) (name : String) (p : Policy) (o : Option Code) (ending : Ending)
        → is_alive (poll i.polled p).proc ≡ false
        → matches (chosen name) ≡ false
        → let (r, q) = start matches text c i name p in
          (r ≡ some false)
          × ((state matches text o q).0 ≡ "STARTING")
          × (stop matches text o ending q ≡ (true, q))
    unfolding start begin clean state stop
    start_sticks i name p o ending dead invalid = rw (dead, invalid) (refl, refl, refl)
