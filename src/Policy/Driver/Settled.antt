-- ===== src/Policy/Driver/Settled.antt =====
-- A process that ends without a stop is reported as a failure.
use roboparty_rp_server.Prelude.{
  ℕ, ◌≡◌, refl, ◌∙◌, Bool, true, false, String, Option, none, some, List, [], ◌∷◌, string_eq,
  if◌then◌else◌, arith, Bool-cases, Option-cases, ◌⊎◌, inl, inr,
}
use roboparty_rp_server.Policy.{
  Code, Proc, Options, Policy, Probe, Ending, Inputs, create, emit, poll, is_alive, has_exited,
  signal_group, end_proc,
}
use roboparty_rp_server.Policy.Driver.{
  failed_now, is_some, state, report, pause, wait_ready, ended, terminate, stopped, stop, give_up,
  get_ready, check_ready, check_lock, launched, launch, clean, chosen, begin, start, Call, starts,
  stops, reports, reads_state, step, run,
}

-- No stop is asked for or under way.
abbrev IsCalm : Policy → Type 0
IsCalm p = (p.stopping ≡ false) × (p.stop_requested ≡ false)

-- Between calls, no stop is under way, and one was asked for only if no process is left.
abbrev pub IsSettled : Policy → Type 0
IsSettled p = (p.stopping ≡ false) × ((p.stop_requested ≡ false) ⊎ (p.proc ≡ none))

poll-flags :
    (o : Option Code) (p : Policy)
    → ((poll o p).stopping ≡ p.stopping) × ((poll o p).stop_requested ≡ p.stop_requested)
unfolding poll
poll-flags o p = elim (Option-cases p.proc) [ inl e ↦ ground arith | inr (proc, e) ↦ ground arith ]

poll_gone : (o : Option Code) (p : Policy) → p.proc ≡ none → (poll o p).proc ≡ none
unfolding poll
poll_gone o p e = ground arith

calm-IsSettled : (p : Policy) → IsCalm p → IsSettled p
calm-IsSettled p (going, wanted) = (going, inl wanted)

poll-IsSettled : (o : Option Code) (p : Policy) → IsSettled p → IsSettled (poll o p)
poll-IsSettled o p (going, h) =
    let (same, same') = poll-flags o p in
    elim h [
      | inl wanted ↦ (same ∙ going, inl (same' ∙ wanted))
      | inr gone ↦ (same ∙ going, inr (poll_gone o p gone))
    ]

module _ (matches : String → Bool) (text : Code → String) where
  report-flags :
      (code : Code) (p : Policy)
      → ((report matches text code p).stopping ≡ p.stopping)
        × ((report matches text code p).stop_requested ≡ p.stop_requested)
  unfolding report emit
  report-flags code p = ground (arith, poll-flags (some code) p)

  report_gone :
      (code : Code) (p : Policy) → p.proc ≡ none → (report matches text code p).proc ≡ none
  unfolding report emit
  report_gone code p e = ground (arith, poll_gone (some code) p e)

  report-IsSettled :
      (code : Code) (p : Policy) → IsSettled p → IsSettled (report matches text code p)
  report-IsSettled code p (going, h) =
      let (same, same') = report-flags code p in
      elim h [
        | inl wanted ↦ (same ∙ going, inl (same' ∙ wanted))
        | inr gone ↦ (same ∙ going, inr (report_gone code p gone))
      ]

  pause-flags :
      (o : Option Code) (p : Policy)
      → ((pause matches text o p).stopping ≡ p.stopping)
        × ((pause matches text o p).stop_requested ≡ p.stop_requested)
  unfolding pause
  pause-flags none p = (refl, refl)
  pause-flags (some code) p = report-flags code p

  wait_ready-IsCalm :
      (probes : List Probe) (p : Policy) → IsCalm p → IsCalm (wait_ready matches text probes p).1
  unfolding wait_ready
  wait_ready-IsCalm [] p h = h
  wait_ready-IsCalm (probe ∷ probes) p h =
      let q = poll probe.polled p in
      ground (
        arith,
        poll-flags probe.polled p,
        pause-flags probe.reported q,
        wait_ready-IsCalm probes (pause matches text probe.reported q),
      )

  end_proc-IsCalm :
      (ending : Ending) (o : Option Proc) (p : Policy) → IsCalm p → IsCalm (end_proc ending o p).1
  unfolding end_proc
  end_proc-IsCalm ending none p h = h
  end_proc-IsCalm ending (some proc) p h =
      elim (Option-cases (signal_group proc.pid ending p.signals).0) [
        | inl e ↦ ground arith
        | inr (code, e) ↦ ground arith
      ]

  ended-IsCalm : (r : Bool × Policy) → IsCalm r.1 → IsCalm (ended matches text r)
  unfolding ended
  ended-IsCalm (true, p) h = h
  ended-IsCalm (false, p) h = h

  terminate-IsCalm :
      (o : Option Code) (ending : Ending) (p : Policy)
      → IsCalm p
      → IsCalm (terminate matches text o ending p)
  unfolding terminate
  terminate-IsCalm o ending p h =
      let q = poll o (record p { watching = false }) in
      let calm = ended-IsCalm (end_proc ending q.proc q) (
        end_proc-IsCalm ending q.proc q
          (ground (arith, poll-flags o (record p { watching = false })))) in
      elim (Option-cases p.proc) [ inl e ↦ ground arith | inr (proc, e) ↦ ground (arith, calm) ]

  stopped-IsSettled : (r : Bool × Policy) → IsSettled (stopped matches text r).1
  unfolding stopped emit
  stopped-IsSettled (true, p) = (refl, inr refl)
  stopped-IsSettled (false, p) = (refl, inl refl)

  stop-IsSettled :
      (o : Option Code) (ending : Ending) (p : Policy)
      → IsSettled p
      → IsSettled (stop matches text o ending p).1
  unfolding stop
  stop-IsSettled o ending p h =
      let q = poll o (record (emit "stopping" "" p) {
        watching = false;
        stop_requested = true;
        stopping = true;
      }) in
      let settled = stopped-IsSettled (end_proc ending q.proc q) in
      elim (Option-cases p.proc) [ inl e ↦ ground arith | inr (proc, e) ↦ ground (arith, settled) ]

  state-IsSettled :
      (o : Option Code) (p : Policy) → IsSettled p → IsSettled (state matches text o p).1
  unfolding state
  state-IsSettled o p (going, h) = elim h [
    | inl wanted ↦ ground (arith, poll-flags o p)
    | inr gone ↦ ground (arith, poll-flags o p, poll_gone o p)
  ]

  module _ (c : Options) where
    get_ready-IsCalm :
        (o : Option Code) (ending : Ending) (r : Bool × Policy)
        → IsCalm r.1
        → IsCalm (get_ready matches text c o ending r).1
    unfolding get_ready give_up emit
    get_ready-IsCalm o ending (true, p) h = h
    get_ready-IsCalm o ending (false, p) h = terminate-IsCalm o ending p h

    check_ready-IsCalm :
        (i : Inputs) (p : Policy) → IsCalm p → IsCalm (check_ready matches text c i p).1
    unfolding check_ready
    check_ready-IsCalm i p h =
        get_ready-IsCalm i.final_poll i.ending
          (if c.has_ready_check then wait_ready matches text i.probes p else (true, p))
          (ground (arith, wait_ready-IsCalm i.probes p h))

    check_lock-IsCalm :
        (i : Inputs) (p : Policy) → IsCalm p → IsCalm (check_lock matches text c i p).1
    unfolding check_lock give_up emit
    check_lock-IsCalm i p h =
        let slept = pause matches text i.slept p in
        let q = poll i.polled_later slept in
        ground (
          arith,
          check_ready-IsCalm i p h,
          check_ready-IsCalm i q,
          pause-flags i.slept p,
          poll-flags i.polled_later slept,
        )

    launched-IsCalm :
        (i : Inputs) (policy : String) (spawned : Option ℕ) (p : Policy)
        → IsCalm p
        → IsCalm (launched matches text c i policy spawned p).1
    unfolding launched emit
    launched-IsCalm i policy none p h = h
    launched-IsCalm i policy (some pid) p h = check_lock-IsCalm i _ h

    begin-IsCalm :
        (i : Inputs) (policy : String) (p : Policy)
        → IsCalm p
        → IsCalm (begin matches text c i policy p).1
    unfolding begin launch emit
    begin-IsCalm i policy p h =
        let told =
          record (emit "starting" "" (record p { session_id = i.session; name = policy })) {
            log_open = c.has_log;
          } in
        ground (arith, launched-IsCalm i policy i.spawned told h)

    start-IsSettled :
        (i : Inputs) (name : String) (p : Policy)
        → IsSettled p
        → IsSettled (start matches text c i name p).1
    unfolding start clean
    start-IsSettled i name p (going, h) =
        let q = poll i.polled p in
        let calm = begin-IsCalm i (chosen name) (clean matches text c q) (refl, refl) in
        let next = (begin matches text c i (chosen name) (clean matches text c q)).1 in
        elim (Bool-cases (is_alive q.proc)) [
          | inl alive ↦ rw alive (poll-IsSettled i.polled p (going, h))
          | inr dead ↦ rw dead (calm-IsSettled next calm)
        ]

    step-IsSettled :
        (call : Call matches text c) (p : Policy)
        → IsSettled p
        → IsSettled (step matches text c call p)
    unfolding step
    step-IsSettled (starts i name) p h = start-IsSettled i name p h
    step-IsSettled (stops o ending) p h = stop-IsSettled o ending p h
    step-IsSettled (reports code) p h = report-IsSettled code p h
    step-IsSettled (reads_state o) p h = state-IsSettled o p h

    pub run-IsSettled :
        (calls : List (Call matches text c)) (p : Policy)
        → IsSettled p
        → IsSettled (run matches text c calls p)
    unfolding run
    run-IsSettled [] p h = h
    run-IsSettled (call ∷ calls) p h =
        run-IsSettled calls (step matches text c call p) (step-IsSettled call p h)

    exit_reported :
        (o : Option Code) (p : Policy)
        → IsSettled p
        → p.starting ≡ false
        → has_exited (poll o p).proc ≡ true
        → (failed_now o p ≡ true) × ((state matches text o p).0 ≡ "FAIL")
    unfolding failed_now state is_some has_exited is_alive
    exit_reported o p (going, h) ready dead = elim (Option-cases (poll o p).proc) [
      | inl e ↦ absurd (ground arith)
      | inr (proc, e) ↦ elim h [
        | inl wanted ↦ ground (arith, poll-flags o p)
        | inr gone ↦ absurd (ground (arith, poll_gone o p gone))
      ]
    ]

    -- After any history of calls on a new driver that is not STARTING: when the process of the
    -- driver has ended, `failed` holds and `state` is FAIL.
    pub run-create-exit_reported :
        (calls : List (Call matches text c)) (o : Option Code)
        → (run matches text c calls create).starting ≡ false
        → has_exited (poll o (run matches text c calls create)).proc ≡ true
        → (failed_now o (run matches text c calls create) ≡ true)
          × ((state matches text o (run matches text c calls create)).0 ≡ "FAIL")
    unfolding create
    run-create-exit_reported calls o ready dead =
        exit_reported o (run matches text c calls create)
          (run-IsSettled calls create (refl, inl refl)) ready dead
