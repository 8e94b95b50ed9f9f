-- ===== src/Policy/Driver/Stop.antt =====
-- What a stop comes to.
use roboparty_rp_server.Prelude.{
  ℕ, ◌≡◌, refl, Bool, true, false, String, Option, none, some, List, ◌∷◌, string_eq, if◌then◌else◌,
  arith, Option-cases, inl, inr,
}
use roboparty_rp_server.Policy.{
  Code, Proc, Policy, Ending, obeys, is_killed, raises, raises_late, Signal, sigterm, sigkill, emit,
  poll_proc, poll, code_of, is_alive, signal_group, end_proc,
}
use roboparty_rp_server.Policy.Driver.{stopped, stop}

-- A stop of the process of that id. True: nothing is left of it but its exit code, and "stopped" was
-- told of last. False: the process stays with the driver, which has failed and may be stopped again.
abbrev pub Stopped : ℕ → Bool × Policy → Type 0
Stopped pid (true, q) =
    (q.proc ≡ none)
    × (q.name ≡ "")
    × (q.log_open ≡ false)
    × (q.stopping ≡ false)
    × ((code : Code) × (q.exit_code ≡ some code))
Stopped pid (false, q) =
    (q.failed ≡ true)
    × (q.stop_requested ≡ false)
    × (q.stopping ≡ false)
    × ((proc : Proc) × (q.proc ≡ some proc) × (proc.pid ≡ pid) × (proc.returncode ≡ none))

-- Whether both waits return.
abbrev ends : Ending → Bool
ends (obeys _) = true
ends (is_killed _) = true
ends raises = false
ends raises_late = false

-- What a process that is alive is sent, the newest signal first: SIGTERM, and only where that does
-- not end it in time SIGKILL, after it.
abbrev pub told : ℕ → Ending → List Signal → List Signal
told pid (obeys _) sent = sigterm pid ∷ sent
told pid (is_killed _) sent = sigkill pid ∷ sigterm pid ∷ sent
told pid raises sent = sigterm pid ∷ sent
told pid raises_late sent = sigkill pid ∷ sigterm pid ∷ sent

module _ (matches : String → Bool) (text : Code → String) where
  end_alive :
      (ending : Ending) (pid : ℕ) (q : Policy)
      → q.proc ≡ some (record { pid = pid; returncode = none })
      → let r = stopped matches text (end_proc ending q.proc q) in
        Stopped pid r × (r.0 ≡ ends ending) × (r.1.signals ≡ told pid ending q.signals)
  unfolding stopped end_proc is_alive signal_group emit code_of
  end_alive (obeys code) pid q h = rw h ((refl, refl, refl, refl, (code, refl)), refl, refl)
  end_alive (is_killed code) pid q h = rw h ((refl, refl, refl, refl, (code, refl)), refl, refl)
  end_alive raises pid q h =
      rw h (
        (refl, refl, refl, (record { pid = pid; returncode = none }, refl, refl, refl)),
        refl,
        refl,
      )
  end_alive raises_late pid q h =
      rw h (
        (refl, refl, refl, (record { pid = pid; returncode = none }, refl, refl, refl)),
        refl,
        refl,
      )

  -- `ended_with` is what the poll has found.
  end_polled :
      (ending : Ending) (pid : ℕ) (ended_with : Option Code) (q : Policy)
      → q.proc ≡ some (record { pid = pid; returncode = ended_with })
      → let r = stopped matches text (end_proc ending q.proc q) in
        let alive = is_alive q.proc in
        Stopped pid r
        × (r.0 ≡ (if alive then ends ending else true))
        × (r.1.signals ≡ (if alive then told pid ending q.signals else q.signals))
  unfolding is_alive stopped end_proc emit code_of
  end_polled ending pid none q h = ground (arith, end_alive ending pid q h)
  end_polled ending pid (some code) q h = rw h ((refl, refl, refl, refl, (code, refl)), refl, refl)

  -- A stop signals a process only while it is alive: SIGTERM first, then SIGKILL where that does not
  -- end it in time, and no other. It returns true when the process has ended, by then or by the signals, and then has
  -- let go of it and closed the log; it returns false only when a wait raises, and then keeps the
  -- process, for another stop.
  pub stop_settles :
      (o : Option Code) (ending : Ending) (p : Policy) (proc : Proc)
      → p.proc ≡ some proc
      → let r = stop matches text o ending p in
        let alive = is_alive (some (poll_proc o proc)) in
        Stopped proc.pid r
        × (r.0 ≡ (if alive then ends ending else true))
        × (r.1.signals ≡ (if alive then told proc.pid ending p.signals else p.signals))
  unfolding stop poll poll_proc emit
  stop_settles o ending p proc h =
      let q = poll o (record (emit "stopping" "" p) {
        watching = false;
        stop_requested = true;
        stopping = true;
      }) in
      elim (Option-cases proc.returncode) [
        | inl e ↦ ground (arith, end_polled ending proc.pid o q)
        | inr (code, e) ↦ ground (arith, end_polled ending proc.pid (some code) q)
      ]
