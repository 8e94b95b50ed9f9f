-- ===== src/Policy/Driver.antt =====
-- drivers/policy.py: `start`, `stop`, `_watch` and the properties of `PolicyDriver`.
pub mod Start
pub mod Settled
pub mod Stop
mod Tests
use Prim.Native.String.{◌++◌}
use roboparty_rp_server.Prelude.{
  ℕ, Bool, true, false, ◌&&◌, ◌||◌, not, String, Option, none, some, List, [], ◌∷◌, ◌==◌, string_eq,
  if◌then◌else◌,
}
use roboparty_rp_server.Policy.{
  Code, Proc, Event, Launch, Options, Policy, Probe, Ending, Inputs, emit, poll, code_of, is_alive,
  has_exited, end_proc,
}

-- `poll` fills `returncode`, and each property does so for its caller.
pub running : Option Code → Policy → Bool
running o p = is_alive (poll o p).proc

pub failed_now : Option Code → Policy → Bool
failed_now o p = has_exited (poll o p).proc && not p.stop_requested || p.failed

pub is_some : Option Proc → Bool
is_some none = false
is_some (some _) = true

pub chosen : String → String
chosen name = if name == "" then "default" else name

-- `_POLICY_NAME.fullmatch`, and a number in a message.
module _ (matches : String → Bool) (text : Code → String) where
  pub exited_message : Option Code → String
  exited_message none = ""
  exited_message (some code) = ("exited unexpectedly (code " ++ text code) ++ ")"

  -- `state`, which records the end of a process that it comes upon.
  pub state : Option Code → Policy → String × Policy
  unfolding exited_message is_some
  state o p =
      if p.starting
      then ("STARTING", p)
      else if p.stopping
      then ("STOPPING", p)
      else let q = poll o p in
        if is_alive q.proc
        then ("RUNNING", q)
        else if q.failed || (is_some q.proc && not q.stop_requested)
        then (
          "FAIL",
          (if has_exited q.proc
              then record q {
                exit_code = code_of q.proc;
                message = exited_message (code_of q.proc);
              }
              else q),
        )
        else ("STOPPED", q)

  -- `_watch` of the current process, when that has ended with a code.
  pub report : Code → Policy → Policy
  unfolding exited_message
  report code p =
      if p.watching
      then (let q = record (poll (some code) p) { watching = false } in
          if p.stop_requested
          then q
          else record (emit "failed" "exited" (record q {
            exit_code = some code;
            failed = true;
            message = exited_message (some code);
          })) { log_open = false })
      else p

  -- A wait, in which `_watch` may report.
  pub pause : Option Code → Policy → Policy
  unfolding report
  pause none p = p
  pause (some code) p = report code p

  pub wait_ready : List Probe → Policy → Bool × Policy
  unfolding pause
  wait_ready [] p = (false, p)
  wait_ready (probe ∷ probes) p =
      let q = poll probe.polled p in
      let next = pause probe.reported q in
      let rest = wait_ready probes next in
      if has_exited q.proc
      then (false, record q { exit_code = code_of q.proc })
      else if probe.answer
      then (true, next)
      else rest

  pub ended : Bool × Policy → Policy
  ended (false, p) = p
  ended (true, p) = record p { exit_code = code_of p.proc; log_open = false }

  pub terminate : Option Code → Ending → Policy → Policy
  unfolding ended
  terminate o ending p = elim p.proc [
    | none ↦ p
    | some _ ↦ let q = poll o (record p { watching = false }) in ended (end_proc ending q.proc q)
  ]

  pub stopped : Bool × Policy → Bool × Policy
  stopped (false, p) = (
    false,
    emit "failed" "stop_error" (record p {
      stop_requested = false;
      failed = true;
      stopping = false;
      message = "stop failed";
    }),
  )
  stopped (true, p) =
      let q = record p {
        exit_code = code_of p.proc;
        proc = none;
        stopping = false;
        message = "stopped";
      } in
      (true, record (emit "stopped" "" q) { name = ""; log_open = false })

  pub stop : Option Code → Ending → Policy → Bool × Policy
  unfolding stopped
  stop o ending p = elim p.proc [
    | none ↦ (true, p)
    | some _ ↦
        let q = poll o (record (emit "stopping" "" p) {
          watching = false;
          stop_requested = true;
          stopping = true;
        }) in
        stopped (end_proc ending q.proc q)
  ]

  module _ (c : Options) where
    -- The end of a `start` that has given up on the process.
    pub give_up : String → String → Policy → Policy
    give_up message reason p = emit "failed" reason (record p {
      proc = none;
      watching = false;
      name = "";
      starting = false;
      failed = true;
      message = message;
    })

    pub get_ready : Option Code → Ending → Bool × Policy → Bool × Policy
    unfolding give_up
    get_ready o ending (true, p) =
        (true, emit "running" "" (record p { starting = false; message = "ready" }))
    get_ready o ending (false, p) =
        (false, give_up "readiness probe failed" "readiness" (terminate o ending p))

    pub check_ready : Inputs → Policy → Bool × Policy
    unfolding get_ready wait_ready
    check_ready i p =
        get_ready i.final_poll i.ending
          (if c.has_ready_check then wait_ready i.probes p else (true, p))

    pub check_lock : Inputs → Policy → Bool × Policy
    unfolding check_ready give_up pause
    check_lock i p =
        if c.has_lock && not c.developer_mode
        then (let q = poll i.polled_later (pause i.slept p) in
            if not (has_exited q.proc)
            then check_ready i q
            else (false, give_up "control lock busy" "control_lock" q))
        else check_ready i p

    pub launched : Inputs → String → Option ℕ → Policy → Bool × Policy
    unfolding check_lock
    launched i policy none p =
        (false, emit "failed" "start_error" (record p { log_open = false; starting = false }))
    launched i policy (some pid) p = check_lock i (record p {
      proc = some (record { pid = pid; returncode = none });
      watching = true;
      name = policy;
      launches =
          record {
            policy = policy;
            locked = c.has_lock && not c.developer_mode;
            held = c.developer_mode;
          }
          ∷ p.launches;
    })

    -- `none` is the exception that opening the log raises.
    pub launch : Inputs → String → Policy → Option Bool × Policy
    unfolding launched
    launch i policy p =
        if c.has_log && not i.log_opens
        then (none, p)
        else let (r, q) = launched i policy i.spawned (record p { log_open = c.has_log }) in
          (some r, q)

    -- What `start` resets, once no process runs.
    pub clean : Policy → Policy
    clean p = record p {
      log_open = false;
      proc = none;
      watching = false;
      failed = false;
      exit_code = none;
      stop_requested = false;
      starting = true;
      stopping = false;
      message = "starting";
    }

    pub begin : Inputs → String → Policy → Option Bool × Policy
    unfolding launch
    begin i policy p =
        if not (matches policy)
        then (some false, p)
        else if c.has_instance_check && i.instance_runs
        then (
          some false,
          emit "failed" "instance_exists" (record p {
            starting = false;
            failed = true;
            message = "inference instance already running";
          }),
        )
        else launch i policy
            (emit "starting" "" (record p { session_id = i.session; name = policy }))

    pub start : Inputs → String → Policy → Option Bool × Policy
    unfolding begin clean chosen
    start i name p =
        let q = poll i.polled p in
        if is_alive q.proc then (some false, q) else begin i (chosen name) (clean q)

    -- The calls on the driver, the report of its watch, and a reading of `state`.
    pub data Call : Type 0 where
      starts : Inputs → String → Call
      stops : Option Code → Ending → Call
      reports : Code → Call
      reads_state : Option Code → Call

    pub step : Call → Policy → Policy
    step (starts i name) p = (start i name p).1
    step (stops o ending) p = (stop o ending p).1
    step (reports code) p = report code p
    step (reads_state o) p = (state o p).1

    pub run : List Call → Policy → Policy
    run [] p = p
    run (call ∷ calls) p = run calls (step call p)
