-- ===== src/Policy.antt =====
-- drivers/policy.py: `PolicyDriver`, the life cycle of the inference process. `start` and `stop` run
-- one at a time; what they see of the process, and the reports of `_watch` while they wait, come as
-- arguments. Times, the texts of exceptions, and the command around the policy's name are left out.
pub mod Driver
use Prim.Native.String.{◌++◌}
use roboparty_rp_server.Prelude.{
  ℕ, Bool, true, false, ◌&&◌, ◌||◌, not, String, Option, none, some, List, [], ◌∷◌, ◌==◌, string_eq,
  if◌then◌else◌,
}

-- `returncode`: a status, or the negated number of a signal.
pub data Code : Type 0 where
  exits killed : ℕ → Code

pub record Proc : Type 0 where
  pub pid : ℕ
  pub returncode : Option Code

-- What `_emit` tells the callback; an empty reason is one that is not given.
pub record Event : Type 0 where
  pub phase : String
  pub reason : String
  pub policy : String
  pub session : String

-- What `Popen` is given: the policy, whether it is run under `flock`, and whether
-- `ROBOPARTY_CONTROL_LOCK_HELD` is set.
pub record Launch : Type 0 where
  pub policy : String
  pub locked : Bool
  pub held : Bool

-- A signal to a process group.
pub data Signal : Type 0 where
  sigterm sigkill : ℕ → Signal

-- `PolicyDriver(...)`: what is set of it.
pub record Options : Type 0 where
  pub has_ready_check : Bool
  pub has_lock : Bool
  pub has_log : Bool
  pub developer_mode : Bool
  pub has_instance_check : Bool

pub record Policy : Type 0 where
  pub log_open : Bool
  pub session_id : String
  -- whether the `_watch` task of the process is still to report
  pub watching : Bool
  pub proc : Option Proc
  pub name : String
  pub stop_requested : Bool
  pub starting : Bool
  pub stopping : Bool
  pub failed : Bool
  pub exit_code : Option Code
  pub message : String
  -- the newest first
  pub events : List Event
  pub launches : List Launch
  pub signals : List Signal

pub create : Policy
create = record {
  log_open = false;
  session_id = "";
  watching = false;
  proc = none;
  name = "";
  stop_requested = false;
  starting = false;
  stopping = false;
  failed = false;
  exit_code = none;
  message = "";
  events = [];
  launches = [];
  signals = [];
}

-- A round of `_wait_ready`: what `poll` finds, what `_watch` reports while it waits, and whether the
-- check returned true; it may also raise, or return false.
pub record Probe : Type 0 where
  pub polled : Option Code
  pub reported : Option Code
  pub answer : Bool

-- How a process ends that is told to: by itself, after SIGKILL, or with an exception from the first
-- or the second wait.
pub data Ending : Type 0 where
  obeys is_killed : Code → Ending
  raises raises_late : Ending

-- What one call of `start` meets.
pub record Inputs : Type 0 where
  pub polled : Option Code
  pub instance_runs : Bool
  pub session : String
  pub log_opens : Bool
  -- the process id, if `Popen` does not raise
  pub spawned : Option ℕ
  pub slept : Option Code
  pub polled_later : Option Code
  -- the rounds until the deadline
  pub probes : List Probe
  pub final_poll : Option Code
  pub ending : Ending

pub emit : String → String → Policy → Policy
emit phase reason p = record p {
  events =
      record { phase = phase; reason = reason; policy = p.name; session = p.session_id } ∷ p.events;
}

-- `Popen.poll`, which keeps the code that it found once.
pub poll_proc : Option Code → Proc → Proc
poll_proc o proc = elim proc.returncode [ none ↦ record proc { returncode = o } | some _ ↦ proc ]

pub poll : Option Code → Policy → Policy
unfolding poll_proc
poll o p = elim p.proc [ none ↦ p | some proc ↦ record p { proc = some (poll_proc o proc) } ]

pub code_of : Option Proc → Option Code
code_of none = none
code_of (some proc) = proc.returncode

-- `self._proc is not None and self._proc.poll() is None`, once polled
pub is_alive : Option Proc → Bool
is_alive none = false
is_alive (some proc) = elim proc.returncode [ none ↦ true | some _ ↦ false ]

-- `self._proc is not None and self._proc.poll() is not None`
pub has_exited : Option Proc → Bool
has_exited none = false
has_exited (some proc) = elim proc.returncode [ none ↦ false | some _ ↦ true ]

-- `_terminate` and `stop` on a process that is alive: the signals, and its code.
pub signal_group : ℕ → Ending → List Signal → Option Code × List Signal
signal_group pid (obeys code) sent = (some code, sigterm pid ∷ sent)
signal_group pid (is_killed code) sent = (some code, sigkill pid ∷ sigterm pid ∷ sent)
signal_group pid raises sent = (none, sigterm pid ∷ sent)
signal_group pid raises_late sent = (none, sigkill pid ∷ sigterm pid ∷ sent)

-- The end of the process of a driver that was polled: whether no wait raised.
pub end_proc : Ending → Option Proc → Policy → Bool × Policy
unfolding signal_group is_alive
end_proc ending none p = (true, p)
end_proc ending (some proc) p =
    if is_alive (some proc)
    then (let (code, sent) = signal_group proc.pid ending p.signals in
        elim code [
          | none ↦ (false, record p { signals = sent })
          | some c ↦
              (true, record p { signals = sent; proc = some (record proc { returncode = some c }) })
        ])
    else (true, p)
