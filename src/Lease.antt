-- ===== src/Lease.antt =====
-- protocol/control_lease.py: `ControlLease`, who may drive the robot. An `asyncio.Lock` serialises
-- the coroutines, so that each is one transition of the state. Time is counted in milliseconds.
pub mod Expiry
pub mod Safety
pub mod Latch
pub mod Ownership
mod Tests
pub mod Dispatch
pub mod Yields
pub mod Idle
use roboparty_rp_server.Prelude.{
  ℕ, zero, suc, ◌+◌, ◌≤◌, ◌<◌, ◌≡◌, refl, Bool, true, false, ◌&&◌, ◌||◌, not, Option, none, some,
  List, [], ◌∷◌, String, ltb, leb, ◌==◌, nat_eq, string_eq, if◌then◌else◌,
}
use roboparty_rp_server.Prelude.Result.{Result, ok, err}

-- What a command carries: `WhichOneof("body")`, with the values of the axes where it has any.
pub data Body (F : Type 0) : Type 0 where
  control : List F → Body F
  joystick : F → Body F
  button other : Body F

-- What the lease uses of its handler (protocol/handler.py) and of the drivers behind it. A call
-- that may raise returns `none` for an exception; what it did before stays done.
pub record Device : Type 1 where
  pub Dev : Type 0
  pub Command : Type 0
  pub Reply : Type 0
  pub F : Type 0
  pub body : Command → Body F
  -- `math.isfinite`
  pub is_finite : F → Bool
  -- `joy.reset()`
  pub reset : Dev → Option (Unit {0}) × Dev
  -- `policy.running`, `policy.failed`
  pub running : Dev → Option Bool
  pub failed : Dev → Bool
  -- `await policy.stop()`; `some false` is a returned `False`
  pub stop_policy : Dev → Option Bool × Dev
  -- `await handler.handle(env)`
  pub handle : Command → Dev → Option (List Reply) × Dev

-- `ControlError` by its code, and the exceptions that pass through.
pub data Error : Type 0 where
  stop_failed control_stopped control_busy lease_required invalid_input : Error
  denied handler_raised cancelled : Error

pub data Status : Type 0 where
  acquired released cleared : Status

-- The reply that `status` builds.
pub record Notice : Type 0 where
  pub status : Status
  pub ttl_ms : ℕ
  pub input_timeout_ms : ℕ

pub record Config : Type 0 where
  pub ttl : ℕ
  pub input_timeout : ℕ

-- The argument `authorize`: not given, or a callback that returns or raises.
pub data Authorize : Type 0 where
  absent allows refuses : Authorize

unfoldable pub authorized : Authorize → Bool
authorized refuses = false
authorized _ = true

-- `self.owner == session`
unfoldable pub owns : Option String → String → Bool
owns none session = false
owns (some o) session = o == session

pub is_free : Option String → Bool
is_free none = true
is_free (some _) = false

unfoldable pub is_input : {F : Type 0} → Body F → Bool
is_input other = false
is_input _ = true

raised : {A : Type 0} → Option A → Bool
raised none = true
raised (some _) = false

pub status : Config → Status → Notice
status c s = record { status = s; ttl_ms = c.ttl; input_timeout_ms = c.input_timeout }

module _ (d : Device) where
  open d use {Dev, Command, Reply, F, body, is_finite, reset, running, failed, stop_policy, handle}

  -- `reads` counts the calls of `self.now()`.
  pub record Lease : Type 0 where
    pub owner : Option String
    pub deadline : ℕ
    pub last_input : Option ℕ
    pub fault : Bool
    pub stopped : Bool
    pub reads : ℕ
    pub dev : Dev

  -- A coroutine under the lock: it returns or raises, and leaves the state.
  abbrev pub Action : Type 0 → Type 0
  Action A = Lease → Result Error A × Lease

  abbrev pub bind : {A B : Type 0} → Result Error A → (A → Action B) → Action B
  bind (ok a) f l = f a l
  bind (err e) f l = (err e, l)

  abbrev pub after :
      {A B : Type 0} → Result Error A × Lease → (A → Action B) → Result Error B × Lease
  after (r, l) f = bind r f l

  infixl 5 ◌>>=◌ ◌>>◌
  abbrev pub ◌>>=◌ : {A B : Type 0} → Action A → (A → Action B) → Action B
  ◌>>=◌ m f l = after (m l) f

  abbrev pub ◌>>◌ : {B : Type 0} → Action (Unit {0}) → Action B → Action B
  m >> n = m >>= λ _. n

  abbrev pub pure : {A : Type 0} → A → Action A
  pure a l = (ok a, l)

  abbrev pub raise : {A : Type 0} → Error → Action A
  raise e l = (err e, l)

  abbrev pub modify : (Lease → Lease) → Action (Unit {0})
  modify f l = (ok tt, f l)

  abbrev pub require : Bool → Error → Action (Unit {0})
  require true e l = (ok tt, l)
  require false e l = (err e, l)

  all_finite : List F → Bool
  all_finite [] = true
  all_finite (v ∷ vs) = is_finite v && all_finite vs

  unfoldable pub body_finite : Body F → Bool
  unfolding all_finite
  body_finite (control vs) = all_finite vs
  body_finite (joystick v) = all_finite (v ∷ [])
  body_finite button = true
  body_finite other = true

  -- `ControlLease(handler, ttl_s, input_timeout_s)`; `none` is the `ValueError`.
  unfoldable pub create : Config → Dev → Option Lease
  create c dev =
      if ltb 0 c.ttl && ltb 0 c.input_timeout
      then some (record {
        owner = none;
        deadline = 0;
        last_input = none;
        fault = false;
        stopped = false;
        reads = 0;
        dev = dev;
      })
      else none

  -- The second `try` of `_perform_stop`: whether it appends an error, and the device behind it.
  unfoldable pub policy_stopped : Option Bool × Dev → Bool × Dev
  policy_stopped (none, dev) = (true, dev)
  policy_stopped (some stopped, dev) = (not stopped, dev)

  unfoldable pub halt_policy : Option Bool → Dev → Bool × Dev
  unfolding policy_stopped
  halt_policy none dev = (true, dev)
  halt_policy (some true) dev = policy_stopped (stop_policy dev)
  halt_policy (some false) dev = (failed dev, dev)

  -- What stopping does to the device, and whether there were errors.
  unfoldable pub halt : Dev → Bool × Dev
  unfolding halt_policy raised
  halt dev =
      let (r, dev1) = reset dev in
      let (bad, dev2) = halt_policy (running dev1) dev1 in (raised r || bad, dev2)

  pub perform_stop : Action (Unit {0})
  unfolding halt
  perform_stop l =
      let (errors, dev') = halt l.dev in
      let l' = record l { owner = none; last_input = none; dev = dev' } in
      if errors then (err stop_failed, record l' { fault = true }) else (ok tt, l')

  -- `_stop`: the shielded task ends whatever happens to its caller, who is told of its own
  -- cancellation (`is_cancelled`) when the task has not raised.
  pub stop_shielded : Bool → Action (Unit {0})
  stop_shielded is_cancelled = do perform_stop; require (not is_cancelled) cancelled

  module _ (now : ℕ → ℕ) (c : Config) where
    -- `self.now()`; `now n` is the reading of call `n`.
    pub read_now : Action ℕ
    read_now l = (ok (now l.reads), record l { reads = l.reads + 1 })

    input_expired : Option ℕ → Action Bool
    unfolding read_now
    input_expired none = pure false
    input_expired (some last) = do t ← read_now; pure (leb (last + c.input_timeout) t)

    -- The condition of `_expire`, with its readings of the clock.
    unfoldable pub is_expired : Option String → Action Bool
    unfolding read_now input_expired
    is_expired none = pure false
    is_expired (some _) = do
      t ← read_now
      λ l. if leb l.deadline t then (ok true, l) else input_expired l.last_input l

    unfoldable pub expire_locked : Bool → Action (Unit {0})
    unfolding is_expired stop_shielded
    expire_locked is_cancelled l =
        (is_expired l.owner >>= λ due. if due then stop_shielded is_cancelled else pure tt) l

    pub renew : Action (Unit {0})
    unfolding read_now
    renew = do t ← read_now; modify (λ l. record l { deadline = t + c.ttl })

    -- `self.owner = session`, behind the reset of `last_input` where nobody owned
    pub take : String → Lease → Lease
    unfolding is_free
    take session l = record l {
      owner = some session;
      last_input = if is_free l.owner then none else l.last_input;
    }

    pub expire : Bool → Action (Unit {0})
    expire = expire_locked

    -- `acquire` behind `_expire`.
    pub claim : String → Authorize → Action Notice
    unfolding authorized owns is_free take renew status
    claim session authorize = do
      require (authorized authorize) denied
      λ l. require (not l.fault) stop_failed l
      λ l. require (not l.stopped) control_stopped l
      λ l. require (is_free l.owner || owns l.owner session) control_busy l
      modify (take session)
      renew
      pure (status c acquired)

    pub acquire : Bool → String → Authorize → Action Notice
    acquire is_cancelled session authorize = do expire_locked is_cancelled; claim session authorize

    unfoldable pub renew_own : String → Action (Unit {0})
    unfolding owns renew
    renew_own session l = (if owns l.owner session then renew else pure tt) l

    pub heartbeat : Bool → String → Action (Unit {0})
    heartbeat is_cancelled session = do expire_locked is_cancelled; renew_own session

    pub release : Bool → String → Action Notice
    unfolding stop_shielded owns status
    release is_cancelled session = do
      λ l. (if owns l.owner session then stop_shielded is_cancelled else pure tt) l
      pure (status c released)

    pub stop : Bool → Bool → Action (Unit {0})
    unfolding stop_shielded
    stop is_cancelled latch = do
      modify (λ l. record l { stopped = latch || l.stopped })
      stop_shielded is_cancelled

    pub clear_stop : Action Notice
    unfolding status
    clear_stop = do modify (λ l. record l { stopped = false }); pure (status c cleared)

    pub run_handler : Command → Action (List Reply)
    run_handler env l =
        let (r, dev') = handle env l.dev in
        let l' = record l { dev = dev' } in
        elim r [ none ↦ (err handler_raised, l') | some replies ↦ (ok replies, l') ]

    pub note_input : Body F → Action (Unit {0})
    unfolding is_input read_now
    note_input b =
        if is_input b
        then (do t ← read_now; modify (λ l. record l { last_input = some t }))
        else pure tt

    -- `dispatch` behind `_expire`.
    unfoldable pub command : String → Command → Authorize → Action (List Reply)
    unfolding authorized owns body_finite run_handler renew note_input
    command session env authorize = do
      require (authorized authorize) denied
      λ l. require (owns l.owner session) lease_required l
      require (body_finite (body env)) invalid_input
      result ← run_handler env
      renew
      note_input (body env)
      pure result

    unfoldable pub dispatch : Bool → String → Command → Authorize → Action (List Reply)
    dispatch is_cancelled session env authorize = do
      expire_locked is_cancelled
      command session env authorize

    -- The calls that sessions, the watchdog and the operator make, each with whether its caller is
    -- cancelled while it waits for a stop.
    pub data Call : Type 0 where
      expires : Call
      acquires : String → Authorize → Call
      heartbeats releases : String → Call
      stops : Bool → Call
      clears : Call
      dispatches : String → Command → Authorize → Call

    unfoldable pub step : Bool × Call → Lease → Lease
    step (b, expires) l = (expire b l).1
    step (b, acquires session authorize) l = (acquire b session authorize l).1
    step (b, heartbeats session) l = (heartbeat b session l).1
    step (b, releases session) l = (release b session l).1
    step (b, stops latch) l = (stop b latch l).1
    step (b, clears) l = (clear_stop l).1
    step (b, dispatches session env authorize) l = (dispatch b session env authorize l).1

    pub run : List (Bool × Call) → Lease → Lease
    run [] l = l
    run (call ∷ calls) l = run calls (step call l)
