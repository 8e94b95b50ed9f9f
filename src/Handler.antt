-- ===== src/Handler.antt =====
-- protocol/handler.py and protocol/enums.py: the commands of `CommandHandler`, on the gamepad of
-- Joy.antt. An exception is `none`, with what was done before it.
pub mod Held
pub mod Tests
use roboparty_rp_server.Prelude.{
  ℕ, ◌*◌, ◌-◌, Bool, true, false, ◌&&◌, ◌||◌, not, String, Option, none, some, List, [], ◌∷◌, leb,
  ltb, ◌==◌, nat_eq, string_eq, if◌then◌else◌,
}
use roboparty_rp_server.Joy.{ℤ, pos, abs, clamp, Ecodes, Text, Joy, set_button, set_axis}
use roboparty_rp_server.Joy

-- The enums of protobuf: `Name`, which raises for an unknown value; what is behind "AXIS_" and
-- "BUTTON_" of a name, in lower case; and the f-string of a numbered button.
pub record Enums : Type 0 where
  pub axis_unspecified : ℕ
  pub axis_full : ℕ → Option String
  pub axis_short : String → String
  pub button_unspecified : ℕ
  pub button_num_0 : ℕ
  pub button_num_15 : ℕ
  pub button_full : ℕ → Option String
  pub button_short : String → String
  pub btn_numbered : ℕ → String
  pub state_down : ℕ

pub axis_name : Enums → ℕ → Option String
axis_name en value =
    if value == en.axis_unspecified
    then some ""
    else elim (en.axis_full value) [ none ↦ none | some name ↦ some (en.axis_short name) ]

pub button_name : Enums → ℕ → Option String
button_name en value =
    if value == en.button_unspecified
    then some ""
    else if leb en.button_num_0 value && leb value en.button_num_15
    then some (en.btn_numbered (value - en.button_num_0))
    else elim (en.button_full value) [ none ↦ none | some name ↦ some (en.button_short name) ]

pub button_state_name : Enums → ℕ → String
button_state_name en value = if value == en.state_down then "down" else "up"

-- The events and axes of a message.
pub record ButtonEvent : Type 0 where
  pub button : ℕ
  pub state : ℕ
  pub id : ℕ

pub record AxisValue : Type 0 where
  pub axis : ℕ
  pub value : ℤ

pub data Action : Type 0 where
  start_action stop_action other_action : Action

-- The body of an envelope; `query` has what the other drivers answer.
pub data Body (Reply : Type 0) : Type 0 where
  query : List Reply → Body Reply
  button : ButtonEvent → Body Reply
  joystick : AxisValue → Body Reply
  control : List AxisValue → List ButtonEvent → Body Reply
  policy_command : Action → String → Body Reply
  reset : Body Reply
  skill_action unsupported : Body Reply

pub data PolicyState : Type 0 where
  running_state fail_state stopped_state unspecified_state : PolicyState

pub data Reply (Answer : Type 0) : Type 0 where
  answer : List Answer → Reply Answer
  button_ack : ℕ → Reply Answer
  policy_response : String → PolicyState → Reply Answer
  reset_response : Bool → Reply Answer
  error_1 : Reply Answer

-- The drivers that are not the gamepad: what `policy.start` and `policy.stop` return (`none` where
-- they raise; a stop may return nothing), `policy.running`, and whether `clear_errors` raises.
pub record Drivers : Type 1 where
  pub State : Type 0
  pub start : String → State → Option Bool × State
  pub stop : State → Option (Option Bool) × State
  pub running : State → Bool
  pub clear_errors : State → Option (Unit {0}) × State

pub start_state : Bool → PolicyState
start_state true = running_state
start_state false = fail_state

-- `ok is not False`
pub stop_state : Option Bool → PolicyState
stop_state (some false) = fail_state
stop_state _ = stopped_state

module _ (unit : ℕ) (e : Ecodes) (t : Text) (en : Enums) where
  -- Values within the dead zone of 0.01 are 0.
  pub quantize : ℤ → ℤ
  quantize v = if ltb (abs v * 100) unit then pos 0 else v

  pub set_named_axis : Option String → ℤ → Joy → Option (Unit {0}) × Joy
  set_named_axis none value j = (none, j)
  set_named_axis (some name) value j =
      if name == ""
      then (some tt, j)
      else (some tt, set_axis unit e t none name (clamp unit (quantize value)) j)

  -- `_apply_joystick`
  pub apply_joystick : AxisValue → Joy → Option (Unit {0}) × Joy
  unfolding set_named_axis quantize axis_name
  apply_joystick a j = set_named_axis (axis_name en a.axis) a.value j

  pub set_named_button : Option String → ButtonEvent → Joy → Option (Unit {0}) × Joy
  unfolding button_state_name
  set_named_button none event j = (none, j)
  set_named_button (some name) event j =
      if name == ""
      then (some tt, j)
      else (some tt, set_button e t none name (button_state_name en event.state) j)

  pub apply_button : ButtonEvent → Joy → Option (Unit {0}) × Joy
  unfolding set_named_button button_name
  apply_button event j = set_named_button (button_name en event.button) event j

  pub after : {A : Type 0} → Option (Unit {0}) × Joy → (Joy → Option A × Joy) → Option A × Joy
  after (none, j) next = (none, j)
  after (some _, j) next = next j

  pub apply_buttons : List ButtonEvent → Joy → Option (Unit {0}) × Joy
  unfolding apply_button after
  apply_buttons [] j = (some tt, j)
  apply_buttons (event ∷ events) j = after (apply_button event j) (apply_buttons events)

  pub apply_axes : List AxisValue → Joy → Option (Unit {0}) × Joy
  unfolding apply_joystick after
  apply_axes [] j = (some tt, j)
  apply_axes (a ∷ axes) j = after (apply_joystick a j) (apply_axes axes)

  -- `_control`
  pub apply_control : List AxisValue → List ButtonEvent → Joy → Option (Unit {0}) × Joy
  unfolding apply_axes apply_buttons after
  apply_control axes buttons j = after (apply_axes axes j) (apply_buttons buttons)

  module _ (d : Drivers) (Answer : Type 0) where
    abbrev pub Result : Type 0
    Result = Option (List (Reply Answer)) × Joy × d.State

    pub replying : List (Reply Answer) → Option (Unit {0}) × Joy → d.State → Result
    replying replies (none, j) s = (none, j, s)
    replying replies (some _, j) s = (some replies, j, s)

    pub policy_started : String → Option Bool × d.State → Joy → Result
    policy_started name (none, s) j = (none, j, s)
    policy_started name (some ok, s) j = (some (policy_response name (start_state ok) ∷ []), j, s)

    pub policy_stopped : String → Option (Option Bool) × d.State → Joy → Result
    policy_stopped name (none, s) j = (none, j, s)
    policy_stopped name (some ok, s) j = (some (policy_response name (stop_state ok) ∷ []), j, s)

    -- `_policy`
    pub command_policy : Action → String → Joy → d.State → Result
    unfolding policy_started policy_stopped start_state stop_state
    command_policy start_action name j s = policy_started name (d.start name s) j
    command_policy stop_action name j s = policy_stopped name (d.stop s) j
    command_policy other_action name j s =
        (some (policy_response name unspecified_state ∷ []), j, s)

    pub reset_stopped : Option (Option Bool) × d.State → Joy → Result
    reset_stopped (none, s) j = (some (reset_response false ∷ []), j, s)
    reset_stopped (some _, s) j = (some (reset_response true ∷ []), j, s)

    pub reset_policy : Option (Unit {0}) × d.State → Joy → Result
    unfolding reset_stopped
    reset_policy (none, s) j = (some (reset_response false ∷ []), j, s)
    reset_policy (some _, s) j =
        if d.running s then reset_stopped (d.stop s) j else (some (reset_response true ∷ []), j, s)

    -- `_reset`
    pub reset_all : Joy → d.State → Result
    unfolding reset_policy
    reset_all j s = reset_policy (d.clear_errors s) (Joy.reset e none j)

    pub handle : Body Answer → Joy → d.State → Result
    unfolding replying apply_button apply_joystick apply_control command_policy reset_all
    handle (query answers) j s = (some (answer answers ∷ []), j, s)
    handle (button event) j s = replying (button_ack event.id ∷ []) (apply_button event j) s
    handle (joystick a) j s = replying [] (apply_joystick a j) s
    handle (control axes buttons) j s = replying [] (apply_control axes buttons j) s
    handle (policy_command action name) j s = command_policy action name j s
    handle reset j s = reset_all j s
    handle skill_action j s = (some [], j, s)
    handle unsupported j s = (some (error_1 ∷ []), j, s)
