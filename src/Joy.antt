-- ===== src/Joy.antt =====
-- drivers/joy.py: `JoyDriver`. A float is a whole number of fractions of one, `unit` of them to 1.0.
-- What is written to uinput is a list of events, the newest first.
pub mod Shown
pub mod Rest
pub mod Held
pub mod Opened
mod Tests
use roboparty_rp_server.Prelude.{
  ℕ, zero, suc, ◌+◌, ◌*◌, ◌/◌, min, ◌≤◌, Bool, true, false, ◌&&◌, ◌||◌, not, String, Option, none,
  some, List, [], ◌∷◌, map, leb, ltb, ◌==◌, nat_eq, string_eq, if◌then◌else◌,
}
use roboparty_rp_server.Prelude.Dict.{Dict, get, put, values}

-- `negsuc n` is -(n + 1).
pub data ℤ : Type 0 where
  pos : ℕ → ℤ
  negsuc : ℕ → ℤ

unfoldable pub neg : ℕ → ℤ
neg zero = pos 0
neg (suc n) = negsuc n

unfoldable pub abs : ℤ → ℕ
abs (pos n) = n
abs (negsuc n) = suc n

unfoldable pub same : ℤ → ℤ → Bool
same (pos m) (pos n) = m == n
same (negsuc m) (negsuc n) = m == n
same _ _ = false

-- The codes of `ecodes`.
pub record Ecodes : Type 0 where
  pub abs_x : ℕ
  pub abs_y : ℕ
  pub abs_rx : ℕ
  pub abs_ry : ℕ
  pub abs_z : ℕ
  pub abs_rz : ℕ
  pub btn_south : ℕ
  pub btn_east : ℕ
  pub btn_north : ℕ
  pub btn_west : ℕ
  pub btn_tl : ℕ
  pub btn_tr : ℕ
  pub btn_tl2 : ℕ
  pub btn_tr2 : ℕ
  pub btn_thumbl : ℕ
  pub btn_thumbr : ℕ
  pub btn_dpad_up : ℕ
  pub btn_dpad_down : ℕ
  pub btn_dpad_left : ℕ
  pub btn_dpad_right : ℕ
  pub btn_start : ℕ
  pub btn_select : ℕ
  pub btn_mode : ℕ
  pub btn_trigger_happy : ℕ

-- Methods of strings: `lower`, `strip`, `n[4:]` behind "btn_", and `int` where it is not negative.
pub record Text : Type 0 where
  pub lower : String → String
  pub strip : String → String
  pub behind_btn : String → Option String
  pub int_of : String → Option ℕ

-- `AXIS_MAP`
pub axis_map : Ecodes → Dict String ℕ
axis_map e =
    ("lx", e.abs_x)
    ∷ ("ly", e.abs_y)
    ∷ ("rx", e.abs_rx)
    ∷ ("ry", e.abs_ry)
    ∷ ("lt", e.abs_z)
    ∷ ("rt", e.abs_rz)
    ∷ []

-- `BTN_MAP`
pub btn_map : Ecodes → Dict String ℕ
btn_map e =
    ("a", e.btn_south)
    ∷ ("b", e.btn_east)
    ∷ ("x", e.btn_north)
    ∷ ("y", e.btn_west)
    ∷ ("lb", e.btn_tl)
    ∷ ("rb", e.btn_tr)
    ∷ ("ltb", e.btn_tl2)
    ∷ ("rtb", e.btn_tr2)
    ∷ ("ls", e.btn_thumbl)
    ∷ ("rs", e.btn_thumbr)
    ∷ ("du", e.btn_dpad_up)
    ∷ ("dd", e.btn_dpad_down)
    ∷ ("dl", e.btn_dpad_left)
    ∷ ("dr", e.btn_dpad_right)
    ∷ ("start", e.btn_start)
    ∷ ("select", e.btn_select)
    ∷ ("mode", e.btn_mode)
    ∷ []

-- What is written: an axis, a key (pressed or not), or the end of a report.
pub data Event : Type 0 where
  abs_event : ℕ → ℤ → Event
  key_event : ℕ → Bool → Event
  syn : Event

pub record Joy : Type 0 where
  -- `_ui`
  pub ready : Bool
  pub axis_state : Dict ℕ ℤ
  pub btn_state : Dict ℕ Bool
  pub events : List Event

-- How many calls on uinput succeed before one raises; `none` where none does.
abbrev pub Budget : Type 0
Budget = Option ℕ

-- A call on uinput; `none` has raised.
pub emit : Event → Option Budget → Joy → Option Budget × Joy
emit ev none j = (none, j)
emit ev (some none) j = (some none, record j { events = ev ∷ j.events })
emit ev (some (some zero)) j = (none, j)
emit ev (some (some (suc n))) j = (some (some n), record j { events = ev ∷ j.events })

-- `_BTN_NUM_BASE + i + 1`
pub numbered : Ecodes → Option ℕ → Option ℕ
numbered e none = none
numbered e (some i) = if ltb i 16 then some (e.btn_trigger_happy + i + 1) else none

pub or_else : Option ℕ → Option ℕ → Option ℕ
or_else none o = o
or_else (some c) o = some c

pub int_behind : Text → Option String → Option ℕ
int_behind t none = none
int_behind t (some rest) = t.int_of rest

-- `_resolve_btn`
pub resolve_btn : Ecodes → Text → String → Option ℕ
unfolding numbered or_else int_behind btn_map
resolve_btn e t name =
    let n = t.strip (t.lower name) in
    or_else (get (btn_map e) n)
      (or_else (numbered e (int_behind t (t.behind_btn n))) (numbered e (t.int_of n)))

pub is_pressed : Option Bool → Bool → Bool
is_pressed none value = false
is_pressed (some pressed) value = if pressed then value else not value

pub is_at : Option ℤ → ℤ → Bool
is_at none value = false
is_at (some v) value = same v value

pub set_code : Budget → Option ℕ → Bool → Joy → Joy
unfolding emit is_pressed
set_code b none value j = j
set_code b (some code) value j =
    let j' : Joy = record j { btn_state = put j.btn_state code value } in
    let (b1, j1) = emit (key_event code value) (some b) j' in
    if not j.ready || is_pressed (get j.btn_state code) value then j else (emit syn b1 j1).1

pub set_button : Ecodes → Text → Budget → String → String → Joy → Joy
unfolding set_code resolve_btn
set_button e t b name state j = set_code b (resolve_btn e t name) (t.lower state == "down") j

module _ (unit : ℕ) where
  -- `max(-1.0, min(1.0, value))`
  pub clamp : ℤ → ℤ
  unfolding neg
  clamp (pos n) = pos (min n unit)
  clamp (negsuc n) = neg (min (suc n) unit)

  -- `int(clamped * 32767)`
  pub scale : ℤ → ℤ
  unfolding neg
  scale (pos n) = pos (n * 32767 / unit)
  scale (negsuc n) = neg (suc n * 32767 / unit)

  pub set_axis_code : Budget → Option ℕ → ℤ → Joy → Joy
  unfolding emit clamp scale is_at
  set_axis_code b none value j = j
  set_axis_code b (some code) value j =
      let v = clamp value in
      let j' : Joy = record j { axis_state = put j.axis_state code v } in
      let (b1, j1) = emit (abs_event code (scale v)) (some b) j' in
      if not j.ready || is_at (get j.axis_state code) v then j else (emit syn b1 j1).1

  pub set_axis : Ecodes → Text → Budget → String → ℤ → Joy → Joy
  unfolding set_axis_code axis_map
  set_axis e t b name value j = set_axis_code b (get (axis_map e) (t.lower name)) value j

-- `if self._axis_state.get(code)`
pub is_off_centre : Option ℤ → Bool
is_off_centre none = false
is_off_centre (some v) = not (same v (pos 0))

-- What is done behind a call that did not raise.
pub then_set : (Joy → Joy) → Option Budget × Joy → Option Budget × Joy
then_set change (none, j) = (none, j)
then_set change (some b, j) = (some b, change j)

pub reset_axis : ℕ → Option Budget → Joy → Option Budget × Joy
unfolding emit is_off_centre then_set
reset_axis code none j = (none, j)
reset_axis code (some b) j =
    if is_off_centre (get j.axis_state code)
    then then_set (λ j. record j { axis_state = put j.axis_state code (pos 0) })
        (emit (abs_event code (pos 0)) (some b) j)
    else (some b, j)

pub reset_axes : List ℕ → Option Budget → Joy → Option Budget × Joy
unfolding reset_axis
reset_axes [] b j = (b, j)
reset_axes (code ∷ codes) b j = let (b', j') = reset_axis code b j in reset_axes codes b' j'

pub reset_key : ℕ → Bool → Option Budget → Joy → Option Budget × Joy
unfolding emit then_set
reset_key code value none j = (none, j)
reset_key code true (some b) j =
    then_set (λ j. record j { btn_state = put j.btn_state code false })
      (emit (key_event code false) (some b) j)
reset_key code false (some b) j = (some b, j)

pub reset_keys : Dict ℕ Bool → Option Budget → Joy → Option Budget × Joy
unfolding reset_key
reset_keys [] b j = (b, j)
reset_keys ((code, value) ∷ keys) b j =
    let (b', j') = reset_key code value b j in reset_keys keys b' j'

pub reset : Ecodes → Budget → Joy → Joy
unfolding reset_axes reset_keys emit axis_map
reset e b j =
    let (b1, j1) = reset_axes (values (axis_map e)) (some b) j in
    let (b2, j2) = reset_keys j.btn_state b1 j1 in if j.ready then (emit syn b2 j2).1 else j

pub init_axes : List ℕ → Option Budget → Joy → Option Budget × Joy
unfolding emit then_set
init_axes [] b j = (b, j)
init_axes (code ∷ codes) b j =
    let (b', j') =
      then_set (λ j. record j { axis_state = put j.axis_state code (pos 0) })
        (emit (abs_event code (pos 0)) b j) in
    init_axes codes b' j'

-- `JoyDriver()` and its `init`, where the device is there.
pub create : Joy
create = record { ready = false; axis_state = []; btn_state = []; events = [] }

pub init : Ecodes → Budget → Joy → Joy
unfolding init_axes emit axis_map
init e b j =
    let (b', j') =
      init_axes (values (axis_map e)) (some b) (record j { ready = true; events = [] }) in
    (emit syn b' j').1

pub deinit : Joy → Joy
deinit j = record j { ready = false }

-- The calls on a driver.
pub data Call : Type 0 where
  sets_button : String → String → Call
  sets_axis : String → ℤ → Call
  resets deinits : Call

module _ (unit : ℕ) (e : Ecodes) (t : Text) where
  -- Calls while uinput does not raise.
  pub step : Call → Joy → Joy
  step (sets_button name state) j = set_button e t none name state j
  step (sets_axis name value) j = set_axis unit e t none name value j
  step resets j = reset e none j
  step deinits j = deinit j

  pub run : List Call → Joy → Joy
  run [] j = j
  run (call ∷ calls) j = run calls (step call j)
