-- ===== src/Json.antt =====
-- transport/json_gateway.py: the envelopes that messages of `/ws-json` become. A float is a whole
-- multiple of the fraction `unit` of one, an infinity, or NaN, and is compared as Python does.
pub mod Ranges
pub mod Sticks
mod Tests
use roboparty_rp_server.Prelude.{
  ℕ, zero, suc, ◌%◌, ◌^◌, Bool, true, false, ◌&&◌, not, String, Option, none, some, List, [], ◌∷◌,
  ◌++◌, ltb, string_eq, if◌then◌else◌,
}
use roboparty_rp_server.Prelude.Dict.{Dict, get, is_some}
use roboparty_rp_server.Joy.{ℤ, pos, negsuc, neg, abs, same}

pub data Float : Type 0 where
  nan infinity minus_infinity : Float
  val : ℤ → Float

-- A value of JSON. A string has what `float` makes of it, where it does not raise, and whether it is
-- empty; of arrays and objects only that counts, too.
pub data Json : Type 0 where
  null : Json
  bool : Bool → Json
  number : Float → Json
  text : Option Float → Bool → Json
  compound : Bool → Json

pub lt_int : ℤ → ℤ → Bool
lt_int (pos m) (pos n) = ltb m n
lt_int (pos m) (negsuc n) = false
lt_int (negsuc m) (pos n) = true
lt_int (negsuc m) (negsuc n) = ltb n m

-- `x < y`
pub lt_float : Float → Float → Bool
unfolding lt_int
lt_float (val x) (val y) = lt_int x y
lt_float nan y = false
lt_float infinity y = false
lt_float minus_infinity nan = false
lt_float minus_infinity minus_infinity = false
lt_float minus_infinity y = true
lt_float (val x) infinity = true
lt_float (val x) y = false

-- `x == 0.0`
pub is_zero : Float → Bool
is_zero (val x) = same x (pos 0)
is_zero x = false

-- Whether Python takes a value for true.
pub is_true : Json → Bool
unfolding is_zero
is_true null = false
is_true (bool b) = b
is_true (number x) = not (is_zero x)
is_true (text x is_empty) = not is_empty
is_true (compound is_empty) = not is_empty

-- `-abs(x)`
pub minus_abs : Float → Float
unfolding neg abs
minus_abs nan = nan
minus_abs infinity = minus_infinity
minus_abs minus_infinity = minus_infinity
minus_abs (val x) = val (neg (abs x))

pub data Axis : Type 0 where
  lx ly rx ry lt rt : Axis

-- `max(x, y)` and `min(x, y)`: the first, unless the second is more, or less.
pub py_max : Float → Float → Float
unfolding lt_float
py_max x y = if lt_float x y then y else x

pub py_min : Float → Float → Float
unfolding lt_float
py_min x y = if lt_float y x then y else x

pub holds : Option Json → Bool
unfolding is_true
holds none = false
holds (some j) = is_true j

module _ (unit : ℕ) where
  -- `float(x)`, which raises TypeError or ValueError.
  pub float : Json → Option Float
  float null = none
  float (bool true) = some (val (pos unit))
  float (bool false) = some (val (pos 0))
  float (number x) = some x
  float (text x is_empty) = x
  float (compound is_empty) = none

  -- `max(-1.0, min(1.0, x))`
  pub clamp : Float → Float
  unfolding py_max py_min neg
  clamp x = py_max (val (neg unit)) (py_min (val (pos unit)) x)

  pub clamp_trigger : Float → Float
  unfolding py_max py_min neg
  clamp_trigger x = py_max (val (neg unit)) (py_min (val (pos 0)) x)

  pub or_zero : Option Float → Float
  unfolding minus_abs
  or_zero none = val (pos 0)
  or_zero (some x) = minus_abs x

  -- `_trigger` of what is under its two keys
  pub trigger : Option Json → Option Json → Float
  unfolding clamp_trigger or_zero float holds is_zero neg
  trigger none button = if holds button then val (neg unit) else val (pos 0)
  trigger (some j) button =
      let value = clamp_trigger (or_zero (float j)) in
      if is_zero value && holds button then val (neg unit) else value

  pub axis_if : Axis → Option Float → List (Axis × Float)
  unfolding clamp
  axis_if axis none = []
  axis_if axis (some x) = (axis, clamp x) ∷ []

  -- What the first loop adds for a key.
  pub stick : Axis → Option Json → List (Axis × Float)
  unfolding axis_if float
  stick axis none = []
  stick axis (some j) = axis_if axis (float j)

  deflected : Option Float → Bool
  unfolding is_zero
  deflected none = false
  deflected (some x) = not (is_zero x)

  -- `float(msg.get(other) or 0.0) != 0.0`, where an exception is passed over.
  pub is_deflected : Option Json → Bool
  unfolding deflected float is_true
  is_deflected none = false
  is_deflected (some j) = is_true j && deflected (float j)

  pub mirror : Axis → Option Json → Option Json → List (Axis × Float)
  unfolding stick is_deflected
  mirror dst src other = if is_deflected other then [] else stick dst src

  -- The axes of `control_envelope`, in the order in which it adds them.
  pub control_axes : Dict String Json → List (Axis × Float)
  unfolding stick mirror trigger
  control_axes msg =
      stick lx (get msg "left_stick_x")
      ++ (stick ly (get msg "left_stick_y")
          ++ (stick rx (get msg "right_stick_x")
              ++ (stick ry (get msg "right_stick_y")
                  ++ (mirror rx (get msg "left_stick_x") (get msg "right_stick_x")
                      ++ (mirror ry (get msg "left_stick_y") (get msg "right_stick_y")
                          ++ ((lt, trigger (get msg "lt") (get msg "btn_lt"))
                              ∷ (rt, trigger (get msg "rt") (get msg "btn_rt"))
                              ∷ []))))))

button_keys : List String
button_keys =
    "btn_a" ∷ "btn_b" ∷ "btn_x" ∷ "btn_y" ∷ "btn_lb" ∷ "btn_rb" ∷ "dpad_up" ∷ "dpad_down"
    ∷ "dpad_left" ∷ "dpad_right" ∷ []

buttons_of : List String → Dict String Json → List (String × Bool)
unfolding holds
buttons_of [] msg = []
buttons_of (key ∷ keys) msg = (key, holds (get msg key)) ∷ buttons_of keys msg

-- The buttons of `control_envelope`, by their keys, and whether they are down.
pub control_buttons : Dict String Json → List (String × Bool)
unfolding buttons_of button_keys
control_buttons msg = buttons_of button_keys msg
