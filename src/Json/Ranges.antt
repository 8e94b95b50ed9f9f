-- ===== src/Json/Ranges.antt =====
-- What the envelope of a message may hold, whatever the message says.
use roboparty_rp_server.Prelude.{
  ℕ, suc, ◌≤◌, ◌≡◌, refl, Bool, true, false, ◌&&◌, String, Option, none, some, List, [], ◌∷◌, ◌++◌,
  All, All-append, string_eq, ltb, if◌then◌else◌, arith,
}
use roboparty_rp_server.Prelude.Dict.{Dict, get}
use roboparty_rp_server.Joy.{pos, negsuc, neg, abs}
use roboparty_rp_server.Json.{
  Float, nan, infinity, minus_infinity, val, Json, lt_int, lt_float, is_zero, Axis, lx, ly, rx, ry,
  lt, rt, py_max, py_min, holds, float, clamp, clamp_trigger, or_zero, trigger, axis_if, stick,
  is_deflected, mirror, control_axes,
}

-- A choice has what both branches have, each where it is taken.
pick :
    (P : Float → Type 0) (b : Bool) (x y : Float)
    → (b ≡ true → P x)
    → (b ≡ false → P y)
    → P (if b then x else y)
pick P true x y h k = h refl
pick P false x y h k = k refl

module _ (u : ℕ) where
  abbrev unit : ℕ
  unit = suc u

  -- A finite value from -1.0 to 1.0.
  abbrev pub IsWithin : Float → Type 0
  IsWithin (val x) = abs x ≤ unit
  IsWithin x = true ≡ false

  -- A finite value from -1.0 to 0.0.
  abbrev pub IsPressed : Float → Type 0
  IsPressed (val (pos n)) = n ≡ 0
  IsPressed (val (negsuc n)) = suc n ≤ unit
  IsPressed x = true ≡ false

  abbrev pub InRange : Axis × Float → Type 0
  InRange (lt, x) = IsPressed x
  InRange (rt, x) = IsPressed x
  InRange (_, x) = IsWithin x

  clamp-IsWithin : (x : Float) → IsWithin (clamp unit x)
  unfolding clamp py_max py_min lt_float lt_int neg abs
  clamp-IsWithin nan = ground arith
  clamp-IsWithin infinity = ground arith
  clamp-IsWithin minus_infinity = ground arith
  clamp-IsWithin (val (pos n)) =
      pick (λ w. IsWithin (py_max (val (negsuc u)) w)) (ltb n unit) (val (pos n)) (val (pos unit))
        (λ e. ground (arith, e)) (λ e. ground arith)
  clamp-IsWithin (val (negsuc n)) =
      pick IsWithin (ltb n u) (val (negsuc n)) (val (negsuc u)) (λ e. ground (arith, e))
        (λ e. ground arith)

  clamp_trigger-IsPressed : (x : Float) → IsPressed (clamp_trigger unit x)
  unfolding clamp_trigger py_max py_min lt_float lt_int neg
  clamp_trigger-IsPressed nan = ground arith
  clamp_trigger-IsPressed infinity = ground arith
  clamp_trigger-IsPressed minus_infinity = ground arith
  clamp_trigger-IsPressed (val (pos n)) =
      pick (λ w. IsPressed (py_max (val (negsuc u)) w)) (ltb n 0) (val (pos n)) (val (pos 0))
        (λ e. ground (arith, e)) (λ e. ground arith)
  clamp_trigger-IsPressed (val (negsuc n)) =
      pick IsPressed (ltb n u) (val (negsuc n)) (val (negsuc u)) (λ e. ground (arith, e))
        (λ e. ground arith)

  trigger-IsPressed : (o button : Option Json) → IsPressed (trigger unit o button)
  unfolding trigger neg
  trigger-IsPressed none button =
      pick IsPressed (holds button) (val (negsuc u)) (val (pos 0)) (λ _. ground arith) (λ _. refl)
  trigger-IsPressed (some j) button =
      let value = clamp_trigger unit (or_zero unit (float unit j)) in
      pick IsPressed (is_zero value && holds button) (val (negsuc u)) value (λ _. ground arith)
        (λ _. clamp_trigger-IsPressed (or_zero unit (float unit j)))

  abbrev is_stick : Axis → Bool
  is_stick lt = false
  is_stick rt = false
  is_stick _ = true

  stick-InRange : (axis : Axis) (x : Float) → is_stick axis ≡ true → InRange (axis, clamp unit x)
  stick-InRange lx x e = clamp-IsWithin x
  stick-InRange ly x e = clamp-IsWithin x
  stick-InRange rx x e = clamp-IsWithin x
  stick-InRange ry x e = clamp-IsWithin x
  stick-InRange lt x e = cc
  stick-InRange rt x e = cc

  abbrev pub AllInRange : List (Axis × Float) → Type 0
  AllInRange axes = All InRange axes

  axis_if-AllInRange :
      (axis : Axis) (o : Option Float) → is_stick axis ≡ true → AllInRange (axis_if unit axis o)
  unfolding axis_if
  axis_if-AllInRange axis none e = tt
  axis_if-AllInRange axis (some x) e = (stick-InRange axis x e, tt)

  stick-AllInRange :
      (axis : Axis) (o : Option Json) → is_stick axis ≡ true → AllInRange (stick unit axis o)
  unfolding stick
  stick-AllInRange axis none e = tt
  stick-AllInRange axis (some j) e = axis_if-AllInRange axis (float unit j) e

  if-AllInRange :
      (b : Bool) (x y : List (Axis × Float))
      → AllInRange x
      → AllInRange y
      → AllInRange (if b then x else y)
  if-AllInRange true x y h k = h
  if-AllInRange false x y h k = k

  join : (x y : List (Axis × Float)) → AllInRange x → AllInRange y → AllInRange (x ++ y)
  join x y h k = All-append InRange x y h k

  mirror-AllInRange :
      (axis : Axis) (src other : Option Json)
      → is_stick axis ≡ true
      → AllInRange (mirror unit axis src other)
  unfolding mirror
  mirror-AllInRange axis src other e =
      if-AllInRange (is_deflected unit other) [] (stick unit axis src) tt
        (stick-AllInRange axis src e)

  -- Whatever a message says, with numbers that are infinite or NaN, strings and values of other
  -- types: the axes of its envelope are finite, the sticks from -1.0 to 1.0 and the triggers from
  -- -1.0 to 0.0.
  pub control_axes-AllInRange : (msg : Dict String Json) → AllInRange (control_axes unit msg)
  unfolding control_axes
  control_axes-AllInRange msg =
      let left_x = get msg "left_stick_x" in
      let left_y = get msg "left_stick_y" in
      let right_x = get msg "right_stick_x" in
      let right_y = get msg "right_stick_y" in
      let triggers : AllInRange (
          (lt, trigger unit (get msg "lt") (get msg "btn_lt"))
          ∷ (rt, trigger unit (get msg "rt") (get msg "btn_rt"))
          ∷ []) =
        (
          trigger-IsPressed (get msg "lt") (get msg "btn_lt"),
          (trigger-IsPressed (get msg "rt") (get msg "btn_rt"), tt),
        ) in
      join (stick unit lx left_x) _ (stick-AllInRange lx left_x refl) (
        join (stick unit ly left_y) _ (stick-AllInRange ly left_y refl) (
          join (stick unit rx right_x) _ (stick-AllInRange rx right_x refl) (
            join (stick unit ry right_y) _ (stick-AllInRange ry right_y refl) (
              join (mirror unit rx left_x right_x) _ (mirror-AllInRange rx left_x right_x refl) (
                join (mirror unit ry left_y right_y) _ (mirror-AllInRange ry left_y right_y refl)
                  triggers)))))
