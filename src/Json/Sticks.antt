-- ===== src/Json/Sticks.antt =====
-- Which stick translates the robot: the last value that an envelope has for an axis counts, as the
-- handler takes them in their order.
use roboparty_rp_server.Prelude.{
  ℕ, ◌≡◌, refl, sym, ap, ◌∙◌, Bool, true, false, String, Option, none, some, List, [], ◌∷◌, ◌++◌,
  ◌==◌, nat_eq, string_eq, arith, if◌then◌else◌,
}
use roboparty_rp_server.Prelude.Dict.{Dict, get}
use roboparty_rp_server.Json.{
  Float, Json, Axis, lx, ly, rx, ry, lt, rt, float, clamp, trigger, axis_if, stick, is_deflected,
  mirror, control_axes,
}

index : Axis → ℕ
index lx = 0
index ly = 1
index rx = 2
index ry = 3
index lt = 4
index rt = 5

or_else : Option Float → Option Float → Option Float
or_else none o = o
or_else (some x) o = some x

-- The last value for an axis.
pub last_of : Axis → List (Axis × Float) → Option Float
unfolding index or_else
last_of axis [] = none
last_of axis ((a, x) ∷ axes) =
    let rest = last_of axis axes in or_else rest (if index a == index axis then some x else none)

right_none : (o : Option Float) → o ≡ or_else o none
unfolding or_else
right_none none = refl
right_none (some x) = refl

or_else_assoc : (a b c : Option Float) → or_else (or_else a b) c ≡ or_else a (or_else b c)
unfolding or_else
or_else_assoc none b c = refl
or_else_assoc (some x) b c = refl

last_of-append :
    (axis : Axis) (xs ys : List (Axis × Float))
    → last_of axis (xs ++ ys) ≡ or_else (last_of axis ys) (last_of axis xs)
unfolding last_of
last_of-append axis [] ys = right_none (last_of axis ys)
last_of-append axis ((a, x) ∷ xs) ys =
    let here = if index a == index axis then some x else none in
    ap (λ o. or_else o here) (last_of-append axis xs ys)
    ∙ or_else_assoc (last_of axis ys) (last_of axis xs) here

skip :
    (axis : Axis) (xs ys : List (Axis × Float))
    → last_of axis xs ≡ none
    → last_of axis (xs ++ ys) ≡ last_of axis ys
skip axis xs ys h =
    last_of-append axis xs ys
    ∙ ap (or_else (last_of axis ys)) h
    ∙ sym (right_none (last_of axis ys))

without :
    (axis : Axis) (xs ys : List (Axis × Float))
    → last_of axis ys ≡ none
    → last_of axis (xs ++ ys) ≡ last_of axis xs
unfolding or_else
without axis xs ys h = last_of-append axis xs ys ∙ ap (λ o. or_else o (last_of axis xs)) h

module _ (unit : ℕ) where
  clamped : Option Float → Option Float
  clamped none = none
  clamped (some x) = some (clamp unit x)

  -- The value of a stick in a message, where it has a number.
  pub value_of : Option Json → Option Float
  unfolding clamped
  value_of none = none
  value_of (some j) = clamped (float unit j)

  -- The right stick where it is deflected; or else the left one, and the right one without it.
  pub driven_by : Option Json → Option Json → Option Float
  unfolding value_of or_else
  driven_by right left =
      if is_deflected unit right then value_of right else or_else (value_of left) (value_of right)

  axis_if-own : (axis : Axis) (o : Option Float) → last_of axis (axis_if unit axis o) ≡ clamped o
  unfolding axis_if last_of or_else clamped
  axis_if-own axis none = refl
  axis_if-own axis (some x) = ground arith

  axis_if-other :
      (a axis : Axis) (o : Option Float)
      → (index a == index axis) ≡ false
      → last_of axis (axis_if unit a o) ≡ none
  unfolding axis_if last_of or_else
  axis_if-other a axis none e = refl
  axis_if-other a axis (some x) e = ground (arith, e)

  stick-own : (axis : Axis) (o : Option Json) → last_of axis (stick unit axis o) ≡ value_of o
  unfolding stick value_of last_of
  stick-own axis none = refl
  stick-own axis (some j) = axis_if-own axis (float unit j)

  stick-other :
      (a axis : Axis) (o : Option Json)
      → (index a == index axis) ≡ false
      → last_of axis (stick unit a o) ≡ none
  unfolding stick last_of
  stick-other a axis none e = refl
  stick-other a axis (some j) e = axis_if-other a axis (float unit j) e

  if-last :
      (b : Bool) (axis : Axis) (xs ys : List (Axis × Float))
      → last_of axis xs ≡ none
      → last_of axis ys ≡ none
      → last_of axis (if b then xs else ys) ≡ none
  if-last true axis xs ys h k = h
  if-last false axis xs ys h k = k

  mirror-other :
      (a axis : Axis) (src other : Option Json)
      → (index a == index axis) ≡ false
      → last_of axis (mirror unit a src other) ≡ none
  unfolding mirror last_of
  mirror-other a axis src other e =
      if-last (is_deflected unit other) axis [] (stick unit a src) refl (stick-other a axis src e)

  -- The mirror of the left stick behind the right stick.
  mirrored :
      (b : Bool) (axis : Axis) (right left : Option Json)
      → or_else (last_of axis (if b then [] else stick unit axis left)) (value_of right)
        ≡ (if b then value_of right else or_else (value_of left) (value_of right))
  unfolding or_else last_of
  mirrored true axis right left = refl
  mirrored false axis right left = ap (λ o. or_else o (value_of right)) (stick-own axis left)

  mirror-own :
      (axis : Axis) (right left : Option Json) (before : Option Float)
      → before ≡ value_of right
      → or_else (last_of axis (mirror unit axis left right)) before ≡ driven_by right left
  unfolding mirror driven_by
  mirror-own axis right left before e =
      ap (or_else (last_of axis (mirror unit axis left right))) e
      ∙ mirrored (is_deflected unit right) axis right left

  driven_x :
      (left_x left_y right_x right_y : Option Json) (rest : List (Axis × Float))
      → last_of rx rest ≡ none
      → last_of rx (
          stick unit lx left_x
          ++ (stick unit ly left_y
              ++ (stick unit rx right_x
                  ++ (stick unit ry right_y
                      ++ (mirror unit rx left_x right_x
                          ++ (mirror unit ry left_y right_y ++ rest))))))
        ≡ driven_by right_x left_x
  unfolding index
  driven_x left_x left_y right_x right_y rest h =
      let copy_x = mirror unit rx left_x right_x in
      let copy_y = mirror unit ry left_y right_y in
      let quiet = skip rx copy_y rest (mirror-other ry rx left_y right_y refl) ∙ h in
      skip rx (stick unit lx left_x) _ (stick-other lx rx left_x refl)
      ∙ skip rx (stick unit ly left_y) _ (stick-other ly rx left_y refl)
      ∙ last_of-append rx (stick unit rx right_x)
          (stick unit ry right_y ++ (copy_x ++ (copy_y ++ rest)))
      ∙ ap (λ o. or_else o (last_of rx (stick unit rx right_x)))
          (skip rx (stick unit ry right_y) (copy_x ++ (copy_y ++ rest))
              (stick-other ry rx right_y refl)
            ∙ without rx copy_x (copy_y ++ rest) quiet)
      ∙ mirror-own rx right_x left_x (last_of rx (stick unit rx right_x)) (stick-own rx right_x)

  driven_y :
      (left_x left_y right_x right_y : Option Json) (rest : List (Axis × Float))
      → last_of ry rest ≡ none
      → last_of ry (
          stick unit lx left_x
          ++ (stick unit ly left_y
              ++ (stick unit rx right_x
                  ++ (stick unit ry right_y
                      ++ (mirror unit rx left_x right_x
                          ++ (mirror unit ry left_y right_y ++ rest))))))
        ≡ driven_by right_y left_y
  unfolding index
  driven_y left_x left_y right_x right_y rest h =
      let copy_x = mirror unit rx left_x right_x in
      let copy_y = mirror unit ry left_y right_y in
      skip ry (stick unit lx left_x) _ (stick-other lx ry left_x refl)
      ∙ skip ry (stick unit ly left_y) _ (stick-other ly ry left_y refl)
      ∙ skip ry (stick unit rx right_x) _ (stick-other rx ry right_x refl)
      ∙ last_of-append ry (stick unit ry right_y) (copy_x ++ (copy_y ++ rest))
      ∙ ap (λ o. or_else o (last_of ry (stick unit ry right_y)))
          (skip ry copy_x (copy_y ++ rest) (mirror-other rx ry left_x right_x refl)
            ∙ without ry copy_y rest h)
      ∙ mirror-own ry right_y left_y (last_of ry (stick unit ry right_y)) (stick-own ry right_y)

  -- An envelope's right stick, on which the robot is translated: that of the message where it is
  -- deflected, and otherwise the left stick of the message, or the right one where there is no left.
  pub control_axes-driven :
      (msg : Dict String Json)
      → let axes = control_axes unit msg in
        (last_of rx axes ≡ driven_by (get msg "right_stick_x") (get msg "left_stick_x"))
        × (last_of ry axes ≡ driven_by (get msg "right_stick_y") (get msg "left_stick_y"))
  unfolding control_axes last_of index or_else
  control_axes-driven msg =
      let left_x = get msg "left_stick_x" in
      let left_y = get msg "left_stick_y" in
      let right_x = get msg "right_stick_x" in
      let right_y = get msg "right_stick_y" in
      let triggers : List (Axis × Float) =
        (lt, trigger unit (get msg "lt") (get msg "btn_lt"))
        ∷ (rt, trigger unit (get msg "rt") (get msg "btn_rt"))
        ∷ [] in
      (
        driven_x left_x left_y right_x right_y triggers refl,
        driven_y left_x left_y right_x right_y triggers refl,
      )
