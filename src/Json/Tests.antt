-- ===== src/Json/Tests.antt =====
-- A message with NaN, and one whose right stick rests: witnesses of the theorems on messages.
use roboparty_rp_server.Prelude.{◌≡◌, true, false, String, none, [], ◌∷◌, string_eq}
use roboparty_rp_server.Prelude.Dict.{Dict, get}
use roboparty_rp_server.Joy.{pos, negsuc}
use roboparty_rp_server.Json.{nan, val, Json, number, bool, text, rx, ry, control_axes}
use roboparty_rp_server.Json.Ranges.{AllInRange, control_axes-AllInRange}
use roboparty_rp_server.Json.Sticks.{last_of, driven_by, control_axes-driven}

abbrev message : Dict String Json
message =
    ("left_stick_x", number nan)
    ∷ ("left_stick_y", number (val (pos 400)))
    ∷ ("right_stick_x", number (val (negsuc 2000)))
    ∷ ("right_stick_y", text none false)
    ∷ ("lt", number (val (pos 250)))
    ∷ ("btn_rt", bool true)
    ∷ []

control_axes-AllInRange_example : AllInRange 999 (control_axes 1000 message)
control_axes-AllInRange_example = control_axes-AllInRange 999 message

control_axes-driven_example :
    let axes = control_axes 1000 message in
    (last_of rx axes ≡ driven_by 1000 (get message "right_stick_x") (get message "left_stick_x"))
    × (last_of ry axes ≡ driven_by 1000 (get message "right_stick_y") (get message "left_stick_y"))
control_axes-driven_example = control_axes-driven 1000 message
