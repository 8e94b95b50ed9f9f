-- ===== src/Joy/Tests.antt =====
-- A gamepad whose stick is pushed: witnesses of the theorems on the driver.
use roboparty_rp_server.Prelude.{◌≤◌, none, List, [], ◌∷◌, string_eq}
use roboparty_rp_server.Joy.{negsuc, pos, Ecodes, Text, Call, sets_button, sets_axis, run}
use roboparty_rp_server.Joy.Shown.{shown_abs}
use roboparty_rp_server.Joy.Rest.{opened, size, run-init-range}

-- The codes of Linux.
abbrev linux : Ecodes
linux = record {
  abs_x = 0;
  abs_y = 1;
  abs_rx = 3;
  abs_ry = 4;
  abs_z = 2;
  abs_rz = 5;
  btn_south = 304;
  btn_east = 305;
  btn_north = 307;
  btn_west = 308;
  btn_tl = 310;
  btn_tr = 311;
  btn_tl2 = 312;
  btn_tr2 = 313;
  btn_thumbl = 317;
  btn_thumbr = 318;
  btn_dpad_up = 544;
  btn_dpad_down = 545;
  btn_dpad_left = 546;
  btn_dpad_right = 547;
  btn_start = 315;
  btn_select = 314;
  btn_mode = 316;
  btn_trigger_happy = 704;
}

abbrev plain : Text
plain = record { lower = λ s. s; strip = λ s. s; behind_btn = λ s. none; int_of = λ s. none }

-- Thousandths.
abbrev pushed : List Call
pushed = sets_axis "lx" (pos 2000) ∷ sets_button "a" "down" ∷ sets_axis "ly" (negsuc 499) ∷ []

run-init-range_example :
    size 1000 linux plain
      (shown_abs 0 (run 1000 linux plain pushed (opened 1000 linux plain)).events)
    ≤ 32767
run-init-range_example = run-init-range 1000 linux plain pushed 0
