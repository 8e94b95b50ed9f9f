-- ===== src/Handler/Tests.antt =====
-- A stick that is pushed, and a reset: the witness of the theorem on the commands.
use roboparty_rp_server.Prelude.{ℕ, ◌+◌, true, none, some, List, [], ◌∷◌}
use roboparty_rp_server.Joy.{pos, Ecodes, Text}
use roboparty_rp_server.Joy.Rest.{Rests, opened}
use roboparty_rp_server.Handler.{Enums, Body, joystick, button, reset, Drivers, handle}
use roboparty_rp_server.Handler.Held.{Held, handle_all, handle-reset}

abbrev pub numbers : Ecodes
numbers = record {
  abs_x = 0;
  abs_y = 1;
  abs_rx = 3;
  abs_ry = 4;
  abs_z = 2;
  abs_rz = 5;
  btn_south = 10;
  btn_east = 11;
  btn_north = 12;
  btn_west = 13;
  btn_tl = 14;
  btn_tr = 15;
  btn_tl2 = 16;
  btn_tr2 = 17;
  btn_thumbl = 18;
  btn_thumbr = 19;
  btn_dpad_up = 20;
  btn_dpad_down = 21;
  btn_dpad_left = 22;
  btn_dpad_right = 23;
  btn_start = 24;
  btn_select = 25;
  btn_mode = 26;
  btn_trigger_happy = 100;
}

abbrev pub plain : Text
plain = record { lower = λ s. s; strip = λ s. s; behind_btn = λ s. none; int_of = λ s. none }

abbrev pub enums : Enums
enums = record {
  axis_unspecified = 0;
  axis_full = λ v. some "AXIS_LX";
  axis_short = λ s. "lx";
  button_unspecified = 0;
  button_num_0 = 100;
  button_num_15 = 115;
  button_full = λ v. some "BUTTON_A";
  button_short = λ s. "a";
  btn_numbered = λ v. "btn_0";
  state_down = 1;
}

-- A policy that counts its stops, and motors that cannot be cleared.
abbrev drivers : Drivers
drivers = record {
  State = ℕ;
  start = λ name s. (some true, s);
  stop = λ s. (some (some true), s + 1);
  running = λ s. true;
  clear_errors = λ s. (none, s);
}

abbrev pushed : List (Body ℕ)
pushed =
    joystick (record { axis = 1; value = pos 700 })
    ∷ button (record { button = 1; state = 1; id = 9 })
    ∷ []

handle-reset_example :
    let (j, s') =
      handle_all 1000 numbers plain enums drivers ℕ pushed (opened 1000 numbers plain, 0) in
    Held 1000 numbers plain enums j
    × Rests 1000 numbers plain (handle 1000 numbers plain enums drivers ℕ reset j s').1 0
handle-reset_example = handle-reset 1000 numbers plain enums drivers ℕ pushed 0 0
