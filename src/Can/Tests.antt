-- ===== src/Can/Tests.antt =====
-- Two frames, one of them too soon, and a stop while the button is pressed: the witness of the
-- theorem on clicks.
use roboparty_rp_server.Prelude.{ℕ, ◌≡◌, List, [], ◌∷◌}
use roboparty_rp_server.Can.{idle, Event, receives, clicks, stop, run, create}
use roboparty_rp_server.Can.Clicks.{Clicked, run-create-Clicked}

abbrev payload : List ℕ
payload = 1 ∷ 0 ∷ 1 ∷ 170 ∷ 0 ∷ 0 ∷ 0 ∷ 0 ∷ []

abbrev bus_frame : List ℕ
bus_frame = 3 ∷ 0 ∷ 0 ∷ 0 ∷ 8 ∷ 0 ∷ 0 ∷ 0 ∷ payload

abbrev presses : List Event
presses =
    receives 1000 bus_frame
    ∷ receives 1020 bus_frame
    ∷ clicks
    ∷ receives 1060 bus_frame
    ∷ clicks
    ∷ clicks
    ∷ []

run-create-Clicked_example :
    let l = run presses (create 3 (payload ∷ [])) in
    Clicked l × ((stop l).phase ≡ idle) × Clicked (stop l)
run-create-Clicked_example = run-create-Clicked 3 (payload ∷ []) presses
