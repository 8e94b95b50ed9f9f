-- ===== src/Gateway/Tests.antt =====
-- A link that sends a frame in two pieces: the witness of the theorem on the gateway.
use roboparty_rp_server.Prelude.{◌≡◌, List, [], ◌∷◌, ◌++◌}
use roboparty_rp_server.Codec.{feed}
use roboparty_rp_server.Codec.Tests.{raw}
use roboparty_rp_server.Gateway.{
  acquired, lost, Event, proceeds, ticks, link_data, told, begin, run,
}
use roboparty_rp_server.Gateway.Relay.{commands_of, run-begin-decoded}

abbrev session : List (Event raw)
session =
    told acquired
    ∷ proceeds
    ∷ proceeds
    ∷ link_data (2 ∷ 5 ∷ [])
    ∷ proceeds
    ∷ link_data (6 ∷ 1 ∷ 9 ∷ [])
    ∷ told lost
    ∷ proceeds
    ∷ ticks
    ∷ told acquired
    ∷ proceeds
    ∷ []

run-begin-decoded_example :
    let g = run raw 64 session (begin raw) in
    feed raw 64 [] g.read
    ≡ record { envelopes = commands_of g.sent ++ g.pending; buffer = g.buffer; status = g.status }
run-begin-decoded_example = run-begin-decoded raw 64 session
