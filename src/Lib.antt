-- ===== src/Lib.antt =====
-- Verification of the RoboParty RP server (src/rp_server), a gateway between apps and a robot.
--
-- The parts, and the files that model them:
-- * The wire codec, src/rp_server/protocol/codec.py, is Codec.antt: `_encode_varint` is
--   `encode_varint`, `StreamDecoder._read_varint` is `read_varint`, `StreamDecoder.feed` is `feed`
--   on the decoder's buffer (its loop is `feed_loop`, one round `feed_round`), `frame_stream`,
--   `frame_udp` and `unframe_udp` keep their names. Proofs: Codec/Varint, Codec/Rounds, Codec/Feed,
--   Codec/RoundTrip, Codec/Udp.
-- * Control ownership, src/rp_server/protocol/control_lease.py, is Lease.antt: the object
--   `ControlLease` is the record `Lease`, and each coroutine is a transition of it under the name
--   that it has there (`_expire` is `expire_locked`, `_stop` is `stop_shielded`; the parts of
--   `acquire` and `dispatch` behind `_expire` are `claim` and `command`). Proofs: Lease/Expiry,
--   Lease/Safety, Lease/Latch, Lease/Dispatch, Lease/Ownership.
-- * The UDP link, src/rp_server/auth/udp_auth.py, src/rp_server/auth/udp_session.py and
--   src/rp_server/transport/udp_listener.py, is Udp/Auth.antt, Udp/Session.antt and
--   Udp/Listener.antt: `UDPAuthenticator`, `SessionManager` and `UDPJoyListener` are the records
--   `Auth`, `SessionManager` and `Listener`, and each method is a function on them under its own
--   name (without a leading underscore). Proofs: Udp/Auth/Tokens, Udp/Session/Cleanup,
--   Udp/Session/Keeps, Udp/Listener/Guards, Udp/Listener/Commands, Udp/Listener/Stale,
--   Udp/Listener/Replay.
-- * The policy driver, src/rp_server/drivers/policy.py, is Policy.antt (what it knows of a process)
--   and Policy/Driver.antt (`PolicyDriver`): `start`, `stop`, `state` keep their names, `_watch` is
--   `report`, and a wait in which it may report is `pause`. Proofs: Policy/Driver/Start,
--   Policy/Driver/Stop, Policy/Driver/Settled.
-- * Pairing of apps, src/rp_server/auth/pairing.py, is Pairing.antt: `PairingManager` is the record
--   `Pairing`; `register` is split where it has found the code (`redeem`) and read the key
--   (`store_app`). The credentials of requests, src/rp_server/auth/access.py with `has_scope` of
--   src/rp_server/auth/app_auth.py, are Access.antt. Proofs: Pairing/Register, Pairing/History,
--   Access/Scopes.
-- * The control connections, src/rp_server/transport/ws_server.py, are Web.antt (what is checked and
--   sent), Web/Guard.antt (`guarded_dispatch`, `lease_message`), Web/Session.antt (the loops of `/ws`
--   and `/ws-json` behind the credential: `receive` and `receive_json`; `session_watchdog` is `tick`,
--   the `finally` blocks are `leave`), Web/Handshake.antt (the credential: `enter_ws`, `enter_json`)
--   and Web/Events.antt (their interleavings). `lease`, `lease_holders` and the open sockets of
--   `create_app` are the record `Server`. Proofs: Web/Guard/Commands, Web/Session/Revoked,
--   Web/Handshake, and Web/Own with Owners below Guard, Session and Events.
-- * The messages of `/ws-json`, src/rp_server/transport/json_gateway.py, are Json.antt: the axes and
--   buttons of `control_envelope` are `control_axes` and `control_buttons`. Proofs: Json/Ranges,
--   Json/Sticks.
-- * The HTTP requests of the same file are Routes.antt: `authorize_http` is `handle`, `pair_code`,
--   `pair_register` and `pair_revoke` are `handle_code`, `handle_register` and `handle_revoke`, and
--   `pairing` with `pair_attempts` is the record `Site`. Proofs: Routes/Limits, Routes/Local,
--   Pairing/Idle.
-- * The gateway from another link, src/rp_server/gateway.py, is Gateway.antt: `_serve` and its tasks
--   `_send`, `_recv` and `_heartbeat` are steps on the record `Gateway` (`_send` is `take_data` and
--   `proceed`, `_recv` is `hear` and `relay`). Proofs: Gateway/Relay. The link over Bluetooth,
--   src/rp_server/ble_gatt.py, is Ble.antt: `BleLink` with its queues, `_BleWriter.write` as `write`
--   and `_flush` as `flush`. Proofs: Ble/Queues, Ble/Delivery.
-- * The upload of logs, src/rp_server/log_upload.py, is Spool.antt: `LogSpool` is the record
--   `Spool`, its methods keep their names without a leading underscore, and a round of `_run_loop`
--   is `upload_round`, between whose read of a batch and whose end other threads emit events. Proofs:
--   Spool/Rows, Spool/Sound, Spool/Meanwhile, Spool/Settle, Spool/Rounds.
-- * The gamepad, src/rp_server/drivers/joy.py, is Joy.antt: `JoyDriver` is the record `Joy` with
--   the events that are written to uinput; its methods keep their names, `_resolve_btn` is
--   `resolve_btn`. Proofs: Joy/Shown, Joy/Rest, Joy/Held.
-- * The commands of an envelope, src/rp_server/protocol/handler.py with the names of
--   src/rp_server/protocol/enums.py, are Handler.antt: each method of `CommandHandler` is a function
--   on the gamepad (`_apply_joystick` is `apply_joystick`, `_control` is `apply_control`, `_policy`
--   is `command_policy`, `_reset` is `reset_all`). Proofs: Handler/Held.
-- * The composition of `create_app`, the lease on the handler with the gamepad and the policy behind
--   the connections, is Robot.antt. Proofs: Lease/Idle (a device that nobody commands), Robot/Idle,
--   Robot/Served, and Reach below Web/Guard, Web/Session and Web/Events (the lease of the server).
-- * The buttons on the CAN bus, src/rp_server/transport/can_joy_listener.py, are Can.antt:
--   `CANJoyListener` is the record `CanJoyListener`, its `_click_loop` with `_click_lb` is `click`,
--   their cancellation `cancel`. Proofs: Can/Clicks.
-- * The recorder of policy runs, src/rp_server/monitors/segment.py, is Segment.antt (its callers'
--   side) and Segment/Thread.antt (a round of `_run` is `round`, `_on_lifecycle` is
--   `take_lifecycle`): `SegmentRecorder` is the record `Recorder`. Proofs: Segment/Thread/Trace,
--   Segment/Thread/Drain, Segment/Thread/History.
-- Prelude.antt and the files below it hold what these share: Boolean tests, lists over the native
-- numbers, masks as arithmetic, Python's `dict` as an association list in insertion order.
--
-- How they interact: a transport decodes bytes to an `Envelope` with the codec; the lease
-- decides whether its session may have it handled; the handler passes it on to the drivers. The
-- lease takes the handler and the drivers as the record `Device` of the calls that it makes on
-- them. The connections call `AccessPolicy.verify` of Access.antt, on the pairings of
-- Pairing.antt, before the lease of Lease.antt, and each step of theirs is a call of these
-- models. Robot.antt puts the gamepad and the handler under that lease, so that what holds of
-- the connections holds of the robot. The gateway is a client of these connections, and hands
-- the bytes that it writes to the queues of Ble.antt.
--
-- Parameters. The generated protobuf class is the record `Proto`, and `RoundTrips` what protobuf
-- documents of it. HMAC, JWT and the reading of public keys are functions, and so are the string
-- methods whose outcome no theorem needs to know. The monotonic clock is a function from the
-- number of the call to its reading, so that each call of `self.now()` is a reading of its own.
-- Floating-point times are whole milliseconds, and the values of the gamepad whole fractions of
-- one; only Json.antt has infinities and NaN. The kind of an envelope, which protobuf's
-- `WhichOneof` and its fields say, is a function of the command; the check of a signature and
-- the issue of a token are functions. Robot/Served.antt asks of the kinds that only a query
-- counts as one, which is how the server tells them apart.
--
-- Bounds and fuel. `encode_varint` recurs on the accessibility of its value. The loop of `feed`
-- is bounded by the length of the buffer plus one, which is enough since each round that goes on
-- takes a byte. A varint has at most ten bytes, so a round trip needs lengths below 2 ^ 70. The
-- slices of a write over Bluetooth are bounded by its bytes, since none is empty. A loop over
-- requests, events or calls is over a list of them.
--
-- The authenticator, the listener and the policy driver take what a call reads (clocks, random
-- values, what a process does meanwhile) as arguments, and what they do to the world is a list.
--
-- Not modelled: a write of the segment recorder that raises; logging, sockets, subprocesses,
-- uinput and the CAN bus themselves; a handler that raises under a click of the CAN bus; the
-- routes of ws_server that only read; a coroutine of the lease that is cancelled more than once while it waits for a stop.
mod Prelude
pub mod Codec
pub mod Lease
pub mod Udp
pub mod Policy
pub mod Pairing
pub mod Access
pub mod Spool
pub mod Web
pub mod Segment
pub mod Joy
pub mod Handler
pub mod Robot
pub mod Routes
pub mod Gateway
pub mod Ble
pub mod Json
pub mod Can
