-- ===== src/Gateway/Relay.antt =====
-- What the gateway passes on: what was read from the link, decoded, in its order.
use mathlib.Core.List.{append_assoc, append-nil}
use roboparty_rp_server.Prelude.{
  ℕ, ◌≡◌, refl, sym, ap, ◌∙◌, subst, Bool, true, false, Option, none, some, List, [], ◌∷◌, ◌++◌,
  if◌then◌else◌,
}
use roboparty_rp_server.Codec.{Proto, Status, waiting, raised, out_of_fuel, Fed, feed}
use roboparty_rp_server.Codec.Feed.{feed_at_once, feed-ne-out_of_fuel, resume}
use roboparty_rp_server.Codec.RoundTrip.{feed-empty}
use roboparty_rp_server.Gateway.{
  Text, acquired, lost, other_text, Phase, reading, sending, ended, waits, ToServer, acquires,
  beats, releases, commands, Gateway, Event, proceeds, times_out, fails, ticks, link_data, frame,
  told, send, begin, finish, fed_on, pass_on, next, awake, proceed, take_data, woken, hear, relay,
  tick, time_out, act, step_at, step, run,
}

pub commands_of : {Envelope : Type 0} → List (ToServer Envelope) → List Envelope
commands_of [] = []
commands_of (commands e ∷ ms) = e ∷ commands_of ms
commands_of (_ ∷ ms) = commands_of ms

commands_of-append :
    {Envelope : Type 0} (ms ms' : List (ToServer Envelope))
    → commands_of (ms ++ ms') ≡ commands_of ms ++ commands_of ms'
unfolding commands_of
commands_of-append [] ms' = refl
commands_of-append (commands e ∷ ms) ms' = ap (λ es. e ∷ es) (commands_of-append ms ms')
commands_of-append (acquires ∷ ms) ms' = commands_of-append ms ms'
commands_of-append (beats ∷ ms) ms' = commands_of-append ms ms'
commands_of-append (releases ∷ ms) ms' = commands_of-append ms ms'

module _ (p : Proto) (max_size : ℕ) where
  open p use {Envelope, parse}

  -- The loop only reads where it has nothing pending and no error.
  abbrev IsClear : Phase → List Envelope → Status → Type 0
  IsClear reading pending status = (pending ≡ []) × (status ≡ waiting)
  IsClear _ pending status = Unit {0}

  abbrev Decoded : List ℕ → List Envelope → List ℕ → Status → Type 0
  Decoded read es buffer status =
      feed p max_size [] read ≡ record { envelopes = es; buffer = buffer; status = status }

  abbrev Relays : Gateway p → Type 0
  Relays g =
      Decoded g.read (commands_of g.sent ++ g.pending) g.buffer g.status
      × IsClear g.phase g.pending g.status

  -- A message that is no command.
  abbrev IsQuiet : ToServer Envelope → Type 0
  IsQuiet m = commands_of (m ∷ []) ≡ []

  quiet-commands :
      (m : ToServer Envelope) (ms : List (ToServer Envelope))
      → IsQuiet m
      → commands_of (ms ++ (m ∷ [])) ≡ commands_of ms
  quiet-commands m ms quiet =
      commands_of-append ms (m ∷ []) ∙ ap (λ es. commands_of ms ++ es) quiet ∙ append-nil _

  send-Decoded :
      (m : ToServer Envelope) (g : Gateway p)
      → IsQuiet m
      → Decoded g.read (commands_of g.sent ++ g.pending) g.buffer g.status
      → Decoded g.read (commands_of (g.sent ++ (m ∷ [])) ++ g.pending) g.buffer g.status
  send-Decoded m g quiet h =
      subst (λ es. Decoded g.read (es ++ g.pending) g.buffer g.status)
        (sym (quiet-commands m g.sent quiet)) h

  woken-IsClear :
      (ph : Phase) (pending : List Envelope) (s : Status)
      → IsClear ph pending s
      → IsClear (woken p ph) pending s
  unfolding woken
  woken-IsClear reading pending s clear = clear
  woken-IsClear sending pending s clear = tt
  woken-IsClear ended pending s clear = tt
  woken-IsClear (waits b) pending s clear = tt

  if-Relays : (b : Bool) (g g' : Gateway p) → Relays g → Relays g' → Relays (if b then g else g')
  if-Relays true g g' h k = h
  if-Relays false g g' h k = k

  -- Only the decoding matters where the loop does not read.
  abbrev Holds : Gateway p → Type 0
  Holds g = Decoded g.read (commands_of g.sent ++ g.pending) g.buffer g.status

  finish-Relays : (g : Gateway p) → Holds g → Relays (finish p g)
  unfolding finish send commands_of
  finish-Relays g h =
      if-Relays g.lease (record (send p releases g) { phase = ended }) (record g { phase = ended })
        (send-Decoded releases g refl h, tt) (h, tt)

  pass_on-Relays :
      (e : Envelope) (es : List Envelope) (g : Gateway p)
      → g.pending ≡ e ∷ es
      → Holds g
      → Relays (pass_on p e es g)
  unfolding pass_on send commands_of
  pass_on-Relays e es g is_next h =
      let moved : commands_of g.sent ++ g.pending
          ≡ commands_of (g.sent ++ (commands e ∷ [])) ++ es =
        ap (λ rest. commands_of g.sent ++ rest) is_next
        ∙ sym (append_assoc (commands_of g.sent) (e ∷ []) es)
        ∙ ap (λ out. out ++ es) (sym (commands_of-append g.sent (commands e ∷ []))) in
      (subst (λ es. Decoded g.read es g.buffer g.status) moved h, tt)

  fed_on-Relays :
      (s : Status) (g : Gateway p) → g.status ≡ s → g.pending ≡ [] → Holds g → Relays (fed_on p s g)
  unfolding fed_on
  fed_on-Relays waiting g is_status none_left h = (h, (none_left, is_status))
  fed_on-Relays (raised e) g is_status none_left h = finish-Relays g h
  fed_on-Relays out_of_fuel g is_status none_left h =
      elim (feed-ne-out_of_fuel p max_size [] g.read
        (ap (λ (r : Fed p). r.status) h ∙ is_status)) [ ]

  next-Relays :
      (es : List Envelope) (g : Gateway p) → g.pending ≡ es → Holds g → Relays (next p es g)
  unfolding next send commands_of
  next-Relays [] g left h = fed_on-Relays g.status g refl left h
  next-Relays (e ∷ es) g left h =
      if-Relays g.lease (pass_on p e es g) (record (send p acquires g) { phase = waits false })
        (pass_on-Relays e es g left h) (send-Decoded acquires g refl h, tt)

  awake-Relays :
      (es : List Envelope) (g : Gateway p) → g.pending ≡ es → Holds g → Relays (awake p es g)
  unfolding awake
  awake-Relays [] g left h = fed_on-Relays g.status g refl left h
  awake-Relays (e ∷ es) g left h = pass_on-Relays e es g left h

  proceed-Relays : (ph : Phase) (g : Gateway p) → Relays g → Relays (proceed p ph g)
  unfolding proceed
  proceed-Relays sending g (h, _) = next-Relays g.pending g refl h
  proceed-Relays (waits true) g (h, _) = awake-Relays g.pending g refl h
  proceed-Relays (waits false) g h = h
  proceed-Relays reading g h = h
  proceed-Relays ended g h = h

  read-Holds :
      (bytes : List ℕ) (g : Gateway p)
      → Holds g
      → g.pending ≡ []
      → g.status ≡ waiting
      → let r = feed p max_size g.buffer bytes in
        Decoded (g.read ++ bytes) (commands_of g.sent ++ r.envelopes) r.buffer r.status
  read-Holds bytes g h none_left is_waiting =
      let r = feed p max_size g.buffer bytes in
      let the_rest : List Envelope → List ℕ → Status → Fed p =
        λ es buffer s. record { envelopes = es; buffer = buffer; status = s } in
      let before : Decoded g.read (commands_of g.sent) g.buffer waiting =
        h
        ∙ ap (λ es. the_rest (commands_of g.sent ++ es) g.buffer g.status) none_left
        ∙ ap (λ es. the_rest es g.buffer g.status) (append-nil (commands_of g.sent))
        ∙ ap (λ s. the_rest (commands_of g.sent) g.buffer s) is_waiting in
      feed_at_once p max_size [] g.read bytes ∙ ap (λ (r : Fed p). resume p max_size r bytes) before

  take_data-Relays :
      (ph : Phase) (bytes : List ℕ) (g : Gateway p)
      → g.phase ≡ ph
      → Relays g
      → Relays (take_data p ph max_size bytes g)
  unfolding take_data
  take_data-Relays reading [] g is_reading (h, clear) = finish-Relays g h
  take_data-Relays reading (b ∷ bs) g is_reading (h, clear) =
      let (none_left, is_waiting) = subst (λ ph. IsClear ph g.pending g.status) is_reading clear in
      (read-Holds (b ∷ bs) g h none_left is_waiting, tt)
  take_data-Relays sending bytes g is_reading h = h
  take_data-Relays (waits b) bytes g is_reading h = h
  take_data-Relays ended bytes g is_reading h = h

  hear-Relays : (t : Text) (g : Gateway p) → Relays g → Relays (hear p t g)
  unfolding hear woken
  hear-Relays acquired g (h, clear) = (h, woken-IsClear g.phase g.pending g.status clear)
  hear-Relays lost g h = h
  hear-Relays other_text g h = h

  relay-Relays : (o : Option Envelope) (g : Gateway p) → Relays g → Relays (relay p o g)
  unfolding relay
  relay-Relays none g h = h
  relay-Relays (some e) g h = h

  tick-Relays : (g : Gateway p) → Relays g → Relays (tick p g)
  unfolding tick send commands_of
  tick-Relays g (h, clear) =
      if-Relays g.lease (send p beats g) g (send-Decoded beats g refl h, clear) (h, clear)

  time_out-Relays : (ph : Phase) (g : Gateway p) → Relays g → Relays (time_out p ph g)
  unfolding time_out
  time_out-Relays (waits false) g (h, _) = finish-Relays g h
  time_out-Relays (waits true) g h = h
  time_out-Relays reading g h = h
  time_out-Relays sending g h = h
  time_out-Relays ended g h = h

  act-Relays : (ev : Event p) (g : Gateway p) → Relays g → Relays (act p max_size ev g)
  unfolding act
  act-Relays proceeds g h = proceed-Relays g.phase g h
  act-Relays (link_data bytes) g h = take_data-Relays g.phase bytes g refl h
  act-Relays (told t) g h = hear-Relays t g h
  act-Relays (frame bytes) g h = relay-Relays (parse bytes) g h
  act-Relays ticks g h = tick-Relays g h
  act-Relays times_out g h = time_out-Relays g.phase g h
  act-Relays fails g (h, _) = finish-Relays g h

  step_at-Relays :
      (ph : Phase) (ev : Event p) (g : Gateway p) → Relays g → Relays (step_at p ph max_size ev g)
  unfolding step_at
  step_at-Relays ended ev g h = h
  step_at-Relays reading ev g h = act-Relays ev g h
  step_at-Relays sending ev g h = act-Relays ev g h
  step_at-Relays (waits b) ev g h = act-Relays ev g h

  run-Relays : (evs : List (Event p)) (g : Gateway p) → Relays g → Relays (run p max_size evs g)
  unfolding run step
  run-Relays [] g h = h
  run-Relays (ev ∷ evs) g h =
      run-Relays evs (step_at p g.phase max_size ev g) (step_at-Relays g.phase ev g h)

  begin-Relays : Relays (begin p)
  unfolding begin commands_of
  begin-Relays = (feed-empty p max_size, tt)

  -- After any interleaving of what the tasks of a link meet: the commands that were sent to the
  -- server, with the envelopes that are not sent yet behind them, are what one decoder makes of all
  -- bytes that were read from the link, in its order; and so are what it has left over and its error.
  pub run-begin-decoded :
      (evs : List (Event p))
      → let g = run p max_size evs (begin p) in
        feed p max_size [] g.read ≡ record {
          envelopes = commands_of g.sent ++ g.pending;
          buffer = g.buffer;
          status = g.status;
        }
  run-begin-decoded evs = (run-Relays evs (begin p) begin-Relays).0
