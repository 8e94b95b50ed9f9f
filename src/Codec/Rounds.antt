-- ===== src/Codec/Rounds.antt =====
-- One round of `StreamDecoder.feed`: what it decides does not depend on bytes that come later.
use roboparty_rp_server.Prelude.{
  ℕ, ◌+◌, ◌≤◌, ◌<◌, ◌≡◌, ◌≢◌, refl, ◌⊎◌, inl, inr, List, ◌++◌, Option, none, some, length, take,
  drop, length-append, length-drop, take-append, drop-append, arith,
}
use roboparty_rp_server.Prelude.Result.{Result, ok, err}
use roboparty_rp_server.Codec.{
  Proto, FrameError, too_large, varint_too_long, decode_error, Round, pause, fail, yields,
  read_varint, decode_payload, body_round, header_round, feed_round,
}
use roboparty_rp_server.Codec.Varint.{read_varint_offset, read_varint-append}

-- The errors at the head of the buffer: a size above the limit, a varint of more than ten bytes.
abbrev pub IsLasting : FrameError → Type 0
IsLasting (too_large size) = Unit {0}
IsLasting varint_too_long = Unit {0}
IsLasting decode_error = ⊥

module _ (p : Proto) (max_size : ℕ) where
  open p use {Envelope, serialize, parse}

  -- A round on a longer buffer: what was decided stays decided.
  abbrev pub extend : Round p → List ℕ → Round p
  extend pause more = pause
  extend (fail e rest) more = fail e (rest ++ more)
  extend (yields e rest) more = yields e (rest ++ more)

  decode_payload-extend :
      (o : Option Envelope) (rest more : List ℕ)
      → decode_payload p o (rest ++ more) ≡ extend (decode_payload p o rest) more
  unfolding decode_payload
  decode_payload-extend none rest more = refl
  decode_payload-extend (some e) rest more = refl

  slices-append :
      (buf more : List ℕ) (offset size : ℕ)
      → offset + size ≤ length buf
      → (take size (drop offset (buf ++ more)) ≡ take size (drop offset buf))
        × (drop (offset + size) (buf ++ more) ≡ drop (offset + size) buf ++ more)
  slices-append buf more offset size h = (
    rw (drop-append offset buf more (omega arith))
        (take-append size (drop offset buf) more (omega (arith, length-drop offset buf))),
    drop-append (offset + size) buf more h,
  )

  body_round-append :
      (buf more : List ℕ) (size offset : ℕ)
      → offset ≤ length buf
      → body_round p max_size buf size offset ≢ pause
      → body_round p max_size (buf ++ more) size offset
        ≡ extend (body_round p max_size buf size offset) more
  unfolding body_round
  body_round-append buf more size offset h decided = ground (
    arith,
    slices-append buf more offset size,
    length-append buf more,
    decode_payload-extend (parse (take size (drop offset buf))) (drop (offset + size) buf) more,
  )

  header_round-append :
      (buf more : List ℕ) (r : Result FrameError (Option (ℕ × ℕ)))
      → read_varint buf ≡ r
      → header_round p max_size buf r ≢ pause
      → header_round p max_size (buf ++ more) r ≡ extend (header_round p max_size buf r) more
  unfolding header_round
  header_round-append buf more (err e) found decided = refl
  header_round-append buf more (ok none) found decided = absurd (decided refl)
  header_round-append buf more (ok (some (size, offset))) found decided =
      body_round-append buf more size offset (read_varint_offset buf size offset found).1 decided

  pub feed_round-append :
      (buf more : List ℕ)
      → feed_round p max_size buf ≢ pause
      → feed_round p max_size (buf ++ more) ≡ extend (feed_round p max_size buf) more
  unfolding feed_round
  feed_round-append buf more decided =
      rw (read_varint-append buf more (λ e. decided (rw e (unfold header_round in refl))))
        (header_round-append buf more (read_varint buf) refl decided)

  -- A round that yields takes a byte at least.
  pub Round-cases :
      (r : Round p)
      → (r ≡ pause)
        ⊎ ((e : FrameError) × (rest : List ℕ) × (r ≡ fail e rest))
        ⊎ ((e : Envelope) × (rest : List ℕ) × (r ≡ yields e rest))
  Round-cases pause = inl refl
  Round-cases (fail e rest) = inr (inl (e, rest, refl))
  Round-cases (yields e rest) = inr (inr (e, rest, refl))

  decode_payload_rest :
      (o : Option Envelope) (back : List ℕ) {e : Envelope} {rest : List ℕ}
      → decode_payload p o back ≡ yields e rest
      → back ≡ rest
  unfolding decode_payload
  decode_payload_rest none back h = cc
  decode_payload_rest (some d) back h = cc

  header_round_shrinks :
      (buf : List ℕ) (r : Result FrameError (Option (ℕ × ℕ))) (e : Envelope) (rest : List ℕ)
      → read_varint buf ≡ r
      → header_round p max_size buf r ≡ yields e rest
      → length rest < length buf
  unfolding header_round body_round
  header_round_shrinks buf (err x) e rest found h = cc
  header_round_shrinks buf (ok none) e rest found h = cc
  header_round_shrinks buf (ok (some (size, offset))) e rest found h = ground (
    arith,
    read_varint_offset buf size offset found,
    length-drop (offset + size) buf,
    decode_payload_rest (parse (take size (drop offset buf))) (drop (offset + size) buf) {e = e}
        {rest = rest},
  )

  pub feed_round_shrinks :
      (buf : List ℕ) (e : Envelope) (rest : List ℕ)
      → feed_round p max_size buf ≡ yields e rest
      → length rest < length buf
  unfolding feed_round
  feed_round_shrinks buf e rest h = header_round_shrinks buf (read_varint buf) e rest refl h

  decode_payload-ne-fail :
      (o : Option Envelope) (back rest : List ℕ) (x : FrameError)
      → IsLasting x
      → decode_payload p o back ≢ fail x rest
  unfolding decode_payload
  decode_payload-ne-fail none back rest (too_large n) lasts h = cc
  decode_payload-ne-fail none back rest varint_too_long lasts h = cc
  decode_payload-ne-fail none back rest decode_error lasts h = lasts
  decode_payload-ne-fail (some d) back rest x lasts h = cc

  header_round_lasting :
      (buf rest : List ℕ) (r : Result FrameError (Option (ℕ × ℕ))) (x : FrameError)
      → IsLasting x
      → header_round p max_size buf r ≡ fail x rest
      → buf ≡ rest
  unfolding header_round body_round
  header_round_lasting buf rest (err e) x lasts h = cc
  header_round_lasting buf rest (ok none) x lasts h = cc
  header_round_lasting buf rest (ok (some (size, offset))) x lasts h = ground (
    arith,
    decode_payload-ne-fail (parse (take size (drop offset buf))) (drop (offset + size) buf) rest x
        lasts,
  )

  pub feed_round_lasting :
      (buf rest : List ℕ) (x : FrameError)
      → IsLasting x
      → feed_round p max_size buf ≡ fail x rest
      → buf ≡ rest
  unfolding feed_round
  feed_round_lasting buf rest x lasts h = header_round_lasting buf rest (read_varint buf) x lasts h
