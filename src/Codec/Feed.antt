-- ===== src/Codec/Feed.antt =====
-- `StreamDecoder.feed` on arbitrary bytes: it ends, it may be fed in pieces, and some errors last.
use mathlib.Core.List.{append_assoc}
use roboparty_rp_server.Prelude.{
  ℕ, zero, suc, ◌<◌, ◌≡◌, ◌≢◌, refl, sym, ap, ◌∙◌, inl, inr, List, [], ◌∷◌, ◌++◌, length,
  length-append, arith,
}
use roboparty_rp_server.Codec.{
  Proto, FrameError, fail, Status, waiting, raised, out_of_fuel, Fed, prepend, feed_round,
  feed_loop, feed,
}
use roboparty_rp_server.Codec.Rounds.{
  IsLasting, feed_round_lasting, feed_round-append, feed_round_shrinks, Round-cases,
}

module _ (p : Proto) (max_size : ℕ) where
  open p use {Envelope, serialize, parse}

  -- Fuel above the length of the buffer is as good as any other.
  pub feed_loop_fuel :
      (n m : ℕ) (buf : List ℕ)
      → length buf < n
      → length buf < m
      → feed_loop p max_size n buf ≡ feed_loop p max_size m buf
  unfolding feed_loop
  feed_loop_fuel zero m buf hn hm = elim hn [ ]
  feed_loop_fuel (suc n) zero buf hn hm = elim hm [ ]
  feed_loop_fuel (suc n) (suc m) buf hn hm =
      elim (Round-cases p max_size (feed_round p max_size buf)) [
        | inl e ↦ rw (e, feed_loop)
        | inr (inl (x, rest, e)) ↦ rw (e, feed_loop)
        | inr (inr (x, rest, e)) ↦
            rw (e, feed_loop)
              (ap (prepend p (x ∷ [])) (
                feed_loop_fuel n m rest (omega (arith, feed_round_shrinks p max_size buf x rest e))
                  (omega (arith, feed_round_shrinks p max_size buf x rest e))))
      ]

  feed_loop-ne-out_of_fuel :
      (n : ℕ) (buf : List ℕ) → length buf < n → (feed_loop p max_size n buf).status ≢ out_of_fuel
  unfolding feed_loop
  feed_loop-ne-out_of_fuel zero buf hn = elim hn [ ]
  feed_loop-ne-out_of_fuel (suc n) buf hn =
      elim (Round-cases p max_size (feed_round p max_size buf)) [
        | inl e ↦ rw (e, feed_loop) (λ h. cc)
        | inr (inl (x, rest, e)) ↦ rw (e, feed_loop) (λ h. cc)
        | inr (inr (x, rest, e)) ↦
            rw (e, feed_loop)
              (feed_loop-ne-out_of_fuel n rest
                (omega (arith, feed_round_shrinks p max_size buf x rest e)))
      ]

  -- What one call on all the bytes comes to, where the call on those before `more` came to `r`: an
  -- error ends it there, and `more` stays in the buffer, unread.
  abbrev pub resume_at : Status → Fed p → List ℕ → Fed p
  resume_at waiting r more = prepend p r.envelopes (feed p max_size r.buffer more)
  resume_at out_of_fuel r more = r
  resume_at (raised e) r more = record r { buffer = r.buffer ++ more }

  abbrev pub resume : Fed p → List ℕ → Fed p
  resume r more = resume_at r.status r more

  resume-prepend :
      (es : List Envelope) (s : Status) (r : Fed p) (more : List ℕ)
      → resume_at s (prepend p es r) more ≡ prepend p es (resume_at s r more)
  resume-prepend es waiting r more = simp append_assoc
  resume-prepend es out_of_fuel r more = refl
  resume-prepend es (raised e) r more = refl

  pub feed_loop-append :
      (n m : ℕ) (buf more : List ℕ)
      → length buf < n
      → length (buf ++ more) < m
      → feed_loop p max_size m (buf ++ more) ≡ resume (feed_loop p max_size n buf) more
  unfolding feed_loop
  feed_loop-append zero m buf more hn hm = elim hn [ ]
  feed_loop-append (suc n) zero buf more hn hm = elim hm [ ]
  feed_loop-append (suc n) (suc m) buf more hn hm =
      elim (Round-cases p max_size (feed_round p max_size buf)) [
        | inl e ↦
            rw (e, feed_loop)
              (unfold feed in
                feed_loop_fuel (suc m) (suc (length (buf ++ more))) (buf ++ more) hm (omega arith))
        | inr (inl (x, rest, e)) ↦
            rw (e, feed_loop)
              (rw (feed_round-append p max_size buf more (λ h. cc), e, feed_loop) refl)
        | inr (inr (x, rest, e)) ↦
            rw (e, feed_loop)
              (rw (feed_round-append p max_size buf more (λ h. cc), e, feed_loop)
                (ap (prepend p (x ∷ [])) (
                    feed_loop-append n m rest more
                      (omega (arith, feed_round_shrinks p max_size buf x rest e))
                      (omega (
                        arith,
                        feed_round_shrinks p max_size buf x rest e,
                        length-append buf more,
                        length-append rest more,
                      )))
                  ∙ sym (
                      resume-prepend (x ∷ []) (feed_loop p max_size n rest).status
                        (feed_loop p max_size n rest) more)))
      ]

  -- A call of `feed` ends: its loop never runs out of fuel, whatever the bytes.
  pub feed-ne-out_of_fuel : (buf new : List ℕ) → (feed p max_size buf new).status ≢ out_of_fuel
  unfolding feed
  feed-ne-out_of_fuel buf new =
      feed_loop-ne-out_of_fuel (suc (length (buf ++ new))) (buf ++ new) (omega arith)

  pub feed_at_once :
      (buf first second : List ℕ)
      → feed p max_size buf (first ++ second) ≡ resume (feed p max_size buf first) second
  unfolding feed
  feed_at_once buf first second = rw (← append_assoc) (
      feed_loop-append (suc (length (buf ++ first))) (suc (length ((buf ++ first) ++ second)))
        (buf ++ first) second (omega arith) (omega arith))

  -- Feeding bytes in two pieces, where the first raises nothing, is feeding them at once: the
  -- envelopes of the one call are those of the first and then those of the second, and it leaves the
  -- same buffer and ends the same way, in an error too.
  pub feed-append :
      (buf first second : List ℕ)
      → (feed p max_size buf first).status ≡ waiting
      → feed p max_size buf (first ++ second)
        ≡ prepend p
            (feed p max_size buf first).envelopes
            (feed p max_size (feed p max_size buf first).buffer second)
  feed-append buf first second h =
      feed_at_once buf first second ∙ ap (λ s. resume_at s (feed p max_size buf first) second) h

  lasting_step :
      (buf rest : List ℕ) (x y : FrameError)
      → IsLasting x
      → feed_round p max_size buf ≡ fail y rest
      → raised y ≡ raised x
      → feed_round p max_size rest ≡ fail x rest
  lasting_step buf rest x y lasts e h =
      let same : y ≡ x = cc in
      let head : feed_round p max_size buf ≡ fail x rest = rw (← same) e in
      let back : buf ≡ rest = feed_round_lasting p max_size buf rest x lasts head in
      rw (← back) (rw (← back) at head)

  feed_loop_lasting :
      (n : ℕ) (buf : List ℕ) (x : FrameError)
      → IsLasting x
      → (feed_loop p max_size n buf).status ≡ raised x
      → feed_round p max_size (feed_loop p max_size n buf).buffer
        ≡ fail x (feed_loop p max_size n buf).buffer
  unfolding feed_loop
  feed_loop_lasting zero buf x lasts = λ h. cc
  feed_loop_lasting (suc n) buf x lasts =
      elim (Round-cases p max_size (feed_round p max_size buf)) [
        | inl e ↦ rw (e, feed_loop) (λ h. cc)
        | inr (inl (y, rest, e)) ↦ rw (e, feed_loop) (λ h. lasting_step buf rest x y lasts e h)
        | inr (inr (y, rest, e)) ↦ rw (e, feed_loop) (λ h. feed_loop_lasting n rest x lasts h)
      ]

  feed_lasting :
      (n : ℕ) (buf more : List ℕ) (x : FrameError)
      → feed_round p max_size buf ≡ fail x buf
      → feed_loop p max_size (suc n) (buf ++ more)
        ≡ record { envelopes = []; buffer = buf ++ more; status = raised x }
  unfolding feed_loop
  feed_lasting n buf more x e =
      rw (feed_round-append p max_size buf more (λ h. cc), e, feed_loop) refl

  -- After a frame above the limit, or a varint of more than ten bytes, the decoder is stuck for
  -- good: each later call raises the same error, yields nothing, and only lengthens the buffer.
  pub feed_lasts :
      (buf new more : List ℕ) (x : FrameError)
      → IsLasting x
      → (feed p max_size buf new).status ≡ raised x
      → feed p max_size (feed p max_size buf new).buffer more ≡ record {
        envelopes = [];
        buffer = (feed p max_size buf new).buffer ++ more;
        status = raised x;
      }
  unfolding feed
  feed_lasts buf new more x lasts h =
      let left = (feed p max_size buf new).buffer in
      feed_lasting (length (left ++ more)) left more x
        (feed_loop_lasting (suc (length (buf ++ new))) (buf ++ new) x lasts h)
