-- ===== src/Spool/Rounds.antt =====
-- What any history of a spool leaves, and how rounds drain it.
use mathlib.Core.List.{append-nil, append_assoc}
use mathlib.Core.List.{append-nil, append_assoc}
use roboparty_rp_server.Prelude.{
  ℕ, zero, suc, ◌+◌, ◌≤◌, ◌<◌, ◌≡◌, refl, sym, ap, ◌∙◌, ap₂, Bool, String, List, [], ◌∷◌, ◌++◌,
  length, take, drop, nat_eq, arith, Bool-cases, length-drop, inl, inr,
}
use roboparty_rp_server.Spool.{
  Row, Spool, ids_of, ack, peek, Posted, responded, unreachable, http_error, is_final, receive,
  Arrival, emit_all, settle, upload_rows, upload_round, Call, emits, uploads, step, run,
}
use roboparty_rp_server.Spool.Rows.{Span, after, take-Span-after, select-take}
use roboparty_rp_server.Spool.Sound.{IsSound, Balanced, accounted, fail-Kept, reject-Kept}
use roboparty_rp_server.Spool.Settle.{Within, receive-Kept, ack-Within}
use roboparty_rp_server.Spool.Meanwhile.{InFlight, take-InFlight, emit_all-InFlight, emit_all-acked}

-- How many of the calls emit an event.
abbrev pub emitted : List Call → ℕ
emitted [] = 0
emitted (emits now stamp payload ∷ calls) = emitted calls + 1
emitted (uploads now stamp stopped posted meanwhile ∷ calls) = length meanwhile + emitted calls

-- How many events came in while a batch was on its way.
abbrev pub overlapping : List Call → ℕ
overlapping [] = 0
overlapping (emits now stamp payload ∷ calls) = overlapping calls
overlapping (uploads now stamp stopped posted meanwhile ∷ calls) =
    length meanwhile + overlapping calls

nil_of_length : (rs : List Row) → length rs ≤ 0 → rs ≡ []
nil_of_length [] h = refl
nil_of_length (r ∷ rs) h = absurd (omega arith)

take-drop : (n : ℕ) (rs : List Row) → take n rs ++ drop n rs ≡ rs
take-drop zero rs = refl
take-drop (suc n) [] = refl
take-drop (suc n) (r ∷ rs) = ap (◌∷◌ r) (take-drop n rs)

-- What `take` leaves nothing of has nothing to drop.
take_nil : (n : ℕ) (rs : List Row) → [] ≡ take n rs → drop n rs ≡ rs
take_nil zero rs h = refl
take_nil (suc n) [] h = refl
take_nil (suc n) (r ∷ rs) h = cc

module _ (describe : ℕ → String) (batch_size : ℕ) where
  rows_answered :
      (now : ℕ) (stamp : String) (stopped : Bool) (rows : List Row) (s : Spool)
      → rows ≡ take batch_size s.rows
      → IsSound s
      → let s' = (upload_rows describe now stamp stopped responded rows s).1 in
        (s'.rows ≡ drop batch_size s.rows) × (s'.acked ≡ s.acked ++ rows)
  unfolding upload_rows settle ack receive
  rows_answered now stamp stopped [] s e h =
      (sym (take_nil batch_size s.rows e), sym (append-nil s.acked))
  rows_answered now stamp stopped (r ∷ rs) s e h =
      (rw e (select-take batch_size (after 0 s.acked) s.next_id s.rows h.ordered), refl)

  settle-Within :
      (now : ℕ) (stamp : String) (stopped : Bool) (posted : Posted) (batch : List Row) (arrived : ℕ)
      (s : Spool)
      → InFlight batch arrived s
      → IsSound s
      → Balanced s
      → Span (after 0 s.acked) (after (after 0 s.acked) batch) batch
      → Within arrived s (settle describe now stamp stopped posted batch s).1
  unfolding settle receive
  settle-Within now stamp stopped responded batch arrived s f h b front =
      ack-Within batch arrived s f h b front
  settle-Within now stamp stopped (unreachable taken) batch arrived s f h b front =
      let (h1, b1, e1) = receive-Kept taken batch s h b in
      let (h2, b2, e2) = fail-Kept now stamp (ids_of batch) (receive taken batch s) h1 b1 in
      (h2, b2, omega (arith, e1, e2), omega (arith, e1, e2))
  settle-Within now stamp stopped (http_error code taken) batch arrived s f h b front =
      let s1 = receive taken batch s in
      let (h1, b1, e1) = receive-Kept taken batch s h b in
      elim (Bool-cases (is_final code)) [
        | inl final ↦
            let (h2, b2, e2) = reject-Kept now stamp (ids_of batch) (describe code) s1 h1 b1 in
            rw final (h2, b2, omega (arith, e1, e2), omega (arith, e1, e2))
        | inr other ↦
            let (h2, b2, e2) = fail-Kept now stamp (ids_of batch) s1 h1 b1 in
            rw other (h2, b2, omega (arith, e1, e2), omega (arith, e1, e2))
      ]

  upload_rows-Within :
      (now : ℕ) (stamp : String) (stopped : Bool) (posted : Posted) (batch : List Row) (arrived : ℕ)
      (s : Spool)
      → InFlight batch arrived s
      → IsSound s
      → Balanced s
      → Span (after 0 s.acked) (after (after 0 s.acked) batch) batch
      → Within arrived s (upload_rows describe now stamp stopped posted batch s).1
  unfolding upload_rows
  upload_rows-Within now stamp stopped posted [] arrived s f h b front =
      (h, b, omega arith, omega arith)
  upload_rows-Within now stamp stopped posted (r ∷ rs) arrived s f h b front =
      settle-Within now stamp stopped posted (r ∷ rs) arrived s f h b front

  upload_round-Within :
      (now : ℕ) (stamp : String) (stopped : Bool) (posted : Posted) (meanwhile : List Arrival)
      (s : Spool)
      → IsSound s
      → Balanced s
      → let s' = (upload_round describe now stamp batch_size stopped posted meanwhile s).1 in
        IsSound s'
        × Balanced s'
        × (accounted s + length meanwhile ≤ accounted s')
        × (accounted s' ≤ (accounted s + length meanwhile) + length meanwhile)
  unfolding upload_round peek
  upload_round-Within now stamp stopped posted meanwhile s h b =
      let batch = take batch_size s.rows in
      let (front, _) = take-Span-after batch_size (after 0 s.acked) s.next_id s.rows h.ordered in
      let (h1, b1, count, f) =
        emit_all-InFlight meanwhile batch 0 s h b (take-InFlight batch_size s h) in
      let same = emit_all-acked meanwhile s in
      let (h2, b2, low, high) =
        upload_rows-Within now stamp stopped posted batch (0 + length meanwhile)
          (emit_all meanwhile s) f h1 b1 (rw same front) in
      (h2, b2, omega (arith, count, low), omega (arith, count, high))

  -- A round that the server answers takes a batch off the rows.
  upload_answered :
      (now : ℕ) (stamp : String) (stopped : Bool) (s : Spool)
      → IsSound s
      → let s' = (upload_round describe now stamp batch_size stopped responded [] s).1 in
        (s'.rows ≡ drop batch_size s.rows) × (s'.acked ≡ s.acked ++ take batch_size s.rows)
  unfolding upload_round peek emit_all
  upload_answered now stamp stopped s h =
      rows_answered now stamp stopped (take batch_size s.rows) s refl h

  -- Rounds that the server answers: the clock, the time stamp and the stop flag of each.
  abbrev pub answered : List (ℕ × String × Bool) → List Call
  answered [] = []
  answered ((now, stamp, stopped) ∷ rounds) =
      uploads now stamp stopped responded [] ∷ answered rounds

  -- As many rounds that the server answers as there are queued rows, with no event coming in between,
  -- send all of them, in their order, and empty the queue.
  pub run-answered :
      (rounds : List (ℕ × String × Bool)) (s : Spool)
      → IsSound s
      → Balanced s
      → 0 < batch_size
      → length s.rows ≤ length rounds
      → let s' = run describe batch_size (answered rounds) s in
        (s'.rows ≡ []) × (s'.acked ≡ s.acked ++ s.rows)
  unfolding run step
  run-answered [] s h b pos enough =
      let empty = nil_of_length s.rows (omega arith) in (empty, rw empty (sym (append-nil s.acked)))
  run-answered ((now, stamp, stopped) ∷ rounds) s h b pos enough =
      let s1 = (upload_round describe now stamp batch_size stopped responded [] s).1 in
      let (rest, sent) = upload_answered now stamp stopped s h in
      let (h1, b1, _, _) = upload_round-Within now stamp stopped responded [] s h b in
      let (empty, all) =
        run-answered rounds s1 h1 b1 pos
          (omega (arith, ap length rest, length-drop batch_size s.rows)) in
      (
        empty,
        all
            ∙ ap₂ ◌++◌ sent rest
            ∙ append_assoc s.acked (take batch_size s.rows) (drop batch_size s.rows)
            ∙ ap (◌++◌ s.acked) (take-drop batch_size s.rows),
      )
