-- ===== src/Segment/Thread/Drain.antt =====
-- The queue between the callers and the thread, and the end of the thread.
use roboparty_rp_server.Prelude.{
  ℕ, ◌+◌, ◌<◌, ◌≡◌, refl, sym, subst, ap, ap₂, ◌∙◌, Bool, true, false, ◌||◌, not, String, Option,
  none, some, List, [], ◌∷◌, ◌++◌, length, leb, nat_eq, string_eq, if◌then◌else◌, arith, eq_iff,
  inl, inr, ◌⊎◌,
}
use roboparty_rp_server.Segment.{
  Phase, starting, running, stopping, stopped, failed, other_phase, Lifecycle, Active, Item, sample,
  lifecycle, event_line, Recorder, write, write_meta, write_sample,
}
use roboparty_rp_server.Segment.Thread.{
  trim, close_segment, open_segment, write_window, supersede, keep, start_segment, follow_phase,
  take_lifecycle, sample_active, take_item, take_next, is_due, close_due, close_open, end_round,
  round,
}

module _ (Payload : Type 0) where
  -- What the thread does not change while it writes.
  abbrev pub Control : Type 0
  Control = List (Item Payload) × ℕ × Bool × Bool × Bool

  abbrev pub control : Recorder Payload → Control
  control r = (r.queue, r.capacity, r.closing, r.ended, r.enabled)

  close_segment-control :
      (wall reason : String) (a : Active) (r : Recorder Payload)
      → control (close_segment Payload wall reason a r) ≡ control r
  unfolding close_segment write write_meta
  close_segment-control wall reason a r = refl

  either-control :
      (b : Bool) (wall : String) (payload : Payload) (a : Active) (r : Recorder Payload)
      → control (if b then write_sample Payload wall payload a r else (a, r)).1 ≡ control r
  unfolding write_sample write
  either-control true wall payload a r = refl
  either-control false wall payload a r = refl

  if-control :
      (b : Bool) (r' r : Recorder Payload)
      → control r' ≡ control r
      → control (if b then r' else r) ≡ control r
  if-control true r' r e = e
  if-control false r' r e = refl

  write_window-control :
      (wall : String) (stamp : ℕ) (samples : List (ℕ × Payload)) (a : Active) (r : Recorder Payload)
      → control (write_window Payload wall stamp samples a r).1 ≡ control r
  unfolding write_window
  write_window-control wall stamp [] a r = refl
  write_window-control wall stamp ((at, payload) ∷ samples) a r =
      let next : Bool → Active × Recorder Payload =
        λ b. if b then write_sample Payload wall payload a r else (a, r) in
      let (a', r') = next (leb stamp (at + r.pre_window)) in
      write_window-control wall stamp samples a' r'
      ∙ either-control (leb stamp (at + r.pre_window)) wall payload a r

  supersede-control :
      (wall : String) (o : Option Active) (r : Recorder Payload)
      → control (supersede Payload wall o r) ≡ control r
  unfolding supersede
  supersede-control wall none r = refl
  supersede-control wall (some a) r = close_segment-control wall "superseded" a r

  start_segment-control :
      (wall : String) (stamp : ℕ) (told : Lifecycle) (r : Recorder Payload)
      → control (start_segment Payload wall stamp told r) ≡ control r
  unfolding start_segment keep open_segment write write_meta
  start_segment-control wall stamp told r =
      let (a, r') = open_segment Payload wall told (supersede Payload wall r.active r) in
      write_window-control wall stamp r.buffer a
        (write Payload (event_line a.session_id wall told) r')
      ∙ supersede-control wall r.active r

  follow_phase-control :
      (wall : String) (stamp : ℕ) (told : Lifecycle) (o : Option Active) (r : Recorder Payload)
      → control (follow_phase Payload wall stamp told o r) ≡ control r
  unfolding follow_phase write_meta write
  follow_phase-control wall stamp told none r = refl
  follow_phase-control wall stamp told (some a) r =
      ground (arith, eq_iff a.session_id told.session_id)

  take_lifecycle-control :
      (wall : String) (stamp : ℕ) (told : Lifecycle) (p : Phase) (r : Recorder Payload)
      → control (take_lifecycle Payload wall stamp told p r) ≡ control r
  unfolding take_lifecycle
  take_lifecycle-control wall stamp told starting r = start_segment-control wall stamp told r
  take_lifecycle-control wall stamp told running r = follow_phase-control wall stamp told r.active r
  take_lifecycle-control wall stamp told stopping r =
      follow_phase-control wall stamp told r.active r
  take_lifecycle-control wall stamp told stopped r = follow_phase-control wall stamp told r.active r
  take_lifecycle-control wall stamp told failed r = follow_phase-control wall stamp told r.active r
  take_lifecycle-control wall stamp told (other_phase _) r =
      follow_phase-control wall stamp told r.active r

  sample_active-control :
      (wall : String) (payload : Payload) (o : Option Active) (r : Recorder Payload)
      → control (sample_active Payload wall payload o r) ≡ control r
  unfolding sample_active keep write_sample write
  sample_active-control wall payload none r = refl
  sample_active-control wall payload (some a) r = refl

  take_item-control :
      (wall : String) (item : Item Payload) (r : Recorder Payload)
      → control (take_item Payload wall item r) ≡ control r
  unfolding take_item
  take_item-control wall (lifecycle stamp told) r =
      take_lifecycle-control wall stamp told told.phase r
  take_item-control wall (sample stamp payload) r =
      sample_active-control wall payload r.active
        (record r { buffer = trim Payload stamp r.buffer_time (r.buffer ++ (stamp, payload) ∷ []) })

  close_due-control :
      (now : ℕ) (wall : String) (o : Option Active) (r : Recorder Payload)
      → control (close_due Payload now wall o r) ≡ control r
  unfolding close_due
  close_due-control now wall none r = refl
  close_due-control now wall (some a) r =
      if-control (is_due Payload now a.closing_until) (close_segment Payload wall "" a r) r
        (close_segment-control wall "" a r)

  -- The queue behind a round.
  unfoldable pub tail : List (Item Payload) → List (Item Payload)
  tail [] = []
  tail (item ∷ items) = items

  take_next-control :
      (wall : String) (items : List (Item Payload)) (r : Recorder Payload)
      → r.queue ≡ items
      → control (take_next Payload wall items r)
        ≡ (tail items, r.capacity, r.closing, r.ended, r.enabled)
  unfolding take_next tail
  take_next-control wall [] r e = rw e refl
  take_next-control wall (item ∷ items) r e =
      take_item-control wall item (record r { queue = items })

  close_open-lem :
      (wall : String) (o : Option Active) (r : Recorder Payload)
      → r.active ≡ o
      → (control (close_open Payload wall o r) ≡ control r)
        × ((close_open Payload wall o r).active ≡ none)
  unfolding close_open close_segment write write_meta
  close_open-lem wall none r e = (refl, e)
  close_open-lem wall (some a) r e = (refl, refl)

  -- What a round of a thread that runs leaves, when it does not end.
  abbrev pub Stays : Recorder Payload → Recorder Payload → Type 0
  Stays r r' = control r' ≡ (tail r.queue, r.capacity, r.closing, false, true)

  -- And when it does.
  abbrev pub Ends : Recorder Payload → Recorder Payload → Type 0
  Ends r r' = (control r' ≡ ([], r.capacity, true, true, true)) × (r'.active ≡ none)

  split_closing :
      (b : Bool) (r' r : Recorder Payload)
      → r.closing ≡ b
      → control r' ≡ ([], r.capacity, b, true, true)
      → r'.active ≡ none
      → let r'' = if b then r' else r in
        ((control r'' ≡ control r) × ((r.closing ≡ false) ⊎ (0 < length {A = Item Payload} [])))
        ⊎ ((r.closing ≡ true) × Ends r r'')
  split_closing true r' r e h free = inr (e, (h, free))
  split_closing false r' r e h free = inl (refl, inl e)

  end_round-lem :
      (wall : String) (items : List (Item Payload)) (r : Recorder Payload)
      → r.queue ≡ items
      → r.ended ≡ false
      → r.enabled ≡ true
      → let r' = end_round Payload wall items r in
        ((control r' ≡ control r) × ((r.closing ≡ false) ⊎ (0 < length items)))
        ⊎ ((r.closing ≡ true) × Ends r r')
  unfolding end_round
  end_round-lem wall [] r e f g =
      let r1 : Recorder Payload = record r { ended = true } in
      let (same, free) = close_open-lem wall r.active r1 refl in
      split_closing r.closing (close_open Payload wall r.active r1) r refl (same ∙ rw e (rw g refl))
        free
  end_round-lem wall (item ∷ items) r e f g = inl (refl, inr (omega arith))

  if_false : (b : Bool) (r r' : Recorder Payload) → b ≡ false → (if b then r else r') ≡ r'
  if_false true r r' e = cc
  if_false false r r' e = refl

  if_true : (b : Bool) (r r' : Recorder Payload) → b ≡ true → (if b then r else r') ≡ r
  if_true true r r' e = refl
  if_true false r r' e = cc

  -- What the end of a round says of the round.
  conclude :
      (r due r' : Recorder Payload)
      → control due ≡ (tail r.queue, r.capacity, r.closing, false, true)
      → ((control r' ≡ control due) × ((due.closing ≡ false) ⊎ (0 < length due.queue)))
        ⊎ ((due.closing ≡ true) × Ends due r')
      → (Stays r r' × ((r.closing ≡ false) ⊎ (0 < length (tail r.queue))))
        ⊎ ((r.closing ≡ true) × Ends r r')
  conclude r due r' same (inl (h, inl k)) = inl (h ∙ same, inl (sym (ap (λ x. x.2) same) ∙ k))
  conclude r due r' same (inl (h, inr k)) =
      inl (h ∙ same, inr (subst (λ q. 0 < length q) (ap (λ x. x.0) same) k))
  conclude r due r' same (inr (k, (h, free))) = inr (
    sym (ap (λ x. x.2) same) ∙ k,
    (h ∙ ap (λ n. ([], n, true, true, true)) (ap (λ x. x.1) same), free),
  )

  -- A round of a thread that runs takes one item, and ends it when the recorder is closed and no
  -- item is left.
  pub round-lem :
      (now : ℕ) (wall : String) (r : Recorder Payload)
      → r.ended ≡ false
      → r.enabled ≡ true
      → let r' = round Payload now wall r in
        (Stays r r' × ((r.closing ≡ false) ⊎ (0 < length (tail r.queue))))
        ⊎ ((r.closing ≡ true) × Ends r r')
  unfolding round
  round-lem now wall r f g =
      let taken = take_next Payload wall r.queue r in
      let due = close_due Payload now wall taken.active taken in
      let same =
        close_due-control now wall taken.active taken
        ∙ take_next-control wall r.queue r refl
        ∙ ap₂ (λ x y. (tail r.queue, r.capacity, r.closing, x, y)) f g in
      let runs =
        if_false (r.ended || not r.enabled) r (end_round Payload wall due.queue due)
          (ground (arith, f, g)) in
      conclude r due (round Payload now wall r) same (
        subst
          (λ r'.
            ((control r' ≡ control due) × ((due.closing ≡ false) ⊎ (0 < length due.queue)))
            ⊎ ((due.closing ≡ true) × Ends due r'))
          (sym runs)
          (end_round-lem wall due.queue due refl (ap (λ x. x.3) same) (ap (λ x. x.4) same)))

  pub round-idle :
      (now : ℕ) (wall : String) (r : Recorder Payload)
      → r.ended || not r.enabled ≡ true
      → round Payload now wall r ≡ r
  unfolding round
  round-idle now wall r e =
      let taken = take_next Payload wall r.queue r in
      let due = close_due Payload now wall taken.active taken in
      if_true (r.ended || not r.enabled) r (end_round Payload wall due.queue due) e
