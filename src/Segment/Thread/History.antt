-- ===== src/Segment/Thread/History.antt =====
-- Histories of a recorder.
use roboparty_rp_server.Prelude.{
  ℕ, ◌+◌, ◌≤◌, ◌<◌, ◌≡◌, refl, sym, subst, ap, ◌∙◌, Bool, true, false, ◌||◌, not, String, none,
  some, List, [], ◌∷◌, ◌++◌, length, length-append, ltb, if◌then◌else◌, arith, Bool-cases, inl, inr,
  ◌⊎◌,
}
use roboparty_rp_server.Segment.{
  Item, Recorder, create, enqueue, record_sample, on_lifecycle, close, sample, lifecycle,
}
use roboparty_rp_server.Segment.Thread.{round, Call, records, tells, closes_all, rounds, step, run}
use roboparty_rp_server.Segment.Thread.Trace.{Follows, replay, summary, round-Follows}
use roboparty_rp_server.Segment.Thread.Drain.{tail, round-lem, round-idle}

module _ (Payload : Type 0) where
  -- The files are as `replay` wants them, and open for the segment that is active; the queue is
  -- within its capacity; and the thread has returned only without a segment.
  abbrev pub IsSound : Recorder Payload → Type 0
  IsSound r =
      Follows Payload r × (length r.queue ≤ r.capacity) × ((r.ended ≡ false) ⊎ (r.active ≡ none))

  length-tail : (items : List (Item Payload)) → length (tail Payload items) ≤ length items
  unfolding tail
  length-tail [] = omega arith
  length-tail (item ∷ items) = omega arith

  length-rest :
      (items : List (Item Payload))
      → 0 < length (tail Payload items)
      → length items ≡ length (tail Payload items) + 1
  unfolding tail
  length-rest [] k = absurd (omega arith)
  length-rest (item ∷ items) k = omega arith

  IsSound-if :
      (b : Bool) (r r' : Recorder Payload) → IsSound r → IsSound r' → IsSound (if b then r else r')
  IsSound-if true r r' h k = h
  IsSound-if false r r' h k = k

  room_if :
      (b : Bool) (r r' : Recorder Payload)
      → (b ≡ true → IsSound r)
      → IsSound r'
      → IsSound (if b then r else r')
  room_if true r r' h k = h refl
  room_if false r r' h k = k

  enqueue-IsSound :
      (item : Item Payload) (r : Recorder Payload) → IsSound r → IsSound (enqueue Payload item r)
  unfolding enqueue
  enqueue-IsSound item r (h, room, quiet) =
      room_if (ltb (length r.queue) r.capacity) (record r { queue = r.queue ++ item ∷ [] })
        (record r { dropped = r.dropped + 1 })
        (λ e. (h, ground (arith, e, length-append r.queue (item ∷ [])), quiet)) (h, room, quiet)

  round-IsSound :
      (now : ℕ) (wall : String) (r : Recorder Payload)
      → IsSound r
      → IsSound (round Payload now wall r)
  round-IsSound now wall r (h, room, quiet) = elim (Bool-cases (r.ended || not r.enabled)) [
    | inl e ↦ subst IsSound (sym (round-idle Payload now wall r e)) (h, room, quiet)
    | inr e ↦
        let r' = round Payload now wall r in
        let h' = round-Follows Payload now wall r h in
        elim (round-lem Payload now wall r (ground arith) (ground arith)) [
          | inl (same, _) ↦
              let queue : r'.queue ≡ tail Payload r.queue = ap (λ x. x.0) same in
              let capacity : r'.capacity ≡ r.capacity = ap (λ x. x.1) same in
              (
                h',
                omega (arith, ap length queue, capacity, room, length-tail r.queue),
                inl (ap (λ x. x.3) same),
              )
          | inr (_, (same, free)) ↦
              let queue : r'.queue ≡ [] = ap (λ x. x.0) same in
              (h', omega (arith, ap length queue), inr free)
        ]
  ]

  step-IsSound :
      (call : Call Payload) (r : Recorder Payload) → IsSound r → IsSound (step Payload call r)
  unfolding step record_sample on_lifecycle close
  step-IsSound (records now none) r h = h
  step-IsSound (records now (some payload)) r h =
      IsSound-if r.enabled (enqueue Payload (sample now payload) r) r
        (enqueue-IsSound (sample now payload) r h) h
  step-IsSound (tells now told) r h =
      IsSound-if r.enabled (enqueue Payload (lifecycle now told) r) r
        (enqueue-IsSound (lifecycle now told) r h) h
  step-IsSound closes_all r h = IsSound-if r.enabled (record r { closing = true }) r h h
  step-IsSound (rounds now wall) r h = round-IsSound now wall r h

  run-IsSound :
      (calls : List (Call Payload)) (r : Recorder Payload)
      → IsSound r
      → IsSound (run Payload calls r)
  unfolding run
  run-IsSound [] r h = h
  run-IsSound (call ∷ calls) r h = run-IsSound calls (step Payload call r) (step-IsSound call r h)

  -- After any history of a new recorder: the files of at most one session are open at once, all
  -- lines go to that session, which is the active one, and each `meta` has the count of its
  -- samples; the queue is within its capacity; and the thread has returned only without a segment.
  pub run-create-Follows :
      (pre post buffer_time queue_size : ℕ) (enabled : Bool) (calls : List (Call Payload))
      → IsSound (run Payload calls (create Payload pre post buffer_time queue_size enabled))
  unfolding create replay
  run-create-Follows pre post buffer_time queue_size enabled calls =
      run-IsSound calls (create Payload pre post buffer_time queue_size enabled)
        (refl, omega arith, inl refl)

  abbrev pub all_rounds : List (ℕ × String) → List (Call Payload)
  all_rounds [] = []
  all_rounds ((now, wall) ∷ ts) = rounds now wall ∷ all_rounds ts

  -- What is left when the thread has returned.
  abbrev pub Drained : Recorder Payload → Type 0
  Drained r = (r.ended ≡ true) × (r.queue ≡ []) × (replay Payload r.writes ≡ some none)

  run-ended :
      (ts : List (ℕ × String)) (r : Recorder Payload)
      → r.ended ≡ true
      → run Payload (all_rounds ts) r ≡ r
  unfolding run step
  run-ended [] r e = refl
  run-ended ((now, wall) ∷ ts) r e =
      let same = round-idle Payload now wall r (ground arith) in
      ap (run Payload (all_rounds ts)) same ∙ run-ended ts r e

  -- Once a recorder is closed, as many rounds as it has items, and at least one, take them all: the
  -- thread returns, and the files of every segment are closed.
  pub run-drains :
      (ts : List (ℕ × String)) (r : Recorder Payload)
      → IsSound r
      → r.enabled ≡ true
      → r.closing ≡ true
      → r.ended ≡ false
      → 0 < length ts
      → length r.queue ≤ length ts
      → Drained (run Payload (all_rounds ts) r)
  unfolding run step tail
  run-drains [] r h on closed f pos enough = absurd (omega arith)
  run-drains ((now, wall) ∷ ts) r h on closed f pos enough =
      let r' = round Payload now wall r in
      let (h', room, quiet) = round-IsSound now wall r h in
      elim (round-lem Payload now wall r f on) [
        | inl (same, inl k) ↦ absurd (ground arith)
        | inl (same, inr k) ↦
            let queue : r'.queue ≡ tail Payload r.queue = ap (λ x. x.0) same in
            let one = length-rest r.queue k in
            run-drains ts r' (h', room, quiet) (ap (λ x. x.4) same) (ap (λ x. x.2) same ∙ closed)
              (ap (λ x. x.3) same) (omega arith) (omega (arith, ap length queue, one))
        | inr (_, (same, free)) ↦
            let ended : r'.ended ≡ true = ap (λ x. x.3) same in
            subst Drained (sym (run-ended ts r' ended))
              (ended, ap (λ x. x.0) same, h' ∙ ap (λ a. some (summary Payload a)) free)
      ]
