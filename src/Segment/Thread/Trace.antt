-- ===== src/Segment/Thread/Trace.antt =====
-- What the thread does to the files of the sessions, in their order.
use roboparty_rp_server.Prelude.{
  ℕ, ◌+◌, ◌≡◌, refl, sym, subst, Bool, true, false, ◌&&◌, ◌||◌, not, String, Option, none, some,
  List, [], ◌∷◌, ◌++◌, leb, ◌==◌, nat_eq, string_eq, if◌then◌else◌, arith, eq_iff, Bool-cases, inl,
  inr,
}
use roboparty_rp_server.Segment.{
  Phase, starting, running, stopping, stopped, failed, other_phase, Lifecycle, Active, Item, sample,
  lifecycle, Write, opens, sample_line, event_line, meta, closes, Recorder, write, write_meta,
  write_sample,
}
use roboparty_rp_server.Segment.Thread.{
  trim, or_now, set_default, close_segment, open_segment, write_window, supersede, keep,
  start_segment, enter_phase, follow_phase, take_lifecycle, sample_active, take_item, take_next,
  is_due, close_due, close_open, end_round, round,
}

-- The session whose files are open, with the count of the samples that were written to them since.
abbrev pub Open : Type 0
Open = Option (String × ℕ)

module _ (Payload : Type 0) where
  -- What a write takes and leaves: no two sessions are open at once, lines are written to the open
  -- session only, and `meta` says how many samples it has.
  pub after : Write Payload → Open → Option Open
  after (opens s) none = some (some (s, 0))
  after (opens s) (some _) = none
  after _ none = none
  after (sample_line s wall payload) (some (t, n)) = if s == t then some (some (t, n + 1)) else none
  after (event_line s wall told) (some (t, n)) = if s == t then some (some (t, n)) else none
  after (meta a dropped) (some (t, n)) =
      if a.session_id == t && a.samples == n then some (some (t, n)) else none
  after (closes s) (some (t, n)) = if s == t then some none else none

  unfoldable pub replay : List (Write Payload) → Option Open
  unfolding after
  replay [] = some none
  replay (w ∷ ws) = elim (replay ws) [ none ↦ none | some o ↦ after w o ]

  abbrev pub summary : Option Active → Open
  summary none = none
  summary (some a) = some (a.session_id, a.samples)

  abbrev At : Recorder Payload → Open → Type 0
  At r o = replay r.writes ≡ some o

  abbrev Holds : Active × Recorder Payload → Type 0
  Holds (a, r) = At r (summary (some a))

  abbrev pub Follows : Recorder Payload → Type 0
  Follows r = At r (summary r.active)

  write-At :
      (w : Write Payload) (r : Recorder Payload) (o o' : Open)
      → At r o
      → after w o ≡ some o'
      → At (write Payload w r) o'
  unfolding write replay
  write-At w r o o' h e = rw h e

  write_meta-Holds :
      (a : Active) (r : Recorder Payload) → Holds (a, r) → Holds (a, write_meta Payload a r)
  unfolding write_meta after
  write_meta-Holds a r h =
      write-At (meta a r.dropped) r (summary (some a)) (summary (some a)) h
        (ground (arith, eq_iff a.session_id a.session_id))

  write_sample-Holds :
      (wall : String) (payload : Payload) (a : Active) (r : Recorder Payload)
      → Holds (a, r)
      → Holds (write_sample Payload wall payload a r)
  unfolding write_sample after
  write_sample-Holds wall payload a r h =
      write-At (sample_line a.session_id wall payload) r (summary (some a))
        (some (a.session_id, a.samples + 1)) h (ground (arith, eq_iff a.session_id a.session_id))

  write_event-Holds :
      (wall : String) (told : Lifecycle) (a : Active) (r : Recorder Payload)
      → Holds (a, r)
      → Holds (a, write Payload (event_line a.session_id wall told) r)
  unfolding after
  write_event-Holds wall told a r h =
      write-At (event_line a.session_id wall told) r (summary (some a)) (summary (some a)) h
        (ground (arith, eq_iff a.session_id a.session_id))

  close_segment-Closed :
      (wall reason : String) (a : Active) (r : Recorder Payload)
      → Holds (a, r)
      → At (close_segment Payload wall reason a r) none
  unfolding close_segment after
  close_segment-Closed wall reason a r h =
      let a' : Active = record a {
        stopped_at = or_now Payload wall a.stopped_at;
        stop_extra =
            if reason == "" then a.stop_extra else set_default Payload "reason" reason a.stop_extra;
      } in
      write-At (closes a.session_id) (write_meta Payload a' (record r { active = none }))
        (summary (some a)) none (write_meta-Holds a' (record r { active = none }) h)
        (ground (arith, eq_iff a.session_id a.session_id))

  close_segment-Follows :
      (wall reason : String) (a : Active) (r : Recorder Payload)
      → Holds (a, r)
      → Follows (close_segment Payload wall reason a r)
  unfolding close_segment write write_meta
  close_segment-Follows wall reason a r h = close_segment-Closed wall reason a r h

  open_segment-Holds :
      (wall : String) (told : Lifecycle) (r : Recorder Payload)
      → At r none
      → Holds (open_segment Payload wall told r)
  unfolding open_segment after
  open_segment-Holds wall told r h =
      let a = (open_segment Payload wall told r).0 in
      write_meta-Holds a (write Payload (opens told.session_id) r)
        (write-At (opens told.session_id) r none (some (told.session_id, 0)) h refl)

  either-Holds :
      (b : Bool) (x y : Active × Recorder Payload) → Holds x → Holds y → Holds (if b then x else y)
  either-Holds true x y h k = h
  either-Holds false x y h k = k

  write_window-Holds :
      (wall : String) (stamp : ℕ) (samples : List (ℕ × Payload)) (a : Active) (r : Recorder Payload)
      → Holds (a, r)
      → Holds (write_window Payload wall stamp samples a r)
  unfolding write_window
  write_window-Holds wall stamp [] a r h = h
  write_window-Holds wall stamp ((at, payload) ∷ samples) a r h =
      let next : Bool → Active × Recorder Payload =
        λ b. if b then write_sample Payload wall payload a r else (a, r) in
      let (a', r') = next (leb stamp (at + r.pre_window)) in
      write_window-Holds wall stamp samples a' r' (
        either-Holds (leb stamp (at + r.pre_window)) (write_sample Payload wall payload a r) (a, r)
          (write_sample-Holds wall payload a r h) h)

  supersede-At :
      (wall : String) (o : Option Active) (r : Recorder Payload)
      → At r (summary o)
      → At (supersede Payload wall o r) none
  unfolding supersede
  supersede-At wall none r h = h
  supersede-At wall (some a) r h = close_segment-Closed wall "superseded" a r h

  start_segment-Follows :
      (wall : String) (stamp : ℕ) (told : Lifecycle) (r : Recorder Payload)
      → Follows r
      → Follows (start_segment Payload wall stamp told r)
  unfolding start_segment keep
  start_segment-Follows wall stamp told r h =
      let (a, r') = open_segment Payload wall told (supersede Payload wall r.active r) in
      write_window-Holds wall stamp r.buffer a
        (write Payload (event_line a.session_id wall told) r')
        (write_event-Holds wall told a r' (
          open_segment-Holds wall told (supersede Payload wall r.active r)
            (supersede-At wall r.active r h)))

  enter_phase-summary :
      (wall : String) (stamp post : ℕ) (told : Lifecycle) (p : Phase) (a : Active)
      → summary (some (enter_phase Payload wall stamp post told p a)) ≡ summary (some a)
  unfolding enter_phase
  enter_phase-summary wall stamp post told starting a = refl
  enter_phase-summary wall stamp post told running a = refl
  enter_phase-summary wall stamp post told stopping a = refl
  enter_phase-summary wall stamp post told stopped a = refl
  enter_phase-summary wall stamp post told failed a = refl
  enter_phase-summary wall stamp post told (other_phase _) a = refl

  if-Follows :
      (b : Bool) (r r' : Recorder Payload) → Follows r → Follows r' → Follows (if b then r else r')
  if-Follows true r r' h k = h
  if-Follows false r r' h k = k

  followed-Follows :
      (wall : String) (stamp : ℕ) (told : Lifecycle) (o : Option Active) (r : Recorder Payload)
      → r.active ≡ o
      → Follows r
      → Follows (follow_phase Payload wall stamp told o r)
  unfolding follow_phase write_meta write
  followed-Follows wall stamp told none r e h = h
  followed-Follows wall stamp told (some a) r e h =
      let a' = enter_phase Payload wall stamp r.post_window told told.phase a in
      let r' : Recorder Payload = record r { active = some a' } in
      let told' = write Payload (event_line a.session_id wall told) r' in
      if-Follows (a.session_id == told.session_id) (write_meta Payload a' told') r
        (write_meta-Holds a' told' (
          subst (At told') (sym (enter_phase-summary wall stamp r.post_window told told.phase a))
            (write_event-Holds wall told a r' (rw e at h))))
        h

  follow_phase-Follows :
      (wall : String) (stamp : ℕ) (told : Lifecycle) (r : Recorder Payload)
      → Follows r
      → Follows (follow_phase Payload wall stamp told r.active r)
  follow_phase-Follows wall stamp told r h = followed-Follows wall stamp told r.active r refl h

  take_lifecycle-Follows :
      (wall : String) (stamp : ℕ) (told : Lifecycle) (p : Phase) (r : Recorder Payload)
      → Follows r
      → Follows (take_lifecycle Payload wall stamp told p r)
  unfolding take_lifecycle
  take_lifecycle-Follows wall stamp told starting r h = start_segment-Follows wall stamp told r h
  take_lifecycle-Follows wall stamp told running r h = follow_phase-Follows wall stamp told r h
  take_lifecycle-Follows wall stamp told stopping r h = follow_phase-Follows wall stamp told r h
  take_lifecycle-Follows wall stamp told stopped r h = follow_phase-Follows wall stamp told r h
  take_lifecycle-Follows wall stamp told failed r h = follow_phase-Follows wall stamp told r h
  take_lifecycle-Follows wall stamp told (other_phase _) r h =
      follow_phase-Follows wall stamp told r h

  sample_active-Follows :
      (wall : String) (payload : Payload) (o : Option Active) (r : Recorder Payload)
      → r.active ≡ o
      → At r (summary o)
      → Follows (sample_active Payload wall payload o r)
  unfolding sample_active keep
  sample_active-Follows wall payload none r e h = rw e h
  sample_active-Follows wall payload (some a) r e h = write_sample-Holds wall payload a r h

  take_item-Follows :
      (wall : String) (item : Item Payload) (r : Recorder Payload)
      → Follows r
      → Follows (take_item Payload wall item r)
  unfolding take_item
  take_item-Follows wall (lifecycle stamp told) r h =
      take_lifecycle-Follows wall stamp told told.phase r h
  take_item-Follows wall (sample stamp payload) r h =
      sample_active-Follows wall payload r.active
        (record r { buffer = trim Payload stamp r.buffer_time (r.buffer ++ (stamp, payload) ∷ []) })
        refl h

  take_next-Follows :
      (wall : String) (items : List (Item Payload)) (r : Recorder Payload)
      → Follows r
      → Follows (take_next Payload wall items r)
  unfolding take_next
  take_next-Follows wall [] r h = h
  take_next-Follows wall (item ∷ items) r h =
      take_item-Follows wall item (record r { queue = items }) h

  close_due-Follows :
      (now : ℕ) (wall : String) (o : Option Active) (r : Recorder Payload)
      → r.active ≡ o
      → Follows r
      → Follows (close_due Payload now wall o r)
  unfolding close_due
  close_due-Follows now wall none r e h = h
  close_due-Follows now wall (some a) r e h =
      elim (Bool-cases (is_due Payload now a.closing_until)) [
        | inl f ↦ rw f (close_segment-Follows wall "" a r (rw e at h))
        | inr f ↦ rw f h
      ]

  close_open-Follows :
      (wall : String) (o : Option Active) (r : Recorder Payload)
      → r.active ≡ o
      → Follows r
      → Follows (close_open Payload wall o r)
  unfolding close_open
  close_open-Follows wall none r e h = h
  close_open-Follows wall (some a) r e h = close_segment-Follows wall "" a r (rw e at h)

  end_round-Follows :
      (wall : String) (items : List (Item Payload)) (r : Recorder Payload)
      → Follows r
      → Follows (end_round Payload wall items r)
  unfolding end_round
  end_round-Follows wall [] r h =
      let r' : Recorder Payload = record r { ended = true } in
      if-Follows r.closing (close_open Payload wall r.active r') r
        (close_open-Follows wall r.active r' refl h) h
  end_round-Follows wall (_ ∷ _) r h = h

  pub round-Follows :
      (now : ℕ) (wall : String) (r : Recorder Payload)
      → Follows r
      → Follows (round Payload now wall r)
  unfolding round
  round-Follows now wall r h = elim (Bool-cases (r.ended || not r.enabled)) [
    | inl e ↦ rw e h
    | inr e ↦
        let taken = take_next Payload wall r.queue r in
        let due = close_due Payload now wall taken.active taken in
        rw e (
          end_round-Follows wall due.queue due (
            close_due-Follows now wall taken.active taken refl
              (take_next-Follows wall r.queue r h)))
  ]
