-- ===== src/Spool/Sound.antt =====
-- The bounds of a spool, and that no event is lost uncounted.
use mathlib.Core.List.{Sublist}
use roboparty_rp_server.Prelude.{
  ℕ, suc, ◌+◌, ◌-◌, ◌≤◌, ◌≡◌, refl, ap, Bool, not, String, List, [], ◌∷◌, ◌++◌, map, length, leb,
  nat_eq, arith, length-append, length-drop,
}
use roboparty_rp_server.Prelude.Dict.{contains}
use roboparty_rp_server.Spool.{
  Row, DeadRow, Spool, select, ids_of, warn, add, enforce_dead_limit, dead_row, to_dead_letter,
  count_attempt, warn_moved, fail, reject,
}
use roboparty_rp_server.Spool.Rows.{
  Span, select-Span, drop-Span, after, append-Span, count_attempt-Span, select-ids_of,
  length-select,
}

-- The server has received all rows of the answered uploads; the ids of these and, after them, of the
-- queued rows increase and are below the next one; and neither table exceeds the capacity.
pub record IsSound (s : Spool) : Type 0 where
  pub received_all : Sublist s.acked s.received
  pub in_order : Span 0 (after 0 s.acked) s.acked
  pub ordered : Span (after 0 s.acked) s.next_id s.rows
  pub holds : length s.rows ≤ s.max_events
  pub holds_dead : length s.dead ≤ s.max_events

-- The events that the spool still answers for, or has answered for.
abbrev pub accounted : Spool → ℕ
accounted s = (length s.rows + length s.acked) + (s.dropped + s.rejected)

-- The rows that were given up are in the dead letter table, or were dropped from it.
abbrev pub Balanced : Spool → Type 0
Balanced s = length s.dead + s.dead_letter_dropped ≡ s.rejected

-- What an operation that is not `add` keeps: soundness, the balance and the count.
abbrev pub Kept : Spool → Spool → Type 0
Kept s s' = IsSound s' × Balanced s' × (accounted s' ≡ accounted s)

warn-Kept :
    (now : ℕ) (key : String) (count : ℕ) (s : Spool)
    → IsSound s
    → Balanced s
    → Kept s (warn now key count s)
unfolding warn
warn-Kept now key count s h b = ground arith

pub add-Kept :
    (now : ℕ) (stamp payload : String) (s : Spool)
    → IsSound s
    → Balanced s
    → let s' = add now stamp payload s in
      IsSound s' × Balanced s' × (accounted s' ≡ accounted s + 1)
unfolding add warn
add-Kept now stamp payload s h b =
    let r : Row = record { id = s.next_id; payload = payload; attempts = 0; created_at = stamp } in
    let rows = s.rows ++ r ∷ [] in
    let ordered = append-Span (after 0 s.acked) s.next_id s.rows r refl h.ordered in
    let excess = length rows - s.max_events in
    ground (
      arith,
      ordered,
      drop-Span excess (after 0 s.acked) (s.next_id + 1) rows ordered,
      length-append s.rows (r ∷ []),
      length-drop excess rows,
    )

length-map : (f : Row → DeadRow) (rs : List Row) → length (map f rs) ≡ length rs
length-map f [] = refl
length-map f (r ∷ rs) = ap suc (length-map f rs)

enforce_dead_limit-Kept :
    (s : Spool)
    → Sublist s.acked s.received
    → Span 0 (after 0 s.acked) s.acked
    → Span (after 0 s.acked) s.next_id s.rows
    → length s.rows ≤ s.max_events
    → Balanced s
    → Kept s (enforce_dead_limit s)
unfolding enforce_dead_limit
enforce_dead_limit-Kept s all acked ordered holds b =
    ground (arith, length-drop (length s.dead - s.max_events) s.dead)

to_dead_letter-Kept :
    (stamp reason : String) (test : Row → Bool) (s : Spool)
    → Sublist s.acked s.received
    → Span 0 (after 0 s.acked) s.acked
    → Span (after 0 s.acked) s.next_id s.rows
    → length s.rows ≤ s.max_events
    → Balanced s
    → Kept s (to_dead_letter stamp (select test s.rows) reason s)
unfolding to_dead_letter
to_dead_letter-Kept stamp reason test s all acked ordered holds b =
    let rows = select test s.rows in
    let left = select (λ r. not (contains (ids_of rows) r.id)) s.rows in
    let same = select-ids_of test (after 0 s.acked) s.next_id s.rows ordered in
    let lengths = ap length same in
    let shared = length-select test s.rows in
    let moved = length-map (dead_row stamp reason) rows in
    let joined = length-append s.dead (map (dead_row stamp reason) rows) in
    let s' : Spool = record s {
      rows = left;
      dead = s.dead ++ map (dead_row stamp reason) rows;
      rejected = s.rejected + length rows;
    } in
    let (sound, balanced, count) =
      enforce_dead_limit-Kept s' all acked
        (select-Span (λ r. not (contains (ids_of rows) r.id)) (after 0 s.acked) s.next_id s.rows
          ordered)
        (omega arith) (omega arith) in
    (sound, balanced, omega arith)

warn_moved-Kept :
    (now : ℕ) (key : String) (rs : List Row) (s : Spool)
    → IsSound s
    → Balanced s
    → Kept s (warn_moved now key rs s)
unfolding warn_moved
warn_moved-Kept now key [] s h b = (h, b, refl)
warn_moved-Kept now key (r ∷ rs) s h b = warn-Kept now key (length (r ∷ rs)) s h b

length-count_attempt : (ids : List ℕ) (rs : List Row) → length (count_attempt ids rs) ≡ length rs
unfolding count_attempt
length-count_attempt ids [] = refl
length-count_attempt ids (r ∷ rs) = ap suc (length-count_attempt ids rs)

pub fail-Kept :
    (now : ℕ) (stamp : String) (ids : List ℕ) (s : Spool)
    → IsSound s
    → Balanced s
    → Kept s (fail now stamp ids s)
unfolding fail
fail-Kept now stamp [] s h b = (h, b, refl)
fail-Kept now stamp (i ∷ ids) s h b =
    let rows = count_attempt (i ∷ ids) s.rows in
    let test : Row → Bool = λ r. leb s.max_attempts r.attempts in
    let counted : Spool = record s { rows = rows } in
    let same = length-count_attempt (i ∷ ids) s.rows in
    let (sound, balanced, count) =
      to_dead_letter-Kept stamp "max_attempts" test counted h.received_all h.in_order
        (count_attempt-Span (i ∷ ids) (after 0 s.acked) s.next_id s.rows h.ordered)
        (ground (arith, same)) b in
    let (sound', balanced', count') =
      warn_moved-Kept now "max_attempts" (select test rows) _ sound balanced in
    (sound', balanced', omega (arith, same))

pub reject-Kept :
    (now : ℕ) (stamp : String) (ids : List ℕ) (reason : String) (s : Spool)
    → IsSound s
    → Balanced s
    → Kept s (reject now stamp ids reason s)
unfolding reject
reject-Kept now stamp [] reason s h b = (h, b, refl)
reject-Kept now stamp (i ∷ ids) reason s h b =
    let test : Row → Bool = λ r. contains (i ∷ ids) r.id in
    let (sound, balanced, count) =
      to_dead_letter-Kept stamp reason test s h.received_all h.in_order h.ordered h.holds b in
    let (sound', balanced', count') =
      warn_moved-Kept now reason (select test s.rows) _ sound balanced in
    (sound', balanced', omega arith)
