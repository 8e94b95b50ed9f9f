-- ===== src/Can/Clicks.antt =====
-- The button is let go as often as it is pressed, with ids that count up.
use mathlib.Core.List.{append_assoc}
use roboparty_rp_server.Prelude.{
  ℕ, zero, suc, ◌+◌, ◌*◌, ◌≡◌, refl, sym, ap, ◌∙◌, subst, Bool, true, false, not, ◌||◌, Option,
  none, some, List, [], ◌∷◌, ◌++◌, if◌then◌else◌, arith,
}
use roboparty_rp_server.Can.{
  Phase, idle, pressed, CanJoyListener, dispatch_button, too_soon, accept, matches, process,
  decode_can_frame, process_frame, click, cancel, stop, Event, receives, clicks, stops, step, run,
  create,
}

-- The events of so many whole clicks: down and up, with the next two ids.
pub whole_clicks : ℕ → List (Bool × ℕ)
whole_clicks zero = []
whole_clicks (suc n) = whole_clicks n ++ ((true, n * 2 + 1) ∷ ((false, n * 2 + 2) ∷ []))

-- What was handled, and the last id: whole clicks, and where the button is pressed one more down.
abbrev pub IsClicked : Phase → ℕ → List (Bool × ℕ) → Type 0
IsClicked idle button_id handled = (n : ℕ) × ((button_id ≡ n * 2) × (handled ≡ whole_clicks n))
IsClicked pressed button_id handled =
    (n : ℕ) × ((button_id ≡ n * 2 + 1) × (handled ≡ whole_clicks n ++ ((true, n * 2 + 1) ∷ [])))

abbrev pub Clicked : CanJoyListener → Type 0
Clicked l = IsClicked l.phase l.button_id l.handled

down-IsClicked :
    (id : ℕ) (handled : List (Bool × ℕ))
    → IsClicked idle id handled
    → IsClicked pressed (id + 1) (handled ++ ((true, id + 1) ∷ []))
down-IsClicked id handled (n, (is_id, whole)) = (
  n,
  (
    omega (arith, is_id),
    ap (λ hs. hs ++ ((true, id + 1) ∷ [])) whole
        ∙ ap (λ i. whole_clicks n ++ ((true, i + 1) ∷ [])) is_id,
  ),
)

up-IsClicked :
    (id : ℕ) (handled : List (Bool × ℕ))
    → IsClicked pressed id handled
    → IsClicked idle (id + 1) (handled ++ ((false, id + 1) ∷ []))
unfolding whole_clicks
up-IsClicked id handled (n, (is_id, whole)) =
    let next_id : id + 1 ≡ n * 2 + 2 = omega (arith, is_id) in
    (
      suc n,
      (
        omega (arith, is_id),
        ap (λ hs. hs ++ ((false, id + 1) ∷ [])) whole
            ∙ append_assoc (whole_clicks n) ((true, n * 2 + 1) ∷ []) ((false, id + 1) ∷ [])
            ∙ ap (λ i. whole_clicks n ++ ((true, n * 2 + 1) ∷ ((false, i) ∷ []))) next_id,
      ),
    )

click-Clicked :
    (ph : Phase) (queued : ℕ) (l : CanJoyListener)
    → l.phase ≡ ph
    → Clicked l
    → Clicked (click ph queued l)
unfolding click dispatch_button
click-Clicked idle zero l e h = h
click-Clicked idle (suc n) l e h =
    down-IsClicked l.button_id l.handled (subst (λ ph. IsClicked ph l.button_id l.handled) e h)
click-Clicked pressed n l e h =
    up-IsClicked l.button_id l.handled (subst (λ ph. IsClicked ph l.button_id l.handled) e h)

cancel-Clicked :
    (ph : Phase) (l : CanJoyListener)
    → l.phase ≡ ph
    → Clicked l
    → IsClicked idle (cancel ph l).button_id (cancel ph l).handled
unfolding cancel dispatch_button
cancel-Clicked idle l e h = subst (λ ph. IsClicked ph l.button_id l.handled) e h
cancel-Clicked pressed l e h =
    up-IsClicked l.button_id l.handled (subst (λ ph. IsClicked ph l.button_id l.handled) e h)

cancel-idle : (ph : Phase) (l : CanJoyListener) → l.phase ≡ ph → (cancel ph l).phase ≡ idle
unfolding cancel
cancel-idle idle l e = e
cancel-idle pressed l e = refl

-- Behind a stop the button is not pressed, and only whole clicks were handled.
stop-Clicked : (l : CanJoyListener) → Clicked l → ((stop l).phase ≡ idle) × Clicked (stop l)
unfolding stop
stop-Clicked l h =
    let free = cancel-idle l.phase l refl in
    (
      free,
      subst (λ ph. IsClicked ph (cancel l.phase l).button_id (cancel l.phase l).handled) (sym free)
          (cancel-Clicked l.phase l refl h),
    )

if-Clicked :
    (b : Bool) (l l' : CanJoyListener) → Clicked l → Clicked l' → Clicked (if b then l else l')
if-Clicked true l l' h k = h
if-Clicked false l l' h k = k

if-frame-Clicked :
    (b : Bool) (r r' : Bool × CanJoyListener)
    → Clicked r.1
    → Clicked r'.1
    → Clicked (if◌then◌else◌ {A = Bool × CanJoyListener} b r r').1
if-frame-Clicked true r r' h k = h
if-frame-Clicked false r r' h k = k

process-Clicked :
    (now : ℕ) (o : Option (ℕ × List ℕ)) (l : CanJoyListener)
    → Clicked l
    → Clicked (process now o l).1
unfolding process accept
process-Clicked now none l h = h
process-Clicked now (some decoded) l h =
    if-frame-Clicked (not (matches l decoded) || too_soon now l.last_match) (false, l)
      (accept now l) h h

step-Clicked : (ev : Event) (l : CanJoyListener) → Clicked l → Clicked (step ev l)
unfolding step process_frame
step-Clicked (receives now frame) l h = process-Clicked now (decode_can_frame frame) l h
step-Clicked clicks l h =
    if-Clicked l.running (click l.phase l.queued l) l (click-Clicked l.phase l.queued l refl h) h
step-Clicked stops l h = (stop-Clicked l h).1

run-Clicked : (evs : List Event) (l : CanJoyListener) → Clicked l → Clicked (run evs l)
unfolding run
run-Clicked [] l h = h
run-Clicked (ev ∷ evs) l h = run-Clicked evs (step ev l) (step-Clicked ev l h)

create-Clicked : (can_id : ℕ) (payloads : List (List ℕ)) → Clicked (create can_id payloads)
unfolding create whole_clicks
create-Clicked can_id payloads = (0, (refl, refl))

-- After any frames, clicks and stops of a new listener: the handler got whole clicks, each a button
-- that goes down and then up with the next two ids, and one more down only where a click is under
-- way; and a stop then leaves the button up and only whole clicks handled.
pub run-create-Clicked :
    (can_id : ℕ) (payloads : List (List ℕ)) (evs : List Event)
    → let l = run evs (create can_id payloads) in
      Clicked l × ((stop l).phase ≡ idle) × Clicked (stop l)
run-create-Clicked can_id payloads evs =
    let l = run evs (create can_id payloads) in
    let h = run-Clicked evs (create can_id payloads) (create-Clicked can_id payloads) in
    let (free, kept) = stop-Clicked l h in (h, free, kept)
