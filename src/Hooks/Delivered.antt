-- ===== src/Hooks/Delivered.antt =====
-- What becomes of the events that are fired, from the start of the runner to its end.
use mathlib.Core.List.{append-nil, append_assoc, map-append}
use uplinkmgr.Prelude.{
  ℕ, suc, ◌<◌, ◌≤◌, ◌≡◌, refl, sym, ap, ◌∙◌, List, [], ◌∷◌, ◌++◌, map, subst, true, false, some,
  none, Option, ℤ, length, length-append, if◌then◌else◌, arith,
}
use uplinkmgr.Effect.{Event}
use uplinkmgr.Hooks.Queue.{
  HookRunner, new_runner, put, work, Act, fire, set_timeout, shutdown, turn, act, acts, turns,
}
use uplinkmgr.Hooks.Fifo.{
  events_of, is_unmarked, events_of-fire, is_unmarked-fire, timed, shutdown-HasDrained,
}

-- The events that are fired, and that the runner is not shut down.
abbrev pub fires : List Act → List Event
fires [] = []
fires (fire event ∷ steps) = event ∷ fires steps
fires (_ ∷ steps) = fires steps

abbrev pub IsOpen : List Act → Type 0
IsOpen [] = Unit
IsOpen (shutdown ∷ steps) = ⊥
IsOpen (_ ∷ steps) = IsOpen steps

abbrev pub ran_events : HookRunner → List Event
ran_events r = map (λ (event, timeout). event) r.ran

-- The worker works, nothing marks the end, and the events so far have run or wait.
record Holds (so_far : List Event) (r : HookRunner) : Type 0 where
  working : r.working ≡ true
  unmarked : is_unmarked r.queue ≡ true
  all : ran_events r ++ events_of r.queue ≡ so_far

act-fire-Holds :
    (event : Event) (so_far : List Event) (r : HookRunner)
    → Holds so_far r
    → Holds (so_far ++ event ∷ []) (act (fire event) r)
unfolding act put
act-fire-Holds event so_far r h = record {
  working = h.working;
  unmarked = is_unmarked-fire r.queue event ∙ h.unmarked;
  all =
      ap (λ es. ran_events r ++ es)
        (events_of-fire r.queue event
          ∙ ap (λ b. if b then events_of r.queue ++ event ∷ [] else events_of r.queue) h.unmarked)
      ∙ sym (append_assoc (ran_events r) (events_of r.queue) (event ∷ []))
      ∙ ap (λ es. es ++ event ∷ []) h.all;
}

act-turn-Holds :
    (so_far : List Event) (queue : List (Option Event)) (timeout : ℤ) (ran : List (Event × ℤ))
    → Holds so_far (record { queue = queue; timeout = timeout; working = true; ran = ran })
    → Holds so_far
        (act turn (record { queue = queue; timeout = timeout; working = true; ran = ran }))
unfolding act work
act-turn-Holds so_far [] timeout ran h = h
act-turn-Holds so_far (none ∷ items) timeout ran h = absurd (let x = h.unmarked in cc)
act-turn-Holds so_far (some event ∷ items) timeout ran h = record {
  working = refl;
  unmarked = h.unmarked;
  all =
      ap (λ es. es ++ events_of items) (map-append (λ (e, t). e) ran ((event, timeout) ∷ []))
      ∙ append_assoc (map (λ (e, t). e) ran) (event ∷ []) (events_of items)
      ∙ h.all;
}

set_timeout-Holds :
    (timeout : ℤ) (so_far : List Event) (r : HookRunner)
    → Holds so_far r
    → Holds so_far (act (set_timeout timeout) r)
unfolding act
set_timeout-Holds timeout so_far r h = record {
  working = h.working;
  unmarked = h.unmarked;
  all = h.all;
}

turn-Holds : (so_far : List Event) (r : HookRunner) → Holds so_far r → Holds so_far (act turn r)
turn-Holds so_far r h =
    let same : record r { working = true } ≡ r =
      ap (λ b. record r { working = b }) (sym h.working) in
    subst (λ s. Holds so_far (act turn s)) same
      (act-turn-Holds so_far r.queue r.timeout r.ran (subst (Holds so_far) (sym same) h))

acts-Holds :
    (steps : List Act) (so_far : List Event) (r : HookRunner)
    → IsOpen steps
    → Holds so_far r
    → Holds (so_far ++ fires steps) (acts steps r)
unfolding acts
acts-Holds [] so_far r o h = subst (λ es. Holds es r) (sym (append-nil so_far)) h
acts-Holds (fire event ∷ steps) so_far r o h =
    subst (λ es. Holds es (acts steps (act (fire event) r)))
      (append_assoc so_far (event ∷ []) (fires steps))
      (acts-Holds steps (so_far ++ event ∷ []) (act (fire event) r) o
        (act-fire-Holds event so_far r h))
acts-Holds (set_timeout timeout ∷ steps) so_far r o h =
    acts-Holds steps so_far (act (set_timeout timeout) r) o (set_timeout-Holds timeout so_far r h)
acts-Holds (shutdown ∷ steps) so_far r o h = absurd o
acts-Holds (turn ∷ steps) so_far r o h =
    acts-Holds steps so_far (act turn r) o (turn-Holds so_far r h)

map-timed : (timeout : ℤ) (events : List Event) → map (λ (e, t). e) (timed timeout events) ≡ events
map-timed timeout [] = refl
map-timed timeout (event ∷ events) = ap (λ es. event ∷ es) (map-timed timeout events)

length-events_of :
    (items : List (Option Event))
    → is_unmarked items ≡ true
    → length (events_of items) ≡ length items
length-events_of [] u = refl
length-events_of (none ∷ items) u = absurd (let x = u in cc)
length-events_of (some event ∷ items) u = ap suc (length-events_of items u)

-- What waits is among what was fired.
length-Holds :
    (so_far : List Event) (r : HookRunner) → Holds so_far r → length r.queue ≤ length so_far
length-Holds so_far r h =
    let waiting = length-events_of r.queue h.unmarked in
    let split = length-append (ran_events r) (events_of r.queue) in
    let whole = ap length h.all in omega arith

-- Whatever is done with a new runner before it is shut down, whichever turns its worker took and
-- however the timeout was changed: once the shutdown is asked for, the worker returns within as many
-- turns as events were fired, and one more, and by then every event that was fired has run, once,
-- in the order in which they were fired.
pub turns-delivers :
    (timeout : ℤ) (steps : List Act) (n : ℕ)
    → IsOpen steps
    → length (fires steps) < n
    → let r = turns n (act shutdown (acts steps (new_runner timeout))) in
      (r.working ≡ false) × (ran_events r ≡ fires steps)
turns-delivers timeout steps n o lt =
    let r = acts steps (new_runner timeout) in
    let h : Holds (fires steps) r =
      acts-Holds steps [] (new_runner timeout) o
        (record { working = refl; unmarked = refl; all = refl }) in
    let bound = length-Holds (fires steps) r h in
    let (stopped, all) = shutdown-HasDrained n r h.working (omega arith) in
    (
      stopped,
      ap (map (λ (e, t). e)) all
          ∙ map-append (λ (e, t). e) r.ran (timed r.timeout (events_of r.queue))
          ∙ ap (λ es. ran_events r ++ es) (map-timed r.timeout (events_of r.queue))
          ∙ h.all,
    )
