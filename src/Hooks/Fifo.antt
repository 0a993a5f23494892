-- ===== src/Hooks/Fifo.antt =====
-- The queue of the hooks, against a specification without an end marker: events run once, in the
-- order in which they were fired, and those fired before the shutdown all run.
use mathlib.Core.List.{append-nil, append_assoc}
use uplinkmgr.Prelude.{
  ℕ, zero, suc, ◌<◌, ◌≡◌, refl, sym, ap, ◌∙◌, List, [], ◌∷◌, ◌++◌, Bool, true, false, ◌&&◌, Option,
  none, some, ℤ, length, if◌then◌else◌, arith,
}
use uplinkmgr.Effect.{Event}
use uplinkmgr.Hooks.Queue.{
  HookRunner, put, work, Act, fire, set_timeout, shutdown, turn, act, acts, turns,
}

-- A queue that is closed once and for all.
pub record Fifo : Type 0 where
  pub pending : List Event
  pub accepting : Bool
  pub timeout : ℤ
  pub ran : List (Event × ℤ)

abbrev pub run_first : List Event → Fifo → Fifo
run_first [] f = f
run_first (event ∷ events) f = record f { pending = events; ran = f.ran ++ (event, f.timeout) ∷ [] }

abbrev pub specified : Act → Fifo → Fifo
specified (fire event) f = if f.accepting then record f { pending = f.pending ++ event ∷ [] } else f
specified (set_timeout timeout) f = record f { timeout = timeout }
specified shutdown f = record f { accepting = false }
specified turn f = run_first f.pending f

abbrev pub all_specified : List Act → Fifo → Fifo
all_specified [] f = f
all_specified (a ∷ rest) f = all_specified rest (specified a f)

-- The events before the end marker, and whether there is none.
abbrev pub events_of : List (Option Event) → List Event
events_of [] = []
events_of (none ∷ items) = []
events_of (some event ∷ items) = event ∷ events_of items

abbrev pub is_unmarked : List (Option Event) → Bool
is_unmarked [] = true
is_unmarked (none ∷ items) = false
is_unmarked (some event ∷ items) = is_unmarked items

abbrev pub view : HookRunner → Fifo
view r = record {
  pending = if r.working then events_of r.queue else [];
  accepting = r.working && is_unmarked r.queue;
  timeout = r.timeout;
  ran = r.ran;
}

pub events_of-fire :
    (items : List (Option Event)) (event : Event)
    → events_of (items ++ some event ∷ [])
      ≡ (if is_unmarked items then events_of items ++ event ∷ [] else events_of items)
events_of-fire [] event = refl
events_of-fire (none ∷ items) event = refl
events_of-fire (some e ∷ items) event = ground (arith, events_of-fire items event)

pub is_unmarked-fire :
    (items : List (Option Event)) (event : Event)
    → is_unmarked (items ++ some event ∷ []) ≡ is_unmarked items
is_unmarked-fire [] event = refl
is_unmarked-fire (none ∷ items) event = refl
is_unmarked-fire (some e ∷ items) event = is_unmarked-fire items event

events_of-shutdown :
    (items : List (Option Event)) → events_of (items ++ none ∷ []) ≡ events_of items
events_of-shutdown [] = refl
events_of-shutdown (none ∷ items) = refl
events_of-shutdown (some e ∷ items) = ap (λ es. e ∷ es) (events_of-shutdown items)

is_unmarked-shutdown : (items : List (Option Event)) → is_unmarked (items ++ none ∷ []) ≡ false
is_unmarked-shutdown [] = refl
is_unmarked-shutdown (none ∷ items) = refl
is_unmarked-shutdown (some e ∷ items) = is_unmarked-shutdown items

-- The specification of `fire`, by whether the queue is marked.
by_mark :
    (unmarked : Bool) (events : List Event) (event : Event) (timeout : ℤ) (ran : List (Event × ℤ))
    → Path Fifo
        (record {
          pending = if unmarked then events ++ event ∷ [] else events;
          accepting = unmarked;
          timeout = timeout;
          ran = ran;
        })
        (specified
          (fire event)
          (record { pending = events; accepting = unmarked; timeout = timeout; ran = ran }))
by_mark true events event timeout ran = refl
by_mark false events event timeout ran = refl

-- A runner by its parts.
abbrev runner : List (Option Event) → ℤ → Bool → List (Event × ℤ) → HookRunner
runner queue timeout working ran = record {
  queue = queue;
  timeout = timeout;
  working = working;
  ran = ran;
}

view-fire :
    (event : Event) (queue : List (Option Event)) (timeout : ℤ) (working : Bool)
    (ran : List (Event × ℤ))
    → view (put (some event) (runner queue timeout working ran))
      ≡ specified (fire event) (view (runner queue timeout working ran))
unfolding put
view-fire event queue timeout false ran = refl
view-fire event queue timeout true ran =
    rw (events_of-fire queue event, is_unmarked-fire queue event)
      (by_mark (is_unmarked queue) (events_of queue) event timeout ran)

view-shutdown :
    (queue : List (Option Event)) (timeout : ℤ) (working : Bool) (ran : List (Event × ℤ))
    → view (put none (runner queue timeout working ran))
      ≡ specified shutdown (view (runner queue timeout working ran))
unfolding put
view-shutdown queue timeout false ran = refl
view-shutdown queue timeout true ran =
    rw (events_of-shutdown queue, is_unmarked-shutdown queue) refl

view-turn :
    (queue : List (Option Event)) (timeout : ℤ) (working : Bool) (ran : List (Event × ℤ))
    → view (work (runner queue timeout working ran))
      ≡ specified turn (view (runner queue timeout working ran))
unfolding work
view-turn queue timeout false ran = refl
view-turn [] timeout true ran = refl
view-turn (none ∷ items) timeout true ran = refl
view-turn (some event ∷ items) timeout true ran = refl

-- Each act of the runner is the one of the specification.
view-act : (a : Act) (r : HookRunner) → view (act a r) ≡ specified a (view r)
unfolding act
view-act (fire event) r = view-fire event r.queue r.timeout r.working r.ran
view-act (set_timeout timeout) r = refl
view-act shutdown r = view-shutdown r.queue r.timeout r.working r.ran
view-act turn r = view-turn r.queue r.timeout r.working r.ran

-- Whatever is done with the runner, seen as a queue that a shutdown closes, is what the specification
-- does: an event that is fired before the shutdown waits behind those fired before it, a later one
-- is dropped, and each turn of the worker runs the event that has waited longest, once, with the
-- timeout of then.
pub view-acts :
    (steps : List Act) (r : HookRunner) → view (acts steps r) ≡ all_specified steps (view r)
unfolding acts
view-acts [] r = refl
view-acts (a ∷ rest) r = view-acts rest (act a r) ∙ ap (all_specified rest) (view-act a r)

-- The events that are run in one go, with their timeout.
abbrev pub timed : ℤ → List Event → List (Event × ℤ)
timed timeout [] = []
timed timeout (event ∷ events) = (event, timeout) ∷ timed timeout events

turns_stopped :
    (n : ℕ) (queue : List (Option Event)) (timeout : ℤ) (ran : List (Event × ℤ))
    → turns n (runner queue timeout false ran) ≡ runner queue timeout false ran
unfolding turns work
turns_stopped zero queue timeout ran = refl
turns_stopped (suc n) queue timeout ran = turns_stopped n queue timeout ran

-- The worker has returned, and has run these events.
abbrev pub HasDrained : HookRunner → List (Event × ℤ) → Type 0
HasDrained r expected = (r.working ≡ false) × (r.ran ≡ expected)

turns-HasDrained :
    (n : ℕ) (queue : List (Option Event)) (timeout : ℤ) (ran : List (Event × ℤ))
    → length queue < n
    → HasDrained
        (turns n (runner (queue ++ none ∷ []) timeout true ran))
        (ran ++ timed timeout (events_of queue))
unfolding turns work
turns-HasDrained zero queue timeout ran lt = absurd (omega arith)
turns-HasDrained (suc n) [] timeout ran lt =
    rw (turns_stopped n [] timeout ran) (refl, sym (append-nil ran))
turns-HasDrained (suc n) (none ∷ items) timeout ran lt =
    rw (turns_stopped n (items ++ none ∷ []) timeout ran) (refl, sym (append-nil ran))
turns-HasDrained (suc n) (some event ∷ items) timeout ran lt =
    let (stopped, all) =
      turns-HasDrained n items timeout (ran ++ (event, timeout) ∷ []) (omega arith) in
    (stopped, all ∙ append_assoc ran ((event, timeout) ∷ []) (timed timeout (events_of items)))

-- After a shutdown, a worker that is still at work returns, within one turn for each item of the
-- queue and one more, and by then all events that waited before an end marker have run, in their
-- order, if the timeout stays as it is and nothing else is done with the runner.
pub shutdown-HasDrained :
    (n : ℕ) (r : HookRunner)
    → r.working ≡ true
    → length r.queue < n
    → HasDrained (turns n (act shutdown r)) (r.ran ++ timed r.timeout (events_of r.queue))
unfolding act put
shutdown-HasDrained n r working lt = rw working (turns-HasDrained n r.queue r.timeout r.ran lt)
