-- ===== src/Hooks/Queue.antt =====
-- `HookRunner` (src/uplinkmgr/hooks.py): the queue of events, and the thread that works it off.
use uplinkmgr.Prelude.{ℕ, zero, suc, List, [], ◌∷◌, ◌++◌, Bool, true, false, Option, none, some, ℤ}
use uplinkmgr.Effect.{Event}

-- An item of the queue is an event, or None for the end. `ran` holds the events that were given to
-- `run_hooks_sync`, each with the timeout in force then; the worker goes on after an exception there.
-- `working` says that the thread has not returned.
pub record HookRunner : Type 0 where
  pub queue : List (Option Event)
  pub timeout : ℤ
  pub working : Bool
  pub ran : List (Event × ℤ)

abbrev pub new_runner : ℤ → HookRunner
new_runner timeout = record { queue = []; timeout = timeout; working = true; ran = [] }

unfoldable pub put : Option Event → HookRunner → HookRunner
put item r = record r { queue = r.queue ++ item ∷ [] }

-- One turn of the loop of `_worker`, for what stands first in the queue; `get` waits while there is
-- nothing.
abbrev pub take_item : List (Option Event) → HookRunner → HookRunner
take_item [] r = r
take_item (none ∷ items) r = record r { queue = items; working = false }
take_item (some event ∷ items) r = record r {
  queue = items;
  ran = r.ran ++ (event, r.timeout) ∷ [];
}

unfoldable pub work : HookRunner → HookRunner
work r = elim r.working [ true ↦ take_item r.queue r | false ↦ r ]

-- What the daemon and the thread do: `fire`, a new timeout, `shutdown` up to the join, and the turns
-- of the worker.
pub data Act : Type 0 where
  fire : Event → Act
  set_timeout : ℤ → Act
  shutdown turn : Act

unfoldable pub act : Act → HookRunner → HookRunner
unfolding put work
act (fire event) r = put (some event) r
act (set_timeout timeout) r = record r { timeout = timeout }
act shutdown r = put none r
act turn r = work r

unfoldable pub acts : List Act → HookRunner → HookRunner
unfolding act
acts [] r = r
acts (a ∷ rest) r = acts rest (act a r)

unfoldable pub turns : ℕ → HookRunner → HookRunner
unfolding work
turns zero r = r
turns (suc n) r = turns n (work r)
