-- ===== src/Tests/Scripts.antt =====
-- Probes and hook scripts at concrete answers of `ping` and of the file system.
use uplinkmgr.Effect.{Event}
use uplinkmgr.Hooks.Queue.{new_runner, Act, fire, set_timeout, shutdown, turn, act, acts, turns}
use uplinkmgr.Hooks.Fifo.{view, all_specified, view-acts}
use uplinkmgr.Prelude.{
  ◌≡◌, ◌↔◌, ◌⊎◌, refl, ap, List, [], ◌∷◌, true, false, Option, none, some, Text, text, ◌==◌,
  contains, eqb, pos, arith, if◌then◌else◌,
}
use uplinkmgr.Monitor.{Ping, probe_ipv4, ping4_words}
use uplinkmgr.Monitor.Attempts.{plan, Succeeds, probe_ipv4_iff}
use uplinkmgr.Hooks.{
  resolve_hook_scripts, survivors, sort_scripts, insert_script, lt_text, keep_if, is_candidate,
  any_suffix, ends_with, after_prefix, stem, list_dir, is_eligible,
}
use uplinkmgr.Hooks.Delivered.{fires, ran_events, turns-delivers}
use uplinkmgr.Hooks.Run.{Child}
use uplinkmgr.Hooks.Resolve.{holds, Offers, IsShadowed, resolve_hook_scripts-holds}

abbrev hosts : List Text
hosts = text "198.51.100.1" ∷ text "198.51.100.2" ∷ []

-- Only the fourth ping is answered.
abbrev fourth : Ping
fourth n cmd = eqb n 3

fourth_attempt : probe_ipv4 fourth (text "wan0") hosts (pos 2) ≡ (true, 4)
unfolding probe_ipv4
fourth_attempt = refl

too_few_attempts : probe_ipv4 fourth (text "wan0") hosts (pos 1) ≡ (false, 2)
unfolding probe_ipv4
too_few_attempts = refl

probe_ipv4_iff_example : Succeeds fourth (plan (ping4_words (text "wan0")) 2 hosts) 0
probe_ipv4_iff_example =
    (probe_ipv4_iff fourth (text "wan0") hosts (pos 2)).0 (ap (λ r. r.0) fourth_attempt)

abbrev system_dir : Text
system_dir = text "/s"

abbrev user_dir : Text
user_dir = text "/u"

-- The user's 90-mail shadows the system's 10-mail; the backup shadows nothing.
abbrev listing : Text → Option (List Text)
listing d =
    if d == user_dir
    then some (text "90-mail" ∷ text "10-log.bak" ∷ [])
    else if d == system_dir
    then some (text "10-mail" ∷ text "20-log" ∷ text ".x" ∷ [])
    else none

resolved :
    resolve_hook_scripts system_dir user_dir listing
    ≡ (system_dir, text "20-log") ∷ (user_dir, text "90-mail") ∷ []
unfolding resolve_hook_scripts survivors sort_scripts insert_script lt_text list_dir keep_if
    is_candidate any_suffix ends_with stem after_prefix contains text ◌==◌
resolved = refl

resolve_hook_scripts-holds_example :
    (holds system_dir (text "10-mail") (resolve_hook_scripts system_dir user_dir listing) ≡ true)
    ↔ (((system_dir ≡ user_dir) × Offers system_dir user_dir listing user_dir (text "10-mail"))
        ⊎ ((system_dir ≡ system_dir)
            × Offers system_dir user_dir listing system_dir (text "10-mail")
            × (¬ IsShadowed system_dir user_dir listing (text "10-mail"))))
resolve_hook_scripts-holds_example =
    resolve_hook_scripts-holds system_dir user_dir listing system_dir (text "10-mail")

-- A regular file that all may execute, and one that its group may write.
executable : is_eligible (some 0o100755) ≡ true
unfolding is_eligible
executable = refl

group_writable : is_eligible (some 0o100775) ≡ false
unfolding is_eligible
group_writable = refl

abbrev event_named : Text → Event
event_named name = record { event = name; uplink = []; env_extra = [] }

-- A reload changes the timeout between two events, and a third one comes after the shutdown.
abbrev steps : List Act
steps =
    fire (event_named (text "daemon-start"))
    ∷ turn
    ∷ set_timeout (pos 20)
    ∷ fire (event_named (text "reload"))
    ∷ shutdown
    ∷ fire (event_named (text "wan-up"))
    ∷ turn
    ∷ turn
    ∷ turn
    ∷ []

view-acts_example :
    view (acts steps (new_runner (pos 10))) ≡ all_specified steps (view (new_runner (pos 10)))
view-acts_example = view-acts steps (new_runner (pos 10))

-- The timeout is changed while an event waits, and the worker takes one turn before the shutdown.
abbrev before_shutdown : List Act
before_shutdown =
    fire (event_named (text "wan-down"))
    ∷ set_timeout (pos 20)
    ∷ fire (event_named (text "reload"))
    ∷ turn
    ∷ fire (event_named (text "daemon-stop"))
    ∷ []

turns-delivers_example :
    let r = turns 4 (act shutdown (acts before_shutdown (new_runner (pos 10)))) in
    (r.working ≡ false) × (ran_events r ≡ fires before_shutdown)
turns-delivers_example = turns-delivers (pos 10) before_shutdown 4 tt (omega arith)

-- Each script runs into the timeout and is killed.
abbrev slow : Child
slow = record { starts = true; ends_within = λ timeout. false; has_group = true }

abbrev reload_event : Event
reload_event = record { event = text "reload"; uplink = []; env_extra = [] }
