-- ===== src/Daemon/Announced.antt =====
-- The end of a daemon's life, as its hooks see it.
use uplinkmgr.Prelude.{◌≡◌, sym, ap, List, ◌∷◌, Option, none, some, text}
use uplinkmgr.Config.{Config}
use uplinkmgr.State.{◌>>=◌}
use uplinkmgr.Effect.{Event, fire, stop_hooks, Trace}
use uplinkmgr.Radvd.{Ipaddress}
use uplinkmgr.Daemon.Machine.{Daemon, plain_event, fire_plain, shutdown_hooks, teardown_all}
use uplinkmgr.Daemon.Handlers.{
  Env, Input, Outcome, done, raised, lost, boot, run, cleanup, finish_with, lifetime,
}

abbrev pub stop_event : Event
stop_event = plain_event (text "daemon-stop")

-- Where there is a daemon in the end, the last things it did were to fire `daemon-stop` and then to
-- shut the runner of the hooks down.
abbrev pub Stops : Option Daemon → Type 0
Stops o = (d : Daemon) → o ≡ some d → (t : Trace) × (d.trace ≡ stop_hooks ∷ fire stop_event ∷ t)

same_daemon : {a b : Daemon} → some a ≡ some b → a ≡ b
same_daemon e = cc

none-Stops : Stops none
none-Stops d e = absurd (let x = e in cc)

>>=-Stops :
    {A : Type 0} (o : Option A) (f : A → Option Daemon) → ((a : A) → Stops (f a)) → Stops (o >>= f)
>>=-Stops none f s = none-Stops
>>=-Stops (some a) f s = s a

module _ (addresses : Ipaddress) where
  cleanup-Stops : (env : Env) (d : Daemon) → Stops (cleanup addresses env d)
  unfolding cleanup
  cleanup-Stops env d = >>=-Stops (teardown_all d) _ (λ torn.
      >>=-Stops _
        (λ t. some (shutdown_hooks (fire_plain (text "daemon-stop") (record torn { trace = t }))))
        (λ t d' e. (t, ap (λ x. x.trace) (sym (same_daemon e)))))

  finish_with-Stops : (env : Env) (o : Outcome) → Stops (finish_with addresses env o)
  unfolding finish_with
  finish_with-Stops env (done d) = cleanup-Stops env d
  finish_with-Stops env (raised d) = cleanup-Stops env d
  finish_with-Stops env lost = none-Stops

  -- In whichever way a daemon comes to its end, the event of that is fired while the runner of the
  -- hooks still takes events.
  pub lifetime-Stops :
      (first : Env) (cfg : Config) (inputs : List Input) (last : Env)
      → Stops (lifetime addresses first cfg inputs last)
  unfolding lifetime
  lifetime-Stops first cfg inputs last =
      >>=-Stops (boot addresses first cfg) _ (λ d. finish_with-Stops last (run addresses inputs d))
