-- ===== src/Device/Awake/Tests.antt =====
-- A device that sleeps and wakes up, with a command for each.
use logiops.Prelude.{◌≡◌, true, none, some, [], ◌∷◌, ◌++◌, refl}
use logiops.Device.Awake.{
  Commands, State, connect, disconnect, make, sleep, wakeup, sleeps, wakes, Reaches, start, next,
}
use logiops.Device.Awake.Hooks.{Alternate, jobs_of, Reaches-alternate}

abbrev commands : Commands
commands = record {
  on_connect = some (record { command = 97 ∷ []; args = none });
  on_disconnect = some (record { command = 98 ∷ []; args = some ((99 ∷ []) ∷ []) });
}

abbrev made : State
made = make commands true

abbrev slept : State
slept = sleep commands true made

abbrev twice : State
twice = sleep commands true slept

abbrev woken : State
woken = wakeup commands true twice

woken_hooks : woken.hooks ≡ connect ∷ disconnect ∷ connect ∷ []
unfolding make sleep wakeup
woken_hooks = refl

woken-Reaches : Reaches commands woken
woken-Reaches =
    next (next (next (start true) (sleeps true refl)) (sleeps true refl)) (wakes true refl)

Reaches-alternate_example :
    Alternate woken.awake woken.hooks
    × (woken.queue.started ++ woken.queue.jobs ≡ jobs_of commands woken.hooks)
Reaches-alternate_example = Reaches-alternate woken-Reaches
