-- ===== src/Examples/Devices.antt =====
-- The device state machine and the screens at concrete states and events.
use veetee_vuqb.Base.{◌+◌, ◌-◌, ◌%◌, ◌^◌, ◌≡◌, refl, true, false, List, [], ◌∷◌, arith}
use veetee_vuqb.Device.{
  State, connecting, speaking, Event, listen_start, tts_start, abort, disconnect, Machine, apply,
}
use veetee_vuqb.Device.Graph.{Edge, apply-Edge, connecting_waits}
use veetee_vuqb.Device.Runs.{run, cut_count, run-generation}

abbrev talking : Machine
talking = record { state = speaking; generation = 2 ^ 32 - 1 }

abbrev dialling : Machine
dialling = record { state = connecting; generation = 3 }

abbrev turn : List Event
turn = abort ∷ disconnect ∷ tts_start ∷ disconnect ∷ []

apply-Edge_example :
    ((apply talking abort).1 ≡ true → Edge speaking abort (apply talking abort).0.state)
    × ((apply talking abort).1 ≡ false
        → ((apply talking abort).0 ≡ talking) × ((t : State) → ¬ Edge speaking abort t))
apply-Edge_example = apply-Edge talking abort

run-generation_example :
    (run talking turn).generation ≡ (2 ^ 32 - 1 + cut_count talking turn) % 2 ^ 32
run-generation_example = run-generation talking turn (omega arith)

connecting_waits_example : (apply dialling listen_start).0 ≡ dialling
connecting_waits_example = connecting_waits dialling listen_start refl (λ q. cc) (λ q. cc)
