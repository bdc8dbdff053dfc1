-- ===== src/Device/Runs.antt =====
-- Sequences of vt_state_apply, one event after another.
use veetee_vuqb.Base.{
  ℕ, suc, ◌+◌, ◌%◌, ◌^◌, ◌<◌, ◌≡◌, Bool, true, false, List, [], ◌∷◌, arith, if◌then◌else◌,
}
use veetee_vuqb.Device.{State, idle, thinking, speaking, Event, abort, disconnect, Machine, apply}

-- The machine after a list of events.
unfoldable pub run : Machine → List Event → Machine
run m [] = m
run m (e ∷ es) = run (apply m e).0 es

-- The events that cut a turn short: an abort while thinking or speaking, and a disconnect of a
-- device that is not idle.
pub cuts : State → Event → Bool
cuts thinking abort = true
cuts speaking abort = true
cuts idle disconnect = false
cuts _ disconnect = true
cuts _ _ = false

-- How many events of a run cut a turn short.
pub cut_count : Machine → List Event → ℕ
cut_count m [] = 0
cut_count m (e ∷ es) =
    let rest = cut_count (apply m e).0 es in if cuts m.state e then suc rest else rest

step_generation :
    (m : Machine) (e : Event)
    → m.generation < 2 ^ 32
    → (apply m e).0.generation
      ≡ (if cuts m.state e then (m.generation + 1) % 2 ^ 32 else m.generation)
unfolding apply cuts
step_generation m e h = ground arith

bounded_generation :
    (m : Machine) (e : Event) → m.generation < 2 ^ 32 → (apply m e).0.generation < 2 ^ 32
unfolding apply
bounded_generation m e h = ground arith

-- Over any events the generation counts, modulo 2 ^ 32, those that cut a turn short, from a
-- generation that is a uint32_t.
pub run-generation :
    (m : Machine) (es : List Event)
    → m.generation < 2 ^ 32
    → (run m es).generation ≡ (m.generation + cut_count m es) % 2 ^ 32
unfolding run cut_count
run-generation m [] h = omega arith
run-generation m (e ∷ es) h =
    ground
      (arith, step_generation m e h, run-generation (apply m e).0 es (bounded_generation m e h))
