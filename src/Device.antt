-- ===== src/Device.antt =====
-- veetee-firmware/main/veetee_state.c and veetee_state.h: the state machine of the device.
pub mod Graph
pub mod Runs
use veetee_vuqb.Base.{ℕ, ◌+◌, ◌%◌, ◌^◌, Bool, true, false, not, ◌&&◌, ◌||◌, if◌then◌else◌}
use veetee_vuqb.Base.{Option, none, some}

-- vt_device_state_t
pub data State : Type 0 where
  idle connecting listening thinking speaking : State

-- vt_device_event_t
pub data Event : Type 0 where
  connect hello_ready listen_start listen_stop tts_start tts_stop : Event
  tts_stop_manual tts_stop_auto abort disconnect : Event

-- vt_device_state_machine_t; `generation` is a uint32_t
pub record Machine : Type 0 where
  pub state : State
  pub generation : ℕ

-- `==` on the enum
unfoldable pub state_eq : State → State → Bool
state_eq idle idle = true
state_eq connecting connecting = true
state_eq listening listening = true
state_eq thinking thinking = true
state_eq speaking speaking = true
state_eq _ _ = false

unfoldable pub event_eq : Event → Event → Bool
event_eq connect connect = true
event_eq hello_ready hello_ready = true
event_eq listen_start listen_start = true
event_eq listen_stop listen_stop = true
event_eq tts_start tts_start = true
event_eq tts_stop tts_stop = true
event_eq tts_stop_manual tts_stop_manual = true
event_eq tts_stop_auto tts_stop_auto = true
event_eq abort abort = true
event_eq disconnect disconnect = true
event_eq _ _ = false

pub event_allowed : State → Event → Bool
unfolding state_eq
event_allowed from connect = state_eq from idle || state_eq from connecting
event_allowed from hello_ready = state_eq from connecting
event_allowed from listen_start = state_eq from idle || state_eq from listening
event_allowed from listen_stop = state_eq from listening
event_allowed from tts_start =
    state_eq from idle || state_eq from listening || state_eq from thinking
event_allowed from tts_stop = state_eq from speaking
event_allowed from tts_stop_manual = state_eq from speaking
event_allowed from tts_stop_auto = state_eq from speaking
event_allowed from abort = state_eq from thinking || state_eq from speaking
event_allowed from disconnect = true

pub can_transition : State → State → Bool
unfolding state_eq
can_transition from to =
    if state_eq from to
    then true
    else if state_eq to idle
    then true
    else if state_eq from idle && state_eq to connecting
    then true
    else if state_eq from idle && state_eq to listening
    then true
    else if state_eq from idle && state_eq to speaking
    then true
    else if state_eq from connecting && state_eq to listening
    then true
    else if state_eq from listening && state_eq to thinking
    then true
    else if state_eq from thinking && state_eq to speaking
    then true
    else if state_eq from thinking && state_eq to listening
    then true
    else if state_eq from speaking && state_eq to listening
    then true
    else if state_eq from listening && state_eq to speaking
    then true
    else false

unfoldable pub is_interruptible : State → Bool
unfolding state_eq
is_interruptible state = state_eq state thinking || state_eq state speaking

-- the first `switch` of vt_state_apply
pub next_state : Event → State
next_state connect = connecting
next_state hello_ready = listening
next_state listen_start = listening
next_state listen_stop = thinking
next_state tts_start = speaking
next_state tts_stop = listening
next_state tts_stop_manual = idle
next_state tts_stop_auto = listening
next_state abort = listening
next_state disconnect = idle

-- vt_state_apply on a machine that is not NULL: the machine after it, and what it returns
unfoldable pub apply : Machine → Event → Machine × Bool
unfolding event_allowed can_transition next_state event_eq
apply machine event =
    if not (event_allowed machine.state event)
    then (machine, false)
    else let next = next_state event in
      if not (can_transition machine.state next)
      then (machine, false)
      else let changed = not (state_eq machine.state next) in
        let generation' =
          if changed && (event_eq event abort || event_eq event disconnect)
          then (machine.generation + 1) % 2 ^ 32
          else machine.generation in
        (
          record { state = next; generation = generation' },
          changed
              || event_eq event connect
              || event_eq event listen_start
              || event_eq event disconnect,
        )

-- vt_state_apply, with the test for NULL
pub apply_pointer : Option Machine → Event → Option Machine × Bool
apply_pointer none event = (none, false)
apply_pointer (some machine) event =
    let (machine', applied) = apply machine event in (some machine', applied)
