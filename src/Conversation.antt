-- ===== src/Conversation.antt =====
-- veetee-firmware/main/main.c: the turns of a conversation, from the application's flags to the end of
-- the playback. The callbacks and the tasks run one after another here; what the mutex answers to the
-- coming takes stands in the state, and what is asked of the audio and of the display is kept in a list.
pub mod Messages
pub mod Packets
pub mod Polling
pub mod Waking
pub mod Barrier
pub mod Keeping
pub mod Rounds
pub mod Arrivals
pub mod Reach
pub mod Callbacks
pub mod Turns
pub mod Stops
pub mod Connecting
pub mod Sending
pub mod Sent
pub mod Ending
pub mod Opening
pub mod Reopening
pub mod Network
use veetee_vuqb.Base.{
  ℕ, Bool, true, false, not, ◌&&◌, ◌||◌, if◌then◌else◌, leb, Option, none, some, List, [], ◌∷◌,
  ◌++◌, length,
}
use veetee_vuqb.Device.{
  State, idle, speaking, thinking, Event, listen_start, tts_stop_manual, tts_stop_auto, abort,
  Machine, state_eq, apply,
}
use veetee_vuqb.McpTask.{McpTask}

-- vt_wake_command_t
pub data WakeCommand : Type 0 where
  arm : WakeCommand

-- vt_interaction_mode_t
pub data InteractionMode : Type 0 where
  manual auto : InteractionMode

abbrev pub is_auto : InteractionMode → Bool
is_auto manual = false
is_auto auto = true

-- What is asked of the audio, of the display and of the transport: a reset of the echo reference, a reset
-- of the decoder under its lock, a packet to decode and play, an error or an interruption to show, and the
-- controls to send.
pub data Effect : Type 0 where
  reset_reference reset_decoder : Effect
  play : List ℕ → Effect
  show_error : Option (List ℕ) → Option (List ℕ) → Effect
  show_interrupted send_listen_stop : Effect
  send_abort : List ℕ → Effect
  send_listen_start : Bool → Effect

-- vt_app_t: the fields of a conversation, in an application whose lock and queues app_main has made.
-- A packet is its bytes, with its length. `takes` is what the coming takes of `state_lock` answer, and
-- past its end each succeeds.
pub record App : Type 0 where
  pub machine : Machine
  pub playback_queue : List (List ℕ)
  pub playback_depth : ℕ
  pub wake_command_queue : List WakeCommand
  pub mcp_task : Option McpTask
  pub capture_active : Bool
  pub duplex_capture : Bool
  pub playback_busy : Bool
  pub wake_rearm_pending : Bool
  pub continuous_capture_pending : Bool
  pub pairing_required : Bool
  pub tts_stop_pending : Bool
  pub wake_auto_capture : Bool
  pub interaction_mode : InteractionMode
  pub pending_tts_stop_mode : InteractionMode
  pub tts_turn_id : List ℕ
  pub takes : List Bool
  pub effects : List Effect

-- The size of `tts_turn_id`, and the depth of `wake_command_queue`
abbrev pub tts_turn_id_max : ℕ
tts_turn_id_max = 64

abbrev pub wake_command_depth : ℕ
wake_command_depth = 4

-- xQueueSend on a queue of a depth: a full queue refuses.
abbrev pub queue_send {ℓ} : {A : Type ℓ} → ℕ → List A → A → List A
queue_send depth items item = if leb depth (length items) then items else items ++ (item ∷ [])

abbrev pub emit : Effect → App → App
emit effect app = record app { effects = app.effects ++ (effect ∷ []) }

-- xSemaphoreTake on `state_lock`
unfoldable pub take_lock : App → App × Bool
take_lock app = elim app.takes [ [] ↦ (app, true) | t ∷ ts ↦ (record app { takes = ts }, t) ]

unfoldable pub request_wake_arm : App → App
request_wake_arm app = record app {
  wake_command_queue = queue_send wake_command_depth app.wake_command_queue WakeCommand.arm;
}

abbrev pub is_empty {ℓ} : {A : Type ℓ} → List A → Bool
is_empty [] = true
is_empty (x ∷ xs) = false

abbrev pub playback_is_idle : App → Bool
playback_is_idle app = not app.playback_busy && is_empty app.playback_queue

-- state_apply and state_read
unfoldable pub state_apply : App → Event → App × Bool
unfolding take_lock
state_apply app event =
    let (app', taken) = take_lock app in
    if not taken
    then (app', false)
    else let (machine, applied) = apply app'.machine event in
      (record app' { machine = machine }, applied)

unfoldable pub state_read : App → App × State
unfolding take_lock
state_read app =
    let (app', taken) = take_lock app in (app', if taken then app'.machine.state else idle)

-- service_playback_idle under the lock, each part with whether capture is to start and the detector to
-- be armed: the graceful stop that waits, the capture that waits, the arming that waits.
abbrev pub stop_event : InteractionMode → Event
stop_event mode = if is_auto mode then tts_stop_auto else tts_stop_manual

unfoldable pub complete_stop : App → App × Bool × Bool
complete_stop app =
    if not app.tts_stop_pending
    then (app, false, false)
    else if not (state_eq app.machine.state speaking)
    then (record app { tts_stop_pending = false }, false, false)
    else let (machine, applied) = apply app.machine (stop_event app.pending_tts_stop_mode) in
      let stopped = record app { tts_stop_pending = false; machine = machine } in
      if not applied
      then (stopped, false, false)
      else if app.continuous_capture_pending
      then (record stopped { continuous_capture_pending = false }, true, false)
      else (stopped, false, is_auto app.pending_tts_stop_mode)

unfoldable pub take_capture : App × Bool × Bool → App × Bool × Bool
take_capture (app, start, request) =
    if not app.tts_stop_pending
      && app.continuous_capture_pending
      && not (state_eq app.machine.state speaking)
    then (record app { continuous_capture_pending = false }, true, request)
    else (app, start, request)

unfoldable pub take_rearm : App × Bool × Bool → App × Bool × Bool
take_rearm (app, start, request) =
    if app.wake_rearm_pending
    then (record app { wake_rearm_pending = false }, start, true)
    else (app, start, request)

-- The capture of a continuous conversation, past the lock.
unfoldable pub start_continuous_capture : App → App
unfolding state_read state_apply
start_continuous_capture app =
    let (read, state) = state_read (record app { interaction_mode = InteractionMode.auto }) in
    let ready = if state_eq state thinking then (state_apply read abort).0 else read in
    record ((state_apply ready listen_start).0) { capture_active = true; wake_auto_capture = true }

abbrev pub finish_service : App × Bool × Bool → App
finish_service (app, start, request) =
    let captured = if start then start_continuous_capture app else app in
    if request then request_wake_arm captured else captured

unfoldable pub service_playback_idle : App → App
unfolding take_lock
service_playback_idle app =
    if not (playback_is_idle app)
    then app
    else let (app', taken) = take_lock app in
      if not taken then app' else finish_service (take_rearm (take_capture (complete_stop app')))

unfoldable pub request_wake_arm_when_playback_idle : App → App
unfolding take_lock
request_wake_arm_when_playback_idle app =
    let (app', taken) = take_lock app in
    if not taken then app' else service_playback_idle (record app' { wake_rearm_pending = true })

unfoldable pub clear_pending_tts_stop : App → App
unfolding take_lock
clear_pending_tts_stop app =
    let (app', taken) = take_lock app in
    if not taken then app' else record app' {
      tts_stop_pending = false;
      wake_rearm_pending = false;
      continuous_capture_pending = false;
      duplex_capture = false;
      tts_turn_id = [];
    }

unfoldable pub schedule_graceful_tts_stop : App → InteractionMode → App × Bool
unfolding take_lock
schedule_graceful_tts_stop app mode =
    let (app', taken) = take_lock app in
    if not taken || not (state_eq app'.machine.state speaking) then (app', false) else (
      service_playback_idle (record app' {
        tts_stop_pending = true;
        pending_tts_stop_mode = mode;
        wake_rearm_pending = is_auto mode && not app'.continuous_capture_pending;
      }),
      true,
    )
