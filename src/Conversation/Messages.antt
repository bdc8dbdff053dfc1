-- ===== src/Conversation/Messages.antt =====
-- websocket_text_callback: what each message of the server does.
use veetee_vuqb.Base.{
  ℕ, Bool, true, false, not, ◌&&◌, if◌then◌else◌, ltb, Option, none, some, List, [], ◌∷◌, length,
  str_eq,
}
use veetee_vuqb.Base.Text.{codes}
use veetee_vuqb.Json.{CJson, string_of, is_text, is_object, is_true}
use veetee_vuqb.Device.{hello_ready, tts_start, abort}
use veetee_vuqb.WireGuard.{session_matches}
use veetee_vuqb.McpTask.{reset_session, enqueue}
use veetee_vuqb.Conversation.{
  App, InteractionMode, is_auto, reset_reference, reset_decoder, show_error, tts_turn_id_max, emit,
  take_lock, request_wake_arm, state_apply, service_playback_idle,
  request_wake_arm_when_playback_idle, clear_pending_tts_stop, schedule_graceful_tts_stop,
}

-- What stands around the callback: the two options of the build, the session id of the transport,
-- whether echo cancellation is ready, and what the MCP task's lock and the heap answer.
pub record Setting : Type 0 where
  pub mcp_enabled : Bool
  pub wake_during_playback : Bool
  pub session_id : List ℕ
  pub aec_ready : Bool
  pub mcp_locked : Bool
  pub mcp_allocated : Bool

-- xQueueReset, the reset of the echo reference
abbrev pub drop_playback : App → App
drop_playback app = emit reset_reference (record app { playback_queue = [] })

-- The three flags that stop the capture.
abbrev pub stop_capture : App → App
stop_capture app = record app {
  capture_active = false;
  duplex_capture = false;
  wake_auto_capture = false;
}

abbrev pub is_nonempty : List ℕ → Bool
is_nonempty [] = false
is_nonempty (c ∷ cs) = true

-- `continuous_capture_pending`, where the lock is taken and only where it is asked for
unfoldable pub arm_continuous : App → App × Bool
unfolding take_lock
arm_continuous app =
    let (app', taken) = take_lock app in
    if taken
    then (record app' { continuous_capture_pending = true; wake_rearm_pending = false }, true)
    else (app', false)

unfoldable pub hello_message : Setting → Bool → App → App
hello_message setting pairing_required app =
    let mcp_task =
      if setting.mcp_enabled
      then elim app.mcp_task [
        | none ↦ none
        | some task ↦ some (reset_session task setting.mcp_locked)
      ]
      else app.mcp_task in
    (state_apply (record app { pairing_required = pairing_required; mcp_task = mcp_task })
      hello_ready).0

-- The turn id of a start, kept where it is a string that fits.
unfoldable pub keep_turn_id : Option (List ℕ) → App → App
keep_turn_id none app = app
keep_turn_id (some turn_id) app =
    if is_nonempty turn_id && ltb (length turn_id) tts_turn_id_max
    then record app { tts_turn_id = turn_id }
    else app

unfoldable pub begin_speaking : Setting → App → App
begin_speaking setting app =
    let (app', started) = state_apply app tts_start in
    if setting.wake_during_playback && started && is_auto app'.interaction_mode && setting.aec_ready
    then request_wake_arm app'
    else app'

-- A string turn id that is not the one kept.
unfoldable pub is_stale : Option (List ℕ) → App → Bool
is_stale none app = false
is_stale (some turn_id) app = is_nonempty app.tts_turn_id && not (str_eq turn_id app.tts_turn_id)

-- The acoustic barge-in of a stop, and its graceful form.
unfoldable pub barge_in : App → App
barge_in app =
    let cleared = clear_pending_tts_stop app in
    let kept = record cleared { capture_active = true; wake_auto_capture = true } in
    (state_apply (emit reset_decoder (drop_playback kept)) abort).0

unfoldable pub graceful_stop : InteractionMode → App → App
graceful_stop mode app =
    let (app', scheduled) = schedule_graceful_tts_stop app mode in
    if scheduled then record (stop_capture app') { tts_turn_id = [] } else app'

module _ (j : CJson) where
  abbrev item_of : Option j.Value → List ℕ → Option j.Value
  item_of none name = none
  item_of (some value) name = j.item value name

  abbrev pub is_acoustic : j.Value → Bool
  is_acoustic message =
      let barge = j.item message (codes "barge_in") in
      is_object j barge
      && is_true j (item_of barge (codes "enabled"))
      && is_text j (item_of barge (codes "mode")) (codes "acoustic")

  unfoldable pub tts_start_message : Setting → j.Value → App → App
  tts_start_message setting message app =
      let turn_id = string_of j (j.item message (codes "turn_id")) in
      let dropped = drop_playback (keep_turn_id turn_id (clear_pending_tts_stop app)) in
      let duplex = is_acoustic message && is_auto dropped.interaction_mode && setting.aec_ready in
      begin_speaking setting
        (emit reset_decoder (record dropped { duplex_capture = duplex; capture_active = duplex }))

  unfoldable pub tts_stop_message : j.Value → App → App
  tts_stop_message message app =
      let mode = app.interaction_mode in
      let armed =
        if is_true j (j.item message (codes "continue_listening"))
        then (arm_continuous app).0
        else app in
      let acoustic_abort =
        is_text j (j.item message (codes "reason")) (codes "barge_in") && armed.duplex_capture in
      if is_stale (string_of j (j.item message (codes "turn_id"))) armed
      then armed
      else if acoustic_abort
      then barge_in armed
      else graceful_stop mode armed

  unfoldable pub tts_message : Setting → j.Value → App → App
  tts_message setting message app = elim (string_of j (j.item message (codes "state"))) [
    | none ↦ app
    | some tts_state ↦
        if str_eq tts_state (codes "start")
        then tts_start_message setting message app
        else if str_eq tts_state (codes "stop")
        then tts_stop_message message app
        else app
  ]

  unfoldable pub listen_message : j.Value → App → App
  listen_message message app =
      if is_text j (j.item message (codes "state")) (codes "ready")
        && is_text j (j.item message (codes "mode")) (codes "auto")
      then (let (app', armed) = arm_continuous app in
          if armed then service_playback_idle app' else app')
      else app

  unfoldable pub alert_message : j.Value → App → App
  alert_message message app =
      let dropped = drop_playback (stop_capture (clear_pending_tts_stop app)) in
      let aborted = (state_apply dropped abort).0 in
      emit
        (show_error (string_of j (j.item message (codes "code")))
          (string_of j (j.item message (codes "message"))))
        (request_wake_arm_when_playback_idle aborted)

  unfoldable pub mcp_message : Setting → j.Value → App → App
  mcp_message setting message app = if not setting.mcp_enabled then app else elim app.mcp_task [
    | none ↦ app
    | some task ↦
        (let (result, task') =
            enqueue j task (some message) (some setting.session_id) setting.mcp_allocated in
          record app { mcp_task = some task' })
  ]

  unfoldable pub device_message : j.Value → App → App
  device_message message app =
      if is_text j (j.item message (codes "state")) (codes "paired")
      then record app { pairing_required = false }
      else app

  -- The session of a message, where it has one, is the session of the transport.
  unfoldable pub session_passes : Setting → j.Value → Bool
  session_passes setting message = elim (j.item message (codes "session_id")) [
    | none ↦ true
    | some incoming ↦
        j.is_string incoming
        && session_matches (some setting.session_id) true (j.valuestring incoming)
  ]

  unfoldable pub session_message : Setting → j.Value → List ℕ → App → App
  session_message setting message type app =
      if not (session_passes setting message)
      then app
      else if str_eq type (codes "mcp")
      then mcp_message setting message app
      else if str_eq type (codes "device")
      then device_message message app
      else if str_eq type (codes "tts")
      then tts_message setting message app
      else if str_eq type (codes "listen")
      then listen_message message app
      else if str_eq type (codes "alert")
      then alert_message message app
      else app

  unfoldable pub text_callback : Setting → j.Value → App → App
  text_callback setting message app = elim (string_of j (j.item message (codes "type"))) [
    | none ↦ app
    | some type ↦
        if str_eq type (codes "hello")
        then hello_message setting (is_true j (j.item message (codes "pairing_required"))) app
        else session_message setting message type app
  ]
