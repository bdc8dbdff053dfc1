-- ===== src/Conversation/Callbacks.antt =====
-- The callbacks and the rounds keep the bounds of the queues and of the turn id, and take the state
-- machine only along its own transitions.
use veetee_vuqb.Base.{
  ℕ, refl, Bool, true, false, not, inl, inr, if◌then◌else◌, Option, none, some, List, [], arith,
  Option-cases, str_eq,
}
use veetee_vuqb.Base.Text.{codes}
use veetee_vuqb.Json.{CJson, string_of, is_text, is_true}
use veetee_vuqb.Device.{hello_ready, tts_start, abort}
use veetee_vuqb.Device.Runs.{run}
use veetee_vuqb.Conversation.{
  App, InteractionMode, reset_decoder, emit, take_lock, state_apply, clear_pending_tts_stop,
  schedule_graceful_tts_stop,
}
use veetee_vuqb.Conversation.Messages.{
  Setting, drop_playback, stop_capture, arm_continuous, hello_message, keep_turn_id, begin_speaking,
  barge_in, graceful_stop, tts_start_message, tts_stop_message, tts_message, listen_message,
  alert_message, mcp_message, device_message, session_passes, session_message, text_callback,
}
use veetee_vuqb.Conversation.Keeping.{
  Keeps, Keeps-trans, Keeps-other, Keeps-refl, if-Keeps, if-Keeps-first, take_lock-Keeps,
  request_wake_arm-Keeps, state_apply-Keeps, service_playback_idle-Keeps,
  request_wake_arm_when_playback_idle-Keeps, clear_pending_tts_stop-Keeps,
  schedule_graceful_tts_stop-Keeps,
}

pub drop_playback-Keeps : (a : App) → Keeps a (drop_playback a)
unfolding run
drop_playback-Keeps a = record {
  queue = inr refl;
  depth = refl;
  commands = λ h. h;
  turn = λ h. h;
  events = [];
  moves = refl;
}

arm_continuous-Keeps : (a : App) → Keeps a (arm_continuous a).0
unfolding arm_continuous
arm_continuous-Keeps a =
    let app = (take_lock a).0 in
    let armed = record app { continuous_capture_pending = true; wake_rearm_pending = false } in
    Keeps-trans a app _ (take_lock-Keeps a) (
      if-Keeps-first _ (armed, true) (app, false) (Keeps-other app armed refl refl refl refl refl)
        (Keeps-refl app))

hello_message-Keeps :
    (setting : Setting) (pairing : Bool) (a : App) → Keeps a (hello_message setting pairing a)
unfolding hello_message
hello_message-Keeps setting pairing a =
    Keeps-trans a _ _ (Keeps-other a _ refl refl refl refl refl) (state_apply-Keeps _ hello_ready)

keep_turn_id-Keeps : (turn_id : Option (List ℕ)) (a : App) → Keeps a (keep_turn_id turn_id a)
unfolding keep_turn_id run
keep_turn_id-Keeps none a = Keeps-refl a
keep_turn_id-Keeps (some turn_id) a = record {
  queue = inl (ground arith);
  depth = ground arith;
  commands = λ h. ground arith;
  turn = λ h. ground arith;
  events = [];
  moves = ground arith;
}

begin_speaking-Keeps : (setting : Setting) (a : App) → Keeps a (begin_speaking setting a)
unfolding begin_speaking
begin_speaking-Keeps setting a =
    let app = (state_apply a tts_start).0 in
    Keeps-trans a app _ (state_apply-Keeps a tts_start)
      (if-Keeps _ (request_wake_arm-Keeps app) (Keeps-refl app))

barge_in-Keeps : (a : App) → Keeps a (barge_in a)
unfolding barge_in
barge_in-Keeps a =
    let cleared = clear_pending_tts_stop a in
    let kept = record cleared { capture_active = true; wake_auto_capture = true } in
    let reset = emit reset_decoder (drop_playback kept) in
    Keeps-trans a cleared _ (clear_pending_tts_stop-Keeps a) (
      Keeps-trans cleared kept _ (Keeps-other cleared kept refl refl refl refl refl) (
        Keeps-trans kept (drop_playback kept) _ (drop_playback-Keeps kept) (
          Keeps-trans (drop_playback kept) reset _
            (Keeps-other (drop_playback kept) reset refl refl refl refl refl)
            (state_apply-Keeps reset abort))))

graceful_stop-Keeps : (mode : InteractionMode) (a : App) → Keeps a (graceful_stop mode a)
unfolding graceful_stop run
graceful_stop-Keeps mode a =
    let app = (schedule_graceful_tts_stop a mode).0 in
    Keeps-trans a app _ (schedule_graceful_tts_stop-Keeps a mode) (
      if-Keeps _
        (record {
          queue = inl refl;
          depth = refl;
          commands = λ h. h;
          turn = λ h. omega arith;
          events = [];
          moves = refl;
        })
        (Keeps-refl app))

module _ (j : CJson) where
  tts_start_message-Keeps :
      (setting : Setting) (message : j.Value) (a : App)
      → Keeps a (tts_start_message j setting message a)
  unfolding tts_start_message
  tts_start_message-Keeps setting message a =
      let turn_id = string_of j (j.item message (codes "turn_id")) in
      let cleared = clear_pending_tts_stop a in
      let named = keep_turn_id turn_id cleared in
      let dropped = drop_playback named in
      Keeps-trans a cleared _ (clear_pending_tts_stop-Keeps a) (
        Keeps-trans cleared named _ (keep_turn_id-Keeps turn_id cleared) (
          Keeps-trans named dropped _ (drop_playback-Keeps named) (
            Keeps-trans dropped _ _ (Keeps-other dropped _ refl refl refl refl refl)
              (begin_speaking-Keeps setting _))))

  tts_stop_message-Keeps : (message : j.Value) (a : App) → Keeps a (tts_stop_message j message a)
  unfolding tts_stop_message
  tts_stop_message-Keeps message a =
      let armed =
        if is_true j (j.item message (codes "continue_listening"))
        then (arm_continuous a).0
        else a in
      Keeps-trans a armed _ (if-Keeps _ (arm_continuous-Keeps a) (Keeps-refl a)) (
        if-Keeps _ (Keeps-refl armed)
          (if-Keeps _ (barge_in-Keeps armed) (graceful_stop-Keeps a.interaction_mode armed)))

  tts_message-Keeps :
      (setting : Setting) (message : j.Value) (a : App) → Keeps a (tts_message j setting message a)
  unfolding tts_message
  tts_message-Keeps setting message a =
      elim (Option-cases (string_of j (j.item message (codes "state")))) [
        | inl e ↦ rw (tts_message, e) (Keeps-refl a)
        | inr (state, e) ↦
            rw (tts_message, e)
              (if-Keeps _ (tts_start_message-Keeps setting message a)
                (if-Keeps _ (tts_stop_message-Keeps message a) (Keeps-refl a)))
      ]

  listen_message-Keeps : (message : j.Value) (a : App) → Keeps a (listen_message j message a)
  unfolding listen_message
  listen_message-Keeps message a =
      let app = (arm_continuous a).0 in
      if-Keeps _
        (Keeps-trans a app _ (arm_continuous-Keeps a)
          (if-Keeps _ (service_playback_idle-Keeps app) (Keeps-refl app)))
        (Keeps-refl a)

  alert_message-Keeps : (message : j.Value) (a : App) → Keeps a (alert_message j message a)
  unfolding alert_message
  alert_message-Keeps message a =
      let cleared = clear_pending_tts_stop a in
      let stopped = stop_capture cleared in
      let dropped = drop_playback stopped in
      let aborted = (state_apply dropped abort).0 in
      Keeps-trans a cleared _ (clear_pending_tts_stop-Keeps a) (
        Keeps-trans cleared stopped _ (Keeps-other cleared stopped refl refl refl refl refl) (
          Keeps-trans stopped dropped _ (drop_playback-Keeps stopped) (
            Keeps-trans dropped aborted _ (state_apply-Keeps dropped abort) (
              Keeps-trans aborted _ _ (request_wake_arm_when_playback_idle-Keeps aborted)
                (Keeps-other _ _ refl refl refl refl refl)))))

  mcp_message-Keeps :
      (setting : Setting) (message : j.Value) (a : App) → Keeps a (mcp_message j setting message a)
  unfolding mcp_message
  mcp_message-Keeps setting message a =
      Keeps-other a (mcp_message j setting message a) (ground arith) (ground arith) (ground arith)
        (ground arith) (ground arith)

  device_message-Keeps : (message : j.Value) (a : App) → Keeps a (device_message j message a)
  unfolding device_message
  device_message-Keeps message a =
      if-Keeps (is_text j (j.item message (codes "state")) (codes "paired"))
        (Keeps-other a (record a { pairing_required = false }) refl refl refl refl refl)
        (Keeps-refl a)

  session_message-Keeps :
      (setting : Setting) (message : j.Value) (type : List ℕ) (a : App)
      → Keeps a (session_message j setting message type a)
  unfolding session_message
  session_message-Keeps setting message type a =
      if-Keeps (not (session_passes j setting message)) (Keeps-refl a) (
        if-Keeps (str_eq type (codes "mcp")) (mcp_message-Keeps setting message a) (
          if-Keeps (str_eq type (codes "device")) (device_message-Keeps message a) (
            if-Keeps (str_eq type (codes "tts")) (tts_message-Keeps setting message a) (
              if-Keeps (str_eq type (codes "listen")) (listen_message-Keeps message a) (
                if-Keeps (str_eq type (codes "alert")) (alert_message-Keeps message a)
                  (Keeps-refl a))))))

  -- Every message of the server, of whatever type and content, leaves the playback queue as it is or
  -- empties it, keeps the wake commands and the turn id within their bounds, and leaves the machine in a
  -- state that some events of the state machine lead to.
  pub text_callback-Keeps :
      (setting : Setting) (message : j.Value) (a : App)
      → Keeps a (text_callback j setting message a)
  unfolding text_callback
  text_callback-Keeps setting message a =
      elim (Option-cases (string_of j (j.item message (codes "type")))) [
        | inl e ↦ rw (text_callback, e) (Keeps-refl a)
        | inr (type, e) ↦
            rw (text_callback, e)
              (if-Keeps _
                (hello_message-Keeps setting (is_true j (j.item message (codes "pairing_required")))
                  a)
                (session_message-Keeps setting message type a))
      ]
