-- ===== src/Conversation/Stops.antt =====
-- A graceful stop from its message to the end of the turn, and what an alert leaves.
use veetee_vuqb.Base.{
  ℕ, ◌≡◌, refl, Bool, true, false, not, ◌&&◌, if◌then◌else◌, Option, none, some, List, [], ◌∷◌,
  length, arith, ap, ◌∙◌,
}
use veetee_vuqb.Base.Text.{codes}
use veetee_vuqb.Json.{CJson, string_of, is_text, is_true}
use veetee_vuqb.Device.{speaking, state_eq, is_interruptible, apply}
use veetee_vuqb.Conversation.{
  App, is_auto, WakeCommand, wake_command_depth, queue_send, is_empty, take_lock, state_apply,
  request_wake_arm, complete_stop, take_capture, take_rearm, service_playback_idle,
  request_wake_arm_when_playback_idle, clear_pending_tts_stop, schedule_graceful_tts_stop,
}
use veetee_vuqb.Conversation.Messages.{
  Setting, is_stale, stop_capture, graceful_stop, tts_stop_message, alert_message, text_callback,
}
use veetee_vuqb.Conversation.Barrier.{play_all, after_rounds, ended, play_all-ends}
use veetee_vuqb.Conversation.Turns.{IsStop, asked, arm-asked, text_callback-stop}

-- The application with a graceful stop that waits: it captures nothing more, and keeps no turn id.
abbrev pub stopping : App → App
stopping app = record (stop_capture app) {
  tts_stop_pending = true;
  pending_tts_stop_mode = app.interaction_mode;
  wake_rearm_pending = is_auto app.interaction_mode && not app.continuous_capture_pending;
  tts_turn_id = [];
}

graceful_stop-stopping :
    (app : App)
    → app.machine.state ≡ speaking
    → app.takes ≡ []
    → is_empty app.playback_queue ≡ false
    → graceful_stop app.interaction_mode app ≡ stopping app
unfolding graceful_stop schedule_graceful_tts_stop service_playback_idle take_lock state_eq
graceful_stop-stopping app is_speaking taken waiting = ground arith

stale-asked :
    (turn_id : Option (List ℕ)) (continue : Bool) (app : App)
    → is_stale turn_id (asked continue app) ≡ is_stale turn_id app
unfolding is_stale
stale-asked none continue app = refl
stale-asked (some turn_id) continue app = refl

module _ (j : CJson) where
  text_callback-stopping :
      (setting : Setting) (message : j.Value) (app : App)
      → IsStop j setting message
      → is_stale (string_of j (j.item message (codes "turn_id"))) app ≡ false
      → (is_text j (j.item message (codes "reason")) (codes "barge_in") && app.duplex_capture)
        ≡ false
      → app.machine.state ≡ speaking
      → app.takes ≡ []
      → is_empty app.playback_queue ≡ false
      → text_callback j setting message app
        ≡ stopping (asked (is_true j (j.item message (codes "continue_listening"))) app)
  unfolding tts_stop_message
  text_callback-stopping setting message app v current graceful is_speaking taken waiting =
      let continue = is_true j (j.item message (codes "continue_listening")) in
      let armed = asked continue app in
      text_callback-stop j setting message app v
      ∙ rw
          (
            tts_stop_message,
            arm-asked continue app taken,
            stale-asked (string_of j (j.item message (codes "turn_id"))) continue app,
            current,
            graceful,
          )
          refl
      ∙ graceful_stop-stopping armed is_speaking taken waiting

  -- A graceful stop while packets wait plays them all and then ends the turn: after the message, a round
  -- of the player for each packet plays the packets in their order, each where the decoder's lock was
  -- taken, and leaves the turn ended. The message is a stop of the session that is not stale and no
  -- acoustic barge-in, the device speaks, and the takes of the state lock succeed.
  pub stop-plays_out :
      (setting : Setting) (message : j.Value) (app : App) (locks : List Bool) (packet : List ℕ)
      (packets : List (List ℕ))
      → IsStop j setting message
      → is_stale (string_of j (j.item message (codes "turn_id"))) app ≡ false
      → (is_text j (j.item message (codes "reason")) (codes "barge_in") && app.duplex_capture)
        ≡ false
      → app.machine.state ≡ speaking
      → app.takes ≡ []
      → app.playback_queue ≡ packet ∷ packets
      → length locks ≡ length (packet ∷ packets)
      → play_all locks (text_callback j setting message app)
        ≡ ended (
            after_rounds locks []
              (stopping (asked (is_true j (j.item message (codes "continue_listening"))) app)))
  stop-plays_out setting message app locks packet packets v current graceful is_speaking taken queue
        same =
      let stopped =
        stopping (asked (is_true j (j.item message (codes "continue_listening"))) app) in
      ap (play_all locks) (
        text_callback-stopping setting message app v current graceful is_speaking taken
          (ap is_empty queue))
      ∙ play_all-ends locks stopped packet packets queue same refl is_speaking taken

-- What an alert leaves: silence, with nothing captured and no stop that waits, a device that neither
-- thinks nor speaks, and the wake detector asked to be armed, once the packet in hand is played. It needs
-- every take of the state lock to succeed: a take that times out leaves its part of this undone.
pub alert-silences :
    (j : CJson) (message : j.Value) (app : App)
    → app.takes ≡ []
    → let after = alert_message j message app in
      (after.playback_queue ≡ [])
      × (is_interruptible after.machine.state ≡ false)
      × (after.capture_active ≡ false)
      × (after.tts_stop_pending ≡ false)
      × (after.wake_rearm_pending ≡ app.playback_busy)
      × (after.wake_command_queue ≡ (
          if app.playback_busy
          then app.wake_command_queue
          else queue_send wake_command_depth app.wake_command_queue WakeCommand.arm))
unfolding alert_message clear_pending_tts_stop request_wake_arm_when_playback_idle
    service_playback_idle take_lock complete_stop take_capture take_rearm state_apply
    request_wake_arm apply is_interruptible state_eq
alert-silences j message app taken = ground arith
