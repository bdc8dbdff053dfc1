-- ===== src/Conversation/Ending.antt =====
-- The end of a connection: what is left of the conversation.
use veetee_vuqb.Base.{
  ℕ, ◌+◌, ◌%◌, ◌^◌, ◌≡◌, refl, Bool, true, false, if◌then◌else◌, List, [], ◌∷◌, arith,
}
use veetee_vuqb.Json.{CJson}
use veetee_vuqb.Device.{Machine, Event, idle, disconnect, apply, state_eq}
use veetee_vuqb.Transport.Setup.{stop_client}
use veetee_vuqb.Conversation.{
  App, manual, WakeCommand, arm, wake_command_depth, queue_send, is_empty, take_lock,
  request_wake_arm, state_apply, clear_pending_tts_stop,
}
use veetee_vuqb.Conversation.Connecting.{Link, end_connection}

-- The generation of a machine after a disconnect.
abbrev pub after_cut : Machine → ℕ
after_cut m = if state_eq m.state idle then m.generation else (m.generation + 1) % 2 ^ 32

-- What the end of a connection leaves: an idle device that captures nothing and waits for nothing, asks for
-- its wake word and has no client. The packets that wait to be played stay, and a turn that was cut advances
-- the generation.
pub record IsRested (old : App) (link : Link) : Type 0 where
  pub state : link.app.machine.state ≡ idle
  pub capture : link.app.capture_active ≡ false
  pub auto_capture : link.app.wake_auto_capture ≡ false
  pub duplex : link.app.duplex_capture ≡ false
  pub stop : link.app.tts_stop_pending ≡ false
  pub rearm : link.app.wake_rearm_pending ≡ false
  pub continuous : link.app.continuous_capture_pending ≡ false
  pub turn : link.app.tts_turn_id ≡ []
  pub mode : link.app.interaction_mode ≡ manual
  pub queue : link.app.playback_queue ≡ old.playback_queue
  pub generation : link.app.machine.generation ≡ after_cut old.machine
  pub armed : is_empty link.app.wake_command_queue ≡ false
  pub ready : link.transport.ready ≡ false
  pub client : link.transport.client ≡ false
  pub takes : link.app.takes ≡ []

disconnect-generation : (m : Machine) → (apply m disconnect).0.generation ≡ after_cut m
unfolding apply state_eq
disconnect-generation m = ground arith

disconnect-idle : (m : Machine) → (apply m disconnect).0.state ≡ idle
unfolding apply state_eq
disconnect-idle m = ground arith

sent-filled : (q : List WakeCommand) → is_empty (queue_send wake_command_depth q arm) ≡ false
sent-filled [] = refl
sent-filled (c ∷ cs) = ground arith

pub take_lock-free : (app : App) → app.takes ≡ [] → take_lock app ≡ (app, true)
unfolding take_lock
take_lock-free app taken = ground arith

clear-free :
    (app : App)
    → app.takes ≡ []
    → clear_pending_tts_stop app ≡ record app {
      tts_stop_pending = false;
      wake_rearm_pending = false;
      continuous_capture_pending = false;
      duplex_capture = false;
      tts_turn_id = [];
    }
unfolding clear_pending_tts_stop
clear-free app taken = rw (clear_pending_tts_stop, take_lock-free app taken) refl

pub state_apply-free :
    (app : App) (event : Event)
    → app.takes ≡ []
    → (state_apply app event).0 ≡ record app { machine = (apply app.machine event).0 }
unfolding state_apply
state_apply-free app event taken = rw (state_apply, take_lock-free app taken) refl

-- The application at the end of a connection.
abbrev rested : App → App
rested app = record app {
  machine = (apply app.machine disconnect).0;
  wake_command_queue = queue_send wake_command_depth app.wake_command_queue arm;
  capture_active = false;
  wake_auto_capture = false;
  duplex_capture = false;
  tts_stop_pending = false;
  wake_rearm_pending = false;
  continuous_capture_pending = false;
  tts_turn_id = [];
  interaction_mode = manual;
}

module _ (j : CJson) where
  end_connection-rested :
      (up : Bool) (link : Link)
      → link.app.takes ≡ []
      → (end_connection j up link).app ≡ rested link.app
  unfolding end_connection request_wake_arm
  end_connection-rested up link taken =
      let silent = record link.app { capture_active = false; wake_auto_capture = false } in
      rw (end_connection, clear-free silent taken)
        (state_apply-free (record (rested link.app) { machine = link.app.machine }) disconnect
          taken)

  pub end_connection-IsRested :
      (up : Bool) (link : Link) → link.app.takes ≡ [] → IsRested link.app (end_connection j up link)
  unfolding end_connection stop_client
  end_connection-IsRested up link taken =
      let e = end_connection-rested up link taken in
      record {
        state = rw e (disconnect-idle link.app.machine);
        capture = rw e refl;
        auto_capture = rw e refl;
        duplex = rw e refl;
        stop = rw e refl;
        rearm = rw e refl;
        continuous = rw e refl;
        turn = rw e refl;
        mode = rw e refl;
        queue = rw e refl;
        generation = rw e (disconnect-generation link.app.machine);
        armed = rw e (sent-filled link.app.wake_command_queue);
        ready = refl;
        client = refl;
        takes = rw e taken;
      }
