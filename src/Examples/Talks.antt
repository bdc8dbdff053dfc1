-- ===== src/Examples/Talks.antt =====
-- A conversation: audio in two packets, a graceful stop, a stale stop, an alert, a foreign message.
use veetee_vuqb.Base.{
  ℕ, ◌≡◌, refl, true, false, none, some, List, [], ◌∷◌, replicate, str_eq, arith,
}
use veetee_vuqb.Base.Text.{codes}
use veetee_vuqb.WireGuard.{session_matches}
use veetee_vuqb.Device.{speaking, state_eq, is_interruptible}
use veetee_vuqb.Protocol.{AudioFrame}
use veetee_vuqb.Protocol.Wire.{IsSendable}
use veetee_vuqb.Conversation.{App, InteractionMode, WakeCommand, wake_command_depth, queue_send}
use veetee_vuqb.Conversation.Messages.{
  Setting, session_passes, is_stale, text_callback, alert_message,
}
use veetee_vuqb.Conversation.Barrier.{play_all, after_rounds, ended}
use veetee_vuqb.Conversation.Turns.{IsStop, asked, text_callback-stale}
use veetee_vuqb.Conversation.Stops.{stopping, stop-plays_out, alert-silences}
use veetee_vuqb.Conversation.Reach.{IsBounded}
use veetee_vuqb.Ptt.{no_event, update}
use veetee_vuqb.Conversation.Polling.{PttTask, Round, is_due, poll}
use veetee_vuqb.Conversation.Waking.{IsListening, poll-IsListening}
use veetee_vuqb.Examples.Trees.{Json, text, flag, empty, field, json}

abbrev pub setting : Setting
setting = record {
  mcp_enabled = true;
  wake_during_playback = true;
  session_id = codes "s1";
  aec_ready = false;
  mcp_locked = true;
  mcp_allocated = true;
}

abbrev pub talking : App
talking = record {
  machine = record { state = speaking; generation = 4 };
  playback_queue = (1 ∷ []) ∷ (2 ∷ []) ∷ [];
  playback_depth = 8;
  wake_command_queue = [];
  mcp_task = none;
  capture_active = false;
  duplex_capture = false;
  playback_busy = false;
  wake_rearm_pending = false;
  continuous_capture_pending = false;
  pairing_required = false;
  tts_stop_pending = false;
  wake_auto_capture = false;
  interaction_mode = InteractionMode.auto;
  pending_tts_stop_mode = InteractionMode.manual;
  tts_turn_id = codes "t2";
  takes = [];
  effects = [];
}

-- A message of a session and of a type, with further fields.
abbrev of_session : List ℕ → List ℕ → Json → Json
of_session session type rest =
    field (codes "type") (text type) (field (codes "session_id") (text session) rest)

abbrev stop_of : List ℕ → Json
stop_of turn_id = of_session (codes "s1") (codes "tts") (
    field (codes "state") (text (codes "stop")) (
      field (codes "turn_id") (text turn_id)
        (field (codes "continue_listening") (flag true) empty)))

stop_of-IsStop : (turn_id : List ℕ) → IsStop json setting (stop_of turn_id)
unfolding session_passes session_matches str_eq
stop_of-IsStop turn_id = record { own = refl; type = refl; state = refl }

is_current : is_stale (some (codes "t2")) talking ≡ false
unfolding is_stale str_eq
is_current = refl

stop-plays_out_example :
    play_all (true ∷ false ∷ []) (text_callback json setting (stop_of (codes "t2")) talking)
    ≡ ended (after_rounds (true ∷ false ∷ []) [] (stopping (asked true talking)))
unfolding str_eq
stop-plays_out_example =
    stop-plays_out json setting (stop_of (codes "t2")) talking (true ∷ false ∷ []) (1 ∷ [])
      ((2 ∷ []) ∷ []) (stop_of-IsStop (codes "t2")) is_current refl refl refl refl refl

text_callback-stale_example :
    text_callback json setting (stop_of (codes "t")) talking ≡ asked true talking
unfolding str_eq
text_callback-stale_example =
    text_callback-stale json setting (stop_of (codes "t")) talking (codes "t")
      (stop_of-IsStop (codes "t")) refl (λ q. cc) (λ q. cc) refl

alert-silences_example :
    let after = alert_message json (of_session (codes "s1") (codes "alert") empty) talking in
    (after.playback_queue ≡ [])
    × (is_interruptible after.machine.state ≡ false)
    × (after.capture_active ≡ false)
    × (after.tts_stop_pending ≡ false)
    × (after.wake_rearm_pending ≡ false)
    × (after.wake_command_queue ≡ queue_send wake_command_depth [] WakeCommand.arm)
alert-silences_example =
    alert-silences json (of_session (codes "s1") (codes "alert") empty) talking refl

pub talking-IsBounded : IsBounded talking
talking-IsBounded = record {
  queue = omega arith;
  packets = (omega arith, (omega arith, tt));
  commands = omega arith;
  turn = omega arith;
}

abbrev pub sent : AudioFrame
sent = record { profile = 1; payload = some (7 ∷ 8 ∷ []); payload_len = 2; timestamp_ms = 5 }

pub sent-IsSendable : IsSendable sent (7 ∷ 8 ∷ []) (replicate 8 0) 8
sent-IsSendable = record {
  known = (omega arith, omega arith);
  sized = (omega arith, omega arith);
  readable = omega arith;
  room = omega arith;
  writable = omega arith;
}

abbrev pub waiting : PttTask
waiting = record {
  debouncer = record {
    stable = false;
    candidate = false;
    consecutive_samples = 3;
    debounce_samples = 3;
  };
  pending_start = false;
  pending_auto = false;
  retry_after = 0;
}

abbrev woken : Round
woken = record { woken = true; active = false; ready = true; now = 500; sent = true }

still : (update waiting.debouncer false).1 ≡ no_event
unfolding update
still = refl

due : is_due 500 0 ≡ true
unfolding is_due
due = refl

interruptible : is_interruptible speaking ≡ true
unfolding is_interruptible state_eq
interruptible = refl

poll-IsListening_example : IsListening (poll woken waiting talking)
poll-IsListening_example =
    poll-IsListening woken waiting talking refl interruptible refl still due refl
