-- ===== src/Conversation/Waking.antt =====
-- A wake word over a turn that thinks or speaks.
use veetee_vuqb.Base.{ℕ, ◌≡◌, refl, ap, true, false, List, [], arith}
use veetee_vuqb.Base.Text.{codes}
use veetee_vuqb.Device.{Machine, listening, abort, state_eq, is_interruptible, apply}
use veetee_vuqb.Ptt.{no_event, update}
use veetee_vuqb.Conversation.{
  App, auto, take_lock, request_wake_arm, state_apply, state_read, complete_stop, take_capture,
  take_rearm, service_playback_idle, request_wake_arm_when_playback_idle, clear_pending_tts_stop,
}
use veetee_vuqb.Conversation.Polling.{
  PttTask, Round, is_due, interrupt, on_wake, start_capture, try_start, poll,
}

-- What an interruption leaves: silence, a device that listens, and nothing of the turn that was cut.
pub record IsCut (a b : App) : Type 0 where
  pub state : b.machine.state ≡ listening
  pub queue : b.playback_queue ≡ []
  pub capture : b.capture_active ≡ false
  pub stop : b.tts_stop_pending ≡ false
  pub turn : b.tts_turn_id ≡ []
  pub continuous : b.continuous_capture_pending ≡ false
  pub takes : b.takes ≡ []

abort-listening :
    (m : Machine) → is_interruptible m.state ≡ true → (apply m abort).0.state ≡ listening
unfolding apply is_interruptible state_eq
abort-listening m h = ground arith

interrupt-IsCut :
    (reason : List ℕ) (a : App)
    → a.takes ≡ []
    → is_interruptible a.machine.state ≡ true
    → IsCut a (interrupt reason a)
unfolding interrupt clear_pending_tts_stop take_lock state_apply
interrupt-IsCut reason a taken h = record {
  state = ground (arith, abort-listening a.machine h);
  queue = ground arith;
  capture = ground arith;
  stop = ground arith;
  turn = ground arith;
  continuous = ground arith;
  takes = ground arith;
}

-- The part of service_playback_idle that a cut turn needs: nothing waits, so nothing of a cut turn changes.
rearm-IsCut : (a b : App) → IsCut a b → IsCut a (request_wake_arm_when_playback_idle b)
unfolding request_wake_arm_when_playback_idle service_playback_idle take_lock complete_stop
    take_capture take_rearm request_wake_arm
rearm-IsCut a b v = record {
  state = ground (arith, v.state);
  queue = ground (arith, v.queue);
  capture = ground (arith, v.capture);
  stop = ground (arith, v.stop);
  turn = ground (arith, v.turn);
  continuous = ground (arith, v.continuous);
  takes = ground (arith, v.takes);
}

on_wake-interrupts :
    (task : PttTask) (a : App)
    → a.takes ≡ []
    → is_interruptible a.machine.state ≡ true
    → on_wake task a ≡ (
      record task { pending_start = true; pending_auto = true },
      request_wake_arm_when_playback_idle (interrupt (codes "wake_word_detected") a),
    )
unfolding on_wake state_read take_lock
on_wake-interrupts task a taken h =
    rw (on_wake, state_read, take_lock, taken, h)
      (ap
        (λ ts. (
          record task { pending_start = true; pending_auto = true },
          request_wake_arm_when_playback_idle
              (interrupt (codes "wake_word_detected") (record a { takes = ts })),
        ))
        taken)

-- A new turn of the wake word that has begun: the device listens and captures in auto mode, with nothing of
-- the old turn left to play, and no start is pending any more.
abbrev pub IsListening : PttTask × App → Type 0
IsListening (task, b) =
    (b.machine.state ≡ listening)
    × (b.playback_queue ≡ [])
    × (b.capture_active ≡ true)
    × (b.wake_auto_capture ≡ true)
    × (b.interaction_mode ≡ auto)
    × (b.tts_stop_pending ≡ false)
    × (task.pending_start ≡ false)

try_start-IsListening :
    (round : Round) (task : PttTask) (a b : App)
    → IsCut a b
    → task.pending_start ≡ true
    → task.pending_auto ≡ true
    → is_due round.now task.retry_after ≡ true
    → round.sent ≡ true
    → IsListening (try_start round task b)
unfolding try_start start_capture state_read state_apply take_lock apply state_eq
try_start-IsListening round task a b v start is_auto due sent = (
  ground (arith, v.takes, v.state, v.capture),
  ground (arith, v.takes, v.state, v.capture, v.queue),
  ground (arith, v.takes, v.state, v.capture),
  ground (arith, v.takes, v.state, v.capture),
  ground (arith, v.takes, v.state, v.capture),
  ground (arith, v.takes, v.state, v.capture, v.stop),
  ground (arith, v.takes, v.state, v.capture),
)

-- A wake word over a device that thinks or speaks cuts the turn and begins a new one in the same round: the
-- device listens and captures in auto mode, with the playback dropped, where the button does not change, a
-- start is due and is sent, and the takes of the state lock succeed.
pub poll-IsListening :
    (round : Round) (task : PttTask) (a : App)
    → a.takes ≡ []
    → is_interruptible a.machine.state ≡ true
    → round.woken ≡ true
    → (update task.debouncer round.active).1 ≡ no_event
    → is_due round.now task.retry_after ≡ true
    → round.sent ≡ true
    → IsListening (poll round task a)
unfolding poll
poll-IsListening round task a taken h woken still due sent =
    let cut = interrupt (codes "wake_word_detected") a in
    let task' : PttTask = record task {
      debouncer = (update task.debouncer round.active).0;
      pending_start = true;
      pending_auto = true;
    } in
    rw (poll, woken, on_wake-interrupts task a taken h, still)
      (try_start-IsListening (record round { woken = true }) task' a
        (request_wake_arm_when_playback_idle cut)
        (rearm-IsCut a cut (interrupt-IsCut (codes "wake_word_detected") a taken h)) refl refl due
        sent)
