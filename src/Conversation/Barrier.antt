-- ===== src/Conversation/Barrier.antt =====
-- The graceful end of a turn: what was received before the stop is played before the turn ends.
use veetee_vuqb.Base.{
  ℕ, ◌≡◌, refl, Bool, true, false, not, ◌&&◌, ◌||◌, if◌then◌else◌, List, [], ◌∷◌, ◌++◌, length,
  arith, append_assoc, append-nil, ap, ◌∙◌,
}
use veetee_vuqb.Device.{idle, listening, speaking, apply}
use veetee_vuqb.Conversation.{
  App, Effect, WakeCommand, take_capture, take_rearm, play, auto, is_auto, wake_command_depth,
  is_empty, queue_send, take_lock, request_wake_arm, state_read, state_apply, complete_stop,
  start_continuous_capture, service_playback_idle,
}
use veetee_vuqb.Conversation.Packets.{begin_round, end_round, playback_round}

-- Rounds of playback_task, one for each answer of the decoder's lock.
pub play_all : List Bool → App → App
play_all [] app = app
play_all (locked ∷ locks) app = play_all locks (playback_round locked app)

-- What these rounds play of the packets that wait.
pub played : List Bool → List (List ℕ) → List Effect
played [] packets = []
played (locked ∷ locks) [] = []
played (locked ∷ locks) (packet ∷ packets) =
    if locked then play packet ∷ played locks packets else played locks packets

-- The application with another queue and what was played added.
abbrev pub after_rounds : List Bool → List (List ℕ) → App → App
after_rounds locks packets app = record app {
  playback_queue = packets;
  playback_busy = false;
  effects = app.effects ++ played locks app.playback_queue;
}

-- An application whose turn has ended: it listens, for the next turn of a continuous conversation or for
-- the wake word, or it is idle.
abbrev pub ended : App → App
ended app =
    let continuous = app.continuous_capture_pending in
    let is_auto_turn = is_auto app.pending_tts_stop_mode in
    record app {
      machine = record app.machine {
        state = if continuous || is_auto_turn then listening else idle;
      };
      tts_stop_pending = false;
      wake_rearm_pending = false;
      continuous_capture_pending = false;
      interaction_mode = if continuous then auto else app.interaction_mode;
      capture_active = continuous || app.capture_active;
      wake_auto_capture = continuous || app.wake_auto_capture;
      wake_command_queue =
          if app.wake_rearm_pending || not continuous && is_auto_turn
          then queue_send wake_command_depth app.wake_command_queue WakeCommand.arm
          else app.wake_command_queue;
    }

service-ends :
    (app : App)
    → app.tts_stop_pending ≡ true
    → app.machine.state ≡ speaking
    → app.takes ≡ []
    → app.playback_busy ≡ false
    → app.playback_queue ≡ []
    → service_playback_idle app ≡ ended app
unfolding service_playback_idle take_lock complete_stop start_continuous_capture state_read
    state_apply request_wake_arm apply take_capture take_rearm
service-ends app pending is_speaking taken quiet empty = ground arith

-- One round on a queue with a packet.
round-plays :
    (locked : Bool) (app : App) (packet : List ℕ) (packets : List (List ℕ))
    → app.playback_queue ≡ packet ∷ packets
    → playback_round locked app ≡ service_playback_idle (after_rounds (locked ∷ []) packets app)
unfolding playback_round begin_round end_round played
round-plays true app packet packets queue = rw queue refl
round-plays false app packet packets queue = rw (queue, append-nil app.effects) refl

-- While packets wait behind it, a round changes nothing else.
round-waits :
    (locked : Bool) (app : App) (packet : List ℕ) (packets : List (List ℕ))
    → app.playback_queue ≡ packet ∷ packets
    → is_empty packets ≡ false
    → playback_round locked app ≡ after_rounds (locked ∷ []) packets app
unfolding service_playback_idle
round-waits locked app packet packets queue more =
    round-plays locked app packet packets queue ∙ rw more refl

more-packets :
    (front : List (List ℕ)) (next : List ℕ) (packets : List (List ℕ))
    → is_empty (front ++ (next ∷ packets)) ≡ false
more-packets [] next packets = refl
more-packets (p ∷ front) next packets = refl

-- The rounds of two lists of answers are those of the first, then those of the second.
played-∷ :
    (locked : Bool) (locks : List Bool) (packet : List ℕ) (packets : List (List ℕ))
    → played (locked ∷ []) (packet ∷ packets) ++ played locks packets
      ≡ played (locked ∷ locks) (packet ∷ packets)
unfolding played
played-∷ true locks packet packets = refl
played-∷ false locks packet packets = refl

after_rounds-∷ :
    (locked : Bool) (locks : List Bool) (packet : List ℕ) (packets rest : List (List ℕ)) (app : App)
    → app.playback_queue ≡ packet ∷ packets
    → after_rounds locks rest (after_rounds (locked ∷ []) packets app)
      ≡ after_rounds (locked ∷ locks) rest app
after_rounds-∷ locked locks packet packets rest app queue =
    ap (λ e. record app { playback_queue = rest; playback_busy = false; effects = e })
      (rw
        (
          queue,
          append_assoc app.effects (played (locked ∷ []) (packet ∷ packets)) (played locks packets),
          played-∷ locked locks packet packets,
        )
        refl)

-- As long as rounds leave packets in the queue, they play packets and change nothing else: a graceful
-- stop that waits does not end the turn before the queue is empty.
play_all-waits :
    (locks : List Bool) (app : App) (next : List ℕ) (front packets : List (List ℕ))
    → app.playback_queue ≡ front ++ (next ∷ packets)
    → length locks ≡ length front
    → app.playback_busy ≡ false
    → play_all locks app ≡ after_rounds locks (next ∷ packets) app
unfolding play_all played
play_all-waits [] app next [] packets queue same quiet = ground (arith, append-nil app.effects)
play_all-waits [] app next (p ∷ front) packets queue same quiet = absurd (omega arith)
play_all-waits (l ∷ locks) app next [] packets queue same quiet = absurd (omega arith)
play_all-waits (l ∷ locks) app next (p ∷ front) packets queue same quiet =
    let rest = front ++ (next ∷ packets) in
    let once = after_rounds (l ∷ []) rest app in
    ap (play_all locks) (round-waits l app p rest queue (more-packets front next packets))
    ∙ play_all-waits locks once next front packets refl (omega arith) refl
    ∙ after_rounds-∷ l locks p rest (next ∷ packets) app queue

-- A graceful stop that waits comes to its end: a round for each packet of the queue plays the packets in
-- their order, each where the lock of the decoder was taken, and then the turn ends, when the takes of
-- the state lock succeed.
pub play_all-ends :
    (locks : List Bool) (app : App) (p : List ℕ) (packets : List (List ℕ))
    → app.playback_queue ≡ p ∷ packets
    → length locks ≡ length (p ∷ packets)
    → app.tts_stop_pending ≡ true
    → app.machine.state ≡ speaking
    → app.takes ≡ []
    → play_all locks app ≡ ended (after_rounds locks [] app)
unfolding play_all
play_all-ends [] app p packets queue same pending is_speaking taken = absurd (omega arith)
play_all-ends (l ∷ []) app p [] queue same pending is_speaking taken =
    round-plays l app p [] queue
    ∙ service-ends (after_rounds (l ∷ []) [] app) pending is_speaking taken refl refl
play_all-ends (l ∷ m ∷ locks) app p [] queue same pending is_speaking taken = absurd (omega arith)
play_all-ends (l ∷ locks) app p (next ∷ packets) queue same pending is_speaking taken =
    let once = after_rounds (l ∷ []) (next ∷ packets) app in
    ap (play_all locks) (round-waits l app p (next ∷ packets) queue refl)
    ∙ play_all-ends locks once next packets refl (omega arith) pending is_speaking taken
    ∙ ap ended (after_rounds-∷ l locks p (next ∷ packets) [] app queue)
