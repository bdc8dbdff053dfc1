-- ===== src/Conversation/Keeping.antt =====
-- What every callback and every round keeps: the bounds of the queues and of the turn id, and the states
-- that the machine can be in.
use veetee_vuqb.Base.{
  ◌≤◌, ◌<◌, ◌≡◌, refl, sym, Bool, true, false, not, ◌&&◌, ◌⊎◌, inl, inr, if◌then◌else◌, List, [],
  ◌∷◌, ◌++◌, length, arith, ap, ◌∙◌, Bool-cases, length-append,
}
use veetee_vuqb.Device.{Machine, Event, thinking, abort, listen_start, speaking, state_eq, apply}
use veetee_vuqb.Device.Runs.{run}
use veetee_vuqb.Conversation.{
  App, InteractionMode, is_auto, WakeCommand, stop_event, finish_service, tts_turn_id_max,
  wake_command_depth, take_lock, request_wake_arm, state_apply, state_read, complete_stop,
  take_capture, take_rearm, start_continuous_capture, service_playback_idle,
  request_wake_arm_when_playback_idle, clear_pending_tts_stop, schedule_graceful_tts_stop,
}

-- From one application to another: the playback queue is the same or empty, with the same depth, the
-- wake commands and the turn id stay within their bounds, and some
-- events of the state machine lead from the one machine to the other.
pub record Keeps (a b : App) : Type 0 where
  pub queue : (b.playback_queue ≡ a.playback_queue) ⊎ (b.playback_queue ≡ [])
  pub depth : b.playback_depth ≡ a.playback_depth
  pub commands :
      length a.wake_command_queue ≤ wake_command_depth
      → length b.wake_command_queue ≤ wake_command_depth
  pub turn : length a.tts_turn_id < tts_turn_id_max → length b.tts_turn_id < tts_turn_id_max
  pub events : List Event
  pub moves : run a.machine events ≡ b.machine

run-++ : (m : Machine) (es fs : List Event) → run m (es ++ fs) ≡ run (run m es) fs
unfolding run
run-++ m [] fs = refl
run-++ m (e ∷ es) fs = run-++ (apply m e).0 es fs

pub Keeps-trans : (a b c : App) → Keeps a b → Keeps b c → Keeps a c
Keeps-trans a b c x y = record {
  queue = elim y.queue [
    | inr e ↦ inr e
    | inl e ↦ elim x.queue [ inl f ↦ inl (e ∙ f) | inr f ↦ inr (e ∙ f) ]
  ];
  depth = y.depth ∙ x.depth;
  commands = λ h. y.commands (x.commands h);
  turn = λ h. y.turn (x.turn h);
  events = x.events ++ y.events;
  moves = run-++ a.machine x.events y.events ∙ ap (λ m. run m y.events) x.moves ∙ y.moves;
}

-- An application that differs in none of these fields.
pub Keeps-other :
    (a b : App)
    → b.playback_queue ≡ a.playback_queue
    → b.playback_depth ≡ a.playback_depth
    → b.wake_command_queue ≡ a.wake_command_queue
    → b.tts_turn_id ≡ a.tts_turn_id
    → b.machine ≡ a.machine
    → Keeps a b
unfolding run
Keeps-other a b q d w t m = record {
  queue = inl q;
  depth = d;
  commands = λ h. rw w h;
  turn = λ h. rw t h;
  events = [];
  moves = sym m;
}

pub Keeps-refl : (a : App) → Keeps a a
Keeps-refl a = Keeps-other a a refl refl refl refl refl

pub if-Keeps : (b : Bool) {a x y : App} → Keeps a x → Keeps a y → Keeps a (if b then x else y)
if-Keeps true h k = h
if-Keeps false h k = k

-- The same of the first part of a result.
pub if-Keeps-first {ℓ} :
    {R : Type ℓ} (b : Bool) {a : App} (x y : App × R)
    → Keeps a x.0
    → Keeps a y.0
    → Keeps a (if b then x else y).0
if-Keeps-first true x y h k = h
if-Keeps-first false x y h k = k

pub take_lock-Keeps : (a : App) → Keeps a (take_lock a).0
unfolding take_lock
take_lock-Keeps a =
    Keeps-other a (take_lock a).0 (ground arith) (ground arith) (ground arith) (ground arith)
      (ground arith)

-- An application that differs by an event of its machine, and one request to arm.
Keeps-event :
    (a b : App) (event : Event)
    → b.playback_queue ≡ a.playback_queue
    → b.playback_depth ≡ a.playback_depth
    → b.wake_command_queue ≡ a.wake_command_queue
    → b.tts_turn_id ≡ a.tts_turn_id
    → b.machine ≡ (apply a.machine event).0
    → Keeps a b
unfolding run
Keeps-event a b event q d w t m = record {
  queue = inl q;
  depth = d;
  commands = λ h. rw w h;
  turn = λ h. rw t h;
  events = event ∷ [];
  moves = sym m;
}

pub request_wake_arm-Keeps : (a : App) → Keeps a (request_wake_arm a)
unfolding request_wake_arm run
request_wake_arm-Keeps a = record {
  queue = inl refl;
  depth = refl;
  commands = λ k. ground (arith, length-append a.wake_command_queue (WakeCommand.arm ∷ []));
  turn = λ k. k;
  events = [];
  moves = refl;
}

pub state_apply-Keeps : (a : App) (event : Event) → Keeps a (state_apply a event).0
unfolding state_apply
state_apply-Keeps a event =
    let app = (take_lock a).0 in
    Keeps-trans a app (state_apply a event).0 (take_lock-Keeps a)
      (if-Keeps-first _ _ _ (Keeps-refl app) (Keeps-event app _ event refl refl refl refl refl))

pub state_read-Keeps : (a : App) → Keeps a (state_read a).0
unfolding state_read
state_read-Keeps a = take_lock-Keeps a

complete_stop-machine :
    (a : App)
    → ((complete_stop a).0.machine ≡ a.machine)
      ⊎ ((complete_stop a).0.machine ≡ (apply a.machine (stop_event a.pending_tts_stop_mode)).0)
unfolding complete_stop
complete_stop-machine a = elim (Bool-cases a.tts_stop_pending) [
  | inr e ↦ inl (rw e refl)
  | inl e ↦ elim (Bool-cases (state_eq a.machine.state speaking)) [
    | inr f ↦ inl (ground arith)
    | inl f ↦ inr (ground arith)
  ]
]

complete_stop-Keeps : (a : App) → Keeps a (complete_stop a).0
unfolding complete_stop
complete_stop-Keeps a = elim (complete_stop-machine a) [
  | inl e ↦
      Keeps-other a (complete_stop a).0 (ground arith) (ground arith) (ground arith) (ground arith)
        e
  | inr e ↦
      Keeps-event a (complete_stop a).0 (stop_event a.pending_tts_stop_mode) (ground arith)
        (ground arith) (ground arith) (ground arith) e
]

take_capture-Keeps : (r : App × Bool × Bool) → Keeps r.0 (take_capture r).0
unfolding take_capture
take_capture-Keeps (app, start, request) =
    Keeps-other app (take_capture (app, start, request)).0 (ground arith) (ground arith)
      (ground arith) (ground arith) (ground arith)

take_rearm-Keeps : (r : App × Bool × Bool) → Keeps r.0 (take_rearm r).0
unfolding take_rearm
take_rearm-Keeps (app, start, request) =
    Keeps-other app (take_rearm (app, start, request)).0 (ground arith) (ground arith)
      (ground arith) (ground arith) (ground arith)

start_continuous_capture-Keeps : (a : App) → Keeps a (start_continuous_capture a)
unfolding start_continuous_capture
start_continuous_capture-Keeps a =
    let asked = record a { interaction_mode = InteractionMode.auto } in
    let read = (state_read asked).0 in
    let ready =
      if state_eq (state_read asked).1 thinking then (state_apply read abort).0 else read in
    let heard = (state_apply ready listen_start).0 in
    Keeps-trans a read (start_continuous_capture a)
      (Keeps-trans a asked read (Keeps-other a asked refl refl refl refl refl)
        (state_read-Keeps asked))
      (Keeps-trans read ready (start_continuous_capture a)
        (if-Keeps (state_eq (state_read asked).1 thinking) (state_apply-Keeps read abort)
          (Keeps-refl read))
        (Keeps-trans ready heard (start_continuous_capture a) (state_apply-Keeps ready listen_start)
          (Keeps-other heard (start_continuous_capture a) refl refl refl refl refl)))

finish_service-Keeps : (r : App × Bool × Bool) → Keeps r.0 (finish_service r)
finish_service-Keeps (app, start, request) =
    let captured = if start then start_continuous_capture app else app in
    Keeps-trans app captured (finish_service (app, start, request))
      (if-Keeps start (start_continuous_capture-Keeps app) (Keeps-refl app))
      (if-Keeps request (request_wake_arm-Keeps captured) (Keeps-refl captured))

pub service_playback_idle-Keeps : (a : App) → Keeps a (service_playback_idle a)
unfolding service_playback_idle
service_playback_idle-Keeps a =
    let app = (take_lock a).0 in
    let stopped = complete_stop app in
    let captured = take_capture stopped in
    let rearmed = take_rearm captured in
    if-Keeps _ (Keeps-refl a) (
      Keeps-trans a app _ (take_lock-Keeps a) (
        if-Keeps _ (Keeps-refl app) (
          Keeps-trans app stopped.0 _ (complete_stop-Keeps app) (
            Keeps-trans stopped.0 captured.0 _ (take_capture-Keeps stopped) (
              Keeps-trans captured.0 rearmed.0 _ (take_rearm-Keeps captured)
                (finish_service-Keeps rearmed))))))

pub request_wake_arm_when_playback_idle-Keeps :
    (a : App) → Keeps a (request_wake_arm_when_playback_idle a)
unfolding request_wake_arm_when_playback_idle
request_wake_arm_when_playback_idle-Keeps a =
    let app = (take_lock a).0 in
    let pending = record app { wake_rearm_pending = true } in
    Keeps-trans a app _ (take_lock-Keeps a) (
      if-Keeps _ (Keeps-refl app) (
        Keeps-trans app pending _ (Keeps-other app pending refl refl refl refl refl)
          (service_playback_idle-Keeps pending)))

pub clear_pending_tts_stop-Keeps : (a : App) → Keeps a (clear_pending_tts_stop a)
unfolding clear_pending_tts_stop run
clear_pending_tts_stop-Keeps a =
    let app = (take_lock a).0 in
    Keeps-trans a app _ (take_lock-Keeps a) (
      if-Keeps _ (Keeps-refl app) (record {
        queue = inl refl;
        depth = refl;
        commands = λ h. h;
        turn = λ h. omega arith;
        events = [];
        moves = refl;
      }))

pub schedule_graceful_tts_stop-Keeps :
    (a : App) (mode : InteractionMode) → Keeps a (schedule_graceful_tts_stop a mode).0
unfolding schedule_graceful_tts_stop
schedule_graceful_tts_stop-Keeps a mode =
    let app = (take_lock a).0 in
    let pending = record app {
      tts_stop_pending = true;
      pending_tts_stop_mode = mode;
      wake_rearm_pending = is_auto mode && not app.continuous_capture_pending;
    } in
    Keeps-trans a app _ (take_lock-Keeps a) (
      if-Keeps-first _ (app, false) (service_playback_idle pending, true) (Keeps-refl app)
        (Keeps-trans app pending _ (Keeps-other app pending refl refl refl refl refl)
          (service_playback_idle-Keeps pending)))
