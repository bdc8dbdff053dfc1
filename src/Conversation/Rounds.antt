-- ===== src/Conversation/Rounds.antt =====
-- The rounds of ptt_task keep the same bounds and transitions as the callbacks.
use veetee_vuqb.Base.{ℕ, ◌+◌, ◌%◌, ◌^◌, refl, Bool, true, false, not, ◌&&◌, if◌then◌else◌, List}
use veetee_vuqb.Base.Text.{codes}
use veetee_vuqb.Device.{listen_start, listen_stop, abort, is_interruptible}
use veetee_vuqb.Ptt.{PttEvent, no_event, pressed, released, update}
use veetee_vuqb.Conversation.{
  App, Effect, InteractionMode, send_abort, send_listen_stop, send_listen_start, show_interrupted,
  emit, state_apply, state_read, clear_pending_tts_stop,
}
use veetee_vuqb.Conversation.Messages.{drop_playback}
use veetee_vuqb.Conversation.Polling.{
  PttTask, Round, interrupt, on_wake, on_press, on_release, on_button, is_due, may_start,
  retry_ticks, start_capture, try_start, poll,
}
use veetee_vuqb.Conversation.Keeping.{
  Keeps, Keeps-trans, Keeps-other, Keeps-refl, if-Keeps, request_wake_arm-Keeps, state_apply-Keeps,
  state_read-Keeps, request_wake_arm_when_playback_idle-Keeps, clear_pending_tts_stop-Keeps,
}
use veetee_vuqb.Conversation.Callbacks.{drop_playback-Keeps}

-- The same of the second part of a result.
if-Keeps-second {ℓ} :
    {R : Type ℓ} (b : Bool) {a : App} (x y : R × App)
    → Keeps a x.1
    → Keeps a y.1
    → Keeps a (if b then x else y).1
if-Keeps-second true x y h k = h
if-Keeps-second false x y h k = k

emit-Keeps : (effect : Effect) (a : App) → Keeps a (emit effect a)
emit-Keeps effect a = Keeps-other a (emit effect a) refl refl refl refl refl

interrupt-Keeps : (reason : List ℕ) (a : App) → Keeps a (interrupt reason a)
unfolding interrupt
interrupt-Keeps reason a =
    let cleared = clear_pending_tts_stop a in
    let sent =
      emit (send_abort reason)
        (record cleared { capture_active = false; wake_auto_capture = false }) in
    let dropped = drop_playback sent in
    let aborted = (state_apply dropped abort).0 in
    Keeps-trans a cleared _ (clear_pending_tts_stop-Keeps a) (
      Keeps-trans cleared sent _ (Keeps-other cleared sent refl refl refl refl refl) (
        Keeps-trans sent dropped _ (drop_playback-Keeps sent) (
          Keeps-trans dropped aborted _ (state_apply-Keeps dropped abort)
            (emit-Keeps show_interrupted aborted))))

on_wake-Keeps : (task : PttTask) (a : App) → Keeps a (on_wake task a).1
unfolding on_wake
on_wake-Keeps task a =
    let read = (state_read a).0 in
    let cut = interrupt (codes "wake_word_detected") read in
    Keeps-trans a read _ (state_read-Keeps a) (
      if-Keeps (is_interruptible (state_read a).1)
        (Keeps-trans read cut _ (interrupt-Keeps (codes "wake_word_detected") read)
          (request_wake_arm_when_playback_idle-Keeps cut))
        (request_wake_arm-Keeps read))

on_press-Keeps : (task : PttTask) (a : App) → Keeps a (on_press task a).1
unfolding on_press
on_press-Keeps task a =
    let read = (state_read a).0 in
    let cut = interrupt (codes "button_interrupt") read in
    let was_cut = interrupt-Keeps (codes "button_interrupt") read in
    Keeps-trans a read _ (state_read-Keeps a) (
      if-Keeps (not (is_interruptible (state_read a).1)) (Keeps-refl read) (
        if-Keeps read.wake_auto_capture
          (Keeps-trans read cut _ was_cut (request_wake_arm_when_playback_idle-Keeps cut)) was_cut))

on_release-Keeps : (task : PttTask) (a : App) → Keeps a (on_release task a).1
unfolding on_release
on_release-Keeps task a =
    let stopped =
      emit send_listen_stop (record a { capture_active = false; wake_auto_capture = false }) in
    if-Keeps a.capture_active
      (Keeps-trans a stopped _ (Keeps-other a stopped refl refl refl refl refl)
        (state_apply-Keeps stopped listen_stop))
      (Keeps-refl a)

on_button-Keeps : (event : PttEvent) (task : PttTask) (a : App) → Keeps a (on_button event task a).1
on_button-Keeps no_event task a = Keeps-refl a
on_button-Keeps pressed task a = on_press-Keeps task a
on_button-Keeps released task a = on_release-Keeps task a

start_capture-Keeps :
    (round : Round) (task : PttTask) (a : App) → Keeps a (start_capture round task a).1
unfolding start_capture
start_capture-Keeps round task a =
    let sent = emit (send_listen_start task.pending_auto) a in
    let mode = if task.pending_auto then InteractionMode.auto else InteractionMode.manual in
    let chosen = record sent { interaction_mode = mode } in
    let applied = (state_apply chosen listen_start).0 in
    let captured = record applied {
      capture_active = true;
      wake_auto_capture = task.pending_auto;
    } in
    if-Keeps-second (not round.sent)
      (record task { retry_after = (round.now + retry_ticks) % 2 ^ 32 }, sent)
      (
        record task { pending_start = false },
        if (state_apply chosen listen_start).1 then captured else applied,
      )
      (emit-Keeps (send_listen_start task.pending_auto) a)
      (Keeps-trans a chosen _ (Keeps-other a chosen refl refl refl refl refl) (
        Keeps-trans chosen applied _ (state_apply-Keeps chosen listen_start) (
          if-Keeps (state_apply chosen listen_start).1
            (Keeps-other applied captured refl refl refl refl refl) (Keeps-refl applied))))

try_start-Keeps : (round : Round) (task : PttTask) (a : App) → Keeps a (try_start round task a).1
unfolding try_start
try_start-Keeps round task a =
    let read = (state_read a).0 in
    Keeps-trans a read _ (state_read-Keeps a) (
      if-Keeps-second
        (may_start round task read (state_read a).1 && is_due round.now task.retry_after)
        (start_capture round task read) (task, read) (start_capture-Keeps round task read)
        (Keeps-refl read))

-- A round of ptt_task leaves the playback queue as it is or empties it, keeps the wake commands and the turn
-- id within their bounds, and leaves the machine in a state that some events of the state machine lead to.
pub poll-Keeps : (round : Round) (task : PttTask) (a : App) → Keeps a (poll round task a).1
unfolding poll
poll-Keeps round task a =
    let first = if round.woken then on_wake task a else (task, a) in
    let pressed_now = update first.0.debouncer round.active in
    let task' : PttTask = record first.0 { debouncer = pressed_now.0 } in
    let second = on_button pressed_now.1 task' first.1 in
    Keeps-trans a first.1 _
      (if-Keeps-second round.woken (on_wake task a) (task, a) (on_wake-Keeps task a) (Keeps-refl a))
      (Keeps-trans first.1 second.1 _ (on_button-Keeps pressed_now.1 task' first.1)
        (try_start-Keeps round second.0 second.1))
