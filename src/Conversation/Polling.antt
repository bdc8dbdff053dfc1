-- ===== src/Conversation/Polling.antt =====
-- ptt_task: one round of the task that turns the button and the wake word into turns of a conversation.
use veetee_vuqb.Base.{
  ℕ, ◌+◌, ◌-◌, ◌%◌, ◌^◌, Bool, true, false, not, ◌&&◌, ◌||◌, if◌then◌else◌, ltb, some, List,
}
use veetee_vuqb.Base.Text.{codes}
use veetee_vuqb.Device.{
  State, idle, listening, listen_start, listen_stop, abort, state_eq, is_interruptible,
}
use veetee_vuqb.Ptt.{PttEvent, pressed, released, Debouncer, update, is_stable}
use veetee_vuqb.Conversation.{
  App, InteractionMode, send_abort, send_listen_stop, send_listen_start, show_interrupted, emit,
  request_wake_arm, state_apply, state_read, request_wake_arm_when_playback_idle,
  clear_pending_tts_stop,
}
use veetee_vuqb.Conversation.Messages.{drop_playback}

-- The variables of the task; `retry_after` is a TickType_t of 32 bits.
pub record PttTask : Type 0 where
  pub debouncer : Debouncer
  pub pending_start : Bool
  pub pending_auto : Bool
  pub retry_after : ℕ

-- What a round finds: whether a wake event was received, whether the button is active, whether the transport
-- is ready, the ticks, and whether send_listen_start returns ESP_OK.
pub record Round : Type 0 where
  pub woken : Bool
  pub active : Bool
  pub ready : Bool
  pub now : ℕ
  pub sent : Bool

-- VT_PTT_RETRY_DELAY_MS in ticks, which sdkconfig.defaults sets to a millisecond
abbrev pub retry_ticks : ℕ
retry_ticks = 250

-- The cut of a turn by the wake word or by the button.
unfoldable pub interrupt : List ℕ → App → App
interrupt reason app =
    let cleared = clear_pending_tts_stop app in
    let quiet = record cleared { capture_active = false; wake_auto_capture = false } in
    let dropped = drop_playback (emit (send_abort reason) quiet) in
    emit show_interrupted (state_apply dropped abort).0

unfoldable pub on_wake : PttTask → App → PttTask × App
on_wake task app =
    let (read, current) = state_read app in
    (
      record task { pending_start = true; pending_auto = true },
      if is_interruptible current
          then request_wake_arm_when_playback_idle (interrupt (codes "wake_word_detected") read)
          else request_wake_arm read,
    )

unfoldable pub on_press : PttTask → App → PttTask × App
on_press task app =
    let (read, current) = state_read app in
    let cut = interrupt (codes "button_interrupt") read in
    (
      record task { pending_start = true; pending_auto = false },
      if not (is_interruptible current)
          then read
          else if read.wake_auto_capture
          then request_wake_arm_when_playback_idle cut
          else cut,
    )

unfoldable pub on_release : PttTask → App → PttTask × App
on_release task app = (
  record task { pending_start = false; pending_auto = false },
  if app.capture_active
      then (state_apply
          (emit send_listen_stop (record app { capture_active = false; wake_auto_capture = false }))
          listen_stop).0
      else app,
)

abbrev pub on_button : PttEvent → PttTask → App → PttTask × App
on_button PttEvent.no_event task app = (task, app)
on_button pressed task app = on_press task app
on_button released task app = on_release task app

-- `(int32_t)(now - retry_after) >= 0`
unfoldable pub is_due : ℕ → ℕ → Bool
is_due now retry_after = ltb ((now + (2 ^ 32 - retry_after)) % 2 ^ 32) (2 ^ 31)

-- The start of a capture that is due.
unfoldable pub start_capture : Round → PttTask → App → PttTask × App
start_capture round task app =
    let asked = emit (send_listen_start task.pending_auto) app in
    if not round.sent
    then (record task { retry_after = (round.now + retry_ticks) % 2 ^ 32 }, asked)
    else let mode = if task.pending_auto then InteractionMode.auto else InteractionMode.manual in
      let (applied, started) =
        state_apply (record asked { interaction_mode = mode }) listen_start in
      (
        record task { pending_start = false },
        if started
            then record applied { capture_active = true; wake_auto_capture = task.pending_auto }
            else applied,
      )

abbrev pub may_start : Round → PttTask → App → State → Bool
may_start round task app current =
    (is_stable (some task.debouncer) || task.pending_auto)
    && task.pending_start
    && not app.capture_active
    && (state_eq current listening || (state_eq current idle && round.ready))

unfoldable pub try_start : Round → PttTask → App → PttTask × App
try_start round task app =
    let (read, current) = state_read app in
    if may_start round task read current && is_due round.now task.retry_after
    then start_capture round task read
    else (task, read)

-- A round of the loop.
unfoldable pub poll : Round → PttTask → App → PttTask × App
poll round task app =
    let (woken, heard) = if round.woken then on_wake task app else (task, app) in
    let (debouncer, event) = update woken.debouncer round.active in
    let (pushed, handled) = on_button event (record woken { debouncer = debouncer }) heard in
    try_start round pushed handled
