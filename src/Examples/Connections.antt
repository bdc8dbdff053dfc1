-- ===== src/Examples/Connections.antt =====
-- A connection that carries a conversation: it ends and opens again, its frames arrive, and its answers
-- are sent.
use veetee_vuqb.Base.{
  ℕ, ◌+◌, ◌<◌, ◌≡◌, ◌⊎◌, refl, sym, true, false, not, ◌||◌, if◌then◌else◌, ltb, some, List, [], ◌∷◌,
  length, take, replicate, str_eq, arith,
}
use veetee_vuqb.Base.Esp.{EspError}
use veetee_vuqb.Base.Buffer.{copy_at}
use veetee_vuqb.Base.Int.{pos}
use veetee_vuqb.Base.Text.{codes, decimal}
use veetee_vuqb.Device.{idle, apply, state_eq}
use veetee_vuqb.Ptt.{is_stable}
use veetee_vuqb.Protocol.{
  max_opus_payload_bytes, header_length, encode_frame, write_frame, server_sample_rate_compatible,
  is_supported_opus_sample_rate,
}
use veetee_vuqb.Transport.{
  profile_version_number, send_text, text_or_empty, accept_server_hello, accept_audio,
  send_raw_text,
}
use veetee_vuqb.Transport.Events.{WsEvent, Frame, whole_frame}
use veetee_vuqb.Transport.Sessions.{IsSession}
use veetee_vuqb.Transport.Setup.{InitAnswers, is_esp_ok, config_valid, header_text, send}
use veetee_vuqb.Conversation.{App, queue_send, take_lock, state_apply, state_read}
use veetee_vuqb.Conversation.Polling.{PttTask, Round, is_due, start_capture, try_start}
use veetee_vuqb.Conversation.Reach.{IsBounded, round_begun}
use veetee_vuqb.Conversation.Connecting.{Link, end_connection, on_event}
use veetee_vuqb.Conversation.Sending.{
  SendAnswers, listen_fields, is_foreign, send_fields, send_listen_start, mcp_send_text,
}
use veetee_vuqb.Conversation.Sent.{SentIn, mcp_send_text-SentTo, try_start-SentIn}
use veetee_vuqb.Conversation.Opening.{Opens, IsHello}
use veetee_vuqb.Conversation.Reopening.{IsReady, opening, reopened-IsReady}
use veetee_vuqb.Conversation.Network.{
  Step, began, arrived, acted, ended, take_steps, take_steps-IsBounded, on_event-ignores,
  on_event-encode_frame,
}
use veetee_vuqb.Examples.Trees.{json, text, server_hello, foreign_alert}
use veetee_vuqb.Examples.Links.{config, opened, whole, at}
use veetee_vuqb.Examples.Talks.{setting, talking, talking-IsBounded, sent, sent-IsSendable, waiting}

abbrev linked : Link
linked = record { app = talking; transport = opened }

abbrev frame_of : ℕ → List ℕ → Frame
frame_of op_code bytes = record {
  data_ptr = some bytes;
  data_len = pos (length bytes);
  payload_offset = pos 0;
  payload_len = pos (length bytes);
  fin = true;
  op_code = op_code;
}

abbrev answers : InitAnswers
answers = record { events_created = true; client_created = true; registered = EspError.ok }

config-Opens : Opens config answers
unfolding config_valid header_text decimal profile_version_number
config-Opens = record {
  valid = refl;
  header = refl;
  events = refl;
  client = refl;
  registered = refl;
}

hello-IsHello : IsHello json config (some (frame_of 1 (codes "hello"))) (codes "hello") server_hello
unfolding whole_frame accept_server_hello accept_audio str_eq profile_version_number
    server_sample_rate_compatible is_supported_opus_sample_rate
hello-IsHello = record { whole = refl; op_code = refl; parsed = refl; type = refl; accepted = refl }

reopened-IsReady_example :
    IsReady talking
      (opening json setting config answers
        (at WsEvent.connected)
        (at (whole 1 (codes "hello")))
        (end_connection json true linked))
      (codes "s1")
unfolding str_eq
reopened-IsReady_example =
    reopened-IsReady json setting config answers (at WsEvent.connected)
      (at (whole 1 (codes "hello"))) true linked (some (frame_of 1 (codes "hello"))) (codes "hello")
      server_hello refl config-Opens refl refl hello-IsHello

abbrev steps : List (Step json)
steps =
    ended true
    ∷ began setting config answers
    ∷ arrived setting (at WsEvent.connected)
    ∷ arrived setting (at (whole 1 (codes "hello")))
    ∷ arrived setting (at (whole 2 (7 ∷ [])))
    ∷ acted round_begun
    ∷ []

take_steps-IsBounded_example : IsBounded (take_steps json steps linked).app
take_steps-IsBounded_example = take_steps-IsBounded json steps linked talking-IsBounded

on_event-ignores_example : on_event json setting linked (at (whole 1 (codes "alert"))) ≡ linked
unfolding whole_frame str_eq
on_event-ignores_example =
    on_event-ignores json setting linked (at (whole 1 (codes "alert")))
      (some (frame_of 1 (codes "alert"))) (codes "alert") foreign_alert (text (codes "s9")) refl
      refl refl refl refl refl (λ q. cc)

abbrev bytes : List ℕ
bytes = 7 ∷ 8 ∷ []

encoded :
    whole_frame (some (frame_of 2 bytes))
    ≡ some (
        take
          (encode_frame sent bytes (replicate 8 0) 8 0).2
          (encode_frame sent bytes (replicate 8 0) 8 0).1)
unfolding whole_frame encode_frame write_frame copy_at
encoded = refl

on_event-encode_frame_example : on_event json setting linked (at (whole 2 bytes)) ≡ (
    if not opened.ready || ltb max_opus_payload_bytes (header_length 1 + 2)
    then linked
    else record linked {
      app = record talking { playback_queue = queue_send 8 talking.playback_queue bytes };
    })
on_event-encode_frame_example =
    on_event-encode_frame json setting linked (at (whole 2 bytes)) (some (frame_of 2 bytes)) sent
      bytes (replicate 8 0) 8 0 refl encoded refl refl sent-IsSendable (omega arith)

opened-IsSession : IsSession opened
opened-IsSession = record { opened = λ h. (omega arith, omega arith); shut = λ h. cc; bit = refl }

abbrev sending : SendAnswers
sending = record { up = true; still_up = true; allocated = true; written = pos 2 }

mcp_send_text-SentTo_example :
    ((mcp_send_text json opened sending (codes "{}") (some (codes "s1"))).1
      ≡ send_text (codes "{}") ∷ [])
    × (0 < 2)
    × ((text_or_empty (some (codes "s1")) ≡ []) ⊎ (text_or_empty (some (codes "s1")) ≡ codes "s1"))
unfolding mcp_send_text is_foreign send send_raw_text str_eq
mcp_send_text-SentTo_example =
    mcp_send_text-SentTo json opened sending (codes "{}") (some (codes "s1")) opened-IsSession
      (λ q. cc)

-- A press of the button that waits for its capture.
abbrev starting : PttTask
starting = record waiting { pending_start = true; pending_auto = true }

abbrev due_round : Round
due_round = record { woken = false; active = false; ready = true; now = 500; sent = true }

abbrev silent : App
silent = record talking { machine = record { state = idle; generation = 4 } }

sent_start : is_esp_ok (send_listen_start json opened sending true).0 ≡ true
unfolding send_listen_start send_fields send send_raw_text
sent_start = refl

begun_capture : (try_start due_round starting silent).1.capture_active ≡ true
unfolding try_start start_capture is_due is_stable state_read state_apply take_lock apply state_eq
begun_capture = refl

try_start-SentIn_example :
    SentIn json opened (listen_fields true) (send_listen_start json opened sending true).1
try_start-SentIn_example =
    try_start-SentIn json opened sending due_round starting silent opened-IsSession (sym sent_start)
      refl begun_capture
