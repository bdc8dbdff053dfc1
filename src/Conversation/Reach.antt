-- ===== src/Conversation/Reach.antt =====
-- The bounds of an application over a message, an audio frame and the rounds of the two tasks.
use veetee_vuqb.Base.{
  ℕ, ◌≤◌, ◌<◌, refl, Bool, true, false, not, ◌||◌, inl, inr, if◌then◌else◌, leb, ltb, ◌==◌, List,
  [], ◌∷◌, length, All, arith, Bool-cases, Option-cases, All-append, length-take, length-append,
}
use veetee_vuqb.Json.{CJson}
use veetee_vuqb.Protocol.{max_opus_payload_bytes, decode_frame}
use veetee_vuqb.Conversation.{
  App, play, emit, tts_turn_id_max, wake_command_depth, queue_send, service_playback_idle,
}
use veetee_vuqb.Conversation.Messages.{Setting, text_callback}
use veetee_vuqb.Conversation.Packets.{
  zero_frame, packet_of, is_decoded, audio_callback, begin_round, end_round,
}
use veetee_vuqb.Conversation.Keeping.{Keeps, Keeps-other, service_playback_idle-Keeps}
use veetee_vuqb.Conversation.Polling.{PttTask, Round, poll}
use veetee_vuqb.Conversation.Rounds.{poll-Keeps}
use veetee_vuqb.Conversation.Callbacks.{text_callback-Keeps}

-- The playback queue does not exceed its depth and its packets fit their array, and the wake commands and
-- the turn id are within their bounds.
pub record IsBounded (a : App) : Type 0 where
  pub queue : length a.playback_queue ≤ a.playback_depth
  pub packets : All (λ p. length p ≤ max_opus_payload_bytes) a.playback_queue
  pub commands : length a.wake_command_queue ≤ wake_command_depth
  pub turn : length a.tts_turn_id < tts_turn_id_max

pub Keeps-IsBounded : (a b : App) → Keeps a b → IsBounded a → IsBounded b
Keeps-IsBounded a b k v = record {
  queue = elim k.queue [ inl e ↦ rw (e, k.depth) v.queue | inr e ↦ rw e (omega arith) ];
  packets = elim k.queue [ inl e ↦ rw e v.packets | inr e ↦ rw e tt ];
  commands = k.commands v.commands;
  turn = k.turn v.turn;
}

if-IsBounded : (b : Bool) (x y : App) → IsBounded x → IsBounded y → IsBounded (if b then x else y)
if-IsBounded true x y h k = h
if-IsBounded false x y h k = k

decode_frame-fits :
    (profile : ℕ) (input : List ℕ)
    → (decode_frame profile input zero_frame).1.payload_len ≤ max_opus_payload_bytes
unfolding decode_frame
decode_frame-fits profile input = ground arith

packet_of-fits :
    (profile : ℕ) (input : List ℕ)
    → length (packet_of (decode_frame profile input zero_frame).1) ≤ max_opus_payload_bytes
packet_of-fits profile input =
    let frame = (decode_frame profile input zero_frame).1 in
    elim (Option-cases frame.payload) [
      | inl e ↦ rw (packet_of, e) (omega arith)
      | inr (payload, e) ↦
          rw (packet_of, e)
            (omega (arith, length-take frame.payload_len payload, decode_frame-fits profile input))
    ]

queue_send-IsBounded :
    (a : App) (packet : List ℕ)
    → length packet ≤ max_opus_payload_bytes
    → IsBounded a
    → IsBounded (record a { playback_queue = queue_send a.playback_depth a.playback_queue packet })
queue_send-IsBounded a packet fits v =
    elim (Bool-cases (leb a.playback_depth (length a.playback_queue))) [
      | inl e ↦ rw e v
      | inr e ↦ rw e (record {
        queue = ground (arith, length-append a.playback_queue (packet ∷ []));
        packets =
            All-append (λ p. length p ≤ max_opus_payload_bytes) a.playback_queue (packet ∷ [])
              v.packets (fits, tt);
        commands = v.commands;
        turn = v.turn;
      })
    ]

audio_callback-IsBounded :
    (profile : ℕ) (payload : List ℕ) (a : App)
    → IsBounded a
    → IsBounded (audio_callback profile payload a)
unfolding audio_callback
audio_callback-IsBounded profile payload a v =
    let sent =
      queue_send-IsBounded a (packet_of (decode_frame profile payload zero_frame).1)
        (packet_of-fits profile payload) v in
    if-IsBounded (length payload == 0 || ltb max_opus_payload_bytes (length payload)) a _ v
      (if-IsBounded (not (is_decoded (decode_frame profile payload zero_frame).0)) a _ v sent)

begin_round-queue :
    (a : App) (packets : List (List ℕ))
    → IsBounded (record a { playback_queue = packets })
    → IsBounded (begin_round (record a { playback_queue = packets })).0
unfolding begin_round
begin_round-queue a [] v = v
begin_round-queue a (p ∷ packets) v = record {
  queue = omega (arith, v.queue);
  packets = v.packets.1;
  commands = v.commands;
  turn = v.turn;
}

begin_round-IsBounded : (a : App) → IsBounded a → IsBounded (begin_round a).0
begin_round-IsBounded a v = begin_round-queue a a.playback_queue v

quiet-IsBounded :
    (a : App) → IsBounded a → IsBounded (service_playback_idle (record a { playback_busy = false }))
quiet-IsBounded a v =
    let quiet = record a { playback_busy = false } in
    Keeps-IsBounded quiet (service_playback_idle quiet) (service_playback_idle-Keeps quiet)
      (Keeps-IsBounded a quiet (Keeps-other a quiet refl refl refl refl refl) v)

end_round-IsBounded :
    (locked : Bool) (packet : List ℕ) (a : App)
    → IsBounded a
    → IsBounded (end_round locked packet a)
unfolding end_round
end_round-IsBounded false packet a v = quiet-IsBounded a v
end_round-IsBounded true packet a v =
    let played = emit (play packet) a in
    quiet-IsBounded played
      (Keeps-IsBounded a played (Keeps-other a played refl refl refl refl refl) v)

-- What happens to an application: a message, an audio frame, the receipt of a packet by the player, the
-- end of its round, and a round of the task of the button.
pub data Input (j : CJson) : Type 0 where
  message : Setting → j.Value → Input j
  audio : ℕ → List ℕ → Input j
  round_begun : Input j
  polled : Round → PttTask → Input j
  round_ended : Bool → List ℕ → Input j

module _ (j : CJson) where
  abbrev pub react : Input j → App → App
  react (message setting value) a = text_callback j setting value a
  react (audio profile payload) a = audio_callback profile payload a
  react round_begun a = (begin_round a).0
  react (polled round task) a = (poll round task a).1
  react (round_ended locked packet) a = end_round locked packet a

  pub react-IsBounded : (i : Input j) (a : App) → IsBounded a → IsBounded (react i a)
  react-IsBounded (message setting value) a v =
      Keeps-IsBounded a (text_callback j setting value a) (text_callback-Keeps j setting value a) v
  react-IsBounded (audio profile payload) a v = audio_callback-IsBounded profile payload a v
  react-IsBounded round_begun a v = begin_round-IsBounded a v
  react-IsBounded (polled round task) a v =
      Keeps-IsBounded a (poll round task a).1 (poll-Keeps round task a) v
  react-IsBounded (round_ended locked packet) a v = end_round-IsBounded locked packet a v
