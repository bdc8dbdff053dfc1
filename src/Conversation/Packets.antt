-- ===== src/Conversation/Packets.antt =====
-- websocket_audio_callback and playback_task: packets that wait for the decoder, and the rounds of the
-- task that plays them.
use veetee_vuqb.Base.{
  ℕ, Bool, true, false, not, ◌||◌, if◌then◌else◌, ltb, ◌==◌, Option, none, some, List, [], ◌∷◌,
  length, take,
}
use veetee_vuqb.Protocol.{max_opus_payload_bytes, AudioFrame, ProtocolResult, decode_frame}
use veetee_vuqb.Conversation.{App, play, emit, queue_send, service_playback_idle}

-- The frame of the callback before the decoder writes it.
abbrev pub zero_frame : AudioFrame
zero_frame = record { profile = 0; payload = none; payload_len = 0; timestamp_ms = 0 }

-- What memcpy takes from the frame.
abbrev pub packet_of : AudioFrame → List ℕ
packet_of frame = elim frame.payload [ none ↦ [] | some payload ↦ take frame.payload_len payload ]

abbrev pub is_decoded : ProtocolResult → Bool
is_decoded ProtocolResult.ok = true
is_decoded _ = false

-- websocket_audio_callback, with the queue as it is when the wait for room ends
unfoldable pub audio_callback : ℕ → List ℕ → App → App
audio_callback profile payload app =
    if length payload == 0 || ltb max_opus_payload_bytes (length payload)
    then app
    else let (result, frame) = decode_frame profile payload zero_frame in
      if not (is_decoded result) then app else record app {
        playback_queue = queue_send app.playback_depth app.playback_queue (packet_of frame);
      }

-- A round of playback_task in two parts, between which the other tasks can run: the receipt of a packet,
-- and what is done with it. `locked` says whether the lock of the decoder was taken in time.
unfoldable pub begin_round : App → App × Option (List ℕ)
begin_round app = elim app.playback_queue [
  | [] ↦ (app, none)
  | packet ∷ packets ↦ (record app { playback_queue = packets; playback_busy = true }, some packet)
]

unfoldable pub end_round : Bool → List ℕ → App → App
end_round locked packet app =
    let played = if locked then emit (play packet) app else app in
    service_playback_idle (record played { playback_busy = false })

unfoldable pub playback_round : Bool → App → App
unfolding begin_round
playback_round locked app =
    let (app', packet) = begin_round app in
    elim packet [ none ↦ app' | some bytes ↦ end_round locked bytes app' ]
