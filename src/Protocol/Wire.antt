-- ===== src/Protocol/Wire.antt =====
-- The bytes of a WebSocket audio frame, and that vt_protocol_encode_audio writes exactly those.
use veetee_vuqb.Base.{
  ℕ, zero, suc, ◌+◌, ◌≤◌, ◌<◌, ◌≡◌, ◌≢◌, ◌↔◌, refl, ap, ◌∙◌, arith, if◌then◌else◌, ◌==◌, List, [],
  ◌∷◌, ◌++◌, length, take, drop, length-append, length-take, set,
}
use veetee_vuqb.Base.Buffer.{copy_at, u16_bytes, u32_bytes, copy_at_next, copy_at-zero}
use veetee_vuqb.Protocol.{
  max_opus_payload_bytes, ws_v1_compat, ws_v2, ws_v3, AudioFrame, ok, err_argument, header_length,
  write_frame, encode_frame,
}

-- The header of each profile, field by field.
abbrev pub wire_header : ℕ → ℕ → ℕ → List ℕ
wire_header profile timestamp_ms payload_len =
    if profile == ws_v1_compat
    then []
    else if profile == ws_v2
    then u16_bytes 2
      ++ (u16_bytes 0 ++ (u32_bytes 0 ++ (u32_bytes timestamp_ms ++ u32_bytes payload_len)))
    else 0 ∷ 0 ∷ u16_bytes payload_len

length-take_eq : (n : ℕ) (xs : List ℕ) → n ≤ length xs → length (take n xs) ≡ n
length-take_eq n xs h = omega (arith, length-take n xs)

-- A header and a payload copied to the start of the output.
from_start :
    (output header payload : List ℕ) (n k : ℕ)
    → n ≤ length payload
    → length header ≡ k
    → k + n ≤ length output
    → copy_at output 0 (header ++ take n payload)
      ≡ (header ++ take n payload) ++ drop (k + n) output
from_start output header payload n k h e room =
    let size : length (header ++ take n payload) ≡ k + n =
      length-append header (take n payload) ∙ omega (arith, e, length-take_eq n payload h) in
    copy_at-zero output (header ++ take n payload) (omega (arith, size))
    ∙ ap (λ (m : ℕ). (header ++ take n payload) ++ drop m output) size

write_frame_v2 :
    (timestamp_ms n : ℕ) (payload output : List ℕ)
    → write_frame 2 timestamp_ms n payload output
      ≡ copy_at output 0 (wire_header 2 timestamp_ms n ++ take n payload)
unfolding write_frame
write_frame_v2 timestamp_ms n payload output =
    let a = u16_bytes 2 in
    let b = u16_bytes 0 in
    let c = u32_bytes 0 in
    let d = u32_bytes timestamp_ms in
    let e = u32_bytes n in
    rw (
      copy_at_next output 0 2 a b refl,
      copy_at_next output 0 4 (a ++ b) c refl,
      copy_at_next output 0 8 ((a ++ b) ++ c) d refl,
      copy_at_next output 0 12 (((a ++ b) ++ c) ++ d) e refl,
      copy_at_next output 0 16 ((((a ++ b) ++ c) ++ d) ++ e) (take n payload) refl,
    )

write_frame_v3 :
    (timestamp_ms n : ℕ) (payload output : List ℕ)
    → write_frame 3 timestamp_ms n payload output
      ≡ copy_at output 0 (wire_header 3 timestamp_ms n ++ take n payload)
unfolding write_frame
write_frame_v3 timestamp_ms n payload output =
    let start : set (set output 0 0) 1 0 ≡ copy_at output 0 (0 ∷ 0 ∷ []) = unfold copy_at in refl in
    rw (
      start,
      copy_at_next output 0 2 (0 ∷ 0 ∷ []) (u16_bytes n) refl,
      copy_at_next output 0 4 ((0 ∷ 0 ∷ []) ++ u16_bytes n) (take n payload) refl,
    )

-- What a caller passes to vt_protocol_encode_audio: a known profile, a payload that is not empty
-- and not too long, readable in full, and an output that has room for header and payload.
pub record IsSendable (frame : AudioFrame) (payload output : List ℕ) (capacity : ℕ) : Type 0 where
  pub known : (ws_v1_compat ≤ frame.profile) × (frame.profile ≤ ws_v3)
  pub sized : (0 < frame.payload_len) × (frame.payload_len ≤ max_opus_payload_bytes)
  pub readable : frame.payload_len ≤ length payload
  pub room : header_length frame.profile + frame.payload_len ≤ capacity
  pub writable : capacity ≤ length output

pub write_frame_lem :
    (profile timestamp_ms n : ℕ) (payload output : List ℕ)
    → (ws_v1_compat ≤ profile) × (profile ≤ ws_v3)
    → n ≤ length payload
    → header_length profile + n ≤ length output
    → write_frame profile timestamp_ms n payload output
      ≡ (wire_header profile timestamp_ms n ++ take n payload)
        ++ drop (header_length profile + n) output
write_frame_lem zero t n p o h r room = absurd (omega arith)
write_frame_lem (suc zero) t n p o h r room =
    unfold write_frame in from_start o [] p n 0 r refl room
write_frame_lem (suc (suc zero)) t n p o h r room =
    write_frame_v2 t n p o ∙ from_start o (wire_header 2 t n) p n 16 r refl room
write_frame_lem (suc (suc (suc zero))) t n p o h r room =
    write_frame_v3 t n p o ∙ from_start o (wire_header 3 t n) p n 4 r refl room
write_frame_lem (suc (suc (suc (suc k)))) t n p o h r room = absurd (omega arith)

pub encode_accepts :
    (frame : AudioFrame) (payload output : List ℕ) (capacity n : ℕ)
    → IsSendable frame payload output capacity
    → encode_frame frame payload output capacity n ≡ (
      ok,
      write_frame frame.profile frame.timestamp_ms frame.payload_len payload output,
      header_length frame.profile + frame.payload_len,
    )
unfolding encode_frame
encode_accepts frame payload output capacity n h = ground arith

-- For a sendable frame vt_protocol_encode_audio returns ok, writes the header of its profile and the
-- payload to the start of the output, leaves the rest of the output alone, and sets the length.
pub encode_audio-writes :
    (frame : AudioFrame) (payload output : List ℕ) (capacity n : ℕ)
    → IsSendable frame payload output capacity
    → encode_frame frame payload output capacity n ≡ (
      ok,
      (wire_header frame.profile frame.timestamp_ms frame.payload_len
            ++ take frame.payload_len payload)
          ++ drop (header_length frame.profile + frame.payload_len) output,
      header_length frame.profile + frame.payload_len,
    )
encode_audio-writes frame payload output capacity n h = rw (
  encode_accepts frame payload output capacity n h,
  write_frame_lem frame.profile frame.timestamp_ms frame.payload_len payload output h.known
      h.readable (omega arith),
)

-- Whatever vt_protocol_encode_audio does not accept leaves the output and the length as they were,
-- and it accepts exactly a known profile with 1 to 1500 payload bytes and a capacity that fits them.
encode_audio_iff :
    (frame : AudioFrame) (payload output : List ℕ) (capacity n : ℕ)
    → let (result, output', n') = encode_frame frame payload output capacity n in
      ((result ≢ ok) → (result ≡ err_argument) × (output' ≡ output) × (n' ≡ n))
      × ((result ≡ ok) ↔ (
          (ws_v1_compat ≤ frame.profile)
          × (frame.profile ≤ ws_v3)
          × (0 < frame.payload_len)
          × (frame.payload_len ≤ max_opus_payload_bytes)
          × (header_length frame.profile + frame.payload_len ≤ capacity)))
unfolding encode_frame
encode_audio_iff frame payload output capacity n =
    (λ h. ground arith, (λ h. ground arith, λ h. ground arith))
