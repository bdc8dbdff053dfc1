-- ===== src/MqttWire/Bytes.antt =====
-- The bytes of a UDP audio frame, and that vt_mqtt_udp_encode writes exactly those.
use veetee_vuqb.Base.{
  ℕ, ◌+◌, ◌≤◌, ◌<◌, ◌≡◌, ◌≢◌, ◌↔◌, refl, ap, ◌∙◌, arith, List, [], ◌∷◌, ◌++◌, length, set, take,
  drop, length-append, length-take,
}
use veetee_vuqb.Base.Buffer.{copy_at, u16_bytes, u32_bytes, copy_at_next, copy_at-zero}
use veetee_vuqb.MqttWire.{
  header_size, packet_type, max_payload_bytes, UdpFrame, ok, err_sequence, write_frame,
  encode_frame,
}

-- The header: packet type, flags, payload length, ssrc, timestamp, sequence.
abbrev pub wire_header : UdpFrame → List ℕ
wire_header frame =
    packet_type
    ∷ frame.flags
    ∷ (u16_bytes frame.payload_len
        ++ (u32_bytes frame.ssrc ++ (u32_bytes frame.timestamp_ms ++ u32_bytes frame.sequence)))

-- What a caller passes to vt_mqtt_udp_encode.
pub record IsSendable (frame : UdpFrame) (payload output : List ℕ) (capacity : ℕ) : Type 0 where
  pub sized : (0 < frame.payload_len) × (frame.payload_len ≤ max_payload_bytes)
  pub numbered : 0 < frame.sequence
  pub readable : frame.payload_len ≤ length payload
  pub room : header_size + frame.payload_len ≤ capacity
  pub writable : capacity ≤ length output

write_frame_copies :
    (frame : UdpFrame) (payload output : List ℕ)
    → write_frame frame payload output
      ≡ copy_at output 0 (wire_header frame ++ take frame.payload_len payload)
unfolding write_frame
write_frame_copies frame payload output =
    let a : List ℕ = packet_type ∷ frame.flags ∷ [] in
    let b = u16_bytes frame.payload_len in
    let c = u32_bytes frame.ssrc in
    let d = u32_bytes frame.timestamp_ms in
    let e = u32_bytes frame.sequence in
    let start : set (set output 0 packet_type) 1 frame.flags ≡ copy_at output 0 a =
      unfold copy_at in refl in
    rw (
      start,
      copy_at_next output 0 2 a b refl,
      copy_at_next output 0 4 (a ++ b) c refl,
      copy_at_next output 0 8 ((a ++ b) ++ c) d refl,
      copy_at_next output 0 12 (((a ++ b) ++ c) ++ d) e refl,
      copy_at_next output 0 16 ((((a ++ b) ++ c) ++ d) ++ e) (take frame.payload_len payload) refl,
    )

pub write_frame_lem :
    (frame : UdpFrame) (payload output : List ℕ)
    → frame.payload_len ≤ length payload
    → header_size + frame.payload_len ≤ length output
    → write_frame frame payload output
      ≡ (wire_header frame ++ take frame.payload_len payload)
        ++ drop (header_size + frame.payload_len) output
write_frame_lem frame payload output r room =
    let p = take frame.payload_len payload in
    let size : length (wire_header frame ++ p) ≡ header_size + frame.payload_len =
      omega (arith, length-append (wire_header frame) p, length-take frame.payload_len payload) in
    write_frame_copies frame payload output
    ∙ copy_at-zero output (wire_header frame ++ p) (omega (arith, size))
    ∙ ap (λ (m : ℕ). (wire_header frame ++ p) ++ drop m output) size

-- For a sendable frame vt_mqtt_udp_encode returns ok, writes header and payload to the start of the
-- output, leaves the rest of the output alone, and sets the length.
pub encode-writes :
    (frame : UdpFrame) (payload output : List ℕ) (capacity n : ℕ)
    → IsSendable frame payload output capacity
    → encode_frame frame payload output capacity n ≡ (
      ok,
      (wire_header frame ++ take frame.payload_len payload)
          ++ drop (header_size + frame.payload_len) output,
      header_size + frame.payload_len,
    )
encode-writes frame payload output capacity n h =
    accepts
    ∙ ap (λ (o : List ℕ). (ok, o, header_size + frame.payload_len))
        (write_frame_lem frame payload output h.readable (omega arith))
  where
    accepts :
        encode_frame frame payload output capacity n
        ≡ (ok, write_frame frame payload output, header_size + frame.payload_len)
    accepts = unfold encode_frame in ground arith

-- vt_mqtt_udp_encode accepts exactly 1 to 1400 payload bytes with a sequence that is not 0 and a
-- capacity that fits them; for anything else the output and the length stay as they were, and the
-- error is about the sequence exactly where the payload's length was right and the sequence is 0.
encode_iff :
    (frame : UdpFrame) (payload output : List ℕ) (capacity n : ℕ)
    → let (result, output', n') = encode_frame frame payload output capacity n in
      let sized = (0 < frame.payload_len) × (frame.payload_len ≤ max_payload_bytes) in
      ((result ≢ ok) → (output' ≡ output) × (n' ≡ n))
      × ((result ≡ ok)
          ↔ (sized × (0 < frame.sequence) × (header_size + frame.payload_len ≤ capacity)))
      × ((result ≡ err_sequence) ↔ (sized × (frame.sequence ≡ 0)))
unfolding encode_frame
encode_iff frame payload output capacity n = (
  λ h. ground arith,
  (λ h. ground arith, λ h. ground arith),
  (λ h. ground arith, λ h. ground arith),
)
