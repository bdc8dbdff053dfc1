-- ===== src/MqttWire/Decoding.antt =====
-- vt_mqtt_udp_decode: it reads back what was encoded, and accepts nothing else.
use veetee_vuqb.Base.{
  ℕ, ◌+◌, ◌^◌, ◌≤◌, ◌<◌, ◌≡◌, ◌≢◌, refl, ap, ◌∙◌, arith, some, List, ◌∷◌, ◌++◌, length, take, drop,
  All, take-length_append, length-take, length-append,
}
use veetee_vuqb.Base.Buffer.{
  IsByte, get_u16_lem, get_u32_lem, u16_bytes-get_u16, u32_bytes-get_u32, sixteen_in_front,
}
use veetee_vuqb.MqttWire.{header_size, max_payload_bytes, UdpFrame, ok, encode_frame, decode_frame}
use veetee_vuqb.MqttWire.Bytes.{wire_header, IsSendable, encode-writes}

-- The numbers of a frame fit their C types.
pub record IsWord (frame : UdpFrame) : Type 0 where
  pub flags : IsByte frame.flags
  pub ssrc : frame.ssrc < 2 ^ 32
  pub timestamp : frame.timestamp_ms < 2 ^ 32
  pub sequence : frame.sequence < 2 ^ 32

-- A frame's header and payload decode to the frame.
pub decode_wire :
    (frame old : UdpFrame) (p : List ℕ)
    → IsWord frame
    → length p ≡ frame.payload_len
    → (0 < frame.payload_len) × (frame.payload_len ≤ max_payload_bytes)
    → 0 < frame.sequence
    → decode_frame (wire_header frame ++ p) old ≡ (ok, record frame { payload = some p })
unfolding decode_frame
decode_wire frame old p w e h s =
    let input = wire_header frame ++ p in
    ground (
      arith,
      get_u16_lem input 2 frame.payload_len (omega arith) refl refl,
      get_u32_lem input 4 frame.ssrc w.ssrc refl refl refl refl,
      get_u32_lem input 8 frame.timestamp_ms w.timestamp refl refl refl refl,
      get_u32_lem input 12 frame.sequence w.sequence refl refl refl refl,
    )

-- What vt_mqtt_udp_encode writes for a sendable frame whose numbers fit their types,
-- vt_mqtt_udp_decode reads back from the bytes up to the reported length, every field of it.
pub decode-encode :
    (frame old : UdpFrame) (payload output : List ℕ) (capacity n : ℕ)
    → IsSendable frame payload output capacity
    → IsWord frame
    → let (result, output', n') = encode_frame frame payload output capacity n in
      (result ≡ ok)
      × (decode_frame (take n' output') old
          ≡ (ok, record frame { payload = some (take frame.payload_len payload) }))
decode-encode frame old payload output capacity n h w =
    let p = take frame.payload_len payload in
    let written = wire_header frame ++ p in
    let size : length p ≡ frame.payload_len =
      omega (arith, length-take frame.payload_len payload, h.readable) in
    let whole : header_size + frame.payload_len ≡ length written =
      omega (arith, length-append (wire_header frame) p, size) in
    let rest = drop (header_size + frame.payload_len) output in
    let front : take (header_size + frame.payload_len) (written ++ rest) ≡ written =
      ap (λ (m : ℕ). take m (written ++ rest)) whole ∙ take-length_append written rest in
    rw (encode-writes frame payload output capacity n h) (
      refl,
      ap (λ (xs : List ℕ). decode_frame xs old) front
          ∙ decode_wire frame old p w size h.sized h.numbered,
    )

fields :
    (old frame : UdpFrame) (a b c d e f g h i j k l m n o p : ℕ) (rest : List ℕ)
    → let input = a ∷ b ∷ c ∷ d ∷ e ∷ f ∷ g ∷ h ∷ i ∷ j ∷ k ∷ l ∷ m ∷ n ∷ o ∷ p ∷ rest in
      All IsByte input
      → decode_frame input old ≡ (ok, frame)
      → (input ≡ wire_header frame ++ rest) × IsWord frame
unfolding decode_frame
fields old frame a b c d e f g h i j k l m n o p rest v q =
    let input : List ℕ = a ∷ b ∷ c ∷ d ∷ e ∷ f ∷ g ∷ h ∷ i ∷ j ∷ k ∷ l ∷ m ∷ n ∷ o ∷ p ∷ rest in
    let v2 = v.1.1 in
    let v4 = v2.1.1 in
    let v8 = v4.1.1.1.1 in
    let v12 = v8.1.1.1.1 in
    let length_field = u16_bytes-get_u16 input 2 c d (v2.0, v2.1.0) refl refl in
    let ssrc_field =
      u32_bytes-get_u32 input 4 e f g h (v4.0, v4.1.0, v4.1.1.0, v4.1.1.1.0) refl refl refl refl in
    let time_field =
      u32_bytes-get_u32 input 8 i j k l (v8.0, v8.1.0, v8.1.1.0, v8.1.1.1.0) refl refl refl refl in
    let sequence_field =
      u32_bytes-get_u32 input 12 m n o p (v12.0, v12.1.0, v12.1.1.0, v12.1.1.1.0) refl refl refl
        refl in
    (
      ground (arith, length_field, ssrc_field, time_field, sequence_field),
      ground (arith, ssrc_field, time_field, sequence_field, v.1.0),
    )

size_of_ok :
    (input : List ℕ) (old frame : UdpFrame)
    → decode_frame input old ≡ (ok, frame)
    → 16 ≤ length input
unfolding decode_frame
size_of_ok input old frame e = ground arith

-- What vt_mqtt_udp_decode accepts from bytes is the header of the frame that it returns and then its
-- payload, to the last byte; the numbers of the frame fit their types, the payload has 1 to 1400
-- bytes and the sequence is not 0.
decode-canonical :
    (input : List ℕ) (old frame : UdpFrame)
    → All IsByte input
    → decode_frame input old ≡ (ok, frame)
    → (input ≡ wire_header frame ++ drop header_size input)
      × IsWord frame
      × (frame.payload ≡ some (drop header_size input))
      × (frame.payload_len + header_size ≡ length input)
      × (0 < frame.payload_len)
      × (frame.payload_len ≤ max_payload_bytes)
      × (0 < frame.sequence)
decode-canonical input old frame bytes e =
    let both =
      sixteen_in_front
        (λ xs.
          All IsByte xs
          → decode_frame xs old ≡ (ok, frame)
          → (xs ≡ wire_header frame ++ drop 16 xs) × IsWord frame)
        (fields old frame) input (size_of_ok input old frame e) bytes e in
    (both.0, both.1, sizes.0, sizes.1, sizes.2, sizes.3, sizes.4)
  where
    sizes :
        (frame.payload ≡ some (drop header_size input))
        × (frame.payload_len + header_size ≡ length input)
        × (0 < frame.payload_len)
        × (frame.payload_len ≤ max_payload_bytes)
        × (0 < frame.sequence)
    sizes =
        unfold decode_frame in
        (ground arith, ground arith, ground arith, ground arith, ground arith)

-- Whatever vt_mqtt_udp_decode refuses leaves the caller's frame as it was.
pub decode_unchanged :
    (input : List ℕ) (old : UdpFrame)
    → (decode_frame input old).0 ≢ ok
    → (decode_frame input old).1 ≡ old
unfolding decode_frame
decode_unchanged input old h = ground arith
