-- ===== src/Protocol/Decoding.antt =====
-- vt_protocol_decode_audio: it reads back what was encoded, and accepts nothing else.
use veetee_vuqb.Base.{
  ap₂, ℕ, zero, suc, ◌+◌, ◌-◌, ◌^◌, ◌≤◌, ◌<◌, ◌≡◌, ◌≢◌, refl, ap, ◌∙◌, sym, arith, if◌then◌else◌,
  ◌==◌, some, List, [], ◌∷◌, ◌++◌, length, take, drop, All, take-length_append, length-take,
  length-append,
}
use veetee_vuqb.Base.Buffer.{
  IsByte, get_u16_lem, get_u32_lem, u16_bytes-get_u16, u32_bytes-get_u32, sixteen_in_front,
}
use veetee_vuqb.Protocol.{
  max_opus_payload_bytes, ws_v1_compat, ws_v2, ws_v3, AudioFrame, ok, header_length, encode_frame,
  decode_frame,
}
use veetee_vuqb.Protocol.Wire.{wire_header, IsSendable, encode_audio-writes}

-- The frame that stands in `wire_header profile t (length p) ++ p`.
abbrev pub decoded : ℕ → ℕ → List ℕ → AudioFrame
decoded profile t p = record {
  profile = profile;
  payload = some p;
  payload_len = length p;
  timestamp_ms = if profile == ws_v2 then t else 0;
}

decode_v1 :
    (t : ℕ) (p : List ℕ) (old : AudioFrame)
    → 0 < length p
    → length p ≤ max_opus_payload_bytes
    → decode_frame 1 p old ≡ (ok, decoded 1 t p)
unfolding decode_frame
decode_v1 t p old h k = ground arith

decode_v3 :
    (t : ℕ) (p : List ℕ) (old : AudioFrame)
    → 0 < length p
    → length p ≤ max_opus_payload_bytes
    → decode_frame 3 (wire_header 3 t (length p) ++ p) old ≡ (ok, decoded 3 t p)
unfolding decode_frame
decode_v3 t p old h k =
    let input = wire_header 3 t (length p) ++ p in
    ground (arith, get_u16_lem input 2 (length p) (omega arith) refl refl)

decode_v2 :
    (t : ℕ) (p : List ℕ) (old : AudioFrame)
    → t < 2 ^ 32
    → 0 < length p
    → length p ≤ max_opus_payload_bytes
    → decode_frame 2 (wire_header 2 t (length p) ++ p) old ≡ (ok, decoded 2 t p)
unfolding decode_frame
decode_v2 t p old b h k =
    let input = wire_header 2 t (length p) ++ p in
    ground (
      arith,
      get_u16_lem input 0 2 (omega arith) refl refl,
      get_u16_lem input 2 0 (omega arith) refl refl,
      get_u32_lem input 4 0 (omega arith) refl refl refl refl,
      get_u32_lem input 8 t b refl refl refl refl,
      get_u32_lem input 12 (length p) (omega arith) refl refl refl refl,
    )

decode_wire :
    (profile t : ℕ) (p : List ℕ) (old : AudioFrame)
    → (ws_v1_compat ≤ profile) × (profile ≤ ws_v3)
    → t < 2 ^ 32
    → (0 < length p) × (length p ≤ max_opus_payload_bytes)
    → decode_frame profile (wire_header profile t (length p) ++ p) old ≡ (ok, decoded profile t p)
decode_wire zero t p old h b s = absurd (omega arith)
decode_wire (suc zero) t p old h b s = decode_v1 t p old s.0 s.1
decode_wire (suc (suc zero)) t p old h b s = decode_v2 t p old b s.0 s.1
decode_wire (suc (suc (suc zero))) t p old h b s = decode_v3 t p old s.0 s.1
decode_wire (suc (suc (suc (suc k)))) t p old h b s = absurd (omega arith)

-- The first bytes of an output are what was written before its rest.
take_written :
    (header p rest : List ℕ) (k n : ℕ)
    → length header ≡ k
    → length p ≡ n
    → take (k + n) ((header ++ p) ++ rest) ≡ header ++ p
take_written header p rest k n e f =
    let size : k + n ≡ length (header ++ p) = omega (arith, e, f, length-append header p) in
    ap (λ (m : ℕ). take m ((header ++ p) ++ rest)) size ∙ take-length_append (header ++ p) rest

length-wire_header : (profile t n : ℕ) → length (wire_header profile t n) ≡ header_length profile
length-wire_header profile t n = ground arith

-- The reported length is that of the frame in the output.
pub length-encode_frame :
    (frame : AudioFrame) (payload output : List ℕ) (capacity n : ℕ)
    → IsSendable frame payload output capacity
    → let (result, output', n') = encode_frame frame payload output capacity n in
      length (take n' output') ≡ n'
length-encode_frame frame payload output capacity n h =
    let p = take frame.payload_len payload in
    let size : length p ≡ frame.payload_len =
      omega (arith, length-take frame.payload_len payload, h.readable) in
    let header = wire_header frame.profile frame.timestamp_ms frame.payload_len in
    let rest = drop (header_length frame.profile + frame.payload_len) output in
    let headed = length-wire_header frame.profile frame.timestamp_ms frame.payload_len in
    let front =
      take_written header p rest (header_length frame.profile) frame.payload_len headed size in
    rw (encode_audio-writes frame payload output capacity n h)
      (ap length front ∙ length-append header p ∙ ap₂ (λ (x y : ℕ). x + y) headed size)

-- What vt_protocol_encode_audio writes for a sendable frame, vt_protocol_decode_audio reads back:
-- the bytes up to the reported length give the profile, the payload and its length, and the
-- timestamp where the profile carries one (0 in the others), for a timestamp that is a uint32_t.
pub decode_audio-encode_audio :
    (frame old : AudioFrame) (payload output : List ℕ) (capacity n : ℕ)
    → IsSendable frame payload output capacity
    → frame.timestamp_ms < 2 ^ 32
    → let (result, output', n') = encode_frame frame payload output capacity n in
      (result ≡ ok)
      × (decode_frame frame.profile (take n' output') old
          ≡ (ok, decoded frame.profile frame.timestamp_ms (take frame.payload_len payload)))
decode_audio-encode_audio frame old payload output capacity n h b =
    let p = take frame.payload_len payload in
    let size : length p ≡ frame.payload_len =
      omega (arith, length-take frame.payload_len payload, h.readable) in
    let header = wire_header frame.profile frame.timestamp_ms frame.payload_len in
    let rest = drop (header_length frame.profile + frame.payload_len) output in
    let front =
      take_written header p rest (header_length frame.profile) frame.payload_len
        (length-wire_header frame.profile frame.timestamp_ms frame.payload_len) size in
    let back = decode_wire frame.profile frame.timestamp_ms p old h.known b (omega (arith, size)) in
    let framed =
      ap
        (λ (m : ℕ).
          decode_frame frame.profile (wire_header frame.profile frame.timestamp_ms m ++ p) old)
        (sym size) in
    rw (encode_audio-writes frame payload output capacity n h)
      (refl, ap (λ (xs : List ℕ). decode_frame frame.profile xs old) front ∙ framed ∙ back)

fields_v2 :
    (old frame : AudioFrame) (a b c d e f g h i j k l m n o p : ℕ) (rest : List ℕ)
    → let input = a ∷ b ∷ c ∷ d ∷ e ∷ f ∷ g ∷ h ∷ i ∷ j ∷ k ∷ l ∷ m ∷ n ∷ o ∷ p ∷ rest in
      All IsByte input
      → decode_frame 2 input old ≡ (ok, frame)
      → input ≡ wire_header 2 frame.timestamp_ms frame.payload_len ++ rest
unfolding decode_frame
fields_v2 old frame a b c d e f g h i j k l m n o p rest v q =
    let input : List ℕ = a ∷ b ∷ c ∷ d ∷ e ∷ f ∷ g ∷ h ∷ i ∷ j ∷ k ∷ l ∷ m ∷ n ∷ o ∷ p ∷ rest in
    let v2 = v.1.1 in
    let v4 = v2.1.1 in
    let v8 = v4.1.1.1.1 in
    let v12 = v8.1.1.1.1 in
    ground (
      arith,
      u16_bytes-get_u16 input 0 a b (v.0, v.1.0) refl refl,
      u16_bytes-get_u16 input 2 c d (v2.0, v2.1.0) refl refl,
      u32_bytes-get_u32 input 4 e f g h (v4.0, v4.1.0, v4.1.1.0, v4.1.1.1.0) refl refl refl refl,
      u32_bytes-get_u32 input 8 i j k l (v8.0, v8.1.0, v8.1.1.0, v8.1.1.1.0) refl refl refl refl,
      u32_bytes-get_u32 input 12 m n o p (v12.0, v12.1.0, v12.1.1.0, v12.1.1.1.0) refl refl refl
          refl,
    )

size_v2 :
    (input : List ℕ) (old frame : AudioFrame)
    → decode_frame 2 input old ≡ (ok, frame)
    → 16 ≤ length input
unfolding decode_frame
size_v2 input old frame e = ground arith

canonical_v2 :
    (input : List ℕ) (old frame : AudioFrame)
    → All IsByte input
    → decode_frame 2 input old ≡ (ok, frame)
    → input ≡ wire_header 2 frame.timestamp_ms frame.payload_len ++ drop 16 input
canonical_v2 input old frame bytes e =
    sixteen_in_front
      (λ xs.
        All IsByte xs
        → decode_frame 2 xs old ≡ (ok, frame)
        → xs ≡ wire_header 2 frame.timestamp_ms frame.payload_len ++ drop 16 xs)
      (fields_v2 old frame) input (size_v2 input old frame e) bytes e

canonical_v3 :
    (input : List ℕ) (old frame : AudioFrame)
    → All IsByte input
    → decode_frame 3 input old ≡ (ok, frame)
    → input ≡ wire_header 3 frame.timestamp_ms frame.payload_len ++ drop 4 input
unfolding decode_frame
canonical_v3 [] old frame bytes e = ground arith
canonical_v3 (a ∷ []) old frame bytes e = ground arith
canonical_v3 (a ∷ b ∷ []) old frame bytes e = ground arith
canonical_v3 (a ∷ b ∷ c ∷ []) old frame bytes e = ground arith
canonical_v3 (a ∷ b ∷ c ∷ d ∷ p) old frame bytes e =
    let field =
      u16_bytes-get_u16 (a ∷ b ∷ c ∷ d ∷ p) 2 c d (bytes.1.1.0, bytes.1.1.1.0) refl refl in
    ground (arith, field)

canonical_known :
    (profile : ℕ) (input : List ℕ) (old frame : AudioFrame)
    → decode_frame profile input old ≡ (ok, frame)
    → (ws_v1_compat ≤ profile) × (profile ≤ ws_v3)
unfolding decode_frame
canonical_known profile input old frame e = ground arith

canonical :
    (profile : ℕ) (input : List ℕ) (old frame : AudioFrame)
    → All IsByte input
    → decode_frame profile input old ≡ (ok, frame)
    → (ws_v1_compat ≤ profile) × (profile ≤ ws_v3)
    → input
      ≡ wire_header profile frame.timestamp_ms frame.payload_len
        ++ drop (header_length profile) input
canonical zero input old frame b e h = absurd (omega arith)
canonical (suc zero) input old frame b e h = refl
canonical (suc (suc zero)) input old frame b e h = canonical_v2 input old frame b e
canonical (suc (suc (suc zero))) input old frame b e h = canonical_v3 input old frame b e
canonical (suc (suc (suc (suc k)))) input old frame b e h = absurd (omega arith)

-- What vt_protocol_decode_audio accepts from bytes is the header of the frame that it returns and
-- then the payload, to the last byte; the profile is the one asked for, the length is that of the
-- payload and lies between 1 and 1500.
decode_audio-canonical :
    (profile : ℕ) (input : List ℕ) (old frame : AudioFrame)
    → All IsByte input
    → decode_frame profile input old ≡ (ok, frame)
    → (input
        ≡ wire_header profile frame.timestamp_ms frame.payload_len
          ++ drop (header_length profile) input)
      × (frame.profile ≡ profile)
      × (frame.payload ≡ some (drop (header_length profile) input))
      × (frame.payload_len ≡ length input - header_length profile)
      × (0 < frame.payload_len)
      × (frame.payload_len ≤ max_opus_payload_bytes)
unfolding decode_frame
decode_audio-canonical profile input old frame b e = (
  canonical profile input old frame b e (canonical_known profile input old frame e),
  ground arith,
  ground arith,
  ground arith,
  ground arith,
  ground arith,
)

-- Whatever vt_protocol_decode_audio refuses leaves the caller's frame as it was.
pub decode_audio_unchanged :
    (profile : ℕ) (input : List ℕ) (old : AudioFrame)
    → (decode_frame profile input old).0 ≢ ok
    → (decode_frame profile input old).1 ≡ old
unfolding decode_frame
decode_audio_unchanged profile input old h = ground arith
