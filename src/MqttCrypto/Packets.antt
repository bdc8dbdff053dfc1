-- ===== src/MqttCrypto/Packets.antt =====
-- What vt_mqtt_udp_crypto_encrypt puts on the wire, and that the peer opens it.
use veetee_vuqb.Base.{
  ℕ, ◌+◌, ◌-◌, ◌%◌, ◌^◌, ◌≤◌, ◌<◌, ◌≡◌, refl, ap, ◌∙◌, true, arith, some, List, ◌++◌, length,
  get_or, take, drop, take-all, take-length_append, length-append,
}
use veetee_vuqb.Base.Buffer.{IsByte, copy_at, copy_at_middle, copy_at-zero}
use veetee_vuqb.MqttWire
use veetee_vuqb.MqttWire.{UdpFrame, WireResult, header_size, max_payload_bytes}
use veetee_vuqb.MqttWire.Bytes
use veetee_vuqb.MqttWire.Bytes.{wire_header}
use veetee_vuqb.MqttWire.Decoding
use veetee_vuqb.MqttWire.Decoding.{IsWord}
use veetee_vuqb.MqttCrypto.{
  Crypto, Psa, ok, crypt_payload, run_cipher, zero_frame, seal_frame, send_frame, encrypt, decrypt,
}

-- AES-128-CTR as its documentation describes it: the output is as long as the input, and the same
-- key and IV applied again give the input back.
pub record Ctr : Type 0 where
  pub ctr : List ℕ → List ℕ → List ℕ → List ℕ
  pub length-ctr : (key iv xs : List ℕ) → length (ctr key iv xs) ≡ length xs
  pub ctr-ctr : (key iv xs : List ℕ) → ctr key iv (ctr key iv xs) ≡ xs

-- The PSA library does its work: every step succeeds, and the update is the cipher.
pub record IsWorking (c : Ctr) (psa : Psa) : Type 0 where
  pub init_works : psa.init_ok ≡ true
  pub import_works : psa.import_ok ≡ true
  pub setup_works : psa.setup_ok ≡ true
  pub set_iv_works : psa.set_iv_ok ≡ true
  pub finish_works : psa.finish_ok ≡ true
  pub finishes : psa.finished ≡ 0
  pub updates : (key iv xs : List ℕ) → psa.update key iv xs ≡ some (c.ctr key iv xs)

-- The frame that the session sends next.
abbrev pub next_frame : Crypto → List ℕ → ℕ → ℕ → UdpFrame
next_frame c opus timestamp_ms ssrc = record {
  flags = get_or c.nonce 1 0;
  ssrc = ssrc;
  timestamp_ms = timestamp_ms;
  sequence = (c.send_sequence + 1) % 2 ^ 32;
  payload = some opus;
  payload_len = length opus % 2 ^ 16;
}

-- What a caller of vt_mqtt_udp_crypto_encrypt provides.
pub record CanSend (c : Crypto) (opus output : List ℕ) (capacity : ℕ) : Type 0 where
  pub ready : c.ready ≡ true
  pub sized : (0 < length opus) × (length opus ≤ max_payload_bytes)
  pub sequence_left : c.send_sequence < 2 ^ 32 - 1
  pub room : header_size + length opus ≤ capacity
  pub writable : capacity ≤ length output

crypt_payload_works :
    (c : Ctr) (psa : Psa) (key iv xs output : List ℕ) (offset : ℕ)
    → IsWorking c psa
    → crypt_payload psa key iv xs output offset ≡ (ok, copy_at output offset (c.ctr key iv xs))
unfolding crypt_payload run_cipher
crypt_payload_works c psa key iv xs output offset w =
    ground (arith, w.updates key iv xs, c.length-ctr key iv xs)

-- The frame before its payload is sealed.
pub encoded_next :
    (s : Crypto) (opus output : List ℕ) (timestamp_ms ssrc capacity : ℕ)
    → CanSend s opus output capacity
    → MqttWire.encode_frame (next_frame s opus timestamp_ms ssrc) opus output capacity 0 ≡ (
      WireResult.ok,
      (wire_header (next_frame s opus timestamp_ms ssrc) ++ opus)
          ++ drop (header_size + length opus) output,
      header_size + length opus,
    )
encoded_next s opus output timestamp_ms ssrc capacity h =
    let frame = next_frame s opus timestamp_ms ssrc in
    let small : length opus % 2 ^ 16 ≡ length opus = omega (arith, h.sized) in
    let whole : take (length opus % 2 ^ 16) opus ≡ opus =
      take-all (length opus % 2 ^ 16) opus (omega (arith, small)) in
    let sendable : Bytes.IsSendable frame opus output capacity = record {
      sized = omega (arith, small, h.sized);
      numbered = omega (arith, h.sequence_left);
      readable = omega (arith, small);
      room = omega (arith, small, h.room);
      writable = h.writable;
    } in
    Bytes.encode-writes frame opus output capacity 0 sendable
    ∙ ap
        (λ (xs : List ℕ). (
          WireResult.ok,
          (wire_header frame ++ xs) ++ drop (header_size + length opus % 2 ^ 16) output,
          header_size + length opus % 2 ^ 16,
        ))
        whole
    ∙ ap
        (λ (m : ℕ). (
          WireResult.ok,
          (wire_header frame ++ opus) ++ drop (header_size + m) output,
          header_size + m,
        ))
        small

module _ (c : Ctr) (psa : Psa) (w : IsWorking c psa) where
  -- the header and the sealed payload of the packet
  abbrev pub packet : Crypto → List ℕ → ℕ → ℕ → List ℕ
  packet s opus timestamp_ms ssrc =
      let header = wire_header (next_frame s opus timestamp_ms ssrc) in
      header ++ c.ctr s.key header opus

  -- A session that can send puts the header and the payload sealed under the session key, with the
  -- header as IV, at the start of the output, leaves the rest of the output alone, reports the
  -- packet's length, and advances its sequence by one.
  encrypt-packet :
      (s : Crypto) (opus output : List ℕ) (timestamp_ms ssrc capacity n : ℕ)
      → CanSend s opus output capacity
      → encrypt psa s opus timestamp_ms ssrc output capacity n ≡ (
        ok,
        record s { send_sequence = s.send_sequence + 1 },
        packet s opus timestamp_ms ssrc ++ drop (header_size + length opus) output,
        header_size + length opus,
      )
  unfolding encrypt send_frame seal_frame
  encrypt-packet s opus output timestamp_ms ssrc capacity n h =
      let frame = next_frame s opus timestamp_ms ssrc in
      let header = wire_header frame in
      let rest = drop (header_size + length opus) output in
      let encoded = (header ++ opus) ++ rest in
      let sealed = c.ctr s.key header opus in
      ground (
        arith,
        encoded_next s opus output timestamp_ms ssrc capacity h,
        take-length_append opus rest,
        crypt_payload_works c psa s.key header opus encoded 16 w,
        copy_at_middle header opus rest sealed 16 refl (c.length-ctr s.key header opus),
        h.ready,
        h.sized,
        h.sequence_left,
        h.room,
      )

  opens :
      (s r : Crypto) (opus opus_output : List ℕ) (timestamp_ms ssrc opus_capacity : ℕ)
      (old : UdpFrame)
      → (0 < length opus) × (length opus ≤ max_payload_bytes)
      → s.send_sequence < 2 ^ 32 - 1
      → (r.ready ≡ true) × (r.key ≡ s.key) × (get_or r.nonce 1 0 ≡ get_or s.nonce 1 0)
      → IsByte (get_or s.nonce 1 0) × (timestamp_ms < 2 ^ 32) × (ssrc < 2 ^ 32)
      → (length opus ≤ opus_capacity) × (opus_capacity ≤ length opus_output)
      → let opened = opus ++ drop (length opus) opus_output in
        decrypt psa r (packet s opus timestamp_ms ssrc) opus_output opus_capacity old
        ≡ (ok, opened, record (next_frame s opus timestamp_ms ssrc) { payload = some opened })
  unfolding decrypt
  opens s r opus opus_output timestamp_ms ssrc opus_capacity old sized left shared words room =
      let frame = next_frame s opus timestamp_ms ssrc in
      let header = wire_header frame in
      let sealed = c.ctr s.key header opus in
      let size = c.length-ctr s.key header opus in
      let words' : IsWord frame = record {
        flags = words.0;
        ssrc = words.2;
        timestamp = words.1;
        sequence = omega arith;
      } in
      let small : length opus % 2 ^ 16 ≡ length opus = omega (arith, sized) in
      let decoded =
        Decoding.decode_wire frame zero_frame sealed words' (omega (arith, size, small))
          (omega (arith, small, sized)) (omega (arith, left)) in
      ground (
        arith,
        decoded,
        small,
        take-all (length opus) sealed (omega (arith, size)),
        crypt_payload_works c psa s.key header sealed opus_output 0 w,
        c.ctr-ctr s.key header opus,
        copy_at-zero opus_output opus (omega (arith, room)),
        shared,
        room,
      )

  -- A session with the same key and the same flags in its nonce opens the packet: it gets the Opus
  -- bytes at the start of its output and the frame that was sent, for a flags byte and a timestamp
  -- and ssrc that fit their types and an output that has room.
  pub decrypt-encrypt :
      (s r : Crypto) (opus output opus_output : List ℕ)
      (timestamp_ms ssrc capacity n opus_capacity : ℕ) (old : UdpFrame)
      → CanSend s opus output capacity
      → (r.ready ≡ true) × (r.key ≡ s.key) × (get_or r.nonce 1 0 ≡ get_or s.nonce 1 0)
      → IsByte (get_or s.nonce 1 0) × (timestamp_ms < 2 ^ 32) × (ssrc < 2 ^ 32)
      → (length opus ≤ opus_capacity) × (opus_capacity ≤ length opus_output)
      → let (result, s', output', n') = encrypt psa s opus timestamp_ms ssrc output capacity n in
        let opened = opus ++ drop (length opus) opus_output in
        decrypt psa r (take n' output') opus_output opus_capacity old
        ≡ (ok, opened, record (next_frame s opus timestamp_ms ssrc) { payload = some opened })
  decrypt-encrypt s r opus output opus_output timestamp_ms ssrc capacity n opus_capacity old h
        shared words room =
      let frame = next_frame s opus timestamp_ms ssrc in
      let header = wire_header frame in
      let sealed = c.ctr s.key header opus in
      let size : length sealed ≡ length opus = c.length-ctr s.key header opus in
      let rest = drop (header_size + length opus) output in
      let whole : header_size + length opus ≡ length (header ++ sealed) =
        omega (arith, length-append header sealed, size) in
      let front : take (header_size + length opus) ((header ++ sealed) ++ rest) ≡ header ++ sealed =
        ap (λ (m : ℕ). take m ((header ++ sealed) ++ rest)) whole
        ∙ take-length_append (header ++ sealed) rest in
      rw (encrypt-packet s opus output timestamp_ms ssrc capacity n h) (
        ap (λ (xs : List ℕ). decrypt psa r xs opus_output opus_capacity old) front
        ∙ opens s r opus opus_output timestamp_ms ssrc opus_capacity old h.sized h.sequence_left
            shared words room)
