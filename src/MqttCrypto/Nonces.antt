-- ===== src/MqttCrypto/Nonces.antt =====
-- No two packets that vt_mqtt_udp_crypto_encrypt returns have the same IV.
use veetee_vuqb.Base.{
  ℕ, ◌+◌, ◌%◌, ◌^◌, ◌≤◌, ◌<◌, ◌≡◌, ◌≢◌, refl, sym, ap, ◌∙◌, false, arith, Option, none, some, List,
  [], ◌∷◌, ◌++◌, length, take, drop, take-length_append, All, ◌⊎◌, inl, inr, if◌then◌else◌,
}
use veetee_vuqb.Base.Buffer.{take-copy_at, get_u32, get_u32_lem}
use veetee_vuqb.MqttWire
use veetee_vuqb.MqttWire.{UdpFrame, header_size, max_payload_bytes}
use veetee_vuqb.MqttWire.Bytes.{wire_header}
use veetee_vuqb.MqttCrypto.{
  Crypto, Psa, CryptoResult, ok, is_ok, run_cipher, crypt_payload, map_wire_error, seal_frame,
  send_frame, encrypt,
}
use veetee_vuqb.MqttCrypto.Packets.{next_frame, CanSend, encoded_next}

seal_frame-sequence :
    (psa : Psa) (s : Crypto) (k sequence : ℕ) (encoded : List ℕ) (m n : ℕ)
    → let (result, s', output', n') = seal_frame psa s k sequence encoded m n in
      (result ≡ ok → s' ≡ record s { send_sequence = sequence })
      × (result ≢ ok → (s' ≡ s) × (n' ≡ n))
unfolding seal_frame
seal_frame-sequence psa s k sequence encoded m n = (λ h. ground arith, λ h. ground arith)

send_frame-sequence :
    (psa : Psa) (s : Crypto) (opus : List ℕ) (frame : UdpFrame) (output : List ℕ) (capacity n : ℕ)
    → let (result, s', output', n') = send_frame psa s opus frame output capacity n in
      (result ≡ ok → s' ≡ record s { send_sequence = frame.sequence })
      × (result ≢ ok → (s' ≡ s) × (n' ≡ n))
unfolding send_frame map_wire_error
send_frame-sequence psa s opus frame output capacity n =
    let (wire_result, encoded, m) = MqttWire.encode_frame frame opus output capacity 0 in
    let sealed = seal_frame-sequence psa s (length opus) frame.sequence encoded m n in
    (λ h. ground (arith, sealed), λ h. ground (arith, sealed))

-- A call that succeeds takes the next sequence number, which is still a uint32_t, and changes
-- nothing else of the session; a call that fails leaves the session and the output length alone.
encrypt-sequence :
    (psa : Psa) (s : Crypto) (opus output : List ℕ) (timestamp_ms ssrc capacity n : ℕ)
    → let (result, s', output', n') = encrypt psa s opus timestamp_ms ssrc output capacity n in
      (result ≡ ok
        → (s' ≡ record s { send_sequence = s.send_sequence + 1 }) × (s.send_sequence + 1 < 2 ^ 32))
      × (result ≢ ok → (s' ≡ s) × (n' ≡ n))
unfolding encrypt
encrypt-sequence psa s opus output timestamp_ms ssrc capacity n =
    let sent =
      send_frame-sequence psa s opus (next_frame s opus timestamp_ms ssrc) output capacity n in
    (λ h. ground (arith, sent), λ h. ground (arith, sent))

keeps_front :
    (psa : Psa) (written : Option (List ℕ)) (n : ℕ) (front buffer : List ℕ) (k : ℕ)
    → length front ≡ k
    → take k (run_cipher psa written n (front ++ buffer) k).1 ≡ front
unfolding run_cipher
keeps_front psa none n front buffer k e =
    ap (λ (m : ℕ). take m (front ++ buffer)) (sym e) ∙ take-length_append front buffer
keeps_front psa (some written) n front buffer k e = take-copy_at front buffer written k e

-- Whatever the cipher does, the header in front of the payload stays.
take-crypt_payload :
    (psa : Psa) (key iv xs front buffer : List ℕ) (k : ℕ)
    → length front ≡ k
    → take k (crypt_payload psa key iv xs (front ++ buffer) k).1 ≡ front
unfolding crypt_payload
take-crypt_payload psa key iv xs front buffer k e =
    let same : take k (front ++ buffer) ≡ front =
      ap (λ (m : ℕ). take m (front ++ buffer)) (sym e) ∙ take-length_append front buffer in
    ground (arith, same, keeps_front psa (psa.update key iv xs) (length xs) front buffer k e)

module _ (psa : Psa) (s : Crypto) (opus output : List ℕ) (timestamp_ms ssrc capacity n : ℕ) where
  can_send :
      capacity ≤ length output
      → (encrypt psa s opus timestamp_ms ssrc output capacity n).0 ≡ ok
      → CanSend s opus output capacity
  unfolding encrypt
  can_send h e = ground arith

  -- the IV of the packet is its header, and the header is the one of the next frame
  iv_of_packet :
      capacity ≤ length output
      → (encrypt psa s opus timestamp_ms ssrc output capacity n).0 ≡ ok
      → take header_size (encrypt psa s opus timestamp_ms ssrc output capacity n).2
        ≡ wire_header (next_frame s opus timestamp_ms ssrc)
  unfolding encrypt send_frame seal_frame
  iv_of_packet h e =
      let header = wire_header (next_frame s opus timestamp_ms ssrc) in
      let rest = drop (header_size + length opus) output in
      let encoded = (header ++ opus) ++ rest in
      ground (
        arith,
        encoded_next s opus output timestamp_ms ssrc capacity (can_send h e),
        take-crypt_payload psa s.key (take header_size encoded)
            (take (length opus) (drop header_size encoded)) header (opus ++ rest) 16 refl,
      )

-- One call of vt_mqtt_udp_crypto_encrypt, with what the PSA library does during it.
pub record Call : Type 0 where
  pub psa : Psa
  pub opus : List ℕ
  pub timestamp_ms : ℕ
  pub ssrc : ℕ
  pub output : List ℕ
  pub capacity : ℕ

-- The output has the capacity that the caller states.
abbrev pub IsCall : Call → Type 0
IsCall x = x.capacity ≤ length x.output

abbrev encrypt_call : Crypto → Call → CryptoResult × Crypto × List ℕ × ℕ
encrypt_call s x = encrypt x.psa s x.opus x.timestamp_ms x.ssrc x.output x.capacity 0

-- The IVs of the packets that the calls of a session returned with VT_MQTT_UDP_CRYPTO_OK, in order.
pub ivs : Crypto → List Call → List (List ℕ)
ivs s [] = []
ivs s (x ∷ xs) =
    let (result, s', output, n) = encrypt_call s x in
    let rest = ivs s' xs in if is_ok result then take header_size output ∷ rest else rest

-- No entry occurs twice.
abbrev pub AllDistinct : List (List ℕ) → Type 0
AllDistinct [] = Unit
AllDistinct (x ∷ xs) = All (λ y. x ≢ y) xs × AllDistinct xs

abbrev sequence_of : List ℕ → ℕ
sequence_of iv = get_u32 iv 12

result_cases :
    (s : Crypto) (x : Call) → ((encrypt_call s x).0 ≡ ok) ⊎ (is_ok (encrypt_call s x).0 ≡ false)
result_cases s x = cases (encrypt_call s x).0
  where
    cases : (r : CryptoResult) → (r ≡ ok) ⊎ (is_ok r ≡ false)
    cases ok = inl refl
    cases _ = inr refl

-- The IV of a call that succeeds carries the next sequence number, and the session has moved there.
head_sequence :
    (s : Crypto) (x : Call)
    → IsCall x
    → (encrypt_call s x).0 ≡ ok
    → (sequence_of (take header_size (encrypt_call s x).2) ≡ s.send_sequence + 1)
      × ((encrypt_call s x).1.send_sequence ≡ s.send_sequence + 1)
head_sequence s x h e =
    let moved = (encrypt-sequence x.psa s x.opus x.output x.timestamp_ms x.ssrc x.capacity 0).0 e in
    let iv = iv_of_packet x.psa s x.opus x.output x.timestamp_ms x.ssrc x.capacity 0 h e in
    let header = wire_header (next_frame s x.opus x.timestamp_ms x.ssrc) in
    let wraps_not : (s.send_sequence + 1) % 2 ^ 32 ≡ s.send_sequence + 1 = omega (arith, moved.1) in
    let field : get_u32 header 12 ≡ s.send_sequence + 1 =
      get_u32_lem header 12 (s.send_sequence + 1) moved.1 (rw wraps_not) (rw wraps_not)
        (rw wraps_not) (rw wraps_not) in
    (ap sequence_of iv ∙ field, ap (λ (c : Crypto). c.send_sequence) moved.0)

failed_unchanged :
    (s : Crypto) (x : Call) → is_ok (encrypt_call s x).0 ≡ false → (encrypt_call s x).1 ≡ s
failed_unchanged s x e =
    ((encrypt-sequence x.psa s x.opus x.output x.timestamp_ms x.ssrc x.capacity 0).1 (λ q. cc)).0

All-weaken :
    (a b : ℕ) (l : List (List ℕ))
    → a ≤ b
    → All (λ iv. b < sequence_of iv) l
    → All (λ iv. a < sequence_of iv) l
All-weaken a b [] h v = tt
All-weaken a b (x ∷ xs) h v = (omega arith, All-weaken a b xs h v.1)

-- Every later IV carries a sequence number above the session's.
ivs-above :
    (s : Crypto) (calls : List Call)
    → All IsCall calls
    → All (λ iv. s.send_sequence < sequence_of iv) (ivs s calls)
unfolding ivs
ivs-above s [] h = tt
ivs-above s (x ∷ xs) h = elim (result_cases s x) [
  | inl e ↦
      let head = head_sequence s x h.0 e in
      let later = ivs-above (encrypt_call s x).1 xs h.1 in
      rw e (
        omega (arith, head),
        All-weaken s.send_sequence (encrypt_call s x).1.send_sequence _ (omega (arith, head)) later,
      )
  | inr e ↦ rw e (
      All-weaken s.send_sequence (encrypt_call s x).1.send_sequence _
        (omega (arith, ap (λ (c : Crypto). c.send_sequence) (failed_unchanged s x e)))
        (ivs-above (encrypt_call s x).1 xs h.1))
]

apart :
    (x : List ℕ) (n : ℕ) (l : List (List ℕ))
    → sequence_of x ≡ n
    → All (λ iv. n < sequence_of iv) l
    → All (λ y. x ≢ y) l
apart x n [] e h = tt
apart x n (y ∷ l) e h = (λ q. absurd (omega (arith, ap sequence_of q, e, h.0)), apart x n l e h.1)

-- Over any calls on a session, with any payloads, timestamps and library failures between them, no two
-- packets that the calls return with success have the same IV. It says nothing of what a failed call leaves
-- in its output: a call whose psa_cipher_update succeeds and whose psa_cipher_finish fails has encrypted there
-- under the IV of the next packet, since it does not advance the sequence.
pub ivs-AllDistinct :
    (s : Crypto) (calls : List Call) → All IsCall calls → AllDistinct (ivs s calls)
unfolding ivs
ivs-AllDistinct s [] h = tt
ivs-AllDistinct s (x ∷ xs) h = elim (result_cases s x) [
  | inl e ↦
      let head = head_sequence s x h.0 e in
      let later = ivs-above (encrypt_call s x).1 xs h.1 in
      let iv = take header_size (encrypt_call s x).2 in
      rw e (
        apart iv (encrypt_call s x).1.send_sequence _ (head.0 ∙ sym head.1) later,
        ivs-AllDistinct (encrypt_call s x).1 xs h.1,
      )
  | inr e ↦ rw e (ivs-AllDistinct (encrypt_call s x).1 xs h.1)
]
