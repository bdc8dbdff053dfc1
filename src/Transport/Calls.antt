-- ===== src/Transport/Calls.antt =====
-- What init leaves behind, and what an audio frame sent over the transport says to its receiver.
use veetee_vuqb.Base.{
  ℕ, ◌+◌, ◌-◌, ◌^◌, ◌≤◌, ◌<◌, ◌≡◌, ◌≢◌, refl, sym, ap, ◌∙◌, true, false, not, ◌||◌, if◌then◌else◌,
  ltb, leb, ◌==◌, none, some, List, [], ◌∷◌, length, take, take-all, arith, Bool-cases, inl, inr,
}
use veetee_vuqb.Base.Esp.{EspError}
use veetee_vuqb.Base.Int.{ℤ, pos, int_eq}
use veetee_vuqb.Json.{CJson}
use veetee_vuqb.Protocol.{
  ws_v1_compat, ws_v3, max_opus_payload_bytes, AudioFrame, ProtocolResult, encode_frame,
  decode_frame,
}
use veetee_vuqb.Protocol.Wire.{IsSendable}
use veetee_vuqb.Protocol.Decoding.{decoded, length-encode_frame, decode_audio-encode_audio}
use veetee_vuqb.Transport.{max_headers, TransportConfig, Transport, send_bin}
use veetee_vuqb.Transport.Setup.{
  InitAnswers, config_valid, header_text, init, is_esp_ok, is_ready, send_audio,
}
use veetee_vuqb.Transport.Sessions.{IsSession}

new-IsSession :
    (config : TransportConfig) (headers : List ℕ)
    → IsSession (record {
      client = true;
      events = some (record { connected_bit = false; ready_bit = false });
      config = config;
      headers = take (max_headers - 1) headers;
      session_id = [];
      connected = false;
      ready = false;
    })
new-IsSession config headers = record { opened = λ h. absurd (cc); shut = λ h. refl; bit = refl }

-- With a valid configuration: a transport whose init succeeds has a client, the whole header text and
-- no session yet; one whose init fails, for want of an event group or a client, by a header text that
-- does not fit or by a refused registration, has neither a client nor an event group left.
init-releases :
    (t : Transport) (config : TransportConfig) (answers : InitAnswers)
    → config_valid config ≡ true
    → let (result, t') = init t config answers in
      (result ≡ EspError.ok
        → (t'.client ≡ true)
          × (t'.headers ≡ header_text config)
          × (t'.config ≡ config)
          × IsSession t')
      × (result ≢ EspError.ok → (t'.client ≡ false) × (t'.events ≡ none))
unfolding init
init-releases t config answers valid = elim (Bool-cases answers.events_created) [
  | inr e ↦ rw (valid, e) (λ h. absurd (cc), λ h. (refl, refl))
  | inl e ↦ elim (Bool-cases (leb max_headers (length (header_text config)))) [
    | inl f ↦ rw (valid, e, f) (λ h. absurd (cc), λ h. (refl, refl))
    | inr f ↦ elim (Bool-cases answers.client_created) [
      | inr g ↦ rw (valid, e, f, g) (λ h. absurd (cc), λ h. (refl, refl))
      | inl g ↦ elim (Bool-cases (is_esp_ok answers.registered)) [
        | inl k ↦
            rw (valid, e, f, g, k)
              (
                λ h. (
                  refl,
                  take-all (max_headers - 1) (header_text config) (ground arith),
                  refl,
                  new-IsSession config (header_text config),
                ),
                λ h. absurd (h refl),
              )
        | inr k ↦
            rw (valid, e, f, g, k) (λ h. absurd (cc (sym k ∙ ap is_esp_ok h)), λ h. (refl, refl))
      ]
    ]
  ]
]

-- What a ready transport sends for Opus bytes of its buffer's size and a timestamp that is a uint32_t is
-- one frame, which vt_protocol_decode_audio reads back as these bytes, under the transport's profile;
-- the call succeeds exactly when the client reports the frame's length.
pub send_audio-decodes :
    (j : CJson) (t : Transport) (written : ℤ) (stack opus : List ℕ) (timestamp_ms : ℕ)
    (old : AudioFrame)
    → is_ready t true ≡ true
    → (ws_v1_compat ≤ t.config.profile) × (t.config.profile ≤ ws_v3)
    → (0 < length opus) × (length opus ≤ max_opus_payload_bytes)
    → length stack ≡ max_opus_payload_bytes + 16
    → timestamp_ms < 2 ^ 32
    → (frame : List ℕ) × (send_audio j t true written stack opus (length opus) timestamp_ms ≡ (
      if int_eq written (pos (length frame)) then EspError.ok else EspError.fail,
      send_bin frame ∷ [],
    ))
      × (decode_frame t.config.profile frame old
          ≡ (ProtocolResult.ok, decoded t.config.profile timestamp_ms opus))
unfolding send_audio
send_audio-decodes j t written stack opus timestamp_ms old ready known sized room small =
    let audio : AudioFrame = record {
      profile = t.config.profile;
      payload = some opus;
      payload_len = length opus;
      timestamp_ms = timestamp_ms;
    } in
    let sendable : IsSendable audio opus stack (max_opus_payload_bytes + 16) = record {
      known = known;
      sized = sized;
      readable = omega arith;
      room = ground arith;
      writable = omega (arith, room);
    } in
    let encoded = encode_frame audio opus stack (max_opus_payload_bytes + 16) 0 in
    let both =
      decode_audio-encode_audio audio old opus stack (max_opus_payload_bytes + 16) 0 sendable
        small in
    let size : length (take encoded.2 encoded.1) ≡ encoded.2 =
      length-encode_frame audio opus stack (max_opus_payload_bytes + 16) 0 sendable in
    let guard : (not (is_ready t true)
          || length opus == 0
          || ltb max_opus_payload_bytes (length opus))
        ≡ false =
      ground arith in
    (
      take encoded.2 encoded.1,
      rw (guard, both.0, size) refl,
      both.1
          ∙ ap (λ p. (ProtocolResult.ok, decoded t.config.profile timestamp_ms p))
              (take-all (length opus) opus (omega arith)),
    )
