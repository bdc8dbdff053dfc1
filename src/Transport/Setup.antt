-- ===== src/Transport/Setup.antt =====
-- The calls of the transport: init, start, stop and the two sends.
use veetee_vuqb.Base.{
  ℕ, ◌+◌, ◌-◌, Bool, true, false, not, ◌&&◌, ◌||◌, if◌then◌else◌, ltb, leb, ◌==◌, Option, none,
  some, List, [], ◌∷◌, ◌++◌, length, take,
}
use veetee_vuqb.Base.Esp.{EspError}
use veetee_vuqb.Base.Int.{ℤ, pos, int_eq, is_positive}
use veetee_vuqb.Base.Text.{codes, decimal}
use veetee_vuqb.Json.{CJson}
use veetee_vuqb.Protocol.{max_opus_payload_bytes, AudioFrame, ProtocolResult, encode_frame}
use veetee_vuqb.Transport.{
  max_headers, TransportConfig, Transport, Action, send_bin, close, stop, destroy, text_or_empty,
  profile_version_number, send_raw_text,
}

-- What the libraries answer to the calls of vt_transport_init: whether the event group and the client
-- are created, and the result of the registration.
pub record InitAnswers : Type 0 where
  pub events_created : Bool
  pub client_created : Bool
  pub registered : EspError

abbrev is_given : Option (List ℕ) → Bool
is_given none = false
is_given (some s) = true

-- The test at the beginning of vt_transport_init, without its NULL tests for the two records.
unfoldable pub config_valid : TransportConfig → Bool
config_valid config =
    is_given config.uri
    && is_given config.device_id
    && is_given config.client_id
    && is_given config.firmware_version
    && is_given config.board_profile
    && is_given config.pairing_code_hash
    && config.on_text
    && config.on_audio
    && is_positive config.input_sample_rate
    && is_positive config.output_sample_rate
    && is_positive config.frame_duration_ms

abbrev line_end : List ℕ
line_end = 13 ∷ 10 ∷ []

-- What snprintf formats into `headers`.
unfoldable pub header_text : TransportConfig → List ℕ
header_text config =
    codes "Protocol-Version: "
    ++ (decimal 10 (profile_version_number config.profile) []
        ++ (line_end
            ++ (codes "Device-Id: "
                ++ (text_or_empty config.device_id
                    ++ (line_end
                        ++ (codes "Client-Id: "
                            ++ (text_or_empty config.client_id ++ line_end)))))))

abbrev pub is_esp_ok : EspError → Bool
is_esp_ok EspError.ok = true
is_esp_ok _ = false

-- release_init_resources
abbrev release : Transport → Transport
release t = record t { client = false; events = none }

-- vt_transport_init with no pointer NULL
unfoldable pub init : Transport → TransportConfig → InitAnswers → EspError × Transport
init t config answers =
    let fresh : Transport = record {
      client = false;
      events =
          if answers.events_created
          then some (record { connected_bit = false; ready_bit = false })
          else none;
      config = config;
      headers = [];
      session_id = [];
      connected = false;
      ready = false;
    } in
    let named = record fresh { headers = take (max_headers - 1) (header_text config) } in
    let linked = record named { client = true } in
    if not (config_valid config)
    then (EspError.err_invalid_arg, t)
    else if not answers.events_created
    then (EspError.err_no_mem, fresh)
    else if leb max_headers (length (header_text config))
    then (EspError.err_invalid_size, release named)
    else if not answers.client_created
    then (EspError.err_no_mem, release named)
    else if is_esp_ok answers.registered
    then (EspError.ok, linked)
    else (answers.registered, release linked)

-- vt_transport_start: the client's result, and the ready bit that the wait ends with
unfoldable pub start_client : Transport → EspError → Bool → EspError
start_client t started ready_bit =
    if not t.client
    then EspError.err_invalid_state
    else if not (is_esp_ok started)
    then started
    else if ready_bit
    then EspError.ok
    else EspError.err_timeout

-- vt_transport_is_ready, where `link` is what the client says of its connection
abbrev pub is_ready : Transport → Bool → Bool
is_ready t link = t.ready && t.client && link

abbrev is_encoded : ProtocolResult → Bool
is_encoded ProtocolResult.ok = true
is_encoded _ = false

module _ (j : CJson) where
  -- vt_transport_stop on a transport that is not NULL
  unfoldable pub stop_client : Transport → Bool → Transport × List (Action j)
  stop_client t link = (
    record t { client = false; events = none; connected = false; ready = false },
    if not t.client then [] else if link then close ∷ stop ∷ destroy ∷ [] else stop ∷ destroy ∷ [],
  )

  -- vt_transport_send_text
  unfoldable pub send : Transport → Bool → ℤ → Option (List ℕ) → EspError × List (Action j)
  send t link written text =
      if not (is_ready t link)
      then (EspError.err_invalid_state, [])
      else send_raw_text j t written text

  -- vt_transport_send_audio with `opus` not NULL; `stack` is what the local array holds at first
  unfoldable pub send_audio :
      Transport → Bool → ℤ → List ℕ → List ℕ → ℕ → ℕ → EspError × List (Action j)
  send_audio t link written stack opus opus_size timestamp_ms =
      let audio : AudioFrame = record {
        profile = t.config.profile;
        payload = some opus;
        payload_len = opus_size;
        timestamp_ms = timestamp_ms;
      } in
      if not (is_ready t link) || opus_size == 0 || ltb max_opus_payload_bytes opus_size
      then (EspError.err_invalid_arg, [])
      else let (result, frame, frame_size) =
          encode_frame audio opus stack (max_opus_payload_bytes + 16) 0 in
        if not (is_encoded result) then (EspError.err_invalid_size, []) else (
          if int_eq written (pos frame_size) then EspError.ok else EspError.fail,
          send_bin (take frame_size frame) ∷ [],
        )
