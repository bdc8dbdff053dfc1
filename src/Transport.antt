-- ===== src/Transport.antt =====
-- veetee-firmware/main/veetee_transport.c and veetee_transport.h: the WebSocket session, from the
-- handshake to the frames that it passes on. The WebSocket client and the event group are libraries:
-- what they answer is an argument, and what the code asks of them is an action.
pub mod Events
pub mod Deliveries
pub mod Sessions
pub mod Calls
pub mod Setup
use veetee_vuqb.Base.{
  ℕ, ◌+◌, ◌-◌, ◌≡◌, Bool, true, false, not, ◌&&◌, ◌||◌, if◌then◌else◌, ltb, leb, ◌==◌, Option, none,
  some, List, [], ◌∷◌, ◌++◌, length, take, replicate,
}
use veetee_vuqb.Base.Esp.{EspError}
use veetee_vuqb.Base.Int.{ℤ, pos, negsuc, int_eq, is_positive}
use veetee_vuqb.Base.Text.{codes, decimal}
use veetee_vuqb.Json.{CJson, Built, end, field, string_of, is_text, is_object, integer_of}
use veetee_vuqb.Protocol.{
  ws_v1_compat, ws_v2, ws_v3, max_opus_payload_bytes, AudioFrame, ProtocolResult, encode_frame,
  server_sample_rate_compatible,
}

-- The sizes of `headers` and `session_id`
abbrev pub max_headers : ℕ
max_headers = 256

abbrev pub max_session : ℕ
max_session = 96

-- vt_transport_config_t, of the two callbacks only whether they are there
pub record TransportConfig : Type 0 where
  pub uri : Option (List ℕ)
  pub device_id : Option (List ℕ)
  pub client_id : Option (List ℕ)
  pub firmware_version : Option (List ℕ)
  pub board_profile : Option (List ℕ)
  pub pairing_code_hash : Option (List ℕ)
  pub profile : ℕ
  pub input_sample_rate : ℤ
  pub output_sample_rate : ℤ
  pub frame_duration_ms : ℤ
  pub mcp_enabled : Bool
  pub on_text : Bool
  pub on_audio : Bool

-- The two bits of the event group.
pub record EventBits : Type 0 where
  pub connected_bit : Bool
  pub ready_bit : Bool

-- vt_transport_t; of the client handle, whether it is there
pub record Transport : Type 0 where
  pub client : Bool
  pub events : Option EventBits
  pub config : TransportConfig
  pub headers : List ℕ
  pub session_id : List ℕ
  pub connected : Bool
  pub ready : Bool

-- What the code asks of the WebSocket client and of its own callbacks.
pub data Action (j : CJson) : Type 0 where
  send_text : List ℕ → Action j
  send_bin : List ℕ → Action j
  close stop destroy start : Action j
  on_text : j.Value → Action j
  on_audio : List ℕ → Action j

abbrev pub text_or_empty : Option (List ℕ) → List ℕ
text_or_empty none = []
text_or_empty (some s) = s

-- profile_version_number
unfoldable pub profile_version_number : ℕ → ℕ
profile_version_number profile =
    if profile == ws_v1_compat
    then 1
    else if profile == ws_v2
    then 2
    else if profile == ws_v3
    then 3
    else 0

-- accept_server_hello, with no pointer NULL: the tests of the message, then those of its audio_params
abbrev rate_compatible : ℕ → Option ℤ → ℤ → Bool
rate_compatible profile (some (pos advertised)) (pos configured) =
    server_sample_rate_compatible profile advertised configured
rate_compatible profile (some (negsuc advertised)) configured = false
rate_compatible profile (some (pos advertised)) (negsuc configured) = false
rate_compatible profile none configured = false

abbrev is_integer : Option ℤ → ℤ → Bool
is_integer none expected = false
is_integer (some n) expected = int_eq n expected

-- `session->valuestring` is not NULL, not empty and fits `session_id`
abbrev pub fits_session : Option (List ℕ) → Bool
fits_session none = false
fits_session (some []) = false
fits_session (some (c ∷ cs)) = ltb (length (c ∷ cs)) max_session

module _ (j : CJson) where
  unfoldable pub accept_audio : TransportConfig → j.Value → Bool
  accept_audio config audio =
      is_text j (j.item audio (codes "format")) (codes "opus")
      && rate_compatible config.profile (integer_of j (j.item audio (codes "sample_rate")))
          config.output_sample_rate
      && is_integer (integer_of j (j.item audio (codes "channels"))) (pos 1)
      && is_integer (integer_of j (j.item audio (codes "frame_duration"))) config.frame_duration_ms

  unfoldable pub accept_server_hello : TransportConfig → j.Value → Bool
  accept_server_hello config message =
      let audio = j.item message (codes "audio_params") in
      is_integer (integer_of j (j.item message (codes "version")))
        (pos (profile_version_number config.profile))
      && is_text j (j.item message (codes "transport")) (codes "websocket")
      && is_object j audio
      && fits_session (string_of j (j.item message (codes "session_id")))
      && elim audio [ none ↦ false | some object ↦ accept_audio config object ]

  -- The tree that send_hello builds.
  unfoldable pub hello : TransportConfig → Built
  hello config =
      let features = Built.object (field (codes "mcp") (Built.flag config.mcp_enabled) end) in
      let audio = Built.object (
        field (codes "format") (Built.text (codes "opus")) (
          field (codes "sample_rate") (Built.number config.input_sample_rate) (
            field (codes "channels") (Built.number (pos 1))
              (field (codes "frame_duration") (Built.number config.frame_duration_ms) end)))) in
      let hash = text_or_empty config.pairing_code_hash in
      let hash_field =
        if length hash == 64 then field (codes "pairingCodeHash") (Built.text hash) end else end in
      let device_info = Built.object (
        field (codes "firmwareVersion") (Built.text (text_or_empty config.firmware_version))
          (field (codes "board") (Built.text (text_or_empty config.board_profile)) hash_field)) in
      Built.object (
        field (codes "type") (Built.text (codes "hello")) (
          field (codes "version") (Built.number (pos (profile_version_number config.profile))) (
            field (codes "transport") (Built.text (codes "websocket")) (
              field (codes "features") features (
                field (codes "audio_params") audio
                  (field (codes "device_info") device_info end))))))

  -- send_raw_text: `written` is what the client reports to have sent
  unfoldable pub send_raw_text : Transport → ℤ → Option (List ℕ) → EspError × List (Action j)
  send_raw_text t written none = (EspError.err_invalid_state, [])
  send_raw_text t written (some []) = (
    if not t.client || not t.connected
        then EspError.err_invalid_state
        else EspError.err_invalid_arg,
    [],
  )
  send_raw_text t written (some (c ∷ cs)) =
      if not t.client || not t.connected then (EspError.err_invalid_state, []) else (
        if int_eq written (pos (length (c ∷ cs))) then EspError.ok else EspError.fail,
        send_text (c ∷ cs) ∷ [],
      )

  -- send_hello: `allocated` says whether the four objects could be created
  unfoldable pub send_hello : Transport → Bool → ℤ → EspError × List (Action j)
  send_hello t allocated written =
      if not allocated then (EspError.err_no_mem, []) else elim (j.print_built (hello t.config)) [
        | none ↦ (EspError.err_no_mem, [])
        | some serialized ↦ send_raw_text t written (some serialized)
      ]
