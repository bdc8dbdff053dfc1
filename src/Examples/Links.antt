-- ===== src/Examples/Links.antt =====
-- A WebSocket session: a hello, audio before and after it, a loss of the connection.
use veetee_vuqb.Base.{
  ℕ, ◌≡◌, refl, true, false, if◌then◌else◌, none, some, List, [], ◌∷◌, length, replicate, arith,
}
use veetee_vuqb.Base.Esp.{EspError}
use veetee_vuqb.Base.Int.{pos, int_eq}
use veetee_vuqb.Base.Text.{codes}
use veetee_vuqb.Protocol.{ProtocolResult, AudioFrame, decode_frame}
use veetee_vuqb.Protocol.Decoding.{decoded}
use veetee_vuqb.Transport.{TransportConfig, Transport, send_bin}
use veetee_vuqb.Transport.Events.{WsEvent, handle}
use veetee_vuqb.Transport.Sessions.{Input, IsSession, session_of, handle-IsSession}
use veetee_vuqb.Transport.Deliveries.{run, heard, sessions, audio, run-sessions}
use veetee_vuqb.Transport.Setup.{config_valid, send_audio}
use veetee_vuqb.Transport.Calls.{send_audio-decodes}
use veetee_vuqb.Examples.Trees.{json}

abbrev pub config : TransportConfig
config = record {
  uri = some (codes "wss://a");
  device_id = some (codes "d");
  client_id = some (codes "c");
  firmware_version = some (codes "1");
  board_profile = some (codes "b");
  pairing_code_hash = some [];
  profile = 1;
  input_sample_rate = pos 16000;
  output_sample_rate = pos 24000;
  frame_duration_ms = pos 60;
  mcp_enabled = true;
  on_text = true;
  on_audio = true;
}

abbrev blank : Transport
blank = record {
  client = true;
  events = some (record { connected_bit = false; ready_bit = false });
  config = config;
  headers = [];
  session_id = [];
  connected = false;
  ready = false;
}

blank-IsSession : IsSession blank
blank-IsSession = record { opened = λ h. cc; shut = λ h. refl; bit = refl }

abbrev pub whole : ℕ → List ℕ → WsEvent
whole op_code bytes = WsEvent.frame_event (
    some (record {
      data_ptr = some bytes;
      data_len = pos (length bytes);
      payload_offset = pos 0;
      payload_len = pos (length bytes);
      fin = true;
      op_code = op_code;
    }))

abbrev pub at : WsEvent → Input
at event = record { event = event; allocated = true; written = pos 2 }

abbrev story : List Input
story =
    at WsEvent.connected
    ∷ at (whole 2 (7 ∷ []))
    ∷ at (whole 1 (codes "hello"))
    ∷ at (whole 2 (8 ∷ 9 ∷ []))
    ∷ at WsEvent.closed
    ∷ at (whole 2 (5 ∷ []))
    ∷ []

handle-IsSession_example : IsSession (handle json blank true (pos 2) (whole 1 (codes "hello"))).0
handle-IsSession_example =
    handle-IsSession json blank true (pos 2) (whole 1 (codes "hello")) blank-IsSession

run-sessions_example :
    (session_of (run json blank story).0 ≡ sessions json config none story)
    × (heard json (run json blank story).1 ≡ audio json config none story)
run-sessions_example = run-sessions json blank story

pub valid : config_valid config ≡ true
unfolding config_valid
valid = refl

abbrev pub opened : Transport
opened = record blank {
  events = some (record { connected_bit = true; ready_bit = true });
  connected = true;
  ready = true;
  session_id = codes "s1";
}

abbrev silence : AudioFrame
silence = record { profile = 1; payload = none; payload_len = 0; timestamp_ms = 0 }

send_audio-decodes_example :
    (frame : List ℕ) × (send_audio json opened true (pos 3) (replicate 1516 0) (1 ∷ 2 ∷ 3 ∷ []) 3 40
      ≡ (
        if int_eq (pos 3) (pos (length frame)) then EspError.ok else EspError.fail,
        send_bin frame ∷ [],
      ))
    × (decode_frame 1 frame silence ≡ (ProtocolResult.ok, decoded 1 40 (1 ∷ 2 ∷ 3 ∷ [])))
send_audio-decodes_example =
    send_audio-decodes json opened (pos 3) (replicate 1516 0) (1 ∷ 2 ∷ 3 ∷ []) 40 silence refl
      (omega arith, omega arith) (omega arith, omega arith) refl (omega arith)
