-- ===== src/Transport/Events.antt =====
-- transport_event_handler: what each event of the WebSocket client does to a session.
use veetee_vuqb.Base.{
  ℕ, Bool, true, false, not, ◌||◌, if◌then◌else◌, ◌==◌, Option, none, some, List, [], ◌∷◌, take,
}
use veetee_vuqb.Base.Int.{ℤ, pos, negsuc, int_eq}
use veetee_vuqb.Base.Text.{codes}
use veetee_vuqb.Json.{CJson, string_of, is_text}
use veetee_vuqb.Transport.{
  EventBits, Transport, Action, close, on_text, on_audio, text_or_empty, accept_server_hello,
  send_hello,
}

-- esp_websocket_event_data_t
pub record Frame : Type 0 where
  pub data_ptr : Option (List ℕ)
  pub data_len : ℤ
  pub payload_offset : ℤ
  pub payload_len : ℤ
  pub fin : Bool
  pub op_code : ℕ

-- The event ids of the client, with the data of a data event.
pub data WsEvent : Type 0 where
  connected disconnected error closed unknown : WsEvent
  frame_event : Option Frame → WsEvent

-- The bytes of a frame that is whole and not empty.
unfoldable pub whole_frame : Option Frame → Option (List ℕ)
whole_frame none = none
whole_frame (some frame) = elim frame.data_ptr [
  | none ↦ none
  | some bytes ↦ elim frame.data_len [
    | negsuc n ↦ none
    | pos n ↦
        if n == 0
          || not (int_eq frame.payload_offset (pos 0))
          || not (int_eq frame.data_len frame.payload_len)
          || not frame.fin
        then none
        else some (take n bytes)
  ]
]

abbrev pub set_bits : Bool → Bool → Option EventBits → Option EventBits
set_bits on_connected on_ready none = none
set_bits on_connected on_ready (some bits) = some (record {
  connected_bit = on_connected || bits.connected_bit;
  ready_bit = on_ready || bits.ready_bit;
})

abbrev pub clear_bits : Option EventBits → Option EventBits
clear_bits none = none
clear_bits (some bits) = some (record { connected_bit = false; ready_bit = false })

module _ (j : CJson) where
  -- The branch for a text frame that parses: a hello opens the session or closes the client, and
  -- all but a refused hello is delivered.
  unfoldable pub receive_text : Transport → j.Value → Transport × List (Action j)
  receive_text t message =
      if not (is_text j (j.item message (codes "type")) (codes "hello"))
      then (t, on_text message ∷ [])
      else if accept_server_hello j t.config message
      then (
        record t {
          session_id = text_or_empty (string_of j (j.item message (codes "session_id")));
          ready = true;
          events = set_bits false true t.events;
        },
        on_text message ∷ [],
      )
      else (t, if t.client then close ∷ [] else [])

  -- The branch for a data frame, from its op code on.
  unfoldable pub receive : Transport → ℕ → List ℕ → Transport × List (Action j)
  receive t op_code bytes =
      if op_code == 2
      then (t, if not t.ready then [] else on_audio bytes ∷ [])
      else if not (op_code == 1)
      then (t, [])
      else elim (j.parse bytes) [ none ↦ (t, []) | some message ↦ receive_text t message ]

  abbrev pub op_code_of : Option Frame → ℕ
  op_code_of none = 0
  op_code_of (some frame) = frame.op_code

  abbrev pub lose : Transport → Transport
  lose t = record t {
    connected = false;
    ready = false;
    session_id = [];
    events = clear_bits t.events;
  }

  -- transport_event_handler, on a transport that is not NULL
  unfoldable pub handle : Transport → Bool → ℤ → WsEvent → Transport × List (Action j)
  handle t allocated written connected =
      let t' = record t { connected = true; events = set_bits true false t.events } in
      let (result, actions) = send_hello j t' allocated written in (t', actions)
  handle t allocated written disconnected = (lose t, [])
  handle t allocated written error = (lose t, [])
  handle t allocated written closed = (lose t, [])
  handle t allocated written unknown = (t, [])
  handle t allocated written (frame_event frame) = elim (whole_frame frame) [
    | none ↦ (t, [])
    | some bytes ↦ receive t (op_code_of frame) bytes
  ]
