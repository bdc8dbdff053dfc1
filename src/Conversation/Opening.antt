-- ===== src/Conversation/Opening.antt =====
-- The steps of a round up to the hello of the server: the beginning, the connection and the hello.
use veetee_vuqb.Base.{
  ℕ, ◌≡◌, refl, ap, ◌∙◌, Bool, true, false, if◌then◌else◌, leb, Option, none, some, List, [], ◌∷◌,
  length, arith, str_eq,
}
use veetee_vuqb.Base.Esp.{EspError}
use veetee_vuqb.Base.Int.{ℤ}
use veetee_vuqb.Base.Text.{codes}
use veetee_vuqb.Json.{CJson, string_of, is_text, is_true}
use veetee_vuqb.Device.{Machine, idle, connecting, listening, connect, hello_ready, apply, state_eq}
use veetee_vuqb.McpTask.{reset_session}
use veetee_vuqb.Transport.{
  max_headers, TransportConfig, Transport, text_or_empty, on_text, accept_server_hello,
  send_raw_text, send_hello,
}
use veetee_vuqb.Transport.Events.{
  Frame, connected, frame_event, whole_frame, set_bits, op_code_of, receive, receive_text, handle,
}
use veetee_vuqb.Transport.Sessions.{Input}
use veetee_vuqb.Transport.Setup.{InitAnswers, config_valid, header_text, init}
use veetee_vuqb.Conversation.{App}
use veetee_vuqb.Conversation.Messages.{Setting, hello_message, text_callback}
use veetee_vuqb.Conversation.Connecting.{
  Link, connection_config, begin_connection, deliver, pass_on, on_event,
}
use veetee_vuqb.Conversation.Ending.{state_apply-free}

-- A round whose configuration and header text vt_transport_init accepts, with the libraries at work.
pub record Opens (config : TransportConfig) (answers : InitAnswers) : Type 0 where
  pub valid : config_valid config ≡ true
  pub header : leb max_headers (length (header_text config)) ≡ false
  pub events : answers.events_created ≡ true
  pub client : answers.client_created ≡ true
  pub registered : answers.registered ≡ EspError.ok

-- The application of a rested link after the CONNECT of a round.
abbrev pub linking : App → App
linking app = record app {
  machine = record { state = connecting; generation = app.machine.generation };
}

connect-linking :
    (m : Machine)
    → m.state ≡ idle
    → (apply m connect).0 ≡ record { state = connecting; generation = m.generation }
unfolding apply state_eq
connect-linking m h = ground arith

pub begin_connection-linking :
    (setting : Setting) (config : TransportConfig) (answers : InitAnswers) (link : Link)
    → link.app.takes ≡ []
    → link.app.machine.state ≡ idle
    → Opens config answers
    → ((begin_connection setting config answers link).0 ≡ EspError.ok)
      × ((begin_connection setting config answers link).1.app ≡ linking link.app)
      × ((begin_connection setting config answers link).1.transport.client ≡ true)
      × ((begin_connection setting config answers link).1.transport.config
          ≡ connection_config setting config link.app)
unfolding begin_connection init connection_config config_valid header_text
begin_connection-linking setting config answers link taken rests h = (
  ground (arith, h.valid, h.header, h.events, h.client, h.registered),
  state_apply-free link.app connect taken
      ∙ ap (λ (m : Machine). record link.app { machine = m })
          (connect-linking link.app.machine rests),
  ground (arith, h.valid, h.header, h.events, h.client, h.registered),
  ground (arith, h.valid, h.header, h.events, h.client, h.registered),
)

-- The application that a hello leaves, before the event of its state machine.
abbrev pub greeted : Setting → Bool → App → App
greeted setting pairing_required app = record app {
  pairing_required = pairing_required;
  mcp_task =
      if setting.mcp_enabled
      then elim app.mcp_task [
        | none ↦ none
        | some task ↦ some (reset_session task setting.mcp_locked)
      ]
      else app.mcp_task;
}

pub hello_message-greeted :
    (setting : Setting) (pairing : Bool) (app : App)
    → app.takes ≡ []
    → hello_message setting pairing app
      ≡ record (greeted setting pairing app) { machine = (apply app.machine hello_ready).0 }
unfolding hello_message
hello_message-greeted setting pairing app taken =
    state_apply-free (greeted setting pairing app) hello_ready taken

pub hello-generation :
    (m : Machine) → m.state ≡ connecting → (apply m hello_ready).0.generation ≡ m.generation
unfolding apply state_eq
hello-generation m h = ground arith

pub hello-listening :
    (m : Machine) → m.state ≡ connecting → (apply m hello_ready).0.state ≡ listening
unfolding apply state_eq
hello-listening m h = ground arith

module _ (j : CJson) where
  -- The events of a hello: the answers that the libraries give, and the frame of the server.
  pub record IsHello (config : TransportConfig) (frame : Option Frame) (bytes : List ℕ)
      (message : j.Value) : Type 0 where
    pub whole : whole_frame frame ≡ some bytes
    pub op_code : op_code_of j frame ≡ 1
    pub parsed : j.parse bytes ≡ some message
    pub type : string_of j (j.item message (codes "type")) ≡ some (codes "hello")
    pub accepted : accept_server_hello j config message ≡ true

  deliver-send_hello :
      (setting : Setting) (profile : ℕ) (t : Transport) (allocated : Bool) (written : ℤ) (app : App)
      → deliver j setting profile (send_hello j t allocated written).1 app ≡ app
  unfolding deliver send_hello send_raw_text
  deliver-send_hello setting profile t allocated written app = ground arith

  -- A transport that a hello has opened.
  abbrev pub opened : Transport → j.Value → Transport
  opened t message = record t {
    session_id = text_or_empty (string_of j (j.item message (codes "session_id")));
    ready = true;
    events = set_bits false true t.events;
  }

  handle-hello :
      (t : Transport) (allocated : Bool) (written : ℤ) (frame : Option Frame) (bytes : List ℕ)
      (message : j.Value)
      → IsHello t.config frame bytes message
      → handle j t allocated written (frame_event frame) ≡ (opened t message, on_text message ∷ [])
  unfolding handle receive receive_text str_eq
  handle-hello t allocated written frame bytes message h =
      rw (handle, h.whole, receive, h.op_code, h.parsed, receive_text, is_text, h.type, h.accepted)
        refl

  text_callback-hello :
      (setting : Setting) (message : j.Value) (app : App)
      → string_of j (j.item message (codes "type")) ≡ some (codes "hello")
      → text_callback j setting message app
        ≡ hello_message setting (is_true j (j.item message (codes "pairing_required"))) app
  unfolding text_callback str_eq
  text_callback-hello setting message app type = rw (text_callback, type) refl

  pub on_event-hello :
      (setting : Setting) (link : Link) (i : Input) (frame : Option Frame) (bytes : List ℕ)
      (message : j.Value)
      → i.event ≡ frame_event frame
      → IsHello link.transport.config frame bytes message
      → on_event j setting link i ≡ record {
        app =
            hello_message
              (record setting { session_id = (opened link.transport message).session_id })
              (is_true j (j.item message (codes "pairing_required")))
              link.app;
        transport = opened link.transport message;
      }
  unfolding on_event pass_on deliver
  on_event-hello setting link i frame bytes message at h =
      let handled = handle-hello link.transport i.allocated i.written frame bytes message h in
      let heard : on_event j setting link i
          ≡ pass_on j setting link.app (opened link.transport message, on_text message ∷ []) =
        rw (on_event, at, handled) refl in
      heard
      ∙ ap (λ (a : App). record { app = a; transport = opened link.transport message })
          (text_callback-hello
            (record setting { session_id = (opened link.transport message).session_id }) message
            link.app h.type)

  pub on_event-connected :
      (setting : Setting) (link : Link) (i : Input)
      → i.event ≡ connected
      → on_event j setting link i ≡ record {
        app = link.app;
        transport = record link.transport {
          connected = true;
          events = set_bits true false link.transport.events;
        };
      }
  unfolding on_event pass_on handle
  on_event-connected setting link i at =
      let t = record link.transport {
        connected = true;
        events = set_bits true false link.transport.events;
      } in
      rw (on_event, at)
        (ap (λ (a : App). record { app = a; transport = t })
          (deliver-send_hello (record setting { session_id = t.session_id }) t.config.profile t
            i.allocated i.written link.app))
