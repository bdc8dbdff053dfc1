-- ===== src/Conversation/Reopening.antt =====
-- The round after a connection has ended: how the conversation comes back.
use veetee_vuqb.Base.{ℕ, ◌≡◌, refl, ap, ◌∙◌, Bool, true, false, Option, List, []}
use veetee_vuqb.Base.Text.{codes}
use veetee_vuqb.Json.{CJson, string_of, is_true}
use veetee_vuqb.Device.{listening}
use veetee_vuqb.Transport.{TransportConfig, text_or_empty, accept_audio, accept_server_hello}
use veetee_vuqb.Transport.Events.{Frame, connected, frame_event, set_bits}
use veetee_vuqb.Transport.Sessions.{Input}
use veetee_vuqb.Transport.Setup.{InitAnswers}
use veetee_vuqb.Conversation.{App, manual}
use veetee_vuqb.Conversation.Messages.{Setting, hello_message}
use veetee_vuqb.Conversation.Connecting.{
  Link, connection_config, begin_connection, end_connection, on_event,
}
use veetee_vuqb.Conversation.Ending.{after_cut, IsRested, end_connection-IsRested}
use veetee_vuqb.Conversation.Opening.{
  Opens, linking, begin_connection-linking, hello_message-greeted, hello-listening,
  hello-generation, IsHello, opened, on_event-hello, on_event-connected,
}

-- A device that listens over an open session, with nothing of an older conversation left.
pub record IsReady (old : App) (link : Link) (id : List ℕ) : Type 0 where
  pub state : link.app.machine.state ≡ listening
  pub capture : link.app.capture_active ≡ false
  pub auto_capture : link.app.wake_auto_capture ≡ false
  pub duplex : link.app.duplex_capture ≡ false
  pub stop : link.app.tts_stop_pending ≡ false
  pub rearm : link.app.wake_rearm_pending ≡ false
  pub continuous : link.app.continuous_capture_pending ≡ false
  pub turn : link.app.tts_turn_id ≡ []
  pub mode : link.app.interaction_mode ≡ manual
  pub queue : link.app.playback_queue ≡ old.playback_queue
  pub generation : link.app.machine.generation ≡ after_cut old.machine
  pub ready : link.transport.ready ≡ true
  pub client : link.transport.client ≡ true
  pub session : link.transport.session_id ≡ id

module _ (j : CJson) where
  -- A round over a rested link up to its hello: the client connects, and the server's hello arrives.
  abbrev pub opening : Setting → TransportConfig → InitAnswers → Input → Input → Link → Link
  opening setting config answers first second link =
      on_event j setting (on_event j setting (begin_connection setting config answers link).1 first)
        second

  configured :
      (setting : Setting) (config : TransportConfig) (app : App) (frame : Option Frame)
      (bytes : List ℕ) (message : j.Value)
      → IsHello j config frame bytes message
      → IsHello j (connection_config setting config app) frame bytes message
  unfolding connection_config accept_server_hello accept_audio
  configured setting config app frame bytes message h = record {
    whole = h.whole;
    op_code = h.op_code;
    parsed = h.parsed;
    type = h.type;
    accepted = h.accepted;
  }

  -- The link that a round over a rested one opens.
  opening-linked :
      (old : App) (setting : Setting) (config : TransportConfig) (answers : InitAnswers)
      (first second : Input) (link : Link) (frame : Option Frame) (bytes : List ℕ)
      (message : j.Value)
      → IsRested old link
      → Opens config answers
      → first.event ≡ connected
      → second.event ≡ frame_event frame
      → IsHello j config frame bytes message
      → let t = (begin_connection setting config answers link).1.transport in
        let t' =
          opened j (record t { connected = true; events = set_bits true false t.events }) message in
        opening setting config answers first second link ≡ record {
          app =
              hello_message
                (record setting { session_id = t'.session_id })
                (is_true j (j.item message (codes "pairing_required")))
                (linking link.app);
          transport = t';
        }
  opening-linked old setting config answers first second link frame bytes message v o at at' h =
      let begun = (begin_connection setting config answers link).1 in
      let (ok, app, client, made) =
        begin_connection-linking setting config answers link v.takes v.state o in
      let t = record begun.transport {
        connected = true;
        events = set_bits true false begun.transport.events;
      } in
      let greeting : IsHello j t.config frame bytes message =
        rw made (configured setting config link.app frame bytes message h) in
      let paired = is_true j (j.item message (codes "pairing_required")) in
      let s = record setting { session_id = (opened j t message).session_id } in
      ap (λ (l : Link). on_event j setting l second) (on_event-connected j setting begun first at)
      ∙ on_event-hello j setting (record { app = begun.app; transport = t }) second frame bytes
          message at' greeting
      ∙ ap (λ (a : App). record { app = hello_message s paired a; transport = opened j t message })
          app

  -- After the end of a connection, whatever the conversation was at, the next round brings it back, where
  -- its vt_transport_init succeeds, the client connects, the server's hello is accepted and the takes of the
  -- state lock succeed: the device listens in the session of the hello, no capture, stop, turn or mode of the
  -- old conversation is left, and the generation has advanced if it was not idle. The packets that wait to be
  -- played stay.
  pub reopened-IsReady :
      (setting : Setting) (config : TransportConfig) (answers : InitAnswers) (first second : Input)
      (up : Bool) (link : Link) (frame : Option Frame) (bytes : List ℕ) (message : j.Value)
      → link.app.takes ≡ []
      → Opens config answers
      → first.event ≡ connected
      → second.event ≡ frame_event frame
      → IsHello j config frame bytes message
      → IsReady link.app
          (opening setting config answers first second (end_connection j up link))
          (text_or_empty (string_of j (j.item message (codes "session_id"))))
  reopened-IsReady setting config answers first second up link frame bytes message taken o at at'
        h =
      let ended = end_connection j up link in
      let v = end_connection-IsRested j up link taken in
      let client = (begin_connection-linking setting config answers ended v.takes v.state o).2 in
      let s = record setting {
        session_id = text_or_empty (string_of j (j.item message (codes "session_id")));
      } in
      let e =
        opening-linked link.app setting config answers first second ended frame bytes message v o at
          at' h in
      let g =
        hello_message-greeted s (is_true j (j.item message (codes "pairing_required")))
          (linking ended.app) v.takes in
      rw (e, g)
        (record {
          state = hello-listening _ refl;
          capture = v.capture;
          auto_capture = v.auto_capture;
          duplex = v.duplex;
          stop = v.stop;
          rearm = v.rearm;
          continuous = v.continuous;
          turn = v.turn;
          mode = v.mode;
          queue = v.queue;
          generation = hello-generation _ refl ∙ v.generation;
          ready = refl;
          client = client;
          session = refl;
        })
