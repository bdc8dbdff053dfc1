-- ===== src/Conversation/Network.antt =====
-- What the connection brings to the conversation: audio, messages of a session, and the bounds over any
-- sequence of connections, events and rounds of the tasks.
use veetee_vuqb.Base.{
  ℕ, ◌+◌, ◌^◌, ◌<◌, ◌≡◌, ◌≢◌, refl, sym, ap, ◌∙◌, Bool, true, false, not, ◌||◌, if◌then◌else◌, ltb,
  Option, some, List, [], ◌∷◌, take, arith,
}
use veetee_vuqb.Base.Int.{ℤ}
use veetee_vuqb.Base.Text.{codes}
use veetee_vuqb.Json.{CJson, string_of, is_text}
use veetee_vuqb.Device.{connect, disconnect}
use veetee_vuqb.Protocol.{max_opus_payload_bytes, header_length, AudioFrame, encode_frame}
use veetee_vuqb.Protocol.Wire.{IsSendable}
use veetee_vuqb.Transport.{
  TransportConfig, Transport, Action, send_text, send_bin, close, stop, destroy, start, on_text,
  on_audio,
}
use veetee_vuqb.Transport.Events.{
  Frame, frame_event, whole_frame, op_code_of, receive, receive_text, handle,
}
use veetee_vuqb.Transport.Sessions as Sessions
use veetee_vuqb.Transport.Setup.{InitAnswers}
use veetee_vuqb.Conversation.{
  App, InteractionMode, queue_send, request_wake_arm, clear_pending_tts_stop,
}
use veetee_vuqb.Conversation.Messages.{Setting, text_callback}
use veetee_vuqb.Conversation.Packets.{audio_callback}
use veetee_vuqb.Conversation.Keeping.{
  Keeps, Keeps-trans, Keeps-other, request_wake_arm-Keeps, state_apply-Keeps,
  clear_pending_tts_stop-Keeps,
}
use veetee_vuqb.Conversation.Reach.{
  Input, message, audio, IsBounded, Keeps-IsBounded, react, react-IsBounded,
}
use veetee_vuqb.Conversation.Arrivals.{audio_callback-encode_frame}
use veetee_vuqb.Conversation.Turns.{text_callback-ignores}
use veetee_vuqb.Conversation.Connecting.{
  Link, begin_connection, end_connection, deliver, pass_on, on_event,
}

-- What happens to a link: the beginning and the end of a connection, an event of the client, and what
-- the tasks do beside it.
pub data Step (j : CJson) : Type 0 where
  began : Setting → TransportConfig → InitAnswers → Step j
  arrived : Setting → Sessions.Input → Step j
  acted : Input j → Step j
  ended : Bool → Step j

joined :
    (ready long : Bool) (link : Link) (a : App)
    → (if ready then record link { app = if long then link.app else a } else link)
      ≡ (if not ready || long then link else record link { app = a })
joined true true link a = refl
joined true false link a = refl
joined false long link a = refl

module _ (j : CJson) where
  abbrev pub take_step : Step j → Link → Link
  take_step (began setting config answers) link = (begin_connection setting config answers link).1
  take_step (arrived setting i) link = on_event j setting link i
  take_step (acted i) link = record link { app = react j i link.app }
  take_step (ended up) link = end_connection j up link

  pub take_steps : List (Step j) → Link → Link
  take_steps [] link = link
  take_steps (s ∷ ss) link = take_steps ss (take_step s link)

  deliver-IsBounded :
      (setting : Setting) (profile : ℕ) (actions : List (Action j)) (a : App)
      → IsBounded a
      → IsBounded (deliver j setting profile actions a)
  unfolding deliver
  deliver-IsBounded setting profile [] a v = v
  deliver-IsBounded setting profile (on_text m ∷ actions) a v =
      deliver-IsBounded setting profile actions (text_callback j setting m a)
        (react-IsBounded j (message setting m) a v)
  deliver-IsBounded setting profile (on_audio bytes ∷ actions) a v =
      deliver-IsBounded setting profile actions (audio_callback profile bytes a)
        (react-IsBounded j (audio profile bytes) a v)
  deliver-IsBounded setting profile (send_text text ∷ actions) a v =
      deliver-IsBounded setting profile actions a v
  deliver-IsBounded setting profile (send_bin bytes ∷ actions) a v =
      deliver-IsBounded setting profile actions a v
  deliver-IsBounded setting profile (close ∷ actions) a v =
      deliver-IsBounded setting profile actions a v
  deliver-IsBounded setting profile (stop ∷ actions) a v =
      deliver-IsBounded setting profile actions a v
  deliver-IsBounded setting profile (destroy ∷ actions) a v =
      deliver-IsBounded setting profile actions a v
  deliver-IsBounded setting profile (start ∷ actions) a v =
      deliver-IsBounded setting profile actions a v

  pass_on-IsBounded :
      (setting : Setting) (a : App) (r : Transport × List (Action j))
      → IsBounded a
      → IsBounded (pass_on j setting a r).app
  unfolding pass_on
  pass_on-IsBounded setting a (t, actions) v =
      deliver-IsBounded (record setting { session_id = t.session_id }) t.config.profile actions a v

  end_connection-Keeps : (up : Bool) (link : Link) → Keeps link.app (end_connection j up link).app
  unfolding end_connection
  end_connection-Keeps up link =
      let silent = record link.app { capture_active = false; wake_auto_capture = false } in
      let cleared = clear_pending_tts_stop silent in
      let manual = record cleared { interaction_mode = InteractionMode.manual } in
      Keeps-trans link.app silent _ (Keeps-other link.app silent refl refl refl refl refl) (
        Keeps-trans silent cleared _ (clear_pending_tts_stop-Keeps silent) (
          Keeps-trans cleared manual _ (Keeps-other cleared manual refl refl refl refl refl) (
            Keeps-trans manual (request_wake_arm manual) _ (request_wake_arm-Keeps manual)
              (state_apply-Keeps (request_wake_arm manual) disconnect))))

  take_step-IsBounded :
      (s : Step j) (link : Link) → IsBounded link.app → IsBounded (take_step s link).app
  unfolding begin_connection on_event
  take_step-IsBounded (began setting config answers) link v =
      Keeps-IsBounded link.app _ (state_apply-Keeps link.app connect) v
  take_step-IsBounded (arrived setting i) link v =
      pass_on-IsBounded setting link.app (handle j link.transport i.allocated i.written i.event) v
  take_step-IsBounded (acted i) link v = react-IsBounded j i link.app v
  take_step-IsBounded (ended up) link v =
      Keeps-IsBounded link.app _ (end_connection-Keeps up link) v

  -- Any sequence of connections that begin and end, of events of the WebSocket client with whatever bytes,
  -- and of rounds of the tasks keeps the bounds of the application: no packet is longer than its array, and
  -- neither queue nor the turn id outgrows its room.
  pub take_steps-IsBounded :
      (ss : List (Step j)) (link : Link) → IsBounded link.app → IsBounded (take_steps ss link).app
  unfolding take_steps
  take_steps-IsBounded [] link v = v
  take_steps-IsBounded (s ∷ ss) link v =
      take_steps-IsBounded ss (take_step s link) (take_step-IsBounded s link v)

  handle-binary :
      (t : Transport) (allocated : Bool) (written : ℤ) (frame : Option Frame) (bytes : List ℕ)
      → whole_frame frame ≡ some bytes
      → op_code_of j frame ≡ 2
      → handle j t allocated written (frame_event frame)
        ≡ (t, if t.ready then on_audio bytes ∷ [] else [])
  unfolding handle receive
  handle-binary t allocated written frame bytes whole binary =
      rw (handle, whole, receive, binary) (ground arith)

  pass_on-audio :
      (setting : Setting) (link : Link) (bytes : List ℕ)
      → pass_on j setting link.app
          (link.transport, if link.transport.ready then on_audio bytes ∷ [] else [])
        ≡ (if link.transport.ready
            then record link { app = audio_callback link.transport.config.profile bytes link.app }
            else link)
  unfolding pass_on deliver
  pass_on-audio setting link bytes = ground arith

  handle-text :
      (t : Transport) (allocated : Bool) (written : ℤ) (frame : Option Frame) (bytes : List ℕ)
      (value : j.Value)
      → whole_frame frame ≡ some bytes
      → op_code_of j frame ≡ 1
      → j.parse bytes ≡ some value
      → is_text j (j.item value (codes "type")) (codes "hello") ≡ false
      → handle j t allocated written (frame_event frame) ≡ (t, on_text value ∷ [])
  unfolding handle receive receive_text
  handle-text t allocated written frame bytes value whole op parsed other =
      rw (handle, whole, receive, op, parsed, receive_text, other) refl

  -- A text frame whose message is not a hello and whose session is not the session of the transport changes
  -- nothing, neither of the conversation nor of the transport.
  pub on_event-ignores :
      (setting : Setting) (link : Link) (i : Sessions.Input) (frame : Option Frame) (bytes : List ℕ)
      (value incoming : j.Value)
      → i.event ≡ frame_event frame
      → whole_frame frame ≡ some bytes
      → op_code_of j frame ≡ 1
      → j.parse bytes ≡ some value
      → is_text j (j.item value (codes "type")) (codes "hello") ≡ false
      → j.item value (codes "session_id") ≡ some incoming
      → string_of j (some incoming) ≢ some link.transport.session_id
      → on_event j setting link i ≡ link
  unfolding on_event pass_on deliver
  on_event-ignores setting link i frame bytes value incoming at whole op parsed other found
        foreign =
      let handled =
        handle-text link.transport i.allocated i.written frame bytes value whole op parsed other in
      let s = record setting { session_id = link.transport.session_id } in
      let heard : on_event j setting link i
          ≡ pass_on j setting link.app (link.transport, on_text value ∷ []) =
        rw (on_event, at, handled) refl in
      heard
      ∙ ap (λ (a : App). record { app = a; transport = link.transport })
          (text_callback-ignores j s value incoming link.app found foreign other)

  -- An audio frame that a server encodes in the profile of the connection, and that arrives as one binary
  -- frame, reaches the playback queue as its payload, when the queue has room, if the session is open and
  -- the whole of it, with its header, is at most 1500 bytes. Without a session, and where it is longer,
  -- nothing changes.
  pub on_event-encode_frame :
      (setting : Setting) (link : Link) (i : Sessions.Input) (frame : Option Frame)
      (sent : AudioFrame) (payload output : List ℕ) (capacity n : ℕ)
      → i.event ≡ frame_event frame
      → let (result, output', n') = encode_frame sent payload output capacity n in
        whole_frame frame ≡ some (take n' output')
        → op_code_of j frame ≡ 2
        → sent.profile ≡ link.transport.config.profile
        → IsSendable sent payload output capacity
        → sent.timestamp_ms < 2 ^ 32
        → on_event j setting link i ≡ (
            if not link.transport.ready
              || ltb max_opus_payload_bytes (header_length sent.profile + sent.payload_len)
            then link
            else record link {
              app = record link.app {
                playback_queue =
                    queue_send link.app.playback_depth link.app.playback_queue
                      (take sent.payload_len payload);
              };
            })
  unfolding on_event
  on_event-encode_frame setting link i frame sent payload output capacity n at whole op same h b =
      let (result, output', n') = encode_frame sent payload output capacity n in
      let long = ltb max_opus_payload_bytes (header_length sent.profile + sent.payload_len) in
      let queued = record link.app {
        playback_queue =
            queue_send link.app.playback_depth link.app.playback_queue
              (take sent.payload_len payload);
      } in
      let handled =
        handle-binary link.transport i.allocated i.written frame (take n' output') whole op in
      let heard : on_event j setting link i
          ≡ pass_on j setting link.app (
            link.transport,
            if link.transport.ready then on_audio (take n' output') ∷ [] else [],
          ) =
        rw (on_event, at, handled) refl in
      let called : audio_callback link.transport.config.profile (take n' output') link.app
          ≡ (if long then link.app else queued) =
        ap (λ (p : ℕ). audio_callback p (take n' output') link.app) (sym same)
        ∙ audio_callback-encode_frame sent payload output capacity n link.app h b in
      heard
      ∙ pass_on-audio setting link (take n' output')
      ∙ ap (λ (a : App). if link.transport.ready then record link { app = a } else link) called
      ∙ joined link.transport.ready long link queued
