-- ===== src/Transport/Deliveries.antt =====
-- What a transport delivers over any sequence of events, against the session that the events open and
-- end.
use veetee_vuqb.Base.{
  ℕ, ◌≡◌, refl, ap, ap₂, ◌∙◌, Bool, true, false, ◌&&◌, if◌then◌else◌, ◌==◌, Option, none, some,
  List, [], ◌∷◌, ◌++◌, arith, Option-cases, inl, inr,
}
use veetee_vuqb.Base.Int.{ℤ}
use veetee_vuqb.Base.Text.{codes}
use veetee_vuqb.Json.{CJson, string_of, is_text}
use veetee_vuqb.Transport.{
  TransportConfig, Transport, Action, on_text, on_audio, send_text, send_bin, close, stop, destroy,
  start, text_or_empty, accept_server_hello, hello, send_raw_text, send_hello,
}
use veetee_vuqb.Transport.Events.{
  WsEvent, connected, disconnected, error, closed, unknown, frame_event, op_code_of, whole_frame,
  receive_text, receive, handle,
}
use veetee_vuqb.Transport.Sessions.{Input, session_of}

module _ (j : CJson) where
  -- The events of a session, in order: the transport that they leave and what it asks for.
  pub run : Transport → List Input → Transport × List (Action j)
  run t [] = (t, [])
  run t (i ∷ is) =
      let (t', actions) = handle j t i.allocated i.written i.event in
      let (t'', more) = run t' is in (t'', actions ++ more)

  -- The audio among the actions.
  abbrev pub heard : List (Action j) → List (List ℕ)
  heard [] = []
  heard (on_audio bytes ∷ rest) = bytes ∷ heard rest
  heard (on_text message ∷ rest) = heard rest
  heard (send_text text ∷ rest) = heard rest
  heard (send_bin bytes ∷ rest) = heard rest
  heard (close ∷ rest) = heard rest
  heard (stop ∷ rest) = heard rest
  heard (destroy ∷ rest) = heard rest
  heard (start ∷ rest) = heard rest

  heard-append : (xs ys : List (Action j)) → heard (xs ++ ys) ≡ heard xs ++ heard ys
  heard-append [] ys = refl
  heard-append (on_audio bytes ∷ xs) ys = ap (◌∷◌ bytes) (heard-append xs ys)
  heard-append (on_text message ∷ xs) ys = heard-append xs ys
  heard-append (send_text text ∷ xs) ys = heard-append xs ys
  heard-append (send_bin bytes ∷ xs) ys = heard-append xs ys
  heard-append (close ∷ xs) ys = heard-append xs ys
  heard-append (stop ∷ xs) ys = heard-append xs ys
  heard-append (destroy ∷ xs) ys = heard-append xs ys
  heard-append (start ∷ xs) ys = heard-append xs ys

  -- The session that a message opens: an accepted hello opens one.
  abbrev pub opened_by : TransportConfig → j.Value → Option (List ℕ)
  opened_by config message =
      if is_text j (j.item message (codes "type")) (codes "hello")
        && accept_server_hello j config message
      then some (text_or_empty (string_of j (j.item message (codes "session_id"))))
      else none

  abbrev pub opened_by_text : TransportConfig → Option j.Value → Option (List ℕ)
  opened_by_text config none = none
  opened_by_text config (some message) = opened_by config message

  abbrev pub or_else : Option (List ℕ) → Option (List ℕ) → Option (List ℕ)
  or_else none session = session
  or_else (some opened) session = some opened

  -- The specification: the session after an event, and the audio that an event delivers in a session.
  abbrev pub next_bytes : TransportConfig → Option (List ℕ) → ℕ → Option (List ℕ) → Option (List ℕ)
  next_bytes config session op_code none = session
  next_bytes config session op_code (some bytes) =
      if op_code == 1 then or_else (opened_by_text config (j.parse bytes)) session else session

  abbrev pub next_session : TransportConfig → Option (List ℕ) → WsEvent → Option (List ℕ)
  next_session config session connected = session
  next_session config session disconnected = none
  next_session config session error = none
  next_session config session closed = none
  next_session config session unknown = session
  next_session config session (frame_event frame) =
      next_bytes config session (op_code_of j frame) (whole_frame frame)

  abbrev pub audio_bytes : Option (List ℕ) → ℕ → Option (List ℕ) → List (List ℕ)
  audio_bytes none op_code bytes = []
  audio_bytes (some id) op_code none = []
  audio_bytes (some id) op_code (some bytes) = if op_code == 2 then bytes ∷ [] else []

  abbrev pub audio_of : Option (List ℕ) → WsEvent → List (List ℕ)
  audio_of session connected = []
  audio_of session disconnected = []
  audio_of session error = []
  audio_of session closed = []
  audio_of session unknown = []
  audio_of session (frame_event frame) =
      audio_bytes session (op_code_of j frame) (whole_frame frame)

  abbrev pub sessions : TransportConfig → Option (List ℕ) → List Input → Option (List ℕ)
  sessions config session [] = session
  sessions config session (i ∷ is) = sessions config (next_session config session i.event) is

  abbrev pub audio : TransportConfig → Option (List ℕ) → List Input → List (List ℕ)
  audio config session [] = []
  audio config session (i ∷ is) =
      audio_of session i.event ++ audio config (next_session config session i.event) is

  -- What one step of the handler has to do with the specification.
  Refines : Transport → Transport × List (Action j) → Option (List ℕ) → List (List ℕ) → Type 0
  Refines t (t', actions) session delivered =
      (session_of t' ≡ session) × (heard actions ≡ delivered) × (t'.config ≡ t.config)

  receive_text-Refines :
      (t : Transport) (message : j.Value)
      → Refines t
          (receive_text j t message)
          (or_else (opened_by t.config message) (session_of t))
          []
  unfolding receive_text Refines
  receive_text-Refines t message = ground arith

  receive-Refines :
      (t : Transport) (op_code : ℕ) (bytes : List ℕ)
      → Refines t
          (receive j t op_code bytes)
          (next_bytes t.config (session_of t) op_code (some bytes))
          (audio_bytes (session_of t) op_code (some bytes))
  unfolding receive Refines
  receive-Refines t op_code bytes = elim (Option-cases (j.parse bytes)) [
    | inl e ↦ rw e (ground arith)
    | inr (message, e) ↦
        let text : Refines t (receive_text j t message)
            (or_else (opened_by t.config message) (session_of t)) [] =
          receive_text-Refines t message in
        rw e (ground (arith, text))
  ]

  heard-send_raw_text :
      (t : Transport) (written : ℤ) (text : List ℕ)
      → heard (send_raw_text j t written (some text)).1 ≡ []
  unfolding send_raw_text
  heard-send_raw_text t written [] = refl
  heard-send_raw_text t written (c ∷ cs) = ground arith

  heard-send_hello :
      (t : Transport) (allocated : Bool) (written : ℤ)
      → heard (send_hello j t allocated written).1 ≡ []
  unfolding send_hello
  heard-send_hello t false written = refl
  heard-send_hello t true written = elim (Option-cases (j.print_built (hello j t.config))) [
    | inl e ↦ rw (send_hello, e) refl
    | inr (text, e) ↦ rw (send_hello, e) (heard-send_raw_text t written text)
  ]

  handle-Refines :
      (t : Transport) (allocated : Bool) (written : ℤ) (event : WsEvent)
      → Refines t
          (handle j t allocated written event)
          (next_session t.config (session_of t) event)
          (audio_of (session_of t) event)
  unfolding handle Refines
  handle-Refines t allocated written connected = (refl, heard-send_hello _ allocated written, refl)
  handle-Refines t allocated written disconnected = (refl, refl, refl)
  handle-Refines t allocated written error = (refl, refl, refl)
  handle-Refines t allocated written closed = (refl, refl, refl)
  handle-Refines t allocated written unknown = (refl, refl, refl)
  handle-Refines t allocated written (frame_event frame) = elim (Option-cases (whole_frame frame)) [
    | inl e ↦ rw (handle, e) (ground arith)
    | inr (bytes, e) ↦ rw (handle, e) (receive-Refines t (op_code_of j frame) bytes)
  ]

  -- Over any events, the transport's session is that of the last hello that was accepted since the
  -- last loss of the connection, if there was one, and the audio that it delivers is that of the whole
  -- binary frames that arrive while there is one, in order: none before a hello or after a loss.
  pub run-sessions :
      (t : Transport) (events : List Input)
      → (session_of (run t events).0 ≡ sessions t.config (session_of t) events)
        × (heard (run t events).1 ≡ audio t.config (session_of t) events)
  unfolding run Refines
  run-sessions t [] = (refl, refl)
  run-sessions t (i ∷ is) =
      let step = handle-Refines t i.allocated i.written i.event in
      let rest = run-sessions (handle j t i.allocated i.written i.event).0 is in
      let t' = (handle j t i.allocated i.written i.event).0 in
      (
        rest.0 ∙ ap₂ (λ (c : TransportConfig) (s : Option (List ℕ)). sessions c s is) step.2 step.0,
        heard-append (handle j t i.allocated i.written i.event).1 (run t' is).1
            ∙ ap₂ (λ (x y : List (List ℕ)). x ++ y) step.1
                (rest.1
                  ∙ ap₂ (λ (c : TransportConfig) (s : Option (List ℕ)). audio c s is) step.2
                      step.0),
      )
