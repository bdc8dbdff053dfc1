-- ===== src/Conversation/Sent.antt =====
-- What a successful send has sent, and to whom.
use veetee_vuqb.Base.{
  ℕ, ◌<◌, ◌≡◌, ◌≢◌, refl, ap, sym, ◌∙◌, Bool, true, false, not, ◌||◌, ◌⊎◌, inl, inr, Option, none,
  some, List, [], ◌∷◌, length, str_eq_iff, arith, Bool-cases, Option-cases,
}
use veetee_vuqb.Base.Esp.{EspError}
use veetee_vuqb.Base.Int.{ℤ}
use veetee_vuqb.Base.Text.{codes}
use veetee_vuqb.Json.{CJson, Built, Fields, end, field}
use veetee_vuqb.Transport.{Transport, Action, send_text, text_or_empty, send_raw_text}
use veetee_vuqb.Transport.Sessions.{IsSession}
use veetee_vuqb.Transport.Setup.{is_esp_ok, is_ready, send}
use veetee_vuqb.Conversation.{App, take_lock, state_apply, state_read}
use veetee_vuqb.Conversation.Polling.{PttTask, Round, start_capture, try_start}
use veetee_vuqb.Conversation.Sending.{
  SendAnswers, session_field, control_fields, listen_fields, is_foreign, send_fields, send_control,
  send_listen_start, mcp_send_text,
}

not_foreign :
    (current : List ℕ) (session_id : Option (List ℕ))
    → is_foreign current session_id ≡ false
    → (text_or_empty session_id ≡ []) ⊎ (text_or_empty session_id ≡ current)
unfolding is_foreign
not_foreign current none h = inl refl
not_foreign current (some []) h = inl refl
not_foreign current (some (c ∷ cs)) h =
    inr (sym ((str_eq_iff current (c ∷ cs)).0 (ground (arith, h))))

-- A round that begins to capture has sent its start.
try_start-sent :
    (round : Round) (task : PttTask) (app : App)
    → app.capture_active ≡ false
    → (try_start round task app).1.capture_active ≡ true
    → round.sent ≡ true
unfolding try_start start_capture state_read state_apply take_lock
try_start-sent round task app off on = ground (arith, off, on)

is_ok : (e : EspError) → is_esp_ok e ≡ true → e ≡ EspError.ok
is_ok e h = ground arith

module _ (j : CJson) where
  -- A send that succeeded: the session was open, and the client took the print of the object whose last
  -- field is the session.
  abbrev pub SentIn : Transport → (Fields → Fields) → List (Action j) → Type 0
  SentIn t fields actions =
      (text : List ℕ) × (actions ≡ send_text text ∷ [])
      × (j.print_built
            (Built.object (fields (field (codes "session_id") (Built.text t.session_id) end)))
          ≡ some text)
      × (0 < length t.session_id)
      × (t.ready ≡ true)

  send-sent :
      (t : Transport) (up : Bool) (written : ℤ) (text : List ℕ)
      → (send j t up written (some text)).1 ≢ []
      → ((send j t up written (some text)).1 ≡ send_text text ∷ []) × (t.ready ≡ true)
  unfolding send send_raw_text
  send-sent t up written [] h = absurd (h (ground arith))
  send-sent t up written (c ∷ cs) h = elim (Bool-cases (is_ready t up)) [
    | inr e ↦ absurd (h (rw (send, e) refl))
    | inl e ↦ elim (Bool-cases (not t.client || not t.connected)) [
      | inl f ↦ absurd (h (rw (send, e, send_raw_text, f) refl))
      | inr f ↦ (rw (send, e, send_raw_text, f) refl, ground (arith, e))
    ]
  ]

  -- What succeeds has sent.
  send-ok :
      (t : Transport) (up : Bool) (written : ℤ) (text : List ℕ)
      → (send j t up written (some text)).0 ≡ EspError.ok
      → (send j t up written (some text)).1 ≢ []
  unfolding send send_raw_text
  send-ok t up written [] h = absurd (ground arith)
  send-ok t up written (c ∷ cs) h = λ q. absurd (ground (arith, q))

  send_fields-sent :
      (t : Transport) (answers : SendAnswers) (fields : Fields)
      → (send_fields j t answers fields).1 ≢ []
      → (text : List ℕ) × ((send_fields j t answers fields).1 ≡ send_text text ∷ [])
        × (j.print_built (Built.object fields) ≡ some text)
        × (t.ready ≡ true)
  unfolding send_fields
  send_fields-sent t answers fields h = elim (Bool-cases (not (is_ready t answers.up))) [
    | inl e ↦ absurd (h (rw (send_fields, e) refl))
    | inr e ↦ elim (Bool-cases (not answers.allocated)) [
      | inl f ↦ absurd (h (rw (send_fields, e, f) refl))
      | inr f ↦ elim (Option-cases (j.print_built (Built.object fields))) [
        | inl g ↦ absurd (h (rw (send_fields, e, f, g) refl))
        | inr (text, g) ↦
            let sent =
              send-sent t answers.still_up answers.written text (rw (send_fields, e, f, g) at h) in
            (text, rw (send_fields, e, f, g) sent.0, g, sent.1)
      ]
    ]
  ]

  send_fields-ok :
      (t : Transport) (answers : SendAnswers) (fields : Fields)
      → (send_fields j t answers fields).0 ≡ EspError.ok
      → (send_fields j t answers fields).1 ≢ []
  unfolding send_fields
  send_fields-ok t answers fields h = elim (Bool-cases (not (is_ready t answers.up))) [
    | inl e ↦ absurd (ground (arith, e))
    | inr e ↦ elim (Bool-cases (not answers.allocated)) [
      | inl f ↦ absurd (ground (arith, e, f))
      | inr f ↦ elim (Option-cases (j.print_built (Built.object fields))) [
        | inl g ↦ absurd (ground (arith, e, f, g))
        | inr (text, g) ↦
            rw (send_fields, e, f, g)
              (send-ok t answers.still_up answers.written text (rw (send_fields, e, f, g) at h))
      ]
    ]
  ]

  session_field_lem :
      (id : List ℕ)
      → 0 < length id
      → session_field id ≡ field (codes "session_id") (Built.text id) end
  session_field_lem [] h = absurd (omega (arith, h))
  session_field_lem (c ∷ cs) h = refl

  send_fields-SentIn :
      (t : Transport) (answers : SendAnswers) (fields : Fields → Fields)
      → IsSession t
      → (send_fields j t answers (fields (session_field t.session_id))).1 ≢ []
      → SentIn t fields (send_fields j t answers (fields (session_field t.session_id))).1
  send_fields-SentIn t answers fields v h =
      let (text, sent, printed, ready) =
        send_fields-sent t answers (fields (session_field t.session_id)) h in
      let filled : 0 < length t.session_id = (v.opened ready).0 in
      let same = ap fields (session_field_lem t.session_id filled) in
      (
        text,
        sent,
        ap (λ (x : Fields). j.print_built (Built.object x)) (sym same) ∙ printed,
        filled,
        ready,
      )

  -- A control of any type, state and reason that was sent, also where the client then fails, went out in the
  -- session that is open: the client took one text, the print of an object whose last field names that
  -- session, never an empty one.
  pub send_control-SentIn :
      (t : Transport) (answers : SendAnswers) (type : List ℕ) (state reason : Option (List ℕ))
      → IsSession t
      → (send_control j t answers type state reason).1 ≢ []
      → SentIn t (control_fields type state reason) (send_control j t answers type state reason).1
  unfolding send_control
  send_control-SentIn t answers type state reason v h =
      send_fields-SentIn t answers (control_fields type state reason) v h

  pub send_listen_start-SentIn :
      (t : Transport) (answers : SendAnswers) (auto_mode : Bool)
      → IsSession t
      → (send_listen_start j t answers auto_mode).0 ≡ EspError.ok
      → SentIn t (listen_fields auto_mode) (send_listen_start j t answers auto_mode).1
  unfolding send_listen_start
  send_listen_start-SentIn t answers auto_mode v h =
      send_fields-SentIn t answers (listen_fields auto_mode) v
        (send_fields-ok t answers (listen_fields auto_mode (session_field t.session_id)) h)

  -- Whatever mcp_send_text asks of the client, also where the client then fails, is the one response as it is,
  -- in an open session that is the one that the request names, where the request names one: a response never
  -- goes into another session.
  pub mcp_send_text-SentTo :
      (t : Transport) (answers : SendAnswers) (text : List ℕ) (session_id : Option (List ℕ))
      → IsSession t
      → (mcp_send_text j t answers text session_id).1 ≢ []
      → ((mcp_send_text j t answers text session_id).1 ≡ send_text text ∷ [])
        × (0 < length t.session_id)
        × ((text_or_empty session_id ≡ []) ⊎ (text_or_empty session_id ≡ t.session_id))
  unfolding mcp_send_text
  mcp_send_text-SentTo t answers text session_id v h =
      elim (Bool-cases (not (is_ready t answers.up) || is_foreign t.session_id session_id)) [
        | inl e ↦ absurd (h (rw (mcp_send_text, e) refl))
        | inr e ↦
            let sent =
              send-sent t answers.still_up answers.written text (rw (mcp_send_text, e) at h) in
            (
              rw (mcp_send_text, e) sent.0,
              (v.opened sent.1).0,
              not_foreign t.session_id session_id (ground (arith, e)),
            )
      ]

  -- The task of the button begins to capture only in an open session, after its start was sent there: the
  -- client took one text, the print of a listen start with the mode of the turn and, last, that session.
  pub try_start-SentIn :
      (t : Transport) (answers : SendAnswers) (round : Round) (task : PttTask) (app : App)
      → IsSession t
      → round.sent ≡ is_esp_ok (send_listen_start j t answers task.pending_auto).0
      → app.capture_active ≡ false
      → (try_start round task app).1.capture_active ≡ true
      → SentIn t
          (listen_fields task.pending_auto)
          (send_listen_start j t answers task.pending_auto).1
  try_start-SentIn t answers round task app v sent off on =
      send_listen_start-SentIn t answers task.pending_auto v
        (is_ok _ (sym sent ∙ try_start-sent round task app off on))
