-- ===== src/Transport/Sessions.antt =====
-- The session of a transport over any sequence of events: who opens it, who ends it, and what it lets
-- through.
use veetee_vuqb.Base.{
  ℕ, ◌<◌, ◌≡◌, refl, Bool, true, false, not, if◌then◌else◌, ◌==◌, Option, none, some, List, [], ◌∷◌,
  length, arith, Bool-cases, Option-cases, inl, inr,
}
use veetee_vuqb.Base.Int.{ℤ}
use veetee_vuqb.Base.Text.{codes}
use veetee_vuqb.Json.{CJson, string_of, is_text}
use veetee_vuqb.Transport.{
  max_session, fits_session, TransportConfig, EventBits, Transport, text_or_empty,
  accept_server_hello,
}
use veetee_vuqb.Transport.Events.{
  WsEvent, connected, disconnected, error, closed, unknown, frame_event, set_bits, clear_bits, lose,
  op_code_of, whole_frame, receive_text, receive, handle,
}

abbrev pub BitMatches : Option EventBits → Bool → Type 0
BitMatches none ready = Unit
BitMatches (some bits) ready = bits.ready_bit ≡ ready

-- A ready transport has a session id that is not empty and fits its array, another one has none, and
-- the ready bit of the event group tells which.
pub record IsSession (t : Transport) : Type 0 where
  pub opened : t.ready ≡ true → (0 < length t.session_id) × (length t.session_id < max_session)
  pub shut : t.ready ≡ false → t.session_id ≡ []
  pub bit : BitMatches t.events t.ready

fits_session-length :
    (o : Option (List ℕ))
    → fits_session o ≡ true
    → (0 < length (text_or_empty o)) × (length (text_or_empty o) < max_session)
fits_session-length none h = absurd (cc)
fits_session-length (some []) h = absurd (cc)
fits_session-length (some (c ∷ cs)) h = (omega arith, ground arith)

set_ready : (events : Option EventBits) → BitMatches (set_bits false true events) true
set_ready none = tt
set_ready (some bits) = refl

set_connected :
    (events : Option EventBits) (ready : Bool)
    → BitMatches events ready
    → BitMatches (set_bits true false events) ready
set_connected none ready h = tt
set_connected (some bits) ready h = h

clear_ready : (events : Option EventBits) → BitMatches (clear_bits events) false
clear_ready none = tt
clear_ready (some bits) = refl

-- An event, with what the libraries answer while it is handled.
pub record Input : Type 0 where
  pub event : WsEvent
  pub allocated : Bool
  pub written : ℤ

-- The session of a transport, as the outside sees it.
abbrev pub session_of : Transport → Option (List ℕ)
session_of t = if t.ready then some t.session_id else none

module _ (j : CJson) where
  accept-fits :
      (config : TransportConfig) (message : j.Value)
      → accept_server_hello j config message ≡ true
      → fits_session (string_of j (j.item message (codes "session_id"))) ≡ true
  unfolding accept_server_hello
  accept-fits config message h = ground arith

  lose-IsSession : (t : Transport) → IsSession (lose j t)
  lose-IsSession t = record { opened = λ h. cc; shut = λ h. refl; bit = clear_ready t.events }

  receive_text-IsSession :
      (t : Transport) (message : j.Value) → IsSession t → IsSession (receive_text j t message).0
  unfolding receive_text
  receive_text-IsSession t message v =
      elim (Bool-cases (not (is_text j (j.item message (codes "type")) (codes "hello")))) [
        | inl e ↦ rw e v
        | inr e ↦ elim (Bool-cases (accept_server_hello j t.config message)) [
          | inr a ↦ rw (e, a) v
          | inl a ↦
              rw (e, a)
                (record {
                  opened = λ h.
                      fits_session-length (string_of j (j.item message (codes "session_id")))
                        (accept-fits t.config message a);
                  shut = λ h. cc;
                  bit = set_ready t.events;
                })
        ]
      ]

  receive-IsSession :
      (t : Transport) (op_code : ℕ) (bytes : List ℕ)
      → IsSession t
      → IsSession (receive j t op_code bytes).0
  unfolding receive
  receive-IsSession t op_code bytes v = elim (Bool-cases (op_code == 2)) [
    | inl e ↦ rw e v
    | inr e ↦ elim (Bool-cases (not (op_code == 1))) [
      | inl f ↦ rw (e, f) v
      | inr f ↦ elim (Option-cases (j.parse bytes)) [
        | inl none_parsed ↦ rw (e, f, none_parsed) v
        | inr (message, parsed) ↦ rw (e, f, parsed) (receive_text-IsSession t message v)
      ]
    ]
  ]

  -- Every event keeps the session of a transport well formed: it is ready exactly while it has a
  -- session id, which is not empty and fits its array, and the ready bit of the event group tells so.
  pub handle-IsSession :
      (t : Transport) (allocated : Bool) (written : ℤ) (event : WsEvent)
      → IsSession t
      → IsSession (handle j t allocated written event).0
  unfolding handle
  handle-IsSession t allocated written connected v = record {
    opened = v.opened;
    shut = v.shut;
    bit = set_connected t.events t.ready v.bit;
  }
  handle-IsSession t allocated written disconnected v = lose-IsSession t
  handle-IsSession t allocated written error v = lose-IsSession t
  handle-IsSession t allocated written closed v = lose-IsSession t
  handle-IsSession t allocated written unknown v = v
  handle-IsSession t allocated written (frame_event frame) v =
      elim (Option-cases (whole_frame frame)) [
        | inl e ↦ rw (handle, e) v
        | inr (bytes, e) ↦ rw (handle, e) (receive-IsSession t (op_code_of j frame) bytes v)
      ]
