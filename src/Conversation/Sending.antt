-- ===== src/Conversation/Sending.antt =====
-- send_control, send_listen_start and mcp_send_text: what the conversation sends in its session.
use veetee_vuqb.Base.{
  ℕ, Bool, false, not, ◌||◌, if◌then◌else◌, Option, none, some, List, [], ◌∷◌, str_eq,
}
use veetee_vuqb.Base.Esp.{EspError}
use veetee_vuqb.Base.Int.{ℤ}
use veetee_vuqb.Base.Text.{codes}
use veetee_vuqb.Json.{CJson, Built, Fields, end, field}
use veetee_vuqb.Transport.{Transport, Action}
use veetee_vuqb.Transport.Setup.{is_ready, send}

-- What the libraries answer to a send: the client's connection at the two tests of it, whether the
-- object could be created, and how much the client reports to have sent.
pub record SendAnswers : Type 0 where
  pub up : Bool
  pub still_up : Bool
  pub allocated : Bool
  pub written : ℤ

-- A string that may be NULL, and the session where it is not empty
abbrev pub optional_field : List ℕ → Option (List ℕ) → Fields → Fields
optional_field name none rest = rest
optional_field name (some value) rest = field name (Built.text value) rest

abbrev pub session_field : List ℕ → Fields
session_field [] = end
session_field (c ∷ cs) = field (codes "session_id") (Built.text (c ∷ cs)) end

abbrev pub control_fields : List ℕ → Option (List ℕ) → Option (List ℕ) → Fields → Fields
control_fields type state reason rest =
    field (codes "type") (Built.text type)
      (optional_field (codes "state") state (optional_field (codes "reason") reason rest))

abbrev pub listen_fields : Bool → Fields → Fields
listen_fields auto_mode rest = field (codes "type") (Built.text (codes "listen")) (
    field (codes "state") (Built.text (codes "start"))
      (field (codes "mode") (Built.text (codes (if auto_mode then "auto" else "manual"))) rest))

-- `session_id` is not empty and is not the session of the transport
unfoldable pub is_foreign : List ℕ → Option (List ℕ) → Bool
is_foreign current none = false
is_foreign current (some []) = false
is_foreign current (some (c ∷ cs)) = not (str_eq current (c ∷ cs))

module _ (j : CJson) where
  -- What the two senders share, from the test of the transport to the send.
  unfoldable pub send_fields : Transport → SendAnswers → Fields → EspError × List (Action j)
  send_fields t answers fields =
      if not (is_ready t answers.up)
      then (EspError.err_invalid_state, [])
      else if not answers.allocated
      then (EspError.err_no_mem, [])
      else elim (j.print_built (Built.object fields)) [
        | none ↦ (EspError.err_no_mem, [])
        | some serialized ↦ send j t answers.still_up answers.written (some serialized)
      ]

  unfoldable pub send_control :
      Transport
      → SendAnswers
      → List ℕ
      → Option (List ℕ)
      → Option (List ℕ)
      → EspError × List (Action j)
  send_control t answers type state reason =
      send_fields t answers (control_fields type state reason (session_field t.session_id))

  unfoldable pub send_listen_start : Transport → SendAnswers → Bool → EspError × List (Action j)
  send_listen_start t answers auto_mode =
      send_fields t answers (listen_fields auto_mode (session_field t.session_id))

  -- mcp_send_text on an application that is not NULL
  unfoldable pub mcp_send_text :
      Transport → SendAnswers → List ℕ → Option (List ℕ) → EspError × List (Action j)
  mcp_send_text t answers text session_id =
      if not (is_ready t answers.up) || is_foreign t.session_id session_id
      then (EspError.err_invalid_state, [])
      else send j t answers.still_up answers.written (some text)
