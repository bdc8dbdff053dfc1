-- ===== src/McpWire.antt =====
-- veetee-firmware/main/veetee_mcp_wire.c and veetee_mcp_wire.h: the bounded writer of MCP messages.
pub mod Messages
pub mod Appending
pub mod Documents
pub mod Escaping
pub mod ToolsList
pub mod Pages
pub mod Rounds
pub mod Listing
use veetee_vuqb.Base.{
  ℕ, zero, suc, ◌+◌, ◌-◌, ◌/◌, ◌%◌, Bool, true, false, not, ◌&&◌, ◌||◌, if◌then◌else◌, ltb, leb,
  ◌==◌, Option, none, some, List, [], ◌∷◌, ◌++◌, length, get_or, set, take, min,
}
use veetee_vuqb.Base.Buffer.{copy_at}
use veetee_vuqb.Base.Text.{codes}

abbrev pub max_bytes : ℕ
max_bytes = 8000

-- vt_mcp_wire_result_t
pub data McpWireResult : Type 0 where
  ok err_argument err_capacity err_json err_request_id err_cursor : McpWireResult

-- writer_t
pub record Writer : Type 0 where
  pub buffer : List ℕ
  pub capacity : ℕ
  pub length : ℕ
  pub failed : Bool

-- A step that appends to the writer, and tells whether it succeeded.
abbrev pub Step : Type 0
Step = Writer → Writer × Bool

-- `a && b`, as the callers of the writer chain their steps
abbrev pub and_then : Writer × Bool → Step → Writer × Bool
and_then (writer, true) next = next writer
and_then (writer, false) next = (writer, false)

unfoldable pub append_bytes : Writer → List ℕ → Writer × Bool
append_bytes writer bytes =
    if writer.failed
      || leb writer.capacity writer.length
      || ltb (writer.capacity - writer.length - 1) (length bytes)
    then (record writer { failed = true }, false)
    else (
      record writer {
        buffer = set (copy_at writer.buffer writer.length bytes) (writer.length + length bytes) 0;
        length = writer.length + length bytes;
      },
      true,
    )

-- `text` is what the format prints in full; vsnprintf cuts it at the capacity.
unfoldable pub append_format : Writer → List ℕ → Writer × Bool
append_format writer text =
    if writer.failed || leb writer.capacity writer.length
    then (record writer { failed = true }, false)
    else let room = writer.capacity - writer.length - 1 in
      let buffer' =
        set (copy_at writer.buffer writer.length (take room text))
          (writer.length + min room (length text)) 0 in
      if leb (writer.capacity - writer.length) (length text)
      then (record writer { buffer = buffer'; failed = true }, false)
      else (record writer { buffer = buffer'; length = writer.length + length text }, true)

abbrev hex_digit : ℕ → ℕ
hex_digit n = if ltb n 10 then b'0' + n else b'a' + (n - 10)

-- What the `switch` of append_escaped_string appends for one character.
unfoldable pub escape_of : ℕ → List ℕ
escape_of c =
    if c == b'"'
    then codes "\\\""
    else if c == b'\\'
    then codes "\\\\"
    else if c == 8
    then codes "\\b"
    else if c == 12
    then codes "\\f"
    else if c == 10
    then codes "\\n"
    else if c == 13
    then codes "\\r"
    else if c == 9
    then codes "\\t"
    else if ltb c 0x20
    then codes "\\u00" ++ (hex_digit (c / 16) ∷ hex_digit (c % 16) ∷ [])
    else c ∷ []

-- The loop of append_escaped_string.
unfoldable pub append_chars : List ℕ → Step
append_chars [] writer = (writer, true)
append_chars (c ∷ cs) writer = and_then (append_bytes writer (escape_of c)) (append_chars cs)

unfoldable pub append_escaped_string : Option (List ℕ) → Step
append_escaped_string none writer = (record writer { failed = true }, false)
append_escaped_string (some value) writer =
    and_then (and_then (append_bytes writer (codes "\"")) (append_chars value))
      (λ w. append_bytes w (codes "\""))

abbrev is_space : ℕ → Bool
is_space c = (c == b' ') || (c == 10) || (c == 13) || (c == 9)

-- The first loop of valid_json_object: the text from its first character that is no space.
unfoldable pub skip_spaces : List ℕ → List ℕ
skip_spaces [] = []
skip_spaces (c ∷ cs) = let rest = skip_spaces cs in if is_space c then rest else c ∷ cs

-- The last character that is no space, or `none`.
unfoldable pub last_visible : List ℕ → Option ℕ
last_visible [] = none
last_visible (c ∷ cs) = elim (last_visible cs) [
  | some d ↦ some d
  | none ↦ if is_space c then none else some c
]

-- Whether a text is there and is the character `c`.
abbrev pub is_char : ℕ → Option ℕ → Bool
is_char c none = false
is_char c (some d) = d == c

abbrev pub first_of : List ℕ → Option ℕ
first_of [] = none
first_of (c ∷ cs) = some c

-- valid_json_object on the `length` bytes of `json`
unfoldable pub valid_json_object : Option (List ℕ) → Bool
unfolding skip_spaces last_visible
valid_json_object none = false
valid_json_object (some json) =
    if ltb (length json) 2
    then false
    else is_char b'{' (first_of (skip_spaces json))
      && is_char b'}' (last_visible (skip_spaces json))
