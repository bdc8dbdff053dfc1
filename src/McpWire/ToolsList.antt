-- ===== src/McpWire/ToolsList.antt =====
-- vt_mcp_wire_write_tools_list of veetee-firmware/main/veetee_mcp_wire.c: one page of the registry's
-- tools.
use veetee_vuqb.Base.{
  ℕ, zero, suc, ◌+◌, Bool, true, false, not, if◌then◌else◌, ltb, ◌==◌, Option, none, some, List, [],
}
use veetee_vuqb.Base.Text.{codes}
use veetee_vuqb.Base.Int.{ℤ, pos, negsuc}
use veetee_vuqb.Mcp.{Tool, Registry, registry_tool_at}
use veetee_vuqb.McpWire.{
  McpWireResult, ok, err_argument, err_capacity, err_json, err_request_id, Writer, Step, and_then,
  append_bytes, append_escaped_string, valid_json_object,
}
use veetee_vuqb.McpWire.Messages.{finish, envelope, start}

abbrev pub default_page_size : ℕ
default_page_size = 4

abbrev pub text_of : Option (List ℕ) → List ℕ
text_of none = []
text_of (some text) = text

abbrev pub comma : Bool → List ℕ
comma true = codes ","
comma false = []

-- The first append of a round: a comma where a tool has been emitted before.
abbrev pub append_comma : Bool → Step
append_comma true writer = append_bytes writer (codes ",")
append_comma false writer = (writer, true)

-- The appends of one round of the loop; `later` tells whether a tool has been emitted before.
unfoldable pub tool_steps : Bool → Tool → List ℕ → Step
tool_steps later tool schema writer =
    and_then
      (and_then
        (and_then
          (and_then
            (and_then
              (and_then
                (and_then (append_comma later writer) (λ w. append_bytes w (codes "{\"name\":")))
                (append_escaped_string tool.name))
              (λ w. append_bytes w (codes ",\"description\":")))
            (append_escaped_string (some (text_of tool.description))))
          (λ w. append_bytes w (codes ",\"inputSchema\":")))
        (λ w. append_bytes w schema))
      (λ w. append_bytes w (codes "}"))

-- What the loop leaves: ok where it ended by its condition, else the error that the function
-- returns, with the writer and the index.
abbrev pub Progress : Type 0
Progress = McpWireResult × Writer × ℕ

abbrev pub is_emitted : Progress → Bool
is_emitted (ok, writer, index) = true
is_emitted _ = false

-- One round: the test of the tool's schema, and the appends; `next` is the rest of the loop.
unfoldable pub emit_tool :
    Bool → ℕ → Writer → Tool → Option (List ℕ) → (Writer → Progress) → Progress
emit_tool later index writer tool none next = (err_json, writer, index)
emit_tool later index writer tool (some schema) next =
    if not (valid_json_object (some schema))
    then (err_json, writer, index)
    else let (writer', appended) = tool_steps later tool schema writer in
      if appended then next writer' else (err_capacity, writer', index)

-- The loop, with `left` tools of the page to emit; `later` tells whether `emitted` is positive.
unfoldable pub emit_tools : ℕ → Registry → ℕ → Bool → Writer → Progress
unfolding emit_tool
emit_tools zero registry index later writer = (ok, writer, index)
emit_tools (suc left) registry index later writer = elim (registry_tool_at registry index) [
  | none ↦ (if ltb index registry.tool_count then err_json else ok, writer, index)
  | some tool ↦
      emit_tool later index writer tool tool.input_schema_json
        (emit_tools left registry (index + 1) true)
]

-- The cursor of the next page, which is the name of its first tool.
unfoldable pub cursor_steps : List ℕ → Step
cursor_steps name writer =
    and_then (append_bytes writer (codes ",\"nextCursor\":")) (append_escaped_string (some name))

-- What the whole message leaves: the result, the output, the next index, the output length.
abbrev pub Listed : Type 0
Listed = McpWireResult × List ℕ × ℕ × ℕ

abbrev pub close : Writer × Bool → ℕ → ℕ → ℕ → Listed
close (writer, false) index next_index output_length =
    (err_capacity, writer.buffer, next_index, output_length)
close (writer, true) index next_index output_length =
    let (result, output, length) = finish writer output_length in (result, output, index, length)

abbrev pub close_tools : Option Tool → Writer → ℕ → ℕ → ℕ → Listed
close_tools none writer index next_index output_length =
    close (and_then (append_bytes writer (codes "]")) (λ w. append_bytes w (codes "}}}"))) index
      next_index output_length
close_tools (some tool) writer index next_index output_length =
    let (writer', appended) = append_bytes writer (codes "]") in
    if not appended
    then (err_capacity, writer'.buffer, next_index, output_length)
    else elim tool.name [
      | none ↦ (err_json, writer'.buffer, next_index, output_length)
      | some name ↦
          close (and_then (cursor_steps name writer') (λ w. append_bytes w (codes "}}}"))) index
            next_index output_length
    ]

-- The part behind the loop: the end of the list, the cursor where tools are left, the end of the
-- document.
unfoldable pub end_tools : Registry → Progress → ℕ → ℕ → Listed
end_tools registry (ok, writer, index) next_index output_length =
    close_tools (registry_tool_at registry index) writer index next_index output_length
end_tools registry (result, writer, index) next_index output_length =
    (result, writer.buffer, next_index, output_length)

-- From the envelope on; `id` is positive.
unfoldable pub list_tools : List ℕ → ℕ → List ℕ → ℕ → Registry → ℕ → ℕ → ℕ → ℕ → Listed
list_tools output output_capacity session_id id registry start_index page_size next_index
      output_length =
    let (writer, appended) =
      and_then
        (and_then (envelope session_id id (start output output_capacity))
          (λ w. append_bytes w (codes ",\"result\":")))
        (λ w. append_bytes w (codes "{\"tools\":[")) in
    let listed =
      end_tools registry
        (emit_tools (if page_size == 0 then default_page_size else page_size) registry start_index
          false writer)
        next_index output_length in
    if appended then listed else (err_capacity, writer.buffer, next_index, output_length)

-- vt_mcp_wire_write_tools_list with registry, output and both results not NULL
unfoldable pub write_tools_list :
    List ℕ → ℕ → Option (List ℕ) → ℤ → Registry → ℕ → ℕ → ℕ → ℕ → Listed
write_tools_list output capacity none request_id registry start_index page_size next_index n =
    (err_argument, output, next_index, n)
write_tools_list output capacity (some session_id) (negsuc k) registry start_index page_size
      next_index n =
    if ltb registry.tool_count start_index
    then (err_argument, output, next_index, n)
    else if capacity == 0
    then (err_argument, output, next_index, n)
    else (err_request_id, output, next_index, n)
write_tools_list output capacity (some session_id) (pos id) registry start_index page_size
      next_index n =
    if ltb registry.tool_count start_index
    then (err_argument, output, next_index, n)
    else if capacity == 0
    then (err_argument, output, next_index, n)
    else if id == 0
    then (err_request_id, output, next_index, n)
    else list_tools output capacity session_id id registry start_index page_size next_index n
