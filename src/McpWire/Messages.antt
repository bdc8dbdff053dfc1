-- ===== src/McpWire/Messages.antt =====
-- The messages of veetee-firmware/main/veetee_mcp_wire.c. Every function takes the pointers that its
-- callers may leave NULL as an Option; the output and the length are there.
use veetee_vuqb.Base.{
  ℕ, ◌+◌, Bool, true, false, not, if◌then◌else◌, ltb, ◌==◌, Option, none, some, List, [], ◌++◌, set,
}
use veetee_vuqb.Base.Text.{codes, decimal}
use veetee_vuqb.Base.Int.{ℤ, pos, negsuc}
use veetee_vuqb.McpWire.{
  max_bytes, McpWireResult, ok, err_argument, err_capacity, err_json, err_request_id, Writer, Step,
  and_then, append_bytes, append_format, append_escaped_string, valid_json_object,
}

-- What a message leaves: the result, the output and the output length.
abbrev pub Written : Type 0
Written = McpWireResult × List ℕ × ℕ

unfoldable pub finish : Writer → ℕ → Written
finish writer output_length =
    if writer.failed
    then (err_capacity, writer.buffer, output_length)
    else (ok, writer.buffer, writer.length)

abbrev pub is_ok : McpWireResult → Bool
is_ok ok = true
is_ok _ = false

-- `session_id` and `id` in the envelope; `id` is positive.
unfoldable pub envelope : List ℕ → ℕ → Step
envelope session_id id writer =
    and_then
      (and_then (append_bytes writer (codes "{\"session_id\":"))
        (append_escaped_string (some session_id)))
      (λ w.
        append_format w
          (codes ",\"type\":\"mcp\",\"payload\":{\"jsonrpc\":\"2.0\",\"id\":" ++ decimal 10 id []))

-- The writer that begin sets up; the output has at least one byte.
unfoldable pub start : List ℕ → ℕ → Writer
start output output_capacity = record {
  buffer = set output 0 0;
  capacity = if ltb (max_bytes + 1) output_capacity then max_bytes + 1 else output_capacity;
  length = 0;
  failed = false;
}

-- A message: what begin checks, the envelope, and the steps behind it, all of whose failures are
-- reported as a lack of capacity.
unfoldable pub message : List ℕ → ℕ → Option (List ℕ) → ℤ → Step → ℕ → Written
message output output_capacity none request_id rest output_length =
    (err_argument, output, output_length)
message output output_capacity (some session_id) (negsuc n) rest output_length =
    (if output_capacity == 0 then err_argument else err_request_id, output, output_length)
message output output_capacity (some session_id) (pos id) rest output_length =
    if output_capacity == 0
    then (err_argument, output, output_length)
    else if id == 0
    then (err_request_id, output, output_length)
    else let (writer, appended) =
        and_then (envelope session_id id (start output output_capacity)) rest in
      if appended then finish writer output_length else (err_capacity, writer.buffer, output_length)

unfoldable pub result_steps : List ℕ → Step
result_steps result_json writer =
    and_then
      (and_then (append_bytes writer (codes ",\"result\":")) (λ w. append_bytes w result_json))
      (λ w. append_bytes w (codes "}}"))

-- vt_mcp_wire_write_result
unfoldable pub write_result : List ℕ → ℕ → Option (List ℕ) → ℤ → Option (List ℕ) → ℕ → Written
write_result output output_capacity session_id request_id none output_length =
    (err_json, output, output_length)
write_result output output_capacity session_id request_id (some result_json) output_length =
    if not (valid_json_object (some result_json))
    then (err_json, output, output_length)
    else message output output_capacity session_id request_id (result_steps result_json)
        output_length

unfoldable pub error_steps : List ℕ → Step
error_steps text writer =
    and_then
      (and_then (append_bytes writer (codes ",\"error\":{\"message\":"))
        (append_escaped_string (some text)))
      (λ w. append_bytes w (codes "}}}"))

-- vt_mcp_wire_write_error
unfoldable pub write_error : List ℕ → ℕ → Option (List ℕ) → ℤ → Option (List ℕ) → ℕ → Written
write_error output output_capacity session_id request_id none output_length =
    (err_argument, output, output_length)
write_error output output_capacity session_id request_id (some text) output_length =
    message output output_capacity session_id request_id (error_steps text) output_length

unfoldable pub initialize_steps : List ℕ → List ℕ → List ℕ → Step
initialize_steps protocol_version server_name server_version writer =
    and_then
      (and_then
        (and_then
          (and_then
            (and_then
              (and_then
                (and_then (append_bytes writer (codes ",\"result\":"))
                  (λ w. append_bytes w (codes "{\"protocolVersion\":")))
                (append_escaped_string (some protocol_version)))
              (λ w.
                append_bytes w
                  (codes ",\"capabilities\":{\"tools\":{}},\"serverInfo\":{\"name\":")))
            (append_escaped_string (some server_name)))
          (λ w. append_bytes w (codes ",\"version\":")))
        (append_escaped_string (some server_version)))
      (λ w. append_bytes w (codes "}}}}"))

-- vt_mcp_wire_write_initialize
unfoldable pub write_initialize :
    List ℕ
    → ℕ
    → Option (List ℕ)
    → ℤ
    → Option (List ℕ)
    → Option (List ℕ)
    → Option (List ℕ)
    → ℕ
    → Written
write_initialize output output_capacity session_id request_id (some version) (some name)
      (some server) n =
    message output output_capacity session_id request_id (initialize_steps version name server) n
write_initialize output output_capacity session_id request_id version name server n =
    (err_argument, output, n)
