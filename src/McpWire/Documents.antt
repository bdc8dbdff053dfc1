-- ===== src/McpWire/Documents.antt =====
-- The documents that the messages of veetee_mcp_wire.c are.
use veetee_vuqb.Base.{
  ℕ, ◌+◌, ◌≤◌, ◌<◌, ◌≡◌, ◌⊎◌, inl, inr, refl, ap, ◌∙◌, true, false, ◌==◌, arith, some, List, [],
  ◌∷◌, ◌++◌, length, drop, length-append, min,
}
use veetee_vuqb.Base.Buffer.{copy_at, copy_at-zero}
use veetee_vuqb.Base.Text.{codes, decimal}
use veetee_vuqb.Base.Int.{pos}
use veetee_vuqb.McpWire.{
  max_bytes, ok, err_capacity, Writer, Step, and_then, append_bytes, append_format,
  append_escaped_string, valid_json_object,
}
use veetee_vuqb.McpWire.Messages.{
  Written, finish, envelope, start, message, result_steps, write_result, error_steps, write_error,
  initialize_steps, write_initialize,
}
use veetee_vuqb.McpWire.Appending.{
  Holds, Appends, append_bytes-Appends, append_format-Appends, and_then-Appends, quoted,
  append_escaped_string-Appends, then_literal, then_string,
}

-- The document up to what follows the id.
abbrev pub opening : List ℕ → ℕ → List ℕ
opening session_id id =
    (codes "{\"session_id\":" ++ quoted session_id)
    ++ (codes ",\"type\":\"mcp\",\"payload\":{\"jsonrpc\":\"2.0\",\"id\":" ++ decimal 10 id [])

-- The number of bytes that a message may take with its terminator.
abbrev pub limit : ℕ → ℕ
limit capacity = min (max_bytes + 1) capacity

-- The document is delivered: it stands at the start of the output with a terminator behind it, the
-- rest of the output is as it was, and the length is its length; or it does not fit, the result says
-- so and the length is untouched.
abbrev pub Delivers : List ℕ → ℕ → ℕ → List ℕ → Written → Type 0
Delivers output capacity n document (result, output', n') =
    (length document < limit capacity)
      × (result ≡ ok)
      × (output' ≡ (document ++ (0 ∷ [])) ++ drop (length document + 1) output)
      × (n' ≡ length document)
    ⊎ (limit capacity ≤ length document) × (result ≡ err_capacity) × (n' ≡ n)

pub envelope-Appends :
    (session_id : List ℕ) (id : ℕ) → Appends (envelope session_id id) (opening session_id id)
unfolding envelope
envelope-Appends session_id id =
    and_then-Appends
      (λ w.
        and_then (append_bytes w (codes "{\"session_id\":"))
          (append_escaped_string (some session_id)))
      (λ w.
        append_format w
          (codes ",\"type\":\"mcp\",\"payload\":{\"jsonrpc\":\"2.0\",\"id\":" ++ decimal 10 id []))
      (codes "{\"session_id\":" ++ quoted session_id)
      (codes ",\"type\":\"mcp\",\"payload\":{\"jsonrpc\":\"2.0\",\"id\":" ++ decimal 10 id [])
      (and_then-Appends (λ w. append_bytes w (codes "{\"session_id\":"))
        (append_escaped_string (some session_id)) (codes "{\"session_id\":") (quoted session_id)
        (append_bytes-Appends (codes "{\"session_id\":"))
        (append_escaped_string-Appends session_id))
      (append_format-Appends
        (codes ",\"type\":\"mcp\",\"payload\":{\"jsonrpc\":\"2.0\",\"id\":" ++ decimal 10 id []))

pub start-Holds :
    (output : List ℕ) (capacity : ℕ)
    → 0 < capacity
    → Holds output (limit capacity) (start output capacity) []
unfolding start
start-Holds output capacity h = record {
  fine = refl;
  size = refl;
  room = omega arith;
  bound = ground arith;
  text = unfold copy_at in refl;
}

pub finish-Delivers :
    (output document : List ℕ) (capacity n : ℕ) (w : Writer)
    → capacity ≤ length output
    → Holds output (limit capacity) w document
    → Delivers output capacity n document (finish w n)
unfolding finish
finish-Delivers output document capacity n w room v =
    let text = document ++ (0 ∷ []) in
    let size : length text ≡ length document + 1 = length-append document (0 ∷ []) in
    let written : w.buffer ≡ text ++ drop (length document + 1) output =
      v.text
      ∙ copy_at-zero output text (omega (arith, size, v.room))
      ∙ ap (λ (k : ℕ). text ++ drop k output) size in
    rw (v.fine) (inl (v.room, refl, written, v.size))

message-Delivers :
    (output session_id document : List ℕ) (capacity id n : ℕ) (rest : Step)
    → (0 < capacity) × (capacity ≤ length output)
    → 0 < id
    → Appends rest document
    → Delivers output capacity n
        (opening session_id id ++ document)
        (message output capacity (some session_id) (pos id) rest n)
unfolding message
message-Delivers output session_id document capacity id n rest room positive h =
    let writes =
      and_then-Appends (envelope session_id id) rest (opening session_id id) document
        (envelope-Appends session_id id) h output (limit capacity) (start output capacity) []
        (start-Holds output capacity room.0) in
    let there : (capacity == 0) ≡ false = ground arith in
    let positive' : (id == 0) ≡ false = ground arith in
    rw (there, positive')
      (elim writes [
        | inl done ↦ rw (done.0) (
            finish-Delivers output (opening session_id id ++ document) capacity n
              (and_then (envelope session_id id (start output capacity)) rest).0 room.1 done.1)
        | inr full ↦ rw (full.0) (inr (omega (arith, full.1), refl, refl))
      ])

result_steps-Appends :
    (result_json : List ℕ)
    → Appends (result_steps result_json) ((codes ",\"result\":" ++ result_json) ++ codes "}}")
unfolding result_steps
result_steps-Appends json = then_literal _ _ (codes "}}") (
    then_literal (λ w. append_bytes w (codes ",\"result\":")) _ json
      (append_bytes-Appends (codes ",\"result\":")))

-- For a session, a positive id, a result that passes the test for an object, and an output of the
-- stated capacity, vt_mcp_wire_write_result delivers the envelope with the result in it: exactly that
-- document with a terminator where it fits the capacity and the limit of 8000 bytes, else a capacity
-- error.
pub write_result-document :
    (output session_id result_json : List ℕ) (capacity id n : ℕ)
    → (0 < capacity) × (capacity ≤ length output)
    → 0 < id
    → valid_json_object (some result_json) ≡ true
    → Delivers output capacity n
        (opening session_id id ++ ((codes ",\"result\":" ++ result_json) ++ codes "}}"))
        (write_result output capacity (some session_id) (pos id) (some result_json) n)
unfolding write_result
write_result-document output session_id json capacity id n room positive valid = rw valid (
    message-Delivers output session_id ((codes ",\"result\":" ++ json) ++ codes "}}") capacity id n
      (result_steps json) room positive (result_steps-Appends json))

error_steps-Appends :
    (text : List ℕ)
    → Appends (error_steps text) ((codes ",\"error\":{\"message\":" ++ quoted text) ++ codes "}}}")
unfolding error_steps
error_steps-Appends text =
    let key = codes ",\"error\":{\"message\":" in
    then_literal _ _ (codes "}}}")
      (then_string (λ w. append_bytes w key) _ text (append_bytes-Appends key))

-- Under the same conditions vt_mcp_wire_write_error delivers the envelope with the message, escaped,
-- as its error.
write_error-document :
    (output session_id text : List ℕ) (capacity id n : ℕ)
    → (0 < capacity) × (capacity ≤ length output)
    → 0 < id
    → Delivers output capacity n
        (opening session_id id
          ++ ((codes ",\"error\":{\"message\":" ++ quoted text) ++ codes "}}}"))
        (write_error output capacity (some session_id) (pos id) (some text) n)
unfolding write_error
write_error-document output session_id text capacity id n room positive =
    message-Delivers output session_id
      ((codes ",\"error\":{\"message\":" ++ quoted text) ++ codes "}}}") capacity id n
      (error_steps text) room positive (error_steps-Appends text)

-- The result of an initialize request, and what closes the document.
abbrev pub initialize_text : List ℕ → List ℕ → List ℕ → List ℕ
initialize_text version name server =
    ((((((codes ",\"result\":" ++ codes "{\"protocolVersion\":") ++ quoted version)
            ++ codes ",\"capabilities\":{\"tools\":{}},\"serverInfo\":{\"name\":")
          ++ quoted name)
        ++ codes ",\"version\":")
      ++ quoted server)
    ++ codes "}}}}"

initialize_steps-Appends :
    (version name server : List ℕ)
    → Appends (initialize_steps version name server) (initialize_text version name server)
unfolding initialize_steps
initialize_steps-Appends version name server = then_literal _ _ (codes "}}}}") (
    then_string _ _ server (
      then_literal _ _ (codes ",\"version\":") (
        then_string _ _ name (
          then_literal _ _ (codes ",\"capabilities\":{\"tools\":{}},\"serverInfo\":{\"name\":") (
            then_string _ _ version (
              then_literal (λ w. append_bytes w (codes ",\"result\":")) _
                (codes "{\"protocolVersion\":") (append_bytes-Appends (codes ",\"result\":"))))))))

-- Under the same conditions vt_mcp_wire_write_initialize delivers the envelope with the protocol
-- version and the server's name and version, each escaped, in its result.
write_initialize-document :
    (output session_id version name server : List ℕ) (capacity id n : ℕ)
    → (0 < capacity) × (capacity ≤ length output)
    → 0 < id
    → Delivers output capacity n (opening session_id id ++ initialize_text version name server) (
        write_initialize output capacity
          (some session_id)
          (pos id)
          (some version)
          (some name)
          (some server)
          n)
unfolding write_initialize
write_initialize-document output session_id version name server capacity id n room positive =
    message-Delivers output session_id (initialize_text version name server) capacity id n
      (initialize_steps version name server) room positive
      (initialize_steps-Appends version name server)
