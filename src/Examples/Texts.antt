-- ===== src/Examples/Texts.antt =====
-- MCP messages at concrete strings.
use veetee_vuqb.Base.{
  ℕ, ◌≡◌, refl, true, some, List, [], ◌∷◌, ◌+◌, ◌++◌, replicate, arith, All, none, length,
}
use veetee_vuqb.Base.Text.{codes}
use veetee_vuqb.Base.Int.{pos}
use veetee_vuqb.McpWire.{valid_json_object}
use veetee_vuqb.McpWire.Messages.{write_result}
use veetee_vuqb.McpWire.Documents.{opening, Delivers, write_result-document}
use veetee_vuqb.Mcp.{Tool, Registry, zero_registry, tool_list}
use veetee_vuqb.McpWire.ToolsList.{write_tools_list}
use veetee_vuqb.McpWire.Pages.{IsListable}
use veetee_vuqb.McpWire.Listing.{Lists, page, list_text, write_tools_list-document}

abbrev output : List ℕ
output = replicate 120 255

abbrev object : List ℕ
object = codes "{\"on\":true} "

object_valid : valid_json_object (some object) ≡ true
unfolding valid_json_object
object_valid = refl

write_result-document_example :
    Delivers output 120 0
      (opening (codes "s1") 7 ++ ((codes ",\"result\":" ++ object) ++ codes "}}"))
      (write_result output 120 (some (codes "s1")) (pos 7) (some object) 0)
write_result-document_example =
    write_result-document output (codes "s1") object 120 7 0 (omega arith, omega arith)
      (omega arith) object_valid

abbrev awkward : List ℕ
awkward = b'"' ∷ 31 ∷ b'\\' ∷ 10 ∷ 200 ∷ []

abbrev lamp : Tool
lamp = record {
  name = some (codes "lamp");
  description = none;
  input_schema_json = some (codes "{}");
  invoke = some 1;
}

abbrev fan : Tool
fan = record lamp { name = some (codes "fan"); description = some (codes "a \"fan\"") }

lamp-IsListable : IsListable lamp
unfolding valid_json_object
lamp-IsListable = record {
  name = codes "lamp";
  named = refl;
  schema = codes "{}";
  described = refl;
  valid = refl;
}

fan-IsListable : IsListable fan
unfolding valid_json_object
fan-IsListable = record {
  name = codes "fan";
  named = refl;
  schema = codes "{}";
  described = refl;
  valid = refl;
}

abbrev registry : Registry
registry = record zero_registry { tools = some (lamp ∷ fan ∷ []); tool_count = 2 }

tool_list-IsListable : All IsListable (tool_list registry)
unfolding tool_list
tool_list-IsListable = (lamp-IsListable, (fan-IsListable, tt))

abbrev wide : List ℕ
wide = replicate 400 0

write_tools_list-document_example :
    Lists wide 400
      (0 + length (page registry 0 1))
      9
      0
      (list_text (codes "s1") 7 registry 0 1)
      (write_tools_list wide 400 (some (codes "s1")) (pos 7) registry 0 1 9 0)
write_tools_list-document_example =
    write_tools_list-document wide (codes "s1") 400 7 9 0 0 1 registry (lamp ∷ fan ∷ [])
      (omega arith, omega arith) (omega arith) (omega arith) refl (omega arith) tool_list-IsListable
