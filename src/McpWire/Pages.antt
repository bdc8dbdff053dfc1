-- ===== src/McpWire/Pages.antt =====
-- The page of tools that vt_mcp_wire_write_tools_list writes.
use veetee_vuqb.Base.{
  ℕ, zero, suc, ◌+◌, ◌≤◌, ◌≡◌, inl, inr, refl, sym, ◌∙◌, Bool, true, false, arith, Option, none,
  some, List, [], ◌∷◌, ◌++◌, length, get_elem?, take, drop, append-nil, leb, Bool-cases,
  length-take,
}
use veetee_vuqb.Base.Text.{codes}
use veetee_vuqb.Mcp.{Tool, Registry, tool_list, registry_tool_at}
use veetee_vuqb.Mcp.Setup.{get_elem?-take}
use veetee_vuqb.McpWire.{valid_json_object}
use veetee_vuqb.McpWire.Appending.{Appends, append_bytes-Appends, quoted, then_literal, then_string}
use veetee_vuqb.McpWire.ToolsList.{text_of, comma, append_comma, tool_steps}

-- A tool that can be listed: it has a name, and a schema that passes the test for an object.
pub record IsListable (tool : Tool) : Type 0 where
  pub name : List ℕ
  pub named : tool.name ≡ some name
  pub schema : List ℕ
  pub described : tool.input_schema_json ≡ some schema
  pub valid : valid_json_object (some schema) ≡ true

-- A tool in the list, behind a comma unless it is the first of the page.
abbrev pub tool_text : Bool → Tool → List ℕ
tool_text later tool =
    ((((((comma later ++ codes "{\"name\":") ++ quoted (text_of tool.name))
            ++ codes ",\"description\":")
          ++ quoted (text_of tool.description))
        ++ codes ",\"inputSchema\":")
      ++ text_of tool.input_schema_json)
    ++ codes "}"

unfoldable pub page_text : Bool → List Tool → List ℕ
page_text later [] = []
page_text later (tool ∷ tools) = tool_text later tool ++ page_text true tools

append_comma-Appends : (later : Bool) → Appends (append_comma later) (comma later)
append_comma-Appends true output c w t v = append_bytes-Appends (codes ",") output c w t v
append_comma-Appends false output c w t v = inl (refl, rw (append-nil t) v)

pub tool_steps-Appends :
    (later : Bool) (tool : Tool) (v : IsListable tool)
    → Appends (tool_steps later tool v.schema) (tool_text later tool)
unfolding tool_steps
tool_steps-Appends later tool v =
    rw (v.named, v.described)
      (then_literal _ _ (codes "}") (
        then_literal _ _ v.schema (
          then_literal _ _ (codes ",\"inputSchema\":") (
            then_string _ _ (text_of tool.description) (
              then_literal _ _ (codes ",\"description\":") (
                then_string _ _ v.name (
                  then_literal (append_comma later) _ (codes "{\"name\":")
                    (append_comma-Appends later))))))))

abbrev pub first_tool : List Tool → Option Tool
first_tool [] = none
first_tool (tool ∷ tools) = some tool

first_tool-drop : (tools : List Tool) (i : ℕ) → get_elem? tools i ≡ first_tool (drop i tools)
first_tool-drop [] zero = refl
first_tool-drop [] (suc i) = refl
first_tool-drop (x ∷ xs) zero = refl
first_tool-drop (x ∷ xs) (suc i) = first_tool-drop xs i

get_elem?-none : (tools : List Tool) (i : ℕ) → length tools ≤ i → get_elem? tools i ≡ none
get_elem?-none [] i h = refl
get_elem?-none (x ∷ xs) zero h = absurd (omega arith)
get_elem?-none (x ∷ xs) (suc i) h = get_elem?-none xs i (omega arith)

-- The tool at an index is the first of the tools from there on.
pub tool_at-drop :
    (registry : Registry) (tools : List Tool) (i : ℕ)
    → registry.tools ≡ some tools
    → registry_tool_at registry i ≡ first_tool (drop i (tool_list registry))
unfolding registry_tool_at tool_list
tool_at-drop registry tools i given =
    let n = registry.tool_count in
    rw given (elim (Bool-cases (leb n i)) [
      | inl past ↦ rw past (
          sym (
            sym (first_tool-drop (take n tools) i)
            ∙ get_elem?-none (take n tools) i (ground (arith, past, length-take n tools))))
      | inr inside ↦ rw inside (
          sym (get_elem?-take tools n i (ground (arith, inside)))
          ∙ first_tool-drop (take n tools) i)
    ])

pub drop-next :
    (tools : List Tool) (i : ℕ) (x : Tool) (xs : List Tool)
    → drop i tools ≡ x ∷ xs
    → drop (i + 1) tools ≡ xs
drop-next [] zero x xs h = absurd (cc)
drop-next [] (suc i) x xs h = absurd (cc)
drop-next (y ∷ ys) zero x xs h = let one : 0 + 1 ≡ 1 = refl in cc
drop-next (y ∷ ys) (suc i) x xs h =
    let e : suc i + 1 ≡ suc (i + 1) = omega arith in rw e (drop-next ys i x xs h)

pub length-drop_all : (tools : List Tool) (i : ℕ) → drop i tools ≡ [] → length tools ≤ i
length-drop_all [] i h = omega arith
length-drop_all (y ∷ ys) zero h = absurd (cc)
length-drop_all (y ∷ ys) (suc i) h = omega (arith, length-drop_all ys i h)
