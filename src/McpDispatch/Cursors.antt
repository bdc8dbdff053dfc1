-- ===== src/McpDispatch/Cursors.antt =====
-- cursor_index: the cursor that a client sends names the tool that its next page begins with.
use veetee_vuqb.Base.{
  ℕ, zero, suc, ◌+◌, ◌≤◌, ◌<◌, ◌≡◌, sym, ap, ◌∙◌, true, false, arith, some, List, [], ◌∷◌, length,
  length-take, take, get_elem?, Bool-cases, inl, inr, leb,
}
use veetee_vuqb.Base.Keys.{Distinct_at}
use veetee_vuqb.Base.Text.{codes}
use veetee_vuqb.Mcp.{Tool, Registry, has_name, registry_tool_at}
use veetee_vuqb.Mcp.Setup.{NamesDiffer, name_of, get_elem?-take, has_name_iff}
use veetee_vuqb.Json.{CJson}
use veetee_vuqb.McpDispatch.{cursor_from, cursor_index}

-- The tools that the loop still has to read are `os`.
cursor_from_at :
    (registry : Registry) (os : List Tool) (index i : ℕ) (t : Tool) (name : List ℕ)
    → ((k : ℕ) → k < length os → registry_tool_at registry (index + k) ≡ get_elem? os k)
    → NamesDiffer os
    → get_elem? os i ≡ some t
    → t.name ≡ some name
    → cursor_from (length os) registry index name ≡ some (index + i)
unfolding cursor_from has_name
cursor_from_at registry [] index i t name w d e n = absurd (cc)
cursor_from_at registry (o ∷ os) index zero t name w d e n =
    let origin : index ≡ index + 0 = omega arith in
    let read : registry_tool_at registry index ≡ some o =
      ap (registry_tool_at registry) origin ∙ w 0 (omega arith) in
    let same : o ≡ t = cc in
    rw (cursor_from, read, (has_name_iff o name).1 (ap (λ (x : Tool). x.name) same ∙ n))
      (ap some origin)
cursor_from_at registry (o ∷ os) index (suc i) t name w d e n =
    let origin : index ≡ index + 0 = omega arith in
    let read : registry_tool_at registry index ≡ some o =
      ap (registry_tool_at registry) origin ∙ w 0 (omega arith) in
    elim (Bool-cases (has_name o name)) [
      | inl q ↦ absurd (Distinct_at name_of o os i t d.0 e (n ∙ sym ((has_name_iff o name).0 q)))
      | inr q ↦
          let next : (k : ℕ)
              → k < length os
              → registry_tool_at registry (index + 1 + k) ≡ get_elem? os k =
            λ k h.
              let place : index + 1 + k ≡ index + suc k = omega arith in
              ap (registry_tool_at registry) place ∙ w (suc k) (omega arith) in
          let shift : index + suc i ≡ index + 1 + i = omega arith in
          rw (cursor_from, read, q)
            (cursor_from_at registry os (index + 1) i t name next d.1 e n ∙ ap some (sym shift))
    ]

tool_at_taken :
    (registry : Registry) (tools : List Tool) (k : ℕ)
    → registry.tools ≡ some tools
    → k < registry.tool_count
    → registry_tool_at registry k ≡ get_elem? (take registry.tool_count tools) k
unfolding registry_tool_at
tool_at_taken registry tools k given h =
    let same = get_elem?-take tools registry.tool_count k h in
    let off : leb registry.tool_count k ≡ false = ground arith in rw (off, given) (sym same)

-- In a registry whose tools' names differ, with an array that holds them all, the cursor that is the
-- name of the tool at an index stands for that very index: the page that a client asks for begins with
-- the tool where the previous page stopped, whatever else the request's parameters hold.
cursor_index_at :
    (j : CJson) (registry : Registry) (tools : List Tool) (i : ℕ) (t : Tool) (name : List ℕ)
    (params cursor : j.Value)
    → registry.tools ≡ some tools
    → registry.tool_count ≤ length tools
    → NamesDiffer (take registry.tool_count tools)
    → registry_tool_at registry i ≡ some t
    → t.name ≡ some name
    → j.item params (codes "cursor") ≡ some cursor
    → j.is_string cursor ≡ true
    → j.valuestring cursor ≡ some name
    → cursor_index j registry (some params) ≡ some i
unfolding cursor_index registry_tool_at
cursor_index_at j registry tools i t name params cursor given h differ at named found text valued =
    let n = registry.tool_count in
    let below : i < n = ground arith in
    let here : get_elem? tools i ≡ some t = ground arith in
    let size : length (take n tools) ≡ n = omega (arith, length-take n tools, h) in
    let reads : (k : ℕ)
        → k < length (take n tools)
        → registry_tool_at registry (0 + k) ≡ get_elem? (take n tools) k =
      λ k below.
        let inside : k < n = omega (arith, size) in
        let start : 0 + k ≡ k = omega arith in
        ap (registry_tool_at registry) start ∙ tool_at_taken registry tools k given inside in
    let last : 0 + i ≡ i = omega arith in
    rw (cursor_index, found, text, valued)
      (ap (λ m. cursor_from m registry 0 name) (sym size)
        ∙ cursor_from_at registry (take n tools) 0 i t name reads differ
            (get_elem?-take tools n i below ∙ here) named
        ∙ ap some last)
