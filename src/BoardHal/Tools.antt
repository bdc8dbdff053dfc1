-- ===== src/BoardHal/Tools.antt =====
-- The tools that the active manifest hands to the MCP registry.
use veetee_vuqb.Base.{
  ℕ, suc, ◌+◌, ◌-◌, ◌≤◌, ◌≡◌, ◌≢◌, inl, inr, refl, ap, ◌∙◌, Bool, true, false, not, arith, Option,
  none, some, List, [], ◌∷◌, ◌++◌, length, get_elem?, take, drop, All, All-append, All-parts,
  Bool-cases, length-take, take-length_append, length-append, set, if◌then◌else◌, ◌==◌,
}
use veetee_vuqb.Base.Buffer.{copy_at, copy_at-zero}
use veetee_vuqb.Mcp.{McpResult, Tool, Registry, registry_init}
use veetee_vuqb.Mcp.Setup.{Given, IsTool, NamesDiffer, name_of, registry_init_iff}
use veetee_vuqb.BoardHal.{ok, Capability, Hal, tool_of}
use veetee_vuqb.BoardHal.Lookup.{
  active, count_enabled, tool_count, tool_from, tool_at, put_tool, copy_from, copy_tools,
}
use veetee_vuqb.BoardHal.Activation.{all_tools, IsActive}

-- The tools of the enabled ones, in order.
abbrev pub enabled_tools : List Capability → List Tool
enabled_tools [] = []
enabled_tools (c ∷ cs) =
    let rest = enabled_tools cs in elim c.enabled [ true ↦ tool_of c.tool ++ rest | false ↦ rest ]

count_enabled_lem :
    (cs : List Capability) (n : ℕ)
    → All (λ (c : Capability). Given c.tool) cs
    → count_enabled cs n ≡ n + length (enabled_tools cs)
unfolding count_enabled
count_enabled_lem [] n v = omega arith
count_enabled_lem (c ∷ cs) n v = by_parts c.enabled c.tool v.0 (λ m. count_enabled_lem cs m v.1)
  where
    by_parts :
        (b : Bool) (o : Option Tool)
        → Given o
        → ((m : ℕ) → count_enabled cs m ≡ m + length (enabled_tools cs))
        → count_enabled cs (if b then n + 1 else n)
          ≡ n + length (elim b [ true ↦ tool_of o ++ enabled_tools cs | false ↦ enabled_tools cs ])
    by_parts false o g rest = rest n
    by_parts true none g rest = absurd g
    by_parts true (some t) g rest = omega (arith, rest (n + 1))

copy_from_lem :
    (cs : List Capability) (tools : List Tool) (i : ℕ)
    → All (λ (c : Capability). Given c.tool) cs
    → copy_from cs tools i ≡ copy_at tools i (enabled_tools cs)
unfolding copy_from copy_at
copy_from_lem [] tools i v = refl
copy_from_lem (c ∷ cs) tools i v = by_parts c.enabled c.tool v.0 (λ b j. copy_from_lem cs b j v.1)
  where
    by_parts :
        (b : Bool) (o : Option Tool)
        → Given o
        → ((buffer : List Tool) (j : ℕ)
            → copy_from cs buffer j ≡ copy_at buffer j (enabled_tools cs))
        → (if b then copy_from cs (put_tool tools i o) (i + 1) else copy_from cs tools i)
          ≡ copy_at tools i
              (elim b [ true ↦ tool_of o ++ enabled_tools cs | false ↦ enabled_tools cs ])
    by_parts false o g rest = rest tools i
    by_parts true none g rest = absurd g
    by_parts true (some t) g rest = rest (set tools i t) (i + 1)

tool_from_lem :
    (cs : List Capability) (k index : ℕ)
    → All (λ (c : Capability). Given c.tool) cs
    → k ≤ index
    → tool_from cs k index ≡ get_elem? (enabled_tools cs) (index - k)
unfolding tool_from
tool_from_lem [] k index v h = refl
tool_from_lem (c ∷ cs) k index v h =
    by_parts c.enabled c.tool v.0 (λ j le. tool_from_lem cs j index v.1 le)
  where
    by_parts :
        (b : Bool) (o : Option Tool)
        → Given o
        → ((j : ℕ) → j ≤ index → tool_from cs j index ≡ get_elem? (enabled_tools cs) (index - j))
        → (if not b
            then tool_from cs k index
            else if k == index
            then o
            else tool_from cs (k + 1) index)
          ≡ get_elem?
              (elim b [ true ↦ tool_of o ++ enabled_tools cs | false ↦ enabled_tools cs ])
              (index - k)
    by_parts false o g rest = rest k h
    by_parts true none g rest = absurd g
    by_parts true (some t) g rest = elim (Bool-cases (k == index)) [
      | inl e ↦ let zero' : index - k ≡ 0 = ground arith in rw (e, zero') refl
      | inr e ↦
          let later : suc k ≤ index = ground arith in
          let one : index - k ≡ suc (index - (k + 1)) = omega arith in
          rw (e, one) (rest (k + 1) (omega arith))
    ]

All-enabled :
    (P : Tool → Type 0) (cs : List Capability) → All P (all_tools cs) → All P (enabled_tools cs)
All-enabled P [] v = tt
All-enabled P (c ∷ cs) v =
    let parts = All-parts P (tool_of c.tool) (all_tools cs) v in
    by_parts c.enabled parts.0 (All-enabled P cs parts.1)
  where
    by_parts :
        (b : Bool)
        → All P (tool_of c.tool)
        → All P (enabled_tools cs)
        → All P (elim b [ true ↦ tool_of c.tool ++ enabled_tools cs | false ↦ enabled_tools cs ])
    by_parts false a b = b
    by_parts true a b = All-append P (tool_of c.tool) (enabled_tools cs) a b

Distinct-enabled :
    (cs : List Capability) → NamesDiffer (all_tools cs) → NamesDiffer (enabled_tools cs)
Distinct-enabled [] v = tt
Distinct-enabled (c ∷ cs) v = by_parts c.enabled c.tool v (λ w. Distinct-enabled cs w)
  where
    by_parts :
        (b : Bool) (o : Option Tool)
        → NamesDiffer (tool_of o ++ all_tools cs)
        → (NamesDiffer (all_tools cs) → NamesDiffer (enabled_tools cs))
        → NamesDiffer (elim b [ true ↦ tool_of o ++ enabled_tools cs | false ↦ enabled_tools cs ])
    by_parts false none v rest = rest v
    by_parts false (some t) v rest = rest v.1
    by_parts true none v rest = rest v
    by_parts true (some t) v rest =
        (All-enabled (λ (later : Tool). name_of later ≢ name_of t) cs v.0, rest v.1)

length-enabled_tools :
    (cs : List Capability)
    → All (λ (c : Capability). Given c.tool) cs
    → length (enabled_tools cs) ≤ length cs
length-enabled_tools [] v = omega arith
length-enabled_tools (c ∷ cs) v = by_parts c.enabled c.tool v.0 (length-enabled_tools cs v.1)
  where
    by_parts :
        (b : Bool) (o : Option Tool)
        → Given o
        → length (enabled_tools cs) ≤ length cs
        → length (elim b [ true ↦ tool_of o ++ enabled_tools cs | false ↦ enabled_tools cs ])
          ≤ suc (length cs)
    by_parts false o g h = omega arith
    by_parts true none g h = absurd g
    by_parts true (some t) g h = omega arith

-- From an active manifest, with a buffer that holds them, vt_board_hal_copy_tools copies the tools of
-- the enabled capabilities, in order, to the start of the buffer, leaves the rest alone and reports
-- their number; vt_board_hal_tool_at gives the same tool at each index, and none behind the last.
pub copy_tools-enabled :
    (hal : Hal) (tools : List Tool) (capacity : ℕ)
    → IsActive hal
    → length (enabled_tools (active hal)) ≤ capacity
    → capacity ≤ length tools
    → let enabled = enabled_tools (active hal) in
      (copy_tools hal tools capacity ≡ (ok, enabled ++ drop (length enabled) tools, length enabled))
      × ((index : ℕ) → tool_at hal index ≡ get_elem? enabled index)
unfolding copy_tools
copy_tools-enabled hal tools capacity v room writable =
    let enabled = enabled_tools (active hal) in
    let count : tool_count hal ≡ length enabled =
      count_enabled_lem (active hal) 0 v.have_tools ∙ omega arith in
    let copied =
      copy_from_lem (active hal) tools 0 v.have_tools ∙ copy_at-zero tools enabled (omega arith) in
    (
      ground (arith, count, copied, room),
      λ index.
          let e : index - 0 ≡ index = omega arith in
          tool_from_lem (active hal) 0 index v.have_tools (omega arith) ∙ ap (get_elem? enabled) e,
    )

-- The tools that vt_board_hal_copy_tools takes from an active manifest are always accepted by
-- vt_mcp_registry_init.
pub registry_init-copy_tools :
    (hal : Hal) (tools : List Tool) (capacity : ℕ) (registry : Registry)
    → IsActive hal
    → length (enabled_tools (active hal)) ≤ capacity
    → capacity ≤ length tools
    → let (result, copied, count) = copy_tools hal tools capacity in
      (registry_init registry (some copied) count).0 ≡ McpResult.ok
registry_init-copy_tools hal tools capacity registry v room writable =
    let enabled = enabled_tools (active hal) in
    let rest = drop (length enabled) tools in
    let copied = (copy_tools-enabled hal tools capacity v room writable).0 in
    let front : take (length enabled) (enabled ++ rest) ≡ enabled =
      take-length_append enabled rest in
    let small = length-enabled_tools (active hal) v.have_tools in
    let size = length-take hal.capability_count hal.capabilities in
    let accepted =
      registry_init_iff registry (enabled ++ rest) (length enabled)
        (omega (arith, length-append enabled rest)) in
    rw copied (
      accepted.0.1 (
        omega (arith, small, size, v.counted),
        rw front (All-enabled IsTool (active hal) v.are_tools),
        rw front (Distinct-enabled (active hal) v.names_differ),
      ))
