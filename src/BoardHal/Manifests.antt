-- ===== src/BoardHal/Manifests.antt =====
-- Which manifests vt_board_hal_validate accepts.
use veetee_vuqb.Base.{
  ◌≤◌, ◌<◌, ◌≡◌, ◌↔◌, ◌⊎◌, inl, inr, refl, sym, ap, ◌∙◌, Bool, true, false, arith, Option, none,
  some, List, [], length, take, All, take-all, length-take,
}
use veetee_vuqb.Base.Keys.{Distinct, Fresh-nil}
use veetee_vuqb.Mcp.{McpResult, max_tools, Tool, zero_registry, registry_init, is_null}
use veetee_vuqb.Mcp.Setup.{Given, IsTool, NamesDiffer, is_null_iff, registry_init_iff}
use veetee_vuqb.BoardHal.{
  max_capabilities, HalResult, ok, Descriptor, Manifest, validate_from, list_of, validate_tools,
  validate,
}
use veetee_vuqb.BoardHal.Descriptors.{
  IsDescriptor, id_of, tools_of, validate_from_sound, validate_from_complete, length-tools_of,
}

-- A manifest whose parts fit the board.
pub record IsManifest (m : Manifest) : Type 0 where
  pub revised : 0 < m.capability_revision
  pub counted : m.capability_count ≤ max_capabilities
  pub given : (m.capability_count ≡ 0) ⊎ Given m.capabilities
  pub described : All IsDescriptor (take m.capability_count (list_of m.capabilities))
  pub ids_differ : Distinct id_of (take m.capability_count (list_of m.capabilities))
  pub are_tools : All IsTool (tools_of (take m.capability_count (list_of m.capabilities)))
  pub names_differ : NamesDiffer (tools_of (take m.capability_count (list_of m.capabilities)))

registry_accepts_iff :
    (tools : List Tool)
    → ((registry_init zero_registry (some tools) (length tools)).0 ≡ McpResult.ok)
      ↔ ((length tools ≤ max_tools) × All IsTool tools × NamesDiffer tools)
registry_accepts_iff tools =
    let accepted = (registry_init_iff zero_registry tools (length tools) (omega arith)).0 in
    let whole : take (length tools) tools ≡ tools = take-all (length tools) tools (omega arith) in
    (
      λ h.
          let (small, valid, distinct) = accepted.0 h in
          (small, rw (← whole) valid, rw (← whole) distinct),
      λ h. accepted.1 (h.0, rw whole h.1, rw whole h.2),
    )

validate_tools_iff :
    (tools : List Tool)
    → length tools ≤ max_tools
    → (validate_tools true (ok, tools) ≡ ok) ↔ (All IsTool tools × NamesDiffer tools)
unfolding validate_tools
validate_tools_iff tools small =
    let accepts = registry_accepts_iff tools in
    (
      λ h. let a = accepts.0 (ground arith) in (a.1, a.2),
      λ h. let a = accepts.1 (small, h.0, h.1) in ground (arith, a),
    )

validate_tools_fails :
    (allocated : Bool) (out : HalResult × List Tool)
    → validate_tools allocated out ≡ ok
    → out.0 ≡ ok
unfolding validate_tools
validate_tools_fails allocated out h = ground arith

-- The part of vt_board_hal_validate behind the tests of revision and count.
validate_loop_iff :
    (cs : List Descriptor)
    → length cs ≤ max_capabilities
    → (validate_tools true (validate_from [] [] cs) ≡ ok) ↔ (
        All IsDescriptor cs
        × Distinct id_of cs
        × All IsTool (tools_of cs)
        × NamesDiffer (tools_of cs))
validate_loop_iff cs small = (
  λ h.
      let sound =
        validate_from_sound [] [] cs (validate_tools_fails true (validate_from [] [] cs) h) in
      let whole = validate_from_complete [] [] cs sound.0 (Fresh-nil id_of cs) sound.2 in
      let size = length-tools_of cs sound.0 in
      let tools =
        (validate_tools_iff (tools_of cs) (omega (arith, size))).0
          (ap (validate_tools true) (sym whole) ∙ h) in
      (sound.0, sound.2, tools.0, tools.1),
  λ h.
      let whole = validate_from_complete [] [] cs h.0 (Fresh-nil id_of cs) h.1 in
      let size = length-tools_of cs h.0 in
      ap (validate_tools true) whole
      ∙ (validate_tools_iff (tools_of cs) (omega (arith, size))).1 (h.2, h.3),
)

is_null_cases : (o : Option (List Descriptor)) → (is_null o ≡ true) ⊎ Given o
is_null_cases none = inl refl
is_null_cases (some x) = inr tt

-- Where memory for the trial registry is there, vt_board_hal_validate accepts exactly the manifests
-- with a revision, at most 16 capabilities, given unless there are none, each with an id of 1 to 63
-- bytes, an owner of 1 to 31, a tool, a timeout of 1 to 60000 ms and a safety class of at most 3, no
-- two with one id, whose tools have a name of 1 to 63 bytes and a callback, no two with one name.
pub validate_iff : (m : Manifest) → (validate true m ≡ ok) ↔ IsManifest m
unfolding validate
validate_iff m =
    let cs = take m.capability_count (list_of m.capabilities) in
    let size = length-take m.capability_count (list_of m.capabilities) in
    (
      λ h.
          let small : m.capability_count ≤ max_capabilities = ground arith in
          let loop = (validate_loop_iff cs (omega (arith, size))).0 (ground arith) in
          record {
            revised = ground arith;
            counted = small;
            given = elim (is_null_cases m.capabilities) [
              | inl e ↦ inl (ground (arith, e))
              | inr g ↦ inr g
            ];
            described = loop.0;
            ids_differ = loop.1;
            are_tools = loop.2;
            names_differ = loop.3;
          },
      λ v.
          let loop =
            (validate_loop_iff cs (omega (arith, size, v.counted))).1
              (v.described, v.ids_differ, v.are_tools, v.names_differ) in
          let null : (m.capability_count ≡ 0) ⊎ (is_null m.capabilities ≡ false) = elim v.given [
            | inl e ↦ inl e
            | inr g ↦ inr ((is_null_iff m.capabilities).1 g)
          ] in
          ground (arith, loop, null, v.revised, v.counted),
    )
