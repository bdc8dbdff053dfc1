-- ===== src/McpWire/Rounds.antt =====
-- What the loop of vt_mcp_wire_write_tools_list writes.
use veetee_vuqb.Base.{
  ℕ, zero, suc, ◌+◌, ◌≤◌, ◌≡◌, ◌⊎◌, inl, inr, refl, ap, ◌∙◌, Bool, true, false, arith, Option, none,
  some, List, [], ◌∷◌, ◌++◌, length, take, drop, All, length-append, append_assoc, append-nil,
  if◌then◌else◌, ltb, length-take,
}
use veetee_vuqb.Mcp.{Tool, Registry, tool_list, registry_tool_at}
use veetee_vuqb.McpWire.{ok, err_capacity, Writer}
use veetee_vuqb.McpWire.Appending.{Holds}
use veetee_vuqb.McpWire.ToolsList.{tool_steps, Progress, emit_tool, emit_tools}
use veetee_vuqb.McpWire.Pages.{
  IsListable, tool_text, page_text, tool_steps-Appends, first_tool, tool_at-drop, drop-next,
  length-drop_all,
}

-- How far the loop came: the whole page is in the writer, or it did not fit.
abbrev pub Emits : List ℕ → ℕ → ℕ → List ℕ → Bool → List Tool → Progress → Type 0
Emits output c index t later page (status, w, index') =
    (status ≡ ok) × (index' ≡ index + length page) × Holds output c w (t ++ page_text later page)
    ⊎ (status ≡ err_capacity) × (c ≤ length t + length (page_text later page))

-- A round with a tool that can be listed.
emit_tools-listable :
    (registry : Registry) (left index : ℕ) (later : Bool) (w : Writer) (x : Tool) (v : IsListable x)
    → registry_tool_at registry index ≡ some x
    → let (w', appended) = tool_steps later x v.schema w in
      emit_tools (suc left) registry index later w ≡ (
        if appended
        then emit_tools left registry (index + 1) true w'
        else (err_capacity, w', index))
unfolding emit_tools
emit_tools-listable registry left index later w x v here =
    rw (emit_tools, here)
      (by_schema x.input_schema_json v.described (emit_tools left registry (index + 1) true))
  where
    by_schema :
        (o : Option (List ℕ))
        → o ≡ some v.schema
        → (next : Writer → Progress)
        → let (w', appended) = tool_steps later x v.schema w in
          emit_tool later index w x o next
          ≡ (if appended then next w' else (err_capacity, w', index))
    by_schema o e next = rw e (unfold emit_tool in rw (v.valid) refl)

module _ (registry : Registry) (tools : List Tool) (given : registry.tools ≡ some tools)
    (readable : registry.tool_count ≤ length tools) (output : List ℕ) (c : ℕ) where
  pub emit_tools-page :
      (left index : ℕ) (later : Bool) (w : Writer) (t : List ℕ) (rest : List Tool)
      → drop index (tool_list registry) ≡ rest
      → All IsListable rest
      → Holds output c w t
      → Emits output c index t later (take left rest) (emit_tools left registry index later w)
  unfolding emit_tools page_text
  emit_tools-page zero index later w t rest e v h = inl (refl, omega arith, rw (append-nil t) h)
  emit_tools-page (suc left) index later w t [] e v h =
      let here : registry_tool_at registry index ≡ none =
        tool_at-drop registry tools index given ∙ ap first_tool e in
      let past : ltb index registry.tool_count ≡ false =
        ground (arith, length-drop_all (tool_list registry) index e, length-tool_list) in
      rw (emit_tools, here, past) (inl (refl, omega arith, rw (append-nil t) h))
    where
      length-tool_list : length (tool_list registry) ≡ registry.tool_count
      length-tool_list =
          unfold tool_list in
          rw given (omega (arith, length-take registry.tool_count tools, readable))
  emit_tools-page (suc left) index later w t (x ∷ xs) e v h =
      let here : registry_tool_at registry index ≡ some x =
        tool_at-drop registry tools index given ∙ ap first_tool e in
      rw (emit_tools-listable registry left index later w x v.0 here) (
        by_step (tool_steps later x v.0.schema w) (tool_steps-Appends later x v.0 output c w t h)
          (λ w' h'.
            emit_tools-page left (index + 1) true w' (t ++ tool_text later x) xs
              (drop-next (tool_list registry) index x xs e) v.1 h'))
    where
      by_step :
          (out : Writer × Bool)
          → (out.1 ≡ true) × Holds output c out.0 (t ++ tool_text later x)
            ⊎ (out.1 ≡ false) × (c ≤ length t + length (tool_text later x))
          → ((w' : Writer)
              → Holds output c w' (t ++ tool_text later x)
              → Emits output c
                  (index + 1)
                  (t ++ tool_text later x)
                  true
                  (take left xs)
                  (emit_tools left registry (index + 1) true w'))
          → Emits output c index t later (x ∷ take left xs) (
              if out.1
              then emit_tools left registry (index + 1) true out.0
              else (err_capacity, out.0, index))
      by_step (w', true) (inl done) next = elim (next w' done.1) [
        | inl whole ↦ inl (
          whole.0,
          omega (arith, whole.1),
          rw (← append_assoc t (tool_text later x) (page_text true (take left xs))) whole.2,
        )
        | inr full ↦ inr (
          full.0,
          omega (
            arith,
            full.1,
            length-append t (tool_text later x),
            length-append (tool_text later x) (page_text true (take left xs)),
          ),
        )
      ]
      by_step (w', false) (inl done) next = cc (done.0)
      by_step (w', true) (inr full) next = cc (full.0)
      by_step (w', false) (inr full) next = inr (
        refl,
        omega (arith, full.1, length-append (tool_text later x) (page_text true (take left xs))),
      )
