-- ===== src/McpWire/Listing.antt =====
-- The document that vt_mcp_wire_write_tools_list writes.
use veetee_vuqb.Base.{
  ℕ, zero, suc, ◌+◌, ◌≤◌, ◌<◌, ◌≡◌, ◌⊎◌, inl, inr, refl, sym, ◌∙◌, Bool, true, false, ◌==◌, arith,
  Option, none, some, List, [], ◌∷◌, ◌++◌, length, take, drop, All, length-append, append_assoc,
  if◌then◌else◌, ltb, not,
}
use veetee_vuqb.Base.Text.{codes}
use veetee_vuqb.Base.Int.{pos}
use veetee_vuqb.Mcp.{Tool, Registry, tool_list, registry_tool_at}
use veetee_vuqb.McpWire.{ok, err_capacity, Writer, and_then, append_bytes}
use veetee_vuqb.McpWire.Messages.{envelope, start}
use veetee_vuqb.McpWire.Appending.{
  Holds, Appends, append_bytes-Appends, quoted, then_literal, then_string,
}
use veetee_vuqb.McpWire.Documents.{opening, limit, envelope-Appends, start-Holds, finish-Delivers}
use veetee_vuqb.McpWire.ToolsList.{
  close, close_tools, default_page_size, text_of, Progress, emit_tools, cursor_steps, Listed,
  end_tools, list_tools, write_tools_list,
}
use veetee_vuqb.McpWire.Pages.{IsListable, page_text, first_tool, tool_at-drop}
use veetee_vuqb.McpWire.Rounds.{Emits, emit_tools-page}

-- What stands behind the page: the cursor where there is a next tool, and the end of the document.
abbrev pub end_text : Option Tool → List ℕ
end_text none = codes "]" ++ codes "}}}"
end_text (some tool) =
    codes "]" ++ ((codes ",\"nextCursor\":" ++ quoted (text_of tool.name)) ++ codes "}}}")

-- The document is delivered as in Delivers, with the next index beside it; where it does not fit,
-- neither the length nor the next index is touched.
abbrev pub Lists : List ℕ → ℕ → ℕ → ℕ → ℕ → List ℕ → Listed → Type 0
Lists output capacity index m n document (result, output', index', n') =
    (length document < limit capacity)
      × (result ≡ ok)
      × (output' ≡ (document ++ (0 ∷ [])) ++ drop (length document + 1) output)
      × (index' ≡ index)
      × (n' ≡ length document)
    ⊎ (limit capacity ≤ length document) × (result ≡ err_capacity) × (index' ≡ m) × (n' ≡ n)

-- What a step leaves on a writer that holds `t`.
abbrev Leaves : List ℕ → ℕ → List ℕ → List ℕ → Writer × Bool → Type 0
Leaves output c t a out =
    (out.1 ≡ true) × Holds output c out.0 (t ++ a) ⊎ (out.1 ≡ false) × (c ≤ length t + length a)

module _ (output : List ℕ) (capacity index m n : ℕ) (room : capacity ≤ length output) where
  close-Lists :
      (t a : List ℕ) (out : Writer × Bool)
      → Leaves output (limit capacity) t a out
      → Lists output capacity index m n (t ++ a) (close out index m n)
  close-Lists t a (w, false) (inl done) = cc (done.0)
  close-Lists t a (w, true) (inr full) = cc (full.0)
  close-Lists t a (w, false) (inr full) =
      inr (omega (arith, full.1, length-append t a), refl, refl, refl)
  close-Lists t a (w, true) (inl done) =
      elim (finish-Delivers output (t ++ a) capacity n w room done.1) [
        | inl whole ↦ inl (whole.0, whole.1, whole.2, refl, whole.3)
        | inr full ↦ absurd (omega (arith, full.0, done.1.room))
      ]

  close_tools-Lists :
      (o : Option Tool) (w : Writer) (t : List ℕ)
      → ((tool : Tool) → o ≡ some tool → IsListable tool)
      → Holds output (limit capacity) w t
      → Lists output capacity index m n (t ++ end_text o) (close_tools o w index m n)
  close_tools-Lists none w t v h =
      close-Lists t (codes "]" ++ codes "}}}")
        (and_then (append_bytes w (codes "]")) (λ u. append_bytes u (codes "}}}")))
        (then_literal (λ u. append_bytes u (codes "]")) (codes "]") (codes "}}}")
          (append_bytes-Appends (codes "]")) output (limit capacity) w t h)
  close_tools-Lists (some tool) w t v h =
      let able = v tool refl in
      rw (able.named) (
        by_bracket able.name (append_bytes w (codes "]"))
          (append_bytes-Appends (codes "]") output (limit capacity) w t h))
    where
      by_bracket :
          (name : List ℕ) (out : Writer × Bool)
          → Leaves output (limit capacity) t (codes "]") out
          → let cursor = (codes ",\"nextCursor\":" ++ quoted name) ++ codes "}}}" in
            Lists output capacity index m n (t ++ (codes "]" ++ cursor)) (
              if not out.1
              then (err_capacity, out.0.buffer, m, n)
              else close
                  (and_then (cursor_steps name out.0) (λ u. append_bytes u (codes "}}}")))
                  index
                  m
                  n)
      by_bracket name (w', false) (inl done) = cc (done.0)
      by_bracket name (w', true) (inr full) = cc (full.0)
      by_bracket name (w', false) (inr full) =
          let cursor = (codes ",\"nextCursor\":" ++ quoted name) ++ codes "}}}" in
          inr (
            omega (
              arith,
              full.1,
              length-append t (codes "]" ++ cursor),
              length-append (codes "]") cursor,
            ),
            refl,
            refl,
            refl,
          )
      by_bracket name (w', true) (inl done) =
          let cursor = (codes ",\"nextCursor\":" ++ quoted name) ++ codes "}}}" in
          rw (← append_assoc t (codes "]") cursor) (
            close-Lists (t ++ codes "]") cursor
              (and_then (cursor_steps name w') (λ u. append_bytes u (codes "}}}")))
              (then_literal (cursor_steps name) (codes ",\"nextCursor\":" ++ quoted name)
                (codes "}}}") (cursor-Appends name) output (limit capacity) w' (t ++ codes "]")
                done.1))
        where
          cursor-Appends :
              (name : List ℕ)
              → Appends (cursor_steps name) (codes ",\"nextCursor\":" ++ quoted name)
          cursor-Appends name =
              unfold cursor_steps in
              then_string (λ u. append_bytes u (codes ",\"nextCursor\":"))
                (codes ",\"nextCursor\":") name (append_bytes-Appends (codes ",\"nextCursor\":"))

All-take : (n : ℕ) (xs : List Tool) → All IsListable xs → All IsListable (take n xs)
All-take zero xs v = tt
All-take (suc n) [] v = tt
All-take (suc n) (x ∷ xs) v = (v.0, All-take n xs v.1)

All-drop : (n : ℕ) (xs : List Tool) → All IsListable xs → All IsListable (drop n xs)
All-drop zero xs v = v
All-drop (suc n) [] v = tt
All-drop (suc n) (x ∷ xs) v = All-drop n xs v.1

first_tool-IsListable :
    (xs : List Tool) (tool : Tool) → All IsListable xs → first_tool xs ≡ some tool → IsListable tool
first_tool-IsListable [] tool v e = cc
first_tool-IsListable (x ∷ xs) tool v e = let same : x ≡ tool = cc in rw (← same) (v.0)

-- The tools of one page: as many as asked for, or the default, from an index on.
abbrev pub page : Registry → ℕ → ℕ → List Tool
page registry start_index page_size =
    take (if page_size == 0 then default_page_size else page_size)
      (drop start_index (tool_list registry))

-- The document of one page.
abbrev pub list_text : List ℕ → ℕ → Registry → ℕ → ℕ → List ℕ
list_text session_id id registry start_index page_size =
    let tools = page registry start_index page_size in
    ((opening session_id id ++ codes ",\"result\":") ++ codes "{\"tools\":[")
    ++ (page_text false tools ++ end_text (registry_tool_at registry (start_index + length tools)))

end_tools-Lists :
    (output : List ℕ) (capacity m n index : ℕ) (registry : Registry) (tools : List Tool)
    (t : List ℕ) (listed : List Tool) (progress : Progress)
    → capacity ≤ length output
    → registry.tools ≡ some tools
    → All IsListable (tool_list registry)
    → Emits output (limit capacity) index t false listed progress
    → let next = registry_tool_at registry (index + length listed) in
      Lists output capacity
        (index + length listed)
        m
        n
        (t ++ (page_text false listed ++ end_text next))
        (end_tools registry progress m n)
unfolding end_tools
end_tools-Lists output capacity m n index registry tools t listed (result, w, index') room given
      able (inl whole) =
    let next_index = index + length listed in
    let next = registry_tool_at registry next_index in
    rw (whole.0, whole.1, ← append_assoc t (page_text false listed) (end_text next))
      (close_tools-Lists output capacity next_index m n room next w (t ++ page_text false listed)
        (λ tool e.
          first_tool-IsListable (drop next_index (tool_list registry)) tool
            (All-drop next_index (tool_list registry) able)
            (sym (tool_at-drop registry tools next_index given) ∙ e))
        whole.2)
end_tools-Lists output capacity m n index registry tools t listed (result, w, index') room given
      able (inr full) =
    let next = registry_tool_at registry (index + length listed) in
    let rest = page_text false listed ++ end_text next in
    rw (full.0) (
      inr (
        omega (
          arith,
          full.1,
          length-append t rest,
          length-append (page_text false listed) (end_text next),
        ),
        refl,
        refl,
        refl,
      ))

-- The loop and the end of the document, behind the text in front of the tools.
behind_head :
    (output head : List ℕ) (capacity m n start_index size : ℕ) (registry : Registry)
    (tools : List Tool) (out : Writer × Bool)
    → capacity ≤ length output
    → registry.tools ≡ some tools
    → registry.tool_count ≤ length tools
    → All IsListable (tool_list registry)
    → Leaves output (limit capacity) [] head out
    → let listed = take size (drop start_index (tool_list registry)) in
      Lists output capacity
        (start_index + length listed)
        m
        n
        (head
          ++ (page_text false listed
              ++ end_text (registry_tool_at registry (start_index + length listed))))
        (if out.1
          then end_tools registry (emit_tools size registry start_index false out.0) m n
          else (err_capacity, out.0.buffer, m, n))
behind_head output head capacity m n start_index size registry tools (w, false) room given readable
      able (inl done) =
    cc (done.0)
behind_head output head capacity m n start_index size registry tools (w, true) room given readable
      able (inr full) =
    cc (full.0)
behind_head output head capacity m n start_index size registry tools (w, false) room given readable
      able (inr full) =
    let listed = take size (drop start_index (tool_list registry)) in
    let rest =
      page_text false listed
      ++ end_text (registry_tool_at registry (start_index + length listed)) in
    inr (omega (arith, full.1, length-append head rest), refl, refl, refl)
behind_head output head capacity m n start_index size registry tools (w, true) room given readable
      able (inl done) =
    let rest = drop start_index (tool_list registry) in
    end_tools-Lists output capacity m n start_index registry tools head (take size rest)
      (emit_tools size registry start_index false w) room given able
      (emit_tools-page registry tools given readable output (limit capacity) size start_index false
        w head rest refl (All-drop start_index (tool_list registry) able) done.1)

-- The text in front of the tools.
head-Appends :
    (session_id : List ℕ) (id : ℕ)
    → Appends
        (λ w.
          and_then
            (and_then (envelope session_id id w) (λ u. append_bytes u (codes ",\"result\":")))
            (λ u. append_bytes u (codes "{\"tools\":[")))
        ((opening session_id id ++ codes ",\"result\":") ++ codes "{\"tools\":[")
head-Appends session_id id = then_literal _ _ (codes "{\"tools\":[") (
    then_literal (envelope session_id id) (opening session_id id) (codes ",\"result\":")
      (envelope-Appends session_id id))

list_tools-Lists :
    (output session_id : List ℕ) (capacity id m n start_index page_size : ℕ) (registry : Registry)
    (tools : List Tool)
    → (0 < capacity) × (capacity ≤ length output)
    → registry.tools ≡ some tools
    → registry.tool_count ≤ length tools
    → All IsListable (tool_list registry)
    → Lists output capacity
        (start_index + length (page registry start_index page_size))
        m
        n
        (list_text session_id id registry start_index page_size)
        (list_tools output capacity session_id id registry start_index page_size m n)
unfolding list_tools
list_tools-Lists output session_id capacity id m n start_index page_size registry tools room given
      readable able =
    let first = start output capacity in
    behind_head output ((opening session_id id ++ codes ",\"result\":") ++ codes "{\"tools\":[")
      capacity m n start_index (if page_size == 0 then default_page_size else page_size) registry
      tools
      (and_then
        (and_then (envelope session_id id first) (λ u. append_bytes u (codes ",\"result\":")))
        (λ u. append_bytes u (codes "{\"tools\":[")))
      room.1 given readable able
      (head-Appends session_id id output (limit capacity) first []
        (start-Holds output capacity room.0))

-- For a registry whose tools can all be listed and stand in its array, a session, a positive id, an
-- index that is not past the last tool, and an output of the stated capacity,
-- vt_mcp_wire_write_tools_list delivers the page from that index on: its tools in order, the name of
-- the tool behind them as the cursor where there is one, and as next index the index behind the page;
-- where the document does not fit it reports so and leaves the length and the next index alone.
pub write_tools_list-document :
    (output session_id : List ℕ) (capacity id m n start_index page_size : ℕ) (registry : Registry)
    (tools : List Tool)
    → (0 < capacity) × (capacity ≤ length output)
    → 0 < id
    → start_index ≤ registry.tool_count
    → registry.tools ≡ some tools
    → registry.tool_count ≤ length tools
    → All IsListable (tool_list registry)
    → Lists output capacity
        (start_index + length (page registry start_index page_size))
        m
        n
        (list_text session_id id registry start_index page_size)
        (write_tools_list output capacity
          (some session_id)
          (pos id)
          registry
          start_index
          page_size
          m
          n)
unfolding write_tools_list
write_tools_list-document output session_id capacity id m n start_index page_size registry tools
      room positive inside given readable able =
    let listed =
      list_tools-Lists output session_id capacity id m n start_index page_size registry tools room
        given readable able in
    let no_end : ltb registry.tool_count start_index ≡ false = ground arith in
    let some_room : (capacity == 0) ≡ false = ground arith in
    let some_id : (id == 0) ≡ false = ground arith in rw (no_end, some_room, some_id) listed
