-- ===== src/BoardHal/Descriptors.antt =====
-- What the loop of vt_board_hal_validate makes of the descriptors.
use veetee_vuqb.Base.{
  ℕ, suc, ◌≤◌, ◌<◌, ◌≡◌, ◌≢◌, ◌↔◌, inl, inr, refl, sym, ap, ◌∙◌, true, false, ◌||◌, arith, Option,
  none, some, List, [], ◌∷◌, ◌++◌, length, All, Bool-cases, append_assoc, append-nil,
}
use veetee_vuqb.Base.Keys.{Fresh, Distinct, split_last}
use mathlib.Core.Bool.{false≢true}
use veetee_vuqb.Mcp.{Tool, name_eq}
use veetee_vuqb.Mcp.Setup.{Given, is_null_iff, name_eq_iff}
use veetee_vuqb.BoardHal.{
  max_capability_id_bytes, max_owner_id_bytes, max_timeout_ms, max_safety_class, ok, Descriptor,
  bounded_nonempty, duplicate_capability_id, text_of, tool_of, descriptor_fits, validate_from,
}

-- A string of 1 to `n` - 1 bytes.
abbrev pub TextFits : ℕ → Option (List ℕ) → Type 0
TextFits n none = ⊥
TextFits n (some text) = (0 < length text) × (length text < n)

-- A descriptor that fits the board's tables.
pub record IsDescriptor (c : Descriptor) : Type 0 where
  pub id_fits : TextFits max_capability_id_bytes c.capability_id
  pub owner_fits : TextFits max_owner_id_bytes c.owner_id
  pub has_tool : Given c.tool
  pub timed : (0 < c.timeout_ms) × (c.timeout_ms ≤ max_timeout_ms)
  pub safe : c.safety_class ≤ max_safety_class

abbrev pub id_of : Descriptor → Option (List ℕ)
id_of c = c.capability_id

-- The tools of a list of descriptors.
abbrev pub tools_of : List Descriptor → List Tool
tools_of [] = []
tools_of (c ∷ cs) = tool_of c.tool ++ tools_of cs

bounded_nonempty_iff : (n : ℕ) (o : Option (List ℕ)) → (bounded_nonempty o n ≡ true) ↔ TextFits n o
unfolding bounded_nonempty
bounded_nonempty_iff n none = (λ h. cc, λ h. absurd h)
bounded_nonempty_iff n (some []) = (λ h. cc, λ h. absurd (omega arith))
bounded_nonempty_iff n (some (c ∷ cs)) = (λ h. (omega arith, ground arith), λ h. ground arith)

descriptor_fits_iff : (c : Descriptor) → (descriptor_fits c ≡ true) ↔ IsDescriptor c
unfolding descriptor_fits
descriptor_fits_iff c =
    let id = bounded_nonempty_iff max_capability_id_bytes c.capability_id in
    let owner = bounded_nonempty_iff max_owner_id_bytes c.owner_id in
    let tool = is_null_iff c.tool in
    (
      λ h. record {
        id_fits = id.0 (ground arith);
        owner_fits = owner.0 (ground arith);
        has_tool = tool.0 (ground arith);
        timed = (ground arith, ground arith);
        safe = ground arith;
      },
      λ v.
          let a = id.1 v.id_fits in
          let b = owner.1 v.owner_fits in
          let d = tool.1 v.has_tool in ground (arith, a, b, d, v.timed, v.safe),
    )

duplicate_named_iff :
    (name : List ℕ) (others : List Descriptor)
    → (duplicate_capability_id others name ≡ false)
      ↔ All (λ (other : Descriptor). some name ≢ other.capability_id) others
unfolding duplicate_capability_id
duplicate_named_iff name [] = (λ h. tt, λ h. refl)
duplicate_named_iff name (o ∷ os) =
    let rest = duplicate_named_iff name os in
    let here = name_eq_iff o.capability_id name in
    elim (Bool-cases (name_eq o.capability_id name)) [
      | inl e ↦ (
        λ h. absurd (false≢true (sym h ∙ ap (λ b. b || duplicate_capability_id os name) e)),
        λ h. absurd (h.0 (sym (here.0 e))),
      )
      | inr e ↦ (
        λ h. (
          λ q. false≢true (sym e ∙ here.1 (sym q)),
          rest.0 (sym (ap (λ b. b || duplicate_capability_id os name) e) ∙ h),
        ),
        λ h. ap (λ b. b || duplicate_capability_id os name) e ∙ rest.1 h.1,
      )
    ]

duplicate_iff :
    (c : Descriptor) (others : List Descriptor)
    → TextFits max_capability_id_bytes c.capability_id
    → (duplicate_capability_id others (text_of c.capability_id) ≡ false) ↔ Fresh id_of c others
duplicate_iff c others h = by_id c.capability_id h
  where
    by_id :
        (o : Option (List ℕ))
        → TextFits max_capability_id_bytes o
        → (duplicate_capability_id others (text_of o) ≡ false)
          ↔ All (λ (other : Descriptor). o ≢ other.capability_id) others
    by_id none h = absurd h
    by_id (some name) h = duplicate_named_iff name others

pub validate_from_sound :
    (previous : List Descriptor) (tools : List Tool) (cs : List Descriptor)
    → (validate_from previous tools cs).0 ≡ ok
    → All IsDescriptor cs × All (λ (u : Descriptor). Fresh id_of u previous) cs × Distinct id_of cs
unfolding validate_from
validate_from_sound previous tools [] h = (tt, tt, tt)
validate_from_sound previous tools (c ∷ cs) h =
    let facts : (descriptor_fits c ≡ true)
        × (duplicate_capability_id previous (text_of c.capability_id) ≡ false)
        × ((validate_from (previous ++ (c ∷ [])) (tools ++ tool_of c.tool) cs).0 ≡ ok) =
      (ground arith, ground arith, ground arith) in
    let fits = (descriptor_fits_iff c).0 facts.0 in
    let rest = validate_from_sound (previous ++ (c ∷ [])) (tools ++ tool_of c.tool) cs facts.2 in
    let parts = (split_last id_of previous c cs).0 rest.1 in
    (
      (fits, rest.0),
      ((duplicate_iff c previous fits.id_fits).0 facts.1, parts.0),
      (parts.1, rest.2),
    )

pub validate_from_complete :
    (previous : List Descriptor) (tools : List Tool) (cs : List Descriptor)
    → All IsDescriptor cs
    → All (λ (u : Descriptor). Fresh id_of u previous) cs
    → Distinct id_of cs
    → validate_from previous tools cs ≡ (ok, tools ++ tools_of cs)
unfolding validate_from
validate_from_complete previous tools [] v f d =
    ap (λ (xs : List Tool). (ok, xs)) (sym (append-nil tools))
validate_from_complete previous tools (c ∷ cs) v f d =
    let a = (descriptor_fits_iff c).1 v.0 in
    let b = (duplicate_iff c previous v.0.id_fits).1 f.0 in
    let fresh = (split_last id_of previous c cs).1 (f.1, d.0) in
    let rest =
      validate_from_complete (previous ++ (c ∷ [])) (tools ++ tool_of c.tool) cs v.1 fresh d.1 in
    let join : (tools ++ tool_of c.tool) ++ tools_of cs ≡ tools ++ (tool_of c.tool ++ tools_of cs) =
      append_assoc tools (tool_of c.tool) (tools_of cs) in
    rw (a, b, rest, join)

pub length-tools_of :
    (cs : List Descriptor) → All IsDescriptor cs → length (tools_of cs) ≡ length cs
length-tools_of [] v = refl
length-tools_of (c ∷ cs) v = by_tool c.tool v.0.has_tool (length-tools_of cs v.1)
  where
    by_tool :
        (o : Option Tool)
        → Given o
        → length (tools_of cs) ≡ length cs
        → length (tool_of o ++ tools_of cs) ≡ suc (length cs)
    by_tool none g e = absurd g
    by_tool (some t) g e = ap suc e
