-- ===== src/Mcp/Setup.antt =====
-- What vt_mcp_registry_init accepts, and the tools of an initialised registry.
use veetee_vuqb.Base.{
  ℕ, zero, suc, ◌≤◌, ◌<◌, ◌≡◌, ◌≢◌, ◌↔◌, inl, inr, refl, sym, ap, ◌∙◌, true, false, ◌||◌, arith,
  Option, none, some, List, [], ◌∷◌, ◌++◌, length, get_elem?, take, All, str_eq_iff, Bool-cases,
}
use mathlib.Core.Bool.{false≢true}
use veetee_vuqb.Base.Keys.{Fresh, Distinct, Fresh-nil, split_last, Distinct_at}
use veetee_vuqb.Mcp.{
  max_tools, max_tool_name_bytes, ok, err_argument, err_registry, Tool, Registry, zero_registry,
  valid_tool_name, name_eq, has_name, find_in, tool_list, find_tool, is_named, is_null, tools_valid,
  registry_init, registry_tool_at,
}

-- A name of 1 to 63 bytes.
abbrev pub NameFits : Option (List ℕ) → Type 0
NameFits none = ⊥
NameFits (some name) = (0 < length name) × (length name < max_tool_name_bytes)

abbrev pub Given {ℓ} : {A : Type ℓ} → Option A → Type 0
Given none = ⊥
Given (some _) = Unit

-- A tool that can be registered has a name that fits and a callback.
abbrev pub IsTool : Tool → Type 0
IsTool tool = NameFits tool.name × Given tool.invoke

abbrev pub name_of : Tool → Option (List ℕ)
name_of tool = tool.name

-- The names of a list of tools differ from each other.
abbrev pub NamesDiffer : List Tool → Type 0
NamesDiffer tools = Distinct name_of tools

pub valid_tool_name_iff : (name : Option (List ℕ)) → (valid_tool_name name ≡ true) ↔ NameFits name
unfolding valid_tool_name
valid_tool_name_iff none = (λ h. cc, λ h. absurd h)
valid_tool_name_iff (some []) = (λ h. cc, λ h. absurd (omega arith))
valid_tool_name_iff (some (c ∷ cs)) = (λ h. (omega arith, ground arith), λ h. ground arith)

pub is_null_iff {ℓ} : {A : Type ℓ} (o : Option A) → (is_null o ≡ false) ↔ Given o
is_null_iff none = (λ h. cc, λ h. absurd h)
is_null_iff (some x) = (λ h. tt, λ h. refl)

pub name_eq_iff : (o : Option (List ℕ)) (name : List ℕ) → (name_eq o name ≡ true) ↔ (o ≡ some name)
name_eq_iff none name = (λ h. cc, λ h. cc)
name_eq_iff (some n) name =
    (λ h. ap some ((str_eq_iff n name).0 h), λ h. (str_eq_iff n name).1 (cc))

pub has_name_iff :
    (tool : Tool) (name : List ℕ) → (has_name tool name ≡ true) ↔ (tool.name ≡ some name)
unfolding has_name
has_name_iff tool name = name_eq_iff tool.name name

named_iff :
    (name : List ℕ) (others : List Tool)
    → (is_named (some name) others ≡ false) ↔ All (λ (other : Tool). some name ≢ other.name) others
unfolding is_named
named_iff name [] = (λ h. tt, λ h. refl)
named_iff name (o ∷ os) =
    let rest = named_iff name os in
    elim (Bool-cases (has_name o name)) [
      | inl e ↦
          let same : some name ≡ o.name = sym ((has_name_iff o name).0 e) in
          (
            λ h. absurd (false≢true (sym h ∙ ap (λ b. b || is_named (some name) os) e)),
            λ h. absurd (h.0 same),
          )
      | inr e ↦ (
        λ h. (
          λ q. false≢true (sym e ∙ (has_name_iff o name).1 (sym q)),
          rest.0 (sym (ap (λ b. b || is_named (some name) os) e) ∙ h),
        ),
        λ h. ap (λ b. b || is_named (some name) os) e ∙ rest.1 h.1,
      )
    ]

is_named_iff :
    (tool : Tool) (others : List Tool)
    → NameFits tool.name
    → (is_named tool.name others ≡ false) ↔ Fresh name_of tool others
is_named_iff tool others h = by_name tool.name h
  where
    by_name :
        (o : Option (List ℕ))
        → NameFits o
        → (is_named o others ≡ false) ↔ All (λ (other : Tool). o ≢ other.name) others
    by_name none h = absurd h
    by_name (some name) h = named_iff name others

tools_valid_sound :
    (previous tools : List Tool)
    → tools_valid previous tools ≡ true
    → All IsTool tools × All (λ (u : Tool). Fresh name_of u previous) tools × NamesDiffer tools
unfolding tools_valid
tools_valid_sound previous [] h = (tt, tt, tt)
tools_valid_sound previous (t ∷ ts) h =
    let facts : (valid_tool_name t.name ≡ true)
        × (is_null t.invoke ≡ false)
        × (is_named t.name previous ≡ false)
        × (tools_valid (previous ++ (t ∷ [])) ts ≡ true) =
      (ground arith, ground arith, ground arith, ground arith) in
    let named = (valid_tool_name_iff t.name).0 facts.0 in
    let rest = tools_valid_sound (previous ++ (t ∷ [])) ts facts.3 in
    let parts = (split_last name_of previous t ts).0 rest.1 in
    (
      ((named, (is_null_iff t.invoke).0 facts.1), rest.0),
      ((is_named_iff t previous named).0 facts.2, parts.0),
      (parts.1, rest.2),
    )

tools_valid_complete :
    (previous tools : List Tool)
    → All IsTool tools
    → All (λ (u : Tool). Fresh name_of u previous) tools
    → NamesDiffer tools
    → tools_valid previous tools ≡ true
unfolding tools_valid
tools_valid_complete previous [] v f d = refl
tools_valid_complete previous (t ∷ ts) v f d =
    let a = (valid_tool_name_iff t.name).1 v.0.0 in
    let b = (is_null_iff t.invoke).1 v.0.1 in
    let c = (is_named_iff t previous v.0.0).1 f.0 in
    let fresh = (split_last name_of previous t ts).1 (f.1, d.0) in
    let rest = tools_valid_complete (previous ++ (t ∷ [])) ts v.1 fresh d.1 in
    ground (arith, a, b, c, rest)

-- what the loop of vt_mcp_registry_init accepts
pub tools_valid_iff :
    (tools : List Tool) → (tools_valid [] tools ≡ true) ↔ (All IsTool tools × NamesDiffer tools)
tools_valid_iff tools = (
  λ h. let s = tools_valid_sound [] tools h in (s.0, s.2),
  λ h. tools_valid_complete [] tools h.0 (Fresh-nil name_of tools) h.1,
)

-- vt_mcp_registry_init accepts a given array exactly when there are at most 16 tools, each with a
-- name of 1 to 63 bytes and a callback, and no two with one name. What it accepts becomes a registry
-- with these tools, no request seen and an empty cache; a refusal of the tools leaves a zeroed
-- registry, and a refusal of the arguments the old one.
pub registry_init_iff :
    (registry : Registry) (tools : List Tool) (n : ℕ)
    → n ≤ length tools
    → let (result, registry') = registry_init registry (some tools) n in
      ((result ≡ ok) ↔ ((n ≤ max_tools) × All IsTool (take n tools) × NamesDiffer (take n tools)))
      × (result ≡ ok → registry' ≡ record zero_registry { tools = some tools; tool_count = n })
      × (result ≡ err_registry → registry' ≡ zero_registry)
      × (result ≡ err_argument → registry' ≡ registry)
unfolding registry_init
registry_init_iff registry tools n h =
    let valid = tools_valid_iff (take n tools) in
    (
      (
        λ r. let both = valid.0 (ground arith) in (ground arith, both.0, both.1),
        λ r. let t = valid.1 (r.1, r.2) in ground (arith, t),
      ),
      λ r. ground arith,
      λ r. ground arith,
      λ r. ground arith,
    )

find_in_at :
    (tools : List Tool) (i : ℕ) (t : Tool) (name : List ℕ)
    → NamesDiffer tools
    → get_elem? tools i ≡ some t
    → t.name ≡ some name
    → find_in tools name ≡ some t
unfolding find_in
find_in_at [] i t name d e n = absurd (cc)
find_in_at (o ∷ os) zero t name d e n =
    let same : o ≡ t = cc in
    rw ((has_name_iff o name).1 (ap (λ (x : Tool). x.name) same ∙ n)) (ap some same)
find_in_at (o ∷ os) (suc i) t name d e n = elim (Bool-cases (has_name o name)) [
  | inl q ↦ absurd (Distinct_at name_of o os i t d.0 e (n ∙ sym ((has_name_iff o name).0 q)))
  | inr q ↦ rw q (find_in_at os i t name d.1 e n)
]

pub get_elem?-take :
    (tools : List Tool) (n i : ℕ) → i < n → get_elem? (take n tools) i ≡ get_elem? tools i
get_elem?-take tools zero i h = elim h [ ]
get_elem?-take [] (suc n) i h = refl
get_elem?-take (t ∷ ts) (suc n) zero h = refl
get_elem?-take (t ∷ ts) (suc n) (suc i) h = get_elem?-take ts n i (omega arith)

-- In a registry whose tools' names differ, the lookup by name that a call makes finds the very tool
-- that vt_mcp_registry_tool_at lists at an index, under the name that the tool has.
find_tool-tool_at :
    (registry : Registry) (tools : List Tool) (i : ℕ) (t : Tool) (name : List ℕ)
    → registry.tools ≡ some tools
    → NamesDiffer (take registry.tool_count tools)
    → registry_tool_at registry i ≡ some t
    → t.name ≡ some name
    → find_tool registry name ≡ some t
unfolding find_tool tool_list registry_tool_at
find_tool-tool_at registry tools i t name given differ at named =
    let below : i < registry.tool_count = ground arith in
    let here : get_elem? tools i ≡ some t = ground arith in
    rw given (
      find_in_at (take registry.tool_count tools) i t name differ
        (get_elem?-take tools registry.tool_count i below ∙ here) named)
