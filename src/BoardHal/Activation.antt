-- ===== src/BoardHal/Activation.antt =====
-- What vt_board_hal_activate makes of a manifest.
use veetee_vuqb.Base.{
  ℕ, suc, ◌+◌, ◌≤◌, ◌<◌, ◌≡◌, ◌≢◌, ◌⊎◌, inl, inr, refl, sym, ap, ◌∙◌, Bool, true, false, arith,
  List, [], ◌∷◌, ◌++◌, map, length, take, drop, All, length-take, take-length_append, set,
}
use veetee_vuqb.Base.Buffer.{copy_at, copy_at-zero}
use veetee_vuqb.Mcp.{Tool}
use veetee_vuqb.Mcp.Setup.{Given, IsTool, NamesDiffer}
use veetee_vuqb.BoardHal.{
  max_capabilities, HalResult, ok, err_argument, err_capacity, err_descriptor, err_duplicate,
  err_revision, err_stale_revision, validate_tools, Descriptor, Manifest, Capability, Hal, init,
  tool_of, list_of, validate, capability_of, copy_capabilities, activate,
}
use veetee_vuqb.BoardHal.Lookup.{active}
use veetee_vuqb.BoardHal.Descriptors.{IsDescriptor, tools_of}
use veetee_vuqb.BoardHal.Manifests.{IsManifest, validate_iff}

-- The tools of the active capabilities, enabled or not.
abbrev pub all_tools : List Capability → List Tool
all_tools [] = []
all_tools (c ∷ cs) = tool_of c.tool ++ all_tools cs

-- An active manifest: every capability has a tool, and the tools can be registered together.
pub record IsActive (hal : Hal) : Type 0 where
  pub counted : hal.capability_count ≤ max_capabilities
  pub have_tools : All (λ (c : Capability). Given c.tool) (active hal)
  pub are_tools : All IsTool (all_tools (active hal))
  pub names_differ : NamesDiffer (all_tools (active hal))

copy_capabilities_lem :
    (cs : List Capability) (i : ℕ) (ds : List Descriptor)
    → copy_capabilities cs i ds ≡ copy_at cs i (map capability_of ds)
unfolding copy_capabilities copy_at
copy_capabilities_lem cs i [] = refl
copy_capabilities_lem cs i (d ∷ ds) = copy_capabilities_lem (set cs i (capability_of d)) (i + 1) ds

length-map : (ds : List Descriptor) → length (map capability_of ds) ≡ length ds
length-map [] = refl
length-map (d ∷ ds) = ap suc (length-map ds)

-- What the loop of vt_board_hal_activate copies is what is active afterwards.
copied_active :
    (ds : List Descriptor) (n : ℕ)
    → n ≡ length ds
    → n ≤ max_capabilities
    → take n (copy_capabilities init.capabilities 0 ds) ≡ map capability_of ds
copied_active ds n e small =
    let copied = map capability_of ds in
    let size = length-map ds in
    ap (take n) (copy_capabilities_lem init.capabilities 0 ds)
    ∙ ap (take n) (copy_at-zero init.capabilities copied (omega (arith, size)))
    ∙ ap (λ (m : ℕ). take m (copied ++ drop (length copied) init.capabilities)) (e ∙ sym size)
    ∙ take-length_append copied (drop (length copied) init.capabilities)

all_tools-map : (ds : List Descriptor) → all_tools (map capability_of ds) ≡ tools_of ds
unfolding capability_of
all_tools-map [] = refl
all_tools-map (d ∷ ds) = ap (λ (xs : List Tool). tool_of d.tool ++ xs) (all_tools-map ds)

have_tools-map :
    (ds : List Descriptor)
    → All IsDescriptor ds
    → All (λ (c : Capability). Given c.tool) (map capability_of ds)
unfolding capability_of
have_tools-map [] v = tt
have_tools-map (d ∷ ds) v = (v.0.has_tool, have_tools-map ds v.1)

allocation_only :
    (allocated : Bool) (m : Manifest) → validate allocated m ≡ ok → validate true m ≡ ok
unfolding validate validate_tools
allocation_only true m h = h
allocation_only false m h = ground arith

activated_active :
    (allocated : Bool) (hal : Hal) (m : Manifest)
    → m.capability_count ≤ length (list_of m.capabilities)
    → (activate allocated hal m).0 ≡ ok
    → IsManifest m
      × (active (activate allocated hal m).1
          ≡ map capability_of (take m.capability_count (list_of m.capabilities)))
      × ((activate allocated hal m).1.capability_count ≡ m.capability_count)
unfolding activate
activated_active allocated hal m room h =
    let valid : validate allocated m ≡ ok = ground arith in
    let fits = (validate_iff m).0 (allocation_only allocated m valid) in
    let size = length-take m.capability_count (list_of m.capabilities) in
    let copied =
      copied_active (take m.capability_count (list_of m.capabilities)) m.capability_count
        (omega (arith, size)) fits.counted in
    (fits, ground (arith, copied, valid), ground (arith, valid))

result_cases : (r : HalResult) → (r ≡ ok) ⊎ (r ≢ ok)
result_cases ok = inl refl
result_cases err_argument = inr (λ q. cc)
result_cases err_capacity = inr (λ q. cc)
result_cases err_descriptor = inr (λ q. cc)
result_cases err_duplicate = inr (λ q. cc)
result_cases err_revision = inr (λ q. cc)
result_cases err_stale_revision = inr (λ q. cc)

-- A manifest that vt_board_hal_activate accepts has a newer revision than the one before; one that
-- it refuses leaves the board as it was, whatever the reason.
activate-atomic :
    (allocated : Bool) (hal : Hal) (m : Manifest)
    → let (result, hal') = activate allocated hal m in
      ((result ≡ ok)
        × (hal.capability_revision < hal'.capability_revision)
        × (hal'.capability_revision ≡ m.capability_revision))
      ⊎ ((result ≢ ok) × (hal' ≡ hal))
unfolding activate
activate-atomic allocated hal m = elim (result_cases (activate allocated hal m).0) [
  | inl e ↦ inl (e, newer e, ground arith)
  | inr e ↦ inr (e, ground arith)
]
  where
    newer :
        (activate allocated hal m).0 ≡ ok
        → hal.capability_revision < (activate allocated hal m).1.capability_revision
    newer e = unfold activate validate in ground arith

-- The board stays active, in the sense of IsActive, over any activation of a manifest whose array
-- has the stated number of descriptors, from the empty board of vt_board_hal_init on.
pub activate-IsActive :
    (allocated : Bool) (hal : Hal) (m : Manifest)
    → m.capability_count ≤ length (list_of m.capabilities)
    → IsActive hal
    → IsActive init × IsActive (activate allocated hal m).1
activate-IsActive allocated hal m room v = (
  record { counted = omega arith; have_tools = tt; are_tools = tt; names_differ = tt },
  elim (activate-atomic allocated hal m) [
    | inl accepted ↦
        let facts = activated_active allocated hal m room accepted.0 in
        let ds = take m.capability_count (list_of m.capabilities) in
        record {
          counted = omega (arith, facts.2, facts.0.counted);
          have_tools = rw (facts.1) (have_tools-map ds facts.0.described);
          are_tools = rw (facts.1, all_tools-map ds) facts.0.are_tools;
          names_differ = rw (facts.1, all_tools-map ds) facts.0.names_differ;
        }
    | inr kept ↦ rw (kept.1) v
  ],
)
