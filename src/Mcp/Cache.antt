-- ===== src/Mcp/Cache.antt =====
-- The invariant of the answer cache, and that every call of the registry keeps it.
use veetee_vuqb.Base.{
  ℕ, ◌≤◌, ◌<◌, ◌≡◌, refl, true, arith, Option, none, some, List, [], ◌∷◌, length, All, All-set,
  All-replicate, length-set, Bool-cases, inl, inr, leb, ltb, ◌==◌, ◌&&◌, ◌||◌, ◌-◌, ◌^◌,
}
use veetee_vuqb.Base.Int.{ℤ, pos, negsuc}
use veetee_vuqb.Mcp.{
  max_cache_entries, McpResult, Tool, McpCall, McpCallResult, CacheEntry, Registry, zero_entry,
  find_tool, find_cache, is_null, registry_reset_session,
}
use veetee_vuqb.Mcp.Call.{
  Answer, Invocation, call_pointers, run_tool, call_new, call_seen, call_with, call_signed,
  registry_call,
}

-- A cached request is not above the high-water mark.
abbrev pub IsBelow : ℕ → CacheEntry → Type 0
IsBelow n entry = entry.used ≡ true → entry.request_id ≤ n

pub record IsRegistry (r : Registry) : Type 0 where
  pub size : length r.cache ≡ max_cache_entries
  pub slot : r.next_cache_slot < max_cache_entries
  pub below : All (IsBelow r.highest_request_id) r.cache

-- the entry of a request carries its id
pub run_tool-id :
    (answers : ℕ → List ℕ → Answer) (tool : Option Tool) (entry : CacheEntry) (id : ℕ)
    (arguments : List ℕ)
    → let (entry', invocation) = run_tool answers tool entry id arguments in
      (entry'.used ≡ entry.used)
      × (entry'.request_id ≡ entry.request_id)
      × (entry'.argument_digest ≡ entry.argument_digest)
unfolding run_tool
run_tool-id answers tool entry id arguments = ground arith

All-raise : (n m : ℕ) (l : List CacheEntry) → n ≤ m → All (IsBelow n) l → All (IsBelow m) l
All-raise n m [] h v = tt
All-raise n m (e ∷ es) h v = (λ u. omega (arith, v.0 u), All-raise n m es h v.1)

pub call_new-IsRegistry :
    (answers : ℕ → List ℕ → Answer) (r : Registry) (id digest : ℕ) (name arguments : List ℕ)
    → IsRegistry r
    → r.highest_request_id ≤ id
    → IsRegistry (call_new answers r id digest name arguments).1
unfolding call_new
call_new-IsRegistry answers r id digest name arguments v h =
    let fresh : CacheEntry = record zero_entry {
      used = true;
      request_id = id;
      argument_digest = digest;
    } in
    let entry = (run_tool answers (find_tool r name) fresh id arguments).0 in
    let same = run_tool-id answers (find_tool r name) fresh id arguments in
    record {
      size = omega (arith, length-set r.cache r.next_cache_slot entry, v.size);
      slot = omega arith;
      below =
          All-set (IsBelow id) r.cache r.next_cache_slot entry
            (All-raise r.highest_request_id id r.cache h v.below) (λ u. omega (arith, same.1));
    }

-- A call is one of two things: it changes nothing and invokes nothing, or it is a request above the
-- high-water mark.
pub data Outcome (answers : ℕ → List ℕ → Answer) (r : Registry) (call : McpCall)
    (out : McpResult × Registry × McpCallResult × Option Invocation) : Type 0 where
  inert : out.1 ≡ r → out.3 ≡ none → Outcome answers r call out
  above :
      (id : ℕ) (name arguments : List ℕ)
      → r.highest_request_id < id
      → out ≡ call_new answers r id call.argument_digest name arguments
      → Outcome answers r call out

call_seen_inert :
    (r : Registry) (entry : Option CacheEntry) (digest : ℕ)
    → ((call_seen r entry digest).1 ≡ r) × ((call_seen r entry digest).3 ≡ none)
unfolding call_seen
call_seen_inert r entry digest = ground arith

module _ (answers : ℕ → List ℕ → Answer) (r : Registry) (call : McpCall)
    (result : McpCallResult) where
  call_signed-Outcome :
      (id : ℤ) (name arguments : List ℕ)
      → Outcome answers r call (call_signed answers r id call.argument_digest name arguments)
  unfolding call_signed call_with
  call_signed-Outcome (negsuc n) name arguments = inert refl refl
  call_signed-Outcome (pos id) name arguments = elim (Bool-cases (id == 0 || ltb (2 ^ 31 - 1) id)) [
    | inl bad ↦ rw bad (inert refl refl)
    | inr good ↦ elim (Bool-cases (leb id r.highest_request_id)) [
      | inl seen ↦
          let same = call_seen_inert r (find_cache r.cache id) call.argument_digest in
          rw (good, seen) (inert same.0 same.1)
      | inr new ↦ rw (good, new) (above id name arguments (ground arith) refl)
    ]
  ]

  -- What a call of vt_mcp_registry_call comes to.
  pub registry_call-Outcome : Outcome answers r call (registry_call answers r call result)
  unfolding registry_call
  registry_call-Outcome = elim (Bool-cases (ltb 0 r.tool_count && is_null r.tools)) [
    | inl bad ↦ rw bad (inert refl refl)
    | inr good ↦ rw good (by_pointers call.tool_name call.arguments_json)
  ]
    where
      by_pointers :
          (name arguments : Option (List ℕ))
          → Outcome answers r call (call_pointers answers r call name arguments result)
      by_pointers (some name) (some arguments) = call_signed-Outcome call.request_id name arguments
      by_pointers none arguments = inert refl refl
      by_pointers (some name) none = inert refl refl

  Outcome-preserves :
      (out : McpResult × Registry × McpCallResult × Option Invocation)
      → IsRegistry r
      → Outcome answers r call out
      → IsRegistry out.1
  Outcome-preserves out v (inert same none_made) = rw same v
  Outcome-preserves out v (above id name arguments h e) =
      rw e (call_new-IsRegistry answers r id call.argument_digest name arguments v (omega arith))

  -- Whatever the request and the callback's answer, a call keeps the cache at 16 entries, the next
  -- slot inside it, and every cached request at or below the high-water mark; so does a reset of the
  -- session.
  registry_call-IsRegistry :
      IsRegistry r
      → IsRegistry (registry_call answers r call result).1 × IsRegistry (registry_reset_session r)
  unfolding registry_reset_session
  registry_call-IsRegistry v = (
    Outcome-preserves (registry_call answers r call result) v registry_call-Outcome,
    record {
      size = refl;
      slot = omega arith;
      below = All-replicate (IsBelow 0) max_cache_entries zero_entry (λ u. cc);
    },
  )
