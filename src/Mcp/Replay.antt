-- ===== src/Mcp/Replay.antt =====
-- A repeated request gets the stored answer, for as long as its entry is in the cache.
use veetee_vuqb.Base.{
  ℕ, ◌^◌, ◌≤◌, ◌<◌, ◌≡◌, ◌≢◌, refl, sym, ◌∙◌, true, false, ◌&&◌, arith, Option, none, some, List,
  length, Option-cases, inl, inr, ltb,
}
use veetee_vuqb.Base.Int.{pos}
use veetee_vuqb.Mcp.{
  err_duplicate_conflict, McpCall, McpCallResult, CacheEntry, Tool, Registry, zero_entry, find_tool,
  cache_result, is_null,
}
use veetee_vuqb.Mcp.Call.{
  Answer, Invocation, run_tool, failed, call_new, call_seen, call_with, call_signed, call_pointers,
  registry_call,
}
use veetee_vuqb.Mcp.Cache.{IsRegistry, run_tool-id}
use veetee_vuqb.Mcp.Calls.{Request, request}
use veetee_vuqb.Mcp.Window.{find_cache-AnsweredAt, InWindow, stored, opens, run, run_window}

-- A request that names a tool and arguments, with an id that an int32_t holds.
pub record IsWellFormed (r : Registry) (call : McpCall) (id : ℕ) (name arguments : List ℕ)
    : Type 0 where
  pub its_id : call.request_id ≡ pos id
  pub fits : (0 < id) × (id < 2 ^ 31)
  pub named : call.tool_name ≡ some name
  pub argued : call.arguments_json ≡ some arguments
  pub tools_given : (ltb 0 r.tool_count && is_null r.tools) ≡ false

well_formed_call :
    (answers : ℕ → List ℕ → Answer) (r : Registry) (call : McpCall) (result : McpCallResult)
    (id : ℕ) (name arguments : List ℕ)
    → IsWellFormed r call id name arguments
    → registry_call answers r call result
      ≡ call_with answers r id call.argument_digest name arguments
unfolding registry_call call_pointers call_signed
well_formed_call answers r call result id name arguments w =
    rw (w.tools_given, w.named, w.argued, w.its_id)

-- A request whose entry is in the window is looked up, and not executed.
looked_up :
    (answers : ℕ → List ℕ → Answer) (r : Registry) (p id : ℕ) (entry : CacheEntry) (k digest : ℕ)
    (name arguments : List ℕ)
    → InWindow r p id entry k
    → (0 < id) × (id < 2 ^ 31)
    → call_with answers r id digest name arguments ≡ call_seen r (some entry) digest
unfolding call_with
looked_up answers r p id entry k digest name arguments v fits =
    let found = find_cache-AnsweredAt r.cache p id entry v.answers_at in
    let seen = v.seen in rw (← found) (ground (arith, seen, fits))

executed :
    (answers : ℕ → List ℕ → Answer) (r : Registry) (id digest : ℕ) (name arguments : List ℕ)
    → r.highest_request_id < id
    → (0 < id) × (id < 2 ^ 31)
    → call_with answers r id digest name arguments ≡ call_new answers r id digest name arguments
unfolding call_with
executed answers r id digest name arguments new fits = ground (arith, new, fits)

-- The invocation that a request makes of the tool that it names.
abbrev invocation_of_callback : ℕ → List ℕ → Option ℕ → Option Invocation
invocation_of_callback id arguments none = none
invocation_of_callback id arguments (some callback) =
    some (record { request_id = id; callback = callback; arguments_json = arguments })

abbrev pub invocation_of : ℕ → List ℕ → Option Tool → Option Invocation
invocation_of id arguments none = none
invocation_of id arguments (some tool) = invocation_of_callback id arguments tool.invoke

run_tool-made :
    (answers : ℕ → List ℕ → Answer) (tool : Option Tool) (entry : CacheEntry) (id : ℕ)
    (arguments : List ℕ)
    → (run_tool answers tool entry id arguments).1 ≡ invocation_of id arguments tool
unfolding run_tool
run_tool-made answers none entry id arguments = refl
run_tool-made answers (some tool) entry id arguments = elim (Option-cases tool.invoke) [
  | inl e ↦ rw (run_tool, e) refl
  | inr (callback, e) ↦ rw (run_tool, e) refl
]

made_of_new :
    (answers : ℕ → List ℕ → Answer) (r : Registry) (id digest : ℕ) (name arguments : List ℕ)
    → (call_new answers r id digest name arguments).3
      ≡ invocation_of id arguments (find_tool r name)
unfolding call_new
made_of_new answers r id digest name arguments =
    run_tool-made answers (find_tool r name)
      (record zero_entry { used = true; request_id = id; argument_digest = digest }) id arguments

answer_of_new :
    (answers : ℕ → List ℕ → Answer) (r : Registry) (id digest : ℕ) (name arguments : List ℕ)
    → let (status, r', result, made) = call_new answers r id digest name arguments in
      let entry = stored answers r id digest name arguments in
      (status ≡ entry.status)
      × (result ≡ cache_result entry false)
      × (entry.argument_digest ≡ digest)
unfolding call_new
answer_of_new answers r id digest name arguments =
    let same =
      run_tool-id answers (find_tool r name)
        (record zero_entry { used = true; request_id = id; argument_digest = digest }) id
        arguments in
    (refl, refl, same.2)

same_digest :
    (r : Registry) (entry : CacheEntry) (digest : ℕ)
    → entry.argument_digest ≡ digest
    → call_seen r (some entry) digest ≡ (entry.status, r, cache_result entry true, none)
unfolding call_seen
same_digest r entry digest e = ground (arith, e)

other_digest :
    (r : Registry) (entry : CacheEntry) (digest : ℕ)
    → entry.argument_digest ≢ digest
    → call_seen r (some entry) digest
      ≡ (err_duplicate_conflict, r, failed err_duplicate_conflict, none)
unfolding call_seen
other_digest r entry digest e = ground (arith, e)

-- A well-formed call whose entry is in the window.
repeated :
    (answers : ℕ → List ℕ → Answer) (r later : Registry) (call : McpCall) (result : McpCallResult)
    (p id : ℕ) (entry : CacheEntry) (k : ℕ) (name arguments : List ℕ)
    → InWindow later p id entry k
    → IsWellFormed r call id name arguments
    → registry_call answers later call result ≡ call_seen later (some entry) call.argument_digest
repeated answers r later call result p id entry k name arguments v w =
    let w' : IsWellFormed later call id name arguments = record {
      its_id = w.its_id;
      fits = w.fits;
      named = w.named;
      argued = w.argued;
      tools_given = v.usable;
    } in
    well_formed_call answers later call result id name arguments w'
    ∙ looked_up answers later p id entry k call.argument_digest name arguments v w.fits

-- A well-formed request above the high-water mark is executed once: it invokes the callback of the tool that
-- it names, with its arguments, and nothing where no tool of that name is registered or the tool has no
-- callback. Repeated, with the same digest
-- and up to 15 other requests of any kind in between, it is answered from the cache with the status
-- and the result of the first time, marked as cached, without an invocation and without a change of
-- the registry; with another digest it is refused as a conflict, again without either.
pub replay_window :
    (r : Registry) (q : Request) (id : ℕ) (name arguments : List ℕ) (between : List Request)
    (again : Request)
    → IsRegistry r
    → IsWellFormed r q.call id name arguments
    → r.highest_request_id < id
    → length between ≤ 15
    → again.call ≡ q.call
    → let (status, r', result, made) = request r q in
      let later = run r' between in
      (made ≡ invocation_of id arguments (find_tool r name))
      × (request later again ≡ (status, later, record result { cached = true }, none))
      × ((other : ℕ)
          → other ≢ q.call.argument_digest
          → registry_call again.answers later
              (record q.call { argument_digest = other })
              again.result
            ≡ (err_duplicate_conflict, later, failed err_duplicate_conflict, none))
replay_window r q id name arguments between again v w new room same =
    let digest = q.call.argument_digest in
    let first : request r q ≡ call_new q.answers r id digest name arguments =
      well_formed_call q.answers r q.call q.result id name arguments w
      ∙ executed q.answers r id digest name arguments new w.fits in
    let entry = stored q.answers r id digest name arguments in
    let facts = answer_of_new q.answers r id digest name arguments in
    let opened = opens q.answers r id digest name arguments v w.tools_given new in
    let later = run (call_new q.answers r id digest name arguments).1 between in
    let (k, window) =
      run_window (call_new q.answers r id digest name arguments).1 between r.next_cache_slot id
        entry 0 opened (omega arith) in
    let hit =
      repeated again.answers r later q.call again.result r.next_cache_slot id entry k name arguments
        window w in
    rw (first, same, facts.0, facts.1)
      (
        made_of_new q.answers r id digest name arguments,
        hit ∙ same_digest later entry digest facts.2,
        λ other differ.
            repeated again.answers r later (record q.call { argument_digest = other }) again.result
              r.next_cache_slot id entry k name arguments window
              (record {
                its_id = w.its_id;
                fits = w.fits;
                named = w.named;
                argued = w.argued;
                tools_given = w.tools_given;
              })
            ∙ other_digest later entry other (λ q. differ (sym q ∙ facts.2)),
      )
