-- ===== src/Examples/Registries.antt =====
-- A registry of two tools, and its calls.
use veetee_vuqb.Base.{
  ℕ, ◌≡◌, ◌≢◌, refl, true, Option, none, some, List, [], ◌∷◌, All-replicate, arith,
}
use veetee_vuqb.Base.Int.{ℤ, pos, negsuc}
use veetee_vuqb.Mcp.{
  find_tool, max_cache_entries, ok, err_duplicate_conflict, Tool, McpCallResult, Registry,
  zero_entry, zero_registry, registry_tool_at,
}
use veetee_vuqb.Mcp.Call.{Answer, failed, registry_call}
use veetee_vuqb.Mcp.Cache.{IsBelow, IsRegistry}
use veetee_vuqb.Mcp.Calls.{Request, request, invocations, IdsRise, invocations-rise}
use veetee_vuqb.Mcp.Window.{run}
use veetee_vuqb.Mcp.Replay.{invocation_of, IsWellFormed, replay_window}

abbrev lamp : Tool
lamp = record {
  name = some (b'l' ∷ []);
  description = none;
  input_schema_json = none;
  invoke = some 1;
}

abbrev fan : Tool
fan = record {
  name = some (b'f' ∷ []);
  description = none;
  input_schema_json = none;
  invoke = some 2;
}

abbrev tools : List Tool
tools = lamp ∷ fan ∷ []

abbrev registry : Registry
registry = record zero_registry { tools = some tools; tool_count = 2 }

registry-IsRegistry : IsRegistry registry
registry-IsRegistry = record {
  size = refl;
  slot = omega arith;
  below = All-replicate (IsBelow 0) max_cache_entries zero_entry (λ u. cc);
}

second_tool : registry_tool_at registry 1 ≡ some fan
unfolding registry_tool_at
second_tool = refl

abbrev yes : Answer
yes = record { status = ok; written = b'{' ∷ b'}' ∷ []; length = 2 }

abbrev no_result : McpCallResult
no_result = failed ok

abbrev ask : ℤ → Request
ask id = record {
  answers = λ callback arguments. yes;
  call = record {
    request_id = id;
    argument_digest = 77;
    tool_name = some (b'f' ∷ []);
    arguments_json = some (b'{' ∷ b'}' ∷ []);
  };
  result = no_result;
}

abbrev requests : List Request
requests = ask (pos 4) ∷ ask (pos 4) ∷ ask (negsuc 2) ∷ ask (pos 3) ∷ ask (pos 9) ∷ []

invocations-rise_example : IdsRise 0 (invocations registry requests)
invocations-rise_example = invocations-rise registry requests

well_formed : IsWellFormed registry (ask (pos 4)).call 4 (b'f' ∷ []) (b'{' ∷ b'}' ∷ [])
well_formed = record {
  its_id = refl;
  fits = (omega arith, omega arith);
  named = refl;
  argued = refl;
  tools_given = refl;
}

replay_window_example :
    let (status, r', result, made) = request registry (ask (pos 4)) in
    let later = run r' requests in
    (made ≡ invocation_of 4 (b'{' ∷ b'}' ∷ []) (find_tool registry (b'f' ∷ [])))
    × (request later (ask (pos 4)) ≡ (status, later, record result { cached = true }, none))
    × ((other : ℕ)
        → other ≢ 77
        → registry_call
            (λ callback arguments. yes)
            later
            (record (ask (pos 4)).call { argument_digest = other })
            no_result
          ≡ (err_duplicate_conflict, later, failed err_duplicate_conflict, none))
replay_window_example =
    replay_window registry (ask (pos 4)) 4 (b'f' ∷ []) (b'{' ∷ b'}' ∷ []) requests (ask (pos 4))
      registry-IsRegistry well_formed (omega arith) (omega arith) refl

abbrev method : Option (List ℕ)
method = some (b'c' ∷ b'a' ∷ b'l' ∷ b'l' ∷ [])
