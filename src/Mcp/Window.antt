-- ===== src/Mcp/Window.antt =====
-- How long the entry of a request stays in the cache.
use veetee_vuqb.Base.{
  ℕ, zero, suc, ◌+◌, ◌%◌, ◌≤◌, ◌<◌, ◌≡◌, ◌≢◌, refl, sym, ap, ◌∙◌, true, false, ◌&&◌, arith, Option,
  some, List, [], ◌∷◌, length, get_elem?, set, All, get_elem?-set_self, get_elem?-set_ne, ltb,
}
use native.Mathlib.Decide.{ℕ_discrete}
use veetee_vuqb.Mcp.{
  max_cache_entries, McpResult, McpCallResult, CacheEntry, Registry, zero_entry, find_tool,
  find_cache, is_null,
}
use veetee_vuqb.Mcp.Call.{Answer, Invocation, run_tool, call_new}
use veetee_vuqb.Mcp.Cache.{
  IsBelow, IsRegistry, run_tool-id, call_new-IsRegistry, Outcome, inert, above,
  registry_call-Outcome,
}
use veetee_vuqb.Mcp.Calls.{Request, request}

-- The entry at index `p`, and no other, answers the request `id`.
pub record AnsweredAt (cache : List CacheEntry) (p id : ℕ) (entry : CacheEntry) : Type 0 where
  pub here : get_elem? cache p ≡ some entry
  pub is_used : entry.used ≡ true
  pub its_id : entry.request_id ≡ id
  pub alone :
      (j : ℕ) (other : CacheEntry)
      → j ≢ p
      → get_elem? cache j ≡ some other
      → other.used ≡ true
      → other.request_id ≢ id

pub find_cache-AnsweredAt :
    (cache : List CacheEntry) (p id : ℕ) (entry : CacheEntry)
    → AnsweredAt cache p id entry
    → find_cache cache id ≡ some entry
unfolding find_cache
find_cache-AnsweredAt [] p id entry v = absurd (cc (v.here))
find_cache-AnsweredAt (e ∷ es) zero id entry v = ground (arith, v.here, v.is_used, v.its_id)
find_cache-AnsweredAt (e ∷ es) (suc p) id entry v =
    let rest : AnsweredAt es p id entry = record {
      here = v.here;
      is_used = v.is_used;
      its_id = v.its_id;
      alone = λ j other ne at used. v.alone (suc j) other (λ q. ne (omega arith)) at used;
    } in
    let later = find_cache-AnsweredAt es p id entry rest in
    let first = v.alone 0 e (λ q. absurd (omega arith)) refl in ground (arith, later, first)

-- `k` slots have been taken since the request `id` got the slot `p`.
pub record InWindow (r : Registry) (p id : ℕ) (entry : CacheEntry) (k : ℕ) : Type 0 where
  valid : IsRegistry r
  pub answers_at : AnsweredAt r.cache p id entry
  slot_in : p < max_cache_entries
  next : r.next_cache_slot ≡ (p + 1 + k) % max_cache_entries
  pub seen : id ≤ r.highest_request_id
  pub usable : (ltb 0 r.tool_count && is_null r.tools) ≡ false

-- The entry that a new request stores.
abbrev pub stored : (ℕ → List ℕ → Answer) → Registry → ℕ → ℕ → List ℕ → List ℕ → CacheEntry
stored answers r id digest name arguments =
    (run_tool answers (find_tool r name)
      (record zero_entry { used = true; request_id = id; argument_digest = digest }) id arguments).0

below_at :
    (n : ℕ) (cache : List CacheEntry) (j : ℕ) (other : CacheEntry)
    → All (IsBelow n) cache
    → get_elem? cache j ≡ some other
    → other.used ≡ true
    → other.request_id ≤ n
below_at n [] j other h e u = absurd (cc)
below_at n (x ∷ xs) zero other h e u =
    let same : x ≡ other = cc in
    omega (
      arith,
      h.0 (ap (λ (c : CacheEntry). c.used) same ∙ u),
      ap (λ (c : CacheEntry). c.request_id) same,
    )
below_at n (x ∷ xs) (suc j) other h e u = below_at n xs j other h.1 e u

module _ (answers : ℕ → List ℕ → Answer) (r : Registry) (id digest : ℕ)
    (name arguments : List ℕ) where
  pub opens :
      IsRegistry r
      → (ltb 0 r.tool_count && is_null r.tools) ≡ false
      → r.highest_request_id < id
      → InWindow
          (call_new answers r id digest name arguments).1
          r.next_cache_slot
          id
          (stored answers r id digest name arguments)
          0
  unfolding call_new
  opens v usable h =
      let entry = stored answers r id digest name arguments in
      let same =
        run_tool-id answers (find_tool r name)
          (record zero_entry { used = true; request_id = id; argument_digest = digest }) id
          arguments in
      record {
        valid = call_new-IsRegistry answers r id digest name arguments v (omega arith);
        answers_at = record {
          here = get_elem?-set_self r.cache r.next_cache_slot entry (omega (arith, v.size, v.slot));
          is_used = same.0;
          its_id = same.1;
          alone = λ j other ne at u q.
              let old = sym (get_elem?-set_ne r.cache entry (λ z. ne (sym z))) ∙ at in
              absurd
                (omega (arith, below_at r.highest_request_id r.cache j other v.below old u, q));
        };
        slot_in = v.slot;
        next = omega arith;
        seen = omega arith;
        usable = usable;
      }

  keeps :
      (p old_id : ℕ) (entry : CacheEntry) (k : ℕ)
      → InWindow r p old_id entry k
      → k < 15
      → r.highest_request_id < id
      → InWindow (call_new answers r id digest name arguments).1 p old_id entry (suc k)
  unfolding call_new
  keeps p old_id entry k v room h =
      let fresh = stored answers r id digest name arguments in
      let same =
        run_tool-id answers (find_tool r name)
          (record zero_entry { used = true; request_id = id; argument_digest = digest }) id
          arguments in
      let elsewhere : r.next_cache_slot ≢ p = omega (arith, v.next, v.slot_in) in
      record {
        valid = call_new-IsRegistry answers r id digest name arguments v.valid (omega arith);
        answers_at = record {
          here = get_elem?-set_ne r.cache fresh elsewhere ∙ v.answers_at.here;
          is_used = v.answers_at.is_used;
          its_id = v.answers_at.its_id;
          alone = λ j other ne at u. elim (ℕ_discrete r.next_cache_slot j) [
            | yes e ↦
                let written : get_elem? (set r.cache r.next_cache_slot fresh) j ≡ some fresh =
                  rw (← e) (
                    get_elem?-set_self r.cache r.next_cache_slot fresh
                      (omega (arith, v.valid.size, v.valid.slot))) in
                let its : other ≡ fresh = cc (written, at) in
                λ q. omega (arith, ap (λ (c : CacheEntry). c.request_id) its, same, q, h, v.seen)
            | no differ ↦
                v.answers_at.alone j other ne (sym (get_elem?-set_ne r.cache fresh differ) ∙ at) u
          ];
        };
        slot_in = v.slot_in;
        next = omega (arith, v.next);
        seen = omega (arith, v.seen);
        usable = v.usable;
      }

-- The registry after a list of requests.
pub run : Registry → List Request → Registry
run r [] = r
run r (q ∷ qs) = run (request r q).1 qs

step_window :
    (r : Registry) (q : Request) (p id : ℕ) (entry : CacheEntry) (k : ℕ)
    → InWindow r p id entry k
    → k < 15
    → (k' : ℕ) × (k' ≤ suc k) × InWindow (request r q).1 p id entry k'
step_window r q p id entry k v room =
    Outcome-preserves (request r q) (registry_call-Outcome q.answers r q.call q.result)
  where
    Outcome-preserves :
        (out : McpResult × Registry × McpCallResult × Option Invocation)
        → Outcome q.answers r q.call out
        → (k' : ℕ) × (k' ≤ suc k) × InWindow out.1 p id entry k'
    Outcome-preserves out (inert same none_made) = (k, omega arith, rw same v)
    Outcome-preserves out (above new name arguments h e) =
        let kept =
          keeps q.answers r new q.call.argument_digest name arguments p id entry k v room h in
        (suc k, omega arith, rw e kept)

pub run_window :
    (r : Registry) (qs : List Request) (p id : ℕ) (entry : CacheEntry) (k : ℕ)
    → InWindow r p id entry k
    → k + length qs ≤ 15
    → (k' : ℕ) × InWindow (run r qs) p id entry k'
unfolding run
run_window r [] p id entry k v room = (k, v)
run_window r (q ∷ qs) p id entry k v room =
    let (k', le, v') = step_window r q p id entry k v (omega arith) in
    run_window (request r q).1 qs p id entry k' v' (omega arith)
