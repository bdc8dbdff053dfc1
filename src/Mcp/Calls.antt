-- ===== src/Mcp/Calls.antt =====
-- At most one invocation for each request id of a session.
use veetee_vuqb.Base.{
  ℕ, ◌≤◌, ◌<◌, ◌≡◌, refl, sym, ap, ◌∙◌, arith, Option, none, some, List, [], ◌∷◌,
}
use veetee_vuqb.Mcp.{McpResult, McpCall, McpCallResult, Registry}
use veetee_vuqb.Mcp.Call.{Answer, Invocation, run_tool, call_new, registry_call}
use veetee_vuqb.Mcp.Cache.{Outcome, inert, above, registry_call-Outcome}

-- A call of vt_mcp_registry_call: what callbacks answer during it, the request, and the caller's
-- result object.
pub record Request : Type 0 where
  pub answers : ℕ → List ℕ → Answer
  pub call : McpCall
  pub result : McpCallResult

abbrev pub request : Registry → Request → McpResult × Registry × McpCallResult × Option Invocation
request r q = registry_call q.answers r q.call q.result

abbrev pub add : Option Invocation → List Invocation → List Invocation
add none rest = rest
add (some i) rest = i ∷ rest

-- The invocations that a session's requests make, in order.
pub invocations : Registry → List Request → List Invocation
invocations r [] = []
invocations r (q ∷ qs) =
    let (status, r', result, made) = request r q in let rest = invocations r' qs in add made rest

-- The request ids of a list of invocations rise, from above `n` on.
abbrev pub IdsRise : ℕ → List Invocation → Type 0
IdsRise n [] = Unit
IdsRise n (i ∷ is) = (n < i.request_id) × IdsRise i.request_id is

IdsRise-lower : (n m : ℕ) (l : List Invocation) → n ≤ m → IdsRise m l → IdsRise n l
IdsRise-lower n m [] h v = tt
IdsRise-lower n m (i ∷ is) h v = (omega arith, v.1)

made_by_new :
    (answers : ℕ → List ℕ → Answer) (r : Registry) (id digest : ℕ) (name arguments : List ℕ)
    (i : Invocation)
    → (call_new answers r id digest name arguments).3 ≡ some i
    → i.request_id ≡ id
unfolding call_new run_tool
made_by_new answers r id digest name arguments i e = ground arith

highest_of_new :
    (answers : ℕ → List ℕ → Answer) (r : Registry) (id digest : ℕ) (name arguments : List ℕ)
    → (call_new answers r id digest name arguments).1.highest_request_id ≡ id
unfolding call_new
highest_of_new answers r id digest name arguments = refl

-- How one call moves the high-water mark, and where its invocation stands.
pub call_moves :
    (r : Registry) (q : Request)
    → (r.highest_request_id ≤ (request r q).1.highest_request_id)
      × ((i : Invocation)
          → (request r q).3 ≡ some i
          → (r.highest_request_id < i.request_id)
            × (i.request_id ≡ (request r q).1.highest_request_id))
call_moves r q = Outcome-preserves (request r q) (registry_call-Outcome q.answers r q.call q.result)
  where
    Outcome-preserves :
        (out : McpResult × Registry × McpCallResult × Option Invocation)
        → Outcome q.answers r q.call out
        → (r.highest_request_id ≤ out.1.highest_request_id)
          × ((i : Invocation)
              → out.3 ≡ some i
              → (r.highest_request_id < i.request_id) × (i.request_id ≡ out.1.highest_request_id))
    Outcome-preserves out (inert same none_made) = (rw same (omega arith), λ i e. absurd (cc))
    Outcome-preserves out (above id name arguments h e) =
        let top : out.1.highest_request_id ≡ id =
          ap
            (λ (o : McpResult × Registry × McpCallResult × Option Invocation).
              o.1.highest_request_id)
            e
          ∙ highest_of_new q.answers r id q.call.argument_digest name arguments in
        (
          omega (arith, top),
          λ i made.
              let at_id : i.request_id ≡ id =
                made_by_new q.answers r id q.call.argument_digest name arguments i (
                  sym (ap (λ (o : McpResult × Registry × McpCallResult × Option Invocation). o.3) e)
                  ∙ made) in
              (omega (arith, at_id), omega (arith, at_id, top)),
        )

pub rise_step :
    (n m : ℕ) (made : Option Invocation) (rest : List Invocation)
    → n ≤ m
    → ((i : Invocation) → made ≡ some i → (n < i.request_id) × (i.request_id ≡ m))
    → IdsRise m rest
    → IdsRise n (add made rest)
rise_step n m none rest h f v = IdsRise-lower n m rest h v
rise_step n m (some i) rest h f v =
    let here = f i refl in (here.0, IdsRise-lower i.request_id m rest (omega (arith, here)) v)

-- Whatever requests a session receives, repeated, out of order or malformed, the ids of the requests
-- that invoke a tool rise strictly from the high-water mark on: no request id is executed twice.
pub invocations-rise :
    (r : Registry) (requests : List Request) → IdsRise r.highest_request_id (invocations r requests)
unfolding invocations
invocations-rise r [] = tt
invocations-rise r (q ∷ qs) =
    let moves = call_moves r q in
    rise_step r.highest_request_id (request r q).1.highest_request_id (request r q).3
      (invocations (request r q).1 qs) moves.0 moves.1 (invocations-rise (request r q).1 qs)
