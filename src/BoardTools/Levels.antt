-- ===== src/BoardTools/Levels.antt =====
-- The levels of an output: their bounds whatever a call asks for, the pin that follows them, and what a
-- call that is refused leaves.
use veetee_vuqb.Base.{
  ℕ, ◌≤◌, ◌<◌, ◌≡◌, ◌≢◌, refl, Bool, true, false, leb, ◌==◌, Option, none, some, List, [], ◌∷◌,
  arith, Option-cases, Bool-cases, inl, length, inr, ◌⊎◌, sym, subst,
}
use veetee_vuqb.Json.{CJson}
use veetee_vuqb.Mcp.{McpResult}
use veetee_vuqb.BoardTools.{Output, Request, read_request}
use veetee_vuqb.BoardTools.Invoke.{
  Driver, Action, level_of, drive, store, write_result, output_text, parse_object, invoke_parsed,
  invoke_output,
}
use veetee_vuqb.BoardTools.Requests.{IsRequest, Holds, read_request-IsRequest}

-- An output that is on has a brightness of 1 to 100 per cent and one that is off has 0, and its channels
-- are bytes.
pub record IsLevel (o : Output) : Type 0 where
  pub bright : o.brightness ≤ 100
  pub lit : o.enabled ≡ true → 0 < o.brightness
  pub dark : o.enabled ≡ false → o.brightness ≡ 0
  pub colours : (o.red ≤ 255) × (o.green ≤ 255) × (o.blue ≤ 255)

store-IsLevel : (o : Output) (r : Request) → r.brightness ≤ 100 → IsLevel (store o r)
unfolding store
store-IsLevel o r h = record {
  bright = ground (arith, h);
  lit = λ e. ground (arith, h);
  dark = λ e. ground arith;
  colours = (omega arith, omega arith, omega arith);
}

-- The drivers change nothing of an output but its strip, and nothing of a request but its channels.
drive-keeps :
    (driver : Driver) (o : Output) (r : Request)
    → let (o', r', done, actions) = drive driver o r in
      (r'.brightness ≡ r.brightness)
      × (r'.enabled ≡ r.enabled)
      × (o' ≡ record o { rgb_handle = o'.rgb_handle })
unfolding drive
drive-keeps driver o r = (ground arith, ground arith, ground arith)

with_handle-IsLevel : (o : Output) (b : Bool) → IsLevel o → IsLevel (record o { rgb_handle = b })
with_handle-IsLevel o b v = record {
  bright = v.bright;
  lit = v.lit;
  dark = v.dark;
  colours = v.colours;
}

invoke_parsed-IsLevel :
    (driver : Driver) (o : Output) (capacity : ℕ) (request : Option Request)
    → IsLevel o
    → Holds IsRequest request
    → IsLevel (invoke_parsed driver o capacity request).0
unfolding invoke_parsed
invoke_parsed-IsLevel driver o capacity none v h = v
invoke_parsed-IsLevel driver o capacity (some r) v h =
    let (o', r', done, actions) = drive driver o r in
    let (bright, enabled, same) = drive-keeps driver o r in
    elim (Bool-cases done) [
      | inr e ↦
          rw (invoke_parsed, e) (subst IsLevel (sym same) (with_handle-IsLevel o o'.rgb_handle v))
      | inl e ↦ rw (invoke_parsed, e) (store-IsLevel o' r' (rw bright h.bright))
    ]

drive-pin :
    (driver : Driver) (o : Output) (r : Request)
    → o.rgb ≡ false
    → drive driver o r
      ≡ (o, r, driver.level_set, Action.set_level o.gpio (level_of o r.enabled) ∷ [])
unfolding drive
drive-pin driver o r plain = ground arith

write_result-invoked :
    (capacity : ℕ) (text : List ℕ) → (write_result capacity text).0 ≢ McpResult.err_invoke
write_result-invoked capacity text = elim (Bool-cases (capacity == 0)) [
  | inl e ↦ rw e (λ q. cc)
  | inr e ↦ elim (Bool-cases (leb capacity (length text))) [
    | inl f ↦ rw (e, f) (λ q. cc)
    | inr f ↦ rw (e, f) (λ q. cc)
  ]
]

-- What a call does to a pin: either the pin was set to the level of what the output then says, and the
-- result is what write_result makes of that output, or the call returns VT_MCP_ERR_INVOKE and the output is
-- as before.
abbrev pub Follows : Output → ℕ → Output × (McpResult × List ℕ) × List Action → Type 0
Follows o capacity (o', (result, text), actions) =
    ((result ≢ McpResult.err_invoke)
      × ((result, text) ≡ write_result capacity (output_text o'))
      × (actions ≡ Action.set_level o.gpio (level_of o o'.enabled) ∷ []))
    ⊎ ((result ≡ McpResult.err_invoke) × (o' ≡ o))

invoke_parsed-Follows :
    (driver : Driver) (o : Output) (capacity : ℕ) (request : Option Request)
    → o.rgb ≡ false
    → Follows o capacity (invoke_parsed driver o capacity request)
unfolding invoke_parsed store
invoke_parsed-Follows driver o capacity none plain = inr (refl, refl)
invoke_parsed-Follows driver o capacity (some r) plain = elim (Bool-cases driver.level_set) [
  | inr e ↦ rw (invoke_parsed, drive-pin driver o r plain, e) (inr (refl, refl))
  | inl e ↦
      rw (invoke_parsed, drive-pin driver o r plain, e)
        (inl (write_result-invoked capacity (output_text (store o r)), refl, refl))
]

module _ (j : CJson) where
  -- A call of an output tool, whatever its arguments, its buffer and the drivers answer, keeps the levels in
  -- their bounds.
  pub invoke_output-IsLevel :
      (driver : Driver) (o : Output) (arguments_json : List ℕ) (capacity : ℕ)
      → IsLevel o
      → IsLevel (invoke_output j driver o arguments_json capacity).0
  unfolding invoke_output
  invoke_output-IsLevel driver o arguments_json capacity v =
      elim (Option-cases (parse_object j arguments_json)) [
        | inl e ↦ rw (invoke_output, e) (invoke_parsed-IsLevel driver o capacity none v tt)
        | inr (arguments, e) ↦
            rw (invoke_output, e)
              (invoke_parsed-IsLevel driver o capacity (read_request j arguments o) v
                (read_request-IsRequest j arguments o v.bright))
      ]

  -- A call of the tool of an output on a pin either sets the pin, once, to the level of what the output then
  -- says, and returns what write_result makes of that output, which for a buffer that is too small is an error
  -- although the pin and the output have changed; or it returns VT_MCP_ERR_INVOKE and leaves the output as
  -- before.
  pub invoke_output-Follows :
      (driver : Driver) (o : Output) (arguments_json : List ℕ) (capacity : ℕ)
      → o.rgb ≡ false
      → Follows o capacity (invoke_output j driver o arguments_json capacity)
  unfolding invoke_output
  invoke_output-Follows driver o arguments_json capacity plain =
      invoke_parsed-Follows driver o capacity
        (elim (parse_object j arguments_json) [
          | none ↦ none
          | some arguments ↦ read_request j arguments o
        ])
        plain
