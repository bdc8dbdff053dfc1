-- ===== src/McpTask/Steps/Responses.antt =====
-- Which requests are answered: each at most once, in the order in which the loop took them.
use veetee_vuqb.Base.{ℕ, Option, none, some, List, [], ◌∷◌, ◌++◌}
use veetee_vuqb.Json.{CJson}
use veetee_vuqb.McpTask.{TaskRequest}
use veetee_vuqb.McpTask.Steps.{
  Phase, idle, popped, held, answered, sending, draining, finished, System, Event, step,
}

-- The first list is the second one with some of its entries left out.
pub data Subsequence {ℓ} {A : Type ℓ} : List A → List A → Type ℓ where
  done : Subsequence [] []
  skip : (x : A) {xs ys : List A} → Subsequence xs ys → Subsequence xs (x ∷ ys)
  keep : (x : A) {xs ys : List A} → Subsequence xs ys → Subsequence (x ∷ xs) (x ∷ ys)

-- The request that a response is sent for.
abbrev pub answered_by : Option (TaskRequest × List ℕ) → List TaskRequest
answered_by none = []
answered_by (some (request, text)) = request ∷ []

module _ (j : CJson) where
  -- The request in the loop's hands.
  abbrev pub pending : Phase j → List TaskRequest
  pending idle = []
  pending (popped request) = request ∷ []
  pending (held request message) = request ∷ []
  pending (answered request text) = request ∷ []
  pending (sending request text) = request ∷ []
  pending draining = []
  pending finished = []

  pub all_answered : System j → List (Event j) → List TaskRequest
  all_answered s [] = []
  all_answered s (event ∷ events) =
      answered_by (step j s event).1.response ++ all_answered (step j s event).0 events
