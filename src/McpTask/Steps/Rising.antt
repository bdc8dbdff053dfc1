-- ===== src/McpTask/Steps/Rising.antt =====
-- Over any interleaving, no request id is executed twice between two resets of the registry.
use veetee_vuqb.Base.{
  ℕ, ◌≤◌, ◌<◌, ◌≡◌, ◌≢◌, refl, ap, subst, ◌∙◌, Bool, not, ◌&&◌, Option, none, some, List, [], ◌∷◌,
  arith, Bool-cases, Option-cases, inl, inr, ◌⊎◌,
}
use veetee_vuqb.Json.{CJson}
use veetee_vuqb.Mcp.{Registry, registry_reset_session}
use veetee_vuqb.Mcp.Call.{Answer, Invocation}
use veetee_vuqb.McpDispatch.Rising.{Moves, dispatch_message-Moves}
use veetee_vuqb.McpTask.{TaskRequest, McpTask, reset_registry, drain, enqueue_text, enqueue}
use veetee_vuqb.McpTask.Steps.{
  Phase, idle, popped, held, answered, sending, draining, finished, System, Event, enqueued,
  registry_reset, queue_drained, session_changed, stop_requested, received, dispatched, checked,
  responded, Effect, no_effect, receive_phase, dispatch_phase, respond_phase, check_phase,
  check_session, free_request, free_from, reply_of, receive_request, receive_from, receive,
  after_dispatch, dispatch, respond, step,
}

-- What a run shows of the registry: the invocations, and the resets between them.
pub data Mark : Type 0 where
  executed : Invocation → Mark
  epoch : Mark

-- Request ids rise strictly from `n` on, and from 0 on after each reset.
abbrev pub RisesByEpoch : ℕ → List Mark → Type 0
RisesByEpoch n [] = Unit
RisesByEpoch n (executed i ∷ rest) = (n < i.request_id) × RisesByEpoch i.request_id rest
RisesByEpoch n (epoch ∷ rest) = RisesByEpoch 0 rest

RisesByEpoch-lower : (n m : ℕ) (l : List Mark) → n ≤ m → RisesByEpoch m l → RisesByEpoch n l
RisesByEpoch-lower n m [] h v = tt
RisesByEpoch-lower n m (executed i ∷ rest) h v = (omega arith, v.1)
RisesByEpoch-lower n m (epoch ∷ rest) h v = v

abbrev pub mark_made : Option Invocation → List Mark → List Mark
mark_made none rest = rest
mark_made (some i) rest = executed i ∷ rest

RisesByEpoch-made :
    (n m : ℕ) (made : Option Invocation) (rest : List Mark)
    → n ≤ m
    → ((i : Invocation) → made ≡ some i → (n < i.request_id) × (i.request_id ≡ m))
    → RisesByEpoch m rest
    → RisesByEpoch n (mark_made made rest)
RisesByEpoch-made n m none rest h f v = RisesByEpoch-lower n m rest h v
RisesByEpoch-made n m (some i) rest h f v =
    let here = f i refl in (here.0, RisesByEpoch-lower i.request_id m rest (omega (arith, here)) v)

enqueue-registry :
    (j : CJson) (task : McpTask) (message : Option j.Value) (session_id : Option (List ℕ))
    (allocated : Bool)
    → (enqueue j task message session_id allocated).1.registry ≡ task.registry
unfolding enqueue enqueue_text
enqueue-registry j task none session_id allocated = refl
enqueue-registry j task (some message) none allocated = refl
enqueue-registry j task (some message) (some session_id) allocated = ground arith

drain-registry : (task : McpTask) → (drain task).registry ≡ task.registry
unfolding drain
drain-registry task = refl

module _ (j : CJson) where
  -- The mark of the registry that a system has.
  abbrev highest : System j → ℕ
  highest s = s.task.registry.highest_request_id

  unfoldable StepMoves : System j → System j × Effect → Type 0
  StepMoves s (s', effect) =
      (highest s ≤ highest s')
      × ((i : Invocation)
          → effect.made ≡ some i
          → (highest s < i.request_id) × (i.request_id ≡ highest s'))

  dispatch-StepMoves :
      (s : System j) (locked : Bool) (answers : ℕ → List ℕ → Answer) (request : TaskRequest)
      (message : j.Value)
      → StepMoves s (dispatch j s locked answers request message)
  unfolding dispatch after_dispatch StepMoves Moves
  dispatch-StepMoves s locked answers request message = elim (Option-cases s.task.output) [
    | inl e ↦ rw (dispatch, e) (omega arith, λ i made. absurd (cc))
    | inr (output, e) ↦ elim (Bool-cases (not (s.task.registry_lock && locked))) [
      | inl off ↦ rw (dispatch, e, off) (omega arith, λ i made. absurd (cc))
      | inr on ↦
          rw (dispatch, e, on)
            (dispatch_message-Moves j (reply_of j s.task request output) answers s.task.server_name
              s.task.server_version s.task.registry message)
    ]
  ]

  quiet-StepMoves :
      (s s' : System j) (effect : Effect)
      → s'.task.registry ≡ s.task.registry
      → effect.made ≡ none
      → StepMoves s (s', effect)
  unfolding StepMoves
  quiet-StepMoves s s' effect same none_made =
      let mark : highest s' ≡ highest s = ap (λ (r : Registry). r.highest_request_id) same in
      (omega (arith, mark), λ i made. absurd (cc))

  receive-registry :
      (s : System j) (requests : List TaskRequest)
      → (receive_request j s requests).task.registry ≡ s.task.registry
  unfolding receive_request
  receive-registry s [] = refl
  receive-registry s (request ∷ requests) = refl

  receive_from-registry :
      (s : System j) (queue : Option (List TaskRequest))
      → (receive_from j s queue).task.registry ≡ s.task.registry
  receive_from-registry s none = refl
  receive_from-registry s (some requests) = receive-registry s requests

  receive_queue-registry : (s : System j) → (receive j s).task.registry ≡ s.task.registry
  receive_queue-registry s = ground (arith, receive_from-registry s s.task.queue)

  free-registry :
      (s : System j) (queue : Option (List TaskRequest))
      → (free_from j s queue).task.registry ≡ s.task.registry
  unfolding free_request
  free-registry s none = refl
  free-registry s (some []) = refl
  free-registry s (some (request ∷ requests)) = refl

  respond-StepMoves :
      (s : System j) (request : TaskRequest) (text : List ℕ)
      → StepMoves s (respond j s request text)
  unfolding respond
  respond-StepMoves s request text = quiet-StepMoves s _ _ refl refl

  step-StepMoves :
      (s : System j) (event : Event j) → event ≢ registry_reset → StepMoves s (step j s event)
  unfolding step
  step-StepMoves s (enqueued message session_id allocated) ne =
      quiet-StepMoves s _ _ (enqueue-registry j s.task message session_id allocated) refl
  step-StepMoves s registry_reset ne = absurd (ne refl)
  step-StepMoves s queue_drained ne = quiet-StepMoves s _ _ (drain-registry s.task) refl
  step-StepMoves s (session_changed session) ne = quiet-StepMoves s _ _ refl refl
  step-StepMoves s stop_requested ne = quiet-StepMoves s _ _ refl refl
  step-StepMoves s received ne = by_phase s.phase
    where
      by_phase : (phase : Phase j) → StepMoves s (receive_phase j s phase)
      by_phase idle = quiet-StepMoves s (receive j s) no_effect (receive_queue-registry s) refl
      by_phase (popped request) = quiet-StepMoves s s no_effect refl refl
      by_phase (held request message) = quiet-StepMoves s s no_effect refl refl
      by_phase (answered request text) = quiet-StepMoves s s no_effect refl refl
      by_phase (sending request text) = quiet-StepMoves s s no_effect refl refl
      by_phase draining =
          quiet-StepMoves s (free_from j s s.task.queue) no_effect (free-registry s s.task.queue)
            refl
      by_phase finished = quiet-StepMoves s s no_effect refl refl
  step-StepMoves s (dispatched locked answers) ne = by_phase s.phase
    where
      by_phase : (phase : Phase j) → StepMoves s (dispatch_phase j s locked answers phase)
      by_phase idle = quiet-StepMoves s s no_effect refl refl
      by_phase (popped request) = quiet-StepMoves s s no_effect refl refl
      by_phase (held request message) = dispatch-StepMoves s locked answers request message
      by_phase (answered request text) = quiet-StepMoves s s no_effect refl refl
      by_phase (sending request text) = quiet-StepMoves s s no_effect refl refl
      by_phase draining = quiet-StepMoves s s no_effect refl refl
      by_phase finished = quiet-StepMoves s s no_effect refl refl
  step-StepMoves s checked ne = by_phase s.phase
    where
      by_phase : (phase : Phase j) → StepMoves s (check_phase j s phase)
      by_phase idle = quiet-StepMoves s s no_effect refl refl
      by_phase (popped request) = quiet-StepMoves s _ no_effect refl refl
      by_phase (held request message) = quiet-StepMoves s s no_effect refl refl
      by_phase (answered request text) =
          unfold check_session in quiet-StepMoves s _ no_effect refl refl
      by_phase (sending request text) = quiet-StepMoves s s no_effect refl refl
      by_phase draining = quiet-StepMoves s s no_effect refl refl
      by_phase finished = quiet-StepMoves s s no_effect refl refl
  step-StepMoves s responded ne = by_phase s.phase
    where
      by_phase : (phase : Phase j) → StepMoves s (respond_phase j s phase)
      by_phase idle = quiet-StepMoves s s no_effect refl refl
      by_phase (popped request) = quiet-StepMoves s s no_effect refl refl
      by_phase (held request message) = quiet-StepMoves s s no_effect refl refl
      by_phase (answered request text) = quiet-StepMoves s s no_effect refl refl
      by_phase (sending request text) = respond-StepMoves s request text
      by_phase draining = quiet-StepMoves s s no_effect refl refl
      by_phase finished = quiet-StepMoves s s no_effect refl refl

  -- What a run shows of the registry.
  abbrev pub marks_of : Event j → Effect → List Mark → List Mark
  marks_of registry_reset effect rest = epoch ∷ rest
  marks_of _ effect rest = mark_made effect.made rest

  pub marks : System j → List (Event j) → List Mark
  marks s [] = []
  marks s (event ∷ events) =
      let (s', effect) = step j s event in let rest = marks s' events in marks_of event effect rest

  marks_of_made :
      (event : Event j) (effect : Effect) (rest : List Mark)
      → event ≢ registry_reset
      → marks_of event effect rest ≡ mark_made effect.made rest
  marks_of_made (enqueued message session_id allocated) effect rest ne = refl
  marks_of_made registry_reset effect rest ne = absurd (ne refl)
  marks_of_made queue_drained effect rest ne = refl
  marks_of_made (session_changed session) effect rest ne = refl
  marks_of_made stop_requested effect rest ne = refl
  marks_of_made received effect rest ne = refl
  marks_of_made (dispatched locked answers) effect rest ne = refl
  marks_of_made checked effect rest ne = refl
  marks_of_made responded effect rest ne = refl

  is_reset : (event : Event j) → (event ≡ registry_reset) ⊎ (event ≢ registry_reset)
  is_reset (enqueued message session_id allocated) = inr (λ e. cc)
  is_reset registry_reset = inl refl
  is_reset queue_drained = inr (λ e. cc)
  is_reset (session_changed session) = inr (λ e. cc)
  is_reset stop_requested = inr (λ e. cc)
  is_reset received = inr (λ e. cc)
  is_reset (dispatched locked answers) = inr (λ e. cc)
  is_reset checked = inr (λ e. cc)
  is_reset responded = inr (λ e. cc)

  highest-reset : (s : System j) → highest (step j s registry_reset).0 ≡ 0
  unfolding step reset_registry registry_reset_session
  highest-reset s = refl

  -- Whatever order the task, its callers and the transport run in, and whatever they and the libraries
  -- are given, the ids of the requests that invoke a tool rise strictly from the registry's high-water
  -- mark on, and from 0 on after each reset of the registry: between two resets no id is executed twice.
  pub marks-rise :
      (s : System j) (events : List (Event j))
      → RisesByEpoch s.task.registry.highest_request_id (marks s events)
  unfolding marks StepMoves
  marks-rise s [] = tt
  marks-rise s (event ∷ events) =
      let s' = (step j s event).0 in
      let effect = (step j s event).1 in
      let rest = marks-rise s' events in
      elim (is_reset event) [
        | inl e ↦
            let from_zero : highest s' ≡ 0 =
              ap (λ (ev : Event j). highest (step j s ev).0) e ∙ highest-reset s in
            let shape : marks_of event effect (marks s' events) ≡ epoch ∷ marks s' events =
              ap (λ (ev : Event j). marks_of ev effect (marks s' events)) e in
            rw shape (subst (λ n. RisesByEpoch n (marks s' events)) from_zero rest)
        | inr ne ↦
            let moves = step-StepMoves s event ne in
            rw (marks_of_made event effect (marks s' events) ne) (
              RisesByEpoch-made (highest s) (highest s') effect.made (marks s' events) moves.0
                moves.1 rest)
      ]
