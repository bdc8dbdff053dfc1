-- ===== src/McpTask/Steps/Taking.antt =====
-- Where requests leave the queue: the receipt in the loop of vt_mcp_task_run, for handling, and the receipts
-- behind it, for freeing, which come after all that is handled.
use veetee_vuqb.Base.{
  ◌≡◌, refl, sym, Bool, true, false, Option, none, some, List, [], ◌∷◌, ◌++◌, Bool-cases, ◌⊎◌, inl,
  inr, append_assoc, append-nil,
}
use veetee_vuqb.Json.{CJson}
use veetee_vuqb.McpTask.{TaskRequest}
use veetee_vuqb.McpTask.Steps.{
  receive_phase, Phase, idle, popped, held, answered, sending, draining, finished, System, Event,
  enqueued, registry_reset, queue_drained, session_changed, stop_requested, received, dispatched,
  checked, responded, free_request, free_from, step,
}

abbrev pub queue_of : Option (List TaskRequest) → List TaskRequest
queue_of none = []
queue_of (some requests) = requests

abbrev pub head_of : List TaskRequest → List TaskRequest
head_of [] = []
head_of (request ∷ requests) = request ∷ []

module _ (j : CJson) where
  abbrev pub handled_from : Phase j → Bool → List TaskRequest → List TaskRequest
  handled_from idle false requests = head_of requests
  handled_from idle true requests = []
  handled_from (popped request) stopped requests = []
  handled_from (held request message) stopped requests = []
  handled_from (answered request text) stopped requests = []
  handled_from (sending request text) stopped requests = []
  handled_from draining stopped requests = []
  handled_from finished stopped requests = []

  abbrev pub freed_from : Phase j → List TaskRequest → List TaskRequest
  freed_from idle requests = []
  freed_from (popped request) requests = []
  freed_from (held request message) requests = []
  freed_from (answered request text) requests = []
  freed_from (sending request text) requests = []
  freed_from draining requests = head_of requests
  freed_from finished requests = []

  -- The request that the loop takes to handle it: the first of the queue, where the loop is idle and not
  -- stopped; and the one that is taken to free it: the first of the queue, behind the loop.
  abbrev pub handled : System j → Event j → List TaskRequest
  handled s received = handled_from s.phase s.task.stop_requested (queue_of s.task.queue)
  handled s _ = []

  abbrev pub freed : System j → Event j → List TaskRequest
  freed s received = freed_from s.phase (queue_of s.task.queue)
  freed s _ = []

  unfoldable pub last_state : System j → List (Event j) → System j
  last_state s [] = s
  last_state s (event ∷ events) = last_state (step j s event).0 events

  unfoldable pub all_handled : System j → List (Event j) → List TaskRequest
  all_handled s [] = []
  all_handled s (event ∷ events) = handled s event ++ all_handled (step j s event).0 events

  unfoldable pub all_freed : System j → List (Event j) → List TaskRequest
  all_freed s [] = []
  all_freed s (event ∷ events) = freed s event ++ all_freed (step j s event).0 events

  -- The task is behind its loop.
  abbrev is_closed : Phase j → Bool
  is_closed idle = false
  is_closed (popped request) = false
  is_closed (held request message) = false
  is_closed (answered request text) = false
  is_closed (sending request text) = false
  is_closed draining = true
  is_closed finished = true

  closed-cases :
      (phase : Phase j) → is_closed phase ≡ true → (phase ≡ draining) ⊎ (phase ≡ finished)
  closed-cases idle h = absurd (cc)
  closed-cases (popped request) h = absurd (cc)
  closed-cases (held request message) h = absurd (cc)
  closed-cases (answered request text) h = absurd (cc)
  closed-cases (sending request text) h = absurd (cc)
  closed-cases draining h = inl refl
  closed-cases finished h = inr refl

  free_from-closed :
      (s : System j) (queue : Option (List TaskRequest))
      → is_closed s.phase ≡ true
      → is_closed (free_from j s queue).phase ≡ true
  unfolding free_request
  free_from-closed s none h = refl
  free_from-closed s (some []) h = refl
  free_from-closed s (some (request ∷ requests)) h = h

  step-closed :
      (s : System j) (event : Event j)
      → is_closed s.phase ≡ true
      → is_closed (step j s event).0.phase ≡ true
  unfolding step
  step-closed s (enqueued message session_id allocated) h = h
  step-closed s registry_reset h = h
  step-closed s queue_drained h = h
  step-closed s (session_changed session) h = h
  step-closed s stop_requested h = h
  step-closed s received h = by_phase s.phase h
    where
      by_phase :
          (phase : Phase j)
          → is_closed phase ≡ true
          → is_closed (receive_phase j s phase).0.phase ≡ true
      by_phase idle e = absurd (cc)
      by_phase (popped request) e = absurd (cc)
      by_phase (held request message) e = absurd (cc)
      by_phase (answered request text) e = absurd (cc)
      by_phase (sending request text) e = absurd (cc)
      by_phase draining e = free_from-closed s s.task.queue h
      by_phase finished e = h
  step-closed s (dispatched locked answers) h = elim (closed-cases s.phase h) [
    | inl e ↦ rw e refl
    | inr e ↦ rw e refl
  ]
  step-closed s checked h = elim (closed-cases s.phase h) [ inl e ↦ rw e refl | inr e ↦ rw e refl ]
  step-closed s responded h = elim (closed-cases s.phase h) [
    | inl e ↦ rw e refl
    | inr e ↦ rw e refl
  ]

  handled_from-closed :
      (phase : Phase j) (stopped : Bool) (requests : List TaskRequest)
      → is_closed phase ≡ true
      → handled_from phase stopped requests ≡ []
  handled_from-closed idle stopped requests h = absurd (cc)
  handled_from-closed (popped request) stopped requests h = refl
  handled_from-closed (held request message) stopped requests h = refl
  handled_from-closed (answered request text) stopped requests h = refl
  handled_from-closed (sending request text) stopped requests h = refl
  handled_from-closed draining stopped requests h = refl
  handled_from-closed finished stopped requests h = refl

  handled-closed :
      (s : System j) (event : Event j) → is_closed s.phase ≡ true → handled s event ≡ []
  handled-closed s received h = handled_from-closed s.phase s.task.stop_requested _ h
  handled-closed s (enqueued message session_id allocated) h = refl
  handled-closed s registry_reset h = refl
  handled-closed s queue_drained h = refl
  handled-closed s (session_changed session) h = refl
  handled-closed s stop_requested h = refl
  handled-closed s (dispatched locked answers) h = refl
  handled-closed s checked h = refl
  handled-closed s responded h = refl

  all_handled-closed :
      (s : System j) (events : List (Event j))
      → is_closed s.phase ≡ true
      → all_handled s events ≡ []
  unfolding all_handled
  all_handled-closed s [] h = refl
  all_handled-closed s (event ∷ events) h =
      rw (handled-closed s event h)
        (all_handled-closed (step j s event).0 events (step-closed s event h))

  freed_from-open :
      (phase : Phase j) (requests : List TaskRequest)
      → is_closed phase ≡ false
      → freed_from phase requests ≡ []
  freed_from-open idle requests h = refl
  freed_from-open (popped request) requests h = refl
  freed_from-open (held request message) requests h = refl
  freed_from-open (answered request text) requests h = refl
  freed_from-open (sending request text) requests h = refl
  freed_from-open draining requests h = absurd (cc)
  freed_from-open finished requests h = refl

  freed-open : (s : System j) (event : Event j) → is_closed s.phase ≡ false → freed s event ≡ []
  freed-open s received h = freed_from-open s.phase _ h
  freed-open s (enqueued message session_id allocated) h = refl
  freed-open s registry_reset h = refl
  freed-open s queue_drained h = refl
  freed-open s (session_changed session) h = refl
  freed-open s stop_requested h = refl
  freed-open s (dispatched locked answers) h = refl
  freed-open s checked h = refl
  freed-open s responded h = refl

  -- What is freed comes behind all that is handled.
  pub handled-freed :
      (s : System j) (event : Event j) (events : List (Event j))
      → let s' = (step j s event).0 in
        (handled s event ++ freed s event) ++ (all_handled s' events ++ all_freed s' events)
        ≡ (handled s event ++ all_handled s' events) ++ (freed s event ++ all_freed s' events)
  handled-freed s event events =
      let s' = (step j s event).0 in
      elim (Bool-cases (is_closed s.phase)) [
        | inl h ↦
            rw (handled-closed s event h, all_handled-closed s' events (step-closed s event h)) refl
        | inr h ↦
            rw (freed-open s event h, append-nil (handled s event))
              (sym (append_assoc (handled s event) (all_handled s' events) (all_freed s' events)))
      ]
