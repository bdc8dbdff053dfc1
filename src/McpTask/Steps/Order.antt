-- ===== src/McpTask/Steps/Order.antt =====
-- The order of requests: they leave the queue as they were accepted into it, to be handled or, once the task
-- is asked to stop, to be freed.
use veetee_vuqb.Base.{
  ℕ, ◌≡◌, ◌≢◌, refl, sym, ap, ap₂, ◌∙◌, Bool, true, false, not, ◌||◌, if◌then◌else◌, ltb, leb, ◌==◌,
  Option, none, some, List, [], ◌∷◌, ◌++◌, length, arith, Bool-cases, Option-cases, inl, inr, All,
  append_assoc, append-nil,
}
use veetee_vuqb.Json.{CJson}
use veetee_vuqb.Mcp.Call.{Answer}
use veetee_vuqb.McpTask.{
  max_session_bytes, max_message_bytes, TaskRequest, TaskResult, McpTask, reset_registry,
  copy_session, queue_send, enqueue_text, enqueue,
}
use veetee_vuqb.McpTask.Steps.{
  Phase, idle, popped, held, answered, sending, draining, finished, System, Event, enqueued,
  registry_reset, queue_drained, session_changed, stop_requested, received, dispatched, checked,
  responded, receive_phase, dispatch_phase, respond_phase, check_phase, check_session, free_request,
  free_from, receive_request, receive_from, receive, after_dispatch, dispatch, respond, step,
}
use veetee_vuqb.McpTask.Steps.Taking.{
  queue_of, head_of, handled_from, freed_from, handled, freed, last_state, all_handled, all_freed,
  handled-freed,
}

abbrev accepted_if : TaskResult → TaskRequest → List TaskRequest
accepted_if TaskResult.ok request = request ∷ []
accepted_if _ request = []

abbrev text_or_empty : Option (List ℕ) → List ℕ
text_or_empty none = []
text_or_empty (some text) = text

module _ (j : CJson) where
  -- The request that a call of enqueue adds, where it succeeds: the session that was given and the
  -- text of the message.
  abbrev accepted_by : McpTask → Option j.Value → Option (List ℕ) → Bool → List TaskRequest
  accepted_by t none session_id allocated = []
  accepted_by t (some message) session_id allocated =
      accepted_if (enqueue j t (some message) session_id allocated).0
        (record { session_id = text_or_empty session_id; json = text_or_empty (j.print message) })

  abbrev pub accepted : System j → Event j → List TaskRequest
  accepted s (enqueued message session_id allocated) =
      accepted_by s.task message session_id allocated
  accepted s _ = []

  enqueue_text-queue :
      (t : McpTask) (requests : List TaskRequest) (session_id serialized : List ℕ)
      → t.queue ≡ some requests
      → queue_of (enqueue_text t requests session_id serialized).1.queue
        ≡ queue_of t.queue
          ++ accepted_if
              (enqueue_text t requests session_id serialized).0
              (record { session_id = session_id; json = serialized })
  unfolding enqueue_text queue_send
  enqueue_text-queue t requests session_id serialized e =
      elim (Bool-cases ((length serialized == 0) || ltb max_message_bytes (length serialized))) [
        | inl f ↦ rw f (sym (append-nil (queue_of t.queue)))
        | inr f ↦ elim (Bool-cases (leb t.queue_depth (length requests))) [
          | inl g ↦ rw (f, g) (sym (append-nil (queue_of t.queue)))
          | inr g ↦
              rw (f, g)
                (ap
                  (λ (q : Option (List TaskRequest)).
                    queue_of q ++ (record { session_id = session_id; json = serialized } ∷ []))
                  (sym e))
        ]
      ]

  copy_session-eq :
      (session_id copied : List ℕ)
      → copy_session max_session_bytes session_id ≡ some copied
      → session_id ≡ copied
  unfolding copy_session
  copy_session-eq session_id copied e = ground arith

  enqueue-queue :
      (t : McpTask) (message : Option j.Value) (session_id : Option (List ℕ)) (allocated : Bool)
      → queue_of (enqueue j t message session_id allocated).1.queue
        ≡ queue_of t.queue ++ accepted_by t message session_id allocated
  unfolding enqueue
  enqueue-queue t none session_id allocated = sym (append-nil (queue_of t.queue))
  enqueue-queue t (some message) none allocated = sym (append-nil (queue_of t.queue))
  enqueue-queue t (some message) (some session_id) allocated = elim (Option-cases t.queue) [
    | inl e ↦ rw (enqueue, e) (rw e refl)
    | inr (requests, e) ↦ elim (Bool-cases (not allocated)) [
      | inl f ↦ rw (enqueue, e, f) (ap queue_of e ∙ sym (append-nil requests))
      | inr f ↦ elim (Option-cases (copy_session max_session_bytes session_id)) [
        | inl g ↦ rw (enqueue, e, f, g) (ap queue_of e ∙ sym (append-nil requests))
        | inr (copied, g) ↦ elim (Option-cases (j.print message)) [
          | inl h ↦ rw (enqueue, e, f, g, h) (ap queue_of e ∙ sym (append-nil requests))
          | inr (serialized, h) ↦
              rw (enqueue, e, f, g, h)
                (enqueue_text-queue t requests copied serialized e
                  ∙ ap₂
                      (λ (q : List TaskRequest) (id : List ℕ).
                        q
                        ++ accepted_if (enqueue_text t requests copied serialized).0
                            (record { session_id = id; json = serialized }))
                      (ap queue_of e) (sym (copy_session-eq session_id copied g)))
        ]
      ]
    ]
  ]

  receive_from-queue :
      (s : System j) (queue : Option (List TaskRequest))
      → s.task.queue ≡ queue
      → queue_of queue ≡ head_of (queue_of queue) ++ queue_of (receive_from j s queue).task.queue
  unfolding receive_request
  receive_from-queue s none e = ap queue_of (sym e)
  receive_from-queue s (some []) e = ap queue_of (sym e)
  receive_from-queue s (some (request ∷ requests)) e = refl

  free_from-queue :
      (s : System j) (queue : Option (List TaskRequest))
      → s.task.queue ≡ queue
      → queue_of queue ≡ head_of (queue_of queue) ++ queue_of (free_from j s queue).task.queue
  unfolding free_request
  free_from-queue s none e = ap queue_of (sym e)
  free_from-queue s (some []) e = ap queue_of (sym e)
  free_from-queue s (some (request ∷ requests)) e = refl

  receive-queue :
      (s : System j)
      → queue_of s.task.queue
        ≡ handled_from j idle s.task.stop_requested (queue_of s.task.queue)
          ++ queue_of (receive j s).task.queue
  receive-queue s = by_stop s.task.stop_requested
    where
      by_stop :
          (b : Bool)
          → queue_of s.task.queue
            ≡ handled_from j idle b (queue_of s.task.queue)
              ++ queue_of
                  (if b
                    then record s { phase = draining }
                    else receive_from j s s.task.queue).task.queue
      by_stop true = refl
      by_stop false = receive_from-queue s s.task.queue refl

  dispatch-queue :
      (s : System j) (locked : Bool) (answers : ℕ → List ℕ → Answer) (request : TaskRequest)
      (message : j.Value)
      → (dispatch j s locked answers request message).0.task.queue ≡ s.task.queue
  unfolding dispatch after_dispatch
  dispatch-queue s locked answers request message = ground arith

  -- What a step takes and what it leaves are what was there and what it accepts.
  step-queue :
      (s : System j) (event : Event j)
      → event ≢ queue_drained
      → queue_of s.task.queue ++ accepted s event
        ≡ (handled j s event ++ freed j s event) ++ queue_of (step j s event).0.task.queue
  unfolding step reset_registry
  step-queue s (enqueued message session_id allocated) ne =
      sym (enqueue-queue s.task message session_id allocated)
  step-queue s registry_reset ne = append-nil (queue_of s.task.queue)
  step-queue s queue_drained ne = absurd (ne refl)
  step-queue s (session_changed session) ne = append-nil (queue_of s.task.queue)
  step-queue s stop_requested ne = append-nil (queue_of s.task.queue)
  step-queue s received ne = append-nil (queue_of s.task.queue) ∙ by_phase s.phase
    where
      by_phase :
          (phase : Phase j)
          → queue_of s.task.queue
            ≡ (handled_from j phase s.task.stop_requested (queue_of s.task.queue)
                ++ freed_from j phase (queue_of s.task.queue))
              ++ queue_of (receive_phase j s phase).0.task.queue
      by_phase idle =
          receive-queue s
          ∙ ap (λ (x : List TaskRequest). x ++ queue_of (receive j s).task.queue)
              (sym (append-nil (handled_from j idle s.task.stop_requested (queue_of s.task.queue))))
      by_phase (popped request) = refl
      by_phase (held request message) = refl
      by_phase (answered request text) = refl
      by_phase (sending request text) = refl
      by_phase draining = free_from-queue s s.task.queue refl
      by_phase finished = refl
  step-queue s (dispatched locked answers) ne =
      append-nil (queue_of s.task.queue) ∙ by_phase s.phase
    where
      by_phase :
          (phase : Phase j)
          → queue_of s.task.queue ≡ queue_of (dispatch_phase j s locked answers phase).0.task.queue
      by_phase idle = refl
      by_phase (popped request) = refl
      by_phase (held request message) =
          ap queue_of (sym (dispatch-queue s locked answers request message))
      by_phase (answered request text) = refl
      by_phase (sending request text) = refl
      by_phase draining = refl
      by_phase finished = refl
  step-queue s checked ne = append-nil (queue_of s.task.queue) ∙ by_phase s.phase
    where
      by_phase :
          (phase : Phase j) → queue_of s.task.queue ≡ queue_of (check_phase j s phase).0.task.queue
      by_phase idle = refl
      by_phase (popped request) = refl
      by_phase (held request message) = refl
      by_phase (answered request text) = unfold check_session in refl
      by_phase (sending request text) = refl
      by_phase draining = refl
      by_phase finished = refl
  step-queue s responded ne = append-nil (queue_of s.task.queue) ∙ by_phase s.phase
    where
      by_phase :
          (phase : Phase j)
          → queue_of s.task.queue ≡ queue_of (respond_phase j s phase).0.task.queue
      by_phase idle = refl
      by_phase (popped request) = refl
      by_phase (held request message) = refl
      by_phase (answered request text) = refl
      by_phase (sending request text) = unfold respond in refl
      by_phase draining = refl
      by_phase finished = refl

  unfoldable pub all_accepted : System j → List (Event j) → List TaskRequest
  all_accepted s [] = []
  all_accepted s (event ∷ events) = accepted s event ++ all_accepted (step j s event).0 events

  -- Until a reset drains the queue, the requests that were queued, and then those that enqueue accepted, are in
  -- that order, each once: those that the loop takes to handle them, behind them those that the task frees
  -- unanswered once a stop has ended its loop, and behind them those that are still queued. None is lost,
  -- doubled or overtaken, whatever the task and its callers do between.
  pub taken-accepted :
      (s : System j) (events : List (Event j))
      → All (λ (event : Event j). event ≢ queue_drained) events
      → queue_of s.task.queue ++ all_accepted s events
        ≡ (all_handled j s events ++ all_freed j s events)
          ++ queue_of (last_state j s events).task.queue
  unfolding last_state all_accepted all_handled all_freed
  taken-accepted s [] h = append-nil (queue_of s.task.queue)
  taken-accepted s (event ∷ events) h =
      let s' = (step j s event).0 in
      let q = queue_of s.task.queue in
      let more = all_accepted s' events in
      let taken = handled j s event ++ freed j s event in
      let later = all_handled j s' events ++ all_freed j s' events in
      let rest = queue_of (last_state j s' events).task.queue in
      sym (append_assoc q (accepted s event) more)
      ∙ (ap (λ (x : List TaskRequest). x ++ more) (step-queue s event h.0)
          ∙ (append_assoc taken (queue_of s'.task.queue) more
              ∙ (ap (λ (x : List TaskRequest). taken ++ x) (taken-accepted s' events h.1)
                  ∙ (sym (append_assoc taken later rest)
                      ∙ ap (λ (x : List TaskRequest). x ++ rest)
                          (handled-freed j s event events)))))
