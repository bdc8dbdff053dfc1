-- ===== src/McpTask/Steps/Queue.antt =====
-- The queue of the task and the sessions of its responses, over any interleaving.
use veetee_vuqb.Base.{
  ℕ, ◌≤◌, ◌<◌, ◌≡◌, refl, subst, Bool, true, false, not, ◌&&◌, ◌||◌, if◌then◌else◌, ltb, leb, ◌==◌,
  Option, none, some, List, [], ◌∷◌, ◌++◌, length, arith, Bool-cases, Option-cases, inl, inr, All,
  All-append, length-append,
}
use veetee_vuqb.Json.{CJson}
use veetee_vuqb.Mcp.Call.{Answer}
use veetee_vuqb.McpTask.{
  max_session_bytes, max_message_bytes, TaskRequest, McpTask, drain, reset_registry, copy_session,
  queue_send, enqueue_text, enqueue,
}
use veetee_vuqb.McpTask.Steps.{
  Phase, idle, popped, held, answered, sending, draining, finished, System, Event, enqueued,
  registry_reset, queue_drained, session_changed, stop_requested, received, dispatched, checked,
  responded, receive_phase, dispatch_phase, respond_phase, check_phase, check_session, free_request,
  free_from, receive_request, receive_from, receive, after_dispatch, dispatch, respond, step,
}

-- A request that fits its struct.
pub record FitsRequest (r : TaskRequest) : Type 0 where
  pub session : length r.session_id < max_session_bytes
  pub json : (0 < length r.json) × (length r.json ≤ max_message_bytes)

abbrev pub QueueFits : ℕ → Option (List TaskRequest) → Type 0
QueueFits depth none = Unit
QueueFits depth (some requests) = (length requests ≤ depth) × All FitsRequest requests

-- The queue of a task is no longer than its depth, and its requests fit their struct.
pub record IsTask (t : McpTask) : Type 0 where
  pub fits : QueueFits t.queue_depth t.queue

queue_send-QueueFits :
    (depth : ℕ) (requests : List TaskRequest) (r : TaskRequest)
    → QueueFits depth (some requests)
    → FitsRequest r
    → (requests' : List TaskRequest) → queue_send depth requests r ≡ some requests'
    → QueueFits depth (some requests')
unfolding queue_send
queue_send-QueueFits depth requests r v f requests' e =
    elim (Bool-cases (leb depth (length requests))) [
      | inl full ↦ absurd (ground arith)
      | inr room ↦
          let same : requests ++ (r ∷ []) ≡ requests' = ground arith in
          rw (← same) (
            ground (arith, length-append requests (r ∷ [])),
            All-append FitsRequest requests (r ∷ []) v.1 (f, tt),
          )
    ]

enqueue_text-IsTask :
    (t : McpTask) (requests : List TaskRequest) (session_id serialized : List ℕ)
    → IsTask t
    → t.queue ≡ some requests
    → length session_id < max_session_bytes
    → IsTask (enqueue_text t requests session_id serialized).1
unfolding enqueue_text
enqueue_text-IsTask t requests session_id serialized v q fit =
    elim (Bool-cases ((length serialized == 0) || ltb max_message_bytes (length serialized))) [
      | inl e ↦ rw e v
      | inr e ↦
          let r : TaskRequest = record { session_id = session_id; json = serialized } in
          elim (Option-cases (queue_send t.queue_depth requests r)) [
            | inl f ↦ rw (e, f) v
            | inr (requests', f) ↦
                rw (e, f)
                  (record {
                    fits =
                        queue_send-QueueFits t.queue_depth requests r
                          (subst (λ x. QueueFits t.queue_depth x) q v.fits)
                          (record { session = fit; json = (ground arith) }) requests' f;
                  })
          ]
    ]

copy_session-fits :
    (session_id copied : List ℕ)
    → copy_session max_session_bytes session_id ≡ some copied
    → length copied < max_session_bytes
unfolding copy_session
copy_session-fits session_id copied e = ground arith

-- A request that is enqueued fits its struct, and the queue stays within its depth, whatever the
-- message, the session and the allocations.
enqueue-IsTask :
    (j : CJson) (t : McpTask) (message : Option j.Value) (session_id : Option (List ℕ))
    (allocated : Bool)
    → IsTask t
    → IsTask (enqueue j t message session_id allocated).1
unfolding enqueue
enqueue-IsTask j t none session_id allocated v = v
enqueue-IsTask j t (some message) none allocated v = v
enqueue-IsTask j t (some message) (some session_id) allocated v = elim (Option-cases t.queue) [
  | inl e ↦ rw (enqueue, e) v
  | inr (requests, e) ↦ elim (Bool-cases (not allocated)) [
    | inl f ↦ rw (enqueue, e, f) v
    | inr f ↦ elim (Option-cases (copy_session max_session_bytes session_id)) [
      | inl g ↦ rw (enqueue, e, f, g) v
      | inr (copied, g) ↦ elim (Option-cases (j.print message)) [
        | inl h ↦ rw (enqueue, e, f, g, h) v
        | inr (serialized, h) ↦
            rw (enqueue, e, f, g, h)
              (enqueue_text-IsTask t requests copied serialized v e
                (copy_session-fits session_id copied g))
      ]
    ]
  ]
]

drain-IsTask : (t : McpTask) → IsTask t → IsTask (drain t)
unfolding drain
drain-IsTask t v = elim (Option-cases t.queue) [
  | inl e ↦ rw e (record { fits = tt })
  | inr (requests, e) ↦ rw e (record { fits = (omega arith, tt) })
]

module _ (j : CJson) where
  after_dispatch-queue :
      (s : System j) (locked : Bool) (answers : ℕ → List ℕ → Answer) (request : TaskRequest)
      (message : j.Value)
      → IsTask s.task
      → IsTask (dispatch j s locked answers request message).0.task
  unfolding dispatch after_dispatch
  after_dispatch-queue s locked answers request message v = elim (Option-cases s.task.output) [
    | inl e ↦ rw (dispatch, e) v
    | inr (output, e) ↦ elim (Bool-cases (not (s.task.registry_lock && locked))) [
      | inl off ↦ rw (dispatch, e, off) v
      | inr on ↦ rw (dispatch, e, on) (record { fits = v.fits })
    ]
  ]

  receive_from-IsTask :
      (s : System j) (queue : Option (List TaskRequest))
      → s.task.queue ≡ queue
      → IsTask s.task
      → IsTask (receive_from j s queue).task
  unfolding receive_request
  receive_from-IsTask s none e v = v
  receive_from-IsTask s (some []) e v = v
  receive_from-IsTask s (some (request ∷ requests)) e v =
      let fits = subst (λ x. QueueFits s.task.queue_depth x) e v.fits in
      record { fits = (omega (arith, fits.0), fits.1.1) }

  free_from-IsTask :
      (s : System j) (queue : Option (List TaskRequest))
      → s.task.queue ≡ queue
      → IsTask s.task
      → IsTask (free_from j s queue).task
  unfolding free_request
  free_from-IsTask s none e v = v
  free_from-IsTask s (some []) e v = v
  free_from-IsTask s (some (request ∷ requests)) e v =
      let fits = subst (λ x. QueueFits s.task.queue_depth x) e v.fits in
      record { fits = (omega (arith, fits.0), fits.1.1) }

  if-IsTask :
      (b : Bool) (x y : System j) → IsTask x.task → IsTask y.task → IsTask (if b then x else y).task
  if-IsTask true x y h k = h
  if-IsTask false x y h k = k

  receive-IsTask : (s : System j) → IsTask s.task → IsTask (receive j s).task
  receive-IsTask s v =
      if-IsTask s.task.stop_requested (record s { phase = draining })
        (receive_from j s s.task.queue) v (receive_from-IsTask s s.task.queue refl v)

  -- Every step of the task, its callers and the transport keeps the queue within its depth and its
  -- requests within their struct: a session id of fewer than 96 bytes, a text of 1 to 8000.
  pub step-IsTask :
      (s : System j) (event : Event j) → IsTask s.task → IsTask (step j s event).0.task
  unfolding step
  step-IsTask s (enqueued message session_id allocated) v =
      enqueue-IsTask j s.task message session_id allocated v
  step-IsTask s registry_reset v = unfold reset_registry in record { fits = v.fits }
  step-IsTask s queue_drained v = drain-IsTask s.task v
  step-IsTask s (session_changed session) v = v
  step-IsTask s stop_requested v = record { fits = v.fits }
  step-IsTask s received v = by_phase s.phase
    where
      by_phase : (phase : Phase j) → IsTask (receive_phase j s phase).0.task
      by_phase idle = receive-IsTask s v
      by_phase (popped request) = v
      by_phase (held request message) = v
      by_phase (answered request text) = v
      by_phase (sending request text) = v
      by_phase draining = free_from-IsTask s s.task.queue refl v
      by_phase finished = v
  step-IsTask s (dispatched locked answers) v = by_phase s.phase
    where
      by_phase : (phase : Phase j) → IsTask (dispatch_phase j s locked answers phase).0.task
      by_phase idle = v
      by_phase (popped request) = v
      by_phase (held request message) = after_dispatch-queue s locked answers request message v
      by_phase (answered request text) = v
      by_phase (sending request text) = v
      by_phase draining = v
      by_phase finished = v
  step-IsTask s checked v = by_phase s.phase
    where
      by_phase : (phase : Phase j) → IsTask (check_phase j s phase).0.task
      by_phase idle = v
      by_phase (popped request) = v
      by_phase (held request message) = v
      by_phase (answered request text) = unfold check_session in v
      by_phase (sending request text) = v
      by_phase draining = v
      by_phase finished = v
  step-IsTask s responded v = by_phase s.phase
    where
      by_phase : (phase : Phase j) → IsTask (respond_phase j s phase).0.task
      by_phase idle = v
      by_phase (popped request) = v
      by_phase (held request message) = v
      by_phase (answered request text) = v
      by_phase (sending request text) = unfold respond in v
      by_phase draining = v
      by_phase finished = v
