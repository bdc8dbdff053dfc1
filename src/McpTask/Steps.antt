-- ===== src/McpTask/Steps.antt =====
-- vt_mcp_task_run cut at the points where another task can come between: the receipt of a request, the
-- first test of its session, its dispatch under the registry's lock, the second test of its session,
-- the sending of the response, and, once the task is asked to stop, each request that it frees. Beside
-- it run the callers of enqueue and of reset_session, which resets the registry and then drains the
-- queue, and the transport, which opens and ends sessions.
pub mod Order
pub mod Queue
pub mod Responses
pub mod Rising
pub mod Taking
use veetee_vuqb.Base.{
  ℕ, ◌+◌, Bool, true, false, not, ◌&&◌, ◌||◌, if◌then◌else◌, ◌==◌, Option, none, some, List, [],
  ◌∷◌, ◌++◌, take,
}
use veetee_vuqb.Json.{CJson}
use veetee_vuqb.Mcp.{Registry}
use veetee_vuqb.Mcp.Call.{Answer, Invocation}
use veetee_vuqb.McpWire.{max_bytes}
use veetee_vuqb.McpDispatch.{DispatchResult, Reply, Sent, Dispatched, dispatch_message}
use veetee_vuqb.McpTask.{TaskRequest, McpTask, reset_registry, drain, enqueue, session_is_current}

-- Where the task stands, with the request and the response that are live there: in the loop, in the loop
-- behind it that frees the queue, or at its end.
pub data Phase (j : CJson) : Type 0 where
  idle : Phase j
  popped : TaskRequest → Phase j
  held : TaskRequest → j.Value → Phase j
  answered : TaskRequest → List ℕ → Phase j
  sending : TaskRequest → List ℕ → Phase j
  draining : Phase j
  finished : Phase j

-- The task, the session that the transport has, and the phase of the loop.
pub record System (j : CJson) : Type 0 where
  pub task : McpTask
  pub session : Option (List ℕ)
  pub phase : Phase j

-- What happens next, with what the libraries and the callbacks answer to it.
pub data Event (j : CJson) : Type 0 where
  enqueued : Option j.Value → Option (List ℕ) → Bool → Event j
  registry_reset queue_drained : Event j
  session_changed : Option (List ℕ) → Event j
  stop_requested : Event j
  received : Event j
  dispatched : Bool → (ℕ → List ℕ → Answer) → Event j
  checked : Event j
  responded : Event j

-- What a step does outside: the invocation of a tool, and a response with the request that it is sent for,
-- under the session of that request.
pub record Effect : Type 0 where
  pub made : Option Invocation
  pub response : Option (TaskRequest × List ℕ)

abbrev pub no_effect : Effect
no_effect = record { made = none; response = none }

module _ (j : CJson) where
  -- The first test of the session, and the parse of the request.
  unfoldable pub take_request : Option (List ℕ) → TaskRequest → Phase j
  take_request session request =
      if not (session_is_current session request.session_id)
      then idle
      else elim (j.parse request.json) [ none ↦ idle | some message ↦ held request message ]

  -- The head of the loop, and the receipt.
  unfoldable pub receive_request : System j → List TaskRequest → System j
  receive_request s [] = s
  receive_request s (request ∷ requests) = record s {
    task = record s.task { queue = some requests };
    phase = popped request;
  }

  abbrev pub receive_from : System j → Option (List TaskRequest) → System j
  receive_from s none = s
  receive_from s (some requests) = receive_request s requests

  -- The test of the loop, which a stop ends.
  abbrev pub receive : System j → System j
  receive s =
      if s.task.stop_requested then record s { phase = draining } else receive_from s s.task.queue

  -- A round of the loop that frees what is queued, up to an empty queue.
  unfoldable pub free_request : System j → List TaskRequest → System j
  free_request s [] = record s { phase = finished }
  free_request s (request ∷ requests) = record s { task = record s.task { queue = some requests } }

  abbrev pub free_from : System j → Option (List TaskRequest) → System j
  free_from s none = record s { phase = finished }
  free_from s (some requests) = free_request s requests

  abbrev pub is_dispatched : DispatchResult → Bool
  is_dispatched DispatchResult.ok = true
  is_dispatched _ = false

  abbrev pub reply_of : McpTask → TaskRequest → List ℕ → Reply
  reply_of task request output = record {
    output = output;
    capacity = max_bytes + 1;
    session_id = request.session_id;
  }

  -- After the dispatch: what is not answered is dropped.
  unfoldable pub after_dispatch : System j → TaskRequest → Dispatched → System j × Effect
  after_dispatch s request (registry, (result, output, n), made) = (
    record s {
      task = record s.task { registry = registry; output = some output };
      phase =
          if not (is_dispatched result) || n == 0 then idle else answered request (take n output);
    },
    record { made = made; response = none },
  )

  unfoldable pub dispatch :
      System j → Bool → (ℕ → List ℕ → Answer) → TaskRequest → j.Value → System j × Effect
  dispatch s locked answers request message = elim s.task.output [
    | none ↦ (record s { phase = idle }, no_effect)
    | some output ↦
        if not (s.task.registry_lock && locked)
        then (record s { phase = idle }, no_effect)
        else after_dispatch s request (
            dispatch_message j (reply_of s.task request output) answers s.task.server_name
              s.task.server_version s.task.registry message)
  ]

  -- The second test of the session.
  unfoldable pub check_session : System j → TaskRequest → List ℕ → System j
  check_session s request text = record s {
    phase = if session_is_current s.session request.session_id then sending request text else idle;
  }

  -- The send.
  unfoldable pub respond : System j → TaskRequest → List ℕ → System j × Effect
  respond s request text =
      (record s { phase = idle }, record { made = none; response = some (request, text) })

  abbrev pub dispatch_phase : System j → Bool → (ℕ → List ℕ → Answer) → Phase j → System j × Effect
  dispatch_phase s locked answers idle = (s, no_effect)
  dispatch_phase s locked answers (popped request) = (s, no_effect)
  dispatch_phase s locked answers (held request message) = dispatch s locked answers request message
  dispatch_phase s locked answers (answered request text) = (s, no_effect)
  dispatch_phase s locked answers (sending request text) = (s, no_effect)
  dispatch_phase s locked answers draining = (s, no_effect)
  dispatch_phase s locked answers finished = (s, no_effect)

  abbrev pub respond_phase : System j → Phase j → System j × Effect
  respond_phase s idle = (s, no_effect)
  respond_phase s (popped request) = (s, no_effect)
  respond_phase s (held request message) = (s, no_effect)
  respond_phase s (answered request text) = (s, no_effect)
  respond_phase s (sending request text) = respond s request text
  respond_phase s draining = (s, no_effect)
  respond_phase s finished = (s, no_effect)

  abbrev pub check_phase : System j → Phase j → System j × Effect
  check_phase s idle = (s, no_effect)
  check_phase s (popped request) = (record s { phase = take_request s.session request }, no_effect)
  check_phase s (held request message) = (s, no_effect)
  check_phase s (answered request text) = (check_session s request text, no_effect)
  check_phase s (sending request text) = (s, no_effect)
  check_phase s draining = (s, no_effect)
  check_phase s finished = (s, no_effect)

  abbrev pub receive_phase : System j → Phase j → System j × Effect
  receive_phase s idle = (receive s, no_effect)
  receive_phase s (popped request) = (s, no_effect)
  receive_phase s (held request message) = (s, no_effect)
  receive_phase s (answered request text) = (s, no_effect)
  receive_phase s (sending request text) = (s, no_effect)
  receive_phase s draining = (free_from s s.task.queue, no_effect)
  receive_phase s finished = (s, no_effect)

  -- One step of the system; a step of the loop that does not fit its phase does nothing.
  unfoldable pub step : System j → Event j → System j × Effect
  step s (enqueued message session_id allocated) =
      let (result, task) = enqueue j s.task message session_id allocated in
      (record s { task = task }, no_effect)
  step s registry_reset = (record s { task = reset_registry s.task }, no_effect)
  step s queue_drained = (record s { task = drain s.task }, no_effect)
  step s (session_changed session) = (record s { session = session }, no_effect)
  step s stop_requested = (record s { task = record s.task { stop_requested = true } }, no_effect)
  step s received = receive_phase s s.phase
  step s (dispatched locked answers) = dispatch_phase s locked answers s.phase
  step s checked = check_phase s s.phase
  step s responded = respond_phase s s.phase
