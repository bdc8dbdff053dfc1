-- ===== src/Examples/Tasks.antt =====
-- A task with a queue of two requests, and a run of it with its callers.
use veetee_vuqb.Base.{◌≡◌, true, false, some, List, [], ◌∷◌, ◌++◌, replicate, arith}
use veetee_vuqb.Base.Text.{codes}
use veetee_vuqb.Mcp.{ok}
use veetee_vuqb.Mcp.Call.{Answer}
use veetee_vuqb.McpTask.{McpTask, TaskConfig, Allocations, zero_task}
use veetee_vuqb.McpTask.Setup.{all_made}
use veetee_vuqb.McpTask.Steps.{
  Phase, System, Event, enqueued, registry_reset, received, dispatched, checked, responded,
  stop_requested, step,
}
use veetee_vuqb.McpTask.Steps.Rising.{RisesByEpoch, marks, marks-rise}
use veetee_vuqb.McpTask.Steps.Queue.{IsTask, step-IsTask}
use veetee_vuqb.McpTask.Steps.Taking.{queue_of, last_state, all_handled, all_freed}
use veetee_vuqb.McpTask.Steps.Order.{all_accepted, taken-accepted}
use veetee_vuqb.Examples.Trees.{empty, json}

abbrev task : McpTask
task = record zero_task {
  queue = some [];
  queue_depth = 2;
  registry_lock = true;
  output = some (replicate 40 0);
}

abbrev system : System json
system = record { task = task; session = some (codes "s1"); phase = Phase.idle }

abbrev yes : Answer
yes = record { status = ok; written = codes "{}"; length = 2 }

abbrev ask : Event json
ask = enqueued (some empty) (some (codes "s1")) true

abbrev plain : List (Event json)
plain =
    ask
    ∷ received
    ∷ checked
    ∷ dispatched true (λ callback arguments. yes)
    ∷ checked
    ∷ responded
    ∷ ask
    ∷ []

marks-rise_example : RisesByEpoch 0 (marks json system (registry_reset ∷ plain))
marks-rise_example = marks-rise json system (registry_reset ∷ plain)

task-IsTask : IsTask task
task-IsTask = record { fits = (omega arith, tt) }

step-IsTask_example : IsTask (step json system ask).0.task
step-IsTask_example = step-IsTask json system ask task-IsTask

-- The run is asked to stop with a request in the queue, which it frees.
abbrev stopping : List (Event json)
stopping = plain ++ (stop_requested ∷ received ∷ received ∷ received ∷ [])

taken-accepted_example :
    queue_of (some []) ++ all_accepted json system stopping
    ≡ (all_handled json system stopping ++ all_freed json system stopping)
      ++ queue_of (last_state json system stopping).task.queue
taken-accepted_example = taken-accepted json system stopping (
  (λ e. cc),
  (
    (λ e. cc),
    (
      (λ e. cc),
      (
        (λ e. cc),
        (
          (λ e. cc),
          ((λ e. cc), ((λ e. cc), ((λ e. cc), ((λ e. cc), ((λ e. cc), ((λ e. cc), tt)))))),
        ),
      ),
    ),
  ),
)

abbrev no_lock : Allocations
no_lock = record all_made { lock = false }

abbrev config : TaskConfig
config = record {
  server_name = some (codes "veetee");
  server_version = some (codes "1");
  has_send = true;
  has_current_session = true;
  queue_depth = 2;
}
