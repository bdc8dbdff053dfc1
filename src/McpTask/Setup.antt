-- ===== src/McpTask/Setup.antt =====
-- The two ways to set the task up: with given tools, and with those of the board.
use veetee_vuqb.Base.{
  ℕ, ◌≤◌, ◌<◌, ◌≡◌, ◌≢◌, refl, ap, ◌∙◌, true, false, not, ◌||◌, if◌then◌else◌, ◌==◌, Option, none,
  some, List, [], ◌++◌, length, length-append, take, drop, take-length_append, arith, Bool-cases,
  Option-cases, inl, inr,
}
use mathlib.Core.Option
use veetee_vuqb.Mcp.{McpResult, max_tools, Tool, zero_registry, registry_init}
use veetee_vuqb.Mcp.Setup.{registry_init_iff}
use veetee_vuqb.BoardHal.{HalResult, Hal}
use veetee_vuqb.BoardHal.Lookup.{active, copy_tools}
use veetee_vuqb.BoardHal.Activation.{IsActive}
use veetee_vuqb.BoardHal.Tools.{enabled_tools, copy_tools-enabled, registry_init-copy_tools}
use veetee_vuqb.McpTask.{
  TaskResult, McpTask, TaskConfig, Allocations, zero_task, is_hal_ok, init_with, init_common, init,
  init_from_board_hal,
}

-- A task that is not set up holds nothing that was allocated.
pub record IsReleased (t : McpTask) : Type 0 where
  pub no_queue : t.queue ≡ none
  pub no_lock : t.registry_lock ≡ false
  pub no_output : t.output ≡ none

init_with-IsReleased :
    (t : McpTask) (tools : Option (List Tool)) (n : ℕ) (name version : List ℕ) (depth : ℕ)
    (made : Allocations)
    → IsReleased t
    → (init_with t tools n name version depth made).0 ≢ TaskResult.ok
    → IsReleased (init_with t tools n name version depth made).1
unfolding init_with
init_with-IsReleased t tools n name version depth made v ne = ground arith

init_common-IsReleased :
    (t : McpTask) (tools : Option (List Tool)) (n : ℕ) (config : TaskConfig) (made : Allocations)
    → IsReleased t
    → (init_common t tools n config made).0 ≢ TaskResult.ok
    → IsReleased (init_common t tools n config made).1
unfolding init_common
init_common-IsReleased t tools n config made v ne = elim (Option-cases config.server_name) [
  | inl e ↦ rw (init_common, e) v
  | inr (name, e) ↦ elim (Option-cases config.server_version) [
    | inl f ↦ rw (init_common, e, f) v
    | inr (version, f) ↦
        elim (Bool-cases
          (not config.has_send || not config.has_current_session || (config.queue_depth == 0))) [
            | inl g ↦ rw (init_common, e, f, g) v
            | inr g ↦
                let through : init_common t tools n config made
                    ≡ init_with t tools n name version config.queue_depth made =
                  rw (init_common, e, f, g) refl in
                rw through (
                  init_with-IsReleased t tools n name version config.queue_depth made v
                    (λ h. ne (ap (λ (x : TaskResult × McpTask). x.0) through ∙ h)))
          ]
  ]
]

-- A set-up that fails, by its arguments, by the tools, by the board or for want of memory, leaves no
-- queue, no lock and no output behind, whichever of the two functions it is asked of.
init-IsReleased :
    (tools : Option (List Tool)) (n : ℕ) (hal : Hal) (config : TaskConfig) (made : Allocations)
    → ((init tools n config made).0 ≢ TaskResult.ok → IsReleased (init tools n config made).1)
      × ((init_from_board_hal hal config made).0 ≢ TaskResult.ok
          → IsReleased (init_from_board_hal hal config made).1)
unfolding init_from_board_hal
init-IsReleased tools n hal config made = (
  init_common-IsReleased zero_task tools n config made
      (record { no_queue = refl; no_lock = refl; no_output = refl }),
  by_copy (copy_tools hal zero_task.tool_storage max_tools),
)
  where
    by_copy :
        (copy : HalResult × List Tool × ℕ)
        → let (result, copied, count) = copy in
          let task = record zero_task { tool_storage = copied } in
          let out : TaskResult × McpTask =
            if not (is_hal_ok result)
            then (TaskResult.err_capacity, task)
            else init_common task (some copied) count config made in
          out.0 ≢ TaskResult.ok → IsReleased out.1
    by_copy (result, copied, count) = elim (Bool-cases (not (is_hal_ok result))) [
      | inl e ↦ rw e (λ ne. record { no_queue = refl; no_lock = refl; no_output = refl })
      | inr e ↦ rw e (
          init_common-IsReleased (record zero_task { tool_storage = copied }) (some copied) count
            config made (record { no_queue = refl; no_lock = refl; no_output = refl }))
    ]

abbrev pub all_made : Allocations
all_made = record { queue = true; lock = true; output = true }

abbrev pub complete : List ℕ → List ℕ → ℕ → TaskConfig
complete name version depth = record {
  server_name = some name;
  server_version = some version;
  has_send = true;
  has_current_session = true;
  queue_depth = depth;
}

-- With an active board of at most 16 enabled tools, a queue that is not of depth 0 and memory for it,
-- the task comes up: its queue is empty, and its registry serves the board's enabled tools in the
-- order of the manifest, with no request seen.
pub init_from_board_hal-serves :
    (hal : Hal) (name version : List ℕ) (depth : ℕ)
    → IsActive hal
    → length (enabled_tools (active hal)) ≤ max_tools
    → 0 < depth
    → let (result, task) = init_from_board_hal hal (complete name version depth) all_made in
      let tools = enabled_tools (active hal) in
      (result ≡ TaskResult.ok)
      × (task.queue ≡ some [])
      × (task.queue_depth ≡ depth)
      × (task.registry.tool_count ≡ length tools)
      × (Option.map (take (length tools)) task.registry.tools ≡ some tools)
      × (task.registry.highest_request_id ≡ 0)
unfolding init_from_board_hal init_common init_with
init_from_board_hal-serves hal name version depth v room deep =
    let enabled = enabled_tools (active hal) in
    let storage = zero_task.tool_storage in
    let rest = drop (length enabled) storage in
    let copied = (copy_tools-enabled hal storage max_tools v room (omega arith)).0 in
    let accepted : (registry_init zero_registry (some (enabled ++ rest)) (length enabled)).0
        ≡ McpResult.ok =
      rw copied at
        (registry_init-copy_tools hal storage max_tools zero_registry v room (omega arith)) in
    let made =
      (registry_init_iff zero_registry (enabled ++ rest) (length enabled)
          (omega (arith, length-append enabled rest))).1
        accepted in
    let registered : registry_init zero_registry (some (enabled ++ rest)) (length enabled) ≡ (
      McpResult.ok,
      record zero_registry { tools = some (enabled ++ rest); tool_count = length enabled },
    ) =
      λ i. (accepted i, made i) in
    let some_depth : (depth == 0) ≡ false = ground arith in
    rw (copied, some_depth, registered)
      (refl, refl, refl, refl, ap some (take-length_append enabled rest), refl)
