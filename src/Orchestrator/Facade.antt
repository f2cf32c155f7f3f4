-- ===== src/Orchestrator/Facade.antt =====
-- `OrchestratorImpl` of orchestrator/service.py: tasks are created and run, and read by their user.
pub mod Agree
use agentic_code_intelligenc.Prelude.{
  ℕ, zero, suc, Bool, Option, none, some, List, [], ◌∷◌, map, Text,
}
use agentic_code_intelligenc.Common.{TaskState, TaskMode, StepKind, Error, Result, ok, err}
use agentic_code_intelligenc.Db.{Task, Payload, JournalEntry, Database}
use agentic_code_intelligenc.Db.Tasks.{create, get}
use agentic_code_intelligenc.Db.Journal.{get_trace}
use agentic_code_intelligenc.Files.{FilePath}
use agentic_code_intelligenc.World.{Env, World}
use agentic_code_intelligenc.Orchestrator.Services.{Services}
use agentic_code_intelligenc.Orchestrator.Loop.{TaskStatus, run}

-- orchestrator/interface.py
pub record TaskRequest : Type 0 where
  pub user_id : Text
  pub workspace_id : Text
  pub instruction : Text
  pub mode : TaskMode
  pub max_tokens : Option ℕ
  pub max_steps : Option ℕ
  pub max_wall_seconds : Option ℕ

-- `_defaults`
pub record Defaults : Type 0 where
  pub token_budget : ℕ
  pub step_budget : ℕ
  pub wall_clock_seconds : ℕ

-- A `TaskEvent` of the trace, whose detail is the payload of the step.
pub record TraceEvent : Type 0 where
  pub task_id : Text
  pub step_index : ℕ
  pub kind : StepKind
  pub detail : Payload

-- `asked or default`: a zero counts as not asked for.
unfoldable pub or_default : Option ℕ → ℕ → ℕ
or_default none default = default
or_default (some zero) default = default
or_default (some (suc n)) default = suc n

-- The status of a row, without the patch of a dry run.
unfoldable pub row_status : Task → TaskStatus
row_status task = record {
  task_id = task.id;
  user_id = task.user_id;
  workspace_id = task.workspace_id;
  state = task.state;
  step_index = task.step_index;
  tokens_in = task.tokens_in;
  tokens_out = task.tokens_out;
  tool_calls = task.tool_calls;
  retrieval_bytes = task.retrieval_bytes;
  sandbox_seconds = task.sandbox_seconds;
  reason = task.reason;
  patch = none;
}

abbrev pub status_or_not_found : Option Task → Result TaskStatus
status_or_not_found none = err Error.not_found
status_or_not_found (some task) = ok (row_status task)

unfoldable pub get_status : Text → Text → Database → Result TaskStatus
unfolding row_status
get_status user_id task_id db = status_or_not_found (get user_id task_id db)

abbrev event_of : Text → JournalEntry → TraceEvent
event_of task_id entry = record {
  task_id = task_id;
  step_index = entry.step_index;
  kind = entry.kind;
  detail = entry.payload;
}

unfoldable pub stream_events : Text → Text → Database → Result (List TraceEvent)
stream_events user_id task_id db = elim (get user_id task_id db) [
  | none ↦ err Error.not_found
  | some task ↦ ok (map (event_of task_id) (get_trace task_id db))
]

module _ (env : Env) (wide : ℕ → Bool) (services : Services) (root : FilePath)
    (defaults : Defaults) where
  unfoldable pub create_task : TaskRequest → Database → Result Task × Database
  unfolding or_default
  create_task request =
      create env.uuid4 request.user_id request.workspace_id request.instruction
        (or_default request.max_tokens defaults.token_budget)
        (or_default request.max_steps defaults.step_budget)
        (or_default request.max_wall_seconds defaults.wall_clock_seconds) request.mode

  abbrev pub run_created : Result Task → World → Option (Result TaskStatus × World)
  run_created (err e) w = some (err e, w)
  run_created (ok task) w = run env wide services root task.id w

  -- the loop on the task that was created, in this call
  unfoldable pub submit : TaskRequest → World → Option (Result TaskStatus × World)
  unfolding create_task
  submit request w =
      let (created, db') = create_task request w.db in run_created created (record w { db = db' })

  -- not scoped to a user: it is called after a crash, by no consumer
  unfoldable pub resume : Text → World → Option (Result TaskStatus × World)
  resume task_id w = run env wide services root task_id w
