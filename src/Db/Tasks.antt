-- ===== src/Db/Tasks.antt =====
-- `TasksRepo` of db/repositories.py, and the metering updates of orchestrator/loop.py.
pub mod Updates
use agentic_code_intelligenc.Prelude.{
  ℕ, ◌+◌, Bool, ◌&&◌, Option, none, List, [], ◌∷◌, ◌++◌, map, reverse, take, filter, find, any,
  if◌then◌else◌, Text, codes, text_eq,
}
use agentic_code_intelligenc.Common.{TaskState, TaskMode, Reason, Error, Result, ok, err}
use agentic_code_intelligenc.Db.{Task, Database}
use agentic_code_intelligenc.Db.Accounts.{new_id}

module _ (uuid4 : ℕ → Text) where
  unfoldable pub create :
      Text → Text → Text → ℕ → ℕ → ℕ → TaskMode → Database → Result Task × Database
  unfolding new_id
  create user_id workspace_id instruction token_budget step_budget wall_clock_seconds mode db =
      let (tid, db') = new_id uuid4 (codes "task") db in
      let task : Task = record {
        id = tid;
        user_id = user_id;
        workspace_id = workspace_id;
        state = TaskState.pending;
        mode = mode;
        instruction = instruction;
        reason = none;
        step_index = 0;
        token_budget = token_budget;
        step_budget = step_budget;
        wall_clock_seconds = wall_clock_seconds;
        tokens_in = 0;
        tokens_out = 0;
        tool_calls = 0;
        retrieval_bytes = 0;
        sandbox_seconds = 0;
      } in
      if any (λ t. text_eq t.id tid) db.tasks
      then (err Error.integrity_error, db')
      else (ok task, record db' { tasks = db.tasks ++ task ∷ [] })

-- The user-scoped read.
unfoldable pub get : Text → Text → Database → Option Task
get user_id task_id db = find (λ t. text_eq t.id task_id && text_eq t.user_id user_id) db.tasks

-- `ORDER BY created_at DESC LIMIT ?`
unfoldable pub list : Text → ℕ → Database → List Task
list user_id limit db = take limit (reverse (filter (λ t. text_eq t.user_id user_id) db.tasks))

unfoldable pub get_for_resume : Text → Database → Option Task
get_for_resume task_id db = find (λ t. text_eq t.id task_id) db.tasks

-- `UPDATE tasks SET ... WHERE id = ?`
abbrev pub update : Text → (Task → Task) → Database → Database
update task_id f db = record db {
  tasks = map (λ t. if text_eq t.id task_id then f t else t) db.tasks;
}

unfoldable pub set_state : Text → TaskState → Option Reason → Database → Database
set_state task_id state reason = update task_id (λ t. record t { state = state; reason = reason })

-- `_bump_task_tokens`
unfoldable pub bump_tokens : Text → ℕ → ℕ → Database → Database
bump_tokens task_id tin tout = update task_id λ t. record t {
  tokens_in = t.tokens_in + tin;
  tokens_out = t.tokens_out + tout;
  tool_calls = t.tool_calls + 1;
}

-- `_bump_retrieval_bytes`
unfoldable pub bump_retrieval_bytes : Text → ℕ → Database → Database
bump_retrieval_bytes task_id n =
    update task_id (λ t. record t { retrieval_bytes = t.retrieval_bytes + n })

-- `_bump_sandbox_seconds`
unfoldable pub bump_sandbox_seconds : Text → ℕ → Database → Database
bump_sandbox_seconds task_id n =
    update task_id (λ t. record t { sandbox_seconds = t.sandbox_seconds + n })
