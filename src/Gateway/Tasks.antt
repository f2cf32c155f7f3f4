-- ===== src/Gateway/Tasks.antt =====
-- The consumer surface of gateway/tasks_router.py: tasks are created, read and followed by the user of
-- the API key. The prices, which are fractions, and the JSON encoding of the replies are left out.
pub mod Scoped
use agentic_code_intelligenc.Prelude.{
  ℕ, ◌==◌, Bool, Option, none, some, List, [], ◌∷◌, ◌++◌, map, reverse, lstrip, Text, codes,
}
use agentic_code_intelligenc.Common.{TaskState, TaskMode, Reason, Error, Result, ok, err}
use agentic_code_intelligenc.Db.{Task, Database}
use agentic_code_intelligenc.Db.Accounts.{get_workspace_row}
use agentic_code_intelligenc.Db.Tasks.{get}
use agentic_code_intelligenc.Files.{FilePath}
use agentic_code_intelligenc.World.{Env, World}
use agentic_code_intelligenc.Gateway.{AuthContext}
use agentic_code_intelligenc.Orchestrator.Services.{Services}
use agentic_code_intelligenc.Orchestrator.Loop.{TaskStatus}
use agentic_code_intelligenc.Orchestrator.Facade.{
  TaskRequest, Defaults, TraceEvent, submit, stream_events,
}

-- `max_usd` is in millionths.
pub record BudgetRequest : Type 0 where
  pub max_tokens : ℕ
  pub max_usd : ℕ
  pub max_wall_seconds : ℕ

pub record CreateTaskRequest : Type 0 where
  pub workspace_id : Text
  pub instruction : Text
  pub budget : BudgetRequest
  pub mode : TaskMode

pub record TaskResponse : Type 0 where
  pub task_id : Text
  pub state : TaskState
  pub events_url : Text
  pub tokens_in : ℕ
  pub tokens_out : ℕ
  pub tool_calls : ℕ
  pub retrieval_bytes : ℕ
  pub sandbox_seconds : ℕ
  pub reason : Option Reason

-- `str(request.base_url).rstrip("/")`
abbrev rstrip_slash : Text → Text
rstrip_slash s = reverse (lstrip (λ c. c == b'/') (reverse s))

unfoldable pub task_response : Text → Task → TaskResponse
task_response base_url task = record {
  task_id = task.id;
  state = task.state;
  events_url = rstrip_slash base_url ++ (codes "/v1/tasks/" ++ (task.id ++ codes "/events"));
  tokens_in = task.tokens_in;
  tokens_out = task.tokens_out;
  tool_calls = task.tool_calls;
  retrieval_bytes = task.retrieval_bytes;
  sandbox_seconds = task.sandbox_seconds;
  reason = task.reason;
}

abbrev pub respond : Text → Option Task → Result TaskResponse
respond base_url none = err Error.not_found
respond base_url (some task) = ok (task_response base_url task)

-- `_assert_workspace_owned`
unfoldable pub assert_workspace_owned : AuthContext → Text → Database → Result (Unit {0})
assert_workspace_owned auth workspace_id db =
    elim (get_workspace_row auth.user_id workspace_id db) [
      | none ↦ err Error.not_found
      | some row ↦ ok tt
    ]

-- the request to the orchestrator: the user is the key's, the step budget the server's
unfoldable pub task_request : AuthContext → CreateTaskRequest → TaskRequest
task_request auth body = record {
  user_id = auth.user_id;
  workspace_id = body.workspace_id;
  instruction = body.instruction;
  mode = body.mode;
  max_tokens = some body.budget.max_tokens;
  max_steps = none;
  max_wall_seconds = some body.budget.max_wall_seconds;
}

unfoldable pub get_task : AuthContext → Text → Text → Database → Result TaskResponse
unfolding task_response
get_task auth base_url task_id db = respond base_url (get auth.user_id task_id db)

-- One message of the event stream.
pub data Frame : Type 0 where
  event : TraceEvent → Frame
  done : Frame
  not_found : Frame

abbrev frames : Result (List TraceEvent) → List Frame
frames (ok events) = map Frame.event events ++ Frame.done ∷ []
frames (err e) = Frame.not_found ∷ []

-- the stream; `NotFound` is the one exception that the orchestrator raises here
unfoldable pub stream_frames : AuthContext → Text → Database → List Frame
stream_frames auth task_id db = frames (stream_events auth.user_id task_id db)

module _ (env : Env) (wide : ℕ → Bool) (services : Services) (root : FilePath) (defaults : Defaults)
    (base_url : Text) where
  -- the row is read again after the run
  abbrev pub reply :
      AuthContext → Option (Result TaskStatus × World) → Option (Result TaskResponse × World)
  reply auth none = none
  reply auth (some (err e, w)) = some (err e, w)
  reply auth (some (ok status, w)) =
      some (respond base_url (get auth.user_id status.task_id w.db), w)

  abbrev pub when_owned :
      AuthContext
      → CreateTaskRequest
      → World
      → Result (Unit {0})
      → Option (Result TaskResponse × World)
  when_owned auth body w (err e) = some (err e, w)
  when_owned auth body w (ok _) =
      reply auth (submit env wide services root defaults (task_request auth body) w)

  unfoldable pub create_task :
      AuthContext → CreateTaskRequest → World → Option (Result TaskResponse × World)
  unfolding assert_workspace_owned task_request task_response
  create_task auth body w =
      when_owned auth body w (assert_workspace_owned auth body.workspace_id w.db)
