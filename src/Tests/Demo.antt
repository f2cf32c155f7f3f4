-- ===== src/Tests/Demo.antt =====
-- One user with one workspace and one task, and code outside the repository that answers always the
-- same: the model asks for verification, and the sandbox passes it.
use agentic_code_intelligenc.Prelude.{
  ℕ, Bool, true, false, none, some, [], ◌∷◌, ◌++◌, Text, codes, refl, append-nil, pos,
}
use agentic_code_intelligenc.Common.{TaskState, TaskMode, StepKind, ok}
use agentic_code_intelligenc.Sandbox.{VerificationStage, VerificationResult}
use agentic_code_intelligenc.Db.{Database, Task, Workspace, ApiKey, JournalEntry, Effect}
use agentic_code_intelligenc.Files.{FilePath, Fs}
use agentic_code_intelligenc.World.{Env, World, ModelResponse, pure}
use agentic_code_intelligenc.World.Moves.{Moves}
use agentic_code_intelligenc.Orchestrator.Services.{Services, ChargesOnly}
use agentic_code_intelligenc.Orchestrator.Effects.{Ctx}
use agentic_code_intelligenc.Orchestrator.Loop.{LoopState}

abbrev pub user : Text
user = codes "ada"

abbrev pub ws : Text
ws = codes "w1"

abbrev pub task_id : Text
task_id = codes "t1"

abbrev pub scope : Text
scope = codes "task:t1"

abbrev pub root : FilePath
root = codes "srv" ∷ []

abbrev pub base : FilePath
base = codes "srv" ∷ user ∷ ws ∷ codes "repo" ∷ []

abbrev pub wt : FilePath
wt = codes "srv" ∷ user ∷ ws ∷ codes "worktrees" ∷ task_id ∷ []

abbrev pub passed : VerificationResult
passed = record {
  verified = true;
  applied = true;
  built = true;
  tests_passed = true;
  exit_code = pos 0;
  stage = VerificationStage.done;
  stdout_tail = [];
  stderr_tail = [];
  wall_clock = 0;
  killed_reason = none;
}

abbrev pub verify_reply : ModelResponse
verify_reply = record {
  content_xml = codes "<action kind=\"verify\"/>";
  input_tokens = 30;
  output_tokens = 12;
  backend = codes "stub";
}

abbrev pub env : Env
env = record {
  uuid4 = λ n. n ∷ [];
  sha256 = λ bytes. bytes;
  monotonic = λ n. n;
  cwd = [];
  flock = λ n. true;
  complete = λ n request. ok verify_reply;
  verify_snapshot = λ n request p fs. ok passed;
}

abbrev pub wide : ℕ → Bool
wide c = false

abbrev pub pending_task : Task
pending_task = record {
  id = task_id;
  user_id = user;
  workspace_id = ws;
  state = TaskState.pending;
  mode = TaskMode.dry_run;
  instruction = codes "rename f";
  reason = none;
  step_index = 0;
  token_budget = 1000;
  step_budget = 3;
  wall_clock_seconds = 60;
  tokens_in = 0;
  tokens_out = 0;
  tool_calls = 0;
  retrieval_bytes = 0;
  sandbox_seconds = 0;
}

abbrev pub workspace : Workspace
workspace = record { id = ws; user_id = user; source = []; head_commit = some (codes "h0") }

abbrev pub api_key : ApiKey
api_key = record {
  id = codes "k1";
  user_id = user;
  key_prefix = codes "pre";
  key_hash = codes "73";
  rate_limit_per_min = 2;
  daily_token_budget = 0;
  revoked = false;
}

abbrev pub database : Database
database = record {
  users = record { id = user } ∷ [];
  api_keys = api_key ∷ [];
  workspaces = workspace ∷ [];
  tasks = pending_task ∷ [];
  journal = [];
  budget_ledger = [];
  artifacts = [];
  uuids = 0;
}

abbrev pub files : Fs
files = record {
  files =
      (base ++ codes "a.py" ∷ [], codes "x = 1") ∷ (wt ++ codes "a.py" ∷ [], codes "y = 2") ∷ [];
  dirs = root ∷ base ∷ wt ∷ [];
}

abbrev pub world : World
world = record {
  db = database;
  fs = files;
  events = [];
  model_calls = 0;
  sandbox_runs = 0;
  clock_reads = 0;
}

abbrev pub index_file : FilePath
index_file = codes "srv" ∷ user ∷ ws ∷ codes "index.json" ∷ []

nothing_charged : (w : World) → ChargesOnly index_file w w
nothing_charged w = record {
  rows = [];
  stepless = tt;
  db_same = rw (append-nil w.db.budget_ledger) refl;
  other_files = λ q other. refl;
  events_same = refl;
  calls_same = refl;
  runs_same = refl;
}

pub quiet : {A : Type 0} (a : A) → Moves (ChargesOnly index_file) (pure a)
unfolding pure
quiet a = record { at = nothing_charged }

abbrev pub services : Services
services = record {
  index_file = index_file;
  definition = λ s budget name. pure none;
  read_span = λ s budget span. pure (record { content = []; byte_count = 0; token_cost = 1 });
  rename_sites = λ u w name. pure [];
  definition_lem = λ s budget name. quiet none;
  read_span_lem = λ s budget span. quiet (record { content = []; byte_count = 0; token_cost = 1 });
  rename_sites_lem = λ u w name. quiet [];
}

abbrev pub ctx : Ctx
ctx = record {
  task = pending_task;
  scope = scope;
  commit = codes "h0";
  worktree = wt;
  base_commit = codes "h0";
  run_start = 0;
}

abbrev pub start : LoopState
start = record { step = 0; repair_attempts = 0; data_spans = [] }

-- a journal row whose charge a crash has lost
abbrev pub row : JournalEntry
row = record {
  id = 1;
  task_id = task_id;
  step_index = 0;
  kind = StepKind.plan;
  idempotency_key = codes "step:t1:0";
  payload = record {
    content_xml = codes "<action kind=\"plan\"/>";
    input_tokens = 5;
    output_tokens = 2;
    backend = codes "stub";
    charge_tokens = some 7;
    effect = Effect.nothing;
  };
}

abbrev pub crashed : Database
crashed = record database { journal = row ∷ [] }
