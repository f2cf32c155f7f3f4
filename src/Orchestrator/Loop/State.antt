-- ===== src/Orchestrator/Loop/State.antt =====
-- The state of the loop of orchestrator/loop.py, what it reads back from the journal, its budgets, and
-- how it ends.
use agentic_code_intelligenc.Prelude.{
  ℕ, suc, ◌+◌, ◌-◌, ◌*◌, max, leb, Option, none, some, List, [], ◌∷◌, ◌++◌, if◌then◌else◌, Text,
  codes, str,
}
use agentic_code_intelligenc.Common.{TaskState, TaskMode, StepKind, Reason, Error, ok}
use agentic_code_intelligenc.Sandbox.{PatchOp}
use agentic_code_intelligenc.Db.{Task, Effect, JournalEntry}
use agentic_code_intelligenc.Db.Tasks.{get_for_resume, set_state}
use agentic_code_intelligenc.Db.Journal.{get_trace}
use agentic_code_intelligenc.Db.Ledger.{spent_tokens}
use agentic_code_intelligenc.Files.{FilePath}
use agentic_code_intelligenc.World.{
  Env, World, ModelRequest, ModelResponse, Act, raise, gets, modify_db, emit, ◌>>=◌, ◌>>◌,
}
use agentic_code_intelligenc.Prompt.{DataSpan}
use agentic_code_intelligenc.Orchestrator.Effects.{
  Ctx, combined_patch, verified_in, failure_text_from_journal,
}

-- orchestrator/interface.py
pub record TaskStatus : Type 0 where
  pub task_id : Text
  pub user_id : Text
  pub workspace_id : Text
  pub state : TaskState
  pub step_index : ℕ
  pub tokens_in : ℕ
  pub tokens_out : ℕ
  pub tool_calls : ℕ
  pub retrieval_bytes : ℕ
  pub sandbox_seconds : ℕ
  pub reason : Option Reason
  pub patch : Option (List PatchOp)

-- The variables of the `while` loop.
pub record LoopState : Type 0 where
  pub step : ℕ
  pub repair_attempts : ℕ
  pub data_spans : List DataSpan

pub data Turn : Type 0 where
  finish : TaskStatus → Turn
  again : LoopState → Turn

-- What `run` has before its loop: the status of a task that has ended, or what the loop starts with.
pub data Start : Type 0 where
  already : TaskStatus → Start
  ready : Ctx → LoopState → Start

-- `_MAX_REPAIR_ATTEMPTS`
abbrev pub max_repair_attempts : ℕ
max_repair_attempts = 3

-- `max((e.step_index for e in trace), default=-1) + 1`
unfoldable pub next_index : List JournalEntry → ℕ
next_index [] = 0
next_index (e ∷ trace) = max (e.step_index + 1) (next_index trace)

unfoldable pub next_step_index : Text → World → ℕ
unfolding next_index
next_step_index task_id w = next_index (get_trace task_id w.db)

-- `_count_repair_attempts`
unfoldable pub failed_verifies : List JournalEntry → ℕ
failed_verifies [] = 0
failed_verifies (e ∷ trace) =
    let rest = failed_verifies trace in
    elim e.kind [
      | StepKind.verify ↦ if verified_in e.payload.effect then rest else suc rest
      | _ ↦ rest
    ]

unfoldable pub count_repair_attempts : Text → World → ℕ
unfolding failed_verifies
count_repair_attempts task_id w = failed_verifies (get_trace task_id w.db)

-- `_replay_data_spans`: a retrieval's origin, with no content
unfoldable pub origin_of : Effect → Text
origin_of (Effect.retrieved origin) = origin
origin_of _ = []

unfoldable pub origin_spans : List JournalEntry → List DataSpan
unfolding origin_of
origin_spans [] = []
origin_spans (e ∷ trace) =
    let rest = origin_spans trace in
    elim e.kind [
      | StepKind.retrieve ↦ record { origin = origin_of e.payload.effect; content = [] } ∷ rest
      | _ ↦ rest
    ]

unfoldable pub replay_data_spans : Text → World → List DataSpan
unfolding origin_spans
replay_data_spans task_id w = origin_spans (get_trace task_id w.db)

abbrev pub failure_span : Text → ℕ → World → DataSpan
failure_span task_id step w = record {
  origin = codes "sandbox_failure:step:" ++ str step;
  content = failure_text_from_journal task_id step w;
}

module _ (env : Env) where
  abbrev pub clock_breach : Ctx → ℕ → Option Reason
  clock_breach ctx elapsed =
      if leb (1000 * ctx.task.wall_clock_seconds) elapsed
      then some (Reason.wall_clock elapsed ctx.task.wall_clock_seconds)
      else none

  abbrev pub token_breach : Ctx → ℕ → Option Reason
  token_breach ctx spent =
      if leb ctx.task.token_budget spent
      then some (Reason.token_budget spent ctx.task.token_budget)
      else none

  -- `_budget_breach`
  unfoldable pub budget_breach : Ctx → ℕ → Act (Option Reason)
  budget_breach ctx step w =
      if leb ctx.task.step_budget step
      then (ok (some (Reason.step_budget ctx.task.step_budget)), w)
      else let w' : World = record w { clock_reads = w.clock_reads + 1 } in
        elim (clock_breach ctx (env.monotonic w.clock_reads - ctx.run_start)) [
          | some reason ↦ (ok (some reason), w')
          | none ↦ (ok (token_breach ctx (spent_tokens ctx.scope w.db)), w')
        ]

  -- `self._gateway.complete`
  unfoldable pub call_model : ModelRequest → Act ModelResponse
  call_model request w =
      (env.complete w.model_calls request, record w { model_calls = w.model_calls + 1 })

-- `_status`; the worktree is the loop's, or the current directory where `run` has not opened one.
unfoldable pub status_patch : FilePath → Task → World → Option (List PatchOp)
status_patch worktree task w = elim task.mode [
  | TaskMode.apply ↦ none
  | TaskMode.dry_run ↦ elim task.state [
    | TaskState.verified_success ↦ some (combined_patch worktree task.id w)
    | _ ↦ none
  ]
]

unfoldable pub status : FilePath → Task → World → TaskStatus
unfolding status_patch
status worktree task w = record {
  task_id = task.id;
  user_id = task.user_id;
  workspace_id = task.workspace_id;
  state = task.state;
  step_index = next_step_index task.id w;
  tokens_in = task.tokens_in;
  tokens_out = task.tokens_out;
  tool_calls = task.tool_calls;
  retrieval_bytes = task.retrieval_bytes;
  sandbox_seconds = task.sandbox_seconds;
  reason = task.reason;
  patch = status_patch worktree task w;
}

-- the `assert` of `_terminate`
abbrev pub status_of : FilePath → Option Task → Act TaskStatus
status_of worktree none = raise Error.not_found
status_of worktree (some task) = gets (status worktree task)

-- `_terminate`
unfoldable pub terminate : Ctx → TaskState → Option Reason → Act TaskStatus
terminate ctx state reason = do
  modify_db (set_state ctx.task.id state reason)
  last ← gets (next_step_index ctx.task.id)
  emit ctx.task.id last StepKind.verify
  found ← gets (λ w. get_for_resume ctx.task.id w.db)
  status_of ctx.worktree found
