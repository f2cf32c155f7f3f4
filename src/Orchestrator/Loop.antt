-- ===== src/Orchestrator/Loop.antt =====
-- `AgentLoop.run` of orchestrator/loop.py: the state machine, one turn at a time.
mod State
pub mod Turns
pub mod Run
pub mod Keeps
pub mod Calls
pub mod Resume
pub mod Paid
pub mod Unique
pub mod Parts
pub mod Report
pub mod Owners
pub mod Heads
pub mod DryRun
unfoldable pub use State.*
use agentic_code_intelligenc.Prelude.{
  ℕ, zero, suc, ◌+◌, ◌-◌, ◌*◌, max, leb, Bool, true, false, not, ◌&&◌, ◌||◌, Option, none, some,
  List, [], ◌∷◌, ◌++◌, length, if◌then◌else◌, Text, codes, text_eq, str,
}
use agentic_code_intelligenc.Common.{
  TaskState, TaskMode, is_terminal, StepKind, Reason, Error, Result, ok, err,
}
use agentic_code_intelligenc.Sandbox.{PatchOp}
use agentic_code_intelligenc.Db.{Task, Effect, Payload, JournalEntry, Database}
use agentic_code_intelligenc.Db.Tasks.{get_for_resume, set_state, bump_tokens}
use agentic_code_intelligenc.Db.Journal.{append, get_step, get_trace}
use agentic_code_intelligenc.Db.Ledger.{spent_tokens}
use agentic_code_intelligenc.Files.{FilePath}
use agentic_code_intelligenc.World.{
  Env, World, ModelRequest, ModelResponse, Act, pure, raise, lift, gets, with_db, modify_db, emit,
  now, ◌>>=◌, ◌>>◌,
}
use agentic_code_intelligenc.Workspace.{get_workspace, open_worktree, commit_worktree, or_else}
use agentic_code_intelligenc.Prompt.{
  AgentAction, ActionKind, DataSpan, kind_value, build_channels, parse_action,
}
use agentic_code_intelligenc.Orchestrator.Services.{Services}
use agentic_code_intelligenc.Orchestrator.Effects.{
  Ctx, field, kind_for_action, combined_patch, verified_in, verified_from_journal,
  failure_text_from_journal, run_effect,
}
use agentic_code_intelligenc.Orchestrator.Charges.{charge_from_journal, commit_step_charge}

module _ (env : Env) (wide : ℕ → Bool) (services : Services) (root : FilePath) where
  abbrev payload : ModelResponse → Effect → Payload
  payload response effect = record {
    content_xml = response.content_xml;
    input_tokens = response.input_tokens;
    output_tokens = response.output_tokens;
    backend = response.backend;
    charge_tokens = some (response.input_tokens + response.output_tokens);
    effect = effect;
  }

  -- the journal row of a step, its charge and its metering, in this order
  unfoldable pub journal_step : Ctx → ℕ → AgentAction → ModelResponse → Effect → Act (Unit {0})
  journal_step ctx step action response effect = do
    with_db (
        append ctx.task.id step (kind_for_action action.kind)
          (codes "step:" ++ (ctx.task.id ++ (codes ":" ++ str step))) (payload response effect))
    modify_db (
        commit_step_charge ctx.scope ctx.task.id step
          (response.input_tokens + response.output_tokens)
          (codes "model:" ++ kind_value action.kind))
    modify_db (bump_tokens ctx.task.id response.input_tokens response.output_tokens)

  -- `_issue_model_call`
  unfoldable pub issue_model_call : Ctx → ℕ → List DataSpan → Act (AgentAction × List DataSpan)
  issue_model_call ctx step spans = do
    let (instruction_xml, data_xml) = build_channels ctx.task.instruction spans
    response ← call_model env (record {
      task_id = ctx.task.id;
      step_index = step;
      instruction_xml = instruction_xml;
      data_xml = data_xml;
    })
    action ← lift (parse_action response.content_xml)
    (effect, spans') ← run_effect env wide services ctx step action spans
    journal_step ctx step action response effect
    pure (action, spans')

  -- `_commit_if_apply`: a conflict is a reason, any other exception goes on
  abbrev conflict_reason : Result Text × World → Result (Option Reason) × World
  conflict_reason (ok head, w) = (ok none, w)
  conflict_reason (err Error.conflict, w) = (ok (some Reason.commit_conflict), w)
  conflict_reason (err e, w) = (err e, w)

  unfoldable pub commit_if_apply : Ctx → Act (Option Reason)
  commit_if_apply ctx w = elim ctx.task.mode [
    | TaskMode.dry_run ↦ (ok none, w)
    | TaskMode.apply ↦ conflict_reason (
        commit_worktree env root ctx.task.user_id ctx.task.workspace_id ctx.task.id ctx.base_commit
          w)
  ]

  abbrev end_with : Ctx → TaskState → Option Reason → Act Turn
  end_with ctx state reason = terminate ctx state reason >>= λ s. pure (Turn.finish s)

  abbrev after_commit : Ctx → Option Reason → Act Turn
  after_commit ctx (some reason) = end_with ctx TaskState.gave_up (some reason)
  after_commit ctx none = end_with ctx TaskState.verified_success none

  -- the verdict is in the journal, and it is good
  unfoldable pub after_success : Ctx → Act Turn
  after_success ctx = do conflict ← commit_if_apply ctx; after_commit ctx conflict

  -- the verdict is in the journal, and it is bad: repair, or give up
  unfoldable pub after_failure : Ctx → ℕ → ℕ → List DataSpan → Act Turn
  after_failure ctx step repair_attempts spans =
      if leb max_repair_attempts repair_attempts
      then end_with ctx TaskState.gave_up (some (Reason.not_repaired repair_attempts))
      else (do
        span ← gets (failure_span ctx.task.id step)
        emit ctx.task.id step StepKind.repair
        pure (
            Turn.again (record {
              step = step + 1;
              repair_attempts = repair_attempts + 1;
              data_spans = spans ++ span ∷ [];
            })))

  -- the part of a turn behind the model's action
  unfoldable pub decide : Ctx → ℕ → ℕ → AgentAction → List DataSpan → Act Turn
  decide ctx step repair_attempts action spans = elim action.kind [
    | ActionKind.give_up ↦
        end_with ctx TaskState.gave_up
          (some (Reason.model_gave_up (field action (codes "reason") (codes "gave up"))))
    | ActionKind.verify ↦ (do
      verified ← gets (verified_from_journal ctx.task.id step)
      if verified then after_success ctx else after_failure ctx step repair_attempts spans)
    | _ ↦ pure (
        Turn.again
          (record { step = step + 1; repair_attempts = repair_attempts; data_spans = spans }))
  ]

  -- the spans that `_replay_effect` adds
  abbrev replayed_spans : Ctx → ℕ → AgentAction → JournalEntry → World → List DataSpan
  replayed_spans ctx step action entry w = elim action.kind [
    | ActionKind.retrieve ↦ record { origin = origin_of entry.payload.effect; content = [] } ∷ []
    | ActionKind.verify ↦
        if verified_in entry.payload.effect then [] else failure_span ctx.task.id step w ∷ []
    | _ ↦ []
  ]

  abbrev replayed_attempts : Ctx → ℕ → ℕ → AgentAction → World → ℕ
  replayed_attempts ctx step repair_attempts action w = elim action.kind [
    | ActionKind.verify ↦
        if verified_from_journal ctx.task.id step w
        then repair_attempts
        else count_repair_attempts ctx.task.id w
    | _ ↦ repair_attempts
  ]

  -- a step that is in the journal: no model call, no effect
  unfoldable pub replay_step : Ctx → LoopState → JournalEntry → Act Turn
  unfolding origin_of
  replay_step ctx st entry = do
    action ← lift (parse_action entry.payload.content_xml)
    spans ← gets (replayed_spans ctx st.step action entry)
    emit ctx.task.id st.step (kind_for_action action.kind)
    attempts ← gets (replayed_attempts ctx st.step st.repair_attempts action)
    decide ctx st.step attempts action (st.data_spans ++ spans)

  -- a step that is not in the journal yet
  unfoldable pub fresh_step : Ctx → LoopState → Act Turn
  fresh_step ctx st = do
    (action, spans) ← issue_model_call ctx st.step st.data_spans
    decide ctx st.step st.repair_attempts action spans

  abbrev step_with : Ctx → LoopState → Option JournalEntry → Act Turn
  step_with ctx st (some entry) = replay_step ctx st entry
  step_with ctx st none = fresh_step ctx st

  abbrev unless_breach : Ctx → LoopState → Option Reason → Act Turn
  unless_breach ctx st (some reason) = end_with ctx TaskState.budget_exhausted (some reason)
  unless_breach ctx st none =
      gets (λ w. get_step ctx.task.id st.step w.db) >>= λ cached. step_with ctx st cached

  -- the body of the `while` loop
  unfoldable pub turn : Ctx → LoopState → Act Turn
  turn ctx st = do breach ← budget_breach env ctx st.step; unless_breach ctx st breach

  abbrev after_turn :
      (LoopState → World → Option (Result TaskStatus × World))
      → Result Turn × World
      → Option (Result TaskStatus × World)
  after_turn next (ok (Turn.finish s), w) = some (ok s, w)
  after_turn next (ok (Turn.again st), w) = next st w
  after_turn next (err e, w) = some (err e, w)

  -- The loop on fuel: `none` where the fuel runs out.
  unfoldable pub loop : ℕ → Ctx → LoopState → World → Option (Result TaskStatus × World)
  loop zero ctx st w = none
  loop (suc fuel) ctx st w = after_turn (loop fuel ctx) (turn ctx st w)

  abbrev scope_of : Text → Text
  scope_of task_id = codes "task:" ++ task_id

  -- what `run` does to a task that has not ended, before the loop
  unfoldable pub set_up : Task → Act Start
  set_up task = do
    modify_db (charge_from_journal (scope_of task.id) task.id)
    run_start ← now env
    modify_db (set_state task.id TaskState.running none)
    ref ← get_workspace task.user_id task.workspace_id
    handle ← open_worktree env root task.user_id task.workspace_id task.id
    spans ← gets (replay_data_spans task.id)
    step ← gets (next_step_index task.id)
    attempts ← gets (count_repair_attempts task.id)
    pure (
        Start.ready
          (record {
            task = task;
            scope = scope_of task.id;
            commit = or_else ref.head_commit [];
            worktree = handle.path;
            base_commit = handle.base_commit;
            run_start = run_start;
          })
          (record { step = step; repair_attempts = attempts; data_spans = spans }))

  abbrev begin_with : Option Task → Act Start
  begin_with none = raise Error.value_error
  begin_with (some task) =
      let fresh = set_up task in
      if is_terminal task.state
      then (gets (status env.cwd task) >>= λ s. pure (Start.already s))
      else fresh

  unfoldable pub prepare : Text → Act Start
  prepare task_id = do found ← gets (λ w. get_for_resume task_id w.db); begin_with found

  abbrev start_loop : Result Start × World → Option (Result TaskStatus × World)
  start_loop (err e, w) = some (err e, w)
  start_loop (ok (Start.already s), w) = some (ok s, w)
  start_loop (ok (Start.ready ctx st), w) = loop (suc ctx.task.step_budget) ctx st w

  -- `AgentLoop.run`
  unfoldable pub run : Text → World → Option (Result TaskStatus × World)
  run task_id w = start_loop (prepare task_id w)
