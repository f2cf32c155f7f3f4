-- ===== src/Tests/Loop.antt =====
-- Examples for the loop of orchestrator/loop.py: a task that the model verifies at once.
use agentic_code_intelligenc.Prelude.{
  ◌≢◌, ◌+◌, ◌-◌, ◌≤◌, true, false, Option, none, some, is_some, [], ◌∷◌, ◌++◌, codes, text_eq, ◌≡◌,
  refl, ◌⊎◌,
}
use agentic_code_intelligenc.Common.{TaskState, is_terminal, Result, ok, err}
use agentic_code_intelligenc.Db.Tasks.{get_for_resume}
use agentic_code_intelligenc.Db.Journal.{get_step}
use agentic_code_intelligenc.Files.{path_eq_iff, Fs, read, resolve, is_under}
use agentic_code_intelligenc.World.{with_files, World, ModelResponse}
use agentic_code_intelligenc.Prompt.{AgentAction, ActionKind}
use agentic_code_intelligenc.Orchestrator.Charges.Reconcile.{commits}
use agentic_code_intelligenc.Orchestrator.Effects.{apply_op, run_effect}
use agentic_code_intelligenc.Orchestrator.Effects.Contained.{run_effect-outside}
use agentic_code_intelligenc.Orchestrator.Loop.{
  TaskStatus, Turn, status, next_step_index, fresh_step, run,
}
use agentic_code_intelligenc.Orchestrator.Loop.Turns.{HasVerdict}
use agentic_code_intelligenc.Orchestrator.Loop.Run.{
  run_returns, run_terminal, run_verified, WasTerminal,
}
use agentic_code_intelligenc.Orchestrator.Loop.DryRun.{run_dry}
use agentic_code_intelligenc.Db.Journal.Append.{IsUnique}
use agentic_code_intelligenc.Orchestrator.Loop.Unique.{run-IsUnique}
use agentic_code_intelligenc.Orchestrator.Loop.Resume.{run_calls, resume_step_fresh}
use agentic_code_intelligenc.Orchestrator.Loop.Paid.{IsPaid, request, fresh_step-IsPaid}
use agentic_code_intelligenc.Orchestrator.Loop.{
  prepare, set_up, loop, turn, budget_breach, call_model, terminate, journal_step, issue_model_call,
  after_success, decide, count_repair_attempts, replay_data_spans, commit_if_apply,
}
use agentic_code_intelligenc.World.{
  pure, raise, lift, gets, with_db, modify_db, modify_files, emit, now, ◌>>=◌,
}
use agentic_code_intelligenc.Db.Tasks.{set_state, bump_tokens, bump_sandbox_seconds}
use agentic_code_intelligenc.Db.Journal.{append, get_trace}
use agentic_code_intelligenc.Db.Ledger
use agentic_code_intelligenc.Db.Ledger.{spent_tokens, spent}
use agentic_code_intelligenc.Db.Accounts.{get_workspace_row}
use agentic_code_intelligenc.Workspace.{
  get_workspace, open_worktree, repo_path_of, worktree_path_of, user_root, snapshot_id,
}
use agentic_code_intelligenc.Orchestrator.Charges.{
  charge_from_journal, commit_step_charge, is_committed,
}
use agentic_code_intelligenc.Orchestrator.Effects.{
  do_verify, run_sandbox, kind_for_action, verified_from_journal, combined_patch,
}
use agentic_code_intelligenc.Prompt.{build_channels, parse_action}
use agentic_code_intelligenc.Prompt.Xml.{from_string}
use agentic_code_intelligenc.Prelude.{str, utf8, hex, starts_with, text_lt}
use agentic_code_intelligenc.Files.{
  join, path_eq, path_lt, is_dir, is_file, unlink, copytree, rglob, as_posix, parent,
}
use agentic_code_intelligenc.Tests.Demo.{
  index_file, task_id, scope, root, base, wt, env, wide, services, pending_task, database, crashed,
  world, files, ctx, start,
}

-- the world, and the status, that a run ends with
abbrev world_of : Option (Result TaskStatus × World) → World
world_of none = world
world_of (some (r, w)) = w

abbrev status_in : Option (Result TaskStatus × World) → TaskStatus
status_in none = status [] pending_task world
status_in (some (ok s, w)) = s
status_in (some (err e, w)) = status [] pending_task world

abbrev demo_run : Option (Result TaskStatus × World)
demo_run = run env wide services root task_id world

run_returns_example : is_some (run env wide services root task_id world) ≡ true
run_returns_example = run_returns env wide services root task_id world

demo_run_ok :
    (demo_run ≡ some (ok (status_in demo_run), world_of demo_run))
    × ((status_in demo_run).state ≡ TaskState.verified_success)
unfolding run prepare set_up loop turn budget_breach call_model status terminate journal_step
    issue_model_call after_success decide fresh_step next_step_index count_repair_attempts
    replay_data_spans commit_if_apply pure raise lift gets with_db modify_db emit now ◌>>=◌
    get_for_resume set_state bump_tokens bump_sandbox_seconds append get_step get_trace spent_tokens
    spent get_workspace get_workspace_row open_worktree repo_path_of worktree_path_of user_root
    snapshot_id modify_files with_files charge_from_journal commit_step_charge is_committed
    run_effect do_verify run_sandbox kind_for_action verified_from_journal combined_patch
    build_channels parse_action from_string is_terminal text_eq str utf8 hex resolve join is_under
    path_eq is_dir is_file read starts_with text_lt path_lt copytree rglob as_posix parent
    Ledger.append
demo_run_ok = (refl, refl)

run_terminal_example : is_terminal (status_in demo_run).state ≡ true
run_terminal_example =
    run_terminal env wide services root task_id world (world_of demo_run) (status_in demo_run)
      demo_run_ok.0

run_verified_example :
    WasTerminal env wide services root task_id world ⊎ HasVerdict task_id (world_of demo_run)
run_verified_example =
    run_verified env wide services root task_id world (world_of demo_run) (status_in demo_run)
      demo_run_ok.0 demo_run_ok.1

found_pending : get_for_resume task_id world.db ≡ some pending_task
unfolding get_for_resume text_eq
found_pending = refl

run_calls_example :
    (world_of demo_run).model_calls
    ≤ world.model_calls + (pending_task.step_budget - next_step_index task_id world)
run_calls_example =
    run_calls env wide services root task_id world (world_of demo_run) pending_task
      (ok (status_in demo_run)) found_pending demo_run_ok.0

resume_step_fresh_example :
    get_step task_id (next_step_index task_id (record world { db = crashed })) crashed ≡ none
resume_step_fresh_example = resume_step_fresh task_id (record world { db = crashed })

abbrev next_of : Result Turn × World → Turn
next_of (ok next, w) = next
next_of (err e, w) = Turn.again start

abbrev demo_step : Result Turn × World
demo_step = fresh_step env wide services root ctx start world

demo_step_ok :
    (demo_step ≡ (ok (next_of demo_step), demo_step.1))
    × (get_step task_id 0 database ≡ none)
    × (commits scope task_id 0 [] ≡ 0)
unfolding commits run prepare set_up loop turn budget_breach call_model status terminate
    journal_step issue_model_call after_success decide fresh_step next_step_index
    count_repair_attempts replay_data_spans commit_if_apply pure raise lift gets with_db modify_db
    emit now ◌>>=◌ get_for_resume set_state bump_tokens bump_sandbox_seconds append get_step
    get_trace spent_tokens spent get_workspace get_workspace_row open_worktree repo_path_of
    worktree_path_of user_root snapshot_id modify_files with_files charge_from_journal
    commit_step_charge is_committed run_effect do_verify run_sandbox kind_for_action
    verified_from_journal combined_patch build_channels parse_action from_string is_terminal text_eq
    str utf8 hex resolve join is_under path_eq is_dir is_file read starts_with text_lt path_lt
    copytree rglob as_posix parent Ledger.append
demo_step_ok = (refl, refl, refl)

fresh_step-IsPaid_example :
    (r : ModelResponse) × (env.complete world.model_calls (request env wide services root ctx start)
      ≡ ok r)
    × IsPaid scope task_id 0 r demo_step.1
fresh_step-IsPaid_example =
    fresh_step-IsPaid env wide services root ctx start world demo_step.1 (next_of demo_step)
      demo_step_ok.1 demo_step_ok.2 demo_step_ok.0

abbrev edit : AgentAction
edit = record {
  kind = ActionKind.edit;
  fields = (codes "file_path", codes "../../repo/a.py") ∷ (codes "content", codes "boom") ∷ [];
}

repo_is_outside : is_under (resolve wt) (base ++ codes "a.py" ∷ []) ≡ false
unfolding is_under resolve text_eq
repo_is_outside = refl

not_index : base ++ codes "a.py" ∷ [] ≢ index_file
unfolding path_eq text_eq
not_index = λ e.
    let t : path_eq (base ++ codes "a.py" ∷ []) index_file ≡ true =
      (path_eq_iff (base ++ codes "a.py" ∷ []) index_file).1 e in
    cc

run_effect-outside_example :
    read (run_effect env wide services ctx 0 edit [] world).1.fs (base ++ codes "a.py" ∷ [])
    ≡ read world.fs (base ++ codes "a.py" ∷ [])
run_effect-outside_example =
    run_effect-outside env ctx wide services 0 edit [] world (base ++ codes "a.py" ∷ [])
      repo_is_outside not_index

abbrev fs_of : Result Fs → Fs
fs_of (ok fs) = fs
fs_of (err e) = files

abbrev deleted : Result Fs
deleted = apply_op wt (codes "delete") (codes "a.py") [] files

deleted_ok : deleted ≡ ok (fs_of deleted)
unfolding apply_op resolve join is_under starts_with text_eq unlink is_dir path_eq
deleted_ok = refl

run_dry_example : (world_of demo_run).db.workspaces ≡ world.db.workspaces
run_dry_example =
    run_dry env wide services root task_id world (world_of demo_run) pending_task
      (ok (status_in demo_run)) found_pending refl demo_run_ok.0

run-IsUnique_example : IsUnique (world_of demo_run).db.journal
run-IsUnique_example =
    run-IsUnique env wide services root task_id world (world_of demo_run) (ok (status_in demo_run))
      tt demo_run_ok.0
