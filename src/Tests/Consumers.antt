-- ===== src/Tests/Consumers.antt =====
-- Examples for the facade and the consumer surface: a task is submitted, run and answered.
use agentic_code_intelligenc.Prelude.{
  true, Option, none, some, is_some, [], codes, text_eq, ◌≡◌, refl,
}
use agentic_code_intelligenc.Common.{TaskMode, is_terminal, Error, Result, ok, err}
use agentic_code_intelligenc.World.{
  with_files, World, pure, raise, lift, gets, with_db, modify_db, modify_files, emit, now, ◌>>=◌,
}
use agentic_code_intelligenc.Db.Accounts.{get_workspace_row, new_id}
use agentic_code_intelligenc.Db.Tasks.{
  create, get_for_resume, set_state, bump_tokens, bump_sandbox_seconds,
}
use agentic_code_intelligenc.Db.Journal.{append, get_step, get_trace}
use agentic_code_intelligenc.Db.Ledger
use agentic_code_intelligenc.Db.Ledger.{spent_tokens, spent}
use agentic_code_intelligenc.Workspace.{
  ignored, get_workspace, open_worktree, repo_path_of, worktree_path_of, user_root, snapshot_id,
}
use agentic_code_intelligenc.Orchestrator.Charges.{
  charge_from_journal, commit_step_charge, is_committed,
}
use agentic_code_intelligenc.Orchestrator.Effects.{
  run_effect, do_verify, run_sandbox, kind_for_action, verified_from_journal, combined_patch,
}
use agentic_code_intelligenc.Orchestrator.Loop.{
  TaskStatus, status, next_step_index, fresh_step, run, prepare, set_up, loop, turn, budget_breach,
  call_model, terminate, journal_step, issue_model_call, after_success, decide,
  count_repair_attempts, replay_data_spans, commit_if_apply,
}
use agentic_code_intelligenc.Orchestrator.Facade.{
  TaskRequest, Defaults, or_default, create_task, submit, get_status,
}
use agentic_code_intelligenc.Orchestrator.Facade.Agree.{Agree, submit_agrees}
use agentic_code_intelligenc.Gateway.{AuthContext}
use agentic_code_intelligenc.Gateway.Tasks
use agentic_code_intelligenc.Gateway.Tasks.{CreateTaskRequest, task_request}
use agentic_code_intelligenc.Gateway.Tasks.Scoped.{IsReply, create_task_scoped}
use agentic_code_intelligenc.Prompt.{build_channels, parse_action}
use agentic_code_intelligenc.Prompt.Xml.{from_string}
use agentic_code_intelligenc.Prelude.{str, utf8, hex, starts_with, text_lt}
use agentic_code_intelligenc.Files.{
  strip, join, path_eq, path_lt, is_dir, is_file, is_under, read, resolve, copytree, rglob,
  as_posix, parent,
}
use agentic_code_intelligenc.Tests.Demo.{user, ws, root, env, wide, services, pending_task, world}

abbrev defaults : Defaults
defaults = record { token_budget = 1000; step_budget = 3; wall_clock_seconds = 60 }

abbrev ask : TaskRequest
ask = record {
  user_id = user;
  workspace_id = ws;
  instruction = codes "check";
  mode = TaskMode.dry_run;
  max_tokens = none;
  max_steps = some 2;
  max_wall_seconds = some 0;
}

abbrev demo_submit : Option (Result TaskStatus × World)
demo_submit = submit env wide services root defaults ask world

abbrev world_of : Option (Result TaskStatus × World) → World
world_of none = world
world_of (some (r, w)) = w

abbrev status_in : Option (Result TaskStatus × World) → TaskStatus
status_in none = status [] pending_task world
status_in (some (ok s, w)) = s
status_in (some (err e, w)) = status [] pending_task world

demo_submit_ok : demo_submit ≡ some (ok (status_in demo_submit), world_of demo_submit)
unfolding submit create_task create new_id or_default run prepare set_up loop turn budget_breach
    call_model status terminate journal_step issue_model_call after_success decide fresh_step
    next_step_index count_repair_attempts replay_data_spans commit_if_apply pure raise lift gets
    with_db modify_db emit now ◌>>=◌ get_for_resume set_state bump_tokens bump_sandbox_seconds
    append get_step get_trace spent_tokens spent get_workspace get_workspace_row open_worktree
    repo_path_of worktree_path_of user_root snapshot_id modify_files with_files ignored strip
    charge_from_journal commit_step_charge is_committed run_effect do_verify run_sandbox
    kind_for_action verified_from_journal combined_patch build_channels parse_action from_string
    is_terminal text_eq str utf8 hex resolve join is_under path_eq is_dir is_file read starts_with
    text_lt path_lt copytree rglob as_posix parent Ledger.append
demo_submit_ok = refl

submit_agrees_example :
    ((status_in demo_submit).user_id ≡ user)
    × (is_terminal (status_in demo_submit).state ≡ true)
    × ((s' : TaskStatus) × (get_status
            (status_in demo_submit).user_id
            (status_in demo_submit).task_id
            (world_of demo_submit).db
          ≡ ok s')
        × Agree (status_in demo_submit) s')
submit_agrees_example =
    submit_agrees env wide services root defaults ask world (world_of demo_submit)
      (status_in demo_submit) demo_submit_ok

abbrev auth : AuthContext
auth = record { user_id = user; api_key_id = codes "k1" }

abbrev body : CreateTaskRequest
body = record {
  workspace_id = ws;
  instruction = codes "check";
  budget = record { max_tokens = 1000; max_usd = 0; max_wall_seconds = 60 };
  mode = TaskMode.apply;
}

create_task_scoped_example :
    (get_workspace_row user ws world.db ≡ none
      → Tasks.create_task env wide services root defaults (codes "http://h/") auth body world
        ≡ some (err Error.not_found, world))
    × (is_some (get_workspace_row user ws world.db) ≡ true
        → IsReply env wide services root defaults
            (codes "http://h/")
            auth
            body
            (submit env wide services root defaults (task_request auth body) world)
            (Tasks.create_task env wide services root defaults (codes "http://h/") auth body world))
create_task_scoped_example =
    create_task_scoped env wide services root defaults (codes "http://h/") auth body world
