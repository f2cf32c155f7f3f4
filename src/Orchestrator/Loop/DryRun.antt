-- ===== src/Orchestrator/Loop/DryRun.antt =====
-- A run of orchestrator/loop.py in DRY_RUN mode: no workspace moves.
use agentic_code_intelligenc.Prelude.{ℕ, Bool, Option, none, some, Text, ◌≡◌, refl, arith}
use agentic_code_intelligenc.Common.{TaskMode, Result, ok, err}
use agentic_code_intelligenc.Db.{Task}
use agentic_code_intelligenc.Db.Tasks.{get_for_resume}
use agentic_code_intelligenc.Files.{FilePath}
use agentic_code_intelligenc.World.{Env, World, ModelRequest}
use agentic_code_intelligenc.World.Moves.{Moves}
use agentic_code_intelligenc.World.Post.{Post}
use agentic_code_intelligenc.Workspace.{open_worktree}
use agentic_code_intelligenc.Orchestrator.Services.{Services}
use agentic_code_intelligenc.Orchestrator.Effects.{Ctx}
use agentic_code_intelligenc.Orchestrator.Loop.Resume.{Ready, prepare-Resumed}
use agentic_code_intelligenc.Orchestrator.Loop.{
  TaskStatus, Start, budget_breach, call_model, commit_if_apply, set_up, begin_with, prepare,
  start_loop, run,
}
use agentic_code_intelligenc.Orchestrator.Loop.Heads.{
  SameHeads, heads_order, heads_tools, heads_rules, Heads-append, Heads-commit, Heads-bump,
  Heads-reconcile, Heads-set_state,
}
use agentic_code_intelligenc.Orchestrator.Loop.Parts.{Parts, Ended, ready-Ended}

module _ (env : Env) (wide : ℕ → Bool) (services : Services) (root : FilePath) where
  Heads-call_model : (request : ModelRequest) → Moves SameHeads (call_model env request)
  unfolding call_model
  Heads-call_model request = record { at = λ w. record { same = refl } }

  Heads-budget_breach : (ctx : Ctx) (step : ℕ) → Moves SameHeads (budget_breach env ctx step)
  unfolding budget_breach
  Heads-budget_breach ctx step = record { at = λ w. record { same = ground arith } }

  Heads-commit_if_apply :
      (ctx : Ctx)
      → ctx.task.mode ≡ TaskMode.dry_run
      → Moves SameHeads (commit_if_apply env wide services root ctx)
  unfolding commit_if_apply
  Heads-commit_if_apply ctx dry = record { at = λ w. rw dry (heads_order.refl' w) }

  heads_parts :
      (ctx : Ctx) → ctx.task.mode ≡ TaskMode.dry_run → Parts env wide services root ctx SameHeads
  heads_parts ctx dry = record {
    tools = heads_tools env ctx services.index_file;
    appends = Heads-append ctx.task.id;
    charges = Heads-commit ctx.scope ctx.task.id;
    bumps = Heads-bump ctx.task.id;
    ends = Heads-set_state ctx.task.id;
    calls = Heads-call_model;
    reads_budget = Heads-budget_breach ctx;
    commits = Heads-commit_if_apply ctx dry;
  }

  Heads-open_worktree : (u w t : Text) → Moves SameHeads (open_worktree env root u w t)
  unfolding open_worktree
  Heads-open_worktree u w t = search heads_rules depth 14

  Heads-set_up : (task : Task) → Moves SameHeads (set_up env wide services root task)
  unfolding set_up
  Heads-set_up task = search (heads_rules, Heads-reconcile, Heads-open_worktree) depth 20

  Heads-begin_with :
      (found : Option Task) → Moves SameHeads (begin_with env wide services root found)
  Heads-begin_with none = search heads_rules
  Heads-begin_with (some task) = search (heads_rules, Heads-set_up)

  Heads-prepare : (t : Text) → Moves SameHeads (prepare env wide services root t)
  unfolding prepare
  Heads-prepare t = search (heads_rules, Heads-begin_with)

  start_loop-Unmoved :
      (task : Task) (w : World) (x : Result Start × World)
      → task.mode ≡ TaskMode.dry_run
      → Post (Ready env wide services root task w) x
      → SameHeads w x.1
      → Ended SameHeads w (start_loop env wide services root x)
  start_loop-Unmoved task w (err e, v) dry p h = h
  start_loop-Unmoved task w (ok (Start.already s), v) dry p h = h
  start_loop-Unmoved task w (ok (Start.ready ctx st), v) dry (same, _, _, _) h =
      ready-Ended env wide services root ctx SameHeads (heads_parts ctx (rw same dry)) st w v h

  -- A run of a task in DRY_RUN mode, whether it returns or raises, leaves every workspace row as it
  -- was: no commit moves a head.
  pub run_dry :
      (t : Text) (w w' : World) (task : Task) (r : Result TaskStatus)
      → get_for_resume t w.db ≡ some task
      → task.mode ≡ TaskMode.dry_run
      → run env wide services root t w ≡ some (r, w')
      → w'.db.workspaces ≡ w.db.workspaces
  unfolding run
  run_dry t w w' task r e dry h =
      let u =
        start_loop-Unmoved task w (prepare env wide services root t w) dry
          (prepare-Resumed env wide services root t w task e) ((Heads-prepare t).at w) in
      let p = rw h at u in p.same
