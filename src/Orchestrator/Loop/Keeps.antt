-- ===== src/Orchestrator/Loop/Keeps.antt =====
-- What the end of a turn of orchestrator/loop.py leaves alone: the journal, the count of model calls,
-- and the ledger rows that belong to a step.
use agentic_code_intelligenc.Prelude.{
  ℕ, Bool, Option, none, some, List, Text, ◌≡◌, refl, arith, inl, inr,
}
use agentic_code_intelligenc.Common.{TaskState, Reason, Error, Result, ok, err}
use agentic_code_intelligenc.Db.{Task}
use agentic_code_intelligenc.Db.Accounts.{set_head}
use agentic_code_intelligenc.Db.Tasks.{set_state}
use agentic_code_intelligenc.Files.{FilePath}
use agentic_code_intelligenc.World.{Env, World, modify_db}
use agentic_code_intelligenc.World.Moves.{Moves}
use agentic_code_intelligenc.Workspace.{fast_forward, commit_worktree, get_workspace, take_lock}
use agentic_code_intelligenc.Prompt.{AgentAction, ActionKind, DataSpan}
use agentic_code_intelligenc.Orchestrator.Services.{Services}
use agentic_code_intelligenc.Orchestrator.Effects.{Ctx}
use agentic_code_intelligenc.Orchestrator.Effects.Keeps.{Keeps, untouched, Keeps-order, keeps_rules}
use agentic_code_intelligenc.Orchestrator.Loop.{
  status_of, terminate, conflict_reason, commit_if_apply, after_commit, after_success,
  after_failure, decide,
}
use agentic_code_intelligenc.Orchestrator.Loop.Turns.{mode_cases}

pub Keeps-set_state :
    (t : Text) (s : TaskState) (r : Option Reason) → Moves Keeps (modify_db (set_state t s r))
unfolding modify_db set_state
Keeps-set_state t s r = record { at = λ w. untouched w _ refl refl refl }

pub Keeps-status_of :
    (worktree : FilePath) (found : Option Task) → Moves Keeps (status_of worktree found)
Keeps-status_of worktree none = search keeps_rules
Keeps-status_of worktree (some t) = search keeps_rules

pub Keeps-terminate :
    (ctx : Ctx) (state : TaskState) (reason : Option Reason)
    → Moves Keeps (terminate ctx state reason)
unfolding terminate
Keeps-terminate ctx state reason = search (keeps_rules, Keeps-set_state, Keeps-status_of) depth 12

module _ (env : Env) (wide : ℕ → Bool) (services : Services) (root : FilePath) where
  pub fast_forward-Keeps :
      (u w t base : Text) (v : World) → Keeps v (fast_forward env root u w t base v).1
  unfolding fast_forward set_head
  fast_forward-Keeps u w t base v = untouched v _ (ground arith) (ground arith) (ground arith)

  pub Keeps-get_workspace : (u w : Text) → Moves Keeps (get_workspace u w)
  unfolding get_workspace
  Keeps-get_workspace u w = record { at = λ v. untouched v _ refl refl refl }

  pub Keeps-take_lock : Moves Keeps (take_lock env root)
  unfolding take_lock
  Keeps-take_lock = record { at = λ v. untouched v _ refl refl refl }

  pub Keeps-fast_forward : (u w t base : Text) → Moves Keeps (fast_forward env root u w t base)
  Keeps-fast_forward u w t base = record { at = fast_forward-Keeps u w t base }

  pub Keeps-commit_worktree :
      (u w t base : Text) → Moves Keeps (commit_worktree env root u w t base)
  unfolding commit_worktree
  Keeps-commit_worktree u w t base =
      search (keeps_rules, Keeps-get_workspace, Keeps-take_lock, Keeps-fast_forward) depth 12

  pub conflict_reason_world :
      (x : Result Text × World) → (conflict_reason env wide services root x).1 ≡ x.1
  conflict_reason_world (ok head, w) = refl
  conflict_reason_world (err Error.conflict, w) = refl
  conflict_reason_world (err _, w) = refl

  pub Keeps-commit_if_apply : (ctx : Ctx) → Moves Keeps (commit_if_apply env wide services root ctx)
  unfolding commit_if_apply
  Keeps-commit_if_apply ctx = elim (mode_cases ctx.task.mode) [
    | inl e ↦ record {
      at = λ w. rw e (rw conflict_reason_world ((Keeps-commit_worktree _ _ _ _).at w));
    }
    | inr e ↦ record { at = λ w. rw e (Keeps-order.refl' w) }
  ]

  pub Keeps-after_commit :
      (ctx : Ctx) (conflict : Option Reason)
      → Moves Keeps (after_commit env wide services root ctx conflict)
  Keeps-after_commit ctx (some reason) = search (keeps_rules, Keeps-terminate)
  Keeps-after_commit ctx none = search (keeps_rules, Keeps-terminate)

  -- Behind the model call, a turn leaves the journal, the charges of the steps and the count of
  -- calls.
  pub Keeps-decide :
      (ctx : Ctx) (step attempts : ℕ) (action : AgentAction) (spans : List DataSpan)
      → Moves Keeps (decide env wide services root ctx step attempts action spans)
  unfolding decide after_success after_failure
  Keeps-decide ctx step attempts action spans = of_kind action.kind
    where
      of_kind :
          (k : ActionKind)
          → Moves Keeps
              (decide env wide services root ctx step attempts (record action { kind = k }) spans)
      of_kind ActionKind.give_up = search (keeps_rules, Keeps-terminate)
      of_kind ActionKind.verify =
          search (keeps_rules, Keeps-terminate, Keeps-commit_if_apply, Keeps-after_commit) depth 12
      of_kind _ = search keeps_rules
