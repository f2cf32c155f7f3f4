-- ===== src/Orchestrator/Loop/Owners.antt =====
-- Whose a task is: no part of orchestrator/loop.py changes the user of a task's row.
use agentic_code_intelligenc.Prelude.{
  ℕ, Bool, Option, none, some, Text, text_eq, ◌≡◌, refl, ◌∙◌, ap, arith, inl, inr,
}
use agentic_code_intelligenc.Common.{TaskState, StepKind, Reason, Result, ok, err}
use agentic_code_intelligenc.Db.{Task, Payload, Database}
use agentic_code_intelligenc.Db.Accounts.{new_id, set_head}
use agentic_code_intelligenc.Db.Artifacts
use agentic_code_intelligenc.Db.Tasks.{
  get_for_resume, update, set_state, bump_tokens, bump_retrieval_bytes, bump_sandbox_seconds,
}
use agentic_code_intelligenc.Db.Tasks.Updates.{get_for_resume-update, updated}
use agentic_code_intelligenc.Db.Journal.{append}
use agentic_code_intelligenc.Db.Ledger
use agentic_code_intelligenc.Files.{FilePath, Fs}
use agentic_code_intelligenc.World.{
  with_files, Env, World, ModelRequest, with_db, with_db_or, modify_db, modify_files, set_files,
  emit, now,
}
use agentic_code_intelligenc.World.Moves.{Order, Moves, moves_rules}
use agentic_code_intelligenc.Workspace.{
  get_workspace, open_worktree, fast_forward, commit_worktree, take_lock,
}
use agentic_code_intelligenc.Orchestrator.Services.{Services}
use agentic_code_intelligenc.Orchestrator.Charges.{charge_from_journal, commit_step_charge}
use agentic_code_intelligenc.Orchestrator.Charges.Reconcile.{charge_from_journal_rest}
use agentic_code_intelligenc.Orchestrator.Effects.{Ctx, run_sandbox}
use agentic_code_intelligenc.Orchestrator.Effects.Parts.{Tools}
use agentic_code_intelligenc.Orchestrator.Loop.{
  TaskStatus, Start, budget_breach, call_model, commit_if_apply, set_up, begin_with, prepare,
  start_loop, run,
}
use agentic_code_intelligenc.Orchestrator.Loop.Parts.{Parts, Ended, ready-Ended}
use agentic_code_intelligenc.Orchestrator.Loop.Turns.{mode_cases}
use agentic_code_intelligenc.Orchestrator.Loop.Keeps.{conflict_reason_world}

abbrev user_of : Option Task → Option Text
user_of none = none
user_of (some task) = some task.user_id

-- the user of the row of a task
abbrev pub owner : Text → World → Option Text
owner t w = user_of (get_for_resume t w.db)

pub record SameOwners (w w' : World) : Type 0 where
  pub same : (t : Text) → owner t w' ≡ owner t w

owners_order : Order SameOwners
owners_order = record {
  refl' = λ w. record { same = λ t. refl };
  trans = λ u v w p q. record { same = λ t. q.same t ∙ p.same t };
}

-- an action that leaves the table alone
same_tasks : (w w' : World) → w'.db.tasks ≡ w.db.tasks → SameOwners w w'
unfolding get_for_resume
same_tasks w w' e = record { same = λ t. rw e refl }

user_of-updated :
    (here : Bool) (f : Task → Task) (found : Option Task)
    → ((x : Task) → (f x).user_id ≡ x.user_id)
    → user_of (updated here f found) ≡ user_of found
user_of-updated here f none keeps = refl
user_of-updated here f (some task) keeps = ground (arith, keeps task)

Owners-update :
    (t : Text) (f : Task → Task)
    → ((x : Task) → (f x).id ≡ x.id)
    → ((x : Task) → (f x).user_id ≡ x.user_id)
    → Moves SameOwners (modify_db (update t f))
unfolding modify_db
Owners-update t f keeps_id keeps_user = record {
  at = λ w. record {
    same = λ t'.
        ap user_of (get_for_resume-update t t' f w.db keeps_id)
        ∙ user_of-updated (text_eq t' t) f (get_for_resume t' w.db) keeps_user;
  };
}

Owners-db :
    (f : Database → Database)
    → ((db : Database) → (f db).tasks ≡ db.tasks)
    → Moves SameOwners (modify_db f)
unfolding modify_db
Owners-db f keeps = record { at = λ w. same_tasks w _ (keeps w.db) }

Owners-set_state :
    (t : Text) (s : TaskState) (r : Option Reason) → Moves SameOwners (modify_db (set_state t s r))
unfolding set_state
Owners-set_state t s r = Owners-update t _ (λ x. refl) (λ x. refl)

Owners-emit : (t : Text) (k : ℕ) (kind : StepKind) → Moves SameOwners (emit t k kind)
unfolding emit
Owners-emit t k kind = record { at = λ w. same_tasks w _ refl }

Owners-now : (env : Env) → Moves SameOwners (now env)
unfolding now
Owners-now env = record { at = λ w. same_tasks w _ refl }

Owners-files : (f : Fs → Result Fs) → Moves SameOwners (modify_files f)
unfolding modify_files
Owners-files f = record { at = λ w. of_result w (f w.fs) }
  where
    of_result : (w : World) (r : Result Fs) → SameOwners w (set_files w r).1
    of_result w (ok fs) = same_tasks w _ refl
    of_result w (err e) = same_tasks w w refl

owners_tools : (env : Env) (ctx : Ctx) (index_file : FilePath) → Tools env ctx index_file SameOwners
unfolding bump_retrieval_bytes bump_sandbox_seconds with_db_or Artifacts.create new_id run_sandbox
owners_tools env ctx index_file = record {
  order = owners_order;
  emits = Owners-emit;
  reads_clock = Owners-now env;
  applies = λ op p content. Owners-files _;
  bytes = λ n. Owners-update ctx.task.id _ (λ x. refl) (λ x. refl);
  seconds = λ n. Owners-update ctx.task.id _ (λ x. refl) (λ x. refl);
  creates = λ kind hash p. record { at = λ w. same_tasks w _ (ground arith) };
  runs = record { at = λ w. same_tasks w _ refl };
  serves = λ w w' c. same_tasks w w' (rw c.db_same refl);
}

Owners-with_files : (f : Fs → Result (Unit {0}) × Fs) → Moves SameOwners (with_files f)
unfolding with_files
Owners-with_files f = record { at = λ w. same_tasks w _ refl }

Owners-append :
    (t : Text) (k : ℕ) (kind : StepKind) (key : Text) (payload : Payload)
    → Moves SameOwners (with_db (append t k kind key payload))
unfolding with_db append
Owners-append t k kind key payload = record { at = λ w. same_tasks w _ (ground arith) }

Owners-charge :
    (scope t : Text) (k n : ℕ) (memo : Text)
    → Moves SameOwners (modify_db (commit_step_charge scope t k n memo))
unfolding commit_step_charge Ledger.append
Owners-charge scope t k n memo = Owners-db _ (λ db. ground arith)

Owners-reconcile : (scope t : Text) → Moves SameOwners (modify_db (charge_from_journal scope t))
Owners-reconcile scope t =
    Owners-db _ (λ db. ap {A = Database} (λ d. d.tasks) (charge_from_journal_rest scope t db))

Owners-bump : (t : Text) (tin tout : ℕ) → Moves SameOwners (modify_db (bump_tokens t tin tout))
unfolding bump_tokens
Owners-bump t tin tout = Owners-update t _ (λ x. refl) (λ x. refl)

Owners-get_workspace : (u w : Text) → Moves SameOwners (get_workspace u w)
unfolding get_workspace
Owners-get_workspace u w = record { at = λ v. same_tasks v _ refl }

ruleset owners_rules = (
  owners_order, moves_rules, Owners-emit, Owners-now, Owners-files, Owners-with_files,
  Owners-set_state, Owners-get_workspace,
)

module _ (env : Env) (wide : ℕ → Bool) (services : Services) (root : FilePath) where
  Owners-fast_forward : (u w t base : Text) → Moves SameOwners (fast_forward env root u w t base)
  unfolding fast_forward set_head
  Owners-fast_forward u w t base = record { at = λ v. same_tasks v _ (ground arith) }

  Owners-take_lock : Moves SameOwners (take_lock env root)
  unfolding take_lock
  Owners-take_lock = record { at = λ v. same_tasks v _ refl }

  Owners-commit_worktree :
      (u w t base : Text) → Moves SameOwners (commit_worktree env root u w t base)
  unfolding commit_worktree
  Owners-commit_worktree u w t base =
      search (owners_rules, Owners-take_lock, Owners-fast_forward) depth 12

  Owners-commit_if_apply :
      (ctx : Ctx) → Moves SameOwners (commit_if_apply env wide services root ctx)
  unfolding commit_if_apply
  Owners-commit_if_apply ctx = elim (mode_cases ctx.task.mode) [
    | inl e ↦ record {
      at = λ w. rw e (
          rw (conflict_reason_world env wide services root)
            ((Owners-commit_worktree _ _ _ _).at w));
    }
    | inr e ↦ record { at = λ w. rw e (owners_order.refl' w) }
  ]

  Owners-call_model : (request : ModelRequest) → Moves SameOwners (call_model env request)
  unfolding call_model
  Owners-call_model request = record { at = λ w. same_tasks w _ refl }

  Owners-budget_breach : (ctx : Ctx) (step : ℕ) → Moves SameOwners (budget_breach env ctx step)
  unfolding budget_breach
  Owners-budget_breach ctx step = record { at = λ w. same_tasks w _ (ground arith) }

  owners_parts : (ctx : Ctx) → Parts env wide services root ctx SameOwners
  owners_parts ctx = record {
    tools = owners_tools env ctx services.index_file;
    appends = Owners-append ctx.task.id;
    charges = Owners-charge ctx.scope ctx.task.id;
    bumps = Owners-bump ctx.task.id;
    ends = Owners-set_state ctx.task.id;
    calls = Owners-call_model;
    reads_budget = Owners-budget_breach ctx;
    commits = Owners-commit_if_apply ctx;
  }

  Owners-open_worktree : (u w t : Text) → Moves SameOwners (open_worktree env root u w t)
  unfolding open_worktree
  Owners-open_worktree u w t = search owners_rules depth 14

  Owners-set_up : (task : Task) → Moves SameOwners (set_up env wide services root task)
  unfolding set_up
  Owners-set_up task = search (owners_rules, Owners-reconcile, Owners-open_worktree) depth 20

  Owners-begin_with :
      (found : Option Task) → Moves SameOwners (begin_with env wide services root found)
  Owners-begin_with none = search owners_rules
  Owners-begin_with (some task) = search (owners_rules, Owners-set_up)

  Owners-prepare : (t : Text) → Moves SameOwners (prepare env wide services root t)
  unfolding prepare
  Owners-prepare t = search (owners_rules, Owners-begin_with)

  start_loop-Ended :
      (w : World) (x : Result Start × World)
      → SameOwners w x.1
      → Ended SameOwners w (start_loop env wide services root x)
  start_loop-Ended w (err e, v) p = p
  start_loop-Ended w (ok (Start.already s), v) p = p
  start_loop-Ended w (ok (Start.ready ctx st), v) p =
      ready-Ended env wide services root ctx SameOwners (owners_parts ctx) st w v p

  -- A run, whether it returns or raises, leaves the user of every task as it was.
  pub run-SameOwners :
      (t : Text) (w w' : World) (r : Result TaskStatus)
      → run env wide services root t w ≡ some (r, w')
      → SameOwners w w'
  unfolding run
  run-SameOwners t w w' r h =
      let p = start_loop-Ended w (prepare env wide services root t w) ((Owners-prepare t).at w) in
      rw h at p
