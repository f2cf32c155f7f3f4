-- ===== src/Orchestrator/Loop/Heads.antt =====
-- What the parts of orchestrator/loop.py do to the heads of the workspaces: nothing, but for a commit.
use agentic_code_intelligenc.Prelude.{ℕ, Option, none, some, Text, ◌≡◌, refl, ap, arith}
use agentic_code_intelligenc.Common.{TaskState, StepKind, Reason, Result, ok, err}
use agentic_code_intelligenc.Db.{Task, Payload, Database}
use agentic_code_intelligenc.Db.Accounts.{new_id}
use agentic_code_intelligenc.Db.Artifacts
use agentic_code_intelligenc.Db.Tasks.{
  set_state, bump_tokens, bump_retrieval_bytes, bump_sandbox_seconds,
}
use agentic_code_intelligenc.Db.Journal.{append}
use agentic_code_intelligenc.Db.Ledger
use agentic_code_intelligenc.Files.{FilePath, Fs}
use agentic_code_intelligenc.World.{
  with_files, Env, World, with_db, with_db_or, modify_db, modify_files, set_files, emit, now,
}
use agentic_code_intelligenc.World.Moves.{Order, Moves, moves_rules, Moves-gets}
use agentic_code_intelligenc.Workspace.{get_workspace}
use agentic_code_intelligenc.Orchestrator.Charges.{charge_from_journal, commit_step_charge}
use agentic_code_intelligenc.Orchestrator.Charges.Reconcile.{charge_from_journal_rest}
use agentic_code_intelligenc.Orchestrator.Effects.{Ctx, run_sandbox}
use agentic_code_intelligenc.Orchestrator.Effects.Parts.{Tools}
use agentic_code_intelligenc.Orchestrator.Loop.{status_of, terminate}

pub record SameHeads (w w' : World) : Type 0 where
  pub same : w'.db.workspaces ≡ w.db.workspaces

pub heads_order : Order SameHeads
heads_order = record {
  refl' = λ w. record { same = refl };
  trans = λ u v w p q. record { same = rw q.same p.same };
}

pub Heads-emit : (t : Text) (k : ℕ) (kind : StepKind) → Moves SameHeads (emit t k kind)
unfolding emit
Heads-emit t k kind = record { at = λ w. record { same = refl } }

pub Heads-now : (env : Env) → Moves SameHeads (now env)
unfolding now
Heads-now env = record { at = λ w. record { same = refl } }

pub Heads-files : (f : Fs → Result Fs) → Moves SameHeads (modify_files f)
unfolding modify_files
Heads-files f = record { at = λ w. of_result w (f w.fs) }
  where
    of_result : (w : World) (r : Result Fs) → SameHeads w (set_files w r).1
    of_result w (ok fs) = record { same = refl }
    of_result w (err e) = record { same = refl }

pub Heads-db :
    (f : Database → Database)
    → ((db : Database) → (f db).workspaces ≡ db.workspaces)
    → Moves SameHeads (modify_db f)
unfolding modify_db
Heads-db f keeps = record { at = λ w. record { same = keeps w.db } }

pub Heads-with_files : (f : Fs → Result (Unit {0}) × Fs) → Moves SameHeads (with_files f)
unfolding with_files
Heads-with_files f = record { at = λ w. record { same = refl } }

pub heads_tools :
    (env : Env) (ctx : Ctx) (index_file : FilePath) → Tools env ctx index_file SameHeads
unfolding bump_retrieval_bytes bump_sandbox_seconds with_db_or Artifacts.create new_id run_sandbox
heads_tools env ctx index_file = record {
  order = heads_order;
  emits = Heads-emit;
  reads_clock = Heads-now env;
  applies = λ op p content. Heads-files _;
  bytes = λ n. Heads-db _ (λ db. refl);
  seconds = λ n. Heads-db _ (λ db. refl);
  creates = λ kind hash p. record { at = λ w. record { same = ground arith } };
  runs = record { at = λ w. record { same = refl } };
  serves = λ w w' c. record { same = rw c.db_same refl };
}

pub Heads-set_state :
    (t : Text) (s : TaskState) (r : Option Reason) → Moves SameHeads (modify_db (set_state t s r))
unfolding set_state
Heads-set_state t s r = Heads-db _ (λ db. refl)

pub Heads-status_of :
    (worktree : FilePath) (found : Option Task) → Moves SameHeads (status_of worktree found)
Heads-status_of worktree none = search (heads_order, moves_rules)
Heads-status_of worktree (some t) = search (heads_order, moves_rules)

pub Heads-terminate :
    (ctx : Ctx) (state : TaskState) (reason : Option Reason)
    → Moves SameHeads (terminate ctx state reason)
unfolding terminate
Heads-terminate ctx state reason =
    search (heads_order, moves_rules, Heads-emit, Heads-set_state, Heads-status_of) depth 12

pub Heads-get_workspace : (u w : Text) → Moves SameHeads (get_workspace u w)
unfolding get_workspace
Heads-get_workspace u w = record { at = λ v. record { same = refl } }

pub ruleset heads_rules = (
  heads_order, moves_rules, Heads-emit, Heads-now, Heads-files, Heads-with_files, Heads-set_state,
  Heads-terminate, Heads-get_workspace,
)

pub Heads-append :
    (t : Text) (k : ℕ) (kind : StepKind) (key : Text) (payload : Payload)
    → Moves SameHeads (with_db (append t k kind key payload))
unfolding with_db append
Heads-append t k kind key payload = record { at = λ w. record { same = ground arith } }

pub Heads-commit :
    (scope t : Text) (k n : ℕ) (memo : Text)
    → Moves SameHeads (modify_db (commit_step_charge scope t k n memo))
unfolding commit_step_charge Ledger.append
Heads-commit scope t k n memo = Heads-db _ (λ db. ground arith)

pub Heads-bump : (t : Text) (tin tout : ℕ) → Moves SameHeads (modify_db (bump_tokens t tin tout))
unfolding bump_tokens
Heads-bump t tin tout = Heads-db _ (λ db. refl)

pub Heads-reconcile : (scope t : Text) → Moves SameHeads (modify_db (charge_from_journal scope t))
Heads-reconcile scope t =
    Heads-db _ (λ db. ap {A = Database} (λ d. d.workspaces) (charge_from_journal_rest scope t db))
