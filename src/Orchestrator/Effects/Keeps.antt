-- ===== src/Orchestrator/Effects/Keeps.antt =====
-- What a tool step of orchestrator/loop.py leaves alone: the journal, the count of model calls, and
-- the ledger rows that belong to a step.
use agentic_code_intelligenc.Prelude.{
  ℕ, Bool, Option, List, [], ◌++◌, All, All-append, append-nil, append_assoc, Text, ◌≡◌, refl,
  arith,
}
use agentic_code_intelligenc.Common.{StepKind, Result, ok, err}
use agentic_code_intelligenc.Db.{LedgerEntry}
use agentic_code_intelligenc.Db.Accounts.{new_id}
use agentic_code_intelligenc.Db.Artifacts
use agentic_code_intelligenc.Db.Tasks.{bump_retrieval_bytes, bump_sandbox_seconds}
use agentic_code_intelligenc.Files.{FilePath, Fs}
use agentic_code_intelligenc.World.{
  with_files, Env, World, with_db_or, modify_db, modify_files, set_files, emit, now,
}
use agentic_code_intelligenc.World.Moves.{
  Order, Moves, moves_rules, Moves-bind, Moves-pure, Moves-gets, Moves-if, Moves-raise,
}
use agentic_code_intelligenc.Prompt.{AgentAction, DataSpan}
use agentic_code_intelligenc.Orchestrator.Services.{Services, IsStepless, ChargesOnly}
use agentic_code_intelligenc.Orchestrator.Effects.Parts.{Tools, Tools-run_effect}
use agentic_code_intelligenc.Orchestrator.Effects.{Ctx, run_sandbox, run_effect}

pub record Keeps (w w' : World) : Type 0 where
  pub rows : List LedgerEntry
  pub stepless : All IsStepless rows
  pub ledger_same : w'.db.budget_ledger ≡ w.db.budget_ledger ++ rows
  pub journal_same : w'.db.journal ≡ w.db.journal
  pub calls_same : w'.model_calls ≡ w.model_calls

-- an action that leaves the ledger, the journal and the calls
pub untouched :
    (w w' : World)
    → w'.db.budget_ledger ≡ w.db.budget_ledger
    → w'.db.journal ≡ w.db.journal
    → w'.model_calls ≡ w.model_calls
    → Keeps w w'
untouched w w' l j c = record {
  rows = [];
  stepless = tt;
  ledger_same = rw (append-nil w.db.budget_ledger) l;
  journal_same = j;
  calls_same = c;
}

pub Keeps-order : Order Keeps
Keeps-order = record {
  refl' = λ w. untouched w w refl refl refl;
  trans = λ u v w p q. record {
    rows = p.rows ++ q.rows;
    stepless = All-append IsStepless p.rows q.rows p.stepless q.stepless;
    ledger_same =
        rw q.ledger_same (rw p.ledger_same (append_assoc u.db.budget_ledger p.rows q.rows));
    journal_same = rw q.journal_same p.journal_same;
    calls_same = rw q.calls_same p.calls_same;
  };
}

pub Keeps-emit : (t : Text) (k : ℕ) (kind : StepKind) → Moves Keeps (emit t k kind)
unfolding emit
Keeps-emit t k kind = record { at = λ w. untouched w _ refl refl refl }

pub Keeps-now : (env : Env) → Moves Keeps (now env)
unfolding now
Keeps-now env = record { at = λ w. untouched w _ refl refl refl }

pub Keeps-modify_files : (f : Fs → Result Fs) → Moves Keeps (modify_files f)
unfolding modify_files
Keeps-modify_files f = record { at = λ w. of_result w (f w.fs) }
  where
    of_result : (w : World) (r : Result Fs) → Keeps w (set_files w r).1
    of_result w (ok fs) = untouched w _ refl refl refl
    of_result w (err e) = untouched w w refl refl refl

pub Keeps-bump_retrieval_bytes :
    (t : Text) (n : ℕ) → Moves Keeps (modify_db (bump_retrieval_bytes t n))
unfolding modify_db bump_retrieval_bytes
Keeps-bump_retrieval_bytes t n = record { at = λ w. untouched w _ refl refl refl }

pub Keeps-bump_sandbox_seconds :
    (t : Text) (n : ℕ) → Moves Keeps (modify_db (bump_sandbox_seconds t n))
unfolding modify_db bump_sandbox_seconds
Keeps-bump_sandbox_seconds t n = record { at = λ w. untouched w _ refl refl refl }

pub Keeps-create :
    (uuid4 : ℕ → Text) (t kind hash : Text) (p : Option Text)
    → Moves Keeps (with_db_or (Artifacts.create uuid4 t kind hash p))
unfolding with_db_or Artifacts.create new_id
Keeps-create uuid4 t kind hash p = record {
  at = λ w. untouched w _ (ground arith) (ground arith) refl;
}

Keeps-services : (index_file : FilePath) (w w' : World) → ChargesOnly index_file w w' → Keeps w w'
Keeps-services index_file w w' c = record {
  rows = c.rows;
  stepless = c.stepless;
  ledger_same = rw c.db_same refl;
  journal_same = rw c.db_same refl;
  calls_same = c.calls_same;
}

pub Keeps-with_files : (f : Fs → Result (Unit {0}) × Fs) → Moves Keeps (with_files f)
unfolding with_files
Keeps-with_files f = record { at = λ w. untouched w _ refl refl refl }

pub ruleset keeps_rules = (
  Keeps-order, moves_rules, Keeps-emit, Keeps-now, Keeps-modify_files, Keeps-with_files,
  Keeps-bump_retrieval_bytes, Keeps-bump_sandbox_seconds, Keeps-create,
)

Keeps-run_sandbox : (env : Env) (ctx : Ctx) → Moves Keeps (run_sandbox env ctx)
unfolding run_sandbox
Keeps-run_sandbox env ctx = record { at = λ w. untouched w _ refl refl refl }

Keeps-tools : (env : Env) (ctx : Ctx) (index_file : FilePath) → Tools env ctx index_file Keeps
Keeps-tools env ctx index_file = record {
  order = Keeps-order;
  emits = Keeps-emit;
  reads_clock = Keeps-now env;
  applies = λ op p content. Keeps-modify_files _;
  bytes = Keeps-bump_retrieval_bytes ctx.task.id;
  seconds = Keeps-bump_sandbox_seconds ctx.task.id;
  creates = Keeps-create env.uuid4 ctx.task.id;
  runs = Keeps-run_sandbox env ctx;
  serves = Keeps-services index_file;
}

module _ (env : Env) (wide : ℕ → Bool) (services : Services) where
  -- A tool step journals nothing, calls no model, and charges no step.
  pub Keeps-run_effect :
      (ctx : Ctx) (step : ℕ) (action : AgentAction) (spans : List DataSpan)
      → Moves Keeps (run_effect env wide services ctx step action spans)
  Keeps-run_effect ctx =
      Tools-run_effect env wide services ctx Keeps (Keeps-tools env ctx services.index_file)
