-- ===== src/Orchestrator/Loop/Unique.antt =====
-- A run of orchestrator/loop.py keeps the journal in order: one row for each step of a task.
use agentic_code_intelligenc.Prelude.{ℕ, zero, suc, Bool, Option, none, some, List, Text, ◌≡◌, refl}
use agentic_code_intelligenc.Common.{StepKind, Reason, Result, ok, err}
use agentic_code_intelligenc.Db.{Effect, Payload, JournalEntry}
use agentic_code_intelligenc.Db.Tasks.{bump_tokens}
use agentic_code_intelligenc.Db.Journal.{append}
use agentic_code_intelligenc.Db.Journal.Append.{IsUnique, append-IsUnique}
use agentic_code_intelligenc.Files.{FilePath}
use agentic_code_intelligenc.World.{
  Env, World, ModelRequest, ModelResponse, Act, with_db, modify_db,
}
use agentic_code_intelligenc.World.Moves.{Order, Moves, moves_rules}
use agentic_code_intelligenc.Prompt.{AgentAction, DataSpan}
use agentic_code_intelligenc.Orchestrator.Services.{Services}
use agentic_code_intelligenc.Orchestrator.Charges.{commit_step_charge}
use agentic_code_intelligenc.Orchestrator.Effects.{Ctx, run_effect}
use agentic_code_intelligenc.Orchestrator.Effects.Keeps.{Keeps, Keeps-run_effect}
use agentic_code_intelligenc.Orchestrator.Loop.{
  TaskStatus, LoopState, Turn, Start, call_model, journal_step, issue_model_call, step_with,
  unless_breach, budget_breach, decide, fresh_step, turn, after_turn, loop, prepare, start_loop,
  run,
}
use agentic_code_intelligenc.Orchestrator.Loop.Keeps.{Keeps-decide}
use agentic_code_intelligenc.Orchestrator.Loop.Calls.{
  Keeps-end_with, Keeps-replay_step, Keeps-budget_breach,
}
use agentic_code_intelligenc.Orchestrator.Loop.Paid.{commit_journal}
use agentic_code_intelligenc.Orchestrator.Loop.Resume.{Quiet-prepare}

record StaysUnique (w w' : World) : Type 0 where
  pub still : IsUnique w.db.journal → IsUnique w'.db.journal

unique_order : Order StaysUnique
unique_order = record {
  refl' = λ w. record { still = λ u. u };
  trans = λ u v w p q. record { still = λ x. q.still (p.still x) };
}

Unique-same : (w w' : World) → w'.db.journal ≡ w.db.journal → StaysUnique w w'
Unique-same w w' e = record { still = λ u. rw e u }

Unique-Keeps : {A : Type 0} (m : Act A) → Moves Keeps m → Moves StaysUnique m
Unique-Keeps m k = record { at = λ w. Unique-same w _ (k.at w).journal_same }

Unique-append :
    (t : Text) (k : ℕ) (kind : StepKind) (key : Text) (payload : Payload)
    → Moves StaysUnique (with_db (append t k kind key payload))
unfolding with_db
Unique-append t k kind key payload = record {
  at = λ w. record { still = append-IsUnique t k kind key payload w.db };
}

Unique-bump : (t : Text) (tin tout : ℕ) → Moves StaysUnique (modify_db (bump_tokens t tin tout))
unfolding modify_db bump_tokens
Unique-bump t tin tout = record { at = λ w. Unique-same w _ refl }

module _ (env : Env) (wide : ℕ → Bool) (services : Services) (root : FilePath) where
  Unique-commit :
      (scope t : Text) (k n : ℕ) (memo : Text)
      → Moves StaysUnique (modify_db (commit_step_charge scope t k n memo))
  unfolding modify_db
  Unique-commit scope t k n memo = record {
    at = λ w. Unique-same w _ (commit_journal env wide services root scope t k n memo w.db);
  }

  Unique-journal_step :
      (ctx : Ctx) (step : ℕ) (action : AgentAction) (response : ModelResponse) (effect : Effect)
      → Moves StaysUnique (journal_step env wide services root ctx step action response effect)
  unfolding journal_step
  Unique-journal_step ctx step action response effect =
      search (unique_order, moves_rules, Unique-append, Unique-commit, Unique-bump) depth 12

  Unique-call_model : (request : ModelRequest) → Moves StaysUnique (call_model env request)
  unfolding call_model
  Unique-call_model request = record { at = λ w. Unique-same w _ refl }

  Unique-run_effect :
      (ctx : Ctx) (step : ℕ) (action : AgentAction) (spans : List DataSpan)
      → Moves StaysUnique (run_effect env wide services ctx step action spans)
  Unique-run_effect ctx step action spans =
      Unique-Keeps _ (Keeps-run_effect env wide services ctx step action spans)

  Unique-decide :
      (ctx : Ctx) (step attempts : ℕ) (action : AgentAction) (spans : List DataSpan)
      → Moves StaysUnique (decide env wide services root ctx step attempts action spans)
  Unique-decide ctx step attempts action spans =
      Unique-Keeps _ (Keeps-decide env wide services root ctx step attempts action spans)

  Unique-issue_model_call :
      (ctx : Ctx) (step : ℕ) (spans : List DataSpan)
      → Moves StaysUnique (issue_model_call env wide services root ctx step spans)
  unfolding issue_model_call
  Unique-issue_model_call ctx step spans =
      search (unique_order, moves_rules, Unique-call_model, Unique-run_effect, Unique-journal_step)
        depth 16

  Unique-step_with :
      (ctx : Ctx) (st : LoopState) (cached : Option JournalEntry)
      → Moves StaysUnique (step_with env wide services root ctx st cached)
  unfolding fresh_step
  Unique-step_with ctx st (some entry) =
      Unique-Keeps _ (Keeps-replay_step env wide services root ctx st entry)
  Unique-step_with ctx st none =
      search (unique_order, moves_rules, Unique-issue_model_call, Unique-decide) depth 12

  Unique-unless_breach :
      (ctx : Ctx) (st : LoopState) (breach : Option Reason)
      → Moves StaysUnique (unless_breach env wide services root ctx st breach)
  Unique-unless_breach ctx st (some reason) =
      Unique-Keeps _ (Keeps-end_with env wide services root ctx _ _)
  Unique-unless_breach ctx st none = search (unique_order, moves_rules, Unique-step_with) depth 12

  Unique-budget_breach : (ctx : Ctx) (step : ℕ) → Moves StaysUnique (budget_breach env ctx step)
  Unique-budget_breach ctx step =
      Unique-Keeps _ (Keeps-budget_breach env wide services root ctx step)

  Unique-turn :
      (ctx : Ctx) (st : LoopState) → Moves StaysUnique (turn env wide services root ctx st)
  unfolding turn
  Unique-turn ctx st =
      search (unique_order, moves_rules, Unique-budget_breach, Unique-unless_breach) depth 12

  abbrev EndsUnique : Option (Result TaskStatus × World) → Type 0
  EndsUnique none = Unit
  EndsUnique (some (r, w)) = IsUnique w.db.journal

  after_turn-EndsUnique :
      (next : LoopState → World → Option (Result TaskStatus × World)) (x : Result Turn × World)
      → IsUnique x.1.db.journal
      → ((st : LoopState) (v : World) → IsUnique v.db.journal → EndsUnique (next st v))
      → EndsUnique (after_turn env wide services root next x)
  after_turn-EndsUnique next (ok (Turn.finish s), v) u k = u
  after_turn-EndsUnique next (ok (Turn.again st), v) u k = k st v u
  after_turn-EndsUnique next (err e, v) u k = u

  loop-EndsUnique :
      (fuel : ℕ) (ctx : Ctx) (st : LoopState) (w : World)
      → IsUnique w.db.journal
      → EndsUnique (loop env wide services root fuel ctx st w)
  unfolding loop
  loop-EndsUnique zero ctx st w u = tt
  loop-EndsUnique (suc fuel) ctx st w u =
      after_turn-EndsUnique (loop env wide services root fuel ctx)
        (turn env wide services root ctx st w) (((Unique-turn ctx st).at w).still u)
        (loop-EndsUnique fuel ctx)

  start_loop-EndsUnique :
      (x : Result Start × World)
      → IsUnique x.1.db.journal
      → EndsUnique (start_loop env wide services root x)
  start_loop-EndsUnique (err e, v) u = u
  start_loop-EndsUnique (ok (Start.already s), v) u = u
  start_loop-EndsUnique (ok (Start.ready ctx st), v) u =
      loop-EndsUnique (suc ctx.task.step_budget) ctx st v u

  -- A run, whether it returns or raises, leaves at most one journal row for each step of each task,
  -- given that it found the journal so.
  pub run-IsUnique :
      (t : Text) (w w' : World) (r : Result TaskStatus)
      → IsUnique w.db.journal
      → run env wide services root t w ≡ some (r, w')
      → IsUnique w'.db.journal
  unfolding run
  run-IsUnique t w w' r u h =
      let q = ((Quiet-prepare env wide services root t).at w).journal_same in
      let e = start_loop-EndsUnique (prepare env wide services root t w) (rw q u) in rw h at e
