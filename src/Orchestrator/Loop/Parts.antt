-- ===== src/Orchestrator/Loop/Parts.antt =====
-- Which worlds a run of orchestrator/loop.py leads to, given that for its parts: one proof for every
-- relation between the world before and the world after.
use agentic_code_intelligenc.Prelude.{ℕ, zero, suc, Bool, Option, none, some, List, Text}
use agentic_code_intelligenc.Common.{TaskState, StepKind, Reason, Result, ok, err}
use agentic_code_intelligenc.Db.{Task, Effect, Payload, JournalEntry}
use agentic_code_intelligenc.Db.Tasks.{set_state, bump_tokens}
use agentic_code_intelligenc.Db.Journal.{append}
use agentic_code_intelligenc.Files.{FilePath}
use agentic_code_intelligenc.World.{
  Env, World, ModelRequest, ModelResponse, with_db, modify_db, emit,
}
use agentic_code_intelligenc.World.Moves.{Order, Moves, moves_rules}
use agentic_code_intelligenc.Prompt.{AgentAction, ActionKind, DataSpan}
use agentic_code_intelligenc.Orchestrator.Services.{Services}
use agentic_code_intelligenc.Orchestrator.Charges.{commit_step_charge}
use agentic_code_intelligenc.Orchestrator.Effects.{Ctx, run_effect}
use agentic_code_intelligenc.Orchestrator.Effects.Parts.{Tools, Tools-run_effect}
use agentic_code_intelligenc.Orchestrator.Loop.{
  TaskStatus, LoopState, Turn, Start, status_of, terminate, budget_breach, call_model, journal_step,
  issue_model_call, commit_if_apply, after_commit, step_with, unless_breach, after_success,
  after_failure, decide, replay_step, fresh_step, turn, after_turn, loop, start_loop,
}

-- The parts of a turn that write something.
pub record Parts (env : Env) (wide : ℕ → Bool) (services : Services) (root : FilePath) (ctx : Ctx)
    (R : World → World → Type 0) : Type 0 where
  pub tools : Tools env ctx services.index_file R
  pub appends :
      (k : ℕ) (kind : StepKind) (key : Text) (payload : Payload)
      → Moves R (with_db (append ctx.task.id k kind key payload))
  pub charges :
      (k n : ℕ) (memo : Text)
      → Moves R (modify_db (commit_step_charge ctx.scope ctx.task.id k n memo))
  pub bumps : (tin tout : ℕ) → Moves R (modify_db (bump_tokens ctx.task.id tin tout))
  pub ends :
      (state : TaskState) (reason : Option Reason)
      → Moves R (modify_db (set_state ctx.task.id state reason))
  pub calls : (request : ModelRequest) → Moves R (call_model env request)
  pub reads_budget : (step : ℕ) → Moves R (budget_breach env ctx step)
  pub commits : Moves R (commit_if_apply env wide services root ctx)

-- The world that a run ends in.
abbrev pub Ended : (World → World → Type 0) → World → Option (Result TaskStatus × World) → Type 0
Ended R w none = Unit
Ended R w (some (r, w')) = R w w'

module _ (env : Env) (wide : ℕ → Bool) (services : Services) (root : FilePath) (ctx : Ctx)
    (R : World → World → Type 0) (parts : Parts env wide services root ctx R) where
  -- the fields, as lemmas that `search` takes
  Parts-order : Order R
  Parts-order = parts.tools.order

  Parts-emits : (t : Text) (k : ℕ) (kind : StepKind) → Moves R (emit t k kind)
  Parts-emits = parts.tools.emits

  Parts-appends :
      (k : ℕ) (kind : StepKind) (key : Text) (payload : Payload)
      → Moves R (with_db (append ctx.task.id k kind key payload))
  Parts-appends = parts.appends

  Parts-charges :
      (k n : ℕ) (memo : Text)
      → Moves R (modify_db (commit_step_charge ctx.scope ctx.task.id k n memo))
  Parts-charges = parts.charges

  Parts-bumps : (tin tout : ℕ) → Moves R (modify_db (bump_tokens ctx.task.id tin tout))
  Parts-bumps = parts.bumps

  Parts-ends :
      (state : TaskState) (reason : Option Reason)
      → Moves R (modify_db (set_state ctx.task.id state reason))
  Parts-ends = parts.ends

  Parts-calls : (request : ModelRequest) → Moves R (call_model env request)
  Parts-calls = parts.calls

  Parts-reads_budget : (step : ℕ) → Moves R (budget_breach env ctx step)
  Parts-reads_budget = parts.reads_budget

  Parts-commits : Moves R (commit_if_apply env wide services root ctx)
  Parts-commits = parts.commits

  Parts-run_effect :
      (step : ℕ) (action : AgentAction) (spans : List DataSpan)
      → Moves R (run_effect env wide services ctx step action spans)
  Parts-run_effect = Tools-run_effect env wide services ctx R parts.tools

  Parts-journal_step :
      (step : ℕ) (action : AgentAction) (response : ModelResponse) (effect : Effect)
      → Moves R (journal_step env wide services root ctx step action response effect)
  unfolding journal_step
  Parts-journal_step step action response effect =
      search (Parts-order, moves_rules, Parts-appends, Parts-charges, Parts-bumps) depth 12

  Parts-issue_model_call :
      (step : ℕ) (spans : List DataSpan)
      → Moves R (issue_model_call env wide services root ctx step spans)
  unfolding issue_model_call
  Parts-issue_model_call step spans =
      search (Parts-order, moves_rules, Parts-calls, Parts-run_effect, Parts-journal_step) depth 16

  Parts-status_of : (worktree : FilePath) (found : Option Task) → Moves R (status_of worktree found)
  Parts-status_of worktree none = search (Parts-order, moves_rules)
  Parts-status_of worktree (some t) = search (Parts-order, moves_rules)

  Parts-terminate :
      (state : TaskState) (reason : Option Reason) → Moves R (terminate ctx state reason)
  unfolding terminate
  Parts-terminate state reason =
      search (Parts-order, moves_rules, Parts-emits, Parts-ends, Parts-status_of) depth 12

  Parts-after_commit :
      (conflict : Option Reason) → Moves R (after_commit env wide services root ctx conflict)
  Parts-after_commit (some reason) = search (Parts-order, moves_rules, Parts-terminate)
  Parts-after_commit none = search (Parts-order, moves_rules, Parts-terminate)

  Parts-decide :
      (step attempts : ℕ) (action : AgentAction) (spans : List DataSpan)
      → Moves R (decide env wide services root ctx step attempts action spans)
  unfolding decide after_success after_failure
  Parts-decide step attempts action spans = of_kind action.kind
    where
      of_kind :
          (k : ActionKind)
          → Moves R
              (decide env wide services root ctx step attempts (record action { kind = k }) spans)
      of_kind ActionKind.give_up = search (Parts-order, moves_rules, Parts-terminate)
      of_kind ActionKind.verify =
          search
            (
              Parts-order, moves_rules, Parts-emits, Parts-terminate, Parts-commits,
              Parts-after_commit,
            )
            depth 12
      of_kind _ = search (Parts-order, moves_rules)

  Parts-step_with :
      (st : LoopState) (cached : Option JournalEntry)
      → Moves R (step_with env wide services root ctx st cached)
  unfolding replay_step fresh_step
  Parts-step_with st (some entry) =
      search (Parts-order, moves_rules, Parts-emits, Parts-decide) depth 14
  Parts-step_with st none =
      search (Parts-order, moves_rules, Parts-issue_model_call, Parts-decide) depth 14

  Parts-unless_breach :
      (st : LoopState) (breach : Option Reason)
      → Moves R (unless_breach env wide services root ctx st breach)
  Parts-unless_breach st (some reason) = search (Parts-order, moves_rules, Parts-terminate)
  Parts-unless_breach st none = search (Parts-order, moves_rules, Parts-step_with) depth 12

  pub Parts-turn : (st : LoopState) → Moves R (turn env wide services root ctx st)
  unfolding turn
  Parts-turn st =
      search (Parts-order, moves_rules, Parts-reads_budget, Parts-unless_breach) depth 12

  Ended-later :
      (w v : World) (x : Option (Result TaskStatus × World)) → R w v → Ended R v x → Ended R w x
  Ended-later w v none p e = tt
  Ended-later w v (some (r, v')) p e = Parts-order.trans w v v' p e

  after_turn-Ended :
      (next : LoopState → World → Option (Result TaskStatus × World)) (w : World)
      (x : Result Turn × World)
      → R w x.1
      → ((st : LoopState) (v : World) → Ended R v (next st v))
      → Ended R w (after_turn env wide services root next x)
  after_turn-Ended next w (ok (Turn.finish s), v) p k = p
  after_turn-Ended next w (ok (Turn.again st), v) p k = Ended-later w v (next st v) p (k st v)
  after_turn-Ended next w (err e, v) p k = p

  -- Whatever the fuel, the loop leads where its turns lead.
  pub loop-Ended :
      (fuel : ℕ) (st : LoopState) (w : World)
      → Ended R w (loop env wide services root fuel ctx st w)
  unfolding loop
  loop-Ended zero st w = tt
  loop-Ended (suc fuel) st w =
      after_turn-Ended (loop env wide services root fuel ctx) w
        (turn env wide services root ctx st w) ((Parts-turn st).at w) (loop-Ended fuel)

  -- A run that starts at `st` leads from the world before its preparation to where its loop ends.
  pub ready-Ended :
      (st : LoopState) (w v : World)
      → R w v
      → Ended R w (start_loop env wide services root (ok (Start.ready ctx st), v))
  ready-Ended st w v p =
      Ended-later w v (loop env wide services root (suc ctx.task.step_budget) ctx st v) p
        (loop-Ended (suc ctx.task.step_budget) st v)
