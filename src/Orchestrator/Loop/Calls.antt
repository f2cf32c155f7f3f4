-- ===== src/Orchestrator/Loop/Calls.antt =====
-- How often a run of orchestrator/loop.py calls the model.
use agentic_code_intelligenc.Prelude.{
  ℕ, zero, suc, ◌+◌, ◌-◌, ◌≤◌, leb, Bool, true, Option, none, some, List, ◌≡◌, arith, Bool-cases,
  inl, inr,
}
use agentic_code_intelligenc.Common.{TaskState, Reason, Result, ok, err}
use agentic_code_intelligenc.Db.{Effect, JournalEntry, Database}
use agentic_code_intelligenc.Files.{FilePath}
use agentic_code_intelligenc.World.{Env, World, ModelResponse, Act, with_db, modify_db, ◌>>=◌}
use agentic_code_intelligenc.World.Moves.{Order, Moves, moves_rules, Moves-then, Moves-gets}
use agentic_code_intelligenc.World.Post.{Post}
use agentic_code_intelligenc.Prompt.{AgentAction, DataSpan}
use agentic_code_intelligenc.Orchestrator.Services.{Services}
use agentic_code_intelligenc.Orchestrator.Effects.{Ctx}
use agentic_code_intelligenc.Orchestrator.Effects.Keeps.{
  Keeps, untouched, Keeps-order, keeps_rules, Keeps-run_effect,
}
use agentic_code_intelligenc.Orchestrator.Loop.{
  TaskStatus, LoopState, Turn, budget_breach, call_model, journal_step, issue_model_call, end_with,
  step_with, unless_breach, replay_step, fresh_step, turn, after_turn, loop,
}
use agentic_code_intelligenc.Orchestrator.Loop.Turns.{Outcome, turn-Outcome}
use agentic_code_intelligenc.Orchestrator.Loop.Keeps.{Keeps-terminate, Keeps-decide}

-- at most `n` calls of the model
abbrev pub Calls : ℕ → World → World → Type 0
Calls n w w' = w'.model_calls ≤ w.model_calls + n

-- at most `n` calls in all
abbrev pub Total : ℕ → World → Option (Result TaskStatus × World) → Type 0
Total n w none = Unit
Total n w (some (r, w')) = Calls n w w'

Calls-order : Order (Calls 0)
Calls-order = record { refl' = λ w. omega arith; trans = λ u v w p q. omega arith }

Calls-Keeps : {A : Type 0} (m : Act A) → Moves Keeps m → Moves (Calls 0) m
Calls-Keeps m k = record { at = λ w. rw (k.at w).calls_same (omega arith) }

Calls-with_db : {A : Type 0} (f : Database → A × Database) → Moves (Calls 0) (with_db f)
unfolding with_db
Calls-with_db f = record { at = λ w. omega arith }

Calls-modify_db : (f : Database → Database) → Moves (Calls 0) (modify_db f)
unfolding modify_db
Calls-modify_db f = record { at = λ w. omega arith }

module _ {A B : Type 0} where
  one_more :
      (m : Act B) (f : B → Act A)
      → Moves (Calls 1) m
      → ((b : B) → Moves (Calls 0) (f b))
      → Moves (Calls 1) (m >>= f)
  one_more m f km kf =
      Moves-then (Calls 1) (Calls 0) (Calls 1) m f km kf (λ u v w p q. omega arith) (λ u v p. p)

  then_one :
      (m : Act B) (f : B → Act A)
      → Moves (Calls 0) m
      → ((b : B) → Moves (Calls 1) (f b))
      → Moves (Calls 1) (m >>= f)
  then_one m f km kf =
      Moves-then (Calls 0) (Calls 1) (Calls 1) m f km kf (λ u v w p q. omega arith)
        (λ u v p. omega arith)

module _ (env : Env) (wide : ℕ → Bool) (services : Services) (root : FilePath) where
  Calls-journal_step :
      (ctx : Ctx) (step : ℕ) (action : AgentAction) (response : ModelResponse) (effect : Effect)
      → Moves (Calls 0) (journal_step env wide services root ctx step action response effect)
  unfolding journal_step
  Calls-journal_step ctx step action response effect =
      search (Calls-order, moves_rules, Calls-with_db, Calls-modify_db) depth 12

  Calls-issue_model_call :
      (ctx : Ctx) (step : ℕ) (spans : List DataSpan)
      → Moves (Calls 1) (issue_model_call env wide services root ctx step spans)
  unfolding issue_model_call call_model
  Calls-issue_model_call ctx step spans =
      one_more _ _ (record { at = λ w. omega arith })
        λ response.
          search
            (
              Calls-order,
              moves_rules,
              Calls-Keeps,
              Keeps-run_effect env wide services ctx,
              Calls-journal_step ctx,
            )
            depth 12

  Calls-fresh_step :
      (ctx : Ctx) (st : LoopState) → Moves (Calls 1) (fresh_step env wide services root ctx st)
  unfolding fresh_step
  Calls-fresh_step ctx st = one_more _ _ (Calls-issue_model_call ctx st.step st.data_spans) λ r.
      Calls-Keeps _ (Keeps-decide env wide services root ctx st.step st.repair_attempts r.0 r.1)

  pub Keeps-end_with :
      (ctx : Ctx) (state : TaskState) (reason : Option Reason)
      → Moves Keeps (end_with env wide services root ctx state reason)
  Keeps-end_with ctx state reason = search (keeps_rules, Keeps-terminate)

  pub Keeps-replay_step :
      (ctx : Ctx) (st : LoopState) (entry : JournalEntry)
      → Moves Keeps (replay_step env wide services root ctx st entry)
  unfolding replay_step
  Keeps-replay_step ctx st entry =
      search (keeps_rules, Keeps-decide env wide services root ctx st.step) depth 12

  pub Keeps-budget_breach : (ctx : Ctx) (step : ℕ) → Moves Keeps (budget_breach env ctx step)
  unfolding budget_breach
  Keeps-budget_breach ctx step = record {
    at = λ w. untouched w _ (ground arith) (ground arith) (ground arith);
  }

  Calls-step_with :
      (ctx : Ctx) (st : LoopState) (cached : Option JournalEntry)
      → Moves (Calls 1) (step_with env wide services root ctx st cached)
  Calls-step_with ctx st (some entry) = record {
    at = λ w. let p = (Calls-Keeps _ (Keeps-replay_step ctx st entry)).at w in omega (arith, p);
  }
  Calls-step_with ctx st none = Calls-fresh_step ctx st

  Calls-unless_breach :
      (ctx : Ctx) (st : LoopState) (breach : Option Reason)
      → Moves (Calls 1) (unless_breach env wide services root ctx st breach)
  Calls-unless_breach ctx st (some reason) = record {
    at = λ w.
        let p =
          (Calls-Keeps _ (Keeps-end_with ctx TaskState.budget_exhausted (some reason))).at w in
        omega (arith, p);
  }
  Calls-unless_breach ctx st none =
      then_one _ _ (Calls-Keeps _ (Moves-gets Keeps-order _)) (Calls-step_with ctx st)

  Calls-turn : (ctx : Ctx) (st : LoopState) → Moves (Calls 1) (turn env wide services root ctx st)
  unfolding turn
  Calls-turn ctx st =
      then_one _ _ (Calls-Keeps _ (Keeps-budget_breach ctx st.step)) (Calls-unless_breach ctx st)

  -- no call where the step budget is used up
  Calls-turn_over :
      (ctx : Ctx) (st : LoopState) (w : World)
      → leb ctx.task.step_budget st.step ≡ true
      → Calls 0 w (turn env wide services root ctx st w).1
  unfolding turn ◌>>=◌ budget_breach
  Calls-turn_over ctx st w over = rw over ((Calls-Keeps _ (Keeps-end_with ctx _ _)).at w)

  pub Total-later :
      (a b n : ℕ) (w v : World) (x : Option (Result TaskStatus × World))
      → Calls a w v
      → a + b ≤ n
      → Total b v x
      → Total n w x
  Total-later a b n w v none c le t = tt
  Total-later a b n w v (some (r, w')) c le t = omega (arith, c, le, t)

  after_turn-Total :
      (ctx : Ctx) (st : LoopState) (next : LoopState → World → Option (Result TaskStatus × World))
      (w : World) (n : ℕ) (x : Result Turn × World)
      → Post (Outcome ctx st) x
      → Calls n w x.1
      → n ≤ ctx.task.step_budget - st.step
      → ((st' : LoopState) (v : World) → Total (ctx.task.step_budget - st'.step) v (next st' v))
      → n ≤ 1
      → Total (ctx.task.step_budget - st.step) w (after_turn env wide services root next x)
  after_turn-Total ctx st next w n (ok (Turn.finish s), v) p c le k one = omega (arith, c, le)
  after_turn-Total ctx st next w n (ok (Turn.again st'), v) p c le k one =
      Total-later n (ctx.task.step_budget - st'.step) _ w v _ c (ground (arith, p, one, le))
        (k st' v)
  after_turn-Total ctx st next w n (err e, v) p c le k one = omega (arith, c, le)

  pub loop-Total :
      (fuel : ℕ) (ctx : Ctx) (st : LoopState) (w : World)
      → Total (ctx.task.step_budget - st.step) w (loop env wide services root fuel ctx st w)
  unfolding loop
  loop-Total zero ctx st w = tt
  loop-Total (suc fuel) ctx st w = elim (Bool-cases (leb ctx.task.step_budget st.step)) [
    | inl over ↦
        after_turn-Total ctx st (loop env wide services root fuel ctx) w 0 _
          (turn-Outcome env wide services root ctx st w) (Calls-turn_over ctx st w over)
          (omega arith) (loop-Total fuel ctx) (omega arith)
    | inr room ↦
        after_turn-Total ctx st (loop env wide services root fuel ctx) w 1 _
          (turn-Outcome env wide services root ctx st w) ((Calls-turn ctx st).at w)
          (ground (arith, room)) (loop-Total fuel ctx) (omega arith)
  ]
