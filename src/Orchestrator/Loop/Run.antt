-- ===== src/Orchestrator/Loop/Run.antt =====
-- `AgentLoop.run` of orchestrator/loop.py as a whole: it returns or raises whatever the model
-- answers, and the status that it returns.
use agentic_code_intelligenc.Prelude.{
  ℕ, zero, suc, ◌+◌, ◌<◌, Bool, true, Option, none, some, is_some, Text, ◌≡◌, refl, arith,
  Bool-cases, inl, inr, ◌⊎◌,
}
use agentic_code_intelligenc.Common.{TaskState, is_terminal, Result, ok, err}
use agentic_code_intelligenc.Db.{Task}
use agentic_code_intelligenc.Db.Tasks.{get_for_resume}
use agentic_code_intelligenc.Db.Tasks.Updates.{get_for_resume_id}
use agentic_code_intelligenc.Files.{FilePath}
use agentic_code_intelligenc.World.{Env, World, pure, raise, gets, ◌>>=◌}
use agentic_code_intelligenc.World.Post.{Post, Post-bind, Post-gets-bind}
use agentic_code_intelligenc.Orchestrator.Services.{Services}
use agentic_code_intelligenc.Orchestrator.Effects.{Ctx}
use agentic_code_intelligenc.Orchestrator.Loop.{
  TaskStatus, LoopState, Turn, Start, status, turn, after_turn, loop, set_up, begin_with, prepare,
  start_loop, run,
}
use agentic_code_intelligenc.Orchestrator.Loop.Turns.{HasVerdict, IsEnding, Outcome, turn-Outcome}

-- the run is over, with an exception or with a status that it may end in
abbrev Finished : Text → Option (Result TaskStatus × World) → Type 0
Finished task_id none = ⊥
Finished task_id (some (err e, w)) = Unit
Finished task_id (some (ok s, w)) = IsEnding task_id s w

module _ (env : Env) (wide : ℕ → Bool) (services : Services) (root : FilePath) where
  after_turn-Finished :
      (ctx : Ctx) (st : LoopState) (next : LoopState → World → Option (Result TaskStatus × World))
      (x : Result Turn × World)
      → Post (Outcome ctx st) x
      → ((st' : LoopState) (w : World)
          → Outcome ctx st (Turn.again st') w
          → Finished ctx.task.id (next st' w))
      → Finished ctx.task.id (after_turn env wide services root next x)
  after_turn-Finished ctx st next (ok (Turn.finish s), w) p k = p
  after_turn-Finished ctx st next (ok (Turn.again st'), w) p k = k st' w p
  after_turn-Finished ctx st next (err e, w) p k = tt

  -- Fuel for the steps that the budget leaves, and one turn more, is enough.
  loop-Finished :
      (fuel : ℕ) (ctx : Ctx) (st : LoopState) (w : World)
      → 0 < fuel
      → ctx.task.step_budget < fuel + st.step
      → Finished ctx.task.id (loop env wide services root fuel ctx st w)
  unfolding loop
  loop-Finished zero ctx st w some_fuel enough = absurd (omega arith)
  loop-Finished (suc fuel) ctx st w some_fuel enough =
      after_turn-Finished ctx st (loop env wide services root fuel ctx)
        (turn env wide services root ctx st w) (turn-Outcome env wide services root ctx st w)
        λ st' w' o.
          loop-Finished fuel ctx st' w' (ground (arith, o, enough)) (ground (arith, o, enough))

  -- the task had ended before the run
  abbrev pub WasTerminal : Text → World → Type 0
  WasTerminal task_id w =
      (task : Task) × (get_for_resume task_id w.db ≡ some task) × (is_terminal task.state ≡ true)

  abbrev RunOutcome : Text → World → Option (Result TaskStatus × World) → Type 0
  RunOutcome task_id w none = ⊥
  RunOutcome task_id w (some (err e, w')) = Unit
  RunOutcome task_id w (some (ok s, w')) =
      (is_terminal s.state ≡ true)
      × (s.state ≡ TaskState.verified_success → WasTerminal task_id w ⊎ HasVerdict task_id w')

  abbrev Started : Text → World → Start → World → Type 0
  Started task_id w (Start.already s) w' = (is_terminal s.state ≡ true) × WasTerminal task_id w
  Started task_id w (Start.ready ctx st) w' = ctx.task.id ≡ task_id

  set_up-Started :
      (task : Task) (t : Text) (w0 w : World)
      → task.id ≡ t
      → Post (Started t w0) (set_up env wide services root task w)
  unfolding set_up pure
  set_up-Started task t w0 w e = Post-bind (Started t w0) _ _ w λ _ w1 _.
      Post-bind (Started t w0) _ _ w1 λ _ w2 _. Post-bind (Started t w0) _ _ w2 λ _ w3 _.
        Post-bind (Started t w0) _ _ w3 λ _ w4 _. Post-bind (Started t w0) _ _ w4 λ _ w5 _.
          Post-bind (Started t w0) _ _ w5 λ _ w6 _.
            Post-bind (Started t w0) _ _ w6 λ _ w7 _. Post-bind (Started t w0) _ _ w7 λ _ w8 _. e

  prepare-Started : (t : Text) (w : World) → Post (Started t w) (prepare env wide services root t w)
  unfolding prepare status raise pure gets ◌>>=◌
  prepare-Started t w =
      Post-gets-bind (Started t w) (λ w. get_for_resume t w.db) (begin_with env wide services root)
        w (of_found (get_for_resume t w.db) refl)
    where
      of_found :
          (found : Option Task)
          → get_for_resume t w.db ≡ found
          → Post (Started t w) (begin_with env wide services root found w)
      of_found none e = tt
      of_found (some task) e = elim (Bool-cases (is_terminal task.state)) [
        | inl over ↦ rw over (over, (task, e, over))
        | inr live ↦ rw live (set_up-Started task t w w (get_for_resume_id t w.db task e))
      ]

  start_loop-Finished :
      (t : Text) (w : World) (x : Result Start × World)
      → Post (Started t w) x
      → RunOutcome t w (start_loop env wide services root x)
  unfolding is_terminal
  start_loop-Finished t w (err e, w') p = tt
  start_loop-Finished t w (ok (Start.already s), w') p = (p.0, λ _. inl p.1)
  start_loop-Finished t w (ok (Start.ready ctx st), w') p =
      weaken (loop env wide services root (suc ctx.task.step_budget) ctx st w')
        (loop-Finished (suc ctx.task.step_budget) ctx st w' (omega arith) (omega arith))
    where
      weaken : (x : Option (Result TaskStatus × World)) → Finished ctx.task.id x → RunOutcome t w x
      weaken none f = f
      weaken (some (err e, v)) f = tt
      weaken (some (ok s, v)) f = (f.0, λ good. inr (let (k, h) = f.1 good in (k, cc)))

  run-RunOutcome : (t : Text) (w : World) → RunOutcome t w (run env wide services root t w)
  unfolding run
  run-RunOutcome t w =
      start_loop-Finished t w (prepare env wide services root t w) (prepare-Started t w)

  -- A run ends: with whatever answers of the model, the sandbox and the clock, the loop stops by
  -- itself within its fuel of `step_budget + 1` turns, with a status or with an exception.
  pub run_returns : (t : Text) (w : World) → is_some (run env wide services root t w) ≡ true
  run_returns t w = of_run (run env wide services root t w) (run-RunOutcome t w)
    where
      of_run : (x : Option (Result TaskStatus × World)) → RunOutcome t w x → is_some x ≡ true
      of_run none o = absurd o
      of_run (some r) o = refl

  -- A run that returns a status leaves no task running: the state in the status is terminal.
  pub run_terminal :
      (t : Text) (w w' : World) (s : TaskStatus)
      → run env wide services root t w ≡ some (ok s, w')
      → is_terminal s.state ≡ true
  run_terminal t w w' s e = let o = run-RunOutcome t w in let p = rw e at o in p.0

  -- A run that returns `verified_success`, of a task that had not ended before, leaves a VERIFY step
  -- of that task in the journal whose sandbox run passed.
  pub run_verified :
      (t : Text) (w w' : World) (s : TaskStatus)
      → run env wide services root t w ≡ some (ok s, w')
      → s.state ≡ TaskState.verified_success
      → WasTerminal t w ⊎ HasVerdict t w'
  run_verified t w w' s e good = let o = run-RunOutcome t w in let p = rw e at o in p.1 good
