-- ===== src/Orchestrator/Loop/Report.antt =====
-- The status that `AgentLoop.run` of orchestrator/loop.py returns is that of the task's row as the run
-- leaves it.
use agentic_code_intelligenc.Prelude.{
  ℕ, zero, suc, leb, Bool, Option, none, some, List, Text, ◌≡◌, refl, Bool-cases, inl, inr,
}
use mathlib.Core.Path.{subst}
use agentic_code_intelligenc.Common.{TaskState, is_terminal, Reason, Result, ok, err}
use agentic_code_intelligenc.Db.{Task, JournalEntry}
use agentic_code_intelligenc.Db.Tasks.{get_for_resume}
use agentic_code_intelligenc.Db.Tasks.Updates.{get_for_resume_id}
use agentic_code_intelligenc.Files.{FilePath}
use agentic_code_intelligenc.World.{Env, World, pure, raise, gets, ◌>>=◌}
use agentic_code_intelligenc.World.Post.{Post, Post-bind, Post-gets-bind, Post-if, Post_at}
use agentic_code_intelligenc.Prompt.{AgentAction, ActionKind, DataSpan}
use agentic_code_intelligenc.Orchestrator.Services.{Services}
use agentic_code_intelligenc.Orchestrator.Effects.{Ctx}
use agentic_code_intelligenc.Orchestrator.Loop.{
  TaskStatus, LoopState, Turn, Start, status, status_of, terminate, end_with, after_commit,
  step_with, unless_breach, after_success, after_failure, max_repair_attempts, decide, replay_step,
  fresh_step, turn, after_turn, loop, set_up, begin_with, prepare, start_loop, run,
}

-- `s` is the status of the row that the task has.
abbrev pub IsReport : Text → TaskStatus → World → Type 0
IsReport t s w =
    (task : Task) × (worktree : FilePath) × (get_for_resume t w.db ≡ some task)
    × (s ≡ status worktree task w)

abbrev Reports : Text → Turn → World → Type 0
Reports t (Turn.finish s) w = IsReport t s w
Reports t (Turn.again st) w = Unit

status_of-IsReport :
    (t : Text) (worktree : FilePath) (w : World) (found : Option Task)
    → get_for_resume t w.db ≡ found
    → Post (IsReport t) (status_of worktree found w)
unfolding raise gets
status_of-IsReport t worktree w none e = tt
status_of-IsReport t worktree w (some task) e = (task, worktree, e, refl)

terminate-IsReport :
    (ctx : Ctx) (state : TaskState) (reason : Option Reason) (w : World)
    → Post (IsReport ctx.task.id) (terminate ctx state reason w)
unfolding terminate
terminate-IsReport ctx state reason w =
    let P = IsReport ctx.task.id in
    Post-bind P _ _ w λ _ w1 _. Post-bind P _ _ w1 λ _ w2 _. Post-bind P _ _ w2 λ _ w3 _.
      Post-gets-bind P (λ v. get_for_resume ctx.task.id v.db) (status_of ctx.worktree) w3
        (status_of-IsReport ctx.task.id ctx.worktree w3 (get_for_resume ctx.task.id w3.db) refl)

module _ (env : Env) (wide : ℕ → Bool) (services : Services) (root : FilePath) (ctx : Ctx) where
  abbrev Done : Turn → World → Type 0
  Done = Reports ctx.task.id

  end_with-Reports :
      (state : TaskState) (reason : Option Reason) (w : World)
      → Post (Reports ctx.task.id) (end_with env wide services root ctx state reason w)
  unfolding pure
  end_with-Reports state reason w =
      Post-bind (Reports ctx.task.id) (terminate ctx state reason) (λ s. pure (Turn.finish s)) w
        λ s w' e. Post_at (IsReport ctx.task.id) (terminate-IsReport ctx state reason w) e

  after_commit-Reports :
      (conflict : Option Reason) (w : World)
      → Post (Reports ctx.task.id) (after_commit env wide services root ctx conflict w)
  after_commit-Reports (some reason) w = end_with-Reports TaskState.gave_up (some reason) w
  after_commit-Reports none w = end_with-Reports TaskState.verified_success none w

  decide-Reports :
      (step attempts : ℕ) (action : AgentAction) (spans : List DataSpan) (w : World)
      → Post (Reports ctx.task.id) (decide env wide services root ctx step attempts action spans w)
  unfolding decide after_success after_failure pure
  decide-Reports step attempts action spans w = of_kind action.kind
    where
      of_kind :
          (k : ActionKind)
          → Post
              (Reports ctx.task.id)
              (decide env wide services root ctx step attempts (record action { kind = k }) spans w)
      of_kind ActionKind.give_up = end_with-Reports _ _ w
      of_kind ActionKind.verify =
          let P = Reports ctx.task.id in
          Post-bind P _ _ w λ verified w1 _.
            Post-if P verified _ _ w1
              (λ _. Post-bind P _ _ w1 λ conflict w2 _. after_commit-Reports conflict w2)
              (λ _.
                Post-if P (leb max_repair_attempts attempts) _ _ w1 (λ _. end_with-Reports _ _ w1)
                  (λ _. Post-bind P _ _ w1 λ span w2 _. Post-bind P _ _ w2 λ _ w3 _. tt))
      of_kind ActionKind.plan = tt
      of_kind ActionKind.retrieve = tt
      of_kind ActionKind.edit = tt
      of_kind ActionKind.rename = tt

  step_with-Reports :
      (st : LoopState) (cached : Option JournalEntry) (w : World)
      → Post (Reports ctx.task.id) (step_with env wide services root ctx st cached w)
  unfolding replay_step fresh_step
  step_with-Reports st (some entry) w =
      let P = Reports ctx.task.id in
      Post-bind P _ _ w λ action w1 _. Post-bind P _ _ w1 λ spans w2 _.
        Post-bind P _ _ w2
          λ _ w3 _. Post-bind P _ _ w3 λ attempts w4 _. decide-Reports st.step attempts action _ w4
  step_with-Reports st none w =
      Post-bind (Reports ctx.task.id) _ _ w
        λ r w1 _. decide-Reports st.step st.repair_attempts r.0 r.1 w1

  turn-Reports :
      (st : LoopState) (w : World)
      → Post (Reports ctx.task.id) (turn env wide services root ctx st w)
  unfolding turn
  turn-Reports st w = Post-bind (Reports ctx.task.id) _ _ w λ breach w1 _. of_breach breach w1
    where
      of_breach :
          (breach : Option Reason) (v : World)
          → Post (Reports ctx.task.id) (unless_breach env wide services root ctx st breach v)
      of_breach (some reason) v = end_with-Reports TaskState.budget_exhausted (some reason) v
      of_breach none v =
          Post-bind (Reports ctx.task.id) _ _ v λ cached v1 _. step_with-Reports st cached v1

  abbrev Over : Option (Result TaskStatus × World) → Type 0
  Over none = Unit
  Over (some x) = Post (IsReport ctx.task.id) x

  after_turn-Over :
      (next : LoopState → World → Option (Result TaskStatus × World)) (x : Result Turn × World)
      → Post (Reports ctx.task.id) x
      → ((st : LoopState) (v : World) → Over (next st v))
      → Over (after_turn env wide services root next x)
  after_turn-Over next (ok (Turn.finish s), v) p k = p
  after_turn-Over next (ok (Turn.again st), v) p k = k st v
  after_turn-Over next (err e, v) p k = tt

  loop-Over :
      (fuel : ℕ) (st : LoopState) (w : World) → Over (loop env wide services root fuel ctx st w)
  unfolding loop
  loop-Over zero st w = tt
  loop-Over (suc fuel) st w =
      after_turn-Over (loop env wide services root fuel ctx) (turn env wide services root ctx st w)
        (turn-Reports st w) (loop-Over fuel)

module _ (env : Env) (wide : ℕ → Bool) (services : Services) (root : FilePath) where
  abbrev Begun : Text → Start → World → Type 0
  Begun t (Start.already s) w = IsReport t s w
  Begun t (Start.ready ctx st) w = ctx.task.id ≡ t

  set_up-Begun :
      (task : Task) (w : World) → Post (Begun task.id) (set_up env wide services root task w)
  unfolding set_up pure
  set_up-Begun task w =
      let P = Begun task.id in
      Post-bind P _ _ w λ _ w1 _. Post-bind P _ _ w1 λ _ w2 _. Post-bind P _ _ w2 λ _ w3 _.
        Post-bind P _ _ w3 λ _ w4 _. Post-bind P _ _ w4 λ _ w5 _.
          Post-bind P _ _ w5
            λ _ w6 _. Post-bind P _ _ w6 λ _ w7 _. Post-bind P _ _ w7 λ _ w8 _. refl

  prepare-Begun : (t : Text) (w : World) → Post (Begun t) (prepare env wide services root t w)
  unfolding prepare raise pure gets ◌>>=◌
  prepare-Begun t w =
      Post-gets-bind (Begun t) (λ v. get_for_resume t v.db) (begin_with env wide services root) w
        (of_found (get_for_resume t w.db) refl)
    where
      of_found :
          (found : Option Task)
          → get_for_resume t w.db ≡ found
          → Post (Begun t) (begin_with env wide services root found w)
      of_found none e = tt
      of_found (some task) e = elim (Bool-cases (is_terminal task.state)) [
        | inl over ↦ rw over (task, env.cwd, e, refl)
        | inr live ↦ rw live (
            subst (λ u. Post (Begun u) (set_up env wide services root task w))
              (get_for_resume_id t w.db task e) (set_up-Begun task w))
      ]

  start_loop-IsReport :
      (t : Text) (x : Result Start × World) (s : TaskStatus) (w' : World)
      → Post (Begun t) x
      → start_loop env wide services root x ≡ some (ok s, w')
      → IsReport t s w'
  start_loop-IsReport t (err e, v) s w' p h = cc
  start_loop-IsReport t (ok (Start.already s'), v) s w' (task, worktree, found, same) h =
      (task, worktree, cc, cc)
  start_loop-IsReport t (ok (Start.ready ctx st), v) s w' p h =
      let over = loop-Over env wide services root ctx (suc ctx.task.step_budget) st v in
      let report = rw h at over in rw p at report

  -- The status that a run returns is that of the task's row in the world that the run leaves.
  pub run-IsReport :
      (t : Text) (w w' : World) (s : TaskStatus)
      → run env wide services root t w ≡ some (ok s, w')
      → IsReport t s w'
  unfolding run
  run-IsReport t w w' s h =
      start_loop-IsReport t (prepare env wide services root t w) s w' (prepare-Begun t w) h
