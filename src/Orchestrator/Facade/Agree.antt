-- ===== src/Orchestrator/Facade/Agree.antt =====
-- What a user sees of a task of orchestrator/service.py after its run.
use agentic_code_intelligenc.Prelude.{
  ℕ, Bool, true, ◌&&◌, some, is_some, List, [], ◌∷◌, find, Text, text_eq, text_eq_iff, ◌≡◌, refl,
  sym, ◌∙◌, ap, arith,
}
use agentic_code_intelligenc.Common.{Result, ok, err, is_terminal}
use agentic_code_intelligenc.Db.{Task, Database}
use agentic_code_intelligenc.Db.Tasks.{get, get_for_resume}
use agentic_code_intelligenc.Db.Tasks.Updates.{get_for_resume_id, get_for_resume-create}
use agentic_code_intelligenc.Files.{FilePath}
use agentic_code_intelligenc.World.{Env, World}
use agentic_code_intelligenc.Orchestrator.Services.{Services}
use agentic_code_intelligenc.Orchestrator.Loop.{TaskStatus, status}
use agentic_code_intelligenc.Orchestrator.Loop.Run.{run_returns, run_terminal}
use agentic_code_intelligenc.Orchestrator.Loop.Report.{IsReport, run-IsReport}
use agentic_code_intelligenc.Orchestrator.Loop.Owners.{owner, run-SameOwners}
use agentic_code_intelligenc.Orchestrator.Facade.{
  TaskRequest, Defaults, row_status, get_status, status_or_not_found, create_task, run_created,
  submit,
}

-- The user's read finds the row of the task, where the row is the user's.
find-get :
    (t u : Text) (rows : List Task) (task : Task)
    → find (λ x. text_eq x.id t) rows ≡ some task
    → task.user_id ≡ u
    → find (λ x. text_eq x.id t && text_eq x.user_id u) rows ≡ some task
find-get t u [] task h mine = cc
find-get t u (x ∷ rows) task h mine =
    ground (arith, find-get t u rows task, text_eq_iff x.user_id u)

get_own :
    (t u : Text) (db : Database) (task : Task)
    → get_for_resume t db ≡ some task
    → task.user_id ≡ u
    → get u t db ≡ some task
unfolding get_for_resume get
get_own t u db task h mine = find-get t u db.tasks task h mine

-- `s` and `s'` tell the same of a task, but for the step index and the patch.
abbrev pub Agree : TaskStatus → TaskStatus → Type 0
Agree s s' = record s' { step_index = s.step_index; patch = s.patch } ≡ s

IsReport-Agree :
    (t : Text) (s : TaskStatus) (w : World)
    → IsReport t s w
    → (s' : TaskStatus) × (get_status s.user_id t w.db ≡ ok s')
      × Agree s s'
      × (s.task_id ≡ t)
      × (owner t w ≡ some s.user_id)
unfolding get_status row_status status
IsReport-Agree t s w (task, worktree, found, same) =
    let mine : task.user_id ≡ s.user_id = rw same refl in
    (
      row_status task,
      ap status_or_not_found (get_own t s.user_id w.db task found mine),
      rw same refl,
      rw same (get_for_resume_id t w.db task found),
      rw (found, mine) refl,
    )

some_inj : {A : Type 0} (a b : A) → some a ≡ some b → a ≡ b
some_inj a b h = cc

module _ (env : Env) (wide : ℕ → Bool) (services : Services) (root : FilePath)
    (defaults : Defaults) where
  run_created_owner :
      (created : Result Task) (u : Text) (v w' : World) (s : TaskStatus)
      → ((task : Task)
          → created ≡ ok task
          → (get_for_resume task.id v.db ≡ some task) × (task.user_id ≡ u))
      → run_created env wide services root defaults created v ≡ some (ok s, w')
      → (s.user_id ≡ u)
        × (is_terminal s.state ≡ true)
        × ((s' : TaskStatus) × (get_status s.user_id s.task_id w'.db ≡ ok s') × Agree s s')
  run_created_owner (err e) u v w' s known h = cc
  run_created_owner (ok task) u v w' s known h =
      let (found, mine) = known task refl in
      let report = run-IsReport env wide services root task.id v w' s h in
      let (s', seen, agree, named, now_owner) = IsReport-Agree task.id s w' report in
      let kept = (run-SameOwners env wide services root task.id v w' (ok s) h).same task.id in
      let before : owner task.id v ≡ some u = rw (found, mine) refl in
      (
        some_inj s.user_id u (sym now_owner ∙ kept ∙ before),
        run_terminal env wide services root task.id v w' s h,
        (s', rw named seen, agree),
      )

  -- A submission runs the task to its end; where it returns a status, this is one of the requesting
  -- user, in a terminal state, and the user's `get_status` of that task answers afterwards with the same values, but for the step index and
  -- the patch.
  pub submit_agrees :
      (request : TaskRequest) (w w' : World) (s : TaskStatus)
      → submit env wide services root defaults request w ≡ some (ok s, w')
      → (s.user_id ≡ request.user_id)
        × (is_terminal s.state ≡ true)
        × ((s' : TaskStatus) × (get_status s.user_id s.task_id w'.db ≡ ok s') × Agree s s')
  unfolding submit create_task
  submit_agrees request w w' s h =
      run_created_owner _ request.user_id _ w' s
        (λ task e.
          let (found, mine, _) = get_for_resume-create _ _ _ _ _ _ _ _ w.db task e in (found, mine))
        h

  run_created_returns :
      (created : Result Task) (v : World)
      → is_some (run_created env wide services root defaults created v) ≡ true
  run_created_returns (err e) v = refl
  run_created_returns (ok task) v = run_returns env wide services root task.id v

  pub submit_returns :
      (request : TaskRequest) (w : World)
      → is_some (submit env wide services root defaults request w) ≡ true
  unfolding submit
  submit_returns request w = run_created_returns _ _
