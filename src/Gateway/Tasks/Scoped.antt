-- ===== src/Gateway/Tasks/Scoped.antt =====
-- What the routes of gateway/tasks_router.py give to the user of a key: that user's tasks and nothing else.
use agentic_code_intelligenc.Prelude.{
  ℕ, Bool, true, Option, none, some, is_some, Text, ◌≡◌, refl, sym, ap, Option-cases, inl, inr,
}
use mathlib.Core.Path.{subst}
use agentic_code_intelligenc.Common.{Error, Result, ok, err, is_terminal}
use agentic_code_intelligenc.Db.{Task}
use agentic_code_intelligenc.Db.Accounts.{get_workspace_row}
use agentic_code_intelligenc.Db.Tasks.{get}
use agentic_code_intelligenc.Files.{FilePath}
use agentic_code_intelligenc.World.{Env, World}
use agentic_code_intelligenc.Gateway.{AuthContext}
use agentic_code_intelligenc.Orchestrator.Services.{Services}
use agentic_code_intelligenc.Orchestrator.Loop.{TaskStatus}
use agentic_code_intelligenc.Orchestrator.Facade.{
  Defaults, submit, row_status, get_status, status_or_not_found,
}
use agentic_code_intelligenc.Orchestrator.Facade.Agree.{Agree, submit_agrees, submit_returns}
use agentic_code_intelligenc.Gateway.Tasks.{
  CreateTaskRequest, TaskResponse, task_response, respond, assert_workspace_owned, task_request,
  reply, create_task,
}

module _ (env : Env) (wide : ℕ → Bool) (services : Services) (root : FilePath) (defaults : Defaults)
    (base_url : Text) (auth : AuthContext) (body : CreateTaskRequest) where
  -- what a submission is answered with
  abbrev pub IsReply :
      Option (Result TaskStatus × World) → Option (Result TaskResponse × World) → Type 0
  IsReply none answer = ⊥
  IsReply (some (err e, w)) answer = answer ≡ some (err e, w)
  IsReply (some (ok s, w)) answer =
      (task : Task) × (get auth.user_id s.task_id w.db ≡ some task)
      × (answer ≡ some (ok (task_response base_url task), w))
      × (task.state ≡ s.state)
      × (is_terminal task.state ≡ true)

  of_status :
      (s : TaskStatus) (w : World) (found : Option Task)
      → get auth.user_id s.task_id w.db ≡ found
      → (s' : TaskStatus) × (status_or_not_found found ≡ ok s') × Agree s s'
      → is_terminal s.state ≡ true
      → IsReply (some (ok s, w)) (some (respond base_url found, w))
  unfolding row_status
  of_status s w none e (s', seen, agree) over = cc
  of_status s w (some task) e (s', seen, agree) over =
      let row : row_status task ≡ s' = cc in
      let same : task.state ≡ s.state = rw (← row) at (ap (λ (x : TaskStatus). x.state) agree) in
      (task, e, refl, same, rw same over)

  of_submission :
      (x : Option (Result TaskStatus × World))
      → is_some x ≡ true
      → ((s : TaskStatus) (w' : World)
          → x ≡ some (ok s, w')
          → (s.user_id ≡ auth.user_id)
            × (is_terminal s.state ≡ true)
            × ((s' : TaskStatus) × (get_status s.user_id s.task_id w'.db ≡ ok s') × Agree s s'))
      → IsReply x (reply env wide services root defaults base_url auth x)
  unfolding get_status
  of_submission none some_answer known = cc
  of_submission (some (err e, w)) some_answer known = refl
  of_submission (some (ok s, w)) some_answer known =
      let (mine, over, (s', seen, agree)) = known s w refl in
      of_status s w (get auth.user_id s.task_id w.db) refl (s', rw mine at seen, agree) over

  -- A task is created only on a workspace of the key's user. On any other the answer is the same
  -- NotFound as on one that does not exist, and nothing changes. On an owned one the submission is
  -- run to its end before the answer, and returns or raises; an exception is passed on, and a status is
  -- answered with the task's row, which the key's user reads, in the terminal state of that status.
  pub create_task_scoped :
      (w : World)
      → (get_workspace_row auth.user_id body.workspace_id w.db ≡ none
          → create_task env wide services root defaults base_url auth body w
            ≡ some (err Error.not_found, w))
        × (is_some (get_workspace_row auth.user_id body.workspace_id w.db) ≡ true
            → IsReply
                (submit env wide services root defaults (task_request auth body) w)
                (create_task env wide services root defaults base_url auth body w))
  unfolding create_task assert_workspace_owned task_request
  create_task_scoped w = (λ missing. rw (create_task, assert_workspace_owned, missing) refl, owned)
    where
      answered : IsReply (submit env wide services root defaults (task_request auth body) w) (
          reply env wide services root defaults base_url auth
            (submit env wide services root defaults (task_request auth body) w))
      answered =
          of_submission (submit env wide services root defaults (task_request auth body) w)
            (submit_returns env wide services root defaults (task_request auth body) w)
            (λ s w'. submit_agrees env wide services root defaults (task_request auth body) w w' s)

      owned :
          is_some (get_workspace_row auth.user_id body.workspace_id w.db) ≡ true
          → IsReply
              (submit env wide services root defaults (task_request auth body) w)
              (create_task env wide services root defaults base_url auth body w)
      owned h = elim (Option-cases (get_workspace_row auth.user_id body.workspace_id w.db)) [
        | inl missing ↦ let k = rw missing at h in cc
        | inr (row, found) ↦
            let e : create_task env wide services root defaults base_url auth body w
                ≡ reply env wide services root defaults base_url auth
                    (submit env wide services root defaults (task_request auth body) w) =
              rw (create_task, assert_workspace_owned, found) refl in
            subst
              (λ answer.
                IsReply (submit env wide services root defaults (task_request auth body) w) answer)
              (sym e) answered
      ]
