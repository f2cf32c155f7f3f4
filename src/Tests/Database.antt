-- ===== src/Tests/Database.antt =====
-- Examples for the repositories of db/repositories.py and the ledger's reconciliation.
use agentic_code_intelligenc.Prelude.{
  ◌+◌, max, int_laws, none, some, List, [], ◌∷◌, if◌then◌else◌, Text, codes, text_eq, ◌≡◌, refl,
  ◌⊎◌,
}
use agentic_code_intelligenc.Common.{Reason, StepKind, TaskState, Error, ok, err}
use agentic_code_intelligenc.Db.Accounts.{get_workspace_row}
use agentic_code_intelligenc.Db.Accounts.Scoped.{get_workspace_row_owned}
use agentic_code_intelligenc.Db.Tasks.{
  set_state, bump_tokens, bump_retrieval_bytes, bump_sandbox_seconds, get_for_resume,
}
use agentic_code_intelligenc.Db.Tasks.Updates.{get_for_resume-set_state, updated}
use agentic_code_intelligenc.Db.Journal.{append}
use agentic_code_intelligenc.Db.Journal.Append.{IsUnique, append-IsUnique}
use agentic_code_intelligenc.Db.Journal.Refines.{
  Write, view, append_all, replay, append_all_refines,
}
use agentic_code_intelligenc.Db.Ledger.{
  spent, reserved, spent_tokens, reserved_tokens, charge_atomic,
}
use agentic_code_intelligenc.Db.Ledger.Charge.{
  Fits, charge_atomic_outcome, charge_all, IsWithin, charge_all-IsWithin,
}
use agentic_code_intelligenc.Orchestrator.Charges.{charge_from_journal}
use agentic_code_intelligenc.Orchestrator.Charges.Reconcile.{
  commits, is_charged, commits-charge_from_journal, charge_from_journal_idempotent,
}
use agentic_code_intelligenc.Tests.Demo.{
  user, ws, task_id, scope, workspace, database, crashed, row,
}

charge_atomic_outcome_example :
    let (r, db') = charge_atomic scope 40 100 (some task_id) (some 0) none database in
    (Fits scope 40 100 database
      × (r ≡ ok tt)
      × ((s : Text)
          → spent_tokens s db' ≡ spent_tokens s database + (if text_eq scope s then 40 else 0))
      × ((s : Text) → reserved_tokens s db' ≡ reserved_tokens s database))
    ⊎ ((¬ Fits scope 40 100 database) × (r ≡ err Error.budget_exceeded) × (db' ≡ database))
charge_atomic_outcome_example =
    charge_atomic_outcome scope 40 (some task_id) (some 0) none database 100

database-IsWithin : IsWithin scope 100 database
unfolding spent_tokens reserved_tokens spent reserved
database-IsWithin = omega int_laws

charge_all-IsWithin_example :
    IsWithin scope 100
      (charge_all (λ s. 100) ((scope, 60) ∷ (codes "user:bob", 90) ∷ (scope, 60) ∷ []) database)
charge_all-IsWithin_example =
    charge_all-IsWithin (λ s. 100) ((scope, 60) ∷ (codes "user:bob", 90) ∷ (scope, 60) ∷ [])
      database scope database-IsWithin

append-IsUnique_example :
    IsUnique (append task_id 1 StepKind.plan (codes "key") row.payload crashed).1.journal
append-IsUnique_example =
    append-IsUnique task_id 1 StepKind.plan (codes "key") row.payload crashed (refl, tt)

get_workspace_row_owned_example : (workspace.id ≡ ws) × (workspace.user_id ≡ user)
unfolding get_workspace_row text_eq
get_workspace_row_owned_example = get_workspace_row_owned user ws database workspace refl

get_for_resume-set_state_example :
    get_for_resume task_id (
      bump_sandbox_seconds task_id 3 (
        bump_retrieval_bytes task_id 40 (
          bump_tokens task_id 10 20
            (set_state task_id TaskState.gave_up (some Reason.commit_conflict) database))))
    ≡ updated
        (text_eq task_id task_id)
        (λ task. record task {
          state = TaskState.gave_up;
          reason = some Reason.commit_conflict;
          tokens_in = task.tokens_in + 10;
          tokens_out = task.tokens_out + 20;
          tool_calls = task.tool_calls + 1;
          retrieval_bytes = task.retrieval_bytes + 40;
          sandbox_seconds = task.sandbox_seconds + 3;
        })
        (get_for_resume task_id database)
get_for_resume-set_state_example =
    get_for_resume-set_state task_id task_id TaskState.gave_up (some Reason.commit_conflict) 10 20
      40 3 database

commits-charge_from_journal_example :
    commits scope task_id 0 (charge_from_journal scope task_id crashed).budget_ledger ≡ (
      if is_charged task_id 0 crashed
      then max 1 (commits scope task_id 0 crashed.budget_ledger)
      else commits scope task_id 0 crashed.budget_ledger)
commits-charge_from_journal_example = commits-charge_from_journal scope task_id crashed 0

charge_from_journal_idempotent_example :
    charge_from_journal scope task_id (charge_from_journal scope task_id crashed)
    ≡ charge_from_journal scope task_id crashed
charge_from_journal_idempotent_example = charge_from_journal_idempotent scope task_id crashed

abbrev write : Text → StepKind → Write
write key kind = record {
  task_id = task_id;
  step_index = 0;
  kind = kind;
  idempotency_key = key;
  payload = row.payload;
}

abbrev writes : List Write
writes = write (codes "a") StepKind.plan ∷ write (codes "b") StepKind.edit ∷ []

append_all_refines_example :
    ((append_all writes crashed).0 ≡ (replay writes (view crashed)).0)
    × (view (append_all writes crashed).1 ≡ (replay writes (view crashed)).1)
append_all_refines_example = append_all_refines writes crashed
