-- ===== src/Db/Tasks/Updates.antt =====
-- What the updates of `TasksRepo` leave: a read of a task sees the update of that task alone.
use agentic_code_intelligenc.Prelude.{
  ap, ◌∙◌, ℕ, ◌+◌, Bool, true, false, Option, none, some, List, [], ◌∷◌, ◌++◌, map, find,
  find-append, any, if◌then◌else◌, Text, codes, text_eq, text_eq_refl, text_eq_iff, ◌≡◌, refl,
  arith, Bool-cases, inl, inr,
}
use agentic_code_intelligenc.Db.{Task, Database}
use agentic_code_intelligenc.Common.{Reason, TaskState, TaskMode, ok}
use agentic_code_intelligenc.Db.Accounts.{new_id}
use agentic_code_intelligenc.Db.Tasks.{
  bump_sandbox_seconds, bump_retrieval_bytes, bump_tokens, set_state, create, get_for_resume,
  update,
}

abbrev pub updated : Bool → (Task → Task) → Option Task → Option Task
updated here f none = none
updated here f (some t) = some (if here then f t else t)

updated-updated :
    (here : Bool) (f g : Task → Task) (found : Option Task)
    → updated here f (updated here g found) ≡ updated here (λ t. f (g t)) found
updated-updated here f g none = refl
updated-updated true f g (some t) = refl
updated-updated false f g (some t) = refl

find-update :
    (t' t : Text) (f : Task → Task)
    → ((x : Task) → (f x).id ≡ x.id)
    → (rows : List Task)
    → find (λ x. text_eq x.id t) (map (λ x. if text_eq x.id t' then f x else x) rows)
      ≡ updated (text_eq t t') f (find (λ x. text_eq x.id t) rows)
find-update t' t f keeps [] = refl
find-update t' t f keeps (x ∷ rows) = ground (
  arith,
  keeps x,
  find-update t' t f keeps rows,
  text_eq_iff x.id t,
  text_eq_iff x.id t',
  text_eq_iff t t',
)

-- An update that keeps the id is seen by a read of that task, and by no other.
pub get_for_resume-update :
    (t' t : Text) (f : Task → Task) (db : Database)
    → ((x : Task) → (f x).id ≡ x.id)
    → get_for_resume t (update t' f db) ≡ updated (text_eq t t') f (get_for_resume t db)
unfolding get_for_resume
get_for_resume-update t' t f db keeps = find-update t' t f keeps db.tasks

-- A change of a task's state and the three running totals that the loop adds to: a read of that task
-- gives its row with the new state and reason, the totals raised by what was added, one tool call
-- more and all else as it was; a read of any other task gives what it gave before.
pub get_for_resume-set_state :
    (t' t : Text) (state : TaskState) (reason : Option Reason) (tin tout bytes seconds : ℕ)
    (db : Database)
    → get_for_resume t (
        bump_sandbox_seconds t' seconds
          (bump_retrieval_bytes t' bytes (bump_tokens t' tin tout (set_state t' state reason db))))
      ≡ updated
          (text_eq t t')
          (λ task. record task {
            state = state;
            reason = reason;
            tokens_in = task.tokens_in + tin;
            tokens_out = task.tokens_out + tout;
            tool_calls = task.tool_calls + 1;
            retrieval_bytes = task.retrieval_bytes + bytes;
            sandbox_seconds = task.sandbox_seconds + seconds;
          })
          (get_for_resume t db)
unfolding set_state bump_tokens bump_retrieval_bytes bump_sandbox_seconds
get_for_resume-set_state t' t state reason tin tout bytes seconds db =
    let stated = set_state t' state reason db in
    let metered = bump_tokens t' tin tout stated in
    let served = bump_retrieval_bytes t' bytes metered in
    get_for_resume-update t' t _ served (λ x. refl)
    ∙ ap (updated (text_eq t t') _) (get_for_resume-update t' t _ metered (λ x. refl))
    ∙ updated-updated (text_eq t t') _ _ _
    ∙ ap (updated (text_eq t t') _) (get_for_resume-update t' t _ stated (λ x. refl))
    ∙ updated-updated (text_eq t t') _ _ _
    ∙ ap (updated (text_eq t t') _) (get_for_resume-update t' t _ db (λ x. refl))
    ∙ updated-updated (text_eq t t') _ _ _

find_id :
    (t : Text) (rows : List Task) (task : Task)
    → find (λ x. text_eq x.id t) rows ≡ some task
    → task.id ≡ t
find_id t [] task h = cc
find_id t (x ∷ rows) task h = ground (arith, find_id t rows task, text_eq_iff x.id t)

pub get_for_resume_id :
    (t : Text) (db : Database) (task : Task) → get_for_resume t db ≡ some task → task.id ≡ t
unfolding get_for_resume
get_for_resume_id t db task h = find_id t db.tasks task h

find-none_of_any :
    (t : Text) (rows : List Task)
    → any (λ x. text_eq x.id t) rows ≡ false
    → find (λ x. text_eq x.id t) rows ≡ none
find-none_of_any t [] h = refl
find-none_of_any t (x ∷ rows) h = ground (arith, find-none_of_any t rows, h)

find_new :
    (rows : List Task) (task : Task)
    → any (λ x. text_eq x.id task.id) rows ≡ false
    → find (λ x. text_eq x.id task.id) (rows ++ task ∷ []) ≡ some task
find_new rows task h =
    rw
      (
        find-append (λ x. text_eq x.id task.id) rows (task ∷ []),
        find-none_of_any task.id rows h,
        text_eq_refl task.id,
      )
      refl

-- A task that was created is the user's, is pending, and is the one that a read of its id returns.
pub get_for_resume-create :
    (uuid4 : ℕ → Text) (u w instruction : Text) (tokens steps wall : ℕ) (mode : TaskMode)
    (db : Database) (task : Task)
    → (create uuid4 u w instruction tokens steps wall mode db).0 ≡ ok task
    → (get_for_resume task.id (create uuid4 u w instruction tokens steps wall mode db).1
        ≡ some task)
      × (task.user_id ≡ u)
      × (task.state ≡ TaskState.pending)
unfolding create new_id get_for_resume
get_for_resume-create uuid4 u w instruction tokens steps wall mode db task h =
    let tid = codes "task" ++ codes "_" ++ uuid4 db.uuids in
    elim (Bool-cases (any (λ x. text_eq x.id tid) db.tasks)) [
      | inl taken ↦ let h' = rw taken at h in cc
      | inr free ↦
          let h' = rw free at h in
          let same : task ≡ record {
            id = tid;
            user_id = u;
            workspace_id = w;
            state = TaskState.pending;
            mode = mode;
            instruction = instruction;
            reason = none;
            step_index = 0;
            token_budget = tokens;
            step_budget = steps;
            wall_clock_seconds = wall;
            tokens_in = 0;
            tokens_out = 0;
            tool_calls = 0;
            retrieval_bytes = 0;
            sandbox_seconds = 0;
          } =
            cc in
          rw (free, same) (find_new db.tasks _ free, refl, refl)
    ]
