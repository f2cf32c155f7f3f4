-- ===== src/Db/Journal.antt =====
-- `JournalRepo` of db/repositories.py: the append-only journal.
pub mod Append
pub mod Refines
use agentic_code_intelligenc.Prelude.{
  ℕ, ◌+◌, ◌==◌, Bool, true, false, ◌&&◌, Option, none, some, List, [], ◌∷◌, ◌++◌, length, filter,
  find, sorted, Text, text_eq, ltb,
}
use agentic_code_intelligenc.Common.{StepKind}
use agentic_code_intelligenc.Db.{JournalEntry, Payload, Database}

-- `WHERE task_id = ? AND step_index = ?`
abbrev pub at_step : Text → ℕ → JournalEntry → Bool
at_step task_id step_index e = text_eq e.task_id task_id && (e.step_index == step_index)

unfoldable pub get_step : Text → ℕ → Database → Option JournalEntry
get_step task_id step_index db = find (at_step task_id step_index) db.journal

abbrev pub of_task : Text → JournalEntry → Bool
of_task task_id e = text_eq e.task_id task_id

abbrev pub by_step : JournalEntry → JournalEntry → Bool
by_step a b = ltb a.step_index b.step_index

-- `ORDER BY step_index`
unfoldable pub get_trace : Text → Database → List JournalEntry
get_trace task_id db = sorted by_step (filter (of_task task_id) db.journal)

-- `INSERT OR IGNORE` on the unique `(task_id, step_index)`; the entry that stands there then, and
-- whether this call created it.
unfoldable pub append :
    Text → ℕ → StepKind → Text → Payload → Database → (JournalEntry × Bool) × Database
append task_id step_index kind idempotency_key payload db =
    elim (find (at_step task_id step_index) db.journal) [
      | some entry ↦ ((entry, false), db)
      | none ↦
          let entry : JournalEntry = record {
            id = length db.journal + 1;
            task_id = task_id;
            step_index = step_index;
            kind = kind;
            idempotency_key = idempotency_key;
            payload = payload;
          } in
          ((entry, true), record db { journal = db.journal ++ entry ∷ [] })
    ]
