-- ===== src/Orchestrator/Charges.antt =====
-- The charges of orchestrator/loop.py: the ledger as it is reconciled from the journal.
pub mod Reconcile
use agentic_code_intelligenc.Prelude.{
  ℕ, ◌==◌, Bool, true, false, ◌&&◌, ◌||◌, Option, none, some, List, [], ◌∷◌, ◌++◌, any,
  if◌then◌else◌, Text, codes, text_eq, starts_with,
}
use agentic_code_intelligenc.Common.{LedgerEntryKind}
use agentic_code_intelligenc.Db.{LedgerEntry, JournalEntry, Database}
use agentic_code_intelligenc.Db.Journal.{get_trace}
use agentic_code_intelligenc.Db.Ledger

abbrev is_commit : LedgerEntryKind → Bool
is_commit LedgerEntryKind.commit = true
is_commit _ = false

abbrev is_text : Text → Option Text → Bool
is_text s none = false
is_text s (some t) = text_eq t s

-- `note LIKE 'model:%'` of the first query, `note = 'reconcile:model'` of the second
abbrev pub is_model_note : Option Text → Bool
is_model_note none = false
is_model_note (some t) = starts_with (codes "model:") t || text_eq t (codes "reconcile:model")

abbrev pub is_model_commit : Text → Text → LedgerEntry → Bool
is_model_commit scope task_id e =
    text_eq e.scope scope && is_text task_id e.task_id && is_commit e.kind && is_model_note e.note

abbrev pub is_step : ℕ → Option ℕ → Bool
is_step step none = false
is_step step (some k) = k == step

-- `step in self._committed_model_steps(scope, task_id)`
unfoldable pub is_committed : Text → Text → ℕ → List LedgerEntry → Bool
is_committed scope task_id step rows =
    any (λ e. is_model_commit scope task_id e && is_step step e.step_index) rows

-- `_commit_step_charge`
unfoldable pub commit_step_charge : Text → Text → ℕ → ℕ → Text → Database → Database
commit_step_charge scope task_id step tokens note db =
    if is_committed scope task_id step db.budget_ledger
    then db
    else Ledger.append scope LedgerEntryKind.commit tokens (some task_id) (some step) (some note) db

-- The loop of `_charge_from_journal`; the set of committed steps is the one read at its start, with
-- the steps committed since.
charge_entry : Text → Text → JournalEntry → Database → Database
unfolding commit_step_charge
charge_entry scope task_id entry db = elim entry.payload.charge_tokens [
  | none ↦ db
  | some charge ↦
      commit_step_charge scope task_id entry.step_index charge (codes "reconcile:model") db
]

charge_entries : Text → Text → List JournalEntry → Database → Database
charge_entries scope task_id [] db = db
charge_entries scope task_id (e ∷ trace) db =
    charge_entries scope task_id trace (charge_entry scope task_id e db)

-- `_charge_from_journal`
unfoldable pub charge_from_journal : Text → Text → Database → Database
unfolding charge_entries charge_entry
charge_from_journal scope task_id db = charge_entries scope task_id (get_trace task_id db) db
