-- ===== src/Db/Ledger.antt =====
-- `LedgerRepo` of db/repositories.py: the append-only budget ledger.
pub mod Charge
use agentic_code_intelligenc.Prelude.{
  ℕ, ◌+◌, ℤ, pos, ◌+ℤ◌, ◌-ℤ◌, ltb_ℤ, Bool, true, false, Option, none, some, List, [], ◌∷◌, ◌++◌,
  length, if◌then◌else◌, Text, text_eq,
}
use agentic_code_intelligenc.Common.{LedgerEntryKind, Error, Result, ok, err}
use agentic_code_intelligenc.Db.{LedgerEntry, Database}

-- one row more; `id` counts on, since no row leaves
abbrev insert :
    Text
    → LedgerEntryKind
    → ℕ
    → Option Text
    → Option ℕ
    → Option Text
    → List LedgerEntry
    → List LedgerEntry
insert scope kind tokens task_id step_index note rows =
    rows
    ++ record {
      id = length rows + 1;
      scope = scope;
      kind = kind;
      task_id = task_id;
      step_index = step_index;
      tokens = tokens;
      note = note;
    }
      ∷ []

unfoldable pub append :
    Text → LedgerEntryKind → ℕ → Option Text → Option ℕ → Option Text → Database → Database
append scope kind tokens task_id step_index note db = record db {
  budget_ledger = insert scope kind tokens task_id step_index note db.budget_ledger;
}

-- what a row adds to `spent_tokens`
abbrev committed : LedgerEntryKind → ℕ → ℕ
committed LedgerEntryKind.commit n = n
committed _ n = 0

-- `CASE kind WHEN 'reserve' THEN tokens WHEN 'release' THEN -tokens ELSE 0`
abbrev held : LedgerEntryKind → ℕ → ℤ
held LedgerEntryKind.reserve n = pos n
held LedgerEntryKind.release n = pos 0 -ℤ pos n
held LedgerEntryKind.commit n = pos 0

unfoldable pub spent : Text → List LedgerEntry → ℕ
spent scope [] = 0
spent scope (e ∷ rows) =
    (if text_eq e.scope scope then committed e.kind e.tokens else 0) + spent scope rows

unfoldable pub reserved : Text → List LedgerEntry → ℤ
reserved scope [] = pos 0
reserved scope (e ∷ rows) =
    (if text_eq e.scope scope then held e.kind e.tokens else pos 0) +ℤ reserved scope rows

unfoldable pub spent_tokens : Text → Database → ℕ
spent_tokens scope db = spent scope db.budget_ledger

unfoldable pub reserved_tokens : Text → Database → ℤ
reserved_tokens scope db = reserved scope db.budget_ledger

-- The check and the three rows of one charge, in one transaction.
unfoldable pub charge_atomic :
    Text → ℕ → ℕ → Option Text → Option ℕ → Option Text → Database → Result (Unit {0}) × Database
unfolding append
charge_atomic scope tokens budget_tokens task_id step_index note db =
    let remaining =
      pos budget_tokens -ℤ pos (spent scope db.budget_ledger) -ℤ reserved scope db.budget_ledger in
    if ltb_ℤ remaining (pos tokens) then (err Error.budget_exceeded, db) else (
      ok tt,
      append scope LedgerEntryKind.release tokens task_id step_index note (
          append scope LedgerEntryKind.commit tokens task_id step_index note
            (append scope LedgerEntryKind.reserve tokens task_id step_index note db)),
    )
