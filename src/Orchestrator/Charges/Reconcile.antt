-- ===== src/Orchestrator/Charges/Reconcile.antt =====
-- `_charge_from_journal` of orchestrator/loop.py: each journaled charge is in the ledger once.
use agentic_code_intelligenc.Prelude.{
  ℕ, ◌+◌, ◌==◌, leb, max, Bool, true, ◌&&◌, ◌||◌, some, List, [], ◌∷◌, ◌++◌, any, filter,
  insert_sorted, sorted, if◌then◌else◌, Text, codes, text_eq, text_eq_refl, starts_with, is_some,
  Bool-cases, Option-cases, ◌≡◌, refl, ap, ◌∙◌, arith, inl, inr,
}
use agentic_code_intelligenc.Common.{LedgerEntryKind}
use agentic_code_intelligenc.Db.{LedgerEntry, JournalEntry, Database}
use agentic_code_intelligenc.Db.Journal.{get_trace, of_task, by_step}
use agentic_code_intelligenc.Db.Ledger
use agentic_code_intelligenc.Orchestrator.Charges.{
  is_model_note, is_model_commit, is_step, is_committed, commit_step_charge, charge_entry,
  charge_entries, charge_from_journal,
}

-- a committed model charge of that step
abbrev pub for_step : Text → Text → ℕ → LedgerEntry → Bool
for_step scope t k e = is_model_commit scope t e && is_step k e.step_index

-- How many model charges of a step are committed.
unfoldable pub commits : Text → Text → ℕ → List LedgerEntry → ℕ
commits scope t k [] = 0
commits scope t k (e ∷ rows) = (if for_step scope t k e then 1 else 0) + commits scope t k rows

module _ (scope t : Text) where
  pub commits-append :
      (k : ℕ) (xs ys : List LedgerEntry)
      → commits scope t k (xs ++ ys) ≡ commits scope t k xs + commits scope t k ys
  unfolding commits
  commits-append k [] ys = omega arith
  commits-append k (e ∷ xs) ys = omega (arith, commits-append k xs ys)

  any-commits :
      (k : ℕ) (rows : List LedgerEntry)
      → any (for_step scope t k) rows ≡ leb 1 (commits scope t k rows)
  unfolding commits
  any-commits k [] = refl
  any-commits k (e ∷ rows) = ground (arith, any-commits k rows)

  -- what one call of `_commit_step_charge` adds to the count of step `k`
  abbrev adds : ℕ → ℕ → ℕ → ℕ
  adds step k n = if step == k then max 1 n else n

  commits-insert :
      (step k n : ℕ) (memo : Text) (db : Database)
      → is_model_note (some memo) ≡ true
      → commits scope t k
          (Ledger.append scope LedgerEntryKind.commit n
            (some t)
            (some step)
            (some memo)
            db).budget_ledger
        ≡ commits scope t k db.budget_ledger + (if step == k then 1 else 0)
  unfolding Ledger.append commits
  commits-insert step k n memo db model =
      rw (commits-append k db.budget_ledger)
        (rw (text_eq_refl scope, text_eq_refl t, model) (omega arith))

  -- A charge is committed once: a second call for the same step adds nothing, and no other step's
  -- count changes.
  pub commits-commit_step_charge :
      (step k n : ℕ) (memo : Text) (db : Database)
      → is_model_note (some memo) ≡ true
      → commits scope t k (commit_step_charge scope t step n memo db).budget_ledger
        ≡ adds step k (commits scope t k db.budget_ledger)
  unfolding commit_step_charge is_committed
  commits-commit_step_charge step k n memo db model =
      elim (Bool-cases (is_committed scope t step db.budget_ledger)) [
        | inl old ↦ rw old (ground (arith, old, any-commits step db.budget_ledger))
        | inr fresh ↦ rw fresh (
            rw (commits-insert step k n memo db model)
              (ground (arith, fresh, any-commits step db.budget_ledger)))
      ]

-- a journal row that records a charge of that step
abbrev pub charges : ℕ → JournalEntry → Bool
charges k e = is_some e.payload.charge_tokens && (e.step_index == k)

-- the count of step `k` behind a reconciliation, given whether the step's charge is in the journal
abbrev settled : Bool → ℕ → ℕ
settled charged n = if charged then max 1 n else n

module _ (scope t : Text) where
  commits-charge_entry :
      (k : ℕ) (e : JournalEntry) (db : Database)
      → commits scope t k (charge_entry scope t e db).budget_ledger
        ≡ settled (charges k e) (commits scope t k db.budget_ledger)
  unfolding charge_entry starts_with text_eq
  commits-charge_entry k e db = elim (Option-cases e.payload.charge_tokens) [
    | inl none_ ↦ rw none_ refl
    | inr (c, some_) ↦
        rw some_
          (commits-commit_step_charge scope t e.step_index k c (codes "reconcile:model") db refl)
  ]

  commits-charge_entries :
      (k : ℕ) (trace : List JournalEntry) (db : Database)
      → commits scope t k (charge_entries scope t trace db).budget_ledger
        ≡ settled (any (charges k) trace) (commits scope t k db.budget_ledger)
  unfolding charge_entries
  commits-charge_entries k [] db = refl
  commits-charge_entries k (e ∷ trace) db =
      rw (commits-charge_entries k trace _) (rw (commits-charge_entry k e db) (ground arith))

  charge_entry_rest :
      (e : JournalEntry) (db : Database)
      → charge_entry scope t e db
        ≡ record db { budget_ledger = (charge_entry scope t e db).budget_ledger }
  unfolding charge_entry commit_step_charge Ledger.append
  charge_entry_rest e db = ground arith

  -- Reconciliation writes the ledger and nothing else.
  charge_entries_rest :
      (trace : List JournalEntry) (db : Database)
      → charge_entries scope t trace db
        ≡ record db { budget_ledger = (charge_entries scope t trace db).budget_ledger }
  unfolding charge_entries
  charge_entries_rest [] db = refl
  charge_entries_rest (e ∷ trace) db =
      charge_entries_rest trace (charge_entry scope t e db)
      ∙ ap {A = Database}
          (λ d. record d {
            budget_ledger =
                (charge_entries scope t trace (charge_entry scope t e db)).budget_ledger;
          })
          (charge_entry_rest e db)

  charge_entries_done :
      (trace : List JournalEntry) (db : Database)
      → ((k : ℕ) → any (charges k) trace ≡ true → is_committed scope t k db.budget_ledger ≡ true)
      → charge_entries scope t trace db ≡ db
  unfolding charge_entries charge_entry commit_step_charge
  charge_entries_done [] db h = refl
  charge_entries_done (e ∷ trace) db h = elim (Option-cases e.payload.charge_tokens) [
    | inl none_ ↦ rw none_ (charge_entries_done trace db (λ k a. h k (ground (arith, a))))
    | inr (c, some_) ↦ rw some_ (
        rw (h e.step_index (ground (arith, some_)))
          (charge_entries_done trace db (λ k a. h k (ground (arith, a)))))
  ]

any-insert_sorted :
    (p : JournalEntry → Bool) (lt : JournalEntry → JournalEntry → Bool) (x : JournalEntry)
    (rows : List JournalEntry)
    → any p (insert_sorted lt x rows) ≡ (p x || any p rows)
any-insert_sorted p lt x [] = refl
any-insert_sorted p lt x (y ∷ rows) = ground (arith, any-insert_sorted p lt x rows)

any-sorted :
    (p : JournalEntry → Bool) (lt : JournalEntry → JournalEntry → Bool) (rows : List JournalEntry)
    → any p (sorted lt rows) ≡ any p rows
any-sorted p lt [] = refl
any-sorted p lt (x ∷ rows) =
    rw (any-insert_sorted p lt x (sorted lt rows)) (rw (any-sorted p lt rows) refl)

any-trace :
    (k : ℕ) (t : Text) (rows : List JournalEntry)
    → any (charges k) (filter (of_task t) rows) ≡ any (λ e. of_task t e && charges k e) rows
any-trace k t [] = refl
any-trace k t (e ∷ rows) = ground (arith, any-trace k t rows)

-- The journal has a charge for that step of the task.
abbrev pub is_charged : Text → ℕ → Database → Bool
is_charged t k db = any (λ e. of_task t e && charges k e) db.journal

module _ (scope t : Text) (db : Database) where
  -- After the reconciliation from the journal, a step whose charge is in the journal is committed:
  -- once where it was not committed before (a crash between the two writes), and as often as before
  -- where it was. Other steps keep their count.
  pub commits-charge_from_journal :
      (k : ℕ)
      → commits scope t k (charge_from_journal scope t db).budget_ledger ≡ (
          if is_charged t k db
          then max 1 (commits scope t k db.budget_ledger)
          else commits scope t k db.budget_ledger)
  unfolding charge_from_journal get_trace
  commits-charge_from_journal k = rw (commits-charge_entries scope t k (get_trace t db) db) (
      rw (any-sorted (charges k) by_step (filter (of_task t) db.journal))
        (rw (any-trace k t db.journal) refl))

  pub charge_from_journal_rest :
      charge_from_journal scope t db
      ≡ record db { budget_ledger = (charge_from_journal scope t db).budget_ledger }
  unfolding charge_from_journal
  charge_from_journal_rest = charge_entries_rest scope t (get_trace t db) db

module _ (scope t : Text) (db : Database) where
  is_committed_after :
      (k : ℕ)
      → any (charges k) (get_trace t db) ≡ true
      → is_committed scope t k (charge_from_journal scope t db).budget_ledger ≡ true
  unfolding charge_from_journal is_committed
  is_committed_after k a =
      rw (any-commits scope t k (charge_entries scope t (get_trace t db) db).budget_ledger)
        (rw (commits-charge_entries scope t k (get_trace t db) db) (rw a (ground arith)))

  trace_after : get_trace t (charge_from_journal scope t db) ≡ get_trace t db
  unfolding get_trace
  trace_after = rw (ap {A = Database} (λ d. d.journal) (charge_from_journal_rest scope t db)) refl

  -- A second reconciliation, as after a crash and a restart, charges nothing more.
  pub charge_from_journal_idempotent :
      charge_from_journal scope t (charge_from_journal scope t db) ≡ charge_from_journal scope t db
  unfolding charge_from_journal
  charge_from_journal_idempotent =
      ap (λ trace. charge_entries scope t trace (charge_from_journal scope t db)) trace_after
      ∙ charge_entries_done scope t (get_trace t db) (charge_from_journal scope t db)
          is_committed_after
