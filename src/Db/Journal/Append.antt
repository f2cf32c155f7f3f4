-- ===== src/Db/Journal/Append.antt =====
-- `JournalRepo.append` of db/repositories.py: idempotence on `(task_id, step_index)`, and what an
-- append leaves of the rows that stand in the journal.
use agentic_code_intelligenc.Prelude.{
  ℕ, ◌+◌, true, false, none, some, List, [], ◌∷◌, ◌++◌, length, find, find-append, Text,
  text_eq_refl, text_eq_iff, ◌≡◌, ◌≢◌, refl, arith, ◌⊎◌, inl, inr, Option-cases,
}
use agentic_code_intelligenc.Common.{StepKind}
use agentic_code_intelligenc.Db.{JournalEntry, Payload, Database}
use agentic_code_intelligenc.Db.Journal.{at_step, get_step, append}

find-at_step :
    (t : Text) (k : ℕ) (rows : List JournalEntry) (e : JournalEntry)
    → find (at_step t k) rows ≡ some e
    → at_step t k e ≡ true
find-at_step t k [] e h = cc
find-at_step t k (x ∷ rows) e h = ground (arith, find-at_step t k rows e)

-- What `get_step` returns is a row of that task and that step.
pub get_step_at :
    (t : Text) (k : ℕ) (db : Database) (e : JournalEntry)
    → get_step t k db ≡ some e
    → (e.task_id ≡ t) × (e.step_index ≡ k)
unfolding get_step
get_step_at t k db e h =
    let p = find-at_step t k db.journal e h in ground (arith, p, text_eq_iff e.task_id t)

module _ (t : Text) (k : ℕ) (kind : StepKind) (key : Text) (payload : Payload) (db : Database) where
  -- the row that an append inserts
  abbrev pub new_entry : JournalEntry
  new_entry = record {
    id = length db.journal + 1;
    task_id = t;
    step_index = k;
    kind = kind;
    idempotency_key = key;
    payload = payload;
  }

  append_old :
      (e : JournalEntry)
      → find (at_step t k) db.journal ≡ some e
      → append t k kind key payload db ≡ ((e, false), db)
  unfolding append
  append_old e h = rw (h, append)

  pub append_new :
      find (at_step t k) db.journal ≡ none
      → append t k kind key payload db
        ≡ ((new_entry, true), record db { journal = db.journal ++ new_entry ∷ [] })
  unfolding append
  append_new h = rw (h, append)

module _ (t : Text) (k : ℕ) (kind : StepKind) (key : Text) (payload : Payload) (db : Database) where
  -- The entry that the call returns is the one that every later read of the step returns.
  pub get_step-append :
      get_step t k (append t k kind key payload db).1 ≡ some (append t k kind key payload db).0.0
  unfolding get_step
  get_step-append = elim (Option-cases (find (at_step t k) db.journal)) [
    | inl fresh ↦
        rw (append_new t k kind key payload db fresh)
          (rw find-append (ground (arith, text_eq_refl t)))
    | inr (e, old) ↦ rw (append_old t k kind key payload db e old) old
  ]

  -- No other step of any task is touched.
  pub get_step-append_ne :
      (t' : Text) (k' : ℕ)
      → (t' ≢ t) ⊎ (k' ≢ k)
      → get_step t' k' (append t k kind key payload db).1 ≡ get_step t' k' db
  unfolding get_step
  get_step-append_ne t' k' other = elim (Option-cases (find (at_step t k) db.journal)) [
    | inl fresh ↦
        rw (append_new t k kind key payload db fresh)
          (rw find-append (ground (arith, text_eq_iff t t')))
    | inr (e, old) ↦ rw (append_old t k kind key payload db e old) refl
  ]

  -- A step that is in the journal keeps its first entry for good: a second append of the same step,
  -- with whatever kind, key and payload, returns the first entry with `created` false and writes
  -- nothing.
  pub append-append :
      (kind' : StepKind) (key' : Text) (payload' : Payload)
      → append t k kind' key' payload' (append t k kind key payload db).1
        ≡ (((append t k kind key payload db).0.0, false), (append t k kind key payload db).1)
  unfolding get_step
  append-append kind' key' payload' =
      append_old t k kind' key' payload' (append t k kind key payload db).1 _ get_step-append

-- The table's `UNIQUE (task_id, step_index)`: no row has another row of its task and step behind it.
abbrev pub IsUnique : List JournalEntry → Type 0
IsUnique [] = Unit
IsUnique (e ∷ rows) = (find (at_step e.task_id e.step_index) rows ≡ none) × IsUnique rows

at_step_comm :
    (e x : JournalEntry) → at_step e.task_id e.step_index x ≡ at_step x.task_id x.step_index e
at_step_comm e x = ground (arith, text_eq_iff x.task_id e.task_id, text_eq_iff e.task_id x.task_id)

IsUnique-snoc :
    (rows : List JournalEntry) (x : JournalEntry)
    → IsUnique rows
    → find (at_step x.task_id x.step_index) rows ≡ none
    → IsUnique (rows ++ x ∷ [])
IsUnique-snoc [] x u h = (refl, tt)
IsUnique-snoc (e ∷ rows) x u h =
    (rw find-append (ground (arith, at_step_comm e x)), IsUnique-snoc rows x u.1 (ground arith))

-- Appending keeps the journal free of two rows for one step of one task.
pub append-IsUnique :
    (t : Text) (k : ℕ) (kind : StepKind) (key : Text) (payload : Payload) (db : Database)
    → IsUnique db.journal
    → IsUnique (append t k kind key payload db).1.journal
append-IsUnique t k kind key payload db u = elim (Option-cases (find (at_step t k) db.journal)) [
  | inl fresh ↦ rw (append_new t k kind key payload db fresh) (IsUnique-snoc db.journal _ u fresh)
  | inr (e, old) ↦ rw (append_old t k kind key payload db e old) u
]
