-- ===== src/Db/Ledger/Charge.antt =====
-- `LedgerRepo.charge_atomic` of db/repositories.py: what one charge does to the balances, and what
-- any sequence of charges, by whichever threads, leaves of a scope's budget.
use agentic_code_intelligenc.Prelude.{
  ℕ, ◌+◌, ℤ, pos, ◌+ℤ◌, ◌-ℤ◌, ◌≤ℤ◌, ltb_ℤ, int_laws, Bool, true, false, Option, none, List, [], ◌∷◌,
  ◌++◌, if◌then◌else◌, Text, text_eq, text_eq_iff, ◌≡◌, refl, ◌⊎◌, inl, inr, arith, Bool-cases,
}
use agentic_code_intelligenc.Common.{LedgerEntryKind, Error, ok, err}
use agentic_code_intelligenc.Db.{LedgerEntry, Database}
use agentic_code_intelligenc.Db.Ledger.{
  append, committed, held, spent, reserved, spent_tokens, reserved_tokens, charge_atomic,
}

pub spent-append :
    (scope : Text) (xs ys : List LedgerEntry)
    → spent scope (xs ++ ys) ≡ spent scope xs + spent scope ys
unfolding spent
spent-append scope [] ys = omega arith
spent-append scope (e ∷ xs) ys = omega (arith, spent-append scope xs ys)

reserved-append :
    (scope : Text) (xs ys : List LedgerEntry)
    → reserved scope (xs ++ ys) ≡ reserved scope xs +ℤ reserved scope ys
unfolding reserved
reserved-append scope [] ys = omega int_laws
reserved-append scope (e ∷ xs) ys = rw (reserved-append scope xs ys) (omega int_laws)

-- What one new row adds to the balances of scope `s`.
module _ (s scope : Text) (kind : LedgerEntryKind) (n : ℕ) (task_id : Option Text)
    (step_index : Option ℕ) (memo : Option Text) (db : Database) where
  pub spent_tokens-append :
      spent_tokens s (append scope kind n task_id step_index memo db)
      ≡ spent_tokens s db + (if text_eq scope s then committed kind n else 0)
  unfolding spent_tokens append spent
  spent_tokens-append = omega (arith, spent-append s db.budget_ledger)

  reserved_tokens-append :
      reserved_tokens s (append scope kind n task_id step_index memo db)
      ≡ reserved_tokens s db +ℤ (if text_eq scope s then held kind n else pos 0)
  unfolding reserved_tokens append reserved
  reserved_tokens-append = rw reserved-append (omega int_laws)

-- The three rows of a charge.
abbrev charged : Text → ℕ → Option Text → Option ℕ → Option Text → Database → Database
charged scope n task_id step_index memo db =
    append scope LedgerEntryKind.release n task_id step_index memo (
      append scope LedgerEntryKind.commit n task_id step_index memo
        (append scope LedgerEntryKind.reserve n task_id step_index memo db))

-- A charge of `n` fits into what is left of the budget of its scope.
abbrev pub Fits : Text → ℕ → ℕ → Database → Type 0
Fits scope n budget_tokens db =
    pos (spent_tokens scope db + n) +ℤ reserved_tokens scope db ≤ℤ pos budget_tokens

-- The test of `charge_atomic`, read as an order.
over_of_test :
    (b s n : ℕ) (r : ℤ) → ltb_ℤ (pos b -ℤ pos s -ℤ r) (pos n) ≡ true → ¬ (pos (s + n) +ℤ r ≤ℤ pos b)
unfolding ◌+ℤ◌ ◌-ℤ◌
over_of_test b s n r h = λ k. ground arith

fits_of_room :
    (b s n : ℕ) (r : ℤ) → ltb_ℤ (pos b -ℤ pos s -ℤ r) (pos n) ≡ false → pos (s + n) +ℤ r ≤ℤ pos b
unfolding ◌+ℤ◌ ◌-ℤ◌
fits_of_room b s n r h = ground arith

module _ (scope : Text) (n : ℕ) (task_id : Option Text) (step_index : Option ℕ) (memo : Option Text)
    (db : Database) where
  spent_tokens-charged :
      (s : Text)
      → spent_tokens s (charged scope n task_id step_index memo db)
        ≡ spent_tokens s db + (if text_eq scope s then n else 0)
  spent_tokens-charged s =
      rw spent_tokens-append (rw spent_tokens-append (rw spent_tokens-append (ground arith)))

  reserved_tokens-charged :
      (s : Text)
      → reserved_tokens s (charged scope n task_id step_index memo db) ≡ reserved_tokens s db
  reserved_tokens-charged s =
      rw reserved_tokens-append
        (rw reserved_tokens-append (rw reserved_tokens-append (settle (text_eq scope s))))
    where
      settle :
          (b : Bool)
          → reserved_tokens s db
              +ℤ (if b then pos n else pos 0)
              +ℤ (if b then pos 0 else pos 0)
              +ℤ (if b then pos 0 -ℤ pos n else pos 0)
            ≡ reserved_tokens s db
      settle true = omega int_laws
      settle false = omega int_laws

  -- A charge that fits succeeds: the spend of its scope rises by exactly `n`, no reservation is
  -- left, and the other scopes are as before. A charge that does not fit is refused with
  -- `BudgetExceeded`, and the database is unchanged. There is no third outcome.
  pub charge_atomic_outcome :
      (budget_tokens : ℕ)
      → let (r, db') = charge_atomic scope n budget_tokens task_id step_index memo db in
        (Fits scope n budget_tokens db
          × (r ≡ ok tt)
          × ((s : Text)
              → spent_tokens s db' ≡ spent_tokens s db + (if text_eq scope s then n else 0))
          × ((s : Text) → reserved_tokens s db' ≡ reserved_tokens s db))
        ⊎ ((¬ Fits scope n budget_tokens db) × (r ≡ err Error.budget_exceeded) × (db' ≡ db))
  unfolding charge_atomic spent_tokens reserved_tokens
  charge_atomic_outcome budget_tokens = elim (Bool-cases (ltb_ℤ remaining (pos n))) [
    | inl over ↦ rw over (
        inr (
          over_of_test budget_tokens (spent scope db.budget_ledger) n
              (reserved scope db.budget_ledger) over,
          refl,
          refl,
        ))
    | inr room ↦ rw room (
        inl (
          fits_of_room budget_tokens (spent scope db.budget_ledger) n
              (reserved scope db.budget_ledger) room,
          refl,
          spent_tokens-charged,
          reserved_tokens-charged,
        ))
  ]
    where
      remaining : ℤ
      remaining =
          pos budget_tokens -ℤ pos (spent scope db.budget_ledger) -ℤ reserved scope db.budget_ledger

-- Charges on any scopes, in the order in which their transactions ran.
pub charge_all : (Text → ℕ) → List (Text × ℕ) → Database → Database
charge_all budget [] db = db
charge_all budget ((scope, n) ∷ rest) db =
    charge_all budget rest (charge_atomic scope n (budget scope) none none none db).1

abbrev pub IsWithin : Text → ℕ → Database → Type 0
IsWithin s budget_tokens db = pos (spent_tokens s db) +ℤ reserved_tokens s db ≤ℤ pos budget_tokens

charge-IsWithin :
    (budget : Text → ℕ) (scope : Text) (n : ℕ) (db : Database) (s : Text)
    → IsWithin s (budget s) db
    → IsWithin s (budget s) (charge_atomic scope n (budget scope) none none none db).1
charge-IsWithin budget scope n db s h =
    elim (charge_atomic_outcome scope n none none none db (budget scope)) [
      | inl (fits, _, spent', reserved') ↦
          rw (spent' s, reserved' s)
            (elim (Bool-cases (text_eq scope s)) [
              | inl same ↦ let e = (text_eq_iff scope s).0 same in rw same (rw e at fits)
              | inr other ↦ rw other (omega int_laws)
            ])
      | inr (_, _, same) ↦ rw same h
    ]

-- However the charges of concurrent retrievals interleave, a scope whose committed spend and
-- reservations start within its budget stays within it.
pub charge_all-IsWithin :
    (budget : Text → ℕ) (charges : List (Text × ℕ)) (db : Database) (s : Text)
    → IsWithin s (budget s) db
    → IsWithin s (budget s) (charge_all budget charges db)
unfolding charge_all
charge_all-IsWithin budget [] db s h = h
charge_all-IsWithin budget ((scope, n) ∷ rest) db s h =
    charge_all-IsWithin budget rest _ s (charge-IsWithin budget scope n db s h)
