-- ===== src/Retrieval/Metered.antt =====
-- The retrieval service of retrieval/service.py as the loop sees it: metered before served, with no
-- effect but the charge.
use agentic_code_intelligenc.Prelude.{
  ℕ, ◌∙◌, Option, none, some, [], ◌++◌, All-append, append-nil, append_assoc, Text, ltb_ℤ, ◌-ℤ◌,
  pos, Bool-cases, refl, inl, inr,
}
use agentic_code_intelligenc.Common.{Error, LedgerEntryKind}
use agentic_code_intelligenc.Db.Ledger.{append, spent, reserved, charge_atomic}
use agentic_code_intelligenc.Files.{FilePath}
use agentic_code_intelligenc.World.{World, Act, with_db_or}
use agentic_code_intelligenc.World.Moves.{
  Moves-raise, Moves-if, Moves-bind, Order, Moves, moves_rules,
}
use agentic_code_intelligenc.Workspace.{get_workspace}
use agentic_code_intelligenc.Index.{Index}
use agentic_code_intelligenc.Orchestrator.Services.{SpanRef, IsStepless, ChargesOnly}
use agentic_code_intelligenc.Retrieval.{
  SnapshotRef, charge, meter_content, index_of, read_lines, definition, read_span,
}

pub charges_nothing : (index_file : FilePath) (w : World) → ChargesOnly index_file w w
charges_nothing index_file w = record {
  rows = [];
  stepless = tt;
  db_same = rw (append-nil w.db.budget_ledger) refl;
  other_files = λ q other. refl;
  events_same = refl;
  calls_same = refl;
  runs_same = refl;
}

pub charges_order : (index_file : FilePath) → Order (ChargesOnly index_file)
charges_order index_file = record {
  refl' = charges_nothing index_file;
  trans = λ u v w p q. record {
    rows = p.rows ++ q.rows;
    stepless = All-append IsStepless p.rows q.rows p.stepless q.stepless;
    db_same = rw q.db_same (rw p.db_same (rw (append_assoc u.db.budget_ledger p.rows q.rows) refl));
    other_files = λ f other. q.other_files f other ∙ p.other_files f other;
    events_same = rw q.events_same p.events_same;
    calls_same = rw q.calls_same p.calls_same;
    runs_same = rw q.runs_same p.runs_same;
  };
}

module _ (index_file : FilePath) (scope : Text) where
  abbrev with_row : LedgerEntryKind → ℕ → Text → World → World
  with_row kind n memo w = record w { db = append scope kind n none none (some memo) w.db }

  one_row :
      (kind : LedgerEntryKind) (n : ℕ) (memo : Text) (w : World)
      → ChargesOnly index_file w (with_row kind n memo w)
  unfolding append
  one_row kind n memo w = record {
    rows = _;
    stepless = (refl, tt);
    db_same = refl;
    other_files = λ q other. refl;
    events_same = refl;
    calls_same = refl;
    runs_same = refl;
  }

module _ (redact : Text → Text × ℕ) (load_index : Text → Text → Act Index) (root : FilePath)
    (user_id scope : Text) (budget_tokens : ℕ) (index_file : FilePath) (snap : SnapshotRef)
    (loads : Moves (ChargesOnly index_file) (load_index user_id snap.workspace_id)) where
  Charges-charge :
      (n : ℕ) (memo : Text)
      → Moves
          (ChargesOnly index_file)
          (charge redact load_index root user_id scope budget_tokens n memo)
  unfolding charge with_db_or charge_atomic append
  Charges-charge n memo = record {
    at = λ w.
        elim (Bool-cases (
          ltb_ℤ
            (pos budget_tokens
              -ℤ pos (spent scope w.db.budget_ledger)
              -ℤ reserved scope w.db.budget_ledger)
            (pos n))) [
              | inl over ↦ rw over (charges_nothing index_file w)
              | inr room ↦ rw room (
                  let w1 = with_row index_file scope LedgerEntryKind.reserve n memo w in
                  let w2 = with_row index_file scope LedgerEntryKind.commit n memo w1 in
                  (charges_order index_file).trans w w2
                    (with_row index_file scope LedgerEntryKind.release n memo w2)
                    ((charges_order index_file).trans w w1 w2
                      (one_row index_file scope LedgerEntryKind.reserve n memo w)
                      (one_row index_file scope LedgerEntryKind.commit n memo w1))
                    (one_row index_file scope LedgerEntryKind.release n memo w2))
            ];
  }

  Charges-meter_content :
      (content primitive : Text)
      → Moves
          (ChargesOnly index_file)
          (meter_content redact load_index root user_id scope budget_tokens content primitive)
  unfolding meter_content
  Charges-meter_content content primitive = search (charges_order, moves_rules, Charges-charge)

  Charges-get_workspace : (w : Text) → Moves (ChargesOnly index_file) (get_workspace user_id w)
  unfolding get_workspace
  Charges-get_workspace w = record { at = charges_nothing index_file }

  Charges-read_lines :
      (p : Text) (start_line : ℕ) (end_line : Option ℕ)
      → Moves
          (ChargesOnly index_file)
          (read_lines redact load_index root user_id scope budget_tokens snap p start_line end_line)
  unfolding read_lines
  Charges-read_lines p start_line end_line =
      search (charges_order, moves_rules, Charges-get_workspace) depth 14

  Charges-index_of :
      Moves
        (ChargesOnly index_file)
        (index_of redact load_index root user_id scope budget_tokens snap)
  unfolding index_of
  Charges-index_of =
      Moves-bind (charges_order index_file) _ _ (Charges-get_workspace snap.workspace_id) (λ ref.
        Moves-if (charges_order index_file) _ _ _ loads
          (Moves-raise (charges_order index_file) Error.not_found))

  pub Charges-definition :
      (name : Text)
      → Moves
          (ChargesOnly index_file)
          (definition redact load_index root user_id scope budget_tokens snap name)
  unfolding definition
  Charges-definition name =
      search (charges_order, moves_rules, Charges-index_of, Charges-meter_content) depth 14

  pub Charges-read_span :
      (span : SpanRef)
      → Moves
          (ChargesOnly index_file)
          (read_span redact load_index root user_id scope budget_tokens snap span)
  unfolding read_span
  Charges-read_span span =
      search (charges_order, moves_rules, Charges-read_lines, Charges-meter_content) depth 14
