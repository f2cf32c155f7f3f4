-- ===== src/Orchestrator/Services.antt =====
-- What the loop asks of the retrieval service and of the index, as an interface with its laws: the
-- primitives charge the ledger, and write no file but the persisted index.
use agentic_code_intelligenc.Prelude.{ℕ, Option, none, List, ◌++◌, Text, ◌≡◌, ◌≢◌, All}
use agentic_code_intelligenc.Db.{LedgerEntry}
use agentic_code_intelligenc.Files.{FilePath, read}
use agentic_code_intelligenc.World.{World, Act}
use agentic_code_intelligenc.World.Moves.{Moves}

-- retrieval/interface.py
pub record Symbol : Type 0 where
  pub name : Text
  pub kind : Text
  pub language : Text
  pub file_path : Text
  pub start_line : ℕ
  pub end_line : ℕ

pub record SpanRef : Type 0 where
  pub file_path : Text
  pub start_line : ℕ
  pub end_line : ℕ

pub record RetrievalResult : Type 0 where
  pub content : Text
  pub byte_count : ℕ
  pub token_cost : ℕ

-- A row that belongs to no step of a task, as the retrieval charges write them.
abbrev pub IsStepless : LedgerEntry → Type 0
IsStepless e = e.task_id ≡ none

-- Only the ledger grows, by rows of no step, and no file changes but the index of the workspace, which
-- the first retrieval builds; the clock may have been read.
pub record ChargesOnly (index_file : FilePath) (w w' : World) : Type 0 where
  pub rows : List LedgerEntry
  pub stepless : All IsStepless rows
  pub db_same : w'.db ≡ record w.db { budget_ledger = w.db.budget_ledger ++ rows }
  pub other_files : (q : FilePath) → q ≢ index_file → read w'.fs q ≡ read w.fs q
  pub events_same : w'.events ≡ w.events
  pub calls_same : w'.model_calls ≡ w.model_calls
  pub runs_same : w'.sandbox_runs ≡ w.sandbox_runs

-- `scope` and the budget are those that the loop makes the service with.
pub record Services : Type 0 where
  -- `_index_path` of the workspace
  pub index_file : FilePath
  -- `RetrievalServiceImpl.definition`
  pub definition : Text → ℕ → Text → Act (Option Symbol)
  -- `RetrievalServiceImpl.read_span`
  pub read_span : Text → ℕ → SpanRef → Act RetrievalResult
  -- the files with a definition of or a reference to the name, sorted: `IndexBuilder.build`,
  -- `Index.definitions` and `Index.references_of` over the workspace's repository
  pub rename_sites : Text → Text → Text → Act (List Text)
  pub definition_lem :
      (scope : Text) (budget : ℕ) (name : Text)
      → Moves (ChargesOnly index_file) (definition scope budget name)
  pub read_span_lem :
      (scope : Text) (budget : ℕ) (span : SpanRef)
      → Moves (ChargesOnly index_file) (read_span scope budget span)
  pub rename_sites_lem :
      (user_id workspace_id name : Text)
      → Moves (ChargesOnly index_file) (rename_sites user_id workspace_id name)
