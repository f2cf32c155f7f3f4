-- ===== src/Retrieval/Asked.antt =====
-- The calls of retrieval/service.py as their caller sees them: each is paid in full, or it is refused
-- and leaves no trace.
use agentic_code_intelligenc.Prelude.{ℕ, Text}
use agentic_code_intelligenc.Files.{FilePath}
use agentic_code_intelligenc.World.{World, Act, pure, ◌>>=◌}
use agentic_code_intelligenc.World.Moves.{Moves}
use agentic_code_intelligenc.Index.{Index}
use agentic_code_intelligenc.Retrieval.{
  token_cost, SnapshotRef, definition, references, read_span, read_file, symbols_repr, spans_repr,
  listed,
}
use agentic_code_intelligenc.Retrieval.Calls.{Call, Answer}
use agentic_code_intelligenc.Retrieval.Search.{search_symbols, structural_grep, list_dir}
use agentic_code_intelligenc.Retrieval.Settled.{IsMetered}

module _ (lower : Text → Text) (redact : Text → Text × ℕ) (load_index : Text → Text → Act Index)
    (root : FilePath) (user_id scope : Text) (budget_tokens : ℕ) where
  -- The price of the text that `_meter_content` is given for an answer.
  abbrev pub price : Answer → ℕ
  price (Answer.symbols s) = token_cost (redact (symbols_repr s)).0
  price (Answer.symbol s) = token_cost (redact (symbols_repr (listed s))).0
  price (Answer.spans s) = token_cost (redact (spans_repr s)).0
  price (Answer.content r) = token_cost r.content

  pub ask : SnapshotRef → Call → Act Answer
  ask snap (Call.search_symbols query limit) =
      search_symbols lower redact load_index root user_id scope budget_tokens snap query limit
      >>= λ s. pure (Answer.symbols s)
  ask snap (Call.definition name) =
      definition redact load_index root user_id scope budget_tokens snap name >>= λ s.
      pure (Answer.symbol s)
  ask snap (Call.references name) =
      references redact load_index root user_id scope budget_tokens snap name >>= λ s.
      pure (Answer.spans s)
  ask snap (Call.read_span span) =
      read_span redact load_index root user_id scope budget_tokens snap span >>= λ r.
      pure (Answer.content r)
  ask snap (Call.read_file path) =
      read_file redact load_index root user_id scope budget_tokens snap path >>= λ r.
      pure (Answer.content r)
  ask snap (Call.list_dir path) =
      list_dir lower redact load_index root user_id scope budget_tokens snap path >>= λ r.
      pure (Answer.content r)
  ask snap (Call.structural_grep pattern_text limit) =
      structural_grep lower redact load_index root user_id scope budget_tokens snap pattern_text
        limit
      >>= λ s. pure (Answer.spans s)

  abbrev Metered : {A : Type 0} → (A → ℕ) → Act A → Type 0
  Metered p m = IsMetered scope budget_tokens p m
