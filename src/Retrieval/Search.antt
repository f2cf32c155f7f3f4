-- ===== src/Retrieval/Search.antt =====
-- The searches of retrieval/service.py: symbols by a part of their name, the entries of a directory,
-- and what is left of the budget.
use agentic_code_intelligenc.Prelude.{
  ℕ, ◌-ℤ◌, ℤ, pos, Bool, true, false, not, ◌&&◌, Option, none, some, List, [], ◌∷◌, ◌++◌, map,
  filter, take, sorted, if◌then◌else◌, Text, codes, text_lt, occurs, join_with,
}
use agentic_code_intelligenc.Common.{Error}
use agentic_code_intelligenc.Db.{Database}
use agentic_code_intelligenc.Db.Ledger.{spent_tokens, reserved_tokens}
use agentic_code_intelligenc.Files.{FilePath, Fs, join, resolve, strip, is_under, is_dir, path_eq}
use agentic_code_intelligenc.World.{Act, pure, raise, lift, gets, ◌>>=◌, ◌>>◌}
use agentic_code_intelligenc.Workspace.{get_workspace, repo_path_of}
use agentic_code_intelligenc.Index.{CodeSymbol, Index, all_symbols}
use agentic_code_intelligenc.Index.Builder.{to_set}
use agentic_code_intelligenc.Orchestrator.Services.{Symbol, SpanRef, RetrievalResult}
use agentic_code_intelligenc.Retrieval.{
  SnapshotRef, to_symbol, symbols_repr, spans_repr, meter_content, index_of,
}

-- `[s for s in index.all_symbols() if q in s.name.lower()][:limit]`; `lower` is `str.lower`, which
-- reads the tables of Unicode.
unfoldable pub matching : (Text → Text) → Text → ℕ → Index → List CodeSymbol
matching lower query limit index =
    take limit (filter (λ s. occurs (lower query) (lower s.name)) (all_symbols index))

abbrev span_of : CodeSymbol → SpanRef
span_of s = record { file_path = s.file_path; start_line = s.start_line; end_line = s.end_line }

-- the entry of a directory that the rest of a path below it begins with; a directory has a slash
entry : Bool → Option FilePath → List Text
entry file none = []
entry file (some []) = []
entry file (some (name ∷ [])) = (if file then name else name ++ codes "/") ∷ []
entry file (some (name ∷ _ ∷ _)) = (name ++ codes "/") ∷ []

entries_of : Bool → FilePath → List FilePath → List Text
unfolding entry
entries_of file target [] = []
entries_of file target (p ∷ paths) = entry file (strip target p) ++ entries_of file target paths

-- `sorted(f"{e.name}/" if e.is_dir() else e.name for e in target.iterdir())`
unfoldable pub listing : FilePath → Fs → List Text
unfolding entries_of
listing target fs =
    let files = entries_of true target (map (λ f. f.0) fs.files) in
    sorted text_lt (to_set (files ++ entries_of false target fs.dirs) [])

-- `remaining_tokens`: the ceiling, less what is committed, less what is reserved
unfoldable pub remaining_tokens : Text → ℕ → Database → ℤ
remaining_tokens scope budget_tokens db =
    pos budget_tokens -ℤ pos (spent_tokens scope db) -ℤ reserved_tokens scope db

module _ (lower : Text → Text) (redact : Text → Text × ℕ) (load_index : Text → Text → Act Index)
    (root : FilePath) (user_id scope : Text) (budget_tokens : ℕ) where
  -- `search_symbols`
  unfoldable pub search_symbols : SnapshotRef → Text → ℕ → Act (List Symbol)
  search_symbols snap query limit = do
    index ← index_of redact load_index root user_id scope budget_tokens snap
    let out = map to_symbol (matching lower query limit index)
    meter_content redact load_index root user_id scope budget_tokens (symbols_repr out)
        (codes "search_symbols")
    pure out

  -- `structural_grep`
  unfoldable pub structural_grep : SnapshotRef → Text → ℕ → Act (List SpanRef)
  structural_grep snap pattern_text limit = do
    index ← index_of redact load_index root user_id scope budget_tokens snap
    let hits = map span_of (matching lower pattern_text limit index)
    meter_content redact load_index root user_id scope budget_tokens (spans_repr hits)
        (codes "structural_grep")
    pure hits

  abbrev pub listed_below : FilePath → FilePath → Act RetrievalResult
  listed_below repo target =
      if not (is_under repo target) && not (path_eq target repo)
      then raise Error.not_found
      else (gets (λ w. w.fs) >>= λ fs.
          if not (is_dir fs target)
          then raise Error.not_found
          else meter_content redact load_index root user_id scope budget_tokens
              (join_with (codes "\n") (listing target fs)) (codes "list_dir"))

  -- `list_dir`
  unfoldable pub list_dir : SnapshotRef → Text → Act RetrievalResult
  list_dir snap path = do
    get_workspace user_id snap.workspace_id
    repo ← lift (repo_path_of root user_id snap.workspace_id)
    listed_below (resolve repo) (resolve (join repo path))
