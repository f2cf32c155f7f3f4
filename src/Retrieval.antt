-- ===== src/Retrieval.antt =====
-- The retrieval service of retrieval/service.py with the accounting of retrieval/accounting.py: what
-- the primitives return, and what they charge before they return it.
pub mod Asked
pub mod Calls
pub mod Cost
pub mod Metered
pub mod Loaded
pub mod Redaction
pub mod Regex
pub mod Search
pub mod Sealed
pub mod Settled
use agentic_code_intelligenc.Prelude.{
  ℕ, ◌+◌, ◌-◌, ◌/◌, ◌==◌, max, leb, Bool, true, false, not, ◌&&◌, ◌||◌, Option, none, some, List,
  [], ◌∷◌, ◌++◌, map, length, take, drop, if◌then◌else◌, Text, codes, text_eq, str, utf8, join_with,
}
use agentic_code_intelligenc.Common.{Error, Result, ok, err}
use agentic_code_intelligenc.Db.{Workspace}
use agentic_code_intelligenc.Db.Ledger.{charge_atomic}
use agentic_code_intelligenc.Files.{FilePath, join, resolve, is_under, path_eq, read}
use agentic_code_intelligenc.World.{
  World, Act, pure, raise, lift, gets, with_db_or, maybe, ◌>>=◌, ◌>>◌,
}
use agentic_code_intelligenc.Workspace.{get_workspace, repo_path_of}
use agentic_code_intelligenc.Index.{CodeSymbol, Index, definitions, references_of, Reference}
use agentic_code_intelligenc.Orchestrator.Services.{Symbol, SpanRef, RetrievalResult}

-- `byte_count`
unfoldable pub byte_count : Text → ℕ
byte_count content = length (utf8 content)

-- `token_cost`: one token for the call, and one for each four bytes begun
unfoldable pub token_cost : Text → ℕ
token_cost content = 1 + (byte_count content + 3) / 4

-- `str.splitlines(keepends=True)`
abbrev is_line_end : ℕ → Bool
is_line_end c =
    (leb 10 c && leb c 13) || (leb 28 c && leb c 30) || (c == 133) || (c == 8232) || (c == 8233)

abbrev starts_line_feed : Text → Bool
starts_line_feed [] = false
starts_line_feed (c ∷ s) = c == 10

abbrev onto_first : ℕ → List Text → List Text
onto_first c [] = (c ∷ []) ∷ []
onto_first c (line ∷ lines) = (c ∷ line) ∷ lines

unfoldable pub splitlines : Text → List Text
splitlines [] = []
splitlines (c ∷ s) =
    let lines = splitlines s in
    if is_line_end c && not (c == 13 && starts_line_feed s)
    then (c ∷ []) ∷ lines
    else onto_first c lines

-- `"".join(lines)`
unfoldable pub concat : List Text → Text
concat [] = []
concat (line ∷ lines) = line ++ concat lines

-- `lines[lo:hi]` of the source
unfoldable pub slice : ℕ → Option ℕ → List Text → List Text
slice start_line none lines = drop (start_line - 1) lines
slice start_line (some end_line) lines =
    let lo = start_line - 1 in take (end_line - lo) (drop lo lines)

pub record SnapshotRef : Type 0 where
  pub workspace_id : Text
  pub commit : Text

abbrev to_symbol : CodeSymbol → Symbol
to_symbol s = record {
  name = s.name;
  kind = s.kind;
  language = s.language;
  file_path = s.file_path;
  start_line = s.start_line;
  end_line = s.end_line;
}

-- `_symbols_repr`
abbrev symbol_line : Symbol → Text
symbol_line s =
    s.language
    ++ codes "\t"
    ++ s.kind
    ++ codes "\t"
    ++ s.file_path
    ++ codes ":"
    ++ str s.start_line
    ++ codes "-"
    ++ str s.end_line
    ++ codes "\t"
    ++ s.name

unfoldable pub symbols_repr : List Symbol → Text
symbols_repr symbols = join_with (codes "\n") (map symbol_line symbols)

-- `_spans_repr`
abbrev span_line : SpanRef → Text
span_line s = s.file_path ++ codes ":" ++ str s.start_line ++ codes "-" ++ str s.end_line

unfoldable pub spans_repr : List SpanRef → Text
spans_repr spans = join_with (codes "\n") (map span_line spans)

abbrev first : List CodeSymbol → Option Symbol
first [] = none
first (s ∷ rest) = some (to_symbol s)

abbrev listed : Option Symbol → List Symbol
listed none = []
listed (some s) = s ∷ []

abbrev charge_note : Text → ℕ → Text
charge_note primitive redactions =
    if redactions == 0
    then primitive
    else primitive ++ codes ":" ++ str redactions ++ codes "redactions"

-- `redact` gives the scrubbed text and the number of redactions; `load_index` is the index of the
-- workspace as it stands in its file.
module _ (redact : Text → Text × ℕ) (load_index : Text → Text → Act Index) (root : FilePath)
    (user_id scope : Text) (budget_tokens : ℕ) where
  -- `_charge`
  unfoldable pub charge : ℕ → Text → Act (Unit {0})
  charge tokens memo = with_db_or (charge_atomic scope tokens budget_tokens none none (some memo))

  -- `_meter_content`: the charge comes first; where it raises, no content is returned.
  unfoldable pub meter_content : Text → Text → Act RetrievalResult
  meter_content content primitive =
      let (text, redactions) = redact content in
      charge (token_cost text) (charge_note primitive redactions) >>= λ _.
      pure (record { content = text; byte_count = byte_count text; token_cost = token_cost text })

  -- `_index`, without the cache: a snapshot that is not the head is refused.
  abbrev is_head : Text → Option Text → Bool
  is_head commit none = false
  is_head commit (some head) = text_eq head commit

  unfoldable pub index_of : SnapshotRef → Act Index
  index_of snap = do
    ref ← get_workspace user_id snap.workspace_id
    if is_head snap.commit ref.head_commit
        then load_index user_id snap.workspace_id
        else raise Error.not_found

  abbrev read_below : FilePath → FilePath → ℕ → Option ℕ → Act Text
  read_below repo target start_line end_line =
      if not (is_under (resolve repo) target) && not (path_eq target (resolve repo))
      then raise Error.not_found
      else (gets (λ w. read w.fs target) >>= λ found.
          maybe found (raise Error.not_found)
            λ text. pure (concat (slice start_line end_line (splitlines text))))

  -- `_read_lines`
  unfoldable pub read_lines : SnapshotRef → Text → ℕ → Option ℕ → Act Text
  read_lines snap file_path start_line end_line = do
    get_workspace user_id snap.workspace_id
    repo ← lift (repo_path_of root user_id snap.workspace_id)
    let target = resolve (join repo file_path)
    read_below repo target start_line end_line

  -- `definition`
  unfoldable pub definition : SnapshotRef → Text → Act (Option Symbol)
  definition snap name = do
    index ← index_of snap
    let result = first (definitions name none index)
    meter_content (symbols_repr (listed result)) (codes "definition")
    pure result

  -- `references`
  unfoldable pub references : SnapshotRef → Text → Act (List SpanRef)
  references snap name = do
    index ← index_of snap
    let out : List SpanRef =
        map
          (λ (r : Reference). record {
            file_path = r.file_path;
            start_line = r.line;
            end_line = r.line;
          })
          (references_of name none index)
    meter_content (spans_repr out) (codes "references")
    pure out

  -- `read_span`
  unfoldable pub read_span : SnapshotRef → SpanRef → Act RetrievalResult
  read_span snap span = do
    text ← read_lines snap span.file_path span.start_line (some span.end_line)
    meter_content text (codes "read_span")

  -- `read_file`
  unfoldable pub read_file : SnapshotRef → Text → Act RetrievalResult
  read_file snap file_path = do
    text ← read_lines snap file_path 1 none
    meter_content text (codes "read_file")
