-- ===== src/Index/Builder.antt =====
-- `IndexBuilder` of index/builder.py with `detect_language` of index/languages.py: the index of the files
-- below a directory, built whole or brought up to date for one file. A file's bytes are the UTF-8 of its
-- text.
pub mod Resolve
pub mod Incremental
pub mod Members
use Resolve.{resolve_import}
use agentic_code_intelligenc.Prelude.{
  ℕ, suc, Bool, true, false, not, Option, none, some, List, [], ◌∷◌, ◌++◌, map, any, sorted,
  if◌then◌else◌, Text, codes, text_eq, text_lt, ends_with, utf8, hex,
}
use agentic_code_intelligenc.Common.{Error, Result, ok, err}
use agentic_code_intelligenc.Files.{FilePath, Fs, as_posix, join, read, is_file, rglob}
use agentic_code_intelligenc.Index.{
  CodeSymbol, Reference, ImportEdge, FileIndex, Index, put_file, drop_file,
}

-- the label of a language and the variant of its grammar
unfoldable pub detect_language : Text → Option (Text × Text)
detect_language path =
    if ends_with (codes ".py") path
    then some (codes "python", codes "python")
    else if ends_with (codes ".pyi") path
    then some (codes "python", codes "python")
    else if ends_with (codes ".ts") path
    then some (codes "typescript", codes "typescript")
    else if ends_with (codes ".tsx") path
    then some (codes "typescript", codes "tsx")
    else none

-- `_IGNORED_DIRS`
unfoldable pub ignored_dir : Text → Bool
ignored_dir name = any (text_eq name) (
    codes ".git"
    ∷ codes ".hg"
    ∷ codes ".svn"
    ∷ codes "node_modules"
    ∷ codes "__pycache__"
    ∷ codes ".venv"
    ∷ codes "venv"
    ∷ codes "dist"
    ∷ codes "build"
    ∷ codes ".acp"
    ∷ codes ".pytest_cache"
    ∷ codes ".mypy_cache"
    ∷ codes ".ruff_cache"
    ∷ [])

abbrev is_language : Option (Text × Text) → Bool
is_language none = false
is_language (some l) = true

indexed_paths : List (FilePath × Text) → List Text
unfolding ignored_dir detect_language
indexed_paths [] = []
indexed_paths ((p, c) ∷ files) =
    let rest = indexed_paths files in
    if any ignored_dir p
    then rest
    else if is_language (detect_language (as_posix p))
    then as_posix p ∷ rest
    else rest

unfoldable pub discover : FilePath → Fs → List Text
unfolding indexed_paths
discover root fs = sorted text_lt (indexed_paths (rglob root fs))

-- What tree-sitter's extraction gives: the symbols, the references, and the imports with their lines.
pub record Extracted : Type 0 where
  pub symbols : List CodeSymbol
  pub references : List Reference
  pub raw_imports : List (Text × ℕ)

-- a path joins a set of paths
pub add_path : Text → List Text → List Text
add_path path [] = path ∷ []
add_path path (q ∷ known) =
    let rest = add_path path known in if text_eq q path then q ∷ known else q ∷ rest

-- `set(paths)`
unfoldable pub to_set : List Text → List Text → List Text
unfolding add_path
to_set [] known = known
to_set (path ∷ paths) known = to_set paths (add_path path known)

abbrev pub keys : Index → List Text
keys files = map (λ fi. fi.path) files

module _ (sha256 : List ℕ → List ℕ) (extract : Text → Text → Text → Extracted) where
  pub edges : Text → Text → List Text → List (Text × ℕ) → List ImportEdge
  unfolding resolve_import
  edges language rel_path known [] = []
  edges language rel_path known ((module_name, line) ∷ raw) =
      record {
        from_path = rel_path;
        module_name = module_name;
        to_path = resolve_import language module_name rel_path known;
        line = line;
      }
      ∷ edges language rel_path known raw

  abbrev pub of_content : Text → Text → Text → List Text → Option Text → Result FileIndex
  unfolding edges
  of_content rel_path label variant known none = err Error.os_error
  of_content rel_path label variant known (some content) =
      let extracted = extract rel_path content variant in
      ok (record {
        path = rel_path;
        language = label;
        content_hash = hex (sha256 (utf8 content));
        symbols = extracted.symbols;
        references = extracted.references;
        imports = edges label rel_path known extracted.raw_imports;
      })

  abbrev pub of_language : Text → List Text → Option (Text × Text) → Option Text → Result FileIndex
  of_language rel_path known none content = err Error.value_error
  of_language rel_path known (some (label, variant)) content =
      of_content rel_path label variant known content

  -- `index_file`, but for the count of parses
  unfoldable pub index_file : FilePath → Fs → List Text → Text → Result FileIndex
  unfolding edges detect_language
  index_file root fs known rel_path =
      of_language rel_path known (detect_language rel_path) (read fs (join root rel_path))

  -- one more file is indexed: `files_parsed` counts it where its bytes were read
  abbrev pub add_file :
      Result FileIndex → (Index → ℕ → Result Index × ℕ) → Index → ℕ → Result Index × ℕ
  add_file (ok fi) next files parsed = next (put_file fi files) (suc parsed)
  add_file (err e) next files parsed = (err e, parsed)

  pub build_with : (Text → Result FileIndex) → List Text → Index → ℕ → Result Index × ℕ
  build_with indexed [] files parsed = (ok files, parsed)
  build_with indexed (path ∷ paths) files parsed =
      add_file (indexed path) (build_with indexed paths) files parsed

  -- `build`, from a count of parses on
  unfoldable pub build : FilePath → Fs → ℕ → Result Index × ℕ
  unfolding build_with index_file to_set
  build root fs parsed =
      let paths = discover root fs in
      build_with (index_file root fs (to_set paths [])) paths [] parsed

  unfoldable pub reindex_file : Index → FilePath → Fs → Text → ℕ → Result Index × ℕ
  unfolding index_file add_path
  reindex_file files root fs rel_path parsed =
      let known = add_path rel_path (keys files) in
      if not (is_file fs (join root rel_path))
      then (ok (drop_file rel_path files), parsed)
      else add_file (index_file root fs known rel_path) (λ files' parsed'. (ok files', parsed'))
          files parsed
