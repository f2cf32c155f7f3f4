-- ===== src/Index.antt =====
-- The structural index of index/model.py: partitions by file, and the queries derived from them.
pub mod Partitions
pub mod Builder
use agentic_code_intelligenc.Prelude.{
  ℕ, ◌==◌, ltb, Bool, true, false, ◌&&◌, ◌||◌, Option, none, some, List, [], ◌∷◌, ◌++◌, map, filter,
  sorted, if◌then◌else◌, Text, text_eq, text_lt,
}

-- A defined symbol, with its span. `kind` is one of five words.
pub record CodeSymbol : Type 0 where
  pub name : Text
  pub kind : Text
  pub language : Text
  pub file_path : Text
  pub start_line : ℕ
  pub end_line : ℕ
  pub start_col : ℕ
  pub end_col : ℕ

pub record Reference : Type 0 where
  pub name : Text
  pub language : Text
  pub file_path : Text
  pub line : ℕ
  pub col : ℕ
  pub ref_kind : Text

pub record ImportEdge : Type 0 where
  pub from_path : Text
  pub module_name : Text
  pub to_path : Option Text
  pub line : ℕ

pub record FileIndex : Type 0 where
  pub path : Text
  pub language : Text
  pub content_hash : Text
  pub symbols : List CodeSymbol
  pub references : List Reference
  pub imports : List ImportEdge

-- `Index.files`: a dict from the path, in the order of insertion
abbrev pub Index : Type 0
Index = List FileIndex

-- `files[fi.path] = fi`: in place where the key is there, behind the others where it is not
unfoldable pub put_file : FileIndex → Index → Index
put_file fi [] = fi ∷ []
put_file fi (x ∷ files) =
    let rest = put_file fi files in if text_eq x.path fi.path then fi ∷ files else x ∷ rest

unfoldable pub drop_file : Text → Index → Index
drop_file path files = filter (λ fi. if text_eq fi.path path then false else true) files

-- the order of a tuple: the first difference decides
abbrev pub then_by : Bool → Bool → Bool → Bool
then_by less more rest = if less then true else if more then false else rest

abbrev by_text : Text → Text → Bool → Bool
by_text a b rest = then_by (text_lt a b) (text_lt b a) rest

abbrev by_nat : ℕ → ℕ → Bool → Bool
by_nat a b rest = then_by (ltb a b) (ltb b a) rest

-- `(s.file_path, *s.sort_key())`
abbrev symbol_lt : CodeSymbol → CodeSymbol → Bool
symbol_lt a b = by_text a.file_path b.file_path (
    by_nat a.start_line b.start_line
      (by_nat a.start_col b.start_col (by_text a.name b.name (text_lt a.kind b.kind))))

abbrev reference_lt : Reference → Reference → Bool
reference_lt a b = by_text a.file_path b.file_path (
    by_nat a.line b.line
      (by_nat a.col b.col (by_text a.name b.name (text_lt a.ref_kind b.ref_kind))))

unfoldable pub symbols_of : Index → List CodeSymbol
symbols_of [] = []
symbols_of (fi ∷ files) = fi.symbols ++ symbols_of files

unfoldable pub all_symbols : Index → List CodeSymbol
unfolding symbols_of
all_symbols files = sorted symbol_lt (symbols_of files)

-- `language is None or x.language == language`
abbrev pub in_language : Option Text → Text → Bool
in_language none l = true
in_language (some language) l = text_eq l language

unfoldable pub definitions : Text → Option Text → Index → List CodeSymbol
unfolding all_symbols
definitions name language files =
    filter (λ s. text_eq s.name name && in_language language s.language) (all_symbols files)

unfoldable pub references_in : Index → List Reference
references_in [] = []
references_in (fi ∷ files) = fi.references ++ references_in files

unfoldable pub references_of : Text → Option Text → Index → List Reference
unfolding references_in
references_of name language files =
    sorted reference_lt
      (filter (λ r. text_eq r.name name && in_language language r.language) (references_in files))
