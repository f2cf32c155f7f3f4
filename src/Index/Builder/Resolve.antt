-- ===== src/Index/Builder/Resolve.antt =====
-- The import resolution of index/builder.py, against the set of the repository's paths.
use agentic_code_intelligenc.Prelude.{
  ◌+◌, ◌-◌, ◌==◌, ltb, Bool, ◌||◌, Option, none, some, List, [], ◌∷◌, ◌++◌, any, take, length,
  sorted, if◌then◌else◌, Text, codes, text_eq, text_lt, starts_with, ends_with, lstrip, split_on,
  join_with,
}
use agentic_code_intelligenc.Files.{FilePath, parts, parent, as_posix}

-- `path in known_paths`
unfoldable pub in_paths : Text → List Text → Bool
in_paths path known = any (λ q. text_eq q path) known

unfoldable pub first_match : List Text → List Text → Option Text
unfolding in_paths
first_match [] known = none
first_match (c ∷ candidates) known =
    let rest = first_match candidates known in if in_paths c known then some c else rest

-- one entry for each suffix that `path` ends with, on a boundary of its components
abbrev suffix_hits : Text → List Text → List Text
suffix_hits path [] = []
suffix_hits path (suffix ∷ suffixes) =
    let rest = suffix_hits path suffixes in
    if text_eq path suffix || ends_with (b'/' ∷ suffix) path then path ∷ rest else rest

abbrev all_hits : List Text → List Text → List Text
all_hits suffixes [] = []
all_hits suffixes (path ∷ known) = suffix_hits path suffixes ++ all_hits suffixes known

abbrev head : List Text → Option Text
head [] = none
head (x ∷ xs) = some x

abbrev python_candidates : Text → List Text
python_candidates stem = (stem ++ codes ".py") ∷ (stem ++ codes "/__init__.py") ∷ []

abbrev pieces : Text → List Text
pieces [] = []
pieces (c ∷ s) = split_on b'.' (c ∷ s)

-- a module with leading dots: one is the importer's package, each further one goes a directory up
abbrev resolve_relative : Text → Text → List Text → Option Text
resolve_relative module_name from_path known =
    let rest = lstrip (λ c. c == b'.') module_name in
    let level = length module_name - length rest in
    let base = parent (parts from_path) in
    let keep = length base + 1 - level in
    if ltb (length base + 1) level
    then none
    else first_match (python_candidates (join_with (codes "/") (take keep base ++ pieces rest)))
        known

unfoldable pub resolve_python : Text → Text → List Text → Option Text
unfolding first_match
resolve_python module_name from_path known =
    if starts_with (codes ".") module_name
    then resolve_relative module_name from_path known
    else head (
        sorted text_lt
          (all_hits (python_candidates (join_with (codes "/") (split_on b'.' module_name))) known))

-- the walk of a relative TypeScript module from a directory
unfoldable pub walk : FilePath → List Text → FilePath
walk target [] = target
walk target (part ∷ more) =
    walk
      (if text_eq part [] || text_eq part (codes ".")
        then target
        else if text_eq part (codes "..")
        then parent target
        else target ++ part ∷ [])
      more

-- `target.as_posix()`: the empty path is `.`
abbrev posix : FilePath → Text
posix [] = codes "."
posix (a ∷ p) = as_posix (a ∷ p)

unfoldable pub resolve_typescript : Text → Text → List Text → Option Text
unfolding first_match walk
resolve_typescript module_name from_path known =
    let stem = posix (walk (parent (parts from_path)) (split_on b'/' module_name)) in
    if starts_with (codes ".") module_name
    then first_match
        (stem
          ∷ (stem ++ codes ".ts")
          ∷ (stem ++ codes ".tsx")
          ∷ (stem ++ codes "/index.ts")
          ∷ (stem ++ codes "/index.tsx")
          ∷ [])
        known
    else none

unfoldable pub resolve_import : Text → Text → Text → List Text → Option Text
unfolding resolve_python resolve_typescript
resolve_import language module_name from_path known =
    if text_eq language (codes "python")
    then resolve_python module_name from_path known
    else resolve_typescript module_name from_path known
