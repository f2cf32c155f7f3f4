-- ===== src/Files/Tree.antt =====
-- Reading, writing and copying files.
pub mod Beside
use agentic_code_intelligenc.Prelude.{
  Bool, true, false, not, ◌&&◌, ◌||◌, all, filter, map, Option, none, some, is_some, List, [], ◌∷◌,
  ◌++◌, any, if◌then◌else◌, Text, ◌≡◌, ◌≢◌, refl, arith, Option-cases, inl, inr,
}
use agentic_code_intelligenc.Common.{Error, Result, ok, err}
use agentic_code_intelligenc.Files.Paths.{
  FilePath, path_eq, path_eq_iff, strip, is_under, parent, strip-append, append-strip,
}

pub record Fs : Type 0 where
  pub files : List (FilePath × Text)
  pub dirs : List FilePath

lookup : FilePath → List (FilePath × Text) → Option Text
lookup p [] = none
lookup p ((q, c) ∷ l) = if path_eq q p then some c else lookup p l

store : FilePath → Text → List (FilePath × Text) → List (FilePath × Text)
store p c [] = (p, c) ∷ []
store p c ((q, d) ∷ l) = if path_eq q p then (p, c) ∷ l else (q, d) ∷ store p c l

erase : FilePath → List (FilePath × Text) → List (FilePath × Text)
erase p [] = []
erase p ((q, d) ∷ l) = let rest = erase p l in if path_eq q p then rest else (q, d) ∷ rest

unfoldable pub read : Fs → FilePath → Option Text
unfolding lookup
read fs p = lookup p fs.files

unfoldable pub is_file : Fs → FilePath → Bool
unfolding read
is_file fs p = is_some (read fs p)

unfoldable pub is_dir : Fs → FilePath → Bool
is_dir fs p = any (λ d. path_eq p d || is_under p d) fs.dirs || any (λ f. is_under p f.0) fs.files

-- a file stands where the path wants a directory
blocked : Fs → FilePath → Bool
blocked fs p = any (λ f. is_under f.0 p) fs.files

-- `p.parent.mkdir(parents=True, exist_ok=True)` and `p.write_text(c)`
unfoldable pub write : FilePath → Text → Fs → Result Fs
unfolding store blocked
write p c fs =
    if is_dir fs p || blocked fs p
    then err Error.os_error
    else ok (record fs {
      files = store p c fs.files;
      dirs = if is_dir fs (parent p) then fs.dirs else parent p ∷ fs.dirs;
    })

-- `p.unlink(missing_ok=True)`
unfoldable pub unlink : FilePath → Fs → Result Fs
unfolding erase
unlink p fs =
    if is_dir fs p then err Error.os_error else ok (record fs { files = erase p fs.files })

-- the files of `l` below `src` whose path below it has no component in `ignored`, moved below `dst`
moved : (Text → Bool) → FilePath → FilePath → List (FilePath × Text) → List (FilePath × Text)
moved ignored src dst [] = []
moved ignored src dst ((p, c) ∷ l) =
    let rest = moved ignored src dst l in
    elim (strip src p) [
      | none ↦ rest
      | some q ↦ if any ignored q then rest else (dst ++ q, c) ∷ rest
    ]

store_all : List (FilePath × Text) → List (FilePath × Text) → List (FilePath × Text)
store_all [] l = l
store_all ((p, c) ∷ new) l = store_all new (store p c l)

-- whether a file, or a directory, can stand at the path
takes_file : Fs → FilePath → Bool
unfolding blocked
takes_file fs p = not (is_dir fs p) && not (blocked fs p)

takes_dir : Fs → FilePath → Bool
unfolding blocked
takes_dir fs p = not (is_file fs p) && not (blocked fs p)

abbrev bare : FilePath → FilePath × Text
bare p = (p, [])

-- the directories that a copy makes: `dst`, and what stands below `src`
copied_dirs : (Text → Bool) → FilePath → FilePath → List FilePath → List FilePath
unfolding moved
copied_dirs ignored src dst dirs = dst ∷ map (λ f. f.0) (moved ignored src dst (map bare dirs))

-- `shutil.copytree(src, dst, dirs_exist_ok=True, ignore=...)`; what stands below `dst` and not below
-- `src` stays. Where a file and a directory clash, the rest is copied all the same, and an error is
-- raised at the end.
unfoldable pub copytree : (Text → Bool) → FilePath → FilePath → Fs → Result (Unit {0}) × Fs
unfolding moved store store_all takes_file takes_dir copied_dirs
copytree ignored src dst fs =
    let files = moved ignored src dst fs.files in
    let dirs = copied_dirs ignored src dst fs.dirs in
    (
      if all (λ f. takes_file fs f.0) files && all (takes_dir fs) dirs
          then ok tt
          else err Error.os_error,
      record fs {
        files = store_all (filter (λ f. takes_file fs f.0) files) fs.files;
        dirs = filter (takes_dir fs) dirs ++ fs.dirs;
      },
    )

-- `rglob("*")`, the files alone, with their paths below `root`
unfoldable pub rglob : FilePath → Fs → List (FilePath × Text)
unfolding moved
rglob root fs = moved (λ _. false) root [] fs.files

lookup-store_self :
    (p : FilePath) (c : Text) (l : List (FilePath × Text)) → lookup p (store p c l) ≡ some c
unfolding lookup store
lookup-store_self p c [] = ground (arith, path_eq_iff p p)
lookup-store_self p c (f ∷ l) = ground (arith, path_eq_iff p p, lookup-store_self p c l)

lookup-store_ne :
    (p q : FilePath) (c : Text) (l : List (FilePath × Text))
    → q ≢ p
    → lookup q (store p c l) ≡ lookup q l
unfolding lookup store
lookup-store_ne p q c [] h = ground (arith, path_eq_iff p q)
lookup-store_ne p q c (f ∷ l) h =
    ground (arith, path_eq_iff p q, path_eq_iff f.0 q, path_eq_iff f.0 p, lookup-store_ne p q c l)

lookup-erase_ne :
    (p q : FilePath) (l : List (FilePath × Text)) → q ≢ p → lookup q (erase p l) ≡ lookup q l
unfolding lookup erase
lookup-erase_ne p q [] h = refl
lookup-erase_ne p q (f ∷ l) h =
    ground (arith, path_eq_iff f.0 q, path_eq_iff f.0 p, lookup-erase_ne p q l)

-- After a write the file holds the text.
pub read-write_self :
    (p : FilePath) (c : Text) (fs fs' : Fs) → write p c fs ≡ ok fs' → read fs' p ≡ some c
unfolding read write
read-write_self p c fs fs' h = ground (arith, lookup-store_self p c fs.files)

pub read-write_ne :
    (p q : FilePath) (c : Text) (fs fs' : Fs)
    → write p c fs ≡ ok fs'
    → q ≢ p
    → read fs' q ≡ read fs q
unfolding read write
read-write_ne p q c fs fs' h other = ground (arith, lookup-store_ne p q c fs.files)

pub read-unlink_ne :
    (p q : FilePath) (fs fs' : Fs) → unlink p fs ≡ ok fs' → q ≢ p → read fs' q ≡ read fs q
unfolding read unlink
read-unlink_ne p q fs fs' h other = ground (arith, lookup-erase_ne p q fs.files)

-- A file keeps its text under a copy if no copied file has its path.
lookup-store_all :
    (new l : List (FilePath × Text)) (q : FilePath)
    → lookup q new ≡ none
    → lookup q (store_all new l) ≡ lookup q l
unfolding lookup store_all
lookup-store_all [] l q h = refl
lookup-store_all (f ∷ new) l q h = ground (
  arith,
  path_eq_iff f.0 q,
  lookup-store_all new (store f.0 f.1 l) q,
  lookup-store_ne f.0 q f.1 l,
)

-- what a copy brings to a path outside `dst`: nothing
moved_outside :
    (ignored : Text → Bool) (src dst q : FilePath) (l : List (FilePath × Text))
    → strip dst q ≡ none
    → lookup q (moved ignored src dst l) ≡ none
unfolding lookup moved
moved_outside ignored src dst q [] h = refl
moved_outside ignored src dst q ((p, c) ∷ l) h = elim (Option-cases (strip src p)) [
  | inl apart ↦ rw (apart, moved) (moved_outside ignored src dst q l h)
  | inr (r, below) ↦
      rw (below, moved)
        (ground (
          arith,
          moved_outside ignored src dst q l h,
          path_eq_iff (dst ++ r) q,
          strip-append dst r,
        ))
]

lookup-filter :
    (p : FilePath × Text → Bool) (q : FilePath) (l : List (FilePath × Text))
    → lookup q l ≡ none
    → lookup q (filter p l) ≡ none
unfolding lookup
lookup-filter p q [] h = refl
lookup-filter p q (f ∷ l) h = ground (arith, h, lookup-filter p q l)

-- A copy changes no file outside the directory that it fills.
pub read-copytree_outside :
    (ignored : Text → Bool) (src dst q : FilePath) (fs : Fs)
    → strip dst q ≡ none
    → read (copytree ignored src dst fs).1 q ≡ read fs q
unfolding read copytree takes_file
read-copytree_outside ignored src dst q fs h =
    lookup-store_all (filter (λ f. takes_file fs f.0) (moved ignored src dst fs.files)) fs.files q (
      lookup-filter _ q (moved ignored src dst fs.files)
        (moved_outside ignored src dst q fs.files h))

-- A file below the directory that the copied tree does not hold stays as it was.
moved_absent :
    (ignored : Text → Bool) (src dst q : FilePath) (l : List (FilePath × Text))
    → lookup (src ++ q) l ≡ none
    → lookup (dst ++ q) (moved ignored src dst l) ≡ none
unfolding lookup moved
moved_absent ignored src dst q [] h = refl
moved_absent ignored src dst q ((p, c) ∷ l) h = elim (Option-cases (strip src p)) [
  | inl apart ↦ rw (apart, moved) (moved_absent ignored src dst q l (ground arith))
  | inr (r, below) ↦
      rw (below, moved)
        (ground (
          arith,
          moved_absent ignored src dst q l,
          path_eq_iff (dst ++ r) (dst ++ q),
          path_eq_iff p (src ++ q),
          append-strip src p r below,
          strip-append dst r,
          strip-append dst q,
        ))
]

pub read-copytree_absent :
    (ignored : Text → Bool) (src dst q : FilePath) (fs : Fs)
    → read fs (src ++ q) ≡ none
    → read (copytree ignored src dst fs).1 (dst ++ q) ≡ read fs (dst ++ q)
unfolding read copytree takes_file
read-copytree_absent ignored src dst q fs h =
    lookup-store_all (filter (λ f. takes_file fs f.0) (moved ignored src dst fs.files)) fs.files
      (dst ++ q)
      (lookup-filter _ (dst ++ q) (moved ignored src dst fs.files)
        (moved_absent ignored src dst q fs.files h))
