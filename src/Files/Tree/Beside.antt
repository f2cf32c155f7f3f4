-- ===== src/Files/Tree/Beside.antt =====
-- A file beside the directory that a copy fills: it can be opened for writing again after the copy, and
-- opening it again changes nothing.
use agentic_code_intelligenc.Prelude.{
  Bool, true, false, ◌||◌, none, some, List, [], ◌∷◌, ◌++◌, any, map, filter, if◌then◌else◌, Text,
  text_eq, text_eq_refl, text_eq_iff, ◌≡◌, append-nil, ◌∙◌, refl, ap, arith, Option-cases,
  Bool-cases, inl, inr,
}
use agentic_code_intelligenc.Common.{ok}
use agentic_code_intelligenc.Files.Paths.{
  FilePath, path_eq, path_eq_iff, strip, is_under, parent, parent-append, strip-append,
}
use agentic_code_intelligenc.Files.Tree.{
  Fs, lookup, store, store_all, moved, read, is_dir, blocked, write, lookup-store_self, takes_file,
  takes_dir, bare, copied_dirs, copytree, read-copytree_outside,
}

module _ (x y : Text) (unlike : text_eq x y ≡ false) where
  strip_sibling : (d q : FilePath) → strip (d ++ x ∷ []) ((d ++ y ∷ []) ++ q) ≡ none
  unfolding strip
  strip_sibling [] q = rw unlike refl
  strip_sibling (a ∷ d) q = rw (text_eq_refl a) (strip_sibling d q)

  pub path_eq_sibling : (d q : FilePath) → path_eq (d ++ x ∷ []) ((d ++ y ∷ []) ++ q) ≡ false
  unfolding path_eq
  path_eq_sibling [] q = rw unlike refl
  path_eq_sibling (a ∷ d) q = rw (text_eq_refl a) (path_eq_sibling d q)

  strip_back : (d q : FilePath) → strip ((d ++ y ∷ []) ++ q) (d ++ x ∷ []) ≡ none
  unfolding strip
  strip_back [] q = ground (arith, unlike, text_eq_iff x y, text_eq_iff y x)
  strip_back (a ∷ d) q = rw (text_eq_refl a) (strip_back d q)

strip_self : (p : FilePath) → strip p p ≡ some []
unfolding strip
strip_self [] = refl
strip_self (a ∷ p) = rw (text_eq_refl a) (strip_self p)

under_self : (p : FilePath) → is_under p p ≡ false
unfolding is_under
under_self p = rw (is_under, strip_self p) refl

under_parent : (d : FilePath) (x : Text) → is_under d (d ++ x ∷ []) ≡ true
unfolding is_under
under_parent d x = rw (is_under, strip-append d (x ∷ [])) refl

under_none : (p q : FilePath) → strip p q ≡ none → is_under p q ≡ false
unfolding is_under
under_none p q h = rw (is_under, h) refl

strip_parent : (d : FilePath) (x : Text) → strip (d ++ x ∷ []) d ≡ none
unfolding strip
strip_parent [] x = refl
strip_parent (a ∷ d) x = rw (text_eq_refl a) (strip_parent d x)

path_eq_parent : (d : FilePath) (x : Text) → path_eq (d ++ x ∷ []) d ≡ false
unfolding path_eq
path_eq_parent [] x = refl
path_eq_parent (a ∷ d) x = rw (text_eq_refl a) (path_eq_parent d x)

-- a test of paths that fails on what is new and on what was there fails on all
any-store :
    (t : FilePath → Bool) (p : FilePath) (c : Text) (l : List (FilePath × Text))
    → t p ≡ false
    → any (λ f. t f.0) l ≡ false
    → any (λ f. t f.0) (store p c l) ≡ false
unfolding store
any-store t p c [] h k = ground (arith, h)
any-store t p c (f ∷ l) h k = ground (arith, h, k, any-store t p c l)

any-store_all :
    (t : FilePath → Bool) (new l : List (FilePath × Text))
    → any (λ f. t f.0) new ≡ false
    → any (λ f. t f.0) l ≡ false
    → any (λ f. t f.0) (store_all new l) ≡ false
unfolding store_all
any-store_all t [] l h k = k
any-store_all t (f ∷ new) l h k =
    any-store_all t new (store f.0 f.1 l) (ground (arith, h))
      (any-store t f.0 f.1 l (ground (arith, h)) k)

any-filter :
    {A : Type 0} (t p : A → Bool) (l : List A) → any t l ≡ false → any t (filter p l) ≡ false
any-filter t p [] h = refl
any-filter t p (a ∷ l) h = ground (arith, h, any-filter t p l)

any-moved :
    (t : FilePath → Bool) (ignored : Text → Bool) (src dst : FilePath) (l : List (FilePath × Text))
    → ((q : FilePath) → t (dst ++ q) ≡ false)
    → any (λ f. t f.0) (moved ignored src dst l) ≡ false
unfolding moved
any-moved t ignored src dst [] h = refl
any-moved t ignored src dst ((p, c) ∷ l) h = elim (Option-cases (strip src p)) [
  | inl apart ↦ rw (apart, moved) (any-moved t ignored src dst l h)
  | inr (r, below) ↦ rw (below, moved) (ground (arith, h r, any-moved t ignored src dst l h))
]

any-map_path :
    (t : FilePath → Bool) (l : List (FilePath × Text))
    → any t (map (λ f. f.0) l) ≡ any (λ f. t f.0) l
any-map_path t [] = refl
any-map_path t (f ∷ l) = rw (any-map_path t l) refl

any-append_false :
    {A : Type 0} (t : A → Bool) (l k : List A)
    → any t l ≡ false
    → any t k ≡ false
    → any t (l ++ k) ≡ false
any-append_false t [] k h h' = h'
any-append_false t (a ∷ l) k h h' = ground (arith, h, any-append_false t l k)

store_same :
    (p : FilePath) (c : Text) (l : List (FilePath × Text)) → lookup p l ≡ some c → store p c l ≡ l
unfolding lookup store
store_same p c [] h = cc
store_same p c ((q, d) ∷ l) h = elim (Bool-cases (path_eq q p)) [
  | inl e ↦
      let h' : some d ≡ some c = rw e at h in
      let same : d ≡ c = cc in rw e (rw (same, (path_eq_iff q p).0 e) refl)
  | inr e ↦ rw e (ap (λ k. (q, d) ∷ k) (store_same p c l (rw e at h)))
]

any-lookup :
    (t : FilePath → Bool) (p : FilePath) (c : Text) (l : List (FilePath × Text))
    → lookup p l ≡ some c
    → t p ≡ true
    → any (λ f. t f.0) l ≡ true
unfolding lookup
any-lookup t p c [] h k = cc
any-lookup t p c ((q, d) ∷ l) h k = elim (Bool-cases (path_eq q p)) [
  | inl e ↦ let same : t q ≡ true = rw ((path_eq_iff q p).0 e) k in rw same refl
  | inr e ↦ ground (arith, any-lookup t p c l (rw e at h) k)
]

module _ (d : FilePath) (x y : Text) (unlike : text_eq x y ≡ false) where
  abbrev file : FilePath
  file = d ++ x ∷ []

  abbrev filled : FilePath
  filled = d ++ y ∷ []

  -- what a directory test of the file asks of a path
  abbrev above : FilePath → Bool
  above p = path_eq file p || is_under file p

  above_filled : (q : FilePath) → above (filled ++ q) ≡ false
  above_filled q =
      rw
        (
          path_eq_sibling x y unlike d q,
          under_none file (filled ++ q) (strip_sibling x y unlike d q),
        )
        refl

  above_parent : above d ≡ false
  above_parent = rw (path_eq_parent d x, under_none file d (strip_parent d x)) refl

  -- nothing stands below the file, and no file above it
  record IsOpen (fs : Fs) : Type 0 where
    pub no_dir : any above fs.dirs ≡ false
    pub no_below : any (λ f. is_under file f.0) fs.files ≡ false
    pub no_above : any (λ f. is_under f.0 file) fs.files ≡ false
    pub empty : lookup file fs.files ≡ some []

  IsOpen-write : (fs fs' : Fs) → write file [] fs ≡ ok fs' → IsOpen fs'
  unfolding write is_dir blocked
  IsOpen-write fs fs' h = elim (Bool-cases (is_dir fs file || blocked fs file)) [
    | inl taken ↦ let h' = rw taken at h in cc
    | inr free ↦
        let e : fs' ≡ record fs {
          files = store file [] fs.files;
          dirs = if is_dir fs (parent file) then fs.dirs else parent file ∷ fs.dirs;
        } =
          let h' = rw free at h in cc in
        let no_dir : any above fs.dirs ≡ false = ground (arith, free) in
        let no_below : any (λ f. is_under file f.0) fs.files ≡ false = ground (arith, free) in
        let no_above : any (λ f. is_under f.0 file) fs.files ≡ false = ground (arith, free) in
        rw e (record {
          no_dir = still (is_dir fs (parent file)) no_dir;
          no_below = any-store (λ p. is_under file p) file [] fs.files (under_self file) no_below;
          no_above = any-store (λ p. is_under p file) file [] fs.files (under_self file) no_above;
          empty = lookup-store_self file [] fs.files;
        })
  ]
    where
      still :
          (b : Bool)
          → any above fs.dirs ≡ false
          → any above (if b then fs.dirs else parent file ∷ fs.dirs) ≡ false
      still true h = h
      still false h = rw (parent-append d x) (rw above_parent h)

  IsOpen-copytree :
      (ignored : Text → Bool) (src : FilePath) (fs : Fs)
      → IsOpen fs
      → IsOpen (copytree ignored src filled fs).1
  unfolding copytree copied_dirs read
  IsOpen-copytree ignored src fs h =
      let files = moved ignored src filled fs.files in
      let kept = filter (λ f. takes_file fs f.0) files in
      let below = moved ignored src filled (map bare fs.dirs) in
      let apart : strip filled file ≡ none =
        rw (← append-nil filled) (strip_back x y unlike d []) in
      let first : above filled ≡ false = rw (← append-nil filled) (above_filled []) in
      let rest : any above (map (λ f. f.0) below) ≡ false =
        any-map_path above below
        ∙ any-moved above ignored src filled (map bare fs.dirs) above_filled in
      let dirs : any above (filled ∷ map (λ f. f.0) below) ≡ false = rw (first, rest) refl in
      record {
        no_dir =
            any-append_false above (filter (takes_dir fs) (filled ∷ map (λ f. f.0) below)) fs.dirs
              (any-filter above (takes_dir fs) (filled ∷ map (λ f. f.0) below) dirs) h.no_dir;
        no_below =
            any-store_all (λ p. is_under file p) kept fs.files
              (any-filter (λ f. is_under file f.0) _ files
                (any-moved (λ p. is_under file p) ignored src filled fs.files
                  λ q. under_none file (filled ++ q) (strip_sibling x y unlike d q)))
              h.no_below;
        no_above =
            any-store_all (λ p. is_under p file) kept fs.files
              (any-filter (λ f. is_under f.0 file) _ files
                (any-moved (λ p. is_under p file) ignored src filled fs.files
                  λ q. under_none (filled ++ q) file (strip_back x y unlike d q)))
              h.no_above;
        empty = read-copytree_outside ignored src filled file fs apart ∙ h.empty;
      }

  write-IsOpen : (fs : Fs) → IsOpen fs → write file [] fs ≡ ok fs
  unfolding write is_dir blocked
  write-IsOpen fs h =
      let there : is_dir fs (parent file) ≡ true = rw (parent-append d x) (
        ground
          (arith, any-lookup (λ p. is_under d p) file [] fs.files h.empty (under_parent d x))) in
      rw (h.no_dir, h.no_below, h.no_above, there, store_same file [] fs.files h.empty) refl

  -- Once opened for writing, the file can be opened so again after a copy into the other directory, and
  -- that changes nothing.
  pub write-copytree :
      (ignored : Text → Bool) (src : FilePath) (fs fs' : Fs)
      → write file [] fs ≡ ok fs'
      → write file [] (copytree ignored src filled fs').1 ≡ ok (copytree ignored src filled fs').1
  write-copytree ignored src fs fs' h =
      write-IsOpen _ (IsOpen-copytree ignored src fs' (IsOpen-write fs fs' h))
