-- ===== src/Index/Builder/Incremental.antt =====
-- The equivalence that index/builder.py promises: after an edit of one file, the index that is brought up
-- to date for that file is the one that a full build makes.
use agentic_code_intelligenc.Prelude.{
  ℕ, suc, ◌+◌, true, false, Option, none, some, is_some, List, [], ◌∷◌, All, length, Text, text_eq,
  text_eq_iff, ◌≡◌, ◌≢◌, refl, sym, ap, ◌∙◌, arith, Bool-cases, inl, inr,
}
use agentic_code_intelligenc.Common.{Result, ok, Result-cases}
use agentic_code_intelligenc.Files.{FilePath, Fs, join, read, is_file}
use agentic_code_intelligenc.Index.{FileIndex, Index, put_file}
use agentic_code_intelligenc.Index.Partitions.{has, has-put_file, put_file_twice, put_file_comm}
use agentic_code_intelligenc.Index.Builder.{
  Extracted, detect_language, discover, add_path, to_set, keys, of_content, of_language, index_file,
  build_with, build, reindex_file,
}
use agentic_code_intelligenc.Index.Builder.Members.{mem, add_path_same, mem-to_set, keys-put_file}

module _ (sha256 : List ℕ → List ℕ) (extract : Text → Text → Text → Extracted) where
  -- the paths of the partitions are those of the files
  abbrev NamesPath : (Text → Result FileIndex) → Type 0
  NamesPath indexed = (path : Text) (fi : FileIndex) → indexed path ≡ ok fi → fi.path ≡ path

  module _ (f : Text → Result FileIndex) (names : NamesPath f) where
    keys-build_with :
        (paths : List Text) (files files' : Index) (n : ℕ)
        → (build_with sha256 extract f paths files n).0 ≡ ok files'
        → keys files' ≡ to_set paths (keys files)
    unfolding build_with to_set
    keys-build_with [] files files' n h = let e : files ≡ files' = cc in rw (sym e) refl
    keys-build_with (p ∷ paths) files files' n h = elim (Result-cases (f p)) [
      | inr (e, bad) ↦ let h' = rw bad at h in cc
      | inl (fi, good) ↦
          let h' = rw good at h in
          keys-build_with paths (put_file fi files) files' (suc n) h'
          ∙ ap (to_set paths)
              (keys-put_file fi files ∙ ap (λ q. add_path q (keys files)) (names p fi good))
    ]

  -- every file of a build that succeeds was indexed, and counted
  indexed_in_build :
      (f : Text → Result FileIndex) (path : Text) (paths : List Text) (files files' : Index) (n : ℕ)
      → mem path paths ≡ true
      → (build_with sha256 extract f paths files n).0 ≡ ok files'
      → (fi : FileIndex) × (f path ≡ ok fi)
  unfolding build_with
  indexed_in_build f path [] files files' n here h = cc
  indexed_in_build f path (p ∷ paths) files files' n here h = elim (Result-cases (f p)) [
    | inr (e, bad) ↦ let h' = rw bad at h in cc
    | inl (fi, good) ↦ elim (Bool-cases (text_eq p path)) [
      | inl e ↦ let same : p ≡ path = ground (arith, e, text_eq_iff p path) in (fi, rw same at good)
      | inr other ↦
          let h' = rw good at h in
          indexed_in_build f path paths (put_file fi files) files' (suc n) (rw other at here) h'
    ]
  ]

  build_with_parsed :
      (f : Text → Result FileIndex) (paths : List Text) (files files' : Index) (n : ℕ)
      → (build_with sha256 extract f paths files n).0 ≡ ok files'
      → (build_with sha256 extract f paths files n).1 ≡ n + length paths
  unfolding build_with
  build_with_parsed f [] files files' n h = omega arith
  build_with_parsed f (p ∷ paths) files files' n h = elim (Result-cases (f p)) [
    | inr (e, bad) ↦ let h' = rw bad at h in cc
    | inl (fi, good) ↦
        let h' = rw good at h in
        let k = build_with_parsed f paths (put_file fi files) files' (suc n) h' in
        rw good (omega (arith, k))
  ]

  -- two readings of the files, which differ at one path only
  module _ (f f' : Text → Result FileIndex) (names : NamesPath f) (rel : Text) (fi : FileIndex)
      (named : fi.path ≡ rel) (edited : f' rel ≡ ok fi) where
    abbrev Untouched : List Text → Type 0
    Untouched paths = All (λ path. path ≢ rel → f' path ≡ f path) paths

    build_with-put_file :
        (paths : List Text) (files files' : Index) (n m : ℕ)
        → Untouched paths
        → has rel files ≡ true
        → (build_with sha256 extract f paths files n).0 ≡ ok files'
        → (build_with sha256 extract f' paths (put_file fi files) m).0 ≡ ok (put_file fi files')
    unfolding build_with
    build_with-put_file [] files files' n m others there h =
        let e : files ≡ files' = cc in rw e refl
    build_with-put_file (p ∷ paths) files files' n m others there h = elim (Result-cases (f p)) [
      | inr (e, bad) ↦ let h' = rw bad at h in cc
      | inl (x, good) ↦
          let h' = rw good at h in
          let p_named : x.path ≡ p = names p x good in
          let there' : has rel (put_file x files) ≡ true =
            rw (has-put_file rel x files) (ground (arith, there)) in
          let ih =
            build_with-put_file paths (put_file x files) files' (suc n) (suc m) others.1 there'
              h' in
          elim (Bool-cases (text_eq p rel)) [
            | inl e ↦
                let same : p ≡ rel = ground (arith, e, text_eq_iff p rel) in
                let once : put_file fi (put_file x files) ≡ put_file fi (put_file fi files) =
                  put_file_twice fi x files (named ∙ sym (p_named ∙ same))
                  ∙ sym (put_file_twice fi fi files refl) in
                let fresh : f' p ≡ ok fi = rw same edited in rw fresh (rw once at ih)
            | inr e ↦
                let other : p ≢ rel = λ q. ground (arith, e, text_eq_iff p rel, q) in
                let apart : text_eq fi.path x.path ≡ false =
                  rw (named, p_named) (ground (arith, e, text_eq_iff p rel, text_eq_iff rel p)) in
                let swap = put_file_comm fi x files apart (rw named there) in
                let old : f' p ≡ ok x = others.0 other ∙ good in rw old (rw swap at ih)
          ]
    ]

    build_with_edited :
        (paths : List Text) (files files' : Index) (n m : ℕ)
        → Untouched paths
        → mem rel paths ≡ true
        → (build_with sha256 extract f paths files n).0 ≡ ok files'
        → (build_with sha256 extract f' paths files m).0 ≡ ok (put_file fi files')
    unfolding build_with
    build_with_edited [] files files' n m others here h = cc
    build_with_edited (p ∷ paths) files files' n m others here h = elim (Result-cases (f p)) [
      | inr (e, bad) ↦ let h' = rw bad at h in cc
      | inl (x, good) ↦
          let h' = rw good at h in
          let p_named : x.path ≡ p = names p x good in
          elim (Bool-cases (text_eq p rel)) [
            | inl e ↦
                let same : p ≡ rel = ground (arith, e, text_eq_iff p rel) in
                let there : has rel (put_file x files) ≡ true =
                  rw (has-put_file rel x files) (rw (p_named, e) refl) in
                let ih =
                  build_with-put_file paths (put_file x files) files' (suc n) (suc m) others.1 there
                    h' in
                let once = put_file_twice fi x files (named ∙ sym (p_named ∙ same)) in
                let fresh : f' p ≡ ok fi = rw same edited in rw fresh (rw once at ih)
            | inr e ↦
                let other : p ≢ rel = λ q. ground (arith, e, text_eq_iff p rel, q) in
                let old : f' p ≡ ok x = others.0 other ∙ good in
                rw old (
                  build_with_edited paths (put_file x files) files' (suc n) (suc m) others.1
                    (rw e at here) h')
          ]
    ]

  index_file_names :
      (root : FilePath) (fs : Fs) (known : List Text)
      → NamesPath (index_file sha256 extract root fs known)
  unfolding index_file
  index_file_names root fs known path fi h = ground (arith, h)

  index_file_same :
      (root : FilePath) (fs fs' : Fs) (known : List Text) (path : Text)
      → read fs' (join root path) ≡ read fs (join root path)
      → index_file sha256 extract root fs' known path ≡ index_file sha256 extract root fs known path
  unfolding index_file
  index_file_same root fs fs' known path e =
      ap (of_language sha256 extract path known (detect_language path)) e

  -- a file of a known language that is there is indexed
  of_language_ok :
      (path : Text) (known : List Text) (language : Option (Text × Text))
      (before after : Option Text) (x : FileIndex)
      → of_language sha256 extract path known language before ≡ ok x
      → is_some after ≡ true
      → (fi : FileIndex) × (of_language sha256 extract path known language after ≡ ok fi)
  unfolding of_content
  of_language_ok path known none before after x h there = cc
  of_language_ok path known (some l) before none x h there = cc
  of_language_ok path known (some l) before (some content) x h there = (_, refl)

  index_file_ok :
      (root : FilePath) (fs fs' : Fs) (known : List Text) (path : Text) (x : FileIndex)
      → index_file sha256 extract root fs known path ≡ ok x
      → is_file fs' (join root path) ≡ true
      → (fi : FileIndex) × (index_file sha256 extract root fs' known path ≡ ok fi)
  unfolding index_file is_file
  index_file_ok root fs fs' known path x h there =
      of_language_ok path known (detect_language path) (read fs (join root path))
        (read fs' (join root path)) x h there

  -- An edit of one file of the index, which changes the content of no other file of the index and not
  -- the set of paths: bringing the old index up to date for that file parses this file alone, and gives the very
  -- index that a full build of the edited tree gives, which parses all files.
  pub reindex_file-build :
      (root : FilePath) (fs fs' : Fs) (rel : Text) (files : Index) (n m : ℕ)
      → (build sha256 extract root fs n).0 ≡ ok files
      → discover root fs' ≡ discover root fs
      → mem rel (discover root fs) ≡ true
      → is_file fs' (join root rel) ≡ true
      → All
          (λ path. path ≢ rel → read fs' (join root path) ≡ read fs (join root path))
          (discover root fs)
      → (files' : Index) × (reindex_file sha256 extract files root fs' rel m ≡ (ok files', m + 1))
        × (build sha256 extract root fs' n ≡ (ok files', n + length (discover root fs)))
  unfolding build reindex_file
  reindex_file-build root fs fs' rel files n m built same_paths here there untouched =
      let paths = discover root fs in
      let f = index_file sha256 extract root fs known in
      let f' = index_file sha256 extract root fs' known in
      let (x, was) = indexed_in_build f rel paths [] files n here built in
      let (fi, edited) = index_file_ok root fs fs' known rel x was there in
      let named = index_file_names root fs' known rel fi edited in
      let all_keys : keys files ≡ known =
        keys-build_with f (index_file_names root fs known) paths [] files n built in
      let kept : add_path rel (keys files) ≡ known =
        rw all_keys (add_path_same rel known (mem-to_set rel paths [] here)) in
      let rebuilt =
        build_with_edited f f' (index_file_names root fs known) rel fi named edited paths [] files n
          n (unread paths untouched) here built in
      let brought : reindex_file sha256 extract files root fs' rel m
          ≡ (ok (put_file fi files), m + 1) =
        brought_up there kept edited in
      let parsed = build_with_parsed f' paths [] (put_file fi files) n rebuilt in
      (put_file fi files, brought, all_again rebuilt parsed)
    where
      known : List Text
      known = to_set (discover root fs) []

      unread :
          (paths : List Text)
          → All (λ path. path ≢ rel → read fs' (join root path) ≡ read fs (join root path)) paths
          → All
              (λ path.
                path ≢ rel
                → index_file sha256 extract root fs' known path
                  ≡ index_file sha256 extract root fs known path)
              paths
      unread [] h = tt
      unread (p ∷ paths) h =
          (λ other. index_file_same root fs fs' known p (h.0 other), unread paths h.1)

      brought_up :
          {known' : List Text} {fi : FileIndex}
          → is_file fs' (join root rel) ≡ true
          → add_path rel (keys files) ≡ known'
          → index_file sha256 extract root fs' known' rel ≡ ok fi
          → reindex_file sha256 extract files root fs' rel m ≡ (ok (put_file fi files), m + 1)
      brought_up t k e = rw (reindex_file, t) (rw k (rw e (ground arith)))

      all_again :
          {files' : Index}
          → (build_with sha256 extract
              (index_file sha256 extract root fs' known)
              (discover root fs)
              []
              n).0
            ≡ ok files'
          → (build_with sha256 extract
              (index_file sha256 extract root fs' known)
              (discover root fs)
              []
              n).1
            ≡ n + length (discover root fs)
          → build sha256 extract root fs' n ≡ (ok files', n + length (discover root fs))
      all_again r c = rw (build, same_paths) (λ i. (r i, c i))
