-- ===== src/Tests/Indexing.antt =====
-- An example for the index builder: one of two files is edited.
use agentic_code_intelligenc.Prelude.{
  ℕ, ◌+◌, some, List, [], ◌∷◌, length, Text, codes, text_eq, text_lt, join_with, starts_with,
  ends_with, ◌≡◌, refl,
}
use agentic_code_intelligenc.Common.{Result, ok, err}
use agentic_code_intelligenc.Files.{
  FilePath, Fs, write, is_dir, parent, is_under, resolve, join, read, is_file, rglob, as_posix,
  path_eq, parts, strip,
}
use agentic_code_intelligenc.Tests.Demo.{env, world, user, ws}
use agentic_code_intelligenc.Tests.Demo.{index_file as index_json, root as srv}
use agentic_code_intelligenc.Workspace.Indexes
use agentic_code_intelligenc.Workspace.Indexes.{load_index, build_index, index_path_of}
use agentic_code_intelligenc.Workspace.{get_workspace, repo_path_of, user_root}
use agentic_code_intelligenc.Db.Accounts.{get_workspace_row}
use agentic_code_intelligenc.World.{World, lift, pure, gets, maybe, modify_files, ◌>>=◌}
use agentic_code_intelligenc.Index.{Index}
use agentic_code_intelligenc.Index.Builder.{
  Extracted, detect_language, ignored_dir, discover, index_file, build, reindex_file,
}
use agentic_code_intelligenc.Index.Builder.Incremental.{reindex_file-build}

abbrev root : FilePath
root = codes "r" ∷ []

abbrev tree : Text → Fs
tree content = record {
  files =
      (codes "r" ∷ codes "b.py" ∷ [], codes "x = 1")
      ∷ (codes "r" ∷ codes "a.py" ∷ [], content)
      ∷ (codes "r" ∷ codes "a.txt" ∷ [], [])
      ∷ [];
  dirs = root ∷ [];
}

abbrev same : List ℕ → List ℕ
same bytes = bytes

-- each file imports `b` in its first line
abbrev extract : Text → Text → Text → Extracted
extract path content variant = record {
  symbols = [];
  references = [];
  raw_imports = (codes "b", 1) ∷ [];
}

abbrev built : Result Index × ℕ
built = build same extract root (tree (codes "y = 1")) 0

abbrev index_of : Result Index → Index
index_of (ok files) = files
index_of (err e) = []

built_ok : built.0 ≡ ok (index_of built.0)
unfolding build discover rglob ignored_dir detect_language ends_with starts_with text_eq text_lt
    as_posix strip join_with index_file read join parts path_eq
built_ok = refl

reindex_file-build_example :
    (files' : Index) × (reindex_file same extract
        (index_of built.0)
        root
        (tree (codes "z"))
        (codes "a.py")
        7
      ≡ (ok files', 7 + 1))
    × (build same extract root (tree (codes "z")) 0
        ≡ (ok files', 0 + length (discover root (tree (codes "y = 1")))))
unfolding discover rglob ignored_dir detect_language ends_with starts_with text_eq text_lt as_posix
    strip join_with is_file read join parts path_eq
reindex_file-build_example =
    reindex_file-build same extract root (tree (codes "y = 1")) (tree (codes "z")) (codes "a.py")
      (index_of built.0) 0 7 built_ok refl refl refl
      ((λ other. absurd (other refl)), ((λ other. refl), tt))

-- the first load of an index builds it and writes it, and the second reads what is there
abbrev first_load : Result Index × World
first_load = load_index env srv extract (λ files. codes "idx") (λ text. ok []) user ws world

first_load_writes :
    (read first_load.1.fs index_json ≡ some (codes "idx"))
    × ((load_index env srv extract
          (λ files. codes "other")
          (λ text. ok [])
          user
          ws
          first_load.1).1.fs
        ≡ first_load.1.fs)
unfolding load_index Indexes.built build_index get_workspace get_workspace_row repo_path_of
    index_path_of user_root lift pure gets maybe modify_files ◌>>=◌ write is_dir parent is_under
    resolve build discover rglob ignored_dir detect_language ends_with starts_with text_eq text_lt
    as_posix strip join_with index_file read join parts path_eq is_file
first_load_writes = (refl, refl)
