-- ===== src/Workspace/Indexes.antt =====
-- The persisted index of workspace/service.py, built where it is not there yet, and the files that the
-- rename of orchestrator/loop.py finds by an index of its own.
use agentic_code_intelligenc.Prelude.{
  Bool, true, false, ◌||◌, none, List, [], ◌∷◌, ◌++◌, map, Text, codes, sorted, text_lt,
}
use agentic_code_intelligenc.Common.{Error, Result}
use agentic_code_intelligenc.Files.{FilePath, read, write, is_file, is_dir}
use agentic_code_intelligenc.World.{Env, Act, pure, raise, lift, gets, maybe, modify_files, ◌>>=◌}
use agentic_code_intelligenc.Workspace.{below, get_workspace, repo_path_of}
use agentic_code_intelligenc.Index.{Index, definitions, references_of}
use agentic_code_intelligenc.Index.Builder.{Extracted, build, to_set}

-- `_index_path`
unfoldable pub index_path_of : FilePath → Text → Text → Result FilePath
index_path_of root user_id workspace_id = below root user_id (codes "index.json" ∷ []) workspace_id

-- `extract` is tree-sitter's; `serialize` and `from_serialized` print and read the canonical JSON.
module _ (env : Env) (root : FilePath) (extract : Text → Text → Text → Extracted) where
  -- `IndexBuilder.build` over the workspace's repository
  unfoldable pub built : Text → Text → Act Index
  built user_id workspace_id = do
    _ ← get_workspace user_id workspace_id
    base ← lift (repo_path_of root user_id workspace_id)
    index ← gets (λ w. (build env.sha256 extract base w.fs 0).0)
    lift index

  -- the files of `affected` in `_do_rename`, sorted
  unfoldable pub rename_sites : Text → Text → Text → Act (List Text)
  rename_sites user_id workspace_id old_name = do
    index ← built user_id workspace_id
    pure (
        sorted text_lt (
          to_set
            (map (λ s. s.file_path) (definitions old_name none index)
              ++ map (λ r. r.file_path) (references_of old_name none index))
            []))

  module _ (serialize : Index → Text) (from_serialized : Text → Result Index) where
    unfoldable pub build_index : Text → Text → Act Index
    build_index user_id workspace_id = do
      index ← built user_id workspace_id
      path ← lift (index_path_of root user_id workspace_id)
      _ ← modify_files (write path (serialize index))
      pure index

    abbrev pub load_at : Text → Text → FilePath → Bool → Act Index
    load_at user_id workspace_id path false = build_index user_id workspace_id
    load_at user_id workspace_id path true = gets (λ w. read w.fs path) >>= λ found.
        maybe found (raise Error.os_error) (λ text. lift (from_serialized text))

    unfoldable pub load_index : Text → Text → Act Index
    load_index user_id workspace_id = do
      _ ← get_workspace user_id workspace_id
      path ← lift (index_path_of root user_id workspace_id)
      exists ← gets (λ w. is_file w.fs path || is_dir w.fs path)
      load_at user_id workspace_id path exists
