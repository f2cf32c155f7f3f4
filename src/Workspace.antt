-- ===== src/Workspace.antt =====
-- `WorkspaceServiceImpl` of workspace/service.py: ownership-checked paths, worktrees, and the
-- guarded commit of a worktree back to its workspace.
pub mod Commit
pub mod Indexes
use agentic_code_intelligenc.Prelude.{
  ℕ, ◌+◌, Bool, true, false, not, ◌&&◌, ◌||◌, Option, none, some, List, [], ◌∷◌, ◌++◌, map, any,
  if◌then◌else◌, Text, codes, text_eq, text_lt, sorted, utf8, hex, join_with,
}
use agentic_code_intelligenc.Common.{Error, Result, ok, err}
use agentic_code_intelligenc.Db.{Workspace, Database}
use agentic_code_intelligenc.Db.Accounts.{get_workspace_row, set_head}
use agentic_code_intelligenc.Files.{
  FilePath, Fs, path_eq, path_lt, as_posix, is_under, join, resolve, is_file, is_dir, copytree,
  write, rglob,
}
use agentic_code_intelligenc.World.{
  Env, World, Act, pure, raise, lift, gets, with_files, modify_files, ◌>>=◌, ◌>>◌,
}

-- `_IGNORE_ON_COPY`
unfoldable pub ignored : Text → Bool
ignored name = any (text_eq name) (
    codes ".git"
    ∷ codes "node_modules"
    ∷ codes "__pycache__"
    ∷ codes ".venv"
    ∷ codes "venv"
    ∷ codes "dist"
    ∷ codes "build"
    ∷ [])

pub record WorktreeHandle : Type 0 where
  pub task_id : Text
  pub workspace_id : Text
  pub path : FilePath
  pub base_commit : Text

abbrev or_not_found : {A : Type 0} → Option A → Result A
or_not_found none = err Error.not_found
or_not_found (some a) = ok a

unfoldable pub get_workspace : Text → Text → Act Workspace
get_workspace user_id workspace_id w =
    (or_not_found (get_workspace_row user_id workspace_id w.db), w)

-- `ref.head_commit or other`: an empty text counts as none.
abbrev pub or_else : Option Text → Text → Text
or_else none other = other
or_else (some []) other = other
or_else (some (c ∷ s)) other = c ∷ s

module _ (root : FilePath) where
  unfoldable pub user_root : Text → Result FilePath
  user_root user_id =
      let path = resolve (join root user_id) in
      if not (is_under root path) && not (path_eq path root)
      then err Error.isolation_violation
      else ok path

  abbrev pub below : Text → List Text → Text → Result FilePath
  below user_id names workspace_id = elim (user_root user_id) [
    | ok path ↦ ok (join path workspace_id ++ names)
    | err e ↦ err e
  ]

  unfoldable pub repo_path_of : Text → Text → Result FilePath
  unfolding user_root
  repo_path_of user_id workspace_id = below user_id (codes "repo" ∷ []) workspace_id

  unfoldable pub worktree_path_of : Text → Text → Text → Result FilePath
  unfolding user_root
  worktree_path_of user_id workspace_id task_id = elim (user_root user_id) [
    | ok path ↦ ok (join (join path workspace_id ++ codes "worktrees" ∷ []) task_id)
    | err e ↦ err e
  ]

  -- `_lock_path`
  unfoldable pub lock_path_of : Text → Text → Result FilePath
  unfolding user_root
  lock_path_of user_id workspace_id = below user_id (codes ".commit.lock" ∷ []) workspace_id

-- A path given by a caller, below `base`.
unfoldable pub safe_join : FilePath → Text → Result FilePath
safe_join base rel_path =
    let target = resolve (join base rel_path) in
    if not (is_under (resolve base) target) && not (path_eq target (resolve base))
    then err Error.isolation_violation
    else ok target

abbrev by_path : FilePath × Text → FilePath × Text → Bool
by_path f g = path_lt f.0 g.0

module _ (env : Env) where
  -- what is fed to the hash, file by file
  hash_input : List (FilePath × Text) → List ℕ
  hash_input [] = []
  hash_input ((p, c) ∷ files) = utf8 (as_posix p) ++ 0 ∷ (env.sha256 (utf8 c) ++ hash_input files)

  -- The content id of a tree.
  unfoldable pub snapshot_id : FilePath → Fs → Text
  unfolding hash_input
  snapshot_id path fs = hex (env.sha256 (hash_input (sorted by_path (rglob path fs))))

module _ (env : Env) (root : FilePath) where
  abbrev copy_worktree : FilePath → FilePath → Fs → Result (Unit {0}) × Fs
  copy_worktree base wt fs =
      if is_dir fs wt || is_file fs wt
      then (ok tt, fs)
      else if is_dir fs base
      then copytree ignored base wt fs
      else (err Error.os_error, fs)

  -- A worktree is copied from the workspace when it is first opened, and reused afterwards; the
  -- base commit is the workspace's head at this call.
  unfoldable pub open_worktree : Text → Text → Text → Act WorktreeHandle
  unfolding get_workspace
  open_worktree user_id workspace_id task_id = do
    ref ← get_workspace user_id workspace_id
    base ← lift (repo_path_of root user_id workspace_id)
    wt ← lift (worktree_path_of root user_id workspace_id task_id)
    with_files (copy_worktree base wt)
    fallback ← gets (λ w. snapshot_id env base w.fs)
    pure (record {
      task_id = task_id;
      workspace_id = workspace_id;
      path = wt;
      base_commit = or_else ref.head_commit fallback;
    })

  -- the lock loop: whether the lock is taken before the deadline
  unfoldable pub take_lock : Act Bool
  take_lock w = (ok (env.flock w.clock_reads), record w { clock_reads = w.clock_reads + 1 })

  -- the `try` under the lock
  unfoldable pub fast_forward : Text → Text → Text → Text → World → Result Text × World
  fast_forward user_id workspace_id task_id base_commit w =
      elim (get_workspace_row user_id workspace_id w.db) [
        | none ↦ (err Error.not_found, w)
        | some ref ↦
            if not (text_eq (or_else ref.head_commit []) base_commit)
            then (err Error.conflict, w)
            else elim (worktree_path_of root user_id workspace_id task_id) [
              | err e ↦ (err e, w)
              | ok wt ↦ elim (repo_path_of root user_id workspace_id) [
                | err e ↦ (err e, w)
                | ok base ↦
                    if not (is_dir w.fs wt)
                    then (err Error.not_found, w)
                    else let (copied, fs') = copytree ignored wt base w.fs in
                      let new_head = snapshot_id env base fs' in
                      elim copied [
                        | err e ↦ (err e, record w { fs = fs' })
                        | ok _ ↦ (
                          ok new_head,
                          record w { db = set_head user_id workspace_id new_head w.db; fs = fs' },
                        )
                      ]
              ]
            ]
      ]

  -- `commit_worktree`: the lock file is made, or emptied, before anything is looked at.
  unfoldable pub commit_worktree : Text → Text → Text → Text → Act Text
  unfolding get_workspace take_lock
  commit_worktree user_id workspace_id task_id base_commit = do
    get_workspace user_id workspace_id
    lock ← lift (lock_path_of root user_id workspace_id)
    modify_files (write lock [])
    locked ← take_lock
    if locked then fast_forward user_id workspace_id task_id base_commit else raise Error.conflict
