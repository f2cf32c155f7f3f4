-- ===== src/Tests/Workspaces.antt =====
-- Examples for the workspaces of workspace/service.py.
use agentic_code_intelligenc.Prelude.{
  false, none, some, [], ◌∷◌, ◌++◌, Text, codes, text_eq, utf8, hex, starts_with, text_lt,
  join_with, text_eq_iff, if◌then◌else◌, ◌≡◌, ◌≢◌, refl,
}
use agentic_code_intelligenc.Common.{Error, Result, ok, err}
use agentic_code_intelligenc.Db.Accounts.{get_workspace_row, set_head}
use agentic_code_intelligenc.Files.{
  FilePath, write, parent, read, strip, is_dir, is_file, is_under, path_eq, path_lt, resolve, join,
  copytree, rglob, as_posix,
}
use agentic_code_intelligenc.World.{World, ◌>>=◌, lift, modify_files}
use agentic_code_intelligenc.Workspace.{
  get_workspace, user_root, lock_path_of, repo_path_of, worktree_path_of, snapshot_id, take_lock,
  fast_forward, commit_worktree, ignored,
}
use agentic_code_intelligenc.Workspace.Commit.{second_commit_conflicts, commit_outside}
use agentic_code_intelligenc.Tests.Demo.{user, ws, task_id, root, base, wt, env, files, world}

-- the head and the world of a commit
abbrev head_of : Result Text × World → Text
head_of (ok h, w) = h
head_of (err e, w) = []

abbrev commit : Result Text × World
commit = commit_worktree env root user ws task_id (codes "h0") world

commit_ok :
    (commit ≡ (ok (head_of commit), commit.1)) × (text_eq (head_of commit) (codes "h0") ≡ false)
unfolding commit_worktree lift modify_files write parent lock_path_of fast_forward get_workspace
    take_lock get_workspace_row repo_path_of worktree_path_of user_root snapshot_id ◌>>=◌ text_eq
    utf8 hex resolve join is_under path_eq is_dir is_file read starts_with text_lt path_lt copytree
    rglob as_posix join_with set_head ignored strip
commit_ok = (refl, refl)

moved : head_of commit ≢ codes "h0"
moved = λ e. let t = (text_eq_iff (head_of commit) (codes "h0")).1 e in cc (t, commit_ok.1)

second_commit_conflicts_example :
    let (r, w'') = commit_worktree env root user ws (codes "t2") (codes "h0") commit.1 in
    (r ≡ err Error.conflict) × (w''.db ≡ commit.1.db) × (w''.fs ≡ commit.1.fs)
second_commit_conflicts_example =
    second_commit_conflicts env root user ws task_id (codes "t2") (codes "h0") world commit.1
      (head_of commit) commit_ok.0 moved

abbrev lock : FilePath
lock = codes "srv" ∷ user ∷ ws ∷ codes ".commit.lock" ∷ []

base_ok :
    (repo_path_of root user ws ≡ ok base)
    × (worktree_path_of root user ws task_id ≡ ok wt)
    × (lock_path_of root user ws ≡ ok lock)
unfolding repo_path_of lock_path_of worktree_path_of user_root resolve join is_under path_eq
    starts_with text_eq strip
base_ok = (refl, refl, refl)

-- `b.py` is in the repository and not in the worktree
abbrev deleted : World
deleted = record world {
  fs = record files {
    files =
        (base ++ codes "b.py" ∷ [], codes "old") ∷ (wt ++ codes "a.py" ∷ [], codes "y = 2") ∷ [];
  };
}

abbrev commit' : Result Text × World
commit' = commit_worktree env root user ws task_id (codes "h0") deleted

apart : strip base (wt ++ codes "a.py" ∷ []) ≡ none
unfolding strip text_eq
apart = refl

commit_outside_example : read commit.1.fs (wt ++ codes "a.py" ∷ []) ≡ (
    if path_eq (wt ++ codes "a.py" ∷ []) lock
    then some []
    else read world.fs (wt ++ codes "a.py" ∷ []))
commit_outside_example =
    commit_outside env root user ws task_id (codes "h0") world commit.1 (head_of commit) base lock
      (wt ++ codes "a.py" ∷ []) commit_ok.0 base_ok.0 base_ok.2 apart
