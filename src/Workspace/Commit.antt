-- ===== src/Workspace/Commit.antt =====
-- `commit_worktree` of workspace/service.py: serialise or reject, and what a commit leaves behind.
use agentic_code_intelligenc.Prelude.{
  ◌+◌, none, some, [], ◌∷◌, ◌++◌, Text, codes, text_eq, text_eq_iff, text_eq_refl, false,
  if◌then◌else◌, ◌≡◌, ◌≢◌, ◌∙◌, refl, Bool-cases, inl, inr, arith, Option-cases,
}
use agentic_code_intelligenc.Common.{Error, Result, ok, err, Result-cases}
use agentic_code_intelligenc.Db.{Workspace}
use agentic_code_intelligenc.Db.Accounts.{get_workspace_row, set_head}
use agentic_code_intelligenc.Db.Accounts.Scoped.{get-set_head}
use agentic_code_intelligenc.Files.{
  Fs, join, write, read-write_ne, read-write_self, path_eq, path_eq_iff, read, strip,
  read-copytree_outside, FilePath, copytree,
}
use agentic_code_intelligenc.Files.Tree.Beside.{write-copytree}
use agentic_code_intelligenc.World.{Env, World, raise, ◌>>=◌, lift, modify_files}
use agentic_code_intelligenc.Workspace.{
  ignored, or_else, user_root, lock_path_of, repo_path_of, worktree_path_of, snapshot_id,
  fast_forward, commit_worktree,
}

module _ (env : Env) (root : FilePath) (u ws task base_commit : Text) (w : World) where
  -- what a commit that is let through does
  record Committed (w' : World) (new_head : Text) : Type 0 where
    pub ref : Workspace
    pub found : get_workspace_row u ws w.db ≡ some ref
    pub unmoved : or_else ref.head_commit [] ≡ base_commit
    pub wt : FilePath
    pub wt_at : worktree_path_of root u ws task ≡ ok wt
    pub base : FilePath
    pub base_at : repo_path_of root u ws ≡ ok base
    pub copied : copytree ignored wt base w.fs ≡ (ok tt, w'.fs)
    pub hashed : new_head ≡ snapshot_id env base w'.fs
    pub head_set : w'.db ≡ set_head u ws new_head w.db

  fast_forward_ok :
      (w' : World) (new_head : Text)
      → fast_forward env root u ws task base_commit w ≡ (ok new_head, w')
      → Committed w' new_head
  unfolding fast_forward
  fast_forward_ok w' new_head h = elim (Option-cases (get_workspace_row u ws w.db)) [
    | inl gone ↦ absurd (ground (arith, gone))
    | inr (ref, found) ↦ elim (Result-cases (worktree_path_of root u ws task)) [
      | inr (e, bad) ↦ absurd (ground (arith, found, bad))
      | inl (wt, wt_at) ↦ elim (Result-cases (repo_path_of root u ws)) [
        | inr (e, bad) ↦ absurd (ground (arith, found, wt_at, bad))
        | inl (base, base_at) ↦ elim (Result-cases (copytree ignored wt base w.fs).0) [
          | inr (e, clash) ↦ absurd (ground (arith, found, wt_at, base_at, clash))
          | inl (_, whole) ↦ record {
            ref = ref;
            found = found;
            unmoved = ground (arith, text_eq_iff (or_else ref.head_commit []) base_commit);
            wt = wt;
            wt_at = wt_at;
            base = base;
            base_at = base_at;
            copied = ground arith;
            hashed = ground arith;
            head_set = ground arith;
          }
        ]
      ]
    ]
  ]

  -- A commit whose base is no longer the workspace's head is refused, and nothing is written.
  fast_forward_conflict :
      (ref : Workspace)
      → get_workspace_row u ws w.db ≡ some ref
      → or_else ref.head_commit [] ≢ base_commit
      → fast_forward env root u ws task base_commit w ≡ (err Error.conflict, w)
  unfolding fast_forward
  fast_forward_conflict ref found other =
      rw (found, fast_forward)
        (ground (arith, text_eq_iff (or_else ref.head_commit []) base_commit))

or_else-some : (s : Text) → or_else (some s) [] ≡ s
or_else-some [] = refl
or_else-some (c ∷ s) = refl

names_differ : text_eq (codes ".commit.lock") (codes "repo") ≡ false
unfolding text_eq
names_differ = refl

-- the repository and the lock file stand side by side
siblings :
    (root : FilePath) (u ws : Text) (base lock : FilePath)
    → repo_path_of root u ws ≡ ok base
    → lock_path_of root u ws ≡ ok lock
    → (d : FilePath) × (base ≡ d ++ codes "repo" ∷ []) × (lock ≡ d ++ codes ".commit.lock" ∷ [])
unfolding repo_path_of lock_path_of
siblings root u ws base lock h k = of_root (user_root root u) h k
  where
    of_root :
        (r : Result FilePath)
        → elim r [ ok path ↦ ok (join path ws ++ codes "repo" ∷ []) | err e ↦ err e ] ≡ ok base
        → elim r [ ok path ↦ ok (join path ws ++ codes ".commit.lock" ∷ []) | err e ↦ err e ]
          ≡ ok lock
        → (d : FilePath) × (base ≡ d ++ codes "repo" ∷ []) × (lock ≡ d ++ codes ".commit.lock" ∷ [])
    of_root (ok path) h k = (join path ws, cc, cc)
    of_root (err e) h k = absurd cc

module _ (env : Env) (root : FilePath) (u ws : Text) where
  -- The part of a commit before the lock: the lock file is opened for writing.
  record Opened (w : World) (fs' : Fs) : Type 0 where
    pub lock : FilePath
    pub lock_at : lock_path_of root u ws ≡ ok lock
    pub opened : write lock [] w.fs ≡ ok fs'

  abbrev in_lock : World → Fs → World
  in_lock w fs' = record w { fs = fs'; clock_reads = w.clock_reads + 1 }

  -- a commit that returns has gone through the locked part
  commit_worktree_ok :
      (task base_commit : Text) (w w' : World) (h : Text)
      → commit_worktree env root u ws task base_commit w ≡ (ok h, w')
      → (fs' : Fs) × Opened w fs'
        × (fast_forward env root u ws task base_commit (in_lock w fs') ≡ (ok h, w'))
  unfolding commit_worktree ◌>>=◌ raise lift modify_files
  commit_worktree_ok task base_commit w w' h p = elim (Result-cases (lock_path_of root u ws)) [
    | inr (x, e) ↦ absurd (ground (arith, p, e))
    | inl (lock, e) ↦ elim (Result-cases (write lock [] w.fs)) [
      | inr (x, e') ↦ absurd (ground (arith, p, e, e'))
      | inl (fs', e') ↦
          (fs', record { lock = lock; lock_at = e; opened = e' }, ground (arith, p, e, e'))
    ]
  ]

  commit_refused :
      (task base_commit : Text) (v : World) (ref : Workspace)
      → get_workspace_row u ws v.db ≡ some ref
      → or_else ref.head_commit [] ≢ base_commit
      → Opened v v.fs
      → let (r, v') = commit_worktree env root u ws task base_commit v in
        (r ≡ err Error.conflict) × (v'.db ≡ v.db) × (v'.fs ≡ v.fs)
  unfolding commit_worktree ◌>>=◌ raise lift modify_files
  commit_refused task base_commit v ref found other o =
      let refused =
        fast_forward_conflict env root u ws task base_commit (in_lock v v.fs) ref found other in
      ground (arith, refused, o.lock_at, o.opened)

  head_after :
      (task base_commit : Text) (w w' : World) (h : Text)
      → commit_worktree env root u ws task base_commit w ≡ (ok h, w')
      → (ref : Workspace) × (get_workspace_row u ws w'.db ≡ some ref) × (ref.head_commit ≡ some h)
  head_after task base_commit w w' h p =
      let (fs', o, q) = commit_worktree_ok task base_commit w w' h p in
      let c = fast_forward_ok env root u ws task base_commit (in_lock w fs') w' h q in
      (
        record c.ref { head_commit = some h },
        rw (c.head_set, get-set_head, c.found) (ground (arith, text_eq_refl u, text_eq_refl ws)),
        refl,
      )

  -- the lock file is there after a commit, and opening it once more changes nothing
  commit_worktree-Opened :
      (task base_commit : Text) (w w' : World) (h : Text)
      → commit_worktree env root u ws task base_commit w ≡ (ok h, w')
      → Opened w' w'.fs
  commit_worktree-Opened task base_commit w w' h p =
      let (fs', o, q) = commit_worktree_ok task base_commit w w' h p in
      let c = fast_forward_ok env root u ws task base_commit (in_lock w fs') w' h q in
      let (d, base_is, lock_is) = siblings root u ws c.base o.lock c.base_at o.lock_at in
      let opened : write (d ++ codes ".commit.lock" ∷ []) [] w.fs ≡ ok fs' =
        rw lock_is at o.opened in
      let again =
        write-copytree d (codes ".commit.lock") (codes "repo") names_differ ignored c.wt w.fs fs'
          opened in
      let copied : copytree ignored c.wt (d ++ codes "repo" ∷ []) fs' ≡ (ok tt, w'.fs) =
        rw base_is at c.copied in
      record { lock = o.lock; lock_at = o.lock_at; opened = rw lock_is (rw copied at again) }

  -- Two commits from one base: once the first has moved the workspace's head, the second is refused
  -- with `ConflictError`, whoever gets the lock and when, and the database and the files stay as
  -- the first commit left them.
  pub second_commit_conflicts :
      (first second base_commit : Text) (w w' : World) (h : Text)
      → commit_worktree env root u ws first base_commit w ≡ (ok h, w')
      → h ≢ base_commit
      → let (r, w'') = commit_worktree env root u ws second base_commit w' in
        (r ≡ err Error.conflict) × (w''.db ≡ w'.db) × (w''.fs ≡ w'.fs)
  second_commit_conflicts first second base_commit w w' h p moved =
      let (ref, found, at_h) = head_after first base_commit w w' h p in
      commit_refused second base_commit w' ref found (rw (at_h, or_else-some) moved)
        (commit_worktree-Opened first base_commit w w' h p)

module _ (env : Env) (root : FilePath) (u ws task base_commit : Text) (w w' : World)
    (h : Text) where
  -- A commit that succeeds changes no file outside the workspace's repository but its lock file, which is
  -- empty then.
  pub commit_outside :
      (base lock q : FilePath)
      → commit_worktree env root u ws task base_commit w ≡ (ok h, w')
      → repo_path_of root u ws ≡ ok base
      → lock_path_of root u ws ≡ ok lock
      → strip base q ≡ none
      → read w'.fs q ≡ (if path_eq q lock then some [] else read w.fs q)
  commit_outside base lock q p base_at lock_at apart =
      let (fs', o, r) = commit_worktree_ok env root u ws task base_commit w w' h p in
      let c = fast_forward_ok env root u ws task base_commit (in_lock env root u ws w fs') w' h r in
      let same_base : c.base ≡ base = cc (c.base_at) in
      let same_lock : o.lock ≡ lock = cc (o.lock_at) in
      let copied : copytree ignored c.wt base fs' ≡ (ok tt, w'.fs) = rw same_base at c.copied in
      let kept = read-copytree_outside ignored c.wt base q fs' apart in
      let kept' : read w'.fs q ≡ read fs' q = rw copied at kept in
      let opened : write lock [] w.fs ≡ ok fs' = rw same_lock at o.opened in
      kept' ∙ elim (Bool-cases (path_eq q lock)) [
        | inl e ↦ rw (e, (path_eq_iff q lock).0 e) (read-write_self lock [] w.fs fs' opened)
        | inr e ↦ rw e (
            read-write_ne lock q [] w.fs fs' opened
              (λ same. ground (arith, e, path_eq_iff q lock, same)))
      ]
