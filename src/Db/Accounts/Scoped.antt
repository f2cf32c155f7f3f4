-- ===== src/Db/Accounts/Scoped.antt =====
-- The user-scoped reads and writes of `WorkspacesRepo`: isolation between users.
use agentic_code_intelligenc.Prelude.{
  ◌&&◌, Option, none, some, List, [], ◌∷◌, map, find, if◌then◌else◌, Text, text_eq, text_eq_iff,
  ◌≡◌, refl, arith,
}
use agentic_code_intelligenc.Db.{Workspace, Database}
use agentic_code_intelligenc.Db.Accounts.{owned, get_workspace_row, set_head}

find-owned :
    (u w : Text) (rows : List Workspace) (row : Workspace)
    → find (owned u w) rows ≡ some row
    → (row.id ≡ w) × (row.user_id ≡ u)
find-owned u w [] row h = cc
find-owned u w (x ∷ rows) row h =
    ground (arith, find-owned u w rows row, text_eq_iff x.id w, text_eq_iff x.user_id u)

-- A read for a user returns a row of that user and of that id, or nothing.
pub get_workspace_row_owned :
    (u w : Text) (db : Database) (row : Workspace)
    → get_workspace_row u w db ≡ some row
    → (row.id ≡ w) × (row.user_id ≡ u)
unfolding get_workspace_row
get_workspace_row_owned u w db row h = find-owned u w db.workspaces row h

-- `set_head` as a reader of `(u, w)` sees it.
abbrev pub seen : Text → Text → Text → Text → Text → Option Workspace → Option Workspace
seen u' w' head u w none = none
seen u' w' head u w (some row) =
    some (if text_eq w w' && text_eq u u' then record row { head_commit = some head } else row)

find-set_head :
    (u w u' w' head : Text) (rows : List Workspace)
    → find
        (owned u w)
        (map (λ r. if owned u' w' r then record r { head_commit = some head } else r) rows)
      ≡ seen u' w' head u w (find (owned u w) rows)
find-set_head u w u' w' head [] = refl
find-set_head u w u' w' head (x ∷ rows) = ground (
  arith,
  find-set_head u w u' w' head rows,
  text_eq_iff x.id w,
  text_eq_iff x.user_id u,
  text_eq_iff x.id w',
  text_eq_iff x.user_id u',
  text_eq_iff w w',
  text_eq_iff u u',
)

-- A write of the head by user `u'` to workspace `w'` is seen by a reader of `(u, w)` exactly where
-- both the user and the workspace are the same, and then as the new head; every other read, of
-- another user or of another workspace, returns what it returned before.
pub get-set_head :
    (u w u' w' head : Text) (db : Database)
    → get_workspace_row u w (set_head u' w' head db)
      ≡ seen u' w' head u w (get_workspace_row u w db)
unfolding get_workspace_row set_head
get-set_head u w u' w' head db = find-set_head u w u' w' head db.workspaces
