-- ===== src/Db/Accounts.antt =====
-- `UsersRepo`, `ApiKeysRepo`, `WorkspacesRepo` and `assert_owned` of db/repositories.py, with
-- `new_id` of common/types.py. `uuid4 n` is the hexadecimal text of the `n`-th `uuid.uuid4()`.
pub mod Scoped
use agentic_code_intelligenc.Prelude.{
  ℕ, ◌+◌, Bool, true, false, not, ◌&&◌, ◌||◌, Option, none, some, List, [], ◌∷◌, ◌++◌, map, length,
  filter, find, any, if◌then◌else◌, Text, codes, text_eq,
}
use agentic_code_intelligenc.Common.{Error, Result, ok, err}
use agentic_code_intelligenc.Db.{User, ApiKey, Workspace, Database}

module _ (uuid4 : ℕ → Text) where
  -- `f"{prefix}_{uuid.uuid4().hex}"`
  unfoldable pub new_id : Text → Database → Text × Database
  new_id prefix db = (prefix ++ codes "_" ++ uuid4 db.uuids, record db { uuids = db.uuids + 1 })

-- `id` is the primary key: a row whose id is taken is refused.
insert_user : Text → Database → Result User × Database
insert_user uid db =
    if any (λ u. text_eq u.id uid) db.users
    then (err Error.integrity_error, db)
    else (ok (record { id = uid }), record db { users = db.users ++ record { id = uid } ∷ [] })

module _ (uuid4 : ℕ → Text) where
  unfoldable pub create_user : Option Text → Database → Result User × Database
  unfolding insert_user new_id
  create_user none db = let (uid, db') = new_id uuid4 (codes "user") db in insert_user uid db'
  create_user (some []) db = let (uid, db') = new_id uuid4 (codes "user") db in insert_user uid db'
  create_user (some (c ∷ uid)) db = insert_user (c ∷ uid) db

unfoldable pub get_user : Text → Database → Option User
get_user user_id db = find (λ u. text_eq u.id user_id) db.users

abbrev pub live_key : Text → ApiKey → Bool
live_key key_prefix k = text_eq k.key_prefix key_prefix && not k.revoked

-- `key_prefix` is unique in the table, among the revoked keys too.
module _ (uuid4 : ℕ → Text) where
  unfoldable pub create_key : Text → Text → Text → ℕ → ℕ → Database → Result ApiKey × Database
  unfolding new_id
  create_key user_id key_prefix key_hash rate_limit_per_min daily_token_budget db =
      let (kid, db') = new_id uuid4 (codes "key") db in
      let key : ApiKey = record {
        id = kid;
        user_id = user_id;
        key_prefix = key_prefix;
        key_hash = key_hash;
        rate_limit_per_min = rate_limit_per_min;
        daily_token_budget = daily_token_budget;
        revoked = false;
      } in
      if any (λ k. text_eq k.key_prefix key_prefix || text_eq k.id kid) db.api_keys
      then (err Error.integrity_error, db')
      else (ok key, record db' { api_keys = db.api_keys ++ key ∷ [] })

unfoldable pub get_by_prefix : Text → Database → Option ApiKey
get_by_prefix key_prefix db = find (live_key key_prefix) db.api_keys

unfoldable pub count_keys : Database → ℕ
count_keys db = length db.api_keys

abbrev owned : Text → Text → Workspace → Bool
owned user_id workspace_id w = text_eq w.id workspace_id && text_eq w.user_id user_id

unfoldable pub get_workspace_row : Text → Text → Database → Option Workspace
get_workspace_row user_id workspace_id db = find (owned user_id workspace_id) db.workspaces

unfoldable pub list_workspace_rows : Text → Database → List Workspace
list_workspace_rows user_id db = filter (λ w. text_eq w.user_id user_id) db.workspaces

module _ (uuid4 : ℕ → Text) where
  unfoldable pub create_workspace_row : Text → Text → Database → Result Workspace × Database
  unfolding new_id
  create_workspace_row user_id source db =
      let (wid, db') = new_id uuid4 (codes "ws") db in
      let row : Workspace = record {
        id = wid;
        user_id = user_id;
        source = source;
        head_commit = none;
      } in
      if any (λ w. text_eq w.id wid) db.workspaces
      then (err Error.integrity_error, db')
      else (ok row, record db' { workspaces = db.workspaces ++ row ∷ [] })

-- `UPDATE workspaces SET head_commit = ? WHERE id = ? AND user_id = ?`
unfoldable pub set_head : Text → Text → Text → Database → Database
set_head user_id workspace_id head_commit db = record db {
  workspaces =
      map
        (λ w.
          if owned user_id workspace_id w then record w { head_commit = some head_commit } else w)
        db.workspaces;
}

unfoldable pub assert_owned : Text → Text → Result (Unit {0})
assert_owned user_id row_user_id =
    if text_eq user_id row_user_id then ok tt else err Error.isolation_violation
