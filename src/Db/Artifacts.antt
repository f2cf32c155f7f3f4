-- ===== src/Db/Artifacts.antt =====
-- `ArtifactsRepo` of db/repositories.py.
use agentic_code_intelligenc.Prelude.{
  ℕ, Option, List, [], ◌∷◌, ◌++◌, filter, any, if◌then◌else◌, Text, codes, text_eq,
}
use agentic_code_intelligenc.Common.{Error, Result, ok, err}
use agentic_code_intelligenc.Db.{Artifact, Database}
use agentic_code_intelligenc.Db.Accounts.{new_id}

module _ (uuid4 : ℕ → Text) where
  unfoldable pub create : Text → Text → Text → Option Text → Database → Result Artifact × Database
  unfolding new_id
  create task_id kind content_hash path db =
      let (aid, db') = new_id uuid4 (codes "art") db in
      let row : Artifact = record {
        id = aid;
        task_id = task_id;
        kind = kind;
        content_hash = content_hash;
        path = path;
      } in
      if any (λ a. text_eq a.id aid) db.artifacts
      then (err Error.integrity_error, db')
      else (ok row, record db' { artifacts = db.artifacts ++ row ∷ [] })

unfoldable pub list_for_task : Text → Database → List Artifact
list_for_task task_id db = filter (λ a. text_eq a.task_id task_id) db.artifacts
