-- ===== src/World.antt =====
-- What the control plane acts on (the database, the files, the events), what it calls that is not
-- its own code (the model backend, the sandbox, the clock, SHA-256, tree-sitter), and the actions
-- that the modules above are made of.
pub mod Moves
pub mod Post
use agentic_code_intelligenc.Prelude.{
  ℕ, ◌+◌, Bool, Option, none, some, List, [], ◌∷◌, ◌++◌, if◌then◌else◌, Text,
}
use agentic_code_intelligenc.Common.{StepKind, Error, Result, ok, err}
use agentic_code_intelligenc.Sandbox.{VerificationRequest, VerificationResult}
use agentic_code_intelligenc.Db.{Database}
use agentic_code_intelligenc.Files.{FilePath, Fs}

-- model_gateway/interface.py
pub record ModelRequest : Type 0 where
  pub task_id : Text
  pub step_index : ℕ
  pub instruction_xml : Text
  pub data_xml : Text

pub record ModelResponse : Type 0 where
  pub content_xml : Text
  pub input_tokens : ℕ
  pub output_tokens : ℕ
  pub backend : Text

-- orchestrator/interface.py; `detail`, a message for display, is left out.
pub record TaskEvent : Type 0 where
  pub task_id : Text
  pub step_index : ℕ
  pub kind : StepKind

-- The code outside the repository. A call that may answer differently each time takes the number
-- of the call.
pub record Env : Type 0 where
  pub uuid4 : ℕ → Text
  -- `hashlib.sha256(data).digest()`
  pub sha256 : List ℕ → List ℕ
  -- `time.monotonic()`, in milliseconds
  pub monotonic : ℕ → ℕ
  -- the current directory
  pub cwd : FilePath
  -- whether the commit at that reading of the clock gets the workspace's `flock` in time
  pub flock : ℕ → Bool
  -- `ModelBackend.complete`
  pub complete : ℕ → ModelRequest → Result ModelResponse
  -- `SandboxClient.verify_snapshot`; it reads the snapshot, writes no file of the host, and may
  -- raise
  pub verify_snapshot : ℕ → VerificationRequest → FilePath → Fs → Result VerificationResult

pub record World : Type 0 where
  pub db : Database
  pub fs : Fs
  pub events : List TaskEvent
  pub model_calls : ℕ
  pub sandbox_runs : ℕ
  pub clock_reads : ℕ

-- What was written before an exception stays written.
abbrev pub Act : Type 0 → Type 0
Act A = World → Result A × World

module _ {A : Type 0} where
  unfoldable pub pure : A → Act A
  pure a w = (ok a, w)

  unfoldable pub raise : Error → Act A
  raise e w = (err e, w)

  unfoldable pub lift : Result A → Act A
  lift r w = (r, w)

  unfoldable pub gets : (World → A) → Act A
  gets f w = (ok (f w), w)

  -- a database call with a result
  unfoldable pub with_db : (Database → A × Database) → Act A
  with_db f w = let (a, db') = f w.db in (ok a, record w { db = db' })

  unfoldable pub with_db_or : (Database → Result A × Database) → Act A
  with_db_or f w = let (r, db') = f w.db in (r, record w { db = db' })

unfoldable pub modify_db : (Database → Database) → Act (Unit {0})
modify_db f w = (ok tt, record w { db = f w.db })

abbrev pub set_files : World → Result Fs → Result (Unit {0}) × World
set_files w (ok fs') = (ok tt, record w { fs = fs' })
set_files w (err e) = (err e, w)

unfoldable pub modify_files : (Fs → Result Fs) → Act (Unit {0})
modify_files f w = set_files w (f w.fs)

-- a change of the files that may raise half-way
unfoldable pub with_files : (Fs → Result (Unit {0}) × Fs) → Act (Unit {0})
with_files f w = let (r, fs') = f w.fs in (r, record w { fs = fs' })

unfoldable pub emit : Text → ℕ → StepKind → Act (Unit {0})
emit task_id step kind w =
    let event : TaskEvent = record { task_id = task_id; step_index = step; kind = kind } in
    (ok tt, record w { events = w.events ++ event ∷ [] })

unfoldable pub now : Env → Act ℕ
now env w = (ok (env.monotonic w.clock_reads), record w { clock_reads = w.clock_reads + 1 })

module _ {A B : Type 0} where
  abbrev pub continue : Result A → (A → Act B) → Act B
  continue (ok a) f w = f a w
  continue (err e) f w = (err e, w)

  infixl 5 ◌>>=◌ ◌>>◌
  unfoldable pub ◌>>=◌ : Act A → (A → Act B) → Act B
  ◌>>=◌ m f w = let (r, w') = m w in continue r f w'

  abbrev pub ◌>>◌ : Act A → Act B → Act B
  m >> k = m >>= λ _. k

  -- what to do with a value that may be missing
  unfoldable pub maybe : Option A → Act B → (A → Act B) → Act B
  maybe none m f = m
  maybe (some a) m f = f a
