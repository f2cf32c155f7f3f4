-- ===== src/Db.antt =====
-- db/models.py and the tables of db/schema.sql: the rows, and the database as a value.
-- A table is the list of its rows, oldest first, so `ORDER BY created_at` is the list's order.
pub mod Accounts
pub mod Tasks
pub mod Journal
pub mod Ledger
pub mod Artifacts
use agentic_code_intelligenc.Prelude.{ℕ, Bool, Option, List, [], Text}
use agentic_code_intelligenc.Common.{TaskState, TaskMode, StepKind, LedgerEntryKind, Reason}
use agentic_code_intelligenc.Sandbox.{PatchOp, VerificationResult}

pub record User : Type 0 where
  pub id : Text

pub record ApiKey : Type 0 where
  pub id : Text
  pub user_id : Text
  pub key_prefix : Text
  pub key_hash : Text
  pub rate_limit_per_min : ℕ
  pub daily_token_budget : ℕ
  pub revoked : Bool

pub record Workspace : Type 0 where
  pub id : Text
  pub user_id : Text
  pub source : Text
  pub head_commit : Option Text

-- `sandbox_seconds` counts milliseconds.
pub record Task : Type 0 where
  pub id : Text
  pub user_id : Text
  pub workspace_id : Text
  pub state : TaskState
  pub mode : TaskMode
  pub instruction : Text
  pub reason : Option Reason
  pub step_index : ℕ
  pub token_budget : ℕ
  pub step_budget : ℕ
  pub wall_clock_seconds : ℕ
  pub tokens_in : ℕ
  pub tokens_out : ℕ
  pub tool_calls : ℕ
  pub retrieval_bytes : ℕ
  pub sandbox_seconds : ℕ

pub record RenamedFile : Type 0 where
  pub path : Text
  pub content_hash : Text

-- What an action's effect adds to the journal payload.
pub data Effect : Type 0 where
  nothing : Effect
  retrieved : Text → Effect
  edited : List PatchOp → Text → Effect
  renamed : Text → Text → List RenamedFile → Effect
  verdict : VerificationResult → Effect

-- The value that `payload_json` encodes.
pub record Payload : Type 0 where
  pub content_xml : Text
  pub input_tokens : ℕ
  pub output_tokens : ℕ
  pub backend : Text
  pub charge_tokens : Option ℕ
  pub effect : Effect

pub record JournalEntry : Type 0 where
  pub id : ℕ
  pub task_id : Text
  pub step_index : ℕ
  pub kind : StepKind
  pub idempotency_key : Text
  pub payload : Payload

-- `cost_usd`, which every caller leaves at 0.0, is left out.
pub record LedgerEntry : Type 0 where
  pub id : ℕ
  pub scope : Text
  pub kind : LedgerEntryKind
  pub task_id : Option Text
  pub step_index : Option ℕ
  pub tokens : ℕ
  pub note : Option Text

pub record Artifact : Type 0 where
  pub id : Text
  pub task_id : Text
  pub kind : Text
  pub content_hash : Text
  pub path : Option Text

-- `uuids` counts the calls of `uuid4`.
pub record Database : Type 0 where
  pub users : List User
  pub api_keys : List ApiKey
  pub workspaces : List Workspace
  pub tasks : List Task
  pub journal : List JournalEntry
  pub budget_ledger : List LedgerEntry
  pub artifacts : List Artifact
  pub uuids : ℕ

unfoldable pub empty : Database
empty = record {
  users = [];
  api_keys = [];
  workspaces = [];
  tasks = [];
  journal = [];
  budget_ledger = [];
  artifacts = [];
  uuids = 0;
}
