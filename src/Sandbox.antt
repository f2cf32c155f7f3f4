-- ===== src/Sandbox.antt =====
-- sandbox_client/interface.py: what the sandbox is asked, and the verdict that it returns.
pub mod Docker
use agentic_code_intelligenc.Prelude.{ℕ, ℤ, Bool, Option, List, Text, codes}

pub data VerificationStage : Type 0 where
  apply build test done : VerificationStage

pub data KilledReason : Type 0 where
  deadline oom network error : KilledReason

-- One operation of the JSON patch envelope `{"ops": [...]}`.
pub record PatchOp : Type 0 where
  pub op : Text
  pub path : Text
  pub content : Text

-- `patch` is the envelope that the JSON text encodes; `runner` keeps its default, "python".
pub record VerificationRequest : Type 0 where
  pub task_id : Text
  pub workspace_id : Text
  pub base_commit : Text
  pub patch : List PatchOp

-- The times are in milliseconds.
pub record VerificationResult : Type 0 where
  pub verified : Bool
  pub applied : Bool
  pub built : Bool
  pub tests_passed : Bool
  pub exit_code : ℤ
  pub stage : VerificationStage
  pub stdout_tail : Text
  pub stderr_tail : Text
  pub wall_clock : ℕ
  pub killed_reason : Option KilledReason

-- `stage.value`
abbrev pub stage_value : VerificationStage → Text
stage_value VerificationStage.apply = codes "apply"
stage_value VerificationStage.build = codes "build"
stage_value VerificationStage.test = codes "test"
stage_value VerificationStage.done = codes "done"
