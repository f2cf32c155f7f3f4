-- ===== src/Orchestrator/Effects.antt =====
-- The tool steps of orchestrator/loop.py: what each action does to the world, and the payload that
-- it gives to the journal.
pub mod Parts
pub mod Keeps
pub mod Contained
use agentic_code_intelligenc.Prelude.{
  ℕ, ◌+◌, ◌-◌, max, Bool, true, false, not, ◌||◌, Option, none, some, List, [], ◌∷◌, ◌++◌, any,
  length, if◌then◌else◌, Text, codes, text_eq, str, join_with,
}
use agentic_code_intelligenc.Common.{StepKind, Error, Result, ok, err}
use agentic_code_intelligenc.Sandbox.{PatchOp, VerificationRequest, VerificationResult, stage_value}
use agentic_code_intelligenc.Db.{Task, Effect, RenamedFile, JournalEntry, Artifact, Database}
use agentic_code_intelligenc.Db.Tasks.{bump_retrieval_bytes, bump_sandbox_seconds}
use agentic_code_intelligenc.Db.Journal.{get_step, get_trace}
use agentic_code_intelligenc.Db.Artifacts
use agentic_code_intelligenc.Files.{FilePath, Fs, join, resolve, is_under, read, write, unlink}
use agentic_code_intelligenc.World.{
  Env, World, Act, pure, raise, lift, gets, with_db_or, modify_db, modify_files, emit, now, ◌>>=◌,
  ◌>>◌, maybe,
}
use agentic_code_intelligenc.Prompt.{AgentAction, ActionKind, DataSpan, get}
use agentic_code_intelligenc.Orchestrator.Patch.{content_hash}
use agentic_code_intelligenc.Orchestrator.Rename.{rename_identifier_tokens}
use agentic_code_intelligenc.Orchestrator.Services.{Services, Symbol}

-- What `run` sets up before the loop.
pub record Ctx : Type 0 where
  pub task : Task
  pub scope : Text
  pub commit : Text
  pub worktree : FilePath
  pub base_commit : Text
  pub run_start : ℕ

-- `action.fields.get(name, default)`
abbrev pub field : AgentAction → Text → Text → Text
field action name default = elim (get name action.fields) [ none ↦ default | some v ↦ v ]

-- `action.fields[name]`
abbrev field_or_raise : AgentAction → Text → Act Text
field_or_raise action name = maybe (get name action.fields) (raise Error.key_error) pure

-- `_kind_for_action`
unfoldable pub kind_for_action : ActionKind → StepKind
kind_for_action ActionKind.plan = StepKind.plan
kind_for_action ActionKind.retrieve = StepKind.retrieve
kind_for_action ActionKind.edit = StepKind.edit
kind_for_action ActionKind.verify = StepKind.verify
kind_for_action ActionKind.give_up = StepKind.plan
kind_for_action ActionKind.rename = StepKind.edit

-- `_apply_op_to_worktree`
unfoldable pub apply_op : FilePath → Text → Text → Text → Fs → Result Fs
apply_op worktree op rel_path content fs =
    let target = resolve (join worktree rel_path) in
    if not (is_under (resolve worktree) target)
    then err Error.value_error
    else if text_eq op (codes "delete")
    then unlink target fs
    else write target content fs

-- the patch operations of the journaled edits, a rename's files being read from the worktree
abbrev renamed_op : FilePath → Fs → RenamedFile → List PatchOp
renamed_op worktree fs rf = elim (read fs (join worktree rf.path)) [
  | none ↦ []
  | some c ↦ record { op = codes "write"; path = rf.path; content = c } ∷ []
]

renamed_ops : FilePath → Fs → List RenamedFile → List PatchOp
renamed_ops worktree fs [] = []
renamed_ops worktree fs (rf ∷ files) = renamed_op worktree fs rf ++ renamed_ops worktree fs files

effect_ops : FilePath → Fs → Effect → List PatchOp
unfolding renamed_ops
effect_ops worktree fs (Effect.edited envelope hash) = envelope
effect_ops worktree fs (Effect.renamed old new files) = renamed_ops worktree fs files
effect_ops worktree fs _ = []

trace_ops : FilePath → Fs → List JournalEntry → List PatchOp
unfolding effect_ops
trace_ops worktree fs [] = []
trace_ops worktree fs (e ∷ trace) =
    let rest = trace_ops worktree fs trace in
    elim e.kind [ StepKind.edit ↦ effect_ops worktree fs e.payload.effect ++ rest | _ ↦ rest ]

-- `_combined_patch`
unfoldable pub combined_patch : FilePath → Text → World → List PatchOp
unfolding trace_ops
combined_patch worktree task_id w = trace_ops worktree w.fs (get_trace task_id w.db)

-- `_verified_from_journal`
abbrev pub verified_in : Effect → Bool
verified_in (Effect.verdict r) = r.verified
verified_in _ = false

unfoldable pub verified_from_journal : Text → ℕ → World → Bool
verified_from_journal task_id step w = elim (get_step task_id step w.db) [
  | none ↦ false
  | some entry ↦ verified_in entry.payload.effect
]

-- `_failure_text_from_journal`: an empty part is left out.
abbrev part : Text → Text → List Text
part label [] = []
part label (c ∷ s) = (label ++ c ∷ s) ∷ []

abbrev failure_parts : Effect → List Text
failure_parts (Effect.verdict r) =
    part (codes "stdout:\n") r.stdout_tail
    ++ (part (codes "stderr:\n") r.stderr_tail ++ part (codes "stage: ") (stage_value r.stage))
failure_parts _ = []

unfoldable pub failure_text_from_journal : Text → ℕ → World → Text
failure_text_from_journal task_id step w = elim (get_step task_id step w.db) [
  | none ↦ []
  | some entry ↦ join_with (codes "\n---\n") (failure_parts entry.payload.effect)
]

module _ (env : Env) where
  -- Record the artifact first, then apply, unless the task has an artifact of that hash.
  unfoldable pub apply_once : FilePath → Text → PatchOp → Text → Act (Unit {0})
  apply_once worktree task_id op hash = do
    artifacts ← gets (λ w. Artifacts.list_for_task task_id w.db)
    if any (λ (a : Artifact). text_eq a.content_hash hash) artifacts
        then pure tt
        else (with_db_or (Artifacts.create env.uuid4 task_id (codes "patch") hash (some op.path))
            >>= λ _. modify_files (apply_op worktree op.op op.path op.content))

  -- `_do_edit`
  unfoldable pub do_edit : Ctx → ℕ → AgentAction → Act Effect
  do_edit ctx step action = do
    file_path ← field_or_raise action (codes "file_path")
    let content = field action (codes "content") []
    let op = field action (codes "op") (codes "write")
    let patch_op : PatchOp = record { op = op; path = file_path; content = content }
    let hash = content_hash env.sha256 (patch_op ∷ [])
    apply_once ctx.worktree ctx.task.id patch_op hash
    emit ctx.task.id step StepKind.edit
    pure (Effect.edited (patch_op ∷ []) hash)

  module _ (wide : ℕ → Bool) where
    -- one file of a rename: nothing where it is missing or unchanged
    rename_file : Ctx → Text → Text → Text → Act (List RenamedFile)
    rename_file ctx old_name new_name rel_path = do
      original ← gets (λ w. read w.fs (join ctx.worktree rel_path))
      maybe original (pure []) λ text.
          let updated = rename_identifier_tokens wide text old_name new_name in
          let patch_op : PatchOp = record {
            op = codes "write";
            path = rel_path;
            content = updated;
          } in
          let hash = content_hash env.sha256 (patch_op ∷ []) in
          let changed : Act (List RenamedFile) =
            (apply_once ctx.worktree ctx.task.id patch_op hash >>= λ _.
            pure (record { path = rel_path; content_hash = hash } ∷ [])) in
          if text_eq updated text then pure [] else changed

    rename_files : Ctx → Text → Text → List Text → Act (List RenamedFile)
    unfolding rename_file
    rename_files ctx old_name new_name [] = pure []
    rename_files ctx old_name new_name (p ∷ paths) = rename_file ctx old_name new_name p >>= λ here.
        (rename_files ctx old_name new_name paths >>= λ rest. pure (here ++ rest))

    -- `_do_rename`
    unfoldable pub do_rename : Services → Ctx → ℕ → AgentAction → Act Effect
    unfolding rename_files
    do_rename services ctx step action =
        let old_name = field action (codes "old_name") [] in
        let new_name = field action (codes "new_name") [] in
        if text_eq old_name [] || text_eq new_name []
        then pure (Effect.renamed old_name new_name [])
        else (do
          affected ← services.rename_sites ctx.task.user_id ctx.task.workspace_id old_name
          files ← rename_files ctx old_name new_name affected
          emit ctx.task.id step StepKind.edit
          pure (Effect.renamed old_name new_name files))

  -- `self._sandbox.verify_snapshot`
  unfoldable pub run_sandbox : Ctx → Act VerificationResult
  run_sandbox ctx w =
      let request : VerificationRequest = record {
        task_id = ctx.task.id;
        workspace_id = ctx.task.workspace_id;
        base_commit = ctx.commit;
        patch = combined_patch ctx.worktree ctx.task.id w;
      } in
      (
        env.verify_snapshot w.sandbox_runs request ctx.worktree w.fs,
        record w { sandbox_runs = w.sandbox_runs + 1 },
      )

  -- `_do_verify`
  unfoldable pub do_verify : Ctx → ℕ → Act Effect
  unfolding run_sandbox
  do_verify ctx step = do
    t0 ← now env
    result ← run_sandbox ctx
    t1 ← now env
    modify_db (bump_sandbox_seconds ctx.task.id (max (t1 - t0) result.wall_clock))
    emit ctx.task.id step StepKind.verify
    pure (Effect.verdict result)

-- `_do_retrieve`, with the data channel that it extends
unfoldable pub do_retrieve :
    Services → Ctx → ℕ → AgentAction → List DataSpan → Act (Effect × List DataSpan)
do_retrieve services ctx step action spans =
    let primitive = field action (codes "primitive") (codes "definition") in
    let name = field action (codes "name") [] in
    let named = primitive ++ (codes ":" ++ name) in
    let finish : Text → Text → Act (Effect × List DataSpan) = λ origin content.
      emit ctx.task.id step StepKind.retrieve >>= λ _.
      pure (Effect.retrieved origin, spans ++ record { origin = origin; content = content } ∷ []) in
    let located : Act (Effect × List DataSpan) =
      services.definition ctx.scope ctx.task.token_budget name >>= λ found.
      maybe found (finish named []) λ sym.
        services.read_span ctx.scope ctx.task.token_budget (record {
          file_path = sym.file_path;
          start_line = sym.start_line;
          end_line = sym.end_line;
        })
        >>= λ res.
            (modify_db (bump_retrieval_bytes ctx.task.id res.byte_count) >>= λ _.
            finish
              (codes "read_span:"
                ++ (sym.file_path
                    ++ (codes ":" ++ (str sym.start_line ++ (codes "-" ++ str sym.end_line)))))
              res.content) in
    if text_eq primitive (codes "definition") then located else finish named []

module _ (env : Env) (wide : ℕ → Bool) (services : Services) where
  abbrev keep : List DataSpan → Effect → Act (Effect × List DataSpan)
  keep spans effect = pure (effect, spans)

  -- `_run_effect`
  unfoldable pub run_effect : Ctx → ℕ → AgentAction → List DataSpan → Act (Effect × List DataSpan)
  run_effect ctx step action spans = elim action.kind [
    | ActionKind.plan ↦ emit ctx.task.id step StepKind.plan >>= λ _. pure (Effect.nothing, spans)
    | ActionKind.retrieve ↦ do_retrieve services ctx step action spans
    | ActionKind.edit ↦ do_edit env ctx step action >>= keep spans
    | ActionKind.rename ↦ do_rename env wide services ctx step action >>= keep spans
    | ActionKind.verify ↦ do_verify env ctx step >>= keep spans
    | ActionKind.give_up ↦ pure (Effect.nothing, spans)
  ]
