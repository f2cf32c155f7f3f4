-- ===== src/Orchestrator/Effects/Parts.antt =====
-- Which worlds a tool step of orchestrator/loop.py leads to, given that for its parts: one proof for
-- every relation between the world before and the world after.
use agentic_code_intelligenc.Prelude.{ℕ, Bool, Option, List, [], ◌∷◌, ◌++◌, Text}
use agentic_code_intelligenc.Common.{StepKind}
use agentic_code_intelligenc.Sandbox.{PatchOp}
use agentic_code_intelligenc.Db.Artifacts
use agentic_code_intelligenc.Db.Tasks.{bump_retrieval_bytes, bump_sandbox_seconds}
use agentic_code_intelligenc.Files.{FilePath}
use agentic_code_intelligenc.World.{Env, World, Act, with_db_or, modify_db, modify_files, emit, now}
use agentic_code_intelligenc.World.Moves.{Order, Moves, moves_rules, Moves-bind, Moves-pure}
use agentic_code_intelligenc.Prompt.{AgentAction, ActionKind, DataSpan}
use agentic_code_intelligenc.Orchestrator.Services.{Services, ChargesOnly}
use agentic_code_intelligenc.Orchestrator.Effects.{
  Ctx, apply_op, field_or_raise, apply_once, do_edit, rename_file, rename_files, do_rename,
  run_sandbox, do_verify, do_retrieve, run_effect,
}

pub record Tools (env : Env) (ctx : Ctx) (index_file : FilePath) (R : World → World → Type 0)
    : Type 0 where
  pub order : Order R
  pub emits : (t : Text) (k : ℕ) (kind : StepKind) → Moves R (emit t k kind)
  pub reads_clock : Moves R (now env)
  pub applies : (op p content : Text) → Moves R (modify_files (apply_op ctx.worktree op p content))
  pub bytes : (n : ℕ) → Moves R (modify_db (bump_retrieval_bytes ctx.task.id n))
  pub seconds : (n : ℕ) → Moves R (modify_db (bump_sandbox_seconds ctx.task.id n))
  pub creates :
      (kind hash : Text) (p : Option Text)
      → Moves R (with_db_or (Artifacts.create env.uuid4 ctx.task.id kind hash p))
  pub runs : Moves R (run_sandbox env ctx)
  pub serves : (w w' : World) → ChargesOnly index_file w w' → R w w'

module _ (env : Env) (wide : ℕ → Bool) (services : Services) (ctx : Ctx)
    (R : World → World → Type 0) (tools : Tools env ctx services.index_file R) where
  Tools-serves : {A : Type 0} (m : Act A) → Moves (ChargesOnly services.index_file) m → Moves R m
  Tools-serves m k = record { at = λ w. tools.serves w _ (k.at w) }

  -- the fields, as lemmas that `search` takes
  Tools-order : Order R
  Tools-order = tools.order

  Tools-emits : (t : Text) (k : ℕ) (kind : StepKind) → Moves R (emit t k kind)
  Tools-emits = tools.emits

  Tools-reads_clock : Moves R (now env)
  Tools-reads_clock = tools.reads_clock

  Tools-applies :
      (op p content : Text) → Moves R (modify_files (apply_op ctx.worktree op p content))
  Tools-applies = tools.applies

  Tools-bytes : (n : ℕ) → Moves R (modify_db (bump_retrieval_bytes ctx.task.id n))
  Tools-bytes = tools.bytes

  Tools-seconds : (n : ℕ) → Moves R (modify_db (bump_sandbox_seconds ctx.task.id n))
  Tools-seconds = tools.seconds

  Tools-creates :
      (kind hash : Text) (p : Option Text)
      → Moves R (with_db_or (Artifacts.create env.uuid4 ctx.task.id kind hash p))
  Tools-creates = tools.creates

  Tools-runs : Moves R (run_sandbox env ctx)
  Tools-runs = tools.runs

  Tools-apply_once :
      (op : PatchOp) (hash : Text) → Moves R (apply_once env ctx.worktree ctx.task.id op hash)
  unfolding apply_once
  Tools-apply_once op hash = search (
    Tools-order, moves_rules, Tools-emits, Tools-reads_clock, Tools-applies, Tools-bytes,
    Tools-seconds, Tools-creates, Tools-runs,
  )

  Tools-field : (action : AgentAction) (name : Text) → Moves R (field_or_raise action name)
  unfolding field_or_raise
  Tools-field action name = search (Tools-order, moves_rules)

  Tools-do_edit : (step : ℕ) (action : AgentAction) → Moves R (do_edit env ctx step action)
  unfolding do_edit
  Tools-do_edit step action = search (
    Tools-order, moves_rules, Tools-emits, Tools-reads_clock, Tools-applies, Tools-bytes,
    Tools-seconds, Tools-creates, Tools-runs, Tools-apply_once, Tools-field,
  )

  Tools-do_verify : (step : ℕ) → Moves R (do_verify env ctx step)
  unfolding do_verify
  Tools-do_verify step =
      search
        (
          Tools-order, moves_rules, Tools-emits, Tools-reads_clock, Tools-applies, Tools-bytes,
          Tools-seconds, Tools-creates, Tools-runs,
        )
        depth 12

  Tools-rename_file : (old new p : Text) → Moves R (rename_file env wide ctx old new p)
  unfolding rename_file
  Tools-rename_file old new p =
      search
        (
          Tools-order, moves_rules, Tools-emits, Tools-reads_clock, Tools-applies, Tools-bytes,
          Tools-seconds, Tools-creates, Tools-runs, Tools-apply_once,
        )
        depth 12

  Tools-rename_files :
      (old new : Text) (paths : List Text) → Moves R (rename_files env wide ctx old new paths)
  unfolding rename_files
  Tools-rename_files old new [] = search (Tools-order, moves_rules)
  Tools-rename_files old new (p ∷ paths) =
      Moves-bind Tools-order _ _ (Tools-rename_file old new p) λ here.
        Moves-bind Tools-order _ _ (Tools-rename_files old new paths)
          λ rest. Moves-pure Tools-order (here ++ rest)

  Tools-do_rename :
      (step : ℕ) (action : AgentAction) → Moves R (do_rename env wide services ctx step action)
  unfolding do_rename
  Tools-do_rename step action =
      search
        (
          Tools-order, moves_rules, Tools-emits, Tools-reads_clock, Tools-applies, Tools-bytes,
          Tools-seconds, Tools-creates, Tools-runs, Tools-rename_files, Tools-serves,
          services.rename_sites_lem,
        )
        depth 12

  Tools-do_retrieve :
      (step : ℕ) (action : AgentAction) (spans : List DataSpan)
      → Moves R (do_retrieve services ctx step action spans)
  unfolding do_retrieve
  Tools-do_retrieve step action spans =
      search
        (
          Tools-order, moves_rules, Tools-emits, Tools-reads_clock, Tools-applies, Tools-bytes,
          Tools-seconds, Tools-creates, Tools-runs, Tools-serves, services.definition_lem,
          services.read_span_lem,
        )
        depth 12

  pub Tools-run_effect :
      (step : ℕ) (action : AgentAction) (spans : List DataSpan)
      → Moves R (run_effect env wide services ctx step action spans)
  unfolding run_effect
  Tools-run_effect step action spans = of_kind action.kind
    where
      of_kind :
          (k : ActionKind)
          → Moves R (run_effect env wide services ctx step (record action { kind = k }) spans)
      of_kind ActionKind.plan = search (
        Tools-order, moves_rules, Tools-emits, Tools-reads_clock, Tools-applies, Tools-bytes,
        Tools-seconds, Tools-creates, Tools-runs,
      )
      of_kind ActionKind.retrieve = Tools-do_retrieve step _ spans
      of_kind ActionKind.edit = search (
        Tools-order, moves_rules, Tools-emits, Tools-reads_clock, Tools-applies, Tools-bytes,
        Tools-seconds, Tools-creates, Tools-runs, Tools-do_edit,
      )
      of_kind ActionKind.rename = search (
        Tools-order, moves_rules, Tools-emits, Tools-reads_clock, Tools-applies, Tools-bytes,
        Tools-seconds, Tools-creates, Tools-runs, Tools-do_rename,
      )
      of_kind ActionKind.verify = search (
        Tools-order, moves_rules, Tools-emits, Tools-reads_clock, Tools-applies, Tools-bytes,
        Tools-seconds, Tools-creates, Tools-runs, Tools-do_verify,
      )
      of_kind ActionKind.give_up = search (
        Tools-order, moves_rules, Tools-emits, Tools-reads_clock, Tools-applies, Tools-bytes,
        Tools-seconds, Tools-creates, Tools-runs,
      )
