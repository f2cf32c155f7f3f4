-- ===== src/Orchestrator/Effects/Contained.antt =====
-- Where a tool step of orchestrator/loop.py may write: in the task's worktree, and nowhere else.
use agentic_code_intelligenc.Prelude.{
  ℕ, Bool, false, List, Text, text_eq, codes, ◌≡◌, ◌≢◌, refl, arith, Bool-cases, inl, inr,
}
use agentic_code_intelligenc.Common.{Result, ok, err}
use agentic_code_intelligenc.Db.Artifacts
use agentic_code_intelligenc.Files.{
  FilePath, Fs, join, resolve, is_under, read, read-write_ne, read-unlink_ne,
}
use agentic_code_intelligenc.World.{
  Env, World, with_db_or, modify_db, modify_files, set_files, emit, now,
}
use agentic_code_intelligenc.World.Moves.{Order, Moves}
use agentic_code_intelligenc.Prompt.{AgentAction, DataSpan}
use agentic_code_intelligenc.Orchestrator.Services.{Services}
use agentic_code_intelligenc.Orchestrator.Effects.Parts.{Tools, Tools-run_effect}
use agentic_code_intelligenc.Orchestrator.Effects.{Ctx, apply_op, run_sandbox, run_effect}

-- The files outside the directory are as before, but for the index of the workspace.
pub record OnlyUnder (dir index_file : FilePath) (w w' : World) : Type 0 where
  pub outside :
      (q : FilePath)
      → is_under (resolve dir) q ≡ false
      → q ≢ index_file
      → read w'.fs q ≡ read w.fs q

under_order : (dir index_file : FilePath) → Order (OnlyUnder dir index_file)
under_order dir index_file = record {
  refl' = λ w. record { outside = λ q h n. refl };
  trans = λ u v w p r. record { outside = λ q h n. rw (r.outside q h n) (p.outside q h n) };
}

same_files :
    (dir index_file : FilePath) (w w' : World) → w'.fs ≡ w.fs → OnlyUnder dir index_file w w'
same_files dir index_file w w' e = record { outside = λ q h n. rw e refl }

-- An operation that `_apply_op_to_worktree` carries out, a write or a deletion, whatever path and
-- text the model gave, leaves every file outside the worktree as it was.
pub apply_op-outside :
    (worktree : FilePath) (op rel_path content : Text) (fs fs' : Fs) (q : FilePath)
    → apply_op worktree op rel_path content fs ≡ ok fs'
    → is_under (resolve worktree) q ≡ false
    → read fs' q ≡ read fs q
unfolding apply_op
apply_op-outside worktree op rel_path content fs fs' q h out =
    elim (Bool-cases (is_under (resolve worktree) (resolve (join worktree rel_path)))) [
      | inr escapes ↦ absurd (ground (arith, h, escapes))
      | inl inside ↦
          let other : q ≢ resolve (join worktree rel_path) = (λ e. cc) in
          elim (Bool-cases (text_eq op (codes "delete"))) [
            | inl del ↦ read-unlink_ne _ q fs fs' (ground (arith, h, inside, del)) other
            | inr set ↦ read-write_ne _ q content fs fs' (ground (arith, h, inside, set)) other
          ]
    ]

module _ (env : Env) (ctx : Ctx) (index_file : FilePath) where
  applies-outside :
      (op p content : Text)
      → Moves
          (OnlyUnder ctx.worktree index_file)
          (modify_files (apply_op ctx.worktree op p content))
  unfolding modify_files
  applies-outside op p content = record {
    at = λ w. of_result w (apply_op ctx.worktree op p content w.fs) refl;
  }
    where
      of_result :
          (w : World) (r : Result Fs)
          → apply_op ctx.worktree op p content w.fs ≡ r
          → OnlyUnder ctx.worktree index_file w (set_files w r).1
      of_result w (ok fs') e = record {
        outside = λ q h n. apply_op-outside ctx.worktree op p content w.fs fs' q e h;
      }
      of_result w (err x) e = record { outside = λ q h n. refl }

  under_tools : Tools env ctx index_file (OnlyUnder ctx.worktree index_file)
  unfolding emit now modify_db with_db_or run_sandbox Artifacts.create
  under_tools = record {
    order = under_order ctx.worktree index_file;
    emits = λ t k kind. record { at = λ w. same_files ctx.worktree index_file w _ refl };
    reads_clock = record { at = λ w. same_files ctx.worktree index_file w _ refl };
    applies = applies-outside;
    bytes = λ n. record { at = λ w. same_files ctx.worktree index_file w _ refl };
    seconds = λ n. record { at = λ w. same_files ctx.worktree index_file w _ refl };
    creates = λ kind hash p. record { at = λ w. same_files ctx.worktree index_file w _ refl };
    runs = record { at = λ w. same_files ctx.worktree index_file w _ refl };
    serves = λ w w' c. record { outside = λ q h n. c.other_files q n };
  }

-- Whatever action the model sends, its tool step, whether it returns or raises, leaves every file
-- outside the task's worktree as it was, but for one: the persisted index of the workspace, which a
-- retrieval may build.
pub run_effect-outside :
    (env : Env) (ctx : Ctx) (wide : ℕ → Bool) (services : Services) (step : ℕ)
    (action : AgentAction) (spans : List DataSpan) (w : World) (q : FilePath)
    → is_under (resolve ctx.worktree) q ≡ false
    → q ≢ services.index_file
    → read (run_effect env wide services ctx step action spans w).1.fs q ≡ read w.fs q
run_effect-outside env ctx wide services step action spans w q out other =
    ((Tools-run_effect env wide services ctx (OnlyUnder ctx.worktree services.index_file)
          (under_tools env ctx services.index_file) step action spans).at
        w).outside
      q out other
