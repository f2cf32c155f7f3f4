-- ===== src/Orchestrator/Loop/Resume.antt =====
-- How `AgentLoop.run` of orchestrator/loop.py resumes a task: where it starts, and what a run pays.
use agentic_code_intelligenc.Prelude.{
  ℕ, suc, ◌+◌, ◌-◌, ◌≤◌, max, Bool, Option, none, some, List, [], ◌∷◌, find, filter, sorted,
  insert_sorted, Text, ◌≡◌, refl, ap, arith, Bool-cases, inl, inr,
}
use agentic_code_intelligenc.Common.{TaskState, is_terminal, Reason, Result, ok, err}
use agentic_code_intelligenc.Db.{Task, JournalEntry, Database}
use agentic_code_intelligenc.Db.Tasks.{get_for_resume, set_state}
use agentic_code_intelligenc.Db.Tasks.Updates.{get_for_resume_id}
use agentic_code_intelligenc.Db.Journal.{get_step, get_trace, at_step, of_task, by_step}
use agentic_code_intelligenc.Files.{FilePath, Fs}
use agentic_code_intelligenc.World.{with_files, Env, World, pure, gets, modify_db, now, ◌>>=◌}
use agentic_code_intelligenc.World.Moves.{Order, Moves, moves_rules}
use agentic_code_intelligenc.World.Post.{Post, Post-gets-bind, Post-Moves}
use agentic_code_intelligenc.Workspace.{get_workspace, open_worktree}
use agentic_code_intelligenc.Orchestrator.Services.{Services}
use agentic_code_intelligenc.Orchestrator.Charges.{charge_from_journal}
use agentic_code_intelligenc.Orchestrator.Charges.Reconcile.{charge_from_journal_rest}
use agentic_code_intelligenc.Orchestrator.Loop.{
  TaskStatus, Start, status, next_index, next_step_index, set_up, begin_with, prepare, start_loop,
  run,
}
use agentic_code_intelligenc.Orchestrator.Loop.Calls.{Total, Total-later, loop-Total}

-- An action that leaves the journal and the count of model calls.
pub record Quiet (w w' : World) : Type 0 where
  pub journal_same : w'.db.journal ≡ w.db.journal
  pub calls_same : w'.model_calls ≡ w.model_calls

Quiet-order : Order Quiet
Quiet-order = record {
  refl' = λ w. record { journal_same = refl; calls_same = refl };
  trans = λ u v w p q. record {
    journal_same = rw q.journal_same p.journal_same;
    calls_same = rw q.calls_same p.calls_same;
  };
}

Quiet-charge : (scope t : Text) → Moves Quiet (modify_db (charge_from_journal scope t))
unfolding modify_db
Quiet-charge scope t = record {
  at = λ w. record {
    journal_same = ap {A = Database} (λ d. d.journal) (charge_from_journal_rest scope t w.db);
    calls_same = refl;
  };
}

Quiet-set_state :
    (t : Text) (s : TaskState) (r : Option Reason) → Moves Quiet (modify_db (set_state t s r))
unfolding modify_db set_state
Quiet-set_state t s r = record { at = λ w. record { journal_same = refl; calls_same = refl } }

Quiet-now : (env : Env) → Moves Quiet (now env)
unfolding now
Quiet-now env = record { at = λ w. record { journal_same = refl; calls_same = refl } }

Quiet-get_workspace : (u w : Text) → Moves Quiet (get_workspace u w)
unfolding get_workspace
Quiet-get_workspace u w = record { at = λ v. record { journal_same = refl; calls_same = refl } }

-- only the files differ
Quiet-with_files : (f : Fs → Result (Unit {0}) × Fs) → Moves Quiet (with_files f)
unfolding with_files
Quiet-with_files f = record { at = λ w. record { journal_same = refl; calls_same = refl } }

ruleset quiet_rules = (
  Quiet-order, moves_rules, Quiet-charge, Quiet-set_state, Quiet-now, Quiet-get_workspace,
  Quiet-with_files,
)

module _ (env : Env) (wide : ℕ → Bool) (services : Services) (root : FilePath) where
  Quiet-open_worktree : (u w t : Text) → Moves Quiet (open_worktree env root u w t)
  unfolding open_worktree
  Quiet-open_worktree u w t = search quiet_rules depth 14

  Quiet-set_up : (task : Task) → Moves Quiet (set_up env wide services root task)
  unfolding set_up
  Quiet-set_up task = search (quiet_rules, Quiet-open_worktree) depth 20

  -- What the loop starts with: the step behind the last one in the journal, and no step paid yet.
  abbrev pub Ready : Task → World → Start → World → Type 0
  Ready task w (Start.already s) w' = Unit
  Ready task w (Start.ready ctx st) w' =
      (ctx.task ≡ task)
      × (st.step ≡ next_step_index task.id w)
      × (w'.db.journal ≡ w.db.journal)
      × (w'.model_calls ≡ w.model_calls)

  set_up-Ready :
      (task : Task) (w : World) → Post (Ready task w) (set_up env wide services root task w)
  unfolding set_up pure get_trace next_step_index
  set_up-Ready task w = Post-Moves Quiet (Ready task w) _ _ w (Quiet-charge _ _) λ _ w1 q1.
      Post-Moves Quiet (Ready task w) _ _ w1 (Quiet-now env) λ _ w2 q2.
        Post-Moves Quiet (Ready task w) _ _ w2 (Quiet-set_state _ _ _) λ _ w3 q3.
          Post-Moves Quiet (Ready task w) _ _ w3 (Quiet-get_workspace _ _) λ _ w4 q4.
            Post-Moves Quiet (Ready task w) _ _ w4 (Quiet-open_worktree _ _ _) λ _ w5 q5.
              Post-gets-bind (Ready task w) _ _ w5 (
                Post-gets-bind (Ready task w) _ _ w5
                  (Post-gets-bind (Ready task w) _ _ w5 (done w5 (chain q1 q2 q3 q4 q5))))
    where
      chain :
          {w1 w2 w3 w4 w5 : World}
          → Quiet w w1
          → Quiet w1 w2
          → Quiet w2 w3
          → Quiet w3 w4
          → Quiet w4 w5
          → Quiet w w5
      chain {w1} {w2} {w3} {w4} {w5} a b c d e =
          Quiet-order.trans w w4 w5
            (Quiet-order.trans w w3 w4 (Quiet-order.trans w w2 w3 (Quiet-order.trans w w1 w2 a b) c)
              d)
            e

      done :
          (v : World)
          → Quiet w v
          → (task ≡ task)
            × (next_step_index task.id v ≡ next_step_index task.id w)
            × (v.db.journal ≡ w.db.journal)
            × (v.model_calls ≡ w.model_calls)
      done v q = (refl, rw q.journal_same refl, q.journal_same, q.calls_same)

  Quiet-begin_with : (found : Option Task) → Moves Quiet (begin_with env wide services root found)
  Quiet-begin_with none = search quiet_rules
  Quiet-begin_with (some task) = search (quiet_rules, Quiet-set_up)

  start_loop-Total :
      (task : Task) (w : World) (x : Result Start × World)
      → Post (Ready task w) x
      → x.1.model_calls ≡ w.model_calls
      → Total (task.step_budget - next_step_index task.id w) w (start_loop env wide services root x)
  start_loop-Total task w (err e, v) p c = omega (arith, c)
  start_loop-Total task w (ok (Start.already s), v) p c = omega (arith, c)
  start_loop-Total task w (ok (Start.ready ctx st), v) (same, at, _, calls) c =
      Total-later env wide services root 0 (ctx.task.step_budget - st.step) _ w v _
        (omega (arith, calls)) (rw (same, at) (omega arith))
        (loop-Total env wide services root (suc ctx.task.step_budget) ctx st v)

  pub prepare-Resumed :
      (t : Text) (w : World) (task : Task)
      → get_for_resume t w.db ≡ some task
      → Post (Ready task w) (prepare env wide services root t w)
  unfolding prepare status pure gets ◌>>=◌
  prepare-Resumed t w task e = rw e (elim (Bool-cases (is_terminal task.state)) [
    | inl over ↦ rw over tt
    | inr live ↦ rw live (set_up-Ready task w)
  ])

  pub Quiet-prepare : (t : Text) → Moves Quiet (prepare env wide services root t)
  unfolding prepare
  Quiet-prepare t = search (Quiet-order, moves_rules, Quiet-begin_with)

  -- A run of a task calls the model at most once for each step of its budget that is not in the
  -- journal yet: what earlier runs journaled before a crash is not paid again.
  pub run_calls :
      (t : Text) (w w' : World) (task : Task) (r : Result TaskStatus)
      → get_for_resume t w.db ≡ some task
      → run env wide services root t w ≡ some (r, w')
      → w'.model_calls ≤ w.model_calls + (task.step_budget - next_step_index t w)
  unfolding run
  run_calls t w w' task r e h =
      let total =
        start_loop-Total task w (prepare env wide services root t w) (prepare-Resumed t w task e)
          ((Quiet-prepare t).at w).calls_same in
      let total' = rw h at total in rw (get_for_resume_id t w.db task e) at total'

-- No step of the trace is at or behind the next index.
next_index-insert :
    (x : JournalEntry) (rows : List JournalEntry)
    → next_index (insert_sorted by_step x rows) ≡ max (x.step_index + 1) (next_index rows)
unfolding next_index
next_index-insert x [] = refl
next_index-insert x (y ∷ rows) = ground (arith, next_index-insert x rows)

next_index-sorted : (rows : List JournalEntry) → next_index (sorted by_step rows) ≡ next_index rows
unfolding next_index
next_index-sorted [] = refl
next_index-sorted (x ∷ rows) =
    rw (next_index-insert x (sorted by_step rows)) (rw (next_index-sorted rows) refl)

find-beyond :
    (t : Text) (k : ℕ) (rows : List JournalEntry)
    → next_index (filter (of_task t) rows) ≤ k
    → find (at_step t k) rows ≡ none
unfolding next_index
find-beyond t k [] le = refl
find-beyond t k (x ∷ rows) le = ground (arith, le, find-beyond t k rows)

-- The step at which a run starts, the next step index, is one that the journal does not have.
pub resume_step_fresh : (t : Text) (w : World) → get_step t (next_step_index t w) w.db ≡ none
unfolding get_step next_step_index get_trace
resume_step_fresh t w = find-beyond t _ w.db.journal (rw next_index-sorted (omega arith))
