-- ===== src/Orchestrator/Loop/Turns.antt =====
-- One turn of the loop of orchestrator/loop.py: how it ends the run, or how it goes on.
use agentic_code_intelligenc.Prelude.{
  ℕ, ◌+◌, leb, Bool, true, false, Option, none, some, List, Text, text_eq_refl, ◌≡◌, refl, arith,
  Bool-cases, inl, inr, ◌⊎◌,
}
use agentic_code_intelligenc.Common.{
  TaskState, TaskMode, is_terminal, Reason, Error, Result, ok, err,
}
use agentic_code_intelligenc.Db.{Task, JournalEntry}
use agentic_code_intelligenc.Db.Tasks.{get_for_resume, set_state}
use agentic_code_intelligenc.Db.Tasks.Updates.{get_for_resume-update, updated}
use agentic_code_intelligenc.Db.Journal.{get_step}
use agentic_code_intelligenc.Db.Accounts.{set_head}
use agentic_code_intelligenc.Files.{Fs, FilePath}
use agentic_code_intelligenc.World.{
  set_files, modify_files, Env, World, pure, raise, gets, modify_db, emit, ◌>>=◌,
}
use agentic_code_intelligenc.World.Moves.{Order, Moves, moves_rules}
use agentic_code_intelligenc.World.Post.{Post, Post-bind, Post-gets-bind, Post-if, Post_at}
use agentic_code_intelligenc.Workspace.{fast_forward, commit_worktree, get_workspace, take_lock}
use agentic_code_intelligenc.Prompt.{AgentAction, ActionKind, DataSpan}
use agentic_code_intelligenc.Orchestrator.Services.{Services}
use agentic_code_intelligenc.Orchestrator.Effects.{Ctx, verified_from_journal}
use agentic_code_intelligenc.Orchestrator.Loop.{
  TaskStatus, LoopState, Turn, status, status_of, budget_breach, terminate, conflict_reason,
  commit_if_apply, max_repair_attempts, end_with, after_commit, step_with, unless_breach,
  after_success, after_failure, decide, replay_step, fresh_step, turn,
}

pub mode_cases : (m : TaskMode) → (m ≡ TaskMode.apply) ⊎ (m ≡ TaskMode.dry_run)
mode_cases TaskMode.apply = inl refl
mode_cases TaskMode.dry_run = inr refl

-- The journal holds a VERIFY step whose sandbox run passed.
abbrev pub HasVerdict : Text → World → Type 0
HasVerdict task_id w = (step : ℕ) × (verified_from_journal task_id step w ≡ true)

-- A run may end in this status.
abbrev pub IsEnding : Text → TaskStatus → World → Type 0
IsEnding task_id s w =
    (is_terminal s.state ≡ true) × (s.state ≡ TaskState.verified_success → HasVerdict task_id w)

abbrev pub Outcome : Ctx → LoopState → Turn → World → Type 0
Outcome ctx st (Turn.finish s) w = IsEnding ctx.task.id s w
Outcome ctx st (Turn.again st') w =
    (st'.step ≡ st.step + 1) × (leb ctx.task.step_budget st.step ≡ false)

verified_journal :
    (t : Text) (k : ℕ) (w w' : World)
    → w'.db.journal ≡ w.db.journal
    → verified_from_journal t k w' ≡ verified_from_journal t k w
unfolding verified_from_journal get_step
verified_journal t k w w' e = rw e refl

status_of_lem :
    (ctx : Ctx) (state : TaskState) (reason : Option Reason) (w : World) (found : Option Task)
    → Post
        (λ s w'. (s.state ≡ state) × (w'.db.journal ≡ w.db.journal))
        (status_of ctx.worktree
          (updated true (λ t. record t { state = state; reason = reason }) found)
          w)
unfolding status gets raise
status_of_lem ctx state reason w none = tt
status_of_lem ctx state reason w (some t) = (refl, refl)

-- the status has this state, and the journal is that of this world
abbrev Ends : TaskState → World → TaskStatus → World → Type 0
Ends state w s w' = (s.state ≡ state) × (w'.db.journal ≡ w.db.journal)

-- `_terminate` returns the state that it was given, and leaves the journal.
terminate_lem :
    (ctx : Ctx) (state : TaskState) (reason : Option Reason) (w : World)
    → Post (Ends state w) (terminate ctx state reason w)
unfolding terminate modify_db gets emit ◌>>=◌ set_state get_for_resume
terminate_lem ctx state reason w =
    rw
      (get_for_resume-update ctx.task.id ctx.task.id
        (λ t. record t { state = state; reason = reason }) w.db (λ x. refl))
      (rw (text_eq_refl ctx.task.id)
        (status_of_lem ctx state reason _ (get_for_resume ctx.task.id w.db)))

-- The journal is as it was.
abbrev SameJournal : World → World → Type 0
SameJournal v v' = v'.db.journal ≡ v.db.journal

journal_order : Order SameJournal
journal_order = record { refl' = λ v. refl; trans = λ u v w p q. cc }

Journal-get_workspace : (u w : Text) → Moves SameJournal (get_workspace u w)
unfolding get_workspace
Journal-get_workspace u w = record { at = λ v. refl }

Journal-files : (f : Fs → Result Fs) → Moves SameJournal (modify_files f)
unfolding modify_files
Journal-files f = record { at = λ v. of_result v (f v.fs) }
  where
    of_result : (v : World) (r : Result Fs) → SameJournal v (set_files v r).1
    of_result v (ok fs) = refl
    of_result v (err e) = refl

module _ (env : Env) (wide : ℕ → Bool) (services : Services) (root : FilePath) where
  fast_forward_journal :
      (u w t base : Text) (v : World)
      → (fast_forward env root u w t base v).1.db.journal ≡ v.db.journal
  unfolding fast_forward set_head
  fast_forward_journal u w t base v = ground arith

  Journal-fast_forward : (u w t base : Text) → Moves SameJournal (fast_forward env root u w t base)
  Journal-fast_forward u w t base = record { at = fast_forward_journal u w t base }

  Journal-take_lock : Moves SameJournal (take_lock env root)
  unfolding take_lock
  Journal-take_lock = record { at = λ v. refl }

  Journal-commit_worktree :
      (u w t base : Text) → Moves SameJournal (commit_worktree env root u w t base)
  unfolding commit_worktree
  Journal-commit_worktree u w t base =
      search
        (
          journal_order, moves_rules, Journal-get_workspace, Journal-files, Journal-take_lock,
          Journal-fast_forward,
        )
        depth 14

  commit_journal :
      (u w t base : Text) (v : World)
      → (commit_worktree env root u w t base v).1.db.journal ≡ v.db.journal
  commit_journal u w t base v = (Journal-commit_worktree u w t base).at v

  conflict_reason_lem :
      (x : Result Text × World) (w : World)
      → x.1.db.journal ≡ w.db.journal
      → Post (λ r w'. w'.db.journal ≡ w.db.journal) (conflict_reason env wide services root x)
  conflict_reason_lem (ok head, v) w e = e
  conflict_reason_lem (err Error.conflict, v) w e = e
  conflict_reason_lem (err _, v) w e = tt

  commit_if_apply_lem :
      (ctx : Ctx) (w : World)
      → Post (λ r w'. w'.db.journal ≡ w.db.journal) (commit_if_apply env wide services root ctx w)
  unfolding commit_if_apply
  commit_if_apply_lem ctx w = elim (mode_cases ctx.task.mode) [
    | inl e ↦ rw e (conflict_reason_lem _ w (commit_journal _ _ _ _ w))
    | inr e ↦ rw e refl
  ]

  end_with_lem :
      (ctx : Ctx) (st : LoopState) (state : TaskState) (reason : Option Reason) (w : World)
      → is_terminal state ≡ true
      → (state ≡ TaskState.verified_success → HasVerdict ctx.task.id w)
      → Post (Outcome ctx st) (end_with env wide services root ctx state reason w)
  unfolding pure
  end_with_lem ctx st state reason w terminal verdict =
      Post-bind (Outcome ctx st) (terminate ctx state reason) _ w λ s w' e.
        let (same, kept) = Post_at (Ends state w) (terminate_lem ctx state reason w) e in
        (
          rw same terminal,
          λ good.
              let (step, v) = verdict (cc) in
              (step, rw (verified_journal ctx.task.id step w w' kept) v),
        )

  after_success_lem :
      (ctx : Ctx) (st : LoopState) (w : World)
      → verified_from_journal ctx.task.id st.step w ≡ true
      → Post (Outcome ctx st) (after_success env wide services root ctx w)
  unfolding after_success is_terminal
  after_success_lem ctx st w v =
      Post-bind (Outcome ctx st) (commit_if_apply env wide services root ctx) _ w λ conflict w' e.
        let kept = Post_at (λ r w'. w'.db.journal ≡ w.db.journal) (commit_if_apply_lem ctx w) e in
        after conflict w' (rw (verified_journal ctx.task.id st.step w w' kept) v)
    where
      after :
          (conflict : Option Reason) (w' : World)
          → verified_from_journal ctx.task.id st.step w' ≡ true
          → Post (Outcome ctx st) (after_commit env wide services root ctx conflict w')
      after (some reason) w' v' =
          end_with_lem ctx st TaskState.gave_up (some reason) w' refl (λ h. cc)
      after none w' v' =
          end_with_lem ctx st TaskState.verified_success none w' refl (λ h. (st.step, v'))

  after_failure_lem :
      (ctx : Ctx) (st : LoopState) (attempts : ℕ) (spans : List DataSpan) (w : World)
      → leb ctx.task.step_budget st.step ≡ false
      → Post (Outcome ctx st) (after_failure env wide services root ctx st.step attempts spans w)
  unfolding after_failure is_terminal ◌>>=◌ gets emit pure
  after_failure_lem ctx st attempts spans w room =
      Post-if (Outcome ctx st) (leb max_repair_attempts attempts) _ _ w
        (λ h. end_with_lem ctx st TaskState.gave_up _ w refl (λ h'. cc)) (λ h. (refl, room))

  decide_lem :
      (ctx : Ctx) (st : LoopState) (attempts : ℕ) (action : AgentAction) (spans : List DataSpan)
      (w : World)
      → leb ctx.task.step_budget st.step ≡ false
      → Post (Outcome ctx st) (decide env wide services root ctx st.step attempts action spans w)
  unfolding decide is_terminal pure
  decide_lem ctx st attempts action spans w room = of_kind action.kind
    where
      of_kind :
          (k : ActionKind)
          → Post (Outcome ctx st) (
              decide env wide services root ctx st.step attempts
                (record action { kind = k })
                spans
                w)
      of_kind ActionKind.give_up = end_with_lem ctx st TaskState.gave_up _ w refl (λ h. cc)
      of_kind ActionKind.verify =
          Post-gets-bind (Outcome ctx st) (verified_from_journal ctx.task.id st.step) _ w (
            Post-if (Outcome ctx st) (verified_from_journal ctx.task.id st.step w) _ _ w
              (λ v. after_success_lem ctx st w v)
              (λ v. after_failure_lem ctx st attempts spans w room))
      of_kind _ = (refl, room)

  replay_step_lem :
      (ctx : Ctx) (st : LoopState) (entry : JournalEntry) (w : World)
      → leb ctx.task.step_budget st.step ≡ false
      → Post (Outcome ctx st) (replay_step env wide services root ctx st entry w)
  unfolding replay_step
  replay_step_lem ctx st entry w room = Post-bind (Outcome ctx st) _ _ w λ action w1 e1.
      Post-bind (Outcome ctx st) _ _ w1 λ spans w2 e2. Post-bind (Outcome ctx st) _ _ w2 λ u w3 e3.
        Post-bind (Outcome ctx st) _ _ w3
          λ attempts w4 e4. decide_lem ctx st attempts action _ w4 room

  fresh_step_lem :
      (ctx : Ctx) (st : LoopState) (w : World)
      → leb ctx.task.step_budget st.step ≡ false
      → Post (Outcome ctx st) (fresh_step env wide services root ctx st w)
  unfolding fresh_step
  fresh_step_lem ctx st w room =
      Post-bind (Outcome ctx st) _ _ w
        λ r w1 e1. decide_lem ctx st st.repair_attempts r.0 r.1 w1 room

  budget_breach-none :
      (ctx : Ctx) (step : ℕ) (w w' : World)
      → budget_breach env ctx step w ≡ (ok none, w')
      → leb ctx.task.step_budget step ≡ false
  unfolding budget_breach
  budget_breach-none ctx step w w' e = elim (Bool-cases (leb ctx.task.step_budget step)) [
    | inl over ↦ cc
    | inr room ↦ room
  ]

  -- One turn, whatever the model and the sandbox answer: where it ends the run, the status is
  -- terminal, and `verified_success` only with a passed VERIFY step in the journal; where it goes
  -- on, the step counts up by one and was below the budget.
  pub turn-Outcome :
      (ctx : Ctx) (st : LoopState) (w : World)
      → Post (Outcome ctx st) (turn env wide services root ctx st w)
  unfolding turn is_terminal
  turn-Outcome ctx st w =
      Post-bind (Outcome ctx st) (budget_breach env ctx st.step) _ w
        (λ breach w' e. after breach w' e)
    where
      cached :
          (found : Option JournalEntry) (w' : World)
          → leb ctx.task.step_budget st.step ≡ false
          → Post (Outcome ctx st) (step_with env wide services root ctx st found w')
      cached (some entry) w' room = replay_step_lem ctx st entry w' room
      cached none w' room = fresh_step_lem ctx st w' room

      after :
          (breach : Option Reason) (w' : World)
          → budget_breach env ctx st.step w ≡ (ok breach, w')
          → Post (Outcome ctx st) (unless_breach env wide services root ctx st breach w')
      after (some reason) w' e = end_with_lem ctx st TaskState.budget_exhausted _ w' refl (λ h. cc)
      after none w' e =
          Post-gets-bind (Outcome ctx st) (λ w. get_step ctx.task.id st.step w.db) _ w'
            (cached (get_step ctx.task.id st.step w'.db) w' (budget_breach-none ctx st.step w w' e))
