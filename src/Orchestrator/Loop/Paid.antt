-- ===== src/Orchestrator/Loop/Paid.antt =====
-- What a step of orchestrator/loop.py that calls the model leaves: its journal row and its charge.
use agentic_code_intelligenc.Prelude.{
  ℕ, ◌+◌, Bool, true, none, some, List, [], ◌∷◌, ◌++◌, All, Text, codes, str, starts_with-append,
  ◌≡◌, refl, arith,
}
use agentic_code_intelligenc.Common.{Result, ok}
use agentic_code_intelligenc.Db.{Effect, JournalEntry, Payload, LedgerEntry, Database}
use agentic_code_intelligenc.Db.Tasks.{bump_tokens}
use agentic_code_intelligenc.Db.Journal.{get_step}
use agentic_code_intelligenc.Db.Journal.Append.{append_new, new_entry, get_step-append}
use agentic_code_intelligenc.Db.Ledger
use agentic_code_intelligenc.Files.{FilePath}
use agentic_code_intelligenc.World.{
  Env, World, ModelRequest, ModelResponse, pure, lift, with_db, modify_db, ◌>>=◌,
}
use agentic_code_intelligenc.World.Post.{Post, Post-bind, Post-Moves, Post_at, Post-all}
use agentic_code_intelligenc.Prompt.{AgentAction, DataSpan, kind_value, build_channels}
use agentic_code_intelligenc.Orchestrator.Services.{Services, IsStepless}
use agentic_code_intelligenc.Orchestrator.Charges.{is_model_note, commit_step_charge}
use agentic_code_intelligenc.Orchestrator.Charges.Reconcile.{
  commits, commits-append, commits-commit_step_charge,
}
use agentic_code_intelligenc.Orchestrator.Effects.{Ctx, kind_for_action}
use agentic_code_intelligenc.Orchestrator.Effects.Keeps.{Keeps, Keeps-run_effect}
use agentic_code_intelligenc.Orchestrator.Loop.{
  LoopState, Turn, call_model, payload, journal_step, issue_model_call, fresh_step,
}
use agentic_code_intelligenc.Orchestrator.Loop.Keeps.{Keeps-decide}

-- The step is in the journal with this answer and its price, and charged once.
pub record IsPaid (scope t : Text) (step : ℕ) (r : ModelResponse) (w : World) : Type 0 where
  pub entry : JournalEntry
  pub journaled : get_step t step w.db ≡ some entry
  pub content : entry.payload.content_xml ≡ r.content_xml
  pub price : entry.payload.charge_tokens ≡ some (r.input_tokens + r.output_tokens)
  pub charged_once : commits scope t step w.db.budget_ledger ≡ 1

commits-stepless :
    (scope t : Text) (k : ℕ) (rows : List LedgerEntry)
    → All IsStepless rows
    → commits scope t k rows ≡ 0
unfolding commits
commits-stepless scope t k [] h = refl
commits-stepless scope t k (e ∷ rows) (h, hs) =
    rw h (rw (commits-stepless scope t k rows hs) (ground arith))

module _ (scope t : Text) (step : ℕ) where
  commits-Keeps :
      (w w' : World)
      → Keeps w w'
      → commits scope t step w'.db.budget_ledger ≡ commits scope t step w.db.budget_ledger
  commits-Keeps w w' k = rw k.ledger_same (
      rw (commits-append scope t step w.db.budget_ledger k.rows)
        (rw (commits-stepless scope t step k.rows k.stepless) (omega arith)))

  get_step-Keeps : (w w' : World) → Keeps w w' → get_step t step w'.db ≡ get_step t step w.db
  unfolding get_step
  get_step-Keeps w w' k = rw k.journal_same refl

  IsPaid-Keeps :
      (r : ModelResponse) (w w' : World)
      → Keeps w w'
      → IsPaid scope t step r w
      → IsPaid scope t step r w'
  IsPaid-Keeps r w w' k p = record {
    entry = p.entry;
    journaled = rw (get_step-Keeps w w' k) p.journaled;
    content = p.content;
    price = p.price;
    charged_once = rw (commits-Keeps w w' k) p.charged_once;
  }

module _ (env : Env) (wide : ℕ → Bool) (services : Services) (root : FilePath) where
  model_note : (s : Text) → is_model_note (some (codes "model:" ++ s)) ≡ true
  model_note s = rw (starts_with-append (codes "model:") s) refl

  pub commit_journal :
      (scope t : Text) (k n : ℕ) (memo : Text) (db : Database)
      → (commit_step_charge scope t k n memo db).journal ≡ db.journal
  unfolding commit_step_charge Ledger.append
  commit_journal scope t k n memo db = ground arith

  journal_step-IsPaid :
      (ctx : Ctx) (step : ℕ) (action : AgentAction) (r : ModelResponse) (effect : Effect)
      (w : World)
      → get_step ctx.task.id step w.db ≡ none
      → commits ctx.scope ctx.task.id step w.db.budget_ledger ≡ 0
      → Post
          (λ _ w'. IsPaid ctx.scope ctx.task.id step r w')
          (journal_step env wide services root ctx step action r effect w)
  unfolding journal_step ◌>>=◌ with_db modify_db bump_tokens get_step
  journal_step-IsPaid ctx step action r effect w fresh uncharged =
      let t = ctx.task.id in
      let kind = kind_for_action action.kind in
      let key = codes "step:" ++ (t ++ (codes ":" ++ str step)) in
      let row : Payload = payload env wide services root r effect in
      let added = append_new t step kind key row w.db fresh in
      record {
        entry = new_entry t step kind key row w.db;
        journaled =
            rw commit_journal
              (rw added (let p = get_step-append t step kind key row w.db in rw added at p));
        content = refl;
        price = refl;
        charged_once =
            rw
              (commits-commit_step_charge ctx.scope t step step _ _ _
                (model_note (kind_value action.kind)))
              (rw added (rw uncharged (ground arith)));
      }

  -- the request of a step
  abbrev pub request : Ctx → LoopState → ModelRequest
  request ctx st = record {
    task_id = ctx.task.id;
    step_index = st.step;
    instruction_xml = (build_channels ctx.task.instruction st.data_spans).0;
    data_xml = (build_channels ctx.task.instruction st.data_spans).1;
  }

  abbrev Paid : Ctx → LoopState → World → Turn → World → Type 0
  Paid ctx st w _ w' =
      (r : ModelResponse) × (env.complete w.model_calls (request ctx st) ≡ ok r)
      × IsPaid ctx.scope ctx.task.id st.step r w'

  call_model_lem :
      (req : ModelRequest) (r : ModelResponse) (w w' : World)
      → call_model env req w ≡ (ok r, w')
      → (env.complete w.model_calls req ≡ ok r) × (w'.db ≡ w.db)
  unfolding call_model
  call_model_lem req r w w' e = ground (arith, e)

  lift_lem : {A : Type 0} (x : Result A) (a : A) (w w' : World) → lift x w ≡ (ok a, w') → w' ≡ w
  unfolding lift
  lift_lem x a w w' e = ground (arith, e)

  issue_model_call-Paid :
      (ctx : Ctx) (st : LoopState) (w : World)
      → get_step ctx.task.id st.step w.db ≡ none
      → commits ctx.scope ctx.task.id st.step w.db.budget_ledger ≡ 0
      → Post
          (λ _ w'. Paid ctx st w (Turn.again st) w')
          (issue_model_call env wide services root ctx st.step st.data_spans w)
  unfolding issue_model_call pure
  issue_model_call-Paid ctx st w fresh uncharged =
      let P : AgentAction × List DataSpan → World → Type 0 =
        λ _ w'. Paid ctx st w (Turn.again st) w' in
      Post-bind P _ _ w λ r w1 e1.
        let (answer, same1) = call_model_lem (request ctx st) r w w1 e1 in
        Post-bind P _ _ w1 λ action w2 e2.
          let same2 = lift_lem _ action w1 w2 e2 in
          Post-Moves Keeps P _ _ w2
            (Keeps-run_effect env wide services ctx st.step action st.data_spans)
            λ x w3 k. Post-bind P _ _ w3 λ _ w4 e4. (
              r,
              answer,
              Post_at (λ _ w'. IsPaid ctx.scope ctx.task.id st.step r w')
                  (journal_step-IsPaid ctx st.step action r x.0 w3
                    (rw (get_step-Keeps ctx.scope ctx.task.id st.step w2 w3 k, same2, same1) fresh)
                    (rw (commits-Keeps ctx.scope ctx.task.id st.step w2 w3 k, same2, same1)
                      uncharged))
                  e4,
            )

  fresh_step-Post :
      (ctx : Ctx) (st : LoopState) (w : World)
      → get_step ctx.task.id st.step w.db ≡ none
      → commits ctx.scope ctx.task.id st.step w.db.budget_ledger ≡ 0
      → Post (Paid ctx st w) (fresh_step env wide services root ctx st w)
  unfolding fresh_step
  fresh_step-Post ctx st w fresh uncharged =
      Post-bind (Paid ctx st w) (issue_model_call env wide services root ctx st.step st.data_spans)
        _ w
        λ x w1 e1.
          let (r, answer, paid) =
            Post_at (λ _ w'. Paid ctx st w (Turn.again st) w')
              (issue_model_call-Paid ctx st w fresh uncharged) e1 in
          Post-all (Paid ctx st w)
            (Keeps-decide env wide services root ctx st.step st.repair_attempts x.0 x.1) w1
            (λ t w2 k. (r, answer, IsPaid-Keeps ctx.scope ctx.task.id st.step r w1 w2 k paid))

  -- After a turn that called the model and did not raise, the answer is in the journal under the
  -- step, with its price, and the ledger has exactly one committed charge for the step, whatever the
  -- tool step, a commit and the end of the run did in the same turn. The step was neither in the
  -- journal nor charged before.
  pub fresh_step-IsPaid :
      (ctx : Ctx) (st : LoopState) (w w' : World) (next : Turn)
      → get_step ctx.task.id st.step w.db ≡ none
      → commits ctx.scope ctx.task.id st.step w.db.budget_ledger ≡ 0
      → fresh_step env wide services root ctx st w ≡ (ok next, w')
      → (r : ModelResponse) × (env.complete w.model_calls (request ctx st) ≡ ok r)
        × IsPaid ctx.scope ctx.task.id st.step r w'
  fresh_step-IsPaid ctx st w w' next fresh uncharged e =
      Post_at (Paid ctx st w) (fresh_step-Post ctx st w fresh uncharged) e
