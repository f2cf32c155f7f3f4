-- ===== src/Db/Journal/Refines.antt =====
-- What `JournalRepo` of db/repositories.py promises, as an abstract journal: a function from task and
-- step to the write that came first. Row ids and the order of the rows are forgotten.
use mathlib.Core.Path.{fun_ext}
use agentic_code_intelligenc.Prelude.{
  ℕ, ◌==◌, Bool, true, false, ◌&&◌, Option, none, some, List, [], ◌∷◌, find, if◌then◌else◌, Text,
  text_eq, text_eq_iff, ◌≡◌, ◌≢◌, ◌⊎◌, ◌∙◌, refl, ap, arith, Bool-cases, Option-cases, inl, inr,
}
use agentic_code_intelligenc.Common.{StepKind}
use agentic_code_intelligenc.Db.{JournalEntry, Payload, Database}
use agentic_code_intelligenc.Db.Journal.{at_step, get_step, append}
use agentic_code_intelligenc.Db.Journal.Append.{get_step-append, get_step-append_ne}

-- one call of `append`
pub record Write : Type 0 where
  pub task_id : Text
  pub step_index : ℕ
  pub kind : StepKind
  pub idempotency_key : Text
  pub payload : Payload

abbrev pub AbstractJournal : Type 0
AbstractJournal = Text → ℕ → Option Write

-- a row without its id
abbrev pub content_of : JournalEntry → Write
content_of e = record {
  task_id = e.task_id;
  step_index = e.step_index;
  kind = e.kind;
  idempotency_key = e.idempotency_key;
  payload = e.payload;
}

abbrev content : Option JournalEntry → Option Write
content none = none
content (some e) = some (content_of e)

-- the abstract journal that a database stands for
abbrev pub view : Database → AbstractJournal
view db t k = content (get_step t k db)

-- the write that stands after a write, and whether it is the new one
abbrev first_wins : Write → Option Write → Write × Bool
first_wins wr none = (wr, true)
first_wins wr (some old) = (old, false)

-- a write at its own place of the abstract journal, and nowhere else
abbrev pub recorded : Write → AbstractJournal → AbstractJournal
recorded wr m t k =
    if text_eq wr.task_id t && (wr.step_index == k) then some (first_wins wr (m t k)).0 else m t k

-- what the calls return, and where they lead
unfoldable pub append_all : List Write → Database → List (Write × Bool) × Database
append_all [] db = ([], db)
append_all (wr ∷ writes) db =
    let ((entry, created), db') =
      append wr.task_id wr.step_index wr.kind wr.idempotency_key wr.payload db in
    let (rest, db'') = append_all writes db' in ((content_of entry, created) ∷ rest, db'')

unfoldable pub replay : List Write → AbstractJournal → List (Write × Bool) × AbstractJournal
replay [] m = ([], m)
replay (wr ∷ writes) m =
    let (rest, m') = replay writes (recorded wr m) in
    (first_wins wr (m wr.task_id wr.step_index) ∷ rest, m')

module _ (wr : Write) (db : Database) where
  abbrev call : (JournalEntry × Bool) × Database
  call = append wr.task_id wr.step_index wr.kind wr.idempotency_key wr.payload db

  call_outcome : (content_of call.0.0, call.0.1) ≡ first_wins wr (view db wr.task_id wr.step_index)
  unfolding get_step append
  call_outcome = elim (Option-cases (find (at_step wr.task_id wr.step_index) db.journal)) [
    | inl fresh ↦ rw (append, fresh) refl
    | inr (e, old) ↦ rw (append, old) refl
  ]

  call_view_self :
      view call.1 wr.task_id wr.step_index
      ≡ some (first_wins wr (view db wr.task_id wr.step_index)).0
  call_view_self =
      ap content (get_step-append wr.task_id wr.step_index wr.kind wr.idempotency_key wr.payload db)
      ∙ ap {A = Write × Bool} (λ r. some r.0) call_outcome

  call_view : (t : Text) (k : ℕ) → view call.1 t k ≡ recorded wr (view db) t k
  call_view t k = elim (Bool-cases (text_eq wr.task_id t && (wr.step_index == k))) [
    | inl here ↦
        let t_same : t ≡ wr.task_id = ground (arith, here, text_eq_iff wr.task_id t) in
        let k_same : k ≡ wr.step_index = ground (arith, here) in
        rw here (rw (t_same, k_same) call_view_self)
    | inr elsewhere ↦
        let other : (t ≢ wr.task_id) ⊎ (k ≢ wr.step_index) = apart t k elsewhere in
        rw elsewhere (
          ap content (
            get_step-append_ne wr.task_id wr.step_index wr.kind wr.idempotency_key wr.payload db t k
              other))
  ]
    where
      apart :
          (u : Text) (n : ℕ)
          → (text_eq wr.task_id u && (wr.step_index == n)) ≡ false
          → (u ≢ wr.task_id) ⊎ (n ≢ wr.step_index)
      apart u n e = elim (Bool-cases (text_eq wr.task_id u)) [
        | inl same ↦ inr (λ q. ground (arith, same, e, q))
        | inr differ ↦ inl (λ q. ground (arith, differ, text_eq_iff wr.task_id u, q))
      ]

-- Any sequence of appends to the journal refines the abstract journal in which the first write of a step
-- wins: each call returns the write that stands and whether it is its own, as the abstract one does, and
-- the rows that are left stand for the abstract journal that is left.
pub append_all_refines :
    (writes : List Write) (db : Database)
    → ((append_all writes db).0 ≡ (replay writes (view db)).0)
      × (view (append_all writes db).1 ≡ (replay writes (view db)).1)
unfolding append_all replay
append_all_refines [] db = (refl, refl)
append_all_refines (wr ∷ writes) db =
    let same : view (call wr db).1 ≡ recorded wr (view db) =
      fun_ext (λ t. fun_ext (λ k. call_view wr db t k)) in
    let (outcomes, left) = append_all_refines writes (call wr db).1 in
    let outcomes' = outcomes ∙ ap (λ (m : AbstractJournal). (replay writes m).0) same in
    (
      (λ i. call_outcome wr db i ∷ outcomes' i),
      left ∙ ap (λ (m : AbstractJournal). (replay writes m).1) same,
    )
