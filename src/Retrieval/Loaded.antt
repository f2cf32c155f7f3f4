-- ===== src/Retrieval/Loaded.antt =====
-- The index of workspace/service.py and the rename of orchestrator/loop.py behind the interface that the
-- loop asks: nothing is written but the index file.
use agentic_code_intelligenc.Retrieval.Metered.{
  charges_nothing, charges_order, Charges-definition, Charges-read_span,
}
use agentic_code_intelligenc.Prelude.{
  ℕ, ◌≡◌, Bool, true, false, [], append-nil, Text, refl, inl, inr,
}
use agentic_code_intelligenc.Common.{Result-cases, Error, ok, err, Result}
use agentic_code_intelligenc.Files.{read-write_ne, Fs, write, FilePath}
use agentic_code_intelligenc.World.{lift, ◌>>=◌, set_files, modify_files, Env, World, Act}
use agentic_code_intelligenc.World.Moves.{Moves-gets, Moves-pure, Moves-bind, Moves, moves_rules}
use agentic_code_intelligenc.Workspace.Indexes.{
  index_path_of, built, rename_sites, build_index, load_at, load_index,
}
use agentic_code_intelligenc.Workspace.{get_workspace}
use agentic_code_intelligenc.Index.Builder.{Extracted}
use agentic_code_intelligenc.Index.{Index}
use agentic_code_intelligenc.Orchestrator.Services.{ChargesOnly, Services}
use agentic_code_intelligenc.Retrieval.{SnapshotRef, definition, read_span}

-- a path, where there is one
abbrev pub path_or_root : Result FilePath → FilePath
path_or_root (ok path) = path
path_or_root (err e) = []

-- A workspace's index is built at most once, into its own file.
module _ (env : Env) (root : FilePath) (extract : Text → Text → Text → Extracted) where
  module _ (index_file : FilePath) where
    Charges-get : (u w : Text) → Moves (ChargesOnly index_file) (get_workspace u w)
    unfolding get_workspace
    Charges-get u w = record { at = charges_nothing index_file }

    Charges-built : (u w : Text) → Moves (ChargesOnly index_file) (built env root extract u w)
    unfolding built
    Charges-built u w = search (charges_order, moves_rules, Charges-get) depth 14

    pub Charges-rename_sites :
        (u w name : Text) → Moves (ChargesOnly index_file) (rename_sites env root extract u w name)
    unfolding rename_sites
    Charges-rename_sites u w name = search (charges_order, moves_rules, Charges-built) depth 14

    Charges-write : (c : Text) → Moves (ChargesOnly index_file) (modify_files (write index_file c))
    unfolding modify_files
    Charges-write c = record { at = λ w. at_result w (write index_file c w.fs) refl }
      where
        at_result :
            (w : World) (r : Result Fs)
            → write index_file c w.fs ≡ r
            → ChargesOnly index_file w (set_files w r).1
        at_result w (err e) h = charges_nothing index_file w
        at_result w (ok fs') h = record {
          rows = [];
          stepless = tt;
          db_same = rw (append-nil w.db.budget_ledger) refl;
          other_files = λ q other. read-write_ne index_file q c w.fs fs' h other;
          events_same = refl;
          calls_same = refl;
          runs_same = refl;
        }

    -- an action behind a value that is there
    Charges-lift_ok :
        {A B : Type 0} (a : A) (f : A → Act B)
        → Moves (ChargesOnly index_file) (f a)
        → Moves (ChargesOnly index_file) (lift (ok a) >>= f)
    unfolding lift ◌>>=◌
    Charges-lift_ok a f h = record { at = h.at }

    Charges-lift_err :
        {A B : Type 0} (e : Error) (f : A → Act B)
        → Moves (ChargesOnly index_file) (lift (err e) >>= f)
    unfolding lift ◌>>=◌
    Charges-lift_err e f = record { at = charges_nothing index_file }

  module _ (serialize : Index → Text) (from_serialized : Text → Result Index) where
    Charges-build_index :
        (u w : Text) (path : FilePath)
        → index_path_of root u w ≡ ok path
        → Moves (ChargesOnly path) (build_index env root extract serialize from_serialized u w)
    unfolding build_index
    Charges-build_index u w path e = rw e (
        Moves-bind (charges_order path) _ _ (Charges-built path u w) (λ index.
          Charges-lift_ok path path _ (
            Moves-bind (charges_order path) _ _ (Charges-write path (serialize index))
              (λ _. Moves-pure (charges_order path) index))))

    Charges-load_at :
        (u w : Text) (path : FilePath) (exists : Bool)
        → index_path_of root u w ≡ ok path
        → Moves
            (ChargesOnly path)
            (load_at env root extract serialize from_serialized u w path exists)
    Charges-load_at u w path false e = Charges-build_index u w path e
    Charges-load_at u w path true e = search (charges_order, moves_rules) depth 14

    -- Loading the index writes no file but the index, and raises no charge.
    pub Charges-load_index :
        (u w : Text)
        → Moves
            (ChargesOnly (path_or_root (index_path_of root u w)))
            (load_index env root extract serialize from_serialized u w)
    unfolding load_index
    Charges-load_index u w = elim (Result-cases (index_path_of root u w)) [
      | inl (path, e) ↦ rw e (
          Moves-bind (charges_order path) _ _ (Charges-get path u w) (λ _.
            Charges-lift_ok path path _ (
              Moves-bind (charges_order path) _ _ (Moves-gets (charges_order path) _)
                (λ exists. Charges-load_at u w path exists e))))
      | inr (error, e) ↦ rw e (
          Moves-bind (charges_order []) _ _ (Charges-get [] u w) (λ _. Charges-lift_err [] error _))
    ]

-- The service that the loop makes for a task, over its workspace's snapshot.
module _ (env : Env) (root : FilePath) (extract : Text → Text → Text → Extracted)
    (serialize : Index → Text) (from_serialized : Text → Result Index) (redact : Text → Text × ℕ)
    (user_id : Text) (snap : SnapshotRef) where
  abbrev loading : Text → Text → Act Index
  loading = load_index env root extract serialize from_serialized

  unfoldable pub retrieval_services : Services
  retrieval_services =
      let file = path_or_root (index_path_of root user_id snap.workspace_id) in
      let loads =
        Charges-load_index env root extract serialize from_serialized user_id snap.workspace_id in
      record {
        index_file = file;
        definition =
            λ scope budget name. definition redact loading root user_id scope budget snap name;
        read_span =
            λ scope budget span. read_span redact loading root user_id scope budget snap span;
        rename_sites = rename_sites env root extract;
        definition_lem = λ scope budget name.
            Charges-definition redact loading root user_id scope budget file snap loads name;
        read_span_lem = λ scope budget span.
            Charges-read_span redact loading root user_id scope budget file snap loads span;
        rename_sites_lem = λ u w name. Charges-rename_sites env root extract file u w name;
      }
