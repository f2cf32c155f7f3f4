-- ===== src/Lib.antt =====
-- Agentic Code-Intelligence Platform: the control plane under src/acp.
--
-- A task is an instruction on a workspace. The agent loop runs it: turn by turn it asks a model for
-- one action in a strict XML vocabulary, carries the action out in a worktree of the task's own, and
-- writes one row to an append-only journal and one charge to an append-only ledger, until a
-- sandbox run of the patch passes, the model gives up or a budget is used up. A run that dies is
-- resumed from the journal.
--
-- The parts and their files:
--   Prelude      shared names, lists and numbers measured by the native naturals, texts as lists of
--                code points, integers, stable sorting; no code of the repository.
--   Common, Sandbox
--                src/acp/common/types.py, common/errors.py, sandbox_client/interface.py: enums,
--                errors as constructors without their messages, the sandbox's request and result.
--                Sandbox/Docker is sandbox_client/docker_runner.py: the arguments and the removal of the
--                container, and in Sandbox/Docker/Payload the result in its output. The started
--                process, json.loads and the redaction are arguments.
--   Db           src/acp/db/models.py and db/repositories.py: a row record for each table and a
--                function on the database for each method (UsersRepo, ApiKeysRepo and WorkspacesRepo
--                in Db/Accounts, TasksRepo in Db/Tasks, JournalRepo in Db/Journal, LedgerRepo in
--                Db/Ledger, ArtifactsRepo in Db/Artifacts). An autoincrement id is one more than the
--                number of rows, since no row leaves. One SQL transaction is one step.
--   Files        the files and directories that the code reads and writes with pathlib and shutil:
--                paths as lists of names, files as a map. Symbolic links are left out.
--   World        the state that the control plane acts on, and Env, the code outside the repository:
--                uuid4, SHA-256, the monotonic clock, flock, the model backend and the sandbox. A
--                call of it takes the number of the call, so that it may answer differently each
--                time. An action is a function of the world that returns or raises; what was written
--                before an exception stays. World/Moves and World/Post hold one rule for each way to
--                build an action.
--   Workspace    src/acp/workspace/service.py: worktrees, the guarded commit and its lock file, and in
--                Workspace/Indexes the persisted index, which is built where it is not there.
--   Prompt       src/acp/model_gateway/prompt.py: the instruction and the data channel, and the gate
--                from a reply to an action; Prompt/Xml models the XML parser of the standard library
--                for documents without comments, CDATA sections, doctypes and namespaces.
--   Backend      src/acp/model_gateway/stub.py: the scripted backend, with its regular expressions
--                written out as scans.
--   Orchestrator src/acp/orchestrator/loop.py: Orchestrator/Effects has the tool steps (_do_edit,
--                _do_rename, _do_verify, _do_retrieve), Orchestrator/Charges the charges and their
--                reconciliation, Orchestrator/Loop the `while` loop of AgentLoop.run, one turn at a
--                time. Orchestrator/Services is what the loop asks of retrieval and of the index, as
--                an interface with its laws: the ledger grows, and no file but the
--                persisted index of the workspace changes. Orchestrator/Facade is src/acp/orchestrator/service.py.
--   Retrieval    src/acp/retrieval/service.py and retrieval/accounting.py; Retrieval/Loaded fills the
--                interface of Orchestrator/Services, with the index of Workspace/Indexes. Retrieval/Search has search_symbols,
--                structural_grep and list_dir, Retrieval/Asked what a call of any primitive leaves.
--                Retrieval/Redaction is retrieval/redaction.py, its rules as data, over the matching
--                of Retrieval/Regex, and Retrieval/Sealed is the service with it; the other files take
--                the redaction as an argument, as they do the loading of the index and `str.lower`.
--   Index        src/acp/index/model.py: the partitions by file and the queries by name. Index/Builder
--                is index/builder.py with detect_language of index/languages.py; what tree-sitter
--                extracts of a file is an argument.
--   Gateway      src/acp/gateway/auth.py and common/security.py: the key check and the rate limit;
--                Gateway/Tasks is gateway/tasks_router.py, over the facade.
--   Tests        one example for each theorem with conditions, on one user with one task.
--
-- Fuel: the loop takes `step_budget + 1` turns of fuel. Each turn that goes on counts the step up by
-- one and was below the budget, so this is always enough. The XML tokens take the length of the text.
-- Times are in milliseconds, numbers are the native naturals, and a text is a list of code points.
--
-- A copy of a tree goes on past a clash of a file with a directory and raises at its end; the sandbox
-- may raise.
--
-- Not modelled: the canonical JSON of the persisted index, whose printing and reading are arguments;
-- foreign keys, CHECK constraints, created_at and cost_usd of the tables; log lines
-- and the details of events; the index cache of the retrieval service; line-end translation of text
-- files; backslashes in a new name, which re.sub reads as escapes; prices, which are fractions; the
-- extraction over tree-sitter; the Claude backend, metrics, the dashboard, settings and the command
-- line, which forward, format or print.
pub mod Prelude
pub mod Common
pub mod Sandbox
pub mod Db
pub mod Files
pub mod World
pub mod Workspace
pub mod Prompt
pub mod Orchestrator
pub mod Retrieval
pub mod Index
pub mod Gateway
pub mod Backend
pub mod Tests
