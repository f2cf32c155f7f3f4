-- ===== src/Orchestrator.antt =====
-- orchestrator: the agent loop. `Effects` holds the steps' side effects, `Ledger` the charges,
-- `Loop` the state machine; the other modules prove what they are named for.
pub mod Services
pub mod Rename
pub mod Patch
pub mod Effects
pub mod Charges
pub mod Loop
pub mod Facade
