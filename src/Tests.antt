-- ===== src/Tests.antt =====
-- The tests of the development, and one example for each theorem with conditions.
pub mod Demo
mod Database
mod Loop
mod Workspaces
mod Boundary
mod Replies
mod Sandboxes
mod Consumers
mod Indexing
mod Searches
mod Redactions
