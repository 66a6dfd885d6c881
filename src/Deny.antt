-- ===== src/Deny.antt =====
-- deny
pub mod State
pub mod Validate
pub mod Procs
pub mod Table
pub mod Edit
pub mod Listing
pub mod Enforce
pub mod Query
pub mod Cli
pub mod Invariant
pub mod Removal
pub mod Mode
pub mod Editing
pub mod Adding
pub mod Lookup
pub mod Requests
pub mod Sql
mod Examples
