-- ===== src/System.antt =====
-- The services together, over one world: the jobs table as every service sees it, and all that requests and
-- polls, in any order and whatever raises in them, can do to it.
pub mod Table
pub mod Additions
pub mod Updates
pub mod Clients
pub mod Repositories
pub mod Requests
pub mod Runs
pub mod Recoveries
pub mod Doubles
pub mod History
