-- ===== src/Lifecycle.antt =====
-- The abstract specification: how one stored document may change, and how the database may, by
-- whichever worker. The modules below prove that each operation of the program stays within it.
pub mod Steps
pub mod Database
pub mod Moves
pub mod Agents
pub mod Borrowers
pub mod Calls
pub mod History
