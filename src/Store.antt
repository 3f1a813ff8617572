-- ===== src/Store.antt =====
-- MongoDB, which the repositories of app/repositories call through motor: the requests that the
-- program makes, and what is documented of the answers.
pub mod Service
pub mod Laws
pub use Service.*
pub use Laws.*
