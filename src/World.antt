-- ===== src/World.antt =====
-- What a worker's process can see and change, the program that runs in it, and the environment.
pub mod State
pub mod Environment
pub mod Yields
pub mod Returns
unfoldable pub use State.*
unfoldable pub use Environment.*
