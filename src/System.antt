-- ===== src/System.antt =====
-- What a worker process does, as a sequence of jobs: the requests of the HTTP routes, the passes
-- of the dialer worker, and the passes of the recovery worker. The other workers act between any
-- two requests of a job.
mod Jobs
pub mod History
unfoldable pub use Jobs.*
