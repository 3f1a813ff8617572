-- ===== src/Examples.antt =====
-- Tests and examples: a database service that keeps its promises, a worker's environment on it,
-- and the theorems of the other modules at concrete inputs.
mod Memory
mod Environment
mod Doubles
mod Results
mod Promises
mod Planning
mod Endings
