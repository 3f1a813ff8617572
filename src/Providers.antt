-- ===== src/Providers.antt =====
-- app/providers: the mock providers' scripts of events, and where they lead a call.
pub mod Script
pub mod Mock
pub mod Lifetime
pub mod Tally
pub mod Following
pub mod Convergence
pub mod Endings
