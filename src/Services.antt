-- ===== src/Services.antt =====
-- app/services
pub mod ProviderHealth
pub mod Retry
pub mod Reservation
pub mod EventProcessor
pub mod CallAllocator
pub mod Delivery
