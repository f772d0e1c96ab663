-- ===== src/Seats.antt =====
-- services/seat-inventory-service: the rows and the caches (Model, Cache), the four gRPC calls
-- (Hold, Calls), the REST routes (Routes), the life of a row and how every call follows it
-- (Change, Refine, Steps), what single calls promise (Laws,
-- CallLaws, ReplayLaws), pairs of calls (RoundTrip, Race), the cache deletion (CacheLaws).
pub mod Model
pub mod Cache
pub mod Hold
pub mod Calls
pub mod Routes
pub mod Change
pub mod Refine
pub mod Steps
pub mod Consistent
pub mod Laws
pub mod CallLaws
pub mod ReplayLaws
pub mod CacheLaws
pub mod RoundTrip
pub mod Race
mod Tests
