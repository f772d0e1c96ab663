-- ===== src/Purchase.antt =====
-- orchestrators/ticket-purchase-orchestrator/routes.py: the saga of POST /purchase/confirm
-- (Confirm), its tickets (OneTicket, OneTicketSaga,
-- OneTicketSale, NoDoubleSale), its compensation (Compensation), the routes of a hold
-- and its end (Holds, HoldExpiry), and two circuit breakers (Breaker, ServiceBreaker).
pub mod Confirm
pub mod OneTicket
pub mod OneTicketSaga
pub mod OneTicketSale
pub mod NoDoubleSale
pub mod Compensation
pub mod Holds
pub mod HoldQueue
pub mod HoldExpiry
pub mod Breaker
pub mod ServiceBreaker
mod Tests
mod BreakerTests
