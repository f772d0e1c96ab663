-- ===== src/Transfer.antt =====
-- orchestrators/transfer-orchestrator: the saga (Saga), the routes (Routes), and the consumer that
-- ends stuck transfers (Timeout).
pub mod Saga
pub mod Credits
pub mod Routes
pub mod Gate
pub mod GateCalls
pub mod GateSaga
pub mod GateRoutes
pub mod Sequence
pub mod TicketLost
pub mod Views
pub mod ViewRows
pub mod ViewLaws
pub mod Timeout
mod Tests
mod SagaTests
mod ViewTests
