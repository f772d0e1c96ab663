-- ===== src/World.antt =====
-- What the orchestrators act on: the state of the services behind them (Model), their calls over
-- HTTP and gRPC (Calls), and rules for what holds after a handler (Hoare).
pub mod Model
pub mod Calls
pub mod Hoare
pub mod Frame
pub mod Calm
