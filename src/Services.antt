-- ===== src/Services.antt =====
-- The services that own a database each: their rows and their routes.
pub mod Tickets
pub mod TicketLaws
pub mod Pages
pub mod ListRoutes
pub mod Users
pub mod UserLaws
pub mod Logs
pub mod Resets
pub mod ResetLaws
pub mod Events
pub mod EventLaws
pub mod Listings
pub mod ListingLaws
pub mod Transfers
pub mod TransferLaws
pub mod Ledger
mod Tests
mod AccountTests
