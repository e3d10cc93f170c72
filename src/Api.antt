-- ===== src/Api.antt =====
-- What the handlers of repo/internal/api/handlers make of a request and of what a service answers.
pub mod Requests
pub mod Refusals
pub mod Bookings
pub mod Spared
pub mod Blamed
pub mod Booked
pub mod Accounts
pub mod Documents
pub mod Shelf
pub mod GroupBuys
pub mod Joined
pub mod Entered
pub mod SignedIn
pub mod Examples
pub mod Runs
