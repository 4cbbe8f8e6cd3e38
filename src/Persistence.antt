-- ===== src/Persistence.antt =====
-- app/persistence: the rows, the session with its constraints, and the repositories.
pub mod Rows
pub mod Session
pub mod Repository
pub mod Booking
pub mod Emails
pub mod FunPayEvents
pub mod Deadlines
pub mod FailClosed
pub mod Reserved
mod Failures
mod Examples
