-- ===== src/Persistence/Repository.antt =====
-- app/persistence/repositories.py: the transactions over accounts, orders, rentals and operations.
pub mod Internal
pub mod Queries
pub mod Reservation
pub mod Claims
pub mod Security
pub mod Completion
pub mod Expiry
pub mod Recovery
