-- ===== src/Application.antt =====
-- app/application: the services over the repositories, and the ports to the outside.
pub mod World
pub mod Ports
pub mod Lease
pub mod Codes
pub mod Security
pub mod Rentals
pub mod Startup
pub mod Events
pub mod Mail
pub mod Runtime
pub mod Moves
pub mod Refinement
pub mod Confirmed
mod Examples
mod Witnesses
