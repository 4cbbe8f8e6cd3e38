-- ===== src/Domain.antt =====
-- app/domain: the enumerations, the value objects and the transition tables.
pub mod States
pub mod Transitions
pub mod Models
pub mod PixelStorm
pub mod FunPay
