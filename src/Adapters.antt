-- ===== src/Adapters.antt =====
-- app/adapters: the stores of secrets, the gate to FunPay, and the parser of emails.
pub mod Vault
pub mod Secrets
pub mod Session
pub mod Html
pub mod Classifier
mod Examples
