-- ===== src/Persistence/Emails.antt =====
-- app/persistence/classified_email_events.py: the durable inbox of classified emails. What `uuid4()`
-- returns is an argument, and `now - timedelta(seconds=n) > t` is written `t + n < now`.
pub mod Inbox
pub mod Codes
pub mod Alerts
pub mod Once
pub mod Buyer
mod Examples
