-- ===== src/Domain/Transitions.antt =====
-- app/domain/transitions.py: which status may follow which. What the tables do not list raises a `ValueError`.
pub mod Graph
use war_thunder_rent_bot.Prelude.{Bool, true, false}
use war_thunder_rent_bot.Domain.States.{AccountStatus, RentalStatus}

-- `target in ACCOUNT_TRANSITIONS.get(current, set())`
abbrev pub account_transition : AccountStatus → AccountStatus → Bool
account_transition AccountStatus.available AccountStatus.reserved = true
account_transition AccountStatus.available AccountStatus.disabled = true
account_transition AccountStatus.reserved AccountStatus.active = true
account_transition AccountStatus.reserved AccountStatus.manual_review = true
account_transition AccountStatus.active AccountStatus.expiring = true
account_transition AccountStatus.active AccountStatus.security_alert = true
account_transition AccountStatus.active AccountStatus.manual_review = true
account_transition AccountStatus.expiring AccountStatus.revoking = true
account_transition AccountStatus.expiring AccountStatus.manual_review = true
account_transition AccountStatus.revoking AccountStatus.rotating_password = true
account_transition AccountStatus.revoking AccountStatus.manual_review = true
account_transition AccountStatus.rotating_password AccountStatus.available_offline = true
account_transition AccountStatus.rotating_password AccountStatus.manual_review = true
account_transition AccountStatus.available_offline AccountStatus.available = true
account_transition AccountStatus.available_offline AccountStatus.manual_review = true
account_transition AccountStatus.security_alert AccountStatus.revoking = true
account_transition AccountStatus.security_alert AccountStatus.manual_review = true
account_transition AccountStatus.manual_review AccountStatus.available = true
account_transition AccountStatus.disabled AccountStatus.available = true
account_transition _ _ = false

-- `target in allowed.get(current, set())`
abbrev pub rental_transition : RentalStatus → RentalStatus → Bool
rental_transition RentalStatus.reserved RentalStatus.active = true
rental_transition RentalStatus.reserved RentalStatus.manual_review = true
rental_transition RentalStatus.active RentalStatus.expiring = true
rental_transition RentalStatus.active RentalStatus.revoking = true
rental_transition RentalStatus.active RentalStatus.security_terminated = true
rental_transition RentalStatus.active RentalStatus.manual_review = true
rental_transition RentalStatus.expiring RentalStatus.revoking = true
rental_transition RentalStatus.expiring RentalStatus.manual_review = true
rental_transition RentalStatus.revoking RentalStatus.password_rotation = true
rental_transition RentalStatus.revoking RentalStatus.manual_review = true
rental_transition RentalStatus.password_rotation RentalStatus.finished = true
rental_transition RentalStatus.password_rotation RentalStatus.manual_review = true
rental_transition RentalStatus.security_terminated RentalStatus.revoking = true
rental_transition RentalStatus.security_terminated RentalStatus.manual_review = true
rental_transition _ _ = false
