-- ===== src/Application/Moves/Transactions.antt =====
-- Each transaction of the repositories that the services commit is a step.
use war_thunder_rent_bot.Prelude.{ℕ, Option, none, some}
use war_thunder_rent_bot.Domain.States.{SecurityState, EmailMessageType}
use war_thunder_rent_bot.Persistence.Rows.{FunPayEventRow, MessageReceiptRow}
use war_thunder_rent_bot.Persistence.Booking.InboxSteps.{InboxStep}
use war_thunder_rent_bot.Persistence.Booking.Steps.{Step}
use war_thunder_rent_bot.Persistence.Repository.Claims.{
  claim_operation, claim_waiting_security_operation, claim_startup_recovery, release_recovery_claim,
}
use war_thunder_rent_bot.Persistence.Repository.Security.{
  prepare_operation, record_maintenance_login_requested, record_password_change_requested,
  set_security_state, wait_for_buyer_otp,
}
use war_thunder_rent_bot.Persistence.Repository.Completion.{
  operation_completed, operation_failed, complete_recovery_operation, fail_recovery_operation,
}
use war_thunder_rent_bot.Persistence.Repository.Expiry.{
  expire_due, extend_active_rental, record_active_security_event,
}
use war_thunder_rent_bot.Persistence.Repository.Recovery.{reconcile}
use war_thunder_rent_bot.Persistence.Emails.Codes.{
  EmailClaim, claim_login_otp, claim_maintenance_login_otp, claim_expected_password_change,
  mark_claim_consumed, mark_claim_unusable,
}
use war_thunder_rent_bot.Persistence.Emails.Inbox.{ClassifiedEmailEvent, store_event}
use war_thunder_rent_bot.Persistence.Emails.Alerts.{claim_security_events, mark_security_processed}
use war_thunder_rent_bot.Persistence.FunPayEvents.{
  ingest, claim_events, mark_processed, mark_failed_closed, mark_retryable, record_receipt,
}
use war_thunder_rent_bot.Application.Moves.{IsStep, Moves-transact}

pub claim_operation-IsStep :
    (token : ℕ) (i : ℕ) (now : ℕ) (lease : ℕ) → IsStep (claim_operation token i now lease)
claim_operation-IsStep token i now lease db d s = Step.claims token i now lease s

pub claim_waiting_security_operation-IsStep :
    (token : ℕ) (i : ℕ) (now : ℕ) (lease : ℕ)
    → IsStep (claim_waiting_security_operation token i now lease)
claim_waiting_security_operation-IsStep token i now lease db d s = Step.resumes token i now lease s

pub claim_startup_recovery-IsStep :
    (token : ℕ) (i : ℕ) (now : ℕ) → IsStep (claim_startup_recovery token i now)
claim_startup_recovery-IsStep token i now db d s = Step.claims_recovery token i now s

pub release_recovery_claim-IsStep : (i : ℕ) (token : ℕ) → IsStep (release_recovery_claim i token)
release_recovery_claim-IsStep i token db d s = Step.releases i token s

pub prepare_operation-IsStep : (i : ℕ) (now : ℕ) → IsStep (prepare_operation i now)
prepare_operation-IsStep i now db d s = Step.prepares i now s

pub record_maintenance_login_requested-IsStep :
    (i : ℕ) (now : ℕ) → IsStep (record_maintenance_login_requested i now)
record_maintenance_login_requested-IsStep i now db d s = Step.notes_login i now s

pub record_password_change_requested-IsStep :
    (i : ℕ) (now : ℕ) → IsStep (record_password_change_requested i now)
record_password_change_requested-IsStep i now db d s = Step.notes_password_change i now s

pub set_security_state-IsStep :
    (i : ℕ) (state : SecurityState) (now : ℕ) → IsStep (set_security_state i state now)
set_security_state-IsStep i state now db d s = Step.sets_security i now state s

pub wait_for_buyer_otp-IsStep : (i : ℕ) → IsStep (wait_for_buyer_otp i)
wait_for_buyer_otp-IsStep i db d s = Step.waits i s

pub operation_completed-IsStep :
    (new_id : ℕ) (i : ℕ) (now : ℕ) (recovery : Option ℕ) (normal : Option ℕ)
    → IsStep (operation_completed new_id i now recovery normal)
operation_completed-IsStep new_id i now recovery normal db d s =
    Step.completes new_id i now recovery normal s

pub operation_failed-IsStep :
    (i : ℕ) (now : ℕ) (recovery : Option ℕ) (normal : Option ℕ)
    → IsStep (operation_failed i now recovery normal)
operation_failed-IsStep i now recovery normal db d s = Step.fails i now recovery normal s

pub expire_due-IsStep : (ids : ℕ → ℕ) (now : ℕ) → IsStep (expire_due ids now)
expire_due-IsStep ids now db d s = Step.expires ids now s

pub extend_active_rental-IsStep :
    (i : ℕ) (buyer : ℕ) (extension : ℕ) (now : ℕ)
    → IsStep (extend_active_rental i buyer extension now)
extend_active_rental-IsStep i buyer extension now db d s = Step.extends i buyer extension now s

pub record_active_security_event-IsStep :
    (new_id : ℕ) (i : ℕ) (t : EmailMessageType) (correlation : ℕ) (now : ℕ)
    → IsStep (record_active_security_event new_id i t correlation now)
record_active_security_event-IsStep new_id i t correlation now db d s =
    Step.alerts new_id i correlation now t s

pub reconcile-IsStep : (now : ℕ) → IsStep (reconcile now)
reconcile-IsStep now db d s = Step.reconciles now s

pub claim_login_otp-IsStep :
    (token : ℕ) (request : ℕ) (i : ℕ) (buyer : ℕ) (requested : ℕ) (now : ℕ) (lookback : ℕ)
    (interval : ℕ)
    → IsStep (claim_login_otp token request i buyer requested now lookback interval)
claim_login_otp-IsStep token request i buyer requested now lookback interval db d s =
    Step.reads_inbox (InboxStep.claims_code token request i buyer requested now lookback interval s)

pub claim_maintenance_login_otp-IsStep :
    (window : ℕ) (token : ℕ) (account : ℕ) (i : ℕ) (requested : ℕ) (now : ℕ)
    → IsStep (claim_maintenance_login_otp window token account i requested now)
claim_maintenance_login_otp-IsStep window token account i requested now db d s =
    Step.reads_inbox (InboxStep.claims_maintenance_code window token account i requested now s)

pub claim_expected_password_change-IsStep :
    (token : ℕ) (i : ℕ) (now : ℕ) → IsStep (claim_expected_password_change token i now)
claim_expected_password_change-IsStep token i now db d s =
    Step.reads_inbox (InboxStep.claims_link token i now s)

pub mark_claim_consumed-IsStep : (c : EmailClaim) → IsStep (mark_claim_consumed c)
mark_claim_consumed-IsStep c db d s = Step.reads_inbox (InboxStep.consumes c s)

pub mark_claim_unusable-IsStep : (c : EmailClaim) → IsStep (mark_claim_unusable c)
mark_claim_unusable-IsStep c db d s = Step.reads_inbox (InboxStep.discards c s)

pub store_event-IsStep : (e : ClassifiedEmailEvent) (now : ℕ) → IsStep (store_event e now)
store_event-IsStep e now db d s = Step.reads_inbox (InboxStep.stores e now s)

pub claim_security_events-IsStep :
    (tokens : ℕ → ℕ) (now : ℕ) (lease : ℕ) → IsStep (claim_security_events tokens now lease)
claim_security_events-IsStep tokens now lease db d s =
    Step.reads_inbox (InboxStep.claims_alerts tokens now lease s)

pub mark_security_processed-IsStep : (i : ℕ) (token : ℕ) → IsStep (mark_security_processed i token)
mark_security_processed-IsStep i token db d s = Step.reads_inbox (InboxStep.ends_alert i token s)

pub ingest-IsStep : (e : FunPayEventRow) (now : ℕ) → IsStep (ingest e now)
ingest-IsStep e now db d s = Step.reads_inbox (InboxStep.ingests e now s)

pub claim_events-IsStep :
    (tokens : ℕ → ℕ) (now : ℕ) (lease : ℕ) → IsStep (claim_events tokens now lease)
claim_events-IsStep tokens now lease db d s =
    Step.reads_inbox (InboxStep.claims_events tokens now lease s)

pub mark_processed-IsStep : (i : ℕ) (token : ℕ) (now : ℕ) → IsStep (mark_processed i token now)
mark_processed-IsStep i token now db d s = Step.reads_inbox (InboxStep.ends_event i token now s)

pub mark_failed_closed-IsStep :
    (i : ℕ) (token : ℕ) (now : ℕ) → IsStep (mark_failed_closed i token now)
mark_failed_closed-IsStep i token now db d s =
    Step.reads_inbox (InboxStep.fails_event i token now s)

pub mark_retryable-IsStep : (i : ℕ) (token : ℕ) (now : ℕ) → IsStep (mark_retryable i token now)
mark_retryable-IsStep i token now db d s = Step.reads_inbox (InboxStep.retries_event i token now s)

pub record_receipt-IsStep : (r : MessageReceiptRow) → IsStep (record_receipt r)
record_receipt-IsStep r db d s = Step.reads_inbox (InboxStep.keeps_receipt r s)

pub complete_recovery_operation-IsStep :
    (new_id : ℕ) (i : ℕ) (token : ℕ) (now : ℕ)
    → IsStep (complete_recovery_operation new_id i token now)
unfolding operation_completed
complete_recovery_operation-IsStep new_id i token now db d s =
    Step.completes new_id i now (some token) none s

pub fail_recovery_operation-IsStep :
    (i : ℕ) (token : ℕ) (now : ℕ) → IsStep (fail_recovery_operation i token now)
unfolding operation_failed
fail_recovery_operation-IsStep i token now db d s = Step.fails i now (some token) none s

pub ruleset steps = (
  Moves-transact, claim_operation-IsStep, claim_waiting_security_operation-IsStep,
  claim_startup_recovery-IsStep, release_recovery_claim-IsStep, prepare_operation-IsStep,
  record_maintenance_login_requested-IsStep, record_password_change_requested-IsStep,
  set_security_state-IsStep, wait_for_buyer_otp-IsStep, operation_completed-IsStep,
  operation_failed-IsStep, expire_due-IsStep, extend_active_rental-IsStep,
  record_active_security_event-IsStep, reconcile-IsStep, claim_login_otp-IsStep,
  claim_maintenance_login_otp-IsStep, claim_expected_password_change-IsStep,
  mark_claim_consumed-IsStep, mark_claim_unusable-IsStep, store_event-IsStep,
  claim_security_events-IsStep, mark_security_processed-IsStep, ingest-IsStep, claim_events-IsStep,
  mark_processed-IsStep, mark_failed_closed-IsStep, mark_retryable-IsStep, record_receipt-IsStep,
  complete_recovery_operation-IsStep, fail_recovery_operation-IsStep,
)
