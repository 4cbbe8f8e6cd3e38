-- ===== src/Persistence/Emails/Examples.antt =====
-- One account with two login codes, and the theorems applied to it.
use war_thunder_rent_bot.Prelude.{ℕ, ◌≡◌, refl, none, some, [], ◌∷◌, arith}
use war_thunder_rent_bot.Domain.States.{
  OperationStatus, OperationKind, EmailMessageType, EmailPayloadState, AccountStatus, RentalStatus,
}
use war_thunder_rent_bot.Table.{rowcount, HasUniqueKeys, get, first_by, update}
use war_thunder_rent_bot.Persistence.Rows.{
  ClassifiedEmailEventRow, ClaimedBy, SecurityProcessing, OtpOutcome,
}
use war_thunder_rent_bot.Persistence.Session.{Db, cas_email}
use war_thunder_rent_bot.Persistence.Booking.Steps.{no_rows}
use war_thunder_rent_bot.Persistence.Repository.Internal.Laws.{new_operation}
use war_thunder_rent_bot.Persistence.Emails.Codes.{
  EmailClaim, claimed_row, claim_maintenance_login_otp, claim_event, claim_login_otp,
  insert_otp_request,
}
use war_thunder_rent_bot.Persistence.Emails.Once.{
  MaintenanceClaim, claim_maintenance_login_otp_lem, code_claimed_once,
}
use war_thunder_rent_bot.Persistence.Emails.Buyer.{
  BuyerClaim, claim_login_otp_lem, maintenance_code_kept,
}

abbrev login_code : ℕ → ℕ → ClassifiedEmailEventRow
login_code i received_at = record {
  id = i;
  gmail_message_id = i;
  message_type = EmailMessageType.login_otp;
  received_at = received_at;
  routing_account_id = some 1;
  correlation_operation_id = none;
  claim_token = none;
  claimed_by = none;
  claimed_at = none;
  payload_state = EmailPayloadState.available;
  security_processing_state = SecurityProcessing.not_required;
  security_claim_token = none;
  security_claimed_at = none;
}

abbrev inbox : Db
inbox = record no_rows {
  accounts =
      record {
        id = 1;
        code = 100;
        status = AccountStatus.active;
        credential_version = 1;
        state_version = 2;
        created_at = 1000;
        updated_at = 1000;
      }
      ∷ [];
  rentals =
      record {
        id = 20;
        order_id = 10;
        buyer_id = 5;
        account_id = 1;
        tariff_code = 1;
        started_at = some 2000;
        expires_at = 900000000;
        status = RentalStatus.active;
        credential_version = 1;
        created_at = 2000;
        updated_at = 2000;
      }
      ∷ [];
  operations =
      record (new_operation 30 OperationKind.rotate_password 1 20 2000) {
        status = OperationStatus.running;
      }
      ∷ [];
  emails = login_code 50 3000 ∷ login_code 51 3500 ∷ [];
}

inbox_HasUniqueKeys : HasUniqueKeys (λ r. r.id) inbox.emails
unfolding rowcount
inbox_HasUniqueKeys i = ground arith

-- the first code is claimed for the rotation, and the second one too
abbrev claim_one : EmailClaim
claim_one = record { event_id = 50; claim_token = 7; request_id = none }

abbrev claim_two : EmailClaim
claim_two = record { event_id = 51; claim_token = 8; request_id = none }

abbrev after_one : Db
after_one = record inbox {
  emails =
      claimed_row 7 ClaimedBy.pixelstorm_maintenance 4000 (login_code 50 3000)
      ∷ login_code 51 3500
      ∷ [];
}

abbrev after_two : Db
after_two = record inbox {
  emails =
      claimed_row 7 ClaimedBy.pixelstorm_maintenance 4000 (login_code 50 3000)
      ∷ claimed_row 8 ClaimedBy.pixelstorm_maintenance 4100 (login_code 51 3500)
      ∷ [];
}

abbrev given : EmailClaim
given = record { event_id = 51; claim_token = 9; request_id = some 60 }

abbrev after_buyer : Db
after_buyer = record inbox {
  emails =
      claimed_row 7 ClaimedBy.pixelstorm_maintenance 4000 (login_code 50 3000)
      ∷ claimed_row 9 ClaimedBy.otp 4200 (login_code 51 3500)
      ∷ [];
  otp_requests =
      record {
        id = 60;
        rental_id = 20;
        buyer_id = 5;
        requested_at = 4150;
        outcome = OtpOutcome.claimed;
        gmail_message_id = some 51;
      }
      ∷ [];
}

after_HasUniqueKeys : HasUniqueKeys (λ r. r.id) after_one.emails
unfolding rowcount
after_HasUniqueKeys i = ground arith

claim_maintenance_login_otp_lem_example :
    MaintenanceClaim 300 7 1 30 2900 4000 inbox inbox_HasUniqueKeys (some claim_one) after_one
unfolding claim_maintenance_login_otp get first_by claim_event cas_email rowcount update
claim_maintenance_login_otp_lem_example =
    claim_maintenance_login_otp_lem 300 7 1 30 2900 4000 inbox inbox_HasUniqueKeys (some claim_one)
      after_one refl

code_claimed_once_example : ¬ (claim_two.event_id ≡ claim_one.event_id)
unfolding claim_maintenance_login_otp get first_by claim_event cas_email rowcount update
code_claimed_once_example =
    code_claimed_once 300 7 1 30 2900 4000 inbox inbox_HasUniqueKeys claim_one after_one refl 300 8
      1 30 2900 4100 claim_two after_two refl

claim_login_otp_lem_example :
    BuyerClaim 9 20 5 4150 4200 60 after_one after_HasUniqueKeys (some given) after_buyer
unfolding claim_login_otp get first_by claim_event cas_email rowcount insert_otp_request update
claim_login_otp_lem_example =
    claim_login_otp_lem 9 20 5 4150 4200 60 60 30 after_one after_HasUniqueKeys (some given)
      after_buyer refl

maintenance_code_kept_example : ¬ (given.event_id ≡ claim_one.event_id)
unfolding claim_maintenance_login_otp get first_by claim_event cas_email rowcount update
    claim_login_otp insert_otp_request
maintenance_code_kept_example =
    maintenance_code_kept 300 7 1 30 2900 4000 inbox inbox_HasUniqueKeys claim_one after_one refl 9
      20 5 4150 4200 60 60 30 given after_buyer refl
