-- ===== src/Application/Examples.antt =====
-- An outside that answers the same each time, for the theorems on the services.
use war_thunder_rent_bot.Prelude.{ℕ, ◌+◌, true, false, some, none, [], ◌∷◌}
use war_thunder_rent_bot.Domain.States.{
  OperationKind, OperationStatus, SecurityState, EmailMessageType, AccountStatus,
}
use war_thunder_rent_bot.Domain.FunPay.{FunPayHealth}
use war_thunder_rent_bot.Domain.PixelStorm.{
  PixelStormHealth, PixelStormAuthResult, PixelStormRevocationResult, PixelStormCredentialResult,
  PixelStormPasswordChangeResult, Credentials,
}
use war_thunder_rent_bot.Persistence.Rows.{
  OperationRow, IdempotencyKey, FunPayEventRow, FunPayEventType, FunPayProcessingStatus,
}
use war_thunder_rent_bot.Persistence.Session.{Db, ok}
use war_thunder_rent_bot.Persistence.Booking.Steps.{no_rows}
use war_thunder_rent_bot.Persistence.Booking.Runs.{rest}
use war_thunder_rent_bot.Application.World.{World}
use war_thunder_rent_bot.Application.Ports.{Outside, Settings}
use war_thunder_rent_bot.Application.Lease.{Claim}
use war_thunder_rent_bot.Application.Security.{Job}
use war_thunder_rent_bot.Application.Moves.Outside.{AllMove, Lawful}

abbrev secret : Credentials
secret = record { login = 1; password = 2 }

abbrev paid : FunPayEventRow
paid = record {
  id = 500;
  external_event_id = 501;
  event_type = FunPayEventType.paid_order;
  funpay_order_id = some 502;
  buyer_id = some 503;
  buyer_handle = none;
  lot_id = none;
  offer_id = none;
  tariff_code = some 504;
  duration_seconds = some 3600;
  message_text = none;
  received_at = 0;
  processing_status = FunPayProcessingStatus.pending;
  claim_token = none;
  claimed_at = none;
  attempt_count = 0;
  correlation_id = 501;
  created_at = 0;
  updated_at = 0;
}

-- The state of the outside is the number of ids that it gave. One heartbeat falls in each call.
abbrev pub outside : Outside ℕ
outside = record {
  funpay = record {
    health = λ e. (ok FunPayHealth.ready, e);
    poll_events = λ t e. (ok (paid ∷ []), e);
    get_order = λ i e. (ok none, e);
    get_lot_state = λ i e. (ok (some true), e);
    send_message = λ buyer m k now e. (
      ok (record {
        idempotency_key = k;
        conversation_id = buyer;
        external_message_id = none;
        delivered = true;
        verified = true;
        ambiguous = false;
        occurred_at = now;
      }),
      e,
    );
    get_message_receipt = λ k e. (ok none, e);
    verify_lots_disabled = λ ids e.
        (ok (record { requested = 1; changed = 0; verified = true; failed_lot_ids = [] }), e);
    verify_lots_enabled = λ ids e.
        (ok (record { requested = 1; changed = 0; verified = true; failed_lot_ids = [] }), e);
    disable_lots = λ i ids e.
        (ok (record { requested = 1; changed = 1; verified = true; failed_lot_ids = [] }), e);
    enable_lots = λ i ids e.
        (ok (record { requested = 1; changed = 1; verified = true; failed_lot_ids = [] }), e);
  };
  pixelstorm = record {
    health = λ i e. (ok PixelStormHealth.ready, e);
    inspect_security_capabilities = λ i e. (
      ok (record {
        session_history_available = true;
        session_revocation_available = true;
        revoke_all_available = true;
        password_change_available = true;
        pixel_pass_detected = false;
        unknown = false;
      }),
      e,
    );
    authenticate = λ i c otp e. (ok PixelStormAuthResult.success, e);
    verify_credentials = λ i c e. (ok PixelStormCredentialResult.valid, e);
    revoke_sessions = λ i e. (ok PixelStormRevocationResult.supported_verified, e);
    verify_revocation = λ i e. (ok PixelStormRevocationResult.supported_verified, e);
    change_password = λ i c p e. (ok PixelStormPasswordChangeResult.verified, e);
    request_password_change = λ i c e. (ok PixelStormPasswordChangeResult.verified, e);
    complete_password_change = λ i u p e. (ok PixelStormPasswordChangeResult.verified, e);
  };
  secrets = record {
    get_current_credentials = λ i e. (ok (some secret), e);
    get_pending_credentials = λ i e. (ok none, e);
    set_pending_credentials = λ i c e. (ok tt, e);
    promote_pending_credentials = λ i e. (ok tt, e);
  };
  email_secrets = record {
    put = λ i p t e. (ok true, e);
    consume_once = λ i t now e. (ok none, e);
    discard = λ i e. (ok tt, e);
  };
  get_new_messages = λ t e. (ok [], e);
  generate = λ e. (e, e + 1);
  uuid = λ e. (e, e + 1);
  uuids = λ e. (λ n. e + n, e + 10);
  clock = none;
  elapsed = λ e. ((λ db. db) ∷ [], e);
  is_locked = λ e. (false, e);
  attempts = λ e. (
    λ n. record {
      order_id = e;
      rental_id = e + 1;
      operation_id = e + 2;
      is_refused = false;
      others = λ db. db;
    },
    e + 3,
  );
  busy = λ e. (λ n. record { is_refused = false; others = λ db. db }, e);
}

abbrev pub settings : Settings
settings = record {
  has_owner_notifier = true;
  has_maintenance_otp = true;
  has_password_rotator = true;
  has_otp_service = true;
  has_message_receipts = true;
  has_pixelstorm_security = true;
  lookback_seconds = 60;
  min_request_interval_seconds = 30;
  secret_ttl_seconds = 300;
  password_reset_ttl_seconds = 600;
  windows = record {
    maintenance_otp_correlation_seconds = 60;
    password_change_correlation_seconds = 60;
  };
  classify = λ m. record { message_type = EmailMessageType.login_otp; sensitive_payload = none };
  asks_code = λ t. true;
}

pub outside-Lawful : Lawful outside
outside-Lawful = record {
  elapsed = λ e. AllMove.and_then (λ db b. rest) AllMove.none_left;
  attempts = λ e n db b. rest;
  busy = λ e n db b. rest;
}

abbrev pub world : Db → World ℕ
world db = record {
  db = db;
  outside = 100;
  outbox = [];
  calls = [];
  is_waiting = false;
  notified_health = [];
  last_poll_at = 0;
}

-- an account for sale
abbrev pub stocked : Db
stocked = record no_rows {
  accounts =
      record {
        id = 1;
        code = 100;
        status = AccountStatus.available;
        credential_version = 1;
        state_version = 0;
        created_at = 1000;
        updated_at = 1000;
      }
      ∷ [];
}

-- an operation that a worker has claimed
abbrev pub claimed : OperationRow
claimed = record {
  id = 5;
  kind = OperationKind.rotate_password;
  idempotency_key = IdempotencyKey.of_rental OperationKind.rotate_password 2;
  status = OperationStatus.running;
  account_id = 1;
  rental_id = none;
  order_id = none;
  attempt_count = 1;
  lease_until = some 1000000;
  started_at = some 0;
  maintenance_login_requested_at = none;
  password_change_requested_at = none;
  security_state = SecurityState.init;
  normal_claim_token = some 9;
  recovery_claim_token = none;
  created_at = 0;
  completed_at = none;
}

abbrev pub working : World ℕ
working = world (record no_rows { operations = claimed ∷ [] })

abbrev pub job : Job
job = record {
  account_id = 1;
  operation_id = 5;
  now = 10;
  recovery = false;
  normal_claim_token = some 9;
  recovery_claim_token = none;
}

abbrev pub claim : ℕ → Claim
claim token = record {
  operation_id = 5;
  normal_claim_token = some token;
  recovery_claim_token = none;
  fallback_now = 10;
}
