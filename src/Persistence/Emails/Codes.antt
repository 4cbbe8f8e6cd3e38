-- ===== src/Persistence/Emails/Codes.antt =====
-- Codes are claimed: `claim_login_otp`, `claim_maintenance_login_otp` and
-- `claim_expected_password_change`; and the marks that end a claim.
use war_thunder_rent_bot.Prelude.{
  ℕ, ◌+◌, Bool, true, false, ◌&&◌, not, Option, none, some, [], ◌∷◌, ◌++◌, ltb, leb, ◌==◌, nat_eq,
  ◌is_some◌, is_none, if◌then◌else◌,
}
use war_thunder_rent_bot.Domain.States.{
  RentalStatus, OperationKind, EmailMessageType, EmailPayloadState, rental_eq, kind_eq, status_eq,
  message_eq, payload_eq,
}
use war_thunder_rent_bot.Table.{first_by, update, has_key, first, get}
use war_thunder_rent_bot.Persistence.Rows.{
  RentalRow, OperationRow, ClassifiedEmailEventRow, ClaimedBy, AccountRow, OtpOutcome,
  OtpRequestRow, seconds,
}
use war_thunder_rent_bot.Persistence.Session.{
  Db, Tx, ok, err, integrity, ◌>>◌, pure, ◌>>=◌, query, cas_email, account_of, rental_of,
  operation_of, references,
}
use war_thunder_rent_bot.Persistence.Repository.Claims.{is_running}
use war_thunder_rent_bot.Persistence.Repository.Expiry.{active_account}

pub record EmailClaim : Type 0 where
  pub event_id : ℕ
  pub claim_token : ℕ
  pub request_id : Option ℕ

unfoldable pub insert_otp_request : OtpRequestRow → Tx (Unit {0})
insert_otp_request r db =
    if is_none (get (λ s. s.id) r.id db.otp_requests)
      && not (is_none (rental_of db r.rental_id))
      && references (λ g. first (λ s. s.gmail_message_id == g) db.emails) r.gmail_message_id
      && is_none (first (λ s. same_message s.gmail_message_id r.gmail_message_id) db.otp_requests)
    then ok (tt, record db { otp_requests = db.otp_requests ++ r ∷ [] })
    else err integrity
  where
    -- two NULLs are not equal under UNIQUE
    same_message : Option ℕ → Option ℕ → Bool
    same_message o none = false
    same_message o (some g) = o is_some g

-- The conditional update that the three claims of a payload share.
abbrev pub is_free : ClassifiedEmailEventRow → Bool
is_free r = is_none r.claim_token && r.payload_state == EmailPayloadState.available

abbrev pub claimed_row : ℕ → ClaimedBy → ℕ → ClassifiedEmailEventRow → ClassifiedEmailEventRow
claimed_row token by now r = record r {
  claim_token = some token;
  claimed_by = some by;
  claimed_at = some now;
}

unfoldable pub claim_event : ℕ → ClaimedBy → ℕ → ClassifiedEmailEventRow → Tx Bool
claim_event token by now event = cas_email event.id is_free (claimed_row token by now)

-- the tests on the rental at the head of `claim_login_otp`
abbrev pub usable_rental : Option RentalRow → ℕ → ℕ → Option RentalRow
usable_rental none buyer_id now = none
usable_rental (some r) buyer_id now =
    if r.buyer_id == buyer_id
      && r.status == RentalStatus.active
      && not (is_none r.started_at)
      && ltb now r.expires_at
    then some r
    else none

abbrev pub is_since : Option ℕ → ℕ → Bool
is_since none t = false
is_since (some s) t = leb s t

-- a code for the rental: received since it started, and at most `lookback` seconds before the request
abbrev pub rental_code : RentalRow → ℕ → ℕ → ClassifiedEmailEventRow → Bool
rental_code rental requested_at lookback r =
    r.message_type == EmailMessageType.login_otp
    && r.routing_account_id is_some rental.account_id
    && is_free r
    && is_since rental.started_at r.received_at
    && leb requested_at (r.received_at + seconds lookback)

abbrev recent : ℕ → ℕ → ℕ → ℕ → OtpRequestRow → Bool
recent rental_id buyer_id now interval r =
    r.rental_id == rental_id
    && r.buyer_id == buyer_id
    && ltb now (r.requested_at + seconds interval)

-- Claiming for a rental that passed, on an account that is active, without a recent request.
unfoldable pub claim_code :
    ℕ
    → ℕ
    → RentalRow
    → ℕ
    → ℕ
    → ℕ
    → Option AccountRow
    → Option OtpRequestRow
    → Option ClassifiedEmailEventRow
    → Tx (Option EmailClaim)
claim_code token request_id rental buyer_id requested_at now (some account) none (some event) = do
  claimed ← claim_event token ClaimedBy.otp now event
  elim claimed [
    | false ↦ pure none
    | true ↦ do
      insert_otp_request (record {
        id = request_id;
        rental_id = rental.id;
        buyer_id = buyer_id;
        requested_at = requested_at;
        outcome = OtpOutcome.claimed;
        gmail_message_id = some event.gmail_message_id;
      })
      pure
          (some (record { event_id = event.id; claim_token = token; request_id = some request_id }))
  ]
claim_code token request_id rental buyer_id requested_at now _ _ _ = pure none

unfoldable pub claim_for_rental :
    ℕ → ℕ → Option RentalRow → ℕ → ℕ → ℕ → ℕ → ℕ → Tx (Option EmailClaim)
unfolding claim_code
claim_for_rental token request_id none buyer_id requested_at now lookback interval = pure none
claim_for_rental token request_id (some rental) buyer_id requested_at now lookback interval = do
  account ← query (λ db. active_account (account_of db rental.account_id))
  asked ← query (λ db. first (recent rental.id buyer_id now interval) db.otp_requests)
  event ←
      query
        (λ db. first_by (λ r. r.received_at) (rental_code rental requested_at lookback) db.emails)
  claim_code token request_id rental buyer_id requested_at now account asked event

unfoldable pub claim_login_otp : ℕ → ℕ → ℕ → ℕ → ℕ → ℕ → ℕ → ℕ → Tx (Option EmailClaim)
unfolding claim_for_rental
claim_login_otp token request_id rental_id buyer_id requested_at now lookback interval = do
  rental ← query (λ db. usable_rental (rental_of db rental_id) buyer_id now)
  claim_for_rental token request_id rental buyer_id requested_at now lookback interval

-- The claim of an event that a query may have found, without a request of a buyer.
unfoldable pub claim_found :
    ℕ → ClaimedBy → ℕ → Option ClassifiedEmailEventRow → Tx (Option EmailClaim)
claim_found token by now none = pure none
claim_found token by now (some event) = do
  claimed ← claim_event token by now event
  elim claimed [
    | false ↦ pure none
    | true ↦ pure (some (record { event_id = event.id; claim_token = token; request_id = none }))
  ]

abbrev is_maintenance : OperationKind → Bool
is_maintenance OperationKind.revoke_sessions = true
is_maintenance OperationKind.rotate_password = true
is_maintenance _ = false

abbrev pub maintains : ℕ → Option OperationRow → Bool
maintains account_id none = false
maintains account_id (some op) =
    op.account_id == account_id && is_running op && is_maintenance op.kind

-- a code for a maintenance login: at most `window` seconds after the request, and not in the future
abbrev pub maintenance_code : ℕ → ℕ → ℕ → ℕ → ClassifiedEmailEventRow → Bool
maintenance_code window account_id login_requested_at now r =
    r.message_type == EmailMessageType.login_otp
    && r.routing_account_id is_some account_id
    && is_free r
    && leb login_requested_at r.received_at
    && leb r.received_at now
    && leb r.received_at (login_requested_at + seconds window)

unfoldable pub claim_maintenance_login_otp : ℕ → ℕ → ℕ → ℕ → ℕ → ℕ → Tx (Option EmailClaim)
unfolding claim_found
claim_maintenance_login_otp window token account_id operation_id login_requested_at now = do
  running ← query (λ db. maintains account_id (operation_of db operation_id))
  event ← query (λ db.
      first_by (λ r. r.received_at) (maintenance_code window account_id login_requested_at now)
        db.emails)
  if running then claim_found token ClaimedBy.pixelstorm_maintenance now event else pure none

abbrev pub rotation_notice : ℕ → ClassifiedEmailEventRow → Bool
rotation_notice operation_id r =
    r.message_type == EmailMessageType.password_change
    && r.correlation_operation_id is_some operation_id
    && is_free r

unfoldable pub claim_expected_password_change : ℕ → ℕ → ℕ → Tx (Option EmailClaim)
unfolding claim_found
claim_expected_password_change token rotation_operation_id now = do
  event ←
      query (λ db. first_by (λ r. r.received_at) (rotation_notice rotation_operation_id) db.emails)
  claim_found token ClaimedBy.password_rotator now event

-- `claim_token == claim.claim_token`, on the event
abbrev pub of_claim : EmailClaim → ClassifiedEmailEventRow → Bool
of_claim claim r = r.claim_token is_some claim.claim_token

abbrev ends_as : OtpOutcome → OtpRequestRow → OtpRequestRow
ends_as outcome r = record r { outcome = outcome }

unfoldable pub mark_request : Option ℕ → OtpOutcome → Tx (Unit {0})
mark_request none outcome db = ok (tt, db)
mark_request (some i) outcome db = ok (
  tt,
  record db { otp_requests = update (has_key (λ r. r.id) i) (ends_as outcome) db.otp_requests },
)

unfoldable pub mark_claim_consumed : EmailClaim → Tx (Unit {0})
mark_claim_consumed claim = do
  done ←
      cas_email claim.event_id (of_claim claim)
        (λ r. record r { payload_state = EmailPayloadState.consumed })
  mark_request claim.request_id OtpOutcome.delivered

unfoldable pub mark_claim_unusable : EmailClaim → Tx (Unit {0})
mark_claim_unusable claim = do
  done ←
      cas_email claim.event_id (of_claim claim)
        (λ r. record r { payload_state = EmailPayloadState.unusable_expired })
  mark_request claim.request_id OtpOutcome.unusable_expired

unfoldable pub get_event : ℕ → Db → Option ClassifiedEmailEventRow
get_event gmail_message_id db = first (λ r. r.gmail_message_id == gmail_message_id) db.emails
