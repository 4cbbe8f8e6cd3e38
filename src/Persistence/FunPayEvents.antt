-- ===== src/Persistence/FunPayEvents.antt =====
-- app/persistence/funpay_events.py: the inbox of FunPay events and the receipts of sent messages.
pub mod Once
mod Examples
use war_thunder_rent_bot.Prelude.{
  ℕ, suc, ◌+◌, Bool, true, false, ◌&&◌, not, Option, none, some, List, [], ◌∷◌, ◌++◌, map, ltb, leb,
  ◌==◌, nat_eq, ◌is_some◌, is_none, if◌then◌else◌,
}
use war_thunder_rent_bot.Domain.States.{
  AccountStatus, RentalStatus, OperationKind, OperationStatus, SecurityState, rental_eq, account_eq,
}
use war_thunder_rent_bot.Table.{update, rowcount, select, order_by, first, get, where_key}
use war_thunder_rent_bot.Persistence.Rows.{
  OrderRow, RentalRow, FunPayEventRow, FunPayProcessingStatus, MessageReceiptRow, IdempotencyKey,
  seconds, idempotency_eq, OperationRow,
}
use war_thunder_rent_bot.Persistence.Session.{
  Db, Tx, ok, err, integrity, ◌>>=◌, ◌>>◌, pure, query, one_hit, account_of, rental_of, references,
  insert_operation, order_of,
}
use war_thunder_rent_bot.Persistence.Repository.Expiry.{account_is_active}

unfoldable pub cas_event : ℕ → (FunPayEventRow → Bool) → (FunPayEventRow → FunPayEventRow) → Tx Bool
cas_event i p f db =
    let hit = where_key (λ r. r.id) i p in
    ok (
      one_hit (rowcount hit db.funpay_events),
      record db { funpay_events = update hit f db.funpay_events },
    )

-- `except IntegrityError: return False`
abbrev pub or_false : Tx Bool → Tx Bool
or_false m db = elim (m db) [
  | ok r ↦ ok r
  | err e ↦ elim e [ integrity ↦ ok (false, db) | other ↦ err other ]
]

abbrev pub event_of : Db → ℕ → Option FunPayEventRow
event_of db i = get (λ r. r.id) i db.funpay_events

-- `event` holds the columns that the FunPayEvent fills; the others start as below.
unfoldable pub insert_event : FunPayEventRow → Tx Bool
insert_event r db =
    if is_none (event_of db r.id)
      && is_none (first (λ s. s.external_event_id == r.external_event_id) db.funpay_events)
    then ok (true, record db { funpay_events = db.funpay_events ++ r ∷ [] })
    else err integrity

unfoldable pub ingest : FunPayEventRow → ℕ → Tx Bool
unfolding insert_event
ingest event now = or_false (
    insert_event (record event {
      processing_status = FunPayProcessingStatus.pending;
      claim_token = none;
      claimed_at = none;
      attempt_count = 0;
      correlation_id = event.external_event_id;
      created_at = now;
      updated_at = now;
    }))

-- `claimed_at < now - timedelta(seconds=lease)`, not satisfied on NULL
abbrev is_stale : Option ℕ → ℕ → ℕ → Bool
is_stale none lease now = false
is_stale (some t) lease now = ltb (t + seconds lease) now

abbrev claimable : FunPayProcessingStatus → ℕ → Option ℕ → ℕ → ℕ → Bool
claimable FunPayProcessingStatus.pending updated_at claimed_at lease now = true
claimable FunPayProcessingStatus.retry_pending updated_at claimed_at lease now =
    leb (updated_at + seconds lease) now
claimable FunPayProcessingStatus.claimed updated_at claimed_at lease now =
    is_stale claimed_at lease now
claimable _ updated_at claimed_at lease now = false

abbrev pub is_claimable : ℕ → ℕ → FunPayEventRow → Bool
is_claimable lease now r = claimable r.processing_status r.updated_at r.claimed_at lease now

abbrev pub taken_by : ℕ → ℕ → FunPayEventRow → FunPayEventRow
taken_by token now r = record r {
  processing_status = FunPayProcessingStatus.claimed;
  claim_token = some token;
  claimed_at = some now;
  attempt_count = r.attempt_count + 1;
  updated_at = now;
}

-- The claim's row is the session's object, which the update synchronises.
pub record FunPayEventClaim : Type 0 where
  pub event : FunPayEventRow
  pub claim_token : ℕ

unfoldable pub claim_rows : (ℕ → ℕ) → ℕ → ℕ → List FunPayEventRow → Tx (List FunPayEventClaim)
claim_rows tokens now lease [] = pure []
claim_rows tokens now lease (row ∷ rows) = do
  claimed ← cas_event row.id (is_claimable lease now) (taken_by (tokens 0) now)
  claims ← claim_rows (λ n. tokens (suc n)) now lease rows
  pure (
      if claimed
      then record { event = taken_by (tokens 0) now row; claim_token = tokens 0 } ∷ claims
      else claims)

-- `tokens` are the values of `uuid4()`, one for each row.
unfoldable pub claim_events : (ℕ → ℕ) → ℕ → ℕ → Tx (List FunPayEventClaim)
unfolding claim_rows
claim_events tokens now lease = do
  rows ←
      query (λ db. order_by (λ r. r.received_at) (select (is_claimable lease now) db.funpay_events))
  claim_rows tokens now lease rows

abbrev pub is_claimed : FunPayProcessingStatus → Bool
is_claimed FunPayProcessingStatus.claimed = true
is_claimed _ = false

unfoldable pub mark_processed : ℕ → ℕ → ℕ → Tx Bool
mark_processed event_id token now =
    cas_event event_id (λ r. is_claimed r.processing_status && r.claim_token is_some token)
      (λ r. record r { processing_status = FunPayProcessingStatus.processed; updated_at = now })

unfoldable pub mark_failed_closed : ℕ → ℕ → ℕ → Tx (Unit {0})
mark_failed_closed event_id token now = do
  done ←
      cas_event event_id (λ r. r.claim_token is_some token)
        (λ r. record r {
          processing_status = FunPayProcessingStatus.failed_closed;
          updated_at = now;
        })
  pure tt

unfoldable pub mark_retryable : ℕ → ℕ → ℕ → Tx Bool
mark_retryable event_id token now =
    cas_event event_id (λ r. is_claimed r.processing_status && r.claim_token is_some token)
      (λ r. record r {
        processing_status = FunPayProcessingStatus.retry_pending;
        claim_token = none;
        claimed_at = none;
        updated_at = now;
      })

unfoldable pub insert_receipt : MessageReceiptRow → Tx Bool
insert_receipt r db =
    if is_none (get (λ s. s.id) r.id db.message_receipts)
      && is_none (first (λ s. s.idempotency_key == r.idempotency_key) db.message_receipts)
      && references (event_of db) r.funpay_event_id
    then ok (true, record db { message_receipts = db.message_receipts ++ r ∷ [] })
    else err integrity

unfoldable pub record_receipt : MessageReceiptRow → Tx Bool
unfolding insert_receipt
record_receipt receipt = or_false (insert_receipt receipt)

unfoldable pub receipt_of : IdempotencyKey → Db → Option MessageReceiptRow
receipt_of idempotency_key db =
    first (λ r. r.idempotency_key == idempotency_key) db.message_receipts

-- the columns of the operation that the class's defaults fill are those of a pending operation
abbrev pub code_operation : ℕ → FunPayEventRow → RentalRow → ℕ → OperationRow
code_operation new_id event rental now = record {
  id = new_id;
  kind = OperationKind.send_otp;
  idempotency_key = IdempotencyKey.of_event event.external_event_id;
  status = OperationStatus.pending;
  account_id = rental.account_id;
  rental_id = some rental.id;
  order_id = some rental.order_id;
  attempt_count = 0;
  lease_until = none;
  started_at = none;
  maintenance_login_requested_at = none;
  password_change_requested_at = none;
  security_state = SecurityState.init;
  normal_claim_token = none;
  recovery_claim_token = none;
  created_at = now;
  completed_at = none;
}

unfoldable pub create_send_otp : ℕ → FunPayEventRow → RentalRow → ℕ → Tx Bool
create_send_otp new_id event rental now =
    or_false (do insert_operation (code_operation new_id event rental now); pure true)

abbrev is_order : ℕ → Option OrderRow → Bool
is_order funpay_order_id none = false
is_order funpay_order_id (some o) = o.funpay_order_id == funpay_order_id

abbrev pub paid_by : ℕ → ℕ → Db → RentalRow → Bool
paid_by funpay_order_id buyer_id db r =
    r.buyer_id == buyer_id && is_order funpay_order_id (order_of db r.order_id)

unfoldable pub rental_for_order : ℕ → ℕ → Db → Option RentalRow
rental_for_order funpay_order_id buyer_id db =
    first (paid_by funpay_order_id buyer_id db) db.rentals

abbrev rental_runs : Option RentalRow → Db → Bool
rental_runs none db = false
rental_runs (some r) db =
    r.status == RentalStatus.active && account_is_active (account_of db r.account_id)

unfoldable pub rental_is_running : ℕ → Db → Bool
rental_is_running rental_id db = rental_runs (rental_of db rental_id) db
