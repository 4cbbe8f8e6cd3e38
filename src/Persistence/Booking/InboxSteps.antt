-- ===== src/Persistence/Booking/InboxSteps.antt =====
-- The transactions on emails, codes, events and receipts as steps: none touches the accounts, the
-- orders, the rentals or the operations.
use war_thunder_rent_bot.Prelude.{
  false, none, ℕ, ◌≡◌, refl, ◌⊎◌, ◌++◌, ◌∷◌, [], true, arith, Bool, if◌then◌else◌,
}
use war_thunder_rent_bot.Table.{first_by}
use war_thunder_rent_bot.Persistence.Session.{Db, Tx, ok, err, integrity, operation_of}
use war_thunder_rent_bot.Persistence.Session.Post.{Post-ok}
use war_thunder_rent_bot.Persistence.Rows.{
  ProcessedMessageRow, ClassifiedEmailEventRow, FunPayEventRow, MessageReceiptRow, ClaimedBy,
}
use war_thunder_rent_bot.Persistence.Emails.Codes.{
  EmailClaim, claim_login_otp, claim_maintenance_login_otp, claim_expected_password_change,
  mark_claim_consumed, mark_claim_unusable, maintains, maintenance_code,
}
use war_thunder_rent_bot.Persistence.Emails.Inbox.{
  ClassifiedEmailEvent, insert_processed, insert_email, store_once, store_event,
}
use war_thunder_rent_bot.Persistence.Emails.Alerts.{claim_security_events, mark_security_processed}
use war_thunder_rent_bot.Persistence.FunPayEvents.{
  insert_event, insert_receipt, ingest, claim_events, mark_processed, mark_failed_closed,
  mark_retryable, record_receipt,
}
use war_thunder_rent_bot.Persistence.Booking.Inbox.{
  Quiet, IsQuiet, pure-IsQuiet, bind-IsQuiet, cas_email-IsQuiet, cas_event-IsQuiet, refused,
  insert-Post, claim_found-IsQuiet, claim_for_rental-IsQuiet, mark_request-IsQuiet,
  claim_alerts-IsQuiet, claim_rows-IsQuiet,
}

-- The transaction returns and commits this database.
abbrev pub Commits : {A : Type 0} → Tx A → Db → Db → Type 0
Commits {A} m db db' = (a : A) × (m db ≡ ok (a, db'))

pub data InboxStep (db db' : Db) : Type 0 where
  claims_code :
      (token request i buyer requested now lookback interval : ℕ)
      → Commits (claim_login_otp token request i buyer requested now lookback interval) db db'
      → InboxStep db db'
  claims_maintenance_code :
      (window token account i requested now : ℕ)
      → Commits (claim_maintenance_login_otp window token account i requested now) db db'
      → InboxStep db db'
  claims_link :
      (token i now : ℕ)
      → Commits (claim_expected_password_change token i now) db db'
      → InboxStep db db'
  consumes : (c : EmailClaim) → Commits (mark_claim_consumed c) db db' → InboxStep db db'
  discards : (c : EmailClaim) → Commits (mark_claim_unusable c) db db' → InboxStep db db'
  stores :
      (e : ClassifiedEmailEvent) (now : ℕ) → Commits (store_event e now) db db' → InboxStep db db'
  claims_alerts :
      (tokens : ℕ → ℕ) (now lease : ℕ)
      → Commits (claim_security_events tokens now lease) db db'
      → InboxStep db db'
  ends_alert : (i token : ℕ) → Commits (mark_security_processed i token) db db' → InboxStep db db'
  ingests : (e : FunPayEventRow) (now : ℕ) → Commits (ingest e now) db db' → InboxStep db db'
  claims_events :
      (tokens : ℕ → ℕ) (now lease : ℕ)
      → Commits (claim_events tokens now lease) db db'
      → InboxStep db db'
  ends_event : (i token now : ℕ) → Commits (mark_processed i token now) db db' → InboxStep db db'
  fails_event :
      (i token now : ℕ) → Commits (mark_failed_closed i token now) db db' → InboxStep db db'
  retries_event : (i token now : ℕ) → Commits (mark_retryable i token now) db db' → InboxStep db db'
  keeps_receipt : (r : MessageReceiptRow) → Commits (record_receipt r) db db' → InboxStep db db'

committed : {A : Type 0} {m : Tx A} {db db' : Db} → IsQuiet m → Commits m db db' → Quiet db db'
committed {A} {m} {db} h (a, e) = Post-ok {r = m db} (h.keeps db) e

claim_login_otp-IsQuiet :
    (token request_id i buyer requested now lookback interval : ℕ)
    → IsQuiet (claim_login_otp token request_id i buyer requested now lookback interval)
unfolding claim_login_otp
claim_login_otp-IsQuiet token request_id i buyer requested now lookback interval = record {
  keeps = λ db.
      (claim_for_rental-IsQuiet token request_id _ buyer requested now lookback interval).keeps db;
}

if-IsQuiet :
    {A : Type 0} (b : Bool) {m n : Tx A} → IsQuiet m → IsQuiet n → IsQuiet (if b then m else n)
if-IsQuiet true hm hn = hm
if-IsQuiet false hm hn = hn

claim_maintenance-IsQuiet :
    (window token account i requested now : ℕ)
    → IsQuiet (claim_maintenance_login_otp window token account i requested now)
unfolding claim_maintenance_login_otp
claim_maintenance-IsQuiet window token account i requested now = record {
  keeps = λ db.
      (if-IsQuiet (maintains account (operation_of db i))
          (claim_found-IsQuiet token ClaimedBy.pixelstorm_maintenance now (
            first_by (λ r. r.received_at) (maintenance_code window account requested now)
              db.emails))
          (pure-IsQuiet none)).keeps
        db;
}

claim_expected-IsQuiet : (token i now : ℕ) → IsQuiet (claim_expected_password_change token i now)
unfolding claim_expected_password_change
claim_expected-IsQuiet token i now = record {
  keeps = λ db. (claim_found-IsQuiet token _ now _).keeps db;
}

mark_claim_consumed-IsQuiet : (c : EmailClaim) → IsQuiet (mark_claim_consumed c)
unfolding mark_claim_consumed
mark_claim_consumed-IsQuiet c =
    bind-IsQuiet (cas_email-IsQuiet _ _ _) (λ b. mark_request-IsQuiet c.request_id _)

mark_claim_unusable-IsQuiet : (c : EmailClaim) → IsQuiet (mark_claim_unusable c)
unfolding mark_claim_unusable
mark_claim_unusable-IsQuiet c =
    bind-IsQuiet (cas_email-IsQuiet _ _ _) (λ b. mark_request-IsQuiet c.request_id _)

claim_security_events-IsQuiet :
    (tokens : ℕ → ℕ) (now lease : ℕ) → IsQuiet (claim_security_events tokens now lease)
unfolding claim_security_events
claim_security_events-IsQuiet tokens now lease = record {
  keeps = λ db. (claim_alerts-IsQuiet tokens lease now _).keeps db;
}

claim_events-IsQuiet : (tokens : ℕ → ℕ) (now lease : ℕ) → IsQuiet (claim_events tokens now lease)
unfolding claim_events
claim_events-IsQuiet tokens now lease = record {
  keeps = λ db. (claim_rows-IsQuiet tokens now lease _).keeps db;
}

mark_failed_closed-IsQuiet : (i token now : ℕ) → IsQuiet (mark_failed_closed i token now)
unfolding mark_failed_closed
mark_failed_closed-IsQuiet i token now =
    bind-IsQuiet (cas_event-IsQuiet _ _ _) (λ b. pure-IsQuiet _)

insert_event_cases :
    (r : FunPayEventRow) (db : Db)
    → (insert_event r db ≡ ok (true, record db { funpay_events = db.funpay_events ++ r ∷ [] }))
      ⊎ (insert_event r db ≡ err integrity)
unfolding insert_event
insert_event_cases r db = ground arith

insert_event-IsQuiet : (r : FunPayEventRow) → IsQuiet (insert_event r)
insert_event-IsQuiet r = record {
  keeps = λ db.
      insert-Post (insert_event_cases r db)
        (record { accounts = refl; orders = refl; rentals = refl; operations = refl });
}

insert_receipt_cases :
    (r : MessageReceiptRow) (db : Db)
    → (insert_receipt r db
        ≡ ok (true, record db { message_receipts = db.message_receipts ++ r ∷ [] }))
      ⊎ (insert_receipt r db ≡ err integrity)
unfolding insert_receipt
insert_receipt_cases r db = ground arith

insert_receipt-IsQuiet : (r : MessageReceiptRow) → IsQuiet (insert_receipt r)
insert_receipt-IsQuiet r = record {
  keeps = λ db.
      insert-Post (insert_receipt_cases r db)
        (record { accounts = refl; orders = refl; rentals = refl; operations = refl });
}

insert_processed_cases :
    (r : ProcessedMessageRow) (db : Db)
    → (insert_processed r db
        ≡ ok (tt, record db { processed_messages = db.processed_messages ++ r ∷ [] }))
      ⊎ (insert_processed r db ≡ err integrity)
unfolding insert_processed
insert_processed_cases r db = ground arith

insert_processed-IsQuiet : (r : ProcessedMessageRow) → IsQuiet (insert_processed r)
insert_processed-IsQuiet r = record {
  keeps = λ db.
      insert-Post (insert_processed_cases r db)
        (record { accounts = refl; orders = refl; rentals = refl; operations = refl });
}

insert_email_cases :
    (r : ClassifiedEmailEventRow) (db : Db)
    → (insert_email r db ≡ ok (tt, record db { emails = db.emails ++ r ∷ [] }))
      ⊎ (insert_email r db ≡ err integrity)
unfolding insert_email
insert_email_cases r db = ground arith

insert_email-IsQuiet : (r : ClassifiedEmailEventRow) → IsQuiet (insert_email r)
insert_email-IsQuiet r = record {
  keeps = λ db.
      insert-Post (insert_email_cases r db)
        (record { accounts = refl; orders = refl; rentals = refl; operations = refl });
}

store_event-IsQuiet : (e : ClassifiedEmailEvent) (now : ℕ) → IsQuiet (store_event e now)
unfolding store_event store_once
store_event-IsQuiet e now = refused (
    bind-IsQuiet (insert_processed-IsQuiet _)
      (λ u. bind-IsQuiet (insert_email-IsQuiet _) (λ v. pure-IsQuiet true)))

ingest-IsQuiet : (e : FunPayEventRow) (now : ℕ) → IsQuiet (ingest e now)
unfolding ingest
ingest-IsQuiet e now = refused (insert_event-IsQuiet _)

record_receipt-IsQuiet : (r : MessageReceiptRow) → IsQuiet (record_receipt r)
unfolding record_receipt
record_receipt-IsQuiet r = refused (insert_receipt-IsQuiet r)

pub InboxStep-Quiet : {db db' : Db} → InboxStep db db' → Quiet db db'
unfolding mark_security_processed mark_processed mark_retryable
InboxStep-Quiet (claims_code token request i buyer requested now lookback interval s) =
    committed (claim_login_otp-IsQuiet token request i buyer requested now lookback interval) s
InboxStep-Quiet (claims_maintenance_code window token account i requested now s) =
    committed (claim_maintenance-IsQuiet window token account i requested now) s
InboxStep-Quiet (claims_link token i now s) = committed (claim_expected-IsQuiet token i now) s
InboxStep-Quiet (consumes c s) = committed (mark_claim_consumed-IsQuiet c) s
InboxStep-Quiet (discards c s) = committed (mark_claim_unusable-IsQuiet c) s
InboxStep-Quiet (stores e now s) = committed (store_event-IsQuiet e now) s
InboxStep-Quiet (claims_alerts tokens now lease s) =
    committed (claim_security_events-IsQuiet tokens now lease) s
InboxStep-Quiet (ends_alert i token s) = committed (cas_email-IsQuiet _ _ _) s
InboxStep-Quiet (ingests e now s) = committed (ingest-IsQuiet e now) s
InboxStep-Quiet (claims_events tokens now lease s) =
    committed (claim_events-IsQuiet tokens now lease) s
InboxStep-Quiet (ends_event i token now s) = committed (cas_event-IsQuiet _ _ _) s
InboxStep-Quiet (fails_event i token now s) = committed (mark_failed_closed-IsQuiet i token now) s
InboxStep-Quiet (retries_event i token now s) = committed (cas_event-IsQuiet _ _ _) s
InboxStep-Quiet (keeps_receipt r s) = committed (record_receipt-IsQuiet r) s
