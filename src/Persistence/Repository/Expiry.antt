-- ===== src/Persistence/Repository/Expiry.antt =====
-- The end of a rental: `expire_due`, `extend_active_rental` and `record_active_security_event`.
pub mod Extension
use war_thunder_rent_bot.Prelude.{
  ℕ, suc, ◌+◌, Bool, true, false, ◌&&◌, Option, none, some, List, [], ◌∷◌, map, leb, ◌==◌,
  if◌then◌else◌, nat_eq,
}
use war_thunder_rent_bot.Domain.States.{
  AccountStatus, RentalStatus, OperationKind, EmailMessageType, account_eq, rental_eq,
}
use war_thunder_rent_bot.Table.{select, first}
use war_thunder_rent_bot.Persistence.Rows.{AccountRow, RentalRow, AuditType, Correlation, seconds}
use war_thunder_rent_bot.Persistence.Session.{
  Db, Tx, ok, err, ◌>>=◌, ◌>>◌, pure, query, require_some, assertion, value, cas_rental, account_of,
  rental_of, insert_security_event,
}
use war_thunder_rent_bot.Persistence.Repository.Internal.{
  add_operation, audit, transition_row, transition_rental,
}

abbrev pub is_due : ℕ → RentalRow → Bool
is_due now r = r.status == RentalStatus.active && leb r.expires_at now

unfoldable pub due_rentals : ℕ → Db → List ℕ
unfolding select
due_rentals now db = map (λ r. r.id) (select (is_due now) db.rentals)

-- `account is None or account.status != ACTIVE`, else the account
abbrev pub active_account : Option AccountRow → Option AccountRow
active_account none = none
active_account (some a) = if a.status == AccountStatus.active then some a else none

unfoldable pub expire_claimed : ℕ → ℕ → RentalRow → Option AccountRow → Tx Bool
expire_claimed new_id now rental none = pure false
expire_claimed new_id now rental (some account) = do
  a ← transition_row account AccountStatus.expiring now
  add_operation new_id OperationKind.revoke_sessions account.id rental.id now
  audit AuditType.rental_expired (some account.id) (some rental.id) (Correlation.of_id rental.id)
      now
  pure true

-- The body of the loop: whether the rental counts as expired.
unfoldable pub expire_one : ℕ → ℕ → ℕ → Tx Bool
unfolding expire_claimed
expire_one new_id now rental_id = do
  claimed ←
      cas_rental rental_id (λ r. r.status == RentalStatus.active)
        (λ r. record r { status = RentalStatus.expiring; updated_at = now })
  elim claimed [
    | false ↦ pure false
    | true ↦ do
      found ← query (λ db. rental_of db rental_id)
      rental ← require_some found assertion
      account ← query (λ db. active_account (account_of db rental.account_id))
      expire_claimed new_id now rental account
  ]

unfoldable pub expire_loop : (ℕ → ℕ) → ℕ → List ℕ → Tx ℕ
expire_loop ids now [] = pure 0
expire_loop ids now (rental_id ∷ due) = do
  done ← expire_one (ids 0) now rental_id
  expired ← expire_loop (λ n. ids (suc n)) now due
  pure (if done then expired + 1 else expired)

-- `ids` are the values of `uuid4()`, one for each due rental.
unfoldable pub expire_due : (ℕ → ℕ) → ℕ → Tx ℕ
unfolding expire_loop
expire_due ids now = do due ← query (due_rentals now); expire_loop ids now due

abbrev pub account_is_active : Option AccountRow → Bool
account_is_active none = false
account_is_active (some a) = a.status == AccountStatus.active

-- the refusals of `extend_active_rental`
abbrev pub may_extend : RentalRow → ℕ → Db → Bool
may_extend rental buyer_id db =
    rental.buyer_id == buyer_id
    && rental.status == RentalStatus.active
    && account_is_active (account_of db rental.account_id)

-- The conditional update repeats the tests on the row itself, as a subquery for the account.
unfoldable pub write_extension : RentalRow → ℕ → ℕ → ℕ → Tx Bool
write_extension rental buyer_id extension_seconds now db =
    let new_expiry = rental.expires_at + seconds extension_seconds in
    let write = (do
      extended ←
          cas_rental rental.id
            (λ r.
              r.buyer_id == buyer_id
              && r.status == RentalStatus.active
              && r.expires_at == rental.expires_at
              && account_is_active (account_of db r.account_id))
            (λ r. record r { expires_at = new_expiry; updated_at = now })
      elim extended [
        | false ↦ pure false
        | true ↦ do
          audit AuditType.rental_extended (some rental.account_id) (some rental.id)
              (Correlation.of_extension rental.id new_expiry) now
          pure true
      ]) in
    write db

unfoldable pub extend_found : Option RentalRow → ℕ → ℕ → ℕ → Tx Bool
extend_found none buyer_id extension_seconds now db = ok (false, db)
extend_found (some rental) buyer_id extension_seconds now db =
    if may_extend rental buyer_id db
    then write_extension rental buyer_id extension_seconds now db
    else ok (false, db)

-- `extension_seconds` as a natural: what is 0 or less in the source is 0.
unfoldable pub extend_active_rental : ℕ → ℕ → ℕ → ℕ → Tx Bool
unfolding extend_found
extend_active_rental rental_id buyer_id extension_seconds now db =
    if leb extension_seconds 0
    then err value
    else extend_found (rental_of db rental_id) buyer_id extension_seconds now db

abbrev pub active_rental_on : ℕ → RentalRow → Bool
active_rental_on account_id r = r.account_id == account_id && r.status == RentalStatus.active

unfoldable pub raise_alert :
    ℕ → EmailMessageType → Correlation → ℕ → AccountRow → RentalRow → Tx Bool
raise_alert new_id event_type correlation now account rental = do
  insert_security_event (record {
    account_id = account.id;
    rental_id = some rental.id;
    event_type = event_type;
    occurred_at = now;
  })
  a ← transition_row account AccountStatus.security_alert now
  r ← transition_rental rental RentalStatus.security_terminated now
  add_operation new_id OperationKind.revoke_sessions account.id rental.id now
  audit AuditType.email_security_alert (some account.id) (some rental.id) correlation now
  pure true

unfoldable pub alert_rental :
    ℕ → EmailMessageType → Correlation → ℕ → Option AccountRow → Option RentalRow → Tx Bool
unfolding raise_alert
alert_rental new_id event_type correlation now (some account) (some rental) =
    raise_alert new_id event_type correlation now account rental
alert_rental new_id event_type correlation now _ _ = pure false

unfoldable pub record_active_security_event : ℕ → ℕ → EmailMessageType → ℕ → ℕ → Tx Bool
unfolding alert_rental
record_active_security_event new_id account_id event_type correlation_id now = do
  account ← query (λ db. active_account (account_of db account_id))
  rental ← query (λ db. first (active_rental_on account_id) db.rentals)
  alert_rental new_id event_type (Correlation.of_id correlation_id) now account rental
