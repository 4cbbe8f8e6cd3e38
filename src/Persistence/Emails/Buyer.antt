-- ===== src/Persistence/Emails/Buyer.antt =====
-- What `claim_login_otp` gives to a buyer.
use war_thunder_rent_bot.Prelude.{
  ℕ, ◌≡◌, refl, false, Option, none, some, [], ◌∷◌, ◌++◌, ◌⊎◌, arith, inl, inr, is_none,
}
use war_thunder_rent_bot.Table.{first_by, HasUniqueKeys}
use war_thunder_rent_bot.Table.Laws.{get-first_by}
use war_thunder_rent_bot.Persistence.Rows.{
  AccountRow, RentalRow, OtpRequestRow, ClassifiedEmailEventRow, ClaimedBy,
}
use war_thunder_rent_bot.Persistence.Session.{Db, Result, ok, err, integrity, rental_of, account_of}
use war_thunder_rent_bot.Persistence.Session.Post.{Post, Post-ok, returns, raises}
use war_thunder_rent_bot.Persistence.Repository.Expiry.{active_account}
use war_thunder_rent_bot.Persistence.Emails.Codes.{
  EmailClaim, usable_rental, rental_code, claim_code, claim_for_rental, claim_login_otp,
  claim_maintenance_login_otp, insert_otp_request,
}
use war_thunder_rent_bot.Persistence.Emails.Once.{
  Taken, taken, seq_claim, claim_maintenance_login_otp_lem,
}

insert_otp_request_cases :
    (r : OtpRequestRow) (db : Db)
    → (insert_otp_request r db ≡ ok (tt, record db { otp_requests = db.otp_requests ++ r ∷ [] }))
      ⊎ (insert_otp_request r db ≡ err integrity)
unfolding insert_otp_request
insert_otp_request_cases r db = ground arith

seq_otp_request :
    {B : Type 0} {Q : B → Db → Type 0} (f : Unit → Db → Result (B × Db)) (r : OtpRequestRow)
    (db : Db)
    → Post Q (f tt (record db { otp_requests = db.otp_requests ++ r ∷ [] }))
    → Post Q (elim (insert_otp_request r db) [ ok (u, d) ↦ f u d | err x ↦ err x ])
seq_otp_request f r db next = elim (insert_otp_request_cases r db) [
  | inl eq ↦ rw eq next
  | inr eq ↦ rw eq raises
]

module _ (token rental_id buyer_id requested now lookback : ℕ) (db : Db)
    (k : HasUniqueKeys (λ r. r.id) db.emails) where
  abbrev pub BuyerClaim : Option EmailClaim → Db → Type 0
  BuyerClaim none d = d ≡ db
  BuyerClaim (some claim) d =
      (rental : RentalRow) × (usable_rental (rental_of db rental_id) buyer_id now ≡ some rental)
      × (is_none (active_account (account_of db rental.account_id)) ≡ false)
      × Taken token ClaimedBy.otp now db k (rental_code rental requested lookback) claim d

  claim_code-BuyerClaim :
      (request_id : ℕ) (rental : RentalRow)
      → usable_rental (rental_of db rental_id) buyer_id now ≡ some rental
      → (account : Option AccountRow) → active_account (account_of db rental.account_id) ≡ account
      → (asked : Option OtpRequestRow) (event : Option ClassifiedEmailEventRow)
      → first_by (λ r. r.received_at) (rental_code rental requested lookback) db.emails ≡ event
      → Post BuyerClaim
          (claim_code token request_id rental buyer_id requested now account asked event db)
  unfolding claim_code
  claim_code-BuyerClaim request_id rental usable (some account) active none (some event) found =
      let p = rental_code rental requested lookback in
      let (there, fits) =
        get-first_by (λ s. s.id) (λ r. r.received_at) p db.emails event (k event.id) found in
      seq_claim token ClaimedBy.otp now db k _ event there (ground (arith, fits)) (
        seq_otp_request _ _ _ (
          returns (
            rental,
            usable,
            ground (arith, active),
            taken token ClaimedBy.otp now db k p event
                (record { event_id = event.id; claim_token = token; request_id = some request_id })
                there fits refl refl,
          )))
  claim_code-BuyerClaim request_id rental usable _ active _ _ found = returns refl

  for_rental-BuyerClaim :
      (request_id interval : ℕ) (rental : Option RentalRow)
      → usable_rental (rental_of db rental_id) buyer_id now ≡ rental
      → Post BuyerClaim
          (claim_for_rental token request_id rental buyer_id requested now lookback interval db)
  unfolding claim_for_rental
  for_rental-BuyerClaim request_id interval none usable = returns refl
  for_rental-BuyerClaim request_id interval (some rental) usable =
      claim_code-BuyerClaim request_id rental usable _ refl _ _ refl

  claim_login_otp-BuyerClaim :
      (request_id interval : ℕ)
      → Post BuyerClaim
          (claim_login_otp token request_id rental_id buyer_id requested now lookback interval db)
  unfolding claim_login_otp
  claim_login_otp-BuyerClaim request_id interval =
      for_rental-BuyerClaim request_id interval
        (usable_rental (rental_of db rental_id) buyer_id now) refl

-- Where the keys of the inbox are unique: a login code is given to a buyer only for the buyer's own
-- rental, which is active, started and not over, on an active account; the code was free, sent to
-- that account, received since the rental started and within the look-back of the request, and it
-- is marked as claimed with the new token. If none is given, nothing has changed.
pub claim_login_otp_lem :
    (token rental_id buyer_id requested now lookback request_id interval : ℕ) (db : Db)
    (k : HasUniqueKeys (λ r. r.id) db.emails) (claim : Option EmailClaim) (db' : Db)
    → claim_login_otp token request_id rental_id buyer_id requested now lookback interval db
      ≡ ok (claim, db')
    → BuyerClaim token rental_id buyer_id requested now lookback db k claim db'
claim_login_otp_lem token rental_id buyer_id requested now lookback request_id interval db k claim
      db' h =
    Post-ok
      (claim_login_otp-BuyerClaim token rental_id buyer_id requested now lookback db k request_id
        interval)
      h

-- Where the keys of the inbox are unique, a code that a maintenance login has claimed is never
-- given to a buyer.
pub maintenance_code_kept :
    (window token account_id operation_id sent at : ℕ) (db : Db)
    (k : HasUniqueKeys (λ r. r.id) db.emails) (claim : EmailClaim) (db' : Db)
    → claim_maintenance_login_otp window token account_id operation_id sent at db
      ≡ ok (some claim, db')
    → (other rental_id buyer_id requested now lookback request_id interval : ℕ) (given : EmailClaim)
      (d : Db)
    → claim_login_otp other request_id rental_id buyer_id requested now lookback interval db'
      ≡ ok (some given, d)
    → ¬ (given.event_id ≡ claim.event_id)
maintenance_code_kept window token account_id operation_id sent at db k claim db' h other rental_id
      buyer_id requested now lookback request_id interval given d h' same =
    let (event, found, fits, named, after, others, keys) =
      claim_maintenance_login_otp_lem window token account_id operation_id sent at db k (some claim)
        db' h in
    let (rental, usable, active, (event', found', fits', named', after', others', keys')) =
      claim_login_otp_lem other rental_id buyer_id requested now lookback request_id interval db'
        keys (some given) d h' in
    ground (arith, found', after, same, fits')
