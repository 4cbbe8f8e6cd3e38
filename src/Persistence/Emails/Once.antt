-- ===== src/Persistence/Emails/Once.antt =====
-- A code is claimed once, and only by the rental or the operation that it was sent for.
use war_thunder_rent_bot.Prelude.{
  ℕ, ◌&&◌, Bool-cases, inl, inr, if◌then◌else◌, ◌≡◌, refl, Bool, true, false, Option, none, some,
  arith, nat_beq, nat_beq_iff,
}
use war_thunder_rent_bot.Table.{save, first_by, HasUniqueKeys}
use war_thunder_rent_bot.Table.Laws.{
  rowcount-where_key, update-eq-save, save-HasUniqueKeys, get-save_at, get-first_by,
}
use war_thunder_rent_bot.Persistence.Rows.{ClassifiedEmailEventRow, ClaimedBy}
use war_thunder_rent_bot.Persistence.Session.{
  operation_of, Result, err, Db, ok, cas_email, email_of,
}
use war_thunder_rent_bot.Persistence.Session.Post.{Post, Post-map, Post-ok, returns}
use war_thunder_rent_bot.Persistence.Emails.Codes.{
  maintains, maintenance_code, claim_maintenance_login_otp, EmailClaim, is_free, claimed_row,
  claim_event, claim_found,
}

abbrev pub with_email : ClassifiedEmailEventRow → Db → Db
with_email r db = record db { emails = save (λ s. s.id) r db.emails }

module _ (token : ℕ) (by : ClaimedBy) (now : ℕ) (db : Db)
    (k : HasUniqueKeys (λ r. r.id) db.emails) where
  claim_event-hit :
      (event : ClassifiedEmailEventRow)
      → email_of db event.id ≡ some event
      → is_free event ≡ true
      → claim_event token by now event db
        ≡ ok (true, with_email (claimed_row token by now event) db)
  unfolding claim_event cas_email
  claim_event-hit event found free =
      rw
        (
          update-eq-save (λ s. s.id) event.id is_free (claimed_row token by now) db.emails
              {r = event} k found free refl,
          rowcount-where_key (λ s. s.id) event.id is_free db.emails (k event.id),
        )
        (rw found (rw free refl))

  pub seq_claim :
      {B : Type 0} {Q : B → Db → Type 0} (f : Bool → Db → Result (B × Db))
      (event : ClassifiedEmailEventRow)
      → email_of db event.id ≡ some event
      → is_free event ≡ true
      → Post Q (f true (with_email (claimed_row token by now event) db))
      → Post Q (elim (claim_event token by now event db) [ ok (a, d) ↦ f a d | err x ↦ err x ])
  seq_claim f event found free next = rw (claim_event-hit event found free) next

  -- The row of the claimed event, before and after; and the other rows, which stay.
  abbrev pub Taken : (ClassifiedEmailEventRow → Bool) → EmailClaim → Db → Type 0
  Taken p claim d =
      (event : ClassifiedEmailEventRow) × (email_of db claim.event_id ≡ some event)
      × (p event ≡ true)
      × (claim.claim_token ≡ token)
      × (email_of d claim.event_id ≡ some (claimed_row token by now event))
      × ((j : ℕ) → nat_beq claim.event_id j ≡ false → email_of d j ≡ email_of db j)
      × HasUniqueKeys (λ r. r.id) d.emails

  abbrev pub Claimed : (ClassifiedEmailEventRow → Bool) → Option EmailClaim → Db → Type 0
  Claimed p none d = d ≡ db
  Claimed p (some claim) d = Taken p claim d

  pub taken :
      (p : ClassifiedEmailEventRow → Bool) (event : ClassifiedEmailEventRow) (claim : EmailClaim)
      → email_of db event.id ≡ some event
      → p event ≡ true
      → claim.event_id ≡ event.id
      → claim.claim_token ≡ token
      → Taken p claim (with_email (claimed_row token by now event) db)
  taken p event claim found ok_ ei et =
      let row = claimed_row token by now event in
      let at : (j : ℕ)
          → email_of (with_email row db) j
            ≡ (if nat_beq event.id j then some row else email_of db j) =
        λ j. get-save_at (λ s. s.id) row {i = event.id} refl j db.emails {s = event} found in
      (
        event,
        rw ei found,
        ok_,
        et,
        rw ei (ground (arith, at event.id, nat_beq_iff event.id event.id)),
        λ j other. ground (arith, at j, other, ei),
        save-HasUniqueKeys (λ s. s.id) row db.emails k,
      )

  claim_found-Claimed :
      (p : ClassifiedEmailEventRow → Bool)
      → ((r : ClassifiedEmailEventRow) → p r ≡ true → is_free r ≡ true)
      → (event : Option ClassifiedEmailEventRow) → first_by (λ r. r.received_at) p db.emails ≡ event
      → Post (Claimed p) (claim_found token by now event db)
  unfolding claim_found
  claim_found-Claimed p free none found = returns refl
  claim_found-Claimed p free (some event) found =
      let (there, fits) =
        get-first_by (λ s. s.id) (λ r. r.received_at) p db.emails event (k event.id) found in
      seq_claim _ event there (free event fits) (
        returns (
          taken p event (record { event_id = event.id; claim_token = token; request_id = none })
            there fits refl refl))

module _ (token : ℕ) (by : ClaimedBy) (now : ℕ) (db : Db)
    (k : HasUniqueKeys (λ r. r.id) db.emails) where
  widen :
      (p q : ClassifiedEmailEventRow → Bool)
      → ((r : ClassifiedEmailEventRow) → p r ≡ true → q r ≡ true)
      → (claim : Option EmailClaim) (d : Db) → Claimed token by now db k p claim d
      → Claimed token by now db k q claim d
  widen p q f none d same = same
  widen p q f (some claim) d (event, found, fits, named, after, others, keys) =
      (event, found, f event fits, named, after, others, keys)

module _ (window token account_id operation_id requested now : ℕ) (db : Db)
    (k : HasUniqueKeys (λ r. r.id) db.emails) where
  abbrev pub MaintenanceClaim : Option EmailClaim → Db → Type 0
  MaintenanceClaim claim d =
      Claimed token ClaimedBy.pixelstorm_maintenance now db k
        (λ r.
          maintenance_code window account_id requested now r
          && maintains account_id (operation_of db operation_id))
        claim d

  maintenance-Claimed :
      Post MaintenanceClaim
        (claim_maintenance_login_otp window token account_id operation_id requested now db)
  unfolding claim_maintenance_login_otp
  maintenance-Claimed = elim (Bool-cases (maintains account_id (operation_of db operation_id))) [
    | inr idle ↦ rw idle (returns refl)
    | inl busy ↦ rw busy (
        Post-map
          (claim_found-Claimed token ClaimedBy.pixelstorm_maintenance now db k
            (maintenance_code window account_id requested now) (λ r h. ground (arith, h))
            (first_by (λ r. r.received_at) (maintenance_code window account_id requested now)
              db.emails)
            refl)
          (widen token ClaimedBy.pixelstorm_maintenance now db k _ _
            (λ r h. ground (arith, h, busy))))
  ]

-- Where the keys of the inbox are unique, a maintenance claim that succeeds takes one free login
-- code of the account, received from the request on, within the window and not in the future, for
-- an operation that is running and maintains the account; the other emails stay. One that does not
-- succeed changes nothing.
pub claim_maintenance_login_otp_lem :
    (window token account_id operation_id requested now : ℕ) (db : Db)
    (k : HasUniqueKeys (λ r. r.id) db.emails) (claim : Option EmailClaim) (db' : Db)
    → claim_maintenance_login_otp window token account_id operation_id requested now db
      ≡ ok (claim, db')
    → MaintenanceClaim window token account_id operation_id requested now db k claim db'
claim_maintenance_login_otp_lem window token account_id operation_id requested now db k claim db'
      h =
    Post-ok (maintenance-Claimed window token account_id operation_id requested now db k) h

-- Where the keys of the inbox are unique, a code that a maintenance login has claimed is given to
-- no later maintenance login, of whatever account, operation and time.
pub code_claimed_once :
    (window token account_id operation_id requested now : ℕ) (db : Db)
    (k : HasUniqueKeys (λ r. r.id) db.emails) (claim : EmailClaim) (db' : Db)
    → claim_maintenance_login_otp window token account_id operation_id requested now db
      ≡ ok (some claim, db')
    → (window' token' account' operation' requested' now' : ℕ) (claim' : EmailClaim) (d : Db)
    → claim_maintenance_login_otp window' token' account' operation' requested' now' db'
      ≡ ok (some claim', d)
    → ¬ (claim'.event_id ≡ claim.event_id)
code_claimed_once window token account_id operation_id requested now db k claim db' h window' token'
      account' operation' requested' now' claim' d h' same =
    let (event, found, fits, named, after, others, keys) =
      claim_maintenance_login_otp_lem window token account_id operation_id requested now db k
        (some claim) db' h in
    let (event', found', fits', named', after', others', keys') =
      claim_maintenance_login_otp_lem window' token' account' operation' requested' now' db' keys
        (some claim') d h' in
    ground (arith, found', after, same, fits')
