-- ===== src/Persistence/Booking/Inbox.antt =====
-- The transactions on emails, login codes, FunPay's events and receipts touch neither accounts,
-- orders, rentals nor operations; the one that asks for a code adds an operation.
use war_thunder_rent_bot.Prelude.{
  ◌⊎◌, ◌++◌, ℕ, ◌≡◌, refl, ◌∙◌, Bool, true, false, Option, none, some, List, [], ◌∷◌, inl, inr,
  arith, suc,
}
use war_thunder_rent_bot.Persistence.Rows.{
  ClassifiedEmailEventRow, ClaimedBy, OtpRequestRow, OtpOutcome,
}
use war_thunder_rent_bot.Persistence.Session.{
  Db, Tx, Result, Error, ok, err, cas_email, integrity, operational, state_conflict, value,
  assertion, runtime, port,
}
use war_thunder_rent_bot.Persistence.Session.Post.{Post, returns, raises, seq}
use war_thunder_rent_bot.Persistence.Emails.Codes.{
  insert_otp_request, claim_event, claim_code, claim_for_rental, claim_found, mark_request,
}
use war_thunder_rent_bot.Persistence.Emails.Alerts.{claim_alert, claim_alerts}
use war_thunder_rent_bot.Persistence.FunPayEvents.{cas_event, claim_rows}

pub record Quiet (db db' : Db) : Type 0 where
  pub accounts : db'.accounts ≡ db.accounts
  pub orders : db'.orders ≡ db.orders
  pub rentals : db'.rentals ≡ db.rentals
  pub operations : db'.operations ≡ db.operations

pub at_rest : {db : Db} → Quiet db db
at_rest = record { accounts = refl; orders = refl; rentals = refl; operations = refl }

joined : {a b c : Db} → Quiet a b → Quiet b c → Quiet a c
joined p q = record {
  accounts = q.accounts ∙ p.accounts;
  orders = q.orders ∙ p.orders;
  rentals = q.rentals ∙ p.rentals;
  operations = q.operations ∙ p.operations;
}

pub record IsQuiet {A : Type 0} (m : Tx A) : Type 0 where
  pub keeps : (db : Db) → Post (λ _ d. Quiet db d) (m db)

join-Post :
    {A : Type 0} {r : Result (A × Db)} {a b : Db}
    → Quiet a b
    → Post (λ _ d. Quiet b d) r
    → Post (λ _ d. Quiet a d) r
join-Post p (returns q) = returns (joined p q)
join-Post p raises = raises

-- An insert that keeps its constraints, or raises.
pub insert-Post :
    {A : Type 0} {r : Result (A × Db)} {a : A} {db d : Db} {e : Error}
    → (r ≡ ok (a, d)) ⊎ (r ≡ err e)
    → Quiet db d
    → Post (λ _ d'. Quiet db d') r
insert-Post (inl eq) q = rw eq (returns q)
insert-Post (inr eq) q = rw eq raises

module _ {A : Type 0} where
  pub pure-IsQuiet : (a : A) → IsQuiet (λ db. ok (a, db))
  pure-IsQuiet a = record { keeps = λ db. returns at_rest }

  pub bind-IsQuiet :
      {B : Type 0} {m : Tx A} {f : A → Tx B}
      → IsQuiet m
      → ((a : A) → IsQuiet (f a))
      → IsQuiet (λ db. elim (m db) [ ok (a, d) ↦ f a d | err e ↦ err e ])
  bind-IsQuiet {f = f} h k = record {
    keeps = λ db. seq f (h.keeps db) (λ a d q. join-Post q ((k a).keeps d));
  }

pub cas_email-IsQuiet : (i : ℕ) (p : _) (f : _) → IsQuiet (cas_email i p f)
unfolding cas_email
cas_email-IsQuiet i p f = record {
  keeps =
      λ db. returns (record { accounts = refl; orders = refl; rentals = refl; operations = refl });
}

pub cas_event-IsQuiet : (i : ℕ) (p : _) (f : _) → IsQuiet (cas_event i p f)
unfolding cas_event
cas_event-IsQuiet i p f = record {
  keeps =
      λ db. returns (record { accounts = refl; orders = refl; rentals = refl; operations = refl });
}

pub branch :
    {A : Type 0} (b : Bool) {m n : Tx A}
    → IsQuiet m
    → IsQuiet n
    → IsQuiet (elim b as (λ _. Tx A) [ false ↦ m | true ↦ n ])
branch false hm hn = hm
branch true hm hn = hn

otp_request_cases :
    (r : OtpRequestRow) (db : Db)
    → (insert_otp_request r db ≡ ok (tt, record db { otp_requests = db.otp_requests ++ r ∷ [] }))
      ⊎ (insert_otp_request r db ≡ err integrity)
unfolding insert_otp_request
otp_request_cases r db = ground arith

insert_otp_request-IsQuiet : (r : OtpRequestRow) → IsQuiet (insert_otp_request r)
insert_otp_request-IsQuiet r = record {
  keeps = λ db.
      insert-Post (otp_request_cases r db)
        (record { accounts = refl; orders = refl; rentals = refl; operations = refl });
}

claim_event-IsQuiet :
    (token : ℕ) (by : ClaimedBy) (now : ℕ) (e : _) → IsQuiet (claim_event token by now e)
unfolding claim_event
claim_event-IsQuiet token by now e = cas_email-IsQuiet _ _ _

pub claim_found-IsQuiet :
    (token : ℕ) (by : ClaimedBy) (now : ℕ) (found : Option ClassifiedEmailEventRow)
    → IsQuiet (claim_found token by now found)
unfolding claim_found
claim_found-IsQuiet token by now none = pure-IsQuiet _
claim_found-IsQuiet token by now (some e) =
    bind-IsQuiet (claim_event-IsQuiet token by now e)
      (λ b. branch b (pure-IsQuiet _) (pure-IsQuiet _))

claim_code-IsQuiet :
    (token request_id : ℕ) (rental : _) (buyer requested now : ℕ) (a : Option _) (r : Option _)
    (e : Option _)
    → IsQuiet (claim_code token request_id rental buyer requested now a r e)
unfolding claim_code
claim_code-IsQuiet token request_id rental buyer requested now (some a) none (some e) =
    bind-IsQuiet (claim_event-IsQuiet token _ now e) (λ b.
      branch b (pure-IsQuiet _) (bind-IsQuiet (insert_otp_request-IsQuiet _) (λ u. pure-IsQuiet _)))
claim_code-IsQuiet token request_id rental buyer requested now _ _ _ = pure-IsQuiet _

pub claim_for_rental-IsQuiet :
    (token request_id : ℕ) (rental : Option _) (buyer requested now lookback interval : ℕ)
    → IsQuiet (claim_for_rental token request_id rental buyer requested now lookback interval)
unfolding claim_for_rental
claim_for_rental-IsQuiet token request_id none buyer requested now lookback interval =
    pure-IsQuiet _
claim_for_rental-IsQuiet token request_id (some rental) buyer requested now lookback interval =
    record {
      keeps = λ db. (claim_code-IsQuiet token request_id rental buyer requested now _ _ _).keeps db;
    }

pub mark_request-IsQuiet : (i : Option ℕ) (outcome : OtpOutcome) → IsQuiet (mark_request i outcome)
unfolding mark_request
mark_request-IsQuiet none outcome = pure-IsQuiet _
mark_request-IsQuiet (some i) outcome = record {
  keeps =
      λ db. returns (record { accounts = refl; orders = refl; rentals = refl; operations = refl });
}

pub claim_alerts-IsQuiet :
    (tokens : ℕ → ℕ) (lease now : ℕ) (rows : List _) → IsQuiet (claim_alerts tokens lease now rows)
unfolding claim_alerts claim_alert
claim_alerts-IsQuiet tokens lease now [] = pure-IsQuiet _
claim_alerts-IsQuiet tokens lease now (row ∷ rows) = bind-IsQuiet (cas_email-IsQuiet _ _ _) (λ b.
    bind-IsQuiet (claim_alerts-IsQuiet (λ n. tokens (suc n)) lease now rows) (λ c. pure-IsQuiet _))

pub claim_rows-IsQuiet :
    (tokens : ℕ → ℕ) (now lease : ℕ) (rows : List _) → IsQuiet (claim_rows tokens now lease rows)
unfolding claim_rows
claim_rows-IsQuiet tokens now lease [] = pure-IsQuiet _
claim_rows-IsQuiet tokens now lease (row ∷ rows) = bind-IsQuiet (cas_event-IsQuiet _ _ _) (λ b.
    bind-IsQuiet (claim_rows-IsQuiet (λ n. tokens (suc n)) now lease rows) (λ c. pure-IsQuiet _))

-- A refused insert is rolled back: `except IntegrityError: return False`.
abbrev pub or_false_at : Db → Result (Bool × Db) → Result (Bool × Db)
or_false_at db r = elim r [
  | ok r ↦ ok r
  | err e ↦ elim e [ integrity ↦ ok (false, db) | other ↦ err other ]
]

or_false-Post :
    {db : Db} (r : Result (Bool × Db))
    → Post (λ _ d. Quiet db d) r
    → Post (λ _ d. Quiet db d) (or_false_at db r)
or_false-Post (ok (a, d)) (returns q) = returns q
or_false-Post (err integrity) q = returns at_rest
or_false-Post (err operational) q = raises
or_false-Post (err state_conflict) q = raises
or_false-Post (err value) q = raises
or_false-Post (err assertion) q = raises
or_false-Post (err runtime) q = raises
or_false-Post (err port) q = raises

pub refused : {m : Tx Bool} → IsQuiet m → IsQuiet (λ db. or_false_at db (m db))
refused {m} h = record { keeps = λ db. or_false-Post (m db) (h.keeps db) }
