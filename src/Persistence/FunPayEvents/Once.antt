-- ===== src/Persistence/FunPayEvents/Once.antt =====
-- A FunPay event that was processed is not claimed again.
use mathlib.Core.Path.{subst}
use war_thunder_rent_bot.Prelude.{
  ℕ, suc, ◌≡◌, ◌≢◌, refl, ap, Bool, true, false, ◌&&◌, some, List, [], ◌∷◌, arith, none, ◌⊎◌, ◌++◌,
  nat_beq_iff, Option-cases, Bool-cases, inl, inr, ◌is_some◌, if◌then◌else◌,
}
use war_thunder_rent_bot.Table.{HasUniqueKeys, where_key}
use war_thunder_rent_bot.Table.Laws.{
  get-where_key, rowcount-where_key, get-append_some, append-HasUniqueKeys, rowcount-update,
}
use war_thunder_rent_bot.Persistence.Rows.{
  FunPayEventRow, FunPayProcessingStatus, MessageReceiptRow,
}
use war_thunder_rent_bot.Persistence.Session.{Db, Result, ok}
use war_thunder_rent_bot.Persistence.Session.Post.{Post, Post-ok, returns, seq}
use war_thunder_rent_bot.Persistence.FunPayEvents.{
  FunPayEventClaim, event_of, cas_event, is_claimable, taken_by, claim_rows, claim_events, or_false,
  is_claimed, mark_processed, mark_retryable, mark_failed_closed, insert_event, ingest,
  insert_receipt, record_receipt,
}

-- The row is in the table, whose keys are unique.
abbrev pub Holds : ℕ → FunPayEventRow → Db → Type 0
Holds i r d = (event_of d i ≡ some r) × HasUniqueKeys (λ s. s.id) d.funpay_events

abbrev pub NotAmong : ℕ → List FunPayEventClaim → Type 0
NotAmong i [] = Unit
NotAmong i (c ∷ cs) = ((c.event).id ≢ i) × NotAmong i cs

-- A row that the update's test refuses stays, and the update does not count it.
module _ (i : ℕ) (r : FunPayEventRow) where
  Stays : {A : Type 0} → A → Db → Type 0
  Stays a d = Holds i r d

  cas_event-Stays :
      (j : ℕ) (p : FunPayEventRow → Bool) (f : FunPayEventRow → FunPayEventRow) (db : Db)
      → ((s : FunPayEventRow) → (f s).id ≡ s.id)
      → (j ≡ i → p r ≡ false)
      → Holds i r db
      → Post (λ done d. (done ≡ true → j ≢ i) × Holds i r d) (cas_event j p f db)
  unfolding cas_event
  cas_event-Stays j p f db same refused (there, keys) = returns (
    λ done e. ground (
      arith,
      done,
      refused e,
      there,
      ap (λ k. event_of db k) e,
      rowcount-where_key (λ s. s.id) j p db.funpay_events (keys j),
    ),
    (
      ground (
        arith,
        get-where_key (λ s. s.id) j p f (λ s h. same s) i db.funpay_events,
        there,
        refused,
        nat_beq_iff j i,
      ),
      λ k. ground (
        arith,
        rowcount-update (λ s. s.id) (where_key (λ s. s.id) j p) f (λ s h. same s) k
            db.funpay_events,
        keys k,
      ),
    ),
  )

  module _ (now lease : ℕ) (refused : is_claimable lease now r ≡ false) where
    claim_rows-Stays :
        (tokens : ℕ → ℕ) (rows : List FunPayEventRow) (db : Db)
        → Holds i r db
        → Post (λ claims d. NotAmong i claims × Holds i r d) (claim_rows tokens now lease rows db)
    unfolding claim_rows
    claim_rows-Stays tokens [] db there = returns (tt, there)
    claim_rows-Stays tokens (row ∷ rows) db there =
        seq _
          (cas_event-Stays row.id (is_claimable lease now) (taken_by (tokens 0) now) db (λ s. refl)
            (λ e. refused) there)
          λ done d kept.
            seq _ (claim_rows-Stays (λ n. tokens (suc n)) rows d (kept.1))
              λ claims e kept'. returns (without done kept.0 claims kept'.0, kept'.1)
      where
        without :
            (done : Bool)
            → (done ≡ true → row.id ≢ i)
            → (claims : List FunPayEventClaim) → NotAmong i claims
            → NotAmong i (
                if done
                then record { event = taken_by (tokens 0) now row; claim_token = tokens 0 } ∷ claims
                else claims)
        without true h claims k = (h refl, k)
        without false h claims k = k

-- What `mark_processed` leaves when it answers true.
processed_row :
    (i token now : ℕ) (db : Db)
    → HasUniqueKeys (λ r. r.id) db.funpay_events
    → (db' : Db) → mark_processed i token now db ≡ ok (true, db')
    → (r : FunPayEventRow) × (event_of db' i ≡ some r)
      × (r.processing_status ≡ FunPayProcessingStatus.processed)
      × HasUniqueKeys (λ s. s.id) db'.funpay_events
unfolding mark_processed cas_event
processed_row i token now db k db' h =
    let p : FunPayEventRow → Bool =
      λ r. is_claimed r.processing_status && r.claim_token is_some token in
    let f : FunPayEventRow → FunPayEventRow =
      λ r. record r { processing_status = FunPayProcessingStatus.processed; updated_at = now } in
    let count = rowcount-where_key (λ s. s.id) i p db.funpay_events (k i) in
    let read = get-where_key (λ s. s.id) i p f (λ s e. refl) i db.funpay_events in
    let unique : HasUniqueKeys (λ s. s.id) db'.funpay_events = λ j. ground (
      arith,
      h,
      rowcount-update (λ s. s.id) (where_key (λ s. s.id) i p) f (λ s e. refl) j db.funpay_events,
      k j,
    ) in
    elim (Option-cases (event_of db i)) [
      | inl gone ↦ absurd (ground (arith, h, count, gone))
      | inr (r, found) ↦ elim (Bool-cases (p r)) [
        | inr refused ↦ absurd (ground (arith, h, count, found, refused))
        | inl accepted ↦
            (f r, ground (arith, h, read, found, accepted, nat_beq_iff i i), refl, unique)
      ]
    ]

-- A transaction of the inbox of FunPay events, except the failure of this event.
pub data EventStep (i : ℕ) (db db' : Db) : Type 0 where
  ingests :
      (e : FunPayEventRow) (now : ℕ) {done : Bool}
      → ingest e now db ≡ ok (done, db')
      → EventStep i db db'
  claims :
      (tokens : ℕ → ℕ) (now lease : ℕ) {cs : List FunPayEventClaim}
      → claim_events tokens now lease db ≡ ok (cs, db')
      → EventStep i db db'
  processes :
      (j token now : ℕ) {done : Bool}
      → mark_processed j token now db ≡ ok (done, db')
      → EventStep i db db'
  retries :
      (j token now : ℕ) {done : Bool}
      → mark_retryable j token now db ≡ ok (done, db')
      → EventStep i db db'
  fails_other :
      (j token now : ℕ)
      → j ≢ i
      → mark_failed_closed j token now db ≡ ok (tt, db')
      → EventStep i db db'
  keeps_receipt :
      (m : MessageReceiptRow) {done : Bool}
      → record_receipt m db ≡ ok (done, db')
      → EventStep i db db'

pub data EventRun (i : ℕ) (db : Db) : Db → Type 0 where
  none_yet : EventRun i db db
  and_then : {d d' : Db} → EventRun i db d → EventStep i d d' → EventRun i db d'

insert_cases :
    (e : FunPayEventRow) (db : Db)
    → ((or_false (insert_event e) db
          ≡ ok (true, record db { funpay_events = db.funpay_events ++ e ∷ [] }))
        × (event_of db e.id ≡ none))
      ⊎ (or_false (insert_event e) db ≡ ok (false, db))
unfolding insert_event
insert_cases e db = ground arith

receipt_cases :
    (m : MessageReceiptRow) (db : Db)
    → (record_receipt m db
        ≡ ok (true, record db { message_receipts = db.message_receipts ++ m ∷ [] }))
      ⊎ (record_receipt m db ≡ ok (false, db))
unfolding record_receipt insert_receipt
receipt_cases m db = ground arith

module _ (i : ℕ) (r : FunPayEventRow) where
  -- the transaction that answered is the one that is known
  answered :
      {A : Type 0} {x : Result (A × Db)} (a : A) (d : Db) (b : A) (db' : Db)
      → x ≡ ok (a, d)
      → x ≡ ok (b, db')
      → Holds i r d
      → Holds i r db'
  answered a d b db' e f h = let same : d ≡ db' = cc in subst (Holds i r) same h

  insert-Holds :
      (e : FunPayEventRow) (done : Bool) (db db' : Db)
      → Holds i r db
      → or_false (insert_event e) db ≡ ok (done, db')
      → Holds i r db'
  insert-Holds e done db db' (there, keys) h = elim (insert_cases e db) [
    | inl (x, fresh) ↦ answered {x = or_false (insert_event e) db} true _ done db' x h (
      get-append_some (λ s. s.id) i db.funpay_events e {s = r} there,
      append-HasUniqueKeys (λ s. s.id) db.funpay_events e fresh keys,
    )
    | inr x ↦ answered {x = or_false (insert_event e) db} false db done db' x h (there, keys)
  ]

  receipt-Holds :
      (m : MessageReceiptRow) (done : Bool) (db db' : Db)
      → Holds i r db
      → record_receipt m db ≡ ok (done, db')
      → Holds i r db'
  receipt-Holds m done db db' k h = elim (receipt_cases m db) [
    | inl x ↦ answered {x = record_receipt m db} true _ done db' x h k
    | inr x ↦ answered {x = record_receipt m db} false db done db' x h k
  ]

  module _ (finished : r.processing_status ≡ FunPayProcessingStatus.processed) where
    claims-Holds :
        (tokens : ℕ → ℕ) (now lease : ℕ) (cs : List FunPayEventClaim) (db db' : Db)
        → Holds i r db
        → claim_events tokens now lease db ≡ ok (cs, db')
        → NotAmong i cs × Holds i r db'
    unfolding claim_events
    claims-Holds tokens now lease cs db db' k h =
        Post-ok (claim_rows-Stays i r now lease (ground (arith, finished)) tokens _ db k) h

    step-Holds : (db db' : Db) → Holds i r db → EventStep i db db' → Holds i r db'
    unfolding ingest mark_processed mark_retryable mark_failed_closed
    step-Holds db db' k (ingests e now {done} h) = insert-Holds _ done db db' k h
    step-Holds db db' k (claims tokens now lease {cs} h) =
        (claims-Holds tokens now lease cs db db' k h).1
    step-Holds db db' k (processes j token now h) =
        (Post-ok (cas_event-Stays i r j _ _ db (λ s. refl) (λ e. ground (arith, finished)) k) h).1
    step-Holds db db' k (retries j token now h) =
        (Post-ok (cas_event-Stays i r j _ _ db (λ s. refl) (λ e. ground (arith, finished)) k) h).1
    step-Holds db db' k (fails_other j token now other h) =
        Post-ok {Q = λ u d. Holds i r d}
          (seq _ (cas_event-Stays i r j _ _ db (λ s. refl) (λ e. absurd (other e)) k)
            (λ done d kept. returns (kept.1)))
          h
    step-Holds db db' k (keeps_receipt m {done} h) = receipt-Holds m done db db' k h

    run-Holds : (db db' : Db) → Holds i r db → EventRun i db db' → Holds i r db'
    run-Holds db db' k none_yet = k
    run-Holds db db' k (and_then {d} run step) = step-Holds d db' (run-Holds db d k run) step

-- Where the keys of the events are unique, an event that `mark_processed` has accepted is PROCESSED,
-- its row stays as it is through any number of transactions of the inbox, in any order and with any
-- tokens and times, as long as none is a `mark_failed_closed` of the event itself, and no
-- `claim_events` after them returns a claim of it.
pub processed_once :
    (i token now : ℕ) (db : Db)
    → HasUniqueKeys (λ r. r.id) db.funpay_events
    → (db' : Db) → mark_processed i token now db ≡ ok (true, db')
    → (d : Db) → EventRun i db' d
    → (tokens : ℕ → ℕ) (later lease : ℕ) (cs : List FunPayEventClaim) (last : Db)
    → claim_events tokens later lease d ≡ ok (cs, last)
    → (r : FunPayEventRow) × (event_of db' i ≡ some r)
      × (r.processing_status ≡ FunPayProcessingStatus.processed)
      × (event_of last i ≡ some r)
      × NotAmong i cs
processed_once i token now db k db' h d run tokens later lease cs last h' =
    let (r, there, finished, keys) = processed_row i token now db k db' h in
    let held = run-Holds i r finished db' d (there, keys) run in
    let (absent, held') = claims-Holds i r finished tokens later lease cs d last held h' in
    (r, there, finished, held'.0, absent)
