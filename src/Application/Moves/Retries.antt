-- ===== src/Application/Moves/Retries.antt =====
-- `reserve_order` and `recover_expired_leases` try again when SQLite is busy; what other processes
-- commit meanwhile are steps as well.
use war_thunder_rent_bot.Prelude.{
  ℕ, suc, zero, ◌≡◌, refl, Bool, true, false, Option, none, some, if◌then◌else◌, nat_beq,
}
use war_thunder_rent_bot.Domain.Models.{OrderInput, StartResult}
use war_thunder_rent_bot.Persistence.Rows.{OrderRow}
use war_thunder_rent_bot.Persistence.Session.{
  Db, Result, ok, err, integrity, operational, state_conflict, value, assertion, runtime, port,
}
use war_thunder_rent_bot.Persistence.Booking.{Booked}
use war_thunder_rent_bot.Persistence.Booking.Steps.{Step}
use war_thunder_rent_bot.Persistence.Booking.Runs.{Run, rest, chain, one, Run-Booked}
use war_thunder_rent_bot.Persistence.Repository.Security.{Windows}
use war_thunder_rent_bot.Persistence.Repository.Reservation.{
  Attempt, recorded_answer, find_order, is_retried, try_once, reserve_attempts, reserve_order,
}
use war_thunder_rent_bot.Persistence.Repository.Recovery.{
  Busy, try_recovery, recover_attempts, recover_expired_leases,
}
use war_thunder_rent_bot.Application.Moves.Outside.{MovesDb}

not_refused :
    {A : Type 0} (b : Bool) {r : Result A} {a : A}
    → (if b then err operational else r) ≡ ok a
    → r ≡ ok a
not_refused true e = absurd cc
not_refused false e = e

module _ (order : OrderInput) (now : ℕ) where
  -- the end of one attempt
  abbrev settled :
      Result (StartResult × Db)
      → Option OrderRow
      → Db
      → Db
      → Result StartResult × Db
      → Result StartResult × Db
  settled r found db seen again = elim r [
    | ok (answer, d) ↦ (ok answer, d)
    | err e ↦
        if is_retried e
        then elim found [
          | some existing ↦ (ok (recorded_answer existing seen), seen)
          | none ↦ again
        ]
        else (err e, db)
  ]

  settled-Run :
      (r : Result (StartResult × Db)) (found : Option OrderRow) {db seen : Db}
      (again : Result StartResult × Db)
      → ((a : StartResult) (d : Db) → r ≡ ok (a, d) → Step db d)
      → Run db seen
      → Run db (again.1)
      → Run db ((settled r found db seen again).1)
  settled-Run (ok (a, d)) found again h s t = one (h a d refl)
  settled-Run (err integrity) (some x) again h s t = s
  settled-Run (err integrity) none again h s t = t
  settled-Run (err operational) (some x) again h s t = s
  settled-Run (err operational) none again h s t = t
  settled-Run (err state_conflict) found again h s t = rest
  settled-Run (err value) found again h s t = rest
  settled-Run (err assertion) found again h s t = rest
  settled-Run (err runtime) found again h s t = rest
  settled-Run (err port) found again h s t = rest

  try_once-Step :
      (a : Attempt) (db : Db) (answer : StartResult) (d : Db)
      → try_once a order now db ≡ ok (answer, d)
      → Step db d
  unfolding try_once
  try_once-Step a db answer d e = Step.reserves a order now (answer, not_refused a.is_refused e)

  reserve_attempts-Run :
      (left : ℕ) (attempts : ℕ → Attempt)
      → ((n : ℕ) → MovesDb (attempts n).others)
      → (db : Db) → Booked db
      → Run db ((reserve_attempts left attempts order now db).1)
  unfolding reserve_attempts
  reserve_attempts-Run zero attempts h db b = rest
  reserve_attempts-Run (suc left) attempts h db b =
      let s = h 0 db b in
      let seen = (attempts 0).others db in
      settled-Run (try_once (attempts 0) order now db) (find_order order.funpay_order_id seen) _
        (λ a d e. try_once-Step (attempts 0) db a d e) s
        (chain s (
          reserve_attempts-Run left (λ n. attempts (suc n)) (λ n. h (suc n)) seen (Run-Booked b s)))

  pub reserve_order-Run :
      (attempts : ℕ → Attempt)
      → ((n : ℕ) → MovesDb (attempts n).others)
      → (db : Db) → Booked db
      → Run db ((reserve_order attempts order now db).1)
  unfolding reserve_order
  reserve_order-Run attempts h db b = reserve_attempts-Run 5 attempts h db b

module _ (w : Windows) (now : ℕ) where
  abbrev ended : Result (ℕ × Db) → Bool → Db → Result ℕ × Db → Result ℕ × Db
  ended r last db again = elim r [
    | ok (recovered, d) ↦ (ok recovered, d)
    | err operational ↦ if last then (err operational, db) else again
    | err e ↦ (err e, db)
  ]

  ended-Run :
      (r : Result (ℕ × Db)) (last : Bool) {db : Db} (again : Result ℕ × Db)
      → ((n : ℕ) (d : Db) → r ≡ ok (n, d) → Step db d)
      → Run db (again.1)
      → Run db ((ended r last db again).1)
  ended-Run (ok (n, d)) last again h t = one (h n d refl)
  ended-Run (err operational) true again h t = rest
  ended-Run (err operational) false again h t = t
  ended-Run (err integrity) last again h t = rest
  ended-Run (err state_conflict) last again h t = rest
  ended-Run (err value) last again h t = rest
  ended-Run (err assertion) last again h t = rest
  ended-Run (err runtime) last again h t = rest
  ended-Run (err port) last again h t = rest

  try_recovery-Step :
      (b : Busy) (db : Db) (n : ℕ) (d : Db) → try_recovery b w now db ≡ ok (n, d) → Step db d
  unfolding try_recovery
  try_recovery-Step b db n d e = Step.recovers w now (n, not_refused b.is_refused e)

  recover_attempts-Run :
      (left : ℕ) (busy : ℕ → Busy)
      → ((n : ℕ) → MovesDb (busy n).others)
      → (db : Db) → Booked db
      → Run db ((recover_attempts left busy w now db).1)
  unfolding recover_attempts
  recover_attempts-Run zero busy h db b = rest
  recover_attempts-Run (suc left) busy h db b =
      let s = h 0 db b in
      ended-Run (try_recovery (busy 0) w now db) (nat_beq left 0) _
        (λ n d e. try_recovery-Step (busy 0) db n d e)
        (chain s (
          recover_attempts-Run left (λ n. busy (suc n)) (λ n. h (suc n)) ((busy 0).others db)
            (Run-Booked b s)))

  pub recover_expired_leases-Run :
      (busy : ℕ → Busy)
      → ((n : ℕ) → MovesDb (busy n).others)
      → (db : Db) → Booked db
      → Run db ((recover_expired_leases busy w now db).1)
  unfolding recover_expired_leases
  recover_expired_leases-Run busy h db b = recover_attempts-Run 5 busy h db b
