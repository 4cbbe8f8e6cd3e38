-- ===== src/Persistence/Booking/Repair.antt =====
-- The preparation of a revocation and the repairs of a restart keep an account let to one rental at a
-- time.
use mathlib.Core.Path.{subst}
use war_thunder_rent_bot.Prelude.{
  ℕ, ◌≡◌, refl, sym, Bool, true, false, Option, none, some, List, [], ◌∷◌, Bool-cases,
  if◌then◌else◌, ◌+◌, inl, inr, ◌==◌, nat_eq,
}
use war_thunder_rent_bot.Domain.States.{
  AccountStatus, RentalStatus, OperationKind, kind_eq, rental_eq, account_eq,
}
use war_thunder_rent_bot.Domain.Transitions.{account_transition, rental_transition}
use war_thunder_rent_bot.Table.{get}
use war_thunder_rent_bot.Persistence.Rows.{AccountRow, RentalRow, OperationRow}
use war_thunder_rent_bot.Persistence.Session.{
  Db, account_of, rental_of, operation_of, optional, pure,
}
use war_thunder_rent_bot.Persistence.Session.Post.{Post, returns, raises, seq, seq_cas_account}
use war_thunder_rent_bot.Persistence.Booking.{Booked, Booked-with_rental, Booked-with_account}
use war_thunder_rent_bot.Persistence.Booking.Rows.{seq_cas_Booked}
use war_thunder_rent_bot.Persistence.Booking.Completion.{KeepsBooked, Booked-audit, from_live}
use war_thunder_rent_bot.Persistence.Booking.Failure.{
  was_account, was_rental, WasRental, quarantine-Booked,
}
use war_thunder_rent_bot.Persistence.Repository.Internal.{transition_row}
use war_thunder_rent_bot.Persistence.Repository.Internal.Laws.{moved_rental, transition_rental_lem}
use war_thunder_rent_bot.Persistence.Repository.Internal.Rules.{seq_audit, last_audit}
use war_thunder_rent_bot.Persistence.Repository.Claims.{is_running}
use war_thunder_rent_bot.Persistence.Repository.Security.{
  Windows, ensure_account_revoking, ensure_rental_revoking, prepare_revoke, prepare_found,
  prepare_operation,
}
use war_thunder_rent_bot.Persistence.Repository.Recovery.{
  is_abandoned, quarantine_row, recover_one, recover_loop, recover_expired_leases_once,
  reconcile_found, reconcile_one, reconcile_loop, reconcile,
}

-- A transition of an account object, stale or not, to a status that is not available.
transition_row-Booked :
    (account : AccountRow) (target : AccountStatus) (now : ℕ) (db : Db)
    → Booked db
    → ¬ (target ≡ AccountStatus.available)
    → Post (λ _ d. Booked d × (d.rentals ≡ db.rentals)) (transition_row account target now db)
unfolding transition_row
transition_row-Booked account target now db b taken =
    elim (Bool-cases (account_transition account.status target)) [
      | inr illegal ↦ rw illegal raises
      | inl legal ↦ rw legal (
          seq_cas_account _ account.id _
            (λ r. record r {
              status = target;
              state_version = r.state_version + 1;
              updated_at = now;
            })
            db b.keys (λ r. refl)
            (λ r found e. returns (
              Booked-with_account db b _ r (was_account db account.id r found) refl
                  (λ h. absurd (taken h)),
              refl,
            ))
            (λ miss. raises))
    ]

-- The two guards of `prepare_operation`.
ensure_account-Booked :
    (a : AccountRow) (now : ℕ) (db : Db)
    → Booked db
    → Post (λ _ d. Booked d × (d.rentals ≡ db.rentals)) (ensure_account_revoking a now db)
unfolding ensure_account_revoking
ensure_account-Booked a now db b = elim (Bool-cases (a.status == AccountStatus.revoking)) [
  | inl done ↦ rw done (returns (b, refl))
  | inr todo ↦ rw todo (transition_row-Booked a AccountStatus.revoking now db b (λ e. cc))
]

ensure_rental-Booked :
    (x : RentalRow) (now : ℕ) (db : Db)
    → Booked db
    → rental_of db x.id ≡ some x
    → Post (λ _ d. Booked d) (ensure_rental_revoking x now db)
unfolding ensure_rental_revoking
ensure_rental-Booked x now db b there = elim (Bool-cases (x.status == RentalStatus.revoking)) [
  | inl done ↦ rw done (returns b)
  | inr todo ↦ rw todo (elim (Bool-cases (rental_transition x.status RentalStatus.revoking)) [
    | inl legal ↦
        rw (transition_rental_lem x RentalStatus.revoking now db, legal)
          (returns (
            Booked-with_rental db b (moved_rental x RentalStatus.revoking now) x there refl refl
              (λ live. from_live x.status RentalStatus.revoking legal)))
    | inr illegal ↦ rw (transition_rental_lem x RentalStatus.revoking now db, illegal) raises
  ])
]

prepare_revoke-Booked :
    (op : OperationRow) (a : Option AccountRow) (x : Option RentalRow) (now : ℕ) (db : Db)
    → Booked db
    → WasRental db x
    → KeepsBooked (prepare_revoke op a x now db)
unfolding prepare_revoke
prepare_revoke-Booked op (some a) (some x) now db b was =
    seq _ (ensure_account-Booked a now db b) λ u d kept.
      seq _
        (ensure_rental-Booked x now d kept.0
          (subst (λ rows. get (λ q. q.id) x.id rows ≡ some x) (sym kept.1) (was x refl)))
        λ v e kept'. returns kept'
prepare_revoke-Booked op _ _ now db b was = raises

prepare_found-Booked :
    (found : Option OperationRow) (now : ℕ) (db : Db)
    → Booked db
    → KeepsBooked (prepare_found found now db)
unfolding prepare_found
prepare_found-Booked none now db b = returns b
prepare_found-Booked (some op) now db b = elim (Bool-cases (is_running op)) [
  | inr stopped ↦ rw stopped (returns b)
  | inl going ↦ rw going (elim (Bool-cases (op.kind == OperationKind.revoke_sessions)) [
    | inl revokes ↦ rw revokes (prepare_revoke-Booked op _ _ now db b (was_rental db op.rental_id))
    | inr other ↦ rw other (returns b)
  ])
]

pub prepare_operation-Booked :
    (i now : ℕ) (db : Db) → Booked db → KeepsBooked (prepare_operation i now db)
unfolding prepare_operation
prepare_operation-Booked i now db b = prepare_found-Booked (operation_of db i) now db b

recover_one-Booked :
    (w : Windows) (now : ℕ) (row : OperationRow) (db : Db)
    → Booked db
    → KeepsBooked (recover_one w now row db)
unfolding recover_one
recover_one-Booked w now row db b = elim (Bool-cases (is_abandoned w now row)) [
  | inr alive ↦ rw alive (returns b)
  | inl lost ↦ rw lost (
      seq_cas_Booked row.id _ _
        (record { id = λ r. refl; account_id = λ r. refl; rental_id = λ r. refl }) db b _
        λ done d kept. finish done d kept)
]
  where
    finish :
        (done : Bool) (d : Db)
        → Booked d
        → KeepsBooked ((if done then quarantine_row row now else pure false) d)
    finish false d kept = returns kept
    finish true d kept =
        seq _
          (quarantine-Booked d kept (account_of d row.account_id)
            (optional (rental_of d) row.rental_id) now (was_account d row.account_id)
            (was_rental d row.rental_id))
          λ u e kept'. seq_audit _ _ _ _ _ now e (returns (Booked-audit kept' _))

recover_loop-Booked :
    (w : Windows) (now : ℕ) (rows : List OperationRow) (db : Db)
    → Booked db
    → KeepsBooked (recover_loop w now rows db)
unfolding recover_loop
recover_loop-Booked w now [] db b = returns b
recover_loop-Booked w now (row ∷ rows) db b =
    seq _ (recover_one-Booked w now row db b)
      λ done d kept. seq _ (recover_loop-Booked w now rows d kept) (λ n e kept'. returns kept')

pub recover_expired_leases-Booked :
    (w : Windows) (now : ℕ) (db : Db)
    → Booked db
    → KeepsBooked (recover_expired_leases_once w now db)
unfolding recover_expired_leases_once
recover_expired_leases-Booked w now db b = recover_loop-Booked w now _ db b

reconcile_found-Booked :
    (o : Option OperationRow) (now : ℕ) (a : AccountRow) (db : Db)
    → Booked db
    → KeepsBooked (reconcile_found o now a db)
unfolding reconcile_found
reconcile_found-Booked (some op) now a db b = returns b
reconcile_found-Booked none now a db b =
    seq _ (transition_row-Booked a AccountStatus.manual_review now db b (λ e. cc))
      λ u d kept. last_audit _ _ _ _ now d (Booked-audit kept.0 _)

reconcile_one-Booked :
    (now : ℕ) (a : AccountRow) (db : Db) → Booked db → KeepsBooked (reconcile_one now a db)
unfolding reconcile_one
reconcile_one-Booked now a db b = reconcile_found-Booked _ now a db b

reconcile_loop-Booked :
    (now : ℕ) (rows : List AccountRow) (db : Db)
    → Booked db
    → KeepsBooked (reconcile_loop now rows db)
unfolding reconcile_loop
reconcile_loop-Booked now [] db b = returns b
reconcile_loop-Booked now (a ∷ rows) db b =
    seq _ (reconcile_one-Booked now a db b)
      λ u d kept. seq _ (reconcile_loop-Booked now rows d kept) (λ n e kept'. returns kept')

pub reconcile-Booked : (now : ℕ) (db : Db) → Booked db → KeepsBooked (reconcile now db)
unfolding reconcile
reconcile-Booked now db b = reconcile_loop-Booked now _ db b
