-- ===== src/Persistence/Booking/Completion.antt =====
-- Completing and failing an operation keep an account let to one rental at a time.
use mathlib.Core.Path.{subst}
use war_thunder_rent_bot.Domain.Transitions.{rental_transition}
use war_thunder_rent_bot.Prelude.{ℕ, ◌+◌, ◌≡◌, refl, true, Option, none, some, arith}
use war_thunder_rent_bot.Domain.States.{AccountStatus, RentalStatus, OperationKind}
use war_thunder_rent_bot.Persistence.Rows.{AccountRow, OrderRow, RentalRow, OperationRow, seconds}
use war_thunder_rent_bot.Persistence.Session.{
  Db, Result, account_of, rental_of, order_of, save_rental, save_order, save_account,
}
use war_thunder_rent_bot.Persistence.Session.Laws.{
  with_rental, with_account, rental_of-with_rental_self, account_of-with_account_self,
  HasKeys-with_order,
}
use war_thunder_rent_bot.Persistence.Session.Post.{Post, returns, seq}
use war_thunder_rent_bot.Persistence.Booking.{
  is_live, Booked, Booked-same, Booked-with_account, Booked-with_rental, Booked-with_new_operation,
  live_ended, live,
}
use war_thunder_rent_bot.Persistence.Repository.Internal.Laws.{moved, moved_rental, with_audit}
use war_thunder_rent_bot.Persistence.Repository.Internal.Rules.{
  seq_transition_row, seq_transition_rental, last_audit, last_add_operation,
}
use war_thunder_rent_bot.Persistence.Repository.Completion.{start_rental, complete_kind}

abbrev pub KeepsBooked : {A : Type 0} → Result (A × Db) → Type 0
KeepsBooked = Post (λ _ d. Booked d)

pub Booked-audit : {db : Db} → Booked db → (e : _) → Booked (with_audit e db)
Booked-audit b e = record {
  keys = record {
    accounts = b.keys.accounts;
    orders = b.keys.orders;
    rentals = b.keys.rentals;
    operations = b.keys.operations;
  };
  single = b.single;
  free = b.free;
  vacant = b.vacant;
  linked = b.linked;
  known = b.known;
}

-- Only a live rental moves on.
pub from_live : (s t : RentalStatus) → rental_transition s t ≡ true → is_live s ≡ true
from_live s t h = ground arith

-- A transition of a known account to a status that is not available.
module _ (db : Db) (b : Booked db) (account : AccountRow)
    (found : account_of db account.id ≡ some account) where
  pub Booked-moved :
      (target : AccountStatus) (now : ℕ)
      → ¬ (target ≡ AccountStatus.available)
      → Booked (with_account (moved account target now) db)
  Booked-moved target now taken =
      Booked-with_account db b (moved account target now) account found refl (λ e. absurd (taken e))

  module _ (rental : RentalRow) (there : rental_of db rental.id ≡ some rental)
      (same : rental.account_id ≡ account.id) where
    linked_new : (x : RentalRow) → rental_of db rental.id ≡ some x → x.account_id ≡ account.id
    linked_new x h = ground (arith, same, there, h)

    -- the rental of this row after a move that keeps it on its account
    rental_moved :
        (target : RentalStatus) (now : ℕ)
        → (rental_transition rental.status target ≡ true)
        → Booked (with_rental (moved_rental rental target now) db)
    rental_moved target now legal =
        Booked-with_rental db b (moved_rental rental target now) rental there refl refl
          (λ live. from_live rental.status target legal)

    linked_moved :
        (target : RentalStatus) (now : ℕ) (x : RentalRow)
        → rental_of (with_rental (moved_rental rental target now) db) rental.id ≡ some x
        → x.account_id ≡ account.id
    linked_moved target now x h =
        ground (
          arith,
          same,
          h,
          rental_of-with_rental_self (moved_rental rental target now) db refl there,
        )

    start_rental-Booked :
        (order : Option OrderRow) (now : ℕ)
        → rental.status ≡ RentalStatus.active
        → Post
            (λ _ d. Booked d × (account_of d account.id ≡ some account))
            (start_rental rental order now db)
    unfolding start_rental save_rental save_order
    start_rental-Booked none now active =
        returns
          (Booked-with_rental db b _ rental there refl refl (λ e. ground (arith, active)), found)
    start_rental-Booked (some order) now active =
        let b1 =
          Booked-with_rental db b
            (record rental {
              started_at = some now;
              expires_at = now + seconds order.duration_seconds;
            })
            rental there refl refl (λ e. ground (arith, active)) in
        returns (Booked-same refl refl refl (HasKeys-with_order _ _ b1.keys) b1, found)

    revoked-Booked :
        (new_id : ℕ) (op : OperationRow) (now : ℕ)
        → KeepsBooked
            (complete_kind OperationKind.revoke_sessions new_id op account (some rental) now db)
    unfolding complete_kind
    revoked-Booked new_id op now =
        seq_transition_row _ account AccountStatus.rotating_password now db b.keys found λ legal.
          seq_transition_rental _ rental RentalStatus.password_rotation now _ λ legal_rental.
            let b1 = rental_moved RentalStatus.password_rotation now legal_rental in
            let b2 =
              Booked-with_account _ b1 (moved account AccountStatus.rotating_password now) account
                found refl (λ e. absurd (cc)) in
            last_add_operation new_id _ account.id rental.id now _ λ fresh known.
              Booked-with_new_operation _ b2 _ rental.id fresh refl known
                (linked_moved RentalStatus.password_rotation now)

    rotated-Booked :
        (new_id : ℕ) (op : OperationRow) (now : ℕ)
        → KeepsBooked
            (complete_kind OperationKind.rotate_password new_id op account (some rental) now db)
    unfolding complete_kind save_account
    rotated-Booked new_id op now =
        seq_transition_row _ account AccountStatus.available_offline now db b.keys found λ legal.
          let offline = moved account AccountStatus.available_offline now in
          let b1 = Booked-moved AccountStatus.available_offline now (λ e. cc) in
          let b2 =
            Booked-with_account _ b1
              (record offline { credential_version = offline.credential_version + 1 }) offline
              (account_of-with_account_self offline db refl found) refl (λ e. absurd (cc)) in
          last_add_operation new_id _ account.id rental.id now _
            λ fresh known. Booked-with_new_operation _ b2 _ rental.id fresh refl known linked_new

    finished-Booked :
        (new_id : ℕ) (op : OperationRow) (now : ℕ)
        → KeepsBooked
            (complete_kind OperationKind.enable_lots new_id op account (some rental) now db)
    unfolding complete_kind
    finished-Booked new_id op now =
        seq_transition_row _ account AccountStatus.available now db b.keys found λ legal.
          seq_transition_rental _ rental RentalStatus.finished now _ λ legal_rental.
            let b1 = rental_moved RentalStatus.finished now legal_rental in
            let idle =
              live_ended db b (moved_rental rental RentalStatus.finished now) rental there refl refl
                (from_live rental.status RentalStatus.finished legal_rental) refl in
            let b2 =
              Booked-with_account _ b1 (moved account AccountStatus.available now) account found
                refl
                (λ e.
                  subst
                    (λ n.
                      live (with_rental (moved_rental rental RentalStatus.finished now) db) n ≡ 0)
                    same idle) in
            last_audit _ _ _ _ now _ (Booked-audit b2 _)

-- Completing, by the kind of the operation.
module _ (db : Db) (b : Booked db) (account : AccountRow)
    (found : account_of db account.id ≡ some account) where
  module _ (rental : RentalRow) (there : rental_of db rental.id ≡ some rental)
      (same : rental.account_id ≡ account.id) where
    activated-Booked :
        (new_id : ℕ) (op : OperationRow) (now : ℕ)
        → KeepsBooked
            (complete_kind OperationKind.send_credentials new_id op account (some rental) now db)
    unfolding complete_kind
    activated-Booked new_id op now =
        seq_transition_rental _ rental RentalStatus.active now db λ legal.
          let m = moved_rental rental RentalStatus.active now in
          let b1 =
            rental_moved db b account found rental there same RentalStatus.active now legal in
          let there1 = rental_of-with_rental_self m db refl there in
          let order = order_of (with_rental m db) rental.order_id in
          seq _
            (start_rental-Booked (with_rental m db) b1 account found m there1 same order now refl)
            λ u d kept.
              seq_transition_row _ account AccountStatus.active now d kept.0.keys kept.1
                λ legal_account. last_audit _ _ _ _ now _ (
                  Booked-audit
                    (Booked-moved d kept.0 account kept.1 AccountStatus.active now (λ e. cc)) _)

    pub complete_kind-Booked :
        (kind : OperationKind) (new_id : ℕ) (op : OperationRow) (now : ℕ)
        → KeepsBooked (complete_kind kind new_id op account (some rental) now db)
    unfolding complete_kind
    complete_kind-Booked OperationKind.disable_lots new_id op now =
        last_add_operation new_id _ account.id rental.id now db λ fresh known.
          Booked-with_new_operation db b _ rental.id fresh refl known
            (linked_new db b account found rental there same)
    complete_kind-Booked OperationKind.send_credentials new_id op now =
        activated-Booked new_id op now
    complete_kind-Booked OperationKind.revoke_sessions new_id op now =
        revoked-Booked db b account found rental there same new_id op now
    complete_kind-Booked OperationKind.rotate_password new_id op now =
        rotated-Booked db b account found rental there same new_id op now
    complete_kind-Booked OperationKind.enable_lots new_id op now =
        finished-Booked db b account found rental there same new_id op now
    complete_kind-Booked OperationKind.send_otp new_id op now = returns b

  pub without_rental :
      (kind : OperationKind) (new_id : ℕ) (op : OperationRow) (now : ℕ)
      → KeepsBooked (complete_kind kind new_id op account none now db)
  unfolding complete_kind
  without_rental OperationKind.disable_lots new_id op now = returns b
  without_rental _ new_id op now = returns b
