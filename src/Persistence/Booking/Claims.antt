-- ===== src/Persistence/Booking/Claims.antt =====
-- The claims, the fences, the notes of a security operation and an operator's transition keep an
-- account let to one rental at a time.
use mathlib.Core.Path.{subst}
use war_thunder_rent_bot.Table.Laws.{key-get}
use war_thunder_rent_bot.Prelude.{
  sym, ℕ, ◌+◌, ◌≡◌, refl, Option, none, some, Bool, true, false, Bool-cases, inl, inr,
}
use war_thunder_rent_bot.Domain.States.{AccountStatus, SecurityState}
use war_thunder_rent_bot.Domain.Transitions.{account_transition}
use war_thunder_rent_bot.Persistence.Session.{Db, Tx, assertion, operation_of}
use war_thunder_rent_bot.Persistence.Session.Post.{returns, raises, seq_some, seq_cas_account}
use war_thunder_rent_bot.Persistence.Booking.{Booked, Booked-with_account, live}
use war_thunder_rent_bot.Persistence.Booking.Rows.{seq_cas_Booked, last_cas_Booked}
use war_thunder_rent_bot.Persistence.Booking.Completion.{KeepsBooked, Booked-audit}
use war_thunder_rent_bot.Persistence.Booking.Failure.{was_account}
use war_thunder_rent_bot.Persistence.Repository.Internal.Rules.{seq_audit}
use war_thunder_rent_bot.Persistence.Repository.Claims.{
  claim_startup_recovery, release_recovery_claim, claim_operation, claim_waiting_security_operation,
  fence_normal_side_effect, fence_recovery_side_effect,
}
use war_thunder_rent_bot.Persistence.Repository.Security.{
  record_maintenance_login_requested, record_password_change_requested, set_security_state,
  wait_for_buyer_otp,
}
use war_thunder_rent_bot.Persistence.Repository.Recovery.{transition_account}

branch :
    {B : Type 0} (done : Bool) (m n : Tx B) {d : Db}
    → KeepsBooked (m d)
    → KeepsBooked (n d)
    → KeepsBooked ((elim done as (λ _. Tx B) [ false ↦ m | true ↦ n ]) d)
branch false m n hm hn = hm
branch true m n hm hn = hn

module _ (i : ℕ) (db : Db) (b : Booked db) where
  pub claim_startup_recovery-Booked :
      (token now : ℕ) → KeepsBooked (claim_startup_recovery token i now db)
  unfolding claim_startup_recovery
  claim_startup_recovery-Booked token now =
      seq_cas_Booked i _ _
        (record { id = λ r. refl; account_id = λ r. refl; rental_id = λ r. refl }) db b _
        λ done d kept. branch done _ _ (returns kept) (
          seq_some _ (operation_of d i) assertion d
            λ op found. seq_audit _ _ _ _ _ now d (returns (Booked-audit kept _)))

  pub claim_operation-Booked :
      (token now lease : ℕ) → KeepsBooked (claim_operation token i now lease db)
  unfolding claim_operation
  claim_operation-Booked token now lease =
      seq_cas_Booked i _ _
        (record { id = λ r. refl; account_id = λ r. refl; rental_id = λ r. refl }) db b _
        λ done d kept. branch done _ _ (returns kept) (returns kept)

  pub claim_waiting-Booked :
      (token now lease : ℕ) → KeepsBooked (claim_waiting_security_operation token i now lease db)
  unfolding claim_waiting_security_operation
  claim_waiting-Booked token now lease =
      seq_cas_Booked i _ _
        (record { id = λ r. refl; account_id = λ r. refl; rental_id = λ r. refl }) db b _
        λ done d kept. branch done _ _ (returns kept) (returns kept)

  pub release_recovery_claim-Booked : (token : ℕ) → KeepsBooked (release_recovery_claim i token db)
  unfolding release_recovery_claim
  release_recovery_claim-Booked token =
      last_cas_Booked i _ _
        (record { id = λ r. refl; account_id = λ r. refl; rental_id = λ r. refl }) db b

  pub fence_normal-Booked :
      (token : Option ℕ) (now lease : ℕ)
      → KeepsBooked (fence_normal_side_effect i token now lease db)
  unfolding fence_normal_side_effect
  fence_normal-Booked none now lease = returns b
  fence_normal-Booked (some token) now lease =
      last_cas_Booked i _ _
        (record { id = λ r. refl; account_id = λ r. refl; rental_id = λ r. refl }) db b

  pub fence_recovery-Booked :
      (token : Option ℕ) (now : ℕ) → KeepsBooked (fence_recovery_side_effect i token now db)
  unfolding fence_recovery_side_effect
  fence_recovery-Booked none now = returns b
  fence_recovery-Booked (some token) now =
      last_cas_Booked i _ _
        (record { id = λ r. refl; account_id = λ r. refl; rental_id = λ r. refl }) db b

  pub record_maintenance-Booked :
      (now : ℕ) → KeepsBooked (record_maintenance_login_requested i now db)
  unfolding record_maintenance_login_requested
  record_maintenance-Booked now =
      last_cas_Booked i _ _
        (record { id = λ r. refl; account_id = λ r. refl; rental_id = λ r. refl }) db b

  pub record_password_change-Booked :
      (now : ℕ) → KeepsBooked (record_password_change_requested i now db)
  unfolding record_password_change_requested
  record_password_change-Booked now =
      last_cas_Booked i _ _
        (record { id = λ r. refl; account_id = λ r. refl; rental_id = λ r. refl }) db b

  pub set_security_state-Booked :
      (state : SecurityState) (now : ℕ) → KeepsBooked (set_security_state i state now db)
  unfolding set_security_state
  set_security_state-Booked state now =
      last_cas_Booked i _ _
        (record { id = λ r. refl; account_id = λ r. refl; rental_id = λ r. refl }) db b

  pub wait_for_buyer_otp-Booked : KeepsBooked (wait_for_buyer_otp i db)
  unfolding wait_for_buyer_otp
  wait_for_buyer_otp-Booked =
      last_cas_Booked i _ _
        (record { id = λ r. refl; account_id = λ r. refl; rental_id = λ r. refl }) db b

  -- An operator's transition, to a status that is not available or of an account that has no live
  -- rental.
  pub transition_account-Booked :
      (expected : AccountStatus) (version : ℕ) (target : AccountStatus) (now : ℕ)
      → (target ≡ AccountStatus.available → live db i ≡ 0)
      → KeepsBooked (transition_account i expected version target now db)
  unfolding transition_account
  transition_account-Booked expected version target now idle =
      elim (Bool-cases (account_transition expected target)) [
        | inr illegal ↦ rw illegal raises
        | inl legal ↦ rw legal (
            seq_cas_account _ i _
              (λ r. record r {
                status = target;
                state_version = r.state_version + 1;
                updated_at = now;
              })
              db b.keys (λ r. refl)
              (λ r found e. returns (
                Booked-with_account db b _ r (was_account db i r found) refl (λ h.
                  subst (λ n. live db n ≡ 0) (sym (key-get (λ q. q.id) i db.accounts found))
                    (idle h))))
              (λ miss. raises))
      ]
