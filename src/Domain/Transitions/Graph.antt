-- ===== src/Domain/Transitions/Graph.antt =====
-- The shape of the two transition tables.
use war_thunder_rent_bot.Prelude.{refl, ℕ, suc, ◌+◌, ◌≤◌, ◌<◌, ◌≡◌, true, arith}
use war_thunder_rent_bot.Domain.States.{AccountStatus, RentalStatus}
use war_thunder_rent_bot.Domain.Transitions.{account_transition, rental_transition}

-- A history of one rental: `n` legal transitions.
pub data RentalPath (s : RentalStatus) : RentalStatus → ℕ → Type 0 where
  begins : RentalPath s s 0
  moves :
      {t u : RentalStatus} {n : ℕ}
      → RentalPath s t n
      → rental_transition t u ≡ true
      → RentalPath s u (suc n)

-- How far a rental has come.
abbrev stage : RentalStatus → ℕ
stage RentalStatus.reserved = 0
stage RentalStatus.active = 1
stage RentalStatus.expiring = 2
stage RentalStatus.security_terminated = 2
stage RentalStatus.revoking = 3
stage RentalStatus.password_rotation = 4
stage _ = 5

stage_up : (s t : RentalStatus) → rental_transition s t ≡ true → stage s < stage t
stage_up s t h = ground arith

path_stage : {s t : RentalStatus} {n : ℕ} → RentalPath s t n → stage s + n ≤ stage t
path_stage begins = omega arith
path_stage {s} (moves {t} {u} {n} path legal) = omega (arith, path_stage path, stage_up t u legal)

stage_bound : (s : RentalStatus) → stage s ≤ 5
stage_bound s = ground arith

-- A rental makes at most five legal transitions, and none leads back to a status it has had.
pub RentalPath-bounded : {s t : RentalStatus} {n : ℕ} → RentalPath s t n → (n ≤ 5) × (s ≡ t → n ≡ 0)
RentalPath-bounded {s} {t} {n} path =
    (omega (arith, path_stage path, stage_bound t), λ e. ground (arith, path_stage path, e))

-- A history of one account.
pub data AccountPath (s : AccountStatus) : AccountStatus → Type 0 where
  begins : AccountPath s s
  moves : {t u : AccountStatus} → AccountPath s t → account_transition t u ≡ true → AccountPath s u

to_review :
    (s : AccountStatus)
    → account_transition s AccountStatus.manual_review ≡ true
    → AccountPath s AccountStatus.available
to_review s legal = moves (moves begins legal) refl

-- No account status is a dead end: from each one legal transitions lead to AVAILABLE.
pub account_recovers : (s : AccountStatus) → AccountPath s AccountStatus.available
account_recovers AccountStatus.available = begins
account_recovers AccountStatus.disabled = moves begins refl
account_recovers AccountStatus.manual_review = moves begins refl
account_recovers AccountStatus.reserved = to_review _ refl
account_recovers AccountStatus.active = to_review _ refl
account_recovers AccountStatus.expiring = to_review _ refl
account_recovers AccountStatus.revoking = to_review _ refl
account_recovers AccountStatus.rotating_password = to_review _ refl
account_recovers AccountStatus.available_offline = to_review _ refl
account_recovers AccountStatus.security_alert = to_review _ refl
