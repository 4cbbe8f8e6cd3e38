-- ===== src/Application/World.antt =====
-- The services of app/application run in a world: the database, whatever is outside, the owner's
-- notifications, the calls made to Pixel Storm and the secure store, and the attributes that
-- services keep: `_waiting_external`, `_notified_health` and `last_poll_at`. An exception leaves
-- behind what was committed.
use war_thunder_rent_bot.Prelude.{
  ℕ, Bool, true, false, Option, none, some, List, ◌++◌, [], ◌∷◌, if◌then◌else◌, suc,
}
use war_thunder_rent_bot.Domain.FunPay.{FunPayHealth}
use war_thunder_rent_bot.Domain.PixelStorm.{
  OwnerNotification, Credentials, PixelStormCredentialResult, PixelStormRevocationResult,
  PixelStormAuthResult, PixelStormPasswordChangeResult,
}
use war_thunder_rent_bot.Persistence.Session.{Db, Tx, Error, Result, ok, err, assertion}
use war_thunder_rent_bot.Persistence.Repository.Reservation.{commit}

-- The calls that the security operations make and that answered, in their order: all that verify,
-- log in, revoke or change something at Pixel Storm, and all that read or write credentials. A call
-- under the lease guard is on record with the guard's answer, which is none if it was not made.
pub data Call : Type 0 where
  verified : ℕ → Credentials → PixelStormCredentialResult → Call
  checked_revocation : ℕ → PixelStormRevocationResult → Call
  logged_in : ℕ → Bool × Option PixelStormAuthResult → Call
  revoked : ℕ → Bool × Option PixelStormRevocationResult → Call
  changed : ℕ → Bool × Option PixelStormPasswordChangeResult → Call
  read_current read_pending : ℕ → Option Credentials → Call
  stored_pending : ℕ → Credentials → Call
  promoted : ℕ → Call

pub record World (E : Type 0) : Type 0 where
  pub db : Db
  pub outside : E
  pub outbox : List OwnerNotification
  pub calls : List Call
  pub is_waiting : Bool
  pub notified_health : List FunPayHealth
  pub last_poll_at : ℕ

abbrev pub App : Type 0 → Type 0 → Type 0
App E A = World E → Result A × World E

abbrev pub Port : Type 0 → Type 0 → Type 0
Port E A = E → Result A × E

module _ {E : Type 0} where
  infixl 5 ◌>>=◌ ◌>>◌
  unfoldable pub ◌>>=◌ : {A B : Type 0} → App E A → (A → App E B) → App E B
  ◌>>=◌ m f w = let r = m w in elim (r.0) [ ok a ↦ f a (r.1) | err e ↦ (err e, r.1) ]

  abbrev pub ◌>>◌ : {A B : Type 0} → App E A → App E B → App E B
  m >> k = m >>= λ _. k

  unfoldable pub pure : {A : Type 0} → A → App E A
  pure a w = (ok a, w)

  unfoldable pub raise : {A : Type 0} → Error → App E A
  raise e w = (err e, w)

  -- One `session.begin()` block.
  unfoldable pub transact : {A : Type 0} → Tx A → App E A
  transact m w = let r = commit (m w.db) w.db in (r.0, record w { db = r.1 })

  -- A repository method that retries, and so commits or waits more than once.
  unfoldable pub retried : {A : Type 0} → (E → (Db → Result A × Db) × E) → App E A
  retried f w =
      let p = f w.outside in let r = (p.0) w.db in (r.0, record w { db = r.1; outside = p.1 })

  unfoldable pub reads : {A : Type 0} → (Db → A) → App E A
  reads f w = (ok (f w.db), w)

  -- A read that asserts that the row is there.
  unfoldable pub fetch : {A : Type 0} → (Db → Option A) → App E A
  fetch f w = elim (f w.db) [ some a ↦ (ok a, w) | none ↦ (err assertion, w) ]

  unfoldable pub port : {A : Type 0} → Port E A → App E A
  port f w = let r = f w.outside in (r.0, record w { outside = r.1 })

  -- A value that the outside gives: a uuid, a time.
  unfoldable pub draw : {A : Type 0} → (E → A × E) → App E A
  draw f w = let r = f w.outside in (ok (r.0), record w { outside = r.1 })

  unfoldable pub logged : {A : Type 0} → (A → Call) → App E A → App E A
  logged c m w =
      let r = m w in
      elim (r.0) [
        | ok a ↦ (ok a, record (r.1) { calls = (r.1).calls ++ c a ∷ [] })
        | err e ↦ (err e, r.1)
      ]

  unfoldable pub tell : OwnerNotification → App E (Unit {0})
  tell n w = (ok tt, record w { outbox = w.outbox ++ n ∷ [] })

  unfoldable pub set_waiting : Bool → App E (Unit {0})
  set_waiting b w = (ok tt, record w { is_waiting = b })

  unfoldable pub is_waiting_external : App E Bool
  is_waiting_external w = (ok w.is_waiting, w)

  -- `try` around an action: its result, an exception included, as a value.
  unfoldable pub captured : {A : Type 0} → App E A → App E (Result A)
  captured m w = let r = m w in (ok (r.0), r.1)

  unfoldable pub restore : {A : Type 0} → Result A → App E A
  restore r w = (r, w)

  -- `except` clauses, or the value
  unfoldable pub on_result : {A B : Type 0} → Result A → (A → App E B) → (Error → App E B) → App E B
  on_result (ok a) f g = f a
  on_result (err e) f g = g e

  unfoldable pub if_some : {A B : Type 0} → Option A → (A → App E B) → App E B → App E B
  if_some (some a) f m = f a
  if_some none f m = m

  unfoldable pub choose : {A : Type 0} → Bool → App E A → App E A → App E A
  choose true m n = m
  choose false m n = n

  -- `if b: m`
  abbrev pub only_if : Bool → App E (Unit {0}) → App E (Unit {0})
  only_if b m = choose b m (pure tt)

  -- `for x in xs: total += int(f(x))`
  unfoldable pub count : {A : Type 0} → (A → App E Bool) → List A → App E ℕ
  count f [] = pure 0
  count f (x ∷ xs) = do b ← f x; n ← count f xs; pure (if b then suc n else n)

  unfoldable pub each : {A : Type 0} → (A → App E (Unit {0})) → List A → App E (Unit {0})
  each f [] = pure tt
  each f (x ∷ xs) = do f x; each f xs

  -- the values that a loop appends to its result
  unfoldable pub collect : {A B : Type 0} → (A → App E (Option B)) → List A → App E (List B)
  collect f [] = pure []
  collect f (x ∷ xs) = do
    found ← f x
    rest ← collect f xs
    pure (elim found [ some b ↦ b ∷ rest | none ↦ rest ])
