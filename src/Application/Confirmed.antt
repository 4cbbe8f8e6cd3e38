-- ===== src/Application/Confirmed.antt =====
-- A security operation is completed only on what Pixel Storm has confirmed.
pub mod Held
pub mod Preserved
pub mod Calls
pub mod Known
pub mod Verified
pub mod Rotation
pub mod Outcomes
use war_thunder_rent_bot.Prelude.{
  ℕ, ◌≡◌, refl, Bool, true, false, Option, none, some, List, [], ◌∷◌, ◌++◌,
}
use war_thunder_rent_bot.Domain.States.{SecurityState}
use war_thunder_rent_bot.Domain.PixelStorm.{
  Category, Credentials, PixelStormCredentialResult, PixelStormRevocationResult,
  PixelStormPasswordChangeResult, SecurityOperationOutcome,
}
use war_thunder_rent_bot.Persistence.Rows.{OperationRow}
use war_thunder_rent_bot.Persistence.Session.{Error, Result, ok, err}
use war_thunder_rent_bot.Application.World.{World, App, Call, ◌>>=◌, pure, raise, choose, if_some}
use war_thunder_rent_bot.Application.Ports.{Outside, Settings}
use war_thunder_rent_bot.Application.Security.{Job, refuse, wait, notify, if_owned}
use war_thunder_rent_bot.Application.Confirmed.Preserved.{
  Keeps, Keeps-set_state, Keeps-set_waiting, Keeps-only_tell,
}

-- When the action answers `true` after calls of which P holds, Q holds of the calls with its own.
pub record Earns {E : Type 0} (P Q : List Call → Type 0) (m : App E Bool) : Type 0 where
  pub earned : (w w' : World E) → P w.calls → m w ≡ (ok true, w') → Q w'.calls

-- Of any calls.
unfoldable pub Any : List Call → Type 0
Any cs = Unit

pub Keeps-Any : {E A : Type 0} (m : App E A) → Keeps Any m
unfolding Any
Keeps-Any m = record { kept = λ w h. tt }

module _ {E : Type 0} {P Q : List Call → Type 0} where
  pub Earns-false : Earns {E = E} P Q (pure false)
  unfolding pure
  Earns-false = record { earned = λ w w' h e. absurd cc }

  after :
      {A : Type 0} {f : A → App E Bool} (r : Result A) (w w' : World E)
      → ((a : A) → Earns P Q (f a))
      → P w.calls
      → (elim r as (λ _. Result Bool × World E) [ ok a ↦ f a w | err e ↦ (err e, w) ])
        ≡ (ok true, w')
      → Q w'.calls
  after (ok a) w w' k h e = (k a).earned w w' h e
  after (err x) w w' k h e = absurd cc

  pub Earns-bind :
      {A : Type 0} {m : App E A} {f : A → App E Bool}
      → Keeps P m
      → ((a : A) → Earns P Q (f a))
      → Earns P Q (m >>= f)
  unfolding ◌>>=◌
  Earns-bind {m = m} l k = record {
    earned = λ w w' h e. after ((m w).0) ((m w).1) w' k (l.kept w h) e;
  }

  pub Earns-choose :
      (b : Bool) {m n : App E Bool} → Earns P Q m → Earns P Q n → Earns P Q (choose b m n)
  unfolding choose
  Earns-choose true hm hn = hm
  Earns-choose false hm hn = hn

  -- The first branch may use the test.
  pub Earns-choose_if :
      (b : Bool) {m n : App E Bool}
      → (b ≡ true → Earns P Q m)
      → Earns P Q n
      → Earns P Q (choose b m n)
  unfolding choose
  Earns-choose_if true hm hn = hm refl
  Earns-choose_if false hm hn = hn

  pub Earns-if_some :
      {A : Type 0} (found : Option A) {f : A → App E Bool} {m : App E Bool}
      → ((a : A) → Earns P Q (f a))
      → Earns P Q m
      → Earns P Q (if_some found f m)
  unfolding if_some
  Earns-if_some (some a) h k = h a
  Earns-if_some none h k = k

module _ {E : Type 0} where
  -- What is known before may depend on what was found.
  pub Earns-found :
      {Q : List Call → Type 0} {A : Type 0} (P : Option A → List Call → Type 0) (found : Option A)
      {f : A → App E Bool} {m : App E Bool}
      → ((a : A) → Earns (P (some a)) Q (f a))
      → Earns (P none) Q m
      → Earns (P found) Q (if_some found f m)
  unfolding if_some
  Earns-found P (some a) h k = h a
  Earns-found P none h k = k

  pub Earns-weaken :
      {P R Q : List Call → Type 0} {m : App E Bool}
      → ((cs : List Call) → P cs → R cs)
      → Earns R Q m
      → Earns P Q m
  Earns-weaken h k = record { earned = λ w w' p e. k.earned w w' (h w.calls p) e }

module _ {E : Type 0} {P Q : List Call → Type 0} (o : Outside E) (s : Settings) where
  pub Earns-if_owned :
      {R : Type 0} (answer : Bool × Option R) {go : R → App E Bool}
      → ((r : R) → Earns P Q (go r))
      → Earns P Q (if_owned o s answer go)
  unfolding if_owned
  Earns-if_owned (true, some r) h = h r
  Earns-if_owned (true, none) h = Earns-false
  Earns-if_owned (false, r) h = Earns-false

  pub Earns-refuse : (c : Category) (j : Job) → Earns P Q (refuse o s c j)
  unfolding refuse notify
  Earns-refuse c j = Earns-bind (Keeps-only_tell s.has_owner_notifier _) (λ u. Earns-false)

  pub Earns-wait : (state : SecurityState) (j : Job) → Earns P Q (wait o s state j)
  unfolding wait
  Earns-wait state j =
      Earns-bind (Keeps-set_waiting true)
        (λ u. Earns-bind (Keeps-set_state o s state j) (λ d. Earns-false))

pub ruleset earning =
    (Earns-false, Earns-bind, Earns-choose, Earns-if_some, Earns-if_owned, Earns-refuse, Earns-wait)
