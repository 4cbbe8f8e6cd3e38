-- ===== src/Application/Confirmed/Preserved.antt =====
-- The actions that keep what the calls on record say: one rule for each way to build an action, and
-- the parts that the security operations share.
use war_thunder_rent_bot.Prelude.{ℕ, Bool, true, false, Option, none, some, List, [], ◌∷◌, ◌++◌}
use war_thunder_rent_bot.Domain.States.{SecurityState}
use war_thunder_rent_bot.Domain.PixelStorm.{Credentials, OwnerNotification}
use war_thunder_rent_bot.Persistence.Session.{Db, Tx, Error, Result, ok, err}
use war_thunder_rent_bot.Persistence.Emails.Codes.{EmailClaim}
use war_thunder_rent_bot.Application.World.{
  World, App, Port, Call, ◌>>=◌, pure, raise, transact, fetch, port, draw, logged, captured,
  restore, on_result, if_some, choose, set_waiting, tell, only_if,
}
use war_thunder_rent_bot.Application.Ports.{Outside, Settings}
use war_thunder_rent_bot.Application.Lease.{
  Claim, meanwhile, fresh_now, renew, thread_ended, heartbeats, guarded,
}
use war_thunder_rent_bot.Application.Codes.{consume, consume_expected_reset_url}
use war_thunder_rent_bot.Application.Security.{
  Job, set_state, operation, normal_token, external_side_effect, verify_credentials,
}

-- A call on record leaves it true.
pub record Stable (P : List Call → Type 0) (c : Call) : Type 0 where
  pub stays : (cs : List Call) → P cs → P (cs ++ c ∷ [])

pub record Keeps {E A : Type 0} (P : List Call → Type 0) (m : App E A) : Type 0 where
  pub kept : (w : World E) → P w.calls → P ((m w).1).calls

fetched :
    {E A : Type 0} (P : List Call → Type 0) (found : Option A) (w : World E)
    → P w.calls
    → P
        ((elim found as (λ _. Result A × World E) [
          | some a ↦ (ok a, w)
          | none ↦ (err Error.assertion, w)
        ]).1
          ).calls
fetched P (some a) w h = h
fetched P none w h = h

module _ {E : Type 0} {P : List Call → Type 0} where
  module _ {A : Type 0} where
    Keeps-pure : (a : A) → Keeps {E = E} P (pure a)
    unfolding pure
    Keeps-pure a = record { kept = λ w h. h }

    Keeps-raise : (e : Error) → Keeps {E = E} {A = A} P (raise e)
    unfolding raise
    Keeps-raise e = record { kept = λ w h. h }

    pub Keeps-transact : (m : Tx A) → Keeps {E = E} P (transact m)
    unfolding transact
    Keeps-transact m = record { kept = λ w h. h }

    pub Keeps-port : (f : Port E A) → Keeps P (port f)
    unfolding port
    Keeps-port f = record { kept = λ w h. h }

    pub Keeps-draw : (f : E → A × E) → Keeps P (draw f)
    unfolding draw
    Keeps-draw f = record { kept = λ w h. h }

    Keeps-restore : (r : Result A) → Keeps {E = E} P (restore r)
    unfolding restore
    Keeps-restore r = record { kept = λ w h. h }

    Keeps-fetch : (f : Db → Option A) → Keeps {E = E} P (fetch f)
    unfolding fetch
    Keeps-fetch f = record { kept = λ w h. fetched P (f w.db) w h }

    Keeps-captured : {m : App E A} → Keeps P m → Keeps P (captured m)
    unfolding captured
    Keeps-captured k = record { kept = λ w h. k.kept w h }

    Keeps-choose : (b : Bool) {m n : App E A} → Keeps P m → Keeps P n → Keeps P (choose b m n)
    unfolding choose
    Keeps-choose true hm hn = hm
    Keeps-choose false hm hn = hn

    module _ {B : Type 0} where
      after :
          {f : A → App E B} (r : Result A) (w : World E)
          → ((a : A) → Keeps P (f a))
          → P w.calls
          → P ((elim r as (λ _. Result B × World E) [ ok a ↦ f a w | err e ↦ (err e, w) ]).1).calls
      after (ok a) w k h = (k a).kept w h
      after (err e) w k h = h

      Keeps-bind :
          {m : App E A} {f : A → App E B}
          → Keeps P m
          → ((a : A) → Keeps P (f a))
          → Keeps P (m >>= f)
      unfolding ◌>>=◌
      Keeps-bind {m} k l = record { kept = λ w h. after ((m w).0) ((m w).1) l (k.kept w h) }

      Keeps-if_some :
          (o : Option A) {f : A → App E B} {m : App E B}
          → ((a : A) → Keeps P (f a))
          → Keeps P m
          → Keeps P (if_some o f m)
      unfolding if_some
      Keeps-if_some (some a) h k = h a
      Keeps-if_some none h k = k

      Keeps-on_result :
          (r : Result A) {f : A → App E B} {g : Error → App E B}
          → ((a : A) → Keeps P (f a))
          → ((e : Error) → Keeps P (g e))
          → Keeps P (on_result r f g)
      unfolding on_result
      Keeps-on_result (ok a) h k = h a
      Keeps-on_result (err e) h k = k e

    recorded :
        (c : A → Call) (r : Result A) (w : World E)
        → ((a : A) → Stable P (c a))
        → P w.calls
        → P
            ((elim r as (λ _. Result A × World E) [
              | ok a ↦ (ok a, record w { calls = w.calls ++ c a ∷ [] })
              | err e ↦ (err e, w)
            ]).1
              ).calls
    recorded c (ok a) w s h = (s a).stays w.calls h
    recorded c (err e) w s h = h

    Keeps-logged :
        (c : A → Call) {m : App E A} → ((a : A) → Stable P (c a)) → Keeps P m → Keeps P (logged c m)
    unfolding logged
    Keeps-logged c {m} s k = record { kept = λ w h. recorded c ((m w).0) ((m w).1) s (k.kept w h) }

  Keeps-meanwhile : (f : Db → Db) → Keeps {E = E} P (meanwhile f)
  unfolding meanwhile
  Keeps-meanwhile f = record { kept = λ w h. h }

  pub Keeps-set_waiting : (b : Bool) → Keeps {E = E} P (set_waiting b)
  unfolding set_waiting
  Keeps-set_waiting b = record { kept = λ w h. h }

  Keeps-tell : (n : OwnerNotification) → Keeps {E = E} P (tell n)
  unfolding tell
  Keeps-tell n = record { kept = λ w h. h }

  pub Keeps-only_tell : (b : Bool) (n : OwnerNotification) → Keeps {E = E} P (only_if b (tell n))
  Keeps-only_tell b n = Keeps-choose b (Keeps-tell n) (Keeps-pure tt)

ruleset keeping = (
  Keeps-pure, Keeps-raise, Keeps-transact, Keeps-port, Keeps-draw, Keeps-restore, Keeps-fetch,
  Keeps-captured, Keeps-choose, Keeps-bind, Keeps-if_some, Keeps-on_result, Keeps-meanwhile,
)

module _ {E : Type 0} {P : List Call → Type 0} (o : Outside E) (s : Settings) where
  Keeps-renew : (c : Claim) → Keeps P (renew o c)
  unfolding renew fresh_now
  Keeps-renew c = search keeping depth 20

  Keeps-thread_ended : (b : Bool) (fs : List (Db → Db)) → Keeps P (thread_ended o b fs)
  unfolding thread_ended
  Keeps-thread_ended b [] = Keeps-pure b
  Keeps-thread_ended b (f ∷ fs) = Keeps-bind (Keeps-meanwhile f) (λ u. Keeps-thread_ended b fs)

  Keeps-heartbeats : (c : Claim) (fs : List (Db → Db)) → Keeps P (heartbeats o c fs)
  unfolding heartbeats
  Keeps-heartbeats c [] = Keeps-pure true
  Keeps-heartbeats c (f ∷ fs) =
      let later = Keeps-heartbeats c fs in
      search (keeping, Keeps-renew, Keeps-thread_ended) depth 20

  Keeps-guarded : {R : Type 0} (c : Claim) (action : Port E R) → Keeps P (guarded o c action)
  unfolding guarded
  Keeps-guarded c action = search (keeping, Keeps-renew, Keeps-heartbeats) depth 20

  pub Keeps-set_state : (state : SecurityState) (j : Job) → Keeps P (set_state o s state j)
  unfolding set_state
  Keeps-set_state state j = Keeps-transact _

  pub Keeps-operation : (j : Job) → Keeps P (operation o s j)
  unfolding operation
  Keeps-operation j = Keeps-fetch _

  Keeps-normal_token : (j : Job) → Keeps P (normal_token o s j)
  unfolding normal_token
  Keeps-normal_token j = search (keeping, Keeps-operation) depth 20

  pub Keeps-external :
      {R : Type 0} (j : Job) (call : Bool × Option R → Call) (action : Port E R)
      → ((a : Bool × Option R) → Stable P (call a))
      → Keeps P (external_side_effect o s j call action)
  unfolding external_side_effect
  Keeps-external j call action h =
      Keeps-logged call h (Keeps-bind (Keeps-normal_token j) (λ token. Keeps-guarded _ action))

  pub Keeps-verify_credentials :
      (i : ℕ) (c : Credentials)
      → ((r : _) → Stable P (Call.verified i c r))
      → Keeps P (verify_credentials o s i c)
  unfolding verify_credentials
  Keeps-verify_credentials i c h = Keeps-logged _ h (Keeps-port _)

  Keeps-consume : (now : ℕ) (c : Option EmailClaim) → Keeps P (consume o s now c)
  unfolding consume
  Keeps-consume now c = search keeping depth 20

  pub Keeps-reset_url : (i now : ℕ) → Keeps P (consume_expected_reset_url o s i now)
  unfolding consume_expected_reset_url
  Keeps-reset_url i now = search (keeping, Keeps-consume) depth 20
