-- ===== src/Application/Moves.antt =====
-- An action of the services moves the database only by the repositories' transactions, its own and
-- other processes': one rule for each way to build an action.
pub mod Outside
pub mod Retries
pub mod Transactions
pub mod Security
pub mod Operations
pub mod Rentals
pub mod Startup
pub mod Inbox
use war_thunder_rent_bot.Prelude.{◌≡◌, refl, Bool, true, false, Option, none, some, [], ◌∷◌, ◌++◌}
use war_thunder_rent_bot.Domain.PixelStorm.{OwnerNotification}
use war_thunder_rent_bot.Persistence.Session.{Db, Tx, Error, Result, ok, err}
use war_thunder_rent_bot.Persistence.Booking.{Booked}
use war_thunder_rent_bot.Persistence.Booking.InboxSteps.{Commits}
use war_thunder_rent_bot.Persistence.Booking.Steps.{Step}
use war_thunder_rent_bot.Persistence.Booking.Runs.{Run, rest, chain, one, Run-Booked}
use war_thunder_rent_bot.Persistence.Repository.Reservation.{commit}
use war_thunder_rent_bot.Application.World.{
  World, App, Port, Call, ◌>>=◌, pure, raise, transact, reads, fetch, port, draw, logged, tell,
  set_waiting, is_waiting_external, captured, restore, on_result, if_some, choose,
}

-- From a database that keeps the invariant, by steps.
pub record Moves {E A : Type 0} (m : App E A) : Type 0 where
  pub run : (w : World E) → Booked w.db → Run w.db ((m w).1).db

-- What one transaction commits is a step.
abbrev pub IsStep : {A : Type 0} → Tx A → Type 0
IsStep m = (db db' : Db) → Commits m db db' → Step db db'

-- What a transaction commits, or nothing.
pub commit-Run :
    {A : Type 0} {db : Db} (r : Result (A × Db))
    → ((a : A) (d : Db) → r ≡ ok (a, d) → Step db d)
    → Run db ((commit r db).1)
commit-Run (ok (a, d)) h = one (h a d refl)
commit-Run (err x) h = rest

module _ {E : Type 0} where
  module _ {A : Type 0} where
    pub Moves-pure : (a : A) → Moves {E = E} (pure a)
    unfolding pure
    Moves-pure a = record { run = λ w b. rest }

    pub Moves-raise : (e : Error) → Moves {E = E} {A = A} (raise e)
    unfolding raise
    Moves-raise e = record { run = λ w b. rest }

    pub Moves-reads : (f : Db → A) → Moves {E = E} (reads f)
    unfolding reads
    Moves-reads f = record { run = λ w b. rest }

    pub Moves-port : (f : Port E A) → Moves (port f)
    unfolding port
    Moves-port f = record { run = λ w b. rest }

    pub Moves-draw : (f : E → A × E) → Moves (draw f)
    unfolding draw
    Moves-draw f = record { run = λ w b. rest }

    pub Moves-restore : (r : Result A) → Moves {E = E} (restore r)
    unfolding restore
    Moves-restore r = record { run = λ w b. rest }

    fetched :
        (found : Option A) (w : World E)
        → Run w.db
            ((elim found as (λ _. Result A × World E) [
              | some a ↦ (ok a, w)
              | none ↦ (err Error.assertion, w)
            ]).1
              ).db
    fetched (some a) w = rest
    fetched none w = rest

    pub Moves-fetch : (f : Db → Option A) → Moves {E = E} (fetch f)
    unfolding fetch
    Moves-fetch f = record { run = λ w b. fetched (f w.db) w }

    pub Moves-captured : {m : App E A} → Moves m → Moves (captured m)
    unfolding captured
    Moves-captured h = record { run = λ w b. h.run w b }

    pub Moves-choose : (b : Bool) {m n : App E A} → Moves m → Moves n → Moves (choose b m n)
    unfolding choose
    Moves-choose true hm hn = hm
    Moves-choose false hm hn = hn

    pub Moves-transact : (m : Tx A) → IsStep m → Moves {E = E} (transact m)
    unfolding transact
    Moves-transact m h = record { run = λ w b. commit-Run (m w.db) (λ a d e. h w.db d (a, e)) }

    module _ {B : Type 0} where
      after :
          {f : A → App E B} (r : Result A) (w : World E)
          → ((a : A) → Moves (f a))
          → Booked w.db
          → Run w.db
              ((elim r as (λ _. Result B × World E) [ ok a ↦ f a w | err e ↦ (err e, w) ]).1).db
      after (ok a) w k b = (k a).run w b
      after (err e) w k b = rest

      pub Moves-bind :
          {m : App E A} {f : A → App E B} → Moves m → ((a : A) → Moves (f a)) → Moves (m >>= f)
      unfolding ◌>>=◌
      Moves-bind {m} h k = record {
        run = λ w b. let s = h.run w b in chain s (after ((m w).0) ((m w).1) k (Run-Booked b s));
      }

      pub Moves-if_some :
          (o : Option A) {f : A → App E B} {m : App E B}
          → ((a : A) → Moves (f a))
          → Moves m
          → Moves (if_some o f m)
      unfolding if_some
      Moves-if_some (some a) h k = h a
      Moves-if_some none h k = k

      pub Moves-on_result :
          (r : Result A) {f : A → App E B} {g : Error → App E B}
          → ((a : A) → Moves (f a))
          → ((e : Error) → Moves (g e))
          → Moves (on_result r f g)
      unfolding on_result
      Moves-on_result (ok a) h k = h a
      Moves-on_result (err e) h k = k e

  logged_run :
      {A : Type 0} (c : A → Call) (r : Result A) (w : World E) {db : Db}
      → Run db w.db
      → Run db
          ((elim r as (λ _. Result A × World E) [
            | ok a ↦ (ok a, record w { calls = w.calls ++ c a ∷ [] })
            | err e ↦ (err e, w)
          ]).1
            ).db
  logged_run c (ok a) w s = s
  logged_run c (err e) w s = s

  pub Moves-logged : {A : Type 0} (c : A → Call) {m : App E A} → Moves m → Moves (logged c m)
  unfolding logged
  Moves-logged c {m} h = record { run = λ w b. logged_run c ((m w).0) ((m w).1) (h.run w b) }

  pub Moves-tell : (n : OwnerNotification) → Moves {E = E} (tell n)
  unfolding tell
  Moves-tell n = record { run = λ w b. rest }

  pub Moves-set_waiting : (b : Bool) → Moves {E = E} (set_waiting b)
  unfolding set_waiting
  Moves-set_waiting b = record { run = λ w b. rest }

  pub Moves-is_waiting_external : Moves {E = E} is_waiting_external
  unfolding is_waiting_external
  Moves-is_waiting_external = record { run = λ w b. rest }

  -- What is drawn is known to be the outside's.
  pub Moves-drawn :
      {A B : Type 0} (f : E → A × E) (k : A → App E B)
      → ((e : E) → Moves (k ((f e).0)))
      → Moves (draw f >>= k)
  unfolding draw ◌>>=◌
  Moves-drawn f k h = record {
    run = λ w b. (h w.outside).run (record w { outside = (f w.outside).1 }) b;
  }

pub ruleset moves = (
  Moves-pure, Moves-raise, Moves-reads, Moves-port, Moves-draw, Moves-restore, Moves-fetch,
  Moves-captured, Moves-choose, Moves-bind, Moves-if_some, Moves-on_result, Moves-logged,
  Moves-tell, Moves-set_waiting, Moves-is_waiting_external,
)
