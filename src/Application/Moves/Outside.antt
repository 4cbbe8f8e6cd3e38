-- ===== src/Application/Moves/Outside.antt =====
-- What is asked of the other processes, and the actions in which they run: the lease guard, and the
-- retries of a busy database.
use war_thunder_rent_bot.Prelude.{ℕ, Bool, true, false, none, some, List, [], ◌∷◌}
use war_thunder_rent_bot.Persistence.Session.{Db, Tx, Result}
use war_thunder_rent_bot.Persistence.Booking.{Booked}
use war_thunder_rent_bot.Persistence.Booking.Steps.{Step}
use war_thunder_rent_bot.Persistence.Booking.Runs.{Run}
use war_thunder_rent_bot.Application.World.{Port, retried}
use war_thunder_rent_bot.Application.Ports.{Outside}
use war_thunder_rent_bot.Application.Lease.{
  Claim, meanwhile, fence, fresh_now, renew, heartbeats, guarded, thread_ended,
}
use war_thunder_rent_bot.Persistence.Repository.Claims.{
  fence_recovery_side_effect, fence_normal_side_effect,
}
use war_thunder_rent_bot.Application.Moves.{
  Moves-drawn, Moves, IsStep, moves, Moves-choose, Moves-bind, Moves-transact, Moves-pure,
  Moves-captured, Moves-on_result, Moves-port, Moves-restore,
}

abbrev pub MovesDb : (Db → Db) → Type 0
MovesDb f = (db : Db) → Booked db → Run db (f db)

pub data AllMove : List (Db → Db) → Type 0 where
  none_left : AllMove []
  and_then : {f : Db → Db} {fs : List (Db → Db)} → MovesDb f → AllMove fs → AllMove (f ∷ fs)

-- Other processes, too, change the database only by the repositories' transactions.
pub record Lawful {E : Type 0} (o : Outside E) : Type 0 where
  pub elapsed : (e : E) → AllMove ((o.elapsed e).0)
  pub attempts : (e : E) (n : ℕ) → MovesDb ((o.attempts e).0 n).others
  pub busy : (e : E) (n : ℕ) → MovesDb ((o.busy e).0 n).others

fence-IsStep : (c : Claim) (now : ℕ) → IsStep (fence c now)
unfolding fence
fence-IsStep c now =
    elim c.recovery_claim_token
      as (λ t. IsStep (elim t as (λ _. Tx Bool) [
        | some token ↦ fence_recovery_side_effect c.operation_id (some token) now
        | none ↦ fence_normal_side_effect c.operation_id c.normal_claim_token now 30
      ])) [
        | some token ↦ λ db d x. Step.fences_recovery c.operation_id (some token) now x
        | none ↦ λ db d x. Step.fences c.operation_id c.normal_claim_token now 30 x
      ]

module _ {E : Type 0} (o : Outside E) (l : Lawful o) where
  Moves-renew : (c : Claim) → Moves (renew o c)
  unfolding renew fresh_now
  Moves-renew c = search (moves, Moves-transact, fence-IsStep c)

  Moves-meanwhile : {f : Db → Db} → MovesDb f → Moves {E = E} (meanwhile f)
  unfolding meanwhile
  Moves-meanwhile h = record { run = λ w b. h w.db b }

  Moves-thread_ended :
      (owned : Bool) {fs : List (Db → Db)} → AllMove fs → Moves (thread_ended o owned fs)
  unfolding thread_ended
  Moves-thread_ended owned none_left = Moves-pure owned
  Moves-thread_ended owned (and_then h hs) =
      Moves-bind (Moves-meanwhile h) (λ u. Moves-thread_ended owned hs)

  Moves-heartbeats : (c : Claim) {fs : List (Db → Db)} → AllMove fs → Moves (heartbeats o c fs)
  unfolding heartbeats
  Moves-heartbeats c none_left = search moves
  Moves-heartbeats c (and_then h hs) = Moves-bind (Moves-meanwhile h) (λ u.
      Moves-bind (Moves-captured (Moves-renew c)) (λ renewed.
        Moves-on_result renewed
          (λ still. Moves-choose still (Moves-heartbeats c hs) (Moves-thread_ended false hs))
          (λ raised. Moves-thread_ended true hs)))

  pub Moves-guarded : {R : Type 0} (c : Claim) (action : Port E R) → Moves (guarded o c action)
  unfolding guarded
  Moves-guarded c action = Moves-bind (Moves-renew c) (λ first.
      Moves-choose first
        (Moves-bind (Moves-captured (Moves-port action)) (λ result. Moves-drawn o.elapsed _ (λ e.
          Moves-bind (Moves-heartbeats c (l.elapsed e))
            (λ owned. Moves-bind (Moves-restore result) (λ answer. Moves-pure _)))))
        (Moves-pure _))

  pub Moves-retried :
      {A : Type 0} (f : E → (Db → Result A × Db) × E)
      → ((e : E) (db : Db) → Booked db → Run db (((f e).0 db).1))
      → Moves (retried f)
  unfolding retried
  Moves-retried f h = record { run = λ w b. h w.outside w.db b }
