-- ===== src/Application/Lease.antt =====
-- app/application/lease_guard.py: `SideEffectLeaseGuard` keeps one claim alive while an external
-- call is in flight. The heartbeats of the call follow it here: the call touches no database.
pub mod Laws
pub mod Answers
use war_thunder_rent_bot.Prelude.{ℕ, Bool, true, false, Option, none, some, List, [], ◌∷◌}
use war_thunder_rent_bot.Persistence.Session.{Db, Tx, Error, ok}
use war_thunder_rent_bot.Persistence.Repository.Claims.{
  fence_normal_side_effect, fence_recovery_side_effect,
}
use war_thunder_rent_bot.Application.World.{
  App, World, Port, ◌>>=◌, ◌>>◌, pure, transact, draw, captured, restore, choose, if_some, port,
  raise, on_result,
}
use war_thunder_rent_bot.Application.Ports.{Outside}

-- The claim that a guard keeps: `fallback_now` is the time without a clock.
pub record Claim : Type 0 where
  pub operation_id : ℕ
  pub normal_claim_token : Option ℕ
  pub recovery_claim_token : Option ℕ
  pub fallback_now : ℕ

-- Other processes commit.
unfoldable pub meanwhile : {E : Type 0} → (Db → Db) → App E (Unit {0})
meanwhile f w = (ok tt, record w { db = f w.db })

unfoldable pub fence : Claim → ℕ → Tx Bool
fence c now = elim c.recovery_claim_token [
  | some token ↦ fence_recovery_side_effect c.operation_id (some token) now
  | none ↦ fence_normal_side_effect c.operation_id c.normal_claim_token now 30
]

module _ {E : Type 0} (o : Outside E) where
  -- `_fresh_now`
  unfoldable pub fresh_now : ℕ → App E ℕ
  fresh_now fallback = if_some o.clock draw (pure fallback)

  -- `_renew`, which raises OperationalError where SQLite stays locked
  unfoldable pub renew : Claim → App E Bool
  renew c = do
    now ← fresh_now c.fallback_now
    locked ← draw o.is_locked
    choose locked (raise Error.operational) (transact (fence c now))

  -- The thread has ended: other processes go on, and the claim is owned unless `_lost` was set.
  unfoldable pub thread_ended : Bool → List (Db → Db) → App E Bool
  thread_ended owned [] = pure owned
  thread_ended owned (others ∷ rest) = do meanwhile others; thread_ended owned rest

  -- `_heartbeat`, and whether `_lost` is not set after it. A refused renewal sets it and ends the
  -- thread; a renewal that raises ends the thread without setting it.
  unfoldable pub heartbeats : Claim → List (Db → Db) → App E Bool
  heartbeats c [] = pure true
  heartbeats c (others ∷ rest) = do
    meanwhile others
    renewed ← captured (renew c)
    on_result renewed (λ still. choose still (heartbeats c rest) (thread_ended false rest))
        (λ raised. thread_ended true rest)

  -- `run`
  unfoldable pub guarded : {R : Type 0} → Claim → Port E R → App E (Bool × Option R)
  guarded c action = do
    first ← renew c
    choose first
        (do
          result ← captured (port action)
          beats ← draw o.elapsed
          owned ← heartbeats c beats
          answer ← restore result
          pure (owned, some answer))
        (pure (false, none))
