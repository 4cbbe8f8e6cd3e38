-- ===== src/Application/Runtime.antt =====
-- app/application: scheduler.py, and `run_once` of runtime.py.
use war_thunder_rent_bot.Prelude.{ℕ}
use war_thunder_rent_bot.Persistence.Session.{ok}
use war_thunder_rent_bot.Persistence.Repository.Expiry.{expire_due}
use war_thunder_rent_bot.Application.World.{App, ◌>>=◌, ◌>>◌, transact, draw}
use war_thunder_rent_bot.Application.Ports.{Outside, Settings}
use war_thunder_rent_bot.Application.Rentals.Operations.{run_operations}
use war_thunder_rent_bot.Application.Startup.{recover_leases}
use war_thunder_rent_bot.Application.Events.{poll_funpay, dispatch_funpay}
use war_thunder_rent_bot.Application.Mail.{poll_gmail, dispatch_mail}

unfoldable pub last_poll_at : {E : Type 0} → App E ℕ
last_poll_at w = (ok w.last_poll_at, w)

unfoldable pub set_last_poll : {E : Type 0} → ℕ → App E (Unit {0})
set_last_poll now w = (ok tt, record w { last_poll_at = now })

module _ {E : Type 0} (o : Outside E) (s : Settings) where
  -- `DurableScheduler.tick`
  unfoldable pub tick : ℕ → App E (Unit {0})
  tick now = do ids ← draw o.uuids; expired ← transact (expire_due ids now); run_operations o s now

  -- `ApplicationRuntime.run_once`
  unfoldable pub run_once : ℕ → App E (Unit {0})
  run_once now = do
    recovered ← recover_leases o s now
    last_poll ← last_poll_at
    stored ← poll_funpay o s last_poll now
    handled ← dispatch_funpay o s now
    published ← poll_gmail o s last_poll now
    alerts ← dispatch_mail o s now
    tick now
    run_operations o s now
    set_last_poll now
