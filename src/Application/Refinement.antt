-- ===== src/Application/Refinement.antt =====
-- The runtime's cycles, over the repositories: whatever the outside answers, and whatever other
-- processes commit during its external calls, a cycle is a sequence of their transactions.
use war_thunder_rent_bot.Prelude.{ℕ, ◌≤◌, ◌≡◌, some, List}
use war_thunder_rent_bot.Domain.States.{AccountStatus}
use war_thunder_rent_bot.Persistence.Rows.{AccountRow}
use war_thunder_rent_bot.Persistence.Session.{account_of}
use war_thunder_rent_bot.Persistence.Booking.{live}
use war_thunder_rent_bot.Persistence.Booking.Steps.{
  Reachable, reachable-Booked, never_double_booked,
}
use war_thunder_rent_bot.Persistence.Booking.Runs.{rest, Run-Reachable}
use war_thunder_rent_bot.Application.World.{World, App, ◌>>=◌, each}
use war_thunder_rent_bot.Application.Ports.{Outside, Settings}
use war_thunder_rent_bot.Application.Startup.{reconcile_startup}
use war_thunder_rent_bot.Application.Runtime.{last_poll_at, set_last_poll, tick, run_once}
use war_thunder_rent_bot.Application.Moves.{Moves, moves, Moves-bind}
use war_thunder_rent_bot.Application.Moves.Outside.{Lawful}
use war_thunder_rent_bot.Application.Moves.Transactions.{steps}
use war_thunder_rent_bot.Application.Moves.Rentals.{Moves-run_operations, Moves-each}
use war_thunder_rent_bot.Application.Moves.Startup.{Moves-recover_leases, Moves-reconcile_startup}
use war_thunder_rent_bot.Application.Moves.Inbox.{
  Moves-poll_funpay, Moves-dispatch_funpay, Moves-poll_gmail, Moves-dispatch_mail,
}

Moves-last_poll_at : {E : Type 0} → Moves {E = E} last_poll_at
unfolding last_poll_at
Moves-last_poll_at = record { run = λ w b. rest }

Moves-set_last_poll : {E : Type 0} (now : ℕ) → Moves {E = E} (set_last_poll now)
unfolding set_last_poll
Moves-set_last_poll now = record { run = λ w b. rest }

-- A start of the bot and its cycles, at these times.
unfoldable pub bot : {E : Type 0} → Outside E → Settings → ℕ → List ℕ → App E (Unit {0})
bot o s start times = do recovered ← reconcile_startup o s start; each (run_once o s) times

module _ {E : Type 0} (o : Outside E) (s : Settings) (l : Lawful o) where
  Moves-tick : (now : ℕ) → Moves (tick o s now)
  unfolding tick
  Moves-tick now = search (moves, steps, Moves-run_operations o s l) depth 20 fits 3000

  Moves-run_once : (now : ℕ) → Moves (run_once o s now)
  unfolding run_once
  Moves-run_once now =
      search
        (
          moves,
          Moves-recover_leases o s l,
          Moves-last_poll_at,
          Moves-poll_funpay o s,
          Moves-dispatch_funpay o s l,
          Moves-poll_gmail o s,
          Moves-dispatch_mail o s,
          Moves-tick,
          Moves-run_operations o s l,
          Moves-set_last_poll,
        )
        depth 30 fits 5000

  Moves-bot : (start : ℕ) (times : List ℕ) → Moves (bot o s start times)
  unfolding bot
  Moves-bot start times =
      Moves-bind (Moves-reconcile_startup o s l start)
        (λ n. Moves-each (λ now. Moves-run_once now) times)

  -- After a start and any number of cycles, whatever FunPay, Pixel Storm, Gmail and the stores
  -- answer, no account has two live rentals, and an account that is for sale has none.
  pub bot_never_double_books :
      (start : ℕ) (times : List ℕ) (w : World E)
      → Reachable w.db
      → (a : ℕ)
      → (live ((bot o s start times w).1).db a ≤ 1)
        × ((r : AccountRow)
            → account_of ((bot o s start times w).1).db a ≡ some r
            → r.status ≡ AccountStatus.available
            → live ((bot o s start times w).1).db a ≡ 0)
  bot_never_double_books start times w r a =
      never_double_booked (Run-Reachable r ((Moves-bot start times).run w (reachable-Booked r))) a
