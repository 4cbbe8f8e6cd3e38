-- ===== src/Persistence/Booking/Runs.antt =====
-- Any number of steps of the repositories, one after the other.
use war_thunder_rent_bot.Persistence.Session.{Db}
use war_thunder_rent_bot.Persistence.Booking.{Booked}
use war_thunder_rent_bot.Persistence.Booking.Steps.{Step, Step-Booked, Reachable}

pub data Run : Db → Db → Type 0 where
  rest : {db : Db} → Run db db
  next : {a b c : Db} → Run a b → Step b c → Run a c

pub chain : {a b c : Db} → Run a b → Run b c → Run a c
chain r rest = r
chain r (next s x) = next (chain r s) x

pub one : {a b : Db} → Step a b → Run a b
one s = next rest s

pub Run-Booked : {a b : Db} → Booked a → Run a b → Booked b
Run-Booked k rest = k
Run-Booked k (next r s) = Step-Booked (Run-Booked k r) s

pub Run-Reachable : {a b : Db} → Reachable a → Run a b → Reachable b
Run-Reachable k rest = k
Run-Reachable k (next r s) = Reachable.after (Run-Reachable k r) s
