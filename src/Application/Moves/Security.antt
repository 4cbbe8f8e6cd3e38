-- ===== src/Application/Moves/Security.antt =====
-- PixelStormSecurityService, with the services of codes and links, moves the database by steps.
use war_thunder_rent_bot.Prelude.{none, true, false, ℕ, Option, Bool, some}
use war_thunder_rent_bot.Persistence.Emails.Codes.{EmailClaim}
use war_thunder_rent_bot.Application.Ports.{Outside, Settings}
use war_thunder_rent_bot.Domain.States.{SecurityState}
use war_thunder_rent_bot.Domain.PixelStorm.{Category, Credentials}
use war_thunder_rent_bot.Application.Moves.Outside.{Lawful, Moves-guarded}
use war_thunder_rent_bot.Application.World.{App, Port, Call}
use war_thunder_rent_bot.Application.Security.{
  Job, notify, refuse, set_state, wait, operation, normal_token, external_side_effect,
  verify_credentials, verify_revocation, if_owned, execute, current_credentials,
}
use war_thunder_rent_bot.Application.Codes.{
  consume, request_otp, consume_expected_reset_url, consume_maintenance_otp,
}
use war_thunder_rent_bot.Application.Moves.{Moves, moves}
use war_thunder_rent_bot.Application.Moves.Transactions.{steps}

module _ {E : Type 0} (o : Outside E) (s : Settings) where
  Moves-consume : (now : ℕ) (c : Option EmailClaim) → Moves (consume o s now c)
  unfolding consume
  Moves-consume now c = search (moves, steps) depth 20 fits 3000

  pub Moves-request_otp : (i buyer at now : ℕ) → Moves (request_otp o s i buyer at now)
  unfolding request_otp
  Moves-request_otp i buyer at now = search (moves, steps, Moves-consume) depth 20 fits 3000

  pub Moves-reset_url : (i now : ℕ) → Moves (consume_expected_reset_url o s i now)
  unfolding consume_expected_reset_url
  Moves-reset_url i now = search (moves, steps, Moves-consume) depth 20 fits 3000

  pub Moves-maintenance_otp :
      (account i at now : ℕ) → Moves (consume_maintenance_otp o s account i at now)
  unfolding consume_maintenance_otp
  Moves-maintenance_otp account i at now = search (moves, steps, Moves-consume) depth 20 fits 3000

  -- What the methods of the service share.
  pub Moves-refuse : (c : Category) (j : Job) → Moves (refuse o s c j)
  unfolding refuse notify
  Moves-refuse c j = search (moves, steps) depth 20 fits 3000

  pub Moves-set_state : (state : SecurityState) (j : Job) → Moves (set_state o s state j)
  unfolding set_state
  Moves-set_state state j = search (moves, steps) depth 20 fits 3000

  pub Moves-wait : (state : SecurityState) (j : Job) → Moves (wait o s state j)
  unfolding wait
  Moves-wait state j = search (moves, Moves-set_state) depth 20 fits 3000

  pub Moves-operation : (j : Job) → Moves (operation o s j)
  unfolding operation
  Moves-operation j = search moves depth 20 fits 3000

  pub Moves-normal_token : (j : Job) → Moves (normal_token o s j)
  unfolding normal_token
  Moves-normal_token j = search (moves, Moves-operation) depth 20 fits 3000

  pub Moves-verify_credentials : (i : ℕ) (c : Credentials) → Moves (verify_credentials o s i c)
  unfolding verify_credentials
  Moves-verify_credentials i c = search moves depth 20 fits 3000

  pub Moves-verify_revocation : (i : ℕ) → Moves (verify_revocation o s i)
  unfolding verify_revocation
  Moves-verify_revocation i = search moves depth 20 fits 3000

  pub Moves-if_owned :
      {R : Type 0} (answer : Bool × Option R) {go : R → App E Bool}
      → ((r : R) → Moves (go r))
      → Moves (if_owned o s answer go)
  unfolding if_owned
  Moves-if_owned (true, some r) h = h r
  Moves-if_owned (true, none) h = search moves depth 20 fits 3000
  Moves-if_owned (false, r) h = search moves depth 20 fits 3000

  pub Moves-current_credentials : (i : ℕ) → Moves (current_credentials o s i)
  unfolding current_credentials
  Moves-current_credentials i = search moves depth 20 fits 3000

  pub Moves-external :
      Lawful o
      → {R : Type 0} (j : Job) (call : Bool × Option R → Call) (action : Port E R)
      → Moves (external_side_effect o s j call action)
  unfolding external_side_effect
  Moves-external l j call action =
      search (moves, Moves-normal_token, Moves-guarded o l) depth 20 fits 3000

pub Moves-execute : {E : Type 0} {work : App E Bool} → Moves work → Moves (execute work)
unfolding execute
Moves-execute h = search moves depth 20 fits 3000

pub ruleset security_moves = (
  moves, steps, Moves-reset_url, Moves-maintenance_otp, Moves-refuse, Moves-set_state, Moves-wait,
  Moves-operation, Moves-verify_credentials, Moves-verify_revocation, Moves-if_owned,
  Moves-external, Moves-current_credentials,
)
