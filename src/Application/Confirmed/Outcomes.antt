-- ===== src/Application/Confirmed/Outcomes.antt =====
-- The answers of `execute_rotate` and `execute_revoke`.
use war_thunder_rent_bot.Prelude.{◌≡◌, refl, ◌∙◌, ap, Bool, true, false}
use war_thunder_rent_bot.Domain.PixelStorm.{SecurityOperationOutcome}
use war_thunder_rent_bot.Persistence.Session.{ok}
use war_thunder_rent_bot.Application.World.{World, App, pure, set_waiting, is_waiting_external}
use war_thunder_rent_bot.Application.Ports.{Outside, Settings}
use war_thunder_rent_bot.Application.Security.{Job, outcome_of, execute}
use war_thunder_rent_bot.Application.Security.Rotate.{rotate, execute_rotate}
use war_thunder_rent_bot.Application.Confirmed.{Earns, Any}
use war_thunder_rent_bot.Application.Confirmed.Calls.{bind_answered}
use war_thunder_rent_bot.Application.Confirmed.Known.{IsRotated}
use war_thunder_rent_bot.Application.Confirmed.Rotation.{Earns-rotate}

module _ {E : Type 0} where
  was_done :
      (done waiting : Bool) {w w' : World E}
      → pure (outcome_of done waiting) w ≡ (ok SecurityOperationOutcome.completed, w')
      → (done ≡ true) × (w ≡ w')
  unfolding pure
  was_done true waiting e = (refl, ap (λ r. r.1) e)
  was_done false true e = absurd cc
  was_done false false e = absurd cc

  -- A completed operation is one whose work answered `true`.
  execute_completed :
      {Q : _ → Type 0} (work : App E Bool)
      → Earns Any Q work
      → (w w' : World E) → execute work w ≡ (ok SecurityOperationOutcome.completed, w')
      → Q w'.calls
  unfolding execute is_waiting_external Any
  execute_completed {Q} work h w w' e =
      let (u, p, q) = bind_answered (set_waiting false) _ w w' e in
      let w1 = (set_waiting {E = E} false w).1 in
      let (d, p1, q1) = bind_answered work _ w1 w' q in
      let w2 = (work w1).1 in
      let (x, p2, q2) = bind_answered is_waiting_external _ w2 w' q1 in
      let (done, same) = was_done d x q2 in
      let answer : (work w1).0 ≡ ok true = p1 ∙ ap (λ b. ok b) done in
      h.earned w1 w' tt (λ i. (answer i, same i))

module _ {E : Type 0} (o : Outside E) (s : Settings) (j : Job) (w w' : World E) where
  -- A rotation that completes, whatever the outside answers, made as its last recorded calls a
  -- verification that found valid the credentials that the account held as pending, as they were last
  -- read or stored, and the promotion of the pending ones; only in a recovery may the verification of
  -- the current credentials, as they were read, be the last call instead.
  pub execute_rotate_completed :
      execute_rotate o s j w ≡ (ok SecurityOperationOutcome.completed, w') → IsRotated j w'.calls
  unfolding execute_rotate
  execute_rotate_completed e = execute_completed (rotate o s j) (Earns-rotate o s j) w w' e
