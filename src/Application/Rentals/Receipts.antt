-- ===== src/Application/Rentals/Receipts.antt =====
-- A message that FunPay has a receipt for is not sent again.
use war_thunder_rent_bot.Prelude.{
  ◌&&◌, not, ℕ, ◌≡◌, refl, ◌∙◌, ap, ◌⊎◌, Bool, true, false, Option, some, arith,
}
use war_thunder_rent_bot.Domain.FunPay.{MessageReceipt, is_confirmed}
use war_thunder_rent_bot.Persistence.Rows.{OperationRow}
use war_thunder_rent_bot.Persistence.Session.{ok, err}
use war_thunder_rent_bot.Application.World.{World, App, ◌>>=◌, pure, port, choose, if_some}
use war_thunder_rent_bot.Application.Ports.{Outside, Settings}
use war_thunder_rent_bot.Application.Rentals.{
  Sent, sent_if, send_credentials, send_current, send_otp,
}

module _ {E : Type 0} (o : Outside E) (s : Settings) (op : OperationRow) (now : ℕ) (w : World E)
    (r : MessageReceipt) (e : E)
    (held : o.funpay.get_message_receipt op.idempotency_key w.outside ≡ (ok (some r), e)) where
  after_lookup :
      {B : Type 0} (f : Option MessageReceipt → App E B)
      → (port (o.funpay.get_message_receipt op.idempotency_key) >>= f) w
        ≡ f (some r) (record w { outside = e })
  unfolding port ◌>>=◌
  after_lookup f =
      ap
        (λ x. elim (x.0) [
          | ok a ↦ f a (record w { outside = x.1 })
          | err z ↦ (err z, record w { outside = x.1 })
        ])
        held

  decided :
      (ambiguous done : Bool) (m : App E Sent)
      → ((done ≡ true) ⊎ (ambiguous ≡ true))
      → choose ambiguous
          (pure Sent.refused)
          (choose done (pure Sent.confirmed) m)
          (record w { outside = e })
        ≡ (ok (sent_if (done && not ambiguous)), record w { outside = e })
  unfolding choose pure
  decided true true m h = refl
  decided true false m h = refl
  decided false true m h = refl
  decided false false m h = absurd (ground arith)

  -- When FunPay holds a receipt of the operation's message that is delivered and verified, or
  -- ambiguous, `_send_credentials` and `_send_otp` send nothing: they answer by the receipt, and
  -- only the lookup has been made.
  pub receipt_decides :
      ((r.delivered && r.verified) ≡ true) ⊎ (r.ambiguous ≡ true)
      → (send_credentials o s op now w ≡ (ok (sent_if (is_confirmed r)), record w { outside = e }))
        × (send_otp o s op now w ≡ (ok (sent_if (is_confirmed r)), record w { outside = e }))
  unfolding send_credentials send_otp if_some pure
  receipt_decides h = (
    after_lookup _ ∙ decided r.ambiguous (r.delivered && r.verified) (send_current o s op now) h,
    after_lookup _,
  )
