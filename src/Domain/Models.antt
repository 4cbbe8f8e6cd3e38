-- ===== src/Domain/Models.antt =====
-- app/domain/models.py: what enters and leaves the reservation of an order.
use war_thunder_rent_bot.Prelude.{ℕ, Bool, Option}
use war_thunder_rent_bot.Domain.States.{FulfillmentStatus}

-- `duration_seconds` is what FunPay sold, and not negative.
pub record OrderInput : Type 0 where
  pub funpay_order_id : ℕ
  pub buyer_id : ℕ
  pub tariff_code : ℕ
  pub duration_seconds : ℕ

pub record StartResult : Type 0 where
  pub accepted : Bool
  pub fulfillment_status : FulfillmentStatus
  pub rental_id : Option ℕ
