-- ===== src/Domain/FunPay.antt =====
-- app/domain/funpay.py: FunPay's health and receipts; and `LotOperationResult` of
-- app/domain/models.py.
use war_thunder_rent_bot.Prelude.{ℕ, Bool, true, false, ◌&&◌, not, Option, List}
use war_thunder_rent_bot.Persistence.Rows.{IdempotencyKey}

pub data FunPayHealth : Type 0 where
  ready auth_required degraded unavailable : FunPayHealth

abbrev pub is_ready : FunPayHealth → Bool
is_ready FunPayHealth.ready = true
is_ready _ = false

abbrev pub requires_auth : FunPayHealth → Bool
requires_auth FunPayHealth.auth_required = true
requires_auth _ = false

pub record MessageReceipt : Type 0 where
  pub idempotency_key : IdempotencyKey
  pub conversation_id : ℕ
  pub external_message_id : Option ℕ
  pub delivered : Bool
  pub verified : Bool
  pub ambiguous : Bool
  pub occurred_at : ℕ

pub record LotOperationResult : Type 0 where
  pub requested : ℕ
  pub changed : ℕ
  pub verified : Bool
  pub failed_lot_ids : List ℕ

-- `receipt.delivered and receipt.verified and not receipt.ambiguous`
abbrev pub is_confirmed : MessageReceipt → Bool
is_confirmed r = r.delivered && r.verified && not r.ambiguous
