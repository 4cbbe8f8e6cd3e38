-- ===== src/Adapters/Session.antt =====
-- app/adapters/session_backed_funpay.py: `SessionBackedFunPayAdapter`, which gives the transport a
-- session only from the store, and only while FunPay accepts it.
pub mod Laws
use war_thunder_rent_bot.Prelude.{ℕ, Bool, true, false, Option, none, some, List, [], ◌∷◌, suc}
use war_thunder_rent_bot.Domain.FunPay.{
  FunPayHealth, MessageReceipt, LotOperationResult, is_ready, requires_auth,
}
use war_thunder_rent_bot.Persistence.Rows.{FunPayEventRow, IdempotencyKey}
use war_thunder_rent_bot.Application.World.{Port}
use war_thunder_rent_bot.Application.Ports.{Message, FunPayPort}
use war_thunder_rent_bot.Adapters.Vault.{◌>>=◌, ◌>>◌, pure}
use war_thunder_rent_bot.Adapters.Secrets.{if_found, either}

-- app/domain/ports.py: the transport takes the session, the store holds one for each account.
pub record FunPayTransport (E : Type 0) : Type 0 where
  pub health : ℕ → Port E FunPayHealth
  pub poll_events : ℕ → ℕ → Port E (List FunPayEventRow)
  pub get_order : ℕ → ℕ → Port E (Option FunPayEventRow)
  pub send_message : ℕ → ℕ → Message → IdempotencyKey → ℕ → Port E MessageReceipt
  pub get_message_receipt : ℕ → IdempotencyKey → Port E (Option MessageReceipt)
  pub get_lot_state : ℕ → ℕ → Port E (Option Bool)
  pub verify_lots_disabled : ℕ → List ℕ → Port E LotOperationResult
  pub verify_lots_enabled : ℕ → List ℕ → Port E LotOperationResult
  pub disable_lots : ℕ → ℕ → List ℕ → Port E LotOperationResult
  pub enable_lots : ℕ → ℕ → List ℕ → Port E LotOperationResult

pub record WebSessionStore (E : Type 0) : Type 0 where
  pub get_funpay_session : ℕ → Port E (Option ℕ)
  pub clear_funpay_session : ℕ → Port E (Unit {0})

-- the receipt of a message that was not sent
abbrev pub unsent : ℕ → IdempotencyKey → ℕ → MessageReceipt
unsent buyer k now = record {
  idempotency_key = k;
  conversation_id = buyer;
  external_message_id = none;
  delivered = false;
  verified = false;
  ambiguous = false;
  occurred_at = now;
}

abbrev length : {A : Type 0} → List A → ℕ
length [] = 0
length (x ∷ xs) = suc (length xs)

-- `_not_ready`
abbrev pub not_ready : List ℕ → LotOperationResult
not_ready ids = record {
  requested = length ids;
  changed = 0;
  verified = false;
  failed_lot_ids = ids;
}

module _ {E : Type 0} (account_id : ℕ) (store : WebSessionStore E) (t : FunPayTransport E) where
  -- `_session`
  unfoldable pub current_session : Port E (Option ℕ)
  current_session = do
    found ← store.get_funpay_session account_id
    if_found found
        (λ session. do
          h ← t.health session
          either (requires_auth h) (do store.clear_funpay_session account_id; pure none)
              (pure (some session)))
        (pure none)

  -- `health`
  unfoldable pub session_health : Port E FunPayHealth
  session_health = do
    found ← store.get_funpay_session account_id
    if_found found
        (λ session. do
          h ← t.health session
          either (requires_auth h) (do store.clear_funpay_session account_id; pure h) (pure h))
        (pure FunPayHealth.auth_required)

  -- `_ready_session`
  unfoldable pub ready_session : Port E (Option ℕ)
  ready_session = do h ← session_health; either (is_ready h) current_session (pure none)

  -- `default if session is None else action(session)`
  unfoldable pub with_session : {A : Type 0} → A → (ℕ → Port E A) → Port E A
  with_session default action = do session ← ready_session; if_found session action (pure default)

  -- the adapter as the port of the services
  unfoldable pub session_funpay : FunPayPort E
  session_funpay = record {
    health = session_health;
    poll_events = λ last. with_session [] (λ session. t.poll_events session last);
    get_order = λ order. with_session none (λ session. t.get_order session order);
    get_lot_state = λ lot. with_session none (λ session. t.get_lot_state session lot);
    send_message = λ buyer m k now.
        with_session (unsent buyer k now) (λ session. t.send_message session buyer m k now);
    get_message_receipt = λ k. with_session none (λ session. t.get_message_receipt session k);
    verify_lots_disabled =
        λ ids. with_session (not_ready ids) (λ session. t.verify_lots_disabled session ids);
    verify_lots_enabled =
        λ ids. with_session (not_ready ids) (λ session. t.verify_lots_enabled session ids);
    disable_lots = λ i ids. with_session (not_ready ids) (λ session. t.disable_lots session i ids);
    enable_lots = λ i ids. with_session (not_ready ids) (λ session. t.enable_lots session i ids);
  }
