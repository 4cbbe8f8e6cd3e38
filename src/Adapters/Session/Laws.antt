-- ===== src/Adapters/Session/Laws.antt =====
-- While FunPay does not accept its session, the adapter reaches nothing.
use war_thunder_rent_bot.Prelude.{ℕ, ◌≡◌, refl, ◌∙◌, ap, false, none, List, []}
use war_thunder_rent_bot.Domain.FunPay.{FunPayHealth, MessageReceipt, LotOperationResult, is_ready}
use war_thunder_rent_bot.Persistence.Rows.{IdempotencyKey}
use war_thunder_rent_bot.Persistence.Session.{Result, ok}
use war_thunder_rent_bot.Application.World.{Port}
use war_thunder_rent_bot.Application.Ports.{Message}
use war_thunder_rent_bot.Adapters.Vault.{pure}
use war_thunder_rent_bot.Adapters.Vault.Laws.{bind_answers}
use war_thunder_rent_bot.Adapters.Secrets.{if_found, either}
use war_thunder_rent_bot.Adapters.Session.{
  FunPayTransport, WebSessionStore, current_session, session_health, ready_session, with_session,
  session_funpay,
}

-- A message that was not sent.
abbrev pub Unsent : {E : Type 0} → ℕ → IdempotencyKey → Result MessageReceipt × E → E → Type 0
Unsent buyer k answer e =
    (r : MessageReceipt) × (answer ≡ (ok r, e))
    × (r.idempotency_key ≡ k)
    × (r.conversation_id ≡ buyer)
    × (r.delivered ≡ false)
    × (r.verified ≡ false)
    × (r.ambiguous ≡ false)

-- Lots of which none was changed or verified.
abbrev pub NothingDone : {E : Type 0} → List ℕ → Result LotOperationResult × E → E → Type 0
NothingDone ids answer e =
    (r : LotOperationResult) × (answer ≡ (ok r, e))
    × (r.verified ≡ false)
    × (r.changed ≡ 0)
    × (r.failed_lot_ids ≡ ids)

module _ {E : Type 0} (account_id : ℕ) (store : WebSessionStore E) (t : FunPayTransport E) where
  module _ (h : FunPayHealth) (e e' : E)
      (answered : session_health account_id store t e ≡ (ok h, e'))
      (refused : is_ready h ≡ false) where
    no_session : ready_session account_id store t e ≡ (ok none, e')
    unfolding ready_session pure either
    no_session =
        bind_answers (session_health account_id store t) _ answered
        ∙ ap (λ b. either b (current_session account_id store t) (pure none) e') refused

    falls_back :
        {A : Type 0} (default : A) (action : ℕ → Port E A)
        → with_session account_id store t default action e ≡ (ok default, e')
    unfolding with_session if_found pure
    falls_back default action = bind_answers (ready_session account_id store t) _ no_session

    -- While the adapter's health is anything but READY, none of its operations reaches the transport:
    -- the outside is left as the check of the health leaves it. Nothing is polled or found; the
    -- receipt of a message carries its key and buyer and is neither delivered, verified nor ambiguous;
    -- no change and no check of lots changes or verifies any, and each lot is reported as failed.
    pub adapter_not_ready :
        let f = session_funpay account_id store t in
        ((last : ℕ) → f.poll_events last e ≡ (ok [], e'))
        × ((order : ℕ) → f.get_order order e ≡ (ok none, e'))
        × ((lot : ℕ) → f.get_lot_state lot e ≡ (ok none, e'))
        × ((buyer : ℕ) (m : Message) (k : IdempotencyKey) (now : ℕ)
            → Unsent buyer k (f.send_message buyer m k now e) e')
        × ((k : IdempotencyKey) → f.get_message_receipt k e ≡ (ok none, e'))
        × ((ids : List ℕ) → NothingDone ids (f.verify_lots_disabled ids e) e')
        × ((ids : List ℕ) → NothingDone ids (f.verify_lots_enabled ids e) e')
        × ((i : ℕ) (ids : List ℕ) → NothingDone ids (f.disable_lots i ids e) e')
        × ((i : ℕ) (ids : List ℕ) → NothingDone ids (f.enable_lots i ids e) e')
    unfolding session_funpay
    adapter_not_ready = (
      λ last. falls_back _ _,
      λ order. falls_back _ _,
      λ lot. falls_back _ _,
      λ buyer m k now. (_, falls_back _ _, refl, refl, refl, refl, refl),
      λ k. falls_back _ _,
      λ ids. (_, falls_back _ _, refl, refl, refl),
      λ ids. (_, falls_back _ _, refl, refl, refl),
      λ i ids. (_, falls_back _ _, refl, refl, refl),
      λ i ids. (_, falls_back _ _, refl, refl, refl),
    )
