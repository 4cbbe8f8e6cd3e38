-- ===== src/Adapters/Examples.antt =====
-- A vault that is not protected, a transport that answers the same each time, and the theorems on the
-- adapters applied to them.
use war_thunder_rent_bot.Prelude.{
  ℕ, ◌≡◌, refl, false, true, Option, none, some, List, [], leb, nat_beq, if◌then◌else◌,
}
use war_thunder_rent_bot.Domain.FunPay.{FunPayHealth}
use war_thunder_rent_bot.Domain.PixelStorm.{Credentials}
use war_thunder_rent_bot.Persistence.Rows.{IdempotencyKey}
use war_thunder_rent_bot.Persistence.Session.{ok}
use war_thunder_rent_bot.Application.Ports.{Message}
use war_thunder_rent_bot.Adapters.Vault.{Key, Codec, ◌>>◌, ◌>>=◌, pure, lookup}
use war_thunder_rent_bot.Adapters.Secrets.{
  get_current_credentials, get_pending_credentials, set_pending_credentials,
  promote_pending_credentials, put, consume_once, if_found, either,
}
use war_thunder_rent_bot.Adapters.Secrets.Laws.{moved, promoted_credentials}
use war_thunder_rent_bot.Adapters.Secrets.Once.{without, holding, secret_given_once}
use war_thunder_rent_bot.Adapters.Session.{
  FunPayTransport, WebSessionStore, unsent, not_ready, session_funpay, session_health,
}
use war_thunder_rent_bot.Adapters.Session.Laws.{Unsent, NothingDone, adapter_not_ready}

data Plain : Type 0 where
  word : ℕ → Plain
  pair : Credentials → Plain
  time : ℕ → Plain

abbrev as_pair : Plain → Option (Option Credentials)
as_pair (Plain.pair c) = some (some c)
as_pair _ = none

abbrev as_time : Plain → Option ℕ
as_time (Plain.time t) = some t
as_time _ = none

abbrev plain : Codec (List (Key × Plain)) Plain
plain = record {
  seal = λ es. es;
  unseal = λ es. some es;
  dumps = λ c. Plain.pair c;
  loads = as_pair;
  isoformat = λ t. Plain.time t;
  fromisoformat = as_time;
  unseal-seal = λ es. refl;
  loads-dumps = λ c. refl;
  fromisoformat-isoformat = λ t. refl;
}

abbrev fresh_pair : Credentials
fresh_pair = record { login = 1; password = 2 }

promoted_credentials_example :
    ((set_pending_credentials plain 3 fresh_pair >> promote_pending_credentials plain 3) []
      ≡ (ok tt, moved plain [] 3 fresh_pair))
    × (get_current_credentials plain 3 (moved plain [] 3 fresh_pair)
        ≡ (ok (some fresh_pair), moved plain [] 3 fresh_pair))
    × (get_pending_credentials plain 3 (moved plain [] 3 fresh_pair)
        ≡ (ok none, moved plain [] 3 fresh_pair))
    × ((j : ℕ)
        → nat_beq j 3 ≡ false
        → (get_current_credentials plain j (moved plain [] 3 fresh_pair)).0
          ≡ (get_current_credentials plain j []).0)
promoted_credentials_example = promoted_credentials plain {w = []} refl 3 fresh_pair

secret_given_once_example :
    ((put plain 4 (Plain.word 8) 50 >> consume_once plain 4 40) [] ≡ (
      ok (if leb 50 40 then none else some (Plain.word 8)),
      without plain 4 (holding plain 4 [] (Plain.word 8) 50),
    ))
    × ((later : ℕ)
        → (consume_once plain 4 later (without plain 4 (holding plain 4 [] (Plain.word 8) 50))).0
          ≡ ok none)
unfolding lookup
secret_given_once_example = secret_given_once plain {w = []} refl 4 (Plain.word 8) 50 40 refl

-- a transport that accepts no session, and would do all that it is asked to
abbrev refusing : FunPayTransport ℕ
refusing = record {
  health = λ s e. (ok FunPayHealth.auth_required, e);
  poll_events = λ s t e. (ok [], e);
  get_order = λ s i e. (ok none, e);
  send_message = λ s buyer m k now e.
      (ok (record (unsent buyer k now) { delivered = true; verified = true }), e);
  get_message_receipt = λ s k e. (ok none, e);
  get_lot_state = λ s i e. (ok (some true), e);
  verify_lots_disabled = λ s ids e. (ok (record (not_ready ids) { verified = true }), e);
  verify_lots_enabled = λ s ids e. (ok (record (not_ready ids) { verified = true }), e);
  disable_lots = λ s i ids e. (ok (record (not_ready ids) { changed = 1 }), e);
  enable_lots = λ s i ids e. (ok (record (not_ready ids) { changed = 1 }), e);
}

-- a store that holds a session until it is cleared
abbrev with_seven : WebSessionStore ℕ
with_seven = record {
  get_funpay_session = λ i e. (ok (if nat_beq e 0 then some 7 else none), e);
  clear_funpay_session = λ i e. (ok tt, 1);
}

adapter_not_ready_example :
    let f = session_funpay 1 with_seven refusing in
    ((last : ℕ) → f.poll_events last 0 ≡ (ok [], 1))
    × ((order : ℕ) → f.get_order order 0 ≡ (ok none, 1))
    × ((lot : ℕ) → f.get_lot_state lot 0 ≡ (ok none, 1))
    × ((buyer : ℕ) (m : Message) (k : IdempotencyKey) (now : ℕ)
        → Unsent buyer k (f.send_message buyer m k now 0) 1)
    × ((k : IdempotencyKey) → f.get_message_receipt k 0 ≡ (ok none, 1))
    × ((ids : List ℕ) → NothingDone ids (f.verify_lots_disabled ids 0) 1)
    × ((ids : List ℕ) → NothingDone ids (f.verify_lots_enabled ids 0) 1)
    × ((i : ℕ) (ids : List ℕ) → NothingDone ids (f.disable_lots i ids 0) 1)
    × ((i : ℕ) (ids : List ℕ) → NothingDone ids (f.enable_lots i ids 0) 1)
unfolding session_health if_found either pure ◌>>=◌
adapter_not_ready_example =
    adapter_not_ready 1 with_seven refusing FunPayHealth.auth_required 0 1 refl refl
