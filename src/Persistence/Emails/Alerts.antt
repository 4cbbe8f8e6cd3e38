-- ===== src/Persistence/Emails/Alerts.antt =====
-- Security emails are claimed for processing: `claim_security_events`, `mark_security_processed`.
use war_thunder_rent_bot.Prelude.{
  ℕ, ◌+◌, suc, Bool, true, false, ◌&&◌, not, Option, none, some, List, [], ◌∷◌, ltb, ◌==◌, nat_eq,
  ◌is_some◌, if◌then◌else◌,
}
use war_thunder_rent_bot.Domain.States.{
  EmailMessageType, rental_eq, kind_eq, status_eq, message_eq, payload_eq,
}
use war_thunder_rent_bot.Table.{order_by, select}
use war_thunder_rent_bot.Persistence.Rows.{ClassifiedEmailEventRow, SecurityProcessing, seconds}
use war_thunder_rent_bot.Persistence.Session.{Tx, pure, ◌>>=◌, query, cas_email}
use war_thunder_rent_bot.Persistence.Emails.Inbox.{ClassifiedEmailEvent}

pub record SecurityEventClaim : Type 0 where
  pub event : ClassifiedEmailEvent
  pub claim_token : ℕ

abbrev event_of : ClassifiedEmailEventRow → ClassifiedEmailEvent
event_of r = record {
  id = r.id;
  gmail_message_id = r.gmail_message_id;
  message_type = r.message_type;
  received_at = r.received_at;
  routing_account_id = r.routing_account_id;
  correlation_operation_id = r.correlation_operation_id;
  payload_state = r.payload_state;
}

-- `security_claimed_at < now - timedelta(seconds=lease)`, not satisfied on NULL
abbrev is_stale : Option ℕ → ℕ → ℕ → Bool
is_stale none lease now = false
is_stale (some t) lease now = ltb (t + seconds lease) now

-- never claimed, or claimed too long ago
abbrev claimable : SecurityProcessing → Option ℕ → ℕ → ℕ → Bool
claimable SecurityProcessing.unprocessed claimed_at lease now = true
claimable SecurityProcessing.security_claimed claimed_at lease now = is_stale claimed_at lease now
claimable _ claimed_at lease now = false

abbrev pub is_open : ℕ → ℕ → ClassifiedEmailEventRow → Bool
is_open lease now r = claimable r.security_processing_state r.security_claimed_at lease now

unfoldable pub claim_alert : ℕ → ℕ → ℕ → ClassifiedEmailEventRow → Tx Bool
claim_alert token lease now row = cas_email row.id (is_open lease now) (λ r. record r {
  security_processing_state = SecurityProcessing.security_claimed;
  security_claim_token = some token;
  security_claimed_at = some now;
})

unfoldable pub claim_alerts :
    (ℕ → ℕ) → ℕ → ℕ → List ClassifiedEmailEventRow → Tx (List SecurityEventClaim)
claim_alerts tokens lease now [] = pure []
claim_alerts tokens lease now (row ∷ rows) = do
  claimed ← claim_alert (tokens 0) lease now row
  claims ← claim_alerts (λ n. tokens (suc n)) lease now rows
  pure
      (if claimed then record { event = event_of row; claim_token = tokens 0 } ∷ claims else claims)

unfoldable pub claim_security_events : (ℕ → ℕ) → ℕ → ℕ → Tx (List SecurityEventClaim)
unfolding claim_alerts
claim_security_events tokens now lease = do
  rows ← query (λ db.
      order_by (λ r. r.received_at)
        (select (λ r. not (r.message_type == EmailMessageType.login_otp) && is_open lease now r)
          db.emails))
  claim_alerts tokens lease now rows

abbrev is_security_claimed : SecurityProcessing → Bool
is_security_claimed SecurityProcessing.security_claimed = true
is_security_claimed _ = false

unfoldable pub mark_security_processed : ℕ → ℕ → Tx Bool
mark_security_processed event_id claim_token =
    cas_email event_id
      (λ r.
        is_security_claimed r.security_processing_state
        && r.security_claim_token is_some claim_token)
      (λ r. record r { security_processing_state = SecurityProcessing.processed })
