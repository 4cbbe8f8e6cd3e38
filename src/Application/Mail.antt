-- ===== src/Application/Mail.antt =====
-- app/application: gmail_watcher.py, email_event_dispatcher.py and security_monitor.py.
use war_thunder_rent_bot.Prelude.{
  ℕ, ◌+◌, Bool, true, false, ◌&&◌, not, Option, none, some, List, is_none, if◌then◌else◌,
}
use war_thunder_rent_bot.Domain.States.{EmailMessageType, EmailPayloadState, message_eq}
use war_thunder_rent_bot.Persistence.Rows.{seconds}
use war_thunder_rent_bot.Persistence.Repository.Expiry.{record_active_security_event}
use war_thunder_rent_bot.Persistence.Emails.Inbox.{
  ClassifiedEmailEvent, store_event, expected_rotation_operation,
}
use war_thunder_rent_bot.Persistence.Emails.Alerts.{
  SecurityEventClaim, claim_security_events, mark_security_processed,
}
use war_thunder_rent_bot.Application.World.{
  App, ◌>>=◌, ◌>>◌, pure, transact, reads, port, draw, choose, if_some, count, collect,
}
use war_thunder_rent_bot.Application.Ports.{Outside, Settings, RawEmail}

abbrev is_password_change : EmailMessageType → Bool
is_password_change EmailMessageType.password_change = true
is_password_change _ = false

abbrev is_login_otp : EmailMessageType → Bool
is_login_otp EmailMessageType.login_otp = true
is_login_otp _ = false

abbrev payload_state_of : Option ℕ → EmailPayloadState
payload_state_of none = EmailPayloadState.unusable_expired
payload_state_of (some payload) = EmailPayloadState.available

module _ {E : Type 0} (o : Outside E) (s : Settings) where
  -- `store_event`, and the secret discarded if the event is there already
  unfoldable pub publish : ClassifiedEmailEvent → ℕ → App E (Option ClassifiedEmailEvent)
  publish event now = do
    stored ← transact (store_event event now)
    choose stored (pure (some event)) (do port (o.email_secrets.discard event.id); pure none)

  abbrev ttl : EmailMessageType → ℕ
  ttl t = if is_password_change t then s.password_reset_ttl_seconds else s.secret_ttl_seconds

  unfoldable pub publish_with_secret :
      Option ℕ → ClassifiedEmailEvent → ℕ → App E (Option ClassifiedEmailEvent)
  publish_with_secret payload event now =
      if_some payload
        (λ secret. do
          kept ← port (o.email_secrets.put event.id secret (now + seconds (ttl event.message_type)))
          choose kept (publish event now) (pure none))
        (publish event now)

  -- one turn of the loop
  unfoldable pub watch_message : ℕ → RawEmail → App E (Option ClassifiedEmailEvent)
  watch_message now message = do
    event_id ← draw o.uuid
    let c = s.classify message
    correlation ←
        choose (is_password_change c.message_type)
          (reads (
            expected_rotation_operation s.windows.password_change_correlation_seconds
              message.routing_account_id message.received_at))
          (pure none)
    publish_with_secret c.sensitive_payload
        (record {
          id = event_id;
          gmail_message_id = message.gmail_message_id;
          message_type = c.message_type;
          received_at = message.received_at;
          routing_account_id = message.routing_account_id;
          correlation_operation_id = correlation;
          payload_state = payload_state_of c.sensitive_payload;
        })
        now

  -- `GmailWatcher.poll_once`
  unfoldable pub poll_gmail : ℕ → ℕ → App E (List ClassifiedEmailEvent)
  poll_gmail last_poll now = do
    messages ← port (o.get_new_messages last_poll)
    collect (watch_message now) messages

  -- `SecurityMonitor.handle`
  unfoldable pub monitor : ClassifiedEmailEvent → ℕ → App E Bool
  monitor event now = choose (is_login_otp event.message_type) (pure false) (
      choose (is_password_change event.message_type && not (is_none event.correlation_operation_id))
        (pure false)
        (if_some event.routing_account_id
          (λ account_id. do
            new_id ← draw o.uuid
            transact (
                record_active_security_event new_id account_id event.message_type
                  event.gmail_message_id now))
          (pure false)))

  -- one turn of the loop
  unfoldable pub dispatch_alert : ℕ → SecurityEventClaim → App E Bool
  dispatch_alert now c = do
    handled ← monitor c.event now
    transact (mark_security_processed c.event.id c.claim_token)

  -- `EmailEventDispatcher.dispatch_pending`
  unfoldable pub dispatch_mail : ℕ → App E ℕ
  dispatch_mail now = do
    tokens ← draw o.uuids
    claims ← transact (claim_security_events tokens now 30)
    count (dispatch_alert now) claims
