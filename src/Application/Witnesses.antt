-- ===== src/Application/Witnesses.antt =====
-- The theorems on the services, applied to the outside of Examples.
use war_thunder_rent_bot.Prelude.{
  ℕ, ◌+◌, ltb, Bool, inr, ◌≡◌, ◌≤◌, refl, false, some, none, [], ◌∷◌, true,
}
use war_thunder_rent_bot.Domain.States.{AccountStatus}
use war_thunder_rent_bot.Domain.PixelStorm.{
  PixelStormRevocationResult, auth_category, health_category, password_category,
}
use war_thunder_rent_bot.Persistence.Rows.{AccountRow}
use war_thunder_rent_bot.Persistence.Session.{ok, account_of, cas_operation, cas_email}
use war_thunder_rent_bot.Persistence.Booking.{live}
use war_thunder_rent_bot.Persistence.Booking.Steps.{Step, Reachable}
use war_thunder_rent_bot.Persistence.Repository.Reservation.{add_account}
use war_thunder_rent_bot.Application.Lease.{
  renew, guarded, fresh_now, fence, heartbeats, meanwhile, thread_ended,
}
use war_thunder_rent_bot.Application.Lease.Answers.{guarded_answers}
use war_thunder_rent_bot.Domain.FunPay.{MessageReceipt, is_confirmed}
use war_thunder_rent_bot.Application.Ports.{Outside}
use war_thunder_rent_bot.Application.Rentals.{send_credentials, send_otp, sent_if}
use war_thunder_rent_bot.Application.Rentals.Receipts.{receipt_decides}
use war_thunder_rent_bot.Application.Lease.Laws.{Renewed, guarded_owned}
use war_thunder_rent_bot.Application.Security.Rotate.{
  execute_rotate, rotate, rotate_known, rotate_fresh, after_request, change_by_email,
  change_directly, finalize_password_change, promote, request_change, rotate_pending, store_pending,
}
use war_thunder_rent_bot.Application.Refinement.{bot, bot_never_double_books}
use war_thunder_rent_bot.Application.Confirmed.Known.{IsRotated}
use war_thunder_rent_bot.Application.Confirmed.Outcomes.{execute_rotate_completed}
use war_thunder_rent_bot.Table.{get, rowcount, first, first_by, update}
use war_thunder_rent_bot.Application.World.{
  ◌>>=◌, if_some, pure, transact, set_waiting, port, choose, fetch, draw, logged, captured,
  is_waiting_external, restore, tell, on_result, raise,
}
use war_thunder_rent_bot.Persistence.Repository.Claims.{
  fence_normal_side_effect, fence_recovery_side_effect,
}
use war_thunder_rent_bot.Application.Security.{
  execute, operation, external_side_effect, if_owned, normal_token, notify, refuse, set_state,
  verify_credentials, wait, current_credentials,
}
use war_thunder_rent_bot.Application.Security.Authenticate.{
  ensure_authenticated, after_login, authenticate_once_with_otp, first_login, log_in, resume_login,
}
use war_thunder_rent_bot.Application.Codes.{
  consume, consume_expected_reset_url, consume_maintenance_otp,
}
use war_thunder_rent_bot.Persistence.Emails.Codes.{
  claim_event, claim_expected_password_change, claim_found, claim_maintenance_login_otp,
  mark_claim_consumed, mark_claim_unusable, mark_request,
}
use war_thunder_rent_bot.Persistence.Repository.Security.{
  record_maintenance_login_requested, record_password_change_requested, set_security_state,
}
use war_thunder_rent_bot.Application.Examples.{
  outside, settings, outside-Lawful, world, stocked, working, claimed, job, claim,
}

stocked_Reachable : Reachable stocked
unfolding add_account get
stocked_Reachable = Reachable.after Reachable.start (Step.adds_account 1 100 1000 (1, refl))

bot_never_double_books_example :
    (live ((bot outside settings 2000 (2010 ∷ 2020 ∷ []) (world stocked)).1).db 1 ≤ 1)
    × ((r : AccountRow)
        → account_of ((bot outside settings 2000 (2010 ∷ 2020 ∷ []) (world stocked)).1).db 1
          ≡ some r
        → r.status ≡ AccountStatus.available
        → live ((bot outside settings 2000 (2010 ∷ 2020 ∷ []) (world stocked)).1).db 1 ≡ 0)
bot_never_double_books_example =
    bot_never_double_books outside settings outside-Lawful 2000 (2010 ∷ 2020 ∷ []) (world stocked)
      stocked_Reachable 1

execute_rotate_completed_example :
    IsRotated job ((execute_rotate outside settings job working).1).calls
unfolding execute_rotate execute ◌>>=◌ set_waiting rotate ensure_authenticated port choose pure
    if_some rotate_known operation fetch get rotate_fresh draw logged consume
    consume_expected_reset_url consume_maintenance_otp fence fresh_now guarded heartbeats
    thread_ended on_result current_credentials store_pending meanwhile renew after_login
    authenticate_once_with_otp first_login log_in resume_login after_request change_by_email
    change_directly finalize_password_change promote request_change rotate_pending
    external_side_effect if_owned normal_token notify refuse set_state verify_credentials wait
    captured is_waiting_external restore tell transact auth_category health_category
    password_category claim_event claim_expected_password_change claim_found
    claim_maintenance_login_otp mark_claim_consumed mark_claim_unusable mark_request
    fence_normal_side_effect fence_recovery_side_effect record_maintenance_login_requested
    record_password_change_requested set_security_state cas_email cas_operation first first_by
    rowcount update
execute_rotate_completed_example =
    execute_rotate_completed outside settings job working
      ((execute_rotate outside settings job working).1) refl

guarded_owned_example :
    let w1 = (renew outside (claim 9) working).1 in
    let called = outside.pixelstorm.revoke_sessions 1 w1.outside in
    let beats = outside.elapsed (called.1) in
    ((renew outside (claim 9) working).0 ≡ ok true)
    × (called.0 ≡ ok PixelStormRevocationResult.supported_verified)
    × Renewed outside
        (claim 9)
        (beats.0)
        (record w1 { outside = beats.1 })
        ((guarded outside (claim 9) (outside.pixelstorm.revoke_sessions 1) working).1)
unfolding guarded ◌>>=◌ renew fresh_now if_some pure transact fence fence_normal_side_effect
    cas_operation choose rowcount captured draw heartbeats thread_ended on_result meanwhile restore
    port fence_recovery_side_effect update
guarded_owned_example =
    guarded_owned outside (claim 9) (outside.pixelstorm.revoke_sessions 1) working
      ((guarded outside (claim 9) (outside.pixelstorm.revoke_sessions 1) working).1)
      PixelStormRevocationResult.supported_verified refl

guarded_answers_example :
    (owned : Bool) × ((guarded outside (claim 9) (outside.pixelstorm.revoke_sessions 1) working).0
      ≡ ok (owned, some PixelStormRevocationResult.supported_verified))
unfolding ◌>>=◌ renew fresh_now if_some pure transact fence fence_normal_side_effect cas_operation
    rowcount draw choose
guarded_answers_example =
    guarded_answers outside (claim 9) (outside.pixelstorm.revoke_sessions 1) working
      PixelStormRevocationResult.supported_verified refl refl

-- an outside in which SQLite is locked from the second renewal on
abbrev locking : Outside ℕ
locking = record outside { is_locked = λ e. (ltb 100 e, e + 1) }

-- The claim counts as owned, although its only heartbeat raised and renewed nothing.
locked_heartbeat :
    (guarded locking (claim 9) (locking.pixelstorm.revoke_sessions 1) working).0
    ≡ ok (true, some PixelStormRevocationResult.supported_verified)
unfolding guarded ◌>>=◌ renew fresh_now if_some pure transact fence fence_normal_side_effect
    cas_operation choose rowcount captured draw heartbeats thread_ended on_result meanwhile restore
    port raise fence_recovery_side_effect update
locked_heartbeat = refl

abbrev doubtful : MessageReceipt
doubtful = record {
  idempotency_key = claimed.idempotency_key;
  conversation_id = 3;
  external_message_id = none;
  delivered = true;
  verified = false;
  ambiguous = true;
  occurred_at = 5;
}

-- an outside that holds a receipt of every message
abbrev receiving : Outside ℕ
receiving = record outside {
  funpay = record (outside.funpay) { get_message_receipt = λ k e. (ok (some doubtful), e) };
}

receipt_decides_example :
    (send_credentials receiving settings claimed 10 working
      ≡ (ok (sent_if (is_confirmed doubtful)), record working { outside = 100 }))
    × (send_otp receiving settings claimed 10 working
        ≡ (ok (sent_if (is_confirmed doubtful)), record working { outside = 100 }))
receipt_decides_example =
    receipt_decides receiving settings claimed 10 working doubtful 100 refl (inr refl)
