-- ===== src/Application/Moves/Operations.antt =====
-- The operations of PixelStormSecurityService move the database by steps.
use war_thunder_rent_bot.Prelude.{ℕ}
use war_thunder_rent_bot.Domain.PixelStorm.{
  Credentials, PixelStormAuthResult, PixelStormRevocationResult, PixelStormPasswordChangeResult,
}
use war_thunder_rent_bot.Persistence.Rows.{OperationRow}
use war_thunder_rent_bot.Application.Ports.{Outside, Settings}
use war_thunder_rent_bot.Application.Security.{Job}
use war_thunder_rent_bot.Application.Security.Authenticate.{
  authenticate_once_with_otp, resume_login, after_login, first_login, log_in, ensure_authenticated,
}
use war_thunder_rent_bot.Application.Security.Revoke.{
  confirm_revocation, after_revocation, revoke_once, revoke, execute_revoke,
}
use war_thunder_rent_bot.Application.Security.Rotate.{
  promote, finalize_password_change, change_by_email, change_directly, after_request,
  request_change, rotate_pending, store_pending, rotate_fresh, rotate_known, rotate, execute_rotate,
}
use war_thunder_rent_bot.Application.Moves.{Moves}
use war_thunder_rent_bot.Application.Moves.Outside.{Lawful}
use war_thunder_rent_bot.Application.Moves.Security.{security_moves, Moves-execute}

module _ {E : Type 0} (o : Outside E) (s : Settings) (l : Lawful o) where
  Moves-authenticate_once :
      (j : Job) (c : Credentials) (otp : ℕ) → Moves (authenticate_once_with_otp o s j c otp)
  unfolding authenticate_once_with_otp
  Moves-authenticate_once j c otp = search security_moves depth 20 fits 3000

  Moves-resume_login :
      (j : Job) (c : Credentials) (row : OperationRow) → Moves (resume_login o s j c row)
  unfolding resume_login
  Moves-resume_login j c row = search (security_moves, Moves-authenticate_once) depth 20 fits 3000

  Moves-after_login :
      (j : Job) (c : Credentials) (r : PixelStormAuthResult) → Moves (after_login o s j c r)
  unfolding after_login
  Moves-after_login j c r = search (security_moves, Moves-authenticate_once) depth 20 fits 3000

  Moves-first_login : (j : Job) (c : Credentials) → Moves (first_login o s j c)
  unfolding first_login
  Moves-first_login j c = search (security_moves, Moves-after_login) depth 20 fits 3000

  Moves-log_in : (j : Job) (c : Credentials) → Moves (log_in o s j c)
  unfolding log_in
  Moves-log_in j c =
      search (security_moves, Moves-resume_login, Moves-first_login) depth 20 fits 3000

  Moves-ensure_authenticated : (j : Job) → Moves (ensure_authenticated o s j)
  unfolding ensure_authenticated
  Moves-ensure_authenticated j = search (security_moves, Moves-log_in) depth 20 fits 3000

  Moves-confirm_revocation : (j : Job) → Moves (confirm_revocation o s j)
  unfolding confirm_revocation
  Moves-confirm_revocation j = search security_moves depth 20 fits 3000

  Moves-after_revocation :
      (j : Job) (r : PixelStormRevocationResult) → Moves (after_revocation o s j r)
  unfolding after_revocation
  Moves-after_revocation j r = search (security_moves, Moves-confirm_revocation) depth 20 fits 3000

  Moves-revoke_once : (j : Job) → Moves (revoke_once o s j)
  unfolding revoke_once
  Moves-revoke_once j = search (security_moves, Moves-after_revocation) depth 20 fits 3000

  pub Moves-revoke : (j : Job) → Moves (execute_revoke o s j)
  unfolding execute_revoke revoke
  Moves-revoke j =
      search
        (
          security_moves, Moves-execute, Moves-ensure_authenticated, Moves-confirm_revocation,
          Moves-revoke_once,
        )
        depth 20 fits 3000

  Moves-promote : (j : Job) → Moves (promote o s j)
  unfolding promote
  Moves-promote j = search security_moves depth 20 fits 3000

  Moves-finalize :
      (j : Job) (c : Credentials) (r : PixelStormPasswordChangeResult)
      → Moves (finalize_password_change o s j c r)
  unfolding finalize_password_change
  Moves-finalize j c r = search (security_moves, Moves-promote) depth 20 fits 3000

  Moves-change_by_email : (j : Job) (c : Credentials) → Moves (change_by_email o s j c)
  unfolding change_by_email
  Moves-change_by_email j c = search (security_moves, Moves-finalize) depth 20 fits 3000

  Moves-change_directly : (j : Job) (c p : Credentials) → Moves (change_directly o s j c p)
  unfolding change_directly
  Moves-change_directly j c p = search (security_moves, Moves-finalize) depth 20 fits 3000

  Moves-after_request :
      (j : Job) (c p : Credentials) (r : PixelStormPasswordChangeResult)
      → Moves (after_request o s j c p r)
  unfolding after_request
  Moves-after_request j c p r =
      search (security_moves, Moves-finalize, Moves-change_by_email, Moves-change_directly) depth 20
        fits 3000

  Moves-request_change :
      (j : Job) (row : OperationRow) (c p : Credentials) → Moves (request_change o s j row c p)
  unfolding request_change
  Moves-request_change j row c p = search (security_moves, Moves-after_request) depth 20 fits 3000

  Moves-rotate_pending :
      (j : Job) (row : OperationRow) (c p : Credentials) → Moves (rotate_pending o s j row c p)
  unfolding rotate_pending
  Moves-rotate_pending j row c p =
      search (security_moves, Moves-promote, Moves-request_change) depth 20 fits 3000

  Moves-rotate_fresh :
      (j : Job) (row : OperationRow) (c : Credentials) → Moves (rotate_fresh o s j row c)
  unfolding rotate_fresh store_pending
  Moves-rotate_fresh j row c = search (security_moves, Moves-rotate_pending) depth 20 fits 3000

  Moves-rotate_known : (j : Job) (c : Credentials) → Moves (rotate_known o s j c)
  unfolding rotate_known
  Moves-rotate_known j c =
      search (security_moves, Moves-change_by_email, Moves-rotate_pending, Moves-rotate_fresh) depth
        20 fits 3000

  pub Moves-rotate : (j : Job) → Moves (execute_rotate o s j)
  unfolding execute_rotate rotate
  Moves-rotate j =
      search (security_moves, Moves-execute, Moves-ensure_authenticated, Moves-rotate_known) depth
        20 fits 3000
