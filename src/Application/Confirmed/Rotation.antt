-- ===== src/Application/Confirmed/Rotation.antt =====
-- A rotation promotes what was verified: one lemma for each part of `rotate`.
use war_thunder_rent_bot.Prelude.{arith, ◌&&◌, Bool, Option, some, List}
use war_thunder_rent_bot.Domain.PixelStorm.{
  Credentials, PixelStormPasswordChangeResult, is_valid, is_verified,
}
use war_thunder_rent_bot.Persistence.Rows.{OperationRow}
use war_thunder_rent_bot.Application.World.{App, Port, Call, ◌>>=◌}
use war_thunder_rent_bot.Application.Ports.{Outside, Settings}
use war_thunder_rent_bot.Application.Security.{
  Job, external_side_effect, if_owned, current_credentials,
}
use war_thunder_rent_bot.Application.Security.Rotate.{
  finalize_password_change, change_by_email, change_directly, after_request, request_change,
  rotate_pending, store_pending, rotate_fresh, rotate_known, rotate, is_past_verification,
  is_waiting_email,
}
use war_thunder_rent_bot.Application.Confirmed.{
  Earns, Any, Keeps-Any, Earns-false, Earns-bind, Earns-choose, Earns-choose_if, Earns-if_some,
  Earns-found, Earns-weaken, Earns-if_owned, Earns-refuse, Earns-wait, earning,
}
use war_thunder_rent_bot.Application.Confirmed.Preserved.{
  Keeps-transact, Keeps-port, Keeps-draw, Keeps-set_state, Keeps-operation, Keeps-external,
  Keeps-verify_credentials, Keeps-reset_url,
}
use war_thunder_rent_bot.Application.Confirmed.Known.{
  IsRotated, PendingIs, CurrentIs, PendingIs-verified, PendingIs-changed, PendingIs-read,
  PendingIs-stored, CurrentIs-read, CurrentIs-read_pending,
}
use war_thunder_rent_bot.Application.Confirmed.Verified.{Earns-told, Earns-promoted, Earns-current}

module _ {E : Type 0} (o : Outside E) (s : Settings) (j : Job) where
  abbrev Pending : Credentials → List Call → Type 0
  Pending p = PendingIs j.account_id (some p)

  Earns-finalize :
      (p : Credentials) (r : PixelStormPasswordChangeResult)
      → Earns (Pending p) (IsRotated j) (finalize_password_change o s j p r)
  unfolding finalize_password_change
  Earns-finalize p r =
      Earns-choose (is_verified r) (Earns-promoted o s j p (Earns-refuse o s _ j))
        (Earns-refuse o s _ j)

  -- a change of the password under the guard, and what follows its answer
  Earns-changed :
      (p : Credentials) (action : Port E PixelStormPasswordChangeResult)
      {go : PixelStormPasswordChangeResult → App E Bool}
      → ((r : PixelStormPasswordChangeResult) → Earns (Pending p) (IsRotated j) (go r))
      → Earns (Pending p) (IsRotated j) (
          external_side_effect o s j (λ a. Call.changed j.account_id a) action >>= λ answer.
          if_owned o s answer go)
  Earns-changed p action h =
      Earns-bind
        (Keeps-external o s j _ action (PendingIs-changed j.account_id (some p) j.account_id))
        (λ answer. Earns-if_owned o s answer h)

  Earns-change_by_email :
      (p : Credentials) → Earns (Pending p) (IsRotated j) (change_by_email o s j p)
  unfolding change_by_email
  Earns-change_by_email p = Earns-bind (Keeps-reset_url o s j.operation_id j.now) (λ found.
      Earns-if_some found (λ url. Earns-changed p _ (Earns-finalize p)) (Earns-wait o s _ j))

  Earns-after_request :
      (c p : Credentials) (r : PixelStormPasswordChangeResult)
      → Earns (Pending p) (IsRotated j) (after_request o s j c p r)
  unfolding after_request change_directly
  Earns-after_request c p r =
      search (Earns-finalize, Earns-change_by_email, Earns-changed, earning) depth 20

  Earns-request_change :
      (row : OperationRow) (c p : Credentials)
      → Earns (Pending p) (IsRotated j) (request_change o s j row c p)
  unfolding request_change
  Earns-request_change row c p = Earns-choose _ (Earns-wait o s _ j) (
      Earns-bind (Keeps-transact _) (λ recorded.
        Earns-choose _ (Earns-wait o s _ j) (Earns-changed p _ (Earns-after_request c p))))

  Earns-rotate_pending :
      (row : OperationRow) (c p : Credentials)
      → Earns (Pending p) (IsRotated j) (rotate_pending o s j row c p)
  unfolding rotate_pending
  Earns-rotate_pending row c p = Earns-promoted o s j p (
      Earns-bind
        (Keeps-verify_credentials o s j.account_id c
          (PendingIs-verified j.account_id (some p) j.account_id c))
        (λ r. Earns-choose (is_valid r) (Earns-request_change row c p) (Earns-refuse o s _ j)))

  Earns-store_pending :
      (row : OperationRow) (c p : Credentials)
      → Earns (CurrentIs j.account_id (some c)) (IsRotated j) (store_pending o s j row c p)
  unfolding store_pending
  Earns-store_pending row c p =
      Earns-told (λ d. Pending p) _ (Keeps-port _) (λ d cs h. PendingIs-stored j.account_id p cs)
        (λ d. Earns-bind (Keeps-set_state o s _ j) (λ ready. Earns-rotate_pending row c p))

  Earns-rotate_fresh :
      (row : OperationRow) (c : Credentials)
      → Earns (CurrentIs j.account_id (some c)) (IsRotated j) (rotate_fresh o s j row c)
  unfolding rotate_fresh
  Earns-rotate_fresh row c =
      Earns-choose_if (j.recovery && is_past_verification row.security_state)
        (λ h. Earns-current o s j c (ground (arith, h)) (Earns-refuse o s _ j))
        (Earns-bind (Keeps-draw _) (λ password. Earns-store_pending row c _))

  -- the current credentials, and the pending ones
  abbrev Known : Credentials → Option Credentials → List Call → Type 0
  Known c p cs = CurrentIs j.account_id (some c) cs × PendingIs j.account_id p cs

  Earns-rotate_known :
      (c : Credentials)
      → Earns (CurrentIs j.account_id (some c)) (IsRotated j) (rotate_known o s j c)
  unfolding rotate_known
  Earns-rotate_known c =
      Earns-told (Known c) _ (Keeps-port _)
        (λ p cs h. (
          CurrentIs-read_pending j.account_id (some c) j.account_id p cs h,
          PendingIs-read j.account_id p cs,
        ))
        (λ p. Earns-bind (Keeps-operation o s j) (λ row.
          Earns-choose (is_waiting_email row.security_state)
            (Earns-found (Known c) p
              (λ q.
                Earns-choose s.has_password_rotator
                  (Earns-weaken (λ cs h. h.1) (Earns-change_by_email q)) (Earns-refuse o s _ j))
              (Earns-refuse o s _ j))
            (Earns-found (Known c) p
              (λ q. Earns-weaken (λ cs h. h.1) (Earns-rotate_pending row c q))
              (Earns-weaken (λ cs h. h.0) (Earns-rotate_fresh row c)))))

  pub Earns-rotate : Earns Any (IsRotated j) (rotate o s j)
  unfolding rotate current_credentials
  Earns-rotate = Earns-bind (Keeps-Any _) (λ ready. Earns-choose _ Earns-false (
      Earns-bind (Keeps-Any _) (λ capabilities. Earns-choose _ (Earns-refuse o s _ j) (
        Earns-told (CurrentIs j.account_id) _ (Keeps-Any _)
          (λ c cs h. CurrentIs-read j.account_id c cs)
          (λ current.
            Earns-found (CurrentIs j.account_id) current Earns-rotate_known
              (Earns-refuse o s _ j))))))
