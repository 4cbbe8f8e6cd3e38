-- ===== src/Application/Confirmed/Known.antt =====
-- What is known of the calls on record when a security operation completes, and along the way.
use war_thunder_rent_bot.Prelude.{
  ℕ, ◌≡◌, refl, ◌∙◌, Bool, true, ◌⊎◌, Option, none, some, [], ◌∷◌, ◌++◌, List,
}
use war_thunder_rent_bot.Domain.PixelStorm.{
  Credentials, PixelStormCredentialResult, PixelStormRevocationResult,
  PixelStormPasswordChangeResult,
}
use war_thunder_rent_bot.Application.World.{Call}
use war_thunder_rent_bot.Application.Security.{Job}
use war_thunder_rent_bot.Application.Confirmed.Preserved.{Stable}
use war_thunder_rent_bot.Application.Confirmed.Held.{
  pending_of, current_of, tells_pending, tells_current, last_told-news, last_told-quiet,
  same_account,
}

-- The last calls found the credentials of the account valid that it held as pending, and promoted
-- those; or, in a recovery, the last call found the account's current credentials valid.
unfoldable pub IsRotated : Job → List Call → Type 0
IsRotated j cs =
    (c : Credentials) × (before : List Call) × (((j.recovery ≡ true)
        × (current_of j.account_id before ≡ some c)
        × (cs ≡ before ++ Call.verified j.account_id c PixelStormCredentialResult.valid ∷ []))
      ⊎ ((pending_of j.account_id before ≡ some c)
          × (cs
              ≡ before
                ++ Call.verified j.account_id c PixelStormCredentialResult.valid
                  ∷ Call.promoted j.account_id
                  ∷ [])))

-- The last calls revoked the sessions, under a claim that was owned throughout, and found them
-- revoked; or, in a recovery, the last call found them revoked.
unfoldable pub IsRevoked : Job → List Call → Type 0
IsRevoked j cs =
    let done = PixelStormRevocationResult.supported_verified in
    (before : List Call) × (((j.recovery ≡ true)
        × (cs ≡ before ++ Call.checked_revocation j.account_id done ∷ []))
      ⊎ (cs
          ≡ before
            ++ Call.revoked j.account_id (true, some done)
              ∷ Call.checked_revocation j.account_id done
              ∷ []))

-- What is known of the calls along the way.
unfoldable pub PendingIs : ℕ → Option Credentials → List Call → Type 0
PendingIs i p cs = pending_of i cs ≡ p

unfoldable pub CurrentIs : ℕ → Option Credentials → List Call → Type 0
CurrentIs i p cs = current_of i cs ≡ p

unfoldable pub LastRevoked : ℕ → Bool × Option PixelStormRevocationResult → List Call → Type 0
LastRevoked i a cs = (before : List Call) × (cs ≡ before ++ Call.revoked i a ∷ [])

pub PendingIs-verified :
    (i : ℕ) (p : Option Credentials) (k : ℕ) (c : Credentials) (r : PixelStormCredentialResult)
    → Stable (PendingIs i p) (Call.verified k c r)
unfolding PendingIs pending_of
PendingIs-verified i p k c r = record {
  stays = λ cs h. last_told-quiet (tells_pending i) cs (Call.verified k c r) refl ∙ h;
}

pub PendingIs-changed :
    (i : ℕ) (p : Option Credentials) (k : ℕ) (a : Bool × Option PixelStormPasswordChangeResult)
    → Stable (PendingIs i p) (Call.changed k a)
unfolding PendingIs pending_of
PendingIs-changed i p k a = record {
  stays = λ cs h. last_told-quiet (tells_pending i) cs (Call.changed k a) refl ∙ h;
}

pub CurrentIs-read_pending :
    (i : ℕ) (p : Option Credentials) (k : ℕ) (c : Option Credentials) (cs : List Call)
    → CurrentIs i p cs
    → CurrentIs i p (cs ++ Call.read_pending k c ∷ [])
unfolding CurrentIs current_of
CurrentIs-read_pending i p k c cs h =
    last_told-quiet (tells_current i) cs (Call.read_pending k c) refl ∙ h

pub CurrentIs-read :
    (i : ℕ) (c : Option Credentials) (cs : List Call)
    → CurrentIs i c (cs ++ Call.read_current i c ∷ [])
unfolding CurrentIs current_of
CurrentIs-read i c cs =
    last_told-news (tells_current i) cs (Call.read_current i c) c (same_account i (some c) none)

pub PendingIs-read :
    (i : ℕ) (c : Option Credentials) (cs : List Call)
    → PendingIs i c (cs ++ Call.read_pending i c ∷ [])
unfolding PendingIs pending_of
PendingIs-read i c cs =
    last_told-news (tells_pending i) cs (Call.read_pending i c) c (same_account i (some c) none)

pub PendingIs-stored :
    (i : ℕ) (c : Credentials) (cs : List Call)
    → PendingIs i (some c) (cs ++ Call.stored_pending i c ∷ [])
unfolding PendingIs pending_of
PendingIs-stored i c cs =
    last_told-news (tells_pending i) cs (Call.stored_pending i c) (some c)
      (same_account i (some (some c)) none)

pub pending_is :
    (i : ℕ) (p : Option Credentials) (cs : List Call) → PendingIs i p cs → pending_of i cs ≡ p
unfolding PendingIs
pending_is i p cs h = h

pub current_is :
    (i : ℕ) (p : Option Credentials) (cs : List Call) → CurrentIs i p cs → current_of i cs ≡ p
unfolding CurrentIs
current_is i p cs h = h
