-- ===== src/Application/Confirmed/Held.antt =====
-- What the calls on record say of an account's credentials.
use war_thunder_rent_bot.Prelude.{
  ℕ, ◌≡◌, refl, ◌∙◌, ap, Option, none, some, List, [], ◌∷◌, ◌++◌, nat_beq, nat_beq_iff,
  if◌then◌else◌,
}
use war_thunder_rent_bot.Domain.PixelStorm.{Credentials}
use war_thunder_rent_bot.Application.World.{Call}

-- What a call tells of the pending credentials of an account: none if it tells nothing.
abbrev pub tells_pending : ℕ → Call → Option (Option Credentials)
tells_pending i (Call.read_pending k c) = if nat_beq i k then some c else none
tells_pending i (Call.stored_pending k c) = if nat_beq i k then some (some c) else none
tells_pending i (Call.promoted k) = if nat_beq i k then some none else none
tells_pending i _ = none

-- What a call tells of the current credentials: a promotion tells that they are others.
abbrev pub tells_current : ℕ → Call → Option (Option Credentials)
tells_current i (Call.read_current k c) = if nat_beq i k then some c else none
tells_current i (Call.promoted k) = if nat_beq i k then some none else none
tells_current i _ = none

abbrev told : Option (Option Credentials) → Option Credentials → Option Credentials
told (some c) held = c
told none held = held

-- What the calls tell last, from what is held before them.
unfoldable pub last_told :
    (Call → Option (Option Credentials)) → Option Credentials → List Call → Option Credentials
last_told tells held [] = held
last_told tells held (c ∷ cs) = last_told tells (told (tells c) held) cs

-- The credentials of the account that were last read as pending, or stored as such, and not promoted.
unfoldable pub pending_of : ℕ → List Call → Option Credentials
pending_of i cs = last_told (tells_pending i) none cs

-- The credentials of the account that were last read as the current ones.
unfoldable pub current_of : ℕ → List Call → Option Credentials
current_of i cs = last_told (tells_current i) none cs

module _ (tells : Call → Option (Option Credentials)) where
  last_told-append :
      (held : Option Credentials) (cs : List Call) (c : Call)
      → last_told tells held (cs ++ c ∷ []) ≡ told (tells c) (last_told tells held cs)
  unfolding last_told
  last_told-append held [] c = refl
  last_told-append held (d ∷ cs) c = last_told-append (told (tells d) held) cs c

  -- a call that tells something
  pub last_told-news :
      (cs : List Call) (c : Call) (p : Option Credentials)
      → tells c ≡ some p
      → last_told tells none (cs ++ c ∷ []) ≡ p
  last_told-news cs c p e =
      last_told-append none cs c ∙ ap (λ x. told x (last_told tells none cs)) e

  -- a call that tells nothing
  pub last_told-quiet :
      (cs : List Call) (c : Call)
      → tells c ≡ none
      → last_told tells none (cs ++ c ∷ []) ≡ last_told tells none cs
  last_told-quiet cs c e = last_told-append none cs c ∙ ap (λ x. told x (last_told tells none cs)) e

pub same_account : {A : Type 0} (i : ℕ) (a b : A) → (if nat_beq i i then a else b) ≡ a
same_account i a b = ap (λ t. if t then a else b) ((nat_beq_iff i i).1 refl)
