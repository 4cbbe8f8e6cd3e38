-- ===== src/Adapters/Secrets.antt =====
-- app/adapters/production_stores.py: ProductionSecureStore, ProductionWebSessionStore and
-- ProductionEphemeralEmailSecretStore, each over a vault. Each operation is one of the ports'.
pub mod Laws
pub mod Once
use war_thunder_rent_bot.Prelude.{
  ℕ, suc, Bool, true, false, ◌||◌, Option, none, some, List, [], ◌∷◌, leb, is_none, not,
  if◌then◌else◌,
}
use war_thunder_rent_bot.Domain.PixelStorm.{Credentials}
use war_thunder_rent_bot.Persistence.Session.{Error, ok, err}
use war_thunder_rent_bot.Application.World.{Port}
use war_thunder_rent_bot.Adapters.Vault.{
  Prefix, Key, Codec, ◌>>=◌, ◌>>◌, pure, or_corrupt, read, get_entry, set_entry, delete_entry,
}

abbrev pub key : Prefix → ℕ → Key
key p i = record { prefix = p; id = i }

module _ {File : Type 0} where
  unfoldable pub if_found :
      {A B : Type 0} → Option A → (A → Port File B) → Port File B → Port File B
  if_found (some a) f m = f a
  if_found none f m = m

  unfoldable pub either : {A : Type 0} → Bool → Port File A → Port File A → Port File A
  either true m n = m
  either false m n = n

  -- `datetime.fromisoformat`, which raises ValueError
  unfoldable pub parsed : Option ℕ → Port File ℕ
  parsed (some t) w = (ok t, w)
  parsed none w = (err Error.value, w)

module _ {File Text : Type 0} (c : Codec File Text) where
  -- the value under one key moved to another: `promote_pending`, `promote_pending_credentials`
  unfoldable pub promote_key : Key → Key → Port File (Unit {0})
  promote_key source target = do
    value ← get_entry c source
    if_found value (λ v. do set_entry c target v; delete_entry c source) (pure tt)

  unfoldable pub set_pending : ℕ → Text → Port File (Unit {0})
  set_pending i value = set_entry c (key Prefix.pending i) value

  unfoldable pub promote_pending : ℕ → Port File (Unit {0})
  promote_pending i = promote_key (key Prefix.pending i) (key Prefix.current i)

  unfoldable pub has_pending : ℕ → Port File Bool
  has_pending i = do value ← get_entry c (key Prefix.pending i); pure (not (is_none value))

  -- `_credentials`
  unfoldable pub stored_credentials : Key → Port File (Option Credentials)
  stored_credentials k = do
    value ← get_entry c k
    if_found value (λ v. or_corrupt (c.loads v)) (pure none)

  unfoldable pub set_current_credentials : ℕ → Credentials → Port File (Unit {0})
  set_current_credentials i pair = set_entry c (key Prefix.credentials i) (c.dumps pair)

  unfoldable pub get_current_credentials : ℕ → Port File (Option Credentials)
  get_current_credentials i = stored_credentials (key Prefix.credentials i)

  unfoldable pub get_pending_credentials : ℕ → Port File (Option Credentials)
  get_pending_credentials i = stored_credentials (key Prefix.pending_credentials i)

  unfoldable pub set_pending_credentials : ℕ → Credentials → Port File (Unit {0})
  set_pending_credentials i pair = set_entry c (key Prefix.pending_credentials i) (c.dumps pair)

  unfoldable pub promote_pending_credentials : ℕ → Port File (Unit {0})
  promote_pending_credentials i =
      promote_key (key Prefix.pending_credentials i) (key Prefix.credentials i)

  unfoldable pub get_gmail_refresh_token : Port File (Option Text)
  get_gmail_refresh_token = get_entry c (key Prefix.gmail_refresh_token 0)

  unfoldable pub set_gmail_refresh_token : Text → Port File (Unit {0})
  set_gmail_refresh_token token = set_entry c (key Prefix.gmail_refresh_token 0) token

  unfoldable pub get_funpay_session : ℕ → Port File (Option Text)
  get_funpay_session i = get_entry c (key Prefix.funpay i)

  unfoldable pub set_funpay_session : ℕ → Text → Port File (Unit {0})
  set_funpay_session i value = set_entry c (key Prefix.funpay i) value

  unfoldable pub clear_funpay_session : ℕ → Port File (Unit {0})
  clear_funpay_session i = delete_entry c (key Prefix.funpay i)

  unfoldable pub get_pixelstorm_session : ℕ → Port File (Option Text)
  get_pixelstorm_session i = get_entry c (key Prefix.pixelstorm i)

  unfoldable pub set_pixelstorm_session : ℕ → Text → Port File (Unit {0})
  set_pixelstorm_session i value = set_entry c (key Prefix.pixelstorm i) value

  unfoldable pub clear_pixelstorm_session : ℕ → Port File (Unit {0})
  clear_pixelstorm_session i = delete_entry c (key Prefix.pixelstorm i)

  unfoldable pub discard : ℕ → Port File (Unit {0})
  discard i = do delete_entry c (key Prefix.payload i); delete_entry c (key Prefix.expires i)

  unfoldable pub put : ℕ → Text → ℕ → Port File Bool
  put i payload expires_at = do
    held ← get_entry c (key Prefix.payload i)
    either (not (is_none held)) (pure false) (do
      set_entry c (key Prefix.payload i) payload
      set_entry c (key Prefix.expires i) (c.isoformat expires_at)
      pure true)

  -- the payload, unless it is over
  unfoldable pub unless_over : Option Text → Option Text → ℕ → Port File (Option Text)
  unless_over expiry payload now =
      if_found expiry
        (λ e.
          if_found payload
            (λ p. do t ← parsed (c.fromisoformat e); pure (if leb t now then none else some p))
            (pure none))
        (pure none)

  unfoldable pub consume_once : ℕ → ℕ → Port File (Option Text)
  consume_once i now = do
    expiry ← get_entry c (key Prefix.expires i)
    payload ← get_entry c (key Prefix.payload i)
    discard i
    unless_over expiry payload now

  abbrev is_expires : Prefix → Bool
  is_expires Prefix.expires = true
  is_expires _ = false

  unfoldable pub purge_entry : ℕ → Key × Text → Port File Bool
  purge_entry now e =
      either (is_expires (e.0).prefix)
        (do
          t ← parsed (c.fromisoformat (e.1))
          either (leb t now) (do discard (e.0).id; pure true) (pure false))
        (pure false)

  unfoldable pub purge_entries : ℕ → List (Key × Text) → Port File ℕ
  purge_entries now [] = pure 0
  purge_entries now (e ∷ es) = do
    removed ← purge_entry now e
    rest ← purge_entries now es
    pure (if removed then suc rest else rest)

  unfoldable pub purge_expired : ℕ → Port File ℕ
  purge_expired now = do entries ← read c; purge_entries now entries
