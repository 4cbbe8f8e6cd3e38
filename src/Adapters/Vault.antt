-- ===== src/Adapters/Vault.antt =====
-- app/adapters/production_stores.py: `ProtectedVault`, a dictionary of texts in one protected file.
-- The protection, base64 and JSON are an interface: what was written is read back as it was.
pub mod Laws
use war_thunder_rent_bot.Prelude.{
  ℕ, ◌≡◌, Bool, true, false, ◌&&◌, Option, none, some, List, [], ◌∷◌, nat_beq, if◌then◌else◌,
}
use war_thunder_rent_bot.Domain.PixelStorm.{Credentials}
use war_thunder_rent_bot.Persistence.Session.{Result, ok, err, runtime}
use war_thunder_rent_bot.Application.World.{Port}

-- The part of a key before the colon, and the id after it.
pub data Prefix : Type 0 where
  current pending credentials pending_credentials gmail_refresh_token : Prefix
  funpay pixelstorm payload expires : Prefix

pub record Key : Type 0 where
  pub prefix : Prefix
  pub id : ℕ

abbrev code : Prefix → ℕ
code Prefix.current = 0
code Prefix.pending = 1
code Prefix.credentials = 2
code Prefix.pending_credentials = 3
code Prefix.gmail_refresh_token = 4
code Prefix.funpay = 5
code Prefix.pixelstorm = 6
code Prefix.payload = 7
code Prefix.expires = 8

abbrev pub same_key : Key → Key → Bool
same_key a b = nat_beq (code a.prefix) (code b.prefix) && nat_beq a.id b.id

module _ {Text : Type 0} where
  -- `values.get(key)`
  unfoldable pub lookup : Key → List (Key × Text) → Option Text
  lookup k [] = none
  lookup k (e ∷ es) = let rest = lookup k es in if same_key k (e.0) then some (e.1) else rest

  -- `values.pop(key, None)`
  unfoldable pub pop : Key → List (Key × Text) → List (Key × Text)
  pop k [] = []
  pop k (e ∷ es) = let rest = pop k es in if same_key k (e.0) then rest else e ∷ rest

  -- `values[key] = value`
  unfoldable pub put_in : Key → Text → List (Key × Text) → List (Key × Text)
  put_in k v [] = (k, v) ∷ []
  put_in k v (e ∷ es) =
      let rest = put_in k v es in if same_key k (e.0) then (k, v) ∷ es else e ∷ rest

-- The file's content is sealed; `loads` and `dumps` are JSON's for a pair of texts, and the times are
-- in ISO format. Reading back is documented of each. `loads` fails on what is no pair, and gives none
-- for a pair that is not one of texts.
pub record Codec (File Text : Type 0) : Type 0 where
  pub seal : List (Key × Text) → File
  pub unseal : File → Option (List (Key × Text))
  pub dumps : Credentials → Text
  pub loads : Text → Option (Option Credentials)
  pub isoformat : ℕ → Text
  pub fromisoformat : Text → Option ℕ
  pub unseal-seal : (es : List (Key × Text)) → unseal (seal es) ≡ some es
  pub loads-dumps : (c : Credentials) → loads (dumps c) ≡ some (some c)
  pub fromisoformat-isoformat : (t : ℕ) → fromisoformat (isoformat t) ≡ some t

module _ {File : Type 0} where
  infixl 5 ◌>>=◌ ◌>>◌
  unfoldable pub ◌>>=◌ : {A B : Type 0} → Port File A → (A → Port File B) → Port File B
  ◌>>=◌ m f w = let r = m w in elim (r.0) [ ok a ↦ f a (r.1) | err e ↦ (err e, r.1) ]

  abbrev pub ◌>>◌ : {A B : Type 0} → Port File A → Port File B → Port File B
  m >> k = m >>= λ _. k

  unfoldable pub pure : {A : Type 0} → A → Port File A
  pure a w = (ok a, w)

  -- `VaultCorruptError` is a RuntimeError.
  unfoldable pub or_corrupt : {A : Type 0} → Option A → Port File A
  or_corrupt (some a) w = (ok a, w)
  or_corrupt none w = (err runtime, w)

  module _ {Text : Type 0} (c : Codec File Text) where
    -- `_read`
    unfoldable pub read : Port File (List (Key × Text))
    read w = or_corrupt (c.unseal w) w

    -- `_write`: the temporary file replaces the vault at once
    unfoldable pub write : List (Key × Text) → Port File (Unit {0})
    write es w = (ok tt, c.seal es)

    -- `validate`
    unfoldable pub validate : Port File (Unit {0})
    validate = do es ← read; pure tt

    -- `get`
    unfoldable pub get_entry : Key → Port File (Option Text)
    get_entry k = do es ← read; pure (lookup k es)

    -- `set`
    unfoldable pub set_entry : Key → Text → Port File (Unit {0})
    set_entry k v = do es ← read; write (put_in k v es)

    -- `delete`
    unfoldable pub delete_entry : Key → Port File (Unit {0})
    delete_entry k = do es ← read; write (pop k es)
