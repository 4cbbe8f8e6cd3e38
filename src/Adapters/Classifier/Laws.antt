-- ===== src/Adapters/Classifier/Laws.antt =====
-- app/adapters/email_classifier.py: what an email has that the classifier takes a payload from.
use war_thunder_rent_bot.Prelude.{
  ◌≡◌, refl, Bool, true, false, ◌⊎◌, inl, inr, Option, none, some, List, [], ◌∷◌, if◌then◌else◌,
}
use war_thunder_rent_bot.Domain.States.{EmailMessageType}
use war_thunder_rent_bot.Adapters.Classifier.{
  RawEmail, EmailClassification, EmailClassifierPolicy, EmailOperations, is_reset_url,
  first_reset_url, reset_candidates, reset_url, is_allowed, is_login_otp, is_password_change,
  login_otp, classified, chosen, classify,
}

abbrev pub Among : {Text : Type 0} → Text → List Text → Type 0
Among v [] = ⊥
Among v (x ∷ xs) = (x ≡ v) ⊎ Among v xs

module _ {Text : Type 0} (ops : EmailOperations Text) where
  abbrev Found : List Text → Option Text → Type 0
  Found cs none = Unit
  Found cs (some v) = (is_reset_url ops v ≡ true) × Among v cs

  Found-later : (c : Text) (cs : List Text) (r : Option Text) → Found cs r → Found (c ∷ cs) r
  Found-later c cs none h = tt
  Found-later c cs (some v) h = (h.0, inr (h.1))

  Found-next :
      (c : Text) (cs : List Text) (r : Option Text)
      → Found cs r
      → (b : Bool) → is_reset_url ops c ≡ b
      → Found (c ∷ cs) (if b then some c else r)
  Found-next c cs r h true e = (e, inl refl)
  Found-next c cs r h false e = Found-later c cs r h

  first_reset_url-Found : (cs : List Text) → Found cs (first_reset_url ops cs)
  unfolding first_reset_url
  first_reset_url-Found [] = tt
  first_reset_url-Found (c ∷ cs) =
      Found-next c cs (first_reset_url ops cs) (first_reset_url-Found cs) (is_reset_url ops c) refl

  module _ (policy : EmailClassifierPolicy Text) (m : RawEmail Text) where
    -- What justifies a classification of the email.
    pub data Accepted : EmailClassification Text → Type 0 where
      unknown : Accepted (classified ops policy EmailMessageType.unknown none)
      reset :
          (v : Text)
          → is_allowed ops policy m ≡ true
          → is_password_change ops policy m ≡ true
          → is_reset_url ops v ≡ true
          → Among v (reset_candidates ops m)
          → Accepted (classified ops policy EmailMessageType.password_change (some v))
      code :
          (v : Text)
          → is_allowed ops policy m ≡ true
          → is_login_otp ops policy m ≡ true
          → login_otp ops policy m ≡ some v
          → Accepted (classified ops policy EmailMessageType.login_otp (some v))

    module _ (allowed : is_allowed ops policy m ≡ true) where
      no_reset :
          (l : Bool)
          → is_login_otp ops policy m ≡ l
          → (o : Option Text) → login_otp ops policy m ≡ o
          → Accepted (chosen ops policy none (if l then o else none))
      no_reset true el (some v) eo = code v allowed el eo
      no_reset true el none eo = unknown
      no_reset false el o eo = unknown

      chosen-Accepted :
          (p : Bool)
          → is_password_change ops policy m ≡ p
          → (r : Option Text) → Found (reset_candidates ops m) r
          → Accepted (
              chosen ops policy
                (if p then r else none)
                (if is_login_otp ops policy m then login_otp ops policy m else none))
      chosen-Accepted true ep (some u) h = reset u allowed ep (h.0) (h.1)
      chosen-Accepted true ep none h = no_reset (is_login_otp ops policy m) refl _ refl
      chosen-Accepted false ep r h = no_reset (is_login_otp ops policy m) refl _ refl

    sender-Accepted :
        (a : Bool)
        → is_allowed ops policy m ≡ a
        → Accepted (
            if a
            then chosen ops policy
                (if is_password_change ops policy m then reset_url ops m else none)
                (if is_login_otp ops policy m then login_otp ops policy m else none)
            else classified ops policy EmailMessageType.unknown none)
    unfolding reset_url
    sender-Accepted true ea =
        chosen-Accepted ea (is_password_change ops policy m) refl _
          (first_reset_url-Found (reset_candidates ops m))
    sender-Accepted false ea = unknown

    -- The classifier calls an email a login or a change of the password only if it comes from the
    -- allowed sender and has the subject and the marker of that kind; the payload is then the login
    -- code of the email, or one of its links, which passes the check of a reset URL.
    pub classify-Accepted : Accepted (classify ops policy m)
    unfolding classify
    classify-Accepted = sender-Accepted (is_allowed ops policy m) refl
