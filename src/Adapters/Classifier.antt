-- ===== src/Adapters/Classifier.antt =====
-- app/adapters/email_classifier.py: `EmailClassifier`. Python's functions on texts, addresses, URLs
-- and regular expressions are a record of functions.
pub mod Laws
mod Examples
use war_thunder_rent_bot.Prelude.{
  ℕ, Bool, true, false, not, ◌&&◌, Option, none, some, List, [], ◌∷◌, is_none, if◌then◌else◌,
}
use war_thunder_rent_bot.Domain.States.{EmailMessageType}
use war_thunder_rent_bot.Adapters.Html.{HtmlEvent, TextOperations, html_hrefs, html_login_otp}

-- app/domain/models.py: what the classifier reads of an email
pub record RawEmail (Text : Type 0) : Type 0 where
  pub sender : Text
  pub subject : Text
  pub text_body : Text
  pub html_body : Option Text

pub record EmailClassification (Text : Type 0) : Type 0 where
  pub message_type : EmailMessageType
  pub sensitive_payload : Option Text

pub record EmailClassifierPolicy (Text : Type 0) : Type 0 where
  pub allowed_sender : Text
  pub login_subject : Text
  pub login_purpose_phrase : Text
  pub password_change_subject : Text

-- the parts of a URL, by urlsplit
pub record Url (Text : Type 0) : Type 0 where
  pub scheme : Text
  pub hostname : Option Text
  pub port : Option ℕ
  pub username : Option Text
  pub fragment : Text
  pub path : Text
  pub query : Text

-- `contains` is `in`; `urlsplit` and `parse_qsl` give none for a ValueError; `feed` gives the tokens
-- of an HTML text; the last five are the module's constants.
pub record EmailOperations (Text : Type 0) : Type 0 where
  pub texts : TextOperations Text
  pub same : Text → Text → Bool
  pub is_empty : Text → Bool
  pub lower : Text → Text
  pub contains : Text → Text → Bool
  pub parseaddr : Text → Text
  pub html_tokens : Text → List (HtmlEvent Text)
  pub find_reset_urls : Text → List Text
  pub search_login_code : Text → Text → Option Text
  pub urlsplit : Text → Option (Url Text)
  pub is_reset_path : Text → Bool
  pub parse_qsl : Text → Option (List (Text × Text))
  pub https : Text
  pub reset_host : Text
  pub token : Text
  pub login_marker : Text
  pub password_marker : Text

module _ {Text : Type 0} (ops : EmailOperations Text) where
  -- `_sender`
  unfoldable pub sender_of : Text → Text
  sender_of value = ops.lower (ops.parseaddr value)

  abbrev single_token : List (Text × Text) → Bool
  single_token (q ∷ []) = ops.same (q.0) ops.token && not (ops.is_empty (q.1))
  single_token _ = false

  -- `_valid_reset_query`
  unfoldable pub valid_reset_query : Text → Bool
  valid_reset_query query = elim (ops.parse_qsl query) [ some ps ↦ single_token ps | none ↦ false ]

  abbrev is_host : Option Text → Bool
  is_host (some h) = ops.same h ops.reset_host
  is_host none = false

  unfoldable pub is_reset_parts : Url Text → Bool
  is_reset_parts u =
      ops.same u.scheme ops.https
      && is_host u.hostname
      && is_none u.port
      && is_none u.username
      && ops.is_empty u.fragment
      && ops.is_reset_path u.path
      && valid_reset_query u.query

  unfoldable pub is_reset_url : Text → Bool
  is_reset_url candidate = elim (ops.urlsplit candidate) [
    | some u ↦ is_reset_parts u
    | none ↦ false
  ]

  unfoldable pub first_reset_url : List Text → Option Text
  first_reset_url [] = none
  first_reset_url (c ∷ cs) =
      let rest = first_reset_url cs in if is_reset_url c then some c else rest

  -- `html_body or text_body`
  abbrev pub body_of : RawEmail Text → Text
  body_of m = elim (m.html_body) [
    | some h ↦ if ops.is_empty h then m.text_body else h
    | none ↦ m.text_body
  ]

  abbrev pub reset_candidates : RawEmail Text → List Text
  reset_candidates m = elim (m.html_body) [
    | some h ↦ html_hrefs (ops.html_tokens h)
    | none ↦ ops.find_reset_urls m.text_body
  ]

  -- `_reset_url`
  unfoldable pub reset_url : RawEmail Text → Option Text
  reset_url m = first_reset_url (reset_candidates m)

  module _ (policy : EmailClassifierPolicy Text) where
    unfoldable pub is_allowed : RawEmail Text → Bool
    is_allowed m = ops.same (sender_of m.sender) (ops.lower policy.allowed_sender)

    unfoldable pub is_login_otp : RawEmail Text → Bool
    is_login_otp m =
        ops.same m.subject policy.login_subject
        && (ops.texts).mentions policy.login_purpose_phrase m.text_body
        && ops.contains ops.login_marker (body_of m)

    unfoldable pub is_password_change : RawEmail Text → Bool
    is_password_change m =
        ops.same m.subject policy.password_change_subject
        && ops.contains ops.password_marker (body_of m)

    unfoldable pub login_otp : RawEmail Text → Option Text
    login_otp m = elim (m.html_body) [
      | some h ↦ html_login_otp ops.texts (ops.html_tokens h) policy.login_purpose_phrase
      | none ↦ ops.search_login_code policy.login_purpose_phrase m.text_body
    ]

    abbrev pub classified : EmailMessageType → Option Text → EmailClassification Text
    classified t payload = record { message_type = t; sensitive_payload = payload }

    abbrev pub chosen : Option Text → Option Text → EmailClassification Text
    chosen (some u) code = classified EmailMessageType.password_change (some u)
    chosen none (some code) = classified EmailMessageType.login_otp (some code)
    chosen none none = classified EmailMessageType.unknown none

    unfoldable pub classify : RawEmail Text → EmailClassification Text
    classify m =
        if is_allowed m
        then chosen (if is_password_change m then reset_url m else none)
            (if is_login_otp m then login_otp m else none)
        else classified EmailMessageType.unknown none
