-- ===== src/Adapters/Classifier/Examples.antt =====
-- Runs of `EmailClassifier` of app/adapters/email_classifier.py, on texts that are numbers.
use war_thunder_rent_bot.Prelude.{
  ℕ, ◌≡◌, refl, none, some, List, [], ◌∷◌, nat_beq, leb, if◌then◌else◌,
}
use war_thunder_rent_bot.Domain.States.{EmailMessageType}
use war_thunder_rent_bot.Adapters.Html.{
  Tag, starttag, TextOperations, html_hrefs, feed, handle, handle_starttag,
}
use war_thunder_rent_bot.Adapters.Classifier.{
  RawEmail, EmailClassification, EmailClassifierPolicy, Url, EmailOperations, sender_of,
  valid_reset_query, is_reset_parts, is_reset_url, first_reset_url, reset_url, is_allowed,
  is_login_otp, is_password_change, login_otp, classify,
}
use war_thunder_rent_bot.Adapters.Classifier.Laws.{Accepted, classify-Accepted}

abbrev first : List ℕ → ℕ
first [] = 0
first (t ∷ ts) = t

abbrev texts : TextOperations ℕ
texts = record {
  join = first;
  mentions = λ p t. nat_beq t 30;
  split = λ t. t ∷ [];
  strip = λ t. t;
  is_otp = leb 100;
}

-- The link 50 is one of the game's login site, with a token, and 51 is one of another host.
abbrev parts : ℕ → Url ℕ
parts t = record {
  scheme = 40;
  hostname = some (if nat_beq t 50 then 41 else 42);
  port = none;
  username = none;
  fragment = 0;
  path = 43;
  query = 44;
}

abbrev ops : EmailOperations ℕ
ops = record {
  texts = texts;
  same = nat_beq;
  is_empty = nat_beq 0;
  lower = λ t. t;
  contains = λ marker t. nat_beq t 30;
  parseaddr = λ t. t;
  html_tokens = λ t. starttag Tag.link (some 51) ∷ starttag Tag.link (some 50) ∷ [];
  find_reset_urls = λ t. [];
  search_login_code = λ p t. some 222;
  urlsplit = λ t. some (parts t);
  is_reset_path = nat_beq 43;
  parse_qsl = λ q. some ((45, 46) ∷ []);
  https = 40;
  reset_host = 41;
  token = 45;
  login_marker = 31;
  password_marker = 32;
}

abbrev policy : EmailClassifierPolicy ℕ
policy = record {
  allowed_sender = 1;
  login_subject = 2;
  login_purpose_phrase = 33;
  password_change_subject = 3;
}

abbrev login : RawEmail ℕ
login = record { sender = 1; subject = 2; text_body = 30; html_body = none }

abbrev change : RawEmail ℕ
change = record { sender = 1; subject = 3; text_body = 0; html_body = some 30 }

classify-Accepted_example : Accepted ops policy change (classify ops policy change)
classify-Accepted_example = classify-Accepted ops policy change

abbrev classified_as : EmailMessageType → ℕ → EmailClassification ℕ
classified_as t v = record { message_type = t; sensitive_payload = some v }

login_code : classify ops policy login ≡ classified_as EmailMessageType.login_otp 222
unfolding classify is_allowed sender_of is_password_change is_login_otp login_otp
login_code = refl

change_link : classify ops policy change ≡ classified_as EmailMessageType.password_change 50
unfolding classify is_allowed sender_of is_password_change reset_url first_reset_url is_reset_url
    is_reset_parts valid_reset_query html_hrefs feed handle handle_starttag is_login_otp
change_link = refl
