-- ===== src/Adapters/Html/Examples.antt =====
-- Runs of the parser of app/adapters/email_classifier.py on small emails.
use war_thunder_rent_bot.Prelude.{
  ℕ, ◌≡◌, refl, Bool, false, ◌||◌, none, some, List, [], ◌∷◌, ◌++◌, nat_beq, leb,
}
use war_thunder_rent_bot.Adapters.Html.{
  Tag, Node, node, Nodes, nil, cons, HtmlEvent, starttag, text_data, TextOperations, parser, feed,
  root_of, html_hrefs, html_login_otp, walk, walk_children, own_code, visible_text, visible_texts,
  handle, handle_starttag, handle_endtag, handle_data, add_last,
}
use war_thunder_rent_bot.Adapters.Html.Laws.{
  tokens, all_tokens, all_shown, links, all_links, feed-document,
}
use war_thunder_rent_bot.Adapters.Html.Codes.{texts, FirstCode, login_code_is_first}

-- A text is the list of its words; the word 7 is the purpose, and a code is 100 at least.
abbrev has : ℕ → List ℕ → Bool
has w [] = false
has w (x ∷ xs) = nat_beq w x || has w xs

abbrev flat : List (List ℕ) → List ℕ
flat [] = []
flat (t ∷ ts) = t ++ flat ts

abbrev each : List ℕ → List (List ℕ)
each [] = []
each (w ∷ ws) = (w ∷ []) ∷ each ws

abbrev is_code : List ℕ → Bool
is_code (w ∷ []) = leb 100 w
is_code _ = false

abbrev words : TextOperations (List ℕ)
words = record {
  join = flat;
  mentions = λ p t. has 7 t;
  split = each;
  strip = λ t. t;
  is_otp = is_code;
}

-- a style with a code, a paragraph with the purpose and a code, and a link
abbrev email : Nodes (List ℕ)
email = cons (node Tag.style none ((7 ∷ 111 ∷ []) ∷ []) nil) (
    cons
      (node Tag.other none ((7 ∷ 222 ∷ []) ∷ []) (cons (node Tag.link (some (5 ∷ [])) [] nil) nil))
      nil)

feed-document_example :
    (root_of (feed (all_tokens email []) parser) ≡ node Tag.root none [] (all_shown email))
    × (html_hrefs (all_tokens email []) ≡ all_links email)
feed-document_example = feed-document email

login_code_is_first_example :
    FirstCode words
      (7 ∷ [])
      (texts words (root_of (feed (all_tokens email []) parser)))
      (html_login_otp words (all_tokens email []) (7 ∷ []))
login_code_is_first_example = login_code_is_first words (7 ∷ []) (all_tokens email [])

email_links : all_links email ≡ (5 ∷ []) ∷ []
unfolding all_links links
email_links = refl

email_code : html_login_otp words (all_tokens email []) (7 ∷ []) ≡ some (222 ∷ [])
unfolding html_login_otp feed handle handle_starttag handle_endtag handle_data add_last walk
    walk_children own_code visible_text visible_texts tokens all_tokens
email_code = refl

abbrev unclosed : List (HtmlEvent (List ℕ))
unclosed = starttag Tag.other none ∷ text_data (3 ∷ []) ∷ []

abbrev unclosed_tree : Node (List ℕ)
unclosed_tree = node Tag.root none [] (cons (node Tag.other none ((3 ∷ []) ∷ []) nil) nil)

-- An element that no tag ends, such as a line break, holds all that follows it.
void_element : root_of (feed unclosed parser) ≡ unclosed_tree
unfolding feed handle handle_starttag handle_data add_last
void_element = refl
