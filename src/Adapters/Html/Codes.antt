-- ===== src/Adapters/Html/Codes.antt =====
-- app/adapters/email_classifier.py: which code the search through an email's tree finds.
use mathlib.Core.Path.{subst}
use war_thunder_rent_bot.Prelude.{
  ◌≡◌, refl, sym, ap, ◌∙◌, Bool, true, false, Option, none, some, List, [], ◌∷◌, ◌++◌, map,
  if◌then◌else◌,
}
use war_thunder_rent_bot.Table.{select}
use war_thunder_rent_bot.Adapters.Html.{
  Node, node, Nodes, nil, cons, HtmlEvent, TextOperations, parser, feed, root_of, visible_text,
  codes_of, only, own_code, or_else, walk, walk_children, html_login_otp,
}

module _ {Text : Type 0} (ops : TextOperations Text) where
  -- The visible texts of a tree's nodes, in the order of the document.
  unfoldable mutual
    pub texts : Node Text → List Text
    texts (node t h ts ms) = visible_text ops (node t h ts ms) ∷ all_texts ms

    pub all_texts : Nodes Text → List Text
    all_texts nil = []
    all_texts (cons m ms) = texts m ++ all_texts ms

  module _ (purpose : Text) where
    -- The code of the first text that names the purpose and has just one.
    unfoldable first_code : List Text → Option Text
    first_code [] = none
    first_code (t ∷ ts) = or_else (own_code ops purpose t) (first_code ts)

    or_else_assoc : (a b c : Option Text) → or_else (or_else a b) c ≡ or_else a (or_else b c)
    or_else_assoc none b c = refl
    or_else_assoc (some x) b c = refl

    first_code-append :
        (ts us : List Text) → first_code (ts ++ us) ≡ or_else (first_code ts) (first_code us)
    unfolding first_code
    first_code-append [] us = refl
    first_code-append (t ∷ ts) us =
        ap (or_else (own_code ops purpose t)) (first_code-append ts us)
        ∙ sym (or_else_assoc (own_code ops purpose t) (first_code ts) (first_code us))

    mutual
      unfolding walk walk_children texts all_texts first_code

      walk-texts : (n : Node Text) → walk ops purpose n ≡ first_code (texts n)
      walk-texts (node t h ts ms) =
          ap (or_else (own_code ops purpose (visible_text ops (node t h ts ms))))
            (walk_children-texts ms)

      walk_children-texts :
          (ms : Nodes Text) → walk_children ops purpose ms ≡ first_code (all_texts ms)
      walk_children-texts nil = refl
      walk_children-texts (cons m ms) =
          ap (λ x. or_else x (walk_children ops purpose ms)) (walk-texts m)
          ∙ ap (or_else (first_code (texts m))) (walk_children-texts ms)
          ∙ sym (first_code-append (texts m) (all_texts ms))

    -- The text names the purpose, and has this one code.
    abbrev HasCode : Text → Text → Type 0
    HasCode t v =
        (ops.mentions purpose t ≡ true) × (select ops.is_otp (map ops.strip (ops.split t)) ≡ v ∷ [])

    -- The code of the first of the texts that names the purpose and has one code, and only one.
    pub data FirstCode : List Text → Option Text → Type 0 where
      nowhere : FirstCode [] none
      here : {t v : Text} {ts : List Text} → HasCode t v → FirstCode (t ∷ ts) (some v)
      later :
          {t : Text} {ts : List Text} {found : Option Text}
          → ((v : Text) → ¬ HasCode t v)
          → FirstCode ts found
          → FirstCode (t ∷ ts) found

    codes_of-select : (ws : List Text) → codes_of ops ws ≡ select ops.is_otp (map ops.strip ws)
    unfolding select
    codes_of-select [] = refl
    codes_of-select (w ∷ ws) =
        ap (λ rest. if ops.is_otp (ops.strip w) then ops.strip w ∷ rest else rest)
          (codes_of-select ws)

    first-FirstCode :
        (t : Text) (ts : List Text) (found : Option Text)
        → FirstCode ts found
        → (b : Bool) → ops.mentions purpose t ≡ b
        → (cs : List Text) → select ops.is_otp (map ops.strip (ops.split t)) ≡ cs
        → FirstCode (t ∷ ts) (or_else (if b then only ops cs else none) found)
    first-FirstCode t ts found h true e (v ∷ []) f = FirstCode.here (e, f)
    first-FirstCode t ts found h true e [] f = FirstCode.later (λ v x. cc) h
    first-FirstCode t ts found h true e (v ∷ w ∷ us) f = FirstCode.later (λ v x. cc) h
    first-FirstCode t ts found h false e cs f = FirstCode.later (λ v x. cc) h

    first_code-FirstCode : (ts : List Text) → FirstCode ts (first_code ts)
    unfolding first_code own_code
    first_code-FirstCode [] = FirstCode.nowhere
    first_code-FirstCode (t ∷ ts) =
        first-FirstCode t ts (first_code ts) (first_code-FirstCode ts) (ops.mentions purpose t) refl
          (codes_of ops (ops.split t)) (sym (codes_of-select (ops.split t)))

    -- Whatever the tokens of an email are, the code of a login that is found in it is that of the first
    -- node of the parsed tree, in the order of the document, whose visible text names the purpose and
    -- has one word of six digits and no other; none is found if there is no such node.
    pub login_code_is_first :
        (es : List (HtmlEvent Text))
        → FirstCode (texts (root_of (feed es parser))) (html_login_otp ops es purpose)
    unfolding html_login_otp
    login_code_is_first es =
        subst (FirstCode (texts (root_of (feed es parser))))
          (sym (walk-texts (root_of (feed es parser))))
          (first_code-FirstCode (texts (root_of (feed es parser))))
