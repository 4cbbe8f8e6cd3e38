-- ===== src/Adapters/Html/Laws.antt =====
-- app/adapters/email_classifier.py: what the parser makes of a tree's own tokens.
use war_thunder_rent_bot.Prelude.{
  ◌≡◌, refl, sym, ap, ◌∙◌, Bool, true, false, Option, none, List, [], ◌∷◌, ◌++◌, if◌then◌else◌,
}
use mathlib.Core.List.{append_assoc, append-nil}
use war_thunder_rent_bot.Adapters.Html.{
  Tag, Node, node, Nodes, nil, cons, HtmlEvent, starttag, endtag, text_data, HtmlParser, is_hidden,
  add_last, with_child, parser, link_of, feed, root_of, html_hrefs, handle, handle_starttag,
  handle_endtag, handle_data,
}

module _ {Text : Type 0} where
  abbrev datas : List Text → List (HtmlEvent Text) → List (HtmlEvent Text)
  datas [] rest = rest
  datas (t ∷ ts) rest = text_data t ∷ datas ts rest

  -- The tokens of a tree, and then others: a node's texts stand before its children.
  unfoldable mutual
    pub tokens : Node Text → List (HtmlEvent Text) → List (HtmlEvent Text)
    tokens (node t h ts ms) rest = starttag t h ∷ datas ts (all_tokens ms (endtag ∷ rest))

    pub all_tokens : Nodes Text → List (HtmlEvent Text) → List (HtmlEvent Text)
    all_tokens nil rest = rest
    all_tokens (cons m ms) rest = tokens m (all_tokens ms rest)

  abbrev kept : Bool → List Text → List Text → List Text
  kept true us ts = us
  kept false us ts = us ++ ts

  -- A tree without the texts of styles and scripts.
  unfoldable mutual
    pub shown : Node Text → Node Text
    shown (node t h ts ms) = node t h (kept (is_hidden t) [] ts) (all_shown ms)

    pub all_shown : Nodes Text → Nodes Text
    all_shown nil = nil
    all_shown (cons m ms) = cons (shown m) (all_shown ms)

  -- The links of a tree, in the order of the document.
  unfoldable mutual
    pub links : Node Text → List Text
    links (node t h ts ms) = link_of t h ++ all_links ms

    pub all_links : Nodes Text → List Text
    all_links nil = []
    all_links (cons m ms) = links m ++ all_links ms

  abbrev both : Nodes Text → Nodes Text → Nodes Text
  both nil ns = ns
  both (cons m ms) ns = cons m (both ms ns)

  both-nil : (ms : Nodes Text) → both ms nil ≡ ms
  both-nil nil = refl
  both-nil (cons m ms) = ap (cons m) (both-nil ms)

  both-add_last :
      (ms : Nodes Text) (n : Node Text) (ns : Nodes Text)
      → both (add_last ms n) ns ≡ both ms (cons n ns)
  unfolding add_last
  both-add_last nil n ns = refl
  both-add_last (cons m ms) n ns = ap (cons m) (both-add_last ms n ns)

  kept-nil : (b : Bool) (us : List Text) → kept b us [] ≡ us
  kept-nil true us = refl
  kept-nil false us = append-nil us

  kept_next :
      (b : Bool) (us : List Text) (d : Text) (ts : List Text)
      → kept b (if b then us else us ++ (d ∷ [])) ts ≡ kept b us (d ∷ ts)
  kept_next true us d ts = refl
  kept_next false us d ts = append_assoc us (d ∷ []) ts

  abbrev state : Node Text → List (Node Text) → List Text → HtmlParser Text
  state n below hs = record { top = n; below = below; hrefs = hs }

  module _ (below : List (Node Text)) (hs : List Text) (t : Tag) (h : Option Text)
      (ms : Nodes Text) where
    feed-datas :
        (ts us : List Text) (rest : List (HtmlEvent Text))
        → feed (datas ts rest) (state (node t h us ms) below hs)
          ≡ feed rest (state (node t h (kept (is_hidden t) us ts) ms) below hs)
    unfolding feed handle handle_data
    feed-datas [] us rest =
        ap (λ x. feed rest (state (node t h x ms) below hs)) (sym (kept-nil (is_hidden t) us))
    feed-datas (d ∷ ts) us rest =
        feed-datas ts (if is_hidden t then us else us ++ (d ∷ [])) rest
        ∙ ap (λ x. feed rest (state (node t h x ms) below hs)) (kept_next (is_hidden t) us d ts)

  -- Feeding a tree's tokens adds the tree to the open node.
  mutual
    unfolding feed handle handle_starttag handle_endtag tokens all_tokens shown all_shown links
        all_links

    feed-tokens :
        (n : Node Text) (rest : List (HtmlEvent Text)) (top : Node Text) (below : List (Node Text))
        (hs : List Text)
        → feed (tokens n rest) (state top below hs)
          ≡ feed rest (state (with_child top (shown n)) below (hs ++ links n))
    feed-tokens (node t h ts ms) rest top below hs =
        feed-datas (top ∷ below) (hs ++ link_of t h) t h nil ts [] (all_tokens ms (endtag ∷ rest))
        ∙ feed-all_tokens ms (endtag ∷ rest) t h (kept (is_hidden t) [] ts) nil (top ∷ below)
            (hs ++ link_of t h)
        ∙ ap (λ x. feed rest (state (with_child top (shown (node t h ts ms))) below x))
            (append_assoc hs (link_of t h) (all_links ms))

    feed-all_tokens :
        (ms : Nodes Text) (rest : List (HtmlEvent Text)) (t : Tag) (h : Option Text)
        (ts : List Text) (us : Nodes Text) (below : List (Node Text)) (hs : List Text)
        → feed (all_tokens ms rest) (state (node t h ts us) below hs)
          ≡ feed rest (state (node t h ts (both us (all_shown ms))) below (hs ++ all_links ms))
    feed-all_tokens nil rest t h ts us below hs =
        ap (λ x. feed rest (state (node t h ts x) below hs)) (sym (both-nil us))
        ∙ ap (λ x. feed rest (state (node t h ts (both us nil)) below x)) (sym (append-nil hs))
    feed-all_tokens (cons m ms) rest t h ts us below hs =
        feed-tokens m (all_tokens ms rest) (node t h ts us) below hs
        ∙ feed-all_tokens ms rest t h ts (add_last us (shown m)) below (hs ++ links m)
        ∙ ap (λ x. feed rest (state (node t h ts x) below ((hs ++ links m) ++ all_links ms)))
            (both-add_last us (shown m) (all_shown ms))
        ∙ ap
            (λ x. feed rest (state (node t h ts (both us (cons (shown m) (all_shown ms)))) below x))
            (append_assoc hs (links m) (all_links ms))

  -- The parser gives back the trees whose tokens it is fed, below its root and without the texts of
  -- styles and scripts, and the links that stand in them, in the order of the document.
  pub feed-document :
      (ms : Nodes Text)
      → (root_of (feed (all_tokens ms []) parser) ≡ node Tag.root none [] (all_shown ms))
        × (html_hrefs (all_tokens ms []) ≡ all_links ms)
  unfolding feed html_hrefs
  feed-document ms =
      let fed = feed-all_tokens ms [] Tag.root none [] nil [] [] in
      (ap root_of fed, ap (λ p. p.hrefs) fed)
