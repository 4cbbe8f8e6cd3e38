-- ===== src/Adapters/Html.antt =====
-- app/adapters/email_classifier.py: `_EmailHtmlParser`, `_visible_text` and `_html_login_otp`. The
-- tokens of html.parser are a list of events; what Python's texts and expressions do is a record of
-- functions.
pub mod Laws
pub mod Codes
mod Examples
use war_thunder_rent_bot.Prelude.{
  Bool, true, false, Option, none, some, List, [], ◌∷◌, ◌++◌, map, if◌then◌else◌,
}

-- The tags that the parser distinguishes.
pub data Tag : Type 0 where
  root link style script other : Tag

abbrev pub is_link : Tag → Bool
is_link Tag.link = true
is_link _ = false

abbrev pub is_hidden : Tag → Bool
is_hidden Tag.style = true
is_hidden Tag.script = true
is_hidden _ = false

-- An attribute `href` that is absent or empty is none.
mutual
  pub data Node (Text : Type 0) : Type 0 where
    node : Tag → Option Text → List Text → Nodes Text → Node Text

  pub data Nodes (Text : Type 0) : Type 0 where
    nil : Nodes Text
    cons : Node Text → Nodes Text → Nodes Text

pub data HtmlEvent (Text : Type 0) : Type 0 where
  starttag : Tag → Option Text → HtmlEvent Text
  startendtag : Tag → Option Text → HtmlEvent Text
  endtag : HtmlEvent Text
  text_data : Text → HtmlEvent Text

-- The stack: the node that is open, and those that it is in, each with what it holds up to now.
pub record HtmlParser (Text : Type 0) : Type 0 where
  pub top : Node Text
  pub below : List (Node Text)
  pub hrefs : List Text

module _ {Text : Type 0} where
  unfoldable pub add_last : Nodes Text → Node Text → Nodes Text
  add_last nil n = cons n nil
  add_last (cons m ms) n = cons m (add_last ms n)

  -- a child of a node, after its others
  abbrev pub with_child : Node Text → Node Text → Node Text
  with_child (node t h ts ms) n = node t h ts (add_last ms n)

  abbrev pub parser : HtmlParser Text
  parser = record { top = node Tag.root none [] nil; below = []; hrefs = [] }

  -- the href of a link
  abbrev pub link_of : Tag → Option Text → List Text
  link_of t none = []
  link_of t (some h) = if is_link t then h ∷ [] else []

  unfoldable pub handle_starttag : Tag → Option Text → HtmlParser Text → HtmlParser Text
  handle_starttag t h p = record {
    top = node t h [] nil;
    below = p.top ∷ p.below;
    hrefs = p.hrefs ++ link_of t h;
  }

  -- the open node, closed in the one that it is in
  abbrev close_in : Node Text → List (Node Text) → List Text → HtmlParser Text
  close_in n [] hs = record { top = n; below = []; hrefs = hs }
  close_in n (m ∷ ms) hs = record { top = with_child m n; below = ms; hrefs = hs }

  unfoldable pub handle_endtag : HtmlParser Text → HtmlParser Text
  handle_endtag p = close_in p.top p.below p.hrefs

  unfoldable pub handle_startendtag : Tag → Option Text → HtmlParser Text → HtmlParser Text
  handle_startendtag t h p = handle_endtag (handle_starttag t h p)

  abbrev with_text : Node Text → Text → Node Text
  with_text (node t h ts ms) d = node t h (if is_hidden t then ts else ts ++ (d ∷ [])) ms

  unfoldable pub handle_data : Text → HtmlParser Text → HtmlParser Text
  handle_data d p = record p { top = with_text p.top d }

  unfoldable pub handle : HtmlEvent Text → HtmlParser Text → HtmlParser Text
  handle (starttag t h) p = handle_starttag t h p
  handle (startendtag t h) p = handle_startendtag t h p
  handle endtag p = handle_endtag p
  handle (text_data d) p = handle_data d p

  unfoldable pub feed : List (HtmlEvent Text) → HtmlParser Text → HtmlParser Text
  feed [] p = p
  feed (e ∷ es) p = feed es (handle e p)

  abbrev root_in : Node Text → List (Node Text) → Node Text
  root_in n [] = n
  root_in n (m ∷ ms) = root_in (with_child m n) ms

  -- `parser.root`, which holds the nodes that are still open, too
  abbrev pub root_of : HtmlParser Text → Node Text
  root_of p = root_in p.top p.below

  -- `_html_hrefs`
  unfoldable pub html_hrefs : List (HtmlEvent Text) → List Text
  html_hrefs es = (feed es parser).hrefs

-- Of texts: `" ".join`, `purpose.casefold() in text.casefold()`, `text.split()`, `strip`, and whether
-- a word is of six digits.
pub record TextOperations (Text : Type 0) : Type 0 where
  pub join : List Text → Text
  pub mentions : Text → Text → Bool
  pub split : Text → List Text
  pub strip : Text → Text
  pub is_otp : Text → Bool

module _ {Text : Type 0} where
  abbrev pub or_else : Option Text → Option Text → Option Text
  or_else (some a) b = some a
  or_else none b = b

module _ {Text : Type 0} (ops : TextOperations Text) where
  unfoldable mutual
    -- `_visible_text`
    pub visible_text : Node Text → Text
    visible_text (node t h ts ms) = ops.join (ts ++ visible_texts ms)

    pub visible_texts : Nodes Text → List Text
    visible_texts nil = []
    visible_texts (cons m ms) = visible_text m ∷ visible_texts ms

  -- the words of six digits
  abbrev pub codes_of : List Text → List Text
  codes_of [] = []
  codes_of (w ∷ ws) =
      let rest = codes_of ws in if ops.is_otp (ops.strip w) then ops.strip w ∷ rest else rest

  abbrev pub only : List Text → Option Text
  only (w ∷ []) = some w
  only _ = none

  -- the code of a text that names the purpose and has just one
  unfoldable pub own_code : Text → Text → Option Text
  own_code purpose text =
      if ops.mentions purpose text then only (codes_of (ops.split text)) else none

  -- the search through the tree, in `_html_login_otp`
  unfoldable mutual
    pub walk : Text → Node Text → Option Text
    walk purpose (node t h ts ms) =
        or_else (own_code purpose (visible_text (node t h ts ms))) (walk_children purpose ms)

    pub walk_children : Text → Nodes Text → Option Text
    walk_children purpose nil = none
    walk_children purpose (cons m ms) = or_else (walk purpose m) (walk_children purpose ms)

  unfoldable pub html_login_otp : List (HtmlEvent Text) → Text → Option Text
  html_login_otp es purpose = walk purpose (root_of (feed es parser))
