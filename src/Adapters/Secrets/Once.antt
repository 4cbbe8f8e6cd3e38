-- ===== src/Adapters/Secrets/Once.antt =====
-- A secret of an email is given out once, and not after it is over.
use war_thunder_rent_bot.Prelude.{
  not, is_none, ℕ, ◌≡◌, refl, ◌∙◌, ap, true, false, Option, none, some, List, leb, if◌then◌else◌,
}
use war_thunder_rent_bot.Persistence.Session.{Result, ok, err, value}
use war_thunder_rent_bot.Adapters.Vault.{
  Prefix, Key, Codec, lookup, pop, put_in, ◌>>=◌, ◌>>◌, pure, get_entry, set_entry, delete_entry,
}
use war_thunder_rent_bot.Adapters.Vault.Laws.{
  bind_answers, get_holding, set_holding, delete_holding, lookup-put_in_self, lookup-put_in,
  lookup-pop_self,
}
use war_thunder_rent_bot.Adapters.Secrets.{
  key, if_found, either, parsed, put, consume_once, unless_over, discard,
}

-- The answer of `consume_once`, by the expiry and the payload that the vault holds.
abbrev timed : {Text : Type 0} → Option ℕ → Text → ℕ → Result (Option Text)
timed (some t) p now = ok (if leb t now then none else some p)
timed none p now = err value

abbrev taken :
    {File Text : Type 0} → Codec File Text → Option Text → Option Text → ℕ → Result (Option Text)
taken c none p now = ok none
taken c (some e) none now = ok none
taken c (some e) (some p) now = timed (c.fromisoformat e) p now

module _ {File Text : Type 0} (c : Codec File Text) where
  abbrev payload : ℕ → Key
  payload i = key Prefix.payload i

  abbrev expires : ℕ → Key
  expires i = key Prefix.expires i

  abbrev pub without : ℕ → List (Key × Text) → List (Key × Text)
  without i es = pop (expires i) (pop (payload i) es)

  -- the entries after a `put`
  abbrev pub holding : ℕ → List (Key × Text) → Text → ℕ → List (Key × Text)
  holding i es p t = put_in (expires i) (c.isoformat t) (put_in (payload i) p es)

  parsed_is :
      (t : Option ℕ) (p : Text) (now : ℕ) (w : File)
      → (parsed t >>= λ u. pure (if leb u now then none else some p)) w ≡ (timed t p now, w)
  unfolding ◌>>=◌ parsed pure
  parsed_is (some t) p now w = refl
  parsed_is none p now w = refl

  unless_over_is :
      (e p : Option Text) (now : ℕ) (w : File) → unless_over c e p now w ≡ (taken c e p now, w)
  unfolding unless_over if_found pure
  unless_over_is none p now w = refl
  unless_over_is (some e) none now w = refl
  unless_over_is (some e) (some p) now w = parsed_is (c.fromisoformat e) p now w

  module _ {w : File} {es : List (Key × Text)} (h : c.unseal w ≡ some es) (i : ℕ) where
    discarded : discard c i w ≡ (ok tt, c.seal (without i es))
    unfolding discard
    discarded =
        bind_answers (delete_entry c (payload i)) _ (delete_holding c h (payload i))
        ∙ delete_holding c (c.unseal-seal _) (expires i)

    consumed :
        (now : ℕ)
        → consume_once c i now w
          ≡ (taken c (lookup (expires i) es) (lookup (payload i) es) now, c.seal (without i es))
    unfolding consume_once
    consumed now =
        bind_answers (get_entry c (expires i)) _ (get_holding c h (expires i))
        ∙ bind_answers (get_entry c (payload i)) _ (get_holding c h (payload i))
        ∙ bind_answers (discard c i) _ discarded
        ∙ unless_over_is (lookup (expires i) es) (lookup (payload i) es) now (c.seal (without i es))

  module _ {w : File} {es : List (Key × Text)} (h : c.unseal w ≡ some es) (i : ℕ) where
    put_fresh :
        (p : Text) (t : ℕ)
        → lookup (payload i) es ≡ none
        → put c i p t w ≡ (ok true, c.seal (holding i es p t))
    unfolding put either pure
    put_fresh p t fresh =
        bind_answers (get_entry c (payload i)) _ (get_holding c h (payload i))
        ∙ ap
            (λ held.
              either (not (is_none held)) (pure false)
                (set_entry c (payload i) p
                  >> (set_entry c (expires i) (c.isoformat t) >> pure true))
                w)
            fresh
        ∙ bind_answers (set_entry c (payload i) p) _ (set_holding c h (payload i) p)
        ∙ bind_answers (set_entry c (expires i) (c.isoformat t)) _
            (set_holding c (c.unseal-seal _) (expires i) (c.isoformat t))

    -- A secret that was put under a free id is given out by the first `consume_once` if that comes
    -- before its expiry, and not otherwise; after it, no `consume_once` gives it out again.
    pub secret_given_once :
        (p : Text) (t now : ℕ)
        → lookup (payload i) es ≡ none
        → ((put c i p t >> consume_once c i now) w
            ≡ (ok (if leb t now then none else some p), c.seal (without i (holding i es p t))))
          × ((later : ℕ)
              → (consume_once c i later (c.seal (without i (holding i es p t)))).0 ≡ ok none)
    secret_given_once p t now fresh =
        let x = expires i in
        let q = payload i in
        let there : lookup q (holding i es p t) ≡ some p =
          lookup-put_in q x refl (c.isoformat t) (put_in q p es) ∙ lookup-put_in_self q p es in
        (
          bind_answers (put c i p t) _ (put_fresh p t fresh)
              ∙ consumed (c.unseal-seal (holding i es p t)) i now
              ∙ ap
                  (λ e. (
                    taken c e (lookup q (holding i es p t)) now,
                    c.seal (without i (holding i es p t)),
                  ))
                  (lookup-put_in_self x (c.isoformat t) (put_in q p es))
              ∙ ap
                  (λ r.
                    (taken c (some (c.isoformat t)) r now, c.seal (without i (holding i es p t))))
                  there
              ∙ ap (λ u. (timed u p now, c.seal (without i (holding i es p t))))
                  (c.fromisoformat-isoformat t),
          λ later.
              ap (λ r. r.0) (consumed (c.unseal-seal (without i (holding i es p t))) i later)
              ∙ ap (λ e. taken c e (lookup q (without i (holding i es p t))) later)
                  (lookup-pop_self x (pop q (holding i es p t))),
        )
