-- ===== src/Adapters/Secrets/Laws.antt =====
-- What the production stores give back of what they were given.
use war_thunder_rent_bot.Prelude.{
  ℕ, ◌≡◌, refl, ◌∙◌, ap, sym, false, Option, none, some, List, nat_beq,
}
use war_thunder_rent_bot.Domain.PixelStorm.{Credentials}
use war_thunder_rent_bot.Persistence.Session.{Result, ok, err, runtime}
use war_thunder_rent_bot.Adapters.Vault.{
  Prefix, Key, Codec, lookup, pop, put_in, ◌>>◌, pure, or_corrupt, get_entry, set_entry,
  delete_entry,
}
use war_thunder_rent_bot.Adapters.Vault.Laws.{
  bind_answers, get_holding, set_holding, delete_holding, lookup-put_in_self, lookup-put_in,
  lookup-pop_self, lookup-pop,
}
use war_thunder_rent_bot.Adapters.Secrets.{
  key, if_found, promote_key, stored_credentials, get_current_credentials, get_pending_credentials,
  set_pending_credentials, promote_pending_credentials,
}

module _ {File Text : Type 0} (c : Codec File Text) {w : File} {es : List (Key × Text)}
    (h : c.unseal w ≡ some es) where
  -- The vault after a promotion of what the pending key holds.
  promoted :
      (source target : Key) (v : Text)
      → lookup source es ≡ some v
      → promote_key c source target w ≡ (ok tt, c.seal (pop source (put_in target v es)))
  unfolding promote_key if_found
  promoted source target v e =
      bind_answers (get_entry c source) _ (get_holding c h source)
      ∙ ap
          (λ found. if_found found (λ v. set_entry c target v >> delete_entry c source) (pure tt) w)
          e
      ∙ bind_answers (set_entry c target v) _ (set_holding c h target v)
      ∙ delete_holding c (c.unseal-seal _) source

-- `_credentials` of what a key holds
abbrev pair_of : Option (Option Credentials) → Result (Option Credentials)
pair_of (some pair) = ok pair
pair_of none = err runtime

abbrev answer_of :
    {File Text : Type 0} → Codec File Text → Option Text → Result (Option Credentials)
answer_of c none = ok none
answer_of c (some v) = pair_of (c.loads v)

module _ {File Text : Type 0} (c : Codec File Text) where
  loaded : (pair : Option (Option Credentials)) (w : File) → or_corrupt pair w ≡ (pair_of pair, w)
  unfolding or_corrupt
  loaded (some pair) w = refl
  loaded none w = refl

  found_is :
      (found : Option Text) (w : File)
      → if_found found (λ v. or_corrupt (c.loads v)) (pure none) w ≡ (answer_of c found, w)
  unfolding if_found pure
  found_is (some v) w = loaded (c.loads v) w
  found_is none w = refl

  stored_is :
      {w : File} {es : List (Key × Text)}
      → c.unseal w ≡ some es
      → (k : Key) → stored_credentials c k w ≡ (answer_of c (lookup k es), w)
  unfolding stored_credentials
  stored_is {w} {es} h k =
      bind_answers (get_entry c k) _ (get_holding c h k) ∙ found_is (lookup k es) w

  -- the entries after `set_pending_credentials`, and after the promotion
  abbrev kept : List (Key × Text) → ℕ → Credentials → List (Key × Text)
  kept es i pair = put_in (key Prefix.pending_credentials i) (c.dumps pair) es

  abbrev pub moved : List (Key × Text) → ℕ → Credentials → List (Key × Text)
  moved es i pair =
      pop (key Prefix.pending_credentials i)
        (put_in (key Prefix.credentials i) (c.dumps pair) (kept es i pair))

  module _ {w : File} {es : List (Key × Text)} (h : c.unseal w ≡ some es) (i : ℕ)
      (pair : Credentials) where
    -- Credentials that were set as pending and promoted are the account's current ones, none are
    -- pending any more, and those of other accounts are as they were.
    pub promoted_credentials :
        ((set_pending_credentials c i pair >> promote_pending_credentials c i) w
          ≡ (ok tt, c.seal (moved es i pair)))
        × (get_current_credentials c i (c.seal (moved es i pair))
            ≡ (ok (some pair), c.seal (moved es i pair)))
        × (get_pending_credentials c i (c.seal (moved es i pair))
            ≡ (ok none, c.seal (moved es i pair)))
        × ((j : ℕ)
            → nat_beq j i ≡ false
            → (get_current_credentials c j (c.seal (moved es i pair))).0
              ≡ (get_current_credentials c j w).0)
    unfolding set_pending_credentials promote_pending_credentials get_current_credentials
        get_pending_credentials
    promoted_credentials =
        let p = key Prefix.pending_credentials i in
        let k = key Prefix.credentials i in
        let d = c.dumps pair in
        let at_k : lookup k (moved es i pair) ≡ some d =
          lookup-pop k p refl (put_in k d (kept es i pair))
          ∙ lookup-put_in_self k d (kept es i pair) in
        (
          bind_answers (set_entry c p d) _ (set_holding c h p d)
              ∙ promoted c (c.unseal-seal (kept es i pair)) p k d (lookup-put_in_self p d es),
          stored_is (c.unseal-seal (moved es i pair)) k
              ∙ ap (λ x. (answer_of c x, c.seal (moved es i pair))) at_k
              ∙ ap (λ x. (pair_of x, c.seal (moved es i pair))) (c.loads-dumps pair),
          stored_is (c.unseal-seal (moved es i pair)) p
              ∙ ap (λ x. (answer_of c x, c.seal (moved es i pair)))
                  (lookup-pop_self p (put_in k d (kept es i pair))),
          λ j other.
              let q = key Prefix.credentials j in
              let same : lookup q (moved es i pair) ≡ lookup q es =
                lookup-pop q p refl (put_in k d (kept es i pair))
                ∙ lookup-put_in q k other d (kept es i pair)
                ∙ lookup-put_in q p refl d es in
              ap (λ r. r.0) (stored_is (c.unseal-seal (moved es i pair)) q)
              ∙ ap (λ x. answer_of c x) same
              ∙ sym (ap (λ r. r.0) (stored_is h q)),
        )
