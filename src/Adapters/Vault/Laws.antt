-- ===== src/Adapters/Vault/Laws.antt =====
-- What a vault reads after it has written.
use mathlib.Core.Path.{subst}
use war_thunder_rent_bot.Prelude.{
  if◌then◌else◌, ap, sym, ◌∙◌, Bool, ◌≡◌, refl, ◌↔◌, true, false, none, some, List, [], ◌∷◌, arith,
  nat_beq_iff,
}
use war_thunder_rent_bot.Persistence.Session.{ok, err}
use war_thunder_rent_bot.Application.World.{Port}
use war_thunder_rent_bot.Adapters.Vault.{
  Prefix, Key, code, same_key, lookup, pop, put_in, Codec, read, or_corrupt, ◌>>=◌, get_entry,
  set_entry, delete_entry, pure, write,
}

code_injective : (a b : Prefix) → code a ≡ code b → a ≡ b
code_injective a b h = ground arith

pub same_key_iff : (a b : Key) → (same_key a b ≡ true) ↔ (a ≡ b)
same_key_iff a b = ground (
  arith,
  nat_beq_iff (code a.prefix) (code b.prefix),
  nat_beq_iff a.id b.id,
  code_injective a.prefix b.prefix,
)

pick_false : {A : Type 0} (x : A) {y : A} {b : Bool} → b ≡ false → (if b then x else y) ≡ y
pick_false x {y} h = ap (λ b. if b then x else y) h

-- A key that is the other one is not this one.
apart : (j k : Key) → same_key j k ≡ false → (m : Key) → same_key k m ≡ true → same_key j m ≡ false
apart j k h m e = subst (λ x. same_key j x ≡ false) ((same_key_iff k m).0 e) h

module _ {Text : Type 0} where
  pub lookup-put_in_self :
      (k : Key) (v : Text) (es : List (Key × Text)) → lookup k (put_in k v es) ≡ some v
  unfolding lookup put_in
  lookup-put_in_self k v [] = ground (arith, same_key_iff k k)
  lookup-put_in_self k v (e ∷ es) = ground (arith, same_key_iff k k, lookup-put_in_self k v es)

  module _ (j k : Key) (h : same_key j k ≡ false) where
    put_over :
        (b : Bool) (v : Text) (e : Key × Text) (es : List (Key × Text))
        → (b ≡ true → same_key j (e.0) ≡ false)
        → lookup j (put_in k v es) ≡ lookup j es
        → lookup j (if b then (k, v) ∷ es else e ∷ put_in k v es) ≡ lookup j (e ∷ es)
    unfolding lookup
    put_over true v e es g ih = pick_false _ h ∙ sym (pick_false _ (g refl))
    put_over false v e es g ih = ap (λ r. if same_key j (e.0) then some (e.1) else r) ih

    pub lookup-put_in : (v : Text) (es : List (Key × Text)) → lookup j (put_in k v es) ≡ lookup j es
    unfolding lookup put_in
    lookup-put_in v [] = pick_false _ h
    lookup-put_in v (e ∷ es) =
        put_over (same_key k (e.0)) v e es (apart j k h (e.0)) (lookup-put_in v es)

    pop_over :
        (b : Bool) (e : Key × Text) (es : List (Key × Text))
        → (b ≡ true → same_key j (e.0) ≡ false)
        → lookup j (pop k es) ≡ lookup j es
        → lookup j (if b then pop k es else e ∷ pop k es) ≡ lookup j (e ∷ es)
    unfolding lookup
    pop_over true e es g ih = ih ∙ sym (pick_false _ (g refl))
    pop_over false e es g ih = ap (λ r. if same_key j (e.0) then some (e.1) else r) ih

    pub lookup-pop : (es : List (Key × Text)) → lookup j (pop k es) ≡ lookup j es
    unfolding lookup pop
    lookup-pop [] = refl
    lookup-pop (e ∷ es) = pop_over (same_key k (e.0)) e es (apart j k h (e.0)) (lookup-pop es)

  pub lookup-pop_self : (k : Key) (es : List (Key × Text)) → lookup k (pop k es) ≡ none
  unfolding lookup pop
  lookup-pop_self k [] = refl
  lookup-pop_self k (e ∷ es) = ground (arith, lookup-pop_self k es)

-- A sequence whose first part answers goes on with its answer.
pub bind_answers :
    {File A B : Type 0} (m : Port File A) (f : A → Port File B) {w v : File} {a : A}
    → m w ≡ (ok a, v)
    → (m >>= f) w ≡ f a v
unfolding ◌>>=◌
bind_answers m f h = ap (λ r. elim (r.0) [ ok a ↦ f a (r.1) | err e ↦ (err e, r.1) ]) h

-- A vault whose file holds these entries.
module _ {File Text : Type 0} (c : Codec File Text) {w : File} {es : List (Key × Text)}
    (h : c.unseal w ≡ some es) where
  read_holding : read c w ≡ (ok es, w)
  unfolding read or_corrupt
  read_holding = ap (λ r. or_corrupt r w) h

  pub get_holding : (k : Key) → get_entry c k w ≡ (ok (lookup k es), w)
  unfolding get_entry pure
  get_holding k = bind_answers (read c) _ read_holding

  pub set_holding : (k : Key) (v : Text) → set_entry c k v w ≡ (ok tt, c.seal (put_in k v es))
  unfolding set_entry write
  set_holding k v = bind_answers (read c) _ read_holding

  pub delete_holding : (k : Key) → delete_entry c k w ≡ (ok tt, c.seal (pop k es))
  unfolding delete_entry write
  delete_holding k = bind_answers (read c) _ read_holding
