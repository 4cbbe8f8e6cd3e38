-- ===== src/Application/Confirmed/Verified.antt =====
-- The places where a security operation succeeds: a verification, and what follows it.
use mathlib.Core.Path.{subst}
use war_thunder_rent_bot.Prelude.{
  ◌≡◌, refl, ◌∙◌, ap, sym, Bool, true, ◌⊎◌, inl, inr, some, [], ◌∷◌, ◌++◌, List,
}
use war_thunder_rent_bot.Domain.PixelStorm.{
  Credentials, PixelStormCredentialResult, PixelStormRevocationResult, is_valid,
  is_supported_verified,
}
use war_thunder_rent_bot.Persistence.Session.{Result, ok}
use war_thunder_rent_bot.Application.World.{World, App, Call, ◌>>=◌, pure, choose, logged}
use war_thunder_rent_bot.Application.Ports.{Outside, Settings}
use war_thunder_rent_bot.Application.Security.{Job, verify_credentials, verify_revocation}
use war_thunder_rent_bot.Application.Security.Rotate.{promote}
use war_thunder_rent_bot.Application.Confirmed.{Earns, Any}
use war_thunder_rent_bot.Application.Confirmed.Preserved.{Keeps}
use war_thunder_rent_bot.Application.Confirmed.Known.{
  IsRotated, IsRevoked, PendingIs, CurrentIs, LastRevoked, PendingIs-verified, pending_is,
  current_is,
}
use war_thunder_rent_bot.Application.Confirmed.Calls.{
  bind_answered, logged-appends, logged-calls, promote-calls,
}

append_one : {A : Type 0} (cs : List A) (x y : A) → (cs ++ x ∷ []) ++ y ∷ [] ≡ cs ++ x ∷ y ∷ []
append_one [] x y = refl
append_one (c ∷ cs) x y = ap (λ ds. c ∷ ds) (append_one cs x y)

module _ {E : Type 0} where
  module _ (m n : App E Bool) (w : World E) {x : Result Bool × World E} where
    if_valid :
        (r : PixelStormCredentialResult)
        → choose (is_valid r) m n w ≡ x
        → ((r ≡ PixelStormCredentialResult.valid) × (m w ≡ x)) ⊎ (n w ≡ x)
    unfolding choose
    if_valid PixelStormCredentialResult.valid e = inl (refl, e)
    if_valid PixelStormCredentialResult.invalid e = inr e
    if_valid PixelStormCredentialResult.pixel_pass_required e = inr e
    if_valid PixelStormCredentialResult.challenge e = inr e
    if_valid PixelStormCredentialResult.wrong_region e = inr e
    if_valid PixelStormCredentialResult.unknown_ui e = inr e
    if_valid PixelStormCredentialResult.ambiguous e = inr e
    if_valid PixelStormCredentialResult.unavailable e = inr e

    if_verified :
        (r : PixelStormRevocationResult)
        → choose (is_supported_verified r) m n w ≡ x
        → ((r ≡ PixelStormRevocationResult.supported_verified) × (m w ≡ x)) ⊎ (n w ≡ x)
    unfolding choose
    if_verified PixelStormRevocationResult.supported_verified e = inl (refl, e)
    if_verified PixelStormRevocationResult.unsupported e = inr e
    if_verified PixelStormRevocationResult.partial e = inr e
    if_verified PixelStormRevocationResult.ambiguous e = inr e
    if_verified PixelStormRevocationResult.challenge e = inr e
    if_verified PixelStormRevocationResult.unknown_ui e = inr e

  returned : {A : Type 0} (a : A) {b : A} {w w' : World E} → pure a w ≡ (ok b, w') → w ≡ w'
  unfolding pure
  returned a e = ap (λ r. r.1) e

-- A call on record tells something that the rest may use.
pub Earns-told :
    {E A : Type 0} {P Q : List Call → Type 0} (R : A → List Call → Type 0) (c : A → Call)
    {m : App E A} {f : A → App E Bool}
    → Keeps P m
    → ((a : A) (cs : List Call) → P cs → R a (cs ++ c a ∷ []))
    → ((a : A) → Earns (R a) Q (f a))
    → Earns P Q (logged c m >>= f)
Earns-told R c {m} {f} k tells h = record {
  earned = λ w w' known e.
      let (a, p, q) = bind_answered (logged c m) f w w' e in
      (h a).earned ((logged c m w).1) w'
        (subst (R a) (sym (logged-appends c m w a p)) (tells a ((m w).1).calls (k.kept w known))) q;
}

module _ {E : Type 0} (o : Outside E) (s : Settings) (j : Job) where
  -- The pending credentials are valid: promoted.
  pub Earns-promoted :
      (c : Credentials) {n : App E Bool}
      → Earns (PendingIs j.account_id (some c)) (IsRotated j) n
      → Earns
          (PendingIs j.account_id (some c))
          (IsRotated j)
          (verify_credentials o s j.account_id c >>= λ r. choose (is_valid r) (promote o s j) n)
  unfolding verify_credentials IsRotated
  Earns-promoted c {n} h = record {
    earned = λ w w' known e.
        let m = verify_credentials o s j.account_id c in
        let (r, p, q) = bind_answered m _ w w' e in
        let seen = logged-calls _ _ w r p in
        elim (if_valid (promote o s j) n ((m w).1) r q) [
          | inr k ↦
              h.earned ((m w).1) w'
                (subst (PendingIs j.account_id (some c)) (sym seen)
                  ((PendingIs-verified j.account_id (some c) j.account_id c r).stays w.calls known))
                k
          | inl (valid, k) ↦ (
            c,
            w.calls,
            inr (
              pending_is j.account_id (some c) w.calls known,
              promote-calls o s j ((m w).1) w' k
                  ∙ ap (λ cs. cs ++ Call.promoted j.account_id ∷ []) seen
                  ∙ append_one w.calls _ _
                  ∙ ap
                      (λ x.
                        w.calls ++ Call.verified j.account_id c x ∷ Call.promoted j.account_id ∷ [])
                      valid,
            ),
          )
        ];
  }

  -- The current credentials are still valid.
  pub Earns-current :
      (c : Credentials) {n : App E Bool}
      → j.recovery ≡ true
      → Earns Any (IsRotated j) n
      → Earns
          (CurrentIs j.account_id (some c))
          (IsRotated j)
          (verify_credentials o s j.account_id c >>= λ r. choose (is_valid r) (pure true) n)
  unfolding verify_credentials IsRotated Any
  Earns-current c {n} recovers h = record {
    earned = λ w w' known e.
        let m = verify_credentials o s j.account_id c in
        let (r, p, q) = bind_answered m _ w w' e in
        elim (if_valid (pure true) n ((m w).1) r q) [
          | inr k ↦ h.earned ((m w).1) w' tt k
          | inl (valid, k) ↦ (
            c,
            w.calls,
            inl (
              recovers,
              current_is j.account_id (some c) w.calls known,
              sym (ap (λ v. v.calls) (returned true k))
                  ∙ logged-calls _ _ w r p
                  ∙ ap (λ x. w.calls ++ Call.verified j.account_id c x ∷ []) valid,
            ),
          )
        ];
  }

  -- The sessions are found revoked.
  pub Earns-confirmed :
      {P : List Call → Type 0} {n : App E Bool}
      → ((cs : List Call)
          → P cs
          → IsRevoked j (
              cs
              ++ Call.checked_revocation j.account_id PixelStormRevocationResult.supported_verified
                ∷ []))
      → Earns Any (IsRevoked j) n
      → Earns P (IsRevoked j) (
          verify_revocation o s j.account_id >>= λ r.
          choose (is_supported_verified r) (pure true) n)
  unfolding verify_revocation Any
  Earns-confirmed {P} {n} done h = record {
    earned = λ w w' known e.
        let m = verify_revocation o s j.account_id in
        let (r, p, q) = bind_answered m _ w w' e in
        elim (if_verified (pure true) n ((m w).1) r q) [
          | inr k ↦ h.earned ((m w).1) w' tt k
          | inl (verified, k) ↦
              subst (IsRevoked j)
                (sym (
                  sym (ap (λ v. v.calls) (returned true k))
                  ∙ logged-calls _ _ w r p
                  ∙ ap (λ x. w.calls ++ Call.checked_revocation j.account_id x ∷ []) verified))
                (done w.calls known)
        ];
  }

  pub recovery-IsRevoked :
      j.recovery ≡ true
      → (cs : List Call) → Any cs
      → IsRevoked j (
          cs
          ++ Call.checked_revocation j.account_id PixelStormRevocationResult.supported_verified
            ∷ [])
  unfolding IsRevoked
  recovery-IsRevoked recovers cs known = (cs, inl (recovers, refl))

  pub then-IsRevoked :
      (r : PixelStormRevocationResult)
      → r ≡ PixelStormRevocationResult.supported_verified
      → (cs : List Call) → LastRevoked j.account_id (true, some r) cs
      → IsRevoked j (
          cs
          ++ Call.checked_revocation j.account_id PixelStormRevocationResult.supported_verified
            ∷ [])
  unfolding IsRevoked LastRevoked
  then-IsRevoked r same cs (before, e) =
      let last =
        Call.checked_revocation j.account_id PixelStormRevocationResult.supported_verified in
      (
        before,
        inr (
            ap (λ ds. ds ++ last ∷ []) e
            ∙ append_one before (Call.revoked j.account_id (true, some r)) last
            ∙ ap (λ x. before ++ Call.revoked j.account_id (true, some x) ∷ last ∷ []) same),
      )
