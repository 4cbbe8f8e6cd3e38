-- ===== src/Application/Confirmed/Calls.antt =====
-- What the parts of an action that answered add to the calls.

use war_thunder_rent_bot.Prelude.{◌≡◌, refl, ◌∙◌, ap, sym, true, [], ◌∷◌, ◌++◌}
use war_thunder_rent_bot.Domain.States.{SecurityState}
use war_thunder_rent_bot.Persistence.Session.{Tx, Result, ok, err}
use war_thunder_rent_bot.Application.World.{
  World, App, Port, Call, pure, ◌>>=◌, transact, port, logged,
}
use war_thunder_rent_bot.Application.Ports.{Outside, Settings}
use war_thunder_rent_bot.Application.Security.{Job, set_state}
use war_thunder_rent_bot.Application.Security.Rotate.{promote}

module _ {E : Type 0} where
  bound :
      {A B : Type 0} (f : A → App E B) (r : Result A) (w w' : World E) {b : B}
      → (elim r as (λ _. Result B × World E) [ ok a ↦ f a w | err e ↦ (err e, w) ]) ≡ (ok b, w')
      → (a : A) × (r ≡ ok a) × (f a w ≡ (ok b, w'))
  bound f (ok a) w w' e = (a, refl, e)
  bound f (err x) w w' e = absurd cc

  -- Both parts of a sequence that answered have answered.
  pub bind_answered :
      {A B : Type 0} (m : App E A) (f : A → App E B) (w w' : World E) {b : B}
      → (m >>= f) w ≡ (ok b, w')
      → (a : A) × ((m w).0 ≡ ok a) × (f a ((m w).1) ≡ (ok b, w'))
  unfolding ◌>>=◌
  bind_answered m f w w' e = bound f ((m w).0) ((m w).1) w' e

  known :
      {A B : Type 0} (f : A → App E B) (r : Result A) (w : World E) (a : A)
      → r ≡ ok a
      → (elim r as (λ _. Result B × World E) [ ok a ↦ f a w | err e ↦ (err e, w) ]) ≡ f a w
  known f (ok x) w a e = let same : x ≡ a = cc in ap (λ y. f y w) same
  known f (err x) w a e = absurd cc

  -- A sequence whose first part is known to answer goes on with its answer.
  pub bind_known :
      {A B : Type 0} (m : App E A) (f : A → App E B) (w : World E) (a : A)
      → (m w).0 ≡ ok a
      → (m >>= f) w ≡ f a ((m w).1)
  unfolding ◌>>=◌
  bind_known m f w a h = known f ((m w).0) ((m w).1) a h

  pub transact-calls : {A : Type 0} (m : Tx A) (w : World E) → ((transact m w).1).calls ≡ w.calls
  unfolding transact
  transact-calls m w = refl

  logged_at :
      {A : Type 0} (c : A → Call) (r : Result A) (w : World E) (a : A)
      → r ≡ ok a
      → ((elim r as (λ _. Result A × World E) [
        | ok a ↦ (ok a, record w { calls = w.calls ++ c a ∷ [] })
        | err e ↦ (err e, w)
      ]).1
        ).calls
        ≡ w.calls ++ c a ∷ []
  logged_at c (ok x) w a e = let same : x ≡ a = cc in ap (λ y. w.calls ++ c y ∷ []) same
  logged_at c (err x) w a e = absurd cc

  logged_answer :
      {A : Type 0} (c : A → Call) (r : Result A) (w : World E) (a : A)
      → (elim r as (λ _. Result A × World E) [
        | ok a ↦ (ok a, record w { calls = w.calls ++ c a ∷ [] })
        | err e ↦ (err e, w)
      ]).0
        ≡ ok a
      → r ≡ ok a
  logged_answer c (ok x) w a e = e
  logged_answer c (err x) w a e = absurd cc

  -- An action that answered and is on record is the last call.
  pub logged-appends :
      {A : Type 0} (c : A → Call) (m : App E A) (w : World E) (a : A)
      → (logged c m w).0 ≡ ok a
      → ((logged c m w).1).calls ≡ ((m w).1).calls ++ c a ∷ []
  unfolding logged
  logged-appends c m w a e =
      logged_at c ((m w).0) ((m w).1) a (logged_answer c ((m w).0) ((m w).1) a e)

  -- A call of a port that answered is the last on record.
  pub logged-calls :
      {A : Type 0} (c : A → Call) (f : Port E A) (w : World E) (a : A)
      → (logged c (port f) w).0 ≡ ok a
      → ((logged c (port f) w).1).calls ≡ w.calls ++ c a ∷ []
  unfolding logged port
  logged-calls c f w a e =
      let u = record w { outside = (f w.outside).1 } in
      logged_at c ((f w.outside).0) u a (logged_answer c ((f w.outside).0) u a e)

module _ {E : Type 0} (o : Outside E) (s : Settings) where
  -- A promotion that answered made one call.
  pub promote-calls :
      (j : Job) (w w' : World E)
      → promote o s j w ≡ (ok true, w')
      → w'.calls ≡ w.calls ++ Call.promoted j.account_id ∷ []
  unfolding promote set_state pure
  promote-calls j w w' e =
      let first = set_state o s SecurityState.remote_verified j in
      let call =
        logged (λ d. Call.promoted j.account_id)
          (port (o.secrets.promote_pending_credentials j.account_id)) in
      let last = set_state o s SecurityState.secret_promoted j in
      let (b, p, q) = bind_answered first _ w w' e in
      let w1 = (first w).1 in
      let (u, p1, q1) = bind_answered call _ w1 w' q in
      let w2 = (call w1).1 in
      let (d, p2, q2) = bind_answered last _ w2 w' q1 in
      let done : (last w2).1 ≡ w' = ap (λ r. r.1) q2 in
      sym (ap (λ x. x.calls) done)
      ∙ transact-calls _ w2
      ∙ logged-calls _ _ w1 u p1
      ∙ ap (λ cs. cs ++ Call.promoted j.account_id ∷ []) (transact-calls _ w)
