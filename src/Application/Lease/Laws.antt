-- ===== src/Application/Lease/Laws.antt =====
-- What the lease guard's answer says.
use mathlib.Core.Path.{subst}
use war_thunder_rent_bot.Prelude.{
  ◌≡◌, refl, ◌∙◌, ap, Bool, true, false, Option, none, some, List, [], ◌∷◌,
}
use war_thunder_rent_bot.Persistence.Session.{Db, Error, Result, ok, err}
use war_thunder_rent_bot.Application.World.{
  World, Port, ◌>>=◌, pure, choose, port, draw, captured, restore, on_result,
}
use war_thunder_rent_bot.Application.Ports.{Outside}
use war_thunder_rent_bot.Application.Lease.{
  Claim, meanwhile, renew, heartbeats, guarded, thread_ended,
}
use war_thunder_rent_bot.Application.Confirmed.Calls.{bind_answered}

module _ {E : Type 0} (o : Outside E) (c : Claim) where
  -- Every renewal of the claim passed, each after what other processes committed before it, up to
  -- one that raised, if any did.
  pub data Renewed : List (Db → Db) → World E → World E → Type 0 where
    none_due : {w : World E} → Renewed [] w w
    renewed :
        {f : Db → Db} {fs : List (Db → Db)} {w w' : World E}
        → (renew o c (record w { db = f w.db })).0 ≡ ok true
        → Renewed fs ((renew o c (record w { db = f w.db })).1) w'
        → Renewed (f ∷ fs) w w'
    raised :
        {f : Db → Db} {fs : List (Db → Db)} {w w' : World E} (e : Error)
        → (renew o c (record w { db = f w.db })).0 ≡ err e
        → thread_ended o true fs ((renew o c (record w { db = f w.db })).1) ≡ (ok true, w')
        → Renewed (f ∷ fs) w w'

  -- A claim that is lost stays lost.
  lost_for_good : (fs : List (Db → Db)) (w : World E) → (thread_ended o false fs w).0 ≡ ok false
  unfolding thread_ended meanwhile ◌>>=◌ pure
  lost_for_good [] w = refl
  lost_for_good (f ∷ fs) w = lost_for_good fs (record w { db = f w.db })

  beaten :
      (r : Result Bool) {f : Db → Db} {fs : List (Db → Db)} {w w' : World E}
      → (renew o c (record w { db = f w.db })).0 ≡ r
      → on_result r
          (λ still. choose still (heartbeats o c fs) (thread_ended o false fs))
          (λ x. thread_ended o true fs)
          ((renew o c (record w { db = f w.db })).1)
        ≡ (ok true, w')
      → ((v : World E) → heartbeats o c fs v ≡ (ok true, w') → Renewed fs v w')
      → Renewed (f ∷ fs) w w'
  unfolding on_result choose
  beaten (ok true) p q later = Renewed.renewed p (later _ q)
  beaten (ok false) {fs = fs} p q later = absurd cc (lost_for_good fs _, ap (λ r. r.0) q)
  beaten (err x) p q later = Renewed.raised x p q

  heartbeats-Renewed :
      (fs : List (Db → Db)) (w w' : World E) → heartbeats o c fs w ≡ (ok true, w') → Renewed fs w w'
  unfolding heartbeats pure ◌>>=◌ meanwhile captured
  heartbeats-Renewed [] w w' e =
      let same : w ≡ w' = ap (λ r. r.1) e in subst (λ v. Renewed [] w v) same Renewed.none_due
  heartbeats-Renewed (f ∷ fs) w w' e =
      beaten ((renew o c (record w { db = f w.db })).0) refl e (λ v x. heartbeats-Renewed fs v w' x)

  -- from the heartbeats on
  ended :
      {R : Type 0} (answer : Result R) (fs : List (Db → Db)) (w w' : World E) (r : R)
      → (heartbeats o c fs >>= λ owned.
            restore answer >>= λ a. pure {A = Bool × Option R} (owned, some a))
          w
        ≡ (ok (true, some r), w')
      → (answer ≡ ok r) × Renewed fs w w'
  unfolding restore pure
  ended answer fs w w' r e =
      let beats = heartbeats o c fs in
      let (owned, p, q) = bind_answered beats _ w w' e in
      let (a, p1, q1) = bind_answered (restore answer) _ ((beats w).1) w' q in
      let kept : owned ≡ true = cc in
      let same : a ≡ r = cc in
      let last : (beats w).1 ≡ w' = ap (λ x. x.1) q1 in
      let first : (beats w).0 ≡ ok true = p ∙ ap (λ b. ok b) kept in
      (p1 ∙ ap (λ x. ok x) same, heartbeats-Renewed fs w w' (λ i. (first i, last i)))

  began :
      {R : Type 0} (action : Port E R) (first : Bool) (w w' : World E) (r : R)
      → choose first
          (captured (port action) >>= λ result. draw o.elapsed >>= λ beats.
            heartbeats o c beats >>= λ owned.
            restore result >>= λ a. pure {A = Bool × Option R} (owned, some a))
          (pure (false, none))
          w
        ≡ (ok (true, some r), w')
      → let called = action w.outside in
        let beats = o.elapsed (called.1) in
        (first ≡ true) × (called.0 ≡ ok r) × Renewed (beats.0) (record w { outside = beats.1 }) w'
  unfolding choose captured port draw ◌>>=◌ pure
  began action true w w' r e =
      let called = action w.outside in
      let beats = o.elapsed (called.1) in
      let (p, q) = ended (called.0) (beats.0) (record w { outside = beats.1 }) w' r e in
      (refl, p, q)
  began action false w w' r e = absurd cc

  -- The guard answers that the claim was owned throughout only if the first renewal passed and the
  -- renewal at every heartbeat did, up to one that raised, if any did; the result is then the action's.
  pub guarded_owned :
      {R : Type 0} (action : Port E R) (w w' : World E) (r : R)
      → guarded o c action w ≡ (ok (true, some r), w')
      → let w1 = (renew o c w).1 in
        let called = action w1.outside in
        let beats = o.elapsed (called.1) in
        ((renew o c w).0 ≡ ok true)
        × (called.0 ≡ ok r)
        × Renewed (beats.0) (record w1 { outside = beats.1 }) w'
  unfolding guarded
  guarded_owned action w w' r e =
      let (first, p, q) = bind_answered (renew o c) _ w w' e in
      let (h, answer, kept) = began action first ((renew o c w).1) w' r q in
      (p ∙ ap (λ b. ok b) h, answer, kept)
