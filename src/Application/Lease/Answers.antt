-- ===== src/Application/Lease/Answers.antt =====
-- The lease guard ends: when the action answers, so does the guard.
use war_thunder_rent_bot.Prelude.{
  ◌≡◌, refl, ◌∙◌, ap, Bool, true, false, Option, none, some, List, [], ◌∷◌,
}
use war_thunder_rent_bot.Persistence.Session.{Db, Result, ok, err}
use war_thunder_rent_bot.Application.World.{
  World, App, Port, ◌>>=◌, pure, choose, port, draw, captured, restore, on_result,
}
use war_thunder_rent_bot.Application.Ports.{Outside}
use war_thunder_rent_bot.Application.Lease.{
  Claim, meanwhile, renew, thread_ended, heartbeats, guarded,
}
use war_thunder_rent_bot.Application.Confirmed.Calls.{bind_known}

module _ {E : Type 0} (o : Outside E) (c : Claim) where
  ended_answers :
      (owned : Bool) (fs : List (Db → Db)) (w : World E) → (thread_ended o owned fs w).0 ≡ ok owned
  unfolding thread_ended meanwhile ◌>>=◌ pure
  ended_answers owned [] w = refl
  ended_answers owned (f ∷ fs) w = ended_answers owned fs (record w { db = f w.db })

  -- What follows a renewal, an exception included, answers.
  beat_answers :
      (r : Result Bool) (fs : List (Db → Db)) (w : World E)
      → ((v : World E) → (b : Bool) × ((heartbeats o c fs v).0 ≡ ok b))
      → (b : Bool) × ((on_result r
            (λ still. choose still (heartbeats o c fs) (thread_ended o false fs))
            (λ x. thread_ended o true fs)
            w).0
          ≡ ok b)
  unfolding on_result choose
  beat_answers (ok true) fs w later = later w
  beat_answers (ok false) fs w later = (false, ended_answers false fs w)
  beat_answers (err x) fs w later = (true, ended_answers true fs w)

  heartbeats_answer :
      (fs : List (Db → Db)) (w : World E) → (b : Bool) × ((heartbeats o c fs w).0 ≡ ok b)
  unfolding heartbeats meanwhile pure ◌>>=◌ captured
  heartbeats_answer [] w = (true, refl)
  heartbeats_answer (f ∷ fs) w =
      let r = renew o c (record w { db = f w.db }) in
      beat_answers (r.0) fs (r.1) (heartbeats_answer fs)

  -- Where the claim is owned at the start and the action answers, the guard answers with the
  -- action's result, whatever happens at the heartbeats: renewals that are refused or raise, and
  -- what other processes commit.
  pub guarded_answers :
      {R : Type 0} (action : Port E R) (w : World E) (r : R)
      → (renew o c w).0 ≡ ok true
      → (action ((renew o c w).1).outside).0 ≡ ok r
      → (owned : Bool) × ((guarded o c action w).0 ≡ ok (owned, some r))
  unfolding guarded choose captured port draw restore pure ◌>>=◌
  guarded_answers {R} action w r first answer =
      let w1 = (renew o c w).1 in
      let called = action w1.outside in
      let beats = o.elapsed (called.1) in
      let w3 = record w1 { outside = beats.1 } in
      let m = heartbeats o c (beats.0) in
      let (owned, e) = heartbeats_answer (beats.0) w3 in
      let ends : Bool → App E (Bool × Option R) =
        λ b. restore (called.0) >>= λ a. pure (b, some a) in
      let goes_on : Bool → App E (Bool × Option R) = λ b.
        choose b
          (captured (port action) >>= λ result. draw o.elapsed >>= λ fs.
            heartbeats o c fs >>= λ d. restore result >>= λ a. pure (d, some a))
          (pure (false, none)) in
      (
        owned,
        ap (λ x. x.0) (bind_known (renew o c) goes_on w true first)
            ∙ ap (λ x. x.0) (bind_known m ends w3 owned e)
            ∙ ap (λ x. ((restore x >>= λ a. pure (owned, some a)) ((m w3).1)).0) answer,
      )
