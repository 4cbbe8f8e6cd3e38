-- ===== src/Persistence/Session/Post.antt =====
-- Partial correctness of a transaction: what holds of the database that it commits. A transaction
-- that raises is rolled back and commits nothing. One rule for each way to build an action.
use mathlib.Core.Path.{subst₂}
use war_thunder_rent_bot.Prelude.{
  ℕ, ◌≡◌, refl, Bool, true, false, Option, none, some, if◌then◌else◌, inl, inr,
}
use war_thunder_rent_bot.Table.Laws.{holds}
use war_thunder_rent_bot.Persistence.Rows.{OperationRow, RentalRow, AccountRow}
use war_thunder_rent_bot.Persistence.Session.{
  Db, Error, Result, ok, err, require_some, cas_operation, operation_of, rental_of, cas_rental,
  account_of, cas_account,
}
use war_thunder_rent_bot.Persistence.Session.Laws.{
  HasKeys, with_operation, cas_operation_cases, with_rental, cas_rental_cases, with_account,
  cas_account_cases,
}

pub data Post {A : Type 0} (Q : A → Db → Type 0) : Result (A × Db) → Type 0 where
  returns : {a : A} {db : Db} → Q a db → Post Q (ok (a, db))
  raises : {e : Error} → Post Q (err e)

module _ {A : Type 0} {Q : A → Db → Type 0} where
  Post-eq : (r : Result (A × Db)) (a : A) (db : Db) → Post Q r → r ≡ ok (a, db) → Q a db
  Post-eq (ok (b, db')) a db (returns q) e =
      let e0 : b ≡ a = cc in let e1 : db' ≡ db = cc in subst₂ Q e0 e1 q
  Post-eq (err x) a db h e = absurd cc

  -- What a transaction that returned has established.
  pub Post-ok : {r : Result (A × Db)} {a : A} {db : Db} → Post Q r → r ≡ ok (a, db) → Q a db
  Post-ok {r} {a} {db} h e = Post-eq r a db h e

module _ {B : Type 0} {Q : B → Db → Type 0} where
  pub seq_if :
      (b : Bool) {m n : Result (B × Db)}
      → (b ≡ true → Post Q m)
      → (b ≡ false → Post Q n)
      → Post Q (if b then m else n)
  seq_if true hm hn = hm refl
  seq_if false hm hn = hn refl

  module _ {A : Type 0} (f : A → Db → Result (B × Db)) where
    pub seq :
        {R : A → Db → Type 0} {r : Result (A × Db)}
        → Post R r
        → ((a : A) (db : Db) → R a db → Post Q (f a db))
        → Post Q (elim r [ ok (a, db) ↦ f a db | err e ↦ err e ])
    seq (returns {a} {db} h) k = k a db h
    seq raises k = raises

    pub seq_some :
        (o : Option A) (e : Error) (db : Db)
        → ((a : A) → o ≡ some a → Post Q (f a db))
        → Post Q (elim (require_some o e db) [ ok (a, db') ↦ f a db' | err x ↦ err x ])
    seq_some none e db k = raises
    seq_some (some a) e db k = k a refl

  module _ (f : Bool → Db → Result (B × Db)) where
    pub seq_cas_operation :
        (i : ℕ) (p : OperationRow → Bool) (g : OperationRow → OperationRow) (db : Db)
        → HasKeys db
        → ((r : OperationRow) → (g r).id ≡ r.id)
        → ((r : OperationRow)
            → operation_of db i ≡ some r
            → p r ≡ true
            → Post Q (f true (with_operation (g r) db)))
        → (holds p (operation_of db i) ≡ false → Post Q (f false db))
        → Post Q (elim (cas_operation i p g db) [ ok (a, db') ↦ f a db' | err x ↦ err x ])
    seq_cas_operation i p g db k same hit miss = elim (cas_operation_cases i p g db k same) [
      | inl (r, found, e, id, eq) ↦ rw eq (hit r found e)
      | inr (h, eq) ↦ rw eq (miss h)
    ]

    pub seq_cas_rental :
        (i : ℕ) (p : RentalRow → Bool) (g : RentalRow → RentalRow) (db : Db)
        → HasKeys db
        → ((r : RentalRow) → (g r).id ≡ r.id)
        → ((r : RentalRow)
            → rental_of db i ≡ some r
            → p r ≡ true
            → Post Q (f true (with_rental (g r) db)))
        → (holds p (rental_of db i) ≡ false → Post Q (f false db))
        → Post Q (elim (cas_rental i p g db) [ ok (a, db') ↦ f a db' | err x ↦ err x ])
    seq_cas_rental i p g db k same hit miss = elim (cas_rental_cases i p g db k same) [
      | inl (r, found, e, id, eq) ↦ rw eq (hit r found e)
      | inr (h, eq) ↦ rw eq (miss h)
    ]

    pub seq_cas_account :
        (i : ℕ) (p : AccountRow → Bool) (g : AccountRow → AccountRow) (db : Db)
        → HasKeys db
        → ((r : AccountRow) → (g r).id ≡ r.id)
        → ((r : AccountRow)
            → account_of db i ≡ some r
            → p r ≡ true
            → Post Q (f true (with_account (g r) db)))
        → (holds p (account_of db i) ≡ false → Post Q (f false db))
        → Post Q (elim (cas_account i p g db) [ ok (a, db') ↦ f a db' | err x ↦ err x ])
    seq_cas_account i p g db k same hit miss = elim (cas_account_cases i p g db k same) [
      | inl (r, found, e, id, eq) ↦ rw eq (hit r found e)
      | inr (h, eq) ↦ rw eq (miss h)
    ]

-- A weaker conclusion.
pub Post-map :
    {A : Type 0} {P Q : A → Db → Type 0} {r : Result (A × Db)}
    → Post P r
    → ((a : A) (db : Db) → P a db → Q a db)
    → Post Q r
Post-map (returns {a} {db} p) f = returns (f a db p)
Post-map raises f = raises
