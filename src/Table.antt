-- ===== src/Table.antt =====
-- A database table as the list of its rows, with what app/persistence uses of SQL: `UPDATE` with
-- its rowcount, `SELECT`, `LIMIT 1` and `ORDER BY`. A row's `key` is its primary key.
pub mod Laws
use war_thunder_rent_bot.Prelude.{
  ℕ, ◌+◌, ◌≤◌, Bool, true, false, Option, none, some, List, [], ◌∷◌, ltb, nat_beq, ◌&&◌,
  if◌then◌else◌,
}

module _ {ℓ} {Row : Type ℓ} where
  abbrev pub modify : (Row → Bool) → (Row → Row) → Row → Row
  modify p f r = if p r then f r else r

  -- UPDATE table SET f WHERE p
  unfoldable pub update : (Row → Bool) → (Row → Row) → List Row → List Row
  update p f [] = []
  update p f (r ∷ rows) = modify p f r ∷ update p f rows

  -- the rowcount of that statement
  unfoldable pub rowcount : (Row → Bool) → List Row → ℕ
  rowcount p [] = 0
  rowcount p (r ∷ rows) = (if p r then 1 else 0) + rowcount p rows

  -- SELECT * FROM table WHERE p
  unfoldable pub select : (Row → Bool) → List Row → List Row
  select p [] = []
  select p (r ∷ rows) = let rest = select p rows in if p r then r ∷ rest else rest

  -- SELECT * FROM table WHERE p LIMIT 1
  unfoldable pub first : (Row → Bool) → List Row → Option Row
  first p [] = none
  first p (r ∷ rows) = if p r then some r else first p rows

  abbrev pub earlier : (Row → ℕ) → Row → Option Row → Option Row
  earlier column r none = some r
  earlier column r (some s) = if ltb (column s) (column r) then some s else some r

  -- SELECT * FROM table WHERE p ORDER BY column LIMIT 1
  unfoldable pub first_by : (Row → ℕ) → (Row → Bool) → List Row → Option Row
  first_by column p [] = none
  first_by column p (r ∷ rows) =
      let rest = first_by column p rows in if p r then earlier column r rest else rest

  unfoldable pub insert_by : (Row → ℕ) → Row → List Row → List Row
  insert_by column r [] = r ∷ []
  insert_by column r (s ∷ rows) =
      let later = insert_by column r rows in
      if ltb (column s) (column r) then s ∷ later else r ∷ s ∷ rows

  -- ORDER BY column
  unfoldable pub order_by : (Row → ℕ) → List Row → List Row
  unfolding insert_by
  order_by column [] = []
  order_by column (r ∷ rows) = insert_by column r (order_by column rows)

  -- A weight summed over the rows.
  unfoldable pub tally : (Row → ℕ) → List Row → ℕ
  tally w [] = 0
  tally w (r ∷ rows) = w r + tally w rows

module _ {ℓ} {Row : Type ℓ} (key : Row → ℕ) where
  abbrev pub has_key : ℕ → Row → Bool
  has_key i r = nat_beq (key r) i

  -- session.get(Row, i)
  unfoldable pub get : ℕ → List Row → Option Row
  unfolding first
  get i rows = first (has_key i) rows

  -- WHERE id = i AND p
  abbrev pub where_key : ℕ → (Row → Bool) → Row → Bool
  where_key i p r = has_key i r && p r

  -- the flush of a changed object: its row is replaced
  unfoldable pub save : Row → List Row → List Row
  save r rows = update (where_key (key r) (λ _. true)) (λ _. r) rows

  -- No two rows have one primary key.
  abbrev pub HasUniqueKeys : List Row → Type 0
  HasUniqueKeys rows = (i : ℕ) → rowcount (has_key i) rows ≤ 1
