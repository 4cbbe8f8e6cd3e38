-- ===== src/Table/Laws.antt =====
-- The laws of tables that the repositories share: lookup, rowcount and tally under an update by
-- primary key and under an insertion.
use mathlib.Core.Option
use mathlib.Core.Path.{subst}
use war_thunder_rent_bot.Prelude.{
  ℕ, ◌+◌, ◌≤◌, ◌≡◌, refl, Bool, true, false, Option, none, some, List, [], ◌∷◌, ◌++◌, arith,
  nat_beq, if◌then◌else◌, nat_beq_iff,
}
use war_thunder_rent_bot.Table.{
  modify, update, rowcount, first, first_by, tally, has_key, where_key, get, save, HasUniqueKeys,
}

-- What a row that may be missing satisfies, and weighs.
module _ {ℓ} {Row : Type ℓ} where
  abbrev pub holds : (Row → Bool) → Option Row → Bool
  holds p none = false
  holds p (some r) = p r

  abbrev pub weigh : (Row → ℕ) → Option Row → ℕ
  weigh w none = 0
  weigh w (some r) = w r

  pub tally-append :
      (w : Row → ℕ) (rows : List Row) (r : Row) → tally w (rows ++ r ∷ []) ≡ tally w rows + w r
  unfolding tally
  tally-append w [] r = omega arith
  tally-append w (s ∷ rows) r = omega (arith, tally-append w rows r)

module _ {ℓ} {Row : Type ℓ} (key : Row → ℕ) where
  -- The update changes no key of the rows that it hits.
  abbrev pub KeepsKey : (Row → Bool) → (Row → Row) → Type ℓ
  KeepsKey p f = (r : Row) → p r ≡ true → key (f r) ≡ key r

  pub key-get : (i : ℕ) (rows : List Row) {r : Row} → get key i rows ≡ some r → key r ≡ i
  unfolding get
  key-get i [] h = cc
  key-get i (s ∷ rows) {r} h = ground (arith, key-get i rows {r = r})

  pub get-update :
      (p : Row → Bool) (f : Row → Row)
      → KeepsKey p f
      → (i : ℕ) (rows : List Row)
      → get key i (update p f rows) ≡ Option.map (modify p f) (get key i rows)
  unfolding get update
  get-update p f h i [] = refl
  get-update p f h i (r ∷ rows) = ground (arith, h r, get-update p f h i rows)

  pub rowcount-update :
      (p : Row → Bool) (f : Row → Row)
      → KeepsKey p f
      → (i : ℕ) (rows : List Row)
      → rowcount (has_key key i) (update p f rows) ≡ rowcount (has_key key i) rows
  unfolding rowcount update
  rowcount-update p f h i [] = refl
  rowcount-update p f h i (r ∷ rows) = ground (arith, h r, rowcount-update p f h i rows)

  get-none : (i : ℕ) (rows : List Row) → rowcount (has_key key i) rows ≡ 0 → get key i rows ≡ none
  unfolding rowcount get
  get-none i [] h = refl
  get-none i (r ∷ rows) h = ground (arith, get-none i rows)

  rowcount_none :
      (i : ℕ) (p : Row → Bool) (rows : List Row)
      → rowcount (has_key key i) rows ≡ 0
      → rowcount (where_key key i p) rows ≡ 0
  unfolding rowcount
  rowcount_none i p [] h = refl
  rowcount_none i p (r ∷ rows) h = ground (arith, rowcount_none i p rows)

  update_none :
      (i : ℕ) (p : Row → Bool) (f : Row → Row) (rows : List Row)
      → rowcount (has_key key i) rows ≡ 0
      → update (where_key key i p) f rows ≡ rows
  unfolding rowcount update
  update_none i p f [] h = refl
  update_none i p f (r ∷ rows) h = ground (arith, update_none i p f rows)

  -- With unique keys, `WHERE id = i AND p` hits one row exactly if the row of key `i` satisfies `p`.
  pub rowcount-where_key :
      (i : ℕ) (p : Row → Bool) (rows : List Row)
      → rowcount (has_key key i) rows ≤ 1
      → rowcount (where_key key i p) rows ≡ (if holds p (get key i rows) then 1 else 0)
  unfolding rowcount get
  rowcount-where_key i p [] h = refl
  rowcount-where_key i p (r ∷ rows) h =
      ground (arith, rowcount-where_key i p rows, rowcount_none i p rows)

  pub get-where_key :
      (i : ℕ) (p : Row → Bool) (f : Row → Row)
      → KeepsKey (where_key key i p) f
      → (j : ℕ) (rows : List Row)
      → get key j (update (where_key key i p) f rows)
        ≡ (if nat_beq i j then Option.map (modify p f) (get key i rows) else get key j rows)
  unfolding get update
  get-where_key i p f h j [] = ground arith
  get-where_key i p f h j (r ∷ rows) = ground (arith, h r, get-where_key i p f h j rows)

  pub tally-where_key :
      (w : Row → ℕ) (i : ℕ) (p : Row → Bool) (f : Row → Row) (rows : List Row)
      → rowcount (has_key key i) rows ≤ 1
      → tally w (update (where_key key i p) f rows) + weigh w (get key i rows)
        ≡ tally w rows + weigh w (Option.map (modify p f) (get key i rows))
  unfolding rowcount get update tally
  tally-where_key w i p f [] h = refl
  tally-where_key w i p f (r ∷ rows) h =
      ground (arith, tally-where_key w i p f rows, update_none i p f rows, get-none i rows)

  pub get-append :
      (i : ℕ) (rows : List Row) (r : Row)
      → get key i rows ≡ none
      → get key i (rows ++ r ∷ []) ≡ (if nat_beq (key r) i then some r else none)
  unfolding get
  get-append i [] r h = refl
  get-append i (s ∷ rows) r h = ground (arith, get-append i rows r)

  pub get-append_some :
      (i : ℕ) (rows : List Row) (r : Row) {s : Row}
      → get key i rows ≡ some s
      → get key i (rows ++ r ∷ []) ≡ some s
  unfolding get
  get-append_some i [] r h = cc
  get-append_some i (t ∷ rows) r {s} h = ground (arith, get-append_some i rows r {s = s})

  rowcount_of_none :
      (i : ℕ) (rows : List Row) → get key i rows ≡ none → rowcount (has_key key i) rows ≡ 0
  unfolding rowcount get
  rowcount_of_none i [] h = refl
  rowcount_of_none i (r ∷ rows) h = ground (arith, rowcount_of_none i rows)

  rowcount-append :
      (i : ℕ) (rows : List Row) (r : Row)
      → rowcount (has_key key i) (rows ++ r ∷ [])
        ≡ rowcount (has_key key i) rows + (if nat_beq (key r) i then 1 else 0)
  unfolding rowcount
  rowcount-append i [] r = omega arith
  rowcount-append i (s ∷ rows) r = omega (arith, rowcount-append i rows r)

  -- An insertion that the primary key's constraint lets through keeps the keys unique.
  pub append-HasUniqueKeys :
      (rows : List Row) (r : Row)
      → get key (key r) rows ≡ none
      → HasUniqueKeys key rows
      → HasUniqueKeys key (rows ++ r ∷ [])
  append-HasUniqueKeys rows r h u i =
      ground (arith, u i, rowcount-append i rows r, rowcount_of_none (key r) rows)

module _ {ℓ} {Row : Type ℓ} (key : Row → ℕ) where
  rowcount_of_some :
      (i : ℕ) (rows : List Row) {r : Row}
      → get key i rows ≡ some r
      → 1 ≤ rowcount (has_key key i) rows
  unfolding rowcount get
  rowcount_of_some i [] h = cc
  rowcount_of_some i (s ∷ rows) {r} h = ground (arith, rowcount_of_some i rows {r = r})

  pub holds-first :
      (p : Row → Bool) (rows : List Row) {r : Row} → first p rows ≡ some r → p r ≡ true
  unfolding first
  holds-first p [] h = cc
  holds-first p (s ∷ rows) {r} h = ground (arith, holds-first p rows {r = r})

-- The equations between whole tables are stated for rows of `Type 0`, as all of the program's are.
module _ {Row : Type 0} (key : Row → ℕ) where
  update_all :
      (i : ℕ) (p : Row → Bool) (f : Row → Row) (rows : List Row) {r : Row}
      → rowcount (has_key key i) rows ≤ 1
      → get key i rows ≡ some r
      → p r ≡ true
      → update (where_key key i p) f rows ≡ update (where_key key i (λ _. true)) (λ _. f r) rows
  unfolding rowcount get update
  update_all i p f [] u h e = refl
  update_all i p f (s ∷ rows) {r} u h e = ground (
    arith,
    update_all i p f rows {r = r},
    update_none key i p f rows,
    update_none key i (λ _. true) (λ _. f r) rows,
  )

  -- A conditional update that hits its row is the save of the row's new value.
  pub update-eq-save :
      (i : ℕ) (p : Row → Bool) (f : Row → Row) (rows : List Row) {r : Row}
      → HasUniqueKeys key rows
      → get key i rows ≡ some r
      → p r ≡ true
      → key (f r) ≡ key r
      → update (where_key key i p) f rows ≡ save key (f r) rows
  unfolding save
  update-eq-save i p f rows {r} u h e k =
      rw (k, key-get key i rows h) (update_all i p f rows {r = r} (u i) h e)

  -- One that misses changes nothing.
  pub update_miss :
      (i : ℕ) (p : Row → Bool) (f : Row → Row) (rows : List Row)
      → rowcount (has_key key i) rows ≤ 1
      → holds p (get key i rows) ≡ false
      → update (where_key key i p) f rows ≡ rows
  unfolding rowcount get update
  update_miss i p f [] u h = refl
  update_miss i p f (r ∷ rows) u h =
      ground (arith, update_miss i p f rows, update_none key i p f rows)

  module _ (r : Row) where
    pub get-save :
        (i : ℕ) (rows : List Row) {s : Row}
        → get key (key r) rows ≡ some s
        → get key i (save key r rows) ≡ (if nat_beq (key r) i then some r else get key i rows)
    unfolding save
    get-save i rows {s} h =
        rw (get-where_key key (key r) (λ _. true) (λ _. r) (λ t e. ground arith) i rows)
          (ground arith)

    pub tally-save :
        (w : Row → ℕ) (rows : List Row) {s : Row}
        → HasUniqueKeys key rows
        → get key (key r) rows ≡ some s
        → tally w (save key r rows) + w s ≡ tally w rows + w r
    unfolding save
    tally-save w rows {s} u h =
        ground (arith, tally-where_key key w (key r) (λ _. true) (λ _. r) rows (u (key r)))

    pub save-HasUniqueKeys :
        (rows : List Row) → HasUniqueKeys key rows → HasUniqueKeys key (save key r rows)
    unfolding save
    save-HasUniqueKeys rows u i =
        rw
          (rowcount-update key (where_key key (key r) (λ _. true)) (λ _. r) (λ t e. ground arith) i
            rows)
          (u i)

    -- The same, where the row's key is known by an equation.
    pub get-save_at :
        {i : ℕ}
        → key r ≡ i
        → (j : ℕ) (rows : List Row) {s : Row} → get key i rows ≡ some s
        → get key j (save key r rows) ≡ (if nat_beq i j then some r else get key j rows)
    get-save_at e j rows {s} =
        subst
          (λ n.
            get key n rows ≡ some s
            → get key j (save key r rows) ≡ (if nat_beq n j then some r else get key j rows))
          e (get-save j rows)

  -- The row that a query returned is the row of its key.
  pub get-first :
      (p : Row → Bool) (rows : List Row) (r : Row)
      → rowcount (has_key key (key r)) rows ≤ 1
      → first p rows ≡ some r
      → get key (key r) rows ≡ some r
  unfolding first get rowcount
  get-first p [] r u h = cc
  get-first p (s ∷ rows) r u h = ground (
    arith,
    get-first p rows r,
    rowcount_of_some key (key r) rows {r = r},
    nat_beq_iff (key s) (key r),
  )

  -- So is the row that an ordered query returned.
  pub get-first_by :
      (column : Row → ℕ) (p : Row → Bool) (rows : List Row) (r : Row)
      → rowcount (has_key key (key r)) rows ≤ 1
      → first_by column p rows ≡ some r
      → (get key (key r) rows ≡ some r) × (p r ≡ true)
  unfolding first_by get rowcount
  get-first_by column p [] r u h = cc
  get-first_by column p (s ∷ rows) r u h = ground (
    arith,
    get-first_by column p rows r,
    rowcount_of_some key (key r) rows {r = r},
    nat_beq_iff (key s) (key r),
  )
