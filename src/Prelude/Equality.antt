-- ===== src/Prelude/Equality.antt =====
-- Python's `==` and SQL's `=`: one operator for every type that has an instance, and the tests of a
-- nullable column.
use war_thunder_rent_bot.Prelude.Tests.{nat_beq, nat_beq_iff}
use Prim.Native.Nat.{ℕ}
use mathlib.Core.Path.{◌≡◌}
use mathlib.Core.Logic.{◌↔◌}
use mathlib.Core.Bool.{Bool, true, false}
use mathlib.Core.Option.{Option, none, some}

-- `column IS NULL`
abbrev pub is_none {ℓ} : {T : Type ℓ} → Option T → Bool
is_none none = true
is_none (some value) = false

-- `column = value` for a nullable column: NULL equals no value.
infix 50 ◌is_some◌ ◌==◌
abbrev pub ◌is_some◌ : Option ℕ → ℕ → Bool
none is_some v = false
some u is_some v = nat_beq u v

pub record Comparable {ℓ} (T : Type ℓ) : Type ℓ where
  pub same : T → T → Bool
  pub same_iff : (u v : T) → (same u v ≡ true) ↔ (u ≡ v)

abbrev pub ◌==◌ {ℓ} : {T : Type ℓ} ⦃c : Comparable T⦄ → T → T → Bool
◌==◌ ⦃c⦄ u v = c.same u v

instance abbrev pub nat_eq : Comparable ℕ
nat_eq = record { same_iff = nat_beq_iff; same = nat_beq }
