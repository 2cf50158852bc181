-- ===== src/Prelude/Equality.antt =====
-- Decidable equality of keys as an interface, for `HashMap` and `BTreeMap` keys.
use Prim.Native.Nat.{ℕ}
use mathlib.Core.Path.{◌≡◌, refl}
use mathlib.Core.Logic.{◌↔◌}
use mathlib.Core.Bool.{Bool, true}
use auticuro.Prelude.Tests.{◌==◌, ==_iff}
use auticuro.Prelude.ByteStrings.{Bytes, bytes_eq, bytes_eq_iff}

pub record Eq (A : Type 0) : Type 0 where
  pub beq : A → A → Bool
  pub beq_iff : (a b : A) → (beq a b ≡ true) ↔ (a ≡ b)

pub beq_refl : {A : Type 0} ⦃e : Eq A⦄ (k : A) → e.beq k k ≡ true
beq_refl ⦃e⦄ k = (e.beq_iff k k).1 refl

instance abbrev pub ℕ_eq : Eq ℕ
ℕ_eq = record { beq = ◌==◌; beq_iff = ==_iff }

instance abbrev pub Bytes_eq : Eq Bytes
Bytes_eq = record { beq = bytes_eq; beq_iff = bytes_eq_iff }
