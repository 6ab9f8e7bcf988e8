-- ===== src/Prelude/Equality.antt =====
-- The trait `PartialEq`: a test of equality that is right, as an interface with instances.
use Prim.Native.Nat.{ℕ}
use Prim.Native.String.{String}
use text.Mathlib.Text.{◌==◌ as str_eq}
use text.Mathlib.TextEquality.{eq_iff as str_eq_iff}
use mathlib.Core.Path.{◌≡◌, refl}
use mathlib.Core.Logic.{◌↔◌}
use mathlib.Core.Bool.{Bool, true}
use rustysd.Prelude.Tests.{==_iff, nat_beq}
use native.Mathlib.Omega.{arith}

pub record PartialEq {ℓ} (K : Type ℓ) : Type ℓ where
  pub test : K → K → Bool
  pub test_iff : (x y : K) → (test x y ≡ true) ↔ (x ≡ y)

instance abbrev pub string_eq : PartialEq String
string_eq = record { test = str_eq; test_iff = str_eq_iff }

instance abbrev pub nat_eq : PartialEq ℕ
nat_eq = record { test = nat_beq; test_iff = ==_iff }

module _ {ℓ} {K : Type ℓ} ⦃q : PartialEq K⦄ where
  infix 50 ◌==◌
  abbrev pub ◌==◌ : K → K → Bool
  x == y = q.test x y

  pub eq_iff : (x y : K) → ((x == y) ≡ true) ↔ (x ≡ y)
  eq_iff x y = q.test_iff x y

  pub eq_refl : (x : K) → (x == x) ≡ true
  eq_refl x = (eq_iff x x).1 refl

  pub eq_comm : (x y : K) → (x == y) ≡ (y == x)
  eq_comm x y = ground (arith, eq_iff x y, eq_iff y x)
