-- ===== src/Prelude/Lists.antt =====
-- Vectors: `contains` and `retain` by Boolean tests, lengths, and what they satisfy.
use Prim.Native.Nat.{ℕ, suc, ◌+◌, ◌≤◌, ◌<◌}
use mathlib.Core.Path.{◌≡◌, refl}
use mathlib.Core.Logic.{◌⊎◌, inl, inr}
use mathlib.Core.Bool.{Bool, true, false, ◌&&◌, ◌||◌}
use mathlib.Core.List.{List, [], ◌∷◌, ◌++◌}
use native.Mathlib.Omega.{arith}
use rustysd.Prelude.Tests.{if◌then◌else◌}
use rustysd.Prelude.Equality.{PartialEq, ◌==◌, eq_iff}

module _ {ℓ} {A : Type ℓ} where
  abbrev pub length : List A → ℕ
  length [] = 0
  length (x ∷ xs) = suc (length xs)

  abbrev pub is_empty : List A → Bool
  is_empty [] = true
  is_empty (x ∷ xs) = false

  -- `iter().filter(p).collect()`
  unfoldable pub retain : (A → Bool) → List A → List A
  retain p [] = []
  retain p (x ∷ xs) = let rest = retain p xs in if p x then x ∷ rest else rest

  pub length-append : (xs ys : List A) → length (xs ++ ys) ≡ length xs + length ys
  length-append [] ys = omega arith
  length-append (x ∷ xs) ys = omega (arith, length-append xs ys)

  pub length-retain-le : (p : A → Bool) (xs : List A) → length (retain p xs) ≤ length xs
  unfolding retain
  length-retain-le p [] = omega arith
  length-retain-le p (x ∷ xs) = ground (arith, length-retain-le p xs)

  pub List-cases : (xs : List A) → (xs ≡ []) ⊎ ((x : A) × (rest : List A) × (xs ≡ x ∷ rest))
  List-cases [] = inl refl
  List-cases (x ∷ xs) = inr (x, xs, refl)

  -- Every element of a list has a property.
  abbrev pub All {κ} : (A → Type κ) → List A → Type κ
  All P [] = Unit
  All P (x ∷ xs) = P x × All P xs

  pub All-append {κ} : (P : A → Type κ) (xs ys : List A) → All P xs → All P ys → All P (xs ++ ys)
  All-append P [] ys h k = k
  All-append P (x ∷ xs) ys h k = (h.0, All-append P xs ys h.1 k)

  pub All-map {κ μ} :
      (P : A → Type κ) (Q : A → Type μ) (xs : List A) → ((x : A) → P x → Q x) → All P xs → All Q xs
  All-map P Q [] f h = tt
  All-map P Q (x ∷ xs) f h = (f x h.0, All-map P Q xs f h.1)

module _ {ℓ} {A : Type ℓ} ⦃e : PartialEq A⦄ where
  -- `Vec::contains`
  unfoldable pub contains : List A → A → Bool
  contains [] a = false
  contains (x ∷ xs) a = x == a || contains xs a

  -- Two lists hold the same elements.
  abbrev pub SameElements : List A → List A → Type ℓ
  SameElements xs ys = (a : A) → contains xs a ≡ contains ys a

  -- No element occurs twice.
  abbrev pub IsNodup : List A → Type 0
  IsNodup [] = Unit
  IsNodup (x ∷ xs) = (contains xs x ≡ false) × IsNodup xs

  pub contains-append :
      (xs ys : List A) (a : A) → contains (xs ++ ys) a ≡ (contains xs a || contains ys a)
  unfolding contains
  contains-append [] ys a = refl
  contains-append (x ∷ xs) ys a = ground (arith, contains-append xs ys a)

  pub contains-retain :
      (p : A → Bool) (xs : List A) (a : A) → contains (retain p xs) a ≡ (contains xs a && p a)
  unfolding contains retain
  contains-retain p [] a = refl
  contains-retain p (x ∷ xs) a = ground (arith, contains-retain p xs a, eq_iff x a)

  pub IsNodup-retain : (p : A → Bool) (xs : List A) → IsNodup xs → IsNodup (retain p xs)
  unfolding retain
  IsNodup-retain p [] h = tt
  IsNodup-retain p (x ∷ xs) h = ground (arith, IsNodup-retain p xs h.1, contains-retain p xs x)

  pub All-contains {κ} :
      (P : A → Type κ) (xs : List A) → All P xs → (a : A) → contains xs a ≡ true → P a
  unfolding contains
  All-contains P [] h a c = absurd (cc)
  All-contains P (x ∷ xs) h a c = ground (arith, eq_iff x a, All-contains P xs h.1 a)

-- A stronger test keeps no more, and fewer where it drops an element.
module _ {ℓ} {A : Type ℓ} (p q : A → Bool) (weaker : (a : A) → q a ≡ true → p a ≡ true) where
  pub length-retain_mono : (xs : List A) → length (retain q xs) ≤ length (retain p xs)
  unfolding retain
  length-retain_mono [] = omega arith
  length-retain_mono (x ∷ xs) = ground (arith, weaker x, length-retain_mono xs)

  pub length-retain-lt :
      ⦃e : PartialEq A⦄ (xs : List A) (x : A)
      → contains xs x ≡ true
      → p x ≡ true
      → q x ≡ false
      → length (retain q xs) < length (retain p xs)
  unfolding retain contains
  length-retain-lt [] x c hp hq = absurd (cc)
  length-retain-lt (y ∷ ys) x c hp hq =
      ground (arith, weaker y, eq_iff y x, length-retain_mono ys, length-retain-lt ys x)
