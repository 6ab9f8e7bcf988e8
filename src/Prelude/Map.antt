-- ===== src/Prelude/Map.antt =====
-- `std::collections::HashMap` as an association list. The order of the list is the order in which
-- the program iterates, of which nothing is assumed.
use mathlib.Core.Path.{◌≡◌, refl, ap}
use mathlib.Core.Logic.{inl, inr}
use mathlib.Core.Bool.{Bool, false, ◌||◌}
use mathlib.Core.Option
use mathlib.Core.Option.{Option, none, some}
use mathlib.Core.List.{List, [], ◌∷◌}
use native.Mathlib.Omega.{arith}
use rustysd.Prelude.Tests.{Bool-cases, if◌then◌else◌, is_some}
use rustysd.Prelude.Equality.{PartialEq, ◌==◌, eq_iff}
use rustysd.Prelude.Lists.{contains, IsNodup}

module _ {ℓ κ} {K : Type ℓ} {V : Type κ} ⦃e : PartialEq K⦄ where
  unfoldable pub get : K → List (K × V) → Option V
  get k [] = none
  get k ((j, v) ∷ m) = if j == k then some v else get k m

  unfoldable pub contains_key : K → List (K × V) → Bool
  contains_key k [] = false
  contains_key k ((j, v) ∷ m) = j == k || contains_key k m

  unfoldable pub insert : K → V → List (K × V) → List (K × V)
  insert k v [] = (k, v) ∷ []
  insert k v ((j, w) ∷ m) = if j == k then (k, v) ∷ m else (j, w) ∷ insert k v m

  unfoldable pub remove : K → List (K × V) → List (K × V)
  remove k [] = []
  remove k ((j, v) ∷ m) = let rest = remove k m in if j == k then rest else (j, v) ∷ rest

  unfoldable pub keys : List (K × V) → List K
  keys [] = []
  keys ((j, v) ∷ m) = j ∷ keys m

  -- A change of the value under one key, where it is present (`get_mut`).
  unfoldable pub modify : K → (V → V) → List (K × V) → List (K × V)
  modify k f [] = []
  modify k f ((j, v) ∷ m) = (j, if j == k then f v else v) ∷ modify k f m

  -- A change of every value (`values_mut`).
  unfoldable pub map_values : (V → V) → List (K × V) → List (K × V)
  map_values f [] = []
  map_values f ((j, v) ∷ m) = (j, f v) ∷ map_values f m

  pub get-insert :
      (k j : K) (v : V) (m : List (K × V))
      → get j (insert k v m) ≡ (if k == j then some v else get j m)
  unfolding get insert
  get-insert k j v [] = refl
  get-insert k j v ((i, w) ∷ m) =
      ground (arith, eq_iff k j, eq_iff i k, eq_iff i j, get-insert k j v m)

  pub get-remove :
      (k j : K) (m : List (K × V)) → get j (remove k m) ≡ (if k == j then none else get j m)
  unfolding get remove
  get-remove k j [] = ground arith
  get-remove k j ((i, w) ∷ m) = ground (arith, eq_iff k j, eq_iff i k, eq_iff i j, get-remove k j m)

  pub get-modify :
      (k j : K) (f : V → V) (m : List (K × V))
      → get j (modify k f m) ≡ (if k == j then Option.map f (get j m) else get j m)
  unfolding get modify Option.map
  get-modify k j f [] = ground arith
  get-modify k j f ((i, w) ∷ m) =
      ground (arith, eq_iff k j, eq_iff i k, eq_iff i j, get-modify k j f m)

  pub get-map_values :
      (f : V → V) (j : K) (m : List (K × V)) → get j (map_values f m) ≡ Option.map f (get j m)
  unfolding get map_values Option.map
  get-map_values f j [] = refl
  get-map_values f j ((i, w) ∷ m) = ground (arith, get-map_values f j m)

  pub contains_key-get : (k : K) (m : List (K × V)) → contains_key k m ≡ is_some (get k m)
  unfolding contains_key get
  contains_key-get k [] = refl
  contains_key-get k ((j, v) ∷ m) = ground (arith, contains_key-get k m)

  pub contains-keys : (k : K) (m : List (K × V)) → contains (keys m) k ≡ contains_key k m
  unfolding contains contains_key keys
  contains-keys k [] = refl
  contains-keys k ((j, v) ∷ m) = ground (arith, contains-keys k m)

  pub keys-modify : (k : K) (f : V → V) (m : List (K × V)) → keys (modify k f m) ≡ keys m
  unfolding keys modify
  keys-modify k f [] = refl
  keys-modify k f ((j, v) ∷ m) = ap (λ js. j ∷ js) (keys-modify k f m)

  pub contains-keys-insert :
      (k j : K) (v : V) (m : List (K × V))
      → contains (keys (insert k v m)) j ≡ (k == j || contains (keys m) j)
  unfolding contains keys insert
  contains-keys-insert k j v [] = ground arith
  contains-keys-insert k j v ((i, w) ∷ m) =
      ground (arith, eq_iff k j, eq_iff i k, eq_iff i j, contains-keys-insert k j v m)

  pub keys-insert-IsNodup :
      (k : K) (v : V) (m : List (K × V)) → IsNodup (keys m) → IsNodup (keys (insert k v m))
  unfolding keys insert contains
  keys-insert-IsNodup k v [] h = (refl, tt)
  keys-insert-IsNodup k v ((i, w) ∷ m) h = elim (Bool-cases (i == k)) [
    | inl same ↦ rw (same, insert) (ground (arith, eq_iff i k), h.1)
    | inr other ↦
        rw (other, insert)
          (
            ground (arith, eq_iff i k, eq_iff k i, contains-keys-insert k i v m),
            keys-insert-IsNodup k v m h.1,
          )
  ]
