-- ===== src/Removal/Ends.antt =====
-- The removal ends: a call takes out a unit, or is for a unit that another call has taken out.

use rustysd.Prelude.{
  ℕ, zero, suc, ◌+◌, ◌*◌, ◌<◌, ◌≤◌, ◌≡◌, ◌≢◌, refl, sym, subst, inl, inr, true, List, [], ◌∷◌, none,
  arith, contains, length, Bool-cases, Option-cases, if◌then◌else◌, ◌==◌,
}
use rustysd.Prelude.Map.{get, remove, map_values, contains_key, contains_key-get}
use rustysd.Units.Id.{UnitId, id_eq_iff, unit_id_eq}
use rustysd.Units.Unit.{UnitEntry}
use rustysd.Units.Runtime.{UnitTable}
use rustysd.Removal.{
  forget, remove_single_unit, referrers, remove_each, remove_with_depending_units,
}
use rustysd.Removal.Clean.{Holds, get-remove_single_unit, remove_with-Holds}

-- What a call has before it: twice the table, and one more for a unit that is not in it.
abbrev weight : UnitId → UnitTable → ℕ
weight id t = if contains_key id t then 2 * length t else 2 * length t + 1

length-map_values : (f : UnitEntry → UnitEntry) (t : UnitTable) → length (map_values f t) ≡ length t
unfolding map_values
length-map_values f [] = refl
length-map_values f ((k, u) ∷ t) = omega (arith, length-map_values f t)

length-remove :
    (id : UnitId) (t : UnitTable)
    → (length (remove id t) ≤ length t)
      × (contains_key id t ≡ true → length (remove id t) < length t)
unfolding remove contains_key
length-remove id [] = (omega arith, λ c. absurd (cc))
length-remove id ((k, u) ∷ t) =
    let (le, lt) = length-remove id t in
    elim (Bool-cases (k == id)) [
      | inl same ↦ (ground (arith, le), λ c. ground (arith, le))
      | inr other ↦ (ground (arith, le), λ c. let l = lt (ground arith) in ground (arith, l))
    ]

contains_key-map_values :
    (f : UnitEntry → UnitEntry) (id : UnitId) (t : UnitTable)
    → contains_key id (map_values f t) ≡ contains_key id t
unfolding contains_key map_values
contains_key-map_values f id [] = refl
contains_key-map_values f id ((k, u) ∷ t) = ground (arith, contains_key-map_values f id t)

length-remove_single_unit :
    (rm_id : UnitId) (t : UnitTable)
    → (length (remove_single_unit rm_id t) ≤ length t)
      × (contains_key rm_id t ≡ true → length (remove_single_unit rm_id t) < length t)
unfolding remove_single_unit
length-remove_single_unit rm_id t =
    let (le, lt) = length-remove rm_id (map_values (forget rm_id) t) in
    let same = length-map_values (forget rm_id) t in
    let keys = contains_key-map_values (forget rm_id) rm_id t in
    (omega (arith, le, same), λ c. let l = lt (ground arith) in omega (arith, l, same))

-- The weight of no call grows.
weight-remove_single_unit :
    (bound : ℕ) (id rm_id : UnitId) (t : UnitTable)
    → weight id t ≤ bound
    → weight id (remove_single_unit rm_id t) ≤ bound
weight-remove_single_unit bound id rm_id t h =
    let (le, lt) = length-remove_single_unit rm_id t in
    let there = contains_key-get id (remove_single_unit rm_id t) in
    let before = contains_key-get id t in
    let now = get-remove_single_unit rm_id id t in
    elim (Bool-cases (rm_id == id)) [
      | inr other ↦ elim (Option-cases (get id t)) [
        | inl lost ↦ ground (arith, le)
        | inr (u, found) ↦ ground (arith, le)
      ]
      | inl same ↦ elim (Bool-cases (contains_key id t)) [
        | inr absent ↦ ground (arith, le)
        | inl present ↦
            let l =
              lt (
                subst (λ y. contains_key y t ≡ true) (sym ((id_eq_iff rm_id id).0 same)) present) in
            ground (arith, l)
      ]
    ]

referrers-present :
    (rm_id : UnitId) (t : UnitTable) (id : UnitId)
    → contains (referrers rm_id t) id ≡ true
    → contains_key id t ≡ true
unfolding referrers contains contains_key
referrers-present rm_id [] id c = absurd (cc)
referrers-present rm_id ((k, u) ∷ t) id c = elim (Bool-cases (k == id)) [
  | inl same ↦ ground arith
  | inr other ↦ let r = referrers-present rm_id t id in ground (arith, r)
]

-- Calls whose weights stay below the fuel all return.
remove_each-some :
    (fuel bound : ℕ)
    → ((id : UnitId) (t : UnitTable)
        → weight id t ≤ bound
        → remove_with_depending_units fuel id t ≢ none)
    → (ids : List UnitId) (t : UnitTable)
    → ((id : UnitId) → contains ids id ≡ true → weight id t ≤ bound)
    → remove_each (remove_with_depending_units fuel) ids t ≢ none
unfolding remove_each contains
remove_each-some fuel bound step [] t light = ground arith
remove_each-some fuel bound step (x ∷ ids) t light =
    elim (Option-cases (remove_with_depending_units fuel x t)) [
      | inl out ↦ absurd (step x t (light x (ground (arith, id_eq_iff x x))) out)
      | inr (t', went) ↦
          rw (went, remove_each)
            (remove_each-some fuel bound step ids t' (λ id c.
              subst (Holds (λ s. weight id s ≤ bound)) went (
                remove_with-Holds (λ s. weight id s ≤ bound)
                  (λ r s h. weight-remove_single_unit bound id r s h) fuel x t
                  (light id (ground arith)))))
    ]

remove_with-some :
    (fuel : ℕ) (rm_id : UnitId) (t : UnitTable)
    → weight rm_id t < fuel
    → remove_with_depending_units fuel rm_id t ≢ none
unfolding remove_with_depending_units
remove_with-some zero rm_id t h = absurd (omega arith)
remove_with-some (suc fuel) rm_id t h =
    let mid = remove_single_unit rm_id t in
    let (le, lt) = length-remove_single_unit rm_id t in
    let smaller : 2 * length mid < fuel = elim (Bool-cases (contains_key rm_id t)) [
      | inl present ↦ let l = lt present in ground (arith, l)
      | inr absent ↦ ground (arith, le)
    ] in
    remove_each-some fuel (2 * length mid)
      (λ id s light. remove_with-some fuel id s (omega (arith, light, smaller)))
      (referrers rm_id mid) mid (λ id c. let p = referrers-present rm_id mid id c in ground arith)

-- The recursion returns on every table, however the units name each other.
pub remove_with_depending_units-ends :
    (rm_id : UnitId) (table : UnitTable)
    → remove_with_depending_units (2 * length table + 2) rm_id table ≢ none
remove_with_depending_units-ends rm_id table =
    remove_with-some (2 * length table + 2) rm_id table (ground arith)
