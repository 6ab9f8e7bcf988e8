-- ===== src/Deactivation/Fuel.antt =====
-- Where the `required_by` edges are acyclic the recursion ends.
use rustysd.Prelude.{
  ℕ, zero, suc, ◌<◌, ◌≡◌, ◌≢◌, refl, inl, inr, List, [], ◌∷◌, Option, none, some, arith, All,
  Option-cases, ◌∙◌, subst, All-map,
}
use rustysd.Prelude.Map.{get}
use rustysd.Units.Id.{UnitId, unit_id_eq}
use rustysd.Units.Status.{UnitOperationError}
use rustysd.Units.Unit.{UnitEntry}
use rustysd.Units.Runtime.{RuntimeInfo, UnitTable, Result, ok, err, panic}
use rustysd.Units.Lifecycle.{Ops, regular}
use rustysd.Units.Lifecycle.Frame.{SameConfig, lifecycle-SameConfig}
use rustysd.Deactivation.{Bounded, and_then, for_each, deactivate_unit, deactivate_unit_recursive}

-- `required_by` edges lead to units of smaller rank.
abbrev pub IsRanked : (UnitId → ℕ) → UnitTable → Type 0
IsRanked rank table =
    (id : UnitId) (u : UnitEntry)
    → get id table ≡ some u
    → All (λ next. rank next < rank id) u.common.dependencies.required_by

-- Two states agree on every unit's configuration.
abbrev pub SameConfigs : RuntimeInfo → RuntimeInfo → Type 0
SameConfigs ri ri' = (j : UnitId) → SameConfig j ri ri'

pub deactivate_unit-SameConfigs :
    (ops : Ops) (id : UnitId) (ri : RuntimeInfo) → SameConfigs ri (deactivate_unit ops id ri).1
unfolding deactivate_unit
deactivate_unit-SameConfigs ops id ri j = elim (Option-cases (get id ri.unit_table)) [
  | inl lost ↦ rw (lost, deactivate_unit) refl
  | inr (u, found) ↦ rw (found, deactivate_unit) (lifecycle-SameConfig ops u regular ri j).1
]

-- A bounded call that ends, and keeps every configuration.
abbrev pub Ends : RuntimeInfo → Option (Result UnitOperationError Unit × RuntimeInfo) → Type 0
Ends ri none = ⊥
Ends ri (some (r, ri')) = SameConfigs ri ri'

Ends-trans :
    (ri mid : RuntimeInfo) (o : Option (Result UnitOperationError Unit × RuntimeInfo))
    → SameConfigs ri mid
    → Ends mid o
    → Ends ri o
Ends-trans ri mid none s h = h
Ends-trans ri mid (some (r, ri')) s h = λ j. h j ∙ s j

and_then-Ends :
    (ri : RuntimeInfo) (o : Option (Result UnitOperationError Unit × RuntimeInfo))
    (next : Bounded Unit)
    → Ends ri o
    → ((mid : RuntimeInfo) → SameConfigs ri mid → Ends mid (next mid))
    → Ends ri (and_then o next)
unfolding and_then
and_then-Ends ri none next h k = h
and_then-Ends ri (some (ok x, mid)) next h k = Ends-trans ri mid (next mid) h (k mid h)
and_then-Ends ri (some (err x, mid)) next h k = h
and_then-Ends ri (some (panic, mid)) next h k = h

for_each-Ends :
    (step : UnitId → Bounded Unit) (ids : List UnitId) (ri : RuntimeInfo)
    → All (λ id. (mid : RuntimeInfo) → SameConfigs ri mid → Ends mid (step id mid)) ids
    → Ends ri (for_each step ids ri)
unfolding for_each
for_each-Ends step [] ri h = λ j. refl
for_each-Ends step (id ∷ ids) ri h =
    and_then-Ends ri (step id ri) (for_each step ids) (h.0 ri (λ j. refl)) λ mid s.
      for_each-Ends step ids mid (
        All-map (λ i. (m : RuntimeInfo) → SameConfigs ri m → Ends m (step i m))
          (λ i. (m : RuntimeInfo) → SameConfigs mid m → Ends m (step i m)) ids
          (λ i f m t. f m (λ j. t j ∙ s j)) h.1)

pub required_by-Same :
    (ri ri' : RuntimeInfo) (id : UnitId) (u' : UnitEntry)
    → SameConfigs ri ri'
    → get id ri'.unit_table ≡ some u'
    → (u : UnitEntry) × (get id ri.unit_table ≡ some u)
      × (u.common.dependencies.required_by ≡ u'.common.dependencies.required_by)
required_by-Same ri ri' id u' s found =
    let e = s id in
    elim (Option-cases (get id ri.unit_table)) [
      | inl lost ↦ absurd (ground arith)
      | inr (u, was) ↦ (u, was, ground arith)
    ]

pub IsRanked-Same :
    (rank : UnitId → ℕ) (ri ri' : RuntimeInfo)
    → SameConfigs ri ri'
    → IsRanked rank ri.unit_table
    → IsRanked rank ri'.unit_table
IsRanked-Same rank ri ri' s ranked id u' found =
    let (u, was, same) = required_by-Same ri ri' id u' s found in
    subst (All (λ next. rank next < rank id)) same (ranked id u was)

recursive-Ends :
    (ops : Ops) (rank : UnitId → ℕ) (fuel : ℕ) (id : UnitId) (ri : RuntimeInfo)
    → IsRanked rank ri.unit_table
    → rank id < fuel
    → Ends ri (deactivate_unit_recursive ops fuel id ri)
unfolding deactivate_unit_recursive
recursive-Ends ops rank zero id ri ranked h = absurd (omega arith)
recursive-Ends ops rank (suc fuel) id ri ranked h = elim (Option-cases (get id ri.unit_table)) [
  | inl lost ↦ rw (lost, deactivate_unit_recursive) (λ j. refl)
  | inr (u, found) ↦
      rw (found, deactivate_unit_recursive)
        (and_then-Ends ri
          (for_each (λ next. deactivate_unit_recursive ops fuel next)
            u.common.dependencies.required_by ri)
          _
          (for_each-Ends _ u.common.dependencies.required_by ri (
            All-map _ _ u.common.dependencies.required_by
              (λ next smaller mid s.
                recursive-Ends ops rank fuel next mid (IsRanked-Same rank ri mid s ranked)
                  (omega arith))
              (ranked id u found)))
          (λ mid s. deactivate_unit-SameConfigs ops id mid))
]

-- Where every `required_by` edge leads to a unit of lower rank, so that these edges have no circle, the recursion
-- ends with more fuel than the rank of the unit.
pub deactivate_unit_recursive-ends :
    (ops : Ops) (rank : UnitId → ℕ) (fuel : ℕ) (id : UnitId) (ri : RuntimeInfo)
    → IsRanked rank ri.unit_table
    → rank id < fuel
    → deactivate_unit_recursive ops fuel id ri ≢ none
deactivate_unit_recursive-ends ops rank fuel id ri ranked h e =
    subst (Ends ri) e (recursive-Ends ops rank fuel id ri ranked h)
