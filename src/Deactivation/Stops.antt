-- ===== src/Deactivation/Stops.antt =====
-- What a successful deactivation has stopped.
use rustysd.Prelude.{
  ℕ, zero, suc, ◌≡◌, refl, inl, inr, Bool, true, false, List, [], ◌∷◌, Option, none, some, arith,
  contains, Option-cases, Bool-cases, ◌==◌, ◌∙◌, sym, subst, ◌⊎◌,
}
use rustysd.Prelude.Map.{get}
use rustysd.Units.Id.{UnitId, id_eq_iff, unit_id_eq}
use rustysd.Units.Status.{UnitOperationError, is_stopped}
use rustysd.Units.Unit.{UnitEntry}
use rustysd.Units.Runtime.{RuntimeInfo, UnitTable, Result, ok, err, panic, status_of}
use rustysd.Units.Lifecycle.{Ops, regular, deactivate}
use rustysd.Units.Lifecycle.Frame.{lifecycle-SameConfig, lifecycle-SameStatus}
use rustysd.Units.Lifecycle.Reports.{DeactivateReport, deactivate-Report}
use rustysd.Deactivation.{Bounded, and_then, for_each, deactivate_unit, deactivate_unit_recursive}
use rustysd.Deactivation.Fuel.{SameConfigs, required_by-Same}

abbrev pub stopped_at : UnitTable → UnitId → Bool
stopped_at table d = elim (status_of d table) [ none ↦ false | some st ↦ is_stopped st ]

-- Every unit stands under its own identifier.
abbrev pub IsKeyed : UnitTable → Type 0
IsKeyed table = (id : UnitId) (u : UnitEntry) → get id table ≡ some u → u.id ≡ id

-- `j` requires `a`, directly or not, or is `a`, by the `required_by` edges.
pub data Dependent (table : UnitTable) (j : UnitId) : UnitId → Type 0 where
  here : {a : UnitId} → a ≡ j → Dependent table j a
  via :
      {a b : UnitId} (u : UnitEntry)
      → get a table ≡ some u
      → contains u.common.dependencies.required_by b ≡ true
      → Dependent table j b
      → Dependent table j a

-- What is stopped in `ri` is stopped in `ri'`.
abbrev StillStopped : RuntimeInfo → RuntimeInfo → Type 0
StillStopped ri ri' =
    (j : UnitId) → stopped_at ri.unit_table j ≡ true → stopped_at ri'.unit_table j ≡ true

-- After success all of `P` is stopped, nothing was started, and no configuration changed.
abbrev pub Stops :
    RuntimeInfo → (UnitId → Type 0) → Option (Result UnitOperationError Unit × RuntimeInfo) → Type 0
Stops ri P (some (ok _, ri')) =
    SameConfigs ri ri'
    × StillStopped ri ri'
    × ((j : UnitId) → P j → stopped_at ri'.unit_table j ≡ true)
Stops ri P (some (err e, ri')) = Unit
Stops ri P (some (panic, ri')) = Unit
Stops ri P none = Unit

Stops-trans :
    (ri mid : RuntimeInfo) (P Q : UnitId → Type 0)
    (o : Option (Result UnitOperationError Unit × RuntimeInfo))
    → SameConfigs ri mid
    → StillStopped ri mid
    → ((j : UnitId) → P j → stopped_at mid.unit_table j ≡ true)
    → Stops mid Q o
    → Stops ri (λ j. P j ⊎ Q j) o
Stops-trans ri mid P Q none c m p h = tt
Stops-trans ri mid P Q (some (ok x, ri')) c m p h = (
  λ j. h.0 j ∙ c j,
  λ j s. h.1 j (m j s),
  λ j pq. elim pq [ inl a ↦ h.1 j (p j a) | inr b ↦ h.2 j b ],
)
Stops-trans ri mid P Q (some (err e, ri')) c m p h = tt
Stops-trans ri mid P Q (some (panic, ri')) c m p h = tt

and_then-Stops :
    (ri : RuntimeInfo) (P Q : UnitId → Type 0)
    (o : Option (Result UnitOperationError Unit × RuntimeInfo)) (next : Bounded Unit)
    → Stops ri P o
    → ((mid : RuntimeInfo) → SameConfigs ri mid → Stops mid Q (next mid))
    → Stops ri (λ j. P j ⊎ Q j) (and_then o next)
unfolding and_then
and_then-Stops ri P Q none next h k = tt
and_then-Stops ri P Q (some (ok x, mid)) next h k =
    Stops-trans ri mid P Q (next mid) h.0 h.1 h.2 (k mid h.0)
and_then-Stops ri P Q (some (err e, ri')) next h k = tt
and_then-Stops ri P Q (some (panic, ri')) next h k = tt

Stops-weaken :
    (ri : RuntimeInfo) (P Q : UnitId → Type 0)
    (o : Option (Result UnitOperationError Unit × RuntimeInfo))
    → ((j : UnitId) → Q j → P j)
    → Stops ri P o
    → Stops ri Q o
Stops-weaken ri P Q none f h = tt
Stops-weaken ri P Q (some (ok x, ri')) f h = (h.0, h.1, λ j q. h.2 j (f j q))
Stops-weaken ri P Q (some (err e, ri')) f h = tt
Stops-weaken ri P Q (some (panic, ri')) f h = tt

first_or_rest :
    (id : UnitId) (ids : List UnitId) (i j : UnitId) (P : UnitId → UnitId → Type 0)
    → contains (id ∷ ids) i ≡ true
    → P i j
    → P id j ⊎ ((i : UnitId) × (contains ids i ≡ true) × P i j)
unfolding contains
first_or_rest id ids i j P c p = elim (Bool-cases (id == i)) [
  | inl same ↦ inl (subst (λ x. P x j) (sym ((id_eq_iff id i).0 same)) p)
  | inr other ↦ inr (i, ground arith, p)
]

for_each-Stops :
    (step : UnitId → Bounded Unit) (P : UnitId → UnitId → Type 0) (ids : List UnitId)
    (ri : RuntimeInfo)
    → ((id : UnitId) (mid : RuntimeInfo) → SameConfigs ri mid → Stops mid (P id) (step id mid))
    → Stops ri (λ j. (id : UnitId) × (contains ids id ≡ true) × P id j) (for_each step ids ri)
unfolding for_each contains
for_each-Stops step P [] ri h = (λ j. refl, λ j s. s, λ j p. cc)
for_each-Stops step P (id ∷ ids) ri h =
    Stops-weaken ri (λ j. P id j ⊎ ((i : UnitId) × (contains ids i ≡ true) × P i j))
      (λ j. (i : UnitId) × (contains (id ∷ ids) i ≡ true) × P i j)
      (and_then (step id ri) (for_each step ids)) (λ j (i, c, p). first_or_rest id ids i j P c p)
      (and_then-Stops ri (P id) _ (step id ri) (for_each step ids) (h id ri (λ j. refl))
        λ mid s. for_each-Stops step P ids mid (λ i m t. h i m (λ j. t j ∙ s j)))

reported-Stops :
    (u : UnitEntry) (ri : RuntimeInfo) (r : Result UnitOperationError Unit × RuntimeInfo)
    → DeactivateReport u ri r
    → ((j : UnitId) → (u.id == j) ≡ false → status_of j r.1.unit_table ≡ status_of j ri.unit_table)
    → SameConfigs ri r.1
    → Stops ri (λ j. u.id ≡ j) (some r)
unfolding is_stopped
reported-Stops u ri (ok x, ri') (how, reasons, e) keep c =
    let mine : stopped_at ri'.unit_table u.id ≡ true = ground arith in
    (
      c,
      λ j s. elim (Bool-cases (u.id == j)) [
        | inl own ↦ subst (λ a. stopped_at ri'.unit_table a ≡ true) ((id_eq_iff u.id j).0 own) mine
        | inr other ↦ let k = keep j other in ground arith
      ],
      λ j same. subst (λ a. stopped_at ri'.unit_table a ≡ true) same mine,
    )
reported-Stops u ri (err e, ri') r keep c = tt
reported-Stops u ri (panic, ri') r keep c = tt

deactivate-Stops :
    (ops : Ops) (u : UnitEntry) (ri : RuntimeInfo)
    → get u.id ri.unit_table ≡ some u
    → Stops ri (λ j. u.id ≡ j) (some (deactivate ops u ri))
deactivate-Stops ops u ri found =
    reported-Stops u ri (deactivate ops u ri) (deactivate-Report ops u ri found)
      (λ j other. (lifecycle-SameStatus ops u regular ri j other).1)
      (λ j. (lifecycle-SameConfig ops u regular ri j).1)

pub IsKeyed-Same :
    (ri ri' : RuntimeInfo) → SameConfigs ri ri' → IsKeyed ri.unit_table → IsKeyed ri'.unit_table
IsKeyed-Same ri ri' s keyed id u' found =
    let e = s id in
    elim (Option-cases (get id ri.unit_table)) [
      | inl lost ↦ absurd (ground arith)
      | inr (u, was) ↦ let k = keyed id u was in ground arith
    ]

deactivate_unit-Stops :
    (ops : Ops) (id : UnitId) (ri : RuntimeInfo)
    → IsKeyed ri.unit_table
    → Stops ri (λ j. id ≡ j) (some (deactivate_unit ops id ri))
unfolding deactivate_unit
deactivate_unit-Stops ops id ri keyed = elim (Option-cases (get id ri.unit_table)) [
  | inl lost ↦ rw (lost, deactivate_unit) tt
  | inr (u, found) ↦
      let own = keyed id u found in
      rw (found, deactivate_unit)
        (Stops-weaken ri (λ j. u.id ≡ j) (λ j. id ≡ j) (some (deactivate ops u ri)) (λ j e. own ∙ e)
          (deactivate-Stops ops u ri (subst (λ x. get x ri.unit_table ≡ some u) (sym own) found)))
]

Dependent-split :
    (ri mid : RuntimeInfo) (id j : UnitId) (u' : UnitEntry)
    → SameConfigs ri mid
    → get id mid.unit_table ≡ some u'
    → Dependent ri.unit_table j id
    → ((i : UnitId) × (contains u'.common.dependencies.required_by i ≡ true)
        × Dependent ri.unit_table j i)
      ⊎ (id ≡ j)
Dependent-split ri mid id j u' s found (here e) = inr e
Dependent-split ri mid id j u' s found (via {b} u was c d) =
    let (w, again, same) = required_by-Same ri mid id u' s found in
    let one : w ≡ u = ground arith in inl (b, subst (λ l. contains l b ≡ true) same (rw one c), d)

recursive-Stops :
    (ops : Ops) (fuel : ℕ) (ri : RuntimeInfo) (id : UnitId) (mid : RuntimeInfo)
    → IsKeyed ri.unit_table
    → SameConfigs ri mid
    → Stops mid (λ j. Dependent ri.unit_table j id) (deactivate_unit_recursive ops fuel id mid)
unfolding deactivate_unit_recursive
recursive-Stops ops zero ri id mid keyed s = tt
recursive-Stops ops (suc fuel) ri id mid keyed s = elim (Option-cases (get id mid.unit_table)) [
  | inl lost ↦ rw (lost, deactivate_unit_recursive) tt
  | inr (u, found) ↦
      let below = u.common.dependencies.required_by in
      let Below =
        λ (j : UnitId). (i : UnitId) × (contains below i ≡ true) × Dependent ri.unit_table j i in
      rw (found, deactivate_unit_recursive)
        (Stops-weaken mid (λ j. Below j ⊎ (id ≡ j)) (λ j. Dependent ri.unit_table j id) _
          (λ j d. Dependent-split ri mid id j u s found d)
          (and_then-Stops mid Below (λ j. id ≡ j)
            (for_each (λ next. deactivate_unit_recursive ops fuel next) below mid)
            (λ ri'. some (deactivate_unit ops id ri'))
            (for_each-Stops (λ next. deactivate_unit_recursive ops fuel next)
              (λ i j. Dependent ri.unit_table j i) below mid
              (λ i m t. recursive-Stops ops fuel ri i m keyed (λ j. t j ∙ s j)))
            (λ m t. deactivate_unit-Stops ops id m (IsKeyed-Same ri m (λ j. t j ∙ s j) keyed))))
]

-- When a recursive deactivation succeeds, the unit and all units that require it, directly or not, are
-- stopped, and what was stopped before still is.
pub deactivate_unit_recursive_stops :
    (ops : Ops) (fuel : ℕ) (id : UnitId) (ri ri' : RuntimeInfo)
    → IsKeyed ri.unit_table
    → deactivate_unit_recursive ops fuel id ri ≡ some (ok tt, ri')
    → ((j : UnitId) → Dependent ri.unit_table j id → stopped_at ri'.unit_table j ≡ true)
      × ((j : UnitId) → stopped_at ri.unit_table j ≡ true → stopped_at ri'.unit_table j ≡ true)
deactivate_unit_recursive_stops ops fuel id ri ri' keyed e =
    let (configs, still, all) =
      subst (Stops ri (λ j. Dependent ri.unit_table j id)) e
        (recursive-Stops ops fuel ri id ri keyed (λ j. refl)) in
    (all, still)
