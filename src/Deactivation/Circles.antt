-- ===== src/Deactivation/Circles.antt =====
-- On a circle of `required_by` edges no recursive deactivation succeeds.
use rustysd.Prelude.{
  ℕ, zero, suc, ◌≡◌, ◌≢◌, refl, inl, inr, Bool, true, false, List, [], ◌∷◌, Option, none, some,
  arith, Bool-cases, Option-cases, subst, contains, eq_iff, ◌∙◌, ap,
}
use rustysd.Prelude.Map.{get}
use rustysd.Units.Id.{UnitId, unit_id_eq}
use rustysd.Units.Status.{UnitOperationError}
use rustysd.Units.Unit.{UnitEntry}
use rustysd.Units.Runtime.{RuntimeInfo, UnitTable, Result, ok, err, panic}
use rustysd.Units.Lifecycle.{Ops}
use rustysd.Deactivation.{Bounded, and_then, for_each, deactivate_unit, deactivate_unit_recursive}
use rustysd.Deactivation.Fuel.{SameConfigs, deactivate_unit-SameConfigs, required_by-Same}

-- Each of these units is in the table, and has one of them in its `required_by`.
abbrev pub IsEndless : (UnitId → Bool) → UnitTable → Type 0
IsEndless on table =
    (id : UnitId)
    → on id ≡ true
    → (u : UnitEntry) × (next : UnitId) × (get id table ≡ some u)
      × (contains u.common.dependencies.required_by next ≡ true)
      × (on next ≡ true)

-- What holds after a bounded call, if it succeeds. The configurations are kept.
abbrev pub Passes :
    RuntimeInfo → Type 0 → Option (Result UnitOperationError Unit × RuntimeInfo) → Type 0
Passes ri Q (some (ok _, ri')) = SameConfigs ri ri' × Q
Passes ri Q (some (err e, ri')) = Unit
Passes ri Q (some (panic, ri')) = Unit
Passes ri Q none = Unit

Passes-weaken :
    (ri : RuntimeInfo) (P Q : Type 0) (o : Option (Result UnitOperationError Unit × RuntimeInfo))
    → (P → Q)
    → Passes ri P o
    → Passes ri Q o
Passes-weaken ri P Q (some (ok x, mid)) f h = (h.0, f h.1)
Passes-weaken ri P Q (some (err e, mid)) f h = tt
Passes-weaken ri P Q (some (panic, mid)) f h = tt
Passes-weaken ri P Q none f h = tt

Passes-trans :
    (ri mid : RuntimeInfo) (P Q : Type 0)
    (o : Option (Result UnitOperationError Unit × RuntimeInfo))
    → SameConfigs ri mid
    → P
    → Passes mid Q o
    → Passes ri (P × Q) o
Passes-trans ri mid P Q (some (ok x, last)) s p h = ((λ j. h.0 j ∙ s j), (p, h.1))
Passes-trans ri mid P Q (some (err e, last)) s p h = tt
Passes-trans ri mid P Q (some (panic, last)) s p h = tt
Passes-trans ri mid P Q none s p h = tt

and_then-Passes :
    (ri : RuntimeInfo) (P Q : Type 0) (o : Option (Result UnitOperationError Unit × RuntimeInfo))
    (next : Bounded Unit)
    → Passes ri P o
    → ((mid : RuntimeInfo) → SameConfigs ri mid → Passes mid Q (next mid))
    → Passes ri (P × Q) (and_then o next)
unfolding and_then
and_then-Passes ri P Q (some (ok x, mid)) next h k =
    Passes-trans ri mid P Q (next mid) h.0 h.1 (k mid h.0)
and_then-Passes ri P Q (some (err e, mid)) next h k = tt
and_then-Passes ri P Q (some (panic, mid)) next h k = tt
and_then-Passes ri P Q none next h k = tt

deactivate_unit-Passes :
    (ri : RuntimeInfo) (r : Result UnitOperationError Unit × RuntimeInfo)
    → SameConfigs ri r.1
    → Passes ri Unit (some r)
deactivate_unit-Passes ri (ok x, mid) s = (s, tt)
deactivate_unit-Passes ri (err e, mid) s = tt
deactivate_unit-Passes ri (panic, mid) s = tt

for_each-Passes :
    (on : UnitId → Bool) (step : UnitId → Bounded Unit) (ids : List UnitId) (ri : RuntimeInfo)
    → ((id : UnitId) (mid : RuntimeInfo)
        → SameConfigs ri mid
        → Passes mid (on id ≡ false) (step id mid))
    → Passes ri ((i : UnitId) → contains ids i ≡ true → on i ≡ false) (for_each step ids ri)
unfolding for_each contains
for_each-Passes on step [] ri h = (λ j. refl, λ i c. absurd (cc))
for_each-Passes on step (id ∷ ids) ri h =
    let Rest = (i : UnitId) → contains ids i ≡ true → on i ≡ false in
    Passes-weaken ri ((on id ≡ false) × Rest) _ (and_then (step id ri) (for_each step ids))
      (λ p i c. let e = p.1 i in ground (arith, eq_iff id i, p.0, e))
      (and_then-Passes ri (on id ≡ false) Rest (step id ri) (for_each step ids)
        (h id ri (λ j. refl))
        (λ mid s. for_each-Passes on step ids mid (λ i m t. h i m (λ j. t j ∙ s j))))

-- A unit whose requiring units are not among these is not, either.
IsEndless-leaves :
    (on : UnitId → Bool) (ri mid : RuntimeInfo) (id : UnitId) (u : UnitEntry)
    → IsEndless on ri.unit_table
    → SameConfigs ri mid
    → get id mid.unit_table ≡ some u
    → ((i : UnitId) → contains u.common.dependencies.required_by i ≡ true → on i ≡ false)
    → on id ≡ false
IsEndless-leaves on ri mid id u endless s found clear = elim (Bool-cases (on id)) [
  | inr off ↦ off
  | inl is_on ↦
      let (v, next, was, c, more) = endless id is_on in
      let (w, again, same) = required_by-Same ri mid id u s found in
      let one : v ≡ w = ground arith in
      let c' : contains u.common.dependencies.required_by next ≡ true =
        subst (λ l. contains l next ≡ true)
          (ap (λ (x : UnitEntry). x.common.dependencies.required_by) one ∙ same) c in
      let off = clear next c' in ground arith
]

recursive-Passes :
    (ops : Ops) (on : UnitId → Bool) (fuel : ℕ) (id : UnitId) (ri mid : RuntimeInfo)
    → IsEndless on ri.unit_table
    → SameConfigs ri mid
    → Passes mid (on id ≡ false) (deactivate_unit_recursive ops fuel id mid)
unfolding deactivate_unit_recursive
recursive-Passes ops on zero id ri mid endless s = tt
recursive-Passes ops on (suc fuel) id ri mid endless s =
    elim (Option-cases (get id mid.unit_table)) [
      | inl lost ↦ rw (lost, deactivate_unit_recursive) tt
      | inr (u, found) ↦
          let below = u.common.dependencies.required_by in
          let Clear = (i : UnitId) → contains below i ≡ true → on i ≡ false in
          rw (found, deactivate_unit_recursive)
            (Passes-weaken mid (Clear × Unit) (on id ≡ false) _
              (λ p. IsEndless-leaves on ri mid id u endless s found p.0)
              (and_then-Passes mid Clear Unit
                (for_each (λ next. deactivate_unit_recursive ops fuel next) below mid)
                (λ m. some (deactivate_unit ops id m))
                (for_each-Passes on (λ next. deactivate_unit_recursive ops fuel next) below mid
                  (λ i m t. recursive-Passes ops on fuel i ri m endless (λ j. t j ∙ s j)))
                (λ m t.
                  deactivate_unit-Passes m (deactivate_unit ops id m)
                    (deactivate_unit-SameConfigs ops id m))))
    ]

-- Where some units of the table each have one of them in their `required_by`, as on a circle, the recursive
-- deactivation of none of them succeeds, whatever the depth of the recursion.
pub deactivate_unit_recursive-ne :
    (ops : Ops) (on : UnitId → Bool) (fuel : ℕ) (id : UnitId) (ri ri' : RuntimeInfo)
    → IsEndless on ri.unit_table
    → on id ≡ true
    → deactivate_unit_recursive ops fuel id ri ≢ some (ok tt, ri')
deactivate_unit_recursive-ne ops on fuel id ri ri' endless is_on e =
    let p = recursive-Passes ops on fuel id ri ri endless (λ j. refl) in
    let q = subst (Passes ri (on id ≡ false)) e p in let off = q.1 in ground arith
