-- ===== src/Removal/Checks.antt =====
-- What the checks before a removal establish.
use rustysd.Prelude.{
  ℕ, zero, suc, ◌≡◌, refl, subst, inl, inr, true, List, [], ◌∷◌, some, arith, contains, Bool-cases,
  Option-cases, ◌==◌,
}
use rustysd.Prelude.Map.{get}
use rustysd.Units.Id.{UnitId, id_eq_iff, unit_id_eq}
use rustysd.Units.Status.{is_stopped}
use rustysd.Units.Unit.{UnitEntry}
use rustysd.Units.Runtime.{UnitTable, status_of}
use rustysd.Deactivation.Stops.{stopped_at, Dependent, here, via}
use rustysd.Removal.{
  Check, passed, refused, check_panicked, check_out_of_fuel, and_also, check_each,
  check_deactivated_recursive,
}

pub and_also_passed : (c d : Check) → and_also c d ≡ passed → (c ≡ passed) × (d ≡ passed)
unfolding and_also
and_also_passed passed d e = (refl, e)
and_also_passed (refused name) d e = absurd (cc)
and_also_passed check_panicked d e = absurd (cc)
and_also_passed check_out_of_fuel d e = absurd (cc)

pub check_each_passed :
    (check : UnitId → Check) (ids : List UnitId)
    → check_each check ids ≡ passed
    → (id : UnitId) → contains ids id ≡ true
    → check id ≡ passed
unfolding check_each contains
check_each_passed check [] e id c = absurd (cc)
check_each_passed check (x ∷ ids) e id c =
    let (first, later) = and_also_passed (check x) (check_each check ids) e in
    elim (Bool-cases (x == id)) [
      | inl same ↦ subst (λ y. check y ≡ passed) ((id_eq_iff x id).0 same) first
      | inr other ↦ check_each_passed check ids later id (ground arith)
    ]

-- What one call that passes says of the unit and of the calls that it makes.
record Passed (fuel : ℕ) (table : UnitTable) (id : UnitId) : Type 0 where
  unit : UnitEntry
  found : get id table ≡ some unit
  off : is_stopped unit.common.status ≡ true
  rest :
      check_each (check_deactivated_recursive fuel table) unit.common.dependencies.required_by
      ≡ passed

check_deactivated_recursive-Passed :
    (fuel : ℕ) (table : UnitTable) (id : UnitId)
    → check_deactivated_recursive (suc fuel) table id ≡ passed
    → Passed fuel table id
unfolding check_deactivated_recursive
check_deactivated_recursive-Passed fuel table id e = elim (Option-cases (get id table)) [
  | inl lost ↦ absurd (ground arith)
  | inr (u, found) ↦ record { unit = u; found = found; off = ground arith; rest = ground arith }
]

stopped_at-entry :
    (table : UnitTable) (id : UnitId) (u : UnitEntry)
    → get id table ≡ some u
    → is_stopped u.common.status ≡ true
    → stopped_at table id ≡ true
unfolding status_of
stopped_at-entry table id u found off = ground arith

-- When the check of a unit passes, the unit and all units that require it, directly or not, are stopped.
pub check_deactivated_recursive_passed :
    (fuel : ℕ) (table : UnitTable) (id : UnitId)
    → check_deactivated_recursive fuel table id ≡ passed
    → (j : UnitId) → Dependent table j id
    → stopped_at table j ≡ true
unfolding check_deactivated_recursive
check_deactivated_recursive_passed zero table id e j d = absurd (cc)
check_deactivated_recursive_passed (suc fuel) table id e j (here same) =
    let p = check_deactivated_recursive-Passed fuel table id e in
    let found = p.found in
    let off = p.off in
    subst (λ i. stopped_at table i ≡ true) same (stopped_at-entry table id p.unit found off)
check_deactivated_recursive_passed (suc fuel) table id e j (via {b} u found listed d) =
    let p = check_deactivated_recursive-Passed fuel table id e in
    let was = p.found in
    let same : p.unit ≡ u = ground arith in
    let rest =
      subst
        (λ v.
          check_each (check_deactivated_recursive fuel table) v.common.dependencies.required_by
          ≡ passed)
        same p.rest in
    check_deactivated_recursive_passed fuel table b
      (check_each_passed (check_deactivated_recursive fuel table) u.common.dependencies.required_by
        rest b listed)
      j d
