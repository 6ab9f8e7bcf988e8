-- ===== src/Deactivation.antt =====
-- src/units/unitset_manipulation/deactivate.rs: units are stopped after those that require them.
pub mod Stops
pub mod Fuel
pub mod Circles
use rustysd.Prelude.{ℕ, zero, suc, String, List, [], ◌∷◌, Option, none, some}
use rustysd.Prelude.Map.{get}
use rustysd.Units.Id.{UnitId, unit_id_eq}
use rustysd.Units.Status.{UnitOperationError, generic_start_error}
use rustysd.Units.Unit.{UnitEntry}
use rustysd.Units.Runtime.{RuntimeInfo, Result, ok, err, panic, Action}
use rustysd.Units.Lifecycle.{Ops, ActivationSource, regular, deactivate, reactivate}

-- The error at an identifier that is not in the table.
abbrev pub not_found : UnitId → UnitOperationError
not_found id = record {
  reason = generic_start_error "Tried to activate a unit that can not be found";
  unit_name = id.name;
  unit_id = id;
}

-- A call that may run out of fuel, `none`.
abbrev pub Bounded : Type 0 → Type 0
Bounded A = RuntimeInfo → Option (Result UnitOperationError A × RuntimeInfo)

-- The `?` after a call: what follows runs only after `Ok`.
unfoldable pub and_then :
    Option (Result UnitOperationError Unit × RuntimeInfo)
    → Bounded Unit
    → Option (Result UnitOperationError Unit × RuntimeInfo)
and_then (some (ok _, ri)) next = next ri
and_then (some (err e, ri)) next = some (err e, ri)
and_then (some (panic, ri)) next = some (panic, ri)
and_then none next = none

-- `for id in ids { step(id)?; } Ok(())`
unfoldable pub for_each : (UnitId → Bounded Unit) → List UnitId → Bounded Unit
unfolding and_then
for_each step [] ri = some (ok tt, ri)
for_each step (id ∷ ids) ri = and_then (step id ri) (for_each step ids)

module _ (ops : Ops) where
  unfoldable pub deactivate_unit : UnitId → Action Unit
  deactivate_unit id ri = elim (get id ri.unit_table) [
    | none ↦ (err (not_found id), ri)
    | some unit ↦ deactivate ops unit ri
  ]

  unfoldable pub deactivate_units : List UnitId → Bounded Unit
  unfolding for_each deactivate_unit
  deactivate_units ids = for_each (λ id ri. some (deactivate_unit id ri)) ids

  -- The fuel bounds the depth of the recursion, which Rust leaves to its stack.
  unfoldable pub deactivate_unit_recursive : ℕ → UnitId → Bounded Unit
  unfolding for_each deactivate_unit
  deactivate_unit_recursive zero id ri = none
  deactivate_unit_recursive (suc fuel) id ri = elim (get id ri.unit_table) [
    | none ↦ some (err (not_found id), ri)
    | some unit ↦
        and_then
          (for_each (λ next. deactivate_unit_recursive fuel next)
            unit.common.dependencies.required_by ri)
          (λ ri'. some (deactivate_unit id ri'))
  ]

  unfoldable pub deactivate_units_recursive : ℕ → List UnitId → Bounded Unit
  unfolding deactivate_unit_recursive
  deactivate_units_recursive fuel = for_each (deactivate_unit_recursive fuel)

  unfoldable pub reactivate_unit : UnitId → Action Unit
  reactivate_unit id ri = elim (get id ri.unit_table) [
    | none ↦ (err (not_found id), ri)
    | some unit ↦ reactivate ops unit regular ri
  ]
