-- ===== src/Activation/Subgraph.antt =====
-- `collect_unit_start_subgraph` of src/units/unitset_manipulation/activate.rs.
pub mod Reach
pub mod Fuel
use rustysd.Prelude.{
  ℕ, zero, suc, ◌+◌, ◌≡◌, Bool, true, false, not, List, [], ◌∷◌, ◌++◌, Option, none, some, contains,
  retain, length,
}
use rustysd.Prelude.Map.{get}
use rustysd.Prelude.Partial.{◌>>=◌}
use rustysd.Units.Id.{UnitId, unit_id_eq}
use rustysd.Units.Unit.{UnitEntry}
use rustysd.Units.Runtime.{UnitTable}
use rustysd.Units.Dependencies.{sort_dedup, start_before_this, start_concurrently_with_this}

-- What one unit adds to `new_ids`.
unfoldable pub needs : UnitEntry → List UnitId
needs u =
    let deps = u.common.dependencies in start_before_this deps ++ start_concurrently_with_this deps

-- The `for` loop. `none` is the panic of `unit_table.get(id).unwrap()`.
unfoldable pub gather : UnitTable → List UnitId → Option (List UnitId)
gather table [] = some []
gather table (id ∷ ids) = do unit ← get id table; rest ← gather table ids; some (needs unit ++ rest)

pub data Collected : Type 0 where
  done : List UnitId → Collected
  panicked out_of_fuel : Collected

-- What a round does once `new_ids` has been gathered; `next` is the rest of the loop.
unfoldable pub settle : List UnitId → (List UnitId → Collected) → List UnitId → Collected
settle ids next [] = done ids
settle ids next (id ∷ new_ids) = next (ids ++ id ∷ new_ids)

unfoldable pub unknown : List UnitId → List UnitId → List UnitId
unknown ids new_ids = retain (λ id. not (contains ids id)) (sort_dedup new_ids)

unfoldable pub collect : ℕ → UnitTable → List UnitId → Collected
unfolding settle
collect zero table ids = out_of_fuel
collect (suc fuel) table ids = elim (gather table ids) [
  | none ↦ panicked
  | some new_ids ↦ settle ids (λ all. collect fuel table all) (unknown ids new_ids)
]

-- Each round but the last adds a unit of the table, or an identifier at which the next round panics.
unfoldable pub collect_unit_start_subgraph : List UnitId → UnitTable → Collected
collect_unit_start_subgraph ids table = collect (length table + 2) table ids
