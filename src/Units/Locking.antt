-- ===== src/Units/Locking.antt =====
-- `aquire_locks` of src/units/unitset_manipulation/locking.rs.
pub mod Complete
use rustysd.Prelude.{
  Bool, false, ◌||◌, List, [], ◌∷◌, map, Option, none, some, if◌then◌else◌, contains,
}
use rustysd.Prelude.Map.{get}
use rustysd.Prelude.Partial.{◌>>=◌}
use rustysd.Units.Id.{UnitId, unit_id_eq}
use rustysd.Units.Status.{UnitStatus}
use rustysd.Units.Runtime.{UnitTable}
use rustysd.Units.Dependencies.{sort_dedup}

unfoldable pub overlaps : List UnitId → List UnitId → Bool
overlaps [] shared = false
overlaps (e ∷ exclusive) shared = contains shared e || overlaps exclusive shared

-- What the locks on some units show. `none` is the panic at a unit that is not in the table.
unfoldable pub statuses : UnitTable → List UnitId → Option (List (UnitId × UnitStatus))
statuses table [] = some []
statuses table (id ∷ ids) = do
  unit ← get id table
  rest ← statuses table ids
  some ((id, unit.common.status) ∷ rest)

-- The two maps: the statuses behind the exclusive and behind the shared locks. `none` is a panic; the order in
-- which the locks are taken does not show in the maps.
unfoldable pub aquire_locks :
    List UnitId
    → List UnitId
    → UnitTable
    → Option (List (UnitId × UnitStatus) × List (UnitId × UnitStatus))
unfolding overlaps statuses
aquire_locks exclusive shared table =
    if overlaps (sort_dedup exclusive) (sort_dedup shared) then none else do
      held ← statuses table (sort_dedup exclusive)
      others ← statuses table (sort_dedup shared)
      some (held, others)
