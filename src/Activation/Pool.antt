-- ===== src/Activation/Pool.antt =====
-- `activate_unit`, `activate_needed_units` and `activate_units_recursive` of src/units/unitset_manipulation/activate.rs.
-- The thread pool holds the jobs that are waiting. A step runs any one of them, so that every order in
-- which the threads take them is a sequence of steps; a job runs as a whole.
pub mod Safety
pub mod Needed
use rustysd.Prelude.{
  Bool, true, false, not, List, [], ◌∷◌, ◌++◌, ◌≡◌, Option, none, some, map, if◌then◌else◌,
  contains, retain, is_empty,
}
use rustysd.Prelude.Map.{get}
use rustysd.Prelude.Partial.{◌>>=◌}
use rustysd.Units.Id.{UnitId, unit_id_eq}
use rustysd.Units.Status.{
  UnitStatus, UnitOperationError, UnitOperationErrorReason, dependency_error,
}
use rustysd.Units.Unit.{UnitEntry}
use rustysd.Units.Runtime.{UnitTable, RuntimeInfo, Result, ok, err, panic}
use rustysd.Units.Transitions.{is_ready}
use rustysd.Units.Lifecycle.{Ops, ActivationSource, regular, activate}
use rustysd.Deactivation.{not_found}
use rustysd.Activation.Subgraph.{
  Collected, done, panicked, out_of_fuel, collect_unit_start_subgraph,
}

-- The fold over `after`. `none` is the `unwrap` of a unit that is not in the table.
unfoldable pub unstarted : UnitTable → List UnitId → List UnitId → Option (List UnitId)
unfolding is_ready
unstarted table requires [] = some []
unstarted table requires (id ∷ ids) = do
  unit ← get id table
  rest ← unstarted table requires ids
  some (if is_ready requires id unit.common.status then rest else id ∷ rest)

unfoldable pub unstarted_deps : UnitId → UnitTable → Option (List UnitId)
unfolding unstarted
unstarted_deps id table = elim (get id table) [
  | none ↦ some []
  | some unit ↦ unstarted table unit.common.dependencies.requires unit.common.dependencies.after
]

unfoldable pub find_startable_units : List UnitId → UnitTable → Option (List UnitId)
unfolding unstarted_deps
find_startable_units [] table = some []
find_startable_units (id ∷ ids) table = do
  deps ← unstarted_deps id table
  rest ← find_startable_units ids table
  some (if is_empty deps then id ∷ rest else rest)

-- `.map(|_| StartResult::Started(next_services_ids))`
unfoldable pub started_next :
    List UnitId
    → Result UnitOperationError UnitStatus × RuntimeInfo
    → Result UnitOperationError (List UnitId) × RuntimeInfo
started_next next (ok st, ri) = (ok next, ri)
started_next next (err e, ri) = (err e, ri)
started_next next (panic, ri) = (panic, ri)

unfoldable pub activate_unit :
    Ops
    → UnitId
    → ActivationSource
    → RuntimeInfo
    → Result UnitOperationError (List UnitId) × RuntimeInfo
unfolding started_next
activate_unit ops id source ri = elim (get id ri.unit_table) [
  | none ↦ (err (not_found id), ri)
  | some unit ↦ started_next unit.common.dependencies.before (activate ops unit source ri)
]

-- A job activates a unit, or goes on with the units that come after one.
pub data Job : Type 0 where
  start : UnitId → Job
  follow : List UnitId → Job

-- `needed` are the `filter_ids`.
pub record Pool : Type 0 where
  pub needed : List UnitId
  pub jobs : List Job
  pub run_info : RuntimeInfo
  pub errors : List UnitOperationError

-- The jobs that one call pushes. `none` is a panic.
unfoldable pub activate_units_recursive :
    List UnitId → List UnitId → RuntimeInfo → Option (List Job)
unfolding find_startable_units
activate_units_recursive ids filter_ids ri = do
  startables ← find_startable_units ids ri.unit_table
  some (map start (retain (contains filter_ids) startables))

-- Errors other than a refusal are kept.
unfoldable pub keep_error : UnitOperationError → List UnitOperationError → List UnitOperationError
keep_error e errors = elim e.reason [ dependency_error ids ↦ errors | _ ↦ errors ++ e ∷ [] ]

-- After `activate_unit` returned. A panic ends the job.
unfoldable pub after_start : Pool → Result UnitOperationError (List UnitId) × RuntimeInfo → Pool
unfolding keep_error
after_start p (ok next, ri) = record p { jobs = p.jobs ++ follow next ∷ []; run_info = ri }
after_start p (err e, ri) = record p { errors = keep_error e p.errors; run_info = ri }
after_start p (panic, ri) = record p { run_info = ri }

unfoldable pub push_jobs : Pool → Option (List Job) → Pool
push_jobs p none = p
push_jobs p (some jobs) = record p { jobs = p.jobs ++ jobs }

unfoldable pub run_job : Ops → Job → Pool → Pool
unfolding after_start activate_unit push_jobs activate_units_recursive
run_job ops (start id) p = after_start p (activate_unit ops id regular p.run_info)
run_job ops (follow ids) p = push_jobs p (activate_units_recursive ids p.needed p.run_info)

-- A thread takes a job out of the pool and runs it.
pub data Step (ops : Ops) : Pool → Pool → Type 0 where
  take :
      {p : Pool} (before after : List Job) (job : Job)
      → p.jobs ≡ before ++ job ∷ after
      → Step ops p (run_job ops job (record p { jobs = before ++ after }))

pub data Steps (ops : Ops) : Pool → Pool → Type 0 where
  end : {p : Pool} → Steps ops p p
  then : {p q r : Pool} → Steps ops p q → Step ops q r → Steps ops p r

-- The jobs for the roots of the units that are needed.
unfoldable pub first_jobs : RuntimeInfo → Collected → Option Pool
unfolding find_startable_units activate_units_recursive
first_jobs ri (done needed) = do
  roots ← find_startable_units needed ri.unit_table
  jobs ← activate_units_recursive roots needed ri
  some (record { needed = needed; jobs = jobs; run_info = ri; errors = [] })
first_jobs ri panicked = none
first_jobs ri out_of_fuel = none

-- The pool with which `activate_needed_units` starts. `none` is a panic.
unfoldable pub activate_needed_units : UnitId → RuntimeInfo → Option Pool
unfolding first_jobs collect_unit_start_subgraph
activate_needed_units target_id ri =
    first_jobs ri (collect_unit_start_subgraph (target_id ∷ []) ri.unit_table)
