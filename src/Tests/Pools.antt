-- ===== src/Tests/Pools.antt =====
-- The theorem on the thread pool, applied to a run that starts the sample system from its target.
use rustysd.Units.Dependencies.{start_concurrently_with_this, start_before_this, sort_dedup}
use rustysd.Activation.Subgraph.{needs, unknown, gather, collect}
use rustysd.Units.Lifecycle.{activate}
use rustysd.Prelude.{inr, inl, contains, retain, ◌≡◌, refl, [], ◌∷◌, some, arith}
use rustysd.Prelude.Map.{get}
use rustysd.Units.Id.{UnitId, id_eq, unit_id_eq}
use rustysd.Units.Status.{never_started, started, running}
use rustysd.Units.Lifecycle.Frame.{SameStatus}
use rustysd.Units.Lifecycle.Orderly.{IsOrderly}
use rustysd.Deactivation.Stops.{IsKeyed}
use rustysd.Activation.Subgraph.Reach.{Reach}
use rustysd.Activation.Pool.{
  start, follow, Pool, run_job, take, Steps, end, then, activate_needed_units,
}
use rustysd.Activation.Pool.Needed.{activate_needed_units-IsOrderly}
use rustysd.Tests.Samples.{db, web, working, half, half-IsOrderly, system-cases}

half-IsKeyed : IsKeyed half.unit_table
half-IsKeyed id u found = elim (system-cases (started running) never_started id u found) [
  | inl (same, e) ↦ ground arith
  | inr (same, e) ↦ ground arith
]

abbrev begin : Pool
begin = record {
  needed = web ∷ db ∷ [];
  jobs = start web ∷ start db ∷ [];
  run_info = half;
  errors = [];
}

begin-half : activate_needed_units web half ≡ some begin
unfolding activate_needed_units collect gather get id_eq unknown retain sort_dedup needs
    start_before_this start_concurrently_with_this contains
begin-half = refl

abbrev middle : Pool
middle = run_job working (start db) (record begin { jobs = start web ∷ [] })

abbrev last : Pool
last = run_job working (start web) (record middle { jobs = follow (web ∷ []) ∷ [] })

jobs-middle : middle.jobs ≡ start web ∷ follow (web ∷ []) ∷ []
unfolding run_job get id_eq activate
jobs-middle = refl

-- The second job is taken first.
turns : Steps working begin last
turns =
    then (then end (take (start web ∷ []) [] (start db) refl))
      (take [] (follow (web ∷ []) ∷ []) (start web) jobs-middle)

activate_needed_units-IsOrderly_example :
    IsOrderly last.run_info.unit_table
    × ((j : UnitId) → ¬ Reach half.unit_table (web ∷ []) j → SameStatus j half last.run_info)
activate_needed_units-IsOrderly_example =
    activate_needed_units-IsOrderly working web half begin last half-IsKeyed half-IsOrderly
      begin-half turns
