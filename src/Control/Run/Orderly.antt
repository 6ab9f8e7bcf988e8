-- ===== src/Control/Run/Orderly.antt =====
-- The invariant of the running system under the commands that start and stop units.
use Prim.Native.String.{String}
use rustysd.Prelude.{
  ℕ, ◌≡◌, sym, subst, inl, inr, List, [], ◌∷◌, Option, none, some, arith, Option-cases, Bool-cases,
  is_empty,
}
use rustysd.Prelude.Partial.{>>=-eq-some}
use rustysd.Units.Id.{UnitId}
use rustysd.Units.Status.{UnitOperationError}
use rustysd.Units.Unit.{UnitEntry}
use rustysd.Units.Runtime.{RuntimeInfo, UnitTable, Result, ok, err, panic}
use rustysd.Units.Lifecycle.{Ops, regular}
use rustysd.Activation.Subgraph.{Collected, done, collect_unit_start_subgraph}
use rustysd.Activation.Pool.{
  Pool, find_startable_units, activate_unit, activate_units_recursive, first_jobs,
  activate_needed_units,
}
use rustysd.Deactivation.{deactivate_unit, deactivate_unit_recursive}
use rustysd.Control.Json.{Value}
use rustysd.Control.Command.{
  Command, list_units, status, load_new, load_all_new, load_all_new_dry, shutdown, remove, restart,
  start, start_all, stop, stop_all,
}
use rustysd.Control.Format.{find_units_with_name}
use rustysd.Control.Execute.{
  CommandError, Executed, answered, unfinished, shutdown_begun, with_unit, after_action,
  after_bounded, after_pool, run_schedule,
}
use rustysd.Control.Run.{Context, execute_command, start_units, run_reload_dry, load_all_units}
use rustysd.Control.Run.Steady.{
  IsSteady, Steady, SteadyIfDone, activate-IsSteady, deactivate_unit-Steady, recursive-Steady,
  run_schedule-IsSteady,
}

-- The commands that start or stop units, begin the shutdown, or only read. A restart that fails stops a unit
-- under those that need it; an enabled unit may stand in the way of units that run.
abbrev pub IsStartOrStop : Command → Type 0
IsStartOrStop (restart name) = ⊥
IsStartOrStop (remove name) = ⊥
IsStartOrStop (load_new names) = ⊥
IsStartOrStop load_all_new = ⊥
IsStartOrStop _ = Unit

-- What a command leaves behind its answer.
abbrev pub LeavesSteady : Executed → Type 0
LeavesSteady (answered (ok value) ri) = IsSteady ri.unit_table
LeavesSteady (answered (err e) ri) = IsSteady ri.unit_table
LeavesSteady (answered panic ri) = Unit {0}
LeavesSteady (unfinished ri) = Unit {0}
LeavesSteady (shutdown_begun ri) = IsSteady ri.unit_table

with_unit-LeavesSteady :
    (name : String) (units : List UnitEntry) (ri : RuntimeInfo) (f : UnitId → Executed)
    → IsSteady ri.unit_table
    → ((id : UnitId) → LeavesSteady (f id))
    → LeavesSteady (with_unit name units ri f)
unfolding with_unit
with_unit-LeavesSteady name [] ri f st h = st
with_unit-LeavesSteady name (u ∷ []) ri f st h = h u.id
with_unit-LeavesSteady name (u ∷ v ∷ units) ri f st h = st

after_activation :
    (r : Result UnitOperationError (List UnitId) × RuntimeInfo)
    → IsSteady r.1.unit_table
    → LeavesSteady (after_action {A = List UnitId} r)
unfolding after_action
after_activation (ok next, ri) st = st
after_activation (err e, ri) st = st
after_activation (panic, ri) st = tt

after_deactivation :
    (r : Result UnitOperationError Unit × RuntimeInfo)
    → Steady r
    → LeavesSteady (after_action {A = Unit {0}} r)
unfolding after_action
after_deactivation (ok x, ri) st = st
after_deactivation (err e, ri) st = st
after_deactivation (panic, ri) st = tt

after_recursion :
    (o : Option (Result UnitOperationError Unit × RuntimeInfo)) (ri : RuntimeInfo)
    → SteadyIfDone o
    → LeavesSteady (after_bounded o ri)
unfolding after_bounded
after_recursion none ri st = tt
after_recursion (some r) ri st = after_deactivation r st

after_pool-LeavesSteady : (p : Pool) → IsSteady p.run_info.unit_table → LeavesSteady (after_pool p)
unfolding after_pool
after_pool-LeavesSteady p st = elim (Bool-cases (is_empty p.jobs)) [
  | inr waiting ↦ rw (waiting, after_pool) tt
  | inl idle ↦ elim (Bool-cases (is_empty p.errors)) [
    | inl well ↦ rw (idle, well, after_pool) st
    | inr ill ↦ rw (idle, ill, after_pool) st
  ]
]

-- The pool begins in the state of the command.
first_jobs-state :
    (ri : RuntimeInfo) (c : Collected) (p : Pool) → first_jobs ri c ≡ some p → p.run_info ≡ ri
unfolding first_jobs
first_jobs-state ri (done needed) p e =
    let (roots, _, more) = >>=-eq-some (find_startable_units needed ri.unit_table) _ e in
    let (jobs, _, last) = >>=-eq-some (activate_units_recursive roots needed ri) _ more in
    ground arith
first_jobs-state ri Collected.panicked p e = absurd (cc)
first_jobs-state ri Collected.out_of_fuel p e = absurd (cc)

start_units-LeavesSteady :
    (ops : Ops) (schedule : List ℕ) (id : UnitId) (ri : RuntimeInfo)
    → IsSteady ri.unit_table
    → LeavesSteady (start_units ops schedule ri (activate_needed_units id ri))
unfolding start_units activate_needed_units
start_units-LeavesSteady ops schedule id ri st =
    elim (Option-cases (first_jobs ri (collect_unit_start_subgraph (id ∷ []) ri.unit_table))) [
      | inl lost ↦ rw (lost, start_units) tt
      | inr (p, begun) ↦
          let same = first_jobs-state ri _ p begun in
          rw (begun, start_units)
            (after_pool-LeavesSteady (run_schedule ops schedule p) (
              run_schedule-IsSteady ops schedule p
                (subst (λ r. IsSteady r.unit_table) (sym same) st)))
    ]

run_reload_dry-LeavesSteady :
    (r : Result String UnitTable) (ri : RuntimeInfo)
    → IsSteady ri.unit_table
    → LeavesSteady (run_reload_dry r ri)
unfolding run_reload_dry
run_reload_dry-LeavesSteady (ok units) ri st = st
run_reload_dry-LeavesSteady (err e) ri st = st
run_reload_dry-LeavesSteady panic ri st = tt

answered-LeavesSteady :
    (r : Result CommandError Value) (ri : RuntimeInfo)
    → IsSteady ri.unit_table
    → LeavesSteady (answered r ri)
answered-LeavesSteady (ok value) ri st = st
answered-LeavesSteady (err e) ri st = st
answered-LeavesSteady panic ri st = tt

-- Where required_by mirrors requires and what a started unit requires and comes after is started, this is so
-- after every answer to a command that starts or stops units or only reads, whatever the order in which the
-- threads run the jobs.
pub execute_command-LeavesSteady :
    (ctx : Context) (command : Command) (ri : RuntimeInfo)
    → IsStartOrStop command
    → IsSteady ri.unit_table
    → LeavesSteady (execute_command ctx command ri)
unfolding execute_command
execute_command-LeavesSteady ctx (list_units kind) ri c st = st
execute_command-LeavesSteady ctx (status name) ri c st = answered-LeavesSteady _ ri st
execute_command-LeavesSteady ctx (load_new names) ri c st = absurd c
execute_command-LeavesSteady ctx load_all_new ri c st = absurd c
execute_command-LeavesSteady ctx load_all_new_dry ri c st =
    run_reload_dry-LeavesSteady (load_all_units ctx.files ctx.target_unit) ri st
execute_command-LeavesSteady ctx shutdown ri c st = st
execute_command-LeavesSteady ctx (remove name) ri c st = absurd c
execute_command-LeavesSteady ctx (restart name) ri c st = absurd c
execute_command-LeavesSteady ctx (start name) ri c st =
    with_unit-LeavesSteady name (find_units_with_name name ri.unit_table) ri _ st (λ id.
      after_activation (activate_unit ctx.ops id regular ri) (activate-IsSteady ctx.ops id ri st))
execute_command-LeavesSteady ctx (start_all name) ri c st =
    with_unit-LeavesSteady name (find_units_with_name name ri.unit_table) ri _ st
      (λ id. start_units-LeavesSteady ctx.ops ctx.schedule id ri st)
execute_command-LeavesSteady ctx (stop name) ri c st =
    with_unit-LeavesSteady name (find_units_with_name name ri.unit_table) ri _ st (λ id.
      after_deactivation (deactivate_unit ctx.ops id ri) (deactivate_unit-Steady ctx.ops id ri st))
execute_command-LeavesSteady ctx (stop_all name) ri c st =
    with_unit-LeavesSteady name (find_units_with_name name ri.unit_table) ri _ st (λ id.
      after_recursion (deactivate_unit_recursive ctx.ops ctx.fuel id ri) ri
        (recursive-Steady ctx.ops ctx.fuel id ri st))
