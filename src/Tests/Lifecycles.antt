-- ===== src/Tests/Lifecycles.antt =====
-- The theorems on a single unit, applied to the sample system.
use rustysd.Prelude.{◌≡◌, ◌≢◌, refl, false, ◌&&◌, [], ◌∷◌, contains, arith}
use rustysd.Units.Id.{id_eq, kind_eq, unit_id_eq}
use rustysd.Units.Locking.Complete.{IsAcquired, aquire_locks-IsAcquired}
use rustysd.Units.Locking.{aquire_locks, overlaps, statuses}
use rustysd.Units.Dependencies.{
  sort_dedup, sort, dedup, dedup_from, insert_sorted, kill_before_this,
}
use rustysd.Units.Transitions.{unkilled, commit}
use rustysd.Units.Lifecycle.{deactivate_from, specific_deactivate, stopped_with}
use rustysd.Prelude.Map.{get}
use rustysd.Units.Status.{never_started, started, running, starting, stopping, is_stopped}
use rustysd.Units.Runtime.{status_of, ok, panic}
use rustysd.Units.Transitions.{state_transition_starting, state_transition_stopping}
use rustysd.Units.Transitions.Exact.{
  IsExact, hinders_start, hinders_stop, state_transition_starting-IsExact,
  state_transition_stopping-IsExact,
}
use rustysd.Units.Lifecycle.{regular, activate, deactivate, reactivate}
use rustysd.Units.Lifecycle.Frame.{SameStatus, lifecycle-SameStatus}
use rustysd.Units.Lifecycle.Reports.{ActivateReport, activate-Report}
use rustysd.Units.Lifecycle.Orderly.{IsOrderly, activate-IsOrderly, deactivate-IsOrderly}
use rustysd.Tests.Samples.{
  db, web, working, db_unit, web_unit, half, both, half-web, both-web, half-IsOrderly,
  both-IsOrderly, system-IsMirrored,
}

activate-IsOrderly_example :
    IsOrderly (activate working (web_unit never_started) regular half).1.unit_table
activate-IsOrderly_example =
    activate-IsOrderly working (web_unit never_started) half half-web half-IsOrderly

deactivate-web : (deactivate working (web_unit (started running)) both).0 ≡ ok tt
unfolding deactivate deactivate_from state_transition_stopping aquire_locks overlaps statuses
    sort_dedup sort dedup dedup_from insert_sorted kill_before_this unkilled commit get id_eq
    kind_eq is_stopped specific_deactivate stopped_with contains
deactivate-web = refl

calm : (deactivate working (web_unit (started running)) both).0 ≢ panic
calm = let r = deactivate-web in ground arith

deactivate-IsOrderly_example :
    IsOrderly (deactivate working (web_unit (started running)) both).1.unit_table
deactivate-IsOrderly_example =
    deactivate-IsOrderly working (web_unit (started running)) both both-web
      (system-IsMirrored (started running) (started running)) calm both-IsOrderly

state_transition_starting-IsExact_example :
    IsExact
      (web_unit never_started)
      (db ∷ [])
      starting
      (λ d.
        contains (db ∷ []) d && hinders_start (contains (db ∷ []) d) (status_of d half.unit_table))
      half
      (state_transition_starting (web_unit never_started) half)
state_transition_starting-IsExact_example =
    state_transition_starting-IsExact (web_unit never_started) half

state_transition_stopping-IsExact_example :
    IsExact
      (db_unit (started running))
      (web ∷ [])
      stopping
      (λ d. contains (web ∷ []) d && hinders_stop (status_of d both.unit_table))
      both
      (state_transition_stopping (db_unit (started running)) both)
state_transition_stopping-IsExact_example =
    state_transition_stopping-IsExact (db_unit (started running)) both

activate-Report_example :
    ActivateReport
      (web_unit never_started)
      half
      (activate working (web_unit never_started) regular half)
activate-Report_example = activate-Report working (web_unit never_started) regular half half-web

other : id_eq web db ≡ false
unfolding id_eq kind_eq
other = refl

lifecycle-SameStatus_example :
    SameStatus db half (activate working (web_unit never_started) regular half).1
    × SameStatus db half (deactivate working (web_unit never_started) half).1
    × SameStatus db half (reactivate working (web_unit never_started) regular half).1
lifecycle-SameStatus_example =
    lifecycle-SameStatus working (web_unit never_started) regular half db other

aquire_locks-IsAcquired_example :
    IsAcquired
      (web ∷ [])
      (db ∷ [])
      half.unit_table
      (aquire_locks (web ∷ []) (db ∷ []) half.unit_table)
aquire_locks-IsAcquired_example = aquire_locks-IsAcquired (web ∷ []) (db ∷ []) half.unit_table
