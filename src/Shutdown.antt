-- ===== src/Shutdown.antt =====
-- src/shutdown.rs: the units are stopped one by one, each before the units that it was started after.
-- The loop of `shutdown_sequence` is modelled; the guard against a second signal, the control
-- socket, the cgroups and the exit of the process are not. Closing a notification socket and removing
-- its file are visible in the unit only as the field that is cleared.
pub mod Ends
pub mod Order
pub mod Stops
use rustysd.Prelude.{
  ℕ, zero, suc, ◌+◌, Bool, true, false, List, [], ◌∷◌, Option, none, some, if◌then◌else◌,
}
use rustysd.Prelude.Map.{get}
use rustysd.Prelude.Partial.{◌>>=◌}
use rustysd.Units.Id.{UnitId, unit_id_eq}
use rustysd.Units.Status.{stopping, stopped, stopped_final, is_started}
use rustysd.Units.Unit.{Service, Specific, service, socket, target, UnitEntry}
use rustysd.Units.Runtime.{UnitTable, RuntimeInfo, Result, ok, err, panic, set_status}
use rustysd.Units.Lifecycle.{Ops, put_service, put_socket}

-- The units of `before` that are started. `none` is the `unwrap` of a unit that is not in the table.
unfoldable pub kill_before : UnitTable → List UnitId → Option (List UnitId)
unfolding is_started
kill_before table [] = some []
kill_before table (id ∷ ids) = do
  unit ← get id table
  rest ← kill_before table ids
  some (if is_started unit.common.status then id ∷ rest else rest)

-- What the search for a unit to stop gives; `missing` is a panic.
pub data Next : Type 0 where
  chosen : UnitId → Next
  nothing missing : Next

-- One turn of the search at a started unit; `rest` is the outcome of the turns that follow.
unfoldable pub choose : UnitId → Option (List UnitId) → Next → Next
choose id none rest = missing
choose id (some []) rest = chosen id
choose id (some (_ ∷ _)) rest = rest

unfoldable pub next_in : UnitTable → UnitTable → Next
unfolding is_started kill_before choose
next_in table [] = nothing
next_in table ((_, unit) ∷ units) =
    let rest = next_in table units in
    if is_started unit.common.status
    then choose unit.id (kill_before table unit.common.dependencies.before) rest
    else rest

unfoldable pub get_next_service_to_shutdown : UnitTable → Next
unfolding next_in
get_next_service_to_shutdown table = next_in table table

-- `notifications = None`, after the socket was shut down.
unfoldable pub close_notifications : Service → Service
close_notifications srvc = record srvc { notifications = none }

-- An error of the kill or the close is logged only: the unit is stopped in any case. `none` is a panic.
unfoldable pub mark_stopped :
    {E : Type 0} → UnitId → Result E Unit → RuntimeInfo → Option RuntimeInfo
mark_stopped id (ok _) ri = some (set_status id (stopped stopped_final []) ri)
mark_stopped id (err e) ri = some (set_status id (stopped stopped_final []) ri)
mark_stopped id panic ri = none

module _ (ops : Ops) where
  unfoldable pub shutdown_specific : UnitEntry → Specific → RuntimeInfo → Option RuntimeInfo
  unfolding mark_stopped close_notifications put_service put_socket
  shutdown_specific unit (service s) ri =
      let (res, srvc, shared) = ops.kill s.conf unit.id s.state.srvc ri.shared in
      mark_stopped unit.id res (put_service unit s (close_notifications srvc) shared ri)
  shutdown_specific unit (socket s) ri =
      let (res, sock, shared) = ops.close_all s.conf unit.id s.state.sock ri.shared in
      mark_stopped unit.id res (put_socket unit s sock shared ri)
  shutdown_specific unit (target c) ri = some (set_status unit.id (stopped stopped_final []) ri)

  unfoldable pub shutdown_unit : UnitId → RuntimeInfo → Option RuntimeInfo
  unfolding shutdown_specific set_status
  shutdown_unit shutdown_id ri = do
    unit ← get shutdown_id ri.unit_table
    shutdown_specific unit unit.specific (set_status unit.id stopping ri)

-- How the loop ends.
pub data Shutdown : Type 0 where
  finished : RuntimeInfo → Shutdown
  panicked out_of_fuel : Shutdown

-- One turn: `continue` is the rest of the loop.
unfoldable pub shutdown_turn :
    (RuntimeInfo → Shutdown)
    → (UnitId → RuntimeInfo → Option RuntimeInfo)
    → RuntimeInfo
    → Next
    → Shutdown
shutdown_turn continue stop ri nothing = finished ri
shutdown_turn continue stop ri missing = panicked
shutdown_turn continue stop ri (chosen id) = elim (stop id ri) [
  | none ↦ panicked
  | some ri' ↦ continue ri'
]

unfoldable pub shutdown_loop : Ops → ℕ → RuntimeInfo → Shutdown
unfolding shutdown_turn shutdown_unit get_next_service_to_shutdown
shutdown_loop ops zero ri = out_of_fuel
shutdown_loop ops (suc fuel) ri =
    shutdown_turn (shutdown_loop ops fuel) (shutdown_unit ops) ri
      (get_next_service_to_shutdown ri.unit_table)

unfoldable pub started_units : UnitTable → ℕ
unfolding is_started
started_units [] = 0
started_units ((_, unit) ∷ units) =
    let rest = started_units units in if is_started unit.common.status then suc rest else rest

-- Each turn but the last stops a started unit.
unfoldable pub shutdown_sequence : Ops → RuntimeInfo → Shutdown
unfolding shutdown_loop started_units
shutdown_sequence ops ri = shutdown_loop ops (started_units ri.unit_table + 1) ri
