-- ===== src/ServiceExit.antt =====
-- `service_exit_handler` of src/services/service_exit_handler.rs: what happens when a process ends.
-- `Kill` is `Service::kill_all_remaining_processes`, of which nothing is assumed.
pub mod Cases
use rustysd.Prelude.{
  ℕ, zero, suc, String, Bool, true, false, ◌||◌, List, [], ◌∷◌, Option, none, some, if◌then◌else◌,
  ◌==◌, nat_eq,
}
use rustysd.Prelude.Map.{get, insert}
use rustysd.Units.Id.{UnitId, unit_id_eq}
use rustysd.Units.Status.{
  ChildTermination, UnitStatus, starting, UnitOperationError, UnitOperationErrorReason,
  dependency_error, is_started,
}
use rustysd.Units.Config.{ServiceType, one_shot, ServiceRestart, always, never}
use rustysd.Units.Unit.{Service, ServiceSpecific, Specific, service, socket, target, UnitEntry}
use rustysd.Units.Runtime.{
  PidEntry, service, service_exited, helper, helper_exited, PidTable, Shared, RuntimeInfo, Result,
  ok, err, panic,
}
use rustysd.Units.Lifecycle.{Ops, put_service, current_status}
use rustysd.Deactivation.{deactivate_unit_recursive, reactivate_unit}

-- How the handler ends; `turning` is a loop that is still going when the fuel is used up.
pub data Exit : Type 0 where
  handled : RuntimeInfo → Exit
  failed : UnitOperationError → RuntimeInfo → Exit
  panicked : RuntimeInfo → Exit
  turning : RuntimeInfo → Exit

abbrev pub Kill : Type 0
Kill = String → Service → Shared → Service × Shared

unfoldable pub set_pid : ℕ → PidEntry → RuntimeInfo → RuntimeInfo
set_pid pid entry ri = record ri {
  shared = record ri.shared { pid_table = insert pid entry ri.shared.pid_table };
}

unfoldable pub is_dependency_error : UnitOperationErrorReason → Bool
is_dependency_error (dependency_error ids) = true
is_dependency_error _ = false

-- One turn of the loop: `Ok` goes on as well as a refusal.
unfoldable pub retry :
    (RuntimeInfo → Exit)
    → Option (Result UnitOperationError Unit × RuntimeInfo)
    → RuntimeInfo
    → Exit
unfolding is_dependency_error
retry again (some (ok _, ri')) ri = again ri'
retry again (some (err e, ri')) ri =
    let next = again ri' in if is_dependency_error e.reason then next else failed e ri'
retry again (some (panic, ri')) ri = panicked ri'
retry again none ri = turning ri

-- `turns` bounds the turns of the loop, and `fuel` each recursive deactivation.
unfoldable pub deactivate_loop : Ops → ℕ → ℕ → UnitId → RuntimeInfo → Exit
unfolding retry deactivate_unit_recursive
deactivate_loop ops fuel zero id ri = turning ri
deactivate_loop ops fuel (suc turns) id ri =
    retry (deactivate_loop ops fuel turns id) (deactivate_unit_recursive ops fuel id ri) ri

unfoldable pub reactivated : Result UnitOperationError Unit × RuntimeInfo → Exit
reactivated (ok _, ri) = handled ri
reactivated (err e, ri) = failed e ri
reactivated (panic, ri) = panicked ri

unfoldable pub is_one_shot : ServiceType → Bool
is_one_shot one_shot = true
is_one_shot _ = false

unfoldable pub restarts : Specific → Bool
restarts (service s) = elim s.conf.restart [ always ↦ true | never ↦ false ]
restarts _ = false

unfoldable pub is_starting : UnitStatus → Bool
is_starting starting = true
is_starting _ = false

-- Restart, or stop what requires the service; only a service that is started or starting is handled.
unfoldable pub restart_or_stop : Ops → ℕ → ℕ → UnitId → UnitEntry → RuntimeInfo → Exit
unfolding restarts is_starting is_started reactivated deactivate_loop reactivate_unit
restart_or_stop ops fuel turns id unit ri =
    if is_started unit.common.status || is_starting unit.common.status
    then if restarts unit.specific
      then reactivated (reactivate_unit ops id ri)
      else deactivate_loop ops fuel turns id ri
    else handled ri

-- The processes that a oneshot service left are killed; any other service is restarted or stopped.
unfoldable pub service_ended :
    Ops → Kill → ℕ → ℕ → UnitId → UnitEntry → Specific → RuntimeInfo → Exit
unfolding restart_or_stop is_one_shot put_service
service_ended ops kill fuel turns id unit (service s) ri =
    let (srvc, shared) = kill unit.id.name s.state.srvc ri.shared in
    if is_one_shot s.conf.srcv_type
    then handled (put_service unit s srvc shared ri)
    else restart_or_stop ops fuel turns id unit ri
service_ended ops kill fuel turns id unit other ri = restart_or_stop ops fuel turns id unit ri

unfoldable pub service_exit : Ops → Kill → ℕ → ℕ → UnitId → RuntimeInfo → Exit
unfolding service_ended
service_exit ops kill fuel turns id ri = elim (get id ri.unit_table) [
  | none ↦ panicked ri
  | some unit ↦ service_ended ops kill fuel turns id unit unit.specific ri
]

-- The entry of the process decides.
unfoldable pub by_entry :
    Ops → Kill → ℕ → ℕ → ℕ → ChildTermination → Option PidEntry → RuntimeInfo → Exit
unfolding set_pid service_exit
by_entry ops kill fuel turns pid code none ri = handled ri
by_entry ops kill fuel turns pid code (some (service id srvc_type)) ri =
    service_exit ops kill fuel turns id (set_pid pid (service_exited code) ri)
by_entry ops kill fuel turns pid code (some (helper id name)) ri =
    handled (set_pid pid (helper_exited code) ri)
by_entry ops kill fuel turns pid code (some (helper_exited old)) ri = handled ri
by_entry ops kill fuel turns pid code (some (service_exited old)) ri = handled ri

unfoldable pub service_exit_handler : Ops → Kill → ℕ → ℕ → ℕ → ChildTermination → RuntimeInfo → Exit
unfolding by_entry
service_exit_handler ops kill fuel turns pid code ri =
    by_entry ops kill fuel turns pid code (get pid ri.shared.pid_table) ri
