-- ===== src/Units/Status.antt =====
-- src/units/status.rs, with the errors that a status carries: those of src/units/unitset_manipulation/activate.rs
-- and src/services/services.rs, and `ChildTermination` of src/signal_handler.rs.
use rustysd.Prelude.{ℕ, String, Bool, true, false, List, nat_beq}
use rustysd.Units.Id.{UnitId}

-- How a child process ended; a signal by its number.
pub data ChildTermination : Type 0 where
  signal : ℕ → ChildTermination
  exit : ℕ → ChildTermination

unfoldable pub success : ChildTermination → Bool
success (signal s) = false
success (exit code) = nat_beq code 0

pub data RunCmdError : Type 0 where
  timeout : String → String → RunCmdError
  spawn_error : String → String → RunCmdError
  wait_error : String → String → RunCmdError
  bad_exit_code : String → ChildTermination → RunCmdError
  exit_before_notify : ChildTermination → RunCmdError
  generic : String → RunCmdError

pub data ServiceErrorReason : Type 0 where
  prestart_failed poststart_failed start_failed poststop_failed stop_failed :
      RunCmdError → ServiceErrorReason
  prestart_and_poststop_failed poststart_and_poststop_failed start_and_poststop_failed
        stop_and_poststop_failed :
      RunCmdError → RunCmdError → ServiceErrorReason
  preparing_failed : String → ServiceErrorReason
  generic_service_error : String → ServiceErrorReason
  already_has_pid : ℕ → ServiceErrorReason
  already_has_pgid : ℕ → ServiceErrorReason

pub data UnitOperationErrorReason : Type 0 where
  generic_start_error generic_stop_error socket_open_error socket_close_error :
      String → UnitOperationErrorReason
  service_start_error service_stop_error : ServiceErrorReason → UnitOperationErrorReason
  dependency_error : List UnitId → UnitOperationErrorReason

pub record UnitOperationError : Type 0 where
  pub reason : UnitOperationErrorReason
  pub unit_name : String
  pub unit_id : UnitId

pub data StatusStarted : Type 0 where
  running waiting_for_socket : StatusStarted

pub data StatusStopped : Type 0 where
  stopped_final stopped_unexpected : StatusStopped

pub data UnitStatus : Type 0 where
  never_started starting stopping restarting : UnitStatus
  started : StatusStarted → UnitStatus
  stopped : StatusStopped → List UnitOperationErrorReason → UnitStatus

unfoldable pub is_stopped : UnitStatus → Bool
is_stopped (stopped k reasons) = true
is_stopped _ = false

unfoldable pub is_started : UnitStatus → Bool
is_started (started k) = true
is_started _ = false

-- The test `*status != UnitStatus::NeverStarted`, negated.
unfoldable pub is_never_started : UnitStatus → Bool
is_never_started never_started = true
is_never_started _ = false
