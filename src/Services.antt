-- ===== src/Services.antt =====
-- `Service::start` and `Service::kill` of src/services/services.rs. They fill two fields of `Ops`. What they
-- call, in the rest of src/services, stands behind the fields of `ServiceCalls`.
pub mod Errors
use rustysd.Prelude.{
  ℕ, String, Bool, true, false, ◌||◌, List, [], ◌∷◌, Option, none, some, if◌then◌else◌, is_empty,
  nat_eq,
}
use rustysd.Prelude.Map.{insert}
use rustysd.Units.Id.{UnitId}
use rustysd.Units.Config.{ServiceType, ServiceConfig}
use rustysd.Units.Status.{
  RunCmdError, ServiceErrorReason, prestart_failed, prestart_and_poststop_failed, start_failed,
  start_and_poststop_failed, poststart_and_poststop_failed, stop_failed, stop_and_poststop_failed,
  poststop_failed, preparing_failed, generic_service_error, already_has_pid,
}
use rustysd.Units.Unit.{Service}
use rustysd.Units.Runtime.{PidEntry, service, PidTable, Shared, Result, ok, err, panic}
use rustysd.Units.Lifecycle.{
  ActivationSource, regular, socket_activation, StartResult, started_now, waiting, Ops,
}

-- A call gives its result and what it leaves of the service and of the shared state.
abbrev pub Call : Type 0 → Type 0
Call E = ServiceConfig → UnitId → Service → Shared → Result E Unit × Service × Shared

pub record ServiceCalls : Type 0 where
  pub prepare_service : Call String
  pub run_prestart : Call RunCmdError
  pub start_service : Call RunCmdError
  pub wait_for_service : Call RunCmdError
  pub run_poststart : Call RunCmdError
  pub run_stop_cmd : Call RunCmdError
  pub run_poststop : Call RunCmdError

abbrev pub Outcome : Type 0 → Type 0
Outcome A = Result ServiceErrorReason A × Service × Shared

-- The `?` after a call, with `map_err` in `fail`.
unfoldable pub after_call :
    {E A : Type 0}
    → (E → Service → Shared → Outcome A)
    → (Service → Shared → Outcome A)
    → Result E Unit × Service × Shared
    → Outcome A
after_call fail next (ok _, srvc, shared) = next srvc shared
after_call fail next (err e, srvc, shared) = fail e srvc shared
after_call fail next (panic, srvc, shared) = (panic, srvc, shared)

-- The error once the poststop commands have run: `one` where they succeed, `two` where they fail too.
unfoldable pub with_poststop :
    {A : Type 0}
    → (RunCmdError → ServiceErrorReason)
    → (RunCmdError → RunCmdError → ServiceErrorReason)
    → RunCmdError
    → Result RunCmdError Unit × Service × Shared
    → Outcome A
with_poststop one two e (ok _, srvc, shared) = (err (one e), srvc, shared)
with_poststop one two e (err e', srvc, shared) = (err (two e e'), srvc, shared)
with_poststop one two e (panic, srvc, shared) = (panic, srvc, shared)

unfoldable pub is_socket_activation : ActivationSource → Bool
is_socket_activation socket_activation = true
is_socket_activation regular = false

-- The entry of the new process.
unfoldable pub enter_pid : ServiceConfig → UnitId → Option ℕ → Shared → Shared
enter_pid conf id none shared = shared
enter_pid conf id (some pid) shared = record shared {
  pid_table = insert pid (service id conf.srcv_type) shared.pid_table;
}

module _ (calls : ServiceCalls) (conf : ServiceConfig) (id : UnitId) where
  -- The stages of a start, each with what follows it.
  unfoldable pub run_waited : Service → Shared → Outcome StartResult
  unfolding after_call with_poststop
  run_waited srvc shared =
      after_call
        (λ e s sh.
          with_poststop prestart_failed poststart_and_poststop_failed e
            (calls.run_poststop conf id s sh))
        (λ s sh. (ok started_now, s, sh)) (calls.run_poststart conf id srvc shared)

  unfoldable pub run_forked : Service → Shared → Outcome StartResult
  unfolding after_call with_poststop enter_pid run_waited
  run_forked srvc shared =
      after_call
        (λ e s sh.
          with_poststop start_failed start_and_poststop_failed e (calls.run_poststop conf id s sh))
        run_waited (calls.wait_for_service conf id srvc (enter_pid conf id srvc.pid shared))

  unfoldable pub run_ready : Service → Shared → Outcome StartResult
  unfolding after_call run_forked
  run_ready srvc shared =
      after_call (λ e s sh. (err (start_failed e), s, sh)) run_forked
        (calls.start_service conf id srvc shared)

  unfoldable pub run_prepared : Service → Shared → Outcome StartResult
  unfolding after_call with_poststop run_ready
  run_prepared srvc shared =
      after_call
        (λ e s sh.
          with_poststop prestart_failed prestart_and_poststop_failed e
            (calls.run_poststop conf id s sh))
        run_ready (calls.run_prestart conf id srvc shared)

  unfoldable pub run_start : Service → Shared → Outcome StartResult
  unfolding after_call run_prepared
  run_start srvc shared =
      after_call (λ e s sh. (err (preparing_failed e), s, sh)) run_prepared
        (calls.prepare_service conf id srvc shared)

  -- Without a process of its own yet.
  unfoldable pub start_free : ActivationSource → Service → Shared → Outcome StartResult
  unfolding run_start is_socket_activation
  start_free source srvc shared =
      if conf.accept
      then (err (generic_service_error "Inetd style activation is not supported"), srvc, shared)
      else if is_socket_activation source || is_empty conf.sockets
      then run_start srvc shared
      else (ok waiting, srvc, shared)

  unfoldable pub service_start : ActivationSource → Service → Shared → Outcome StartResult
  unfolding start_free
  service_start source srvc shared = elim srvc.pid [
    | some pid ↦ (err (already_has_pid pid), srvc, shared)
    | none ↦ elim srvc.process_group [
      | some pgid ↦ (err (already_has_pid pgid), srvc, shared)
      | none ↦ start_free source srvc shared
    ]
  ]

  unfoldable pub service_kill : Service → Shared → Outcome Unit
  unfolding after_call with_poststop
  service_kill srvc shared =
      after_call
        (λ e s sh.
          with_poststop stop_failed stop_and_poststop_failed e (calls.run_poststop conf id s sh))
        (λ s sh.
          after_call (λ e s sh. (err (poststop_failed e), s, sh)) (λ s sh. (ok tt, s, sh))
            (calls.run_poststop conf id s sh))
        (calls.run_stop_cmd conf id srvc shared)

-- The calls of a service, in the interface of the life cycle.
abbrev pub with_services : ServiceCalls → Ops → Ops
with_services calls ops = record ops { start = service_start calls; kill = service_kill calls }
