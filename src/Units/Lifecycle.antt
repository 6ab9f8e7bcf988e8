-- ===== src/Units/Lifecycle.antt =====
-- `Unit::activate`, `Unit::deactivate` and `Unit::reactivate` of src/units/unit.rs, with the parts for each kind of unit.
-- Starting and killing a service, and opening and closing a socket, are the fields of `Ops`.
pub mod Same
pub mod Frame
pub mod Start
pub mod Reports
pub mod Orderly
use rustysd.Prelude.{String, Bool, true, false, List, [], ◌∷◌, none, some, if◌then◌else◌}
use rustysd.Prelude.Map.{get}
use rustysd.Units.Id.{UnitId, unit_id_eq}
use rustysd.Units.Config.{ServiceConfig, SocketConfig}
use rustysd.Units.Status.{
  ServiceErrorReason, UnitOperationErrorReason, socket_open_error, socket_close_error,
  service_start_error, service_stop_error, dependency_error, UnitOperationError, UnitStatus,
  StatusStopped, started, stopped, running, waiting_for_socket, stopped_final, stopped_unexpected,
  is_started, is_stopped,
}
use rustysd.Units.Unit.{
  Service, Socket, ServiceSpecific, SocketSpecific, Specific, service, socket, target, UnitEntry,
}
use rustysd.Units.Runtime.{
  Shared, RuntimeInfo, Result, ok, err, panic, Action, update, with_specific, set_status,
  notify_eventfds,
}
use rustysd.Units.Transitions.{
  Transition, allowed, blocked, panicked, state_transition_starting, state_transition_restarting,
  state_transition_stopping,
}

pub data ActivationSource : Type 0 where
  regular socket_activation : ActivationSource

pub data StartResult : Type 0 where
  started_now waiting : StartResult

-- What `Service` and `Socket` offer: each call gives its result, the new state of the service or socket,
-- and what it did to the shared state.
pub record Ops : Type 0 where
  pub start :
      ServiceConfig
      → UnitId
      → ActivationSource
      → Service
      → Shared
      → Result ServiceErrorReason StartResult × Service × Shared
  pub kill :
      ServiceConfig → UnitId → Service → Shared → Result ServiceErrorReason Unit × Service × Shared
  pub open_all : SocketConfig → UnitId → Socket → Shared → Result String Unit × Socket × Shared
  pub close_all : SocketConfig → UnitId → Socket → Shared → Result String Unit × Socket × Shared

abbrev pub error_of : UnitEntry → UnitOperationErrorReason → UnitOperationError
error_of self reason = record { reason = reason; unit_name = self.id.name; unit_id = self.id }

-- The state of a service after a call, written back.
unfoldable pub put_service :
    UnitEntry → ServiceSpecific → Service → Shared → RuntimeInfo → RuntimeInfo
put_service self s srvc shared ri =
    update self.id (with_specific (service (record s { state = record s.state { srvc = srvc } })))
      (record ri { shared = shared })

unfoldable pub put_socket : UnitEntry → SocketSpecific → Socket → Shared → RuntimeInfo → RuntimeInfo
put_socket self s sock shared ri =
    update self.id (with_specific (socket (record s { state = record s.state { sock = sock } })))
      (record ri { shared = shared })

unfoldable pub listen_again : Specific → Specific
listen_again (socket s) =
    socket (record s { state = record s.state { sock = record { activated = false } } })
listen_again other = other

-- The loop that tells socket activation to listen to the sockets of a waiting service again.
unfoldable pub listen_again_all : List UnitId → RuntimeInfo → RuntimeInfo
unfolding listen_again
listen_again_all [] ri = ri
listen_again_all (id ∷ ids) ri =
    listen_again_all ids (update id (λ u. record u { specific = listen_again u.specific }) ri)

-- A failed start ends in this status, with the reason.
unfoldable pub fail :
    UnitEntry → UnitOperationErrorReason → StatusStopped → RuntimeInfo → RuntimeInfo
fail self reason how ri = set_status self.id (stopped how (reason ∷ [])) ri

-- After `start` returned, in `ServiceState::activate`.
unfoldable pub service_started :
    UnitEntry → ServiceSpecific → Result ServiceErrorReason StartResult → Action UnitStatus
unfolding fail listen_again_all
service_started self s (ok started_now) ri =
    (ok (started running), set_status self.id (started running) ri)
service_started self s (ok waiting) ri = (
  ok (started waiting_for_socket),
  notify_eventfds
      (listen_again_all s.conf.sockets (set_status self.id (started waiting_for_socket) ri)),
)
service_started self s (err e) ri = (
  err (error_of self (service_start_error e)),
  fail self (service_start_error e) stopped_unexpected ri,
)
service_started self s panic ri = (panic, ri)

-- After `open_all` returned, in `SocketState::activate`.
unfoldable pub socket_opened : UnitEntry → Result String Unit → Action UnitStatus
unfolding fail
socket_opened self (ok _) ri =
    (ok (started running), notify_eventfds (set_status self.id (started running) ri))
socket_opened self (err e) ri = (
  err (error_of self (socket_open_error e)),
  fail self (socket_open_error e) stopped_unexpected ri,
)
socket_opened self panic ri = (panic, ri)

-- After a kill or a close returned, in the two `deactivate`; `wrap` makes the reason of the unit's error.
unfoldable pub stopped_with :
    {E : Type 0} → (E → UnitOperationErrorReason) → UnitEntry → Result E Unit → Action Unit
unfolding fail
stopped_with wrap self (ok _) ri = (ok tt, set_status self.id (stopped stopped_final []) ri)
stopped_with wrap self (err e) ri =
    (err (error_of self (wrap e)), fail self (wrap e) stopped_final ri)
stopped_with wrap self panic ri = (panic, ri)

-- In the two `reactivate`: where the stop failed nothing is started.
unfoldable pub restart_after :
    {E : Type 0}
    → (E → UnitOperationErrorReason)
    → UnitEntry
    → Result E Unit
    → Action Unit
    → Action Unit
unfolding fail
restart_after wrap self (ok _) again ri = again ri
restart_after wrap self (err e) again ri =
    (err (error_of self (wrap e)), fail self (wrap e) stopped_final ri)
restart_after wrap self panic again ri = (panic, ri)

-- `.map(|_| ())`
unfoldable pub discard :
    {A : Type 0}
    → Result UnitOperationError A × RuntimeInfo
    → Result UnitOperationError Unit × RuntimeInfo
discard (ok a, ri) = (ok tt, ri)
discard (err e, ri) = (err e, ri)
discard (panic, ri) = (panic, ri)

-- The status of the unit as its lock shows it now.
unfoldable pub current_status : UnitEntry → RuntimeInfo → UnitStatus
current_status self ri = elim (get self.id ri.unit_table) [
  | none ↦ self.common.status
  | some u ↦ u.common.status
]

-- Whether `activate` has anything to do.
unfoldable pub needs_activation : UnitStatus → ActivationSource → Bool
needs_activation (started waiting_for_socket) regular = false
needs_activation (started waiting_for_socket) socket_activation = true
needs_activation (started running) source = false
needs_activation (stopped how reasons) regular = true
needs_activation (stopped how reasons) socket_activation = false
needs_activation _ source = true

module _ (ops : Ops) where
  unfoldable pub service_activate :
      UnitEntry → ServiceSpecific → ActivationSource → Action UnitStatus
  unfolding service_started put_service
  service_activate self s source ri =
      let (res, srvc, shared) = ops.start s.conf self.id source s.state.srvc ri.shared in
      service_started self s res (put_service self s srvc shared ri)

  unfoldable pub socket_activate : UnitEntry → SocketSpecific → Action UnitStatus
  unfolding socket_opened put_socket
  socket_activate self s ri =
      let (res, sock, shared) = ops.open_all s.conf self.id s.state.sock ri.shared in
      socket_opened self res (put_socket self s sock shared ri)

  unfoldable pub target_activate : UnitEntry → Action UnitStatus
  unfolding current_status is_started
  target_activate self ri =
      let status = current_status self ri in
      if is_started status
      then (ok status, ri)
      else (ok (started running), set_status self.id (started running) ri)

  unfoldable pub specific_activate : UnitEntry → Specific → ActivationSource → Action UnitStatus
  unfolding service_activate socket_activate target_activate
  specific_activate self (service s) source = service_activate self s source
  specific_activate self (socket s) source = socket_activate self s
  specific_activate self (target c) source = target_activate self

  -- What follows `state_transition_starting`.
  unfoldable pub activate_from : UnitEntry → ActivationSource → Transition Unit → Action UnitStatus
  unfolding specific_activate
  activate_from self source (allowed _ ri') ri = specific_activate self self.specific source ri'
  activate_from self source (blocked ids) ri = (err (error_of self (dependency_error ids)), ri)
  activate_from self source panicked ri = (panic, ri)

  unfoldable pub activate : UnitEntry → ActivationSource → Action UnitStatus
  unfolding activate_from needs_activation
  activate self source ri =
      if needs_activation self.common.status source
      then activate_from self source (state_transition_starting self ri) ri
      else (ok self.common.status, ri)

  unfoldable pub specific_deactivate : UnitEntry → Specific → Action Unit
  unfolding stopped_with put_service put_socket
  specific_deactivate self (service s) ri =
      let (res, srvc, shared) = ops.kill s.conf self.id s.state.srvc ri.shared in
      stopped_with service_stop_error self res (put_service self s srvc shared ri)
  specific_deactivate self (socket s) ri =
      let (res, sock, shared) = ops.close_all s.conf self.id s.state.sock ri.shared in
      stopped_with socket_close_error self res (put_socket self s sock shared ri)
  specific_deactivate self (target c) ri = (ok tt, set_status self.id (stopped stopped_final []) ri)

  -- What follows `state_transition_stopping`.
  unfoldable pub deactivate_from : UnitEntry → Transition Unit → Action Unit
  unfolding specific_deactivate
  deactivate_from self (allowed _ ri') ri = specific_deactivate self self.specific ri'
  deactivate_from self (blocked ids) ri = (err (error_of self (dependency_error ids)), ri)
  deactivate_from self panicked ri = (panic, ri)

  unfoldable pub deactivate : UnitEntry → Action Unit
  unfolding deactivate_from is_stopped
  deactivate self ri =
      if is_stopped self.common.status
      then (ok tt, ri)
      else deactivate_from self (state_transition_stopping self ri) ri

  unfoldable pub service_reactivate : UnitEntry → ServiceSpecific → ActivationSource → Action Unit
  unfolding service_activate restart_after put_service discard
  service_reactivate self s source ri =
      let (res, srvc, shared) = ops.kill s.conf self.id s.state.srvc ri.shared in
      let s' = record s { state = record s.state { srvc = srvc } } in
      restart_after service_stop_error self res
        (λ ri'. discard (service_activate self s' source ri')) (put_service self s srvc shared ri)

  unfoldable pub socket_reactivate : UnitEntry → SocketSpecific → Action Unit
  unfolding socket_activate restart_after put_socket discard
  socket_reactivate self s ri =
      let (res, sock, shared) = ops.close_all s.conf self.id s.state.sock ri.shared in
      let s' = record s { state = record s.state { sock = sock } } in
      restart_after socket_close_error self res (λ ri'. discard (socket_activate self s' ri'))
        (put_socket self s sock shared ri)

  -- A unit that was started is stopped and started (`true`); any other is started.
  unfoldable pub specific_reactivate : UnitEntry → Bool → Specific → ActivationSource → Action Unit
  unfolding service_reactivate socket_reactivate
  specific_reactivate self true (service s) source ri = service_reactivate self s source ri
  specific_reactivate self true (socket s) source ri = socket_reactivate self s ri
  specific_reactivate self true (target c) source ri =
      (ok tt, set_status self.id (started running) ri)
  specific_reactivate self false (service s) source ri = discard (service_activate self s source ri)
  specific_reactivate self false (socket s) source ri = discard (socket_activate self s ri)
  specific_reactivate self false (target c) source ri =
      (ok tt, set_status self.id (started running) ri)

  unfoldable pub reactivate_from : UnitEntry → ActivationSource → Transition Bool → Action Unit
  unfolding specific_reactivate
  reactivate_from self source (allowed full ri') ri =
      specific_reactivate self full self.specific source ri'
  reactivate_from self source (blocked ids) ri = (err (error_of self (dependency_error ids)), ri)
  reactivate_from self source panicked ri = (panic, ri)

  unfoldable pub reactivate : UnitEntry → ActivationSource → Action Unit
  unfolding reactivate_from
  reactivate self source ri = reactivate_from self source (state_transition_restarting self ri) ri
