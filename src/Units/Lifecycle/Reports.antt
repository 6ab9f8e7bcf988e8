-- ===== src/Units/Lifecycle/Reports.antt =====
-- What an operation returns agrees with the status that it leaves behind.
use rustysd.Prelude.{
  ◌≡◌, refl, ◌∙◌, ◌⊎◌, inl, inr, Bool, true, false, List, [], ◌∷◌, some, Bool-cases,
}
use rustysd.Prelude.Map.{get}
use rustysd.Units.Id.{UnitId, unit_id_eq}
use rustysd.Units.Status.{
  UnitStatus, UnitOperationErrorReason, starting, stopping, restarting, started, running, stopped,
  stopped_final, stopped_unexpected, StatusStarted, StatusStopped, UnitOperationError, is_stopped,
  dependency_error, service_stop_error, socket_close_error,
}
use rustysd.Units.Unit.{
  UnitEntry, ServiceSpecific, SocketSpecific, Specific, service, socket, target,
}
use rustysd.Units.Runtime.{RuntimeInfo, Result, ok, err, panic, Action, status_of}
use rustysd.Units.Transitions.{
  Transition, allowed, blocked, panicked, state_transition_starting, state_transition_restarting,
  state_transition_stopping,
}
use rustysd.Units.Transitions.Guards.{
  Guarded, state_transition_starting-Guarded, state_transition_restarting-Guarded,
  state_transition_stopping-Guarded,
}
use rustysd.Units.Lifecycle.{
  ActivationSource, Ops, put_service, put_socket, restart_after, discard, service_activate,
  socket_activate, activate_from, activate, deactivate_from, deactivate, service_reactivate,
  socket_reactivate, specific_reactivate, reactivate_from, reactivate, needs_activation,
}
use rustysd.Units.Lifecycle.Frame.{put_service-SameStatus, put_socket-SameStatus}
use rustysd.Units.Lifecycle.Start.{
  Present, set_status_self, Present-set_status, is_stopped_shows, Start, specific_activate-Start,
  Stop, specific_deactivate-Stop, service_activate-Start, socket_activate-Start,
}

-- A start that failed leaves a stopped unit with the reason of the error, or it was refused for its
-- dependencies and changed nothing.
abbrev pub Failed :
    UnitEntry → StatusStopped → UnitOperationError → RuntimeInfo → RuntimeInfo → Type 0
Failed self how e ri ri' =
    ((ids : List UnitId) × (e.reason ≡ dependency_error ids) × (ri' ≡ ri))
    ⊎ (status_of self.id ri'.unit_table ≡ some (stopped how (e.reason ∷ [])))

abbrev pub ActivateReport :
    UnitEntry → RuntimeInfo → Result UnitOperationError UnitStatus × RuntimeInfo → Type 0
ActivateReport self ri (ok st, ri') = status_of self.id ri'.unit_table ≡ some st
ActivateReport self ri (err e, ri') = Failed self stopped_unexpected e ri ri'
ActivateReport self ri (panic, ri') = Unit

abbrev pub DeactivateReport :
    UnitEntry → RuntimeInfo → Result UnitOperationError Unit × RuntimeInfo → Type 0
DeactivateReport self ri (ok _, ri') =
    (how : StatusStopped) × (reasons : List UnitOperationErrorReason) × (status_of self.id
        ri'.unit_table
      ≡ some (stopped how reasons))
DeactivateReport self ri (err e, ri') = Failed self stopped_final e ri ri'
DeactivateReport self ri (panic, ri') = Unit

abbrev pub ReactivateReport :
    UnitEntry → RuntimeInfo → Result UnitOperationError Unit × RuntimeInfo → Type 0
ReactivateReport self ri (ok _, ri') =
    (how : StatusStarted) × (status_of self.id ri'.unit_table ≡ some (started how))
ReactivateReport self ri (err e, ri') =
    Failed self stopped_unexpected e ri ri' ⊎ Failed self stopped_final e ri ri'
ReactivateReport self ri (panic, ri') = Unit

module _ (ops : Ops) (self : UnitEntry) where
  Start→ActivateReport :
      (ri : RuntimeInfo) (r : Result UnitOperationError UnitStatus × RuntimeInfo)
      → Start self r
      → ActivateReport self ri r
  Start→ActivateReport ri (ok st, ri') h = h.2
  Start→ActivateReport ri (err e, ri') h = inr h
  Start→ActivateReport ri (panic, ri') h = tt

  activate_from-Report :
      (source : ActivationSource) (in_the_way : UnitId → Bool) (t : Transition Unit)
      (ri : RuntimeInfo)
      → Present self ri
      → Guarded self starting in_the_way ri t
      → ActivateReport self ri (activate_from ops self source t ri)
  unfolding activate_from
  activate_from-Report source in_the_way (allowed a ri') ri p g = Start→ActivateReport ri _ (
      specific_activate-Start ops self self.specific source ri'
        (rw g.0 (set_status_self self starting ri p)))
  activate_from-Report source in_the_way (blocked ids) ri p g = inl (ids, refl, refl)
  activate_from-Report source in_the_way panicked ri p g = tt

  -- `activate` returns the status that it leaves; where it fails, the unit was refused and nothing has
  -- changed, or it is stopped unexpectedly with the reason.
  pub activate-Report :
      (source : ActivationSource) (ri : RuntimeInfo)
      → get self.id ri.unit_table ≡ some self
      → ActivateReport self ri (activate ops self source ri)
  unfolding activate status_of
  activate-Report source ri found =
      let shown : status_of self.id ri.unit_table ≡ some self.common.status = rw found in
      let ran =
        activate_from-Report source _ (state_transition_starting self ri) ri
          (self.common.status, shown) (state_transition_starting-Guarded self ri) in
      elim (Bool-cases (needs_activation self.common.status source)) [
        | inl needed ↦ rw (needed, activate) ran
        | inr idle ↦ rw (idle, activate) shown
      ]

module _ (self : UnitEntry) where
  Stop→DeactivateReport :
      (ri : RuntimeInfo) (r : Result UnitOperationError Unit × RuntimeInfo)
      → Stop self r
      → DeactivateReport self ri r
  Stop→DeactivateReport ri (ok _, ri') h = (stopped_final, [], h)
  Stop→DeactivateReport ri (err e, ri') h = inr h
  Stop→DeactivateReport ri (panic, ri') h = tt

module _ (ops : Ops) (self : UnitEntry) where
  deactivate_from-Report :
      (in_the_way : UnitId → Bool) (t : Transition Unit) (ri : RuntimeInfo)
      → Present self ri
      → Guarded self stopping in_the_way ri t
      → DeactivateReport self ri (deactivate_from ops self t ri)
  unfolding deactivate_from
  deactivate_from-Report in_the_way (allowed a ri') ri p g = Stop→DeactivateReport self ri _ (
      specific_deactivate-Stop ops self self.specific ri'
        (rw g.0 (Present-set_status self stopping ri p)))
  deactivate_from-Report in_the_way (blocked ids) ri p g = inl (ids, refl, refl)
  deactivate_from-Report in_the_way panicked ri p g = tt

  -- After a `deactivate` that succeeds the unit is stopped; where it fails, it was refused and nothing has
  -- changed, or the unit is stopped all the same, with the reason.
  pub deactivate-Report :
      (ri : RuntimeInfo)
      → get self.id ri.unit_table ≡ some self
      → DeactivateReport self ri (deactivate ops self ri)
  unfolding deactivate status_of is_stopped
  deactivate-Report ri found =
      let shown : status_of self.id ri.unit_table ≡ some self.common.status = rw found in
      let ran =
        deactivate_from-Report _ (state_transition_stopping self ri) ri (self.common.status, shown)
          (state_transition_stopping-Guarded self ri) in
      elim (Bool-cases (is_stopped self.common.status)) [
        | inl done ↦ rw (done, deactivate) (is_stopped_shows self.common.status _ done shown)
        | inr live ↦ rw (live, deactivate) ran
      ]

  discard-Report :
      (ri : RuntimeInfo) (r : Result UnitOperationError UnitStatus × RuntimeInfo)
      → Start self r
      → ReactivateReport self ri (discard r)
  unfolding discard
  discard-Report ri (ok st, ri') h = (h.0, rw (← h.1) h.2)
  discard-Report ri (err e, ri') h = inl (inr h)
  discard-Report ri (panic, ri') h = tt

  restart_after-Report :
      {E : Type 0} (wrap : E → UnitOperationErrorReason) (res : Result E Unit) (again : Action Unit)
      (ri start : RuntimeInfo)
      → Present self ri
      → ReactivateReport self start (again ri)
      → ReactivateReport self start (restart_after wrap self res again ri)
  unfolding restart_after
  restart_after-Report wrap (ok _) again ri start p h = h
  restart_after-Report wrap (err e) again ri start p h = inr (inr (set_status_self self _ ri p))
  restart_after-Report wrap panic again ri start p h = tt

  service_reactivate-Report :
      (s : ServiceSpecific) (source : ActivationSource) (ri start : RuntimeInfo)
      → Present self ri
      → ReactivateReport self start (service_reactivate ops self s source ri)
  unfolding service_reactivate
  service_reactivate-Report s source ri start p =
      let (res, srvc, shared) = ops.kill s.conf self.id s.state.srvc ri.shared in
      let s' = record s { state = record s.state { srvc = srvc } } in
      let mid = put_service self s srvc shared ri in
      let here : Present self mid =
        (p.0, put_service-SameStatus self.id self s srvc shared ri ∙ p.1) in
      restart_after-Report service_stop_error res
        (λ ri'. discard (service_activate ops self s' source ri')) mid start here
        (discard-Report start (service_activate ops self s' source mid)
          (service_activate-Start ops self s' source mid here))

  socket_reactivate-Report :
      (s : SocketSpecific) (ri start : RuntimeInfo)
      → Present self ri
      → ReactivateReport self start (socket_reactivate ops self s ri)
  unfolding socket_reactivate
  socket_reactivate-Report s ri start p =
      let (res, sock, shared) = ops.close_all s.conf self.id s.state.sock ri.shared in
      let s' = record s { state = record s.state { sock = sock } } in
      let mid = put_socket self s sock shared ri in
      let here : Present self mid =
        (p.0, put_socket-SameStatus self.id self s sock shared ri ∙ p.1) in
      restart_after-Report socket_close_error res (λ ri'. discard (socket_activate ops self s' ri'))
        mid start here
        (discard-Report start (socket_activate ops self s' mid)
          (socket_activate-Start ops self s' mid here))

  specific_reactivate-Report :
      (full : Bool) (sp : Specific) (source : ActivationSource) (ri start : RuntimeInfo)
      → Present self ri
      → ReactivateReport self start (specific_reactivate ops self full sp source ri)
  unfolding specific_reactivate
  specific_reactivate-Report true (service s) source ri start p =
      service_reactivate-Report s source ri start p
  specific_reactivate-Report true (socket s) source ri start p =
      socket_reactivate-Report s ri start p
  specific_reactivate-Report true (target c) source ri start p =
      (running, set_status_self self _ ri p)
  specific_reactivate-Report false (service s) source ri start p =
      discard-Report start _ (service_activate-Start ops self s source ri p)
  specific_reactivate-Report false (socket s) source ri start p =
      discard-Report start _ (socket_activate-Start ops self s ri p)
  specific_reactivate-Report false (target c) source ri start p =
      (running, set_status_self self _ ri p)

  reactivate_from-Report :
      (source : ActivationSource) (in_the_way : UnitId → Bool) (t : Transition Bool)
      (ri : RuntimeInfo)
      → Present self ri
      → Guarded self restarting in_the_way ri t
      → ReactivateReport self ri (reactivate_from ops self source t ri)
  unfolding reactivate_from
  reactivate_from-Report source in_the_way (allowed full ri') ri p g =
      specific_reactivate-Report full self.specific source ri' ri
        (rw g.0 (Present-set_status self restarting ri p))
  reactivate_from-Report source in_the_way (blocked ids) ri p g = inl (inl (ids, refl, refl))
  reactivate_from-Report source in_the_way panicked ri p g = tt

  -- After a `reactivate` that succeeds the unit is started; where it fails, it was refused and nothing has
  -- changed, or the unit is stopped with the reason.
  pub reactivate-Report :
      (source : ActivationSource) (ri : RuntimeInfo)
      → get self.id ri.unit_table ≡ some self
      → ReactivateReport self ri (reactivate ops self source ri)
  unfolding reactivate status_of
  reactivate-Report source ri found =
      reactivate_from-Report source _ (state_transition_restarting self ri) ri
        (self.common.status, rw found) (state_transition_restarting-Guarded self ri)
