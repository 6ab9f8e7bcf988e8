-- ===== src/Units/Lifecycle/Same.antt =====
-- What an operation on a unit leaves alone, for whatever one looks at.
use mathlib.Core.Option
use rustysd.Prelude.{
  Option-cases, inl, inr, ◌≡◌, refl, ◌∙◌, Bool, true, false, List, [], ◌∷◌, arith, String,
}
use rustysd.Prelude.Map.{get, get-modify}
use rustysd.Units.Id.{UnitId, unit_id_eq}
use rustysd.Units.Status.{
  UnitStatus, ServiceErrorReason, UnitOperationErrorReason, starting, stopping, restarting, started,
  running, service_stop_error, socket_close_error, UnitOperationError,
}
use rustysd.Units.Unit.{
  UnitEntry, Service, Socket, ServiceSpecific, SocketSpecific, Specific, service, socket, target,
}
use rustysd.Units.Runtime.{
  Shared, RuntimeInfo, Result, ok, err, panic, Action, with_specific, update, set_status,
  notify_eventfds,
}
use rustysd.Units.Transitions.{
  Transition, allowed, blocked, panicked, state_transition_starting, state_transition_restarting,
  state_transition_stopping,
}
use rustysd.Units.Transitions.Guards.{
  Guarded, state_transition_starting-Guarded, state_transition_restarting-Guarded,
  state_transition_stopping-Guarded,
}
use rustysd.Units.Lifecycle.{
  ActivationSource, StartResult, started_now, waiting, Ops, put_service, put_socket,
  listen_again_all, service_started, socket_opened, stopped_with, restart_after, discard,
  service_activate, socket_activate, target_activate, specific_activate, activate_from, activate,
  specific_deactivate, deactivate_from, deactivate, service_reactivate, socket_reactivate,
  specific_reactivate, reactivate_from, reactivate,
}

-- Two states show the same of the unit `j`, as far as `obs` looks.
abbrev pub Same : {X : Type 0} → (UnitEntry → X) → UnitId → RuntimeInfo → RuntimeInfo → Type 0
Same obs j ri ri' = Option.map obs (get j ri'.unit_table) ≡ Option.map obs (get j ri.unit_table)

pub update-Same :
    {X : Type 0} (obs : UnitEntry → X) (k j : UnitId) (f : UnitEntry → UnitEntry) (ri : RuntimeInfo)
    → ((u : UnitEntry) → obs (f u) ≡ obs u)
    → Same obs j ri (update k f ri)
unfolding update
update-Same obs k j f ri same = elim (Option-cases (get j ri.unit_table)) [
  | inl lost ↦ ground (arith, get-modify k j f ri.unit_table)
  | inr (u, found) ↦ ground (arith, get-modify k j f ri.unit_table, same u)
]

-- `obs` does not look at the state of the service or socket, and what it sees of `j` does not depend on
-- the status of `self`.
module _ {X : Type 0} (obs : UnitEntry → X) (self : UnitEntry) (j : UnitId) (ops : Ops)
    (apart : (u : UnitEntry) (sp : Specific) → obs (with_specific sp u) ≡ obs u)
    (blind : (st : UnitStatus) (ri : RuntimeInfo) → Same obs j ri (set_status self.id st ri)) where
  put_service-Same :
      (s : ServiceSpecific) (srvc : Service) (shared : Shared) (ri : RuntimeInfo)
      → Same obs j ri (put_service self s srvc shared ri)
  unfolding put_service
  put_service-Same s srvc shared ri =
      update-Same obs self.id j _ (record ri { shared = shared }) (λ u. apart u _)

  put_socket-Same :
      (s : SocketSpecific) (sock : Socket) (shared : Shared) (ri : RuntimeInfo)
      → Same obs j ri (put_socket self s sock shared ri)
  unfolding put_socket
  put_socket-Same s sock shared ri =
      update-Same obs self.id j _ (record ri { shared = shared }) (λ u. apart u _)

  listen_again_all-Same :
      (ids : List UnitId) (ri : RuntimeInfo) → Same obs j ri (listen_again_all ids ri)
  unfolding listen_again_all
  listen_again_all-Same [] ri = refl
  listen_again_all-Same (id ∷ ids) ri =
      listen_again_all-Same ids _ ∙ update-Same obs id j _ ri (λ u. apart u _)

  notify_eventfds-Same : (ri : RuntimeInfo) → Same obs j ri (notify_eventfds ri)
  unfolding notify_eventfds
  notify_eventfds-Same ri = refl

  service_started-Same :
      (s : ServiceSpecific) (res : Result ServiceErrorReason StartResult) (ri : RuntimeInfo)
      → Same obs j ri (service_started self s res ri).1
  unfolding service_started
  service_started-Same s (ok started_now) ri = blind _ ri
  service_started-Same s (ok waiting) ri =
      notify_eventfds-Same _ ∙ listen_again_all-Same s.conf.sockets _ ∙ blind _ ri
  service_started-Same s (err e) ri = blind _ ri
  service_started-Same s panic ri = refl

  socket_opened-Same :
      (res : Result String Unit) (ri : RuntimeInfo) → Same obs j ri (socket_opened self res ri).1
  unfolding socket_opened
  socket_opened-Same (ok _) ri = notify_eventfds-Same _ ∙ blind _ ri
  socket_opened-Same (err e) ri = blind _ ri
  socket_opened-Same panic ri = refl

  stopped_with-Same :
      {E : Type 0} (wrap : E → UnitOperationErrorReason) (res : Result E Unit) (ri : RuntimeInfo)
      → Same obs j ri (stopped_with wrap self res ri).1
  unfolding stopped_with
  stopped_with-Same wrap (ok _) ri = blind _ ri
  stopped_with-Same wrap (err e) ri = blind _ ri
  stopped_with-Same wrap panic ri = refl

  restart_after-Same :
      {E : Type 0} (wrap : E → UnitOperationErrorReason) (res : Result E Unit) (again : Action Unit)
      (ri : RuntimeInfo)
      → Same obs j ri (again ri).1
      → Same obs j ri (restart_after wrap self res again ri).1
  unfolding restart_after
  restart_after-Same wrap (ok _) again ri h = h
  restart_after-Same wrap (err e) again ri h = blind _ ri
  restart_after-Same wrap panic again ri h = refl

  discard-Same :
      {A : Type 0} (ri : RuntimeInfo) (r : Result UnitOperationError A × RuntimeInfo)
      → Same obs j ri r.1
      → Same obs j ri (discard r).1
  unfolding discard
  discard-Same ri (ok a, ri') h = h
  discard-Same ri (err e, ri') h = h
  discard-Same ri (panic, ri') h = h

  service_activate-Same :
      (s : ServiceSpecific) (source : ActivationSource) (ri : RuntimeInfo)
      → Same obs j ri (service_activate ops self s source ri).1
  unfolding service_activate
  service_activate-Same s source ri = service_started-Same s _ _ ∙ put_service-Same s _ _ ri

  socket_activate-Same :
      (s : SocketSpecific) (ri : RuntimeInfo) → Same obs j ri (socket_activate ops self s ri).1
  unfolding socket_activate
  socket_activate-Same s ri = socket_opened-Same _ _ ∙ put_socket-Same s _ _ ri

  specific_activate-Same :
      (sp : Specific) (source : ActivationSource) (ri : RuntimeInfo)
      → Same obs j ri (specific_activate ops self sp source ri).1
  unfolding specific_activate target_activate
  specific_activate-Same (service s) source ri = service_activate-Same s source ri
  specific_activate-Same (socket s) source ri = socket_activate-Same s ri
  specific_activate-Same (target c) source ri = ground (arith, blind (started running) ri)

  specific_deactivate-Same :
      (sp : Specific) (ri : RuntimeInfo) → Same obs j ri (specific_deactivate ops self sp ri).1
  unfolding specific_deactivate
  specific_deactivate-Same (service s) ri = stopped_with-Same _ _ _ ∙ put_service-Same s _ _ ri
  specific_deactivate-Same (socket s) ri = stopped_with-Same _ _ _ ∙ put_socket-Same s _ _ ri
  specific_deactivate-Same (target c) ri = blind _ ri

  service_reactivate-Same :
      (s : ServiceSpecific) (source : ActivationSource) (ri : RuntimeInfo)
      → Same obs j ri (service_reactivate ops self s source ri).1
  unfolding service_reactivate
  service_reactivate-Same s source ri =
      let (res, srvc, shared) = ops.kill s.conf self.id s.state.srvc ri.shared in
      let s' = record s { state = record s.state { srvc = srvc } } in
      let mid = put_service self s srvc shared ri in
      restart_after-Same service_stop_error res
        (λ ri'. discard (service_activate ops self s' source ri')) mid
        (discard-Same mid (service_activate ops self s' source mid)
          (service_activate-Same s' source mid))
      ∙ put_service-Same s srvc shared ri

  socket_reactivate-Same :
      (s : SocketSpecific) (ri : RuntimeInfo) → Same obs j ri (socket_reactivate ops self s ri).1
  unfolding socket_reactivate
  socket_reactivate-Same s ri =
      let (res, sock, shared) = ops.close_all s.conf self.id s.state.sock ri.shared in
      let s' = record s { state = record s.state { sock = sock } } in
      let mid = put_socket self s sock shared ri in
      restart_after-Same socket_close_error res (λ ri'. discard (socket_activate ops self s' ri'))
        mid (discard-Same mid (socket_activate ops self s' mid) (socket_activate-Same s' mid))
      ∙ put_socket-Same s sock shared ri

  specific_reactivate-Same :
      (full : Bool) (sp : Specific) (source : ActivationSource) (ri : RuntimeInfo)
      → Same obs j ri (specific_reactivate ops self full sp source ri).1
  unfolding specific_reactivate
  specific_reactivate-Same true (service s) source ri = service_reactivate-Same s source ri
  specific_reactivate-Same true (socket s) source ri = socket_reactivate-Same s ri
  specific_reactivate-Same true (target c) source ri = blind _ ri
  specific_reactivate-Same false (service s) source ri =
      discard-Same ri _ (service_activate-Same s source ri)
  specific_reactivate-Same false (socket s) source ri =
      discard-Same ri _ (socket_activate-Same s ri)
  specific_reactivate-Same false (target c) source ri = blind _ ri

  Guarded-Same :
      {A : Type 0} (st : UnitStatus) (in_the_way : UnitId → Bool) (a : A) (ri ri' : RuntimeInfo)
      → Guarded self st in_the_way ri (allowed a ri')
      → Same obs j ri ri'
  Guarded-Same st in_the_way a ri ri' g = rw g.0 (blind st ri)

  activate_from-Same :
      (source : ActivationSource) (in_the_way : UnitId → Bool) (t : Transition Unit)
      (ri : RuntimeInfo)
      → Guarded self starting in_the_way ri t
      → Same obs j ri (activate_from ops self source t ri).1
  unfolding activate_from
  activate_from-Same source in_the_way (allowed a ri') ri g =
      specific_activate-Same self.specific source ri' ∙ Guarded-Same starting in_the_way a ri ri' g
  activate_from-Same source in_the_way (blocked ids) ri g = refl
  activate_from-Same source in_the_way panicked ri g = refl

  deactivate_from-Same :
      (in_the_way : UnitId → Bool) (t : Transition Unit) (ri : RuntimeInfo)
      → Guarded self stopping in_the_way ri t
      → Same obs j ri (deactivate_from ops self t ri).1
  unfolding deactivate_from
  deactivate_from-Same in_the_way (allowed a ri') ri g =
      specific_deactivate-Same self.specific ri' ∙ Guarded-Same stopping in_the_way a ri ri' g
  deactivate_from-Same in_the_way (blocked ids) ri g = refl
  deactivate_from-Same in_the_way panicked ri g = refl

  reactivate_from-Same :
      (source : ActivationSource) (in_the_way : UnitId → Bool) (t : Transition Bool)
      (ri : RuntimeInfo)
      → Guarded self restarting in_the_way ri t
      → Same obs j ri (reactivate_from ops self source t ri).1
  unfolding reactivate_from
  reactivate_from-Same source in_the_way (allowed a ri') ri g =
      specific_reactivate-Same a self.specific source ri'
      ∙ Guarded-Same restarting in_the_way a ri ri' g
  reactivate_from-Same source in_the_way (blocked ids) ri g = refl
  reactivate_from-Same source in_the_way panicked ri g = refl

  pub activate-Same :
      (source : ActivationSource) (ri : RuntimeInfo) → Same obs j ri (activate ops self source ri).1
  unfolding activate
  activate-Same source ri = ground (
    arith,
    activate_from-Same source _ (state_transition_starting self ri) ri
        (state_transition_starting-Guarded self ri),
  )

  pub deactivate-Same : (ri : RuntimeInfo) → Same obs j ri (deactivate ops self ri).1
  unfolding deactivate
  deactivate-Same ri = ground (
    arith,
    deactivate_from-Same _ (state_transition_stopping self ri) ri
        (state_transition_stopping-Guarded self ri),
  )

  pub reactivate-Same :
      (source : ActivationSource) (ri : RuntimeInfo)
      → Same obs j ri (reactivate ops self source ri).1
  unfolding reactivate
  reactivate-Same source ri =
      reactivate_from-Same source _ (state_transition_restarting self ri) ri
        (state_transition_restarting-Guarded self ri)
