-- ===== src/Units/Lifecycle/Start.antt =====
-- What the starting and the stopping of each kind of unit report, given the status that they leave.
use rustysd.Prelude.{◌≡◌, refl, ◌∙◌, true, List, [], ◌∷◌, Option, some, arith, String}
use rustysd.Units.Id.{id_eq_iff, unit_id_eq}
use rustysd.Units.Status.{
  UnitStatus, ServiceErrorReason, UnitOperationErrorReason, starting, started, running,
  waiting_for_socket, stopped, stopped_final, stopped_unexpected, StatusStarted, StatusStopped,
  UnitOperationError, is_stopped,
}
use rustysd.Units.Unit.{
  UnitEntry, ServiceSpecific, SocketSpecific, Specific, service, socket, target,
}
use rustysd.Units.Runtime.{RuntimeInfo, Result, ok, err, panic, set_status, status_of}
use rustysd.Units.Runtime.Laws.{status_of-set_status}
use rustysd.Units.Lifecycle.{
  ActivationSource, StartResult, started_now, waiting, Ops, service_started, socket_opened,
  stopped_with, service_activate, socket_activate, target_activate, specific_activate,
  specific_deactivate, current_status,
}
use rustysd.Units.Lifecycle.Frame.{
  put_service-SameStatus, put_socket-SameStatus, listen_again_all-SameStatus,
  notify_eventfds-SameStatus,
}

-- The unit is in the table.
abbrev pub Present : UnitEntry → RuntimeInfo → Type 0
Present self ri = (st : UnitStatus) × (status_of self.id ri.unit_table ≡ some st)

pub set_status_self :
    (self : UnitEntry) (st : UnitStatus) (ri : RuntimeInfo)
    → Present self ri
    → status_of self.id (set_status self.id st ri).unit_table ≡ some st
set_status_self self st ri p =
    ground (arith, p.1, status_of-set_status self.id self.id st ri, id_eq_iff self.id self.id)

pub Present-set_status :
    (self : UnitEntry) (st : UnitStatus) (ri : RuntimeInfo)
    → Present self ri
    → Present self (set_status self.id st ri)
Present-set_status self st ri p = (st, set_status_self self st ri p)

pub is_stopped_shows :
    (st : UnitStatus) (shown : Option UnitStatus)
    → is_stopped st ≡ true
    → shown ≡ some st
    → (how : StatusStopped) × (reasons : List UnitOperationErrorReason) × (shown
        ≡ some (stopped how reasons))
unfolding is_stopped
is_stopped_shows (stopped how reasons) shown h e = (how, reasons, e)
is_stopped_shows _ shown h e = absurd (cc)

module _ (self : UnitEntry) where
  -- What `service_started` and `socket_opened` report, before the start is counted in.
  abbrev pub Start : Result UnitOperationError UnitStatus × RuntimeInfo → Type 0
  Start (ok st, ri') =
      (how : StatusStarted) × (st ≡ started how) × (status_of self.id ri'.unit_table ≡ some st)
  Start (err e, ri') =
      status_of self.id ri'.unit_table ≡ some (stopped stopped_unexpected (e.reason ∷ []))
  Start (panic, ri') = Unit

  pub service_started-Start :
      (s : ServiceSpecific) (res : Result ServiceErrorReason StartResult) (ri : RuntimeInfo)
      → Present self ri
      → Start (service_started self s res ri)
  unfolding service_started
  service_started-Start s (ok started_now) ri p = (running, refl, set_status_self self _ ri p)
  service_started-Start s (ok waiting) ri p = (
    waiting_for_socket,
    refl,
    notify_eventfds-SameStatus self.id _
        ∙ listen_again_all-SameStatus self.id s.conf.sockets _
        ∙ set_status_self self _ ri p,
  )
  service_started-Start s (err e) ri p = set_status_self self _ ri p
  service_started-Start s panic ri p = tt

  pub socket_opened-Start :
      (res : Result String Unit) (ri : RuntimeInfo)
      → Present self ri
      → Start (socket_opened self res ri)
  unfolding socket_opened
  socket_opened-Start (ok _) ri p =
      (running, refl, notify_eventfds-SameStatus self.id _ ∙ set_status_self self _ ri p)
  socket_opened-Start (err e) ri p = set_status_self self _ ri p
  socket_opened-Start panic ri p = tt

module _ (ops : Ops) (self : UnitEntry) where
  pub service_activate-Start :
      (s : ServiceSpecific) (source : ActivationSource) (ri : RuntimeInfo)
      → Present self ri
      → Start self (service_activate ops self s source ri)
  unfolding service_activate
  service_activate-Start s source ri p =
      service_started-Start self s _ _ (p.0, put_service-SameStatus self.id self s _ _ ri ∙ p.1)

  pub socket_activate-Start :
      (s : SocketSpecific) (ri : RuntimeInfo)
      → Present self ri
      → Start self (socket_activate ops self s ri)
  unfolding socket_activate
  socket_activate-Start s ri p =
      socket_opened-Start self _ _ (p.0, put_socket-SameStatus self.id self s _ _ ri ∙ p.1)

  pub current_status-starting :
      (ri : RuntimeInfo)
      → status_of self.id ri.unit_table ≡ some starting
      → current_status self ri ≡ starting
  unfolding current_status status_of
  current_status-starting ri p = ground arith

  -- Right after the transition the status is `starting`, so that a target is always set.
  pub target_activate-Start :
      (ri : RuntimeInfo)
      → status_of self.id ri.unit_table ≡ some starting
      → Start self (target_activate ops self ri)
  unfolding target_activate
  target_activate-Start ri p =
      rw (current_status-starting ri p, target_activate)
        (running, refl, set_status_self self (started running) ri (starting, p))

  pub specific_activate-Start :
      (sp : Specific) (source : ActivationSource) (ri : RuntimeInfo)
      → status_of self.id ri.unit_table ≡ some starting
      → Start self (specific_activate ops self sp source ri)
  unfolding specific_activate
  specific_activate-Start (service s) source ri p = service_activate-Start s source ri (starting, p)
  specific_activate-Start (socket s) source ri p = socket_activate-Start s ri (starting, p)
  specific_activate-Start (target c) source ri p = target_activate-Start ri p

module _ (self : UnitEntry) where
  -- What a stop reports.
  abbrev pub Stop : Result UnitOperationError Unit × RuntimeInfo → Type 0
  Stop (ok _, ri') = status_of self.id ri'.unit_table ≡ some (stopped stopped_final [])
  Stop (err e, ri') =
      status_of self.id ri'.unit_table ≡ some (stopped stopped_final (e.reason ∷ []))
  Stop (panic, ri') = Unit

  pub stopped_with-Stop :
      {E : Type 0} (wrap : E → UnitOperationErrorReason) (res : Result E Unit) (ri : RuntimeInfo)
      → Present self ri
      → Stop (stopped_with wrap self res ri)
  unfolding stopped_with
  stopped_with-Stop wrap (ok _) ri p = set_status_self self _ ri p
  stopped_with-Stop wrap (err e) ri p = set_status_self self _ ri p
  stopped_with-Stop wrap panic ri p = tt

module _ (ops : Ops) (self : UnitEntry) where
  pub specific_deactivate-Stop :
      (sp : Specific) (ri : RuntimeInfo)
      → Present self ri
      → Stop self (specific_deactivate ops self sp ri)
  unfolding specific_deactivate
  specific_deactivate-Stop (service s) ri p =
      stopped_with-Stop self _ _ _ (p.0, put_service-SameStatus self.id self s _ _ ri ∙ p.1)
  specific_deactivate-Stop (socket s) ri p =
      stopped_with-Stop self _ _ _ (p.0, put_socket-SameStatus self.id self s _ _ ri ∙ p.1)
  specific_deactivate-Stop (target c) ri p = set_status_self self _ ri p
