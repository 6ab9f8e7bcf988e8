-- ===== src/ServiceExit/Cases.antt =====
-- The branches of the exit handler.
use rustysd.Prelude.{
  subst, ℕ, zero, suc, ◌≡◌, ◌≢◌, refl, Bool, true, false, Option, none, some, arith, nat_eq,
}
use rustysd.Prelude.Map.{get, get-insert}
use rustysd.Units.Id.{UnitId, unit_id_eq}
use rustysd.Units.Status.{ChildTermination, UnitOperationError, is_started}
use rustysd.Units.Config.{ServiceType}
use rustysd.Units.Unit.{ServiceSpecific, service, UnitEntry}
use rustysd.Units.Runtime.{
  PidEntry, service, service_exited, helper, helper_exited, RuntimeInfo, Result, ok, err, panic,
}
use rustysd.Units.Lifecycle.{Ops}
use rustysd.ServiceExit.{
  Exit, handled, Kill, set_pid, retry, deactivate_loop, is_one_shot, restarts, restart_or_stop,
  service_ended, service_exit, by_entry, service_exit_handler,
}

retry-ne :
    (again : RuntimeInfo → Exit) (o : Option (Result UnitOperationError Unit × RuntimeInfo))
    (ri ri' : RuntimeInfo)
    → ((m : RuntimeInfo) → again m ≢ handled ri')
    → retry again o ri ≢ handled ri'
unfolding retry
retry-ne again (some (ok _, m)) ri ri' h = h m
retry-ne again (some (err e, m)) ri ri' h = ground (arith, h m)
retry-ne again (some (panic, m)) ri ri' h = ground arith
retry-ne again none ri ri' h = ground arith

-- The loop has no way out with success: a turn that succeeds is followed by another one.
deactivate_loop-ne :
    (ops : Ops) (fuel turns : ℕ) (id : UnitId) (ri ri' : RuntimeInfo)
    → deactivate_loop ops fuel turns id ri ≢ handled ri'
unfolding deactivate_loop
deactivate_loop-ne ops fuel zero id ri ri' = ground arith
deactivate_loop-ne ops fuel (suc turns) id ri ri' =
    retry-ne (deactivate_loop ops fuel turns id) _ ri ri'
      (λ m. deactivate_loop-ne ops fuel turns id m ri')

restart_or_stop-ne :
    (ops : Ops) (fuel turns : ℕ) (id : UnitId) (unit : UnitEntry) (ri ri' : RuntimeInfo)
    → is_started unit.common.status ≡ true
    → restarts unit.specific ≡ false
    → restart_or_stop ops fuel turns id unit ri ≢ handled ri'
unfolding restart_or_stop
restart_or_stop-ne ops fuel turns id unit ri ri' on stays =
    rw (on, stays) (deactivate_loop-ne ops fuel turns id ri ri')

service_ended-ne :
    (ops : Ops) (kill : Kill) (fuel turns : ℕ) (id : UnitId) (unit : UnitEntry)
    (s : ServiceSpecific) (ri ri' : RuntimeInfo)
    → is_one_shot s.conf.srcv_type ≡ false
    → is_started unit.common.status ≡ true
    → restarts unit.specific ≡ false
    → service_ended ops kill fuel turns id unit (service s) ri ≢ handled ri'
unfolding service_ended
service_ended-ne ops kill fuel turns id unit s ri ri' lasting on stays =
    rw lasting (restart_or_stop-ne ops fuel turns id unit ri ri' on stays)

-- When the process of a started service that is not to be restarted, and is no oneshot service, ends, the
-- handler does not come to a successful end, however many turns its loop is given.
pub service_exit_handler-ne :
    (ops : Ops) (kill : Kill) (fuel turns pid : ℕ) (code : ChildTermination) (ri ri' : RuntimeInfo)
    (id : UnitId) (ty : ServiceType) (unit : UnitEntry) (s : ServiceSpecific)
    → get pid ri.shared.pid_table ≡ some (service id ty)
    → get id ri.unit_table ≡ some unit
    → unit.specific ≡ service s
    → is_one_shot s.conf.srcv_type ≡ false
    → restarts unit.specific ≡ false
    → is_started unit.common.status ≡ true
    → service_exit_handler ops kill fuel turns pid code ri ≢ handled ri'
unfolding service_exit_handler by_entry service_exit set_pid
service_exit_handler-ne ops kill fuel turns pid code ri ri' id ty unit s entry found sp lasting
      stays on e =
    let mid = set_pid pid (service_exited code) ri in
    let never = service_ended-ne ops kill fuel turns id unit s mid ri' lasting on stays in
    let a : by_entry ops kill fuel turns pid code (some (service id ty)) ri ≡ handled ri' =
      subst (λ o. by_entry ops kill fuel turns pid code o ri ≡ handled ri') entry e in
    let b : service_ended ops kill fuel turns id unit unit.specific mid ≡ handled ri' =
      ground (arith, a) in
    never (subst (λ x. service_ended ops kill fuel turns id unit x mid ≡ handled ri') sp b)

-- The entry that a process that is no service's leaves.
abbrev pub exited_entry : ChildTermination → Option PidEntry → Option PidEntry
exited_entry code (some (helper id name)) = some (helper_exited code)
exited_entry code other = other

abbrev pub is_service_entry : Option PidEntry → Bool
is_service_entry (some (service id ty)) = true
is_service_entry _ = false

by_entry-exited_entry :
    (ops : Ops) (kill : Kill) (fuel turns pid : ℕ) (code : ChildTermination) (ri : RuntimeInfo)
    (o : Option PidEntry)
    → get pid ri.shared.pid_table ≡ o
    → is_service_entry o ≡ false
    → (ri' : RuntimeInfo) × (by_entry ops kill fuel turns pid code o ri ≡ handled ri')
      × (ri'.unit_table ≡ ri.unit_table)
      × (get pid ri'.shared.pid_table ≡ exited_entry code o)
unfolding by_entry set_pid
by_entry-exited_entry ops kill fuel turns pid code ri none e h = (ri, refl, refl, e)
by_entry-exited_entry ops kill fuel turns pid code ri (some (service id ty)) e h = absurd (cc)
by_entry-exited_entry ops kill fuel turns pid code ri (some (helper id name)) e h = (
  set_pid pid (helper_exited code) ri,
  refl,
  refl,
  ground (arith, get-insert pid pid (helper_exited code) ri.shared.pid_table),
)
by_entry-exited_entry ops kill fuel turns pid code ri (some (helper_exited old)) e h =
    (ri, refl, refl, e)
by_entry-exited_entry ops kill fuel turns pid code ri (some (service_exited old)) e h =
    (ri, refl, refl, e)

-- The end of any other process is handled without touching a unit: that of a helper is noted in its entry,
-- for the thread that waits for it, and that of an unknown or a noted process changes nothing there.
pub service_exit_handler-exited_entry :
    (ops : Ops) (kill : Kill) (fuel turns pid : ℕ) (code : ChildTermination) (ri : RuntimeInfo)
    → is_service_entry (get pid ri.shared.pid_table) ≡ false
    → (ri' : RuntimeInfo) × (service_exit_handler ops kill fuel turns pid code ri ≡ handled ri')
      × (ri'.unit_table ≡ ri.unit_table)
      × (get pid ri'.shared.pid_table ≡ exited_entry code (get pid ri.shared.pid_table))
unfolding service_exit_handler
service_exit_handler-exited_entry ops kill fuel turns pid code ri h =
    by_entry-exited_entry ops kill fuel turns pid code ri _ refl h
