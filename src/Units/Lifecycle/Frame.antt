-- ===== src/Units/Lifecycle/Frame.antt =====
-- An operation on a unit leaves the status of every other unit alone, and every configuration.

use rustysd.Prelude.{◌≡◌, refl, ◌∙◌, false, List, [], ◌∷◌, arith, ◌==◌}
use rustysd.Prelude.Map.{get-modify}
use rustysd.Units.Id.{UnitId, unit_id_eq}
use rustysd.Units.Status.{UnitStatus}
use rustysd.Units.Unit.{UnitEntry, Service, Socket, ServiceSpecific, SocketSpecific}
use rustysd.Units.Runtime.{
  Shared, RuntimeInfo, with_status, update, set_status, status_of, notify_eventfds,
}
use rustysd.Units.Runtime.Laws.{status_of-update}
use rustysd.Units.Lifecycle.{
  ActivationSource, Ops, put_service, put_socket, listen_again_all, activate, deactivate,
  reactivate,
}
use rustysd.Units.Config.{UnitConfig}
use rustysd.Units.Dependencies.{Dependencies}
use rustysd.Units.Lifecycle.Same.{
  Same, update-Same, activate-Same, deactivate-Same, reactivate-Same,
}

SameStatus-blind :
    (self : UnitEntry) (j : UnitId)
    → (self.id == j) ≡ false
    → (st : UnitStatus) (ri : RuntimeInfo)
    → Same (λ u. u.common.status) j ri (set_status self.id st ri)
unfolding set_status update
SameStatus-blind self j other st ri =
    ground (arith, get-modify self.id j (with_status st) ri.unit_table)

-- Two states show the same status of `j`.
abbrev pub SameStatus : UnitId → RuntimeInfo → RuntimeInfo → Type 0
SameStatus j ri ri' = status_of j ri'.unit_table ≡ status_of j ri.unit_table

pub put_service-SameStatus :
    (j : UnitId) (self : UnitEntry) (s : ServiceSpecific) (srvc : Service) (shared : Shared)
    (ri : RuntimeInfo)
    → SameStatus j ri (put_service self s srvc shared ri)
unfolding put_service
put_service-SameStatus j self s srvc shared ri =
    status_of-update self.id j _ (record ri { shared = shared }) (λ u. refl)

pub put_socket-SameStatus :
    (j : UnitId) (self : UnitEntry) (s : SocketSpecific) (sock : Socket) (shared : Shared)
    (ri : RuntimeInfo)
    → SameStatus j ri (put_socket self s sock shared ri)
unfolding put_socket
put_socket-SameStatus j self s sock shared ri =
    status_of-update self.id j _ (record ri { shared = shared }) (λ u. refl)

pub listen_again_all-SameStatus :
    (j : UnitId) (ids : List UnitId) (ri : RuntimeInfo) → SameStatus j ri (listen_again_all ids ri)
unfolding listen_again_all
listen_again_all-SameStatus j [] ri = refl
listen_again_all-SameStatus j (id ∷ ids) ri =
    listen_again_all-SameStatus j ids _ ∙ status_of-update id j _ ri (λ u. refl)

pub notify_eventfds-SameStatus :
    (j : UnitId) (ri : RuntimeInfo) → SameStatus j ri (notify_eventfds ri)
unfolding notify_eventfds
notify_eventfds-SameStatus j ri = refl

-- `activate`, `deactivate` and `reactivate`, whatever they return, change the status of no unit but their
-- own.
pub lifecycle-SameStatus :
    (ops : Ops) (self : UnitEntry) (source : ActivationSource) (ri : RuntimeInfo) (j : UnitId)
    → (self.id == j) ≡ false
    → SameStatus j ri (activate ops self source ri).1
      × SameStatus j ri (deactivate ops self ri).1
      × SameStatus j ri (reactivate ops self source ri).1
unfolding status_of
lifecycle-SameStatus ops self source ri j other =
    let obs = λ (u : UnitEntry). u.common.status in
    let blind = SameStatus-blind self j other in
    (
      activate-Same obs self j ops (λ u sp. refl) blind source ri,
      deactivate-Same obs self j ops (λ u sp. refl) blind ri,
      reactivate-Same obs self j ops (λ u sp. refl) blind source ri,
    )

-- The configuration of a unit: what no operation on the units of the table changes.
abbrev pub config_of : UnitEntry → UnitId × UnitConfig × Dependencies
config_of u = (u.id, u.common.unit, u.common.dependencies)

abbrev pub SameConfig : UnitId → RuntimeInfo → RuntimeInfo → Type 0
SameConfig j = Same config_of j

SameConfig-blind :
    (self : UnitEntry) (j : UnitId) (st : UnitStatus) (ri : RuntimeInfo)
    → SameConfig j ri (set_status self.id st ri)
unfolding set_status
SameConfig-blind self j st ri = update-Same config_of self.id j (with_status st) ri (λ u. refl)

-- `activate`, `deactivate` and `reactivate` change the identifier and the edges of no unit.
pub lifecycle-SameConfig :
    (ops : Ops) (self : UnitEntry) (source : ActivationSource) (ri : RuntimeInfo) (j : UnitId)
    → SameConfig j ri (activate ops self source ri).1
      × SameConfig j ri (deactivate ops self ri).1
      × SameConfig j ri (reactivate ops self source ri).1
lifecycle-SameConfig ops self source ri j =
    let blind = SameConfig-blind self j in
    (
      activate-Same config_of self j ops (λ u sp. refl) blind source ri,
      deactivate-Same config_of self j ops (λ u sp. refl) blind ri,
      reactivate-Same config_of self j ops (λ u sp. refl) blind source ri,
    )
