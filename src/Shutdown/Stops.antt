-- ===== src/Shutdown/Stops.antt =====
-- A shutdown that finishes leaves no unit started.
use rustysd.Prelude.{
  ℕ, zero, suc, ◌+◌, ◌≡◌, refl, ◌∙◌, subst, inl, inr, false, Option, none, some, arith,
  Option-cases,
}
use rustysd.Prelude.Map.{get}
use rustysd.Units.Id.{UnitId, unit_id_eq}
use rustysd.Units.Status.{UnitStatus, stopping, is_started}
use rustysd.Units.Unit.{UnitEntry, Specific, service, socket, target}
use rustysd.Units.Runtime.{RuntimeInfo, Result, ok, err, panic, with_status, set_status}
use rustysd.Units.Lifecycle.{Ops, put_service, put_socket}
use rustysd.Units.Lifecycle.Frame.{config_of}
use rustysd.Units.Lifecycle.Same.{update-Same}
use rustysd.Deactivation.Fuel.{SameConfigs}
use rustysd.Shutdown.{
  Next, chosen, nothing, missing, get_next_service_to_shutdown, mark_stopped, shutdown_specific,
  shutdown_unit, Shutdown, finished, panicked, out_of_fuel, shutdown_turn, shutdown_loop,
  shutdown_sequence,
}
use rustysd.Shutdown.Order.{IsRankedBefore, nothing-started}

set_status-SameConfigs :
    (k : UnitId) (st : UnitStatus) (ri : RuntimeInfo) → SameConfigs ri (set_status k st ri)
unfolding set_status
set_status-SameConfigs k st ri j = update-Same config_of k j (with_status st) ri (λ u. refl)

-- A step that may panic keeps every configuration.
abbrev StillSame : RuntimeInfo → Option RuntimeInfo → Type 0
StillSame ri none = Unit
StillSame ri (some ri') = SameConfigs ri ri'

mark_stopped-StillSame :
    {E : Type 0} (ri : RuntimeInfo) (id : UnitId) (r : Result E Unit) (mid : RuntimeInfo)
    → SameConfigs ri mid
    → StillSame ri (mark_stopped id r mid)
unfolding mark_stopped
mark_stopped-StillSame ri id (ok _) mid h = λ j. set_status-SameConfigs id _ mid j ∙ h j
mark_stopped-StillSame ri id (err e) mid h = λ j. set_status-SameConfigs id _ mid j ∙ h j
mark_stopped-StillSame ri id panic mid h = tt

shutdown_specific-StillSame :
    (ops : Ops) (unit : UnitEntry) (sp : Specific) (ri : RuntimeInfo)
    → StillSame ri (shutdown_specific ops unit sp ri)
unfolding shutdown_specific put_service put_socket
shutdown_specific-StillSame ops unit (service s) ri =
    mark_stopped-StillSame ri unit.id _ _
      (λ j. update-Same config_of unit.id j _ (record ri { shared = _ }) (λ u. refl))
shutdown_specific-StillSame ops unit (socket s) ri =
    mark_stopped-StillSame ri unit.id _ _
      (λ j. update-Same config_of unit.id j _ (record ri { shared = _ }) (λ u. refl))
shutdown_specific-StillSame ops unit (target c) ri = set_status-SameConfigs unit.id _ ri

shutdown_unit-SameConfigs :
    (ops : Ops) (id : UnitId) (ri ri' : RuntimeInfo)
    → shutdown_unit ops id ri ≡ some ri'
    → SameConfigs ri ri'
unfolding shutdown_unit
shutdown_unit-SameConfigs ops id ri ri' e = elim (Option-cases (get id ri.unit_table)) [
  | inl lost ↦ absurd (ground arith)
  | inr (u, found) ↦
      let mid = set_status u.id stopping ri in
      let ran : shutdown_specific ops u u.specific mid ≡ some ri' = ground arith in
      let same = subst (StillSame mid) ran (shutdown_specific-StillSame ops u u.specific mid) in
      λ j. same j ∙ set_status-SameConfigs u.id stopping ri j
]

-- What the loop leaves where it finishes.
abbrev Leaves : RuntimeInfo → Shutdown → Type 0
Leaves ri (finished ri') =
    SameConfigs ri ri' × (get_next_service_to_shutdown ri'.unit_table ≡ nothing)
Leaves ri panicked = Unit
Leaves ri out_of_fuel = Unit

Leaves-trans :
    (ri mid : RuntimeInfo) (s : Shutdown) → SameConfigs ri mid → Leaves mid s → Leaves ri s
Leaves-trans ri mid (finished ri') h k = (λ j. k.0 j ∙ h j, k.1)
Leaves-trans ri mid panicked h k = tt
Leaves-trans ri mid out_of_fuel h k = tt

turn-Leaves :
    (ops : Ops) (continue : RuntimeInfo → Shutdown) (ri : RuntimeInfo) (next : Next)
    → ((ri' : RuntimeInfo) → Leaves ri' (continue ri'))
    → get_next_service_to_shutdown ri.unit_table ≡ next
    → Leaves ri (shutdown_turn continue (shutdown_unit ops) ri next)
unfolding shutdown_turn
turn-Leaves ops continue ri nothing h e = (λ j. refl, e)
turn-Leaves ops continue ri missing h e = tt
turn-Leaves ops continue ri (chosen id) h e = elim (Option-cases (shutdown_unit ops id ri)) [
  | inl panics ↦ rw (panics, shutdown_turn) tt
  | inr (ri', ran) ↦
      rw (ran, shutdown_turn)
        (Leaves-trans ri ri' (continue ri') (shutdown_unit-SameConfigs ops id ri ri' ran) (h ri'))
]

shutdown_loop-Leaves :
    (ops : Ops) (fuel : ℕ) (ri : RuntimeInfo) → Leaves ri (shutdown_loop ops fuel ri)
unfolding shutdown_loop
shutdown_loop-Leaves ops zero ri = tt
shutdown_loop-Leaves ops (suc fuel) ri =
    turn-Leaves ops (shutdown_loop ops fuel) ri (get_next_service_to_shutdown ri.unit_table)
      (shutdown_loop-Leaves ops fuel) refl

IsRankedBefore-Same :
    (rank : UnitId → ℕ) (ri ri' : RuntimeInfo)
    → SameConfigs ri ri'
    → IsRankedBefore rank ri.unit_table
    → IsRankedBefore rank ri'.unit_table
IsRankedBefore-Same rank ri ri' same ranked id d u' found c =
    let e = same id in
    elim (Option-cases (get id ri.unit_table)) [
      | inl lost ↦ absurd (ground arith)
      | inr (u, was) ↦
          ranked id d u was
            (let deps : u.common.dependencies ≡ u'.common.dependencies = ground arith in rw deps c)
    ]

-- Where the `before` edges have no circle, a shutdown that finishes leaves no unit of the table started.
pub shutdown_sequence_stops :
    (ops : Ops) (rank : UnitId → ℕ) (ri ri' : RuntimeInfo)
    → IsRankedBefore rank ri.unit_table
    → shutdown_sequence ops ri ≡ finished ri'
    → (id : UnitId) (u : UnitEntry) → get id ri'.unit_table ≡ some u
    → is_started u.common.status ≡ false
unfolding shutdown_sequence
shutdown_sequence_stops ops rank ri ri' ranked e id u found =
    let left = subst (Leaves ri) e (shutdown_loop-Leaves ops _ ri) in
    nothing-started rank ri'.unit_table (IsRankedBefore-Same rank ri ri' left.0 ranked) left.1
      (rank id + 1) id u (omega arith) found
