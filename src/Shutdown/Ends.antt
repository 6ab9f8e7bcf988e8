-- ===== src/Shutdown/Ends.antt =====
-- The shutdown ends: each turn stops a unit that was started, and none is started again.
use rustysd.Prelude.{
  sym, subst, ℕ, zero, suc, ◌<◌, ◌≤◌, ◌≡◌, ◌≢◌, refl, inl, inr, true, false, [], ◌∷◌, Option, none,
  some, arith, Bool-cases, Option-cases, ◌==◌,
}
use rustysd.Prelude.Map.{get, modify}
use rustysd.Units.Id.{UnitId, id_eq_iff, unit_id_eq}
use rustysd.Units.Status.{UnitStatus, stopping, stopped, stopped_final, is_started}
use rustysd.Units.Unit.{UnitEntry, Specific, service, socket, target}
use rustysd.Units.Runtime.{
  UnitTable, RuntimeInfo, Result, ok, err, panic, update, with_status, set_status,
}
use rustysd.Units.Lifecycle.{Ops, put_service, put_socket}
use rustysd.Shutdown.{
  Next, chosen, nothing, missing, choose, next_in, get_next_service_to_shutdown, mark_stopped,
  shutdown_specific, shutdown_unit, Shutdown, out_of_fuel, shutdown_turn, shutdown_loop,
  started_units, shutdown_sequence,
}

-- Every entry of the table stands under the identifier of its unit.
abbrev pub HasOwnKeys : UnitTable → Type 0
HasOwnKeys [] = Unit
HasOwnKeys ((k, u) ∷ table) = (u.id ≡ k) × HasOwnKeys table

-- No more units are started, and the keys are still right.
abbrev Calmer : UnitTable → UnitTable → Type 0
Calmer t t' = (started_units t' ≤ started_units t) × (HasOwnKeys t → HasOwnKeys t')

Calmer-trans : (t t' t'' : UnitTable) → Calmer t t' → Calmer t' t'' → Calmer t t''
Calmer-trans t t' t'' h k = (omega (arith, h.0, k.0), λ o. k.1 (h.1 o))

started_units-modify :
    (k : UnitId) (f : UnitEntry → UnitEntry)
    → ((u : UnitEntry) → is_started (f u).common.status ≡ true → is_started u.common.status ≡ true)
    → (t : UnitTable) → started_units (modify k f t) ≤ started_units t
unfolding started_units modify
started_units-modify k f calm [] = omega arith
started_units-modify k f calm ((j, u) ∷ t) = ground (arith, calm u, started_units-modify k f calm t)

pub HasOwnKeys-modify :
    (k : UnitId) (f : UnitEntry → UnitEntry)
    → ((u : UnitEntry) → (f u).id ≡ u.id)
    → (t : UnitTable) → HasOwnKeys t
    → HasOwnKeys (modify k f t)
unfolding modify
HasOwnKeys-modify k f own [] h = tt
HasOwnKeys-modify k f own ((j, u) ∷ t) h =
    (ground (arith, own u, h.0), HasOwnKeys-modify k f own t h.1)

set_status-Calmer :
    (k : UnitId) (st : UnitStatus) (ri : RuntimeInfo)
    → is_started st ≡ false
    → Calmer ri.unit_table (set_status k st ri).unit_table
unfolding set_status update
set_status-Calmer k st ri off = (
  started_units-modify k (with_status st) (λ u on. absurd (cc)) ri.unit_table,
  HasOwnKeys-modify k (with_status st) (λ u. refl) ri.unit_table,
)

update-Calmer :
    (k : UnitId) (f : UnitEntry → UnitEntry) (ri : RuntimeInfo)
    → ((u : UnitEntry) → (f u).common.status ≡ u.common.status)
    → ((u : UnitEntry) → (f u).id ≡ u.id)
    → Calmer ri.unit_table (update k f ri).unit_table
unfolding update
update-Calmer k f ri same own = (
  started_units-modify k f (λ u on. let e = same u in ground arith) ri.unit_table,
  HasOwnKeys-modify k f own ri.unit_table,
)

-- What a step that may panic leaves.
abbrev StillCalm : UnitTable → Option RuntimeInfo → Type 0
StillCalm t none = Unit
StillCalm t (some ri') = Calmer t ri'.unit_table

mark_stopped-StillCalm :
    {E : Type 0} (t : UnitTable) (id : UnitId) (r : Result E Unit) (ri : RuntimeInfo)
    → Calmer t ri.unit_table
    → StillCalm t (mark_stopped id r ri)
unfolding mark_stopped is_started
mark_stopped-StillCalm t id (ok _) ri h =
    Calmer-trans t _ _ h (set_status-Calmer id (stopped stopped_final []) ri refl)
mark_stopped-StillCalm t id (err e) ri h =
    Calmer-trans t _ _ h (set_status-Calmer id (stopped stopped_final []) ri refl)
mark_stopped-StillCalm t id panic ri h = tt

shutdown_specific-StillCalm :
    (ops : Ops) (unit : UnitEntry) (sp : Specific) (ri : RuntimeInfo)
    → StillCalm ri.unit_table (shutdown_specific ops unit sp ri)
unfolding shutdown_specific put_service put_socket is_started
shutdown_specific-StillCalm ops unit (service s) ri =
    mark_stopped-StillCalm ri.unit_table unit.id _ _
      (update-Calmer unit.id _ (record ri { shared = _ }) (λ u. refl) (λ u. refl))
shutdown_specific-StillCalm ops unit (socket s) ri =
    mark_stopped-StillCalm ri.unit_table unit.id _ _
      (update-Calmer unit.id _ (record ri { shared = _ }) (λ u. refl) (λ u. refl))
shutdown_specific-StillCalm ops unit (target c) ri =
    set_status-Calmer unit.id (stopped stopped_final []) ri refl

pub get-HasOwnKeys :
    (id : UnitId) (u : UnitEntry) (t : UnitTable) → HasOwnKeys t → get id t ≡ some u → u.id ≡ id
unfolding get
get-HasOwnKeys id u [] h e = absurd (cc)
get-HasOwnKeys id u ((k, v) ∷ t) h e = elim (Bool-cases (k == id)) [
  | inl same ↦ ground (arith, id_eq_iff k id, h.0)
  | inr other ↦ get-HasOwnKeys id u t h.1 (ground arith)
]

-- The unit that is chosen is a started one.
next_in-lt :
    (table : UnitTable) (id : UnitId) (st : UnitStatus)
    → is_started st ≡ false
    → (t : UnitTable) → HasOwnKeys t
    → next_in table t ≡ chosen id
    → started_units (modify id (with_status st) t) < started_units t
unfolding next_in choose started_units modify
next_in-lt table id st off [] h e = absurd (cc)
next_in-lt table id st off ((k, u) ∷ t) h e = ground (
  arith,
  id_eq_iff k id,
  h.0,
  started_units-modify id (with_status st) (λ v on. absurd (cc)) t,
  next_in-lt table id st off t h.1,
)

-- A turn that does not panic stops a unit.
shutdown_unit-lt :
    (ops : Ops) (id : UnitId) (ri ri' : RuntimeInfo)
    → HasOwnKeys ri.unit_table
    → get_next_service_to_shutdown ri.unit_table ≡ chosen id
    → shutdown_unit ops id ri ≡ some ri'
    → (started_units ri'.unit_table < started_units ri.unit_table) × HasOwnKeys ri'.unit_table
unfolding shutdown_unit get_next_service_to_shutdown set_status update is_started
shutdown_unit-lt ops id ri ri' own next e = elim (Option-cases (get id ri.unit_table)) [
  | inl lost ↦ absurd (ground arith)
  | inr (u, found) ↦
      let same = get-HasOwnKeys id u ri.unit_table own found in
      let mid = set_status u.id stopping ri in
      let ran : shutdown_specific ops u u.specific mid ≡ some ri' = ground arith in
      let calm : StillCalm mid.unit_table (some ri') =
        subst (StillCalm mid.unit_table) ran (shutdown_specific-StillCalm ops u u.specific mid) in
      let less : started_units mid.unit_table < started_units ri.unit_table =
        subst
          (λ k. started_units (set_status k stopping ri).unit_table < started_units ri.unit_table)
          (sym same) (next_in-lt ri.unit_table id stopping refl ri.unit_table own next) in
      (omega (arith, less, calm.0), calm.1 ((set_status-Calmer u.id stopping ri refl).1 own))
]

turn-ne :
    (ops : Ops) (continue : RuntimeInfo → Shutdown) (ri : RuntimeInfo) (next : Next)
    → ((ri' : RuntimeInfo)
        → HasOwnKeys ri'.unit_table
        → started_units ri'.unit_table < started_units ri.unit_table
        → continue ri' ≢ out_of_fuel)
    → HasOwnKeys ri.unit_table
    → get_next_service_to_shutdown ri.unit_table ≡ next
    → shutdown_turn continue (shutdown_unit ops) ri next ≢ out_of_fuel
unfolding shutdown_turn
turn-ne ops continue ri nothing h own e = ground arith
turn-ne ops continue ri missing h own e = ground arith
turn-ne ops continue ri (chosen id) h own e = elim (Option-cases (shutdown_unit ops id ri)) [
  | inl panics ↦ rw (panics, shutdown_turn) (ground arith)
  | inr (ri', ran) ↦
      let (less, own') = shutdown_unit-lt ops id ri ri' own e ran in
      rw (ran, shutdown_turn) (h ri' own' less)
]

shutdown_loop-ne :
    (ops : Ops) (fuel : ℕ) (ri : RuntimeInfo)
    → HasOwnKeys ri.unit_table
    → started_units ri.unit_table < fuel
    → shutdown_loop ops fuel ri ≢ out_of_fuel
unfolding shutdown_loop
shutdown_loop-ne ops zero ri own h = absurd (omega arith)
shutdown_loop-ne ops (suc fuel) ri own h =
    turn-ne ops (shutdown_loop ops fuel) ri (get_next_service_to_shutdown ri.unit_table)
      (λ ri' own' less. shutdown_loop-ne ops fuel ri' own' (omega (arith, less, h))) own refl

-- The shutdown ends from every table whose units stand under their own identifiers: each turn stops a
-- started unit, whatever the kills and closes return.
pub shutdown_sequence-ends :
    (ops : Ops) (ri : RuntimeInfo)
    → HasOwnKeys ri.unit_table
    → shutdown_sequence ops ri ≢ out_of_fuel
unfolding shutdown_sequence
shutdown_sequence-ends ops ri own = shutdown_loop-ne ops _ ri own (omega arith)
