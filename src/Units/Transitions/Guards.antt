-- ===== src/Units/Transitions/Guards.antt =====
-- When a status change is allowed, and what it changes.
use rustysd.Prelude.{
  ◌≡◌, ◌≢◌, refl, sym, inl, inr, Bool, false, not, ◌&&◌, List, [], ◌∷◌, none, some, arith, contains,
  Option-cases,
}
use rustysd.Units.Id.{UnitId, id_eq_iff, unit_id_eq}
use rustysd.Units.Status.{UnitStatus, starting, stopping, restarting, is_started}
use rustysd.Units.Unit.{UnitEntry}
use rustysd.Units.Runtime.{UnitTable, RuntimeInfo, set_status, status_of}
use rustysd.Units.Dependencies.{sort_dedup, kill_before_this}
use rustysd.Units.Dependencies.Laws.{contains-sort_dedup}
use rustysd.Units.Locking.{statuses, aquire_locks}
use rustysd.Units.Locking.Complete.{statuses-cons}
use rustysd.Units.Transitions.{
  Transition, allowed, blocked, panicked, is_ready, unready, unkilled, commit,
  state_transition_starting, state_transition_stopping, state_transition_restarting,
}

-- Whether the unit `d` of the table is in a state in which a unit with these requirements can start.
abbrev pub ready_at : UnitTable → List UnitId → UnitId → Bool
ready_at table requires d = elim (status_of d table) [
  | none ↦ false
  | some st ↦ is_ready requires d st
]

abbrev pub started_at : UnitTable → UnitId → Bool
started_at table d = elim (status_of d table) [ none ↦ false | some st ↦ is_started st ]

-- The units that block a start are those of the locked ones that are not ready.
pub contains-unready :
    (table : UnitTable) (requires ids : List UnitId) (l : List (UnitId × UnitStatus)) (d : UnitId)
    → statuses table ids ≡ some l
    → contains (unready requires l) d ≡ (contains ids d && not (ready_at table requires d))
unfolding contains unready statuses status_of
contains-unready table requires [] l d e = ground arith
contains-unready table requires (id ∷ ids) l d e =
    let g = statuses-cons table id ids l e in
    rw (← g.joined) (
      ground
        (arith, id_eq_iff id d, g.found, contains-unready table requires ids g.rest d g.others))

-- The units that block a stop are those of the locked ones that are started.
pub contains-unkilled :
    (table : UnitTable) (ids : List UnitId) (l : List (UnitId × UnitStatus)) (d : UnitId)
    → statuses table ids ≡ some l
    → contains (unkilled l) d ≡ (contains ids d && started_at table d)
unfolding contains unkilled statuses status_of
contains-unkilled table [] l d e = ground arith
contains-unkilled table (id ∷ ids) l d e =
    let g = statuses-cons table id ids l e in
    rw (← g.joined)
      (ground (arith, id_eq_iff id d, g.found, contains-unkilled table ids g.rest d g.others))

-- The outcome of a guarded change to `st`: it is made, and nothing is in the way, or it is refused with
-- all that is in the way, which is something.
abbrev pub Guarded :
    {A : Type 0} → UnitEntry → UnitStatus → (UnitId → Bool) → RuntimeInfo → Transition A → Type 0
Guarded self st in_the_way ri (allowed a ri') =
    (ri' ≡ set_status self.id st ri) × ((d : UnitId) → in_the_way d ≡ false)
Guarded self st in_the_way ri (blocked ids) =
    (ids ≢ []) × ((d : UnitId) → contains ids d ≡ in_the_way d)
Guarded self st in_the_way ri panicked = Unit

commit-Guarded :
    {A : Type 0} (a : A) (self : UnitEntry) (st : UnitStatus) (in_the_way : UnitId → Bool)
    (ri : RuntimeInfo) (ids : List UnitId)
    → ((d : UnitId) → contains ids d ≡ in_the_way d)
    → Guarded self st in_the_way ri (commit a self st ri ids)
unfolding commit contains
commit-Guarded a self st in_the_way ri [] h = (refl, λ d. sym (h d))
commit-Guarded a self st in_the_way ri (x ∷ ids) h = (ground arith, h)

pub aquire_locks-others :
    (exclusive shared : List UnitId) (table : UnitTable) (held others : List (UnitId × UnitStatus))
    → aquire_locks exclusive shared table ≡ some (held, others)
    → statuses table (sort_dedup shared) ≡ some others
unfolding aquire_locks
aquire_locks-others exclusive shared table held others e = ground arith

-- Where a start does not panic: if it is allowed, every unit that comes before is ready; a refusal names
-- exactly the units that are not.
pub state_transition_starting-Guarded :
    (self : UnitEntry) (ri : RuntimeInfo)
    → Guarded self starting
        (λ d.
          contains self.common.dependencies.after d
          && not (ready_at ri.unit_table self.common.dependencies.requires d))
        ri
        (state_transition_starting self ri)
unfolding state_transition_starting
state_transition_starting-Guarded self ri =
    let deps = self.common.dependencies in
    elim (Option-cases (aquire_locks (self.id ∷ []) deps.after ri.unit_table)) [
      | inl lost ↦ rw (lost, state_transition_starting) tt
      | inr ((held, others), got) ↦
          rw (got, state_transition_starting)
            (commit-Guarded tt self starting _ ri (unready deps.requires others) λ d.
              let locked =
                aquire_locks-others (self.id ∷ []) deps.after ri.unit_table held others got in
              ground (
                arith,
                contains-unready ri.unit_table deps.requires (sort_dedup deps.after) others d
                    locked,
                contains-sort_dedup deps.after d,
              ))
    ]

-- The same of a restart.
pub state_transition_restarting-Guarded :
    (self : UnitEntry) (ri : RuntimeInfo)
    → Guarded self restarting
        (λ d.
          contains self.common.dependencies.after d
          && not (ready_at ri.unit_table self.common.dependencies.requires d))
        ri
        (state_transition_restarting self ri)
unfolding state_transition_restarting
state_transition_restarting-Guarded self ri =
    let deps = self.common.dependencies in
    elim (Option-cases (aquire_locks (self.id ∷ []) deps.after ri.unit_table)) [
      | inl lost ↦ rw (lost, state_transition_restarting) tt
      | inr ((held, others), got) ↦
          rw (got, state_transition_restarting)
            (commit-Guarded _ self restarting _ ri (unready deps.requires others) λ d.
              let locked =
                aquire_locks-others (self.id ∷ []) deps.after ri.unit_table held others got in
              ground (
                arith,
                contains-unready ri.unit_table deps.requires (sort_dedup deps.after) others d
                    locked,
                contains-sort_dedup deps.after d,
              ))
    ]

-- Where a stop does not panic: if it is allowed, no unit that requires this one is started; a refusal names
-- exactly those that are.
pub state_transition_stopping-Guarded :
    (self : UnitEntry) (ri : RuntimeInfo)
    → Guarded self stopping
        (λ d. contains self.common.dependencies.required_by d && started_at ri.unit_table d)
        ri
        (state_transition_stopping self ri)
unfolding state_transition_stopping kill_before_this
state_transition_stopping-Guarded self ri =
    let deps = self.common.dependencies in
    elim (Option-cases (aquire_locks (self.id ∷ []) deps.required_by ri.unit_table)) [
      | inl lost ↦ rw (lost, state_transition_stopping) tt
      | inr ((held, others), got) ↦
          rw (got, state_transition_stopping)
            (commit-Guarded tt self stopping _ ri (unkilled others) λ d.
              let locked =
                aquire_locks-others (self.id ∷ []) deps.required_by ri.unit_table held others got in
              ground (
                arith,
                contains-unkilled ri.unit_table (sort_dedup deps.required_by) others d locked,
                contains-sort_dedup deps.required_by d,
              ))
    ]
