-- ===== src/Units/Transitions/Exact.antt =====
-- Exactly when a status change is allowed, refused, or panics.
use rustysd.Prelude.{
  ◌≡◌, ◌≢◌, refl, sym, subst, inl, inr, ◌⊎◌, Bool, true, false, not, ◌&&◌, List, [], ◌∷◌, Option,
  none, some, arith, contains, Option-cases, Bool-cases, eq_iff,
}
use rustysd.Prelude.Map.{get, contains_key, contains_key-get}
use rustysd.Units.Id.{UnitId, unit_id_eq}
use rustysd.Units.Status.{
  UnitStatus, never_started, starting, stopping, restarting, started, stopped, is_started,
  is_never_started,
}
use rustysd.Units.Unit.{UnitEntry}
use rustysd.Units.Runtime.{UnitTable, RuntimeInfo, set_status, status_of}
use rustysd.Units.Dependencies.{sort_dedup, kill_before_this}
use rustysd.Units.Dependencies.Laws.{contains-sort_dedup}
use rustysd.Units.Locking.{aquire_locks}
use rustysd.Units.Locking.Complete.{Shows, HasMissing, IsAcquired, aquire_locks-IsAcquired}
use rustysd.Units.Transitions.{
  Transition, allowed, blocked, panicked, is_ready, unready, unkilled, commit,
  state_transition_starting, state_transition_stopping,
}
use rustysd.Units.Transitions.Guards.{
  ready_at, started_at, contains-unready, contains-unkilled, aquire_locks-others,
}

-- A unit that stands in the way of a start: one that is required and does not run, or that is not required and
-- never ran.
abbrev pub hinders_start : Bool → Option UnitStatus → Bool
hinders_start required (some (started k)) = false
hinders_start required (some never_started) = true
hinders_start required (some _) = required
hinders_start required none = true

-- A unit that stands in the way of a stop: one that runs.
abbrev pub hinders_stop : Option UnitStatus → Bool
hinders_stop (some (started k)) = true
hinders_stop _ = false

-- The unit is not one of the others, and all of them are in the table.
abbrev pub CanLock : UnitId → List UnitId → UnitTable → Type 0
CanLock self others table =
    (contains others self ≡ false)
    × ((d : UnitId) → (contains (self ∷ others) d && not (contains_key d table)) ≡ false)

abbrev pub CannotLock : UnitId → List UnitId → UnitTable → Type 0
CannotLock self others table = (contains others self ≡ true) ⊎ HasMissing table (self ∷ others)

-- How a guarded change to `st` ends, where `others` are locked with the unit: it is made, and nothing is in the
-- way; it is refused with all that is in the way, which is something; or not all can be locked.
abbrev pub IsExact :
    {A : Type 0}
    → UnitEntry
    → List UnitId
    → UnitStatus
    → (UnitId → Bool)
    → RuntimeInfo
    → Transition A
    → Type 0
IsExact self others st in_the_way ri (allowed a ri') =
    CanLock self.id others ri.unit_table
    × (ri' ≡ set_status self.id st ri)
    × ((d : UnitId) → in_the_way d ≡ false)
IsExact self others st in_the_way ri (blocked ids) =
    CanLock self.id others ri.unit_table
    × (ids ≢ [])
    × ((d : UnitId) → contains ids d ≡ in_the_way d)
IsExact self others st in_the_way ri panicked = CannotLock self.id others ri.unit_table

commit-IsExact :
    {A : Type 0} (a : A) (self : UnitEntry) (others : List UnitId) (st : UnitStatus)
    (in_the_way : UnitId → Bool) (ri : RuntimeInfo) (ids : List UnitId)
    → CanLock self.id others ri.unit_table
    → ((d : UnitId) → contains ids d ≡ in_the_way d)
    → IsExact self others st in_the_way ri (commit a self st ri ids)
unfolding commit contains
commit-IsExact a self others st in_the_way ri [] can h = (can, refl, λ d. sym (h d))
commit-IsExact a self others st in_the_way ri (x ∷ ids) can h = (can, ground arith, h)

-- All that is locked is in the table.
Shows-known :
    (table : UnitTable) (ids : List UnitId) (l : List (UnitId × UnitStatus)) (d : UnitId)
    → Shows table ids l
    → (contains ids d && not (contains_key d table)) ≡ false
unfolding status_of
Shows-known table ids l d s =
    let (shown, held) = s d in
    elim (Bool-cases (contains ids d)) [
      | inr other ↦ ground arith
      | inl listed ↦ elim (Option-cases (get d table)) [
        | inl lost ↦ absurd (ground arith)
        | inr (u, found) ↦ ground (arith, contains_key-get d table)
      ]
    ]

aquire_locks-CanLock :
    (self : UnitId) (others : List UnitId) (table : UnitTable)
    (held shared : List (UnitId × UnitStatus))
    → IsAcquired (self ∷ []) others table (some (held, shared))
    → CanLock self others table
unfolding contains
aquire_locks-CanLock self others table held shared (apart, own, rest) = (
  let h = apart self in ground (arith, eq_iff self self, h),
  λ d.
      let k = Shows-known table (self ∷ []) held d own in
      let k' = Shows-known table others shared d rest in ground (arith, k, k'),
)

aquire_locks-CannotLock :
    (self : UnitId) (others : List UnitId) (table : UnitTable)
    → IsAcquired (self ∷ []) others table none
    → CannotLock self others table
unfolding contains
aquire_locks-CannotLock self others table (inl (d, c, c')) =
    inl (ground (arith, eq_iff self d, c, c'))
aquire_locks-CannotLock self others table (inr (inl (d, c, lost))) =
    inr (d, ground (arith, c), lost)
aquire_locks-CannotLock self others table (inr (inr (d, c, lost))) =
    inr (d, ground (arith, c), lost)

unready-hinders :
    (table : UnitTable) (requires : List UnitId) (d : UnitId)
    → not (ready_at table requires d) ≡ hinders_start (contains requires d) (status_of d table)
unfolding is_ready is_started is_never_started
unready-hinders table requires d = at (status_of d table)
  where
    at :
        (o : Option UnitStatus)
        → not (elim o [ none ↦ false | some st ↦ is_ready requires d st ])
          ≡ hinders_start (contains requires d) o
    at none = refl
    at (some never_started) = ground arith
    at (some (started k)) = ground arith
    at (some starting) = ground arith
    at (some stopping) = ground arith
    at (some restarting) = ground arith
    at (some (stopped k reasons)) = ground arith

started-hinders :
    (table : UnitTable) (d : UnitId) → started_at table d ≡ hinders_stop (status_of d table)
unfolding is_started
started-hinders table d = at (status_of d table)
  where
    at :
        (o : Option UnitStatus)
        → (elim o [ none ↦ false | some st ↦ is_started st ]) ≡ hinders_stop o
    at none = refl
    at (some never_started) = refl
    at (some (started k)) = refl
    at (some starting) = refl
    at (some stopping) = refl
    at (some restarting) = refl
    at (some (stopped k reasons)) = refl

-- A start is allowed exactly when the unit does not come after itself, every unit that it comes after is in the
-- table, and each of these runs or, where it is not required, has ever been started. Where a unit is
-- missing, or comes after itself, it panics; else it is refused with exactly the units that are not so.
pub state_transition_starting-IsExact :
    (self : UnitEntry) (ri : RuntimeInfo)
    → IsExact self self.common.dependencies.after starting
        (λ d.
          contains self.common.dependencies.after d
          && hinders_start
              (contains self.common.dependencies.requires d)
              (status_of d ri.unit_table))
        ri
        (state_transition_starting self ri)
unfolding state_transition_starting
state_transition_starting-IsExact self ri =
    let deps = self.common.dependencies in
    let acquired = aquire_locks-IsAcquired (self.id ∷ []) deps.after ri.unit_table in
    elim (Option-cases (aquire_locks (self.id ∷ []) deps.after ri.unit_table)) [
      | inl lost ↦
          rw (lost, state_transition_starting)
            (aquire_locks-CannotLock self.id deps.after ri.unit_table
              (subst (IsAcquired (self.id ∷ []) deps.after ri.unit_table) lost acquired))
      | inr ((held, others), got) ↦
          let can =
            aquire_locks-CanLock self.id deps.after ri.unit_table held others
              (subst (IsAcquired (self.id ∷ []) deps.after ri.unit_table) got acquired) in
          rw (got, state_transition_starting)
            (commit-IsExact tt self deps.after starting _ ri (unready deps.requires others) can λ d.
              let locked =
                aquire_locks-others (self.id ∷ []) deps.after ri.unit_table held others got in
              ground (
                arith,
                contains-unready ri.unit_table deps.requires (sort_dedup deps.after) others d
                    locked,
                contains-sort_dedup deps.after d,
                unready-hinders ri.unit_table deps.requires d,
              ))
    ]

-- A stop is allowed exactly when the unit does not require itself, every unit that requires it is in the table,
-- and none of these runs. Where a unit is missing, or requires itself, it panics; else it is refused with
-- exactly those that run.
pub state_transition_stopping-IsExact :
    (self : UnitEntry) (ri : RuntimeInfo)
    → IsExact self self.common.dependencies.required_by stopping
        (λ d.
          contains self.common.dependencies.required_by d
          && hinders_stop (status_of d ri.unit_table))
        ri
        (state_transition_stopping self ri)
unfolding state_transition_stopping kill_before_this
state_transition_stopping-IsExact self ri =
    let deps = self.common.dependencies in
    let acquired = aquire_locks-IsAcquired (self.id ∷ []) deps.required_by ri.unit_table in
    elim (Option-cases (aquire_locks (self.id ∷ []) deps.required_by ri.unit_table)) [
      | inl lost ↦
          rw (lost, state_transition_stopping)
            (aquire_locks-CannotLock self.id deps.required_by ri.unit_table
              (subst (IsAcquired (self.id ∷ []) deps.required_by ri.unit_table) lost acquired))
      | inr ((held, others), got) ↦
          let can =
            aquire_locks-CanLock self.id deps.required_by ri.unit_table held others
              (subst (IsAcquired (self.id ∷ []) deps.required_by ri.unit_table) got acquired) in
          rw (got, state_transition_stopping)
            (commit-IsExact tt self deps.required_by stopping _ ri (unkilled others) can λ d.
              let locked =
                aquire_locks-others (self.id ∷ []) deps.required_by ri.unit_table held others got in
              ground (
                arith,
                contains-unkilled ri.unit_table (sort_dedup deps.required_by) others d locked,
                contains-sort_dedup deps.required_by d,
                started-hinders ri.unit_table d,
              ))
    ]
