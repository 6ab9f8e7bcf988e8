-- ===== src/Units/Transitions.antt =====
-- The guarded status changes `state_transition_starting`, `_restarting` and `_stopping` of src/units/unit.rs.
pub mod Guards
pub mod Exact
use rustysd.Prelude.{
  Bool, true, false, not, List, [], ◌∷◌, Option, none, some, if◌then◌else◌, contains,
}
use rustysd.Units.Id.{UnitId, unit_id_eq}
use rustysd.Units.Status.{
  UnitStatus, never_started, starting, stopping, restarting, started, stopped, is_started,
  is_never_started,
}
use rustysd.Units.Unit.{UnitEntry}
use rustysd.Units.Runtime.{RuntimeInfo, set_status}
use rustysd.Units.Dependencies.{kill_before_this}
use rustysd.Units.Locking.{aquire_locks}

pub data Transition (A : Type 0) : Type 0 where
  allowed : A → RuntimeInfo → Transition A
  blocked : List UnitId → Transition A
  panicked : Transition A

-- A unit that this one comes after is ready if it is started, or, where it is not required, if it ever was.
unfoldable pub is_ready : List UnitId → UnitId → UnitStatus → Bool
unfolding is_started is_never_started
is_ready requires id st = if contains requires id then is_started st else not (is_never_started st)

-- The fold over the locked units that gives `unstarted_deps`.
unfoldable pub unready : List UnitId → List (UnitId × UnitStatus) → List UnitId
unfolding is_ready
unready requires [] = []
unready requires ((id, st) ∷ others) =
    let rest = unready requires others in if is_ready requires id st then rest else id ∷ rest

-- The fold that gives `unkilled_depending`.
unfoldable pub unkilled : List (UnitId × UnitStatus) → List UnitId
unfolding is_started
unkilled [] = []
unkilled ((id, st) ∷ others) =
    let rest = unkilled others in if is_started st then id ∷ rest else rest

-- The status is written while the locks are held, if nothing stands in the way.
unfoldable pub commit :
    {A : Type 0} → A → UnitEntry → UnitStatus → RuntimeInfo → List UnitId → Transition A
commit a self st ri [] = allowed a (set_status self.id st ri)
commit a self st ri (id ∷ ids) = blocked (id ∷ ids)

unfoldable pub state_transition_starting : UnitEntry → RuntimeInfo → Transition (Unit {0})
unfolding unready commit
state_transition_starting self ri =
    let deps = self.common.dependencies in
    elim (aquire_locks (self.id ∷ []) deps.after ri.unit_table) [
      | none ↦ panicked
      | some (held, others) ↦ commit tt self starting ri (unready deps.requires others)
    ]

-- Whether the unit's own locked status is one of the started ones.
unfoldable pub held_started : List (UnitId × UnitStatus) → Bool
unfolding is_started
held_started [] = false
held_started ((id, st) ∷ held) = is_started st

unfoldable pub state_transition_restarting : UnitEntry → RuntimeInfo → Transition Bool
unfolding unready commit held_started
state_transition_restarting self ri =
    let deps = self.common.dependencies in
    elim (aquire_locks (self.id ∷ []) deps.after ri.unit_table) [
      | none ↦ panicked
      | some (held, others) ↦
          commit (held_started held) self restarting ri (unready deps.requires others)
    ]

unfoldable pub state_transition_stopping : UnitEntry → RuntimeInfo → Transition (Unit {0})
unfolding unkilled commit
state_transition_stopping self ri =
    elim (aquire_locks (self.id ∷ []) (kill_before_this self.common.dependencies) ri.unit_table) [
      | none ↦ panicked
      | some (held, others) ↦ commit tt self stopping ri (unkilled others)
    ]
