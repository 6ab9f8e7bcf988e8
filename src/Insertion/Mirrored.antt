-- ===== src/Insertion/Mirrored.antt =====
-- An insertion keeps `requires` and `required_by` in step.
use mathlib.Core.Option
use rustysd.Prelude.{
  ◌≡◌, refl, inl, inr, Bool, true, false, ◌&&◌, ◌||◌, List, [], ◌∷◌, some, arith, contains,
  contains-append, Bool-cases, Option-cases, if◌then◌else◌, ◌==◌,
}
use rustysd.Prelude.Map.{get, map_values, get-insert, get-map_values}
use rustysd.Units.Id.{UnitId, id_eq_iff, unit_id_eq}
use rustysd.Units.Dependencies.{Dependencies}
use rustysd.Units.Unit.{UnitEntry}
use rustysd.Units.Runtime.{UnitTable}
use rustysd.Units.Lifecycle.Orderly.{IsMirrored}
use rustysd.Deactivation.Stops.{IsKeyed}
use rustysd.Insertion.{push_if, relate, insert_unit}

contains-push_if :
    (b : Bool) (id a : UnitId) (ids : List UnitId)
    → contains (push_if b id ids) a ≡ (contains ids a || b && id == a)
unfolding push_if contains
contains-push_if true id a ids = ground (arith, contains-append ids (id ∷ []) a)
contains-push_if false id a ids = ground arith

get-insert_unit :
    (new_id id : UnitId) (new_unit : UnitEntry) (table : UnitTable)
    → get id (insert_unit new_id new_unit table) ≡ (
        if new_id == id
        then some new_unit
        else Option.map (relate new_id new_unit.common.dependencies) (get id table))
unfolding insert_unit
get-insert_unit new_id id new_unit table = ground (
  arith,
  get-insert new_id id new_unit (map_values (relate new_id new_unit.common.dependencies) table),
  get-map_values (relate new_id new_unit.common.dependencies) id table,
)

relate-requires :
    (new_id d : UnitId) (new : Dependencies) (u : UnitEntry)
    → contains (relate new_id new u).common.dependencies.requires d
      ≡ (contains u.common.dependencies.requires d || contains new.required_by u.id && new_id == d)
unfolding relate
relate-requires new_id d new u =
    contains-push_if (contains new.required_by u.id) new_id d u.common.dependencies.requires

relate-required_by :
    (new_id d : UnitId) (new : Dependencies) (u : UnitEntry)
    → contains (relate new_id new u).common.dependencies.required_by d
      ≡ (contains u.common.dependencies.required_by d || contains new.requires u.id && new_id == d)
unfolding relate
relate-required_by new_id d new u =
    contains-push_if (contains new.requires u.id) new_id d u.common.dependencies.required_by

-- A unit of the table after the insertion is the new one or a unit that was there, related to it.
data Source (new_id : UnitId) (new_unit : UnitEntry) (table : UnitTable) (id : UnitId)
    (u' : UnitEntry) : Type 0 where
  new : new_id ≡ id → new_unit ≡ u' → Source new_id new_unit table id u'
  old :
      (u : UnitEntry)
      → (new_id == id) ≡ false
      → get id table ≡ some u
      → relate new_id new_unit.common.dependencies u ≡ u'
      → Source new_id new_unit table id u'

source :
    (new_id id : UnitId) (new_unit u' : UnitEntry) (table : UnitTable)
    → get id (insert_unit new_id new_unit table) ≡ some u'
    → Source new_id new_unit table id u'
source new_id id new_unit u' table found =
    let g = get-insert_unit new_id id new_unit table in
    elim (Bool-cases (new_id == id)) [
      | inl same ↦ new ((id_eq_iff new_id id).0 same) (ground arith)
      | inr other ↦ elim (Option-cases (get id table)) [
        | inl lost ↦ absurd (ground arith)
        | inr (u, was) ↦ old u other was (ground arith)
      ]
    ]

mirror :
    (new_id id d : UnitId) (new_unit v' u' : UnitEntry) (table : UnitTable)
    → IsKeyed table
    → IsMirrored table
    → contains new_unit.common.dependencies.requires new_id ≡ false
    → ((j : UnitId) (w : UnitEntry)
        → get j table ≡ some w
        → contains w.common.dependencies.requires new_id ≡ false)
    → Source new_id new_unit table id v'
    → Source new_id new_unit table d u'
    → contains v'.common.dependencies.requires d ≡ true
    → contains u'.common.dependencies.required_by id ≡ true
mirror new_id id d new_unit v' u' table keyed mirrored alone fresh (new i a) (new j b) c =
    absurd (ground arith)
mirror new_id id d new_unit v' u' table keyed mirrored alone fresh (new i a) (old u o found b) c =
    let r = relate-required_by new_id id new_unit.common.dependencies u in
    let k = keyed d u found in ground (arith, id_eq_iff new_id id)
mirror new_id id d new_unit v' u' table keyed mirrored alone fresh (old v o found a) (new j b) c =
    let r = relate-requires new_id d new_unit.common.dependencies v in
    let k = keyed id v found in let f = fresh id v found in ground (arith, id_eq_iff new_id d)
mirror new_id id d new_unit v' u' table keyed mirrored alone fresh (old v o was a)
      (old u o' found b) c =
    let r = relate-requires new_id d new_unit.common.dependencies v in
    let s = relate-required_by new_id id new_unit.common.dependencies u in
    let e : Option.map (λ w. w.common.dependencies) (get id table) ≡ some v.common.dependencies =
      rw was refl in
    let m = mirrored id d v.common.dependencies u e found in ground (arith, m)

-- The insertion of a unit keeps `required_by` the mirror of `requires`, if no unit requires the new one yet
-- and it does not require itself.
pub insert_unit-IsMirrored :
    (new_id : UnitId) (new_unit : UnitEntry) (table : UnitTable)
    → IsKeyed table
    → IsMirrored table
    → contains new_unit.common.dependencies.requires new_id ≡ false
    → ((j : UnitId) (w : UnitEntry)
        → get j table ≡ some w
        → contains w.common.dependencies.requires new_id ≡ false)
    → IsMirrored (insert_unit new_id new_unit table)
insert_unit-IsMirrored new_id new_unit table keyed mirrored alone fresh id d deps u' e found c =
    elim (Option-cases (get id (insert_unit new_id new_unit table))) [
      | inl lost ↦ absurd (ground arith)
      | inr (v', was) ↦
          mirror new_id id d new_unit v' u' table keyed mirrored alone fresh
            (source new_id id new_unit v' table was) (source new_id d new_unit u' table found)
            (let same : v'.common.dependencies ≡ deps = ground arith in ground arith)
    ]
