-- ===== src/Insertion/Names.antt =====
-- What the check before an insertion establishes.
use rustysd.Prelude.{
  ap, ◌≡◌, refl, inl, inr, Bool, true, false, not, ◌&&◌, ◌||◌, List, [], ◌∷◌, ◌++◌, arith, contains,
  contains-append, contains-retain, retain, Bool-cases, ◌==◌, List-cases,
}
use rustysd.Units.Id.{UnitId, id_eq_iff, unit_id_eq}
use rustysd.Units.Runtime.{UnitTable}
use rustysd.Insertion.{
  all_exist, add_names, names_needed, clash, clashes, drop_known, missing, check_all_names_exist,
}

-- A unit of the table has this identifier.
abbrev pub has_unit : UnitTable → UnitId → Bool
has_unit [] id = false
has_unit ((_, unit) ∷ units) id = id == unit.id || has_unit units id

-- A unit of the table names this identifier in its configuration.
abbrev pub is_named : UnitTable → UnitId → Bool
is_named [] id = false
is_named ((_, unit) ∷ units) id = contains unit.common.unit.refs_by_name id || is_named units id

contains-add_names :
    (ids needed : List UnitId) (id : UnitId)
    → contains (add_names ids needed) id ≡ (contains ids id || contains needed id)
unfolding add_names contains
contains-add_names [] needed id = refl
contains-add_names (x ∷ ids) needed id = elim (Bool-cases (contains needed x)) [
  | inl old ↦ rw (old, add_names) (ground (arith, contains-add_names ids needed id, id_eq_iff x id))
  | inr new ↦
      rw (new, add_names)
        (ground (
          arith,
          contains-add_names ids (needed ++ x ∷ []) id,
          contains-append needed (x ∷ []) id,
          id_eq_iff x id,
        ))
]

contains-names_needed :
    (units : UnitTable) (needed : List UnitId) (id : UnitId)
    → contains (names_needed units needed) id ≡ (is_named units id || contains needed id)
unfolding names_needed
contains-names_needed [] needed id = refl
contains-names_needed ((k, unit) ∷ units) needed id = ground (
  arith,
  contains-names_needed units (add_names unit.common.unit.refs_by_name needed) id,
  contains-add_names unit.common.unit.refs_by_name needed id,
)

contains-drop_known :
    (units : UnitTable) (needed : List UnitId) (id : UnitId)
    → contains (drop_known units needed) id ≡ (contains needed id && not (has_unit units id))
unfolding drop_known
contains-drop_known [] needed id = ground arith
contains-drop_known ((k, unit) ∷ units) needed id = ground (
  arith,
  contains-drop_known units (retain (λ i. not (i == unit.id)) needed) id,
  contains-retain (λ i. not (i == unit.id)) needed id,
)

clash-all_exist :
    (id : UnitId) (units : UnitTable) → clash id units ≡ all_exist → has_unit units id ≡ false
unfolding clash
clash-all_exist id [] e = refl
clash-all_exist id ((k, unit) ∷ units) e = ground (arith, clash-all_exist id units)

clashes-all_exist :
    (new_units table : UnitTable)
    → clashes new_units table ≡ all_exist
    → (id : UnitId) → has_unit table id ≡ true
    → has_unit new_units id ≡ false
unfolding clashes
clashes-all_exist new_units [] e id h = absurd (cc)
clashes-all_exist new_units ((k, unit) ∷ units) e id h =
    let first = clash-all_exist unit.id new_units in
    let later = clashes-all_exist new_units units in
    elim (Bool-cases (id == unit.id)) [
      | inl same ↦ ground (arith, first, id_eq_iff id unit.id)
      | inr other ↦ let l = later (ground arith) id in ground (arith, l)
    ]

-- When the check passes, no new unit has the identifier of a unit of the table, and every unit that a new
-- one names in its configuration is in the table or new.
pub check_all_names_exist-all_exist :
    (new_units table : UnitTable)
    → check_all_names_exist new_units table ≡ all_exist
    → (id : UnitId)
    → (has_unit table id ≡ true → has_unit new_units id ≡ false)
      × (is_named new_units id ≡ true → (has_unit table id || has_unit new_units id) ≡ true)
unfolding check_all_names_exist missing contains
check_all_names_exist-all_exist new_units table e id =
    let left = drop_known new_units (drop_known table (names_needed new_units [])) in
    let c = clashes-all_exist new_units table in
    let a = contains-drop_known new_units (drop_known table (names_needed new_units [])) id in
    let b = contains-drop_known table (names_needed new_units []) id in
    let n = contains-names_needed new_units [] id in
    elim (List-cases left) [
      | inl done ↦ (
        λ h. c (ground arith) id h,
        λ named. let none_left = ap (λ l. contains l id) done in ground (arith, a, b, n, none_left),
      )
      | inr (x, xs, more) ↦ absurd (ground arith)
    ]
