-- ===== src/Units/Locking/Complete.antt =====
-- Which locks are held, and when none can be.
use rustysd.Prelude.{
  ◌≡◌, refl, ◌∙◌, sym, subst, inl, inr, ◌⊎◌, true, false, ◌&&◌, List, [], ◌∷◌, Option, none, some,
  arith, contains, Bool-cases, Option-cases, is_some, if◌then◌else◌, eq_refl, eq_iff,
}
use rustysd.Prelude.Map.{get}
use rustysd.Prelude.Partial.{>>=-eq-some}
use rustysd.Units.Id.{UnitId, unit_id_eq}
use rustysd.Units.Status.{UnitStatus}
use rustysd.Units.Unit.{UnitEntry}
use rustysd.Units.Runtime.{UnitTable, status_of}
use rustysd.Units.Dependencies.{sort_dedup}
use rustysd.Units.Dependencies.Laws.{contains-sort_dedup}
use rustysd.Units.Locking.{overlaps, statuses, aquire_locks}

-- What locking a list of identifiers one by one has found.
pub record Locked (table : UnitTable) (id : UnitId) (ids : List UnitId)
    (l : List (UnitId × UnitStatus)) : Type 0 where
  pub unit : UnitEntry
  pub rest : List (UnitId × UnitStatus)
  pub found : get id table ≡ some unit
  pub others : statuses table ids ≡ some rest
  pub joined : (id, unit.common.status) ∷ rest ≡ l

pub statuses-cons :
    (table : UnitTable) (id : UnitId) (ids : List UnitId) (l : List (UnitId × UnitStatus))
    → statuses table (id ∷ ids) ≡ some l
    → Locked table id ids l
unfolding statuses
statuses-cons table id ids l e =
    let (unit, found, more) = >>=-eq-some (get id table) _ e in
    let (rest, others, last) = >>=-eq-some (statuses table ids) _ more in
    record { unit = unit; rest = rest; found = found; others = others; joined = cc }

-- The locks of exactly these units are held, and each shows the status of its unit.
abbrev pub Shows : UnitTable → List UnitId → List (UnitId × UnitStatus) → Type 0
Shows table ids l =
    (d : UnitId)
    → (get d l ≡ (if contains ids d then status_of d table else none))
      × (is_some (get d l) ≡ contains ids d)

statuses-Shows :
    (table : UnitTable) (ids : List UnitId) (l : List (UnitId × UnitStatus))
    → statuses table ids ≡ some l
    → Shows table ids l
unfolding contains statuses status_of get
statuses-Shows table [] l e d =
    let same : [] ≡ l = ground arith in subst (λ l. Shows table [] l) same (λ d. (refl, refl)) d
statuses-Shows table (id ∷ ids) l e d =
    let g = statuses-cons table id ids l e in
    let found = g.found in
    let ih = statuses-Shows table ids g.rest g.others d in
    rw (← g.joined) (
      ground (arith, eq_iff id d, found, ih.0, ih.1),
      ground (arith, eq_iff id d, found, ih.0, ih.1),
    )

-- One of the units is not in the table.
abbrev pub HasMissing : UnitTable → List UnitId → Type 0
HasMissing table ids = (d : UnitId) × (contains ids d ≡ true) × (get d table ≡ none)

statuses-HasMissing :
    (table : UnitTable) (ids : List UnitId) → statuses table ids ≡ none → HasMissing table ids
unfolding contains statuses
statuses-HasMissing table [] e = absurd (cc)
statuses-HasMissing table (id ∷ ids) e = elim (Option-cases (get id table)) [
  | inl lost ↦ (id, ground (arith, eq_refl id), lost)
  | inr (u, found) ↦ elim (Option-cases (statuses table ids)) [
    | inl more ↦
        let (d, c, lost) = statuses-HasMissing table ids more in (d, ground (arith, c), lost)
    | inr (l, went) ↦ absurd (ground arith)
  ]
]

overlaps-some :
    (es ss : List UnitId)
    → overlaps es ss ≡ true
    → (d : UnitId) × (contains es d ≡ true) × (contains ss d ≡ true)
unfolding overlaps contains
overlaps-some [] ss e = absurd (cc)
overlaps-some (x ∷ es) ss e = elim (Bool-cases (contains ss x)) [
  | inl both ↦ (x, ground (arith, eq_refl x), both)
  | inr apart ↦ let (d, c, c') = overlaps-some es ss (ground arith) in (d, ground (arith, c), c')
]

overlaps-none :
    (es ss : List UnitId)
    → overlaps es ss ≡ false
    → (d : UnitId) → (contains es d && contains ss d) ≡ false
unfolding overlaps contains
overlaps-none [] ss e d = refl
overlaps-none (x ∷ es) ss e d =
    let ih = overlaps-none es ss (ground arith) d in ground (arith, eq_iff x d, ih)

Shows-sort_dedup :
    (table : UnitTable) (ids : List UnitId) (l : List (UnitId × UnitStatus))
    → Shows table (sort_dedup ids) l
    → Shows table ids l
Shows-sort_dedup table ids l s d =
    subst (λ b. (get d l ≡ (if b then status_of d table else none)) × (is_some (get d l) ≡ b))
      (contains-sort_dedup ids d) (s d)

HasMissing-sort_dedup :
    (table : UnitTable) (ids : List UnitId)
    → HasMissing table (sort_dedup ids)
    → HasMissing table ids
HasMissing-sort_dedup table ids (d, c, lost) = (d, sym (contains-sort_dedup ids d) ∙ c, lost)

-- How an acquisition ends: a panic only where a unit is in both lists or not in the table, and else with the
-- locks of both lists.
abbrev pub IsAcquired :
    List UnitId
    → List UnitId
    → UnitTable
    → Option (List (UnitId × UnitStatus) × List (UnitId × UnitStatus))
    → Type 0
IsAcquired exclusive shared table none =
    ((d : UnitId) × (contains exclusive d ≡ true) × (contains shared d ≡ true))
    ⊎ (HasMissing table exclusive ⊎ HasMissing table shared)
IsAcquired exclusive shared table (some (held, others)) =
    ((d : UnitId) → (contains exclusive d && contains shared d) ≡ false)
    × Shows table exclusive held
    × Shows table shared others

-- `aquire_locks` panics exactly where a unit is in both lists or one of them is not in the table. Else it
-- returns a lock of every unit of each list and of no other, with the status that the unit has.
pub aquire_locks-IsAcquired :
    (exclusive shared : List UnitId) (table : UnitTable)
    → IsAcquired exclusive shared table (aquire_locks exclusive shared table)
unfolding aquire_locks
aquire_locks-IsAcquired exclusive shared table =
    let es = sort_dedup exclusive in
    let ss = sort_dedup shared in
    elim (Bool-cases (overlaps es ss)) [
      | inl both ↦
          let (d, c, c') = overlaps-some es ss both in
          rw (both, aquire_locks)
            (inl (
              d,
              sym (contains-sort_dedup exclusive d) ∙ c,
              sym (contains-sort_dedup shared d) ∙ c',
            ))
      | inr apart ↦ elim (Option-cases (statuses table es)) [
        | inl lost ↦
            rw (apart, lost, aquire_locks)
              (inr
                (inl (HasMissing-sort_dedup table exclusive (statuses-HasMissing table es lost))))
        | inr (held, got) ↦ elim (Option-cases (statuses table ss)) [
          | inl lost ↦
              rw (apart, got, lost, aquire_locks)
                (inr (inr (HasMissing-sort_dedup table shared (statuses-HasMissing table ss lost))))
          | inr (others, got') ↦
              rw (apart, got, got', aquire_locks)
                (
                  λ d.
                      let n = overlaps-none es ss apart d in
                      ground
                        (arith, n, contains-sort_dedup exclusive d, contains-sort_dedup shared d),
                  Shows-sort_dedup table exclusive held (statuses-Shows table es held got),
                  Shows-sort_dedup table shared others (statuses-Shows table ss others got'),
                )
        ]
      ]
    ]
