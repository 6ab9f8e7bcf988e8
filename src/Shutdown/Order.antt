-- ===== src/Shutdown/Order.antt =====
-- What a finished shutdown leaves: no unit that the edges allow to be stopped is still started.
use rustysd.Prelude.{
  IsNodup, List-cases, is_empty, ◌⊎◌, ℕ, zero, suc, ◌<◌, ◌≡◌, inl, inr, true, false, List, [], ◌∷◌,
  none, some, arith, contains, Bool-cases, Option-cases, ◌==◌,
}
use rustysd.Prelude.Map.{get, keys, contains-keys, contains_key-get}
use rustysd.Units.Id.{UnitId, id_eq_iff, unit_id_eq}
use rustysd.Units.Status.{is_started}
use rustysd.Units.Unit.{UnitEntry}
use rustysd.Units.Runtime.{UnitTable}
use rustysd.Shutdown.Ends.{HasOwnKeys}
use rustysd.Shutdown.{kill_before, chosen, nothing, choose, next_in, get_next_service_to_shutdown}

-- A started unit of `before` is found by the filter.
kill_before-finds :
    (table : UnitTable) (ids : List UnitId)
    → kill_before table ids ≡ some []
    → (d : UnitId) (v : UnitEntry) → contains ids d ≡ true
    → get d table ≡ some v
    → is_started v.common.status ≡ false
unfolding kill_before contains
kill_before-finds table [] e d v c found = absurd (cc)
kill_before-finds table (id ∷ ids) e d v c found = elim (Bool-cases (is_started v.common.status)) [
  | inr off ↦ off
  | inl on ↦ elim (Option-cases (get id table)) [
    | inl lost ↦ absurd (ground arith)
    | inr (u, known) ↦ elim (Option-cases (kill_before table ids)) [
      | inl lost ↦ absurd (ground arith)
      | inr (rest, went) ↦ ground (arith, id_eq_iff id d, kill_before-finds table ids _ d v)
    ]
  ]
]

next_in-chosen :
    (table t : UnitTable) (id : UnitId)
    → HasOwnKeys t
    → IsNodup (keys t)
    → next_in table t ≡ chosen id
    → (u : UnitEntry) × (get id t ≡ some u)
      × (is_started u.common.status ≡ true)
      × (kill_before table u.common.dependencies.before ≡ some [])
unfolding next_in choose get keys
next_in-chosen table [] id own once e = absurd (cc)
next_in-chosen table ((k, v) ∷ t) id own once e =
    by_turn (Bool-cases (is_started v.common.status))
      (Option-cases (kill_before table v.common.dependencies.before))
      (λ later.
        let (u, found, on, went) = next_in-chosen table t id own.1 once.1 later in
        (
          u,
          ground (arith, id_eq_iff k id, contains-keys id t, contains_key-get id t, once.0),
          on,
          went,
        ))
  where
    by_turn :
        ((is_started v.common.status ≡ true) ⊎ (is_started v.common.status ≡ false))
        → ((kill_before table v.common.dependencies.before ≡ none)
            ⊎ ((ids : List UnitId) × (kill_before table v.common.dependencies.before ≡ some ids)))
        → ((next_in table t ≡ chosen id)
            → (u : UnitEntry) × (get id ((k, v) ∷ t) ≡ some u)
              × (is_started u.common.status ≡ true)
              × (kill_before table u.common.dependencies.before ≡ some []))
        → (u : UnitEntry) × (get id ((k, v) ∷ t) ≡ some u)
          × (is_started u.common.status ≡ true)
          × (kill_before table u.common.dependencies.before ≡ some [])
    by_turn (inr off) o later = later (ground arith)
    by_turn (inl on) (inl lost) later = absurd (ground arith)
    by_turn (inl on) (inr ([], went)) later = (v, ground (arith, id_eq_iff k id, own.0), on, went)
    by_turn (inl on) (inr (x ∷ xs, went)) later = later (ground arith)

-- A turn at a started unit that finds nothing to stop has a started unit in its `before`.
abbrev Waits : UnitTable → UnitEntry → Type 0
Waits table u =
    is_started u.common.status ≡ true
    → (ids : List UnitId) × (kill_before table u.common.dependencies.before ≡ some ids)
      × (is_empty ids ≡ false)

next_in-Waits :
    (table t : UnitTable) (id : UnitId) (u : UnitEntry)
    → next_in table t ≡ nothing
    → get id t ≡ some u
    → Waits table u
unfolding next_in choose get
next_in-Waits table [] id u e found on = absurd (cc)
next_in-Waits table ((k, v) ∷ t) id u e found on = elim (Bool-cases (k == id)) [
  | inr other ↦
      next_in-Waits table t id u (rest (Bool-cases (is_started v.common.status))) (ground arith) on
  | inl same ↦ elim (Option-cases (kill_before table u.common.dependencies.before)) [
    | inl lost ↦ absurd (ground arith)
    | inr (ids, went) ↦ (
      ids,
      went,
      elim (List-cases ids) [
        | inl empty ↦ absurd (ground arith)
        | inr (x, xs, more) ↦ ground arith
      ],
    )
  ]
]
  where
    rest :
        (is_started v.common.status ≡ true) ⊎ (is_started v.common.status ≡ false)
        → next_in table t ≡ nothing
    rest h = elim (Option-cases (kill_before table v.common.dependencies.before)) [
      | inl lost ↦ ground arith
      | inr (ids, went) ↦ ground (arith, List-cases ids)
    ]

kill_before-none :
    (table : UnitTable) (ids l : List UnitId)
    → ((d : UnitId) (v : UnitEntry)
        → contains ids d ≡ true
        → get d table ≡ some v
        → is_started v.common.status ≡ false)
    → kill_before table ids ≡ some l
    → is_empty l ≡ true
unfolding kill_before contains
kill_before-none table [] l off e = ground arith
kill_before-none table (id ∷ ids) l off e = elim (Option-cases (get id table)) [
  | inl lost ↦ absurd (ground arith)
  | inr (u, known) ↦ elim (Option-cases (kill_before table ids)) [
    | inl lost ↦ absurd (ground arith)
    | inr (rest, went) ↦
        let quiet = off id u (ground (arith, id_eq_iff id id)) known in
        let empty = kill_before-none table ids rest (λ d v c. off d v (ground arith)) went in
        ground arith
  ]
]

-- `rank` falls along the edges of `before`, so that they have no circle.
abbrev pub IsRankedBefore : (UnitId → ℕ) → UnitTable → Type 0
IsRankedBefore rank table =
    (id d : UnitId) (u : UnitEntry)
    → get id table ≡ some u
    → contains u.common.dependencies.before d ≡ true
    → rank d < rank id

pub nothing-started :
    (rank : UnitId → ℕ) (table : UnitTable)
    → IsRankedBefore rank table
    → get_next_service_to_shutdown table ≡ nothing
    → (n : ℕ) (id : UnitId) (u : UnitEntry) → rank id < n
    → get id table ≡ some u
    → is_started u.common.status ≡ false
unfolding get_next_service_to_shutdown
nothing-started rank table ranked e zero id u h found = absurd (omega arith)
nothing-started rank table ranked e (suc n) id u h found =
    elim (Bool-cases (is_started u.common.status)) [
      | inr off ↦ off
      | inl on ↦
          let (ids, went, more) = next_in-Waits table table id u e found on in
          let none_left =
            kill_before-none table u.common.dependencies.before ids
              (λ d v c known.
                nothing-started rank table ranked e n d v (omega (arith, ranked id d u found c, h))
                  known)
              went in
          absurd (cc)
    ]

-- The unit that is stopped next is started, and no unit of its `before` still is.
pub get_next_service_to_shutdown-chosen :
    (table : UnitTable) (id : UnitId)
    → HasOwnKeys table
    → IsNodup (keys table)
    → get_next_service_to_shutdown table ≡ chosen id
    → (u : UnitEntry) × (get id table ≡ some u)
      × (is_started u.common.status ≡ true)
      × ((d : UnitId) (v : UnitEntry)
          → contains u.common.dependencies.before d ≡ true
          → get d table ≡ some v
          → is_started v.common.status ≡ false)
unfolding get_next_service_to_shutdown
get_next_service_to_shutdown-chosen table id own once e =
    let (u, found, on, went) = next_in-chosen table table id own once e in
    (u, found, on, kill_before-finds table u.common.dependencies.before went)
