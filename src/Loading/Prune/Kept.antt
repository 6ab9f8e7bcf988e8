-- ===== src/Loading/Prune/Kept.antt =====
-- What pruning leaves: the units that the target reaches, and no edge to any other.
use mathlib.Core.Option
use text.Mathlib.Text.{◌==◌ as str_eq}
use text.Mathlib.TextEquality.{eq_iff as str_eq_iff}
use rustysd.Loading.Edges.{EdgeKind, linked}
use rustysd.Loading.Prune.Cut.{contains-keep, get-prune_table, prune_table-IsCut}
use rustysd.Prelude.{
  subst, String, ◌≡◌, refl, ◌∙◌, sym, ◌↔◌, inl, inr, ◌⊎◌, Option, Bool-cases, true, ◌&&◌, List, [],
  ◌∷◌, none, some, arith, contains, Option-cases, eq_iff,
}
use rustysd.Prelude.Map.{get, contains_key, contains_key-get}
use rustysd.Units.Id.{UnitId, unit_id_eq}
use rustysd.Units.Dependencies.{Dependencies, dedup_dependencies}
use rustysd.Units.Dependencies.Laws.{contains-sort_dedup}
use rustysd.Units.Unit.{UnitEntry}
use rustysd.Units.Runtime.{UnitTable}
use rustysd.Activation.Subgraph.{Collected, done, gather, collect_unit_start_subgraph}
use rustysd.Activation.Subgraph.Reach.{
  Reach, collect_unit_start_subgraph-Reach, IsSettled, collect_unit_start_subgraph-IsSettled,
}
use rustysd.Removal.Clean.{mentions, HasNoDangling}
use rustysd.Loading.Prune.{
  find_start, prune_dependencies, prune_unit, prune_table, pruned, after_collecting, prune_units,
}

mentions-dedup_dependencies :
    (d : Dependencies) (id : UnitId) → mentions (dedup_dependencies d) id ≡ mentions d id
unfolding dedup_dependencies
mentions-dedup_dependencies d id = ground (
  arith,
  contains-sort_dedup d.wants id,
  contains-sort_dedup d.wanted_by id,
  contains-sort_dedup d.requires id,
  contains-sort_dedup d.required_by id,
  contains-sort_dedup d.before id,
  contains-sort_dedup d.after id,
)

mentions-prune_unit :
    (ids : List UnitId) (u : UnitEntry) (id : UnitId)
    → mentions (prune_unit ids u).common.dependencies id
      ≡ (mentions u.common.dependencies id && contains ids id)
unfolding prune_unit prune_dependencies
mentions-prune_unit ids u id =
    let d = u.common.dependencies in
    ground (
      arith,
      mentions-dedup_dependencies (prune_dependencies ids d) id,
      contains-keep ids d.wants id,
      contains-keep ids d.wanted_by id,
      contains-keep ids d.requires id,
      contains-keep ids d.required_by id,
      contains-keep ids d.before id,
      contains-keep ids d.after id,
    )

-- What is gathered from a list is gathered from units of the table.
gather-contains_key :
    (table : UnitTable) (ids new : List UnitId) (id : UnitId)
    → gather table ids ≡ some new
    → contains ids id ≡ true
    → contains_key id table ≡ true
unfolding gather contains
gather-contains_key table [] new id e c = absurd (cc)
gather-contains_key table (x ∷ ids) new id e c = elim (Option-cases (get x table)) [
  | inl lost ↦ absurd (ground arith)
  | inr (u, found) ↦ elim (Option-cases (gather table ids)) [
    | inl stuck ↦ absurd (ground arith)
    | inr (rest, went) ↦
        ground (
          arith,
          eq_iff x id,
          contains_key-get id table,
          gather-contains_key table ids rest id went,
        )
  ]
]

-- What a pruned table is to the one before: the units that were collected, trimmed, and no edge that
-- leads out of it.
pub record IsPruned (table table' : UnitTable) (start : UnitId) : Type 0 where
  pub reached : (id : UnitId) → (contains_key id table' ≡ true) ↔ Reach table (start ∷ []) id
  pub closed : HasNoDangling table'
  pub edges :
      (kind : EdgeKind) (id d : UnitId)
      → linked kind id d table'
        ≡ (linked kind id d table && contains_key id table' && contains_key d table')

prune_table-keys :
    (table : UnitTable) (ids : List UnitId)
    → IsSettled table ids
    → (id : UnitId) → contains_key id (prune_table ids table) ≡ contains ids id
unfolding Option.map
prune_table-keys table ids s id = ground (
  arith,
  contains_key-get id (prune_table ids table),
  contains_key-get id table,
  get-prune_table ids id table,
  gather-contains_key table ids s.new id s.gathered,
)

prune_table-IsPruned :
    (table : UnitTable) (start : UnitId) (ids : List UnitId)
    → collect_unit_start_subgraph (start ∷ []) table ≡ done ids
    → IsPruned table (prune_table ids table) start
unfolding Option.map
prune_table-IsPruned table start ids e =
    let s = collect_unit_start_subgraph-IsSettled table (start ∷ []) ids e in
    record {
      reached = λ id.
          let r = collect_unit_start_subgraph-Reach table (start ∷ []) ids id e in
          let k = prune_table-keys table ids s id in ((λ c. r.0 (sym k ∙ c)), (λ p. k ∙ r.1 p));
      closed = λ id d u' found m. elim (Option-cases (get id table)) [
        | inl lost ↦ absurd (ground (arith, get-prune_table ids id table))
        | inr (u, was) ↦ ground (
          arith,
          get-prune_table ids id table,
          mentions-prune_unit ids u d,
          prune_table-keys table ids s d,
        )
      ];
      edges = λ kind id d. ground (
        arith,
        (prune_table-IsCut ids table).edges_after kind id d,
        prune_table-keys table ids s id,
        prune_table-keys table ids s d,
      );
    }

-- Pruning goes on only after a collection that is done.
after_collecting_pruned :
    (table table' : UnitTable) (c : Collected)
    → after_collecting table c ≡ pruned table'
    → (ids : List UnitId) × (c ≡ done ids) × (prune_table ids table ≡ table')
unfolding after_collecting
after_collecting_pruned table table' (done ids) e = (ids, refl, ground arith)
after_collecting_pruned table table' Collected.panicked e = absurd (ground arith)
after_collecting_pruned table table' Collected.out_of_fuel e = absurd (ground arith)

pub prune_units-table :
    (name : String) (table table' : UnitTable)
    → prune_units name table ≡ pruned table'
    → (ids : List UnitId) × (prune_table ids table ≡ table')
unfolding prune_units
prune_units-table name table table' e = elim (Option-cases (find_start name table none)) [
  | inl missing ↦ absurd (ground arith)
  | inr (start, named) ↦
      let (ids, got, same) =
        after_collecting_pruned table table' (collect_unit_start_subgraph (start ∷ []) table)
          (ground arith) in
      (ids, same)
]

find_start-named :
    (name : String) (table : UnitTable) (found : Option UnitId) (start : UnitId)
    → find_start name table found ≡ some start
    → (found ≡ some start) ⊎ (start.name ≡ name)
unfolding find_start
find_start-named name [] found start e = inl e
find_start-named name ((_, unit) ∷ units) found start e =
    elim (Bool-cases (str_eq unit.id.name name)) [
      | inr other ↦ find_start-named name units found start (ground arith)
      | inl same ↦ elim (find_start-named name units (some unit.id) start (ground arith)) [
        | inr later ↦ inr later
        | inl this ↦
            let id : unit.id ≡ start = cc in
            inr (subst (λ s. s.name ≡ name) id ((str_eq_iff unit.id.name name).0 same))
      ]
    ]

-- When pruning succeeds, there is an identifier with the name of the target such that the table holds exactly
-- the units that this one reaches along after, wants and requires, each of the six edge lists of a unit that is
-- left has exactly the edges that it had to units that are left, and no edge leads out of the table.
pub prune_units-IsPruned :
    (name : String) (table table' : UnitTable)
    → prune_units name table ≡ pruned table'
    → (start : UnitId) × (start.name ≡ name) × IsPruned table table' start
unfolding prune_units after_collecting
prune_units-IsPruned name table table' e = elim (Option-cases (find_start name table none)) [
  | inl missing ↦ absurd (ground arith)
  | inr (start, found) ↦
      let (ids, got, same) =
        after_collecting_pruned table table' (collect_unit_start_subgraph (start ∷ []) table)
          (ground arith) in
      let pruning =
        subst (λ t. IsPruned table t start) same (prune_table-IsPruned table start ids got) in
      elim (find_start-named name table none start found) [
        | inl nothing ↦ absurd (cc)
        | inr named ↦ (start, named, pruning)
      ]
]
