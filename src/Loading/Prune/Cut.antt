-- ===== src/Loading/Prune/Cut.antt =====
-- What `prune_units` leaves of the table, edge by edge.
use mathlib.Core.Option
use rustysd.Prelude.{
  ◌≡◌, refl, inl, inr, Bool, not, ◌&&◌, List, [], ◌∷◌, none, arith, contains, contains-retain,
  Option-cases, if◌then◌else◌, retain,
}
use rustysd.Prelude.Map.{
  get, keys, remove, contains_key-get, contains-keys, get-remove, get-map_values,
}
use rustysd.Units.Id.{UnitId, unit_id_eq}
use rustysd.Units.Dependencies.{Dependencies}
use rustysd.Units.Runtime.{UnitTable}
use rustysd.Deactivation.Stops.{IsKeyed}
use rustysd.Loading.Edges.{
  EdgeKind, wants, wanted_by, requires, required_by, before, after, edges, linked, lists,
}
use rustysd.Loading.Sockets.Joined.{contains-dedup_dependencies}
use rustysd.Loading.Prune.{keep, prune_dependencies, prune_unit, remove_all, prune_table}

get-remove_all :
    (ids : List UnitId) (id : UnitId) (table : UnitTable)
    → get id (remove_all ids table) ≡ (if contains ids id then none else get id table)
unfolding remove_all contains
get-remove_all [] id table = refl
get-remove_all (x ∷ ids) id table =
    ground (arith, get-remove_all ids id (remove x table), get-remove x id table)

pub get-prune_table :
    (ids : List UnitId) (id : UnitId) (table : UnitTable)
    → get id (prune_table ids table)
      ≡ (if contains ids id then Option.map (prune_unit ids) (get id table) else none)
unfolding prune_table Option.map
get-prune_table ids id table = ground (
  arith,
  get-map_values (prune_unit ids) id
      (remove_all (retain (λ j. not (contains ids j)) (keys table)) table),
  get-remove_all (retain (λ j. not (contains ids j)) (keys table)) id table,
  contains-retain (λ j. not (contains ids j)) (keys table) id,
  contains-keys id table,
  contains_key-get id table,
)

pub contains-keep :
    (ids xs : List UnitId) (id : UnitId)
    → contains (keep ids xs) id ≡ (contains xs id && contains ids id)
unfolding keep
contains-keep ids xs id = contains-retain (λ j. contains ids j) xs id

-- What is cut out of a table, with its edges on both sides.
pub record IsCut (table table' : UnitTable) (stays : UnitId → Bool) : Type 0 where
  pub edges_after :
      (k : EdgeKind) (a b : UnitId)
      → linked k a b table' ≡ (linked k a b table && stays a && stays b)
  pub keyed : IsKeyed table → IsKeyed table'

contains-prune_dependencies :
    (k : EdgeKind) (ids : List UnitId) (d : Dependencies) (b : UnitId)
    → contains (edges k (prune_dependencies ids d)) b ≡ (contains (edges k d) b && contains ids b)
unfolding edges prune_dependencies
contains-prune_dependencies wants ids d b = contains-keep ids d.wants b
contains-prune_dependencies wanted_by ids d b = contains-keep ids d.wanted_by b
contains-prune_dependencies requires ids d b = contains-keep ids d.requires b
contains-prune_dependencies required_by ids d b = contains-keep ids d.required_by b
contains-prune_dependencies before ids d b = contains-keep ids d.before b
contains-prune_dependencies after ids d b = contains-keep ids d.after b

pub prune_table-IsCut :
    (ids : List UnitId) (table : UnitTable) → IsCut table (prune_table ids table) (contains ids)
unfolding linked lists prune_unit Option.map
prune_table-IsCut ids table = record {
  edges_after = λ k a b. elim (Option-cases (get a table)) [
    | inl lost ↦ ground (arith, get-prune_table ids a table)
    | inr (u, found) ↦ ground (
      arith,
      get-prune_table ids a table,
      contains-dedup_dependencies k (prune_dependencies ids u.common.dependencies) b,
      contains-prune_dependencies k ids u.common.dependencies b,
    )
  ];
  keyed = λ h a v found. elim (Option-cases (get a table)) [
    | inl lost ↦ absurd (ground (arith, get-prune_table ids a table))
    | inr (u, was) ↦ ground (arith, get-prune_table ids a table, h a u was)
  ];
}
