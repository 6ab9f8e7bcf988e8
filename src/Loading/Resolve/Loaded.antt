-- ===== src/Loading/Resolve/Loaded.antt =====
-- The table that loading ends with.
use mathlib.Core.Option
use rustysd.Prelude.{
  String, ◌≡◌, refl, inl, inr, Bool, true, false, not, ◌&&◌, List, [], ◌∷◌, none, some, arith,
  contains, if◌then◌else◌, ◌==◌, eq_iff, Option-cases, IsNodup, subst,
}
use rustysd.Prelude.Map.{get, remove, keys, get-remove, get-map_values}
use rustysd.Units.Id.{UnitId, unit_id_eq}
use rustysd.Units.Dependencies.{Dependencies, remove_id}
use rustysd.Units.Dependencies.Laws.{contains-remove_from_vec}
use rustysd.Units.Unit.{UnitEntry}
use rustysd.Units.Runtime.{UnitTable, ok}
use rustysd.Units.Runtime.Laws.{Result-cases}
use rustysd.Deactivation.Stops.{IsKeyed}
use rustysd.Shutdown.Ends.{HasOwnKeys}
use rustysd.Removal.Clean.{HasNoDangling}
use rustysd.Loading.Edges.{
  EdgeKind, wants, wanted_by, requires, required_by, before, after, edges, mirror, linked, lists,
  IsMirror, with_dependencies,
}
use rustysd.Loading.Prune.{Pruned, pruned, target_not_found, unfinished, prune_table, prune_units}
use rustysd.Loading.Prune.Cut.{IsCut, prune_table-IsCut}
use rustysd.Loading.Prune.Kept.{prune_units-table}
use rustysd.Loading.Resolve.{
  is_unused_socket, unused_sockets, remove_sockets, forget_ids, cleanup_removed_ids,
  drop_unused_sockets, after_pruning, resolve, fill_dependencies,
}
use rustysd.Loading.Resolve.Symmetric.{IsMirror-HasNoDangling, fill_dependencies-IsResolved}

IsCut-IsMirror :
    (table table' : UnitTable) (stays : UnitId → Bool)
    → IsCut table table' stays
    → IsMirror table
    → IsMirror table'
IsCut-IsMirror table table' stays c m k a b =
    ground (arith, c.edges_after k a b, c.edges_after (mirror k) b a, m k a b)

contains-remove_id :
    (k : EdgeKind) (id : UnitId) (d : Dependencies) (b : UnitId)
    → contains (edges k (remove_id id d)) b ≡ (contains (edges k d) b && not (id == b))
unfolding edges remove_id
contains-remove_id wants id d b = contains-remove_from_vec d.wants id b
contains-remove_id wanted_by id d b = contains-remove_from_vec d.wanted_by id b
contains-remove_id requires id d b = contains-remove_from_vec d.requires id b
contains-remove_id required_by id d b = contains-remove_from_vec d.required_by id b
contains-remove_id before id d b = contains-remove_from_vec d.before id b
contains-remove_id after id d b = contains-remove_from_vec d.after id b

-- What forgetting identifiers leaves of a unit.
record Forgot (ids : List UnitId) (u u' : UnitEntry) : Type 0 where
  same_id : u'.id ≡ u.id
  same_specific : u'.specific ≡ u.specific
  edges_after :
      (k : EdgeKind) (b : UnitId)
      → contains (edges k u'.common.dependencies) b
        ≡ (contains (edges k u.common.dependencies) b && not (contains ids b))

forget_ids-Forgot : (ids : List UnitId) (u : UnitEntry) → Forgot ids u (forget_ids ids u)
unfolding forget_ids contains
forget_ids-Forgot [] u = record {
  same_id = refl;
  same_specific = refl;
  edges_after = λ k b. ground arith;
}
forget_ids-Forgot (id ∷ ids) u =
    let ih = forget_ids-Forgot ids (with_dependencies (remove_id id u.common.dependencies) u) in
    record {
      same_id = ih.same_id;
      same_specific = ih.same_specific;
      edges_after = λ k b.
          ground (arith, ih.edges_after k b, contains-remove_id k id u.common.dependencies b);
    }

get-remove_sockets :
    (ids : List UnitId) (a : UnitId) (table : UnitTable)
    → get a (remove_sockets ids table) ≡ (if contains ids a then none else get a table)
unfolding remove_sockets contains
get-remove_sockets [] a table = refl
get-remove_sockets (x ∷ ids) a table =
    ground (arith, get-remove_sockets ids a (remove x table), get-remove x a table)

get-drop :
    (a : UnitId) (table : UnitTable)
    → get a (drop_unused_sockets table) ≡ (
        if contains (unused_sockets table) a
        then none
        else Option.map (forget_ids (unused_sockets table)) (get a table))
unfolding drop_unused_sockets cleanup_removed_ids Option.map
get-drop a table =
    let ids = unused_sockets table in
    ground (
      arith,
      get-map_values (forget_ids ids) a (remove_sockets ids table),
      get-remove_sockets ids a table,
    )

drop_unused_sockets-IsCut :
    (table : UnitTable)
    → IsCut table (drop_unused_sockets table) (λ a. not (contains (unused_sockets table) a))
unfolding linked lists Option.map
drop_unused_sockets-IsCut table = record {
  edges_after = λ k a b. elim (Option-cases (get a table)) [
    | inl lost ↦ ground (arith, get-drop a table)
    | inr (u, found) ↦
        let f = forget_ids-Forgot (unused_sockets table) u in
        ground (arith, get-drop a table, f.edges_after k b)
  ];
  keyed = λ h a v found. elim (Option-cases (get a table)) [
    | inl lost ↦ absurd (ground (arith, get-drop a table))
    | inr (u, was) ↦
        let f = forget_ids-Forgot (unused_sockets table) u in
        ground (arith, get-drop a table, h a u was, f.same_id)
  ];
}

contains-unused_sockets :
    (a : UnitId) (u : UnitEntry) (table : UnitTable)
    → get a table ≡ some u
    → is_unused_socket u.specific ≡ true
    → contains (unused_sockets table) u.id ≡ true
unfolding get unused_sockets contains
contains-unused_sockets a u [] found unused = absurd (cc)
contains-unused_sockets a u ((j, v) ∷ table) found unused =
    ground (arith, eq_iff u.id u.id, contains-unused_sockets a u table)

-- The table that loading ends with.
pub record IsLoaded (table : UnitTable) : Type 0 where
  pub mirrored : IsMirror table
  pub closed : HasNoDangling table
  pub keyed : IsKeyed table
  pub sockets_used :
      (a : UnitId) (u : UnitEntry) → get a table ≡ some u → is_unused_socket u.specific ≡ false

drop_unused_sockets-IsLoaded :
    (table : UnitTable) → IsMirror table → IsKeyed table → IsLoaded (drop_unused_sockets table)
unfolding Option.map
drop_unused_sockets-IsLoaded table m keyed =
    let c = drop_unused_sockets-IsCut table in
    let m' = IsCut-IsMirror table (drop_unused_sockets table) _ c m in
    record {
      mirrored = m';
      closed = IsMirror-HasNoDangling (drop_unused_sockets table) m';
      keyed = c.keyed keyed;
      sockets_used = λ a v found. elim (Option-cases (get a table)) [
        | inl lost ↦ absurd (ground (arith, get-drop a table))
        | inr (u, was) ↦
            let f = forget_ids-Forgot (unused_sockets table) u in
            ground (
              arith,
              get-drop a table,
              keyed a u was,
              f.same_specific,
              contains-unused_sockets a u table was,
            )
      ];
    }

-- A pruning that is unwrapped without a panic was done.
pub after_pruning-ok :
    (p : Pruned) (table' : UnitTable)
    → after_pruning p ≡ ok table'
    → (table : UnitTable) × (p ≡ pruned table) × (drop_unused_sockets table ≡ table')
unfolding after_pruning
after_pruning-ok (pruned table) table' e = (table, refl, ground arith)
after_pruning-ok target_not_found table' e = absurd (ground arith)
after_pruning-ok Pruned.panicked table' e = absurd (ground arith)
after_pruning-ok unfinished table' e = absurd (ground arith)

-- When loading succeeds: each unit is under its own identifier, every edge is visible on both sides and
-- leads to a unit of the table, and every socket has a service.
pub resolve-IsLoaded :
    (target_unit : String) (table table' : UnitTable)
    → HasOwnKeys table
    → IsNodup (keys table)
    → resolve target_unit table ≡ ok table'
    → IsLoaded table'
unfolding resolve
resolve-IsLoaded target_unit table table' own distinct e =
    elim (Result-cases (fill_dependencies table)) [
      | inr failed ↦ absurd (ground arith)
      | inl (filled, went) ↦
          let f = fill_dependencies-IsResolved table filled own distinct went in
          let (t, done, dropped) =
            after_pruning-ok (prune_units target_unit filled) table' (ground arith) in
          let (ids, cut) = prune_units-table target_unit filled t done in
          let c = prune_table-IsCut ids filled in
          let m = IsCut-IsMirror filled (prune_table ids filled) _ c f.mirrored in
          subst IsLoaded dropped (
            subst (λ s. IsLoaded (drop_unused_sockets s)) cut
              (drop_unused_sockets-IsLoaded (prune_table ids filled) m (c.keyed f.keyed)))
    ]
