-- ===== src/Loading/Resolve/Target.antt =====
-- `add_socket_target_relations` adds the edges between sockets.target and the sockets, on both sides.
use mathlib.Core.Option
use rustysd.Prelude.{
  contains-append, is_some, ◌≡◌, refl, Bool, true, false, ◌&&◌, ◌||◌, List, [], ◌∷◌, ◌++◌, Option,
  none, some, arith, contains, ◌==◌, eq_iff, inl, inr, Option-cases, Bool-cases, IsNodup,
}
use rustysd.Prelude.Map.{
  contains-keys, get, contains_key, map_values, get-modify, get-map_values, keys, contains_key-get,
}
use rustysd.Units.Id.{UnitId, unit_id_eq}
use rustysd.Units.Unit.{UnitEntry, is_socket}
use rustysd.Units.Runtime.{UnitTable}
use rustysd.Deactivation.Stops.{IsKeyed}
use rustysd.Shutdown.Ends.{HasOwnKeys}
use rustysd.Loading.Edges.{
  wants, wanted_by, requires, required_by, contains-push, push, before, after, edge_eq, EdgeKind,
  edges, mirror, linked, lists,
}
use rustysd.Loading.Sockets.{
  add_socket_target_relations, before_target, socket_ids_of, after_sockets, sockets_target,
}
use rustysd.Loading.Sockets.Mirrored.{Keeps, Keeps-refl}
use rustysd.Loading.Sockets.Joined.{contains-dedup_dependencies}
use rustysd.Units.Dependencies.{Dependencies}

-- Whether there is a socket under the identifier.
abbrev pub socket_at : Option UnitEntry → Bool
socket_at none = false
socket_at (some u) = is_socket u

contains-socket_ids_of :
    (table : UnitTable) (a : UnitId)
    → HasOwnKeys table
    → IsNodup (keys table)
    → contains (socket_ids_of table) a ≡ socket_at (get a table)
unfolding socket_ids_of keys get contains
contains-socket_ids_of [] a own distinct = refl
contains-socket_ids_of ((j, u) ∷ table) a own distinct = ground (
  arith,
  eq_iff j a,
  contains-socket_ids_of table a own.1 distinct.1,
  contains-keys j table,
  contains_key-get j table,
)

-- What the implicit relations of sockets.target add: it comes after each socket, and each socket before it.
pub target_edge : EdgeKind → UnitId → UnitId → UnitTable → Bool
target_edge before a b table = socket_at (get a table) && sockets_target == b
target_edge after a b table = socket_at (get b table) && sockets_target == a
target_edge _ a b table = false

lists-before_target :
    (k : EdgeKind) (b : UnitId) (o : Option UnitEntry)
    → lists k b (Option.map before_target o)
      ≡ (lists k b o || edge_eq before k && socket_at o && sockets_target == b)
unfolding before_target lists Option.map
lists-before_target k b none = ground arith
lists-before_target k b (some u) = elim (Bool-cases (is_socket u)) [
  | inl sock ↦ ground (
    arith,
    contains-dedup_dependencies k (push before sockets_target u.common.dependencies) b,
    contains-push k before sockets_target b u.common.dependencies,
  )
  | inr other ↦ ground arith
]

contains-extend_after :
    (k : EdgeKind) (ids : List UnitId) (d : Dependencies) (b : UnitId)
    → contains (edges k (record d { after = d.after ++ ids })) b
      ≡ (contains (edges k d) b || edge_eq after k && contains ids b)
unfolding edges edge_eq
contains-extend_after k ids d b = ground (arith, contains-append d.after ids b)

lists-after_sockets :
    (k : EdgeKind) (ids : List UnitId) (b : UnitId) (o : Option UnitEntry)
    → lists k b (Option.map (after_sockets ids) o)
      ≡ (lists k b o || is_some o && edge_eq after k && contains ids b)
unfolding after_sockets lists Option.map
lists-after_sockets k ids b none = ground arith
lists-after_sockets k ids b (some u) =
    let d = u.common.dependencies in
    ground (
      arith,
      contains-dedup_dependencies k (record d { after = d.after ++ ids }) b,
      contains-extend_after k ids d b,
    )

is_some-map :
    (f : UnitEntry → UnitEntry) (o : Option UnitEntry) → is_some (Option.map f o) ≡ is_some o
unfolding Option.map
is_some-map f none = refl
is_some-map f (some u) = refl

pub linked-target :
    (table : UnitTable) (k : EdgeKind) (a b : UnitId)
    → HasOwnKeys table
    → IsNodup (keys table)
    → contains_key sockets_target table ≡ true
    → linked k a b (add_socket_target_relations table)
      ≡ (linked k a b table || target_edge k a b table)
unfolding add_socket_target_relations linked target_edge edge_eq
linked-target table k a b own distinct there =
    let ids = socket_ids_of table in
    let marked = map_values before_target table in
    ground (
      arith,
      get-modify sockets_target a (after_sockets ids) marked,
      get-map_values before_target a table,
      eq_iff sockets_target a,
      is_some-map before_target (get a table),
      lists-after_sockets k ids b (Option.map before_target (get a table)),
      lists-before_target k b (get a table),
      contains-socket_ids_of table b own distinct,
      contains_key-get sockets_target table,
    )

target_edge-mirror :
    (table : UnitTable) (k : EdgeKind) (a b : UnitId)
    → target_edge k a b table ≡ target_edge (mirror k) b a table
unfolding target_edge
target_edge-mirror table wants a b = refl
target_edge-mirror table wanted_by a b = refl
target_edge-mirror table requires a b = refl
target_edge-mirror table required_by a b = refl
target_edge-mirror table before a b = refl
target_edge-mirror table after a b = refl

before_target-id : (u : UnitEntry) → (before_target u).id ≡ u.id
unfolding before_target
before_target-id u = ground arith

get-target_id : (table : UnitTable) → IsKeyed table → IsKeyed (add_socket_target_relations table)
unfolding add_socket_target_relations after_sockets Option.map
get-target_id table keyed a v found =
    let f = after_sockets (socket_ids_of table) in
    elim (Option-cases (get a table)) [
      | inl lost ↦ absurd (
          ground (
            arith,
            get-modify sockets_target a f (map_values before_target table),
            get-map_values before_target a table,
          ))
      | inr (u, was) ↦ ground (
        arith,
        get-modify sockets_target a f (map_values before_target table),
        get-map_values before_target a table,
        before_target-id u,
        keyed a u was,
      )
    ]

-- These relations keep what the match of the sockets keeps.
pub add_socket_target_relations-Keeps :
    (table : UnitTable)
    → HasOwnKeys table
    → IsNodup (keys table)
    → Keeps table (add_socket_target_relations table)
unfolding add_socket_target_relations
add_socket_target_relations-Keeps table own distinct =
    elim (Bool-cases (contains_key sockets_target table)) [
      | inr absent ↦ rw (add_socket_target_relations, absent) (Keeps-refl table)
      | inl there ↦ record {
        grown = λ k a b h. ground (arith, linked-target table k a b own distinct there);
        symmetric = λ h k a b. ground (
          arith,
          h k a b,
          target_edge-mirror table k a b,
          linked-target table k a b own distinct there,
          linked-target table (mirror k) b a own distinct there,
        );
        keyed = get-target_id table;
      }
    ]
