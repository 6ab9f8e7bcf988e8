-- ===== src/Loading/Resolve/Symmetric.antt =====
-- `fill_dependencies` makes every edge visible on both sides.
use mathlib.Core.Option
use rustysd.Prelude.{
  ◌∙◌, ◌≡◌, refl, sym, subst, true, false, List, [], ◌∷◌, arith, ◌==◌, inl, inr, Option-cases,
  Bool-cases, All, All-map, IsNodup,
}
use rustysd.Prelude.Map.{get, map_values, get-map_values, keys, contains_key-get}
use rustysd.Units.Id.{UnitId, UnitIdKind, kind_eq, id_eq, unit_id_eq}
use rustysd.Units.Runtime.{UnitTable, ok}
use rustysd.Deactivation.Stops.{IsKeyed}
use rustysd.Shutdown.Ends.{get-HasOwnKeys, HasOwnKeys}
use rustysd.Loading.Edges.{
  wants, wanted_by, requires, required_by, before, after, before, after, EdgeKind, edges, mirror,
  linked, lists, IsMirror,
}
use rustysd.Loading.Sockets.{apply_socket, add_socket_target_relations}
use rustysd.Loading.Sockets.Mirrored.{Keeps, Keeps-refl, Keeps-trans, apply_socket-Keeps}
use rustysd.Loading.Sockets.Joined.{contains-dedup_dependencies}
use rustysd.Units.Runtime.Laws.{Result-cases}
use rustysd.Removal.Clean.{HasNoDangling}
use rustysd.Loading.Fill.{mirror_relations}
use rustysd.Loading.Fill.Symmetric.{mirror_relations-IsFilled}
use rustysd.Loading.Resolve.Target.{add_socket_target_relations-Keeps}
use rustysd.Loading.Resolve.{
  fill_dependencies, add_all_implicit_relations, dedup_all, dedup_unit, of_kind, apply_sockets,
  apply_sockets_to_services,
}

of_kind-All :
    (kind : UnitIdKind) (ids : List UnitId)
    → All (λ id. kind_eq id.kind kind ≡ true) (of_kind kind ids)
unfolding of_kind
of_kind-All kind [] = tt
of_kind-All kind (id ∷ ids) = elim (Bool-cases (kind_eq id.kind kind)) [
  | inl same ↦ rw same (same, of_kind-All kind ids)
  | inr other ↦ rw other (of_kind-All kind ids)
]

kinds_apart :
    (i j : UnitId)
    → kind_eq i.kind UnitIdKind.socket ≡ true
    → kind_eq j.kind UnitIdKind.service ≡ true
    → (i == j) ≡ false
unfolding kind_eq id_eq
kinds_apart i j s t = ground arith

apply_sockets-Keeps :
    (services sockets : List UnitId) (table table' : UnitTable)
    → All (λ id. kind_eq id.kind UnitIdKind.service ≡ true) services
    → All (λ id. kind_eq id.kind UnitIdKind.socket ≡ true) sockets
    → IsKeyed table
    → apply_sockets services sockets table ≡ ok table'
    → Keeps table table'
unfolding apply_sockets
apply_sockets-Keeps services [] table table' sv so keyed e =
    let same : table ≡ table' = ground arith in subst (Keeps table) same (Keeps-refl table)
apply_sockets-Keeps services (id ∷ ids) table table' sv so keyed e =
    elim (Result-cases (apply_socket services id table)) [
      | inl (next, went) ↦
          let p =
            apply_socket-Keeps services id table next
              (All-map _ _ services (λ j t. kinds_apart id j so.0 t) sv) keyed went in
          let rest : apply_sockets services ids next ≡ ok table' = ground arith in
          Keeps-trans table next table' p
            (apply_sockets-Keeps services ids next table' sv so.1 (p.keyed keyed) rest)
      | inr failed ↦ absurd (ground arith)
    ]

apply_sockets_to_services-Keeps :
    (table table' : UnitTable)
    → IsKeyed table
    → apply_sockets_to_services table ≡ ok table'
    → Keeps table table'
unfolding apply_sockets_to_services
apply_sockets_to_services-Keeps table table' keyed e =
    apply_sockets-Keeps _ _ table table' (of_kind-All UnitIdKind.service (keys table))
      (of_kind-All UnitIdKind.socket (keys table)) keyed e

-- Every edge is visible on both sides, no edge of before is lost, and each leads to a unit of the table.
pub record IsResolved (table table' : UnitTable) : Type 0 where
  pub mirrored : IsMirror table'
  pub grown : (k : EdgeKind) (a b : UnitId) → linked k a b table ≡ true → linked k a b table' ≡ true
  pub closed : HasNoDangling table'
  pub keyed : IsKeyed table'

pub IsMirror-HasNoDangling : (table : UnitTable) → IsMirror table → HasNoDangling table
unfolding linked lists edges
IsMirror-HasNoDangling table mirrored id d u found m = ground (
  arith,
  mirrored wants id d,
  mirrored wanted_by id d,
  mirrored requires id d,
  mirrored required_by id d,
  mirrored before id d,
  mirrored after id d,
  contains_key-get d table,
)

mirror_twice :
    (k : EdgeKind) (a b : UnitId) (table : UnitTable)
    → linked (mirror (mirror k)) a b table ≡ linked k a b table
mirror_twice wants a b table = refl
mirror_twice wanted_by a b table = refl
mirror_twice requires a b table = refl
mirror_twice required_by a b table = refl
mirror_twice before a b table = refl
mirror_twice after a b table = refl

linked-dedup :
    (k : EdgeKind) (a b : UnitId) (table : UnitTable)
    → linked k a b (map_values dedup_unit table) ≡ linked k a b table
unfolding linked lists Option.map
linked-dedup k a b table = elim (Option-cases (get a table)) [
  | inl lost ↦ ground (arith, get-map_values dedup_unit a table)
  | inr (u, found) ↦ ground (
    arith,
    get-map_values dedup_unit a table,
    contains-dedup_dependencies k u.common.dependencies b,
  )
]

dedup-IsKeyed : (table : UnitTable) → IsKeyed table → IsKeyed (map_values dedup_unit table)
unfolding Option.map
dedup-IsKeyed table keyed a v found = elim (Option-cases (get a table)) [
  | inl lost ↦ absurd (ground (arith, get-map_values dedup_unit a table))
  | inr (u, was) ↦ ground (arith, get-map_values dedup_unit a table, keyed a u was)
]

-- Resolving the dependencies, where it succeeds, makes every edge visible on both sides, loses none, and
-- leaves none that leads to a unit that is not there. Each unit is under its own identifier.
pub fill_dependencies-IsResolved :
    (table table' : UnitTable)
    → HasOwnKeys table
    → IsNodup (keys table)
    → fill_dependencies table ≡ ok table'
    → IsResolved table table'
unfolding fill_dependencies add_all_implicit_relations dedup_all
fill_dependencies-IsResolved table table' own distinct e =
    elim (Option-cases (mirror_relations table)) [
      | inl stuck ↦ absurd (ground arith)
      | inr (t, filled) ↦
          let f = mirror_relations-IsFilled table t own distinct filled in
          let k0 =
            add_socket_target_relations-Keeps t f.own_keys
              (subst IsNodup (sym f.same_keys) distinct) in
          let keyed = k0.keyed (λ id u found. get-HasOwnKeys id u t f.own_keys found) in
          elim (Result-cases (apply_sockets_to_services (add_socket_target_relations t))) [
            | inr failed ↦ absurd (ground arith)
            | inl (t', went) ↦
                let k1 =
                  apply_sockets_to_services-Keeps (add_socket_target_relations t) t' keyed went in
                let start : IsMirror t = λ k a b. ground (
                  arith,
                  f.edges_after k a b,
                  f.edges_after (mirror k) b a,
                  mirror_twice k a b table,
                ) in
                let m1 = k1.symmetric (k0.symmetric start) in
                let m2 : IsMirror (map_values dedup_unit t') = λ k a b.
                  linked-dedup k a b t' ∙ m1 k a b ∙ sym (linked-dedup (mirror k) b a t') in
                let same : map_values dedup_unit t' ≡ table' = ground arith in
                subst (IsResolved table) same (record {
                  mirrored = m2;
                  grown = λ k a b h.
                      linked-dedup k a b t'
                      ∙ k1.grown k a b (k0.grown k a b (ground (arith, f.edges_after k a b)));
                  closed = IsMirror-HasNoDangling (map_values dedup_unit t') m2;
                  keyed = dedup-IsKeyed t' (k1.keyed keyed);
                })
          ]
    ]
