-- ===== src/Loading/Edges.antt =====
-- The six edge lists of a unit by their kind, for src/units/loading/dependency_resolving.rs, and the edges of a
-- table as one relation.

use rustysd.Prelude.{
  ◌≡◌, Bool, true, false, ◌&&◌, ◌||◌, List, [], ◌∷◌, ◌++◌, Option, none, some, arith, contains,
  contains-append, ◌==◌,
}
use rustysd.Prelude.Map.{get, contains_key, contains_key-get}
use rustysd.Units.Id.{UnitId, unit_id_eq}
use rustysd.Units.Dependencies.{Dependencies}
use rustysd.Units.Unit.{UnitEntry}
use rustysd.Units.Runtime.{UnitTable}

-- The lists of `Dependencies`.
pub data EdgeKind : Type 0 where
  wants wanted_by requires required_by before after : EdgeKind

unfoldable pub edge_eq : EdgeKind → EdgeKind → Bool
edge_eq wants wants = true
edge_eq wanted_by wanted_by = true
edge_eq requires requires = true
edge_eq required_by required_by = true
edge_eq before before = true
edge_eq after after = true
edge_eq _ _ = false

unfoldable pub edges : EdgeKind → Dependencies → List UnitId
edges wants d = d.wants
edges wanted_by d = d.wanted_by
edges requires d = d.requires
edges required_by d = d.required_by
edges before d = d.before
edges after d = d.after

-- `dependencies.wants.push(id)`, and so on.
unfoldable pub push : EdgeKind → UnitId → Dependencies → Dependencies
push wants id d = record d { wants = d.wants ++ id ∷ [] }
push wanted_by id d = record d { wanted_by = d.wanted_by ++ id ∷ [] }
push requires id d = record d { requires = d.requires ++ id ∷ [] }
push required_by id d = record d { required_by = d.required_by ++ id ∷ [] }
push before id d = record d { before = d.before ++ id ∷ [] }
push after id d = record d { after = d.after ++ id ∷ [] }

abbrev pub with_dependencies : Dependencies → UnitEntry → UnitEntry
with_dependencies d u = record u { common = record u.common { dependencies = d } }

-- The same edge, seen from the other end.
abbrev pub mirror : EdgeKind → EdgeKind
mirror wants = wanted_by
mirror wanted_by = wants
mirror requires = required_by
mirror required_by = requires
mirror before = after
mirror after = before

unfoldable pub lists : EdgeKind → UnitId → Option UnitEntry → Bool
unfolding edges
lists k b none = false
lists k b (some u) = contains (edges k u.common.dependencies) b

-- The unit under `a` has `b` in its list of the kind.
unfoldable pub linked : EdgeKind → UnitId → UnitId → UnitTable → Bool
unfolding lists
linked k a b table = lists k b (get a table)

-- Every edge is visible on both sides.
abbrev pub IsMirror : UnitTable → Type 0
IsMirror table = (k : EdgeKind) (a b : UnitId) → linked k a b table ≡ linked (mirror k) b a table

contains-push_same :
    (x b : UnitId) (ids : List UnitId) → contains (ids ++ x ∷ []) b ≡ (contains ids b || x == b)
unfolding contains
contains-push_same x b ids = ground (arith, contains-append ids (x ∷ []) b)

pub contains-push :
    (k k' : EdgeKind) (x b : UnitId) (d : Dependencies)
    → contains (edges k (push k' x d)) b ≡ (contains (edges k d) b || edge_eq k' k && x == b)
unfolding edges push edge_eq
contains-push k k' x b d = ground (arith, contains-push_same x b (edges k d))

pub lists-present :
    (k : EdgeKind) (a b : UnitId) (table : UnitTable)
    → linked k a b table ≡ true
    → contains_key a table ≡ true
unfolding linked
lists-present k a b table h = ground (arith, contains_key-get a table)
