-- ===== src/Loading/Sockets/Joined.antt =====
-- What the match of a service with a socket does to the edges of the two.
use rustysd.Prelude.{◌≡◌, Bool, true, false, ◌&&◌, ◌||◌, arith, contains, if◌then◌else◌, ◌==◌}
use rustysd.Units.Id.{UnitId, unit_id_eq}
use rustysd.Units.Dependencies.{Dependencies, dedup_dependencies}
use rustysd.Units.Dependencies.Laws.{contains-sort_dedup}
use rustysd.Units.Unit.{UnitEntry, ServiceSpecific}
use rustysd.Loading.Edges.{
  EdgeKind, wants, wanted_by, requires, required_by, before, after, push, edges, edge_eq, mirror,
  contains-push,
}
use rustysd.Loading.Sockets.{
  Match, add_sock_srvc_relations, match_name, match_mention, match_service,
}

pub contains-dedup_dependencies :
    (k : EdgeKind) (d : Dependencies) (b : UnitId)
    → contains (edges k (dedup_dependencies d)) b ≡ contains (edges k d) b
unfolding edges dedup_dependencies
contains-dedup_dependencies wants d b = contains-sort_dedup d.wants b
contains-dedup_dependencies wanted_by d b = contains-sort_dedup d.wanted_by b
contains-dedup_dependencies requires d b = contains-sort_dedup d.requires b
contains-dedup_dependencies required_by d b = contains-sort_dedup d.required_by b
contains-dedup_dependencies before d b = contains-sort_dedup d.before b
contains-dedup_dependencies after d b = contains-sort_dedup d.after b

-- The kinds of the edges from a service to its socket.
abbrev pub to_socket : EdgeKind → Bool
to_socket requires = true
to_socket after = true
to_socket _ = false

-- The match adds the edges of those kinds, seen from both sides, or nothing.
pub record Joined (srvc_id sock_id : UnitId) (m m' : Match) : Type 0 where
  pub joined : Bool
  pub srvc_side :
      (k : EdgeKind) (b : UnitId)
      → contains (edges k m'.srvc_install) b
        ≡ (contains (edges k m.srvc_install) b || joined && to_socket k && sock_id == b)
  pub sock_side :
      (k : EdgeKind) (b : UnitId)
      → contains (edges k m'.sock_install) b
        ≡ (contains (edges k m.sock_install) b || joined && to_socket (mirror k) && srvc_id == b)

pushed_twice :
    (i j k : EdgeKind) (x b : UnitId) (d : Dependencies)
    → contains (edges k (dedup_dependencies (push i x (push j x d)))) b
      ≡ (contains (edges k d) b || (edge_eq i k || edge_eq j k) && x == b)
pushed_twice i j k x b d = ground (
  arith,
  contains-dedup_dependencies k (push i x (push j x d)) b,
  contains-push k i x b (push j x d),
  contains-push k j x b d,
)

add_sock_srvc_relations-Joined :
    (srvc_id sock_id : UnitId) (m : Match)
    → Joined srvc_id sock_id m (add_sock_srvc_relations srvc_id sock_id m)
unfolding add_sock_srvc_relations edge_eq
add_sock_srvc_relations-Joined srvc_id sock_id m = record {
  joined = true;
  srvc_side = λ k b. ground (arith, pushed_twice requires after k sock_id b m.srvc_install);
  sock_side = λ k b. ground (arith, pushed_twice required_by before k srvc_id b m.sock_install);
}

unchanged-Joined : (srvc_id sock_id : UnitId) (m : Match) → Joined srvc_id sock_id m m
unchanged-Joined srvc_id sock_id m = record {
  joined = false;
  srvc_side = λ k b. ground arith;
  sock_side = λ k b. ground arith;
}

if-Joined :
    (c : Bool) (srvc_id sock_id : UnitId) (m : Match)
    → Joined srvc_id sock_id m (if c then add_sock_srvc_relations srvc_id sock_id m else m)
if-Joined true srvc_id sock_id m = add_sock_srvc_relations-Joined srvc_id sock_id m
if-Joined false srvc_id sock_id m = unchanged-Joined srvc_id sock_id m

Joined-trans :
    (srvc_id sock_id : UnitId) (m m' m'' : Match)
    → Joined srvc_id sock_id m m'
    → Joined srvc_id sock_id m' m''
    → Joined srvc_id sock_id m m''
Joined-trans srvc_id sock_id m m' m'' p q = record {
  joined = p.joined || q.joined;
  srvc_side = λ k b. ground (arith, p.srvc_side k b, q.srvc_side k b);
  sock_side = λ k b. ground (arith, p.sock_side k b, q.sock_side k b);
}

pub match_service-Joined :
    (srvc_unit : UnitEntry) (srvc : ServiceSpecific) (sock_id : UnitId) (m : Match)
    → Joined srvc_unit.id sock_id m (match_service srvc_unit srvc sock_id m)
unfolding match_service match_name match_mention
match_service-Joined srvc_unit srvc sock_id m =
    let by_name = match_name srvc_unit.id sock_id srvc m in
    Joined-trans srvc_unit.id sock_id m by_name (match_mention srvc_unit.id sock_id by_name)
      (if-Joined _ srvc_unit.id sock_id m) (if-Joined _ srvc_unit.id sock_id by_name)
