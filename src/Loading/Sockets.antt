-- ===== src/Loading/Sockets.antt =====
-- The implicit relations of src/units/loading/dependency_resolving.rs, and `fill_dependencies` as a whole.
pub mod Joined
pub mod Turns
pub mod Mirrored
use Prim.Native.String.{String}
use rustysd.Prelude.{
  ℕ, zero, suc, ◌+◌, Bool, true, false, not, ◌&&◌, ◌||◌, List, [], ◌∷◌, ◌++◌, Option, none, some,
  contains, if◌then◌else◌, ◌==◌, ltb, string_eq,
}
use rustysd.Prelude.Map.{get, insert, remove, modify, map_values, contains_key, keys}
use rustysd.Prelude.Text.{split, join, but_last}
use rustysd.Units.Id.{UnitId, UnitIdKind, kind_eq, unit_id_eq}
use rustysd.Units.Config.{ServiceConfig, SocketConfig}
use rustysd.Units.Dependencies.{Dependencies, dedup_dependencies}
use rustysd.Units.Unit.{
  UnitEntry, Specific, service, socket, target, ServiceSpecific, SocketSpecific, has_socket,
  is_socket,
}
use rustysd.Units.Runtime.{UnitTable, Result, ok, err, panic}
use rustysd.Loading.Edges.{push, requires, required_by, before, after, with_dependencies}
use rustysd.Loading.Fill.{mirror_relations}

abbrev pub sockets_target : UnitId
sockets_target = record { kind = UnitIdKind.target; name = "sockets.target" }

-- The loop over the units, with the identifiers of the sockets.
unfoldable pub before_target : UnitEntry → UnitEntry
unfolding push dedup_dependencies
before_target u =
    if is_socket u
    then with_dependencies (dedup_dependencies (push before sockets_target u.common.dependencies)) u
    else u

unfoldable pub socket_ids_of : UnitTable → List UnitId
socket_ids_of [] = []
socket_ids_of ((_, u) ∷ units) =
    let rest = socket_ids_of units in if is_socket u then u.id ∷ rest else rest

unfoldable pub after_sockets : List UnitId → UnitEntry → UnitEntry
unfolding dedup_dependencies
after_sockets ids u =
    let d = u.common.dependencies in
    with_dependencies (dedup_dependencies (record d { after = d.after ++ ids })) u

unfoldable pub add_socket_target_relations : UnitTable → UnitTable
unfolding before_target socket_ids_of after_sockets contains_key modify map_values
add_socket_target_relations units =
    if contains_key sockets_target units
    then modify sockets_target (after_sockets (socket_ids_of units))
        (map_values before_target units)
    else units

-- `UnitId::name_without_suffix`, which `Unit::name_without_suffix` repeats.
unfoldable pub name_without_suffix : UnitId → String
unfolding split join but_last
name_without_suffix id = join "." (but_last (split b'.' id.name))

-- A service and a socket while they are matched: their edges, their settings, and the counter.
pub record Match : Type 0 where
  pub srvc_install : Dependencies
  pub srvc_conf : ServiceConfig
  pub sock_install : Dependencies
  pub sock_conf : SocketConfig
  pub counter : ℕ

unfoldable pub push_missing : UnitId → List UnitId → List UnitId
push_missing id ids = if contains ids id then ids else ids ++ id ∷ []

-- With the `counter += 1` that follows each call.
unfoldable pub add_sock_srvc_relations : UnitId → UnitId → Match → Match
unfolding push dedup_dependencies push_missing
add_sock_srvc_relations srvc_id sock_id m = record {
  srvc_install = dedup_dependencies (push requires sock_id (push after sock_id m.srvc_install));
  sock_install = dedup_dependencies (push required_by srvc_id (push before srvc_id m.sock_install));
  srvc_conf = record m.srvc_conf { sockets = push_missing sock_id m.srvc_conf.sockets };
  sock_conf = record m.sock_conf { services = push_missing srvc_id m.sock_conf.services };
  counter = m.counter + 1;
}

-- By the same name.
unfoldable pub match_name : UnitId → UnitId → ServiceSpecific → Match → Match
unfolding add_sock_srvc_relations name_without_suffix has_socket
match_name srvc_id sock_id srvc m =
    if name_without_suffix srvc_id == name_without_suffix sock_id
      && not (has_socket srvc sock_id.name)
    then add_sock_srvc_relations srvc_id sock_id m
    else m

-- Where exactly one of the two mentions the other.
unfoldable pub match_mention : UnitId → UnitId → Match → Match
unfolding add_sock_srvc_relations
match_mention srvc_id sock_id m =
    let in_service = contains m.srvc_conf.sockets sock_id in
    let in_socket = contains m.sock_conf.services srvc_id in
    if (in_service && not in_socket) || (in_socket && not in_service)
    then add_sock_srvc_relations srvc_id sock_id m
    else m

unfoldable pub match_service : UnitEntry → ServiceSpecific → UnitId → Match → Match
unfolding match_name match_mention
match_service srvc_unit srvc sock_id m =
    match_mention srvc_unit.id sock_id (match_name srvc_unit.id sock_id srvc m)

-- A socket that has been taken out of the table, while its services are searched.
pub record Search : Type 0 where
  pub sock_install : Dependencies
  pub sock_conf : SocketConfig
  pub counter : ℕ
  pub table : UnitTable

unfoldable pub matched : UnitEntry → ServiceSpecific → Search → Match
matched srvc_unit srvc s = record {
  srvc_install = srvc_unit.common.dependencies;
  srvc_conf = srvc.conf;
  sock_install = s.sock_install;
  sock_conf = s.sock_conf;
  counter = s.counter;
}

-- The turn of one service: out of the table, matched, and in again.
unfoldable pub search_specific : UnitId → UnitId → UnitEntry → Search → Specific → Search
unfolding match_service matched insert remove
search_specific sock_id id srvc_unit s (service srvc) =
    let m = match_service srvc_unit srvc sock_id (matched srvc_unit srvc s) in
    let srvc_unit' : UnitEntry = record (with_dependencies m.srvc_install srvc_unit) {
      specific = service (record srvc { conf = m.srvc_conf });
    } in
    record {
      sock_install = m.sock_install;
      sock_conf = m.sock_conf;
      counter = m.counter;
      table = insert srvc_unit.id srvc_unit' (remove id s.table);
    }
search_specific sock_id id srvc_unit s (socket _) = record s {
  table = insert srvc_unit.id srvc_unit (remove id s.table);
}
search_specific sock_id id srvc_unit s (target _) = record s {
  table = insert srvc_unit.id srvc_unit (remove id s.table);
}

unfoldable pub search_service : UnitId → UnitId → UnitEntry → Search → Search
unfolding search_specific
search_service sock_id id srvc_unit s = search_specific sock_id id srvc_unit s srvc_unit.specific

-- `none` is the panic of `unit_table.remove(..).unwrap()`.
unfoldable pub search_services : UnitId → List UnitId → Search → Option Search
unfolding search_service get
search_services sock_id [] s = some s
search_services sock_id (id ∷ ids) s = elim (get id s.table) [
  | none ↦ none
  | some srvc_unit ↦ search_services sock_id ids (search_service sock_id id srvc_unit s)
]

-- `Err`: the name of a socket that was added to more than one service, with the number of times.
abbrev pub TooManyServices : Type 0
TooManyServices = String × ℕ

unfoldable pub put_back : UnitEntry → SocketSpecific → Search → Result TooManyServices UnitTable
put_back sock_unit sock s =
    if ltb 1 s.counter
    then err (sock_unit.id.name, s.counter)
    else ok (
        insert sock_unit.id
          (record (with_dependencies s.sock_install sock_unit) {
            specific = socket (record sock { conf = s.sock_conf });
          })
          s.table)

-- One socket.
unfoldable pub apply_specific :
    List UnitId → UnitId → UnitEntry → UnitTable → Specific → Result TooManyServices UnitTable
unfolding search_services put_back remove insert
apply_specific service_ids id sock_unit table (socket sock) =
    let start : Search = record {
      sock_install = sock_unit.common.dependencies;
      sock_conf = sock.conf;
      counter = 0;
      table = remove id table;
    } in
    elim (search_services sock_unit.id service_ids start) [
      | none ↦ panic
      | some s ↦ put_back sock_unit sock s
    ]
apply_specific service_ids id sock_unit table (service _) =
    ok (insert sock_unit.id sock_unit (remove id table))
apply_specific service_ids id sock_unit table (target _) =
    ok (insert sock_unit.id sock_unit (remove id table))

unfoldable pub apply_socket : List UnitId → UnitId → UnitTable → Result TooManyServices UnitTable
unfolding apply_specific get
apply_socket service_ids id table = elim (get id table) [
  | none ↦ panic
  | some sock_unit ↦ apply_specific service_ids id sock_unit table sock_unit.specific
]
