-- ===== src/Loading/Resolve/Unstarted.antt =====
-- Loading starts no unit.
use rustysd.Prelude.{
  ◌≡◌, refl, inl, inr, not, List, [], ◌∷◌, some, arith, Option-cases, Bool-cases, subst, ltb,
  contains, retain, String,
}
use rustysd.Prelude.Map.{get, remove, map_values, keys, contains_key}
use rustysd.Units.Id.{UnitId, unit_id_eq, UnitIdKind}
use rustysd.Units.Status.{never_started}
use rustysd.Units.Unit.{UnitEntry, Specific, SocketSpecific, service, socket, target}
use rustysd.Units.Runtime.{UnitTable, ok}
use rustysd.Units.Runtime.Laws.{Result-cases}
use rustysd.Loading.Edges.{with_dependencies}
use rustysd.Loading.Fill.{mirror_relations}
use rustysd.Loading.Sockets.{
  sockets_target, socket_ids_of, before_target, after_sockets, add_socket_target_relations, Search,
  search_specific, search_service, search_services, put_back, apply_specific, apply_socket,
}
use rustysd.Loading.Resolve.{
  of_kind, apply_sockets, apply_sockets_to_services, add_all_implicit_relations, dedup_unit,
  dedup_all, fill_dependencies, forget_ids, remove_sockets, unused_sockets, cleanup_removed_ids,
  drop_unused_sockets, resolve,
}
use rustysd.Loading.Resolve.Loaded.{after_pruning-ok}
use rustysd.Loading.Resolve.Fresh.{
  AreFresh, Quiet, insert-AreFresh, remove-AreFresh, modify-AreFresh, map_values-AreFresh,
  get-AreFresh, mirror_relations-AreFresh,
}
use rustysd.Loading.Prune.{prune_unit, remove_all, prune_table, prune_units}
use rustysd.Loading.Prune.Kept.{prune_units-table}

before_target-status : Quiet before_target
unfolding before_target
before_target-status u = ground arith

add_socket_target_relations-AreFresh :
    (table : UnitTable) → AreFresh table → AreFresh (add_socket_target_relations table)
unfolding add_socket_target_relations after_sockets
add_socket_target_relations-AreFresh table h =
    elim (Bool-cases (contains_key sockets_target table)) [
      | inr absent ↦ rw (add_socket_target_relations, absent) h
      | inl there ↦
          rw (add_socket_target_relations, there)
            (modify-AreFresh sockets_target (after_sockets (socket_ids_of table)) (λ u. refl)
              (map_values before_target table)
              (map_values-AreFresh before_target before_target-status table h))
    ]

search_specific-AreFresh :
    (sock_id id : UnitId) (u : UnitEntry) (s : Search) (sp : Specific)
    → u.common.status ≡ never_started
    → AreFresh s.table
    → AreFresh (search_specific sock_id id u s sp).table
unfolding search_specific
search_specific-AreFresh sock_id id u s (service srvc) e h =
    insert-AreFresh u.id _ (remove id s.table) e (remove-AreFresh id s.table h)
search_specific-AreFresh sock_id id u s (socket x) e h =
    insert-AreFresh u.id u (remove id s.table) e (remove-AreFresh id s.table h)
search_specific-AreFresh sock_id id u s (target x) e h =
    insert-AreFresh u.id u (remove id s.table) e (remove-AreFresh id s.table h)

search_services-AreFresh :
    (sock_id : UnitId) (ids : List UnitId) (s s' : Search)
    → search_services sock_id ids s ≡ some s'
    → AreFresh s.table
    → AreFresh s'.table
unfolding search_services search_service
search_services-AreFresh sock_id [] s s' e h =
    let same : s ≡ s' = ground arith in subst (λ (t : Search). AreFresh t.table) same h
search_services-AreFresh sock_id (id ∷ ids) s s' e h = elim (Option-cases (get id s.table)) [
  | inl lost ↦ absurd (ground arith)
  | inr (u, found) ↦
      search_services-AreFresh sock_id ids (search_service sock_id id u s) s' (ground arith)
        (search_specific-AreFresh sock_id id u s u.specific (get-AreFresh id u s.table h found) h)
]

put_back-AreFresh :
    (u : UnitEntry) (sock : SocketSpecific) (s : Search) (table : UnitTable)
    → put_back u sock s ≡ ok table
    → u.common.status ≡ never_started
    → AreFresh s.table
    → AreFresh table
unfolding put_back
put_back-AreFresh u sock s table e f h = elim (Bool-cases (ltb 1 s.counter)) [
  | inl many ↦ absurd (ground arith)
  | inr few ↦
      let u' : UnitEntry = record (with_dependencies s.sock_install u) {
        specific = socket (record sock { conf = s.sock_conf });
      } in
      subst AreFresh (ground arith) (insert-AreFresh u.id u' s.table f h)
]

apply_specific-AreFresh :
    (service_ids : List UnitId) (id : UnitId) (u : UnitEntry) (table table' : UnitTable)
    (sp : Specific)
    → apply_specific service_ids id u table sp ≡ ok table'
    → u.common.status ≡ never_started
    → AreFresh table
    → AreFresh table'
unfolding apply_specific
apply_specific-AreFresh service_ids id u table table' (socket sock) e f h =
    let start : Search = record {
      sock_install = u.common.dependencies;
      sock_conf = sock.conf;
      counter = 0;
      table = remove id table;
    } in
    elim (Option-cases (search_services u.id service_ids start)) [
      | inl lost ↦ absurd (ground arith)
      | inr (s, went) ↦
          put_back-AreFresh u sock s table' (ground arith) f
            (search_services-AreFresh u.id service_ids start s went (remove-AreFresh id table h))
    ]
apply_specific-AreFresh service_ids id u table table' (service x) e f h =
    subst AreFresh (ground arith)
      (insert-AreFresh u.id u (remove id table) f (remove-AreFresh id table h))
apply_specific-AreFresh service_ids id u table table' (target x) e f h =
    subst AreFresh (ground arith)
      (insert-AreFresh u.id u (remove id table) f (remove-AreFresh id table h))

apply_sockets-AreFresh :
    (service_ids ids : List UnitId) (table table' : UnitTable)
    → apply_sockets service_ids ids table ≡ ok table'
    → AreFresh table
    → AreFresh table'
unfolding apply_sockets apply_socket
apply_sockets-AreFresh service_ids [] table table' e h = subst AreFresh (ground arith) h
apply_sockets-AreFresh service_ids (id ∷ ids) table table' e h =
    elim (Option-cases (get id table)) [
      | inl lost ↦ absurd (ground arith)
      | inr (u, found) ↦
          let once = apply_specific service_ids id u table u.specific in
          elim (Result-cases once) [
            | inl (t, went) ↦ apply_sockets-AreFresh service_ids ids t table' (ground arith) (
                apply_specific-AreFresh service_ids id u table t u.specific went
                  (get-AreFresh id u table h found) h)
            | inr (inl (x, failed)) ↦ absurd (ground arith)
            | inr (inr failed) ↦ absurd (ground arith)
          ]
    ]

fill_dependencies-AreFresh :
    (table table' : UnitTable)
    → fill_dependencies table ≡ ok table'
    → AreFresh table
    → AreFresh table'
unfolding fill_dependencies add_all_implicit_relations apply_sockets_to_services dedup_all
fill_dependencies-AreFresh table table' e h = elim (Option-cases (mirror_relations table)) [
  | inl lost ↦ absurd (ground arith)
  | inr (filled, went) ↦
      let t = add_socket_target_relations filled in
      let services = of_kind UnitIdKind.service (keys t) in
      let sockets = of_kind UnitIdKind.socket (keys t) in
      let f =
        add_socket_target_relations-AreFresh filled
          (mirror_relations-AreFresh table filled went h) in
      elim (Result-cases (apply_sockets services sockets t)) [
        | inl (t', matched) ↦ subst AreFresh (ground arith) (
            map_values-AreFresh dedup_unit (λ u. refl) t'
              (apply_sockets-AreFresh services sockets t t' matched f))
        | inr (inl (x, failed)) ↦ absurd (ground arith)
        | inr (inr failed) ↦ absurd (ground arith)
      ]
]

remove_all-AreFresh :
    (ids : List UnitId) (table : UnitTable) → AreFresh table → AreFresh (remove_all ids table)
unfolding remove_all
remove_all-AreFresh [] table h = h
remove_all-AreFresh (id ∷ ids) table h =
    remove_all-AreFresh ids (remove id table) (remove-AreFresh id table h)

remove_sockets-AreFresh :
    (ids : List UnitId) (table : UnitTable) → AreFresh table → AreFresh (remove_sockets ids table)
unfolding remove_sockets
remove_sockets-AreFresh [] table h = h
remove_sockets-AreFresh (id ∷ ids) table h =
    remove_sockets-AreFresh ids (remove id table) (remove-AreFresh id table h)

forget_ids-status : (ids : List UnitId) → Quiet (forget_ids ids)
unfolding forget_ids
forget_ids-status [] u = refl
forget_ids-status (id ∷ ids) u = forget_ids-status ids _

drop_unused_sockets-AreFresh :
    (table : UnitTable) → AreFresh table → AreFresh (drop_unused_sockets table)
unfolding drop_unused_sockets cleanup_removed_ids
drop_unused_sockets-AreFresh table h =
    let ids = unused_sockets table in
    map_values-AreFresh (forget_ids ids) (forget_ids-status ids) (remove_sockets ids table)
      (remove_sockets-AreFresh ids table h)

prune_table-AreFresh :
    (ids : List UnitId) (table : UnitTable) → AreFresh table → AreFresh (prune_table ids table)
unfolding prune_table prune_unit
prune_table-AreFresh ids table h =
    let gone = retain (λ id. not (contains ids id)) (keys table) in
    map_values-AreFresh (prune_unit ids) (λ u. refl) (remove_all gone table)
      (remove_all-AreFresh gone table h)

-- When no unit of the parsed table was started, none of the loaded table was.
pub resolve-AreFresh :
    (target_unit : String) (table table' : UnitTable)
    → resolve target_unit table ≡ ok table'
    → AreFresh table
    → AreFresh table'
unfolding resolve
resolve-AreFresh target_unit table table' e h = elim (Result-cases (fill_dependencies table)) [
  | inr failed ↦ absurd (ground arith)
  | inl (filled, went) ↦
      let (t, done, dropped) =
        after_pruning-ok (prune_units target_unit filled) table' (ground arith) in
      let (ids, cut) = prune_units-table target_unit filled t done in
      let f = prune_table-AreFresh ids filled (fill_dependencies-AreFresh table filled went h) in
      subst AreFresh dropped (drop_unused_sockets-AreFresh t (subst AreFresh cut f))
]
