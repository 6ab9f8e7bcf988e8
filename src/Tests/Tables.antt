-- ===== src/Tests/Tables.antt =====
-- The theorems on shutdown and removal, applied to the sample system.
use rustysd.Prelude.{
  ◌&&◌, not, sym, subst, ℕ, ◌<◌, ◌≡◌, ◌≢◌, refl, inl, inr, true, false, [], ◌∷◌, none, some, arith,
  contains, if◌then◌else◌, ◌==◌, IsNodup,
}
use rustysd.Prelude.Map.{modify, map_values, remove, map_values, remove, get, keys, contains_key}
use rustysd.Units.Id.{id_eq_iff, UnitId, id_eq, kind_eq, unit_id_eq}
use rustysd.Units.Status.{never_started, started, running, stopped, stopped_final, is_started}
use rustysd.Units.Unit.{UnitEntry}
use rustysd.Units.Runtime.{RuntimeInfo, UnitTable}
use rustysd.Deactivation.Stops.{here, via, Dependent}
use rustysd.Shutdown.{
  Shutdown, finished, out_of_fuel, chosen, get_next_service_to_shutdown, shutdown_sequence,
}
use rustysd.Shutdown.Ends.{HasOwnKeys, shutdown_sequence-ends}
use rustysd.Shutdown.Order.{IsRankedBefore, get_next_service_to_shutdown-chosen}
use rustysd.Shutdown.Stops.{shutdown_sequence_stops}
use rustysd.Removal.{
  passed, removed, check_deactivated_recursive, find_all_depending, remove_with_depending_units,
  remove_unit_with_dependencies,
}
use rustysd.Removal.Referrers.{names, find_all_depending-referrers}
use rustysd.Removal.Clean.{mentions, HasNoDangling}
use rustysd.Removal.Gone.{
  AreStopped, IsDetached, IsForgotten, remove_unit_with_dependencies-removed,
}
use rustysd.Removal.Ends.{remove_with_depending_units-ends}
use rustysd.Tests.Samples.{unit, db, web, working, both, off, db_unit, web_unit, system-cases}

both-HasOwnKeys : HasOwnKeys both.unit_table
both-HasOwnKeys = (refl, (refl, tt))

shutdown_sequence-ends_example : shutdown_sequence working both ≢ out_of_fuel
shutdown_sequence-ends_example = shutdown_sequence-ends working both both-HasOwnKeys

both-IsNodup : IsNodup (keys both.unit_table)
unfolding keys contains id_eq
both-IsNodup = (refl, (refl, tt))

next-both : get_next_service_to_shutdown both.unit_table ≡ chosen web
unfolding get_next_service_to_shutdown get id_eq
next-both = refl

get_next_service_to_shutdown-chosen_example :
    (u : UnitEntry) × (get web both.unit_table ≡ some u)
    × (is_started u.common.status ≡ true)
    × ((d : UnitId) (v : UnitEntry)
        → contains u.common.dependencies.before d ≡ true
        → get d both.unit_table ≡ some v
        → is_started v.common.status ≡ false)
get_next_service_to_shutdown-chosen_example =
    get_next_service_to_shutdown-chosen both.unit_table web both-HasOwnKeys both-IsNodup next-both

abbrev end_of : Shutdown → RuntimeInfo
end_of (finished ri) = ri
end_of _ = both

abbrev rank : UnitId → ℕ
rank id = if id == db then 1 else 0

both-IsRankedBefore : IsRankedBefore rank both.unit_table
unfolding contains id_eq kind_eq
both-IsRankedBefore id d u found c =
    elim (system-cases (started running) (started running) id u found) [
      | inl (same, e) ↦
          let m = subst (λ v. contains v.common.dependencies.before d ≡ true) e c in
          let w = (id_eq_iff web d).0 (ground arith) in
          subst (λ x. rank x < rank id) w (subst (λ y. rank web < rank y) (sym same) (omega arith))
      | inr (same, e) ↦
          let m = subst (λ v. contains v.common.dependencies.before d ≡ true) e c in ground arith
    ]

shutdown-both : shutdown_sequence working both ≡ finished (end_of (shutdown_sequence working both))
unfolding shutdown_sequence get id_eq modify
shutdown-both = refl

stopped-web :
    get web (end_of (shutdown_sequence working both)).unit_table
    ≡ some (web_unit (stopped stopped_final []))
unfolding shutdown_sequence get id_eq modify
stopped-web = refl

shutdown_sequence_stops_example :
    is_started (web_unit (stopped stopped_final [])).common.status ≡ false
shutdown_sequence_stops_example =
    shutdown_sequence_stops working rank both (end_of (shutdown_sequence working both))
      both-IsRankedBefore shutdown-both web (web_unit (stopped stopped_final [])) stopped-web

off-db : get db off.unit_table ≡ some (db_unit (stopped stopped_final []))
unfolding get id_eq
off-db = refl

listed : contains (web ∷ []) web ≡ true
unfolding contains id_eq
listed = refl

db-web : Dependent off.unit_table web db
db-web = via (db_unit (stopped stopped_final [])) off-db listed (here refl)

check-off : check_deactivated_recursive 3 off.unit_table db ≡ passed
unfolding check_deactivated_recursive get id_eq
check-off = refl

remove-off : remove_unit_with_dependencies 3 db off.unit_table ≡ removed []
unfolding remove_unit_with_dependencies get id_eq contains remove map_values
remove-off = refl

remove_unit_with_dependencies-removed_example :
    AreStopped off.unit_table db
    × ((k : UnitId) (u : UnitEntry)
        → get k off.unit_table ≡ some u
        → contains u.common.unit.refs_by_name db ≡ true
        → AreStopped off.unit_table k)
    × IsForgotten db []
    × IsDetached off.unit_table []
remove_unit_with_dependencies-removed_example =
    remove_unit_with_dependencies-removed 3 db off.unit_table [] remove-off

off-HasNoDangling : HasNoDangling off.unit_table
unfolding contains contains_key
off-HasNoDangling id d u found m =
    elim (system-cases (stopped stopped_final []) (stopped stopped_final []) id u found) [
      | inl (same, e) ↦
          let n = subst (λ v. mentions v.common.dependencies d ≡ true) e m in ground arith
      | inr (same, e) ↦
          let n = subst (λ v. mentions v.common.dependencies d ≡ true) e m in ground arith
    ]

abbrev alone : UnitTable
alone =
    (
      db,
      unit db (record (db_unit never_started).common.dependencies { required_by = []; before = [] })
          [] (stopped stopped_final []),
    )
    ∷ []

remove-web : remove_with_depending_units 6 web off.unit_table ≡ some alone
unfolding remove_with_depending_units remove map_values id_eq contains
remove-web = refl

remove_with_depending_units-ends_example : remove_with_depending_units 6 db off.unit_table ≢ none
remove_with_depending_units-ends_example = remove_with_depending_units-ends db off.unit_table

off-IsNodup : IsNodup (keys off.unit_table)
unfolding keys contains id_eq
off-IsNodup = (refl, (refl, tt))

find_all_depending-referrers_example :
    contains (find_all_depending 2 off.unit_table db []) web
    ≡ (not (web == db) && names (get web off.unit_table) db)
find_all_depending-referrers_example =
    find_all_depending-referrers 1 off.unit_table db web off-IsNodup
