-- ===== src/Tests/Stores.antt =====
-- The theorems on stored descriptors, on insertion and on the exit of processes, applied to samples.
use rustysd.Prelude.{
  inr, inl, retain, String, ◌≡◌, ◌≢◌, refl, true, false, ◌||◌, [], ◌∷◌, some, arith, contains,
  string_eq, nat_eq,
}
use rustysd.Prelude.Map.{get}
use rustysd.Units.Id.{UnitId, UnitIdKind, id_eq, kind_eq, unit_id_eq}
use rustysd.Units.Config.{simple}
use rustysd.Units.Status.{never_started, started, running, exit, is_started}
use rustysd.Units.Unit.{UnitEntry, service}
use rustysd.Units.Runtime.{RuntimeInfo, service}
use rustysd.Units.Lifecycle.Orderly.{IsMirrored}
use rustysd.Deactivation.Stops.{IsKeyed}
use rustysd.FdStore.{FdStore}
use rustysd.Insertion.{all_exist, check_all_names_exist, insert_unit}
use rustysd.Insertion.Mirrored.{insert_unit-IsMirrored}
use rustysd.Insertion.Names.{has_unit, is_named, check_all_names_exist-all_exist}
use rustysd.ServiceExit.{Kill, handled, is_one_shot, restarts, service_exit_handler}
use rustysd.ServiceExit.Cases.{is_service_entry, service_exit_handler-ne}
use rustysd.Tests.Samples.{db, web, working, unit, web_unit, both, system-IsMirrored, system-cases}

abbrev db_socket : String
db_socket = "db.socket"

abbrev web_socket : String
web_socket = "web.socket"

abbrev web_name : String
web_name = "web.service"

abbrev key : String
key = "state"

abbrev stored : FdStore
stored = record {
  global_sockets = ("web.socket", (web, "http", 3) ∷ []) ∷ [];
  service_stored_sockets = ("web.service", ("state", 5 ∷ []) ∷ []) ∷ [];
}

abbrev cache : UnitId
cache = record { kind = UnitIdKind.service; name = "cache.service" }

abbrev cache_unit : UnitEntry
cache_unit =
    unit cache
      (record {
        wants = [];
        wanted_by = [];
        requires = db ∷ [];
        required_by = web ∷ [];
        before = [];
        after = [];
      })
      (db ∷ []) never_started

both-IsKeyed : IsKeyed both.unit_table
both-IsKeyed id u found = elim (system-cases (started running) (started running) id u found) [
  | inl (same, e) ↦ ground arith
  | inr (same, e) ↦ ground arith
]

alone : contains cache_unit.common.dependencies.requires cache ≡ false
unfolding contains id_eq
alone = refl

fresh :
    (j : UnitId) (w : UnitEntry)
    → get j both.unit_table ≡ some w
    → contains w.common.dependencies.requires cache ≡ false
unfolding contains id_eq kind_eq
fresh j w found = elim (system-cases (started running) (started running) j w found) [
  | inl (same, e) ↦ ground arith
  | inr (same, e) ↦ ground arith
]

insert_unit-IsMirrored_example : IsMirrored (insert_unit cache cache_unit both.unit_table)
insert_unit-IsMirrored_example =
    insert_unit-IsMirrored cache cache_unit both.unit_table both-IsKeyed
      (system-IsMirrored (started running) (started running)) alone fresh

names-cache : check_all_names_exist ((cache, cache_unit) ∷ []) both.unit_table ≡ all_exist
unfolding check_all_names_exist id_eq retain contains
names-cache = refl

check_all_names_exist-all_exist_example :
    (has_unit both.unit_table db ≡ true → has_unit ((cache, cache_unit) ∷ []) db ≡ false)
    × (is_named ((cache, cache_unit) ∷ []) db ≡ true
        → (has_unit both.unit_table db || has_unit ((cache, cache_unit) ∷ []) db) ≡ true)
check_all_names_exist-all_exist_example =
    check_all_names_exist-all_exist ((cache, cache_unit) ∷ []) both.unit_table names-cache db

-- The process of the other service has the number 7.
abbrev serving : RuntimeInfo
serving = record both { shared = record both.shared { pid_table = (7, service web simple) ∷ [] } }

abbrev spare : Kill
spare = λ name srvc shared. (srvc, shared)

entry-web : get 7 serving.shared.pid_table ≡ some (service web simple)
unfolding get
entry-web = refl

serving-web : get web serving.unit_table ≡ some (web_unit (started running))
unfolding get id_eq kind_eq
serving-web = refl

lasting : is_one_shot simple ≡ false
unfolding is_one_shot
lasting = refl

stays : restarts (web_unit (started running)).specific ≡ false
unfolding restarts
stays = refl

on : is_started (started running) ≡ true
unfolding is_started
on = refl

service_exit_handler-ne_example :
    service_exit_handler working spare 3 5 7 (exit 1) serving ≢ handled serving
service_exit_handler-ne_example =
    service_exit_handler-ne working spare 3 5 7 (exit 1) serving serving web simple
      (web_unit (started running)) _ entry-web serving-web refl lasting stays on

unknown-process : is_service_entry (get 8 serving.shared.pid_table) ≡ false
unfolding get
unknown-process = refl
