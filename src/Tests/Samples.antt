-- ===== src/Tests/Samples.antt =====
-- The data of the tests.
use rustysd.Prelude.{
  Bool-cases, ◌==◌, sym, ◌⊎◌, inl, inr, false, ◌≡◌, refl, List, [], ◌∷◌, none, some, arith,
  contains,
}
use rustysd.Prelude.Map.{get}
use rustysd.Units.Id.{id_eq_iff, UnitId, UnitIdKind, id_eq, kind_eq, unit_id_eq}
use rustysd.Units.Config.{simple, main, never, Commandline, ServiceConfig}
use rustysd.Units.Status.{
  UnitStatus, never_started, started, running, stopped, stopped_final, is_started,
}
use rustysd.Units.Dependencies.{Dependencies}
use rustysd.Units.Unit.{Service, service, UnitEntry}
use rustysd.Units.Runtime.{RuntimeInfo, ok, status_of}
use rustysd.Units.Lifecycle.{Ops, started_now}
use rustysd.Units.Lifecycle.Orderly.{IsOrderly, IsMirrored}

abbrev pub db : UnitId
db = record { kind = UnitIdKind.service; name = "db.service" }

abbrev pub web : UnitId
web = record { kind = UnitIdKind.service; name = "web.service" }

-- Every call works.
abbrev pub working : Ops
working = record {
  start = λ conf id source srvc shared. (ok started_now, srvc, shared);
  kill = λ conf id srvc shared. (ok tt, srvc, shared);
  open_all = λ conf id sock shared. (ok tt, sock, shared);
  close_all = λ conf id sock shared. (ok tt, sock, shared);
}

abbrev exec : Commandline
exec = record { cmd = "/bin/true"; args = []; prefixes = [] }

abbrev pub conf : ServiceConfig
conf = record {
  restart = never;
  accept = false;
  notifyaccess = main;
  exec = exec;
  stop = [];
  stoppost = [];
  startpre = [];
  startpost = [];
  srcv_type = simple;
  starttimeout = none;
  stoptimeout = none;
  generaltimeout = none;
  exec_config = record {
    user = 0;
    group = 0;
    supplementary_groups = [];
    stdout_path = none;
    stderr_path = none;
    environment = none;
  };
  cgroup_path = "";
  dbus_name = none;
  sockets = [];
}

abbrev pub srvc : Service
srvc = record {
  pid = none;
  status_msgs = [];
  process_group = none;
  signaled_ready = false;
  notifications = none;
  notifications_path = none;
  stdout = none;
  stderr = none;
  notifications_buffer = "";
  stdout_buffer = [];
  stderr_buffer = [];
}

abbrev pub unit : UnitId → Dependencies → List UnitId → UnitStatus → UnitEntry
unit id deps refs st = record {
  id = id;
  common = record {
    unit = record { description = ""; refs_by_name = refs };
    dependencies = deps;
    status = st;
  };
  specific = service (record {
    conf = conf;
    state = record { common = record { up_since = none; restart_count = 0 }; srvc = srvc };
  });
}

abbrev db_deps : Dependencies
db_deps = record {
  wants = [];
  wanted_by = [];
  requires = [];
  required_by = web ∷ [];
  before = web ∷ [];
  after = [];
}

abbrev web_deps : Dependencies
web_deps = record {
  wants = [];
  wanted_by = [];
  requires = db ∷ [];
  required_by = [];
  before = [];
  after = db ∷ [];
}

abbrev pub db_unit : UnitStatus → UnitEntry
db_unit st = unit db db_deps [] st

abbrev pub web_unit : UnitStatus → UnitEntry
web_unit st = unit web web_deps (db ∷ []) st

-- The two services, with the statuses of the one and of the other.
abbrev pub system : UnitStatus → UnitStatus → RuntimeInfo
system st st' = record {
  unit_table = (db, db_unit st) ∷ (web, web_unit st') ∷ [];
  shared = record { pid_table = []; global = []; clock = 0; notified = 0 };
}

-- The database runs, and the other service does not yet.
abbrev pub half : RuntimeInfo
half = system (started running) never_started

abbrev pub both : RuntimeInfo
both = system (started running) (started running)

abbrev pub off : RuntimeInfo
off = system (stopped stopped_final []) (stopped stopped_final [])

pub half-db : get db half.unit_table ≡ some (db_unit (started running))
unfolding get id_eq kind_eq
half-db = refl

pub half-web : get web half.unit_table ≡ some (web_unit never_started)
unfolding get id_eq kind_eq
half-web = refl

pub both-web : get web both.unit_table ≡ some (web_unit (started running))
unfolding get id_eq kind_eq
both-web = refl

pub half-IsOrderly : IsOrderly half.unit_table
unfolding get id_eq kind_eq status_of is_started contains
half-IsOrderly id d deps e s c = ground arith

pub system-IsMirrored : (st st' : UnitStatus) → IsMirrored (system st st').unit_table
unfolding get id_eq kind_eq contains
system-IsMirrored st st' id d deps u e found c = ground arith

pub both-IsOrderly : IsOrderly both.unit_table
unfolding get id_eq kind_eq status_of is_started contains
both-IsOrderly id d deps e s c = ground arith

pub system-cases :
    (st st' : UnitStatus) (id : UnitId) (u : UnitEntry)
    → get id (system st st').unit_table ≡ some u
    → ((id ≡ db) × (u ≡ db_unit st)) ⊎ ((id ≡ web) × (u ≡ web_unit st'))
unfolding get
system-cases st st' id u found = elim (Bool-cases (db == id)) [
  | inl same ↦ inl (sym ((id_eq_iff db id).0 same), ground arith)
  | inr other ↦ elim (Bool-cases (web == id)) [
    | inl same ↦ inr (sym ((id_eq_iff web id).0 same), ground arith)
    | inr neither ↦ absurd (ground arith)
  ]
]
