-- ===== src/Parser/Units.antt =====
-- src/units/from_parsed_config.rs: from the configuration that was parsed to a unit.
pub mod References
use Prim.Native.String.{String, ◌++◌ as ◌<>◌}
use rustysd.Prelude.{ℕ, false, List, [], ◌∷◌, ◌++◌, Option, none, some}
use rustysd.Prelude.Text.{parse_number}
use rustysd.Units.Id.{UnitId, UnitIdKind, try_into}
use rustysd.Units.Status.{never_started}
use rustysd.Units.Config.{ExecConfig, SingleSocketConfig}
use rustysd.Units.Dependencies.{Dependencies}
use rustysd.Units.Unit.{UnitEntry, Common, CommonState, Service, Specific, service, socket, target}
use rustysd.Units.Runtime.{Result, ok, err, panic}
use rustysd.Parser.Config.{
  ParsedUnitSection, ParsedInstallSection, ParsedExecSection, ParsedSingleSocketConfig,
  ParsedServiceConfig, ParsedSocketConfig, ParsedTargetConfig, ◌>>=◌,
}

-- The accounts of the system, and the place of the cgroups.
pub record Platform : Type 0 where
  pub getpwnam_r : String → Option ℕ
  pub getgrnam_r : String → Option ℕ
  pub getuid : ℕ
  pub getgid : ℕ
  pub make_cgroup_path : String → Result String String

-- `name.as_str().try_into()?`
unfoldable pub id_of : String → Result String UnitId
unfolding try_into
id_of name = elim (try_into name) [
  | none ↦ err (name <> " is not a valid unit name. The suffix is not supported.")
  | some id ↦ ok id
]

unfoldable pub ids_of : List String → Result String (List UnitId)
unfolding id_of
ids_of [] = ok []
ids_of (name ∷ names) = do id ← id_of name; ids ← ids_of names; ok (id ∷ ids)

unfoldable pub make_common_from_parsed :
    ParsedUnitSection → ParsedInstallSection → Result String Common
unfolding ids_of
make_common_from_parsed unit install = do
  wants ← ids_of unit.wants
  requires ← ids_of unit.requires
  wanted_by ← ids_of install.wanted_by
  required_by ← ids_of install.required_by
  after ← ids_of unit.after
  before ← ids_of unit.before
  ok (record {
    unit = record {
      description = unit.description;
      refs_by_name = wants ++ (wanted_by ++ (requires ++ (required_by ++ (before ++ after))));
    };
    dependencies = record {
      wants = wants;
      wanted_by = wanted_by;
      requires = requires;
      required_by = required_by;
      before = before;
      after = after;
    };
    status = never_started;
  })

abbrev pub u32_mod : ℕ
u32_mod = 4294967296

-- A number, or the name of an account.
unfoldable pub account : String → (String → Option ℕ) → String → Result String ℕ
unfolding parse_number
account message lookup name = elim (parse_number u32_mod name) [
  | some n ↦ ok n
  | none ↦ elim (lookup name) [ some n ↦ ok n | none ↦ err (message <> name) ]
]

unfoldable pub account_or : ℕ → String → (String → Option ℕ) → Option String → Result String ℕ
unfolding account
account_or default message lookup none = ok default
account_or default message lookup (some name) = account message lookup name

unfoldable pub accounts : (String → Option ℕ) → List String → Result String (List ℕ)
unfolding account
accounts lookup [] = ok []
accounts lookup (group ∷ groups) = do
  gid ← account "Couldnt get gid for groupname: " lookup group
  gids ← accounts lookup groups
  ok (gid ∷ gids)

-- `CommonState::default()`
abbrev pub fresh_state : CommonState
fresh_state = record { up_since = none; restart_count = 0 }

abbrev pub fresh_service : Service
fresh_service = record {
  pid = none;
  status_msgs = [];
  process_group = none;
  signaled_ready = false;
  notifications = none;
  notifications_path = none;
  stdout = none;
  stderr = none;
  notifications_buffer = "";
  stdout_buffer = [];
  stderr_buffer = [];
}

-- References that the configuration of the kind adds.
unfoldable pub add_refs : List UnitId → Common → Common
add_refs ids common = record common {
  unit = record common.unit { refs_by_name = common.unit.refs_by_name ++ ids };
}

unfoldable pub single_sockets : List ParsedSingleSocketConfig → List SingleSocketConfig
single_sockets [] = []
single_sockets (s ∷ ss) = record { kind = s.kind; specialized = s.specialized } ∷ single_sockets ss

unfoldable pub name_or_unknown : Option String → String
name_or_unknown none = "unknown"
name_or_unknown (some name) = name

module _ (platform : Platform) where
  -- `TryFrom<ParsedExecSection> for ExecConfig`
  unfoldable pub exec_config : ParsedExecSection → Result String ExecConfig
  unfolding account_or accounts
  exec_config parsed = do
    user ←
        account_or platform.getuid "Couldnt get uid for username: " platform.getpwnam_r parsed.user
    group ←
        account_or platform.getgid "Couldnt get gid for groupname: " platform.getgrnam_r
          parsed.group
    supplementary_groups ← accounts platform.getgrnam_r parsed.supplementary_groups
    ok (record {
      user = user;
      group = group;
      supplementary_groups = supplementary_groups;
      stdout_path = parsed.stdout_path;
      stderr_path = parsed.stderr_path;
      environment = parsed.environment;
    })

  unfoldable pub unit_from_parsed_service : ParsedServiceConfig → Result String UnitEntry
  unfolding make_common_from_parsed exec_config add_refs ids_of
  unit_from_parsed_service conf = do
    cgroup_path ← platform.make_cgroup_path conf.common.name
    sockets ← ids_of conf.srvc.sockets
    common ← make_common_from_parsed conf.common.unit conf.common.install
    exec_conf ← exec_config conf.srvc.exec_section
    ok (record {
      id = record { kind = UnitIdKind.service; name = conf.common.name };
      common = add_refs sockets common;
      specific = service (record {
        conf = record {
          restart = conf.srvc.restart;
          accept = conf.srvc.accept;
          notifyaccess = conf.srvc.notifyaccess;
          exec = conf.srvc.exec;
          stop = conf.srvc.stop;
          stoppost = conf.srvc.stoppost;
          startpre = conf.srvc.startpre;
          startpost = conf.srvc.startpost;
          srcv_type = conf.srvc.srcv_type;
          starttimeout = conf.srvc.starttimeout;
          stoptimeout = conf.srvc.stoptimeout;
          generaltimeout = conf.srvc.generaltimeout;
          exec_config = exec_conf;
          cgroup_path = cgroup_path;
          dbus_name = conf.srvc.dbus_name;
          sockets = sockets;
        };
        state = record { common = fresh_state; srvc = fresh_service };
      });
    })

  unfoldable pub unit_from_parsed_socket : ParsedSocketConfig → Result String UnitEntry
  unfolding make_common_from_parsed exec_config add_refs ids_of single_sockets name_or_unknown
  unit_from_parsed_socket conf = do
    services ← ids_of conf.sock.services
    common ← make_common_from_parsed conf.common.unit conf.common.install
    exec_conf ← exec_config conf.sock.exec_section
    ok (record {
      id = record { kind = UnitIdKind.socket; name = conf.common.name };
      common = add_refs services common;
      specific = socket (record {
        conf = record {
          sockets = single_sockets conf.sock.sockets;
          filedesc_name = name_or_unknown conf.sock.filedesc_name;
          services = services;
          exec_config = exec_conf;
        };
        state = record { common = fresh_state; sock = record { activated = false } };
      });
    })

  unfoldable pub unit_from_parsed_target : ParsedTargetConfig → Result String UnitEntry
  unfolding make_common_from_parsed
  unit_from_parsed_target conf = do
    common ← make_common_from_parsed conf.common.unit conf.common.install
    ok (record {
      id = record { kind = UnitIdKind.target; name = conf.common.name };
      common = common;
      specific = target fresh_state;
    })
