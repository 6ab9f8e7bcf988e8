-- ===== src/Units/Config.antt =====
-- The configuration of a unit: the option types of src/units/unit_parsing/mod.rs, `ServiceConfig`,
-- `SocketConfig`, `ExecConfig` and `UnitConfig` of src/units/unit.rs, and the socket kinds of src/sockets. A path is its
-- text, a duration its milliseconds, a socket address its text.
use rustysd.Prelude.{ℕ, String, Bool, List, Option}
use rustysd.Units.Id.{UnitId}

pub data ServiceType : Type 0 where
  simple notify dbus one_shot : ServiceType

pub data NotifyKind : Type 0 where
  main exec all nobody : NotifyKind

pub data ServiceRestart : Type 0 where
  always never : ServiceRestart

pub data Timeout : Type 0 where
  duration : ℕ → Timeout
  infinity : Timeout

pub data StdIoOption : Type 0 where
  file append_file : String → StdIoOption

pub data CommandlinePrefix : Type 0 where
  at_sign minus colon plus exclamation double_exclamation : CommandlinePrefix

pub record Commandline : Type 0 where
  pub cmd : String
  pub args : List String
  pub prefixes : List CommandlinePrefix

pub record EnvVars : Type 0 where
  pub vars : List (String × String)

pub record ExecConfig : Type 0 where
  pub user : ℕ
  pub group : ℕ
  pub supplementary_groups : List ℕ
  pub stdout_path : Option StdIoOption
  pub stderr_path : Option StdIoOption
  pub environment : Option EnvVars

pub record ServiceConfig : Type 0 where
  pub restart : ServiceRestart
  pub accept : Bool
  pub notifyaccess : NotifyKind
  pub exec : Commandline
  pub stop : List Commandline
  pub stoppost : List Commandline
  pub startpre : List Commandline
  pub startpost : List Commandline
  pub srcv_type : ServiceType
  pub starttimeout : Option Timeout
  pub stoptimeout : Option Timeout
  pub generaltimeout : Option Timeout
  pub exec_config : ExecConfig
  pub cgroup_path : String
  pub dbus_name : Option String
  pub sockets : List UnitId

pub data SocketKind : Type 0 where
  stream sequential datagram fifo : String → SocketKind

pub data UnixSocketConfig : Type 0 where
  stream sequential datagram : String → UnixSocketConfig

pub data SpecializedSocketConfig : Type 0 where
  unix_socket : UnixSocketConfig → SpecializedSocketConfig
  fifo : String → SpecializedSocketConfig
  tcp_socket udp_socket : String → SpecializedSocketConfig

pub record SingleSocketConfig : Type 0 where
  pub kind : SocketKind
  pub specialized : SpecializedSocketConfig

pub record SocketConfig : Type 0 where
  pub sockets : List SingleSocketConfig
  pub filedesc_name : String
  pub services : List UnitId
  pub exec_config : ExecConfig

pub record UnitConfig : Type 0 where
  pub description : String
  pub refs_by_name : List UnitId
