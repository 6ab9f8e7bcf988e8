-- ===== src/Units/Unit.antt =====
-- `Unit` and its parts, from src/units/unit.rs, `Service` of src/services/services.rs and `Socket` of
-- src/sockets/network_sockets.rs. A lock is the value that it guards.
use rustysd.Prelude.{ℕ, String, Bool, List, Option}
use rustysd.Units.Id.{UnitId, UnitIdKind, kind_eq}
use rustysd.Units.Status.{UnitStatus}
use rustysd.Units.Config.{ServiceConfig, SocketConfig, UnitConfig}
use rustysd.Units.Dependencies.{Dependencies, any_named}

-- The file descriptors behind a standard stream.
pub data StdIo : Type 0 where
  file : ℕ → StdIo
  piped : ℕ → ℕ → StdIo
  null : ℕ → StdIo

-- A process group is the negated pid of its leader: the pid is kept.
pub record Service : Type 0 where
  pub pid : Option ℕ
  pub status_msgs : List String
  pub process_group : Option ℕ
  pub signaled_ready : Bool
  pub notifications : Option ℕ
  pub notifications_path : Option String
  pub stdout : Option StdIo
  pub stderr : Option StdIo
  pub notifications_buffer : String
  pub stdout_buffer : List ℕ
  pub stderr_buffer : List ℕ

pub record CommonState : Type 0 where
  pub up_since : Option ℕ
  pub restart_count : ℕ

pub record ServiceState : Type 0 where
  pub common : CommonState
  pub srvc : Service

pub record Socket : Type 0 where
  pub activated : Bool

pub record SocketState : Type 0 where
  pub common : CommonState
  pub sock : Socket

pub record ServiceSpecific : Type 0 where
  pub conf : ServiceConfig
  pub state : ServiceState

pub record SocketSpecific : Type 0 where
  pub conf : SocketConfig
  pub state : SocketState

pub data Specific : Type 0 where
  service : ServiceSpecific → Specific
  socket : SocketSpecific → Specific
  target : CommonState → Specific

pub record Common : Type 0 where
  pub unit : UnitConfig
  pub dependencies : Dependencies
  pub status : UnitStatus

-- `Unit`
pub record UnitEntry : Type 0 where
  pub id : UnitId
  pub common : Common
  pub specific : Specific

unfoldable pub has_socket : ServiceSpecific → String → Bool
unfolding any_named
has_socket s name = any_named s.conf.sockets name

unfoldable pub belongs_to_service : SocketSpecific → String → Bool
unfolding any_named
belongs_to_service s name = any_named s.conf.services name

unfoldable pub is_service : UnitEntry → Bool
unfolding kind_eq
is_service unit = kind_eq unit.id.kind UnitIdKind.service

unfoldable pub is_socket : UnitEntry → Bool
unfolding kind_eq
is_socket unit = kind_eq unit.id.kind UnitIdKind.socket

unfoldable pub is_target : UnitEntry → Bool
unfolding kind_eq
is_target unit = kind_eq unit.id.kind UnitIdKind.target
