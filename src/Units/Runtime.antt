-- ===== src/Units/Runtime.antt =====
-- src/runtime_info.rs: the shared state, and effects on it. A call that Rust ends by a panic (an `unwrap` of
-- a missing entry) is the outcome `panic`.
pub mod Laws
use mathlib.Core.Option
use rustysd.Prelude.{ℕ, suc, String, List, Option}
use rustysd.Prelude.Map.{get, modify}
use rustysd.Units.Id.{UnitId, unit_id_eq}
use rustysd.Units.Config.{ServiceType}
use rustysd.Units.Status.{ChildTermination, UnitOperationError, UnitStatus}
use rustysd.Units.Unit.{UnitEntry, Specific}

pub data PidEntry : Type 0 where
  service : UnitId → ServiceType → PidEntry
  service_exited : ChildTermination → PidEntry
  helper : UnitId → String → PidEntry
  helper_exited : ChildTermination → PidEntry

abbrev pub UnitTable : Type 0
UnitTable = List (UnitId × UnitEntry)

abbrev pub PidTable : Type 0
PidTable = List (ℕ × PidEntry)

-- What operations on services and sockets change beside the unit itself: `global` is
-- `FDStore::global_sockets`, `clock` counts the calls of the operating system, and `notified` the calls of `notify_eventfds`.
pub record Shared : Type 0 where
  pub pid_table : PidTable
  pub global : List (String × List (UnitId × String × ℕ))
  pub clock : ℕ
  pub notified : ℕ

pub record RuntimeInfo : Type 0 where
  pub unit_table : UnitTable
  pub shared : Shared

-- A fallible call: `Ok`, `Err`, or a panic.
pub data Result (E A : Type 0) : Type 0 where
  ok : A → Result E A
  err : E → Result E A
  panic : Result E A

abbrev pub Action : Type 0 → Type 0
Action A = RuntimeInfo → Result UnitOperationError A × RuntimeInfo

-- A write through the lock of one unit of the table.
unfoldable pub update : UnitId → (UnitEntry → UnitEntry) → RuntimeInfo → RuntimeInfo
update id f ri = record ri { unit_table = modify id f ri.unit_table }

abbrev pub with_status : UnitStatus → UnitEntry → UnitEntry
with_status st u = record u { common = record u.common { status = st } }

abbrev pub with_specific : Specific → UnitEntry → UnitEntry
with_specific sp u = record u { specific = sp }

-- `*status.write() = st`
unfoldable pub set_status : UnitId → UnitStatus → RuntimeInfo → RuntimeInfo
unfolding update
set_status id st = update id (with_status st)

unfoldable pub status_of : UnitId → UnitTable → Option UnitStatus
status_of id table = Option.map (λ u. u.common.status) (get id table)

-- `notify_eventfds` wakes the four loops that wait on an event.
unfoldable pub notify_eventfds : RuntimeInfo → RuntimeInfo
notify_eventfds ri = record ri { shared = record ri.shared { notified = suc ri.shared.notified } }
