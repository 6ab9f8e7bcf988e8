-- ===== src/Parser/Load/New.antt =====
-- A unit that was read was never started.
use Prim.Native.String.{String}
use rustysd.Prelude.{◌≡◌, ap, sym, arith}
use rustysd.Units.Status.{UnitStatus, never_started}
use rustysd.Units.Unit.{UnitEntry, Common}
use rustysd.Units.Runtime.{Result, ok, err, panic}
use rustysd.Parser.File.{ParsedFile}
use rustysd.Parser.Config.{
  ParsedUnitSection, ParsedInstallSection, ParsedServiceConfig, ParsedSocketConfig,
  ParsedTargetConfig, >>=-eq-ok,
}
use rustysd.Parser.Files.{parse_service, parse_socket, parse_target}
use rustysd.Parser.Units.{
  Platform, ids_of, make_common_from_parsed, exec_config, unit_from_parsed_service,
  unit_from_parsed_socket, unit_from_parsed_target, add_refs,
}
use rustysd.Parser.Load.{Environment, generic_error, service_unit, socket_unit, target_unit}

abbrev status_of_ok : Result String Common → UnitStatus
status_of_ok (ok common) = common.status
status_of_ok _ = never_started

make_common_new :
    (unit : ParsedUnitSection) (install : ParsedInstallSection) (common : Common)
    → make_common_from_parsed unit install ≡ ok common
    → common.status ≡ never_started
unfolding make_common_from_parsed
make_common_new unit install common e =
    let (wants, _, e1) = >>=-eq-ok (ids_of unit.wants) _ e in
    let (requires, _, e2) = >>=-eq-ok (ids_of unit.requires) _ e1 in
    let (wanted_by, _, e3) = >>=-eq-ok (ids_of install.wanted_by) _ e2 in
    let (required_by, _, e4) = >>=-eq-ok (ids_of install.required_by) _ e3 in
    let (after, _, e5) = >>=-eq-ok (ids_of unit.after) _ e4 in
    let (before, _, e6) = >>=-eq-ok (ids_of unit.before) _ e5 in sym (ap status_of_ok e6)

service_new :
    (platform : Platform) (conf : ParsedServiceConfig) (unit : UnitEntry)
    → unit_from_parsed_service platform conf ≡ ok unit
    → unit.common.status ≡ never_started
unfolding unit_from_parsed_service add_refs
service_new platform conf unit e =
    let (_, _, e1) = >>=-eq-ok (platform.make_cgroup_path conf.common.name) _ e in
    let (sockets, named, e2) = >>=-eq-ok (ids_of conf.srvc.sockets) _ e1 in
    let (common, made, e3) =
      >>=-eq-ok (make_common_from_parsed conf.common.unit conf.common.install) _ e2 in
    let (_, _, e4) = >>=-eq-ok (exec_config platform conf.srvc.exec_section) _ e3 in
    let new = make_common_new conf.common.unit conf.common.install common made in cc

socket_new :
    (platform : Platform) (conf : ParsedSocketConfig) (unit : UnitEntry)
    → unit_from_parsed_socket platform conf ≡ ok unit
    → unit.common.status ≡ never_started
unfolding unit_from_parsed_socket add_refs
socket_new platform conf unit e =
    let (services, named, e1) = >>=-eq-ok (ids_of conf.sock.services) _ e in
    let (common, made, e2) =
      >>=-eq-ok (make_common_from_parsed conf.common.unit conf.common.install) _ e1 in
    let (_, _, e3) = >>=-eq-ok (exec_config platform conf.sock.exec_section) _ e2 in
    let new = make_common_new conf.common.unit conf.common.install common made in cc

target_new :
    (platform : Platform) (conf : ParsedTargetConfig) (unit : UnitEntry)
    → unit_from_parsed_target platform conf ≡ ok unit
    → unit.common.status ≡ never_started
unfolding unit_from_parsed_target
target_new platform conf unit e =
    let (common, made, e1) =
      >>=-eq-ok (make_common_from_parsed conf.common.unit conf.common.install) _ e in
    let new = make_common_new conf.common.unit conf.common.install common made in cc

generic_error-ok :
    (r : Result String UnitEntry) (unit : UnitEntry) → generic_error r ≡ ok unit → r ≡ ok unit
unfolding generic_error
generic_error-ok (ok u) unit e = ground arith
generic_error-ok (err x) unit e = absurd (cc)
generic_error-ok panic unit e = absurd (cc)

module _ (env : Environment) (parsed : ParsedFile) (name : String) (unit : UnitEntry) where
  pub service_unit_new : service_unit env parsed name ≡ ok unit → unit.common.status ≡ never_started
  unfolding service_unit
  service_unit_new e =
      let (conf, _, e1) =
        >>=-eq-ok (parse_service env.shlex_split env.dbus_support parsed name) _ e in
      service_new env.platform conf unit (generic_error-ok _ unit e1)

  pub socket_unit_new : socket_unit env parsed name ≡ ok unit → unit.common.status ≡ never_started
  unfolding socket_unit
  socket_unit_new e =
      let (conf, _, e1) = >>=-eq-ok (parse_socket env.shlex_split env.addresses parsed name) _ e in
      socket_new env.platform conf unit (generic_error-ok _ unit e1)

  pub target_unit_new : target_unit env parsed name ≡ ok unit → unit.common.status ≡ never_started
  unfolding target_unit
  target_unit_new e =
      let (conf, _, e1) = >>=-eq-ok (parse_target parsed name) _ e in
      target_new env.platform conf unit (generic_error-ok _ unit e1)
