-- ===== src/Parser/Units/References.antt =====
-- The references of a unit that was read.
use rustysd.Prelude.{subst, ◌≡◌, ◌||◌, List, [], ◌++◌, arith, contains, contains-append}
use rustysd.Units.Id.{UnitId, unit_id_eq}
use rustysd.Units.Unit.{UnitEntry, Common}
use rustysd.Units.Runtime.{ok}
use rustysd.Removal.Clean.{mentions}
use rustysd.Parser.Config.{
  ParsedUnitSection, ParsedInstallSection, ParsedServiceConfig, ParsedSocketConfig, >>=-eq-ok,
}
use rustysd.Parser.Units.{
  Platform, ids_of, make_common_from_parsed, exec_config, add_refs, unit_from_parsed_service,
  unit_from_parsed_socket,
}

-- The references of a unit name what its edges and the lists of its kind name.
abbrev pub RefersTo : Common → List UnitId → Type 0
RefersTo common extra =
    (id : UnitId)
    → contains common.unit.refs_by_name id ≡ (mentions common.dependencies id || contains extra id)

make_common-RefersTo :
    (unit : ParsedUnitSection) (install : ParsedInstallSection) (common : Common)
    → make_common_from_parsed unit install ≡ ok common
    → RefersTo common []
unfolding make_common_from_parsed contains
make_common-RefersTo unit install common e id =
    let (wants, _, e1) = >>=-eq-ok (ids_of unit.wants) _ e in
    let (requires, _, e2) = >>=-eq-ok (ids_of unit.requires) _ e1 in
    let (wanted_by, _, e3) = >>=-eq-ok (ids_of install.wanted_by) _ e2 in
    let (required_by, _, e4) = >>=-eq-ok (ids_of install.required_by) _ e3 in
    let (after, _, e5) = >>=-eq-ok (ids_of unit.after) _ e4 in
    let (before, _, e6) = >>=-eq-ok (ids_of unit.before) _ e5 in
    ground (
      arith,
      contains-append wants (wanted_by ++ (requires ++ (required_by ++ (before ++ after)))) id,
      contains-append wanted_by (requires ++ (required_by ++ (before ++ after))) id,
      contains-append requires (required_by ++ (before ++ after)) id,
      contains-append required_by (before ++ after) id,
      contains-append before after id,
    )

add_refs-RefersTo :
    (ids : List UnitId) (common : Common) → RefersTo common [] → RefersTo (add_refs ids common) ids
unfolding add_refs contains
add_refs-RefersTo ids common r id =
    ground (arith, r id, contains-append common.unit.refs_by_name ids id)

-- A unit that is made of the parsed file of a service refers by name to exactly the units of its edges and to the
-- sockets of its configuration.
pub unit_from_parsed_service-RefersTo :
    (platform : Platform) (conf : ParsedServiceConfig) (unit : UnitEntry)
    → unit_from_parsed_service platform conf ≡ ok unit
    → (sockets : List UnitId) × (ids_of conf.srvc.sockets ≡ ok sockets)
      × RefersTo unit.common sockets
unfolding unit_from_parsed_service
unit_from_parsed_service-RefersTo platform conf unit e =
    let (_, _, e1) = >>=-eq-ok (platform.make_cgroup_path conf.common.name) _ e in
    let (sockets, named, e2) = >>=-eq-ok (ids_of conf.srvc.sockets) _ e1 in
    let (common, made, e3) =
      >>=-eq-ok (make_common_from_parsed conf.common.unit conf.common.install) _ e2 in
    let (_, _, e4) = >>=-eq-ok (exec_config platform conf.srvc.exec_section) _ e3 in
    let same : add_refs sockets common ≡ unit.common = cc in
    let refers = make_common-RefersTo conf.common.unit conf.common.install common made in
    (sockets, named, subst (λ c. RefersTo c sockets) same (add_refs-RefersTo sockets common refers))

-- The same of the parsed file of a socket, with the services of its configuration.
pub unit_from_parsed_socket-RefersTo :
    (platform : Platform) (conf : ParsedSocketConfig) (unit : UnitEntry)
    → unit_from_parsed_socket platform conf ≡ ok unit
    → (services : List UnitId) × (ids_of conf.sock.services ≡ ok services)
      × RefersTo unit.common services
unfolding unit_from_parsed_socket
unit_from_parsed_socket-RefersTo platform conf unit e =
    let (services, named, e1) = >>=-eq-ok (ids_of conf.sock.services) _ e in
    let (common, made, e2) =
      >>=-eq-ok (make_common_from_parsed conf.common.unit conf.common.install) _ e1 in
    let (_, _, e3) = >>=-eq-ok (exec_config platform conf.sock.exec_section) _ e2 in
    let same : add_refs services common ≡ unit.common = cc in
    let refers = make_common-RefersTo conf.common.unit conf.common.install common made in
    (
      services,
      named,
      subst (λ c. RefersTo c services) same (add_refs-RefersTo services common refers),
    )
