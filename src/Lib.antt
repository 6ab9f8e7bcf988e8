-- ===== src/Lib.antt =====
-- Verification of rustysd, a service manager that follows systemd.
--
-- A unit is a service, a socket or a target (src/units/unit.rs). Its dependencies are six lists of
-- identifiers; its status is behind a lock.
--
-- Units: what a unit is and what one unit does.
--   Units.Id, Units.Status, Units.Config, Units.Unit: the data (src/units/id.rs, src/units/status.rs,
--     src/units/unit.rs, src/units/unit_parsing/mod.rs, src/services/services.rs, src/sockets).
--   Units.Dependencies: the six lists and their operations.
--   Units.Runtime: `RuntimeInfo` with the unit table, an association list whose order stands for the
--     iteration order of the `HashMap`; nothing is assumed of that order.
--   Units.Locking: `aquire_locks` (src/units/unitset_manipulation/locking.rs).
--   Units.Transitions: `state_transition_starting`, `_restarting` and `_stopping`.
--   Units.Lifecycle: `activate`, `deactivate` and `reactivate`. They call a service and a socket through
--     the record `Ops` (start, kill, open_all, close_all), of which nothing is assumed: the calls may
--     return any result, panic, and change what the units share.
-- Activation: src/units/unitset_manipulation/activate.rs. Subgraph has `collect_unit_start_subgraph`, Pool the
--   thread pool: its state is the jobs that wait, and a step runs any one of them as a whole.
-- Deactivation: src/units/unitset_manipulation/deactivate.rs, over Units.Lifecycle.
-- SanityCheck: src/units/unitset_manipulation/sanity_check.rs.
-- Insertion: `insert_new_units` (src/units/unitset_manipulation/insert_new.rs).
-- Removal: src/units/unitset_manipulation/remove.rs.
-- FdStore: src/fd_store.rs. Sockets: `open_all` and `close_all` (src/sockets/mod.rs), which fill two
--   fields of `Ops`. Services: `Service::start` and `Service::kill` (src/services/services.rs), which fill
--   the other two; the calls that they make are the fields of `ServiceCalls`.
-- ServiceExit: `service_exit_handler` (src/services/service_exit_handler.rs), over Deactivation.
-- Shutdown: the choice of units and the loop of src/shutdown.rs, over the same `Ops`.
-- Parser: from the text of a unit file to a unit. Section and File have `parse_section` and `parse_file`
--   (src/units/unit_parsing/unit_parser.rs), Common the sections that unit files share, Service, Socket and Files
--   the kinds of files (service_unit.rs, socket_unit.rs and target_unit.rs beside it), Units the conversion
--   of src/units/from_parsed_config.rs, Load the walk over the files (src/units/loading/mod.rs, and
--   `load_new_unit`). `shlex::split`, the parsers of internet addresses and the accounts of the system are
--   parameters; a directory is the list of its entries. `to_uppercase` is that of ASCII.
-- Loading: from the table of parsed units to the one that runs. Fill, Sockets and Prune have the functions of
--   src/units/loading/dependency_resolving.rs, Resolve the rest of `load_all_units`.
-- Notifications: the messages in the buffer of a service (src/notification_handler.rs).
-- Control: src/control. Json and Rpc have the values and src/control/jsonrpc2.rs, Command `parse_command`,
--   Execute and Run `execute_command`, which composes the operations of the modules above, Listen the answer
--   to one call, Client the call that src/bin/rsdctl.rs makes. Files joins the commands that load units
--   with Parser and Loading.
-- Prelude: shared names, vectors, maps and equality. Tests: the sample data, and each theorem applied.
--
-- State is passed explicitly: an operation takes a `RuntimeInfo` and returns a result, with `Err` and the
-- panics of `unwrap` and `panic!` as values, and the next `RuntimeInfo`. A lock is the value that
-- it guards. Of concurrency only the order of the jobs in the thread pool is modelled.
--
-- Fuel: loops that run until nothing changes take the size of the table (and one or two) as fuel, which
-- is enough on every table. The recursions along `required_by`, which a circle makes endless, take their
-- fuel as an argument. A run that is cut short has a result of its own, which no theorem on success
-- covers; the loop of the exit handler has a bound on its turns of its own.
--
-- The walk over the unit files calls itself for a directory: the depth of its calls is its fuel. The
-- loop over the messages in a buffer takes one turn for each line and one more. A command that
-- starts units takes the order in which the threads take jobs as an argument.
--
-- Not modelled: processes, file descriptors, cgroups, dbus, sockets of the operating system, the search
-- of directories, the parser and printer of JSON, the reading of messages, a second request to shut down,
-- logging, and the texts of errors that are printed only.
pub mod Prelude
pub mod Units
pub mod Activation
pub mod Control
pub mod Deactivation
pub mod SanityCheck
pub mod FdStore
pub mod Insertion
pub mod Loading
pub mod Notifications
pub mod Parser
pub mod Removal
pub mod ServiceExit
pub mod Services
pub mod Shutdown
pub mod Sockets
pub mod Tests
