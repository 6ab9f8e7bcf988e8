-- ===== src/Parser/Load.antt =====
-- The walk over the files of a directory: `parse_all_units` of src/units/loading/mod.rs, and `load_new_unit` of
-- src/units/unitset_manipulation/insert_new.rs after the file was found.
pub mod Folders
pub mod Keyed
pub mod New
use Prim.Native.String.{String}
use rustysd.Prelude.{ℕ, zero, suc, Bool, List, [], ◌∷◌, ◌++◌, Option, none, some, if◌then◌else◌}
use rustysd.Prelude.Map.{insert}
use rustysd.Units.Id.{UnitId, unit_id_eq, ends_with}
use rustysd.Units.Unit.{UnitEntry}
use rustysd.Units.Runtime.{UnitTable, Result, ok, err, panic}
use rustysd.Parser.File.{ParsedFile, parse_file}
use rustysd.Parser.Config.{ParsingErrorReason, generic, ◌>>=◌}
use rustysd.Parser.Common.{Parsed, Shlex}
use rustysd.Parser.Socket.{SocketAddresses}
use rustysd.Parser.Files.{parse_service, parse_socket, parse_target}
use rustysd.Parser.Units.{
  Platform, unit_from_parsed_service, unit_from_parsed_socket, unit_from_parsed_target,
}

-- What the parser takes from elsewhere.
pub record Environment : Type 0 where
  pub platform : Platform
  pub shlex_split : Shlex
  pub dbus_support : Bool
  pub addresses : SocketAddresses

-- `map_err(ParsingErrorReason::Generic)`
unfoldable pub generic_error : Result String UnitEntry → Parsed UnitEntry
generic_error (ok unit) = ok unit
generic_error (err e) = err (generic e)
generic_error panic = panic

-- An entry of a directory: a file with its name and its content, which may not be readable, or a directory.
pub data Entry : Type 0 where
  file : String → Option String → Entry
  folder : Entry

pub record Tables : Type 0 where
  pub services : UnitTable
  pub sockets : UnitTable
  pub targets : UnitTable

module _ (env : Environment) where
  unfoldable pub service_unit : ParsedFile → String → Parsed UnitEntry
  unfolding parse_service unit_from_parsed_service generic_error
  service_unit parsed name = do
    conf ← parse_service env.shlex_split env.dbus_support parsed name
    generic_error (unit_from_parsed_service env.platform conf)

  unfoldable pub socket_unit : ParsedFile → String → Parsed UnitEntry
  unfolding parse_socket unit_from_parsed_socket generic_error
  socket_unit parsed name = do
    conf ← parse_socket env.shlex_split env.addresses parsed name
    generic_error (unit_from_parsed_socket env.platform conf)

  unfoldable pub target_unit : ParsedFile → String → Parsed UnitEntry
  unfolding parse_target unit_from_parsed_target generic_error
  target_unit parsed name = do
    conf ← parse_target parsed name
    generic_error (unit_from_parsed_target env.platform conf)

  -- A file, whatever its name, is parsed; one with another suffix adds no unit.
  unfoldable pub add_unit : String → ParsedFile → Tables → Parsed Tables
  unfolding service_unit socket_unit target_unit ends_with insert
  add_unit name parsed t =
      if ends_with name ".service"
      then (do
        unit ← service_unit parsed name
        ok (record t { services = insert unit.id unit t.services }))
      else if ends_with name ".socket"
      then (do
        unit ← socket_unit parsed name
        ok (record t { sockets = insert unit.id unit t.sockets }))
      else if ends_with name ".target"
      then (do
        unit ← target_unit parsed name
        ok (record t { targets = insert unit.id unit t.targets }))
      else ok t

  unfoldable pub add_file : String → Option String → Tables → Parsed Tables
  unfolding parse_file add_unit
  add_file name none t = err (generic "the file cannot be read")
  add_file name (some raw) t = do parsed ← parse_file raw; add_unit name parsed t

  -- The loop over the entries, where `again` is the recursive call for a directory.
  unfoldable pub add_entries :
      (Tables → Option (Parsed Tables)) → List Entry → Tables → Option (Parsed Tables)
  unfolding add_file
  add_entries again [] t = some (ok t)
  add_entries again (file name content ∷ entries) t = elim (add_file name content t) [
    | ok t' ↦ add_entries again entries t'
    | err e ↦ some (err e)
    | panic ↦ some panic
  ]
  add_entries again (folder ∷ entries) t = elim (again t) [
    | none ↦ none
    | some (ok t') ↦ add_entries again entries t'
    | some (err e) ↦ some (err e)
    | some panic ↦ some panic
  ]

  -- The recursive call is made with the same path, so that it reads the same entries again. `none` is a
  -- recursion that is deeper than the fuel.
  unfoldable pub parse_all_units : ℕ → List Entry → Tables → Option (Parsed Tables)
  unfolding add_entries
  parse_all_units zero entries t = none
  parse_all_units (suc fuel) entries t = add_entries (parse_all_units fuel entries) entries t

abbrev pub extend_all : UnitTable → UnitTable → UnitTable
extend_all table [] = table
extend_all table ((id, unit) ∷ units) = extend_all (insert id unit table) units

-- The three tables as one.
unfoldable pub merged : Tables → UnitTable
unfolding insert
merged t = extend_all (extend_all (extend_all [] t.services) t.sockets) t.targets

-- By the suffix of the name that was searched for.
unfoldable pub found_unit : Environment → String → ParsedFile → Parsed UnitEntry
unfolding service_unit socket_unit target_unit ends_with
found_unit env find_name parsed =
    if ends_with find_name ".service"
    then service_unit env parsed find_name
    else if ends_with find_name ".socket"
    then socket_unit env parsed find_name
    else if ends_with find_name ".target"
    then target_unit env parsed find_name
    else err (generic "File suffix not recognized for file")

-- The content of the file that was found for a name, as a unit.
unfoldable pub load_found : Environment → String → String → Parsed UnitEntry
unfolding parse_file found_unit
load_found env find_name content = do parsed ← parse_file content; found_unit env find_name parsed
