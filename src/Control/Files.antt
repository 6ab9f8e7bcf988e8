-- ===== src/Control/Files.antt =====
-- The unit files as the commands use them: `load_new_unit` of src/units/unitset_manipulation/insert_new.rs, and the walk
-- over the configured directories in `load_all_units` of src/units/loading/mod.rs. The search for a file, and what
-- stands in the directories, are input.
pub mod Loaded
use Prim.Native.String.{String, ◌++◌ as ◌<>◌}
use rustysd.Prelude.{ℕ, zero, suc, List, [], ◌∷◌, Option, none, some}
use rustysd.Units.Unit.{UnitEntry}
use rustysd.Units.Runtime.{UnitTable, Result, ok, err, panic}
use rustysd.Loading.Sockets.{TooManyServices}
use rustysd.Control.Run.{UnitFiles}
use rustysd.Parser.Config.{ParsingErrorReason}
use rustysd.Parser.Common.{Parsed}
use rustysd.Parser.Load.{Environment, Entry, Tables, parse_all_units, merged, load_found}

abbrev pub no_tables : Tables
no_tables = record { services = []; sockets = []; targets = [] }

-- What the unit files are read from. A walk that is deeper than the fuel overflows the stack.
pub record Disk : Type 0 where
  pub env : Environment
  pub depth : ℕ
  pub dirs : List (List Entry)
  pub find : String → Result String (Option String)
  pub parsing_error : ParsingErrorReason → String
  pub resolve_error : TooManyServices → String

-- The loop over the directories.
unfoldable pub load_dirs : Environment → ℕ → List (List Entry) → Tables → Option (Parsed Tables)
unfolding parse_all_units
load_dirs env depth [] t = some (ok t)
load_dirs env depth (dir ∷ dirs) t = elim (parse_all_units env depth dir t) [
  | none ↦ none
  | some (ok t') ↦ load_dirs env depth dirs t'
  | some (err e) ↦ some (err e)
  | some panic ↦ some panic
]

-- The table of all units that were read.
unfoldable pub read_table :
    (ParsingErrorReason → String) → Option (Parsed Tables) → Result String UnitTable
unfolding merged
read_table message none = panic
read_table message (some (ok t)) = ok (merged t)
read_table message (some (err e)) = err (message e)
read_table message (some panic) = panic

unfoldable pub with_message :
    (ParsingErrorReason → String) → Parsed UnitEntry → Result String UnitEntry
with_message message (ok unit) = ok unit
with_message message (err e) = err (message e)
with_message message panic = panic

unfoldable pub load_new_unit : Disk → String → Result String UnitEntry
unfolding load_found with_message
load_new_unit disk name = elim (disk.find name) [
  | ok none ↦ err ("Cannot find unit file for unit: " <> name)
  | ok (some content) ↦ with_message disk.parsing_error (load_found disk.env name content)
  | err e ↦ err e
  | panic ↦ panic
]

unfoldable pub unit_files : Disk → UnitFiles
unfolding load_new_unit load_dirs read_table
unit_files disk = record {
  load_new_unit = load_new_unit disk;
  parse_all = read_table disk.parsing_error (load_dirs disk.env disk.depth disk.dirs no_tables);
  resolve_error = disk.resolve_error;
}
