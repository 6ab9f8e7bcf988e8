-- ===== src/Control/Run/Names.antt =====
-- Commands on one unit find it by the beginning of its name.
use Prim.Native.String.{String}
use text.Mathlib.TextBridge.{IsPrefix}
use rustysd.Prelude.{All, ◌++◌, ◌≡◌, List, [], ◌∷◌, Option, none, some}
use rustysd.Units.Unit.{UnitEntry}
use rustysd.Units.Runtime.{UnitTable, RuntimeInfo, err}
use rustysd.Control.Command.{Command, remove, restart, start, start_all, stop, stop_all}
use rustysd.Control.Execute.{no_unit, more_than_one_unit, Executed, answered, unit_names}
use rustysd.Control.Run.{UnitId}

-- The name in a command on one unit.
abbrev pub named_unit : Command → Option String
named_unit (remove name) = some name
named_unit (restart name) = some name
named_unit (start name) = some name
named_unit (start_all name) = some name
named_unit (stop name) = some name
named_unit (stop_all name) = some name
named_unit _ = none

-- No name of a unit begins with the given one.
abbrev pub NoneBegins : String → UnitTable → Type 0
NoneBegins name table = All (λ entry. ¬ IsPrefix name entry.1.id.name) table

-- The units are those of the table whose names begin with the given one, in its order: the first comes after
-- entries that do not, and so on.
abbrev pub AreSelected : String → UnitTable → List UnitEntry → Type 0
AreSelected name table [] = NoneBegins name table
AreSelected name table (unit ∷ units) =
    (skipped : UnitTable) × (key : UnitId) × (left : UnitTable) × (table
      ≡ skipped ++ (key, unit) ∷ left)
    × NoneBegins name skipped
    × IsPrefix name unit.id.name
    × AreSelected name left units

-- Where the units that are selected are not exactly one, the answer is the error that says so, and nothing else
-- happens.
abbrev pub IsRefused : String → List UnitEntry → RuntimeInfo → Executed → Type 0
IsRefused name [] ri e = e ≡ answered (err (no_unit name)) ri
IsRefused name (unit ∷ []) ri e = Unit
IsRefused name (unit ∷ other ∷ units) ri e =
    e ≡ answered (err (more_than_one_unit name (unit_names (unit ∷ other ∷ units)))) ri

abbrev pub SelectsOne : RuntimeInfo → Executed → String → Type 0
SelectsOne ri e name =
    (units : List UnitEntry) × AreSelected name ri.unit_table units × IsRefused name units ri e
