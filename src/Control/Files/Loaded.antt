-- ===== src/Control/Files/Loaded.antt =====
-- From the unit files to a table that can run.
use Prim.Native.String.{String}
use rustysd.Prelude.{
  ℕ, ◌≡◌, refl, inl, inr, List, [], ◌∷◌, Option, none, some, arith, Option-cases, subst,
}
use rustysd.Prelude.Map.{keys}
use rustysd.Units.Runtime.{UnitTable, ok, err, panic}
use rustysd.Units.Runtime.Laws.{Result-cases}
use mathlib.Core.Option
use rustysd.Prelude.Map.{get}
use rustysd.Units.Id.{unit_id_eq}
use rustysd.Units.Status.{is_started}
use rustysd.Units.Runtime.{status_of}
use rustysd.Units.Transitions.Guards.{started_at}
use rustysd.Units.Lifecycle.Orderly.{IsOrderly, IsMirrored}
use rustysd.Loading.Edges.{EdgeKind, edges, lists, linked, IsMirror}
use rustysd.Loading.Resolve.Fresh.{AreFresh, get-AreFresh}
use rustysd.Loading.Resolve.Unstarted.{resolve-AreFresh}
use rustysd.Control.Run.Steady.{IsSteady}
use rustysd.Loading.Resolve.{resolve}
use rustysd.Loading.Resolve.Loaded.{IsLoaded, resolve-IsLoaded}
use rustysd.Control.Run.{load_all_units}
use rustysd.Parser.Config.{ParsingErrorReason}
use rustysd.Parser.Common.{Parsed}
use rustysd.Parser.Load.{Environment, Entry, Tables, parse_all_units}
use rustysd.Parser.Load.Keyed.{IsTable, AreTables, parse_all_units-AreTables, merged-IsTable}
use rustysd.Control.Files.{no_tables, Disk, load_dirs, read_table, unit_files}

no_tables-AreTables : AreTables no_tables
unfolding keys
no_tables-AreTables = record {
  services = record { own = tt; distinct = tt; fresh = tt };
  sockets = record { own = tt; distinct = tt; fresh = tt };
  targets = record { own = tt; distinct = tt; fresh = tt };
}

load_dirs-AreTables :
    (env : Environment) (depth : ℕ) (dirs : List (List Entry)) (t t' : Tables)
    → load_dirs env depth dirs t ≡ some (ok t')
    → AreTables t
    → AreTables t'
unfolding load_dirs
load_dirs-AreTables env depth [] t t' e k = subst AreTables (ground arith) k
load_dirs-AreTables env depth (dir ∷ dirs) t t' e k =
    elim (Option-cases (parse_all_units env depth dir t)) [
      | inl deep ↦ absurd (ground arith)
      | inr (r, back) ↦ elim (Result-cases r) [
        | inl (s, went) ↦
            load_dirs-AreTables env depth dirs s t' (ground arith)
              (parse_all_units-AreTables env depth dir t s (ground arith) k)
        | inr (inl (x, failed)) ↦ absurd (ground arith)
        | inr (inr failed) ↦ absurd (ground arith)
      ]
    ]

read_table-IsTable :
    (message : ParsingErrorReason → String) (o : Option (Parsed Tables)) (table : UnitTable)
    → ((t : Tables) → o ≡ some (ok t) → AreTables t)
    → read_table message o ≡ ok table
    → IsTable table
unfolding read_table
read_table-IsTable message none table k e = absurd (cc)
read_table-IsTable message (some (ok t)) table k e =
    subst IsTable (ground arith) (merged-IsTable t (k t refl))
read_table-IsTable message (some (err x)) table k e = absurd (cc)
read_table-IsTable message (some panic) table k e = absurd (cc)

-- Where no unit was started, nothing is out of order.
AreFresh-IsOrderly : (table : UnitTable) → AreFresh table → IsOrderly table
unfolding started_at status_of is_started Option.map
AreFresh-IsOrderly table fresh id d deps e on c = elim (Option-cases (get id table)) [
  | inl lost ↦ absurd (ground arith)
  | inr (u, found) ↦ let new = get-AreFresh id u table fresh found in absurd (ground arith)
]

IsMirror-IsMirrored : (table : UnitTable) → IsMirror table → IsMirrored table
unfolding linked lists edges Option.map
IsMirror-IsMirrored table m id d deps u e found c = elim (Option-cases (get id table)) [
  | inl lost ↦ absurd (ground arith)
  | inr (v, there) ↦ let both = m EdgeKind.requires id d in ground arith
]

-- Whatever stands in the directories, when the units are loaded from them: each unit is under its own
-- identifier, every edge is visible on both sides and leads to a unit of the table, every socket has a
-- service, and the table has the invariant that the commands keep.
pub load_all_units-IsLoaded :
    (disk : Disk) (target_unit : String) (table : UnitTable)
    → load_all_units (unit_files disk) target_unit ≡ ok table
    → IsLoaded table × IsSteady table
unfolding load_all_units unit_files
load_all_units-IsLoaded disk target_unit table e =
    let read = load_dirs disk.env disk.depth disk.dirs no_tables in
    elim (Result-cases (read_table disk.parsing_error read)) [
      | inr (inl (x, failed)) ↦ absurd (ground arith)
      | inr (inr failed) ↦ absurd (ground arith)
      | inl (parsed, went) ↦
          let t =
            read_table-IsTable disk.parsing_error read parsed
              (λ t o.
                load_dirs-AreTables disk.env disk.depth disk.dirs no_tables t o no_tables-AreTables)
              went in
          let done : resolve target_unit parsed ≡ ok table =
            elim (Result-cases (resolve target_unit parsed)) [
              | inl (loaded, done) ↦ ground arith
              | inr (inl (x, failed)) ↦ absurd (ground arith)
              | inr (inr failed) ↦ absurd (ground arith)
            ] in
          let loaded = resolve-IsLoaded target_unit parsed table t.own t.distinct done in
          let fresh = resolve-AreFresh target_unit parsed table done t.fresh in
          (
            loaded,
            record {
              keyed = loaded.keyed;
              mirrored = IsMirror-IsMirrored table loaded.mirrored;
              orderly = AreFresh-IsOrderly table fresh;
            },
          )
    ]
