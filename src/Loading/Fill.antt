-- ===== src/Loading/Fill.antt =====
-- `fill_dependencies` of src/units/loading/dependency_resolving.rs up to the implicit relations.
pub mod Pushes
pub mod Symmetric
use rustysd.Prelude.{List, [], ◌∷◌, ◌++◌, Option, none, some, if◌then◌else◌, map}
use rustysd.Prelude.Map.{contains_key, modify}
use rustysd.Prelude.Partial.{◌>>=◌}
use rustysd.Units.Id.{UnitId, unit_id_eq}
use rustysd.Units.Unit.{UnitEntry}
use rustysd.Units.Runtime.{UnitTable}
use rustysd.Loading.Edges.{
  EdgeKind, wants, wanted_by, requires, required_by, before, after, push, with_dependencies,
}

-- The four vectors of pairs.
pub record Relations : Type 0 where
  pub required_by : List (UnitId × UnitId)
  pub wanted_by : List (UnitId × UnitId)
  pub before : List (UnitId × UnitId)
  pub after : List (UnitId × UnitId)

-- The pairs of each identifier of a list with the unit, and of the unit with each identifier.
unfoldable pub pair_to : UnitId → List UnitId → List (UnitId × UnitId)
pair_to own [] = []
pair_to own (id ∷ ids) = (id, own) ∷ pair_to own ids

unfoldable pub pair_from : UnitId → List UnitId → List (UnitId × UnitId)
pair_from own [] = []
pair_from own (id ∷ ids) = (own, id) ∷ pair_from own ids

-- One turn of the first loop.
unfoldable pub note_unit : UnitEntry → Relations → Relations
unfolding pair_to pair_from
note_unit u r =
    let conf = u.common.dependencies in
    record {
      required_by =
          r.required_by ++ (pair_to u.id conf.requires ++ pair_from u.id conf.required_by);
      wanted_by = r.wanted_by ++ (pair_to u.id conf.wants ++ pair_from u.id conf.wanted_by);
      before = r.before ++ pair_from u.id conf.after;
      after = r.after ++ pair_from u.id conf.before;
    }

unfoldable pub note_units : UnitTable → Relations → Relations
unfolding note_unit
note_units [] r = r
note_units ((_, u) ∷ units) r = note_units units (note_unit u r)

-- `units.get_mut(id).unwrap()` and a push to one of its lists. `none` is the panic.
unfoldable pub push_to : UnitId → EdgeKind → UnitId → UnitTable → Option UnitTable
unfolding push modify contains_key
push_to id k other table =
    if contains_key id table
    then some (modify id (λ u. with_dependencies (push k other u.common.dependencies) u) table)
    else none

-- The loops over `wanted_by` and `required_by`, which push at both ends of a pair.
unfoldable pub push_both :
    EdgeKind → EdgeKind → List (UnitId × UnitId) → UnitTable → Option UnitTable
unfolding push_to
push_both k k' [] table = some table
push_both k k' ((target, source) ∷ pairs) table = do
  t ← push_to source k target table
  t' ← push_to target k' source t
  push_both k k' pairs t'

-- The loops over `before` and `after`.
unfoldable pub push_each : EdgeKind → List (UnitId × UnitId) → UnitTable → Option UnitTable
unfolding push_to
push_each k [] table = some table
push_each k ((other, id) ∷ pairs) table = do t ← push_to id k other table; push_each k pairs t

abbrev pub no_relations : Relations
no_relations = record { required_by = []; wanted_by = []; before = []; after = [] }

unfoldable pub mirror_relations : UnitTable → Option UnitTable
unfolding note_units push_both push_each
mirror_relations table =
    let r = note_units table no_relations in
    do
      t ← push_both wants wanted_by r.wanted_by table
      t' ← push_both requires required_by r.required_by t
      t'' ← push_each before r.before t'
      push_each after r.after t''
