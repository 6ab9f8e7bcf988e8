-- ===== src/Units/Runtime/Laws.antt =====
-- How the writes to a unit of the table change the statuses that the locks show.
use mathlib.Core.Option
use rustysd.Prelude.{◌⊎◌, refl, ◌⊎◌, ◌≡◌, arith, if◌then◌else◌, ◌==◌, Option-cases, inl, inr}
use rustysd.Prelude.Map.{get, get-modify}
use rustysd.Units.Id.{UnitId, unit_id_eq}
use rustysd.Units.Status.{UnitStatus}
use rustysd.Units.Unit.{UnitEntry}
use rustysd.Units.Runtime.{
  RuntimeInfo, update, with_status, set_status, status_of, Result, ok, err, panic,
}

pub status_of-update :
    (k j : UnitId) (f : UnitEntry → UnitEntry) (ri : RuntimeInfo)
    → ((u : UnitEntry) → (f u).common.status ≡ u.common.status)
    → status_of j (update k f ri).unit_table ≡ status_of j ri.unit_table
unfolding update status_of
status_of-update k j f ri same = elim (Option-cases (get j ri.unit_table)) [
  | inl lost ↦ ground (arith, get-modify k j f ri.unit_table)
  | inr (u, found) ↦ ground (arith, get-modify k j f ri.unit_table, same u)
]

pub status_of-set_status :
    (k j : UnitId) (st : UnitStatus) (ri : RuntimeInfo)
    → status_of j (set_status k st ri).unit_table ≡ (
        if k == j
        then Option.map (λ _. st) (status_of j ri.unit_table)
        else status_of j ri.unit_table)
unfolding set_status status_of
status_of-set_status k j st ri = ground (arith, get-modify k j (with_status st) ri.unit_table)

-- To split on a computed result and keep the equation.
pub Result-cases :
    {E A : Type 0} (r : Result E A)
    → ((a : A) × (r ≡ ok a)) ⊎ (((e : E) × (r ≡ err e)) ⊎ (r ≡ panic))
Result-cases (ok a) = inl (a, refl)
Result-cases (err e) = inr (inl (e, refl))
Result-cases panic = inr (inr refl)
