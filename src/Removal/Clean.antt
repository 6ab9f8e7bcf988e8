-- ===== src/Removal/Clean.antt =====
-- What a removal leaves: no edge to a unit that is gone, and no unit that names the removed one.
use mathlib.Core.Option
use rustysd.Prelude.{
  ℕ, zero, suc, ◌≡◌, subst, inl, inr, Bool, true, false, not, ◌&&◌, ◌||◌, List, [], ◌∷◌, Option,
  none, some, arith, contains, Option-cases, if◌then◌else◌, ◌==◌,
}
use rustysd.Prelude.Map.{
  get, map_values, contains_key, contains_key-get, get-remove, get-map_values,
}
use rustysd.Units.Id.{UnitId, unit_id_eq}
use rustysd.Units.Dependencies.{Dependencies, remove_id}
use rustysd.Units.Dependencies.Laws.{contains-remove_from_vec}
use rustysd.Units.Unit.{UnitEntry}
use rustysd.Units.Runtime.{UnitTable}
use rustysd.Removal.{
  forget, remove_single_unit, referrers, remove_each, remove_with_depending_units,
}

-- Whether an identifier is in one of the six edge lists.
abbrev pub mentions : Dependencies → UnitId → Bool
mentions d id =
    contains d.wants id
    || contains d.wanted_by id
    || contains d.requires id
    || contains d.required_by id
    || contains d.before id
    || contains d.after id

-- Every edge of a unit of the table leads to a unit of the table.
abbrev pub HasNoDangling : UnitTable → Type 0
HasNoDangling table =
    (id d : UnitId) (u : UnitEntry)
    → get id table ≡ some u
    → mentions u.common.dependencies d ≡ true
    → contains_key d table ≡ true

pub mentions-remove_id :
    (rm_id d : UnitId) (deps : Dependencies)
    → mentions (remove_id rm_id deps) d ≡ (mentions deps d && not (rm_id == d))
unfolding remove_id
mentions-remove_id rm_id d deps = ground (
  arith,
  contains-remove_from_vec deps.wants rm_id d,
  contains-remove_from_vec deps.wanted_by rm_id d,
  contains-remove_from_vec deps.requires rm_id d,
  contains-remove_from_vec deps.required_by rm_id d,
  contains-remove_from_vec deps.before rm_id d,
  contains-remove_from_vec deps.after rm_id d,
)

pub get-remove_single_unit :
    (rm_id id : UnitId) (table : UnitTable)
    → get id (remove_single_unit rm_id table)
      ≡ (if rm_id == id then none else Option.map (forget rm_id) (get id table))
unfolding remove_single_unit
get-remove_single_unit rm_id id table = ground (
  arith,
  get-remove rm_id id (map_values (forget rm_id) table),
  get-map_values (forget rm_id) id table,
)

-- A unit that is left was there before, under another identifier than the removed one.
pub left :
    (rm_id id : UnitId) (table : UnitTable) (u' : UnitEntry)
    → get id (remove_single_unit rm_id table) ≡ some u'
    → (u : UnitEntry) × (get id table ≡ some u) × (u' ≡ forget rm_id u) × ((rm_id == id) ≡ false)
left rm_id id table u' found = elim (Option-cases (get id table)) [
  | inl lost ↦ absurd (ground (arith, get-remove_single_unit rm_id id table))
  | inr (u, was) ↦ (
    u,
    was,
    ground (arith, get-remove_single_unit rm_id id table),
    ground (arith, get-remove_single_unit rm_id id table),
  )
]

remove_single_unit-HasNoDangling :
    (rm_id : UnitId) (table : UnitTable)
    → HasNoDangling table
    → HasNoDangling (remove_single_unit rm_id table)
unfolding forget
remove_single_unit-HasNoDangling rm_id table closed id d u' found m =
    let (u, was, same, other) = left rm_id id table u' found in
    let m' : mentions (remove_id rm_id u.common.dependencies) d ≡ true =
      subst (λ v. mentions v.common.dependencies d ≡ true) same m in
    let both = mentions-remove_id rm_id d u.common.dependencies in
    let m0 : mentions u.common.dependencies d ≡ true = ground arith in
    let apart : (rm_id == d) ≡ false = ground arith in
    let k = closed id d u was m0 in
    elim (Option-cases (get d table)) [
      | inl lost ↦ absurd (ground (arith, contains_key-get d table))
      | inr (v, there) ↦ ground (
        arith,
        contains_key-get d (remove_single_unit rm_id table),
        get-remove_single_unit rm_id d table,
      )
    ]

-- What holds of the table that a step returns, where it returns one.
abbrev pub Holds {ℓ} : (UnitTable → Type ℓ) → Option UnitTable → Type ℓ
Holds P none = Unit
Holds P (some table) = P table

-- The rule for the recursion: what taking out a single unit keeps holds of the result.
module _ {ℓ} (P : UnitTable → Type ℓ)
    (keep : (rm_id : UnitId) (t : UnitTable) → P t → P (remove_single_unit rm_id t)) where
  pub remove_each-Holds :
      (step : UnitId → UnitTable → Option UnitTable)
      → ((id : UnitId) (t : UnitTable) → P t → Holds P (step id t))
      → (ids : List UnitId) (t : UnitTable) → P t
      → Holds P (remove_each step ids t)
  unfolding remove_each
  remove_each-Holds step h [] t p = p
  remove_each-Holds step h (id ∷ ids) t p = elim (Option-cases (step id t)) [
    | inl out ↦ rw (out, remove_each) tt
    | inr (t', went) ↦
        rw (went, remove_each) (remove_each-Holds step h ids t' (subst (Holds P) went (h id t p)))
  ]

  pub remove_with-Holds :
      (fuel : ℕ) (rm_id : UnitId) (t : UnitTable)
      → P t
      → Holds P (remove_with_depending_units fuel rm_id t)
  unfolding remove_with_depending_units
  remove_with-Holds zero rm_id t p = tt
  remove_with-Holds (suc fuel) rm_id t p =
      remove_each-Holds (remove_with_depending_units fuel) (remove_with-Holds fuel)
        (referrers rm_id (remove_single_unit rm_id t)) (remove_single_unit rm_id t) (keep rm_id t p)

-- A removal leaves no edge to a unit that is gone, if there was none before.
pub remove_with_depending_units-HasNoDangling :
    (fuel : ℕ) (rm_id : UnitId) (table table' : UnitTable)
    → HasNoDangling table
    → remove_with_depending_units fuel rm_id table ≡ some table'
    → HasNoDangling table'
remove_with_depending_units-HasNoDangling fuel rm_id table table' closed e =
    subst (Holds HasNoDangling) e
      (remove_with-Holds HasNoDangling remove_single_unit-HasNoDangling fuel rm_id table closed)
