-- ===== src/Activation/Subgraph/Fuel.antt =====
-- The loop of the subgraph ends, and it ends well on a table that refers to no missing unit.
use rustysd.Prelude.{
  ℕ, zero, suc, ◌+◌, ◌≤◌, ◌<◌, ◌≡◌, ◌≢◌, refl, inl, inr, true, not, List, [], ◌∷◌, ◌++◌, none, some,
  arith, contains, contains-append, retain, length, length-retain-le, length-retain-lt, List-cases,
  Option-cases, Bool-cases,
}
use rustysd.Prelude.Map.{get, keys, contains_key, contains_key-get, contains-keys}
use rustysd.Units.Id.{UnitId, id_eq_iff, unit_id_eq}
use rustysd.Units.Unit.{UnitEntry}
use rustysd.Units.Runtime.{UnitTable}
use rustysd.Activation.Subgraph.{
  needs, gather, Collected, done, panicked, out_of_fuel, settle, unknown, collect,
  collect_unit_start_subgraph,
}
use rustysd.Activation.Subgraph.Reach.{contains-unknown}

gather-none :
    (table : UnitTable) (ids : List UnitId) (x : UnitId)
    → contains ids x ≡ true
    → get x table ≡ none
    → gather table ids ≡ none
unfolding gather contains
gather-none table [] x c n = absurd (cc)
gather-none table (id ∷ ids) x c n = ground (arith, id_eq_iff id x, gather-none table ids x)

-- The units of the table that are not collected yet.
abbrev missing : UnitTable → List UnitId → ℕ
missing table ids = length (retain (λ id. not (contains ids id)) (keys table))

missing-lt :
    (table : UnitTable) (ids new : List UnitId) (x : UnitId) (xs : List UnitId)
    → unknown ids new ≡ x ∷ xs
    → contains_key x table ≡ true
    → missing table (ids ++ x ∷ xs) < missing table ids
missing-lt table ids new x xs e k =
    let c : contains (x ∷ xs) x ≡ true = unfold contains in ground (arith, id_eq_iff x x) in
    let f : contains (unknown ids new) x ≡ true = rw e c in
    length-retain-lt (λ id. not (contains ids id)) (λ id. not (contains (ids ++ x ∷ xs) id))
      (λ a h. ground (arith, contains-append ids (x ∷ xs) a)) (keys table) x
      (ground (arith, contains-keys x table)) (ground (arith, contains-unknown ids new x))
      (ground (arith, contains-append ids (x ∷ xs) x))

collect_lost :
    (fuel : ℕ) (table : UnitTable) (ids : List UnitId)
    → gather table ids ≡ none
    → 1 ≤ fuel
    → collect fuel table ids ≡ panicked
unfolding collect
collect_lost zero table ids e h = absurd (omega arith)
collect_lost (suc fuel) table ids e h = rw (e, collect)

contains_last :
    (ids : List UnitId) (x : UnitId) (xs : List UnitId) → contains (ids ++ x ∷ xs) x ≡ true
unfolding contains
contains_last ids x xs = ground (arith, contains-append ids (x ∷ xs) x, id_eq_iff x x)

collect-ne-out_of_fuel :
    (fuel : ℕ) (table : UnitTable) (ids : List UnitId)
    → missing table ids + 2 ≤ fuel
    → collect fuel table ids ≢ out_of_fuel
unfolding collect settle
collect-ne-out_of_fuel zero table ids h = absurd (omega arith)
collect-ne-out_of_fuel (suc fuel) table ids h = elim (Option-cases (gather table ids)) [
  | inl none_left ↦ ground arith
  | inr (new, got) ↦ elim (List-cases (unknown ids new)) [
    | inl nothing ↦ ground arith
    | inr (x, xs, fresh) ↦ elim (Bool-cases (contains_key x table)) [
      | inl known ↦ ground (
        arith,
        missing-lt table ids new x xs fresh known,
        collect-ne-out_of_fuel fuel table (ids ++ x ∷ xs),
      )
      | inr lost ↦ ground (
        arith,
        contains_key-get x table,
        collect_lost fuel table (ids ++ x ∷ xs) (
            gather-none table (ids ++ x ∷ xs) x (contains_last ids x xs)
              (ground (arith, contains_key-get x table))),
      )
    ]
  ]
]

length-keys : (table : UnitTable) → length (keys table) ≡ length table
unfolding keys
length-keys [] = refl
length-keys ((id, u) ∷ table) = omega (arith, length-keys table)

-- The loop ends on every table: no run is cut short by the fuel.
pub collect_unit_start_subgraph-ends :
    (ids : List UnitId) (table : UnitTable) → collect_unit_start_subgraph ids table ≢ out_of_fuel
unfolding collect_unit_start_subgraph
collect_unit_start_subgraph-ends ids table =
    collect-ne-out_of_fuel _ table ids (
      omega (arith, length-keys table, length-retain-le (λ id. not (contains ids id)) (keys table)))

-- Every unit that a unit of the table comes after, wants or requires is in the table.
abbrev pub IsClosed : UnitTable → Type 0
IsClosed table =
    (id : UnitId) (u : UnitEntry) (b : UnitId)
    → get id table ≡ some u
    → contains (needs u) b ≡ true
    → contains_key b table ≡ true

abbrev pub AreKnown : UnitTable → List UnitId → Type 0
AreKnown table ids = (a : UnitId) → contains ids a ≡ true → contains_key a table ≡ true

gather_known :
    (table : UnitTable) (ids : List UnitId)
    → IsClosed table
    → AreKnown table ids
    → (new : List UnitId) × (gather table ids ≡ some new) × AreKnown table new
unfolding gather contains
gather_known table [] closed known = ([], refl, λ a c. absurd (cc))
gather_known table (id ∷ ids) closed known =
    let (new, got, fine) = gather_known table ids closed (λ a c. known a (ground arith)) in
    elim (Option-cases (get id table)) [
      | inl lost ↦
          absurd
            (ground (arith, known id (ground (arith, id_eq_iff id id)), contains_key-get id table))
      | inr (u, found) ↦ (
        needs u ++ new,
        ground arith,
        λ a c. ground (arith, contains-append (needs u) new a, closed id u a found, fine a),
      )
    ]

collect-ne-panicked :
    (fuel : ℕ) (table : UnitTable) (ids : List UnitId)
    → IsClosed table
    → AreKnown table ids
    → collect fuel table ids ≢ panicked
unfolding collect settle
collect-ne-panicked zero table ids closed known = ground arith
collect-ne-panicked (suc fuel) table ids closed known =
    let (new, got, fine) = gather_known table ids closed known in
    let grown : AreKnown table (ids ++ unknown ids new) = λ a c. ground (
      arith,
      contains-append ids (unknown ids new) a,
      contains-unknown ids new a,
      known a,
      fine a,
    ) in
    let rest = collect-ne-panicked fuel table (ids ++ unknown ids new) closed grown in
    elim (List-cases (unknown ids new)) [
      | inl nothing ↦ ground arith
      | inr (x, xs, fresh) ↦ ground (arith, rest)
    ]

-- From units of a table that refers to no missing unit, the subgraph is collected.
pub collect_unit_start_subgraph_returns :
    (ids : List UnitId) (table : UnitTable)
    → IsClosed table
    → AreKnown table ids
    → (out : List UnitId) × (collect_unit_start_subgraph ids table ≡ done out)
unfolding collect_unit_start_subgraph
collect_unit_start_subgraph_returns ids table closed known =
    by_result (collect_unit_start_subgraph ids table) refl
  where
    by_result :
        (c : Collected)
        → collect_unit_start_subgraph ids table ≡ c
        → (out : List UnitId) × (collect_unit_start_subgraph ids table ≡ done out)
    by_result (done out) e = (out, e)
    by_result panicked e = absurd (collect-ne-panicked _ table ids closed known e)
    by_result out_of_fuel e = absurd (collect_unit_start_subgraph-ends ids table e)
