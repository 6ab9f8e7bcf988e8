-- ===== src/Tests/Graphs.antt =====
-- The theorems on the start graph and on recursive deactivation, applied to the sample system.
use rustysd.Units.Locking.{aquire_locks}
use rustysd.Units.Transitions.{state_transition_stopping}
use rustysd.Units.Lifecycle.{deactivate}
use rustysd.Prelude.{
  Bool, ◌||◌, Bool-cases, eq_iff, subst, inr, inl, retain, retain, retain, ℕ, ◌<◌, ◌≡◌, ◌≢◌, ◌↔◌,
  refl, true, [], ◌∷◌, none, some, arith, contains, if◌then◌else◌, ◌==◌,
}
use rustysd.Prelude.Map.{modify, get, keys, contains_key}
use rustysd.Units.Id.{id_eq_iff, UnitId, id_eq, kind_eq, unit_id_eq}
use rustysd.Units.Status.{never_started, started, running}
use rustysd.Units.Dependencies.{
  kill_before_this, sort_dedup, start_concurrently_with_this, start_before_this, sort_dedup,
  Dependencies,
}
use rustysd.Units.Runtime.{set_status, RuntimeInfo, UnitTable, ok}
use rustysd.Activation.Subgraph.{needs, unknown, gather, collect, done, collect_unit_start_subgraph}
use rustysd.Activation.Subgraph.Reach.{Reach, collect_unit_start_subgraph-Reach}
use rustysd.Activation.Subgraph.Fuel.{IsClosed, AreKnown}
use rustysd.SanityCheck.{
  Progress, circle, search_backedge, circles_found, check_out_of_fuel, sanity_check_dependencies,
}
use rustysd.SanityCheck.Acyclic.{Way}
use rustysd.SanityCheck.Accepted.{sanity_check_dependencies-acyclic}
use rustysd.SanityCheck.Circles.{IsCircle, search_backedge-IsCircle}
use rustysd.SanityCheck.Loop.{sanity_check_dependencies-ends}
use rustysd.Deactivation.{deactivate_unit_recursive}
use rustysd.Deactivation.Circles.{IsEndless, deactivate_unit_recursive-ne}
use rustysd.Units.Unit.{UnitEntry}
use rustysd.Deactivation.Fuel.{IsRanked, deactivate_unit_recursive-ends}
use rustysd.Deactivation.Stops.{IsKeyed, Dependent, stopped_at, deactivate_unit_recursive_stops}
use rustysd.Units.Dependencies.Laws.{contains-start}
use rustysd.Tests.Samples.{db_unit, web_unit, system-cases, db, web, unit, working, half, both}

collect-web : collect_unit_start_subgraph (web ∷ []) half.unit_table ≡ done (web ∷ db ∷ [])
unfolding collect_unit_start_subgraph collect gather get id_eq unknown retain sort_dedup needs
    start_before_this start_concurrently_with_this contains
collect-web = refl

collect_unit_start_subgraph-Reach_example :
    (contains (web ∷ db ∷ []) db ≡ true) ↔ Reach half.unit_table (web ∷ []) db
collect_unit_start_subgraph-Reach_example =
    collect_unit_start_subgraph-Reach half.unit_table (web ∷ []) (web ∷ db ∷ []) db collect-web

half-IsClosed : IsClosed half.unit_table
unfolding get id_eq kind_eq contains contains_key needs
half-IsClosed id u b found c = elim (system-cases (started running) never_started id u found) [
  | inl (same, e) ↦
      let d = subst (λ v. contains (needs v) b ≡ true) e c in
      ground (arith, contains-start (db_unit (started running)).common.dependencies b)
  | inr (same, e) ↦
      let d = subst (λ v. contains (needs v) b ≡ true) e c in
      ground (arith, contains-start (web_unit never_started).common.dependencies b)
]

web-AreKnown : AreKnown half.unit_table (web ∷ [])
unfolding get id_eq kind_eq contains contains_key
web-AreKnown a c = ground arith

accepted : sanity_check_dependencies half.unit_table ≡ circles_found []
unfolding sanity_check_dependencies keys get id_eq contains retain
accepted = refl

sanity_check_dependencies-acyclic_example : ¬ Way half.unit_table db db
sanity_check_dependencies-acyclic_example =
    sanity_check_dependencies-acyclic half.unit_table accepted db

sanity_check_dependencies-ends_example :
    sanity_check_dependencies half.unit_table ≢ check_out_of_fuel
sanity_check_dependencies-ends_example = sanity_check_dependencies-ends half.unit_table

abbrev towards : UnitId → Dependencies
towards id = record {
  wants = [];
  wanted_by = [];
  requires = [];
  required_by = [];
  before = id ∷ [];
  after = id ∷ [];
}

-- Two units, each before the other.
abbrev tangled : UnitTable
tangled =
    (db, unit db (towards web) [] never_started)
    ∷ (web, unit web (towards db) [] never_started)
    ∷ []

abbrev untouched : Progress
untouched = record { finished = []; not_finished = db ∷ web ∷ [] }

abbrev touched : Progress
touched = record { finished = web ∷ db ∷ []; not_finished = [] }

search-tangled : search_backedge 4 tangled [] db untouched ≡ circle (db ∷ web ∷ []) touched
unfolding search_backedge contains get id_eq retain
search-tangled = refl

search_backedge-IsCircle_example : IsCircle tangled (db ∷ web ∷ [])
search_backedge-IsCircle_example =
    search_backedge-IsCircle 4 tangled db untouched touched (db ∷ web ∷ []) search-tangled

both-IsKeyed : IsKeyed both.unit_table
unfolding get id_eq kind_eq
both-IsKeyed id u found = ground (arith, id_eq_iff db id, id_eq_iff web id)

abbrev after_stop : RuntimeInfo
unfolding deactivate_unit_recursive
after_stop = elim (deactivate_unit_recursive working 3 db both) [
  | none ↦ both
  | some (r, ri') ↦ ri'
]

stop-db : deactivate_unit_recursive working 3 db both ≡ some (ok tt, after_stop)
unfolding deactivate_unit_recursive get id_eq deactivate state_transition_stopping aquire_locks
    sort_dedup contains kill_before_this set_status modify
stop-db = refl

deactivate_unit_recursive_stops_example :
    ((j : UnitId) → Dependent both.unit_table j db → stopped_at after_stop.unit_table j ≡ true)
    × ((j : UnitId)
        → stopped_at both.unit_table j ≡ true
        → stopped_at after_stop.unit_table j ≡ true)
deactivate_unit_recursive_stops_example =
    deactivate_unit_recursive_stops working 3 db both after_stop both-IsKeyed stop-db

-- The service that is required by the other comes second.
abbrev rank : UnitId → ℕ
rank id = if id == db then 1 else 0

both-IsRanked : IsRanked rank both.unit_table
unfolding get id_eq kind_eq
both-IsRanked id u found = elim (system-cases (started running) (started running) id u found) [
  | inl (same, e) ↦ ground arith
  | inr (same, e) ↦ ground arith
]

db-fuel : rank db < 2
unfolding id_eq kind_eq
db-fuel = omega arith

deactivate_unit_recursive-ends_example : deactivate_unit_recursive working 2 db both ≢ none
deactivate_unit_recursive-ends_example =
    deactivate_unit_recursive-ends working rank 2 db both both-IsRanked db-fuel

-- Each of the two services requires the other.
abbrev required_by_only : UnitId → Dependencies
required_by_only id = record {
  wants = [];
  wanted_by = [];
  requires = id ∷ [];
  required_by = id ∷ [];
  before = [];
  after = [];
}

abbrev ring_unit : UnitId → UnitId → UnitEntry
ring_unit id other = unit id (required_by_only other) [] (started running)

abbrev ring : RuntimeInfo
ring = record both { unit_table = (db, ring_unit db web) ∷ (web, ring_unit web db) ∷ [] }

abbrev on_ring : UnitId → Bool
on_ring id = (db == id) || (web == id)

ring-db : get db ring.unit_table ≡ some (ring_unit db web)
unfolding get id_eq kind_eq
ring-db = refl

ring-web : get web ring.unit_table ≡ some (ring_unit web db)
unfolding get id_eq kind_eq
ring-web = refl

ring-IsEndless : IsEndless on_ring ring.unit_table
unfolding id_eq kind_eq contains
ring-IsEndless id on = elim (Bool-cases (db == id)) [
  | inl first ↦
      let same : db ≡ id = (eq_iff db id).0 first in
      (
        ring_unit db web,
        web,
        subst (λ i. get i ring.unit_table ≡ some (ring_unit db web)) same ring-db,
        refl,
        refl,
      )
  | inr other ↦
      let same : web ≡ id = (eq_iff web id).0 (ground arith) in
      (
        ring_unit web db,
        db,
        subst (λ i. get i ring.unit_table ≡ some (ring_unit web db)) same ring-web,
        refl,
        refl,
      )
]

deactivate_unit_recursive-ne_example :
    deactivate_unit_recursive working 9 db ring ≢ some (ok tt, ring)
unfolding id_eq kind_eq
deactivate_unit_recursive-ne_example =
    deactivate_unit_recursive-ne working on_ring 9 db ring ring ring-IsEndless refl
