-- ===== src/Activation/Pool/Needed.antt =====
-- Starting a target: what every order of the jobs has in common.
use rustysd.Prelude.{
  ◌≡◌, ◌∙◌, refl, sym, subst, inl, inr, false, List, [], ◌∷◌, Option, none, some, arith, contains,
  Bool-cases, Option-cases,
}
use rustysd.Units.Id.{UnitId, unit_id_eq}
use rustysd.Units.Status.{UnitOperationError}
use rustysd.Units.Runtime.{UnitTable, RuntimeInfo, Result, ok, err, panic}
use rustysd.Units.Lifecycle.{Ops}
use rustysd.Units.Lifecycle.Frame.{SameStatus}
use rustysd.Units.Lifecycle.Orderly.{IsOrderly}
use rustysd.Deactivation.Stops.{IsKeyed}
use rustysd.Activation.Subgraph.{
  Collected, done, panicked, out_of_fuel, collect_unit_start_subgraph,
}
use rustysd.Activation.Subgraph.Reach.{Reach, collect_unit_start_subgraph-Reach}
use rustysd.Activation.Pool.{
  find_startable_units, Job, start, follow, Pool, activate_units_recursive, after_start, push_jobs,
  run_job, take, Steps, end, then, first_jobs, activate_needed_units,
}
use rustysd.Activation.Pool.Safety.{IsSafe, recursive-IsFor, Steps-IsSafe}

after_start-needed :
    (p : Pool) (r : Result UnitOperationError (List UnitId) × RuntimeInfo)
    → (after_start p r).needed ≡ p.needed
unfolding after_start
after_start-needed p (ok next, ri) = refl
after_start-needed p (err e, ri) = refl
after_start-needed p (panic, ri) = refl

push_jobs-needed : (p : Pool) (o : Option (List Job)) → (push_jobs p o).needed ≡ p.needed
unfolding push_jobs
push_jobs-needed p none = refl
push_jobs-needed p (some jobs) = refl

run_job-needed : (ops : Ops) (job : Job) (p : Pool) → (run_job ops job p).needed ≡ p.needed
unfolding run_job
run_job-needed ops (start id) p = after_start-needed p _
run_job-needed ops (follow ids) p = push_jobs-needed p _

Steps-needed : (ops : Ops) {p q : Pool} → Steps ops p q → q.needed ≡ p.needed
Steps-needed ops end = refl
Steps-needed ops (then steps (take before after job e)) =
    run_job-needed ops job _ ∙ Steps-needed ops steps

-- How the pool begins.
record Begun (table : UnitTable) (target_id : UnitId) (ri : RuntimeInfo) (p : Pool) : Type 0 where
  safe : IsSafe ri p
  collected : collect_unit_start_subgraph (target_id ∷ []) table ≡ done p.needed

first_jobs-Begun :
    (target_id : UnitId) (ri : RuntimeInfo) (p : Pool) (c : Collected)
    → IsKeyed ri.unit_table
    → IsOrderly ri.unit_table
    → collect_unit_start_subgraph (target_id ∷ []) ri.unit_table ≡ c
    → first_jobs ri c ≡ some p
    → Begun ri.unit_table target_id ri p
unfolding first_jobs
first_jobs-Begun target_id ri p (done needed) keyed orderly c e =
    elim (Option-cases (find_startable_units needed ri.unit_table)) [
      | inl lost ↦ absurd (ground arith)
      | inr (roots, went) ↦ elim (Option-cases (activate_units_recursive roots needed ri)) [
        | inl lost ↦ absurd (ground arith)
        | inr (jobs, ran) ↦
            let begin : Pool = record {
              needed = needed;
              jobs = jobs;
              run_info = ri;
              errors = [];
            } in
            let same : begin ≡ p = ground arith in
            subst (Begun ri.unit_table target_id ri) same (record {
              safe = record {
                keyed = keyed;
                orderly = orderly;
                jobs = recursive-IsFor needed roots ri jobs ran;
                apart = λ j out. refl;
              };
              collected = c;
            })
      ]
    ]
first_jobs-Begun target_id ri p panicked keyed orderly c e = absurd (cc)
first_jobs-Begun target_id ri p out_of_fuel keyed orderly c e = absurd (cc)

-- Whatever the order in which the threads run the jobs, and after each of them: what a started unit
-- requires and comes after is started, if it was so before, and a unit that the target does not need,
-- directly or not, has the status that it had.
pub activate_needed_units-IsOrderly :
    (ops : Ops) (target_id : UnitId) (ri : RuntimeInfo) (p q : Pool)
    → IsKeyed ri.unit_table
    → IsOrderly ri.unit_table
    → activate_needed_units target_id ri ≡ some p
    → Steps ops p q
    → IsOrderly q.run_info.unit_table
      × ((j : UnitId) → ¬ Reach ri.unit_table (target_id ∷ []) j → SameStatus j ri q.run_info)
unfolding activate_needed_units
activate_needed_units-IsOrderly ops target_id ri p q keyed orderly e steps =
    let b = first_jobs-Begun target_id ri p _ keyed orderly refl e in
    let s = Steps-IsSafe ops ri steps b.safe in
    (
      s.orderly,
      λ j apart. s.apart j (
          subst (λ l. contains l j ≡ false) (sym (Steps-needed ops steps))
            (elim (Bool-cases (contains p.needed j)) [
              | inr out ↦ out
              | inl listed ↦ absurd (
                  apart (
                    (collect_unit_start_subgraph-Reach ri.unit_table (target_id ∷ []) p.needed j
                        b.collected).0
                      listed))
            ])),
    )
