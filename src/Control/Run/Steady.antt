-- ===== src/Control/Run/Steady.antt =====
-- The commands that start and stop units keep the order between started units.
use mathlib.Core.Option
use rustysd.Prelude.{
  ℕ, zero, suc, ◌≡◌, ◌≢◌, refl, ap, sym, ◌∙◌, subst, inl, inr, List, [], ◌∷◌, Option, none, some,
  arith, Option-cases,
}
use rustysd.Prelude.Map.{get}
use rustysd.Units.Id.{UnitId, unit_id_eq}
use rustysd.Units.Status.{UnitOperationError}
use rustysd.Units.Runtime.{RuntimeInfo, UnitTable, Result, ok, err, panic}
use rustysd.Units.Lifecycle.{Ops, regular, activate, deactivate}
use rustysd.Units.Lifecycle.Frame.{lifecycle-SameConfig}
use rustysd.Units.Lifecycle.Orderly.{
  IsOrderly, IsMirrored, activate-IsOrderly, deactivate-IsOrderly,
}
use rustysd.Activation.Pool.{
  activate_unit, Job, start, follow, Pool, activate_units_recursive, after_start, push_jobs,
  run_job,
}
use rustysd.Activation.Pool.Safety.{started_next-state}
use rustysd.Control.Execute.{pick, run_schedule}
use rustysd.Deactivation.{Bounded, and_then, for_each, deactivate_unit, deactivate_unit_recursive}
use rustysd.Deactivation.Fuel.{SameConfigs}
use rustysd.Deactivation.Stops.{IsKeyed, IsKeyed-Same}

-- The invariant of the running system.
pub record IsSteady (table : UnitTable) : Type 0 where
  pub keyed : IsKeyed table
  pub mirrored : IsMirrored table
  pub orderly : IsOrderly table

IsMirrored-Same :
    (ri ri' : RuntimeInfo)
    → SameConfigs ri ri'
    → IsMirrored ri.unit_table
    → IsMirrored ri'.unit_table
IsMirrored-Same ri ri' s mirrored id d deps u' e found c =
    let e0 = s id in
    let e1 = s d in
    elim (Option-cases (get d ri.unit_table)) [
      | inl lost ↦ absurd (ground arith)
      | inr (u, was) ↦ elim (Option-cases (get id ri.unit_table)) [
        | inl gone ↦ absurd (ground arith)
        | inr (v, there) ↦ elim (Option-cases (get id ri'.unit_table)) [
          | inl gone' ↦ absurd (ground arith)
          | inr (v', there') ↦
              let before : Option.map (λ w. w.common.dependencies) (get id ri.unit_table)
                  ≡ some deps =
                ground arith in
              let m = mirrored id d deps u before was c in ground arith
        ]
      ]
    ]

pub activate-IsSteady :
    (ops : Ops) (id : UnitId) (ri : RuntimeInfo)
    → IsSteady ri.unit_table
    → IsSteady (activate_unit ops id regular ri).1.unit_table
unfolding activate_unit
activate-IsSteady ops id ri st = elim (Option-cases (get id ri.unit_table)) [
  | inl lost ↦ rw (lost, activate_unit) st
  | inr (u, found) ↦
      let own : get u.id ri.unit_table ≡ some u =
        ap (λ i. get i ri.unit_table) (st.keyed id u found) ∙ found in
      let same = λ (j : UnitId). (lifecycle-SameConfig ops u regular ri j).0 in
      rw (found, activate_unit)
        (subst (λ r. IsSteady r.unit_table)
          (sym (started_next-state u.common.dependencies.before (activate ops u regular ri)))
          (record {
            keyed = IsKeyed-Same ri (activate ops u regular ri).1 same st.keyed;
            mirrored = IsMirrored-Same ri (activate ops u regular ri).1 same st.mirrored;
            orderly = activate-IsOrderly ops u ri own st.orderly;
          }))
]

-- What a call leaves, unless it panics.
abbrev pub Steady : Result UnitOperationError Unit × RuntimeInfo → Type 0
Steady (ok x, ri) = IsSteady ri.unit_table
Steady (err e, ri) = IsSteady ri.unit_table
Steady (panic, ri) = Unit {0}

abbrev pub SteadyIfDone : Option (Result UnitOperationError Unit × RuntimeInfo) → Type 0
SteadyIfDone none = Unit {0}
SteadyIfDone (some r) = Steady r

unless_panic :
    (r : Result UnitOperationError Unit × RuntimeInfo)
    → (r.0 ≢ panic → IsSteady r.1.unit_table)
    → Steady r
unless_panic (ok x, ri) h = h (λ e. cc)
unless_panic (err x, ri) h = h (λ e. cc)
unless_panic (panic, ri) h = tt

pub deactivate_unit-Steady :
    (ops : Ops) (id : UnitId) (ri : RuntimeInfo)
    → IsSteady ri.unit_table
    → Steady (deactivate_unit ops id ri)
unfolding deactivate_unit
deactivate_unit-Steady ops id ri st = elim (Option-cases (get id ri.unit_table)) [
  | inl lost ↦ rw (lost, deactivate_unit) st
  | inr (u, found) ↦
      let own : get u.id ri.unit_table ≡ some u =
        ap (λ i. get i ri.unit_table) (st.keyed id u found) ∙ found in
      let same = λ (j : UnitId). (lifecycle-SameConfig ops u regular ri j).1 in
      rw (found, deactivate_unit)
        (unless_panic (deactivate ops u ri) (λ calm. record {
          keyed = IsKeyed-Same ri (deactivate ops u ri).1 same st.keyed;
          mirrored = IsMirrored-Same ri (deactivate ops u ri).1 same st.mirrored;
          orderly = deactivate-IsOrderly ops u ri own st.mirrored calm st.orderly;
        }))
]

and_then-Steady :
    (o : Option (Result UnitOperationError Unit × RuntimeInfo)) (next : Bounded Unit)
    → SteadyIfDone o
    → ((mid : RuntimeInfo) → IsSteady mid.unit_table → SteadyIfDone (next mid))
    → SteadyIfDone (and_then o next)
unfolding and_then
and_then-Steady none next h k = tt
and_then-Steady (some (ok x, mid)) next h k = k mid h
and_then-Steady (some (err e, mid)) next h k = h
and_then-Steady (some (panic, mid)) next h k = tt

for_each-Steady :
    (step : UnitId → Bounded Unit) (ids : List UnitId) (ri : RuntimeInfo)
    → ((id : UnitId) (mid : RuntimeInfo) → IsSteady mid.unit_table → SteadyIfDone (step id mid))
    → IsSteady ri.unit_table
    → SteadyIfDone (for_each step ids ri)
unfolding for_each
for_each-Steady step [] ri h st = st
for_each-Steady step (id ∷ ids) ri h st =
    and_then-Steady (step id ri) (for_each step ids) (h id ri st)
      (λ mid s. for_each-Steady step ids mid h s)

pub recursive-Steady :
    (ops : Ops) (fuel : ℕ) (id : UnitId) (ri : RuntimeInfo)
    → IsSteady ri.unit_table
    → SteadyIfDone (deactivate_unit_recursive ops fuel id ri)
unfolding deactivate_unit_recursive
recursive-Steady ops zero id ri st = tt
recursive-Steady ops (suc fuel) id ri st = elim (Option-cases (get id ri.unit_table)) [
  | inl lost ↦ rw (lost, deactivate_unit_recursive) st
  | inr (u, found) ↦
      rw (found, deactivate_unit_recursive)
        (and_then-Steady
          (for_each (λ next. deactivate_unit_recursive ops fuel next)
            u.common.dependencies.required_by ri)
          (λ mid. some (deactivate_unit ops id mid))
          (for_each-Steady (deactivate_unit_recursive ops fuel) u.common.dependencies.required_by ri
            (recursive-Steady ops fuel) st)
          (λ mid s. deactivate_unit-Steady ops id mid s))
]

after_start-state :
    (p : Pool) (r : Result UnitOperationError (List UnitId) × RuntimeInfo)
    → (after_start p r).run_info ≡ r.1
unfolding after_start
after_start-state p (ok next, ri) = refl
after_start-state p (err e, ri) = refl
after_start-state p (panic, ri) = refl

push_jobs-state : (p : Pool) (o : Option (List Job)) → (push_jobs p o).run_info ≡ p.run_info
unfolding push_jobs
push_jobs-state p none = refl
push_jobs-state p (some jobs) = refl

run_job-IsSteady :
    (ops : Ops) (job : Job) (p : Pool)
    → IsSteady p.run_info.unit_table
    → IsSteady (run_job ops job p).run_info.unit_table
unfolding run_job
run_job-IsSteady ops (start id) p st =
    subst (λ r. IsSteady r.unit_table)
      (sym (after_start-state p (activate_unit ops id regular p.run_info)))
      (activate-IsSteady ops id p.run_info st)
run_job-IsSteady ops (follow ids) p st =
    subst (λ r. IsSteady r.unit_table)
      (sym (push_jobs-state p (activate_units_recursive ids p.needed p.run_info))) st

pub run_schedule-IsSteady :
    (ops : Ops) (schedule : List ℕ) (p : Pool)
    → IsSteady p.run_info.unit_table
    → IsSteady (run_schedule ops schedule p).run_info.unit_table
unfolding run_schedule
run_schedule-IsSteady ops [] p st = st
run_schedule-IsSteady ops (n ∷ schedule) p st = elim (Option-cases (pick n p.jobs)) [
  | inl nothing ↦ rw (nothing, run_schedule) (run_schedule-IsSteady ops schedule p st)
  | inr ((job, rest), chosen) ↦
      rw (chosen, run_schedule)
        (run_schedule-IsSteady ops schedule (run_job ops job (record p { jobs = rest }))
          (run_job-IsSteady ops job (record p { jobs = rest }) st))
]
