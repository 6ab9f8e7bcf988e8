-- ===== src/Activation/Pool/Safety.antt =====
-- Whatever the order of the jobs, only needed units are touched, and no unit starts before what it needs.
use rustysd.Prelude.{
  ◌≡◌, ◌∙◌, refl, sym, subst, inl, inr, true, false, List, [], ◌∷◌, ◌++◌, Option, none, some, map,
  arith, contains, contains-retain, retain, All, All-append, Bool-cases, Option-cases, ◌==◌,
}
use rustysd.Prelude.Map.{get}
use rustysd.Units.Id.{UnitId, id_eq_iff, unit_id_eq}
use rustysd.Units.Status.{UnitStatus, UnitOperationError}
use rustysd.Units.Unit.{UnitEntry}
use rustysd.Units.Runtime.{RuntimeInfo, Result, ok, err, panic}
use rustysd.Units.Lifecycle.{Ops, regular, activate}
use rustysd.Units.Lifecycle.Frame.{SameStatus, lifecycle-SameStatus, lifecycle-SameConfig}
use rustysd.Units.Lifecycle.Orderly.{IsOrderly, activate-IsOrderly}
use rustysd.Deactivation.Stops.{IsKeyed, IsKeyed-Same}
use rustysd.Activation.Pool.{
  find_startable_units, started_next, activate_unit, Job, start, follow, Pool,
  activate_units_recursive, after_start, push_jobs, run_job, Step, take, Steps, end, then,
}

-- A job activates only a unit of the list.
abbrev pub IsFor : List UnitId → Job → Type 0
IsFor needed (start id) = contains needed id ≡ true
IsFor needed (follow ids) = Unit

-- What a run of the pool keeps, from the state `ri0` on.
pub record IsSafe (ri0 : RuntimeInfo) (p : Pool) : Type 0 where
  pub keyed : IsKeyed p.run_info.unit_table
  pub orderly : IsOrderly p.run_info.unit_table
  pub jobs : All (IsFor p.needed) p.jobs
  pub apart : (j : UnitId) → contains p.needed j ≡ false → SameStatus j ri0 p.run_info

-- One activation of a unit under the list.
record IsSafeStart (needed : List UnitId) (ri ri' : RuntimeInfo) : Type 0 where
  keyed : IsKeyed ri'.unit_table
  orderly : IsOrderly ri'.unit_table
  apart : (j : UnitId) → contains needed j ≡ false → SameStatus j ri ri'

pub started_next-state :
    (next : List UnitId) (r : Result UnitOperationError UnitStatus × RuntimeInfo)
    → (started_next next r).1 ≡ r.1
unfolding started_next
started_next-state next (ok st, ri) = refl
started_next-state next (err e, ri) = refl
started_next-state next (panic, ri) = refl

activate-IsSafeStart :
    (ops : Ops) (needed : List UnitId) (id : UnitId) (u : UnitEntry) (ri : RuntimeInfo)
    → contains needed id ≡ true
    → get id ri.unit_table ≡ some u
    → IsKeyed ri.unit_table
    → IsOrderly ri.unit_table
    → IsSafeStart needed ri (activate ops u regular ri).1
activate-IsSafeStart ops needed id u ri c found keyed orderly =
    let same = keyed id u found in
    let own : get u.id ri.unit_table ≡ some u =
      subst (λ i. get i ri.unit_table ≡ some u) (sym same) found in
    record {
      keyed =
          IsKeyed-Same ri (activate ops u regular ri).1
            (λ j. (lifecycle-SameConfig ops u regular ri j).0) keyed;
      orderly = activate-IsOrderly ops u ri own orderly;
      apart = λ j out.
          (lifecycle-SameStatus ops u regular ri j
            (differ j out (subst (λ i. contains needed i ≡ true) (sym same) c))).0;
    }
  where
    differ :
        (j : UnitId) → contains needed j ≡ false → contains needed u.id ≡ true → (u.id == j) ≡ false
    differ j out own = elim (Bool-cases (u.id == j)) [
      | inr other ↦ other
      | inl equal ↦
          let c = subst (λ i. contains needed i ≡ true) ((id_eq_iff u.id j).0 equal) own in
          absurd (ground arith)
    ]

activate_unit-IsSafeStart :
    (ops : Ops) (needed : List UnitId) (id : UnitId) (ri : RuntimeInfo)
    → contains needed id ≡ true
    → IsKeyed ri.unit_table
    → IsOrderly ri.unit_table
    → IsSafeStart needed ri (activate_unit ops id regular ri).1
unfolding activate_unit
activate_unit-IsSafeStart ops needed id ri c keyed orderly =
    elim (Option-cases (get id ri.unit_table)) [
      | inl lost ↦
          rw (lost, activate_unit)
            (record { keyed = keyed; orderly = orderly; apart = λ j out. refl })
      | inr (u, found) ↦
          rw (found, activate_unit)
            (subst (IsSafeStart needed ri)
              (sym (started_next-state u.common.dependencies.before (activate ops u regular ri)))
              (activate-IsSafeStart ops needed id u ri c found keyed orderly))
    ]

after_start-IsSafe :
    (ri0 : RuntimeInfo) (p : Pool) (r : Result UnitOperationError (List UnitId) × RuntimeInfo)
    → IsSafe ri0 p
    → IsSafeStart p.needed p.run_info r.1
    → IsSafe ri0 (after_start p r)
unfolding after_start
after_start-IsSafe ri0 p (ok next, ri) s t = record {
  keyed = t.keyed;
  orderly = t.orderly;
  jobs = All-append (IsFor p.needed) p.jobs (follow next ∷ []) s.jobs (tt, tt);
  apart = λ j out. t.apart j out ∙ s.apart j out;
}
after_start-IsSafe ri0 p (err e, ri) s t = record {
  keyed = t.keyed;
  orderly = t.orderly;
  jobs = s.jobs;
  apart = λ j out. t.apart j out ∙ s.apart j out;
}
after_start-IsSafe ri0 p (panic, ri) s t = record {
  keyed = t.keyed;
  orderly = t.orderly;
  jobs = s.jobs;
  apart = λ j out. t.apart j out ∙ s.apart j out;
}

All-start :
    (needed ids : List UnitId)
    → ((id : UnitId) → contains ids id ≡ true → contains needed id ≡ true)
    → All (IsFor needed) (map start ids)
unfolding contains
All-start needed [] h = tt
All-start needed (id ∷ ids) h =
    (h id (ground (arith, id_eq_iff id id)), All-start needed ids (λ j c. h j (ground arith)))

pub recursive-IsFor :
    (needed ids : List UnitId) (ri : RuntimeInfo) (jobs : List Job)
    → activate_units_recursive ids needed ri ≡ some jobs
    → All (IsFor needed) jobs
unfolding activate_units_recursive
recursive-IsFor needed ids ri jobs e =
    elim (Option-cases (find_startable_units ids ri.unit_table)) [
      | inl lost ↦ absurd (ground arith)
      | inr (startables, went) ↦
          let same : map start (retain (contains needed) startables) ≡ jobs = ground arith in
          subst (All (IsFor needed)) same (
            All-start needed (retain (contains needed) startables)
              (λ id c. ground (arith, contains-retain (contains needed) startables id)))
    ]

push_jobs-IsSafe :
    (ri0 : RuntimeInfo) (p : Pool) (o : Option (List Job))
    → IsSafe ri0 p
    → ((jobs : List Job) → o ≡ some jobs → All (IsFor p.needed) jobs)
    → IsSafe ri0 (push_jobs p o)
unfolding push_jobs
push_jobs-IsSafe ri0 p none s h = s
push_jobs-IsSafe ri0 p (some jobs) s h = record {
  keyed = s.keyed;
  orderly = s.orderly;
  jobs = All-append (IsFor p.needed) p.jobs jobs s.jobs (h jobs refl);
  apart = s.apart;
}

All-take :
    (needed : List UnitId) (before after : List Job) (job : Job)
    → All (IsFor needed) (before ++ job ∷ after)
    → All (IsFor needed) (before ++ after) × IsFor needed job
All-take needed [] after job h = (h.1, h.0)
All-take needed (x ∷ before) after job h =
    let (rest, own) = All-take needed before after job h.1 in ((h.0, rest), own)

run_job-IsSafe :
    (ops : Ops) (ri0 : RuntimeInfo) (job : Job) (p : Pool)
    → IsSafe ri0 p
    → IsFor p.needed job
    → IsSafe ri0 (run_job ops job p)
unfolding run_job
run_job-IsSafe ops ri0 (start id) p s own =
    after_start-IsSafe ri0 p _ s
      (activate_unit-IsSafeStart ops p.needed id p.run_info own s.keyed s.orderly)
run_job-IsSafe ops ri0 (follow ids) p s own =
    push_jobs-IsSafe ri0 p _ s (recursive-IsFor p.needed ids p.run_info)

Step-IsSafe :
    (ops : Ops) (ri0 : RuntimeInfo) {p q : Pool} → Step ops p q → IsSafe ri0 p → IsSafe ri0 q
Step-IsSafe ops ri0 (take {p} before after job e) s =
    let (rest, own) = All-take p.needed before after job (subst (All (IsFor p.needed)) e s.jobs) in
    run_job-IsSafe ops ri0 job (record p { jobs = before ++ after })
      (record { keyed = s.keyed; orderly = s.orderly; jobs = rest; apart = s.apart }) own

pub Steps-IsSafe :
    (ops : Ops) (ri0 : RuntimeInfo) {p q : Pool} → Steps ops p q → IsSafe ri0 p → IsSafe ri0 q
Steps-IsSafe ops ri0 end s = s
Steps-IsSafe ops ri0 (then steps step) s = Step-IsSafe ops ri0 step (Steps-IsSafe ops ri0 steps s)
