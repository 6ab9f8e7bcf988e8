-- ===== src/Units/Lifecycle/Orderly.antt =====
-- The dependency invariant: what a started unit requires and comes after is started.
use mathlib.Core.Option
use rustysd.Prelude.{
  ◌≡◌, ◌≢◌, refl, sym, ◌∙◌, ◌⊎◌, inl, inr, Bool, true, false, not, ◌&&◌, some, arith, Bool-cases,
  ◌==◌, contains, subst,
}
use rustysd.Prelude.Map.{get}
use rustysd.Units.Id.{UnitId, id_eq_iff, unit_id_eq}
use rustysd.Units.Status.{is_stopped, starting, stopping, is_started, UnitOperationError}
use rustysd.Units.Dependencies.{Dependencies}
use rustysd.Units.Unit.{UnitEntry}
use rustysd.Units.Runtime.{UnitTable, RuntimeInfo, Result, ok, err, panic, status_of}
use rustysd.Units.Transitions.{
  Transition, allowed, blocked, panicked, state_transition_starting, state_transition_stopping,
  is_ready,
}
use rustysd.Units.Transitions.Guards.{
  Guarded, state_transition_starting-Guarded, state_transition_stopping-Guarded, ready_at,
  started_at,
}
use rustysd.Units.Lifecycle.{
  ActivationSource, regular, Ops, activate_from, activate, deactivate_from, deactivate,
  needs_activation,
}
use rustysd.Units.Lifecycle.Frame.{
  SameStatus, SameConfig, lifecycle-SameStatus, lifecycle-SameConfig,
}
use rustysd.Units.Lifecycle.Reports.{DeactivateReport, deactivate-Report}

-- What a started unit requires and comes after is started.
abbrev pub IsOrderly : UnitTable → Type 0
IsOrderly table =
    (id d : UnitId) (deps : Dependencies)
    → Option.map (λ u. u.common.dependencies) (get id table) ≡ some deps
    → started_at table id ≡ true
    → (contains deps.requires d && contains deps.after d) ≡ true
    → started_at table d ≡ true

-- A unit that is required knows by which units.
abbrev pub IsMirrored : UnitTable → Type 0
IsMirrored table =
    (id d : UnitId) (deps : Dependencies) (u : UnitEntry)
    → Option.map (λ v. v.common.dependencies) (get id table) ≡ some deps
    → get d table ≡ some u
    → contains deps.requires d ≡ true
    → contains u.common.dependencies.required_by id ≡ true

started_at-Same :
    (j : UnitId) (ri ri' : RuntimeInfo)
    → SameStatus j ri ri'
    → started_at ri'.unit_table j ≡ started_at ri.unit_table j
started_at-Same j ri ri' e = ground arith

deps-Same :
    (j : UnitId) (ri ri' : RuntimeInfo)
    → SameConfig j ri ri'
    → Option.map (λ u. u.common.dependencies) (get j ri'.unit_table)
      ≡ Option.map (λ u. u.common.dependencies) (get j ri.unit_table)
deps-Same j ri ri' e = ground arith

needed-not_started :
    (self : UnitEntry) (ri : RuntimeInfo)
    → get self.id ri.unit_table ≡ some self
    → needs_activation self.common.status regular ≡ true
    → started_at ri.unit_table self.id ≡ false
unfolding needs_activation status_of is_started
needed-not_started self ri found needed = ground arith

module _ (ops : Ops) (self : UnitEntry) (ri : RuntimeInfo)
    (found : get self.id ri.unit_table ≡ some self) where
  activate_from_cases :
      (source : ActivationSource) (in_the_way : UnitId → Bool) (t : Transition Unit)
      → Guarded self starting in_the_way ri t
      → ((activate_from ops self source t ri).1 ≡ ri) ⊎ ((d : UnitId) → in_the_way d ≡ false)
  unfolding activate_from
  activate_from_cases source in_the_way (allowed a ri') g = inr g.1
  activate_from_cases source in_the_way (blocked ids) g = inl refl
  activate_from_cases source in_the_way panicked g = inl refl

  -- A regular activation changes something only where the unit is not started and all is ready.
  activate_cases :
      ((activate ops self regular ri).1 ≡ ri)
      ⊎ ((started_at ri.unit_table self.id ≡ false)
          × ((d : UnitId)
              → (contains self.common.dependencies.after d
                  && not (ready_at ri.unit_table self.common.dependencies.requires d))
                ≡ false))
  unfolding activate
  activate_cases = elim (Bool-cases (needs_activation self.common.status regular)) [
    | inr idle ↦ inl (rw (idle, activate) refl)
    | inl needed ↦
        rw (needed, activate)
          (elim (activate_from_cases regular _ (state_transition_starting self ri)
            (state_transition_starting-Guarded self ri)) [
              | inl same ↦ inl same
              | inr ready ↦ inr (not_started needed, ready)
            ])
  ]
    where
      not_started :
          needs_activation self.common.status regular ≡ true
          → started_at ri.unit_table self.id ≡ false
      not_started needed = needed-not_started self ri found needed

  deactivate_from_cases :
      (in_the_way : UnitId → Bool) (t : Transition Unit)
      → Guarded self stopping in_the_way ri t
      → ((deactivate_from ops self t ri).1 ≡ ri) ⊎ ((d : UnitId) → in_the_way d ≡ false)
  unfolding deactivate_from
  deactivate_from_cases in_the_way (allowed a ri') g = inr g.1
  deactivate_from_cases in_the_way (blocked ids) g = inl refl
  deactivate_from_cases in_the_way panicked g = inl refl

  deactivate_cases :
      ((deactivate ops self ri).1 ≡ ri)
      ⊎ ((d : UnitId)
          → (contains self.common.dependencies.required_by d && started_at ri.unit_table d) ≡ false)
  unfolding deactivate
  deactivate_cases =
      let moved =
        deactivate_from_cases _ (state_transition_stopping self ri)
          (state_transition_stopping-Guarded self ri) in
      elim (Bool-cases (is_stopped self.common.status)) [
        | inl done ↦ inl (rw (done, deactivate) refl)
        | inr live ↦ rw (live, deactivate) moved
      ]

-- Whoever is ready and required is started.
ready-started :
    (table : UnitTable) (deps : Dependencies) (d : UnitId)
    → (contains deps.after d && not (ready_at table deps.requires d)) ≡ false
    → (contains deps.requires d && contains deps.after d) ≡ true
    → started_at table d ≡ true
unfolding is_ready
ready-started table deps d h c = ground arith

own-deps :
    (self : UnitEntry) (deps : Dependencies) (id : UnitId) (table : UnitTable)
    → get self.id table ≡ some self
    → self.id ≡ id
    → Option.map (λ u. u.common.dependencies) (get id table) ≡ some deps
    → self.common.dependencies ≡ deps
own-deps self deps id table found same e = ground arith

-- Where all is ready for a unit, what each unit that is started afterwards needs was started before.
needed-before :
    (self : UnitEntry) (ri ri' : RuntimeInfo) (id d : UnitId) (deps : Dependencies)
    → get self.id ri.unit_table ≡ some self
    → IsOrderly ri.unit_table
    → ((j : UnitId) → (self.id == j) ≡ false → SameStatus j ri ri')
    → ((d : UnitId)
        → (contains self.common.dependencies.after d
            && not (ready_at ri.unit_table self.common.dependencies.requires d))
          ≡ false)
    → Option.map (λ u. u.common.dependencies) (get id ri.unit_table) ≡ some deps
    → started_at ri'.unit_table id ≡ true
    → (contains deps.requires d && contains deps.after d) ≡ true
    → started_at ri.unit_table d ≡ true
needed-before self ri ri' id d deps found orderly keep ready e s c =
    elim (Bool-cases (self.id == id)) [
      | inl own ↦
          let same = (id_eq_iff self.id id).0 own in
          let mine = own-deps self deps id ri.unit_table found same e in
          ready-started ri.unit_table deps d
            (subst
              (λ (x : Dependencies).
                (contains x.after d && not (ready_at ri.unit_table x.requires d)) ≡ false)
              mine (ready d))
            c
      | inr other ↦ orderly id d deps e (sym (started_at-Same id ri ri' (keep id other)) ∙ s) c
    ]

still_started :
    (self : UnitEntry) (ri ri' : RuntimeInfo) (d : UnitId)
    → ((j : UnitId) → (self.id == j) ≡ false → SameStatus j ri ri')
    → started_at ri.unit_table self.id ≡ false
    → started_at ri.unit_table d ≡ true
    → started_at ri'.unit_table d ≡ true
still_started self ri ri' d keep idle s = elim (Bool-cases (self.id == d)) [
  | inl own ↦ absurd (
      differ (
        sym (
          subst (λ (x : UnitId). started_at ri.unit_table x ≡ false) ((id_eq_iff self.id d).0 own)
            idle)
        ∙ s))
  | inr other ↦ started_at-Same d ri ri' (keep d other) ∙ s
]
  where
    differ : false ≡ true → ⊥
    differ h = cc

-- A regular activation keeps the invariant, whatever it returns.
pub activate-IsOrderly :
    (ops : Ops) (self : UnitEntry) (ri : RuntimeInfo)
    → get self.id ri.unit_table ≡ some self
    → IsOrderly ri.unit_table
    → IsOrderly (activate ops self regular ri).1.unit_table
activate-IsOrderly ops self ri found orderly id d deps e s c =
    let ri' = (activate ops self regular ri).1 in
    let keep = λ (j : UnitId) (h : (self.id == j) ≡ false).
      (lifecycle-SameStatus ops self regular ri j h).0 in
    elim (activate_cases ops self ri found) [
      | inl same ↦
          subst (λ r. started_at r.unit_table d ≡ true) (sym same)
            (orderly id d deps (rw same at e) (rw same at s) c)
      | inr (idle, ready) ↦ still_started self ri ri' d keep idle (
          needed-before self ri ri' id d deps found orderly keep ready
            (sym (deps-Same id ri ri' (lifecycle-SameConfig ops self regular ri id).0) ∙ e) s c)
    ]

-- The unit is not started after a `deactivate` that changed something and did not panic.
stopped_self :
    (self : UnitEntry) (ri : RuntimeInfo) (r : Result UnitOperationError Unit × RuntimeInfo)
    → DeactivateReport self ri r
    → r.0 ≢ panic
    → (r.1 ≡ ri) ⊎ (started_at r.1.unit_table self.id ≡ false)
unfolding is_started
stopped_self self ri (ok _, ri') (how, reasons, e) h = inr (ground arith)
stopped_self self ri (err x, ri') (inl (ids, _, same)) h = inl same
stopped_self self ri (err x, ri') (inr e) h = inr (ground arith)
stopped_self self ri (panic, ri') r h = absurd (h refl)

-- Nothing that is started requires a unit that may be stopped.
unneeded :
    (self : UnitEntry) (table : UnitTable) (id d : UnitId) (deps : Dependencies)
    → get self.id table ≡ some self
    → IsMirrored table
    → ((d : UnitId)
        → (contains self.common.dependencies.required_by d && started_at table d) ≡ false)
    → Option.map (λ u. u.common.dependencies) (get id table) ≡ some deps
    → started_at table id ≡ true
    → contains deps.requires d ≡ true
    → (self.id == d) ≡ false
unneeded self table id d deps found mirrored free e s c = elim (Bool-cases (self.id == d)) [
  | inr other ↦ other
  | inl own ↦
      let same = (id_eq_iff self.id d).0 own in
      let back =
        mirrored id self.id deps self e found
          (subst (λ x. contains deps.requires x ≡ true) (sym same) c) in
      let f = free id in ground arith
]

-- Where the edges go both ways, a deactivation that does not panic keeps the invariant.
pub deactivate-IsOrderly :
    (ops : Ops) (self : UnitEntry) (ri : RuntimeInfo)
    → get self.id ri.unit_table ≡ some self
    → IsMirrored ri.unit_table
    → (deactivate ops self ri).0 ≢ panic
    → IsOrderly ri.unit_table
    → IsOrderly (deactivate ops self ri).1.unit_table
deactivate-IsOrderly ops self ri found mirrored calm orderly id d deps e s c =
    let ri' = (deactivate ops self ri).1 in
    let keep = λ (j : UnitId) (h : (self.id == j) ≡ false).
      (lifecycle-SameStatus ops self regular ri j h).1 in
    let e' = sym (deps-Same id ri ri' (lifecycle-SameConfig ops self regular ri id).1) ∙ e in
    elim (stopped_self self ri (deactivate ops self ri) (deactivate-Report ops self ri found)
      calm) [
        | inl same ↦
            subst (λ r. started_at r.unit_table d ≡ true) (sym same)
              (orderly id d deps (rw same at e) (rw same at s) c)
        | inr down ↦ elim (deactivate_cases ops self ri found) [
          | inl same ↦
              subst (λ r. started_at r.unit_table d ≡ true) (sym same)
                (orderly id d deps (rw same at e) (rw same at s) c)
          | inr free ↦
              let other : (self.id == id) ≡ false = ground (arith, id_eq_iff self.id id) in
              let s' = sym (started_at-Same id ri ri' (keep id other)) ∙ s in
              let other_d =
                unneeded self ri.unit_table id d deps found mirrored free e' s' (ground arith) in
              started_at-Same d ri ri' (keep d other_d) ∙ orderly id d deps e' s' c
        ]
      ]
