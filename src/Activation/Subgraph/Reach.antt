-- ===== src/Activation/Subgraph/Reach.antt =====
-- The subgraph is what the given units reach along after, wants and requires.
use rustysd.Prelude.{
  Bool-cases, ℕ, zero, suc, ◌≡◌, ap, subst, ◌↔◌, inl, inr, true, not, ◌||◌, ◌&&◌, List, [], ◌∷◌,
  ◌++◌, some, arith, contains, contains-append, contains-retain, List-cases, Option-cases,
}
use rustysd.Prelude.Map.{get}
use rustysd.Prelude.Partial.{>>=-eq-some}
use rustysd.Units.Id.{UnitId, id_eq_iff, unit_id_eq}
use rustysd.Units.Unit.{UnitEntry}
use rustysd.Units.Runtime.{UnitTable}
use rustysd.Units.Dependencies.{sort_dedup}
use rustysd.Units.Dependencies.Laws.{contains-sort_dedup, contains-start}
use rustysd.Activation.Subgraph.{
  needs, gather, done, settle, unknown, collect, collect_unit_start_subgraph,
}

-- Starting `a` needs `b`: `b` is in one of the three edge lists of `a`.
pub record Pulls (table : UnitTable) (a b : UnitId) : Type 0 where
  pub unit : UnitEntry
  pub found : get a table ≡ some unit
  pub listed :
      (contains unit.common.dependencies.after b
        || contains unit.common.dependencies.wants b
        || contains unit.common.dependencies.requires b)
      ≡ true

-- `b` is needed, directly or not, to start one of `ids`.
pub data Reach (table : UnitTable) (ids : List UnitId) : UnitId → Type 0 where
  here : {a : UnitId} → contains ids a ≡ true → Reach table ids a
  step : {a b : UnitId} → Reach table ids a → Pulls table a b → Reach table ids b

contains-needs :
    (u : UnitEntry) (b : UnitId)
    → contains (needs u) b ≡ (
        contains u.common.dependencies.after b
        || contains u.common.dependencies.wants b
        || contains u.common.dependencies.requires b)
unfolding needs
contains-needs u b = contains-start u.common.dependencies b

-- What a successful gathering read.
record Gathered (table : UnitTable) (id : UnitId) (ids new : List UnitId) : Type 0 where
  unit : UnitEntry
  rest : List UnitId
  found : get id table ≡ some unit
  others : gather table ids ≡ some rest
  joined : needs unit ++ rest ≡ new

gather-cons :
    (table : UnitTable) (id : UnitId) (ids new : List UnitId)
    → gather table (id ∷ ids) ≡ some new
    → Gathered table id ids new
unfolding gather
gather-cons table id ids new e =
    let (unit, found, more) = >>=-eq-some (get id table) _ e in
    let (rest, others, last) = >>=-eq-some (gather table ids) _ more in
    record { unit = unit; rest = rest; found = found; others = others; joined = cc }

gather_sound :
    (table : UnitTable) (ids new : List UnitId) (b : UnitId)
    → gather table ids ≡ some new
    → contains new b ≡ true
    → (a : UnitId) × (contains ids a ≡ true) × Pulls table a b
unfolding gather contains
gather_sound table [] new b e c = absurd (ground arith)
gather_sound table (id ∷ ids) new b e c =
    let g = gather-cons table id ids new e in
    elim (Bool-cases (contains (needs g.unit) b)) [
      | inl own ↦ (
        id,
        ground (arith, id_eq_iff id id),
        record { unit = g.unit; found = g.found; listed = ground (arith, contains-needs g.unit b) },
      )
      | inr other ↦
          let here_b : contains (needs g.unit ++ g.rest) b ≡ true = rw g.joined c in
          let (a, m, p) =
            gather_sound table ids g.rest b g.others
              (ground (arith, contains-append (needs g.unit) g.rest b)) in
          (a, ground arith, p)
    ]

pub gather_complete :
    (table : UnitTable) (ids new : List UnitId) (a b : UnitId)
    → gather table ids ≡ some new
    → contains ids a ≡ true
    → Pulls table a b
    → contains new b ≡ true
unfolding contains
gather_complete table [] new a b e c p = absurd (cc)
gather_complete table (id ∷ ids) new a b e c p =
    let g = gather-cons table id ids new e in
    rw (← g.joined) (
      ground (
        arith,
        id_eq_iff id a,
        g.found,
        p.found,
        contains-needs p.unit b,
        contains-append (needs g.unit) g.rest b,
        gather_complete table ids g.rest a b g.others,
      ))

-- A round that ends the loop well: either nothing new was needed, or it goes on with the rest added.
data Round (fuel : ℕ) (table : UnitTable) (ids new out : List UnitId) : Type 0 where
  last : unknown ids new ≡ [] → ids ≡ out → Round fuel table ids new out
  more : collect fuel table (ids ++ unknown ids new) ≡ done out → Round fuel table ids new out

Round-inv :
    (fuel : ℕ) (table : UnitTable) (ids out : List UnitId)
    → collect (suc fuel) table ids ≡ done out
    → (new : List UnitId) × (gather table ids ≡ some new) × Round fuel table ids new out
unfolding collect settle
Round-inv fuel table ids out e = elim (Option-cases (gather table ids)) [
  | inl none_left ↦ absurd (ground arith)
  | inr (new, got) ↦ elim (List-cases (unknown ids new)) [
    | inl nothing ↦ (new, got, last nothing (ground arith))
    | inr (x, xs, fresh) ↦ (new, got, more (ground arith))
  ]
]

-- Nothing that the units of a list need is missing in it.
pub record IsSettled (table : UnitTable) (out : List UnitId) : Type 0 where
  pub new : List UnitId
  pub gathered : gather table out ≡ some new
  pub nothing : unknown out new ≡ []

-- The loop's rule: what a round keeps holds of the result, and the result is settled.
collect_ind {ℓ} :
    (table : UnitTable) (P : List UnitId → Type ℓ)
    → ((ids new : List UnitId) → gather table ids ≡ some new → P ids → P (ids ++ unknown ids new))
    → (fuel : ℕ) (ids out : List UnitId) → collect fuel table ids ≡ done out
    → P ids
    → P out × IsSettled table out
unfolding collect
collect_ind table P keep zero ids out e p = absurd (cc)
collect_ind table P keep (suc fuel) ids out e p =
    let (new, got, r) = Round-inv fuel table ids out e in
    by_round new got (collect_ind table P keep fuel (ids ++ unknown ids new) out) r
  where
    by_round :
        (new : List UnitId)
        → gather table ids ≡ some new
        → (collect fuel table (ids ++ unknown ids new) ≡ done out
            → P (ids ++ unknown ids new)
            → P out × IsSettled table out)
        → Round fuel table ids new out
        → P out × IsSettled table out
    by_round new got ih (last nothing same) =
        subst (λ l. P l × IsSettled table l) same
          (p, record { new = new; gathered = got; nothing = nothing })
    by_round new got ih (more rest) = ih rest (keep ids new got p)

pub contains-unknown :
    (ids new : List UnitId) (b : UnitId)
    → contains (unknown ids new) b ≡ (contains new b && not (contains ids b))
unfolding unknown
contains-unknown ids new b = ground (
  arith,
  contains-retain (λ id. not (contains ids id)) (sort_dedup new) b,
  contains-sort_dedup new b,
)

-- Elements that are added are needed by elements that were there.
Reach-grow :
    (table : UnitTable) (start ids new : List UnitId)
    → gather table ids ≡ some new
    → ((b : UnitId) → contains ids b ≡ true → Reach table start b)
    → (b : UnitId) → contains (ids ++ unknown ids new) b ≡ true
    → Reach table start b
Reach-grow table start ids new got h b c = elim (Bool-cases (contains ids b)) [
  | inl old ↦ h b old
  | inr fresh ↦
      let (a, m, p) =
        gather_sound table ids new b got
          (ground (arith, contains-append ids (unknown ids new) b, contains-unknown ids new b)) in
      step (h a m) p
]

IsSettled-closed :
    (table : UnitTable) (out : List UnitId)
    → IsSettled table out
    → (a b : UnitId) → contains out a ≡ true
    → Pulls table a b
    → contains out b ≡ true
unfolding contains
IsSettled-closed table out s a b c p = ground (
  arith,
  gather_complete table out s.new a b s.gathered c p,
  contains-unknown out s.new b,
  ap (λ l. contains l b) s.nothing,
)

Reach-closed :
    (table : UnitTable) (start out : List UnitId)
    → ((a : UnitId) → contains start a ≡ true → contains out a ≡ true)
    → IsSettled table out
    → {b : UnitId} → Reach table start b
    → contains out b ≡ true
Reach-closed table start out h s (here c) = h _ c
Reach-closed table start out h s (step r p) =
    IsSettled-closed table out s _ _ (Reach-closed table start out h s r) p

-- When the subgraph is collected, it holds exactly the given units and those that they reach along
-- after, wants and requires.
pub collect_unit_start_subgraph-Reach :
    (table : UnitTable) (ids out : List UnitId) (b : UnitId)
    → collect_unit_start_subgraph ids table ≡ done out
    → (contains out b ≡ true) ↔ Reach table ids b
unfolding collect_unit_start_subgraph
collect_unit_start_subgraph-Reach table ids out b e =
    let ((sound, full), settled) =
      collect_ind table
        (λ l.
          ((b : UnitId) → contains l b ≡ true → Reach table ids b)
          × ((b : UnitId) → contains ids b ≡ true → contains l b ≡ true))
        (λ l new got (sound, full). (
          Reach-grow table ids l new got sound,
          λ b c. ground (arith, contains-append l (unknown l new) b, full b c),
        ))
        _ ids out e ((λ b c. here c), (λ b c. c)) in
    (sound b, Reach-closed table ids out full settled)

-- The rounds end only when nothing that the collected units need is missing.
pub collect_unit_start_subgraph-IsSettled :
    (table : UnitTable) (ids out : List UnitId)
    → collect_unit_start_subgraph ids table ≡ done out
    → IsSettled table out
unfolding collect_unit_start_subgraph
collect_unit_start_subgraph-IsSettled table ids out e =
    (collect_ind table (λ l. Unit {0}) (λ l new got p. tt) _ ids out e tt).1
