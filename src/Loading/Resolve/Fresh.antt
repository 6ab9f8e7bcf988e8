-- ===== src/Loading/Resolve/Fresh.antt =====
-- Units that were never started, while the edges of a table are made visible on both sides.
use rustysd.Prelude.{◌∙◌, ◌≡◌, refl, inl, inr, List, [], ◌∷◌, some, arith, Bool-cases, ◌==◌, subst}
use rustysd.Prelude.Map.{get, insert, remove, modify, map_values}
use rustysd.Prelude.Partial.{>>=-eq-some}
use rustysd.Units.Id.{UnitId, unit_id_eq}
use rustysd.Units.Status.{never_started}
use rustysd.Units.Unit.{UnitEntry}
use rustysd.Units.Runtime.{UnitTable}
use rustysd.Loading.Edges.{EdgeKind, push, with_dependencies}
use rustysd.Loading.Fill.{push_to, push_both, push_each, mirror_relations, note_units, no_relations}

-- No unit of the table was ever started.
abbrev pub AreFresh : UnitTable → Type 0
AreFresh [] = Unit
AreFresh ((_, u) ∷ table) = (u.common.status ≡ never_started) × AreFresh table

pub insert-AreFresh :
    (k : UnitId) (u : UnitEntry) (table : UnitTable)
    → u.common.status ≡ never_started
    → AreFresh table
    → AreFresh (insert k u table)
unfolding insert
insert-AreFresh k u [] e h = (e, tt)
insert-AreFresh k u ((j, v) ∷ table) e h = elim (Bool-cases (j == k)) [
  | inl same ↦ rw (same, insert) (e, h.1)
  | inr other ↦ rw (other, insert) (h.0, insert-AreFresh k u table e h.1)
]

pub remove-AreFresh : (k : UnitId) (table : UnitTable) → AreFresh table → AreFresh (remove k table)
unfolding remove
remove-AreFresh k [] h = tt
remove-AreFresh k ((j, v) ∷ table) h = elim (Bool-cases (j == k)) [
  | inl same ↦ rw (same, remove) (remove-AreFresh k table h.1)
  | inr other ↦ rw (other, remove) (h.0, remove-AreFresh k table h.1)
]

-- A change of a unit that leaves its status alone.
abbrev pub Quiet : (UnitEntry → UnitEntry) → Type 0
Quiet f = (u : UnitEntry) → (f u).common.status ≡ u.common.status

pub modify-AreFresh :
    (k : UnitId) (f : UnitEntry → UnitEntry)
    → Quiet f
    → (table : UnitTable) → AreFresh table
    → AreFresh (modify k f table)
unfolding modify
modify-AreFresh k f q [] h = tt
modify-AreFresh k f q ((j, v) ∷ table) h =
    let same = q v in (ground (arith, h.0), modify-AreFresh k f q table h.1)

pub map_values-AreFresh :
    (f : UnitEntry → UnitEntry)
    → Quiet f
    → (table : UnitTable) → AreFresh table
    → AreFresh (map_values f table)
unfolding map_values
map_values-AreFresh f q [] h = tt
map_values-AreFresh f q ((j, v) ∷ table) h = (q v ∙ h.0, map_values-AreFresh f q table h.1)

pub get-AreFresh :
    (k : UnitId) (u : UnitEntry) (table : UnitTable)
    → AreFresh table
    → get k table ≡ some u
    → u.common.status ≡ never_started
unfolding get
get-AreFresh k u [] h e = absurd (cc)
get-AreFresh k u ((j, v) ∷ table) h e = elim (Bool-cases (j == k)) [
  | inl same ↦ ground (arith, h.0)
  | inr other ↦ get-AreFresh k u table h.1 (ground arith)
]

push_to-AreFresh :
    (id other : UnitId) (k : EdgeKind) (table table' : UnitTable)
    → push_to id k other table ≡ some table'
    → AreFresh table
    → AreFresh table'
unfolding push_to
push_to-AreFresh id other k table table' e h =
    let f = λ (u : UnitEntry). with_dependencies (push k other u.common.dependencies) u in
    subst AreFresh (ground arith) (modify-AreFresh id f (λ u. refl) table h)

push_both-AreFresh :
    (k k' : EdgeKind) (pairs : List (UnitId × UnitId)) (table table' : UnitTable)
    → push_both k k' pairs table ≡ some table'
    → AreFresh table
    → AreFresh table'
unfolding push_both
push_both-AreFresh k k' [] table table' e h = subst AreFresh (ground arith) h
push_both-AreFresh k k' ((a, b) ∷ pairs) table table' e h =
    let (t, first, more) = >>=-eq-some (push_to b k a table) _ e in
    let (t', second, rest) = >>=-eq-some (push_to a k' b t) _ more in
    push_both-AreFresh k k' pairs t' table' rest
      (push_to-AreFresh a b k' t t' second (push_to-AreFresh b a k table t first h))

push_each-AreFresh :
    (k : EdgeKind) (pairs : List (UnitId × UnitId)) (table table' : UnitTable)
    → push_each k pairs table ≡ some table'
    → AreFresh table
    → AreFresh table'
unfolding push_each
push_each-AreFresh k [] table table' e h = subst AreFresh (ground arith) h
push_each-AreFresh k ((other, id) ∷ pairs) table table' e h =
    let (t, first, rest) = >>=-eq-some (push_to id k other table) _ e in
    push_each-AreFresh k pairs t table' rest (push_to-AreFresh id other k table t first h)

pub mirror_relations-AreFresh :
    (table table' : UnitTable)
    → mirror_relations table ≡ some table'
    → AreFresh table
    → AreFresh table'
unfolding mirror_relations
mirror_relations-AreFresh table table' e h =
    let r = note_units table no_relations in
    let (t, e1, m1) =
      >>=-eq-some (push_both EdgeKind.wants EdgeKind.wanted_by r.wanted_by table) _ e in
    let (t', e2, m2) =
      >>=-eq-some (push_both EdgeKind.requires EdgeKind.required_by r.required_by t) _ m1 in
    let (t'', e3, m3) = >>=-eq-some (push_each EdgeKind.before r.before t') _ m2 in
    push_each-AreFresh EdgeKind.after r.after t'' table' m3 (
      push_each-AreFresh EdgeKind.before r.before t' t'' e3 (
        push_both-AreFresh EdgeKind.requires EdgeKind.required_by r.required_by t t' e2
          (push_both-AreFresh EdgeKind.wants EdgeKind.wanted_by r.wanted_by table t e1 h)))
