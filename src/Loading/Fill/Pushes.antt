-- ===== src/Loading/Fill/Pushes.antt =====
-- What the pushes of `fill_dependencies` do to the edges.
use mathlib.Core.Option
use rustysd.Prelude.{
  subst, is_some, ◌≡◌, refl, ◌∙◌, inl, inr, Bool, true, false, ◌&&◌, ◌||◌, List, [], ◌∷◌, ◌++◌,
  Option, none, some, arith, contains, Bool-cases, ◌==◌, eq_iff,
}
use rustysd.Prelude.Map.{keys-modify, keys, get, contains_key, modify, get-modify, contains_key-get}
use rustysd.Prelude.Partial.{>>=-eq-some}
use rustysd.Units.Id.{UnitId, unit_id_eq}
use rustysd.Units.Unit.{UnitEntry}
use rustysd.Units.Runtime.{UnitTable}
use rustysd.Shutdown.Ends.{HasOwnKeys, HasOwnKeys-modify}
use rustysd.Loading.Edges.{EdgeKind, push, with_dependencies, linked, lists, edge_eq, contains-push}
use rustysd.Loading.Fill.{pair_to, pair_from, push_to, push_both, push_each}

abbrev pub has_pair : List (UnitId × UnitId) → UnitId → UnitId → Bool
has_pair [] a b = false
has_pair ((x, y) ∷ ps) a b = x == a && y == b || has_pair ps a b

pub has_pair-append :
    (ps qs : List (UnitId × UnitId)) (a b : UnitId)
    → has_pair (ps ++ qs) a b ≡ (has_pair ps a b || has_pair qs a b)
has_pair-append [] qs a b = refl
has_pair-append ((x, y) ∷ ps) qs a b = ground (arith, has_pair-append ps qs a b)

pub has_pair-pair_to :
    (own a b : UnitId) (ids : List UnitId)
    → has_pair (pair_to own ids) a b ≡ (own == b && contains ids a)
unfolding pair_to contains
has_pair-pair_to own a b [] = ground arith
has_pair-pair_to own a b (x ∷ ids) = ground (arith, has_pair-pair_to own a b ids)

pub has_pair-pair_from :
    (own a b : UnitId) (ids : List UnitId)
    → has_pair (pair_from own ids) a b ≡ (own == a && contains ids b)
unfolding pair_from contains
has_pair-pair_from own a b [] = ground arith
has_pair-pair_from own a b (x ∷ ids) = ground (arith, has_pair-pair_from own a b ids)

lists-push :
    (k k' : EdgeKind) (other b : UnitId) (o : Option UnitEntry)
    → lists k' b (Option.map (λ u. with_dependencies (push k other u.common.dependencies) u) o)
      ≡ (lists k' b o || is_some o && edge_eq k k' && other == b)
unfolding lists Option.map
lists-push k k' other b none = refl
lists-push k k' other b (some u) = ground (arith, contains-push k' k other b u.common.dependencies)

-- A push at one unit adds that edge and no other, and fails where the unit is missing.
record Pushed (id other : UnitId) (k : EdgeKind) (table table' : UnitTable) : Type 0 where
  pub present : contains_key id table ≡ true
  pub same_keys : keys table' ≡ keys table
  pub own_keys : HasOwnKeys table → HasOwnKeys table'
  pub added :
      (k' : EdgeKind) (a b : UnitId)
      → linked k' a b table' ≡ (linked k' a b table || edge_eq k k' && id == a && other == b)

push_to-Pushed :
    (id other : UnitId) (k : EdgeKind) (table table' : UnitTable)
    → push_to id k other table ≡ some table'
    → Pushed id other k table table'
unfolding push_to linked Option.map
push_to-Pushed id other k table table' e =
    let f = λ (u : UnitEntry). with_dependencies (push k other u.common.dependencies) u in
    elim (Bool-cases (contains_key id table)) [
      | inr missing ↦ absurd (ground arith)
      | inl there ↦
          let same : modify id f table ≡ table' = ground arith in
          subst (λ t. Pushed id other k table t) same
            (record {
              present = there;
              same_keys = keys-modify id f table;
              own_keys = HasOwnKeys-modify id f (λ u. refl) table;
              added = λ k' a b. ground (
                arith,
                eq_iff id a,
                contains_key-get id table,
                get-modify id a f table,
                lists-push k k' other b (get a table),
              );
            })
    ]

-- What a sequence of pushes does to every list, and that it keeps the keys.
pub record Extends (extra : EdgeKind → UnitId → UnitId → Bool) (table table' : UnitTable)
    : Type 0 where
  pub same_keys : keys table' ≡ keys table
  pub own_keys : HasOwnKeys table → HasOwnKeys table'
  pub added :
      (k : EdgeKind) (a b : UnitId) → linked k a b table' ≡ (linked k a b table || extra k a b)

abbrev pub both_ends :
    EdgeKind → EdgeKind → List (UnitId × UnitId) → EdgeKind → UnitId → UnitId → Bool
both_ends k k' pairs j a b = edge_eq k j && has_pair pairs b a || edge_eq k' j && has_pair pairs a b

abbrev pub one_end : EdgeKind → List (UnitId × UnitId) → EdgeKind → UnitId → UnitId → Bool
one_end k pairs j a b = edge_eq k j && has_pair pairs b a

pub push_both-Extends :
    (k k' : EdgeKind) (pairs : List (UnitId × UnitId)) (table table' : UnitTable)
    → push_both k k' pairs table ≡ some table'
    → Extends (both_ends k k' pairs) table table'
unfolding push_both
push_both-Extends k k' [] table table' e =
    let same : table ≡ table' = ground arith in
    subst (λ t. Extends (both_ends k k' []) table t) same
      (record { same_keys = refl; own_keys = λ h. h; added = λ j a b. ground arith })
push_both-Extends k k' ((target, source) ∷ pairs) table table' e =
    let (t, first, more) = >>=-eq-some (push_to source k target table) _ e in
    let (t', second, rest) = >>=-eq-some (push_to target k' source t) _ more in
    let p = push_to-Pushed source target k table t first in
    let q = push_to-Pushed target source k' t t' second in
    let r = push_both-Extends k k' pairs t' table' rest in
    record {
      same_keys = r.same_keys ∙ q.same_keys ∙ p.same_keys;
      own_keys = λ h. r.own_keys (q.own_keys (p.own_keys h));
      added = λ j a b. ground (arith, r.added j a b, q.added j a b, p.added j a b);
    }

pub push_each-Extends :
    (k : EdgeKind) (pairs : List (UnitId × UnitId)) (table table' : UnitTable)
    → push_each k pairs table ≡ some table'
    → Extends (one_end k pairs) table table'
unfolding push_each
push_each-Extends k [] table table' e =
    let same : table ≡ table' = ground arith in
    subst (λ t. Extends (one_end k []) table t) same
      (record { same_keys = refl; own_keys = λ h. h; added = λ j a b. ground arith })
push_each-Extends k ((other, id) ∷ pairs) table table' e =
    let (t, first, rest) = >>=-eq-some (push_to id k other table) _ e in
    let p = push_to-Pushed id other k table t first in
    let r = push_each-Extends k pairs t table' rest in
    record {
      same_keys = r.same_keys ∙ p.same_keys;
      own_keys = λ h. r.own_keys (p.own_keys h);
      added = λ j a b. ground (arith, r.added j a b, p.added j a b);
    }
