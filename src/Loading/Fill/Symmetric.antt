-- ===== src/Loading/Fill/Symmetric.antt =====
-- The pushes of `fill_dependencies` make the edges symmetric.
use rustysd.Prelude.{
  ◌≡◌, refl, ◌∙◌, false, ◌&&◌, ◌||◌, List, [], ◌∷◌, ◌++◌, some, arith, contains, ◌==◌, eq_iff,
  IsNodup,
}
use rustysd.Prelude.Map.{get, contains_key-get, keys, contains-keys}
use rustysd.Prelude.Partial.{>>=-eq-some}
use rustysd.Units.Id.{UnitId, unit_id_eq}
use rustysd.Units.Unit.{UnitEntry}
use rustysd.Units.Runtime.{UnitTable}
use rustysd.Shutdown.Ends.{HasOwnKeys}
use rustysd.Loading.Edges.{
  EdgeKind, wants, wanted_by, requires, required_by, before, after, edges, linked, lists, edge_eq,
  mirror,
}
use rustysd.Loading.Fill.Pushes.{
  has_pair, Extends, both_ends, one_end, push_both-Extends, push_each-Extends, has_pair-append,
  has_pair-pair_to, has_pair-pair_from,
}
use rustysd.Loading.Fill.{
  Relations, pair_to, pair_from, note_unit, note_units, push_both, push_each, no_relations,
  mirror_relations,
}

linked-nil : (k : EdgeKind) (a b : UnitId) → linked k a b [] ≡ false
unfolding linked lists get
linked-nil k a b = refl

-- Under distinct keys the edges of a table are those of its first unit and those of the others.
linked-cons :
    (k : EdgeKind) (j : UnitId) (u : UnitEntry) (table : UnitTable) (a b : UnitId)
    → contains (keys table) j ≡ false
    → linked k a b ((j, u) ∷ table)
      ≡ (j == a && contains (edges k u.common.dependencies) b || linked k a b table)
unfolding linked lists get
linked-cons k j u table a b fresh =
    ground (arith, eq_iff j a, contains-keys j table, contains_key-get j table)

record Noted (table : UnitTable) (r r' : Relations) (a b : UnitId) : Type 0 where
  wanted :
      has_pair r'.wanted_by a b
      ≡ (has_pair r.wanted_by a b || linked wants b a table || linked wanted_by a b table)
  required :
      has_pair r'.required_by a b
      ≡ (has_pair r.required_by a b || linked requires b a table || linked required_by a b table)
  comes_before : has_pair r'.before a b ≡ (has_pair r.before a b || linked after a b table)
  comes_after : has_pair r'.after a b ≡ (has_pair r.after a b || linked before a b table)

has_pair-noted :
    (ps : List (UnitId × UnitId)) (own a b : UnitId) (to from : List UnitId)
    → has_pair (ps ++ (pair_to own to ++ pair_from own from)) a b
      ≡ (has_pair ps a b || own == b && contains to a || own == a && contains from b)
has_pair-noted ps own a b to from = ground (
  arith,
  has_pair-append ps (pair_to own to ++ pair_from own from) a b,
  has_pair-append (pair_to own to) (pair_from own from) a b,
  has_pair-pair_to own a b to,
  has_pair-pair_from own a b from,
)

note_units-Noted :
    (table : UnitTable) (r : Relations) (a b : UnitId)
    → HasOwnKeys table
    → IsNodup (keys table)
    → Noted table r (note_units table r) a b
unfolding note_units note_unit keys edges
note_units-Noted [] r a b own distinct = record {
  wanted = ground (arith, linked-nil wants b a, linked-nil wanted_by a b);
  required = ground (arith, linked-nil requires b a, linked-nil required_by a b);
  comes_before = ground (arith, linked-nil after a b);
  comes_after = ground (arith, linked-nil before a b);
}
note_units-Noted ((j, u) ∷ table) r a b own distinct =
    let ih = note_units-Noted table (note_unit u r) a b own.1 distinct.1 in
    let d = u.common.dependencies in
    record {
      wanted = ground (
        arith,
        ih.wanted,
        own.0,
        has_pair-noted r.wanted_by u.id a b d.wants d.wanted_by,
        linked-cons wants j u table b a,
        linked-cons wanted_by j u table a b,
      );
      required = ground (
        arith,
        ih.required,
        own.0,
        has_pair-noted r.required_by u.id a b d.requires d.required_by,
        linked-cons requires j u table b a,
        linked-cons required_by j u table a b,
      );
      comes_before = ground (
        arith,
        ih.comes_before,
        own.0,
        has_pair-append r.before (pair_from u.id d.after) a b,
        has_pair-pair_from u.id a b d.after,
        linked-cons after j u table a b,
      );
      comes_after = ground (
        arith,
        ih.comes_after,
        own.0,
        has_pair-append r.after (pair_from u.id d.before) a b,
        has_pair-pair_from u.id a b d.before,
        linked-cons before j u table a b,
      );
    }

-- The four loops together.
added_by :
    (table t t' t'' table' : UnitTable) (r : Relations) (k : EdgeKind) (a b : UnitId)
    → Extends (both_ends wants wanted_by r.wanted_by) table t
    → Extends (both_ends requires required_by r.required_by) t t'
    → Extends (one_end before r.before) t' t''
    → Extends (one_end after r.after) t'' table'
    → Noted table no_relations r a b
    → Noted table no_relations r b a
    → linked k a b table' ≡ (linked k a b table || linked (mirror k) b a table)
unfolding edge_eq
added_by table t t' t'' table' r k a b x0 x1 x2 x3 n m =
    elim k as (λ k. linked k a b table' ≡ (linked k a b table || linked (mirror k) b a table)) [
      | wants ↦ ground (
        arith,
        x0.added wants a b,
        x1.added wants a b,
        x2.added wants a b,
        x3.added wants a b,
        m.wanted,
      )
      | wanted_by ↦ ground (
        arith,
        x0.added wanted_by a b,
        x1.added wanted_by a b,
        x2.added wanted_by a b,
        x3.added wanted_by a b,
        n.wanted,
      )
      | requires ↦ ground (
        arith,
        x0.added requires a b,
        x1.added requires a b,
        x2.added requires a b,
        x3.added requires a b,
        m.required,
      )
      | required_by ↦ ground (
        arith,
        x0.added required_by a b,
        x1.added required_by a b,
        x2.added required_by a b,
        x3.added required_by a b,
        n.required,
      )
      | before ↦ ground (
        arith,
        x0.added before a b,
        x1.added before a b,
        x2.added before a b,
        x3.added before a b,
        m.comes_before,
      )
      | after ↦ ground (
        arith,
        x0.added after a b,
        x1.added after a b,
        x2.added after a b,
        x3.added after a b,
        m.comes_after,
      )
    ]

-- The pushes make the edges symmetric: each list holds what it held, and what named its unit from the other
-- end. The units and their identifiers stay.
pub record IsFilled (table table' : UnitTable) : Type 0 where
  pub same_keys : keys table' ≡ keys table
  pub own_keys : HasOwnKeys table'
  pub edges_after :
      (k : EdgeKind) (a b : UnitId)
      → linked k a b table' ≡ (linked k a b table || linked (mirror k) b a table)

pub mirror_relations-IsFilled :
    (table table' : UnitTable)
    → HasOwnKeys table
    → IsNodup (keys table)
    → mirror_relations table ≡ some table'
    → IsFilled table table'
unfolding mirror_relations
mirror_relations-IsFilled table table' own distinct e =
    let r = note_units table no_relations in
    let (t, e0, m0) = >>=-eq-some (push_both wants wanted_by r.wanted_by table) _ e in
    let (t', e1, m1) = >>=-eq-some (push_both requires required_by r.required_by t) _ m0 in
    let (t'', e2, e3) = >>=-eq-some (push_each before r.before t') _ m1 in
    let x0 = push_both-Extends wants wanted_by r.wanted_by table t e0 in
    let x1 = push_both-Extends requires required_by r.required_by t t' e1 in
    let x2 = push_each-Extends before r.before t' t'' e2 in
    let x3 = push_each-Extends after r.after t'' table' e3 in
    record {
      same_keys = x3.same_keys ∙ x2.same_keys ∙ x1.same_keys ∙ x0.same_keys;
      own_keys = x3.own_keys (x2.own_keys (x1.own_keys (x0.own_keys own)));
      edges_after = λ k a b.
          let n = note_units-Noted table no_relations a b own distinct in
          let m = note_units-Noted table no_relations b a own distinct in
          added_by table t t' t'' table' r k a b x0 x1 x2 x3 n m;
    }
