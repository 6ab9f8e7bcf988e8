-- ===== src/Loading/Sockets/Mirrored.antt =====
-- The match of all sockets with all services keeps the edges symmetric.
use rustysd.Prelude.{
  ap, ◌∙◌, ◌≡◌, sym, subst, true, false, List, some, arith, contains, if◌then◌else◌, ◌==◌, eq_iff,
  inl, inr, Option-cases, Bool-cases, All,
}
use rustysd.Prelude.Map.{get, insert, remove, get-insert, get-remove}
use rustysd.Units.Id.{UnitId, unit_id_eq}
use rustysd.Units.Unit.{UnitEntry, Specific, service, socket, target, SocketSpecific}
use rustysd.Units.Runtime.{UnitTable, ok}
use rustysd.Deactivation.Stops.{IsKeyed}
use rustysd.Loading.Edges.{EdgeKind, edges, mirror, linked, lists, with_dependencies, IsMirror}
use rustysd.Loading.Sockets.{Search, search_services, put_back, apply_specific, apply_socket}
use rustysd.Loading.Sockets.Turns.{
  Kept, search_services-Kept, back_linked, back_found, linked_found,
}

-- No edge is lost, they stay symmetric, and the units under their identifiers.
pub record Keeps (t t' : UnitTable) : Type 0 where
  pub grown : (k : EdgeKind) (a b : UnitId) → linked k a b t ≡ true → linked k a b t' ≡ true
  pub symmetric : IsMirror t → IsMirror t'
  pub keyed : IsKeyed t → IsKeyed t'

pub Keeps-refl : (t : UnitTable) → Keeps t t
Keeps-refl t = record { grown = λ k a b h. h; symmetric = λ h. h; keyed = λ h. h }

pub Keeps-trans : (t t' t'' : UnitTable) → Keeps t t' → Keeps t' t'' → Keeps t t''
Keeps-trans t t' t'' p q = record {
  grown = λ k a b h. q.grown k a b (p.grown k a b h);
  symmetric = λ h. q.symmetric (p.symmetric h);
  keyed = λ h. q.keyed (p.keyed h);
}

start_seen :
    (u : UnitEntry) (sock : SocketSpecific) (table : UnitTable) (k : EdgeKind) (a b : UnitId)
    → get u.id table ≡ some u
    → (if u.id == a
        then contains (edges k u.common.dependencies) b
        else linked k a b (remove u.id table))
      ≡ linked k a b table
unfolding linked
start_seen u sock table k a b found = elim (Bool-cases (u.id == a)) [
  | inl same ↦ ground (arith, eq_iff u.id a, linked_found k u.id b u table found)
  | inr other ↦ ground (arith, get-remove u.id a table)
]

insert_seen :
    (u : UnitEntry) (table : UnitTable) (k : EdgeKind) (a b : UnitId)
    → linked k a b (insert u.id u table)
      ≡ (if u.id == a then contains (edges k u.common.dependencies) b else linked k a b table)
unfolding linked lists
insert_seen u table k a b = elim (Bool-cases (u.id == a)) [
  | inl same ↦ ground (arith, get-insert u.id a u table)
  | inr other ↦ ground (arith, get-insert u.id a u table)
]

back_Keeps :
    (u : UnitEntry) (table : UnitTable)
    → get u.id table ≡ some u
    → Keeps table (insert u.id u (remove u.id table))
back_Keeps u table found =
    let same = λ (k : EdgeKind) (a b : UnitId). back_linked k u.id a b u table in
    record {
      grown =
          λ k a b h. ground (arith, same k a b, eq_iff u.id a, linked_found k u.id b u table found);
      symmetric = λ h k a b. ground (
        arith,
        same k a b,
        same (mirror k) b a,
        h k a b,
        eq_iff u.id a,
        eq_iff u.id b,
        linked_found k u.id b u table found,
        linked_found (mirror k) u.id a u table found,
      );
      keyed = λ h a v at_a. ground (arith, back_found u.id a u table, eq_iff u.id a, h a v);
    }

-- The socket goes back with what the search gave it.
put_back-Keeps :
    (u : UnitEntry) (sock : SocketSpecific) (table table' : UnitTable) (s : Search)
    → get u.id table ≡ some u
    → Kept u.id
        (record {
          sock_install = u.common.dependencies;
          sock_conf = sock.conf;
          counter = 0;
          table = remove u.id table;
        })
        s
    → put_back u sock s ≡ ok table'
    → Keeps table table'
unfolding put_back
put_back-Keeps u sock table table' s found kept e =
    let u' : UnitEntry = record (with_dependencies s.sock_install u) {
      specific = socket (record sock { conf = s.sock_conf });
    } in
    let same : insert u.id u' s.table ≡ table' = ground arith in
    subst (Keeps table) same (record {
      grown = λ k a b h.
          insert_seen u' s.table k a b ∙ kept.grown k a b (start_seen u sock table k a b found ∙ h);
      symmetric = λ h k a b.
          insert_seen u' s.table k a b
          ∙ kept.symmetric
              (λ j c d.
                start_seen u sock table j c d found
                ∙ h j c d
                ∙ sym (start_seen u sock table (mirror j) d c found))
              k a b
          ∙ sym (insert_seen u' s.table (mirror k) b a);
      keyed = λ h a v at_a. ground (
        arith,
        get-insert u.id a u' s.table,
        eq_iff u.id a,
        kept.keyed (λ c w at_c. ground (arith, get-remove u.id c table, h c w)) a v,
      );
    })

apply_specific-Keeps :
    (ids : List UnitId) (u : UnitEntry) (table table' : UnitTable) (sp : Specific)
    → All (λ id. (u.id == id) ≡ false) ids
    → IsKeyed table
    → get u.id table ≡ some u
    → apply_specific ids u.id u table sp ≡ ok table'
    → Keeps table table'
unfolding apply_specific
apply_specific-Keeps ids u table table' (service _) apart keyed found e =
    let same : insert u.id u (remove u.id table) ≡ table' = ground arith in
    subst (Keeps table) same (back_Keeps u table found)
apply_specific-Keeps ids u table table' (target _) apart keyed found e =
    let same : insert u.id u (remove u.id table) ≡ table' = ground arith in
    subst (Keeps table) same (back_Keeps u table found)
apply_specific-Keeps ids u table table' (socket sock) apart keyed found e =
    let start : Search = record {
      sock_install = u.common.dependencies;
      sock_conf = sock.conf;
      counter = 0;
      table = remove u.id table;
    } in
    elim (Option-cases (search_services u.id ids start)) [
      | inl stuck ↦ absurd (ground arith)
      | inr (s, went) ↦
          let keyed' : IsKeyed (remove u.id table) =
            λ a v at_a. ground (arith, get-remove u.id a table, keyed a v) in
          put_back-Keeps u sock table table' s found
            (search_services-Kept u.id ids start s apart keyed' went) (ground arith)
    ]

pub apply_socket-Keeps :
    (ids : List UnitId) (id : UnitId) (table table' : UnitTable)
    → All (λ j. (id == j) ≡ false) ids
    → IsKeyed table
    → apply_socket ids id table ≡ ok table'
    → Keeps table table'
unfolding apply_socket
apply_socket-Keeps ids id table table' apart keyed e = elim (Option-cases (get id table)) [
  | inl lost ↦ absurd (ground arith)
  | inr (u, found) ↦
      let own = keyed id u found in
      let went : apply_specific ids id u table u.specific ≡ ok table' = ground arith in
      apply_specific-Keeps ids u table table' u.specific
        (subst (λ i. All (λ j. (i == j) ≡ false) ids) (sym own) apart) keyed
        (ap (λ i. get i table) own ∙ found)
        (ap (λ i. apply_specific ids i u table u.specific) own ∙ went)
]
