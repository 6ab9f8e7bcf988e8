-- ===== src/Loading/Sockets/Turns.antt =====
-- The search for the services of a socket keeps the edges of the whole system symmetric.
use rustysd.Prelude.{
  ap, ◌∙◌, ◌≡◌, refl, subst, Bool, true, false, ◌&&◌, ◌||◌, List, [], ◌∷◌, Option, some, arith,
  contains, if◌then◌else◌, ◌==◌, eq_iff, inl, inr, Option-cases, All,
}
use rustysd.Prelude.Map.{get, insert, remove, get-insert, get-remove}
use rustysd.Units.Id.{UnitId, unit_id_eq}
use rustysd.Units.Unit.{UnitEntry, Specific, service, socket, target}
use rustysd.Units.Runtime.{UnitTable}
use rustysd.Deactivation.Stops.{IsKeyed}
use rustysd.Loading.Edges.{
  EdgeKind, wants, wanted_by, requires, required_by, before, after, edges, mirror, linked, lists,
  with_dependencies,
}
use rustysd.Loading.Sockets.{
  search_specific, match_service, matched, Search, search_service, search_services,
}
use rustysd.Loading.Sockets.Joined.{to_socket, match_service-Joined}

-- The edges while the socket is out of the table.
abbrev pub seen : UnitId → EdgeKind → UnitId → UnitId → Search → Bool
seen sock_id k a b s =
    if sock_id == a then contains (edges k s.sock_install) b else linked k a b s.table

-- No edge is lost, they stay symmetric, and the units under their identifiers.
pub record Kept (sock_id : UnitId) (s s' : Search) : Type 0 where
  pub grown :
      (k : EdgeKind) (a b : UnitId) → seen sock_id k a b s ≡ true → seen sock_id k a b s' ≡ true
  pub symmetric :
      ((k : EdgeKind) (a b : UnitId) → seen sock_id k a b s ≡ seen sock_id (mirror k) b a s)
      → (k : EdgeKind) (a b : UnitId) → seen sock_id k a b s' ≡ seen sock_id (mirror k) b a s'
  pub keyed : IsKeyed s.table → IsKeyed s'.table

pub Kept-refl : (sock_id : UnitId) (s : Search) → Kept sock_id s s
Kept-refl sock_id s = record { grown = λ k a b h. h; symmetric = λ h. h; keyed = λ h. h }

pub Kept-trans :
    (sock_id : UnitId) (s s' s'' : Search)
    → Kept sock_id s s'
    → Kept sock_id s' s''
    → Kept sock_id s s''
Kept-trans sock_id s s' s'' p q = record {
  grown = λ k a b h. q.grown k a b (p.grown k a b h);
  symmetric = λ h. q.symmetric (p.symmetric h);
  keyed = λ h. q.keyed (p.keyed h);
}

-- What the turn of one service does: the edges between it and the socket, or none.
record Turn (sock_id id : UnitId) (s s' : Search) : Type 0 where
  joined : Bool
  seen_after :
      (k : EdgeKind) (a b : UnitId)
      → seen sock_id k a b s' ≡ (
          seen sock_id k a b s
          || joined
            && ((to_socket k && id == a && sock_id == b)
                || (to_socket (mirror k) && sock_id == a && id == b)))
  entry : UnitEntry
  entry_id : entry.id ≡ id
  found_after : (a : UnitId) → get a s'.table ≡ (if id == a then some entry else get a s.table)

Turn-Kept : (sock_id id : UnitId) (s s' : Search) → Turn sock_id id s s' → Kept sock_id s s'
Turn-Kept sock_id id s s' t = record {
  grown = λ k a b h. ground (arith, t.seen_after k a b);
  symmetric = λ h k a b. both_sides h k a b;
  keyed = λ h a u found. ground (arith, t.found_after a, eq_iff id a, h a u, t.entry_id);
}
  where
    both_sides :
        ((k : EdgeKind) (a b : UnitId) → seen sock_id k a b s ≡ seen sock_id (mirror k) b a s)
        → (k : EdgeKind) (a b : UnitId) → seen sock_id k a b s' ≡ seen sock_id (mirror k) b a s'
    both_sides h wants a b =
        ground (arith, h wants a b, t.seen_after wants a b, t.seen_after wanted_by b a)
    both_sides h wanted_by a b =
        ground (arith, h wanted_by a b, t.seen_after wanted_by a b, t.seen_after wants b a)
    both_sides h requires a b =
        ground (arith, h requires a b, t.seen_after requires a b, t.seen_after required_by b a)
    both_sides h required_by a b =
        ground (arith, h required_by a b, t.seen_after required_by a b, t.seen_after requires b a)
    both_sides h before a b =
        ground (arith, h before a b, t.seen_after before a b, t.seen_after after b a)
    both_sides h after a b =
        ground (arith, h after a b, t.seen_after after a b, t.seen_after before b a)

pub back_found :
    (id a : UnitId) (u' : UnitEntry) (table : UnitTable)
    → get a (insert id u' (remove id table)) ≡ (if id == a then some u' else get a table)
back_found id a u' table =
    ground (arith, get-insert id a u' (remove id table), get-remove id a table)

lists-if :
    (c : Bool) (k : EdgeKind) (b : UnitId) (u : UnitEntry) (o : Option UnitEntry)
    → lists k b (if c then some u else o)
      ≡ (if c then contains (edges k u.common.dependencies) b else lists k b o)
unfolding lists
lists-if true k b u o = refl
lists-if false k b u o = refl

-- A unit goes back under its own identifier, perhaps with other edges.
pub back_linked :
    (k : EdgeKind) (id a b : UnitId) (u' : UnitEntry) (table : UnitTable)
    → linked k a b (insert id u' (remove id table))
      ≡ (if id == a then contains (edges k u'.common.dependencies) b else linked k a b table)
unfolding linked
back_linked k id a b u' table =
    ap (lists k b) (back_found id a u' table) ∙ lists-if (id == a) k b u' (get a table)

-- The edges of a unit that is found.
pub linked_found :
    (k : EdgeKind) (a b : UnitId) (u : UnitEntry) (table : UnitTable)
    → get a table ≡ some u
    → linked k a b table ≡ contains (edges k u.common.dependencies) b
unfolding linked lists
linked_found k a b u table found = rw found refl

put_back-Turn :
    (sock_id : UnitId) (u : UnitEntry) (s : Search)
    → get u.id s.table ≡ some u
    → (sock_id == u.id) ≡ false
    → Turn sock_id u.id s (record s { table = insert u.id u (remove u.id s.table) })
put_back-Turn sock_id u s found apart = record {
  joined = false;
  seen_after = λ k a b. ground (
    arith,
    eq_iff u.id a,
    back_linked k u.id a b u s.table,
    linked_found k u.id b u s.table found,
  );
  entry = u;
  entry_id = refl;
  found_after = λ a. back_found u.id a u s.table;
}

search_specific-Turn :
    (sock_id : UnitId) (u : UnitEntry) (s : Search) (sp : Specific)
    → get u.id s.table ≡ some u
    → (sock_id == u.id) ≡ false
    → Turn sock_id u.id s (search_specific sock_id u.id u s sp)
unfolding search_specific matched
search_specific-Turn sock_id u s (socket _) found apart = put_back-Turn sock_id u s found apart
search_specific-Turn sock_id u s (target _) found apart = put_back-Turn sock_id u s found apart
search_specific-Turn sock_id u s (service srvc) found apart =
    let m = match_service u srvc sock_id (matched u srvc s) in
    let j = match_service-Joined u srvc sock_id (matched u srvc s) in
    let u' : UnitEntry = record (with_dependencies m.srvc_install u) {
      specific = service (record srvc { conf = m.srvc_conf });
    } in
    record {
      joined = j.joined;
      seen_after = λ k a b. ground (
        arith,
        eq_iff u.id a,
        eq_iff sock_id a,
        back_linked k u.id a b u' s.table,
        linked_found k u.id b u s.table found,
        j.srvc_side k b,
        j.sock_side k b,
      );
      entry = u';
      entry_id = refl;
      found_after = λ a. back_found u.id a u' s.table;
    }

search_service-Kept :
    (sock_id id : UnitId) (u : UnitEntry) (s : Search)
    → get id s.table ≡ some u
    → u.id ≡ id
    → (sock_id == id) ≡ false
    → Kept sock_id s (search_service sock_id id u s)
unfolding search_service
search_service-Kept sock_id id u s found own apart =
    subst (λ j. Kept sock_id s (search_specific sock_id j u s u.specific)) own
      (Turn-Kept sock_id u.id s (search_specific sock_id u.id u s u.specific) (
        search_specific-Turn sock_id u s u.specific (ap (λ j. get j s.table) own ∙ found)
          (ap (λ j. sock_id == j) own ∙ apart)))

-- The whole search, among services that are not the socket.
pub search_services-Kept :
    (sock_id : UnitId) (ids : List UnitId) (s s' : Search)
    → All (λ id. (sock_id == id) ≡ false) ids
    → IsKeyed s.table
    → search_services sock_id ids s ≡ some s'
    → Kept sock_id s s'
unfolding search_services
search_services-Kept sock_id [] s s' apart keyed e =
    let same : s ≡ s' = ground arith in subst (Kept sock_id s) same (Kept-refl sock_id s)
search_services-Kept sock_id (id ∷ ids) s s' apart keyed e = elim (Option-cases (get id s.table)) [
  | inl lost ↦ absurd (ground arith)
  | inr (u, found) ↦
      let next = search_service sock_id id u s in
      let p = search_service-Kept sock_id id u s found (keyed id u found) apart.0 in
      let rest : search_services sock_id ids next ≡ some s' = ground arith in
      Kept-trans sock_id s next s' p
        (search_services-Kept sock_id ids next s' apart.1 (p.keyed keyed) rest)
]
