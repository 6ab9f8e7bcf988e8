-- ===== src/SanityCheck/Rounds.antt =====
-- Each search of the check finishes a unit of the table.
use rustysd.Prelude.{
  ℕ, zero, suc, ◌≡◌, refl, inl, inr, true, false, not, ◌&&◌, ◌||◌, List, [], ◌∷◌, ◌++◌, arith,
  contains, contains-append, contains-retain, Bool-cases, Option-cases, ◌==◌,
}
use rustysd.Prelude.Map.{get, contains_key, contains_key-get}
use rustysd.Units.Id.{UnitId, id_eq_iff, unit_id_eq}
use rustysd.Units.Runtime.{UnitTable}
use rustysd.SanityCheck.{
  Progress, finish, finish_all, Search, fine, circle, panicked, out_of_fuel, then_search,
  search_all, from_first, search_backedge,
}

-- `not_finished` holds exactly the units of the table that are not finished.
abbrev pub IsExact : UnitTable → Progress → Type 0
IsExact table p =
    (j : UnitId) → contains p.not_finished j ≡ (contains_key j table && not (contains p.finished j))

-- What is finished stays so, and the two lists stay exact.
pub record Grown (table : UnitTable) (p p' : Progress) : Type 0 where
  pub still : (j : UnitId) → contains p.finished j ≡ true → contains p'.finished j ≡ true
  pub exact : IsExact table p → IsExact table p'

Grown-refl : (table : UnitTable) (p : Progress) → Grown table p p
Grown-refl table p = record { still = λ j c. c; exact = λ h. h }

Grown-trans :
    (table : UnitTable) (p q r : Progress) → Grown table p q → Grown table q r → Grown table p r
Grown-trans table p q r h k = record {
  still = λ j c. k.still j (h.still j c);
  exact = λ x. k.exact (h.exact x);
}

Grown-finish : (table : UnitTable) (id : UnitId) (p : Progress) → Grown table p (finish id p)
unfolding finish contains
Grown-finish table id p = record {
  still = λ j c. ground arith;
  exact = λ x j.
      let e = x j in
      ground (
        arith,
        contains-retain (λ i. not (i == id)) p.not_finished j,
        id_eq_iff id j,
        id_eq_iff j id,
      );
}

Grown-finish_all :
    (table : UnitTable) (ids : List UnitId) (p : Progress) → Grown table p (finish_all ids p)
unfolding finish_all
Grown-finish_all table [] p = Grown-refl table p
Grown-finish_all table (id ∷ ids) p =
    Grown-trans table p (finish id p) _ (Grown-finish table id p)
      (Grown-finish_all table ids (finish id p))

-- A unit of the table is newly finished.
pub record Newly (table : UnitTable) (p p' : Progress) : Type 0 where
  pub unit : UnitId
  pub known : contains_key unit table ≡ true
  pub before : contains p.finished unit ≡ false
  pub now : contains p'.finished unit ≡ true

abbrev pub Advances : UnitTable → Progress → UnitId → Search → Type 0
Advances table p id (fine p') = Grown table p p' × (contains p'.finished id ≡ true)
Advances table p id (circle c p') = Grown table p p' × Newly table p p'
Advances table p id panicked = Unit
Advances table p id out_of_fuel = Unit

abbrev AllAdvance : UnitTable → Progress → Search → Type 0
AllAdvance table p (fine p') = Grown table p p'
AllAdvance table p (circle c p') = Grown table p p' × Newly table p p'
AllAdvance table p panicked = Unit
AllAdvance table p out_of_fuel = Unit

Newly-after :
    (table : UnitTable) (p q r : Progress) → Grown table p q → Newly table q r → Newly table p r
Newly-after table p q r g n =
    let old = g.still n.unit in
    let off = n.before in
    record { unit = n.unit; known = n.known; before = ground (arith, old); now = n.now }

after-Grown :
    (table : UnitTable) (p q : Progress) (s : Search)
    → Grown table p q
    → AllAdvance table q s
    → AllAdvance table p s
after-Grown table p q (fine r) g h = Grown-trans table p q r g h
after-Grown table p q (circle c r) g h =
    (Grown-trans table p q r g h.0, Newly-after table p q r g h.1)
after-Grown table p q panicked g h = tt
after-Grown table p q out_of_fuel g h = tt

then_search-AllAdvance :
    (table : UnitTable) (p : Progress) (id : UnitId) (s : Search) (next : Progress → Search)
    → Advances table p id s
    → ((q : Progress) → AllAdvance table q (next q))
    → AllAdvance table p (then_search s next)
unfolding then_search
then_search-AllAdvance table p id (fine q) next h k = after-Grown table p q (next q) h.0 (k q)
then_search-AllAdvance table p id (circle c q) next h k = h
then_search-AllAdvance table p id panicked next h k = tt
then_search-AllAdvance table p id out_of_fuel next h k = tt

search_all-AllAdvance :
    (table : UnitTable) (search : UnitId → Progress → Search)
    → ((id : UnitId) (q : Progress) → Advances table q id (search id q))
    → (ids : List UnitId) (p : Progress) → AllAdvance table p (search_all search ids p)
unfolding search_all
search_all-AllAdvance table search h [] p = Grown-refl table p
search_all-AllAdvance table search h (id ∷ ids) p =
    then_search-AllAdvance table p id (search id p) (search_all search ids) (h id p)
      (search_all-AllAdvance table search h ids)

finish-Advances :
    (table : UnitTable) (p : Progress) (id : UnitId) (s : Search)
    → AllAdvance table p s
    → Advances table p id (then_search s (λ q. fine (finish id q)))
unfolding then_search finish contains
finish-Advances table p id (fine q) h =
    (Grown-trans table p q _ h (Grown-finish table id q), ground (arith, id_eq_iff id id))
finish-Advances table p id (circle c q) h = h
finish-Advances table p id panicked h = tt
finish-Advances table p id out_of_fuel h = tt

contains-from_first :
    (id : UnitId) (visited : List UnitId)
    → contains visited id ≡ true
    → contains (from_first id visited) id ≡ true
unfolding contains from_first
contains-from_first id [] c = cc
contains-from_first id (x ∷ xs) c = ground (arith, contains-from_first id xs)

contains-finish_all :
    (ids : List UnitId) (p : Progress) (j : UnitId)
    → contains (finish_all ids p).finished j ≡ (contains ids j || contains p.finished j)
unfolding finish_all finish contains
contains-finish_all [] p j = refl
contains-finish_all (id ∷ ids) p j = ground (arith, contains-finish_all ids (finish id p) j)

pub backedge-Advances :
    (fuel : ℕ) (table : UnitTable) (visited : List UnitId) (id : UnitId) (p : Progress)
    → ((j : UnitId) → contains visited j ≡ true → contains_key j table ≡ true)
    → Advances table p id (search_backedge fuel table visited id p)
unfolding search_backedge contains
backedge-Advances zero table visited id p known = tt
backedge-Advances (suc fuel) table visited id p known = elim (Bool-cases (contains p.finished id)) [
  | inl old ↦ rw (old, search_backedge) (Grown-refl table p, old)
  | inr new ↦ elim (Bool-cases (contains visited id)) [
    | inl back ↦
        rw (new, back, search_backedge)
          (
            Grown-finish_all table (from_first id visited) p,
            record {
              unit = id;
              known = known id back;
              before = new;
              now = ground (
                arith,
                contains-finish_all (from_first id visited) p id,
                contains-from_first id visited back,
              );
            },
          )
    | inr fresh ↦ elim (Option-cases (get id table)) [
      | inl lost ↦ rw (new, fresh, lost, search_backedge) tt
      | inr (u, found) ↦
          rw (new, fresh, found, search_backedge)
            (finish-Advances table p id _ (
              search_all-AllAdvance table (search_backedge fuel table (visited ++ id ∷ []))
                (λ i q. backedge-Advances fuel table (visited ++ id ∷ []) i q (λ j c.
                  let k = known j in
                  ground (
                    arith,
                    k,
                    contains-append visited (id ∷ []) j,
                    id_eq_iff id j,
                    contains_key-get j table,
                  )))
                u.common.dependencies.before p))
    ]
  ]
]
