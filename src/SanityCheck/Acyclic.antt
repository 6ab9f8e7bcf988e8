-- ===== src/SanityCheck/Acyclic.antt =====
-- A table that passes the check has no circle in its `before` edges.
use rustysd.Prelude.{
  Option-cases, zero, suc, not, ℕ, contains-retain, ◌≡◌, inl, inr, true, ◌||◌, List, [], ◌∷◌, ◌++◌,
  some, arith, contains, Bool-cases, ◌==◌, sym, subst,
}
use rustysd.Prelude.Map.{get}
use rustysd.Units.Id.{UnitId, id_eq_iff, unit_id_eq}
use rustysd.Units.Unit.{UnitEntry}
use rustysd.Units.Runtime.{UnitTable}
use rustysd.SanityCheck.{
  finish, search_backedge, Progress, Search, fine, circle, panicked, out_of_fuel, then_search,
  search_all,
}

-- `a` is to be started before `b`.
pub record Edge (table : UnitTable) (a b : UnitId) : Type 0 where
  pub unit : UnitEntry
  pub found : get a table ≡ some unit
  pub listed : contains unit.common.dependencies.before b ≡ true

-- A way along the edges, of one step at least.
pub data Way (table : UnitTable) (b : UnitId) : UnitId → Type 0 where
  one : {a : UnitId} → Edge table a b → Way table b a
  more : {a c : UnitId} → Edge table a c → Way table b c → Way table b a

-- Every finished unit comes with its successors finished before it.
abbrev pub IsPostOrder : UnitTable → List UnitId → Type 0
IsPostOrder table [] = Unit
IsPostOrder table (x ∷ rest) =
    ((b : UnitId) → Edge table x b → contains rest b ≡ true) × IsPostOrder table rest

closed :
    (table : UnitTable) (l : List UnitId) (a b : UnitId)
    → IsPostOrder table l
    → contains l a ≡ true
    → Edge table a b
    → contains l b ≡ true
unfolding contains
closed table [] a b p c e = absurd (cc)
closed table (x ∷ rest) a b p c e = elim (Bool-cases (x == a)) [
  | inl same ↦
      let h = p.0 b (subst (λ y. Edge table y b) (sym ((id_eq_iff x a).0 same)) e) in ground arith
  | inr other ↦ let h = closed table rest a b p.1 (ground arith) e in ground arith
]

Way-stays :
    (table : UnitTable) (l : List UnitId) (b : UnitId) {a : UnitId}
    → IsPostOrder table l
    → Way table b a
    → contains l a ≡ true
    → contains l b ≡ true
Way-stays table l b p (one e) c = closed table l _ b p c e
Way-stays table l b p (more e w) c = Way-stays table l b p w (closed table l _ _ p c e)

Way-leaves :
    (table : UnitTable) (x b : UnitId) {a : UnitId} (rest : List UnitId)
    → IsPostOrder table (x ∷ rest)
    → Way table b a
    → a ≡ x
    → contains rest b ≡ true
Way-leaves table x b rest p (one e) same = p.0 b (subst (λ y. Edge table y b) same e)
Way-leaves table x b rest p (more {c} e w) same =
    Way-stays table rest b p.1 w (p.0 c (subst (λ y. Edge table y c) same e))

pub no_circle :
    (table : UnitTable) (l : List UnitId) (a : UnitId)
    → IsPostOrder table l
    → contains l a ≡ true
    → ¬ Way table a a
unfolding contains
no_circle table [] a p c w = cc
no_circle table (x ∷ rest) a p c w = elim (Bool-cases (x == a)) [
  | inl same ↦
      no_circle table rest a p.1 (Way-leaves table x a rest p w (sym ((id_eq_iff x a).0 same))) w
  | inr other ↦ no_circle table rest a p.1 (ground arith) w
]

-- What a search that finds no circle keeps: the order, what was finished, and that a unit is
-- finished or not.
pub record Kept (table : UnitTable) (p p' : Progress) : Type 0 where
  pub order : IsPostOrder table p'.finished
  pub still : (j : UnitId) → contains p.finished j ≡ true → contains p'.finished j ≡ true
  pub either :
      (j : UnitId)
      → contains p.not_finished j ≡ true
      → (contains p'.not_finished j || contains p'.finished j) ≡ true

abbrev pub Searched : UnitTable → Progress → UnitId → Search → Type 0
Searched table p id (fine p') = Kept table p p' × (contains p'.finished id ≡ true)
Searched table p id (circle ids p') = Unit
Searched table p id panicked = Unit
Searched table p id out_of_fuel = Unit

abbrev AllSearched : UnitTable → Progress → List UnitId → Search → Type 0
AllSearched table p ids (fine p') =
    Kept table p p' × ((j : UnitId) → contains ids j ≡ true → contains p'.finished j ≡ true)
AllSearched table p ids (circle c p') = Unit
AllSearched table p ids panicked = Unit
AllSearched table p ids out_of_fuel = Unit

Kept-trans :
    (table : UnitTable) (p q r : Progress) → Kept table p q → Kept table q r → Kept table p r
Kept-trans table p q r h k = record {
  order = k.order;
  still = λ j c. k.still j (h.still j c);
  either = λ j c.
      let a = h.either j c in let b = k.either j in let s = k.still j in ground (arith, b, s);
}

extend :
    (table : UnitTable) (ids : List UnitId) (id : UnitId) (p q : Progress) (s : Search)
    → Searched table p id (fine q)
    → AllSearched table q ids s
    → AllSearched table p (id ∷ ids) s
unfolding contains
extend table ids id p q (fine r) h k = (
  Kept-trans table p q r h.0 k.0,
  λ j c. elim (Bool-cases (id == j)) [
    | inl same ↦
        k.0.still j (subst (λ x. contains q.finished x ≡ true) ((id_eq_iff id j).0 same) h.1)
    | inr other ↦ k.1 j (ground arith)
  ],
)
extend table ids id p q (circle c r) h k = tt
extend table ids id p q panicked h k = tt
extend table ids id p q out_of_fuel h k = tt

search_all-step :
    (table : UnitTable) (search : UnitId → Progress → Search) (ids : List UnitId) (id : UnitId)
    (p : Progress) (s : Search)
    → Searched table p id s
    → ((q : Progress)
        → IsPostOrder table q.finished
        → AllSearched table q ids (search_all search ids q))
    → AllSearched table p (id ∷ ids) (then_search s (search_all search ids))
unfolding then_search contains
search_all-step table search ids id p (fine q) h k =
    extend table ids id p q (search_all search ids q) h (k q h.0.order)
search_all-step table search ids id p (circle c q) h k = tt
search_all-step table search ids id p panicked h k = tt
search_all-step table search ids id p out_of_fuel h k = tt

search_all-AllSearched :
    (table : UnitTable) (search : UnitId → Progress → Search)
    → ((id : UnitId) (q : Progress)
        → IsPostOrder table q.finished
        → Searched table q id (search id q))
    → (ids : List UnitId) (p : Progress) → IsPostOrder table p.finished
    → AllSearched table p ids (search_all search ids p)
unfolding search_all contains
search_all-AllSearched table search h [] p o =
    (record { order = o; still = λ j c. c; either = λ j c. ground arith }, λ j c. cc)
search_all-AllSearched table search h (id ∷ ids) p o =
    search_all-step table search ids id p (search id p) (h id p o)
      (λ q. search_all-AllSearched table search h ids q)

finish-Searched :
    (table : UnitTable) (id : UnitId) (u : UnitEntry) (p : Progress) (s : Search)
    → get id table ≡ some u
    → AllSearched table p u.common.dependencies.before s
    → Searched table p id (then_search s (λ q. fine (finish id q)))
unfolding then_search finish contains
finish-Searched table id u p (fine q) found h = (
  record {
    order = ((λ b e. h.1 b (let same = e.found in let l = e.listed in ground arith)), h.0.order);
    still = λ j c. let k = h.0.still j c in ground arith;
    either = λ j c.
        let k = h.0.either j c in
        ground (
          arith,
          contains-retain (λ i. not (i == id)) q.not_finished j,
          id_eq_iff id j,
          id_eq_iff j id,
        );
  },
  ground (arith, id_eq_iff id id),
)
finish-Searched table id u p (circle c q) found h = tt
finish-Searched table id u p panicked found h = tt
finish-Searched table id u p out_of_fuel found h = tt

pub search_backedge-Searched :
    (fuel : ℕ) (table : UnitTable) (visited : List UnitId) (id : UnitId) (p : Progress)
    → IsPostOrder table p.finished
    → Searched table p id (search_backedge fuel table visited id p)
unfolding search_backedge
search_backedge-Searched zero table visited id p o = tt
search_backedge-Searched (suc fuel) table visited id p o =
    elim (Bool-cases (contains p.finished id)) [
      | inl old ↦
          rw (old, search_backedge)
            (record { order = o; still = λ j c. c; either = λ j c. ground arith }, old)
      | inr new ↦ elim (Bool-cases (contains visited id)) [
        | inl back ↦ rw (new, back, search_backedge) tt
        | inr fresh ↦ elim (Option-cases (get id table)) [
          | inl lost ↦ rw (new, fresh, lost, search_backedge) tt
          | inr (u, found) ↦
              rw (new, fresh, found, search_backedge)
                (finish-Searched table id u p _ found (
                  search_all-AllSearched table (search_backedge fuel table (visited ++ id ∷ []))
                    (λ i q. search_backedge-Searched fuel table (visited ++ id ∷ []) i q)
                    u.common.dependencies.before p o))
        ]
      ]
    ]
