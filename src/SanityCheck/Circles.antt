-- ===== src/SanityCheck/Circles.antt =====
-- What the search reports as a circle is one.
use rustysd.Prelude.{
  ℕ, zero, suc, ◌≡◌, inl, inr, true, List, [], ◌∷◌, ◌++◌, arith, contains, Bool-cases, Option-cases,
  ◌==◌, subst, sym,
}
use rustysd.Prelude.Map.{get}
use rustysd.Units.Id.{UnitId, id_eq_iff, unit_id_eq}
use rustysd.Units.Runtime.{UnitTable}
use rustysd.SanityCheck.{
  Progress, Search, fine, circle, panicked, out_of_fuel, then_search, search_all, from_first,
  search_backedge,
}
use rustysd.SanityCheck.Acyclic.{Edge}

-- Each element has an edge to the next one.
abbrev pub IsChain : UnitTable → List UnitId → Type 0
IsChain table [] = Unit
IsChain table (x ∷ []) = Unit
IsChain table (x ∷ y ∷ rest) = Edge table x y × IsChain table (y ∷ rest)

-- A chain that is closed by an edge from its last element to its first.
abbrev pub IsCircle : UnitTable → List UnitId → Type 0
IsCircle table [] = ⊥
IsCircle table (x ∷ xs) = IsChain table (x ∷ xs ++ x ∷ [])

IsChain-tail :
    (table : UnitTable) (x : UnitId) (l : List UnitId) → IsChain table (x ∷ l) → IsChain table l
IsChain-tail table x [] h = tt
IsChain-tail table x (y ∷ l) h = h.1

IsChain-extend :
    (table : UnitTable) (l : List UnitId) (a b : UnitId)
    → IsChain table (l ++ a ∷ [])
    → Edge table a b
    → IsChain table ((l ++ a ∷ []) ++ b ∷ [])
IsChain-extend table [] a b h e = (e, tt)
IsChain-extend table (x ∷ []) a b h e = (h.0, (e, tt))
IsChain-extend table (x ∷ y ∷ l) a b h e = (h.0, IsChain-extend table (y ∷ l) a b h.1 e)

from_first-IsCircle :
    (table : UnitTable) (visited : List UnitId) (id : UnitId)
    → contains visited id ≡ true
    → IsChain table (visited ++ id ∷ [])
    → IsCircle table (from_first id visited)
unfolding contains from_first
from_first-IsCircle table [] id c h = cc
from_first-IsCircle table (x ∷ xs) id c h = elim (Bool-cases (x == id)) [
  | inl same ↦
      rw (same, from_first)
        (subst (λ y. IsChain table (x ∷ xs ++ y ∷ [])) (sym ((id_eq_iff x id).0 same)) h)
  | inr other ↦
      rw (other, from_first)
        (from_first-IsCircle table xs id (ground arith) (IsChain-tail table x (xs ++ id ∷ []) h))
]

abbrev pub Genuine : UnitTable → Search → Type 0
Genuine table (fine p) = Unit
Genuine table (circle ids p) = IsCircle table ids
Genuine table panicked = Unit
Genuine table out_of_fuel = Unit

then_search-Genuine :
    (table : UnitTable) (s : Search) (next : Progress → Search)
    → Genuine table s
    → ((q : Progress) → Genuine table (next q))
    → Genuine table (then_search s next)
unfolding then_search
then_search-Genuine table (fine p) next h k = k p
then_search-Genuine table (circle ids p) next h k = h
then_search-Genuine table panicked next h k = tt
then_search-Genuine table out_of_fuel next h k = tt

search_all-Genuine :
    (table : UnitTable) (search : UnitId → Progress → Search) (ids : List UnitId)
    → ((id : UnitId) → contains ids id ≡ true → (q : Progress) → Genuine table (search id q))
    → (p : Progress) → Genuine table (search_all search ids p)
unfolding search_all contains
search_all-Genuine table search [] h p = tt
search_all-Genuine table search (id ∷ ids) h p =
    then_search-Genuine table (search id p) (search_all search ids)
      (h id (ground (arith, id_eq_iff id id)) p)
      (search_all-Genuine table search ids (λ i c. h i (ground arith)))

backedge-Genuine :
    (fuel : ℕ) (table : UnitTable) (visited : List UnitId) (id : UnitId) (p : Progress)
    → IsChain table (visited ++ id ∷ [])
    → Genuine table (search_backedge fuel table visited id p)
unfolding search_backedge
backedge-Genuine zero table visited id p h = tt
backedge-Genuine (suc fuel) table visited id p h = elim (Bool-cases (contains p.finished id)) [
  | inl old ↦ rw (old, search_backedge) tt
  | inr new ↦ elim (Bool-cases (contains visited id)) [
    | inl back ↦ rw (new, back, search_backedge) (from_first-IsCircle table visited id back h)
    | inr fresh ↦ elim (Option-cases (get id table)) [
      | inl lost ↦ rw (new, fresh, lost, search_backedge) tt
      | inr (u, found) ↦
          rw (new, fresh, found, search_backedge)
            (then_search-Genuine table _ _
              (search_all-Genuine table (search_backedge fuel table (visited ++ id ∷ []))
                u.common.dependencies.before
                (λ i c q. backedge-Genuine fuel table (visited ++ id ∷ []) i q (
                  IsChain-extend table visited id i h
                    (record { unit = u; found = found; listed = c })))
                p)
              (λ q. tt))
    ]
  ]
]

-- A circle that the search reports from a root leads along `before` edges back to its first unit.
pub search_backedge-IsCircle :
    (fuel : ℕ) (table : UnitTable) (id : UnitId) (p p' : Progress) (ids : List UnitId)
    → search_backedge fuel table [] id p ≡ circle ids p'
    → IsCircle table ids
search_backedge-IsCircle fuel table id p p' ids e =
    subst (Genuine table) e (backedge-Genuine fuel table [] id p tt)
