-- ===== src/SanityCheck/Ends.antt =====
-- The check ends on every table: each round finishes a unit, and the path never repeats one.
use rustysd.Prelude.{
  ℕ, zero, suc, ◌+◌, ◌<◌, ◌≤◌, ◌≡◌, ◌≢◌, refl, inl, inr, true, false, not, List, [], ◌∷◌, ◌++◌,
  some, arith, contains, contains-append, retain, length, length-retain-lt, length-retain-le,
  Bool-cases, Option-cases,
}
use rustysd.Prelude.Map.{get, keys, contains_key, contains_key-get, contains-keys}
use rustysd.Units.Id.{UnitId, id_eq_iff, unit_id_eq}
use rustysd.Units.Unit.{UnitEntry}
use rustysd.Units.Runtime.{UnitTable}
use rustysd.SanityCheck.{
  Progress, Search, fine, circle, panicked, out_of_fuel, then_search, search_all, search_backedge,
}

-- The units of the table that a list leaves out.
abbrev pub outside : UnitTable → List UnitId → ℕ
outside table ids = length (retain (λ id. not (contains ids id)) (keys table))

pub outside-lt :
    (table : UnitTable) (ids ids' : List UnitId) (x : UnitId)
    → ((j : UnitId) → contains ids j ≡ true → contains ids' j ≡ true)
    → contains_key x table ≡ true
    → contains ids x ≡ false
    → contains ids' x ≡ true
    → outside table ids' < outside table ids
outside-lt table ids ids' x grows k out in_it =
    length-retain-lt (λ id. not (contains ids id)) (λ id. not (contains ids' id))
      (λ a h. let g = grows a in ground arith) (keys table) x
      (ground (arith, contains-keys x table)) (ground arith) (ground arith)

length-keys : (table : UnitTable) → length (keys table) ≡ length table
unfolding keys
length-keys [] = refl
length-keys ((id, u) ∷ table) = omega (arith, length-keys table)

pub outside-le : (table : UnitTable) (ids : List UnitId) → outside table ids ≤ length table
outside-le table ids =
    omega (arith, length-keys table, length-retain-le (λ id. not (contains ids id)) (keys table))

then_search-ne :
    (s : Search) (next : Progress → Search)
    → s ≢ out_of_fuel
    → ((q : Progress) → next q ≢ out_of_fuel)
    → then_search s next ≢ out_of_fuel
unfolding then_search
then_search-ne (fine p) next h k = k p
then_search-ne (circle ids p) next h k = ground arith
then_search-ne panicked next h k = ground arith
then_search-ne out_of_fuel next h k = λ e. h e

search_all-ne :
    (search : UnitId → Progress → Search) (ids : List UnitId)
    → ((id : UnitId) (q : Progress) → search id q ≢ out_of_fuel)
    → (p : Progress) → search_all search ids p ≢ out_of_fuel
unfolding search_all
search_all-ne search [] h p = ground arith
search_all-ne search (id ∷ ids) h p =
    then_search-ne (search id p) (search_all search ids) (h id p) (search_all-ne search ids h)

longer :
    (table : UnitTable) (visited : List UnitId) (id : UnitId) (u : UnitEntry)
    → contains visited id ≡ false
    → get id table ≡ some u
    → outside table (visited ++ id ∷ []) < outside table visited
unfolding contains
longer table visited id u fresh found =
    outside-lt table visited (visited ++ id ∷ []) id
      (λ j c. ground (arith, contains-append visited (id ∷ []) j))
      (ground (arith, contains_key-get id table)) fresh
      (ground (arith, contains-append visited (id ∷ []) id, id_eq_iff id id))

backedge-ne :
    (fuel : ℕ) (table : UnitTable) (visited : List UnitId) (id : UnitId) (p : Progress)
    → outside table visited < fuel
    → search_backedge fuel table visited id p ≢ out_of_fuel
unfolding search_backedge
backedge-ne zero table visited id p h = absurd (omega arith)
backedge-ne (suc fuel) table visited id p h = elim (Bool-cases (contains p.finished id)) [
  | inl old ↦ rw (old, search_backedge) (ground arith)
  | inr new ↦ elim (Bool-cases (contains visited id)) [
    | inl back ↦ rw (new, back, search_backedge) (ground arith)
    | inr fresh ↦ elim (Option-cases (get id table)) [
      | inl lost ↦ rw (new, fresh, lost, search_backedge) (ground arith)
      | inr (u, found) ↦
          rw (new, fresh, found, search_backedge)
            (then_search-ne _ _
              (search_all-ne (search_backedge fuel table (visited ++ id ∷ []))
                u.common.dependencies.before
                (λ i q.
                  backedge-ne fuel table (visited ++ id ∷ []) i q
                    (omega (arith, longer table visited id u fresh found)))
                p)
              (λ q. ground arith))
    ]
  ]
]

-- A search from a root, with the fuel that the check gives it, ends on every table.
pub search_backedge-ends :
    (table : UnitTable) (id : UnitId) (p : Progress)
    → search_backedge (length table + 2) table [] id p ≢ out_of_fuel
search_backedge-ends table id p =
    backedge-ne (length table + 2) table [] id p (omega (arith, outside-le table []))
