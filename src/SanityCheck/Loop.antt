-- ===== src/SanityCheck/Loop.antt =====
-- The whole check ends: each of its rounds finishes a unit.
use rustysd.Prelude.{
  ℕ, zero, suc, ◌+◌, ◌<◌, ◌≡◌, ◌≢◌, refl, inl, inr, true, List, [], ◌∷◌, ◌++◌, arith, contains,
  length, Bool-cases, Option-cases, List-cases,
}
use rustysd.Prelude.Map.{get, contains-keys}
use rustysd.Units.Id.{UnitId, id_eq_iff, unit_id_eq}
use rustysd.Units.Runtime.{UnitTable}
use rustysd.SanityCheck.{
  Progress, Search, fine, circle, panicked, out_of_fuel, is_free, Root, root, no_root, missing_unit,
  find_root, Checked, check_out_of_fuel, next_round, check_round, check_loop,
  sanity_check_dependencies,
}
use rustysd.SanityCheck.Ends.{outside, outside-lt, outside-le, search_backedge-ends}
use rustysd.SanityCheck.Rounds.{IsExact, Grown, Newly, Advances, backedge-Advances}

find_root-listed :
    (table : UnitTable) (finished ids : List UnitId) (id : UnitId)
    → find_root table finished ids ≡ root id
    → contains ids id ≡ true
unfolding find_root contains
find_root-listed table finished [] id e = absurd (cc)
find_root-listed table finished (x ∷ ids) id e = elim (Option-cases (get x table)) [
  | inl lost ↦ absurd (ground arith)
  | inr (u, found) ↦ elim (Bool-cases (is_free finished u.common.dependencies.after)) [
    | inl free ↦ ground (arith, id_eq_iff x id)
    | inr waits ↦ let r = find_root-listed table finished ids id in ground (arith, r)
  ]
]

Newly-lt :
    (table : UnitTable) (p p' : Progress)
    → Grown table p p'
    → Newly table p p'
    → outside table p'.finished < outside table p.finished
Newly-lt table p p' g n =
    outside-lt table p.finished p'.finished n.unit g.still n.known n.before n.now

-- A round that starts from an unfinished unit goes on with fewer of them.
module _ (table : UnitTable) (continue : List (List UnitId) → Progress → Checked) (p : Progress)
    (ends : (cs : List (List UnitId)) (q : Progress)
      → IsExact table q
      → outside table q.finished < outside table p.finished
      → continue cs q ≢ check_out_of_fuel)
    (exact : IsExact table p) where
  next_round-ne :
      (cs : List (List UnitId)) (id : UnitId) (s : Search)
      → contains p.not_finished id ≡ true
      → Advances table p id s
      → s ≢ out_of_fuel
      → next_round continue cs s ≢ check_out_of_fuel
  unfolding next_round
  next_round-ne cs id (fine q) listed h ran =
      let e = exact id in
      ends cs q (h.0.exact exact) (
        Newly-lt table p q h.0
          (record { unit = id; known = ground arith; before = ground arith; now = h.1 }))
  next_round-ne cs id (circle c q) listed h ran =
      ends (cs ++ c ∷ []) q (h.0.exact exact) (Newly-lt table p q h.0 h.1)
  next_round-ne cs id panicked listed h ran = ground arith
  next_round-ne cs id out_of_fuel listed h ran = absurd (ran refl)

  check_round-ne :
      (cs : List (List UnitId)) (r : Root)
      → find_root table p.finished p.not_finished ≡ r
      → check_round continue table cs p r ≢ check_out_of_fuel
  unfolding check_round contains
  check_round-ne cs (root id) e =
      next_round-ne cs id _ (find_root-listed table p.finished p.not_finished id e)
        (backedge-Advances _ table [] id p (λ j c. absurd (cc))) (search_backedge-ends table id p)
  check_round-ne cs no_root e = ground arith
  check_round-ne cs missing_unit e = ground arith

check_loop-ne :
    (fuel : ℕ) (table : UnitTable) (cs : List (List UnitId)) (p : Progress)
    → IsExact table p
    → outside table p.finished < fuel
    → check_loop fuel table cs p ≢ check_out_of_fuel
unfolding check_loop
check_loop-ne zero table cs p exact h = absurd (omega arith)
check_loop-ne (suc fuel) table cs p exact h = elim (List-cases p.not_finished) [
  | inl done ↦ ground arith
  | inr (x, xs, more) ↦
      let r =
        check_round-ne table (check_loop fuel table) p
          (λ ds q e l. check_loop-ne fuel table ds q e (omega (arith, l, h))) exact cs
          (find_root table p.finished p.not_finished) refl in
      ground arith
]

-- The check ends on every table, with or without circles.
pub sanity_check_dependencies-ends :
    (table : UnitTable) → sanity_check_dependencies table ≢ check_out_of_fuel
unfolding sanity_check_dependencies contains
sanity_check_dependencies-ends table =
    check_loop-ne (length table + 1) table [] _ (λ j. ground (arith, contains-keys j table))
      (omega (arith, outside-le table []))
