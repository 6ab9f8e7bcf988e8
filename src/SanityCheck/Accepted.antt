-- ===== src/SanityCheck/Accepted.antt =====
-- What `Ok` of the whole check says.
use rustysd.Prelude.{
  List-cases, ℕ, zero, suc, ◌≡◌, ◌≢◌, inl, inr, true, ◌||◌, List, [], ◌∷◌, ◌++◌, arith, contains,
}
use rustysd.SanityCheck.{
  Progress, Search, fine, circle, panicked, out_of_fuel, Root, root, no_root, missing_unit,
  find_root, Checked, circles_found, next_round, check_round, check_loop, sanity_check_dependencies,
}
use rustysd.Prelude.{List-cases, ap}
use rustysd.Prelude.Map.{keys, contains-keys, contains_key, contains_key-get}
use rustysd.SanityCheck.Acyclic.{Kept, one, more}
use rustysd.Units.Id.{UnitId, unit_id_eq}
use rustysd.Units.Runtime.{UnitTable}
use rustysd.SanityCheck.Acyclic.{Way, IsPostOrder, no_circle, Searched, search_backedge-Searched}

circles_found-injective :
    {cs ds : List (List UnitId)} → circles_found cs ≡ circles_found ds → cs ≡ ds
circles_found-injective e = cc

Way-known :
    (table : UnitTable) (b : UnitId) {a : UnitId} → Way table b a → contains_key a table ≡ true
Way-known table b {a} (one e) = let f = e.found in ground (arith, contains_key-get a table)
Way-known table b {a} (more e w) = let f = e.found in ground (arith, contains_key-get a table)

append-ne-nil : (cs : List (List UnitId)) (c : List UnitId) → cs ++ c ∷ [] ≢ []
append-ne-nil [] c = ground arith
append-ne-nil (x ∷ cs) c = ground arith

-- Once a circle has been found the check does not accept.
module _ (table : UnitTable) (continue : List (List UnitId) → Progress → Checked)
    (refuses : (cs : List (List UnitId)) (p : Progress)
      → cs ≢ []
      → continue cs p ≢ circles_found []) where
  next_round-refuses :
      (cs : List (List UnitId)) (s : Search) → cs ≢ [] → next_round continue cs s ≢ circles_found []
  unfolding next_round
  next_round-refuses cs (fine p) h = refuses cs p h
  next_round-refuses cs (circle c p) h = refuses (cs ++ c ∷ []) p (append-ne-nil cs c)
  next_round-refuses cs panicked h = ground arith
  next_round-refuses cs out_of_fuel h = ground arith

  check_round-refuses :
      (cs : List (List UnitId)) (p : Progress) (r : Root)
      → cs ≢ []
      → check_round continue table cs p r ≢ circles_found []
  unfolding check_round
  check_round-refuses cs p (root id) h = next_round-refuses cs _ h
  check_round-refuses cs p no_root h =
      λ e. append-ne-nil cs p.not_finished (circles_found-injective e)
  check_round-refuses cs p missing_unit h = ground arith

loop-refuses :
    (fuel : ℕ) (table : UnitTable) (cs : List (List UnitId)) (p : Progress)
    → cs ≢ []
    → check_loop fuel table cs p ≢ circles_found []
unfolding check_loop
loop-refuses zero table cs p h = ground arith
loop-refuses (suc fuel) table cs p h = elim (List-cases p.not_finished) [
  | inl done ↦ ground arith
  | inr (x, xs, left) ↦
      let r =
        check_round-refuses table (check_loop fuel table) (λ ds q. loop-refuses fuel table ds q) cs
          p (find_root table p.finished p.not_finished) h in
      ground arith
]

-- The finished units are in post-order, and every unit of the table is finished or not.
record IsSound (table : UnitTable) (p : Progress) : Type 0 where
  order : IsPostOrder table p.finished
  known :
      (j : UnitId)
      → contains_key j table ≡ true
      → (contains p.not_finished j || contains p.finished j) ≡ true

IsSound-start :
    (table : UnitTable) → IsSound table (record { finished = []; not_finished = keys table })
unfolding contains
IsSound-start table = record { order = tt; known = λ j k. ground (arith, contains-keys j table) }

IsSound-Kept :
    (table : UnitTable) (p p' : Progress) → IsSound table p → Kept table p p' → IsSound table p'
IsSound-Kept table p p' s k = record {
  order = k.order;
  known =
      λ j c. let a = s.known j c in let b = k.either j in let d = k.still j in ground (arith, b, d);
}

-- With nothing left to finish, no way leads back.
IsSound-end :
    (table : UnitTable) (p : Progress)
    → IsSound table p
    → p.not_finished ≡ []
    → (a : UnitId) → ¬ Way table a a
unfolding contains
IsSound-end table p s done a w =
    no_circle table p.finished a s.order
      (let k = s.known a (Way-known table a w) in
        let e = ap (λ l. contains l a) done in ground arith)
      w

-- What acceptance says, given what it says of the rest of the loop.
module _ (table : UnitTable) (continue : List (List UnitId) → Progress → Checked)
    (refuses : (cs : List (List UnitId)) (p : Progress)
      → cs ≢ []
      → continue cs p ≢ circles_found [])
    (accepts : (p : Progress)
      → IsSound table p
      → continue [] p ≡ circles_found []
      → (a : UnitId) → ¬ Way table a a) where
  next_round-accepts :
      (p : Progress) (id : UnitId) (s : Search)
      → IsSound table p
      → Searched table p id s
      → next_round continue [] s ≡ circles_found []
      → (a : UnitId) → ¬ Way table a a
  unfolding next_round
  next_round-accepts p id (fine q) s h e = accepts q (IsSound-Kept table p q s h.0) e
  next_round-accepts p id (circle c q) s h e = absurd (refuses (c ∷ []) q (append-ne-nil [] c) e)
  next_round-accepts p id panicked s h e = absurd (cc)
  next_round-accepts p id out_of_fuel s h e = absurd (cc)

  check_round-accepts :
      (p : Progress) (r : Root)
      → IsSound table p
      → check_round continue table [] p r ≡ circles_found []
      → (a : UnitId) → ¬ Way table a a
  unfolding check_round
  check_round-accepts p (root id) s e =
      next_round-accepts p id _ s (search_backedge-Searched _ table [] id p s.order) e
  check_round-accepts p no_root s e =
      absurd (append-ne-nil [] p.not_finished (circles_found-injective e))
  check_round-accepts p missing_unit s e = absurd (cc)

loop-accepts :
    (fuel : ℕ) (table : UnitTable) (p : Progress)
    → IsSound table p
    → check_loop fuel table [] p ≡ circles_found []
    → (a : UnitId) → ¬ Way table a a
unfolding check_loop
loop-accepts zero table p s e = absurd (cc)
loop-accepts (suc fuel) table p s e = elim (List-cases p.not_finished) [
  | inl done ↦ IsSound-end table p s done
  | inr (x, xs, left) ↦
      check_round-accepts table (check_loop fuel table) (λ cs q. loop-refuses fuel table cs q)
        (λ q t. loop-accepts fuel table q t) p (find_root table p.finished p.not_finished) s
        (ground arith)
]

-- A table that the check accepts has no circle in its `before` edges.
pub sanity_check_dependencies-acyclic :
    (table : UnitTable)
    → sanity_check_dependencies table ≡ circles_found []
    → (a : UnitId) → ¬ Way table a a
unfolding sanity_check_dependencies
sanity_check_dependencies-acyclic table e = loop-accepts _ table _ (IsSound-start table) e
