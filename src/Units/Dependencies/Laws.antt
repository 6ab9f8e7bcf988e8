-- ===== src/Units/Dependencies/Laws.antt =====
-- What the operations on edge lists do to the set of their elements.
use rustysd.Prelude.{
  suc, ◌≤◌, ◌≡◌, refl, true, false, not, ◌&&◌, ◌||◌, List, [], ◌∷◌, ◌++◌, arith, ◌==◌, contains,
  contains-append, contains-retain, length, retain,
}
use rustysd.Units.Id.{UnitId, id_eq_iff, unit_id_eq}
use rustysd.Units.Dependencies.{
  Dependencies, insert_sorted, sort, dedup_from, dedup, sort_dedup, start_before_this,
  start_concurrently_with_this, remove_first, remove_rounds, remove_from_vec,
}

contains-insert_sorted :
    (x : UnitId) (ys : List UnitId) (a : UnitId)
    → contains (insert_sorted x ys) a ≡ (x == a || contains ys a)
unfolding contains insert_sorted
contains-insert_sorted x [] a = refl
contains-insert_sorted x (y ∷ ys) a = ground (arith, contains-insert_sorted x ys a)

contains-sort : (xs : List UnitId) (a : UnitId) → contains (sort xs) a ≡ contains xs a
unfolding contains sort
contains-sort [] a = refl
contains-sort (x ∷ xs) a = ground (arith, contains-insert_sorted x (sort xs) a, contains-sort xs a)

contains-dedup_from :
    (p : UnitId) (xs : List UnitId) (a : UnitId)
    → (p == a || contains (dedup_from p xs) a) ≡ (p == a || contains xs a)
unfolding contains dedup_from
contains-dedup_from p [] a = refl
contains-dedup_from p (x ∷ xs) a =
    ground (arith, id_eq_iff p x, id_eq_iff p a, id_eq_iff x a, contains-dedup_from x xs a)

contains-dedup : (xs : List UnitId) (a : UnitId) → contains (dedup xs) a ≡ contains xs a
unfolding contains dedup
contains-dedup [] a = refl
contains-dedup (x ∷ xs) a = contains-dedup_from x xs a

pub contains-sort_dedup :
    (xs : List UnitId) (a : UnitId) → contains (sort_dedup xs) a ≡ contains xs a
unfolding sort_dedup
contains-sort_dedup xs a = ground (arith, contains-dedup (sort xs) a, contains-sort xs a)

-- What has to be started for a unit: all that it comes after, wants or requires.
pub contains-start :
    (d : Dependencies) (a : UnitId)
    → contains (start_before_this d ++ start_concurrently_with_this d) a
      ≡ (contains d.after a || contains d.wants a || contains d.requires a)
unfolding start_before_this start_concurrently_with_this
contains-start d a = ground (
  arith,
  contains-append d.after (retain (λ id. not (contains d.after id)) (d.wants ++ d.requires)) a,
  contains-retain (λ id. not (contains d.after id)) (d.wants ++ d.requires) a,
  contains-append d.wants d.requires a,
)

contains-remove_first :
    (id : UnitId) (xs : List UnitId) (a : UnitId)
    → (id == a) ≡ false
    → contains (remove_first id xs) a ≡ contains xs a
unfolding contains remove_first
contains-remove_first id [] a h = refl
contains-remove_first id (x ∷ xs) a h =
    ground (arith, id_eq_iff x id, id_eq_iff id a, id_eq_iff x a, contains-remove_first id xs a)

length-remove_first :
    (id : UnitId) (xs : List UnitId)
    → contains xs id ≡ true
    → suc (length (remove_first id xs)) ≡ length xs
unfolding contains remove_first
length-remove_first id [] h = absurd (cc)
length-remove_first id (x ∷ xs) h = ground (arith, length-remove_first id xs)

remove_rounds_other :
    (rounds : List UnitId) (id : UnitId) (xs : List UnitId) (a : UnitId)
    → (id == a) ≡ false
    → contains (remove_rounds rounds id xs) a ≡ contains xs a
unfolding remove_rounds
remove_rounds_other [] id xs a h = refl
remove_rounds_other (r ∷ rounds) id xs a h =
    ground
      (arith, remove_rounds_other rounds id (remove_first id xs) a, contains-remove_first id xs a)

remove_rounds_self :
    (rounds : List UnitId) (id : UnitId) (xs : List UnitId)
    → length xs ≤ length rounds
    → contains (remove_rounds rounds id xs) id ≡ false
unfolding remove_rounds contains
remove_rounds_self [] id [] h = refl
remove_rounds_self [] id (x ∷ xs) h = absurd (omega arith)
remove_rounds_self (r ∷ rounds) id xs h =
    ground (arith, remove_rounds_self rounds id (remove_first id xs), length-remove_first id xs)

-- `remove_from_vec` drops every occurrence of the identifier and nothing else.
pub contains-remove_from_vec :
    (ids : List UnitId) (id a : UnitId)
    → contains (remove_from_vec ids id) a ≡ (contains ids a && not (id == a))
unfolding remove_from_vec
contains-remove_from_vec ids id a =
    ground (arith, id_eq_iff id a, remove_rounds_other ids id ids a, remove_rounds_self ids id ids)
