-- ===== src/Removal/Gone.antt =====
-- The removed unit is gone, and with it every unit that names it.

use rustysd.Prelude.{
  ap, ℕ, zero, suc, ◌≡◌, refl, sym, ◌∙◌, subst, inl, inr, true, false, List, [], ◌∷◌, Option, none,
  some, arith, contains, Bool-cases, Option-cases, ◌==◌,
}
use rustysd.Prelude.Map.{get, contains_key, contains_key-get}
use rustysd.Units.Id.{UnitId, id_eq_iff, unit_id_eq}
use rustysd.Units.Unit.{UnitEntry}
use rustysd.Units.Runtime.{UnitTable}
use rustysd.Deactivation.Stops.{stopped_at, Dependent}
use rustysd.Removal.{
  Check, passed, refused, check_panicked, check_out_of_fuel, forget, remove_single_unit, referrers,
  remove_each, remove_with_depending_units, removed, remove_checked, remove_unit_with_dependencies,
}
use rustysd.Removal.Checks.{and_also_passed, check_each_passed, check_deactivated_recursive_passed}
use rustysd.Removal.{check_deactivated_recursive, find_all_depending}
use rustysd.Units.Dependencies.{remove_id}
use rustysd.Removal.Referrers.{contains-referrers, find_all_depending-known}
use rustysd.Removal.Clean.{
  mentions, mentions-remove_id, remove_each-Holds, Holds, left, get-remove_single_unit,
  remove_with-Holds,
}

-- The unit is not in the table.
abbrev pub IsGone : UnitId → UnitTable → Type 0
IsGone id table = get id table ≡ none

-- What is in `t'` was in `t`, with the same names in its configuration.
abbrev IsLeft : UnitTable → UnitTable → Type 0
IsLeft t t' =
    (id : UnitId) (u' : UnitEntry)
    → get id t' ≡ some u'
    → (u : UnitEntry) × (get id t ≡ some u)
      × (u.common.unit.refs_by_name ≡ u'.common.unit.refs_by_name)

IsGone-remove_single_unit :
    (id rm_id : UnitId) (t : UnitTable) → IsGone id t → IsGone id (remove_single_unit rm_id t)
IsGone-remove_single_unit id rm_id t h = ground (arith, get-remove_single_unit rm_id id t)

IsLeft-remove_single_unit :
    (t : UnitTable) (rm_id : UnitId) (t' : UnitTable)
    → IsLeft t t'
    → IsLeft t (remove_single_unit rm_id t')
unfolding forget
IsLeft-remove_single_unit t rm_id t' h id u'' found =
    let (u', was, same, other) = left rm_id id t' u'' found in
    let (u, first, names) = h id u' was in
    (u, first, names ∙ sym (ap (λ v. v.common.unit.refs_by_name) same))

-- Each call takes out its own unit, and none comes back.
remove_with-IsGone :
    (fuel : ℕ) (rm_id : UnitId) (t : UnitTable)
    → Holds (IsGone rm_id) (remove_with_depending_units fuel rm_id t)
unfolding remove_with_depending_units
remove_with-IsGone zero rm_id t = tt
remove_with-IsGone (suc fuel) rm_id t =
    remove_each-Holds (IsGone rm_id) (IsGone-remove_single_unit rm_id)
      (remove_with_depending_units fuel)
      (λ id s p. remove_with-Holds (IsGone rm_id) (IsGone-remove_single_unit rm_id) fuel id s p)
      (referrers rm_id (remove_single_unit rm_id t)) (remove_single_unit rm_id t)
      (ground (arith, get-remove_single_unit rm_id rm_id t, id_eq_iff rm_id rm_id))

remove_each-IsGone :
    (fuel : ℕ) (ids : List UnitId) (t : UnitTable) (id : UnitId)
    → contains ids id ≡ true
    → Holds (IsGone id) (remove_each (remove_with_depending_units fuel) ids t)
unfolding remove_each contains
remove_each-IsGone fuel [] t id c = absurd (cc)
remove_each-IsGone fuel (x ∷ ids) t id c =
    elim (Option-cases (remove_with_depending_units fuel x t)) [
      | inl out ↦ rw (out, remove_each) tt
      | inr (t', went) ↦ elim (Bool-cases (x == id)) [
        | inr other ↦ rw (went, remove_each) (remove_each-IsGone fuel ids t' id (ground arith))
        | inl same ↦
            rw (went, remove_each)
              (remove_each-Holds (IsGone id) (IsGone-remove_single_unit id)
                (remove_with_depending_units fuel)
                (λ i s p. remove_with-Holds (IsGone id) (IsGone-remove_single_unit id) fuel i s p)
                ids t'
                (subst (λ y. IsGone y t') ((id_eq_iff x id).0 same)
                  (subst (Holds (IsGone x)) went (remove_with-IsGone fuel x t))))
      ]
    ]

-- What the removal of one unit leaves.
abbrev pub IsForgotten : UnitId → UnitTable → Type 0
IsForgotten rm_id table =
    IsGone rm_id table
    × ((id : UnitId) (u : UnitEntry)
        → get id table ≡ some u
        → contains u.common.unit.refs_by_name rm_id ≡ false)

-- After a removal the unit is not in the table, and no unit is left that names it in its configuration.
pub remove_with_depending_units-IsForgotten :
    (fuel : ℕ) (rm_id : UnitId) (table table' : UnitTable)
    → remove_with_depending_units fuel rm_id table ≡ some table'
    → IsForgotten rm_id table'
unfolding remove_with_depending_units
remove_with_depending_units-IsForgotten zero rm_id table table' e = absurd (cc)
remove_with_depending_units-IsForgotten (suc fuel) rm_id table table' e =
    let mid = remove_single_unit rm_id table in
    let gone : IsGone rm_id table' =
      subst (Holds (IsGone rm_id)) e (remove_with-IsGone (suc fuel) rm_id table) in
    let from : IsLeft mid table' = subst (Holds (IsLeft mid)) e (
      remove_each-Holds (IsLeft mid) (IsLeft-remove_single_unit mid)
        (remove_with_depending_units fuel)
        (λ i s p. remove_with-Holds (IsLeft mid) (IsLeft-remove_single_unit mid) fuel i s p)
        (referrers rm_id mid) mid (λ i u found. (u, found, refl))) in
    (
      gone,
      λ id u found. elim (Bool-cases (contains u.common.unit.refs_by_name rm_id)) [
        | inr unnamed ↦ unnamed
        | inl named ↦
            let (v, was, same) = from id u found in
            let apart : (id == rm_id) ≡ false = ground (arith, id_eq_iff id rm_id) in
            let listed =
              contains-referrers rm_id mid id v was apart
                (subst (λ l. contains l rm_id ≡ true) (sym same) named) in
            let out : IsGone id table' =
              subst (Holds (IsGone id)) e
                (remove_each-IsGone fuel (referrers rm_id mid) mid id listed) in
            absurd (ground arith)
      ],
    )

remove_checked-removed :
    (o : Option UnitTable) (c : Check) (table' : UnitTable)
    → remove_checked o c ≡ removed table'
    → (o ≡ some table') × (c ≡ passed)
unfolding remove_checked
remove_checked-removed (some t) passed table' e = (cc, refl)
remove_checked-removed none passed table' e = absurd (cc)
remove_checked-removed o (refused name) table' e = absurd (cc)
remove_checked-removed o check_panicked table' e = absurd (cc)
remove_checked-removed o check_out_of_fuel table' e = absurd (cc)

-- The unit and all units that require it, directly or not, are stopped.
abbrev pub AreStopped : UnitTable → UnitId → Type 0
AreStopped table id = (j : UnitId) → Dependent table j id → stopped_at table j ≡ true

-- What is left of `t`, in `t'`, has no edge to a unit that was taken out.
abbrev pub IsDetached : UnitTable → UnitTable → Type 0
IsDetached t t' =
    (id d : UnitId) (u' : UnitEntry)
    → get id t' ≡ some u'
    → mentions u'.common.dependencies d ≡ true
    → contains_key d t ≡ true
    → contains_key d t' ≡ true

IsDetached-remove_single_unit :
    (t : UnitTable) (rm_id : UnitId) (t' : UnitTable)
    → IsDetached t t'
    → IsDetached t (remove_single_unit rm_id t')
unfolding forget
IsDetached-remove_single_unit t rm_id t' h id d u' found m was =
    let (u, there, same, other) = left rm_id id t' u' found in
    let m' : mentions (remove_id rm_id u.common.dependencies) d ≡ true =
      subst (λ v. mentions v.common.dependencies d ≡ true) same m in
    let both = mentions-remove_id rm_id d u.common.dependencies in
    let m0 : mentions u.common.dependencies d ≡ true = ground arith in
    let apart : (rm_id == d) ≡ false = ground arith in
    let k = h id d u there m0 was in
    elim (Option-cases (get d t')) [
      | inl lost ↦ absurd (ground (arith, contains_key-get d t'))
      | inr (v, v_there) ↦ ground (
        arith,
        contains_key-get d (remove_single_unit rm_id t'),
        get-remove_single_unit rm_id d t',
      )
    ]

-- When a removal succeeds, the unit, each unit that names it in its configuration, and all units that require one
-- of these, directly or not, were stopped. Then the unit is not in the table, no unit is left that names
-- it, and no unit that is left has an edge to one that was taken out.
pub remove_unit_with_dependencies-removed :
    (fuel : ℕ) (rm_id : UnitId) (table table' : UnitTable)
    → remove_unit_with_dependencies fuel rm_id table ≡ removed table'
    → AreStopped table rm_id
      × ((k : UnitId) (u : UnitEntry)
          → get k table ≡ some u
          → contains u.common.unit.refs_by_name rm_id ≡ true
          → AreStopped table k)
      × IsForgotten rm_id table'
      × IsDetached table table'
unfolding remove_unit_with_dependencies
remove_unit_with_dependencies-removed fuel rm_id table table' e =
    let (went, ran) = remove_checked-removed _ _ table' e in
    let (own, others) = and_also_passed _ _ ran in
    let direct = find_all_depending-known 1 table rm_id in
    (
      check_deactivated_recursive_passed fuel table rm_id own,
      λ k u found named. elim (Bool-cases (k == rm_id)) [
        | inl same ↦
            subst (AreStopped table) (sym ((id_eq_iff k rm_id).0 same))
              (check_deactivated_recursive_passed fuel table rm_id own)
        | inr other ↦ check_deactivated_recursive_passed fuel table k (
            check_each_passed (check_deactivated_recursive fuel table)
              (find_all_depending 2 table rm_id []) others k
              (ap (λ l. contains l k) direct
                ∙ contains-referrers rm_id table k u found other named))
      ],
      remove_with_depending_units-IsForgotten _ rm_id table table' went,
      subst (Holds (IsDetached table)) went (
          remove_with-Holds (IsDetached table) (IsDetached-remove_single_unit table) _ rm_id table
            (λ id d u found m was. was)),
    )
