-- ===== src/Removal/Referrers.antt =====
-- `find_all_depending` finds the units that name the given one, and does not follow them further.
use rustysd.Prelude.{
  ℕ, zero, suc, ◌≡◌, ◌∙◌, refl, inl, inr, true, false, List, [], ◌∷◌, some, arith, contains,
  Bool-cases, ◌==◌, ap, Bool, not, ◌&&◌, Option, none, IsNodup, subst,
}
use rustysd.Prelude.Map.{get, keys}
use rustysd.Units.Id.{UnitId, id_eq_iff, unit_id_eq}
use rustysd.Units.Unit.{UnitEntry}
use rustysd.Units.Runtime.{UnitTable}
use rustysd.Removal.{referrers, find_each, find_all_depending}

-- A unit of the table that names `rm_id` is among the referrers.
pub contains-referrers :
    (rm_id : UnitId) (table : UnitTable) (id : UnitId) (u : UnitEntry)
    → get id table ≡ some u
    → (id == rm_id) ≡ false
    → contains u.common.unit.refs_by_name rm_id ≡ true
    → contains (referrers rm_id table) id ≡ true
unfolding get referrers contains
contains-referrers rm_id [] id u found other named = absurd (cc)
contains-referrers rm_id ((k, v) ∷ table) id u found other named = elim (Bool-cases (k == id)) [
  | inl same ↦ ground (arith, id_eq_iff k id, id_eq_iff k k)
  | inr differ ↦
      let rest = contains-referrers rm_id table id u (ground arith) other named in ground arith
]

known-return :
    (fuel : ℕ) (table : UnitTable) (rm_id : UnitId) (ids : List UnitId)
    → contains ids rm_id ≡ true
    → find_all_depending fuel table rm_id ids ≡ ids
unfolding find_all_depending
known-return zero table rm_id ids c = refl
known-return (suc fuel) table rm_id ids c = rw (c, find_all_depending) refl

find_each-known :
    (fuel : ℕ) (table : UnitTable) (new_ids ids : List UnitId)
    → ((id : UnitId) → contains new_ids id ≡ true → contains ids id ≡ true)
    → find_each (find_all_depending fuel table) new_ids ids ≡ ids
unfolding find_each contains
find_each-known fuel table [] ids known = refl
find_each-known fuel table (id ∷ new_ids) ids known =
    let here = known-return fuel table id ids (known id (ground (arith, id_eq_iff id id))) in
    ap (λ l. find_each (find_all_depending fuel table) new_ids l) here
    ∙ find_each-known fuel table new_ids ids (λ j c. known j (ground arith))

-- The calls for what was found return at once, for every fuel.
pub find_all_depending-known :
    (fuel : ℕ) (table : UnitTable) (rm_id : UnitId)
    → find_all_depending (suc fuel) table rm_id [] ≡ referrers rm_id table
unfolding find_all_depending contains
find_all_depending-known fuel table rm_id =
    find_each-known fuel table (referrers rm_id table) (referrers rm_id table) (λ j c. c)

-- Whether the unit under an identifier names another in its configuration.
abbrev pub names : Option UnitEntry → UnitId → Bool
names none rm_id = false
names (some unit) rm_id = contains unit.common.unit.refs_by_name rm_id

referrers-key :
    (rm_id : UnitId) (table : UnitTable) (id : UnitId)
    → contains (keys table) id ≡ false
    → contains (referrers rm_id table) id ≡ false
unfolding referrers contains keys
referrers-key rm_id [] id absent = refl
referrers-key rm_id ((k, v) ∷ table) id absent =
    let rest = referrers-key rm_id table id (ground arith) in ground (arith, rest)

contains_referrers_lem :
    (rm_id : UnitId) (table : UnitTable) (id : UnitId)
    → IsNodup (keys table)
    → contains (referrers rm_id table) id ≡ (not (id == rm_id) && names (get id table) rm_id)
unfolding get referrers contains keys
contains_referrers_lem rm_id [] id distinct = ground arith
contains_referrers_lem rm_id ((k, v) ∷ table) id distinct = elim (Bool-cases (k == id)) [
  | inl same ↦
      let alike = (id_eq_iff k id).0 same in
      let apart =
        referrers-key rm_id table id
          (subst (λ i. contains (keys table) i ≡ false) alike distinct.0) in
      let named : names (get id ((k, v) ∷ table)) rm_id
          ≡ contains v.common.unit.refs_by_name rm_id =
        rw (same, get) refl in
      let both : (k == rm_id) ≡ (id == rm_id) = ap (λ i. i == rm_id) alike in
      ground (arith, same, apart, named, both)
  | inr differ ↦
      let rest = contains_referrers_lem rm_id table id distinct.1 in
      let named : names (get id ((k, v) ∷ table)) rm_id ≡ names (get id table) rm_id =
        rw (differ, get) refl in
      ground (arith, differ, rest, named)
]

-- Of a table without doubled keys, a unit other than the given one is found exactly when its own configuration
-- names the given one: what names it through others only is not found, whatever the fuel.
pub find_all_depending-referrers :
    (fuel : ℕ) (table : UnitTable) (rm_id id : UnitId)
    → IsNodup (keys table)
    → contains (find_all_depending (suc fuel) table rm_id []) id
      ≡ (not (id == rm_id) && names (get id table) rm_id)
find_all_depending-referrers fuel table rm_id id distinct =
    ap (λ l. contains l id) (find_all_depending-known fuel table rm_id)
    ∙ contains_referrers_lem rm_id table id distinct
