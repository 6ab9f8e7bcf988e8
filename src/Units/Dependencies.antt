-- ===== src/Units/Dependencies.antt =====
-- `Dependencies` of src/units/unit.rs: the six edge lists of a unit and the operations on them.
pub mod Laws
use text.Mathlib.Text.{◌==◌ as str_eq}
use rustysd.Prelude.{
  String, Bool, true, false, not, ◌||◌, List, [], ◌∷◌, ◌++◌, if◌then◌else◌, ◌==◌, contains, retain,
}
use rustysd.Units.Id.{UnitId, id_le, unit_id_eq}

pub record Dependencies : Type 0 where
  pub wants : List UnitId
  pub wanted_by : List UnitId
  pub requires : List UnitId
  pub required_by : List UnitId
  pub before : List UnitId
  pub after : List UnitId

-- `Vec::sort` is stable: an identifier goes in front of those that are not smaller.
unfoldable pub insert_sorted : UnitId → List UnitId → List UnitId
insert_sorted x [] = x ∷ []
insert_sorted x (y ∷ ys) = if id_le x y then x ∷ y ∷ ys else y ∷ insert_sorted x ys

unfoldable pub sort : List UnitId → List UnitId
unfolding insert_sorted
sort [] = []
sort (x ∷ xs) = insert_sorted x (sort xs)

-- `Vec::dedup` drops an element that equals the one before it.
unfoldable pub dedup_from : UnitId → List UnitId → List UnitId
dedup_from p [] = []
dedup_from p (x ∷ xs) = let rest = dedup_from x xs in if p == x then rest else x ∷ rest

unfoldable pub dedup : List UnitId → List UnitId
unfolding dedup_from
dedup [] = []
dedup (x ∷ xs) = x ∷ dedup_from x xs

-- `v.sort(); v.dedup()`
unfoldable pub sort_dedup : List UnitId → List UnitId
unfolding sort dedup
sort_dedup xs = dedup (sort xs)

unfoldable pub dedup_dependencies : Dependencies → Dependencies
unfolding sort_dedup
dedup_dependencies d = record {
  wants = sort_dedup d.wants;
  wanted_by = sort_dedup d.wanted_by;
  requires = sort_dedup d.requires;
  required_by = sort_dedup d.required_by;
  before = sort_dedup d.before;
  after = sort_dedup d.after;
}

unfoldable pub kill_before_this : Dependencies → List UnitId
kill_before_this d = d.required_by

unfoldable pub start_before_this : Dependencies → List UnitId
start_before_this d = d.after

unfoldable pub start_concurrently_with_this : Dependencies → List UnitId
unfolding retain
start_concurrently_with_this d = retain (λ id. not (contains d.after id)) (d.wants ++ d.requires)

-- `while let Some(idx) = ids.iter().position(..) { ids.remove(idx) }`: one round drops the first
-- occurrence, and the rounds end when there is none.
unfoldable pub remove_first : UnitId → List UnitId → List UnitId
remove_first id [] = []
remove_first id (x ∷ xs) = if x == id then xs else x ∷ remove_first id xs

unfoldable pub remove_rounds : List UnitId → UnitId → List UnitId → List UnitId
unfolding remove_first
remove_rounds [] id ids = ids
remove_rounds (round ∷ rounds) id ids =
    let next = remove_rounds rounds id (remove_first id ids) in
    if contains ids id then next else ids

-- There are at most as many rounds as elements.
unfoldable pub remove_from_vec : List UnitId → UnitId → List UnitId
unfolding remove_rounds
remove_from_vec ids id = remove_rounds ids id ids

unfoldable pub remove_id : UnitId → Dependencies → Dependencies
unfolding remove_from_vec
remove_id id d = record {
  wants = remove_from_vec d.wants id;
  wanted_by = remove_from_vec d.wanted_by id;
  requires = remove_from_vec d.requires id;
  required_by = remove_from_vec d.required_by id;
  before = remove_from_vec d.before id;
  after = remove_from_vec d.after id;
}

-- `iter().any(|id| id.eq(name))`, and the loops that return at the first identifier with the name.
unfoldable pub any_named : List UnitId → String → Bool
any_named [] name = false
any_named (id ∷ ids) name = str_eq id.name name || any_named ids name

unfoldable pub comes_after : Dependencies → String → Bool
unfolding any_named
comes_after d name = any_named d.after name

unfoldable pub comes_before : Dependencies → String → Bool
unfolding any_named
comes_before d name = any_named d.before name

unfoldable pub requires : Dependencies → String → Bool
unfolding any_named
requires d name = any_named d.requires name

unfoldable pub required_by : Dependencies → String → Bool
unfolding any_named
required_by d name = any_named d.required_by name

unfoldable pub wants : Dependencies → String → Bool
unfolding any_named
wants d name = any_named d.wants name

unfoldable pub wanted_by : Dependencies → String → Bool
unfolding any_named
wanted_by d name = any_named d.wanted_by name
