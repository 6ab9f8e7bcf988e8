-- ===== src/Parser/Common/Settings.antt =====
-- No setting is passed over in silence.
use Prim.Native.String.{String}
use rustysd.Prelude.{
  ◌≡◌, refl, true, List, [], ◌∷◌, ◌++◌, none, arith, contains, if◌then◌else◌, string_eq,
}
use rustysd.Prelude.Map.{get, remove, contains_key, contains_key-get, get-remove}
use rustysd.Units.Runtime.{ok}
use rustysd.Parser.Section.{ParsedSection}
use rustysd.Parser.Common.{remove_names, refuse_unused}

get-remove_names :
    (names : List String) (k : String) (section : ParsedSection)
    → get k (remove_names names section) ≡ (if contains names k then none else get k section)
unfolding remove_names contains
get-remove_names [] k section = refl
get-remove_names (name ∷ names) k section =
    ground (arith, get-remove_names names k (remove name section), get-remove name k section)

refuse_unused-ok :
    (section : ParsedSection) {u : Unit {0}} → refuse_unused section ≡ ok u → section ≡ []
unfolding refuse_unused
refuse_unused-ok [] e = refl
refuse_unused-ok ((name, values) ∷ section) e = absurd (cc)

-- A section that is accepted has only settings that were read.
pub known_settings :
    (names : List String) (section : ParsedSection) {u : Unit {0}} (k : String)
    → refuse_unused (remove_names names section) ≡ ok u
    → contains_key k section ≡ true
    → contains names k ≡ true
unfolding get
known_settings names section k e c =
    let empty = refuse_unused-ok (remove_names names section) e in
    let gone : get k (remove_names names section) ≡ none = rw empty refl in
    ground (arith, get-remove_names names k section, contains_key-get k section)

pub remove_names-append :
    (xs ys : List String) (section : ParsedSection)
    → remove_names ys (remove_names xs section) ≡ remove_names (xs ++ ys) section
unfolding remove_names
remove_names-append [] ys section = refl
remove_names-append (x ∷ xs) ys section = remove_names-append xs ys (remove x section)
