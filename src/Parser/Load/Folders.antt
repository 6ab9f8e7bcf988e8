-- ===== src/Parser/Load/Folders.antt =====
-- A directory in the directory of the unit files makes the walk endless.
use rustysd.Prelude.{
  ℕ, zero, suc, ◌≡◌, ◌≢◌, inl, inr, Bool, true, false, List, [], ◌∷◌, Option, some, arith,
  Option-cases,
}
use rustysd.Units.Runtime.{ok}
use rustysd.Units.Runtime.Laws.{Result-cases}
use rustysd.Parser.Common.{Parsed}
use rustysd.Parser.Load.{
  Environment, Entry, file, folder, Tables, add_file, add_entries, parse_all_units,
}

abbrev pub has_folder : List Entry → Bool
has_folder [] = false
has_folder (file name content ∷ entries) = has_folder entries
has_folder (folder ∷ entries) = true

add_entries_fails :
    (env : Environment) (again : Tables → Option (Parsed Tables)) (entries : List Entry)
    (t t' : Tables)
    → ((s s' : Tables) → again s ≢ some (ok s'))
    → has_folder entries ≡ true
    → add_entries env again entries t ≢ some (ok t')
unfolding add_entries
add_entries_fails env again [] t t' never has e = cc
add_entries_fails env again (file name content ∷ entries) t t' never has e =
    elim (Result-cases (add_file env name content t)) [
      | inl (s, went) ↦ add_entries_fails env again entries s t' never has (ground arith)
      | inr (inl (x, failed)) ↦ ground arith
      | inr (inr failed) ↦ ground arith
    ]
add_entries_fails env again (folder ∷ entries) t t' never has e = elim (Option-cases (again t)) [
  | inl deep ↦ ground arith
  | inr (r, back) ↦ elim (Result-cases r) [
    | inl (s, went) ↦ never t s (ground arith)
    | inr (inl (x, failed)) ↦ ground arith
    | inr (inr failed) ↦ ground arith
  ]
]

-- Where the unit files stand beside a directory, no depth of the recursion lets the walk succeed.
pub parse_all_units-ne :
    (env : Environment) (fuel : ℕ) (entries : List Entry) (t t' : Tables)
    → has_folder entries ≡ true
    → parse_all_units env fuel entries t ≢ some (ok t')
unfolding parse_all_units
parse_all_units-ne env zero entries t t' has = λ e. cc
parse_all_units-ne env (suc fuel) entries t t' has =
    add_entries_fails env (parse_all_units env fuel entries) entries t t'
      (λ s s'. parse_all_units-ne env fuel entries s s' has) has
