-- ===== src/Parser/Section.antt =====
-- `parse_section` of src/units/unit_parsing/unit_parser.rs.
use Prim.Native.Nat.{◌%◌}
use Prim.Native.String.{String}
use text.Mathlib.Text.{starts_with}
use rustysd.Prelude.{ℕ, suc, ◌+◌, List, [], ◌∷◌, ◌++◌, Option, none, some, if◌then◌else◌, string_eq}
use rustysd.Prelude.Map.{get, insert}
use rustysd.Prelude.Text.{split, trim, to_uppercase, skip_char, split_at_char}

-- The settings of a section by their names, each with its values and their numbers.
abbrev pub ParsedSection : Type 0
ParsedSection = List (String × List (ℕ × String))

-- The entries, and the number of the next value.
pub record Entries : Type 0 where
  pub entries : ParsedSection
  pub entry_number : ℕ

-- `entry(name).or_insert_with(Vec::new)`
unfoldable pub values_of : String → ParsedSection → List (ℕ × String)
unfolding get
values_of name entries = elim (get name entries) [ none ↦ [] | some vec ↦ vec ]

-- The values with the numbers from one on, each a `u32` that wraps, and how many they are.
unfoldable pub number_from : ℕ → List String → List (ℕ × String)
number_from n [] = []
number_from n (value ∷ values) = (n, value) ∷ number_from (suc n % 4294967296) values

unfoldable pub count_values : List String → ℕ
count_values [] = 0
count_values (value ∷ values) = suc (count_values values)

unfoldable pub push_values : String → List String → Entries → Entries
unfolding values_of number_from insert count_values
push_values name values e = record {
  entries = insert name (values_of name e.entries ++ number_from e.entry_number values) e.entries;
  entry_number = (e.entry_number + count_values values) % 4294967296;
}

-- A line with a name and the rest from the equals sign on, or none.
unfoldable pub push_line : Option (String × String) → Entries → Entries
unfolding push_values split trim to_uppercase skip_char
push_line none e = e
push_line (some (name, value)) e =
    push_values (to_uppercase (trim name)) (split b',' (trim (skip_char b'=' value))) e

-- One turn of the loop.
unfoldable pub parse_line : String → Entries → Entries
unfolding push_line split_at_char
parse_line line e = if starts_with line "#" then e else push_line (split_at_char b'=' line) e

unfoldable pub parse_lines : List String → Entries → Entries
unfolding parse_line
parse_lines [] e = e
parse_lines (line ∷ lines) e = parse_lines lines (parse_line line e)

abbrev pub no_entries : Entries
no_entries = record { entries = []; entry_number = 0 }

unfoldable pub parse_section : List String → ParsedSection
unfolding parse_lines
parse_section lines = (parse_lines lines no_entries).entries
