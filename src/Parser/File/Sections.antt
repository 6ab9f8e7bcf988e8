-- ===== src/Parser/File/Sections.antt =====
-- `parse_file` against the sections as they stand in the file.
use Prim.Native.String.{String}
use text.Mathlib.Text.{starts_with}
use rustysd.Prelude.{
  ◌≡◌, ◌≢◌, refl, ap, ◌∙◌, ◌↔◌, inl, inr, Bool, true, false, List, [], ◌∷◌, ◌++◌, map, arith,
  Bool-cases, if◌then◌else◌, ◌==◌, string_eq,
}
use rustysd.Prelude.Map.{contains_key, insert}
use rustysd.Prelude.Text.{split, trim}
use rustysd.Units.Runtime.{Result, ok, err, panic}
use rustysd.Units.Runtime.Laws.{Result-cases}
use rustysd.Parser.Config.{ParsingErrorReason, section_too_often, ◌>>=◌}
use rustysd.Parser.Section.{ParsedSection, parse_section}
use rustysd.Parser.File.{
  ParsedFile, skip_to_section, insert_section, parse_sections, from_section, parse_file,
}

-- The lines of the file, without the white space around them.
abbrev pub trimmed_lines : String → List String
trimmed_lines content = map trim (split b'\n' content)

abbrev pub is_header : String → Bool
is_header line = starts_with line "["

abbrev pub has_header : List String → Bool
has_header [] = false
has_header (line ∷ lines) = if is_header line then true else has_header lines

insert_section-total :
    (name : String) (lines : List String) (sections : ParsedFile)
    → insert_section name lines sections ≢ panic
unfolding insert_section
insert_section-total name lines sections = λ e. ground arith

parse_sections-total :
    (rest : List String) (name : String) (lines : List String) (sections : ParsedFile)
    → parse_sections rest name lines sections ≢ panic
unfolding parse_sections
parse_sections-total [] name lines sections = insert_section-total name lines sections
parse_sections-total (line ∷ rest) name lines sections = λ e. elim (Bool-cases (is_header line)) [
  | inr other ↦ parse_sections-total rest name (lines ++ line ∷ []) sections (ground arith)
  | inl header ↦ elim (Result-cases (insert_section name lines sections)) [
    | inl (s, went) ↦ parse_sections-total rest line [] s (ground arith)
    | inr (inl (x, failed)) ↦ ground arith
    | inr (inr failed) ↦ insert_section-total name lines sections failed
  ]
]

from_section-panics :
    (lines : List String)
    → (from_section (skip_to_section lines) ≡ panic) ↔ (has_header lines ≡ false)
unfolding from_section skip_to_section
from_section-panics [] = ((λ e. refl), (λ h. refl))
from_section-panics (line ∷ lines) = elim (Bool-cases (is_header line)) [
  | inr other ↦ rw (other, skip_to_section) (from_section-panics lines)
  | inl header ↦
      rw (header, skip_to_section)
        ((λ e. absurd (parse_sections-total lines line [] [] e)), (λ h. absurd (cc)))
]

-- Parsing panics exactly on the files in which no line begins with an opening bracket, the white space around
-- the lines left aside.
pub parse_file-panics :
    (content : String) → (parse_file content ≡ panic) ↔ (has_header (trimmed_lines content) ≡ false)
unfolding parse_file
parse_file-panics content = from_section-panics (trimmed_lines content)

-- The sections as they stand in the file: each header with the lines up to the next one.
abbrev pub sections_in : List String → String → List String → List (String × List String)
sections_in [] name lines = (name, lines) ∷ []
sections_in (line ∷ rest) name lines =
    let next = sections_in rest line [] in
    let more = sections_in rest name (lines ++ line ∷ []) in
    if is_header line then (name, lines) ∷ next else more

-- All sections entered one after the other.
abbrev pub enter : List (String × List String) → ParsedFile → Result ParsingErrorReason ParsedFile
enter [] sections = ok sections
enter ((name, lines) ∷ more) sections =
    let next = enter more (sections ++ (name, parse_section lines) ∷ []) in
    if contains_key name sections then err (section_too_often name) else next

insert_fresh :
    (name : String) (parsed : ParsedSection) (sections : ParsedFile)
    → contains_key name sections ≡ false
    → insert name parsed sections ≡ sections ++ (name, parsed) ∷ []
unfolding insert contains_key
insert_fresh name parsed [] fresh = refl
insert_fresh name parsed ((n, s) ∷ sections) fresh = elim (Bool-cases (n == name)) [
  | inl same ↦ absurd (ground arith)
  | inr other ↦
      rw (other, insert) (ap (λ r. (n, s) ∷ r) (insert_fresh name parsed sections (ground arith)))
]

insert_section-enter :
    (name : String) (lines : List String) (more : List (String × List String))
    (sections : ParsedFile)
    → (insert_section name lines sections >>= enter more) ≡ enter ((name, lines) ∷ more) sections
unfolding insert_section
insert_section-enter name lines more sections = elim (Bool-cases (contains_key name sections)) [
  | inl taken ↦ rw taken refl
  | inr fresh ↦ rw (fresh, insert_fresh name (parse_section lines) sections fresh) refl
]

parse_sections-enter :
    (rest : List String) (name : String) (lines : List String) (sections : ParsedFile)
    → parse_sections rest name lines sections ≡ enter (sections_in rest name lines) sections
unfolding parse_sections
parse_sections-enter [] name lines sections =
    ground (arith, insert_section-enter name lines [] sections)
parse_sections-enter (line ∷ rest) name lines sections = elim (Bool-cases (is_header line)) [
  | inr other ↦ rw other (parse_sections-enter rest name (lines ++ line ∷ []) sections)
  | inl header ↦
      let all = insert_section-enter name lines (sections_in rest line []) sections in
      elim (Result-cases (insert_section name lines sections)) [
        | inl (s, went) ↦ ground (arith, all, parse_sections-enter rest line [] s)
        | inr (inl (x, failed)) ↦ ground (arith, all)
        | inr (inr failed) ↦ ground (arith, all)
      ]
]

skip_to_section-append :
    (prologue : List String) (header : String) (rest : List String)
    → has_header prologue ≡ false
    → is_header header ≡ true
    → skip_to_section (prologue ++ header ∷ rest) ≡ header ∷ rest
unfolding skip_to_section
skip_to_section-append [] header rest plain h = rw h refl
skip_to_section-append (line ∷ prologue) header rest plain h = elim (Bool-cases (is_header line)) [
  | inl first ↦ absurd (ground arith)
  | inr other ↦
      rw (other, skip_to_section) (skip_to_section-append prologue header rest (ground arith) h)
]

-- A file whose lines, the white space around them left aside, are some that do not begin with an opening bracket,
-- then a header, which does, and a rest, is parsed to the sections that stand there from that header on, each with
-- the lines up to the next header, or to an error at the first header that stands there a second time.
pub parse_file-enter :
    (content header : String) (prologue rest : List String)
    → trimmed_lines content ≡ prologue ++ header ∷ rest
    → has_header prologue ≡ false
    → is_header header ≡ true
    → parse_file content ≡ enter (sections_in rest header []) []
unfolding parse_file from_section
parse_file-enter content header prologue rest e plain h =
    ap from_section (ap skip_to_section e ∙ skip_to_section-append prologue header rest plain h)
    ∙ parse_sections-enter rest header [] []
