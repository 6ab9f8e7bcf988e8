-- ===== src/Parser/File.antt =====
-- `parse_file` of src/units/unit_parsing/unit_parser.rs.
pub mod Sections
use Prim.Native.String.{String}
use text.Mathlib.Text.{starts_with}
use rustysd.Prelude.{List, [], ◌∷◌, ◌++◌, map, if◌then◌else◌, string_eq}
use rustysd.Prelude.Map.{contains_key, insert}
use rustysd.Prelude.Text.{split, trim}
use rustysd.Units.Runtime.{Result, ok, err, panic}
use rustysd.Parser.Config.{ParsingErrorReason, section_too_often}
use rustysd.Parser.Section.{ParsedSection, parse_section}

abbrev pub ParsedFile : Type 0
ParsedFile = List (String × ParsedSection)

-- The first loop: the lines from the first section on.
unfoldable pub skip_to_section : List String → List String
skip_to_section [] = []
skip_to_section (line ∷ lines) =
    let rest = skip_to_section lines in if starts_with line "[" then line ∷ lines else rest

-- A section is entered under its name, which must be new.
unfoldable pub insert_section :
    String → List String → ParsedFile → Result ParsingErrorReason ParsedFile
unfolding contains_key insert parse_section
insert_section name lines sections =
    if contains_key name sections
    then err (section_too_often name)
    else ok (insert name (parse_section lines) sections)

-- The second loop and the last section: the lines of the section so far, in their order.
unfoldable pub parse_sections :
    List String → String → List String → ParsedFile → Result ParsingErrorReason ParsedFile
unfolding insert_section
parse_sections [] name lines sections = insert_section name lines sections
parse_sections (line ∷ rest) name lines sections =
    let next = λ (s : ParsedFile). parse_sections rest line [] s in
    let more = parse_sections rest name (lines ++ line ∷ []) sections in
    if starts_with line "["
    then elim (insert_section name lines sections) [ ok s ↦ next s | err e ↦ err e | panic ↦ panic ]
    else more

-- `lines_left[0]` panics where there is no section.
unfoldable pub from_section : List String → Result ParsingErrorReason ParsedFile
unfolding parse_sections
from_section [] = panic
from_section (line ∷ lines) = parse_sections lines line [] []

unfoldable pub parse_file : String → Result ParsingErrorReason ParsedFile
unfolding from_section skip_to_section split trim
parse_file content = from_section (skip_to_section (map trim (split b'\n' content)))
