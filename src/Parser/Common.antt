-- ===== src/Parser/Common.antt =====
-- The sections that unit files share: `parse_unit_section`, `parse_exec_section` and `parse_install_section` of
-- src/units/unit_parsing/unit_parser.rs. `shlex::split` is a parameter.
pub mod Settings
use Prim.Native.Nat.{◌-◌}
use Prim.Native.String.{String, ◌++◌ as ◌<>◌, len, slice}
use text.Mathlib.Text.{starts_with, ◌==◌ as str_eq}
use rustysd.Prelude.{
  ℕ, Bool, true, false, ◌&&◌, ◌||◌, List, [], ◌∷◌, ◌++◌, Option, none, some, if◌then◌else◌,
  string_eq, nat_beq,
}
use rustysd.Prelude.Map.{get, remove}
use rustysd.Prelude.Text.{split, to_uppercase}
use rustysd.Units.Config.{StdIoOption, file, append_file, EnvVars}
use rustysd.Units.Runtime.{Result, ok, err, panic}
use rustysd.Parser.Section.{ParsedSection}
use rustysd.Parser.Config.{
  ParsingErrorReason, unused_setting, unsupported_setting, setting_too_many_values, generic,
  ParsedUnitSection, ParsedInstallSection, ParsedExecSection, ◌>>=◌,
}

abbrev pub Parsed : Type 0 → Type 0
Parsed A = Result ParsingErrorReason A

abbrev pub Shlex : Type 0
Shlex = String → Option (List String)

unfoldable pub map_tupels_to_second : List (ℕ × String) → List String
map_tupels_to_second [] = []
map_tupels_to_second ((_, value) ∷ values) = value ∷ map_tupels_to_second values

-- `map_tupels_to_second(setting.unwrap_or_default())`
unfoldable pub all_values : Option (List (ℕ × String)) → List String
unfolding map_tupels_to_second
all_values none = []
all_values (some vec) = map_tupels_to_second vec

-- The settings that are left when all known ones are removed.
unfoldable pub remove_names : List String → ParsedSection → ParsedSection
unfolding remove
remove_names [] section = section
remove_names (name ∷ names) section = remove_names names (remove name section)

-- `if !section.is_empty() { return Err(UnusedSetting) }`
unfoldable pub refuse_unused : ParsedSection → Parsed Unit
refuse_unused [] = ok tt
refuse_unused ((name, values) ∷ section) = err (unused_setting name)

-- `(x[0]).1.clone()`, of a setting that may be missing.
unfoldable pub first_or_default : Option (List (ℕ × String)) → Parsed String
first_or_default none = ok ""
first_or_default (some []) = panic
first_or_default (some ((_, value) ∷ _)) = ok value

abbrev pub unit_settings : List String
unit_settings = "WANTS" ∷ "REQUIRES" ∷ "AFTER" ∷ "BEFORE" ∷ "DESCRIPTION" ∷ []

unfoldable pub parse_unit_section : ParsedSection → Parsed ParsedUnitSection
unfolding remove_names refuse_unused first_or_default all_values get
parse_unit_section section = do
  _ ← refuse_unused (remove_names unit_settings section)
  description ← first_or_default (get "DESCRIPTION" section)
  ok (record {
    description = description;
    wants = all_values (get "WANTS" section);
    requires = all_values (get "REQUIRES" section);
    after = all_values (get "AFTER" section);
    before = all_values (get "BEFORE" section);
  })

abbrev pub install_settings : List String
install_settings = "WANTEDBY" ∷ "REQUIREDBY" ∷ []

unfoldable pub parse_install_section : ParsedSection → Parsed ParsedInstallSection
unfolding remove_names refuse_unused all_values get
parse_install_section section = do
  _ ← refuse_unused (remove_names install_settings section)
  ok (record {
    wanted_by = all_values (get "WANTEDBY" section);
    required_by = all_values (get "REQUIREDBY" section);
  })

-- A setting with at most one value.
unfoldable pub single_value : String → Option (List (ℕ × String)) → Parsed (Option String)
unfolding map_tupels_to_second
single_value name none = ok none
single_value name (some []) = ok none
single_value name (some ((_, value) ∷ [])) = ok (some value)
single_value name (some (v ∷ w ∷ vec)) =
    err (setting_too_many_values name (map_tupels_to_second (v ∷ w ∷ vec)))

-- `trim_start_matches`: the prefix is taken off as often as it stands there. Both prefixes end in a colon, so
-- that the parts of the setting between colons are turns enough.
unfoldable pub trim_prefix : List String → String → String → String
trim_prefix [] p s = s
trim_prefix (turn ∷ turns) p s =
    let rest = trim_prefix turns p (slice s (len p) (len s)) in if starts_with s p then rest else s

unfoldable pub make_stdio_option : String → Parsed StdIoOption
unfolding trim_prefix split
make_stdio_option setting =
    if starts_with setting "file:"
    then ok (file (trim_prefix (split b':' setting) "file:" setting))
    else if starts_with setting "append:"
    then ok (append_file (trim_prefix (split b':' setting) "append:" setting))
    else err (unsupported_setting ("StandardOutput: " <> setting))

unfoldable pub optional_stdio : Option String → Parsed (Option StdIoOption)
unfolding make_stdio_option
optional_stdio none = ok none
optional_stdio (some p) = do path ← make_stdio_option p; ok (some path)

-- The extension by the parts of each value.
unfoldable pub split_groups : List (ℕ × String) → List String
unfolding split
split_groups [] = []
split_groups ((_, list) ∷ vec) = split b' ' list ++ split_groups vec

unfoldable pub supplementary : Option (List (ℕ × String)) → List String
unfolding split_groups
supplementary none = []
supplementary (some vec) = split_groups vec

-- `p[0]` and `p[1]`: a text without an equals sign has no second part.
unfoldable pub env_pair : List String → Parsed (String × String)
env_pair (key ∷ value ∷ _) = ok (key, value)
env_pair _ = panic

unfoldable pub env_pairs : List String → Parsed (List (String × String))
unfolding env_pair split
env_pairs [] = ok []
env_pairs (pair ∷ pairs) = do p ← env_pair (split b'=' pair); rest ← env_pairs pairs; ok (p ∷ rest)

unfoldable pub string_to_bool : String → Bool
unfolding to_uppercase
string_to_bool s =
    str_eq (to_uppercase s) "YES"
    || str_eq (to_uppercase s) "TRUE"
    || (nat_beq (len s) 1 && starts_with (to_uppercase s) "1")

abbrev pub exec_settings : List String
exec_settings =
    "USER" ∷ "GROUP" ∷ "STANDARDOUTPUT" ∷ "STANDARDERROR" ∷ "SUPPLEMENTARYGROUPS" ∷ "ENVIRONMENT"
    ∷ []

module _ (shlex_split : Shlex) where
  unfoldable pub parse_environment : String → Parsed EnvVars
  unfolding env_pairs
  parse_environment raw_line = elim (shlex_split raw_line) [
    | none ↦ err (generic ("Could not parse cmdline: " <> raw_line))
    | some pairs ↦ do vars ← env_pairs pairs; ok (record { vars = vars })
  ]

  -- `vec[0]`
  unfoldable pub optional_environment : Option (List (ℕ × String)) → Parsed (Option EnvVars)
  unfolding parse_environment
  optional_environment none = ok none
  optional_environment (some []) = panic
  optional_environment (some ((_, value) ∷ _)) = do vars ← parse_environment value; ok (some vars)

  -- The section is left without these settings: see `remove_names`.
  unfoldable pub parse_exec_section : ParsedSection → Parsed ParsedExecSection
  unfolding single_value optional_stdio supplementary optional_environment get
  parse_exec_section section = do
    user ← single_value "User" (get "USER" section)
    group ← single_value "Group" (get "GROUP" section)
    stdout ← single_value "Standardoutput" (get "STANDARDOUTPUT" section)
    stdout_path ← optional_stdio stdout
    stderr ← single_value "Standarderror" (get "STANDARDERROR" section)
    stderr_path ← optional_stdio stderr
    environment ← optional_environment (get "ENVIRONMENT" section)
    ok (record {
      user = user;
      group = group;
      stdout_path = stdout_path;
      stderr_path = stderr_path;
      supplementary_groups = supplementary (get "SUPPLEMENTARYGROUPS" section);
      environment = environment;
    })
