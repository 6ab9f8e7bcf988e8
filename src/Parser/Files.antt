-- ===== src/Parser/Files.antt =====
-- `parse_service`, `parse_socket` and `parse_target`: from the sections of a file to its configuration. The name is
-- that of the file.
use Prim.Native.String.{String}
use text.Mathlib.Text.{◌==◌ as str_eq}
use rustysd.Prelude.{Bool, [], ◌∷◌, Option, none, some, if◌then◌else◌}
use rustysd.Units.Runtime.{ok, err}
use rustysd.Parser.Section.{ParsedSection}
use rustysd.Parser.File.{ParsedFile}
use rustysd.Parser.Config.{
  section_not_found, unknown_section, ParsedUnitSection, ParsedInstallSection, ParsedServiceSection,
  ParsedSocketSection, ParsedCommonConfig, ParsedServiceConfig, ParsedSocketConfig,
  ParsedTargetConfig, ◌>>=◌,
}
use rustysd.Parser.Common.{Parsed, Shlex, parse_unit_section, parse_install_section}
use rustysd.Parser.Service.{parse_service_section}
use rustysd.Parser.Socket.{SocketAddresses, parse_socket_section}

-- The sections that were found: the one of the kind, and the two that every kind has.
pub record Sections (S : Type 0) : Type 0 where
  pub own : Option S
  pub unit : Option ParsedUnitSection
  pub install : Option ParsedInstallSection

abbrev pub no_sections : {S : Type 0} → Sections S
no_sections = record { own = none; unit = none; install = none }

unfoldable pub unit_or_default : Option ParsedUnitSection → ParsedUnitSection
unit_or_default none = record {
  description = "";
  wants = [];
  requires = [];
  before = [];
  after = [];
}
unit_or_default (some unit) = unit

unfoldable pub install_or_default : Option ParsedInstallSection → ParsedInstallSection
install_or_default none = record { wanted_by = []; required_by = [] }
install_or_default (some install) = install

-- `unwrap_or_else(Default::default)`
unfoldable pub common_of : {S : Type 0} → String → Sections S → ParsedCommonConfig
unfolding unit_or_default install_or_default
common_of name s = record {
  unit = unit_or_default s.unit;
  install = install_or_default s.install;
  name = name;
}

-- The sections [Unit] and [Install], which every kind of file may have.
unfoldable pub parse_shared :
    {S : Type 0} → String → ParsedSection → Sections S → Parsed (Sections S)
unfolding parse_unit_section parse_install_section
parse_shared name section found =
    if str_eq name "[Unit]"
    then (do unit ← parse_unit_section section; ok (record found { unit = some unit }))
    else if str_eq name "[Install]"
    then (do install ← parse_install_section section; ok (record found { install = some install }))
    else err (unknown_section name)

-- One turn of the loop, for a kind of file with the header of its own section.
unfoldable pub parse_one :
    {S : Type 0}
    → String
    → (ParsedSection → Parsed S)
    → String
    → ParsedSection
    → Sections S
    → Parsed (Sections S)
unfolding parse_shared
parse_one header parse name section found =
    if str_eq name header
    then (do s ← parse section; ok (record found { own = some s }))
    else parse_shared name section found

unfoldable pub parse_each :
    {S : Type 0}
    → (String → ParsedSection → Sections S → Parsed (Sections S))
    → ParsedFile
    → Sections S
    → Parsed (Sections S)
parse_each step [] found = ok found
parse_each step ((name, section) ∷ file) found = do
  next ← step name section found
  parse_each step file next

unfoldable pub require_section : {S : Type 0} → String → Option S → Parsed S
require_section name none = err (section_not_found name)
require_section name (some s) = ok s

unfoldable pub parse_target : ParsedFile → String → Parsed ParsedTargetConfig
unfolding parse_each parse_shared common_of
parse_target file name = do
  found ← parse_each {S = Unit {0}} parse_shared file no_sections
  ok (record { common = common_of name found })

unfoldable pub parse_service : Shlex → Bool → ParsedFile → String → Parsed ParsedServiceConfig
unfolding parse_each parse_one common_of require_section parse_service_section
parse_service shlex_split dbus_support file name = do
  found ←
      parse_each {S = ParsedServiceSection}
        (parse_one "[Service]" (parse_service_section shlex_split dbus_support)) file no_sections
  srvc ← require_section "Service" found.own
  ok (record { common = common_of name found; srvc = srvc })

unfoldable pub parse_socket :
    Shlex → SocketAddresses → ParsedFile → String → Parsed ParsedSocketConfig
unfolding parse_each parse_one common_of require_section parse_socket_section
parse_socket shlex_split addresses file name = do
  found ←
      parse_each {S = ParsedSocketSection}
        (parse_one "[Socket]" (parse_socket_section shlex_split addresses)) file no_sections
  sock ← require_section "Socket" found.own
  ok (record { common = common_of name found; sock = sock })
