-- ===== src/Tests/Parser.antt =====
-- Small unit files.
use Prim.Native.String.{String}
use rustysd.Prelude.{
  ◌≡◌, ◌≢◌, ◌↔◌, refl, true, false, List, [], ◌∷◌, ◌++◌, none, some, contains, string_eq,
}
use mathlib.Core.List.{length, Perm}
use rustysd.Prelude.Map.{contains_key, keys}
use rustysd.Prelude.Text.{split, trim}
use rustysd.Units.Id.{UnitId}
use rustysd.Units.Config.{never, main, simple}
use rustysd.Units.Status.{never_started}
use rustysd.Units.Unit.{UnitEntry}
use rustysd.Tests.Samples.{web_unit}
use rustysd.Units.Runtime.{UnitTable, Result, ok, panic}
use rustysd.Units.Runtime.{UnitTable}
use rustysd.Loading.Resolve.Loaded.{IsLoaded}
use rustysd.Control.Run.{load_all_units}
use rustysd.Control.Run.Steady.{IsSteady}
use rustysd.Control.Files.{Disk, unit_files}
use rustysd.Control.Files.Loaded.{load_all_units-IsLoaded}
use rustysd.Units.Id.{id_eq, id_le, unit_id_eq}
use rustysd.Activation.Subgraph.{collect_unit_start_subgraph, collect, gather, unknown, needs}
use rustysd.Units.Dependencies.{start_before_this, start_concurrently_with_this}
use rustysd.Parser.Section.{ParsedSection}
use rustysd.Parser.File.{parse_file}
use rustysd.Parser.File.Sections.{
  trimmed_lines, has_header, sections_in, enter, parse_file-panics, parse_file-enter,
}
use rustysd.Parser.Config.{ParsedServiceSection, ParsedServiceConfig}
use rustysd.Parser.Common.{Shlex}
use rustysd.Parser.Service.{parse_service_section}
use rustysd.Parser.Service.Known.{used_settings, parse_service_section-known}
use rustysd.Parser.Socket.{socket_kinds}
use rustysd.Parser.Socket.Order.{IsOrdered, listed, socket_kinds-IsOrdered}
use rustysd.Parser.Units.{Platform, ids_of, unit_from_parsed_service}
use rustysd.Parser.Units.References.{RefersTo, unit_from_parsed_service-RefersTo}
use rustysd.Parser.Load.{Environment, file, folder, Tables, parse_all_units}
use rustysd.Parser.Load.Folders.{parse_all_units-ne}

parse_file-panics_example :
    (parse_file "Type=notify" ≡ panic) ↔ (has_header (trimmed_lines "Type=notify") ≡ false)
parse_file-panics_example = parse_file-panics "Type=notify"

abbrev two_sections : String
two_sections = "# a service\n[Unit]\nAfter=db.service\n [Service]\nExecStart=/bin/web"

abbrev after_header : List String
after_header = "After=db.service" ∷ "[Service]" ∷ "ExecStart=/bin/web" ∷ []

two_sections_lines : trimmed_lines two_sections ≡ ("# a service" ∷ []) ++ "[Unit]" ∷ after_header
unfolding split trim
two_sections_lines = refl

parse_file-enter_example : parse_file two_sections ≡ enter (sections_in after_header "[Unit]" []) []
parse_file-enter_example =
    parse_file-enter two_sections "[Unit]" ("# a service" ∷ []) after_header two_sections_lines refl
      refl

-- A splitter for texts of one word.
abbrev one_word : Shlex
one_word s = some (s ∷ [])

abbrev web_section : ParsedSection
web_section = ("EXECSTART", (0, "/bin/web") ∷ []) ∷ ("SOCKETS", (1, "web.socket") ∷ []) ∷ []

abbrev web_parsed : ParsedServiceSection
web_parsed = record {
  restart = never;
  accept = false;
  notifyaccess = main;
  exec = record { cmd = "/bin/web"; args = []; prefixes = [] };
  stop = [];
  stoppost = [];
  startpre = [];
  startpost = [];
  srcv_type = simple;
  starttimeout = none;
  stoptimeout = none;
  generaltimeout = none;
  dbus_name = none;
  sockets = "web.socket" ∷ [];
  exec_section = record {
    user = none;
    group = none;
    stdout_path = none;
    stderr_path = none;
    supplementary_groups = [];
    environment = none;
  };
}

web_accepted : parse_service_section one_word false web_section ≡ ok web_parsed
unfolding parse_service_section
web_accepted = refl

parse_service_section-known_example : contains used_settings "SOCKETS" ≡ true
unfolding contains_key
parse_service_section-known_example =
    parse_service_section-known one_word false web_section web_parsed "SOCKETS" web_accepted refl

abbrev listening : ParsedSection
listening = ("LISTENSTREAM", (0, "./a") ∷ (2, "./c") ∷ []) ∷ ("LISTENFIFO", (1, "./b") ∷ []) ∷ []

socket_kinds-IsOrdered_example :
    IsOrdered (socket_kinds listening) × Perm (socket_kinds listening) (listed listening)
socket_kinds-IsOrdered_example = socket_kinds-IsOrdered listening

abbrev system : Platform
system = record {
  getpwnam_r = λ name. none;
  getgrnam_r = λ name. none;
  getuid = 0;
  getgid = 0;
  make_cgroup_path = λ name. ok name;
}

abbrev web_conf : ParsedServiceConfig
web_conf = record {
  common = record {
    unit = record {
      description = "";
      wants = [];
      requires = [];
      before = [];
      after = "db.service" ∷ [];
    };
    install = record { wanted_by = []; required_by = [] };
    name = "web.service";
  };
  srvc = web_parsed;
}

abbrev unit_of : Result String UnitEntry → UnitEntry
unit_of (ok unit) = unit
unit_of _ = web_unit never_started

abbrev made : UnitEntry
made = unit_of (unit_from_parsed_service system web_conf)

made_ok : unit_from_parsed_service system web_conf ≡ ok made
unfolding unit_from_parsed_service
made_ok = refl

unit_from_parsed_service-RefersTo_example :
    (sockets : List UnitId) × (ids_of ("web.socket" ∷ []) ≡ ok sockets)
    × RefersTo made.common sockets
unit_from_parsed_service-RefersTo_example =
    unit_from_parsed_service-RefersTo system web_conf made made_ok

abbrev env : Environment
env = record {
  platform = system;
  shlex_split = one_word;
  dbus_support = false;
  addresses = record { parse_ipv4_addr = λ addr. some addr; parse_ipv6_addr = λ addr. none };
}

abbrev no_units : Tables
no_units = record { services = []; sockets = []; targets = [] }

parse_all_units-ne_example :
    parse_all_units env 3 (file "web.service" (some two_sections) ∷ folder ∷ []) no_units
    ≢ some (ok no_units)
parse_all_units-ne_example =
    parse_all_units-ne env 3 (file "web.service" (some two_sections) ∷ folder ∷ []) no_units
      no_units refl

abbrev disk : Disk
disk = record {
  env = env;
  depth = 1;
  dirs =
      (file "default.target" (some "[Unit]\nRequires=web.service\nAfter=web.service")
        ∷ file "web.service" (some "[Service]\nExecStart=/bin/web")
        ∷ file "web.socket" (some "[Socket]\nListenStream=./web")
        ∷ [])
      ∷ [];
  find = λ name. ok none;
  parsing_error = λ e. "parsing";
  resolve_error = λ e. "resolving";
}

abbrev table_of : Result String UnitTable → UnitTable
table_of (ok table) = table
table_of _ = []

abbrev loaded : UnitTable
loaded = table_of (load_all_units (unit_files disk) "default.target")

disk-loaded : load_all_units (unit_files disk) "default.target" ≡ ok loaded
unfolding load_all_units unit_files id_eq contains collect_unit_start_subgraph collect gather
    unknown needs start_before_this start_concurrently_with_this id_le
disk-loaded = refl

three_units : length (keys loaded) ≡ 3
unfolding load_all_units unit_files keys id_eq contains collect_unit_start_subgraph collect gather
    unknown needs start_before_this start_concurrently_with_this id_le
three_units = refl

load_all_units-IsLoaded_example : IsLoaded loaded × IsSteady loaded
load_all_units-IsLoaded_example = load_all_units-IsLoaded disk "default.target" loaded disk-loaded
