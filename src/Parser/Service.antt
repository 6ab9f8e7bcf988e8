-- ===== src/Parser/Service.antt =====
-- src/units/unit_parsing/service_unit.rs. `shlex::split` and the feature dbus_support are parameters.
pub mod Timeouts
pub mod Known
use Prim.Native.Char.{code}
use Prim.Native.String.{String, ◌++◌ as ◌<>◌}
use text.Mathlib.Text.{starts_with, ◌==◌ as str_eq}
use rustysd.Prelude.{
  ℕ, Bool, true, false, List, [], ◌∷◌, ◌++◌, Option, none, some, if◌then◌else◌, string_eq, nat_beq,
  leb,
}
use rustysd.Prelude.Map.{get}
use rustysd.Prelude.Text.{to_uppercase}
use rustysd.Units.Config.{
  ServiceType, simple, notify, dbus, one_shot, NotifyKind, main, exec, all, nobody, ServiceRestart,
  always, never, Commandline, CommandlinePrefix, minus, Timeout,
}
use rustysd.Units.Runtime.{Result, ok, err, panic}
use rustysd.Parser.Section.{ParsedSection}
use rustysd.Parser.File.{ParsedFile}
use rustysd.Parser.Config.{
  ParsingErrorReason, unknown_setting, unsupported_setting, missing_setting,
  setting_too_many_values, section_not_found, unknown_section, generic, ParsedUnitSection,
  ParsedInstallSection, ParsedServiceSection, ParsedServiceConfig, ◌>>=◌,
}
use rustysd.Parser.Common.{
  Parsed, Shlex, map_tupels_to_second, all_values, remove_names, refuse_unused, string_to_bool,
  exec_settings, parse_exec_section, parse_unit_section, parse_install_section,
}
use rustysd.Parser.Service.Timeouts.{parse_timeout}

-- A prefix that is refused.
abbrev pub unsupported_prefix : String → Parsed Commandline
unsupported_prefix p =
    err (unsupported_setting ("The prefix '" <> (p <> "' for cmdlines is currently not supported")))

-- What follows an exclamation mark: the slice `[1..2]` panics where the next character is not one byte.
unfoldable pub second_mark : String → Parsed Commandline
second_mark String.[] = panic
second_mark (String.◌∷◌ c cmd) =
    if leb 128 (code c)
    then panic
    else if nat_beq (code c) b'!'
    then unsupported_prefix "!!"
    else unsupported_prefix "!"

-- The loop over the prefixes of a command. The slice `[..1]` panics on an empty text and inside a character.
unfoldable pub strip_prefixes : String → List String → List CommandlinePrefix → Parsed Commandline
unfolding second_mark
strip_prefixes String.[] args prefixes = panic
strip_prefixes (String.◌∷◌ c cmd) args prefixes =
    let rest = strip_prefixes cmd args (prefixes ++ minus ∷ []) in
    if leb 128 (code c)
    then panic
    else if nat_beq (code c) b'-'
    then rest
    else if nat_beq (code c) b'+'
    then unsupported_prefix "+"
    else if nat_beq (code c) b'@'
    then unsupported_prefix "@"
    else if nat_beq (code c) b':'
    then unsupported_prefix ":"
    else if nat_beq (code c) b'!'
    then second_mark cmd
    else ok (record { cmd = String.◌∷◌ c cmd; args = args; prefixes = prefixes })

-- A setting that must have one value where it is given.
unfoldable pub exactly_one :
    {A : Type 0} → String → Option (List (ℕ × String)) → A → (String → Parsed A) → Parsed A
unfolding map_tupels_to_second
exactly_one name none default read = ok default
exactly_one name (some ((_, value) ∷ [])) default read = read value
exactly_one name (some vec) default read =
    err (setting_too_many_values name (map_tupels_to_second vec))

unfoldable pub read_timeout : String → Parsed (Option Timeout)
unfolding parse_timeout
read_timeout value = do t ← parse_timeout value; ok (some t)

unfoldable pub read_type : Bool → String → Parsed ServiceType
read_type dbus_support name =
    if str_eq name "simple"
    then ok simple
    else if str_eq name "notify"
    then ok notify
    else if str_eq name "oneshot"
    then ok one_shot
    else if str_eq name "dbus"
    then (if dbus_support then ok dbus else err (unsupported_setting "Type=dbus"))
    else err (unknown_setting "Type" name)

-- An empty list of values has an error of its own.
unfoldable pub service_type : Bool → Option (List (ℕ × String)) → Parsed ServiceType
unfolding exactly_one read_type
service_type dbus_support (some []) = err (missing_setting "Type")
service_type dbus_support setting =
    exactly_one {A = ServiceType} "Type" setting simple (read_type dbus_support)

unfoldable pub read_notifyaccess : String → Parsed NotifyKind
read_notifyaccess name =
    if str_eq name "all"
    then ok all
    else if str_eq name "main"
    then ok main
    else if str_eq name "exec"
    then ok exec
    else if str_eq name "none"
    then ok nobody
    else err (unknown_setting "NotifyAccess" name)

unfoldable pub read_restart : String → Parsed ServiceRestart
unfolding to_uppercase
read_restart value =
    if str_eq (to_uppercase value) "ALWAYS"
    then ok always
    else if str_eq (to_uppercase value) "NO"
    then ok never
    else err (unknown_setting "Restart" (to_uppercase value))

-- `Type=dbus` wants a name on the bus.
unfoldable pub check_dbus : ServiceType → Option String → Parsed Unit
check_dbus dbus none = err (missing_setting "BusName")
check_dbus _ dbus_name = ok tt

abbrev pub service_settings : List String
service_settings =
    "EXECSTART" ∷ "EXECSTOP" ∷ "EXECSTOPPOST" ∷ "EXECSTARTPRE" ∷ "EXECSTARTPOST" ∷ "TIMEOUTSTARTSEC"
    ∷ "TIMEOUTSTOPSEC" ∷ "TIMEOUTSEC" ∷ "RESTART" ∷ "SOCKETS" ∷ "NOTIFYACCESS" ∷ "TYPE" ∷ "ACCEPT"
    ∷ "BUSNAME" ∷ []

module _ (shlex_split : Shlex) (dbus_support : Bool) where
  -- `split.remove(0)` panics where there is no word.
  unfoldable pub command_of : List String → Parsed Commandline
  unfolding strip_prefixes
  command_of [] = panic
  command_of (cmd ∷ args) = strip_prefixes cmd args []

  unfoldable pub parse_cmdline : String → Parsed Commandline
  unfolding command_of
  parse_cmdline raw_line = elim (shlex_split raw_line) [
    | none ↦ err (generic ("Could not parse cmdline: " <> raw_line))
    | some words ↦ command_of words
  ]

  unfoldable pub parse_cmdlines : List (ℕ × String) → Parsed (List Commandline)
  unfolding parse_cmdline
  parse_cmdlines [] = ok []
  parse_cmdlines ((_, cmdline) ∷ raw_lines) = do
    c ← parse_cmdline cmdline
    rest ← parse_cmdlines raw_lines
    ok (c ∷ rest)

  unfoldable pub optional_cmdlines : Option (List (ℕ × String)) → Parsed (List Commandline)
  unfolding parse_cmdlines
  optional_cmdlines none = ok []
  optional_cmdlines (some vec) = parse_cmdlines vec

  unfoldable pub exec_start : Option (List (ℕ × String)) → Parsed Commandline
  unfolding parse_cmdline map_tupels_to_second
  exec_start none = err (missing_setting "ExecStart")
  exec_start (some ((_, value) ∷ [])) = parse_cmdline value
  exec_start (some vec) = err (setting_too_many_values "ExecStart" (map_tupels_to_second vec))

  unfoldable pub parse_service_section : ParsedSection → Parsed ParsedServiceSection
  unfolding remove_names refuse_unused parse_exec_section exactly_one read_timeout exec_start
      service_type read_notifyaccess optional_cmdlines read_restart check_dbus all_values
      string_to_bool get
  parse_service_section section = do
    exec_section ← parse_exec_section shlex_split (remove_names service_settings section)
    _ ← refuse_unused (remove_names exec_settings (remove_names service_settings section))
    starttimeout ← exactly_one "TimeoutStartSec" (get "TIMEOUTSTARTSEC" section) none read_timeout
    stoptimeout ← exactly_one "TimeoutStopSec" (get "TIMEOUTSTOPSEC" section) none read_timeout
    generaltimeout ← exactly_one "TimeoutSec" (get "TIMEOUTSEC" section) none read_timeout
    command ← exec_start (get "EXECSTART" section)
    srcv_type ← service_type dbus_support (get "TYPE" section)
    notifyaccess ← exactly_one "NotifyAccess" (get "NOTIFYACCESS" section) main read_notifyaccess
    stop ← optional_cmdlines (get "EXECSTOP" section)
    stoppost ← optional_cmdlines (get "EXECSTOPPOST" section)
    startpre ← optional_cmdlines (get "EXECSTARTPRE" section)
    startpost ← optional_cmdlines (get "EXECSTARTPOST" section)
    restart ← exactly_one "Restart" (get "RESTART" section) never read_restart
    accept ← exactly_one "Accept" (get "ACCEPT" section) false (λ value. ok (string_to_bool value))
    dbus_name ← exactly_one "BusName" (get "BUSNAME" section) none (λ value. ok (some value))
    _ ← check_dbus srcv_type dbus_name
    ok (record {
      restart = restart;
      accept = accept;
      notifyaccess = notifyaccess;
      exec = command;
      stop = stop;
      stoppost = stoppost;
      startpre = startpre;
      startpost = startpost;
      srcv_type = srcv_type;
      starttimeout = starttimeout;
      stoptimeout = stoptimeout;
      generaltimeout = generaltimeout;
      dbus_name = dbus_name;
      sockets = all_values (get "SOCKETS" section);
      exec_section = exec_section;
    })
