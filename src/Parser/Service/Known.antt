-- ===== src/Parser/Service/Known.antt =====
-- The settings of a service.
use Prim.Native.String.{String}
use rustysd.Prelude.{List, [], ◌∷◌, ◌≡◌, sym, ap, ◌∙◌, Bool, true, ◌++◌, contains, string_eq}
use rustysd.Prelude.Map.{contains_key}
use rustysd.Units.Runtime.{ok}
use rustysd.Parser.Section.{ParsedSection}
use rustysd.Parser.Config.{ParsedServiceSection, >>=-eq-ok}
use rustysd.Parser.Common.{Shlex, remove_names, refuse_unused, exec_settings, parse_exec_section}
use rustysd.Parser.Common.Settings.{known_settings, remove_names-append}
use rustysd.Parser.Service.{List, service_settings, parse_service_section}

-- The twenty settings of a service whose values the parser uses.
abbrev pub used_settings : List String
used_settings =
    "EXECSTART" ∷ "EXECSTOP" ∷ "EXECSTOPPOST" ∷ "EXECSTARTPRE" ∷ "EXECSTARTPOST" ∷ "TIMEOUTSTARTSEC"
    ∷ "TIMEOUTSTOPSEC" ∷ "TIMEOUTSEC" ∷ "RESTART" ∷ "SOCKETS" ∷ "NOTIFYACCESS" ∷ "TYPE" ∷ "ACCEPT"
    ∷ "BUSNAME" ∷ "USER" ∷ "GROUP" ∷ "STANDARDOUTPUT" ∷ "STANDARDERROR" ∷ "SUPPLEMENTARYGROUPS"
    ∷ "ENVIRONMENT" ∷ []

-- When the section of a service is accepted, each of its settings is one of twenty: those of the commands, the
-- timeouts, the restarts, the sockets, the notifications, the type and the bus, and those of the execution.
pub parse_service_section-known :
    (shlex_split : Shlex) (dbus_support : Bool) (section : ParsedSection)
    (parsed : ParsedServiceSection) (k : String)
    → parse_service_section shlex_split dbus_support section ≡ ok parsed
    → contains_key k section ≡ true
    → contains used_settings k ≡ true
unfolding parse_service_section
parse_service_section-known shlex_split dbus_support section parsed k e c =
    let (exec_section, _, more) =
      >>=-eq-ok (parse_exec_section shlex_split (remove_names service_settings section)) _ e in
    let (u, empty, _) =
      >>=-eq-ok (refuse_unused (remove_names exec_settings (remove_names service_settings section)))
        _ more in
    known_settings (service_settings ++ exec_settings) section k
      (ap refuse_unused (sym (remove_names-append service_settings exec_settings section)) ∙ empty)
      c
