-- ===== src/Parser/Socket.antt =====
-- `parse_socket_section` of src/units/unit_parsing/socket_unit.rs. The parsers of internet addresses and
-- `shlex::split` are parameters.
pub mod Order
use Prim.Native.String.{String}
use text.Mathlib.Text.{starts_with}
use rustysd.Prelude.{
  ℕ, Bool, true, false, ◌||◌, List, [], ◌∷◌, ◌++◌, Option, none, some, if◌then◌else◌, string_eq,
  leb,
}
use rustysd.Prelude.Map.{get}
use rustysd.Units.Config.{
  SocketKind, SpecializedSocketConfig, UnixSocketConfig, unix_socket, tcp_socket, udp_socket,
}
use rustysd.Units.Runtime.{Result, ok, err, panic}
use rustysd.Parser.Section.{ParsedSection}
use rustysd.Parser.Config.{
  ParsingErrorReason, unknown_socket_addr, setting_too_many_values, ParsedSingleSocketConfig,
  ParsedSocketSection, ◌>>=◌,
}
use rustysd.Parser.Common.{
  Parsed, Shlex, map_tupels_to_second, all_values, remove_names, refuse_unused, exec_settings,
  single_value, parse_exec_section,
}

-- `parse_ipv4_addr` and `parse_ipv6_addr`: an address by its text.
pub record SocketAddresses : Type 0 where
  pub parse_ipv4_addr : String → Option String
  pub parse_ipv6_addr : String → Option String

unfoldable pub parse_unix_addr : String → Bool
parse_unix_addr addr = starts_with addr "/" || starts_with addr "./"

-- The values of one setting as sockets of a kind, with their numbers.
unfoldable pub kinds_of : (String → SocketKind) → Option (List (ℕ × String)) → List (ℕ × SocketKind)
kinds_of kind none = []
kinds_of kind (some []) = []
kinds_of kind (some ((n, value) ∷ vec)) = (n, kind value) ∷ kinds_of kind (some vec)

-- `sort_by` on the numbers is stable.
unfoldable pub insert_by_number : ℕ × SocketKind → List (ℕ × SocketKind) → List (ℕ × SocketKind)
insert_by_number (n, k) [] = (n, k) ∷ []
insert_by_number (n, k) ((m, j) ∷ rest) =
    if leb n m then (n, k) ∷ (m, j) ∷ rest else (m, j) ∷ insert_by_number (n, k) rest

unfoldable pub sort_by_number : List (ℕ × SocketKind) → List (ℕ × SocketKind)
unfolding insert_by_number
sort_by_number [] = []
sort_by_number (x ∷ xs) = insert_by_number x (sort_by_number xs)

unfoldable pub without_numbers : List (ℕ × SocketKind) → List SocketKind
without_numbers [] = []
without_numbers ((_, kind) ∷ kinds) = kind ∷ without_numbers kinds

-- The sockets of a section, one setting after the other.
unfoldable pub all_kinds : ParsedSection → List (ℕ × SocketKind)
unfolding kinds_of get
all_kinds section =
    kinds_of SocketKind.stream (get "LISTENSTREAM" section)
    ++ (kinds_of SocketKind.datagram (get "LISTENDATAGRAM" section)
        ++ (kinds_of SocketKind.sequential (get "LISTENSEQUENTIALPACKET" section)
            ++ kinds_of SocketKind.fifo (get "LISTENFIFO" section)))

-- All sockets of a section, as they stand in the file.
unfoldable pub socket_kinds : ParsedSection → List (ℕ × SocketKind)
unfolding all_kinds sort_by_number
socket_kinds section = sort_by_number (all_kinds section)

abbrev pub socket_settings : List String
socket_settings =
    "FILEDESCRIPTORNAME" ∷ "SERVICE" ∷ "LISTENSTREAM" ∷ "LISTENDATAGRAM" ∷ "LISTENSEQUENTIALPACKET"
    ∷ "LISTENFIFO" ∷ []

module _ (shlex_split : Shlex) (addresses : SocketAddresses) where
  -- An address of the internet, of version 4 or else 6.
  unfoldable pub internet :
      (String → SpecializedSocketConfig) → String → Parsed SpecializedSocketConfig
  internet make addr = elim (addresses.parse_ipv4_addr addr) [
    | some a ↦ ok (make a)
    | none ↦ elim (addresses.parse_ipv6_addr addr) [
      | some a ↦ ok (make a)
      | none ↦ err (unknown_socket_addr addr)
    ]
  ]

  unfoldable pub specialize : SocketKind → Parsed SpecializedSocketConfig
  unfolding parse_unix_addr internet
  specialize (SocketKind.fifo addr) =
      if parse_unix_addr addr
      then ok (SpecializedSocketConfig.fifo addr)
      else err (unknown_socket_addr addr)
  specialize (SocketKind.sequential addr) =
      if parse_unix_addr addr
      then ok (unix_socket (UnixSocketConfig.sequential addr))
      else err (unknown_socket_addr addr)
  specialize (SocketKind.stream addr) =
      if parse_unix_addr addr
      then ok (unix_socket (UnixSocketConfig.stream addr))
      else internet tcp_socket addr
  specialize (SocketKind.datagram addr) =
      if parse_unix_addr addr
      then ok (unix_socket (UnixSocketConfig.datagram addr))
      else internet udp_socket addr

  unfoldable pub socket_configs : List SocketKind → Parsed (List ParsedSingleSocketConfig)
  unfolding specialize
  socket_configs [] = ok []
  socket_configs (kind ∷ kinds) = do
    specialized ← specialize kind
    rest ← socket_configs kinds
    ok (record { kind = kind; specialized = specialized } ∷ rest)

  unfoldable pub parse_socket_section : ParsedSection → Parsed ParsedSocketSection
  unfolding remove_names refuse_unused parse_exec_section single_value all_values socket_kinds
      without_numbers socket_configs get
  parse_socket_section section = do
    exec_section ← parse_exec_section shlex_split (remove_names socket_settings section)
    _ ← refuse_unused (remove_names exec_settings (remove_names socket_settings section))
    fdname ← single_value "FileDescriptorName" (get "FILEDESCRIPTORNAME" section)
    sockets ← socket_configs (without_numbers (socket_kinds section))
    ok (record {
      sockets = sockets;
      filedesc_name = fdname;
      services = all_values (get "SERVICE" section);
      exec_section = exec_section;
    })
