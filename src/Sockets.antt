-- ===== src/Sockets.antt =====
-- `Socket::open_all` and `Socket::close_all` of src/sockets/mod.rs. They fill two fields of `Ops`. The calls of
-- the operating system are parameters, given the number of calls that were made before.
pub mod RoundTrip
use rustysd.Prelude.{
  ℕ, suc, String, Bool, true, false, List, [], ◌∷◌, Option, none, some, if◌then◌else◌, ◌==◌,
  string_eq,
}
use rustysd.Prelude.Map.{get, insert, remove, contains_key}
use rustysd.Units.Id.{UnitId}
use rustysd.Units.Config.{SpecializedSocketConfig, SingleSocketConfig, SocketConfig}
use rustysd.Units.Unit.{Socket}
use rustysd.Units.Runtime.{Shared, Result, ok, err, panic}
use rustysd.Units.Lifecycle.{Ops}
use rustysd.FdStore.{FdStore, GlobalEntry, insert_global, remove_global}

-- `SpecializedSocketConfig::open` and `close`, and whether setting `FD_CLOEXEC` works.
pub record OsSockets : Type 0 where
  pub open_socket : SpecializedSocketConfig → ℕ → Result String ℕ
  pub set_cloexec : ℕ → ℕ → Bool
  pub close_socket : SpecializedSocketConfig → ℕ → ℕ → Result String Unit

-- The part of the store that sockets use.
unfoldable pub store_of : Shared → FdStore
store_of shared = record { global_sockets = shared.global; service_stored_sockets = [] }

unfoldable pub put_store : FdStore → ℕ → Shared → Shared
put_store store clock shared = record shared { global = store.global_sockets; clock = clock }

-- What opening one socket gives. `none` is one of the two `unwrap`.
unfoldable pub opened : OsSockets → Result String ℕ → ℕ → Option ℕ
opened os (ok fd) clock = if os.set_cloexec fd clock then some fd else none
opened os (err e) clock = none
opened os panic clock = none

-- The loop over the sockets. `none` is a panic.
unfoldable pub open_each :
    OsSockets → UnitId → String → List SingleSocketConfig → ℕ → Option (GlobalEntry × ℕ)
unfolding opened
open_each os id fd_name [] clock = some ([], clock)
open_each os id fd_name (conf ∷ sockets) clock =
    let rest = open_each os id fd_name sockets (suc (suc clock)) in
    elim (opened os (os.open_socket conf.specialized clock) (suc clock)) [
      | none ↦ none
      | some fd ↦ elim rest [
        | none ↦ none
        | some (fds, after) ↦ some ((id, fd_name, fd) ∷ fds, after)
      ]
    ]

-- The loop over the stored descriptors; more of them than there are sockets is an index out of bounds.
unfoldable pub close_each :
    OsSockets → List SingleSocketConfig → GlobalEntry → ℕ → Result String Unit × ℕ
close_each os sockets [] clock = (ok tt, clock)
close_each os [] (fd ∷ fds) clock = (panic, clock)
close_each os (conf ∷ sockets) ((id, name, fd) ∷ fds) clock =
    let rest = close_each os sockets fds (suc clock) in
    elim (os.close_socket conf.specialized fd clock) [
      | ok _ ↦ rest
      | err e ↦ (err e, suc clock)
      | panic ↦ (panic, suc clock)
    ]

unfoldable pub open_all :
    OsSockets → SocketConfig → UnitId → Socket → Shared → Result String Unit × Socket × Shared
unfolding open_each insert_global store_of put_store
open_all os conf id sock shared =
    elim (open_each os id conf.filedesc_name conf.sockets shared.clock) [
      | none ↦ (panic, sock, shared)
      | some (fds, clock) ↦
          (ok tt, sock, put_store (insert_global id.name fds (store_of shared)).1 clock shared)
    ]

-- After the entry was taken out of the store.
unfoldable pub close_stored :
    OsSockets
    → SocketConfig
    → Socket
    → Option GlobalEntry
    → Shared
    → Result String Unit × Socket × Shared
unfolding close_each
close_stored os conf sock none shared = (ok tt, sock, shared)
close_stored os conf sock (some fds) shared =
    let (res, clock) = close_each os conf.sockets fds shared.clock in
    (res, sock, record shared { clock = clock })

unfoldable pub close_all :
    OsSockets → SocketConfig → UnitId → Socket → Shared → Result String Unit × Socket × Shared
unfolding close_stored remove_global store_of put_store
close_all os conf id sock shared =
    let (fds, store) = remove_global id.name (store_of shared) in
    close_stored os conf sock fds (put_store store shared.clock shared)

-- The calls of a socket, in the interface of the life cycle.
abbrev pub with_sockets : OsSockets → Ops → Ops
with_sockets os ops = record ops { open_all = open_all os; close_all = close_all os }
