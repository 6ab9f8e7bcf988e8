-- ===== src/FdStore.antt =====
-- src/fd_store.rs: the file descriptors that are held open, under the name of a socket unit or of a service.
use rustysd.Prelude.{
  eq_iff, eq_refl, ℕ, String, ◌≡◌, refl, true, false, List, [], ◌∷◌, ◌++◌, Option, none, some,
  arith, Option-cases, if◌then◌else◌, ◌==◌, string_eq, inl, inr,
}
use rustysd.Prelude.Map.{
  get, contains_key, insert, remove, get-insert, get-remove, contains_key-get,
}
use rustysd.Prelude.Partial.{◌>>=◌}
use rustysd.Units.Id.{UnitId}

abbrev pub GlobalEntry : Type 0
GlobalEntry = List (UnitId × String × ℕ)

pub record FdStore : Type 0 where
  pub global_sockets : List (String × GlobalEntry)
  pub service_stored_sockets : List (String × List (String × List ℕ))

unfoldable pub entry_fds : GlobalEntry → List (ℕ × UnitId)
entry_fds [] = []
entry_fds ((id, name, fd) ∷ fds) = (fd, id) ∷ entry_fds fds

-- The fold over the entries.
unfoldable pub all_fds : List (String × GlobalEntry) → List (ℕ × UnitId)
unfolding entry_fds
all_fds [] = []
all_fds ((_, fds) ∷ entries) = entry_fds fds ++ all_fds entries

unfoldable pub global_fds_to_ids : FdStore → List (ℕ × UnitId)
unfolding all_fds
global_fds_to_ids store = all_fds store.global_sockets

-- The descriptors are handed back where there are some already.
unfoldable pub insert_global : String → GlobalEntry → FdStore → Option GlobalEntry × FdStore
insert_global name new_fds store =
    if contains_key name store.global_sockets
    then (some new_fds, store)
    else (none, record store { global_sockets = insert name new_fds store.global_sockets })

unfoldable pub get_global : String → FdStore → Option GlobalEntry
get_global name store = get name store.global_sockets

unfoldable pub remove_global : String → FdStore → Option GlobalEntry × FdStore
remove_global name store = (
  get name store.global_sockets,
  record store { global_sockets = remove name store.global_sockets },
)

-- `entry(key).or_insert(new)`
unfoldable pub or_insert : {V : Type 0} → V → Option V → V
or_insert new none = new
or_insert new (some v) = v

unfoldable pub insert_service_stored : String → String → List ℕ → FdStore → FdStore
unfolding or_insert
insert_service_stored srvc_name fd_name new_fds store =
    let fds = or_insert [] (get srvc_name store.service_stored_sockets) in
    let stored = or_insert [] (get fd_name fds) in
    record store {
      service_stored_sockets =
          insert srvc_name (insert fd_name (stored ++ new_fds) fds) store.service_stored_sockets;
    }

unfoldable pub get_service_stored : String → String → FdStore → Option (List ℕ)
get_service_stored srvc_name fd_name store = do
  fds ← get srvc_name store.service_stored_sockets
  get fd_name fds

unfoldable pub remove_service_stored : String → String → FdStore → Option (List ℕ) × FdStore
remove_service_stored srvc_name fd_name store = elim (get srvc_name store.service_stored_sockets) [
  | none ↦ (none, store)
  | some fds ↦ (
    get fd_name fds,
    record store {
      service_stored_sockets = insert srvc_name (remove fd_name fds) store.service_stored_sockets;
    },
  )
]

-- What is stored under a name is found there, unless the name was taken: then the descriptors come back and
-- nothing changes. Other names are not touched.
pub get_global-insert_global :
    (name other : String) (fds : GlobalEntry) (store : FdStore)
    → ((get_global name store ≡ none)
        → ((insert_global name fds store).0 ≡ none)
          × (get_global other (insert_global name fds store).1
              ≡ (if name == other then some fds else get_global other store)))
      × ((old : GlobalEntry)
          → get_global name store ≡ some old
          → insert_global name fds store ≡ (some fds, store))
unfolding get_global insert_global
get_global-insert_global name other fds store =
    let known = contains_key-get name store.global_sockets in
    (
      λ lost.
          let free : contains_key name store.global_sockets ≡ false = ground arith in
          (rw free refl, rw free (get-insert name other fds store.global_sockets)),
      λ old found.
          let taken : contains_key name store.global_sockets ≡ true = ground arith in rw taken refl,
    )

-- Descriptors of a service add to those that it stored under the same name before; what any service stored
-- under another name stays.
pub get_service_stored-insert_service_stored :
    (srvc fd srvc' fd' : String) (fds : List ℕ) (store : FdStore)
    → get_service_stored srvc' fd' (insert_service_stored srvc fd fds store) ≡ (
        if srvc == srvc'
        then if fd == fd'
          then some (or_insert [] (get_service_stored srvc fd store) ++ fds)
          else get_service_stored srvc' fd' store
        else get_service_stored srvc' fd' store)
unfolding get_service_stored insert_service_stored or_insert get
get_service_stored-insert_service_stored srvc fd srvc' fd' fds store =
    let m = store.service_stored_sockets in
    let inner = or_insert [] (get srvc m) in
    let here = or_insert [] (get fd inner) ++ fds in
    let outside = get-insert srvc srvc' (insert fd here inner) m in
    let inside = get-insert fd fd' here inner in
    let same = eq_iff srvc srvc' in
    let alike = eq_iff fd fd' in
    elim (Option-cases (get srvc m)) [
      | inl lost ↦ ground (arith, outside, inside, same, alike)
      | inr (old, found) ↦ ground (arith, outside, inside, same, alike)
    ]

-- What is removed is handed out, and is not there any more.
pub get_service_stored-remove_service_stored :
    (srvc fd : String) (store : FdStore)
    → ((remove_service_stored srvc fd store).0 ≡ get_service_stored srvc fd store)
      × (get_service_stored srvc fd (remove_service_stored srvc fd store).1 ≡ none)
unfolding get_service_stored remove_service_stored
get_service_stored-remove_service_stored srvc fd store =
    let m = store.service_stored_sockets in
    elim (Option-cases (get srvc m)) [
      | inl lost ↦ rw (lost, remove_service_stored) (refl, rw lost refl)
      | inr (old, found) ↦
          rw (found, remove_service_stored)
            (
              refl,
              ground (
                arith,
                get-insert srvc srvc (remove fd old) m,
                get-remove fd fd old,
                eq_refl srvc,
                eq_refl fd,
              ),
            )
    ]
