-- ===== src/Sockets/RoundTrip.antt =====
-- Opening the sockets of a unit and closing them again.
use rustysd.Prelude.{
  ℕ, suc, String, ◌≡◌, ◌≢◌, refl, subst, ◌⊎◌, Bool-cases, inl, inr, false, List, [], ◌∷◌, none,
  some, arith, Option-cases, string_eq, eq_refl,
}
use rustysd.Prelude.Map.{get, insert, contains_key, get-insert, get-remove, contains_key-get}
use rustysd.Units.Id.{UnitId}
use rustysd.Units.Config.{SpecializedSocketConfig, SingleSocketConfig, SocketConfig}
use rustysd.Units.Unit.{Socket}
use rustysd.Units.Runtime.{Shared, Result, ok, err, panic}
use rustysd.Units.Runtime.Laws.{Result-cases}
use rustysd.FdStore.{GlobalEntry, insert_global, remove_global}
use rustysd.Sockets.{
  OsSockets, store_of, put_store, opened, open_each, close_each, open_all, close_stored, close_all,
}

-- Each descriptor is the one that its socket was opened with, in their order, two calls for each: it is opened
-- and then told not to stay open in other programs.
abbrev pub AreOpened :
    OsSockets → UnitId → String → List SingleSocketConfig → ℕ → GlobalEntry → Type 0
AreOpened os id name [] clock [] = Unit
AreOpened os id name (conf ∷ sockets) clock ((id', name', fd) ∷ fds) =
    (id' ≡ id)
    × (name' ≡ name)
    × (os.open_socket conf.specialized clock ≡ ok fd)
    × AreOpened os id name sockets (suc (suc clock)) fds
AreOpened os id name _ clock _ = ⊥

-- The descriptors are closed one after the other, each with the configuration of its socket, until one close
-- fails; its error is the result.
abbrev pub AreClosed :
    OsSockets → List SingleSocketConfig → ℕ → GlobalEntry → Result String Unit × ℕ → Type 0
AreClosed os [] clock [] (r, after) = (r ≡ ok tt) × (after ≡ clock)
AreClosed os (conf ∷ sockets) clock ((_, _, fd) ∷ fds) (r, after) =
    ((os.close_socket conf.specialized fd clock ≡ ok tt)
      × AreClosed os sockets (suc clock) fds (r, after))
    ⊎ ((e : String) × (os.close_socket conf.specialized fd clock ≡ err e)
        × (r ≡ err e)
        × (after ≡ suc clock))
AreClosed os _ clock _ (r, after) = ⊥

open_each-AreOpened :
    (os : OsSockets) (id : UnitId) (name : String) (sockets : List SingleSocketConfig)
    (clock after : ℕ) (fds : GlobalEntry)
    → open_each os id name sockets clock ≡ some (fds, after)
    → AreOpened os id name sockets clock fds
unfolding open_each opened
open_each-AreOpened os id name [] clock after fds e =
    let same : [] ≡ fds = ground arith in subst (AreOpened os id name [] clock) same tt
open_each-AreOpened os id name (conf ∷ sockets) clock after fds e =
    elim (Result-cases (os.open_socket conf.specialized clock)) [
      | inr (inl (x, failed)) ↦ absurd (ground arith)
      | inr (inr failed) ↦ absurd (ground arith)
      | inl (fd, went) ↦ elim (Bool-cases (os.set_cloexec fd (suc clock))) [
        | inr stays ↦ absurd (ground arith)
        | inl told ↦ elim (Option-cases (open_each os id name sockets (suc (suc clock)))) [
          | inl failed ↦ absurd (ground arith)
          | inr ((rest, last), ran) ↦
              let ih = open_each-AreOpened os id name sockets (suc (suc clock)) last rest ran in
              let same : (id, name, fd) ∷ rest ≡ fds = ground arith in
              subst (AreOpened os id name (conf ∷ sockets) clock) same (refl, refl, went, ih)
        ]
      ]
    ]

close_each-AreClosed :
    (os : OsSockets) (id : UnitId) (name : String) (sockets : List SingleSocketConfig)
    (fds : GlobalEntry) (opened_at clock : ℕ)
    → ((conf : SpecializedSocketConfig) (fd n : ℕ) → os.close_socket conf fd n ≢ panic)
    → AreOpened os id name sockets opened_at fds
    → AreClosed os sockets clock fds (close_each os sockets fds clock)
unfolding close_each
close_each-AreClosed os id name [] [] opened_at clock calm o = (refl, refl)
close_each-AreClosed os id name [] (fd ∷ fds) opened_at clock calm o = absurd o
close_each-AreClosed os id name (conf ∷ sockets) [] opened_at clock calm o = absurd o
close_each-AreClosed os id name (conf ∷ sockets) ((id', name', fd) ∷ fds) opened_at clock calm
      (_, _, _, o) =
    elim (Result-cases (os.close_socket conf.specialized fd clock)) [
      | inr (inr broken) ↦ absurd (calm conf.specialized fd clock broken)
      | inr (inl (x, failed)) ↦ rw (close_each, failed) (inr (x, refl, refl, refl))
      | inl (x, went) ↦
          let ih =
            close_each-AreClosed os id name sockets fds (suc (suc opened_at)) (suc clock) calm o in
          rw (close_each, went) (inl (refl, ih))
    ]

-- The descriptors with which a unit opened its sockets, under a free name, stand in the store under that name. When
-- it closes them, and no close panics, each of them is closed with the configuration of its socket, until
-- a close fails, and the name is free again.
pub close_all-open_all :
    (os : OsSockets) (conf : SocketConfig) (id : UnitId) (sock sock' : Socket)
    (shared shared' : Shared)
    → ((c : SpecializedSocketConfig) (fd n : ℕ) → os.close_socket c fd n ≢ panic)
    → get id.name shared.global ≡ none
    → open_all os conf id sock shared ≡ (ok tt, sock', shared')
    → (fds : GlobalEntry) × (get id.name shared'.global ≡ some fds)
      × AreOpened os id conf.filedesc_name conf.sockets shared.clock fds
      × AreClosed os conf.sockets shared'.clock fds
          ((close_all os conf id sock' shared').0, (close_all os conf id sock' shared').2.clock)
      × (get id.name (close_all os conf id sock' shared').2.global ≡ none)
unfolding open_all close_all close_stored insert_global remove_global store_of put_store
close_all-open_all os conf id sock sock' shared shared' calm free e =
    elim (Option-cases (open_each os id conf.filedesc_name conf.sockets shared.clock)) [
      | inl failed ↦ absurd (ground arith)
      | inr ((fds, clock), went) ↦
          let unknown : contains_key id.name shared.global ≡ false =
            ground (arith, contains_key-get id.name shared.global) in
          let stored : shared'.global ≡ insert id.name fds shared.global = ground arith in
          let found : get id.name shared'.global ≡ some fds =
            ground (arith, get-insert id.name id.name fds shared.global, eq_refl id.name) in
          let o =
            open_each-AreOpened os id conf.filedesc_name conf.sockets shared.clock clock fds went in
          let c =
            close_each-AreClosed os id conf.filedesc_name conf.sockets fds shared.clock
              shared'.clock calm o in
          (
            fds,
            found,
            o,
            rw (found, close_all) c,
            rw (found, close_all)
                (ground (arith, get-remove id.name id.name shared'.global, eq_refl id.name)),
          )
    ]
