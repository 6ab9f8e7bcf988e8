-- ===== src/Parser/Load/Keyed.antt =====
-- The tables of the units that were read.
use Prim.Native.String.{String}
use rustysd.Prelude.{
  subst, ℕ, zero, suc, ◌≡◌, refl, inl, inr, List, [], ◌∷◌, Option, none, some, arith, Option-cases,
  Bool-cases, ◌==◌, IsNodup,
}
use rustysd.Prelude.Map.{insert, keys, keys-insert-IsNodup}
use rustysd.Units.Id.{unit_id_eq, ends_with}
use rustysd.Units.Unit.{UnitEntry}
use rustysd.Units.Runtime.{UnitTable, ok, err, panic}
use rustysd.Units.Runtime.Laws.{Result-cases}
use rustysd.Shutdown.Ends.{HasOwnKeys}
use rustysd.Loading.Resolve.Fresh.{AreFresh, insert-AreFresh}
use rustysd.Units.Status.{never_started}
use rustysd.Parser.Load.New.{service_unit_new, socket_unit_new, target_unit_new}
use rustysd.Parser.File.{ParsedFile, parse_file}
use rustysd.Parser.Config.{◌>>=◌}
use rustysd.Parser.Common.{Parsed}
use rustysd.Parser.Load.{
  Environment, Entry, file, folder, Tables, service_unit, socket_unit, target_unit, add_unit,
  add_file, add_entries, parse_all_units, extend_all, merged,
}

-- Each unit stands under its own identifier, and under no other.
pub record IsTable (table : UnitTable) : Type 0 where
  pub own : HasOwnKeys table
  pub distinct : IsNodup (keys table)
  pub fresh : AreFresh table

insert-HasOwnKeys :
    (u : UnitEntry) (table : UnitTable) → HasOwnKeys table → HasOwnKeys (insert u.id u table)
unfolding insert
insert-HasOwnKeys u [] h = (refl, tt)
insert-HasOwnKeys u ((k, v) ∷ table) h = elim (Bool-cases (k == u.id)) [
  | inl same ↦ rw (same, insert) (refl, h.1)
  | inr other ↦ rw (other, insert) (h.0, insert-HasOwnKeys u table h.1)
]

insert-IsTable :
    (u : UnitEntry) (table : UnitTable)
    → u.common.status ≡ never_started
    → IsTable table
    → IsTable (insert u.id u table)
insert-IsTable u table new t = record {
  own = insert-HasOwnKeys u table t.own;
  distinct = keys-insert-IsNodup u.id u table t.distinct;
  fresh = insert-AreFresh u.id u table new t.fresh;
}

-- The same of the three tables.
pub record AreTables (t : Tables) : Type 0 where
  pub services : IsTable t.services
  pub sockets : IsTable t.sockets
  pub targets : IsTable t.targets

abbrev pub Keeps : Tables → Parsed Tables → Type 0
Keeps t (ok t') = AreTables t → AreTables t'
Keeps t _ = Unit

put-Keeps :
    (r : Parsed UnitEntry) (put : UnitEntry → Tables) (t : Tables)
    → ((u : UnitEntry) → r ≡ ok u → u.common.status ≡ never_started)
    → ((u : UnitEntry) → u.common.status ≡ never_started → AreTables t → AreTables (put u))
    → Keeps t (r >>= λ u. ok (put u))
put-Keeps (ok u) put t new keeps = keeps u (new u refl)
put-Keeps (err e) put t new keeps = tt
put-Keeps panic put t new keeps = tt

add_unit-Keeps :
    (env : Environment) (name : String) (parsed : ParsedFile) (t : Tables)
    → Keeps t (add_unit env name parsed t)
unfolding add_unit
add_unit-Keeps env name parsed t = elim (Bool-cases (ends_with name ".service")) [
  | inl e ↦ rw e (
      put-Keeps (service_unit env parsed name)
        (λ u. record t { services = insert u.id u t.services }) t (service_unit_new env parsed name)
        (λ u new k. record {
          services = insert-IsTable u t.services new k.services;
          sockets = k.sockets;
          targets = k.targets;
        }))
  | inr e1 ↦ elim (Bool-cases (ends_with name ".socket")) [
    | inl e ↦
        rw (e1, e)
          (put-Keeps (socket_unit env parsed name)
            (λ u. record t { sockets = insert u.id u t.sockets }) t
            (socket_unit_new env parsed name)
            (λ u new k. record {
              services = k.services;
              sockets = insert-IsTable u t.sockets new k.sockets;
              targets = k.targets;
            }))
    | inr e2 ↦ elim (Bool-cases (ends_with name ".target")) [
      | inl e ↦
          rw (e1, e2, e)
            (put-Keeps (target_unit env parsed name)
              (λ u. record t { targets = insert u.id u t.targets }) t
              (target_unit_new env parsed name)
              (λ u new k. record {
                services = k.services;
                sockets = k.sockets;
                targets = insert-IsTable u t.targets new k.targets;
              }))
      | inr e3 ↦ rw (e1, e2, e3) (λ k. k)
    ]
  ]
]

add_file-Keeps :
    (env : Environment) (name : String) (content : Option String) (t : Tables)
    → Keeps t (add_file env name content t)
unfolding add_file
add_file-Keeps env name none t = tt
add_file-Keeps env name (some raw) t = elim (Result-cases (parse_file raw)) [
  | inl (parsed, went) ↦ rw went (add_unit-Keeps env name parsed t)
  | inr (inl (x, failed)) ↦ rw failed tt
  | inr (inr failed) ↦ rw failed tt
]

Keeps-ok : (t t' : Tables) (r : Parsed Tables) → Keeps t r → r ≡ ok t' → AreTables t → AreTables t'
Keeps-ok t t' r keeps went = subst (Keeps t) went keeps

add_entries-AreTables :
    (env : Environment) (again : Tables → Option (Parsed Tables)) (entries : List Entry)
    (t t' : Tables)
    → ((s s' : Tables) → again s ≡ some (ok s') → AreTables s → AreTables s')
    → add_entries env again entries t ≡ some (ok t')
    → AreTables t
    → AreTables t'
unfolding add_entries
add_entries-AreTables env again [] t t' keeps e k = subst AreTables (ground arith) k
add_entries-AreTables env again (file name content ∷ entries) t t' keeps e k =
    elim (Result-cases (add_file env name content t)) [
      | inl (s, went) ↦
          add_entries-AreTables env again entries s t' keeps (ground arith)
            (Keeps-ok t s _ (add_file-Keeps env name content t) went k)
      | inr (inl (x, failed)) ↦ absurd (ground arith)
      | inr (inr failed) ↦ absurd (ground arith)
    ]
add_entries-AreTables env again (folder ∷ entries) t t' keeps e k = elim (Option-cases (again t)) [
  | inl deep ↦ absurd (ground arith)
  | inr (r, back) ↦ elim (Result-cases r) [
    | inl (s, went) ↦
        add_entries-AreTables env again entries s t' keeps (ground arith)
          (keeps t s (ground arith) k)
    | inr (inl (x, failed)) ↦ absurd (ground arith)
    | inr (inr failed) ↦ absurd (ground arith)
  ]
]

pub parse_all_units-AreTables :
    (env : Environment) (fuel : ℕ) (entries : List Entry) (t t' : Tables)
    → parse_all_units env fuel entries t ≡ some (ok t')
    → AreTables t
    → AreTables t'
unfolding parse_all_units
parse_all_units-AreTables env zero entries t t' e = absurd (cc)
parse_all_units-AreTables env (suc fuel) entries t t' e =
    add_entries-AreTables env (parse_all_units env fuel entries) entries t t'
      (parse_all_units-AreTables env fuel entries) e

extend_all-IsTable :
    (table more : UnitTable)
    → IsTable table
    → HasOwnKeys more
    → AreFresh more
    → IsTable (extend_all table more)
extend_all-IsTable table [] t own fresh = t
extend_all-IsTable table ((id, u) ∷ more) t own fresh =
    extend_all-IsTable (insert id u table) more
      (subst (λ k. IsTable (insert k u table)) own.0 (insert-IsTable u table fresh.0 t)) own.1
      fresh.1

pub merged-IsTable : (t : Tables) → AreTables t → IsTable (merged t)
unfolding merged keys
merged-IsTable t k =
    let s =
      extend_all-IsTable [] t.services (record { own = tt; distinct = tt; fresh = tt })
        k.services.own k.services.fresh in
    let s' =
      extend_all-IsTable (extend_all [] t.services) t.sockets s k.sockets.own k.sockets.fresh in
    extend_all-IsTable (extend_all (extend_all [] t.services) t.sockets) t.targets s' k.targets.own
      k.targets.fresh
