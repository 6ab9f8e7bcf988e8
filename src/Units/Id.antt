-- ===== src/Units/Id.antt =====
-- src/units/id.rs, and the conversion of a name to an identifier in src/units/from_parsed_config.rs.
use Prim.Native.String.{String, compare}
use text.Mathlib.Text.{is_le, ◌==◌ as str_eq}
use text.Mathlib.TextEquality.{eq_iff as str_eq_iff}
use rustysd.Prelude.{
  ◌≡◌, ◌↔◌, Bool, true, false, ◌&&◌, ◌||◌, Option, none, some, arith, PartialEq, ◌==◌,
  if◌then◌else◌, string_eq,
}

pub data UnitIdKind : Type 0 where
  target socket service : UnitIdKind

pub record UnitId : Type 0 where
  pub kind : UnitIdKind
  pub name : String

unfoldable pub kind_eq : UnitIdKind → UnitIdKind → Bool
kind_eq target target = true
kind_eq socket socket = true
kind_eq service service = true
kind_eq _ _ = false

-- The derived `PartialEq`: both fields are compared.
unfoldable pub id_eq : UnitId → UnitId → Bool
unfolding kind_eq
id_eq a b = kind_eq a.kind b.kind && a.name == b.name

kind_eq_iff : (a b : UnitIdKind) → (kind_eq a b ≡ true) ↔ (a ≡ b)
unfolding kind_eq
kind_eq_iff a b = ground arith

pub id_eq_iff : (a b : UnitId) → (id_eq a b ≡ true) ↔ (a ≡ b)
unfolding id_eq
id_eq_iff a b = ground (arith, kind_eq_iff a.kind b.kind, str_eq_iff a.name b.name)

instance abbrev pub unit_id_eq : PartialEq UnitId
unit_id_eq = record { test = id_eq; test_iff = id_eq_iff }

-- `Ord for UnitId`: the names alone are compared, byte by byte.
unfoldable pub id_le : UnitId → UnitId → Bool
id_le a b = is_le (compare a.name b.name)

-- `str::ends_with`
unfoldable pub ends_with : String → String → Bool
ends_with String.[] t = str_eq "" t
ends_with (String.◌∷◌ c s) t = str_eq (String.◌∷◌ c s) t || ends_with s t

-- `TryInto<UnitId> for &str`: the suffix decides the kind; `none` is the error.
unfoldable pub try_into : String → Option UnitId
unfolding ends_with
try_into s =
    if ends_with s ".target"
    then some (record { kind = target; name = s })
    else if ends_with s ".service"
    then some (record { kind = service; name = s })
    else if ends_with s ".socket"
    then some (record { kind = socket; name = s })
    else none
