-- ===== src/Parser/Service/Timeouts.antt =====
-- `parse_timeout` of src/units/unit_parsing/service_unit.rs. The seconds are a `u64`, whose arithmetic wraps around; a
-- duration is its milliseconds.
use Prim.Native.Nat.{◌%◌}
use Prim.Native.String.{String, len, slice}
use text.Mathlib.Text.{◌==◌ as str_eq}
use rustysd.Prelude.{ℕ, ◌+◌, ◌-◌, ◌*◌, List, [], ◌∷◌, Option, none, some, if◌then◌else◌}
use rustysd.Prelude.Text.{split, to_uppercase, parse_number}
use rustysd.Units.Id.{ends_with}
use rustysd.Units.Config.{Timeout, duration, infinity}
use rustysd.Units.Runtime.{Result, ok, panic}
use rustysd.Parser.Config.{ParsingErrorReason, ◌>>=◌}

abbrev pub u64_mod : ℕ
u64_mod = 18446744073709551616

-- `t[0..t.len() - n].parse::<u64>().unwrap()`
unfoldable pub number_before : ℕ → String → Result ParsingErrorReason ℕ
unfolding parse_number
number_before n t = elim (parse_number u64_mod (slice t 0 (len t - n))) [
  | none ↦ panic
  | some k ↦ ok k
]

-- The seconds of one part.
unfoldable pub part_seconds : String → Result ParsingErrorReason ℕ
unfolding number_before ends_with
part_seconds t =
    if ends_with t "min"
    then (do mins ← number_before 3 t; ok ((mins * 60) % u64_mod))
    else if ends_with t "hrs"
    then (do hrs ← number_before 3 t; ok ((hrs * 60 * 60) % u64_mod))
    else if ends_with t "s"
    then number_before 1 t
    else ok 0

unfoldable pub sum_parts : ℕ → List String → Result ParsingErrorReason ℕ
unfolding part_seconds
sum_parts sum [] = ok sum
sum_parts sum (t ∷ ts) = do secs ← part_seconds t; sum_parts ((sum + secs) % u64_mod) ts

unfoldable pub from_secs : ℕ → Timeout
from_secs secs = duration (secs * 1000)

-- A number of seconds, or the sum of the parts.
unfoldable pub seconds_of : Option ℕ → String → Result ParsingErrorReason ℕ
unfolding sum_parts split
seconds_of (some secs) descr = ok secs
seconds_of none descr = sum_parts 0 (split b' ' descr)

unfoldable pub parse_timeout : String → Result ParsingErrorReason Timeout
unfolding to_uppercase parse_number seconds_of from_secs
parse_timeout descr =
    if str_eq (to_uppercase descr) "INFINITY"
    then ok infinity
    else (do secs ← seconds_of (parse_number u64_mod descr) descr; ok (from_secs secs))
