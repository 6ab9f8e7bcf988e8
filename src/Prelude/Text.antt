-- ===== src/Prelude/Text.antt =====
-- Texts character by character: what the program uses of `str`, over the code points. Case is that
-- of ASCII.
use Prim.Native.Char.{code}
use Prim.Native.Nat.{ℕ, ◌+◌, ◌-◌, ◌*◌}
use Prim.Native.String.{String, ◌++◌, slice}
use mathlib.Core.Bool.{Bool, true, ◌&&◌, ◌||◌}
use mathlib.Core.Option.{Option, none, some}
use mathlib.Core.List.{List, [], ◌∷◌}
use rustysd.Prelude.Tests.{nat_beq, leb, ltb, if◌then◌else◌}

-- A character goes in front of the first part.
unfoldable pub prepend : String → List String → List String
prepend c [] = c ∷ []
prepend c (p ∷ ps) = (c ++ p) ∷ ps

-- `str::split` at a character, given by its code.
unfoldable pub split : ℕ → String → List String
unfolding prepend
split sep String.[] = "" ∷ []
split sep (String.◌∷◌ c s) =
    let rest = split sep s in
    if nat_beq (code c) sep then "" ∷ rest else prepend (String.◌∷◌ c "") rest

-- `[String]::join`
unfoldable pub join : String → List String → String
join sep [] = ""
join sep (p ∷ []) = p
join sep (p ∷ q ∷ ps) = p ++ (sep ++ join sep (q ∷ ps))

-- A slice without the last element.
unfoldable pub but_last {ℓ} : {A : Type ℓ} → List A → List A
but_last [] = []
but_last (p ∷ []) = []
but_last (p ∷ q ∷ ps) = p ∷ but_last (q ∷ ps)

-- `char::is_whitespace`: the characters with the property White_Space.
unfoldable pub is_space : ℕ → Bool
is_space n =
    nat_beq n 32
    || (leb 9 n && leb n 13)
    || nat_beq n 133
    || nat_beq n 160
    || nat_beq n 5760
    || (leb 8192 n && leb n 8202)
    || nat_beq n 8232
    || nat_beq n 8233
    || nat_beq n 8239
    || nat_beq n 8287
    || nat_beq n 12288

-- `str::trim_start`
unfoldable pub trim_start : String → String
unfolding is_space
trim_start String.[] = ""
trim_start (String.◌∷◌ c s) =
    let rest = trim_start s in if is_space (code c) then rest else String.◌∷◌ c s

-- A character in front, unless it is white space in front of nothing.
unfoldable pub space_before : Bool → String → String → String
space_before true c String.[] = ""
space_before _ c s = c ++ s

-- `str::trim_end`
unfoldable pub trim_end : String → String
unfolding is_space space_before
trim_end String.[] = ""
trim_end (String.◌∷◌ c s) = space_before (is_space (code c)) (String.◌∷◌ c "") (trim_end s)

unfoldable pub trim : String → String
unfolding trim_start trim_end
trim s = trim_end (trim_start s)

-- `trim_start_matches` of one character.
unfoldable pub skip_char : ℕ → String → String
skip_char n String.[] = ""
skip_char n (String.◌∷◌ c s) =
    let rest = skip_char n s in if nat_beq (code c) n then rest else String.◌∷◌ c s

unfoldable pub put_first : String → Option (String × String) → Option (String × String)
put_first c none = none
put_first c (some (name, value)) = some (c ++ name, value)

-- `find` of a character and `split_at` there: the part before it, and the part that begins with it.
unfoldable pub split_at_char : ℕ → String → Option (String × String)
unfolding put_first
split_at_char n String.[] = none
split_at_char n (String.◌∷◌ c s) =
    let rest = split_at_char n s in
    if nat_beq (code c) n then some ("", String.◌∷◌ c s) else put_first (String.◌∷◌ c "") rest

unfoldable pub upper_char : ℕ → String → String
upper_char n c =
    if leb b'a' n && leb n b'z' then slice "ABCDEFGHIJKLMNOPQRSTUVWXYZ" (n - 97) (n - 96) else c

-- `str::to_uppercase`
unfoldable pub to_uppercase : String → String
unfolding upper_char
to_uppercase String.[] = ""
to_uppercase (String.◌∷◌ c s) = upper_char (code c) (String.◌∷◌ c "") ++ to_uppercase s

unfoldable pub is_digit : ℕ → Bool
is_digit n = leb b'0' n && leb n b'9'

-- The value of digits after a number so far; `none` where another character stands.
unfoldable pub digits : ℕ → String → Option ℕ
unfolding is_digit
digits acc String.[] = some acc
digits acc (String.◌∷◌ c s) =
    let rest = digits (acc * 10 + (code c - 48)) s in if is_digit (code c) then rest else none

unfoldable pub nonempty_digits : String → Option ℕ
unfolding digits
nonempty_digits String.[] = none
nonempty_digits (String.◌∷◌ c s) = digits 0 (String.◌∷◌ c s)

unfoldable pub without_plus : String → String
without_plus String.[] = ""
without_plus (String.◌∷◌ c s) = if nat_beq (code c) b'+' then s else String.◌∷◌ c s

unfoldable pub below : ℕ → Option ℕ → Option ℕ
below bound none = none
below bound (some n) = if ltb n bound then some n else none

-- `parse` to an unsigned number below a bound. A plus may stand in front.
unfoldable pub parse_number : ℕ → String → Option ℕ
unfolding nonempty_digits without_plus below
parse_number bound s = below bound (nonempty_digits (without_plus s))
