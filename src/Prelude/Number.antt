-- ===== src/Prelude/Number.antt =====
-- Python's `int(x)`, on the values of JSON: the digits of a text, and a float cut to a whole number,
-- where a float is the decimal that its text shows.
use Prim.Native.Nat.{ℕ, zero, suc, ◌+◌, ◌-◌, ◌*◌, ◌/◌, ◌^◌}
use Prim.Native.Char.{code}
use Prim.Native.String.{String}
use mathlib.Core.Bool.{Bool, true, false, ◌&&◌}
use mathlib.Core.List.{List, [], ◌∷◌, ◌++◌}
use mathlib.Core.Option.{Option, none, some}
use mathlib.Core.Path.{◌≡◌, refl}
use text.Mathlib.Text.{◌==◌ as str_eq}
use zcode2api.Prelude.Tests.{leb, ◌==◌, if◌then◌else◌, ◌>>=◌}
use zcode2api.Prelude.Lists.{length}
use zcode2api.Prelude.Int.{ℤ, pos, negsuc}
use zcode2api.Prelude.Text.{strip}
use zcode2api.Prelude.Json.{Json, null, bool, int, float, str, arr, obj}

abbrev codes : String → List ℕ
codes String.[] = []
codes (String.◌∷◌ c s) = code c ∷ codes s

abbrev is_digit : ℕ → Bool
is_digit c = leb 48 c && leb c 57

abbrev negated : ℕ → ℤ
negated zero = pos 0
negated (suc n) = negsuc n

abbrev signed : Bool → ℕ → ℤ
signed true n = negated n
signed false n = pos n

-- The sign of a text and what follows it.
sign_of : List ℕ → Bool × List ℕ
sign_of [] = (false, [])
sign_of (c ∷ s) = if c == 45 then (true, s) else if c == 43 then (false, s) else (false, c ∷ s)

-- Digits, with single underscores between them; the flag says that a digit stands before.
number : Bool → ℕ → List ℕ → Option ℕ
number after acc [] = if after then some acc else none
number after acc (c ∷ s) =
    let next = number true (acc * 10 + (c - 48)) s in
    let gap = number false acc s in
    if is_digit c then next else if (c == 95) && after then gap else none

int_of_text : String → Option ℤ
unfolding sign_of number strip
int_of_text s =
    let (minus, rest) = sign_of (codes (strip s)) in
    do n ← number false 0 rest; some (signed minus n)

-- The digits before the first other character, and what follows them.
span_digits : List ℕ → List ℕ × List ℕ
span_digits [] = ([], [])
span_digits (c ∷ s) =
    let (ds, rest) = span_digits s in if is_digit c then (c ∷ ds, rest) else ([], c ∷ s)

abbrev value_of : ℕ → List ℕ → ℕ
value_of acc [] = acc
value_of acc (c ∷ s) = value_of (acc * 10 + (c - 48)) s

-- `digits` times ten to the exponent, less the places after the point, cut at the point.
scaled : List ℕ → ℕ → List ℕ → ℕ
unfolding sign_of
scaled ds places [] = value_of 0 ds / 10 ^ places
scaled ds places (e ∷ s) =
    let (minus, rest) = sign_of s in
    if minus
    then value_of 0 ds / 10 ^ (places + value_of 0 rest)
    else value_of 0 ds * 10 ^ value_of 0 rest / 10 ^ places

fraction : List ℕ → List ℕ → ℕ
unfolding span_digits scaled
fraction ds [] = value_of 0 ds
fraction ds (c ∷ s) =
    let (more, rest) = span_digits s in
    if c == 46 then scaled (ds ++ more) (length more) rest else scaled ds 0 (c ∷ s)

truncated : String → ℤ
unfolding sign_of span_digits fraction
truncated s =
    let (minus, rest) = sign_of (codes s) in
    let (ds, more) = span_digits rest in signed minus (fraction ds more)

-- `_as_int` of `openai_compat.py`: `some none` is its `None`, for a text, an object or a NaN that is no
-- whole number; `none` is the OverflowError of an infinite float, which it lets through.
unfoldable pub as_int : Json → Option (Option ℤ)
unfolding int_of_text truncated
as_int null = some none
as_int (bool b) = some (some (if b then pos 1 else pos 0))
as_int (int z) = some (some z)
as_int (float s) =
    if str_eq s "inf"
    then none
    else if str_eq s "-inf"
    then none
    else if str_eq s "nan"
    then some none
    else some (some (truncated s))
as_int (str s) = some (int_of_text s)
as_int (arr xs) = some none
as_int (obj fs) = some none

as_int_text : as_int (str " -1_024 ") ≡ some (some (negsuc 1023))
unfolding as_int
as_int_text = refl

as_int_float : as_int (float "1.5e+3") ≡ some (some (pos 1500))
unfolding as_int
as_int_float = refl

as_int_small : as_int (float "-12.5e-1") ≡ some (some (negsuc 0))
unfolding as_int
as_int_small = refl

as_int_word : as_int (str "12a") ≡ some none
unfolding as_int
as_int_word = refl
