-- ===== src/Prelude/Text.antt =====
-- Python's text methods over `String`. `lower` and `strip` treat the ASCII letters and white space;
-- every other character is kept as it is.
use Prim.Native.Nat.{ℕ, zero, suc, ◌+◌, ◌-◌}
use Prim.Native.Char.{Char, code}
use Prim.Native.String.{String, ◌++◌}
use mathlib.Core.Bool.{Bool, true, false, ◌&&◌, ◌||◌}
use mathlib.Core.List.{List, [], ◌∷◌}
use mathlib.Core.Option.{Option, none, some}
use text.Mathlib.Text.{◌==◌ as str_eq}
use zcode2api.Prelude.Tests.{leb, ◌==◌, if◌then◌else◌}
use zcode2api.Prelude.Lists.{get_elem?}

abbrev pub chars : String → List Char
chars String.[] = []
chars (String.◌∷◌ c s) = c ∷ chars s

-- The truth value of a text.
abbrev pub nonempty : String → Bool
nonempty String.[] = false
nonempty (String.◌∷◌ c s) = true

abbrev pub text_or : String → String → String
text_or s d = if nonempty s then s else d

-- An optional text is falsy when it is absent or empty.
abbrev pub truthy : Option String → Bool
truthy none = false
truthy (some s) = nonempty s

abbrev pub opt_text : Option String → String
opt_text none = ""
opt_text (some s) = s

abbrev pub or_text : Option String → Option String → Option String
or_text a b = if truthy a then a else b

abbrev lower_at : Option Char → Char → Char
lower_at none c = c
lower_at (some l) c = l

pub lower_char : Char → Char
lower_char c =
    if leb 65 (code c) && leb (code c) 90
    then lower_at (get_elem? (chars "abcdefghijklmnopqrstuvwxyz") (code c - 65)) c
    else c

unfoldable pub lower : String → String
unfolding lower_char
lower String.[] = ""
lower (String.◌∷◌ c s) = String.◌∷◌ (lower_char c) (lower s)

abbrev is_space : Char → Bool
is_space c = (leb 9 (code c) && leb (code c) 13) || (code c == 32)

lstrip : String → String
lstrip String.[] = ""
lstrip (String.◌∷◌ c s) = let rest = lstrip s in if is_space c then rest else String.◌∷◌ c s

rstrip : String → String
rstrip String.[] = ""
rstrip (String.◌∷◌ c s) =
    let rest = rstrip s in
    if is_space c && (if nonempty rest then false else true) then "" else String.◌∷◌ c rest

unfoldable pub strip : String → String
unfolding lstrip rstrip
strip s = rstrip (lstrip s)

-- The first `n` characters, `s[:n]`.
unfoldable pub prefix_of : ℕ → String → String
prefix_of zero s = ""
prefix_of (suc n) String.[] = ""
prefix_of (suc n) (String.◌∷◌ c s) = String.◌∷◌ c (prefix_of n s)

unfoldable pub starts : String → String → Bool
starts String.[] s = true
starts (String.◌∷◌ c p) String.[] = false
starts (String.◌∷◌ c p) (String.◌∷◌ d s) = (code c == code d) && starts p s

-- `p in s`
unfoldable pub contains : String → String → Bool
unfolding starts
contains p String.[] = starts p ""
contains p (String.◌∷◌ c s) = starts p (String.◌∷◌ c s) || contains p s

-- `s in (a, b, …)`
abbrev pub member : String → List String → Bool
member s [] = false
member s (x ∷ xs) = str_eq s x || member s xs

-- The number of occurrences of a character.
unfoldable pub occurrences : ℕ → String → ℕ
occurrences k String.[] = 0
occurrences k (String.◌∷◌ c s) = (if code c == k then 1 else 0) + occurrences k s

-- `"".join(parts)`
abbrev pub concat : List String → String
concat [] = ""
concat (s ∷ l) = s ++ concat l

-- `s.partition(c)` at a character: what stands before its first occurrence, and what stands after.
unfoldable pub before : ℕ → String → String
before k String.[] = ""
before k (String.◌∷◌ c s) = let rest = before k s in if code c == k then "" else String.◌∷◌ c rest

unfoldable pub after : ℕ → String → String
after k String.[] = ""
after k (String.◌∷◌ c s) = let rest = after k s in if code c == k then s else rest

-- `s[n:]`
unfoldable pub drop_chars : ℕ → String → String
drop_chars zero s = s
drop_chars (suc n) String.[] = ""
drop_chars (suc n) (String.◌∷◌ c s) = drop_chars n s

-- `sep.join(parts)`
abbrev pub joined : String → List String → String
joined sep [] = ""
joined sep (s ∷ []) = s
joined sep (s ∷ (t ∷ l)) = s ++ (sep ++ joined sep (t ∷ l))
