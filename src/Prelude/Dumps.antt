-- ===== src/Prelude/Dumps.antt =====
-- Python's `json.dumps`, with its separators and with or without `ensure_ascii`.
use Prim.Native.Nat.{ℕ, suc, ◌+◌, ◌-◌, ◌/◌, ◌%◌}
use Prim.Native.Char.{Char, code}
use Prim.Native.String.{String, ◌++◌}
use mathlib.Core.Bool.{Bool, true, false, ◌&&◌}
use mathlib.Core.Option.{Option, none, some}
use mathlib.Core.Path.{◌≡◌, refl}
use text.Mathlib.Text.{◌==◌ as str_eq}
use zcode2api.Prelude.Tests.{ltb, ◌==◌, if◌then◌else◌}
use zcode2api.Prelude.Lists.{get_elem?}
use zcode2api.Prelude.Int.{pos, negsuc}
use zcode2api.Prelude.Text.{chars}
use zcode2api.Prelude.Json.{
  Json, Items, Fields, null, bool, int, float, str, arr, obj, nil, cons, end, field, decimal,
}

pub record Style : Type 0 where
  pub between : String
  pub after_key : String
  pub ensure_ascii : Bool

-- `json.dumps(x, ensure_ascii=False)`
abbrev pub spaced : Style
spaced = record { between = ", "; after_key = ": "; ensure_ascii = false }

-- `json.dumps(x, separators=(",", ":"))`
abbrev pub compact : Style
compact = record { between = ","; after_key = ":"; ensure_ascii = true }

abbrev digit_text : Option Char → String
digit_text none = ""
digit_text (some c) = String.◌∷◌ c ""

hex : ℕ → String
hex n = digit_text (get_elem? (chars "0123456789abcdef") (n % 16))

unicode : ℕ → String
unfolding hex
unicode n = "\\u" ++ (hex (n / 4096) ++ (hex (n / 256) ++ (hex (n / 16) ++ hex n)))

escape_code : ℕ → String
unfolding unicode
escape_code n =
    if n == 10
    then "\\n"
    else if n == 13
    then "\\r"
    else if n == 9
    then "\\t"
    else if n == 12
    then "\\f"
    else if n == 8
    then "\\b"
    else if ltb n 65536
    then unicode n
    else unicode (55296 + (n - 65536) / 1024) ++ unicode (56320 + (n - 65536) % 1024)

escape_char : Bool → Char → String
unfolding escape_code
escape_char ascii c =
    if code c == 34
    then "\\\""
    else if code c == 92
    then "\\\\"
    else if ltb (code c) 32
    then escape_code (code c)
    else if ascii && ltb 126 (code c)
    then escape_code (code c)
    else String.◌∷◌ c ""

escape : Bool → String → String
unfolding escape_char
escape ascii String.[] = ""
escape ascii (String.◌∷◌ c s) = escape_char ascii c ++ escape ascii s

abbrev quoted : Bool → String → String
quoted ascii s = "\"" ++ (escape ascii s ++ "\"")

abbrev float_text : String → String
float_text s =
    if str_eq s "inf"
    then "Infinity"
    else if str_eq s "-inf"
    then "-Infinity"
    else if str_eq s "nan"
    then "NaN"
    else s

abbrev separator : Style → Bool → String
separator style true = ""
separator style false = style.between

-- The flag says that nothing stands before.
unfoldable mutual
  unfolding escape decimal

  pub dumps : Style → Json → String
  dumps style null = "null"
  dumps style (bool true) = "true"
  dumps style (bool false) = "false"
  dumps style (int (pos n)) = decimal n
  dumps style (int (negsuc n)) = "-" ++ decimal (suc n)
  dumps style (float s) = float_text s
  dumps style (str s) = quoted style.ensure_ascii s
  dumps style (arr xs) = "[" ++ (dump_items style true xs ++ "]")
  dumps style (obj fs) = "{" ++ (dump_fields style true fs ++ "}")

  pub dump_items : Style → Bool → Items → String
  dump_items style first nil = ""
  dump_items style first (cons x xs) =
      separator style first ++ (dumps style x ++ dump_items style false xs)

  pub dump_fields : Style → Bool → Fields → String
  dump_fields style first end = ""
  dump_fields style first (field k v fs) =
      separator style first
      ++ (quoted style.ensure_ascii k
          ++ (style.after_key ++ (dumps style v ++ dump_fields style false fs)))

dumps-compact :
    dumps compact (obj (field "a" (arr (cons null (cons (int (pos 12)) nil))) end))
    ≡ "{\"a\":[null,12]}"
unfolding dumps
dumps-compact = refl

dumps-spaced :
    dumps spaced (obj (field "a\n" (bool true) (field "b" (str "\"") end)))
    ≡ "{\"a\\n\": true, \"b\": \"\\\"\"}"
unfolding dumps
dumps-spaced = refl
