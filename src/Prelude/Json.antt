-- ===== src/Prelude/Json.antt =====
-- The values of Python's `json`, as the program inspects them: `isinstance` tests and `dict.get`.
-- A float carries the text that `str` gives of it.
use mathlib.Core.Bool.{Bool, true, false}
use mathlib.Core.List.{List, [], ◌∷◌}
use mathlib.Core.Option.{Option, none, some}
use Prim.Native.Nat.{ℕ, zero, suc, ◌/◌, ◌%◌}
use Prim.Native.String.{String, ◌++◌}
use text.Mathlib.Text.{◌==◌ as str_eq}
use zcode2api.Prelude.Tests.{ltb, if◌then◌else◌}
use zcode2api.Prelude.Int.{ℤ, pos, negsuc}
use zcode2api.Prelude.Text.{nonempty}

mutual
  pub data Json : Type 0 where
    null : Json
    bool : Bool → Json
    int : ℤ → Json
    float : String → Json
    str : String → Json
    arr : Items → Json
    obj : Fields → Json

  pub data Items : Type 0 where
    nil : Items
    cons : Json → Items → Items

  pub data Fields : Type 0 where
    end : Fields
    field : String → Json → Fields → Fields

-- `d.get(k)`: `null` where the key is missing, as `None` is.
unfoldable pub get : String → Fields → Json
get k end = null
get k (field j v fs) = if str_eq j k then v else get k fs

-- `k in d`
unfoldable pub has : String → Fields → Bool
has k end = false
has k (field j v fs) = if str_eq j k then true else has k fs

unfoldable pub put : String → Json → Fields → Fields
put k v end = field k v end
put k v (field j w fs) = if str_eq j k then field j v fs else field j w (put k v fs)

-- `d.pop(k, None)`
unfoldable pub remove : String → Fields → Fields
remove k end = end
remove k (field j w fs) = let rest = remove k fs in if str_eq j k then rest else field j w rest

-- A dict and a list that the program writes.
abbrev pub fields : List (String × Json) → Fields
fields [] = end
fields ((k, v) ∷ l) = field k v (fields l)

abbrev pub object : List (String × Json) → Json
object l = obj (fields l)

abbrev pub array_items : List Json → Items
array_items [] = nil
array_items (x ∷ xs) = cons x (array_items xs)

abbrev pub array : List Json → Json
array l = arr (array_items l)

-- `x.get(k)` where `x` may be no object: `null`.
abbrev pub get_in : String → Json → Json
get_in k (obj fs) = get k fs
get_in k _ = null

abbrev pub items : Items → List Json
items nil = []
items (cons x xs) = x ∷ items xs

abbrev pub is_obj : Json → Bool
is_obj (obj fs) = true
is_obj _ = false

abbrev pub is_arr : Json → Bool
is_arr (arr xs) = true
is_arr _ = false

-- `isinstance(x, str)` with the value.
abbrev pub as_str : Json → Option String
as_str (str s) = some s
as_str _ = none

abbrev pub as_obj : Json → Option Fields
as_obj (obj fs) = some fs
as_obj _ = none

-- A value of type `int` that is not negative.
abbrev pub as_nat : Json → Option ℕ
as_nat (int (pos n)) = some n
as_nat _ = none

-- The truth value of a JSON value. A float is zero when its text is `0.0` or `-0.0`.
unfoldable pub is_truthy : Json → Bool
is_truthy null = false
is_truthy (bool b) = b
is_truthy (int (pos n)) = ltb 0 n
is_truthy (int (negsuc n)) = true
is_truthy (float s) = if str_eq s "0.0" then false else if str_eq s "-0.0" then false else true
is_truthy (str s) = nonempty s
is_truthy (arr nil) = false
is_truthy (arr (cons x xs)) = true
is_truthy (obj end) = false
is_truthy (obj (field k v fs)) = true

-- `a or b`
abbrev pub or_json : Json → Json → Json
or_json a b = if is_truthy a then a else b

digit : ℕ → String
digit zero = "0"
digit (suc zero) = "1"
digit (suc (suc zero)) = "2"
digit (suc (suc (suc zero))) = "3"
digit (suc (suc (suc (suc zero)))) = "4"
digit (suc (suc (suc (suc (suc zero))))) = "5"
digit (suc (suc (suc (suc (suc (suc zero)))))) = "6"
digit (suc (suc (suc (suc (suc (suc (suc zero))))))) = "7"
digit (suc (suc (suc (suc (suc (suc (suc (suc zero)))))))) = "8"
digit n = "9"

-- Decimal digits on fuel: each round divides by ten, so a fuel above the number is enough.
decimal_from : ℕ → ℕ → String
decimal_from zero n = ""
decimal_from (suc f) n =
    let rest = decimal_from f (n / 10) in if ltb n 10 then digit n else rest ++ digit (n % 10)

unfoldable pub decimal : ℕ → String
unfolding decimal_from digit
decimal n = decimal_from (suc n) n

-- `str(x)`; the text of a container is not spelt out.
unfoldable pub show : Json → String
unfolding decimal
show null = "None"
show (bool true) = "True"
show (bool false) = "False"
show (int (pos n)) = decimal n
show (int (negsuc n)) = "-" ++ decimal (suc n)
show (float s) = s
show (str s) = s
show (arr xs) = "[...]"
show (obj fs) = "{...}"
