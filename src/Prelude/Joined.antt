-- ===== src/Prelude/Joined.antt =====
-- A text grows at its end as its list of pieces does.
use Prim.Native.String.{String, ◌++◌ as str_append}
use mathlib.Core.Path.{◌≡◌, sym, ap, ◌∙◌}
use mathlib.Core.List.{List, [], ◌∷◌, ◌++◌}
use text.Mathlib.TextLemmas.{nil-append, append_assoc}
use zcode2api.Prelude.Text.{concat}

pub concat-append_last :
    (l : List String) (s : String) → concat (l ++ s ∷ []) ≡ concat (concat l ∷ s ∷ [])
concat-append_last [] s = sym (nil-append (concat (s ∷ [])))
concat-append_last (x ∷ l) s =
    ap (str_append x) (concat-append_last l s) ∙ sym (append_assoc x (concat l) (concat (s ∷ [])))
