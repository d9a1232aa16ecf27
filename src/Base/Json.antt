-- ===== src/Base/Json.antt =====
-- Go's `any` values as the program meets them: JSON-like trees, with a map as its entries.
use Prim.Native.Nat.{ℕ}
use mathlib.Core.Bool.{Bool}
use mathlib.Core.List.{List, [], ◌∷◌}
use mathlib.Core.Option.{Option, none, some}
use mathlib.Core.Path.{◌≡◌, refl}
use native.Mathlib.Omega.{arith}
use trajectory_irmrd.Base.Logic.{◌==◌, if◌then◌else◌}
use trajectory_irmrd.Base.Text.{Str, str_eq}
use trajectory_irmrd.Base.Int.{ℤ}

-- `float` holds the bits of a float64. `slice` is a slice whose element type is not `any`, such as
-- `[]map[string]any` or `[]string`: a type assertion to `[]any` fails on it.
mutual
  pub data Value : Type 0 where
    null : Value
    bool : Bool → Value
    int : ℤ → Value
    float : ℕ → Value
    text : Str → Value
    arr : Items → Value
    slice : Items → Value
    obj : Fields → Value

  pub data Items : Type 0 where
    nil : Items
    cons : Value → Items → Items

  pub data Fields : Type 0 where
    end : Fields
    field : Str → Value → Fields → Fields

-- `m[k]`, with `none` for a missing key.
unfoldable pub get : Str → Fields → Option Value
get k end = none
get k (field j v m) = if k == j then some v else get k m

-- `m[k] = v`.
unfoldable pub put : Str → Value → Fields → Fields
put k v end = field k v end
put k v (field j w m) = if k == j then field j v m else field j w (put k v m)

-- `m[k]` where a missing key reads as nil.
abbrev pub or_null : Option Value → Value
or_null none = null
or_null (some v) = v

-- `v.(string)`, `v.(map[string]any)`, `v.(bool)`, `v.([]any)`: `none` where the assertion fails.
abbrev pub as_text : Value → Option Str
as_text (text s) = some s
as_text _ = none

abbrev pub as_obj : Value → Option Fields
as_obj (obj m) = some m
as_obj _ = none

abbrev pub as_bool : Value → Option Bool
as_bool (bool b) = some b
as_bool _ = none

abbrev pub as_arr : Value → Option Items
as_arr (arr xs) = some xs
as_arr _ = none

-- `s, _ := v.(string)`: a failed assertion gives the empty string.
abbrev pub text_or : Option Str → Str
text_or none = []
text_or (some s) = s

-- `s, _ := m[k].(string)`.
unfoldable pub get_text : Str → Fields → Str
get_text k m = text_or (as_text (or_null (get k m)))

abbrev pub items_to_list : Items → List Value
items_to_list nil = []
items_to_list (cons v xs) = v ∷ items_to_list xs

abbrev pub list_to_items : List Value → Items
list_to_items [] = nil
list_to_items (v ∷ xs) = cons v (list_to_items xs)

-- What is read after a write.
pub get-put :
    (j k : Str) (v : Value) (m : Fields) → get j (put k v m) ≡ (if j == k then some v else get j m)
unfolding get put
get-put j k v end = refl
get-put j k v (field i w m) = ground (arith, get-put j k v m)
