-- ===== src/Json.antt =====
-- JSON values, and how encoding/json fills a Go struct from one. A key that is absent or null
-- leaves the zero value; a value of another type is an error of the whole call.
use Prim.Native.Char.{code}
use actionsspot.Prelude.{
  ℕ, ◌+◌, ◌==◌, true, ℤ, pos, ◌^◌, String, ◌≡◌, refl, Bool, false, ◌&&◌, Option, none, some, List,
  [], ◌∷◌, ltb, leb, pos_part, neg_part, if◌then◌else◌, arith,
}

-- `fraction` is a number that no integer type takes.
mutual
  pub data Json : Type 0 where
    null : Json
    boolean : Bool → Json
    integer : ℤ → Json
    fraction : String → Json
    text : String → Json
    array : Items → Json
    object : Fields → Json

  pub data Items : Type 0 where
    nil : Items
    cons : Json → Items → Items

  pub data Fields : Type 0 where
    end : Fields
    field : String → Json → Fields → Fields

abbrev to_list : Items → List Json
to_list nil = []
to_list (cons j js) = j ∷ to_list js

infixl 5 ◌>>=◌
abbrev pub ◌>>=◌ {ℓ κ} : {A : Type ℓ} {B : Type κ} → Option A → (A → Option B) → Option B
none >>= f = none
some a >>= f = f a

-- The struct's view of a value: null is no change.
abbrev pub fields_of : Json → Option Fields
fields_of null = some end
fields_of (object fs) = some fs
fields_of _ = none

-- Letters are the same in either case; so are the long s and the Kelvin sign with the letters that
-- they fold to.
abbrev fold_letter : ℕ → ℕ
fold_letter c =
    if leb 65 c && leb c 90 then c + 32 else if c == 383 then 115 else if c == 8490 then 107 else c

-- How encoding/json compares an object's key with a field's name.
abbrev pub names_field : String → String → Bool
names_field String.[] String.[] = true
names_field String.[] (String.◌∷◌ d name) = false
names_field (String.◌∷◌ c key) String.[] = false
names_field (String.◌∷◌ c key) (String.◌∷◌ d name) =
    fold_letter (code c) == fold_letter (code d) && names_field key name

-- The value at a key; the last of several wins.
unfoldable pub at_key : String → Fields → Json
at_key k end = null
at_key k (field j v fs) =
    let later = at_key k fs in
    elim later [ null ↦ if names_field j k then v else null | other ↦ other ]

abbrev pub fits_int64 : ℤ → Bool
fits_int64 n = ltb (pos_part n) (2 ^ 63) && leb (neg_part n) (2 ^ 63)

abbrev pub as_int : Json → Option ℤ
as_int null = some (pos 0)
as_int (integer n) = if fits_int64 n then some n else none
as_int _ = none

abbrev pub as_text : Json → Option String
as_text null = some ""
as_text (text s) = some s
as_text _ = none

abbrev pub as_bool : Json → Option Bool
as_bool null = some false
as_bool (boolean b) = some b
as_bool _ = none

-- A pointer to a text: null is nil.
abbrev pub as_text_pointer : Json → Option (Option String)
as_text_pointer null = some none
as_text_pointer (text s) = some (some s)
as_text_pointer _ = none

-- A slice: each element by `f`, and one failure fails it.
abbrev pub traverse {ℓ} : {A : Type ℓ} → (Json → Option A) → Items → Option (List A)
traverse f nil = some []
traverse f (cons j js) = do a ← f j; rest ← traverse f js; some (a ∷ rest)

abbrev pub as_list {ℓ} : {A : Type ℓ} → (Json → Option A) → Json → Option (List A)
as_list f null = some []
as_list f (array js) = traverse f js
as_list f _ = none

abbrev pub as_texts : Json → Option (List String)
as_texts = as_list as_text

-- json.RawMessage takes any value.
abbrev as_raw : Json → Option Json
as_raw j = some j

abbrev pub as_raws : Json → Option (List Json)
as_raws = as_list as_raw

-- A pointer to a struct: null is nil.
abbrev pub as_pointer {ℓ} : {A : Type ℓ} → (Json → Option A) → Json → Option (Option A)
as_pointer f null = some none
as_pointer f j = do a ← f j; some (some a)

traverse-as_raw : (js : Items) → traverse as_raw js ≡ some (to_list js)
traverse-as_raw nil = refl
traverse-as_raw (cons j js) = ground (arith, traverse-as_raw js)
