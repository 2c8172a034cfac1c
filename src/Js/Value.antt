-- ===== src/Js/Value.antt =====
-- JavaScript's values, as the console meets them in a parsed response. A number is a natural number:
-- an identifier, a count or a time in milliseconds.
use kaims_latest.Prelude.{
  ℕ, zero, suc, ◌+◌, ◌/◌, ◌%◌, String, Bool, true, false, not, List, [], ◌∷◌, ◌++◌, ltb, ◌==◌,
  if◌then◌else◌,
}
use kaims_latest.Js.Text.{Text, js, text_eq, join, nonempty}

mutual
  pub data Value : Type 0 where
    undefined null : Value
    bool : Bool → Value
    num : ℕ → Value
    str : Text → Value
    arr : Items → Value
    obj : Fields → Value

  pub data Items : Type 0 where
    nil : Items
    cons : Value → Items → Items

  pub data Fields : Type 0 where
    end : Fields
    field : Text → Value → Fields → Fields

abbrev pub elements : Items → List Value
elements nil = []
elements (cons v vs) = v ∷ elements vs

abbrev pub items : List Value → Items
items [] = nil
items (v ∷ vs) = cons v (items vs)

-- `Array.isArray(v) ? v : []`
unfoldable pub array_or_empty : Value → List Value
array_or_empty (arr vs) = elements vs
array_or_empty _ = []

unfoldable pub is_array : Value → Bool
is_array (arr vs) = true
is_array _ = false

-- `v && typeof v === "object"`, which arrays pass too.
unfoldable pub is_object : Value → Bool
is_object (arr vs) = true
is_object (obj fs) = true
is_object _ = false

-- `typeof v === "string"`
unfoldable pub is_string : Value → Bool
is_string (str s) = true
is_string _ = false

-- How a condition reads a value.
unfoldable pub truthy : Value → Bool
truthy undefined = false
truthy null = false
truthy (bool b) = b
truthy (num n) = not (n == 0)
truthy (str s) = nonempty s
truthy (arr vs) = true
truthy (obj fs) = true

unfoldable pub lookup : Text → Fields → Value
lookup k end = undefined
lookup k (field j v fs) = if text_eq j k then v else lookup k fs

-- `v?.name` at a name that is not the index or the length of an array or a string.
infixl 80 ◌!◌
unfoldable pub ◌!◌ : Value → String → Value
unfolding lookup
obj fs ! name = lookup (js name) fs
_ ! name = undefined

-- `a || b`
infixr 28 ◌or◌
unfoldable pub ◌or◌ : Value → Value → Value
unfolding truthy
a or b = if truthy a then a else b

-- `a ?? b`
infixr 28 ◌nullish◌
unfoldable pub ◌nullish◌ : Value → Value → Value
undefined nullish b = b
null nullish b = b
bool x nullish b = bool x
num n nullish b = num n
str s nullish b = str s
arr vs nullish b = arr vs
obj fs nullish b = obj fs

-- `typeof v === "object" && v ? v : {}`
unfoldable pub object_or_empty : Value → Value
object_or_empty (arr vs) = arr vs
object_or_empty (obj fs) = obj fs
object_or_empty _ = obj end

-- `obj[k] = v`, in place if the field is there.
unfoldable pub put : Text → Value → Fields → Fields
put k v end = field k v end
put k v (field j w fs) = if text_eq j k then field j v fs else field j w (put k v fs)

unfoldable pub digits : ℕ → ℕ → Text
digits zero n = []
digits (suc fuel) n =
    let more = digits fuel (n / 10) in
    if ltb n 10 then (n + 48) ∷ [] else more ++ (n % 10 + 48) ∷ []

-- `String(n)`: a number has no more digits than its value plus one.
unfoldable pub decimal : ℕ → Text
unfolding digits
decimal n = digits (suc n) n

-- The own fields that `...v` copies.
index_fields : ℕ → List Value → Fields
unfolding decimal
index_fields n [] = end
index_fields n (v ∷ vs) = field (decimal n) v (index_fields (suc n) vs)

unfoldable pub spread : Value → Fields
unfolding index_fields
spread (obj fs) = fs
spread (arr vs) = index_fields 0 (elements vs)
spread _ = end

-- `String(v)`
unfoldable mutual
  unfolding js decimal join

  pub to_text : Value → Text
  to_text undefined = js "undefined"
  to_text null = js "null"
  to_text (bool b) = if b then js "true" else js "false"
  to_text (num n) = decimal n
  to_text (str s) = s
  to_text (arr vs) = join (js ",") (element_texts vs)
  to_text (obj fs) = js "[object Object]"

  pub element_texts : Items → List Text
  element_texts nil = []
  element_texts (cons v vs) = element_text v ∷ element_texts vs

  pub element_text : Value → Text
  element_text undefined = []
  element_text null = []
  element_text (bool b) = if b then js "true" else js "false"
  element_text (num n) = decimal n
  element_text (str s) = s
  element_text (arr vs) = join (js ",") (element_texts vs)
  element_text (obj fs) = js "[object Object]"

-- `String(v || "")`
unfoldable pub text_of : Value → Text
unfolding to_text truthy
text_of v = if truthy v then to_text v else []
