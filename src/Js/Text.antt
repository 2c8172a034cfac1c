-- ===== src/Js/Text.antt =====
-- JavaScript's strings: sequences of UTF-16 code units, with the methods that the console calls.
-- Letter case is that of ASCII: `toLowerCase` leaves every other code unit alone.
pub mod Equality
pub mod Trim
use Prim.Native.Char.{code}
use Prim.Native.String
use mathlib.Core.List.{reverse}
use kaims_latest.Prelude.{
  ℕ, ◌-◌, take, drop, zero, suc, ◌+◌, ◌/◌, ◌%◌, String, ◌≡◌, Bool, true, false, not, ◌&&◌, ◌||◌,
  List, [], ◌∷◌, ◌++◌, map, ltb, leb, ◌==◌, if◌then◌else◌, filter,
}

abbrev pub Text : Type 0
Text = List ℕ

-- A literal of the source; all of them are ASCII.
unfoldable pub js : String → Text
js String.[] = []
js (String.◌∷◌ c s) = code c ∷ js s

-- `===` on strings.
unfoldable pub text_eq : Text → Text → Bool
text_eq [] [] = true
text_eq [] (d ∷ t) = false
text_eq (c ∷ s) [] = false
text_eq (c ∷ s) (d ∷ t) = c == d && text_eq s t

-- `s !== ""`, as a condition reads it.
abbrev pub nonempty : Text → Bool
nonempty [] = false
nonempty (c ∷ s) = true

-- White space and line terminators, as `trim` and `\s` have them.
unfoldable pub is_space : ℕ → Bool
is_space c =
    leb 9 c && leb c 13
    || c == 32
    || c == 160
    || c == 5760
    || leb 8192 c && leb c 8202
    || c == 8232
    || c == 8233
    || c == 8239
    || c == 8287
    || c == 12288
    || c == 65279

unfoldable pub trim_start : Text → Text
unfolding is_space
trim_start [] = []
trim_start (c ∷ s) = let rest = trim_start s in if is_space c then rest else c ∷ s

unfoldable pub trim_end : Text → Text
unfolding is_space
trim_end [] = []
trim_end (c ∷ s) =
    let rest = trim_end s in if is_space c && not (nonempty rest) then [] else c ∷ rest

unfoldable pub trim : Text → Text
unfolding trim_start trim_end
trim s = trim_end (trim_start s)

unfoldable pub lower_unit : ℕ → ℕ
lower_unit c = if leb 65 c && leb c 90 then c + 32 else c

-- `s.toLowerCase()`
unfoldable pub lower : Text → Text
unfolding lower_unit
lower s = map lower_unit s

-- `s.startsWith(t)`
unfoldable pub starts_with : Text → Text → Bool
starts_with s [] = true
starts_with [] (d ∷ t) = false
starts_with (c ∷ s) (d ∷ t) = c == d && starts_with s t

-- `s.includes(t)`
unfoldable pub includes : Text → Text → Bool
unfolding starts_with
includes [] t = starts_with [] t
includes (c ∷ s) t = starts_with (c ∷ s) t || includes s t

-- `texts.includes(t)` on an array of strings, and `set.has(t)`.
unfoldable pub member : Text → List Text → Bool
unfolding text_eq
member t [] = false
member t (u ∷ us) = text_eq u t || member t us

-- `texts.join(sep)`
unfoldable pub join : Text → List Text → Text
join sep [] = []
join sep (t ∷ []) = t
join sep (t ∷ u ∷ ts) = t ++ sep ++ join sep (u ∷ ts)

unfoldable pub replace_unit : ℕ → ℕ → ℕ → ℕ
replace_unit from to c = if c == from then to else c

-- `s.replaceAll(from, to)` for one code unit.
unfoldable pub replace_all : ℕ → ℕ → Text → Text
unfolding replace_unit
replace_all from to s = map (replace_unit from to) s

-- The list without its empty texts, as `filter(Boolean)` leaves it.
abbrev pub present : List Text → List Text
present ts = filter nonempty ts

-- `texts.find(test) || fallback` where the test is membership.
unfoldable pub first_member : List Text → List Text → Text → Text
unfolding member
first_member [] among fallback = fallback
first_member (t ∷ ts) among fallback =
    let rest = first_member ts among fallback in if member t among then t else rest

-- The set that an array of texts makes: first occurrences, in order.
unfoldable pub unique_from : List Text → List Text → List Text
unfolding member
unique_from seen [] = []
unique_from seen (t ∷ ts) =
    let rest = unique_from (t ∷ seen) ts in
    let skip = unique_from seen ts in if member t seen then skip else t ∷ rest

-- `Array.from(new Set(texts))`
unfoldable pub unique : List Text → List Text
unfolding unique_from
unique ts = unique_from [] ts

-- `s.endsWith(t)`
unfoldable pub ends_with : Text → Text → Bool
unfolding starts_with
ends_with s t = starts_with (reverse s) (reverse t)

-- `s.slice(from, to)` at two positions from the start.
unfoldable pub slice : ℕ → ℕ → Text → Text
slice from to s = take (to - from) (drop from s)

-- `s.replace(/\/$/, "")`
unfoldable pub without_slash : Text → Text
without_slash [] = []
without_slash (c ∷ []) = if c == b'/' then [] else c ∷ []
without_slash (c ∷ d ∷ t) = c ∷ without_slash (d ∷ t)
