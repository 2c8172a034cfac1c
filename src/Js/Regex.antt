-- ===== src/Js/Regex.antt =====
-- JavaScript's regular expressions, as far as the console uses them: a backtracking matcher with
-- greedy repetition of a class. A match in the console consumes at least one code unit.
use kaims_latest.Prelude.{
  ℕ, zero, suc, ◌-◌, Bool, true, false, not, ◌&&◌, ◌||◌, List, [], ◌∷◌, ◌++◌, Option, none, some,
  leb, ◌==◌, length, take, if◌then◌else◌,
}
use kaims_latest.Js.Text.{Text, is_space}

pub data Re : Type 0 where
  -- the empty match, `^`, `$` and `\b`
  empty bos eos boundary : Re
  -- one code unit of a class, and as many as there are
  one some_of any_of : (ℕ → Bool) → Re
  seq alt : Re → Re → Re

abbrev pub is_digit : ℕ → Bool
is_digit c = leb b'0' c && leb c b'9'

abbrev pub is_lower : ℕ → Bool
is_lower c = leb b'a' c && leb c b'z'

abbrev pub is_upper : ℕ → Bool
is_upper c = leb b'A' c && leb c b'Z'

abbrev pub is_word : ℕ → Bool
is_word c = is_digit c || is_lower c || is_upper c || c == b'_'

abbrev pub is_hex_lower : ℕ → Bool
is_hex_lower c = is_digit c || leb b'a' c && leb c b'f'

abbrev pub is_hex : ℕ → Bool
is_hex c = is_hex_lower c || leb b'A' c && leb c b'F'

abbrev pub literal : Text → Re
literal [] = empty
literal (c ∷ s) = seq (one (λ d. d == c)) (literal s)

-- `r{n}`
abbrev pub times : ℕ → Re → Re
times zero r = empty
times (suc n) r = seq r (times n r)

-- `(r|...)`
abbrev pub alts : Re → List Re → Re
alts r [] = r
alts r (q ∷ qs) = alt r (alts q qs)

-- What stands before a position and after it.
abbrev word_before : Option ℕ → Bool
word_before none = false
word_before (some c) = is_word c

abbrev word_after : Text → Bool
word_after [] = false
word_after (c ∷ s) = is_word c

abbrev at_boundary : Bool → Bool → Bool
at_boundary true b = not b
at_boundary false b = b

abbrev Cont : Type 0
Cont = Option ℕ → Text → Option Text

run_any : (ℕ → Bool) → Option ℕ → Text → Cont → Option Text
run_any p prev [] k = k prev []
run_any p prev (c ∷ s) k =
    let more = run_any p (some c) s k in
    let here = k prev (c ∷ s) in
    if p c then elim more [ some rest ↦ some rest | none ↦ here ] else here

run_one : (ℕ → Bool) → Text → Cont → Option Text
run_one p [] k = none
run_one p (c ∷ s) k = if p c then k (some c) s else none

run_some : (ℕ → Bool) → Text → Cont → Option Text
unfolding run_any
run_some p [] k = none
run_some p (c ∷ s) k = if p c then run_any p (some c) s k else none

-- What is left after a match that begins here; the continuation sees the code unit before it.
run : Re → Option ℕ → Text → Cont → Option Text
unfolding run_one run_some
run empty prev s k = k prev s
run bos none s k = k none s
run bos (some c) s k = none
run eos prev [] k = k prev []
run eos prev (c ∷ s) k = none
run boundary prev s k = if at_boundary (word_before prev) (word_after s) then k prev s else none
run (one p) prev s k = run_one p s k
run (some_of p) prev s k = run_some p s k
run (any_of p) prev s k = run_any p prev s k
run (seq a b) prev s k = run a prev s (λ prev' s'. run b prev' s' k)
run (alt a b) prev s k =
    let second = run b prev s k in elim (run a prev s k) [ some rest ↦ some rest | none ↦ second ]

rest_of_match : Re → Option ℕ → Text → Option Text
unfolding run
rest_of_match r prev s = run r prev s (λ prev' rest. some rest)

test_from : Re → Option ℕ → Text → Bool
unfolding rest_of_match
test_from r prev [] = elim (rest_of_match r prev []) [ some rest ↦ true | none ↦ false ]
test_from r prev (c ∷ s) =
    let later = test_from r (some c) s in
    elim (rest_of_match r prev (c ∷ s)) [ some rest ↦ true | none ↦ later ]

-- `r.test(s)`
unfoldable pub test : Re → Text → Bool
unfolding test_from
test r s = test_from r none s

last_unit : Option ℕ → Text → Option ℕ
last_unit prev [] = prev
last_unit prev (c ∷ s) = last_unit (some c) s

-- The part of `s` before `rest`.
abbrev consumed : Text → Text → Text
consumed s rest = take (length s - length rest) s

replace_from : ℕ → Re → Text → Option ℕ → Text → Text
unfolding rest_of_match last_unit
replace_from zero r by prev s = s
replace_from (suc fuel) r by prev [] = []
replace_from (suc fuel) r by prev (c ∷ s) =
    let skip = c ∷ replace_from fuel r by (some c) s in
    elim (rest_of_match r prev (c ∷ s)) [
      | some rest ↦ by ++ replace_from fuel r by (last_unit prev (consumed (c ∷ s) rest)) rest
      | none ↦ skip
    ]

-- `s.replace(r, by)` with the flag `g`: each round goes on by a code unit, so the length is enough.
unfoldable pub replace : Re → Text → Text → Text
unfolding replace_from
replace r by s = replace_from (length s) r by none s

matches_from : ℕ → Re → Option ℕ → Text → List Text
unfolding rest_of_match last_unit
matches_from zero r prev s = []
matches_from (suc fuel) r prev [] = []
matches_from (suc fuel) r prev (c ∷ s) =
    let skip = matches_from fuel r (some c) s in
    elim (rest_of_match r prev (c ∷ s)) [
      | some rest ↦
          consumed (c ∷ s) rest ∷ matches_from fuel r (last_unit prev (consumed (c ∷ s) rest)) rest
      | none ↦ skip
    ]

-- `s.match(r) || []` with the flag `g`.
unfoldable pub matches : Re → Text → List Text
unfolding matches_from
matches r s = matches_from (length s) r none s

split_from : ℕ → Re → Text → Option ℕ → Text → List Text
unfolding rest_of_match last_unit
split_from zero r piece prev s = piece ∷ []
split_from (suc fuel) r piece prev [] = piece ∷ []
split_from (suc fuel) r piece prev (c ∷ s) =
    let skip = split_from fuel r (piece ++ c ∷ []) (some c) s in
    elim (rest_of_match r prev (c ∷ s)) [
      | some rest ↦ piece ∷ split_from fuel r [] (last_unit prev (consumed (c ∷ s) rest)) rest
      | none ↦ skip
    ]

-- `s.split(r)`
unfoldable pub split : Re → Text → List Text
unfolding split_from
split r s = split_from (suc (length s)) r [] none s

-- White space and the separators of a name.
abbrev pub is_separator : ℕ → Bool
is_separator c = c == b'-' || c == b'_' || is_space c
