-- ===== src/Fetch/Targets.antt =====
-- appHelpers.jsx: the two targets of `fallbackFetchTargets`.
use mathlib.Core.List.{reverse, reverse-append, append_assoc}
use kaims_latest.Prelude.{
  ◌-◌, ◌≡◌, ◌≢◌, refl, true, false, [], ◌∷◌, ◌++◌, length, drop-append, take-append, length-append,
  arith,
}
use kaims_latest.Js.Text.{
  Text, js, trim, nonempty, starts_with, ends_with, slice, unique, unique_from, member, text_eq,
}
use kaims_latest.Js.Value.{Value, text_of}
use kaims_latest.Fetch.{fallback_fetch_targets, processed_result_prefix, processed_result_suffix}

starts_with-append : (s t : Text) → starts_with (s ++ t) s ≡ true
unfolding starts_with
starts_with-append [] [] = refl
starts_with-append [] (c ∷ t) = refl
starts_with-append (c ∷ s) t = ground (arith, starts_with-append s t)

ends_with-append : (s t : Text) → ends_with (s ++ t) t ≡ true
unfolding ends_with
ends_with-append s t = rw (reverse-append s t) (starts_with-append (reverse t) (reverse s))

slice-middle : (s t u : Text) → slice (length s) (length (s ++ t ++ u) - length u) (s ++ t ++ u) ≡ t
unfolding slice
slice-middle s t u =
    let inner : length (s ++ (t ++ u)) - length u - length s ≡ length t =
      omega (arith, length-append s (t ++ u), length-append t u) in
    rw (append_assoc s t u, inner, drop-append s (t ++ u)) (take-append t u)

abbrev pub processed_path : Text → Text
processed_path id = processed_result_prefix ++ id ++ processed_result_suffix

abbrev pub gateway_path : Text → Text
gateway_path id = js "/api-gateway/alerts/" ++ id ++ js "/processed-result"

paths-differ : (id : Text) → text_eq (processed_path id) (gateway_path id) ≡ false
unfolding js text_eq
paths-differ id = refl

starts_with-processed : (id : Text) → starts_with (processed_path id) processed_result_prefix ≡ true
starts_with-processed id =
    rw (append_assoc processed_result_prefix id processed_result_suffix)
      (starts_with-append processed_result_prefix (id ++ processed_result_suffix))

unique-two : (s t : Text) → text_eq s t ≡ false → unique (s ∷ t ∷ []) ≡ s ∷ t ∷ []
unfolding unique unique_from member
unique-two s t h = ground arith

processed_path-nonempty : (id : Text) → nonempty (processed_path id) ≡ true
unfolding js
processed_path-nonempty id = refl

nonempty-of_ne : (s : Text) → s ≢ [] → nonempty s ≡ true
nonempty-of_ne [] h = absurd (h refl)
nonempty-of_ne (c ∷ s) h = refl

-- The path of an alert's processed result is tried as it is, and then at the gateway under the same
-- alert identifier.
pub fallback_fetch_targets-processed :
    (path : Value) (id : Text)
    → trim (text_of path) ≡ processed_path id
    → id ≢ []
    → fallback_fetch_targets path ≡ processed_path id ∷ gateway_path id ∷ []
unfolding fallback_fetch_targets
fallback_fetch_targets-processed path id e given =
    rw
      (
        e,
        processed_path-nonempty id,
        starts_with-processed id,
        ends_with-append (processed_result_prefix ++ id) processed_result_suffix,
        slice-middle processed_result_prefix id processed_result_suffix,
        nonempty-of_ne id given,
      )
      (unique-two (processed_path id) (gateway_path id) (paths-differ id))
