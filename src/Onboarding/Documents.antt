-- ===== src/Onboarding/Documents.antt =====
-- onboardingUtils.js: what is made of an uploaded document.
use kaims_latest.Prelude.{
  ℕ, zero, suc, ◌≤◌, ◌≡◌, refl, Bool, true, false, List, [], ◌∷◌, ◌++◌, map, take, length,
  if◌then◌else◌, All, arith,
}
use kaims_latest.Js.Text.{Text, js, starts_with}
use kaims_latest.Js.Value.{Value}
use kaims_latest.Onboarding.Tools.{document_name, derive_monitoring_requirements_from_document}

length-take-le : (n : ℕ) (ts : List Text) → length (take n ts) ≤ n
length-take-le zero ts = omega arith
length-take-le (suc n) [] = omega arith
length-take-le (suc n) (t ∷ ts) = omega (arith, length-take-le n ts)

length-map : (f : Text → Text) (ts : List Text) → length (map f ts) ≡ length ts
length-map f [] = refl
length-map f (t ∷ ts) = omega (arith, length-map f ts)

starts_with-own : (s t : Text) → starts_with (s ++ t) s ≡ true
unfolding starts_with
starts_with-own [] t = refl
starts_with-own (c ∷ s) t = ground (arith, starts_with-own s t)

All-map_prefix :
    (s : Text) (ts : List Text) → All (λ u. starts_with u s ≡ true) (map (λ t. s ++ t) ts)
All-map_prefix s [] = tt
All-map_prefix s (t ∷ ts) = (starts_with-own s t, All-map_prefix s ts)

abbrev pub AreBounded : Text → List Text → Type 0
AreBounded prefix ts = (length ts ≤ 6) × All (λ u. starts_with u prefix ≡ true) ts

unless_empty-AreBounded :
    (b : Bool) (prefix : Text) (ts : List Text)
    → AreBounded prefix (if b then [] else map (λ t. prefix ++ t) (take 6 ts))
unless_empty-AreBounded true prefix ts = (omega arith, tt)
unless_empty-AreBounded false prefix ts = (
  omega (arith, length-map (λ t. prefix ++ t) (take 6 ts), length-take-le 6 ts),
  All-map_prefix prefix (take 6 ts),
)

-- A document gives at most six requirements, and each of them begins with the document's name.
pub derive_monitoring_requirements_from_document-AreBounded :
    (name text : Value)
    → AreBounded
        (document_name name ++ js ": ")
        (derive_monitoring_requirements_from_document name text)
unfolding derive_monitoring_requirements_from_document
derive_monitoring_requirements_from_document-AreBounded name text =
    unless_empty-AreBounded _ (document_name name ++ js ": ") _
