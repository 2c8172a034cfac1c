-- ===== src/Js/Text/Equality.antt =====
-- `===` on strings decides equality, and membership in lists of literals.
use kaims_latest.Prelude.{
  ◌≡◌, refl, ap, ◌↔◌, inl, inr, Bool, true, false, not, ◌&&◌, List, [], ◌∷◌, arith, Bool-cases,
}
use kaims_latest.Js.Text.{Text, text_eq, member, unique, unique_from}

text_eq_sound : (s t : Text) → text_eq s t ≡ true → s ≡ t
unfolding text_eq
text_eq_sound [] [] h = refl
text_eq_sound [] (d ∷ t) h = cc
text_eq_sound (c ∷ s) [] h = cc
text_eq_sound (c ∷ s) (d ∷ t) h = ground (arith, text_eq_sound s t)

pub text_eq_refl : (s : Text) → text_eq s s ≡ true
unfolding text_eq
text_eq_refl [] = refl
text_eq_refl (c ∷ s) = ground (arith, text_eq_refl s)

pub text_eq_iff : (s t : Text) → (text_eq s t ≡ true) ↔ (s ≡ t)
text_eq_iff s t = (text_eq_sound s t, λ e. rw e (text_eq_refl t))

pub text_eq_comm : (s t : Text) → text_eq s t ≡ text_eq t s
text_eq_comm s t = ground (arith, text_eq_iff s t, text_eq_iff t s)

-- No text of the first list is in the second: decided by evaluation for lists of literals.
unfoldable pub disjoint : List Text → List Text → Bool
unfolding member
disjoint [] us = true
disjoint (t ∷ ts) us = not (member t us) && disjoint ts us

pub member-disjoint :
    (t : Text) (ts us : List Text)
    → disjoint ts us ≡ true
    → member t ts ≡ true
    → member t us ≡ false
unfolding member disjoint
member-disjoint t [] us d h = cc
member-disjoint t (u ∷ ts) us d h = elim (Bool-cases (text_eq u t)) [
  | inl e ↦ rw (← text_eq_sound u t e) (ground arith)
  | inr e ↦ member-disjoint t ts us (ground arith) (ground arith)
]

-- Every text of the first list is in the second.
unfoldable pub subset : List Text → List Text → Bool
unfolding member
subset [] us = true
subset (t ∷ ts) us = member t us && subset ts us

pub member-subset :
    (t : Text) (ts us : List Text) → subset ts us ≡ true → member t ts ≡ true → member t us ≡ true
unfolding member subset
member-subset t [] us d h = cc
member-subset t (u ∷ ts) us d h = elim (Bool-cases (text_eq u t)) [
  | inl e ↦ rw (← text_eq_sound u t e) (ground arith)
  | inr e ↦ member-subset t ts us (ground arith) (ground arith)
]

-- A test that every text of a list passes.
unfoldable pub every : (Text → Bool) → List Text → Bool
every p [] = true
every p (t ∷ ts) = p t && every p ts

pub member-every :
    (p : Text → Bool) (t : Text) (ts : List Text)
    → every p ts ≡ true
    → member t ts ≡ true
    → p t ≡ true
unfolding member every
member-every p t [] d h = cc
member-every p t (u ∷ ts) d h = elim (Bool-cases (text_eq u t)) [
  | inl e ↦ rw (← text_eq_sound u t e) (ground arith)
  | inr e ↦ member-every p t ts (ground arith) (ground arith)
]

member-unique_from :
    (t : Text) (seen ts : List Text)
    → member t (unique_from seen ts) ≡ (member t ts && not (member t seen))
unfolding member unique_from
member-unique_from t seen [] = refl
member-unique_from t seen (u ∷ ts) = elim (Bool-cases (text_eq u t)) [
  | inl same ↦
      let e = (text_eq_iff u t).0 same in
      ground (
        arith,
        same,
        ap (λ v. member v seen) e,
        member-unique_from t seen ts,
        member-unique_from t (u ∷ seen) ts,
      )
  | inr other ↦
      ground (arith, other, member-unique_from t seen ts, member-unique_from t (u ∷ seen) ts)
]

-- A set has the elements that its list has.
pub member-unique : (t : Text) (ts : List Text) → member t (unique ts) ≡ member t ts
unfolding unique member
member-unique t ts = ground (arith, member-unique_from t [] ts)
