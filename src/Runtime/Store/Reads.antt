-- ===== src/Runtime/Store/Reads.antt =====
-- app/routeRuntime.tsx: after a rendering the store holds what the provider was given.
use kaims_latest.Prelude.{
  ◌≡◌, refl, ap, sym, subst, ◌∙◌, Bool, true, false, ◌||◌, List, [], ◌∷◌, ◌++◌, Option, none, some,
  ◌==◌, ==_iff, arith, Bool-cases, inl, inr, ◌⊎◌,
}
use kaims_latest.Js.Text.{Text, text_eq, member}
use kaims_latest.Js.Text.Equality.{text_eq_iff, text_eq_refl}
use kaims_latest.Runtime.Store.{
  Field, undefined, func, datum, Slice, Runtime, field_of, object_is, both_functions, same_fields,
  same_runtime_slice, assign, reconciled, Current, put_slice, reconcile, Store, render,
}

-- Two slices hold the same under every key.
abbrev pub IsLike : Slice → Slice → Type 0
IsLike s t = (key : Text) → field_of key s ≡ field_of key t

-- A field that stays as it is, as far as the store can tell: the same, or one function for another.
abbrev pub IsKept : Field → Field → Type 0
IsKept a b = (both_functions a b ≡ true) ⊎ (a ≡ b)

object_is-eq : (a b : Field) → object_is a b ≡ true → a ≡ b
object_is-eq undefined undefined h = refl
object_is-eq (func m) (func n) h = ap func ((==_iff m n).0 h)
object_is-eq (datum m) (datum n) h = ap datum ((==_iff m n).0 h)
object_is-eq undefined (func n) h = ground (arith, h)
object_is-eq undefined (datum n) h = ground (arith, h)
object_is-eq (func m) undefined h = ground (arith, h)
object_is-eq (func m) (datum n) h = ground (arith, h)
object_is-eq (datum m) undefined h = ground (arith, h)
object_is-eq (datum m) (func n) h = ground (arith, h)

pub member-append :
    (t : Text) (us vs : List Text) → member t (us ++ vs) ≡ (member t us || member t vs)
unfolding member
member-append t [] vs = refl
member-append t (u ∷ us) vs = ground (arith, member-append t us vs)

-- What the loop has found to be the same is kept.
pub same_fields-IsKept :
    (keys : List Text) (left right : Slice) (key : Text)
    → same_fields keys left right ≡ true
    → member key keys ≡ true
    → IsKept (field_of key left) (field_of key right)
unfolding same_fields member
same_fields-IsKept [] left right key h m = ground (arith, m)
same_fields-IsKept (k ∷ keys) left right key h m =
    let rest = same_fields-IsKept keys left right key in
    elim (Bool-cases (both_functions (field_of k left) (field_of k right))) [
      | inl fs ↦ elim (Bool-cases (text_eq k key)) [
        | inl e ↦ inl (
            subst (λ t. both_functions (field_of t left) (field_of t right) ≡ true)
              ((text_eq_iff k key).0 e) fs)
        | inr n ↦ rest (ground (arith, h, fs)) (ground (arith, m, n))
      ]
      | inr other ↦ elim (Bool-cases (object_is (field_of k left) (field_of k right))) [
        | inr differ ↦ ground (arith, h, other, differ)
        | inl same ↦ elim (Bool-cases (text_eq k key)) [
          | inl e ↦ inr (
              subst (λ t. field_of t left ≡ field_of t right) ((text_eq_iff k key).0 e)
                (object_is-eq (field_of k left) (field_of k right) same))
          | inr n ↦ rest (ground (arith, h, other, same)) (ground (arith, m, n))
        ]
      ]
    ]

pub absent : (key : Text) (s : Slice) → member key s.keys ≡ false → field_of key s ≡ undefined
unfolding field_of
absent key s h = rw h refl

IsKept-undefined : (a : Field) → IsKept a undefined → a ≡ undefined
IsKept-undefined a (inr e) = e
IsKept-undefined undefined (inl h) = refl
IsKept-undefined (func m) (inl h) = ground (arith, h)
IsKept-undefined (datum m) (inl h) = ground (arith, h)

assign-IsLike :
    (p n : Slice)
    → ((key : Text) → member key n.keys ≡ false → field_of key p ≡ undefined)
    → IsLike (assign p n) n
unfolding assign field_of
assign-IsLike p n h key = elim (Bool-cases (member key n.keys)) [
  | inl own ↦
      let both : member key (p.keys ++ n.keys) ≡ true =
        ground (arith, own, member-append key p.keys n.keys) in
      rw (both, own) refl
  | inr other ↦
      let only : member key (p.keys ++ n.keys) ≡ member key p.keys =
        ground (arith, other, member-append key p.keys n.keys) in
      rw (only, other) (h key other)
]

-- Where the store has the provider's own object, it holds what the object holds.
abbrev pub IsShared : Option Slice → Slice → Type 0
IsShared none n = Unit
IsShared (some p) n = p.identity ≡ n.identity → IsLike p n

reconciled-IsLike : (o : Option Slice) (n : Slice) → IsShared o n → IsLike (reconciled o n) n
unfolding reconciled same_runtime_slice
reconciled-IsLike none n h = λ key. refl
reconciled-IsLike (some p) n h = elim (Bool-cases (p.identity == n.identity)) [
  | inl own ↦
      rw own
        (assign-IsLike p n (λ key k. h ((==_iff p.identity n.identity).0 own) key ∙ absent key n k))
  | inr other ↦ elim (Bool-cases (same_fields (p.keys ++ n.keys) p n)) [
    | inr differ ↦ rw (other, differ) (λ key. refl)
    | inl same ↦ rw (other, same) (assign-IsLike p n (λ key k. gone key k same))
  ]
]
  where
    gone :
        (key : Text)
        → member key n.keys ≡ false
        → same_fields (p.keys ++ n.keys) p n ≡ true
        → field_of key p ≡ undefined
    gone key k same = elim (Bool-cases (member key p.keys)) [
      | inr out ↦ absent key p out
      | inl own ↦ IsKept-undefined (field_of key p) (
          subst (λ b. IsKept (field_of key p) b) (absent key n k)
            (same_fields-IsKept (p.keys ++ n.keys) p n key same
              (ground (arith, own, member-append key p.keys n.keys))))
    ]

module _ (value : Runtime) where
  -- The store has, under a key, a slice that holds what the provider was given there.
  abbrev pub Shows : Text → Current → Type 0
  Shows key current = (s : Slice) × (current key ≡ some s) × IsLike s (value.at key)

  abbrev pub AreShared : Current → Type 0
  AreShared current = (key : Text) → IsShared (current key) (value.at key)

  abbrev pub round : Text → Current → Current
  round key current = put_slice key (reconciled (current key) (value.at key)) current

  pub round-own :
      (key : Text) (current : Current)
      → IsShared (current key) (value.at key)
      → Shows key (round key current)
  unfolding put_slice
  round-own key current h = (
    reconciled (current key) (value.at key),
    rw (text_eq_refl key) refl,
    reconciled-IsLike (current key) (value.at key) h,
  )

  pub round-other :
      (key k : Text) (current : Current) → text_eq key k ≡ false → round key current k ≡ current k
  unfolding put_slice
  round-other key k current h = rw h refl

  Shows-IsShared :
      (key : Text) (current : Current) → Shows key current → IsShared (current key) (value.at key)
  Shows-IsShared key current (s, e, l) = subst (λ o. IsShared o (value.at key)) (sym e) (λ i. l)

  pub round-AreShared :
      (key : Text) (current : Current) → AreShared current → AreShared (round key current)
  round-AreShared key current h k = elim (Bool-cases (text_eq key k)) [
    | inl e ↦
        subst (λ t. IsShared (round key current t) (value.at t)) ((text_eq_iff key k).0 e)
          (Shows-IsShared key (round key current) (round-own key current (h key)))
    | inr n ↦ subst (λ o. IsShared o (value.at k)) (sym (round-other key k current n)) (h k)
  ]

  round-Shows :
      (key k : Text) (current : Current)
      → AreShared current
      → Shows k current
      → Shows k (round key current)
  round-Shows key k current a h = elim (Bool-cases (text_eq key k)) [
    | inl e ↦
        subst (λ t. Shows t (round key current)) ((text_eq_iff key k).0 e)
          (round-own key current (a key))
    | inr n ↦ (h.0, round-other key k current n ∙ h.1, h.2)
  ]

  reconcile-keeps :
      (keys : List Text) (k : Text) (current : Current) (replaced : Bool)
      → AreShared current
      → Shows k current
      → Shows k (reconcile keys value current replaced).0
  unfolding reconcile
  reconcile-keeps [] k current replaced a h = h
  reconcile-keeps (key ∷ keys) k current replaced a h =
      reconcile-keeps keys k (round key current) _ (round-AreShared key current a)
        (round-Shows key k current a h)

  reconcile-Shows :
      (keys : List Text) (k : Text) (current : Current) (replaced : Bool)
      → AreShared current
      → member k keys ≡ true
      → Shows k (reconcile keys value current replaced).0
  unfolding reconcile member
  reconcile-Shows [] k current replaced a m = ground (arith, m)
  reconcile-Shows (key ∷ keys) k current replaced a m = elim (Bool-cases (text_eq key k)) [
    | inl e ↦ reconcile-keeps keys k (round key current) _ (round-AreShared key current a) (
        subst (λ t. Shows t (round key current)) ((text_eq_iff key k).0 e)
          (round-own key current (a key)))
    | inr n ↦
        reconcile-Shows keys k (round key current) _ (round-AreShared key current a)
          (ground (arith, m, n))
  ]

  -- After a rendering a route reads under each key of the new value exactly what the value holds
  -- there, functions included, whether its slice was replaced or kept: no stale field is left.
  pub render-Shows :
      (store : Store) (key : Text)
      → AreShared store.current
      → member key value.keys ≡ true
      → Shows key (render value store).current
  unfolding render
  render-Shows store key a m = reconcile-Shows value.keys key store.current false a m
