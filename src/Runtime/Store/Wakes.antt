-- ===== src/Runtime/Store/Wakes.antt =====
-- app/routeRuntime.tsx: the listeners are left alone only where nothing changed for them.
use kaims_latest.Prelude.{
  ◌≡◌, refl, ap, sym, subst, ◌∙◌, Bool, true, false, not, ◌||◌, List, [], ◌∷◌, ◌++◌, Option, none,
  some, ◌==◌, ==_iff, arith, Bool-cases, inl, inr,
}
use kaims_latest.Js.Text.{Text, text_eq, member}
use kaims_latest.Js.Text.Equality.{text_eq_iff}
use kaims_latest.Runtime.Store.{
  Slice, Runtime, field_of, same_runtime_slice, assign, reconciled, Current, put_slice, reconcile,
  Store, render, commit,
}
use kaims_latest.Runtime.Store.Reads.{
  IsKept, IsLike, IsShared, AreShared, render-Shows, same_fields-IsKept, member-append, absent,
  round, round-other, round-AreShared,
}

module _ (value : Runtime) where
  reconcile-replaced :
      (keys : List Text) (current : Current) → (reconcile keys value current true).1 ≡ true
  unfolding reconcile
  reconcile-replaced [] current = refl
  reconcile-replaced (key ∷ keys) current = reconcile-replaced keys (round value key current)

  raised :
      (keys : List Text) (current : Current) (replaced : Bool)
      → replaced ≡ true
      → (reconcile keys value current replaced).1 ≡ true
  raised keys current replaced h =
      subst (λ b. (reconcile keys value current b).1 ≡ true) (sym h)
        (reconcile-replaced keys current)

  -- A round of a loop that replaces nothing replaces nothing.
  reconcile-same :
      (key : Text) (keys : List Text) (current : Current) (replaced : Bool)
      → (reconcile (key ∷ keys) value current replaced).1 ≡ false
      → same_runtime_slice (current key) (value.at key) ≡ true
  unfolding reconcile
  reconcile-same key keys current replaced h =
      elim (Bool-cases (same_runtime_slice (current key) (value.at key))) [
        | inl same ↦ same
        | inr differ ↦ ground (
          arith,
          h,
          raised keys (round value key current)
              (replaced || not (same_runtime_slice (current key) (value.at key)))
              (ground (arith, differ)),
        )
      ]

  -- Such a round finds a slice.
  same-some :
      (o : Option Slice) (n : Slice) → same_runtime_slice o n ≡ true → (p : Slice) × (o ≡ some p)
  unfolding same_runtime_slice
  same-some none n h = ground (arith, h)
  same-some (some p) n h = (p, refl)

  reconciled-identity :
      (p n : Slice)
      → same_runtime_slice (some p) n ≡ true
      → (reconciled (some p) n).identity ≡ p.identity
  unfolding reconciled assign
  reconciled-identity p n h = rw h refl

  -- It stays the same object.
  round-identity :
      (key k : Text) (current : Current) (p : Slice)
      → same_runtime_slice (current key) (value.at key) ≡ true
      → current k ≡ some p
      → (s : Slice) × (round value key current k ≡ some s) × (s.identity ≡ p.identity)
  unfolding put_slice
  round-identity key k current p same found = elim (Bool-cases (text_eq key k)) [
    | inr n ↦ (p, round-other value key k current n ∙ found, refl)
    | inl e ↦
        let own = ap current ((text_eq_iff key k).0 e) ∙ found in
        (
          reconciled (current key) (value.at key),
          rw e refl,
          subst (λ o. (reconciled o (value.at key)).identity ≡ p.identity) (sym own)
              (reconciled-identity p (value.at key)
                (subst (λ o. same_runtime_slice o (value.at key) ≡ true) own same)),
        )
  ]

  reconcile-identity :
      (keys : List Text) (k : Text) (current : Current) (replaced : Bool) (p : Slice)
      → (reconcile keys value current replaced).1 ≡ false
      → current k ≡ some p
      → (s : Slice) × ((reconcile keys value current replaced).0 k ≡ some s)
        × (s.identity ≡ p.identity)
  unfolding reconcile
  reconcile-identity [] k current replaced p h found = (p, found, refl)
  reconcile-identity (key ∷ keys) k current replaced p h found =
      let same = reconcile-same key keys current replaced h in
      let (q, next, kept) = round-identity key k current p same found in
      let (s, last, stays) = reconcile-identity keys k (round value key current) _ q h next in
      (s, last, stays ∙ kept)

  -- A slice and what the value holds in its place, with nothing to tell a listener.
  abbrev pub IsQuiet : Text → Current → Type 0
  IsQuiet k before =
      (p : Slice) × (before k ≡ some p)
      × ((field : Text) → IsKept (field_of field p) (field_of field (value.at k)))

  same_runtime_slice-IsKept :
      (p n : Slice) (field : Text)
      → IsShared (some p) n
      → same_runtime_slice (some p) n ≡ true
      → IsKept (field_of field p) (field_of field n)
  unfolding same_runtime_slice
  same_runtime_slice-IsKept p n field shared h = elim (Bool-cases (p.identity == n.identity)) [
    | inl own ↦ inr (shared ((==_iff p.identity n.identity).0 own) field)
    | inr other ↦ elim (Bool-cases (member field (p.keys ++ n.keys))) [
      | inl m ↦ same_fields-IsKept (p.keys ++ n.keys) p n field (ground (arith, h, other)) m
      | inr out ↦ inr (
          absent field p (ground (arith, out, member-append field p.keys n.keys))
          ∙ sym (absent field n (ground (arith, out, member-append field p.keys n.keys))))
    ]
  ]

  own-IsQuiet :
      (k : Text) (current : Current)
      → IsShared (current k) (value.at k)
      → same_runtime_slice (current k) (value.at k) ≡ true
      → IsQuiet k current
  own-IsQuiet k current shared same =
      let (p, found) = same-some (current k) (value.at k) same in
      (
        p,
        found,
        λ field.
            same_runtime_slice-IsKept p (value.at k) field
              (subst (λ o. IsShared o (value.at k)) found shared)
              (subst (λ o. same_runtime_slice o (value.at k) ≡ true) found same),
      )

  reconcile-IsQuiet :
      (keys : List Text) (k : Text) (current : Current) (replaced : Bool)
      → AreShared value current
      → (reconcile keys value current replaced).1 ≡ false
      → member k keys ≡ true
      → IsQuiet k current
  unfolding reconcile member
  reconcile-IsQuiet [] k current replaced a h m = ground (arith, m)
  reconcile-IsQuiet (key ∷ keys) k current replaced a h m = elim (Bool-cases (text_eq key k)) [
    | inl e ↦
        subst (λ t. IsQuiet t current) ((text_eq_iff key k).0 e)
          (own-IsQuiet key current (a key) (reconcile-same key keys current replaced h))
    | inr n ↦
        let (p, found, kept) =
          reconcile-IsQuiet keys k (round value key current) _ (round-AreShared value key current a)
            h (ground (arith, m, n)) in
        (p, sym (round-other value key k current n) ∙ found, kept)
  ]

  shown-IsLike :
      (k : Text) (current : Current) (s shown : Slice)
      → current k ≡ some shown
      → current k ≡ some s
      → IsLike shown (value.at k)
      → IsLike s (value.at k)
  shown-IsLike k current s shown held last alike =
      let same : shown ≡ s = ground (arith, sym held ∙ last) in
      subst (λ t. IsLike t (value.at k)) same alike

  commit-quiet : (store : Store) → (commit store).emitted ≡ store.emitted → store.changed ≡ false
  unfolding commit
  commit-quiet store h = elim (Bool-cases store.changed) [
    | inl c ↦ let raised = rw c at h in ground (arith, raised)
    | inr c ↦ c
  ]

  -- Where a rendering leaves the listeners alone, nothing that they read has changed: the slice that
  -- the store then holds under a key of the new value is the object that it was, it holds under every
  -- field what the new value holds there, and that is what the slice held before, or a function in
  -- place of a function. A slice that is the value's own object is taken to hold what it holds.
  pub render-IsQuiet :
      (store : Store) (k : Text)
      → AreShared value store.current
      → (commit (render value store)).emitted ≡ store.emitted
      → member k value.keys ≡ true
      → (p : Slice) × (s : Slice) × (store.current k ≡ some p)
        × ((render value store).current k ≡ some s)
        × (s.identity ≡ p.identity)
        × IsLike s (value.at k)
        × ((field : Text) → IsKept (field_of field p) (field_of field s))
  unfolding render
  render-IsQuiet store k a h m =
      let quiet = commit-quiet (render value store) h in
      let same : (reconcile value.keys value store.current false).1 ≡ false =
        ground (arith, quiet) in
      let (p, found, kept) = reconcile-IsQuiet value.keys k store.current false a same m in
      let (s, last, stays) = reconcile-identity value.keys k store.current false p same found in
      let (shown, held, alike) = render-Shows value store k a m in
      let like = shown-IsLike k (render value store).current s shown held last alike in
      (
        p,
        s,
        found,
        last,
        stays,
        like,
        λ field. subst (IsKept (field_of field p)) (sym (like field)) (kept field),
      )
