-- ===== src/Alerts/Merge/Size.antt =====
-- appHelpers.jsx: how many rows `dedupeAndConsolidateAlertRows` returns, and in which order.
use kaims_latest.Prelude.{
  ℕ, zero, suc, ◌+◌, ◌≤◌, ◌<◌, ◌≡◌, refl, Bool, true, List, [], ◌∷◌, ◌++◌, map, Option, none, some,
  length, length-append, if◌then◌else◌, arith, Bool-cases, inl, inr, count, All, min,
}
use kaims_latest.Js.Text.{Text, js, text_eq}
use kaims_latest.Js.Value.{Value, array_or_empty, decimal}
use kaims_latest.Js.Order.{sort_desc, IsDescending, sort_desc-IsDescending, count-sort_desc}
use kaims_latest.Alerts.Channel.{normalize_alert_channel}
use kaims_latest.Alerts.Identity.{alert_time_ms, alert_identity_keys}
use kaims_latest.Alerts.Merge.{
  Group, Grouping, position_of, first_group, register, update_at, open_group, or_keys, join_group,
  place_row, is_accepted, consolidate, consolidate_all, group_row, no_groups,
  dedupe_and_consolidate_alert_rows,
}

abbrev IsBelow : ℕ → Option ℕ → Type 0
IsBelow n none = Unit
IsBelow n (some i) = i < n

-- Every position in the map is one of a group.
abbrev IsInRange : ℕ → List (Text × ℕ) → Type 0
IsInRange n m = All (λ entry. entry.1 < n) m

IsInRange-mono : (n k : ℕ) (m : List (Text × ℕ)) → n ≤ k → IsInRange n m → IsInRange k m
IsInRange-mono n k [] h a = tt
IsInRange-mono n k (e ∷ m) h a = (omega (arith, a.0), IsInRange-mono n k m h a.1)

position_of-IsBelow :
    (n : ℕ) (m : List (Text × ℕ)) (key : Text) → IsInRange n m → IsBelow n (position_of m key)
position_of-IsBelow n [] key a = tt
position_of-IsBelow n ((k, i) ∷ m) key a = elim (Bool-cases (text_eq k key)) [
  | inl here ↦ rw here (a.0)
  | inr later ↦ rw later (position_of-IsBelow n m key a.1)
]

IsBelow-elim :
    (n : ℕ) (o r : Option ℕ)
    → IsBelow n o
    → IsBelow n r
    → IsBelow n (elim o [ some i ↦ some i | none ↦ r ])
IsBelow-elim n none r h k = k
IsBelow-elim n (some i) r h k = h

first_group-IsBelow :
    (n : ℕ) (m : List (Text × ℕ)) (keys : List Text)
    → IsInRange n m
    → IsBelow n (first_group m keys)
unfolding first_group
first_group-IsBelow n m [] a = tt
first_group-IsBelow n m (key ∷ keys) a =
    IsBelow-elim n (position_of m key) (first_group m keys) (position_of-IsBelow n m key a)
      (first_group-IsBelow n m keys a)

register-IsInRange :
    (n i : ℕ) (keys : List Text) (m : List (Text × ℕ))
    → i < n
    → IsInRange n m
    → IsInRange n (register i keys m)
unfolding register
register-IsInRange n i [] m h a = a
register-IsInRange n i (key ∷ keys) m h a = register-IsInRange n i keys ((key, i) ∷ m) h (h, a)

length-update_at :
    (f : Group → Group) (i : ℕ) (gs : List Group) → length (update_at f i gs) ≡ length gs
length-update_at f i [] = refl
length-update_at f zero (g ∷ gs) = refl
length-update_at f (suc i) (g ∷ gs) = ground (arith, length-update_at f i gs)

IsWellFormed : Grouping → Type 0
IsWellFormed st = IsInRange (length st.groups) st.key_to_group

module _ (date : Text → Option ℕ) (random : ℕ → Text) where
  module _ (b : Bool) (row : Value) (keys : List Text) (st : Grouping) where
    place_row-length :
        (o : Option ℕ)
        → (length st.groups ≤ length (place_row date random b row keys o st).groups)
          × (length (place_row date random b row keys o st).groups ≤ length st.groups + 1)
    unfolding place_row
    place_row-length none =
        let more = length-append st.groups (open_group row (normalize_alert_channel row) ∷ []) in
        (omega (arith, more), omega (arith, more))
    place_row-length (some i) =
        let equal =
          length-update_at (join_group date random b row (normalize_alert_channel row)) i
            st.groups in
        (omega (arith, equal), omega (arith, equal))

    -- A row that is placed stands in a group.
    place_row-IsWellFormed :
        (o : Option ℕ)
        → IsBelow (length st.groups) o
        → IsWellFormed st
        → IsWellFormed (place_row date random b row keys o st)
          × (0 < length (place_row date random b row keys o st).groups)
    unfolding place_row IsWellFormed
    place_row-IsWellFormed none h a =
        let more = length-append st.groups (open_group row (normalize_alert_channel row) ∷ []) in
        (
          register-IsInRange _ (length st.groups) keys st.key_to_group (omega (arith, more))
              (IsInRange-mono (length st.groups) _ st.key_to_group (omega (arith, more)) a),
          omega (arith, more),
        )
    place_row-IsWellFormed (some i) h a =
        let equal =
          length-update_at (join_group date random b row (normalize_alert_channel row)) i
            st.groups in
        (
          register-IsInRange _ i keys st.key_to_group (omega (arith, equal, h))
              (IsInRange-mono (length st.groups) _ st.key_to_group (omega (arith, equal)) a),
          omega (arith, equal, h),
        )

  abbrev keys_of : ℕ → Value → Grouping → List Text
  keys_of index row st =
      or_keys (alert_identity_keys date row)
        (js "row:" ++ decimal (length st.groups) ++ js ":" ++ random index)

  consolidate-step :
      (b : Bool) (channels : List Text) (index : ℕ) (row : Value) (st : Grouping)
      → IsWellFormed st
      → IsWellFormed (consolidate date random b channels index row st)
        × (length st.groups ≤ length (consolidate date random b channels index row st).groups)
        × (length (consolidate date random b channels index row st).groups
            ≤ length st.groups + (if is_accepted channels row then 1 else 0))
        × ((if is_accepted channels row then 1 else 0)
            ≤ length (consolidate date random b channels index row st).groups)
  unfolding consolidate IsWellFormed
  consolidate-step b channels index row st a =
      let keys = keys_of index row st in
      let o = first_group st.key_to_group keys in
      let placed =
        place_row-IsWellFormed b row keys st o
          (first_group-IsBelow (length st.groups) st.key_to_group keys a) a in
      let size = place_row-length b row keys st o in
      elim (Bool-cases (is_accepted channels row)) [
        | inl taken ↦ rw taken (placed.0, size.0, size.1, omega (arith, placed.1))
        | inr left ↦ rw left (a, omega arith, omega arith, omega arith)
      ]

  consolidate_all-length :
      (b : Bool) (channels : List Text) (index : ℕ) (rows : List Value) (st : Grouping)
      → IsWellFormed st
      → (length (consolidate_all date random b channels index rows st).groups
          ≤ length st.groups + count (is_accepted channels) rows)
        × (min 1 (length st.groups + count (is_accepted channels) rows)
            ≤ length (consolidate_all date random b channels index rows st).groups)
  unfolding consolidate_all
  consolidate_all-length b channels index [] st a = (omega arith, omega arith)
  consolidate_all-length b channels index (row ∷ rows) st a =
      let step = consolidate-step b channels index row st a in
      let rest =
        consolidate_all-length b channels (suc index) rows
          (consolidate date random b channels index row st) step.0 in
      (
        ground (arith, rest.0, step.1, step.2, step.3),
        ground (arith, rest.1, step.1, step.2, step.3),
      )

  count-all : (xs : List Value) → count (λ x. true) xs ≡ length xs
  count-all [] = refl
  count-all (x ∷ xs) = omega (arith, count-all xs)

  length-map : (gs : List Group) → length (map group_row gs) ≡ length gs
  length-map [] = refl
  length-map (g ∷ gs) = ground (arith, length-map gs)

  length-sort_desc : (xs : List Value) → length (sort_desc (alert_time_ms date) xs) ≡ length xs
  length-sort_desc xs = omega (
    arith,
    count-sort_desc (alert_time_ms date) (λ x. true) xs,
    count-all xs,
    count-all (sort_desc (alert_time_ms date) xs),
  )

  no_groups-IsWellFormed : IsWellFormed no_groups
  unfolding IsWellFormed
  no_groups-IsWellFormed = tt

  -- The stream stands newest first, has no more rows than there are objects of an allowed channel,
  -- and is not empty if there is one.
  pub dedupe_and_consolidate_alert_rows-length :
      (b : Bool) (channels : List Text) (rows : Value)
      → IsDescending
          (alert_time_ms date)
          (dedupe_and_consolidate_alert_rows date random b channels rows)
        × (length (dedupe_and_consolidate_alert_rows date random b channels rows)
            ≤ count (is_accepted channels) (array_or_empty rows))
        × (min 1 (count (is_accepted channels) (array_or_empty rows))
            ≤ length (dedupe_and_consolidate_alert_rows date random b channels rows))
  unfolding dedupe_and_consolidate_alert_rows
  dedupe_and_consolidate_alert_rows-length b channels rows =
      let groups =
        (consolidate_all date random b channels 0 (array_or_empty rows) no_groups).groups in
      let size =
        consolidate_all-length b channels 0 (array_or_empty rows) no_groups
          no_groups-IsWellFormed in
      let equal = length-map groups in
      let sorted = length-sort_desc (map group_row groups) in
      (
        sort_desc-IsDescending (alert_time_ms date) (map group_row groups),
        omega (arith, size.0, equal, sorted),
        omega (arith, size.1, equal, sorted),
      )
