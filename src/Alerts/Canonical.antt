-- ===== src/Alerts/Canonical.antt =====
-- appHelpers.jsx: `resolveCanonicalAlertRow` and `resolveCanonicalAlertForRow`.
use kaims_latest.Prelude.{
  ℕ, ◌≡◌, refl, subst, Bool, true, false, not, ◌&&◌, ◌||◌, List, [], ◌∷◌, Option, none, some, any,
  filter, ltb, if◌then◌else◌, arith, Bool-cases, inl, inr, ◌⊎◌, All, All-filter_with, All-mono,
}
use kaims_latest.Js.Text.{Text, js, trim, text_eq, member}
use kaims_latest.Js.Value.{Value, ◌!◌, ◌or◌, text_of, is_object, array_or_empty, str}
use kaims_latest.Js.Regex.{test}
use kaims_latest.Alerts.Identity.{alert_uuid_pattern, alert_identity_keys, alert_row_score}

-- `ALERT_UUID_PATTERN.test(String(row?.alert_id || row?.id || ""))`
unfoldable pub has_canonical_id : Value → Bool
has_canonical_id row = test alert_uuid_pattern (text_of (row ! "alert_id" or row ! "id"))

-- `value === text` for a text
abbrev pub is_text : Value → Text → Bool
is_text (str s) t = text_eq s t
is_text _ t = false

abbrev pub is_landing : Value → Bool
is_landing row = is_text (row ! "_stream_kind") (js "landing_pad")

-- Whether the comparator puts the first row strictly before the second.
unfoldable pub outranks : Value → Value → Bool
outranks left right =
    if has_canonical_id left && not (has_canonical_id right)
    then true
    else if has_canonical_id right && not (has_canonical_id left)
    then false
    else if is_landing right && not (is_landing left)
    then true
    else if is_landing left && not (is_landing right)
    then false
    else ltb (alert_row_score right) (alert_row_score left)

-- The head of the stable sort: the first row that no other one outranks.
unfoldable pub best_of : Value → List Value → Value
best_of best [] = best
best_of best (row ∷ rows) = best_of (if outranks row best then row else best) rows

abbrev pub head_of : List Value → Option Value
head_of [] = none
head_of (row ∷ rows) = some (best_of row rows)

kept_row-has_canonical_id :
    (row best : Value)
    → has_canonical_id (if outranks row best then row else best)
      ≡ (has_canonical_id row || has_canonical_id best)
unfolding outranks
kept_row-has_canonical_id row best = elim (Bool-cases (outranks row best)) [
  | inl better ↦ rw better (ground (arith, better))
  | inr worse ↦ rw worse (ground (arith, worse))
]

-- The best row has a canonical identifier where any row has.
best_of-has_canonical_id :
    (best : Value) (rows : List Value)
    → has_canonical_id (best_of best rows) ≡ false
    → (has_canonical_id best ≡ false) × All (λ c. has_canonical_id c ≡ false) rows
unfolding best_of
best_of-has_canonical_id best [] h = (h, tt)
best_of-has_canonical_id best (row ∷ rows) h =
    let (kept, rest) = best_of-has_canonical_id (if outranks row best then row else best) rows h in
    let both = kept_row-has_canonical_id row best in
    (ground (arith, kept, both), (ground (arith, kept, both), rest))

pub data Resolution : Type 0 where
  resolved : Value → Resolution
  pending unresolved : Resolution

abbrev pub is_empty : List Text → Bool
is_empty [] = true
is_empty (k ∷ ks) = false

-- `same` is `===` on two rows, which are objects.
module _ (date : Text → Option ℕ) (same : Value → Value → Bool) where
  abbrev pub shares_key : Value → Value → Bool
  shares_key row candidate =
      is_object candidate
      && any (λ key. member key (alert_identity_keys date row)) (alert_identity_keys date candidate)

  -- The candidate that `resolveCanonicalAlertRow` returns, or `none` where it returns the row.
  unfoldable pub canonical_match : Value → Value → Option Value
  unfolding best_of
  canonical_match row candidates =
      if not (is_object row) || is_empty (alert_identity_keys date row)
      then none
      else head_of (filter (shares_key row) (array_or_empty candidates))

  abbrev pub or_row : Value → Option Value → Value
  or_row row none = row
  or_row row (some candidate) = candidate

  unfoldable pub resolve_canonical_alert_row : Value → Value → Value
  unfolding canonical_match
  resolve_canonical_alert_row row candidates = or_row row (canonical_match row candidates)

  unfoldable pub supplied_alert_id : Value → Text
  supplied_alert_id row =
      let event = row ! "projection_payload" ! "event_payload" in
      trim (
        text_of (
          row ! "alert_id"
          or row ! "projection_payload" ! "alert_id"
          or event ! "alert_id"
          or event ! "source_alert_id"
          or row ! "id"
          or row ! "incident_id"))

  -- What follows where the row has no canonical identifier of its own.
  unfoldable pub resolve_match : Value → Option Value → Resolution
  resolve_match row none = if is_empty (alert_identity_keys date row) then unresolved else pending
  resolve_match row (some candidate) =
      if not (same candidate row)
        && test alert_uuid_pattern (trim (text_of (candidate ! "alert_id" or candidate ! "id")))
      then resolved candidate
      else if is_empty (alert_identity_keys date row)
      then unresolved
      else pending

  unfoldable pub resolve_canonical_alert_for_row : Value → Value → Resolution
  unfolding supplied_alert_id resolve_match canonical_match
  resolve_canonical_alert_for_row row alert_rows =
      if not (is_object row)
      then unresolved
      else if test alert_uuid_pattern (supplied_alert_id row)
      then resolved row
      else resolve_match row (canonical_match row alert_rows)

  -- The test of a candidate's own identifier.
  abbrev pub has_uuid : Value → Bool
  has_uuid r = test alert_uuid_pattern (trim (text_of (r ! "alert_id" or r ! "id")))

  abbrev pub IsAmong : Value → List Value → Type 0
  IsAmong r [] = ⊥
  IsAmong r (c ∷ cs) = (r ≡ c) ⊎ IsAmong r cs

  -- What a candidate of a list has to be for a row to be resolved to it.
  abbrev pub IsCandidate : Value → List Value → Value → Type 0
  IsCandidate row cs c = IsAmong c cs × (shares_key row c ≡ true)

  -- Why no candidate of a list is taken: none that shares a key has a canonical identifier, or one of
  -- those that have it is the row itself, or fails the test on the trimmed identifier.
  abbrev pub IsUnmatched : Value → List Value → Type 0
  IsUnmatched row cs =
      All (λ c. has_canonical_id c ≡ false) (filter (shares_key row) cs)
      ⊎ ((c : Value) × IsCandidate row cs c
          × (has_canonical_id c ≡ true)
          × ((same c row ≡ true) ⊎ (has_uuid c ≡ false)))

  -- What holds where the code gives a resolution: which row it is, or why there is none.
  abbrev pub IsJustified : Value → Value → Resolution → Type 0
  IsJustified row alert_rows (resolved r) =
      (is_object row ≡ true)
      × (((r ≡ row) × (test alert_uuid_pattern (supplied_alert_id row) ≡ true))
          ⊎ ((test alert_uuid_pattern (supplied_alert_id row) ≡ false)
              × IsCandidate row (array_or_empty alert_rows) r
              × (same r row ≡ false)
              × (has_uuid r ≡ true)))
  IsJustified row alert_rows pending =
      (is_object row ≡ true)
      × (test alert_uuid_pattern (supplied_alert_id row) ≡ false)
      × (is_empty (alert_identity_keys date row) ≡ false)
      × IsUnmatched row (array_or_empty alert_rows)
  IsJustified row alert_rows unresolved =
      (is_object row ≡ false)
      ⊎ ((test alert_uuid_pattern (supplied_alert_id row) ≡ false)
          × (is_empty (alert_identity_keys date row) ≡ true))

  best_of-All :
      (P : Value → Type 0) (best : Value) (rows : List Value)
      → P best
      → All P rows
      → P (best_of best rows)
  unfolding best_of
  best_of-All P best [] h a = h
  best_of-All P best (row ∷ rows) h a = elim (Bool-cases (outranks row best)) [
    | inl better ↦ rw better (best_of-All P row rows a.0 a.1)
    | inr worse ↦ rw worse (best_of-All P best rows h a.1)
  ]

  All-IsAmong : (rows : List Value) → All (λ c. IsAmong c rows) rows
  All-IsAmong [] = tt
  All-IsAmong (c ∷ cs) = (
    inl refl,
    All-mono (λ r. IsAmong r cs) (λ r. IsAmong r (c ∷ cs)) cs (λ r h. inr h) (All-IsAmong cs),
  )

  filter-IsCandidate :
      (row : Value) (rows : List Value) → All (IsCandidate row rows) (filter (shares_key row) rows)
  filter-IsCandidate row rows =
      All-filter_with (λ c. IsAmong c rows) (IsCandidate row rows) (shares_key row) rows
        (λ c shares among. (among, shares)) (All-IsAmong rows)

  -- What the match of a row with keys is: none where no candidate shares a key, and otherwise a
  -- candidate, with a canonical identifier unless none has one.
  IsMatch : Value → Value → Option Value → Type 0
  IsMatch row alert_rows none =
      (is_empty (alert_identity_keys date row) ≡ true)
      ⊎ All (λ c. has_canonical_id c ≡ false) (filter (shares_key row) (array_or_empty alert_rows))
  IsMatch row alert_rows (some c) =
      IsCandidate row (array_or_empty alert_rows) c
      × ((has_canonical_id c ≡ true)
          ⊎ All (λ d. has_canonical_id d ≡ false)
              (filter (shares_key row) (array_or_empty alert_rows)))

  best_of-IsMatch :
      (c : Value) (cs : List Value)
      → (has_canonical_id (best_of c cs) ≡ true) ⊎ All (λ d. has_canonical_id d ≡ false) (c ∷ cs)
  best_of-IsMatch c cs = elim (Bool-cases (has_canonical_id (best_of c cs))) [
    | inl canonical ↦ inl canonical
    | inr other ↦ inr (best_of-has_canonical_id c cs other)
  ]

  head_of-IsMatch :
      (row alert_rows : Value) (rows : List Value)
      → filter (shares_key row) (array_or_empty alert_rows) ≡ rows
      → IsMatch row alert_rows (head_of rows)
  unfolding IsMatch
  head_of-IsMatch row alert_rows [] e = inr (rw e tt)
  head_of-IsMatch row alert_rows (c ∷ cs) e =
      let found =
        subst (All (IsCandidate row (array_or_empty alert_rows))) e
          (filter-IsCandidate row (array_or_empty alert_rows)) in
      (
        best_of-All (IsCandidate row (array_or_empty alert_rows)) c cs found.0 found.1,
        rw e (best_of-IsMatch c cs),
      )

  canonical_match-IsMatch :
      (row alert_rows : Value)
      → is_object row ≡ true
      → IsMatch row alert_rows (canonical_match row alert_rows)
  unfolding canonical_match IsMatch
  canonical_match-IsMatch row alert_rows shaped =
      elim (Bool-cases (is_empty (alert_identity_keys date row))) [
        | inl keyless ↦ rw (shaped, keyless) (inl keyless)
        | inr keyed ↦ rw (shaped, keyed) (head_of-IsMatch row alert_rows _ refl)
      ]

  IsJustified-if :
      (row alert_rows : Value) (b : Bool) (r s : Resolution)
      → (b ≡ true → IsJustified row alert_rows r)
      → (b ≡ false → IsJustified row alert_rows s)
      → IsJustified row alert_rows (if b then r else s)
  IsJustified-if row alert_rows true r s h k = h refl
  IsJustified-if row alert_rows false r s h k = k refl

  waiting-IsJustified :
      (row alert_rows : Value)
      → is_object row ≡ true
      → test alert_uuid_pattern (supplied_alert_id row) ≡ false
      → (is_empty (alert_identity_keys date row) ≡ true)
        ⊎ IsUnmatched row (array_or_empty alert_rows)
      → IsJustified row alert_rows
          (if is_empty (alert_identity_keys date row) then unresolved else pending)
  waiting-IsJustified row alert_rows shaped foreign why =
      IsJustified-if row alert_rows (is_empty (alert_identity_keys date row)) unresolved pending
        (λ e. inr (foreign, e)) (λ e. (shaped, foreign, e, keyed-IsUnmatched e why))
    where
      keyed-IsUnmatched :
          is_empty (alert_identity_keys date row) ≡ false
          → (is_empty (alert_identity_keys date row) ≡ true)
            ⊎ IsUnmatched row (array_or_empty alert_rows)
          → IsUnmatched row (array_or_empty alert_rows)
      keyed-IsUnmatched e (inl keyless) = ground (arith, e, keyless)
      keyed-IsUnmatched e (inr unmatched) = unmatched

  missed-IsUnmatched :
      (row alert_rows c : Value)
      → (not (same c row) && has_uuid c) ≡ false
      → IsMatch row alert_rows (some c)
      → IsUnmatched row (array_or_empty alert_rows)
  unfolding IsMatch
  missed-IsUnmatched row alert_rows c missed (candidate, inr none_has) = inl none_has
  missed-IsUnmatched row alert_rows c missed (candidate, inl canonical) =
      elim (Bool-cases (same c row)) [
        | inl own ↦ inr (c, candidate, canonical, inl own)
        | inr other ↦ inr (c, candidate, canonical, inr (ground (arith, missed, other)))
      ]

  resolve_match-IsJustified :
      (row alert_rows : Value) (m : Option Value)
      → is_object row ≡ true
      → test alert_uuid_pattern (supplied_alert_id row) ≡ false
      → IsMatch row alert_rows m
      → IsJustified row alert_rows (resolve_match row m)
  unfolding resolve_match IsMatch
  resolve_match-IsJustified row alert_rows none shaped foreign (inl keyless) =
      waiting-IsJustified row alert_rows shaped foreign (inl keyless)
  resolve_match-IsJustified row alert_rows none shaped foreign (inr none_has) =
      waiting-IsJustified row alert_rows shaped foreign (inr (inl none_has))
  resolve_match-IsJustified row alert_rows (some c) shaped foreign s =
      IsJustified-if row alert_rows (not (same c row) && has_uuid c) (resolved c) _
        (λ found. (shaped, inr (foreign, s.0, ground (arith, found), ground (arith, found))))
        (λ missed.
          waiting-IsJustified row alert_rows shaped foreign
            (inr (missed-IsUnmatched row alert_rows c missed s)))

  -- A row is resolved to itself only where its own identifier is canonical. Otherwise it is resolved
  -- only to another row of those given, which shares an identity key with it and has a canonical
  -- identifier. Waiting is reported only for a row that has an identity key and no canonical
  -- identifier, where no row that shares a key has a canonical identifier, or one that has it is the
  -- row itself or fails the test on the trimmed identifier; and a failure only for a row that is no
  -- object or has neither an identity key nor a canonical identifier.
  pub resolve_canonical_alert_for_row-IsJustified :
      (row alert_rows : Value)
      → IsJustified row alert_rows (resolve_canonical_alert_for_row row alert_rows)
  unfolding resolve_canonical_alert_for_row
  resolve_canonical_alert_for_row-IsJustified row alert_rows =
      let m = canonical_match row alert_rows in
      IsJustified-if row alert_rows (not (is_object row)) unresolved _
        (λ e. inl (ground (arith, e)))
        (λ e.
          let shaped : is_object row ≡ true = ground (arith, e) in
          IsJustified-if row alert_rows (test alert_uuid_pattern (supplied_alert_id row))
            (resolved row) (resolve_match row m) (λ own. (shaped, inl (refl, own)))
            (λ foreign.
              resolve_match-IsJustified row alert_rows m shaped foreign
                (canonical_match-IsMatch row alert_rows shaped)))
