-- ===== src/Alerts/Limits/Rounds.antt =====
-- appHelpers.jsx: the two loops of `capLatestAlertsPerSource`, round by round.
use kaims_latest.Prelude.{
  ℕ, suc, ◌+◌, ◌≤◌, ◌<◌, ◌≡◌, refl, ap, ◌∙◌, Bool, true, false, ◌&&◌, List, [], ◌∷◌, count,
  if◌then◌else◌, arith,
}
use kaims_latest.Js.Text.{Text, text_eq, member}
use kaims_latest.Js.Text.Equality.{text_eq_iff, text_eq_comm}
use kaims_latest.Js.Value.{Value}
use kaims_latest.Alerts.Channel.{normalize_alert_channel, alert_source_channels}
use kaims_latest.Alerts.Limits.{
  CapState, has_index, reserve, fill, reserve_all, fill_all, keep_selected, has_channel,
}

-- An index that comes before the rows does not matter to them.
pub keep_selected-before :
    (j : ℕ) (selected : List ℕ) (rows : List Value) (i : ℕ)
    → j < i
    → keep_selected (j ∷ selected) rows i ≡ keep_selected selected rows i
unfolding keep_selected
keep_selected-before j selected [] i h = refl
keep_selected-before j selected (row ∷ rows) i h =
    ground (arith, keep_selected-before j selected rows (suc i))

pub count-keep_selected-le :
    (p : Value → Bool) (selected : List ℕ) (rows : List Value) (i : ℕ)
    → count p (keep_selected selected rows i) ≤ count p rows
unfolding keep_selected
count-keep_selected-le p selected [] i = omega arith
count-keep_selected-le p selected (row ∷ rows) i =
    ground (arith, count-keep_selected-le p selected rows (suc i))

abbrev pub Fresh : ℕ → CapState → Type 0
Fresh i st = (j : ℕ) → i ≤ j → has_index st.selected j ≡ false

-- 1 for a row of the channel that is selected.
abbrev pub slot : Text → Value → ℕ → CapState → ℕ
slot c row i st = if has_index st.selected i && has_channel c row then 1 else 0

pub ap-text_eq {ℓ} : {A : Type ℓ} (f : Text → A) (c d : Text) → text_eq c d ≡ true → f c ≡ f d
ap-text_eq f c d h = ap f ((text_eq_iff c d).0 h)

module _ (limit : ℕ) where
  reserve-counters :
      (c : Text) (row : Value) (i : ℕ) (st : CapState)
      → has_index st.selected i ≡ false
      → (reserve limit row i st).counters c ≡ st.counters c + slot c row i (reserve limit row i st)
  unfolding reserve
  reserve-counters c row i st h = ground (arith, text_eq_comm c (normalize_alert_channel row))

  reserve-Fresh :
      (row : Value) (i : ℕ) (st : CapState) → Fresh i st → Fresh (suc i) (reserve limit row i st)
  unfolding reserve
  reserve-Fresh row i st h j le = ground (arith, h j)

  reserve-earlier :
      (row : Value) (i j : ℕ) (st : CapState)
      → j < i
      → has_index (reserve limit row i st).selected j ≡ has_index st.selected j
  unfolding reserve
  reserve-earlier row i j st h = ground arith

  pub reserve_all-earlier :
      (rows : List Value) (i j : ℕ) (st : CapState)
      → j < i
      → has_index (reserve_all limit rows i st).selected j ≡ has_index st.selected j
  unfolding reserve_all
  reserve_all-earlier [] i j st h = refl
  reserve_all-earlier (row ∷ rows) i j st h =
      reserve_all-earlier rows (suc i) j (reserve limit row i st) (omega arith)
      ∙ reserve-earlier row i j st h

  pub reserve_all-counters :
      (c : Text) (rows : List Value) (i : ℕ) (st : CapState)
      → Fresh i st
      → (reserve_all limit rows i st).counters c
        ≡ st.counters c
          + count (has_channel c) (keep_selected (reserve_all limit rows i st).selected rows i)
  unfolding reserve_all keep_selected
  reserve_all-counters c [] i st h = omega arith
  reserve_all-counters c (row ∷ rows) i st h =
      let next = reserve limit row i st in
      ground (
        arith,
        reserve-counters c row i st (h i (omega arith)),
        reserve_all-earlier rows (suc i) i next (omega arith),
        reserve_all-counters c rows (suc i) next (reserve-Fresh row i st h),
      )

  fill-counters :
      (c : Text) (row : Value) (i : ℕ) (st : CapState)
      → (fill limit row i st).counters c + slot c row i st
        ≡ st.counters c + slot c row i (fill limit row i st)
  unfolding fill
  fill-counters c row i st = ground (arith, text_eq_comm c (normalize_alert_channel row))

  fill-later :
      (row : Value) (rows : List Value) (i : ℕ) (st : CapState)
      → keep_selected (fill limit row i st).selected rows (suc i)
        ≡ keep_selected st.selected rows (suc i)
  unfolding fill
  fill-later row rows i st =
      ground (arith, keep_selected-before i st.selected rows (suc i) (omega arith))

  fill-earlier :
      (row : Value) (i j : ℕ) (st : CapState)
      → j < i
      → has_index (fill limit row i st).selected j ≡ has_index st.selected j
  unfolding fill
  fill-earlier row i j st h = ground arith

  pub fill_all-earlier :
      (rows : List Value) (i j : ℕ) (st : CapState)
      → j < i
      → has_index (fill_all limit rows i st).selected j ≡ has_index st.selected j
  unfolding fill_all
  fill_all-earlier [] i j st h = refl
  fill_all-earlier (row ∷ rows) i j st h =
      fill_all-earlier rows (suc i) j (fill limit row i st) (omega arith)
      ∙ fill-earlier row i j st h

  pub fill_all-counters :
      (c : Text) (rows : List Value) (i : ℕ) (st : CapState)
      → (fill_all limit rows i st).counters c
          + count (has_channel c) (keep_selected st.selected rows i)
        ≡ st.counters c
          + count (has_channel c) (keep_selected (fill_all limit rows i st).selected rows i)
  unfolding fill_all keep_selected
  fill_all-counters c [] i st = omega arith
  fill_all-counters c (row ∷ rows) i st =
      let next = fill limit row i st in
      ground (
        arith,
        fill-counters c row i st,
        fill-later row rows i st,
        fill_all-earlier rows (suc i) i next (omega arith),
        fill_all-counters c rows (suc i) next,
      )

  reserve-le_limit :
      (c : Text) (row : Value) (i : ℕ) (st : CapState)
      → st.counters c ≤ limit
      → (reserve limit row i st).counters c ≤ limit
  unfolding reserve
  reserve-le_limit c row i st h =
      ground (arith, ap-text_eq st.counters c (normalize_alert_channel row))

  fill-le_limit :
      (c : Text) (row : Value) (i : ℕ) (st : CapState)
      → st.counters c ≤ limit
      → (fill limit row i st).counters c ≤ limit
  unfolding fill
  fill-le_limit c row i st h =
      ground (arith, ap-text_eq st.counters c (normalize_alert_channel row))

  pub reserve_all-le_limit :
      (c : Text) (rows : List Value) (i : ℕ) (st : CapState)
      → st.counters c ≤ limit
      → (reserve_all limit rows i st).counters c ≤ limit
  unfolding reserve_all
  reserve_all-le_limit c [] i st h = h
  reserve_all-le_limit c (row ∷ rows) i st h =
      reserve_all-le_limit c rows (suc i) (reserve limit row i st) (reserve-le_limit c row i st h)

  pub fill_all-le_limit :
      (c : Text) (rows : List Value) (i : ℕ) (st : CapState)
      → st.counters c ≤ limit
      → (fill_all limit rows i st).counters c ≤ limit
  unfolding fill_all
  fill_all-le_limit c [] i st h = h
  fill_all-le_limit c (row ∷ rows) i st h =
      fill_all-le_limit c rows (suc i) (fill limit row i st) (fill-le_limit c row i st h)

  pub fill_all-grows :
      (c : Text) (rows : List Value) (i : ℕ) (st : CapState)
      → st.counters c ≤ (fill_all limit rows i st).counters c
  unfolding fill_all fill
  fill_all-grows c [] i st = omega arith
  fill_all-grows c (row ∷ rows) i st =
      ground (arith, fill_all-grows c rows (suc i) (fill limit row i st))

  fill-takes :
      (c : Text) (row : Value) (i : ℕ) (st : CapState)
      → member c alert_source_channels ≡ true
      → st.counters c < limit
      → has_channel c row ≡ true
      → has_index (fill limit row i st).selected i ≡ true
  unfolding fill
  fill-takes c row i st m h e = ground (
    arith,
    ap-text_eq st.counters (normalize_alert_channel row) c,
    ap-text_eq (λ t. member t alert_source_channels) (normalize_alert_channel row) c,
  )

  pub fill_all-full :
      (c : Text) (rows : List Value) (i : ℕ) (st : CapState)
      → member c alert_source_channels ≡ true
      → (fill_all limit rows i st).counters c < limit
      → count (has_channel c) (keep_selected (fill_all limit rows i st).selected rows i)
        ≡ count (has_channel c) rows
  unfolding fill_all keep_selected
  fill_all-full c [] i st m h = refl
  fill_all-full c (row ∷ rows) i st m h =
      let next = fill limit row i st in
      let room : st.counters c < limit = omega (arith, fill_all-grows c (row ∷ rows) i st) in
      ground (
        arith,
        fill-takes c row i st m room,
        fill_all-earlier rows (suc i) i next (omega arith),
        fill_all-full c rows (suc i) next m h,
      )
