-- ===== src/Alerts/Limits/Minimum.antt =====
-- appHelpers.jsx: what `ensureMinimumAlertsBySource` adds to the visible rows.
use kaims_latest.Prelude.{
  ◌+◌, ◌≤◌, ◌<◌, max, ◌≡◌, refl, Bool, true, List, [], ◌∷◌, ◌++◌, map, count, if◌then◌else◌, arith,
  All, count-append,
}
use kaims_latest.Js.Text.{Text, text_eq, member}
use kaims_latest.Js.Text.Equality.{text_eq_comm, text_eq_refl}
use kaims_latest.Js.Value.{Value}
use kaims_latest.Alerts.Channel.{normalize_alert_channel}
use kaims_latest.Alerts.Limits.{
  TopUp, Minimums, required_of, top_up, top_up_all, shown, has_channel, stream_identity,
}
use kaims_latest.Alerts.Limits.Rounds.{ap-text_eq}

-- The rows with the identity of `t`.
abbrev pub has_identity : Text → Value → Bool
has_identity t row = text_eq (stream_identity row) t

-- The loop's counts are those of its rows, and a seen identity is that of one of them.
pub record IsTracked (st : TopUp) : Type 0 where
  pub counted : (c : Text) → st.counts c ≡ count (has_channel c) st.selected
  pub known : (t : Text) → member t st.seen ≡ true → 0 < count (has_identity t) st.selected

count-push :
    (p : Value → Bool) (rows : List Value) (row : Value)
    → count p (rows ++ row ∷ []) ≡ count p rows + (if p row then 1 else 0)
count-push p rows row = omega (arith, count-append p rows (row ∷ []))

known-map :
    (rows : List Value) (t : Text)
    → member t (map stream_identity rows) ≡ true
    → 0 < count (has_identity t) rows
unfolding member
known-map [] t h = cc
known-map (row ∷ rows) t h = ground (arith, known-map rows t)

pub shown-IsTracked : (rows : List Value) → IsTracked (shown rows)
shown-IsTracked rows = record { counted = λ c. refl; known = known-map rows }

module _ (minimums : Minimums) where
  top_up-counted :
      (row : Value) (st : TopUp) (c : Text)
      → st.counts c ≡ count (has_channel c) st.selected
      → (top_up minimums row st).counts c ≡ count (has_channel c) (top_up minimums row st).selected
  unfolding top_up
  top_up-counted row st c h = ground (
    arith,
    count-push (has_channel c) st.selected row,
    text_eq_comm c (normalize_alert_channel row),
  )

  top_up-known :
      (row : Value) (st : TopUp) (t : Text)
      → (member t st.seen ≡ true → 0 < count (has_identity t) st.selected)
      → member t (top_up minimums row st).seen ≡ true
      → 0 < count (has_identity t) (top_up minimums row st).selected
  unfolding top_up member
  top_up-known row st t h m = ground (arith, count-push (has_identity t) st.selected row)

  top_up-IsTracked : (row : Value) {st : TopUp} → IsTracked st → IsTracked (top_up minimums row st)
  top_up-IsTracked row {st} k = record {
    counted = λ c. top_up-counted row st c (k.counted c);
    known = λ t. top_up-known row st t (k.known t);
  }

  pub top_up_all-IsTracked :
      (rows : List Value) (st : TopUp) → IsTracked st → IsTracked (top_up_all minimums rows st)
  unfolding top_up_all
  top_up_all-IsTracked [] st k = k
  top_up_all-IsTracked (row ∷ rows) st k =
      top_up_all-IsTracked rows (top_up minimums row st) (top_up-IsTracked row k)

  -- No visible row is lost, whatever the rows are counted by.
  pub top_up_all-keeps :
      (p : Value → Bool) (rows : List Value) (st : TopUp)
      → count p st.selected ≤ count p (top_up_all minimums rows st).selected
  unfolding top_up_all top_up
  top_up_all-keeps p [] st = omega arith
  top_up_all-keeps p (row ∷ rows) st =
      ground (arith, top_up_all-keeps p rows (top_up minimums row st), count-push p st.selected row)

  top_up-bound :
      (c : Text) (row : Value) (st : TopUp)
      → (top_up minimums row st).counts c ≤ max (st.counts c) (required_of minimums c)
  unfolding top_up
  top_up-bound c row st = ground (
    arith,
    ap-text_eq st.counts c (normalize_alert_channel row),
    ap-text_eq (required_of minimums) c (normalize_alert_channel row),
  )

  pub top_up_all-bound :
      (c : Text) (rows : List Value) (st : TopUp)
      → (top_up_all minimums rows st).counts c ≤ max (st.counts c) (required_of minimums c)
  unfolding top_up_all
  top_up_all-bound c [] st = omega arith
  top_up_all-bound c (row ∷ rows) st =
      omega (arith, top_up_all-bound c rows (top_up minimums row st), top_up-bound c row st)

  top_up_all-seen :
      (t : Text) (rows : List Value) (st : TopUp)
      → member t st.seen ≡ true
      → member t (top_up_all minimums rows st).seen ≡ true
  unfolding top_up_all top_up member
  top_up_all-seen t [] st h = h
  top_up_all-seen t (row ∷ rows) st h =
      ground (arith, top_up_all-seen t rows (top_up minimums row st))

  top_up_all-grows :
      (c : Text) (rows : List Value) (st : TopUp)
      → st.counts c ≤ (top_up_all minimums rows st).counts c
  unfolding top_up_all top_up
  top_up_all-grows c [] st = omega arith
  top_up_all-grows c (row ∷ rows) st =
      ground (arith, top_up_all-grows c rows (top_up minimums row st))

  -- With room left for the channel, the row is seen after its round.
  top_up-sees :
      (c : Text) (row : Value) (st : TopUp)
      → st.counts c < required_of minimums c
      → has_channel c row ≡ true
      → member (stream_identity row) (top_up minimums row st).seen ≡ true
  unfolding top_up member
  top_up-sees c row st h e = ground (
    arith,
    text_eq_refl (stream_identity row),
    ap-text_eq st.counts (normalize_alert_channel row) c,
    ap-text_eq (required_of minimums) (normalize_alert_channel row) c,
  )

  abbrev pub Sees : Text → List Text → Value → Type 0
  Sees c seen row = has_channel c row ≡ true → member (stream_identity row) seen ≡ true

  pub top_up_all_complete :
      (c : Text) (rows : List Value) (st : TopUp)
      → (top_up_all minimums rows st).counts c < required_of minimums c
      → All (Sees c (top_up_all minimums rows st).seen) rows
  unfolding top_up_all
  top_up_all_complete c [] st h = tt
  top_up_all_complete c (row ∷ rows) st h =
      let next = top_up minimums row st in
      let room : st.counts c < required_of minimums c =
        omega (arith, top_up_all-grows c (row ∷ rows) st) in
      (
        λ e. top_up_all-seen (stream_identity row) rows next (top_up-sees c row st room e),
        top_up_all_complete c rows next h,
      )
