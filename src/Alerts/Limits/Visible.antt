-- ===== src/Alerts/Limits/Visible.antt =====
-- appHelpers.jsx: the rows that `ensureMinimumAlertsBySource` returns.
use kaims_latest.Prelude.{ℕ, ◌≤◌, ◌<◌, max, ◌≡◌, Bool, true, count, arith, Option, All, All-mono}
use kaims_latest.Js.Text.{Text}
use kaims_latest.Js.Value.{Value, array_or_empty}
use kaims_latest.Js.Order.{sort_desc, count-sort_desc, All-of_sort_desc}
use kaims_latest.Alerts.Identity.{alert_time_ms}
use kaims_latest.Alerts.Limits.{
  Minimums, required_of, top_up_all, shown, has_channel, stream_identity,
  ensure_minimum_alerts_by_source,
}
use kaims_latest.Alerts.Limits.Minimum.{
  has_identity, Sees, shown-IsTracked, top_up_all-IsTracked, top_up_all-keeps, top_up_all-bound,
  top_up_all_complete,
}

module _ (date : Text → Option ℕ) (rows source_rows : Value) (minimums : Minimums) where
  -- No visible row is lost: of the rows that pass a test, there are at least as many afterwards.
  pub ensure_minimum-keeps :
      (p : Value → Bool)
      → count p (array_or_empty rows)
        ≤ count p (ensure_minimum_alerts_by_source date rows source_rows minimums)
  unfolding ensure_minimum_alerts_by_source
  ensure_minimum-keeps p =
      let candidates = sort_desc (alert_time_ms date) (array_or_empty source_rows) in
      let final = top_up_all minimums candidates (shown (array_or_empty rows)) in
      rw (count-sort_desc (alert_time_ms date) p final.selected)
        (top_up_all-keeps minimums p candidates (shown (array_or_empty rows)))

  -- A channel is filled up to its minimum and not beyond.
  pub ensure_minimum-bound :
      (c : Text)
      → count (has_channel c) (ensure_minimum_alerts_by_source date rows source_rows minimums)
        ≤ max (count (has_channel c) (array_or_empty rows)) (required_of minimums c)
  unfolding ensure_minimum_alerts_by_source
  ensure_minimum-bound c =
      let start = shown (array_or_empty rows) in
      let candidates = sort_desc (alert_time_ms date) (array_or_empty source_rows) in
      let final = top_up_all minimums candidates start in
      let tracked =
        top_up_all-IsTracked minimums candidates start (shown-IsTracked (array_or_empty rows)) in
      rw (count-sort_desc (alert_time_ms date) (has_channel c) final.selected, ← tracked.counted c)
        (top_up_all-bound minimums c candidates start)

  -- A channel that stays below its minimum has used up its source rows: each of them is shown, or
  -- another row with its identity is.
  pub ensure_minimum_complete :
      (c : Text)
      → count (has_channel c) (ensure_minimum_alerts_by_source date rows source_rows minimums)
        < required_of minimums c
      → All
          (λ row.
            has_channel c row ≡ true
            → 0
              < count
                  (has_identity (stream_identity row))
                  (ensure_minimum_alerts_by_source date rows source_rows minimums))
          (array_or_empty source_rows)
  unfolding ensure_minimum_alerts_by_source
  ensure_minimum_complete c h =
      let start = shown (array_or_empty rows) in
      let candidates = sort_desc (alert_time_ms date) (array_or_empty source_rows) in
      let final = top_up_all minimums candidates start in
      let tracked =
        top_up_all-IsTracked minimums candidates start (shown-IsTracked (array_or_empty rows)) in
      let short : final.counts c < required_of minimums c = omega (
        arith,
        tracked.counted c,
        count-sort_desc (alert_time_ms date) (has_channel c) final.selected,
      ) in
      All-of_sort_desc (alert_time_ms date) _ (array_or_empty source_rows) (
        All-mono (Sees minimums c final.seen) _ candidates
          (λ row sees e.
            rw
              (count-sort_desc (alert_time_ms date) (has_identity (stream_identity row))
                final.selected)
              (tracked.known (stream_identity row) (sees e)))
          (top_up_all_complete minimums c candidates start short))
