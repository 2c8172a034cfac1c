-- ===== src/Alerts/Limits/Quota.antt =====
-- appHelpers.jsx: how many rows `capLatestAlertsPerSource` keeps of each channel.
use kaims_latest.Prelude.{ℕ, ◌≤◌, ◌<◌, min, ◌≡◌, refl, ap, ◌∙◌, true, List, count, arith, Option}
use kaims_latest.Js.Text.{Text, member}
use kaims_latest.Js.Value.{Value, array_or_empty}
use kaims_latest.Js.Order.{sort_desc, count-sort_desc}
use kaims_latest.Alerts.Channel.{alert_source_channels}
use kaims_latest.Alerts.Identity.{alert_time_ms}
use kaims_latest.Alerts.Limits.{
  safe_max, reserve_all, keep_selected, cap_state, no_slots, has_channel,
  cap_latest_alerts_per_source,
}
use kaims_latest.Alerts.Limits.Rounds.{
  count-keep_selected-le, reserve_all-counters, fill_all-counters, reserve_all-le_limit,
  fill_all-le_limit, fill_all-full,
}

module _ (limit : ℕ) where
  cap_state-counters :
      (c : Text) (rows : List Value)
      → (cap_state limit rows).counters c
        ≡ count (has_channel c) (keep_selected (cap_state limit rows).selected rows 0)
  unfolding cap_state
  cap_state-counters c rows =
      let reserved = reserve_all limit rows 0 no_slots in
      omega (
        arith,
        reserve_all-counters limit c rows 0 no_slots (λ j le. refl),
        fill_all-counters limit c rows 0 reserved,
      )

  cap_state-le_limit : (c : Text) (rows : List Value) → (cap_state limit rows).counters c ≤ limit
  unfolding cap_state
  cap_state-le_limit c rows =
      fill_all-le_limit limit c rows 0 (reserve_all limit rows 0 no_slots)
        (reserve_all-le_limit limit c rows 0 no_slots (omega arith))

  cap_state-full :
      (c : Text) (rows : List Value)
      → member c alert_source_channels ≡ true
      → (cap_state limit rows).counters c < limit
      → count (has_channel c) (keep_selected (cap_state limit rows).selected rows 0)
        ≡ count (has_channel c) rows
  unfolding cap_state
  cap_state-full c rows = fill_all-full limit c rows 0 (reserve_all limit rows 0 no_slots)

  -- What is kept of a channel: all its rows, or as many as the limit.
  cap_state-quota :
      (c : Text) (rows : List Value)
      → member c alert_source_channels ≡ true
      → count (has_channel c) (keep_selected (cap_state limit rows).selected rows 0)
        ≡ min limit (count (has_channel c) rows)
  cap_state-quota c rows m = ground (
    arith,
    cap_state-counters c rows,
    cap_state-le_limit c rows,
    cap_state-full c rows m,
    count-keep_selected-le (has_channel c) (cap_state limit rows).selected rows 0,
  )

-- Of each source channel the capped stream holds as many rows as there are, up to the limit, and
-- never more: a noisy channel takes no room from another.
pub cap_latest_alerts-quota :
    (date : Text → Option ℕ) (rows : Value) (max_per_source : ℕ) (c : Text)
    → member c alert_source_channels ≡ true
    → count (has_channel c) (cap_latest_alerts_per_source date rows max_per_source)
      ≡ min (safe_max max_per_source) (count (has_channel c) (array_or_empty rows))
unfolding cap_latest_alerts_per_source
cap_latest_alerts-quota date rows max_per_source c m =
    let sorted_rows = sort_desc (alert_time_ms date) (array_or_empty rows) in
    cap_state-quota (safe_max max_per_source) c sorted_rows m
    ∙ ap (min (safe_max max_per_source))
        (count-sort_desc (alert_time_ms date) (has_channel c) (array_or_empty rows))
