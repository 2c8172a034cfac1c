-- ===== src/Alerts/Tests.antt =====
-- Runs of the alert stream, and concrete instances of its properties.
use kaims_latest.Prelude.{
  ℕ, ◌≡◌, ◌<◌, refl, true, false, [], ◌∷◌, Option, none, count, min, All, arith,
}
use kaims_latest.Js.Text.{
  Text, js, nonempty, trim, trim_start, trim_end, is_space, lower, lower_unit, member, text_eq,
  join, includes, starts_with,
}
use kaims_latest.Js.Value.{
  Value, str, arr, obj, field, end, items, lookup, ◌!◌, ◌or◌, ◌nullish◌, truthy, object_or_empty,
  array_or_empty, is_object, text_of,
}
use kaims_latest.Js.Order.{sort_desc, insert_desc}
use kaims_latest.Js.Regex.{test, split}
use kaims_latest.Alerts.Scope.{
  token_of, test_use_case_scope, is_generated_or_test_alert, filter_alerts_for_monitor,
  filter_rows_for_monitor, infer_monitor_scope, names_application, is_kaiops_core_selection,
  is_kaiops_core_alert, is_ephemeral_project_name, test_words, ephemeral_words,
  normalize_monitor_token,
}
use kaims_latest.Alerts.Channel.{normalize_alert_channel, alert_source_channels}
use kaims_latest.Alerts.Identity.{alert_time_ms, parse_utc_timestamp}
use kaims_latest.Alerts.Limits.{
  safe_max, has_channel, cap_latest_alerts_per_source, ensure_minimum_alerts_by_source,
  cap_identity, reserve, fill, reserve_all, fill_all, keep_selected, cap_state, required_of,
  stream_identity, min_visible_alerts_by_source, top_up, top_up_all,
}
use kaims_latest.Alerts.Limits.Quota.{cap_latest_alerts-quota}
use kaims_latest.Alerts.Limits.Minimum.{has_identity}
use kaims_latest.Alerts.Limits.Visible.{ensure_minimum_complete}

streams : Unit {0}
unfolding js trim trim_start trim_end is_space lower lower_unit member text_eq join includes
    starts_with lookup ◌!◌ ◌or◌ ◌nullish◌ truthy object_or_empty array_or_empty is_object text_of
    sort_desc insert_desc test split token_of is_generated_or_test_alert filter_alerts_for_monitor
    filter_rows_for_monitor infer_monitor_scope names_application is_kaiops_core_selection
    is_kaiops_core_alert is_ephemeral_project_name test_words ephemeral_words
    normalize_monitor_token normalize_alert_channel alert_time_ms parse_utc_timestamp
    cap_latest_alerts_per_source ensure_minimum_alerts_by_source cap_identity reserve fill
    reserve_all fill_all keep_selected cap_state stream_identity top_up top_up_all
streams = tt

-- A clock that reads no date.
abbrev no_date : Text → Option ℕ
no_date s = none

abbrev row : Text → Text → Text → Value
row id source name =
    obj (
      field (js "id") (str id)
        (field (js "source") (str source) (field (js "name") (str name) end)))

abbrev mail : Value
mail = row (js "1") (js "email") (js "Disk full")

abbrev second_mail : Value
second_mail = row (js "2") (js "email") (js "Disk slow")

abbrev ticket : Value
ticket = row (js "3") (js "ticket") (js "Login broken")

abbrev rows : Value
rows = arr (items (mail ∷ second_mail ∷ ticket ∷ []))

normalize_alert_channel_tests :
    (normalize_alert_channel mail ≡ js "email") × (normalize_alert_channel ticket ≡ js "ticket")
unfolding streams
normalize_alert_channel_tests = (refl, refl)

cap_latest_alerts_tests : cap_latest_alerts_per_source no_date rows 1 ≡ mail ∷ ticket ∷ []
unfolding streams
cap_latest_alerts_tests = refl

abbrev application : Value
application = str (js "Payments")

application_given : nonempty (token_of application) ≡ true
unfolding streams
application_given = refl

application_other : text_eq (token_of application) test_use_case_scope ≡ false
unfolding streams
application_other = refl

email_member : member (js "email") alert_source_channels ≡ true
unfolding streams
email_member = refl

cap_latest_alerts-quota_example :
    count (has_channel (js "email")) (cap_latest_alerts_per_source no_date rows 1)
    ≡ min (safe_max 1) (count (has_channel (js "email")) (array_or_empty rows))
cap_latest_alerts-quota_example = cap_latest_alerts-quota no_date rows 1 (js "email") email_member

abbrev visible : Value
visible = arr (items (mail ∷ []))

ensure_minimum_tests :
    ensure_minimum_alerts_by_source no_date visible rows min_visible_alerts_by_source
    ≡ mail ∷ second_mail ∷ ticket ∷ []
unfolding streams
ensure_minimum_tests = refl

ticket_short :
    count
      (has_channel (js "ticket"))
      (ensure_minimum_alerts_by_source no_date visible rows min_visible_alerts_by_source)
    < required_of min_visible_alerts_by_source (js "ticket")
unfolding streams
ticket_short = omega arith

ensure_minimum_complete_example :
    All
      (λ r.
        has_channel (js "ticket") r ≡ true
        → 0
          < count
              (has_identity (stream_identity r))
              (ensure_minimum_alerts_by_source no_date visible rows min_visible_alerts_by_source))
      (array_or_empty rows)
ensure_minimum_complete_example =
    ensure_minimum_complete no_date visible rows min_visible_alerts_by_source (js "ticket")
      ticket_short
