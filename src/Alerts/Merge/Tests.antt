-- ===== src/Alerts/Merge/Tests.antt =====
-- Runs of the merged stream, and concrete instances of its properties.
use kaims_latest.Prelude.{ℕ, ◌≡◌, ◌≤◌, refl, false, [], ◌∷◌, Option, none, length, count, min}
use kaims_latest.Js.Text.{
  Text, js, trim, trim_start, trim_end, is_space, lower, lower_unit, member, text_eq, join,
  includes, starts_with, unique,
}
use kaims_latest.Js.Value.{
  Value, str, null, arr, obj, field, end, items, lookup, ◌!◌, ◌or◌, ◌nullish◌, truthy,
  object_or_empty, array_or_empty, is_object, text_of, to_text, put, spread, decimal,
}
use kaims_latest.Js.Order.{sort_desc, insert_desc, IsDescending}
use kaims_latest.Js.Regex.{test, split, replace, matches}
use kaims_latest.Alerts.Scope.{token_of}
use kaims_latest.Alerts.Channel.{normalize_alert_channel, alert_source_channels}
use kaims_latest.Alerts.Identity.{
  alert_time_ms, parse_utc_timestamp, alert_identity_keys, alert_uuid_pattern, alert_row_score,
  alert_application_candidate, stable_cross_source_alert_signature, sort_texts, signature_date,
  signature_uuid, signature_hex, signature_number, signature_token,
}
use kaims_latest.Alerts.Canonical.{
  resolve_canonical_alert_for_row, canonical_match, resolve_match, supplied_alert_id, best_of,
  outranks, has_canonical_id, IsJustified, resolve_canonical_alert_for_row-IsJustified, unresolved,
  resolved,
}
use kaims_latest.Alerts.Merge.{
  first_group, register, open_group, join_group, should_replace, place_row, consolidate,
  consolidate_all, is_accepted, group_row, dedupe_and_consolidate_alert_rows,
}
use kaims_latest.Alerts.Merge.Size.{dedupe_and_consolidate_alert_rows-length}

merges : Unit {0}
unfolding token_of unique signature_date signature_uuid signature_hex signature_number
    signature_token outranks has_canonical_id js trim trim_start trim_end is_space lower lower_unit
    member text_eq join includes starts_with lookup ◌!◌ ◌or◌ ◌nullish◌ truthy object_or_empty
    array_or_empty is_object text_of to_text put spread decimal sort_desc insert_desc test split
    replace matches normalize_alert_channel alert_time_ms parse_utc_timestamp alert_identity_keys
    alert_uuid_pattern alert_row_score alert_application_candidate
    stable_cross_source_alert_signature sort_texts resolve_canonical_alert_for_row canonical_match
    resolve_match supplied_alert_id best_of first_group register open_group join_group
    should_replace place_row consolidate consolidate_all group_row dedupe_and_consolidate_alert_rows
merges = tt

-- A clock that reads no date, and a source of chance that says the round.
abbrev no_date : Text → Option ℕ
no_date s = none

abbrev rounds : ℕ → Text
rounds n = decimal n

abbrev row : Text → Text → Text → Value
row id source name = obj (
    field (js "alert_id") (str id) (
      field (js "source") (str source)
        (field (js "name") (str name) (field (js "service") (str (js "disk")) end))))

abbrev mail : Value
mail = row (js "0f0f0f0f-0000-4000-8000-000000000001") (js "email") (js "Disk full")

abbrev ticket : Value
ticket = row (js "landing.json") (js "ticket") (js "Disk full")

abbrev rows : Value
rows = arr (items (mail ∷ null ∷ ticket ∷ []))

dedupe_tests :
    length (dedupe_and_consolidate_alert_rows no_date rounds false alert_source_channels rows) ≡ 1
unfolding merges
dedupe_tests = refl

resolve_tests :
    (resolve_canonical_alert_for_row no_date (λ a b. false) mail null ≡ resolved mail)
    × (resolve_canonical_alert_for_row no_date (λ a b. false) ticket rows ≡ resolved mail)
    × (resolve_canonical_alert_for_row no_date (λ a b. false) null rows ≡ unresolved)
unfolding merges
resolve_tests = (refl, refl, refl)

dedupe_and_consolidate_alert_rows-length_example :
    IsDescending
      (alert_time_ms no_date)
      (dedupe_and_consolidate_alert_rows no_date rounds false alert_source_channels rows)
    × (length (dedupe_and_consolidate_alert_rows no_date rounds false alert_source_channels rows)
        ≤ count (is_accepted alert_source_channels) (array_or_empty rows))
    × (min 1 (count (is_accepted alert_source_channels) (array_or_empty rows))
        ≤ length
            (dedupe_and_consolidate_alert_rows no_date rounds false alert_source_channels rows))
dedupe_and_consolidate_alert_rows-length_example =
    dedupe_and_consolidate_alert_rows-length no_date rounds false alert_source_channels rows

resolve_canonical_alert_for_row-IsJustified_example :
    IsJustified no_date
      (λ a b. false)
      ticket
      rows
      (resolve_canonical_alert_for_row no_date (λ a b. false) ticket rows)
resolve_canonical_alert_for_row-IsJustified_example =
    resolve_canonical_alert_for_row-IsJustified no_date (λ a b. false) ticket rows
