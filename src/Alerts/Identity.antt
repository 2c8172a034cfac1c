-- ===== src/Alerts/Identity.antt =====
-- appHelpers.jsx: an alert's time, identity keys and rank.
use kaims_latest.Prelude.{
  ℕ, ◌+◌, ◌/◌, Bool, true, false, not, ◌&&◌, ◌||◌, List, [], ◌∷◌, ◌++◌, map, filter, length, take,
  Option, none, some, ltb, leb, ◌==◌, if◌then◌else◌,
}
use kaims_latest.Js.Text.{
  Text, js, nonempty, trim, lower, member, text_eq, join, present, unique, is_space,
}
use kaims_latest.Js.Value.{Value, str, ◌!◌, ◌or◌, object_or_empty, text_of, truthy, decimal}
use kaims_latest.Js.Regex.{
  Re, bos, eos, boundary, one, some_of, any_of, seq, alt, times, is_digit, is_lower, is_hex, test,
  replace, matches, split,
}
use kaims_latest.Alerts.Scope.{token_of}
use kaims_latest.Status.{is_approval_resolved_status}

-- The parts of /Z$|[+-]\d\d:\d\d$/.
abbrev two_digits : Re
two_digits = times 2 (one is_digit)

unfoldable pub zone_suffix : Re
zone_suffix = alt (seq (one (λ c. c == b'Z')) eos) (
    seq (one (λ c. c == b'+' || c == b'-'))
      (seq two_digits (seq (one (λ c. c == b':')) (seq two_digits eos))))

abbrev hex_run : ℕ → Re
hex_run n = times n (one is_hex)

abbrev dash : Re
dash = one (λ c. c == b'-')

unfoldable pub alert_uuid_pattern : Re
alert_uuid_pattern = seq bos (
    seq (hex_run 8) (
      seq dash (
        seq (hex_run 4) (
          seq dash
            (seq (hex_run 4) (seq dash (seq (hex_run 4) (seq dash (seq (hex_run 12) eos)))))))))

-- The patterns of the cross-source signature, over lower-case text.
abbrev is_date_unit : ℕ → Bool
is_date_unit c = is_digit c || c == b':' || c == b'.' || c == b'+' || c == b'-' || c == b'z'

unfoldable pub signature_date : Re
signature_date = seq boundary (
    seq (times 4 (one is_digit)) (
      seq dash (
        seq two_digits (
          seq dash (
            seq two_digits
              (seq (one (λ c. c == b't' || is_space c)) (seq (some_of is_date_unit) boundary)))))))

unfoldable pub signature_uuid : Re
signature_uuid = seq boundary (
    seq (hex_run 8) (
      seq dash (
        seq (times 27 (one (λ c. is_hex c || c == b'-')))
          (seq (any_of (λ c. is_hex c || c == b'-')) boundary))))

unfoldable pub signature_hex : Re
signature_hex = seq boundary (seq (hex_run 16) (seq (any_of is_hex) boundary))

unfoldable pub signature_number : Re
signature_number = seq boundary (seq (some_of is_digit) boundary)

abbrev is_token_unit : ℕ → Bool
is_token_unit c = is_lower c || is_digit c || c == b'_' || c == b'.' || c == b'-'

unfoldable pub signature_token : Re
signature_token = seq (one is_lower) (seq (times 2 (one is_token_unit)) (any_of is_token_unit))

abbrev pub signature_ignored : List Text
signature_ignored =
    js "alert"
    ∷ js "warning"
    ∷ js "critical"
    ∷ js "high"
    ∷ js "error"
    ∷ js "failed"
    ∷ js "failure"
    ∷ js "email"
    ∷ js "ticket"
    ∷ js "jira"
    ∷ js "prometheus"
    ∷ js "opensearch"
    ∷ js "telemetry"
    ∷ js "from"
    ∷ js "with"
    ∷ js "this"
    ∷ js "that"
    ∷ js "into"
    ∷ js "prod"
    ∷ js "production"
    ∷ []

-- `<=` on strings, by code units.
unfoldable pub text_leb : Text → Text → Bool
text_leb [] t = true
text_leb (c ∷ s) [] = false
text_leb (c ∷ s) (d ∷ t) = ltb c d || c == d && text_leb s t

insert_text : Text → List Text → List Text
unfolding text_leb
insert_text t [] = t ∷ []
insert_text t (u ∷ us) =
    let rest = insert_text t us in if text_leb t u then t ∷ u ∷ us else u ∷ rest

-- `texts.sort()`
unfoldable pub sort_texts : List Text → List Text
unfolding insert_text
sort_texts [] = []
sort_texts (t ∷ ts) = insert_text t (sort_texts ts)

unfoldable pub stable_cross_source_alert_signature : Value → Text
stable_cross_source_alert_signature row =
    let labels = object_or_empty (row ! "labels") in
    let text = lower (
      text_of (
        labels ! "error_signature"
        or row ! "error_signature"
        or row ! "name"
        or row ! "alert_name"
        or row ! "description"
        or row ! "annotations" ! "summary")) in
    let cleaned = replace signature_number (js " ") (
      replace signature_hex (js " ")
        (replace signature_uuid (js " ") (replace signature_date (js " ") text))) in
    let tokens = unique (matches signature_token cleaned) in
    join (js "|")
      (take 14 (sort_texts (filter (λ token. not (member token signature_ignored)) tokens)))

-- `if (text) keys.push(prefix + text)`
abbrev key_if : Text → Text → List Text
key_if prefix text = if nonempty text then (prefix ++ text) ∷ [] else []

abbrev external_keys : List Value → List Text
external_keys [] = []
external_keys (v ∷ vs) = key_if (js "external:") (token_of v) ++ external_keys vs

-- `date s` is `new Date(s).getTime()`, `none` where that is NaN. Times before 1970 are not modelled.
module _ (date : Text → Option ℕ) where
  unfoldable pub parse_utc_timestamp : Value → Option ℕ
  parse_utc_timestamp value =
      let raw = trim (text_of value) in
      if not (nonempty raw)
      then none
      else date (if test zone_suffix raw then raw else raw ++ js "Z")

  -- `parseUtcTimestamp(...)?.getTime() || 0`
  unfoldable pub alert_time_ms : Value → ℕ
  alert_time_ms row =
      elim (parse_utc_timestamp (
        row ! "created_at"
        or row ! "received_at"
        or row ! "modified_at"
        or row ! "starts_at"
        or row ! "closed_at"
        or row ! "updated_at")) [ some time ↦ time | none ↦ 0 ]

  unfoldable pub alert_identity_keys : Value → List Text
  alert_identity_keys row =
      let labels = object_or_empty (row ! "labels") in
      let fingerprint = trim (
        text_of (
          row ! "fingerprint"
          or row ! "alert_fingerprint"
          or labels ! "alert_fingerprint"
          or labels ! "fingerprint")) in
      let incident_id = trim (text_of (row ! "incident_id")) in
      let correlation = trim (text_of (row ! "correlation_id" or row ! "trace_id")) in
      let name = token_of (row ! "name" or row ! "alert_name" or labels ! "alertname") in
      let service = token_of (row ! "service" or labels ! "service" or labels ! "job") in
      let severity = token_of (row ! "severity" or labels ! "severity") in
      let timestamp_ms = alert_time_ms row in
      let semantic_signature = stable_cross_source_alert_signature row in
      key_if (js "fingerprint:") (lower fingerprint)
      ++ key_if (js "incident:") (lower incident_id)
      ++ key_if (js "correlation:") (lower correlation)
      ++ external_keys (
          row ! "ticket_key"
          ∷ row ! "issue_key"
          ∷ row ! "jira_issue_key"
          ∷ labels ! "ticket_key"
          ∷ labels ! "issue_key"
          ∷ labels ! "jira_issue_key"
          ∷ labels ! "source_alert_id"
          ∷ [])
      ++ (if nonempty name && nonempty service
          then (js "composite:"
              ++ name
              ++ js "|"
              ++ service
              ++ js "|"
              ++ severity
              ++ js "|"
              ++ decimal (timestamp_ms / 300_000))
            ∷ []
          else [])
      ++ (if nonempty service && leb 2 (length (split (one (λ c. c == b'|')) semantic_signature))
          then (js "cross-source:"
              ++ service
              ++ js "|"
              ++ semantic_signature
              ++ js "|"
              ++ decimal (timestamp_ms / 600_000))
            ∷ []
          else [])

unfoldable pub alert_application_candidate : Value → Text
alert_application_candidate row =
    let application = trim (text_of (row ! "application")) in
    let service = trim (text_of (row ! "service")) in
    if nonempty application && not (text_eq (lower application) (lower service))
    then application
    else []

unfoldable pub alert_row_score : Value → ℕ
alert_row_score row =
    let status = token_of (row ! "status" or row ! "state") in
    let open_score : ℕ =
      if is_approval_resolved_status (str status) || truthy (row ! "_closed_incident")
      then 0
      else 10 in
    let data_score = length (
      present (
        map (λ item. trim (text_of item))
          (row ! "trace_id"
            ∷ row ! "correlation_id"
            ∷ row ! "description"
            ∷ row ! "annotations" ! "description"
            ∷ []))) in
    open_score + data_score
