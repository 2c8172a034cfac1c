-- ===== src/Alerts/Mapping.antt =====
-- appHelpers.jsx: rows of closed incidents and of the landing pad as rows of the alert stream.
use kaims_latest.Prelude.{ℕ, ◌+◌, true, not, ◌&&◌, List, [], ◌∷◌, ◌++◌, map, if◌then◌else◌}
use kaims_latest.Js.Text.{Text, js, nonempty, trim, text_eq, member, present}
use kaims_latest.Js.Value.{
  Value, Fields, bool, str, obj, ◌!◌, ◌or◌, text_of, object_or_empty, spread, put, decimal,
}
use kaims_latest.Status.{or_text}
use kaims_latest.Alerts.Scope.{token_of, real_use_case_scope, test_use_case_scope}
use kaims_latest.Alerts.Channel.{normalize_alert_channel}

-- The entries of an object literal that starts with a spread: later ones overwrite earlier ones.
abbrev pub with_fields : List (Text × Value) → Fields → Fields
with_fields [] fs = fs
with_fields ((k, v) ∷ entries) fs = with_fields entries (put k v fs)

unfoldable pub map_closed_incident_to_alert_stream_row : Value → Value
map_closed_incident_to_alert_stream_row row =
    let payload = object_or_empty (row ! "projection_payload") in
    let event_payload = object_or_empty (payload ! "event_payload") in
    let service = trim (text_of (row ! "service" or event_payload ! "service" or str (js "-"))) in
    let incident_id = trim (text_of (row ! "incident_id" or row ! "flow_id")) in
    let alert_id = trim (text_of (row ! "alert_id" or str incident_id)) in
    let status = trim (text_of (row ! "status" or str (js "closed"))) in
    let closed_at = trim (text_of (row ! "closed_at" or row ! "updated_at")) in
    let alert_name = trim (
      text_of (
        row ! "alert_name"
        or row ! "name"
        or event_payload ! "alert_name"
        or event_payload ! "alert_type"
        or str (
            if nonempty service && not (text_eq service (js "-"))
            then service ++ js " closed incident"
            else js "Closed incident"))) in
    obj (
      with_fields
        ((js "alert_id", str alert_id)
          ∷ (js "id", str (or_text alert_id incident_id))
          ∷ (js "incident_id", str incident_id)
          ∷ (js "name", str alert_name)
          ∷ (js "alert_name", str alert_name)
          ∷ (
            js "rule_name",
            row ! "rule_name"
                or row ! "alert_type"
                or event_payload ! "alert_type"
                or str alert_name,
          )
          ∷ (
            js "application",
            row ! "application" or row ! "project_name" or row ! "project" or str service,
          )
          ∷ (js "service", str service)
          ∷ (js "severity", row ! "severity" or str (js "info"))
          ∷ (js "status", str status)
          ∷ (js "state", str status)
          ∷ (js "created_at", str closed_at or row ! "created_at" or row ! "updated_at")
          ∷ (js "starts_at", row ! "starts_at" or str closed_at)
          ∷ (js "closed_at", str closed_at)
          ∷ (js "source", row ! "source" or str (js "closed-incidents"))
          ∷ (js "_stream_kind", str (js "recent_closed"))
          ∷ (js "_closed_incident", bool true)
          ∷ (
            js "annotations",
            obj (
                put (js "description")
                  (event_payload ! "action_taken"
                    or row ! "summary"
                    or str (js "Recently closed incident."))
                  (spread (row ! "annotations"))),
          )
          ∷ [])
        (spread row))

unfoldable pub map_landing_pad_row_to_alert_stream_row : Value → ℕ → Value
map_landing_pad_row_to_alert_stream_row row index =
    let payload = object_or_empty row in
    let labels = object_or_empty (payload ! "labels") in
    let incident_id = trim (
      text_of (
        payload ! "incident_id"
        or payload ! "id"
        or payload ! "alert_id"
        or payload ! "file"
        or str (js "landing-" ++ decimal (index + 1)))) in
    let alert_name = trim (
      text_of (
        payload ! "name"
        or payload ! "alert_name"
        or payload ! "alertname"
        or labels ! "alertname"
        or str (js "Landing Pad Alert"))) in
    obj (
      with_fields
        ((js "id", str incident_id)
          ∷ (js "alert_id", str (trim (text_of (payload ! "alert_id" or str incident_id))))
          ∷ (js "incident_id", str (trim (text_of (payload ! "incident_id" or str incident_id))))
          ∷ (js "name", str alert_name)
          ∷ (js "alert_name", str alert_name)
          ∷ (
            js "application",
            str (
                trim (
                  text_of (
                    payload ! "application"
                    or payload ! "project_name"
                    or payload ! "project"
                    or labels ! "application"
                    or labels ! "project"
                    or labels ! "project_name"))),
          )
          ∷ (
            js "service",
            str (
                trim (
                  text_of
                    (payload ! "service" or labels ! "service" or labels ! "job" or str (js "-")))),
          )
          ∷ (
            js "severity",
            str (token_of (payload ! "severity" or labels ! "severity" or str (js "warning"))),
          )
          ∷ (
            js "status",
            str (token_of (payload ! "alert_status" or payload ! "status" or str (js "open"))),
          )
          ∷ (
            js "state",
            str (
                token_of (
                  payload ! "state"
                  or payload ! "alert_status"
                  or payload ! "status"
                  or str (js "open"))),
          )
          ∷ (
            js "created_at",
            payload ! "received_at"
                or payload ! "created_at"
                or payload ! "starts_at"
                or payload ! "modified_at"
                or payload ! "updated_at"
                or str [],
          )
          ∷ (
            js "starts_at",
            payload ! "starts_at" or payload ! "received_at" or payload ! "created_at" or str [],
          )
          ∷ (
            js "source",
            str (
                trim (
                  text_of (
                    payload ! "source"
                    or payload ! "provider"
                    or payload ! "channel"
                    or str (js "landing-pad")))),
          )
          ∷ (js "source_channel", str (normalize_alert_channel payload))
          ∷ (js "_stream_kind", str (js "landing_pad"))
          ∷ [])
        (spread payload))

-- `candidates[0] || ""`
abbrev first_text : List Text → Text
first_text [] = []
first_text (t ∷ ts) = t

unfoldable pub project_hint_from_alert_row : Value → Text
project_hint_from_alert_row row =
    let labels = object_or_empty (row ! "labels") in
    first_text (
      present (
        map (λ value. trim (text_of value))
          (row ! "application"
            ∷ row ! "project_name"
            ∷ row ! "project"
            ∷ labels ! "application"
            ∷ labels ! "project_name"
            ∷ labels ! "project"
            ∷ [])))

unfoldable pub monitor_scope_label : Value → Value
monitor_scope_label scope =
    let key = token_of scope in
    if member key (js "kaiops" ∷ js "kaims" ∷ js "kaiops-core" ∷ js "kaims-core" ∷ [])
    then str (js "KaiMS")
    else if text_eq key real_use_case_scope
    then str (js "Real Use Cases")
    else if text_eq key test_use_case_scope
    then str (js "Test Use Cases")
    else scope or str (js "Real Use Cases")
