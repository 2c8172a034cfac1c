-- ===== src/Alerts/Channel.antt =====
-- appHelpers.jsx: the source channel of an alert.
use kaims_latest.Prelude.{Bool, ◌||◌, List, [], ◌∷◌, map, any, if◌then◌else◌}
use kaims_latest.Js.Text.{Text, js, nonempty, trim, includes, text_eq, join, present}
use kaims_latest.Js.Value.{Value, ◌!◌, ◌or◌, object_or_empty, text_of}
use kaims_latest.Alerts.Scope.{token_of}

abbrev pub alert_source_channels : List Text
alert_source_channels = js "prometheus" ∷ js "telemetry" ∷ js "email" ∷ js "ticket" ∷ js "log" ∷ []

-- `s.includes(a) || s.includes(b) || ...`
abbrev includes_any : Text → List Text → Bool
includes_any s words = any (includes s) words

unfoldable pub normalize_alert_channel : Value → Text
normalize_alert_channel row =
    let labels = object_or_empty (row ! "labels") in
    let metadata = object_or_empty (row ! "metadata") in
    let project_name = token_of (
      row ! "project_name"
      or row ! "application"
      or labels ! "project_name"
      or labels ! "application") in
    let explicit_origin = token_of (
      labels ! "origin_system"
      or labels ! "source_system"
      or metadata ! "origin_system"
      or row ! "origin_system") in
    let explicit_channel = token_of (
      labels ! "ingestion_channel"
      or labels ! "source_channel"
      or metadata ! "ingestion_channel"
      or row ! "ingestion_channel") in
    let source = join (js " ") (
      present (
        map token_of (
          row ! "source"
          ∷ row ! "provider"
          ∷ row ! "provider_name"
          ∷ row ! "source_type"
          ∷ row ! "origin"
          ∷ row ! "channel_type"
          ∷ row ! "channel"
          ∷ row ! "ticket_provider"
          ∷ row ! "notification_channel"
          ∷ row ! "integration"
          ∷ metadata ! "source"
          ∷ metadata ! "channel"
          ∷ labels ! "source"
          ∷ labels ! "channel"
          ∷ labels ! "job"
          ∷ labels ! "alertname"
          ∷ []))) in
    if text_eq project_name (js "telemetry") || text_eq project_name (js "astronomy-shop")
    then js "telemetry"
    else if includes explicit_origin (js "telemetry")
        || includes explicit_origin (js "opentelemetry")
    then js "telemetry"
    else if includes explicit_origin (js "email") || includes explicit_channel (js "email")
    then js "email"
    else if includes explicit_origin (js "jira")
        || includes explicit_origin (js "ticket")
        || includes explicit_channel (js "ticket")
    then js "ticket"
    else if includes explicit_origin (js "log")
        || includes explicit_origin (js "opensearch")
        || includes explicit_channel (js "log")
    then js "log"
    else if includes_any source (js "telemetry" ∷ js "opentelemetry" ∷ js "astronomy" ∷ [])
    then js "telemetry"
    else if includes_any source (js "prometheus" ∷ js "alertmanager" ∷ js "monitoring-adapter" ∷ [])
    then js "prometheus"
    else if includes_any source (js "email" ∷ js "smtp" ∷ js "mail" ∷ js "outlook" ∷ [])
    then js "email"
    else if includes_any source (js "opensearch" ∷ js "log-alert" ∷ js "log monitoring" ∷ [])
    then js "log"
    else if includes_any source (
        js "jira"
        ∷ js "ticket"
        ∷ js "itsm"
        ∷ js "servicenow"
        ∷ js "snow"
        ∷ js "incident"
        ∷ js "closed-incidents"
        ∷ [])
    then js "ticket"
    else if nonempty (trim (text_of (labels ! "alertname")))
        || nonempty (trim (text_of (row ! "expr" or row ! "expression" or row ! "query")))
    then js "prometheus"
    else js "prometheus"

unfoldable pub source_channel_label : Value → Text
source_channel_label value =
    let key = token_of value in
    if text_eq key (js "prometheus")
    then js "Prometheus"
    else if text_eq key (js "email")
    then js "Email"
    else if text_eq key (js "ticket")
    then js "Ticket"
    else if text_eq key (js "telemetry")
    then js "Telemetry / Prometheus"
    else if text_eq key (js "log")
    then js "Logs / OpenSearch"
    else if text_eq key (js "other")
    then js "Other"
    else if nonempty key
    then key
    else js "Unknown"
