-- ===== src/Alerts/Scope.antt =====
-- appHelpers.jsx: which monitor scope an alert belongs to, and the filters of the scope selector.
pub mod Filters
use kaims_latest.Prelude.{
  Bool, true, false, not, ◌||◌, List, [], ◌∷◌, ◌++◌, map, any, filter, ◌==◌, if◌then◌else◌, Option,
  none, some, find,
}
use kaims_latest.Js.Text.{
  Text, js, nonempty, trim, lower, includes, starts_with, member, is_space, text_eq, join, present,
}
use kaims_latest.Js.Value.{
  Value, str, obj, end, ◌!◌, ◌or◌, object_or_empty, is_object, text_of, array_or_empty,
}
use kaims_latest.Js.Regex.{
  Re, bos, eos, one, some_of, any_of, seq, alt, alts, literal, is_digit, is_separator, test,
  replace,
}

abbrev pub real_use_case_scope : Text
real_use_case_scope = js "real-usecases"

abbrev pub test_use_case_scope : Text
test_use_case_scope = js "test-usecases"

abbrev pub kaiops_core_service_set : List Text
kaiops_core_service_set =
    js "api-gateway"
    ∷ js "monitoring-adapter"
    ∷ js "alert-intelligence"
    ∷ js "orchestrator"
    ∷ js "context-agent"
    ∷ js "resolution-agent"
    ∷ js "approval-service"
    ∷ js "remediation-engine"
    ∷ js "closure-service"
    ∷ js "model-router"
    ∷ []

-- `String(v || "").trim().toLowerCase()`
unfoldable pub token_of : Value → Text
token_of v = lower (trim (text_of v))

-- The argument is a text here: every caller in the source passes a string or a field.
unfoldable pub normalize_monitor_token : Value → Text
unfolding token_of
normalize_monitor_token value =
    replace (some_of (λ c. c == b'-')) (js "-")
      (replace (some_of (λ c. c == b'_' || is_space c)) (js "-") (token_of value))

unfoldable pub is_kaiops_core_selection : Text → Bool
is_kaiops_core_selection target = member (normalize_monitor_token (str target)) (
    js "kaims"
    ∷ js "kaims-core"
    ∷ js "kaiops-core"
    ∷ js "kaiops-core1"
    ∷ js "kaiops"
    ∷ js "core"
    ∷ [])

unfoldable pub is_kaiops_core_alert : Value → Bool
is_kaiops_core_alert row =
    let labels = object_or_empty (row ! "labels") in
    let metadata = object_or_empty (row ! "metadata") in
    let service = token_of (row ! "service" or labels ! "service") in
    let alert_name = token_of (row ! "name" or labels ! "alertname") in
    let owner_team = token_of (metadata ! "owner_team" or labels ! "team") in
    let project = token_of (
      row ! "project"
      or row ! "project_name"
      or row ! "application"
      or labels ! "project"
      or labels ! "project_name") in
    if includes project (js "telemetry") || includes project (js "astronomy")
    then false
    else if member service kaiops_core_service_set
    then true
    else if includes alert_name (js "kaiops")
    then true
    else if text_eq owner_team (js "platform-ops") || text_eq owner_team (js "kaiops")
    then true
    else includes project (js "kaiops")

-- `candidates.find((c) => c && typeof c === "object") || {}`
abbrev first_object : List Value → Value
first_object [] = obj end
first_object (v ∷ vs) = if is_object v then v else first_object vs

unfoldable pub infer_monitor_scope : Value → Text
infer_monitor_scope row =
    let projection = object_or_empty (row ! "projection_payload") in
    let event = object_or_empty (projection ! "event_payload") in
    let labels = first_object (
      row ! "labels"
      ∷ projection ! "labels"
      ∷ event ! "labels"
      ∷ projection ! "alert_labels"
      ∷ event ! "alert_labels"
      ∷ []) in
    let metadata = object_or_empty (row ! "metadata") in
    let explicit_project = token_of (
      row ! "project_name"
      or labels ! "project_name"
      or row ! "project"
      or labels ! "project"
      or row ! "application"
      or labels ! "application"
      or metadata ! "project_name"
      or metadata ! "project"
      or metadata ! "application") in
    let source_path = token_of (row ! "path" or row ! "file" or row ! "source_path") in
    let namespace = token_of (labels ! "namespace" or metadata ! "namespace") in
    let service = token_of (row ! "service" or labels ! "service" or labels ! "job") in
    if includes explicit_project (js "telemetry") || includes explicit_project (js "astronomy")
    then js "telemetry"
    else if includes explicit_project (js "kaiops") || includes explicit_project (js "kai-ops")
    then js "kaiops"
    else if includes source_path (js "opensearch://otel-")
        || includes source_path (js "astronomy")
        || includes source_path (js "telemetry")
    then js "telemetry"
    else if includes namespace (js "otel") || includes namespace (js "astronomy")
    then js "telemetry"
    else if member service kaiops_core_service_set
        || starts_with service (js "kaiops-")
        || starts_with service (js "kaiops_")
    then js "kaiops"
    else if is_kaiops_core_alert row
    then js "kaiops"
    else []

-- The words of the two patterns; `test\d*` is the last of the longer list.
abbrev setup_words : List Re
setup_words =
    literal (js "ui-e2e")
    ∷ literal (js "admin-e2e")
    ∷ literal (js "setup-doc-e2e")
    ∷ literal (js "stress")
    ∷ literal (js "smoke")
    ∷ literal (js "onboarding-smoke-test")
    ∷ []

abbrev bounded_word : Re → Re
bounded_word word = seq (alt bos (one is_separator)) (seq word (alt (one is_separator) eos))

unfoldable pub test_words : Re
unfolding js
test_words = bounded_word (
    alts (literal (js "e2e")) (
      setup_words
      ++ seq (literal (js "test")) (any_of is_digit)
        ∷ literal (js "testing")
        ∷ literal (js "demo")
        ∷ literal (js "sample")
        ∷ literal (js "mock")
        ∷ literal (js "synthetic")
        ∷ literal (js "fake")
        ∷ literal (js "dummy")
        ∷ []))

unfoldable pub ephemeral_words : Re
unfolding js
ephemeral_words = bounded_word (alts (literal (js "e2e")) setup_words)

unfoldable pub is_ephemeral_project_name : Value → Bool
unfolding ephemeral_words
is_ephemeral_project_name value =
    let token = token_of value in if not (nonempty token) then false else test ephemeral_words token

unfoldable pub is_generated_or_test_alert : Value → Bool
unfolding test_words
is_generated_or_test_alert row =
    let labels = object_or_empty (row ! "labels") in
    let metadata = object_or_empty (row ! "metadata") in
    let annotations = object_or_empty (row ! "annotations") in
    let explicit_test_flag =
      any (λ value. member (token_of value) (js "1" ∷ js "true" ∷ js "yes" ∷ js "test" ∷ []))
        (row ! "is_test"
          ∷ row ! "test_alert"
          ∷ labels ! "is_test"
          ∷ labels ! "test_alert"
          ∷ labels ! "onboarding_test"
          ∷ metadata ! "is_test"
          ∷ metadata ! "test_alert"
          ∷ []) in
    let tokens = join (js " ") (
      map (λ value. lower (text_of value))
        (row ! "id"
          ∷ row ! "alert_id"
          ∷ row ! "incident_id"
          ∷ row ! "name"
          ∷ row ! "alert_name"
          ∷ row ! "rule_name"
          ∷ row ! "rule"
          ∷ row ! "alert_rule"
          ∷ row ! "labels" ! "alertname"
          ∷ row ! "service"
          ∷ row ! "application"
          ∷ row ! "project_name"
          ∷ row ! "project"
          ∷ row ! "environment"
          ∷ row ! "description"
          ∷ row ! "summary"
          ∷ row ! "source_path"
          ∷ labels ! "application"
          ∷ labels ! "project"
          ∷ labels ! "project_name"
          ∷ labels ! "environment"
          ∷ labels ! "namespace"
          ∷ labels ! "tenant"
          ∷ labels ! "job"
          ∷ labels ! "alertname"
          ∷ annotations ! "summary"
          ∷ annotations ! "description"
          ∷ metadata ! "application"
          ∷ metadata ! "project"
          ∷ metadata ! "project_name"
          ∷ metadata ! "environment"
          ∷ [])) in
    if explicit_test_flag
    then true
    else test test_words tokens
      || includes tokens (js "stresspipelinealert")
      || includes tokens (js "onboarding-smoke-test")

-- The last filter of both functions: a row of the named application.
unfoldable pub names_application : Text → Value → Bool
names_application target row =
    let labels = object_or_empty (row ! "labels") in
    let metadata = object_or_empty (row ! "metadata") in
    let candidates = present (
      map normalize_monitor_token (
        row ! "application"
        ∷ row ! "project"
        ∷ row ! "project_name"
        ∷ metadata ! "application"
        ∷ metadata ! "project"
        ∷ metadata ! "project_name"
        ∷ labels ! "application"
        ∷ labels ! "project"
        ∷ labels ! "project_name"
        ∷ [])) in
    member (normalize_monitor_token (str target)) candidates

unfoldable pub filter_alerts_for_monitor : Value → Value → List Value
filter_alerts_for_monitor rows application_to_monitor =
    let target = token_of application_to_monitor in
    let alert_rows = array_or_empty rows in
    let production_rows = filter (λ row. not (is_generated_or_test_alert row)) alert_rows in
    if not (nonempty target)
    then alert_rows
    else if text_eq target real_use_case_scope
    then filter (λ row. not (is_generated_or_test_alert row)) alert_rows
    else if text_eq target test_use_case_scope
    then filter (λ row. is_generated_or_test_alert row) alert_rows
    else if text_eq target (js "telemetry")
    then filter (λ row. text_eq (infer_monitor_scope row) (js "telemetry")) production_rows
    else if is_kaiops_core_selection target
    then filter (λ row. text_eq (infer_monitor_scope row) (js "kaiops")) production_rows
    else filter (names_application target) production_rows

-- The same filter for incidents and documents, written out a second time in the source.
unfoldable pub filter_rows_for_monitor : Value → Value → List Value
filter_rows_for_monitor rows application_to_monitor =
    let target = token_of application_to_monitor in
    let items = array_or_empty rows in
    let production_rows = filter (λ row. not (is_generated_or_test_alert row)) items in
    if not (nonempty target)
    then items
    else if text_eq target real_use_case_scope
    then filter (λ row. not (is_generated_or_test_alert row)) items
    else if text_eq target test_use_case_scope
    then filter (λ row. is_generated_or_test_alert row) items
    else if text_eq target (js "telemetry")
    then filter (λ row. text_eq (infer_monitor_scope row) (js "telemetry")) production_rows
    else if is_kaiops_core_selection target
    then filter (λ row. text_eq (infer_monitor_scope row) (js "kaiops")) production_rows
    else filter (names_application target) production_rows
