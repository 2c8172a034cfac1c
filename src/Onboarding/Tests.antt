-- ===== src/Onboarding/Tests.antt =====
-- Runs of the onboarding's helpers, and concrete instances of their properties.
use kaims_latest.Prelude.{◌≡◌, refl, true, false, [], ◌∷◌, All}
use kaims_latest.Js.Text.{
  js, trim, trim_start, trim_end, lower, lower_unit, is_space, text_eq, includes, starts_with,
  member, join,
}
use kaims_latest.Js.Value.{
  Value, str, obj, field, end, undefined, lookup, ◌!◌, ◌or◌, truthy, to_text, text_of,
  object_or_empty, is_object,
}
use kaims_latest.Js.Regex.{test, replace, split}
use kaims_latest.Onboarding.Sources.{
  OnboardingSourceForm, candidate_sources, build_onboarding_sources, IsBuilt,
  build_onboarding_sources-IsBuilt,
}
use kaims_latest.Onboarding.Tools.{
  normalize_role_name, scheme_pattern, simplify_monitoring_url, normalize_match_token,
  severity_override_key, extract_monitoring_tool_and_url, uuid_pattern, looks_like_uuid,
  requirement_words, document_lines, derive_monitoring_requirements_from_document,
  summarize_uploaded_document, classify_onboarding_document_type, extract_onboarding_project_name,
}

runs : Unit {0}
unfolding js trim trim_start trim_end lower lower_unit is_space text_eq includes starts_with member
    join lookup ◌!◌ ◌or◌ truthy to_text text_of object_or_empty is_object test replace split
    candidate_sources build_onboarding_sources normalize_role_name scheme_pattern
    simplify_monitoring_url normalize_match_token severity_override_key
    extract_monitoring_tool_and_url uuid_pattern looks_like_uuid requirement_words document_lines
    derive_monitoring_requirements_from_document summarize_uploaded_document
    classify_onboarding_document_type extract_onboarding_project_name
runs = tt

abbrev form : OnboardingSourceForm
form = record {
  connection_auth_type = js "bearer";
  connection_secret_ref = js "vault/a";
  logs_url = js "http://logs";
  traces_url = [];
  telemetry_url = [];
  ticketing_url = js "http://jira";
  email_url = [];
}

abbrev payload : Value
payload = obj (
    field (js "provider") (str (js "DataDog"))
      (field (js "datadog_url") (str (js "dd.example//")) end))

tool_tests :
    (normalize_role_name (str (js " L2  Engineer ")) ≡ js "l2_engineer")
    × (simplify_monitoring_url (str (js "prometheus:9090/")) ≡ js "http://prometheus:9090")
    × (simplify_monitoring_url (str (js "HTTPS://x//")) ≡ js "HTTPS://x")
    × (simplify_monitoring_url (str (simplify_monitoring_url (str (js "http://"))))
        ≡ js "http://http:")
    × (severity_override_key (str (js "CPU ")) (str (js "api")) undefined ≡ js "cpu|api|")
    × ((extract_monitoring_tool_and_url payload (js "prometheus") undefined).url
        ≡ js "http://dd.example")
    × (looks_like_uuid (str (js "A1234567-1234-4123-8123-123456789abc")) ≡ true)
    × (looks_like_uuid (str (js "A1234567-1234-9123-8123-123456789abc")) ≡ false)
    × (classify_onboarding_document_type (str (js "RCA.md")) undefined ≡ js "rca")
    × (summarize_uploaded_document (str (js " a  b ")) ≡ js "a b")
    × (derive_monitoring_requirements_from_document
          (str (js "d"))
          (str (js "- short\n* CPU above 90%\nplain line"))
        ≡ (js "d: CPU above 90%") ∷ [])
unfolding runs
tool_tests = (refl, refl, refl, refl, refl, refl, refl, refl, refl, refl, refl)

build_onboarding_sources-IsBuilt_example :
    All
      (IsBuilt form (js "http://prom"))
      (build_onboarding_sources form (js "prometheus") (js "http://prom"))
build_onboarding_sources-IsBuilt_example =
    build_onboarding_sources-IsBuilt form (js "prometheus") (js "http://prom")
