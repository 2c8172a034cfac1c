-- ===== src/Alerts/Project/Tests.antt =====
-- Runs of the project's identity, and a concrete instance of its property.
use kaims_latest.Prelude.{◌≡◌, refl, true, [], Option, none, some, ◌⊎◌}
use kaims_latest.Js.Text.{
  Text, js, trim, trim_start, trim_end, is_space, lower, lower_unit, member, text_eq, includes,
  starts_with,
}
use kaims_latest.Js.Value.{
  Value, str, obj, field, end, lookup, ◌!◌, ◌or◌, truthy, to_text, text_of, object_or_empty,
}
use kaims_latest.Alerts.Project.{
  usable_text, usable, first_usable, before_colon, direct_identity, is_jira, jira_prefix,
  service_identity, embedded_identity, project_identity_from_alert, IsNamed,
  project_identity_from_alert-IsNamed,
}

runs : Unit {0}
unfolding js trim trim_start trim_end is_space lower lower_unit member text_eq includes starts_with
    lookup ◌!◌ ◌or◌ truthy to_text text_of object_or_empty usable_text usable first_usable
    before_colon direct_identity is_jira jira_prefix service_identity embedded_identity
    project_identity_from_alert
runs = tt

abbrev context_row : Value
context_row = obj (
    field (js "application") (str (js " unknown "))
      (field (js "annotations") (obj (field (js "kaiops_context") (str (js "c")) end)) end))

abbrev context_json : Text → Option Value
context_json t = some (obj (field (js "project") (str (js "checkout")) end))

abbrev jira_row : Value
jira_row = obj (
    field (js "source") (str (js "jira"))
      (field (js "name") (str (js "Unknown: the site is down")) end))

identity_tests :
    (project_identity_from_alert (λ t. none) jira_row ≡ js "Unknown")
    × (project_identity_from_alert context_json context_row ≡ js "checkout")
    × (project_identity_from_alert (λ t. none) context_row ≡ [])
unfolding runs
identity_tests = (refl, refl, refl)

project_identity_from_alert-IsNamed_example :
    IsNamed (project_identity_from_alert (λ t. none) jira_row)
    ⊎ ((is_jira jira_row ≡ true)
        × (project_identity_from_alert (λ t. none) jira_row ≡ jira_prefix jira_row))
project_identity_from_alert-IsNamed_example =
    project_identity_from_alert-IsNamed (λ t. none) jira_row
