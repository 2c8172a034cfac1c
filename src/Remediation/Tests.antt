-- ===== src/Remediation/Tests.antt =====
-- Runs of the remediation's functions, and concrete instances of their properties.
use kaims_latest.Prelude.{◌≡◌, ◌↔◌, refl, true, [], ◌∷◌, some, All, map, length}
use kaims_latest.Js.Text.{
  js, trim, trim_start, trim_end, is_space, lower, lower_unit, member, text_eq, includes,
  starts_with,
}
use kaims_latest.Js.Value.{
  Value, str, null, arr, obj, field, end, items, lookup, ◌!◌, ◌or◌, truthy, object_or_empty,
  array_or_empty, is_array, is_object, text_of, to_text,
}
use kaims_latest.Alerts.Scope.{token_of}
use kaims_latest.Timeline.Path.{decision_of}
use kaims_latest.Remediation.Plan.{build_preview_execution_plan, preview_plan, action_type_of}
use kaims_latest.Remediation.Commands.{
  derive_execution_commands, recorded_lines, explicit_commands, push_line, push_unique, push_values,
  push_plan, push_row, push_rows, push_preview,
}
use kaims_latest.Remediation.Commands.Distinct.{
  IsDistinct, IsLabelled, derive_execution_commands-IsDistinct,
}
use kaims_latest.Remediation.Outcome.{
  remediation_outcome_from_action, claims_success, claims_success_iff,
}
use kaims_latest.Remediation.Shell.{
  shell_arg, shell_token, escape_quotes, bare, read_word, read_word-shell_arg,
}

remediations : Unit {0}
unfolding js trim trim_start trim_end is_space lower lower_unit member text_eq includes starts_with
    lookup ◌!◌ ◌or◌ truthy object_or_empty array_or_empty is_array is_object text_of to_text
    decision_of build_preview_execution_plan preview_plan action_type_of derive_execution_commands
    recorded_lines explicit_commands push_line push_unique push_values push_plan push_row push_rows
    push_preview shell_arg shell_token escape_quotes
remediations = tt

abbrev commands : Value → Value
commands vs = obj (field (js "recommendation") (obj (field (js "commands") vs end)) end)

abbrev workflow : Value
workflow = commands (arr (items (str (js "ls") ∷ str (js " LS ") ∷ str (js "df -h") ∷ [])))

derive_execution_commands_tests :
    (derive_execution_commands workflow null ≡ js "cmd: ls" ∷ js "cmd: df -h" ∷ [])
    × (length (derive_execution_commands null null) ≡ 6)
unfolding remediations
derive_execution_commands_tests = (refl, refl)

shell_arg_tests :
    (shell_arg (str (js " a-b ")) ≡ js "a-b")
    × (shell_arg (str (js "a;b'c")) ≡ js "'a;b'\\''c'")
    × (shell_arg null ≡ js "''")
unfolding remediations
shell_arg_tests = (refl, refl, refl)

derive_execution_commands-IsDistinct_example :
    IsDistinct (map lower (derive_execution_commands workflow null))
    × All IsLabelled (derive_execution_commands workflow null)
derive_execution_commands-IsDistinct_example = derive_execution_commands-IsDistinct workflow null

abbrev hostile : Value
hostile = str (js "x'; rm -rf / #")

read_word-shell_arg_example : read_word bare (shell_arg hostile) ≡ some (trim (text_of hostile))
read_word-shell_arg_example = read_word-shell_arg hostile

abbrev action : Value
action =
    obj (field (js "status") (str (js "failed")) (field (js "output") (str (js "succeeded")) end))

claims_success_iff_example :
    (claims_success (remediation_outcome_from_action action) ≡ true)
    ↔ (text_eq (token_of (object_or_empty action ! "status")) (js "succeeded") ≡ true)
claims_success_iff_example = claims_success_iff action
