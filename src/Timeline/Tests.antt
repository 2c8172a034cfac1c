-- ===== src/Timeline/Tests.antt =====
-- Runs of the timeline's functions, and concrete instances of their properties.
use kaims_latest.Prelude.{ℕ, ◌≡◌, ◌≢◌, refl, true, [], ◌∷◌, Option, none, some, All}
use kaims_latest.Js.Text.{
  Text, js, trim, trim_start, trim_end, is_space, lower, lower_unit, member, text_eq, includes,
  starts_with, join,
}
use kaims_latest.Js.Value.{
  Value, str, null, arr, obj, field, end, items, lookup, ◌!◌, ◌or◌, truthy, object_or_empty,
  array_or_empty, text_of, decimal, is_object,
}
use kaims_latest.Status.{is_approval_pending_status}
use kaims_latest.Status.Approval.{pending_text-pending}
use kaims_latest.Timeline.Rows.{
  has_meaningful_value, classify_flow_stage_from_row, timeline_row_text,
  timeline_row_indicates_fallback, timeline_row_indicates_success, timeline_row_has_error,
  timeline_row_status, first_meaningful, parse_timeline_json, infer_timeline_next_step,
}
use kaims_latest.Timeline.Sections.{
  add_row, add_rows, finish_section, section_status, build_dynamic_flow_sections, safe_rows,
}
use kaims_latest.Timeline.Sections.Grouping.{
  rows_of, sections_of, IsUniform, Alternates, build_dynamic_flow_sections-rows,
  build_dynamic_flow_sections-runs,
}
use kaims_latest.Timeline.Order.{
  timeline_phase_order, phase_order_of, first_rule, timeline_phase_order-topics,
}
use kaims_latest.Timeline.Path.{
  classify_selected_alert_path, IsOrdered, classify_selected_alert_path-IsOrdered,
}
use kaims_latest.Timeline.Stages.{
  build_workflow_flow_stages, status_at, build_workflow_flow_stages-pending,
}
use kaims_latest.Timeline.Events.{extract_event_input, extract_event_output}

timelines : Unit {0}
unfolding js trim trim_start trim_end is_space lower lower_unit member text_eq includes starts_with
    join lookup ◌!◌ ◌or◌ truthy object_or_empty array_or_empty text_of decimal has_meaningful_value
    classify_flow_stage_from_row timeline_row_text timeline_row_indicates_fallback
    timeline_row_indicates_success timeline_row_has_error timeline_row_status first_meaningful
    parse_timeline_json infer_timeline_next_step add_row add_rows finish_section section_status
    build_dynamic_flow_sections timeline_phase_order phase_order_of first_rule
timelines = tt

abbrev row : Text → Text → Value
row stage detail = obj (field (js "stage") (str stage) (field (js "detail") (str detail) end))

abbrev landed : Value
landed = row (js "Alert landed") (js "one row")

abbrev enriched : Value
enriched = row (js "Enriched Alert Topic") (js "skipped")

abbrev rows : Value
rows = arr (items (landed ∷ landed ∷ null ∷ enriched ∷ []))

-- No text is JSON.
abbrev no_json : Text → Option Value
no_json t = none

abbrev no_number : Value → Option ℕ
no_number v = none

timeline_tests :
    (timeline_row_status landed null ≡ js "observed")
    × (timeline_row_status enriched null ≡ js "fallback")
    × (timeline_phase_order no_number enriched ≡ 30)
    × (infer_timeline_next_step no_json landed enriched ≡ js "next -> Enriched Alert Topic")
unfolding timelines
timeline_tests = (refl, refl, refl, refl)

sections_tests :
    rows_of (sections_of (build_dynamic_flow_sections no_json rows))
    ≡ landed ∷ landed ∷ enriched ∷ []
unfolding timelines
sections_tests = refl

build_dynamic_flow_sections-rows_example :
    rows_of (sections_of (build_dynamic_flow_sections no_json rows)) ≡ safe_rows rows
build_dynamic_flow_sections-rows_example = build_dynamic_flow_sections-rows no_json rows

build_dynamic_flow_sections-runs_example :
    All IsUniform (sections_of (build_dynamic_flow_sections no_json rows))
    × Alternates (sections_of (build_dynamic_flow_sections no_json rows))
build_dynamic_flow_sections-runs_example = build_dynamic_flow_sections-runs no_json rows

timeline_phase_order-topics_example :
    (timeline_phase_order no_number enriched ≢ 40)
    × (timeline_phase_order no_number enriched ≢ 120)
    × (timeline_phase_order no_number enriched ≢ 140)
    × (timeline_phase_order no_number enriched ≢ 160)
timeline_phase_order-topics_example = timeline_phase_order-topics no_number enriched refl

abbrev workflow : Value
workflow = obj (field (js "approval") (obj (field (js "status") (str (js "pending")) end)) end)

classify_selected_alert_path-IsOrdered_example :
    IsOrdered (classify_selected_alert_path workflow rows null)
classify_selected_alert_path-IsOrdered_example =
    classify_selected_alert_path-IsOrdered workflow rows null

workflow_status : object_or_empty workflow ! "approval" ! "status" ≡ str (js "pending")
unfolding timelines
workflow_status = refl

workflow_pending :
    is_approval_pending_status (object_or_empty workflow ! "approval" ! "status") ≡ true
workflow_pending = rw workflow_status pending_text-pending

build_workflow_flow_stages-pending_example :
    status_at (js "approval") (build_workflow_flow_stages workflow rows) ≡ some (js "done")
build_workflow_flow_stages-pending_example =
    build_workflow_flow_stages-pending workflow rows workflow_pending

abbrev event : Value
event = obj (field (js "output") (str (js "-")) (field (js "result") (str (js "ok")) end))

extract_event_tests :
    (extract_event_output event ≡ str (js "ok")) × (extract_event_input event ≡ null)
unfolding timelines extract_event_output extract_event_input is_object
extract_event_tests = (refl, refl)
