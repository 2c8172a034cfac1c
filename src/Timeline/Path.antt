-- ===== src/Timeline/Path.antt =====
-- appHelpers.jsx: `classifySelectedAlertPath`.
use kaims_latest.Prelude.{
  ◌≡◌, ◌↔◌, refl, Bool, true, false, ◌||◌, [], ◌∷◌, ◌++◌, map, if◌then◌else◌, arith,
}
use kaims_latest.Js.Text.{Text, js, lower, includes, text_eq, join}
use kaims_latest.Js.Value.{
  Value, bool, is_object, truthy, ◌!◌, ◌or◌, ◌nullish◌, text_of, object_or_empty, array_or_empty,
}
use kaims_latest.Alerts.Scope.{token_of}
use kaims_latest.Timeline.Rows.{has_meaningful_value, mentions}

-- `v === true`
abbrev pub is_true : Value → Bool
is_true (bool b) = b
is_true _ = false

-- The object that `safeWorkflow.decision` or one of its fallbacks is.
unfoldable pub decision_of : Value → Value → Value
decision_of workflow metadata =
    if is_object (workflow ! "decision")
    then workflow ! "decision"
    else if is_object (workflow ! "orchestration_decision")
    then workflow ! "orchestration_decision"
    else object_or_empty (metadata ! "orchestration_decision")

unfoldable pub path_row_text : Value → Text
path_row_text row =
    text_of (row ! "stage")
    ++ js " "
    ++ text_of (row ! "agent")
    ++ js " "
    ++ text_of (row ! "service")
    ++ js " "
    ++ text_of (row ! "consumes")
    ++ js " "
    ++ text_of (row ! "publishes")
    ++ js " "
    ++ text_of (row ! "detail")
    ++ js " "
    ++ text_of (row ! "inputValueText")
    ++ js " "
    ++ text_of (row ! "outputValueText")

pub record AlertPath : Type 0 where
  pub label : Text
  pub approval_required : Bool
  pub has_alert_intelligence : Bool
  pub has_orchestration : Bool
  pub has_context : Bool
  pub has_resolution : Bool
  pub has_approval : Bool
  pub has_remediation : Bool
  pub has_closure : Bool

unfoldable pub classify_selected_alert_path : Value → Value → Value → AlertPath
unfolding decision_of path_row_text
classify_selected_alert_path workflow timeline_rows selected_alert =
    let safe_workflow = object_or_empty workflow in
    let safe_alert = object_or_empty selected_alert in
    let recommendation = object_or_empty (safe_workflow ! "recommendation") in
    let recommendation_metadata = object_or_empty (recommendation ! "metadata") in
    let decision = decision_of safe_workflow recommendation_metadata in
    let approval = object_or_empty (safe_workflow ! "approval") in
    let remediation = object_or_empty (safe_workflow ! "remediation_action") in
    let closure = object_or_empty (safe_workflow ! "closure_report") in
    let row_text = lower (join (js " ") (map path_row_text (array_or_empty timeline_rows))) in
    let incident_status =
      token_of
        (safe_workflow ! "incident" ! "status" or safe_alert ! "status" or safe_alert ! "state") in
    let explicit_approval =
      safe_workflow ! "approval" ! "required"
      nullish decision ! "requires_approval"
      nullish recommendation ! "requires_approval" in
    let approval_required =
      is_true explicit_approval
      || mentions incident_status (js "awaiting_approval" ∷ js "pending_approval" ∷ []) in
    let has_approval =
      approval_required
      || has_meaningful_value (approval ! "status" or approval ! "id" or approval ! "approval_id")
      || includes row_text (js "approval") in
    let has_remediation =
      has_meaningful_value
        (remediation ! "status" or remediation ! "id" or remediation ! "action_type")
      || includes row_text (js "remediation") in
    let has_closure =
      truthy (closure ! "health_restored" or closure ! "closed_at")
      || mentions incident_status
          (js "closed" ∷ js "resolved" ∷ js "complete" ∷ js "completed" ∷ js "validated" ∷ [])
      || includes row_text (js "closure-events")
      || includes row_text (js "closure service") in
    let has_resolution =
      has_meaningful_value (
        recommendation ! "id"
        or recommendation ! "root_cause"
        or recommendation ! "recommended_action")
      || includes row_text (js "resolution")
      || includes row_text (js "model router") in
    let has_context =
      has_meaningful_value (safe_workflow ! "context")
      || includes row_text (js "context")
      || includes row_text (js "rag") in
    let has_orchestration =
      has_context
      || has_resolution
      || has_approval
      || has_remediation
      || has_closure
      || includes row_text (js "orchestrator")
      || includes row_text (js "orchestration") in
    let has_alert_intelligence =
      has_orchestration
      || includes row_text (js "alert intelligence")
      || includes row_text (js "enriched-alerts") in
    record {
      label =
          if has_closure
          then js "Closed path"
          else if has_remediation
          then js "Remediation path"
          else if has_approval
          then js "Approval path"
          else if has_resolution
          then js "Resolution path"
          else if has_context
          then js "Context path"
          else if has_alert_intelligence
          then js "Intelligence path"
          else js "Intake path";
      approval_required = approval_required;
      has_alert_intelligence = has_alert_intelligence;
      has_orchestration = has_orchestration;
      has_context = has_context;
      has_resolution = has_resolution;
      has_approval = has_approval;
      has_remediation = has_remediation;
      has_closure = has_closure;
    }

-- The flags imply one another as the phases follow, and the label is that of the intake without any.
abbrev pub IsOrdered : AlertPath → Type 0
IsOrdered p =
    (p.approval_required ≡ true → p.has_approval ≡ true)
    × ((p.has_context || p.has_resolution || p.has_approval || p.has_remediation || p.has_closure)
          ≡ true
        → p.has_orchestration ≡ true)
    × (p.has_orchestration ≡ true → p.has_alert_intelligence ≡ true)
    × ((text_eq p.label (js "Intake path") ≡ true) ↔ (p.has_alert_intelligence ≡ false))

labels :
    (text_eq (js "Closed path") (js "Intake path") ≡ false)
    × (text_eq (js "Remediation path") (js "Intake path") ≡ false)
    × (text_eq (js "Approval path") (js "Intake path") ≡ false)
    × (text_eq (js "Resolution path") (js "Intake path") ≡ false)
    × (text_eq (js "Context path") (js "Intake path") ≡ false)
    × (text_eq (js "Intelligence path") (js "Intake path") ≡ false)
    × (text_eq (js "Intake path") (js "Intake path") ≡ true)
unfolding js text_eq
labels = (refl, refl, refl, refl, refl, refl, refl)

-- A path whose approval is required goes through approval, one that reaches the context or a later
-- phase goes through orchestration, and one that goes through orchestration has been looked at.
-- The label says that nothing is known beyond the intake exactly if the alert has not been.
pub classify_selected_alert_path-IsOrdered :
    (workflow timeline_rows selected_alert : Value)
    → IsOrdered (classify_selected_alert_path workflow timeline_rows selected_alert)
unfolding classify_selected_alert_path
classify_selected_alert_path-IsOrdered workflow timeline_rows selected_alert =
    (λ h. ground arith, λ h. ground arith, λ h. ground arith, ground (arith, labels))
