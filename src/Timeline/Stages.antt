-- ===== src/Timeline/Stages.antt =====
-- appHelpers.jsx: `buildWorkflowFlowStages`.
use kaims_latest.Prelude.{
  ◌≡◌, refl, Bool, true, false, ◌||◌, List, [], ◌∷◌, ◌++◌, any, length, if◌then◌else◌, Option, none,
  some,
}
use kaims_latest.Js.Text.{Text, js, nonempty, trim, lower, includes, text_eq}
use kaims_latest.Js.Value.{
  Value, str, truthy, ◌!◌, ◌or◌, text_of, to_text, object_or_empty, array_or_empty, decimal,
}
use kaims_latest.Alerts.Scope.{token_of}
use kaims_latest.Status.{is_approval_pending_status}
use kaims_latest.Status.Approval.{pending-truthy}
use kaims_latest.Timeline.Rows.{mentions}
use kaims_latest.Timeline.Path.{is_true}

pub record WorkflowStage : Type 0 where
  pub id : Text
  pub label : Text
  pub detail : Text
  pub status : Text

-- Whether `findStage(needle)` finds a row. No row is falsy: the rows come from a JSON array of
-- objects.
unfoldable pub find_stage : List Value → Text → Bool
find_stage rows needle =
    any
      (λ row. includes (lower (text_of (row ! "stage" or row ! "agent" or row ! "detail"))) needle)
      rows

unfoldable pub has_parallel_processing : List Value → Bool
has_parallel_processing rows =
    any
      (λ row.
        mentions (lower (text_of (row ! "agent" or row ! "service" or row ! "detail")))
          (js "alert intelligence" ∷ js "orchestrator" ∷ js "context" ∷ js "resolution" ∷ []))
      rows

abbrev stage : Text → Text → Text → Text → WorkflowStage
stage i l d s = record { id = i; label = l; detail = d; status = s }

unfoldable pub is_policy_blocked : Value → Bool
is_policy_blocked remediation =
    text_eq (token_of (remediation ! "action_type")) (js "policy-blocked")
    || is_true (remediation ! "metadata" ! "policy_blocked")

unfoldable pub remediation_stage : Value → WorkflowStage
unfolding is_policy_blocked
remediation_stage remediation =
    let blocked = is_policy_blocked remediation in
    let commands = remediation ! "parameters" ! "execution_plan" ! "commands" in
    stage (js "remediation") (js "Remediation Execution")
      (if blocked
        then to_text (
            remediation ! "error"
            or remediation ! "metadata" ! "policy_reason"
            or str (js "Execution blocked by policy; operator review is required."))
        else decimal (length (array_or_empty commands))
          ++ js " commands captured for execution or review.")
      (if blocked
        then js "blocked"
        else if nonempty (token_of (remediation ! "status"))
        then js "done"
        else js "waiting")

unfoldable pub approval_stage : Value → WorkflowStage
approval_stage workflow =
    stage (js "approval") (js "Approval Gate")
      (trim (
        to_text (
          workflow ! "approval" ! "status"
          or workflow ! "decision" ! "status"
          or str (js "pending"))))
      (if truthy (workflow ! "approval" ! "status") then js "done" else js "active")

unfoldable pub closure_stage : Value → WorkflowStage
unfolding is_policy_blocked
closure_stage workflow =
    let blocked = is_policy_blocked (object_or_empty (workflow ! "remediation_action")) in
    let complete = is_true (workflow ! "closure_report" ! "health_restored") in
    stage (js "closure") (js "Closure & Validation")
      (trim (
        if complete
        then js "Service restored and closure completed."
        else if blocked
        then js "Waiting for an approved remediation outcome before validation."
        else js "Validation starts after remediation completes."))
      (if complete then js "done" else js "waiting")

unfoldable pub build_workflow_flow_stages : Value → Value → List WorkflowStage
unfolding find_stage has_parallel_processing remediation_stage approval_stage closure_stage
build_workflow_flow_stages workflow timeline_rows =
    let safe_workflow = object_or_empty workflow in
    let safe_rows = array_or_empty timeline_rows in
    let parallel = has_parallel_processing safe_rows in
    stage (js "landing-pad") (js "Landing Pad")
      (js "Raw alerts are accepted, normalized, and added to the incident stream.")
      (if find_stage safe_rows (js "landing") then js "done" else js "active")
    ∷ stage (js "parallel-processing") (js "Parallel Processing")
        (if parallel
          then js
              "Alert intelligence, orchestration, context, and resolution work the stream in parallel workers."
          else js
              "Backend workers fan out the alert stream through independent services for concurrent processing.")
        (if parallel then js "done" else js "active")
    ∷ approval_stage safe_workflow
    ∷ remediation_stage (object_or_empty (safe_workflow ! "remediation_action"))
    ∷ closure_stage safe_workflow
    ∷ []

-- The status that the stage with an identifier is shown with.
abbrev pub status_at : Text → List WorkflowStage → Option Text
status_at i [] = none
status_at i (s ∷ ss) = if text_eq s.id i then some s.status else status_at i ss

approval_ids :
    (text_eq (js "landing-pad") (js "approval") ≡ false)
    × (text_eq (js "parallel-processing") (js "approval") ≡ false)
    × (text_eq (js "approval") (js "approval") ≡ true)
unfolding js text_eq
approval_ids = (refl, refl, refl)

-- The approval gate is shown as done while its approval is pending.
pub build_workflow_flow_stages-pending :
    (workflow timeline_rows : Value)
    → is_approval_pending_status (object_or_empty workflow ! "approval" ! "status") ≡ true
    → status_at (js "approval") (build_workflow_flow_stages workflow timeline_rows)
      ≡ some (js "done")
unfolding build_workflow_flow_stages approval_stage
build_workflow_flow_stages-pending workflow timeline_rows h =
    rw (approval_ids.0, approval_ids.1, approval_ids.2)
      (rw (pending-truthy (object_or_empty workflow ! "approval" ! "status") h) refl)
