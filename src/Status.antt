-- ===== src/Status.antt =====
-- frontend/react/src/domain/incidentStatus.js, and the status helpers of
-- frontend/react/src/appHelpers.jsx.
pub mod Gate
pub mod Execution
pub mod Canonical
pub mod Approval
mod Tests
use kaims_latest.Prelude.{
  Bool, not, true, false, ◌&&◌, ◌||◌, List, [], ◌∷◌, ◌++◌, map, any, if◌then◌else◌,
}
use kaims_latest.Js.Text.{
  Text, js, nonempty, trim, lower, includes, member, text_eq, replace_all, present, first_member,
}
use kaims_latest.Js.Value.{Value, arr, elements, text_of}

abbrev pub terminal_incident_statuses : List Text
terminal_incident_statuses =
    js "closed" ∷ js "resolved" ∷ js "failed" ∷ js "cancelled" ∷ js "canceled" ∷ []

abbrev pub pending_approval_statuses : List Text
pending_approval_statuses =
    js "awaiting_approval"
    ∷ js "pending_approval"
    ∷ js "pending"
    ∷ js "queued"
    ∷ js "draft"
    ∷ js "standby"
    ∷ js "required"
    ∷ []

pub normalize_status : Value → Text
normalize_status value =
    replace_all b' ' b'_' (replace_all b'-' b'_' (lower (trim (text_of value))))

-- `text || fallback`
abbrev pub or_text : Text → Text → Text
or_text s t = if nonempty s then s else t

pub effective_incident_status : Value → Value → Text
effective_incident_status incident_status approval_status =
    let incident = or_text (normalize_status incident_status) (js "open") in
    let approval = normalize_status approval_status in
    if not (member incident terminal_incident_statuses) && member approval pending_approval_statuses
    then js "awaiting_approval"
    else incident

abbrev pub succeeded_statuses : List Text
succeeded_statuses = js "succeeded" ∷ js "completed" ∷ js "closed" ∷ js "resolved" ∷ []

abbrev pub failed_statuses : List Text
failed_statuses =
    js "failed"
    ∷ js "skipped"
    ∷ js "policy_blocked"
    ∷ js "dispatch_failed"
    ∷ js "execution_failed"
    ∷ js "validation_failed"
    ∷ js "rollback_failed"
    ∷ js "timed_out"
    ∷ js "cancelled"
    ∷ js "manual_intervention_required"
    ∷ []

abbrev pub active_statuses : List Text
active_statuses =
    js "rolled_back"
    ∷ js "dispatching"
    ∷ js "executor_accepted"
    ∷ js "running"
    ∷ js "verifying"
    ∷ js "rolling_back"
    ∷ []

pub effective_execution_status : Value → Value → Value → Text
effective_execution_status incident_status remediation_status queue_url =
    let incident = normalize_status incident_status in
    let remediation = normalize_status remediation_status in
    if member remediation succeeded_statuses || member incident (js "closed" ∷ js "resolved" ∷ [])
    then js "succeeded"
    else if member remediation failed_statuses
    then remediation
    else if member remediation active_statuses
    then remediation
    else if nonempty (trim (text_of queue_url)) && not (nonempty remediation)
    then js "executor_accepted"
    else if text_eq incident (js "failed")
    then js "failed"
    else remediation

pub normalize_approval_status : Value → Text
normalize_approval_status value = lower (trim (text_of value))

-- One level of `values.flat()`.
pub flat : List Value → List Value
flat [] = []
flat (arr vs ∷ rest) = elements vs ++ flat rest
flat (v ∷ rest) = v ∷ flat rest

abbrev pub terminal_priority : List Text
terminal_priority = terminal_incident_statuses

-- The trimmed lower-case texts of the values, without the empty ones.
pub status_texts : List Value → List Text
unfolding flat
status_texts values = present (map (λ value. lower (trim (text_of value))) (flat values))

pub canonical_of : List Text → Text
canonical_of [] = js "unknown"
canonical_of (s ∷ ss) = first_member terminal_priority (s ∷ ss) s

pub canonical_incident_status : List Value → Text
unfolding canonical_of status_texts
canonical_incident_status values = canonical_of (status_texts values)

pub is_approval_resolved_status : Value → Bool
unfolding normalize_approval_status
is_approval_resolved_status value =
    let token = normalize_approval_status value in
    if not (nonempty token)
    then false
    else member token (
        js "approved"
        ∷ js "rejected"
        ∷ js "closed"
        ∷ js "resolved"
        ∷ js "failed"
        ∷ js "cancelled"
        ∷ js "canceled"
        ∷ [])

pub is_approval_pending_status : Value → Bool
unfolding normalize_approval_status
is_approval_pending_status value =
    let token = normalize_approval_status value in
    if not (nonempty token)
    then false
    else member token (
        js "awaiting_approval"
        ∷ js "pending"
        ∷ js "queued"
        ∷ js "awaiting user approval"
        ∷ js "standby"
        ∷ [])

pub is_failure_status : Value → Bool
is_failure_status value =
    let token = lower (trim (text_of value)) in
    if not (nonempty token)
    then false
    else any (λ flag. includes token flag)
        (js "fail"
          ∷ js "failed"
          ∷ js "failure"
          ∷ js "error"
          ∷ js "exception"
          ∷ js "rejected"
          ∷ js "timeout"
          ∷ js "denied"
          ∷ [])
