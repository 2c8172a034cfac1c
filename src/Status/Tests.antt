-- ===== src/Status/Tests.antt =====
-- Runs of the status helpers, and concrete instances of their properties.
use kaims_latest.Prelude.{◌≡◌, refl, ◌⊎◌, ◌↔◌, List, [], ◌∷◌, true, false}
use kaims_latest.Js.Text.{
  Text, js, trim, trim_start, trim_end, is_space, lower, lower_unit, member, text_eq, replace_all,
  replace_unit, first_member, includes,
}
use kaims_latest.Js.Value.{Value, str, null, arr, items, text_of}
use kaims_latest.Status.{
  normalize_status, effective_incident_status, effective_execution_status,
  normalize_approval_status, flat, status_texts, canonical_of, canonical_incident_status,
  is_approval_resolved_status, is_approval_pending_status, is_failure_status,
  pending_approval_statuses, terminal_incident_statuses, or_text, terminal_priority,
  succeeded_statuses,
}
use kaims_latest.Status.Gate.{incident_of, effective_incident_status-settles}
use kaims_latest.Status.Execution.{succeeded_iff, closed_statuses}
use kaims_latest.Status.Canonical.{canonical_incident_status_unordered, meets}
use kaims_latest.Status.Approval.{spelled_out_passes_gate}

statuses : Unit {0}
unfolding js trim trim_start trim_end is_space lower lower_unit member text_eq replace_all
    replace_unit first_member includes text_of normalize_status effective_incident_status
    effective_execution_status normalize_approval_status flat status_texts canonical_of
    canonical_incident_status is_approval_resolved_status is_approval_pending_status
    is_failure_status
statuses = tt

abbrev running : Value
running = str (js " In-Progress ")

abbrev pending : Value
pending = str (js "Pending Approval")

abbrev closed : Value
closed = str (js "Closed")

effective_incident_status_tests :
    (effective_incident_status running pending ≡ js "awaiting_approval")
    × (effective_incident_status closed pending ≡ js "closed")
    × (effective_incident_status running null ≡ js "in_progress")
    × (effective_incident_status null null ≡ js "open")
unfolding statuses
effective_incident_status_tests = (refl, refl, refl, refl)

abbrev queue_url : Value
queue_url = str (js "https://jenkins/queue/7")

effective_execution_status_tests :
    (effective_execution_status (str (js "failed")) null queue_url ≡ js "executor_accepted")
    × (effective_execution_status (str (js "failed")) null null ≡ js "failed")
    × (effective_execution_status closed (str (js "failed")) null ≡ js "succeeded")
    × (effective_execution_status null (str (js "timed-out")) queue_url ≡ js "timed_out")
unfolding statuses
effective_execution_status_tests = (refl, refl, refl, refl)

canonical_incident_status_tests :
    (canonical_incident_status (running ∷ arr (items (closed ∷ null ∷ [])) ∷ []) ≡ js "closed")
    × (canonical_incident_status (running ∷ []) ≡ js "in-progress")
    × (canonical_incident_status [] ≡ js "unknown")
unfolding statuses
canonical_incident_status_tests = (refl, refl, refl)

is_failure_status_tests :
    (is_failure_status (str (js "Timed out: failed")) ≡ true) × (is_failure_status closed ≡ false)
unfolding statuses
is_failure_status_tests = (refl, refl)

effective_incident_status-settles_example :
    (member (effective_incident_status running pending) terminal_incident_statuses
      ≡ member (incident_of running) terminal_incident_statuses)
    × ((effective_incident_status running pending ≡ incident_of running)
        ⊎ ((member (normalize_status pending) pending_approval_statuses ≡ true)
            × (member (incident_of running) terminal_incident_statuses ≡ false)
            × (effective_incident_status running pending ≡ js "awaiting_approval")))
    × ((member (normalize_status pending) pending_approval_statuses ≡ false)
        ⊎ (member (incident_of running) terminal_incident_statuses ≡ true)
        ⊎ (effective_incident_status running pending ≡ js "awaiting_approval"))
    × (effective_incident_status (str (effective_incident_status running pending)) pending
        ≡ effective_incident_status running pending)
effective_incident_status-settles_example = effective_incident_status-settles running pending

succeeded_iff_example :
    (text_eq (effective_execution_status closed running queue_url) (js "succeeded") ≡ true) ↔ (
      (member (normalize_status running) succeeded_statuses ≡ true)
      ⊎ (member (normalize_status closed) closed_statuses ≡ true))
succeeded_iff_example = succeeded_iff closed running queue_url

abbrev reports : List Value
reports = running ∷ closed ∷ []

abbrev repeated_reports : List Value
repeated_reports = running ∷ arr (items (closed ∷ null ∷ [])) ∷ []

same_reports :
    (t : Text) → member t (status_texts reports) ≡ member t (status_texts repeated_reports)
unfolding statuses
same_reports t = refl

terminal_reported : meets terminal_priority (status_texts reports) ≡ true
unfolding statuses
terminal_reported = refl

closed_reported : member (js "closed") (status_texts reports) ≡ true
unfolding statuses
closed_reported = refl

canonical_incident_status_unordered_example :
    canonical_incident_status reports ≡ canonical_incident_status repeated_reports
canonical_incident_status_unordered_example =
    canonical_incident_status_unordered reports repeated_reports same_reports terminal_reported

abbrev spelled_out : Value
spelled_out = str (js "Awaiting User Approval")

abbrev approved : Value
approved = str (js "Approved")

approved_resolved : is_approval_resolved_status approved ≡ true
unfolding statuses
approved_resolved = refl

spelled_out_text : normalize_approval_status spelled_out ≡ js "awaiting user approval"
unfolding statuses
spelled_out_text = refl

spelled_out_pending : is_approval_pending_status spelled_out ≡ true
unfolding statuses
spelled_out_pending = refl

spelled_out_passes_gate_example :
    (is_approval_pending_status spelled_out ≡ true)
    × (effective_incident_status running spelled_out
        ≡ or_text (normalize_status running) (js "open"))
spelled_out_passes_gate_example = spelled_out_passes_gate running spelled_out spelled_out_text
