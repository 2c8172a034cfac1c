-- ===== src/Status/Approval.antt =====
-- appHelpers.jsx: the two classes of approval statuses, beside the gate of domain/incidentStatus.js.
use kaims_latest.Prelude.{
  ◌≡◌, refl, ◌⊎◌, Bool, true, false, ◌||◌, List, [], ◌∷◌, arith, Bool-cases, inl, inr,
}
use kaims_latest.Js.Text.{
  Text, js, nonempty, trim, trim_start, trim_end, is_space, lower, lower_unit, member, text_eq,
  replace_all,
}
use kaims_latest.Js.Text.Equality.{text_eq_iff, member-disjoint, disjoint, every, member-every}
use kaims_latest.Js.Value.{Value, str, truthy, text_of, to_text}
use kaims_latest.Status.{
  normalize_approval_status, is_approval_resolved_status, is_approval_pending_status,
  normalize_status, or_text, effective_incident_status, pending_approval_statuses,
}

abbrev resolved_tokens : List Text
resolved_tokens =
    js "approved"
    ∷ js "rejected"
    ∷ js "closed"
    ∷ js "resolved"
    ∷ js "failed"
    ∷ js "cancelled"
    ∷ js "canceled"
    ∷ []

abbrev pending_tokens : List Text
pending_tokens =
    js "awaiting_approval"
    ∷ js "pending"
    ∷ js "queued"
    ∷ js "awaiting user approval"
    ∷ js "standby"
    ∷ []

resolved-ne-pending : (t : Text) → member t resolved_tokens ≡ true → member t pending_tokens ≡ false
unfolding js disjoint
resolved-ne-pending t = member-disjoint t resolved_tokens pending_tokens refl

-- No value is read as a resolved approval and as a pending one.
pub resolved_not_pending :
    (value : Value)
    → is_approval_resolved_status value ≡ true
    → is_approval_pending_status value ≡ false
unfolding is_approval_resolved_status is_approval_pending_status
resolved_not_pending value h = ground (arith, resolved-ne-pending (normalize_approval_status value))

-- `normalizeStatus` goes on from the trimmed lower-case text that `normalizeApprovalStatus` returns.
abbrev underscored : Text → Text
underscored t = replace_all b' ' b'_' (replace_all b'-' b'_' t)

abbrev spelled_out : Text
spelled_out = js "awaiting user approval"

gated_or_spelled_out : Text → Bool
gated_or_spelled_out t = member (underscored t) pending_approval_statuses || text_eq t spelled_out

pending_tokens-gated : every gated_or_spelled_out pending_tokens ≡ true
unfolding gated_or_spelled_out every js member replace_all
pending_tokens-gated = refl

spelled_out-pending : member spelled_out pending_tokens ≡ true
unfolding js member
spelled_out-pending = refl

spelled_out-not_gated : member (underscored spelled_out) pending_approval_statuses ≡ false
unfolding js member replace_all
spelled_out-not_gated = refl

spelled_out-nonempty : nonempty spelled_out ≡ true
unfolding js
spelled_out-nonempty = refl

normalize_status-underscored :
    (v : Value) → normalize_status v ≡ underscored (normalize_approval_status v)
unfolding normalize_status normalize_approval_status
normalize_status-underscored v = refl

-- A status that the approval views read as pending closes the gate of `effectiveIncidentStatus`,
-- unless it is "awaiting user approval".
pub pending_gated_or_spelled_out :
    (value : Value)
    → is_approval_pending_status value ≡ true
    → (member (normalize_status value) pending_approval_statuses ≡ true)
      ⊎ (normalize_approval_status value ≡ js "awaiting user approval")
unfolding is_approval_pending_status gated_or_spelled_out
pending_gated_or_spelled_out value h =
    let t = normalize_approval_status value in
    let passed =
      member-every gated_or_spelled_out t pending_tokens pending_tokens-gated (ground arith) in
    rw (normalize_status-underscored value)
      (ground (arith, passed, text_eq_iff t (js "awaiting user approval")))

-- "awaiting user approval" is pending for the approval views, and yet the incident shows its own
-- status as if no approval were pending.
pub spelled_out_passes_gate :
    (incident approval : Value)
    → normalize_approval_status approval ≡ js "awaiting user approval"
    → (is_approval_pending_status approval ≡ true)
      × (effective_incident_status incident approval
          ≡ or_text (normalize_status incident) (js "open"))
unfolding is_approval_pending_status effective_incident_status
spelled_out_passes_gate incident approval e =
    let f = spelled_out-not_gated in
    (
      rw e (ground (arith, spelled_out-pending, spelled_out-nonempty)),
      rw (normalize_status-underscored approval, e, f) (ground arith),
    )

-- A pending approval has a status: no falsy value is read as pending.
pub pending-truthy : (value : Value) → is_approval_pending_status value ≡ true → truthy value ≡ true
unfolding is_approval_pending_status normalize_approval_status text_of trim trim_start trim_end
    lower
pending-truthy value h = elim (Bool-cases (truthy value)) [
  | inl t ↦ t
  | inr f ↦ ground (arith, f, h)
]

pub pending_text-pending : is_approval_pending_status (str (js "pending")) ≡ true
unfolding is_approval_pending_status normalize_approval_status js text_of truthy to_text trim
    trim_start trim_end is_space lower lower_unit member text_eq
pending_text-pending = refl
