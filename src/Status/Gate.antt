-- ===== src/Status/Gate.antt =====
-- domain/incidentStatus.js: `effectiveIncidentStatus` as a gate on execution.
use kaims_latest.Prelude.{
  ◌⊎◌, ℕ, ◌≡◌, Bool-cases, inl, inr, refl, Bool, true, false, not, ◌&&◌, [], ◌∷◌, map, arith,
  if◌then◌else◌, ap, ◌∙◌,
}
use kaims_latest.Js.Text.{
  Text, js, nonempty, trim, lower, lower_unit, is_space, member, replace_all, replace_unit,
}
use kaims_latest.Js.Text.Equality.{member-disjoint, disjoint}
use kaims_latest.Js.Text.Trim.{KeepsInk, trim-map-trim}
use kaims_latest.Js.Value.{Value, str, text_of, truthy, to_text}
use kaims_latest.Status.{
  normalize_status, or_text, effective_incident_status, terminal_incident_statuses,
  pending_approval_statuses,
}

text_of-str : (s : Text) → text_of (str s) ≡ s
unfolding text_of truthy to_text
text_of-str [] = refl
text_of-str (c ∷ s) = refl

status_unit : ℕ → ℕ
unfolding lower_unit
status_unit c = replace_unit b' ' b'_' (replace_unit b'-' b'_' (lower_unit c))

units-eq-map :
    (s : Text) → replace_all b' ' b'_' (replace_all b'-' b'_' (lower s)) ≡ map status_unit s
unfolding status_unit replace_all lower
units-eq-map [] = refl
units-eq-map (c ∷ s) = ap (◌∷◌ (status_unit c)) (units-eq-map s)

normalize_status-eq-map : (v : Value) → normalize_status v ≡ map status_unit (trim (text_of v))
unfolding normalize_status
normalize_status-eq-map v = units-eq-map (trim (text_of v))

status_unit-KeepsInk : KeepsInk status_unit
unfolding status_unit is_space replace_unit
status_unit-KeepsInk c h = ground arith

status_unit_idem : (c : ℕ) → status_unit (status_unit c) ≡ status_unit c
unfolding status_unit replace_unit
status_unit_idem c = ground arith

map-status_unit_idem : (s : Text) → map status_unit (map status_unit s) ≡ map status_unit s
map-status_unit_idem [] = refl
map-status_unit_idem (c ∷ s) = cc (status_unit_idem c, map-status_unit_idem s)

-- Normalising a status that is already normal changes nothing, whatever value it came from.
pub normalize_status_idempotent :
    (v : Value) → normalize_status (str (normalize_status v)) ≡ normalize_status v
normalize_status_idempotent v = simp (
  normalize_status-eq-map,
  text_of-str,
  trim-map-trim status_unit status_unit-KeepsInk,
  map-status_unit_idem,
)

-- The normal form of a status with a default for the empty one.
abbrev pub incident_of : Value → Text
incident_of v = or_text (normalize_status v) (js "open")

pending-ne-terminal :
    (t : Text)
    → member t pending_approval_statuses ≡ true
    → member t terminal_incident_statuses ≡ false
unfolding js disjoint
pending-ne-terminal t = member-disjoint t pending_approval_statuses terminal_incident_statuses refl

awaiting-member : member (js "awaiting_approval") pending_approval_statuses ≡ true
unfolding js member
awaiting-member = refl

-- No approval status makes an incident terminal, and none reopens a terminal one.
terminal_unchanged :
    (incident approval : Value)
    → member (effective_incident_status incident approval) terminal_incident_statuses
      ≡ member (or_text (normalize_status incident) (js "open")) terminal_incident_statuses
unfolding effective_incident_status
terminal_unchanged incident approval =
    ground (arith, pending-ne-terminal (js "awaiting_approval") awaiting-member)

-- The gate on normal texts.
gate : Text → Text → Text
gate incident approval =
    if not (member incident terminal_incident_statuses) && member approval pending_approval_statuses
    then js "awaiting_approval"
    else incident

gate_idem : (s t : Text) → gate (gate s t) t ≡ gate s t
unfolding gate
gate_idem s t = ground (arith, pending-ne-terminal (js "awaiting_approval") awaiting-member)

incident_of_idem : (v : Value) → incident_of (str (incident_of v)) ≡ incident_of v
incident_of_idem v = elim (Bool-cases (nonempty (normalize_status v))) [
  | inl full ↦ simp (full, normalize_status_idempotent)
  | inr none_given ↦ rw none_given (
      unfold js normalize_status text_of truthy to_text trim lower replace_all replace_unit
        lower_unit in
      refl)
]

awaiting-normal : incident_of (str (js "awaiting_approval")) ≡ js "awaiting_approval"
unfolding js normalize_status text_of truthy to_text trim lower replace_all
awaiting-normal = refl

normal_if :
    (b : Bool) (s t : Text)
    → incident_of (str s) ≡ s
    → incident_of (str t) ≡ t
    → incident_of (str (if b then s else t)) ≡ (if b then s else t)
normal_if true s t p q = p
normal_if false s t p q = q

gate-normal :
    (v : Value) (t : Text) → incident_of (str (gate (incident_of v) t)) ≡ gate (incident_of v) t
unfolding gate
gate-normal v t = normal_if _ _ _ awaiting-normal (incident_of_idem v)

-- Applying the gate to a status that it returned, under the same approval, changes nothing.
effective_incident_status_idempotent :
    (incident approval : Value)
    → effective_incident_status (str (effective_incident_status incident approval)) approval
      ≡ effective_incident_status incident approval
unfolding effective_incident_status gate
effective_incident_status_idempotent incident approval =
    ap (λ s. gate s (normalize_status approval)) (gate-normal incident (normalize_status approval))
    ∙ gate_idem (incident_of incident) (normalize_status approval)

-- The status shown is the incident's own one, or "awaiting_approval" where the approval is pending and
-- the incident is not terminal.
gate-own :
    (s t : Text)
    → (gate s t ≡ s)
      ⊎ ((member t pending_approval_statuses ≡ true)
          × (member s terminal_incident_statuses ≡ false)
          × (gate s t ≡ js "awaiting_approval"))
unfolding gate
gate-own s t =
    elim (Bool-cases
      (not (member s terminal_incident_statuses) && member t pending_approval_statuses)) [
        | inl shut ↦ inr (ground (arith, shut), ground (arith, shut), rw shut refl)
        | inr apart ↦ inl (rw apart refl)
      ]

-- The condition under which a status is masked: exactly a pending approval of an incident that is not
-- terminal, where the one shown is "awaiting_approval".
gate-pending :
    (s t : Text)
    → (member t pending_approval_statuses ≡ false)
      ⊎ (member s terminal_incident_statuses ≡ true)
      ⊎ (gate s t ≡ js "awaiting_approval")
unfolding gate
gate-pending s t = elim (Bool-cases (member t pending_approval_statuses)) [
  | inr settled ↦ inl settled
  | inl waiting ↦ elim (Bool-cases (member s terminal_incident_statuses)) [
    | inl over ↦ inr (inl over)
    | inr live ↦ inr (inr (rw (waiting, live) refl))
  ]
]

-- The status shown, for any incident and any approval: it is terminal exactly where the incident is;
-- it is the incident's own one, or else "awaiting_approval", then only for an incident that is not
-- terminal under an approval whose status is one of the pending ones, and always for these; and
-- applying the gate to it again, under the same approval, changes nothing.
pub effective_incident_status-settles :
    (incident approval : Value)
    → (member (effective_incident_status incident approval) terminal_incident_statuses
        ≡ member (incident_of incident) terminal_incident_statuses)
      × ((effective_incident_status incident approval ≡ incident_of incident)
          ⊎ ((member (normalize_status approval) pending_approval_statuses ≡ true)
              × (member (incident_of incident) terminal_incident_statuses ≡ false)
              × (effective_incident_status incident approval ≡ js "awaiting_approval")))
      × ((member (normalize_status approval) pending_approval_statuses ≡ false)
          ⊎ (member (incident_of incident) terminal_incident_statuses ≡ true)
          ⊎ (effective_incident_status incident approval ≡ js "awaiting_approval"))
      × (effective_incident_status (str (effective_incident_status incident approval)) approval
          ≡ effective_incident_status incident approval)
unfolding effective_incident_status gate
effective_incident_status-settles incident approval = (
  terminal_unchanged incident approval,
  gate-own (incident_of incident) (normalize_status approval),
  gate-pending (incident_of incident) (normalize_status approval),
  effective_incident_status_idempotent incident approval,
)
