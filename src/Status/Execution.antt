-- ===== src/Status/Execution.antt =====
-- domain/incidentStatus.js: `effectiveExecutionStatus`, which evidence wins.
use kaims_latest.Prelude.{◌≡◌, refl, ◌⊎◌, ◌↔◌, true, false, List, [], ◌∷◌, arith}
use kaims_latest.Js.Text.{Text, js, member, text_eq}
use kaims_latest.Js.Text.Equality.{text_eq_iff}
use kaims_latest.Js.Value.{Value}
use kaims_latest.Status.{
  normalize_status, effective_execution_status, succeeded_statuses, failed_statuses,
  active_statuses,
}

abbrev pub closed_statuses : List Text
closed_statuses = js "closed" ∷ js "resolved" ∷ []

succeeded-not_failed : member (js "succeeded") failed_statuses ≡ false
unfolding js member
succeeded-not_failed = refl

succeeded-not_active : member (js "succeeded") active_statuses ≡ false
unfolding js member
succeeded-not_active = refl

succeeded-member : member (js "succeeded") succeeded_statuses ≡ true
unfolding js member
succeeded-member = refl

fixed_texts :
    (text_eq (js "executor_accepted") (js "succeeded") ≡ false)
    × (text_eq (js "failed") (js "succeeded") ≡ false)
unfolding js text_eq
fixed_texts = (refl, refl)

is_succeeded : (t : Text) → text_eq t (js "succeeded") ≡ true → member t succeeded_statuses ≡ true
is_succeeded t h = rw ((text_eq_iff t (js "succeeded")).0 h) succeeded-member

module _ (incident remediation queue_url : Value) where
  -- An execution shows as succeeded exactly when its own status says so or its incident is closed
  -- or resolved: no queue URL and no stale failure changes that.
  pub succeeded_iff :
      (text_eq (effective_execution_status incident remediation queue_url) (js "succeeded") ≡ true)
      ↔ ((member (normalize_status remediation) succeeded_statuses ≡ true)
          ⊎ (member (normalize_status incident) closed_statuses ≡ true))
  unfolding effective_execution_status
  succeeded_iff = ground (
    arith,
    fixed_texts,
    is_succeeded (normalize_status remediation),
    text_eq_iff (js "succeeded") (js "succeeded"),
  )
