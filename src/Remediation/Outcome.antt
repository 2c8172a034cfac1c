-- ===== src/Remediation/Outcome.antt =====
-- appHelpers.jsx: `remediationOutcomeFromAction`.
use kaims_latest.Prelude.{
  ◌≡◌, ◌↔◌, refl, Bool, true, false, not, ◌&&◌, ◌||◌, List, [], ◌∷◌, ◌++◌, Option, none, some,
  if◌then◌else◌, arith, ◌==◌,
}
use kaims_latest.Js.Text.{Text, js, nonempty, trim, lower, member, text_eq}
use kaims_latest.Js.Value.{Value, str, ◌!◌, ◌or◌, text_of, object_or_empty}
use kaims_latest.Js.Regex.{Re, seq, any_of, literal, test}
use kaims_latest.Status.{or_text}
use kaims_latest.Alerts.Scope.{token_of}
use kaims_latest.Timeline.Rows.{mentions}

pub record RemediationOutcome : Type 0 where
  pub status : Text
  pub title : Text
  pub detail : Text
  pub action_type : Value
  pub target : Value
  pub automatic_policy_blocked : Bool

abbrev pub failed_outcomes : List Text
failed_outcomes =
    js "failed"
    ∷ js "dispatch_failed"
    ∷ js "execution_failed"
    ∷ js "validation_failed"
    ∷ js "rollback_failed"
    ∷ js "timed_out"
    ∷ []

unfoldable pub outcome_title : Text → Bool → Text
outcome_title status blocked =
    if text_eq status (js "succeeded")
    then js "Remediation executed successfully"
    else if blocked
    then js "Automatic execution deferred for human approval"
    else if text_eq status (js "skipped")
    then js "Remediation was not executed"
    else if member status failed_outcomes
    then js "Remediation execution failed"
    else if text_eq status (js "executor_accepted")
    then js "Executor accepted the remediation"
    else if text_eq status (js "dispatching")
    then js "Dispatching remediation"
    else if text_eq status (js "verifying")
    then js "Verifying recovery"
    else if text_eq status (js "rolled_back")
    then js "Remediation rolled back"
    else js "Remediation status"

-- `/no real .*executor is configured/` on a text without letter case; `.` is no line end.
unfoldable pub missing_executor : Re
unfolding js
missing_executor = seq (literal (js "no real ")) (
    seq (any_of (λ c. not (c == 10 || c == 13 || c == 8232 || c == 8233)))
      (literal (js "executor is configured")))

unfoldable pub outcome_detail : Text → Text → Bool → Text
unfolding missing_executor
outcome_detail status reason blocked =
    let plain =
      or_text reason
        (js "Remediation engine returned status " ++ or_text status (js "unknown") ++ js ".") in
    let detail =
      if blocked
      then or_text reason (js "Automatic execution did not meet the policy threshold.")
        ++ js " Complete dry run and human approval, then use Execute approved plan."
      else plain in
    if test missing_executor (lower detail)
      || mentions (lower detail) (js "configure a connector executor" ∷ [])
    then detail
      ++ js
          " Add a real remediation connector with executor settings and secret_ref, or edit the plan to use the approved local triage script."
    else detail

unfoldable pub outcome_reason : Value → Text
outcome_reason action =
    let parameters = object_or_empty (action ! "parameters") in
    let execution_result = object_or_empty (parameters ! "execution_result") in
    or_text (trim (text_of (action ! "error"))) (
      or_text (trim (text_of (execution_result ! "stderr" or execution_result ! "error"))) (
        or_text (trim (text_of (action ! "output")))
          (trim (text_of (execution_result ! "stdout")))))

unfoldable pub is_automatic_policy_blocked : Value → Text → Bool
is_automatic_policy_blocked action reason =
    text_eq (token_of (action ! "action_type")) (js "policy-blocked")
    || mentions (lower reason) (js "auto execution blocked" ∷ js "automatic execution blocked" ∷ [])

unfoldable pub remediation_outcome_from_action : Value → Option RemediationOutcome
unfolding outcome_title outcome_detail outcome_reason is_automatic_policy_blocked
remediation_outcome_from_action action =
    let safe_action = object_or_empty action in
    let status = token_of (safe_action ! "status") in
    let reason = outcome_reason safe_action in
    let blocked = is_automatic_policy_blocked safe_action reason in
    if not (nonempty status) && not (nonempty reason)
    then none
    else some (record {
      status = or_text status (js "unknown");
      title = outcome_title status blocked;
      detail = outcome_detail status reason blocked;
      action_type = safe_action ! "action_type" or str (js "-");
      target = safe_action ! "target" or str (js "-");
      automatic_policy_blocked = blocked;
    })

abbrev success_title : Text
success_title = js "Remediation executed successfully"

-- What an outcome says of a success.
abbrev pub claims_success : Option RemediationOutcome → Bool
claims_success none = false
claims_success (some o) = text_eq o.title success_title

titles :
    (text_eq (js "Automatic execution deferred for human approval") success_title ≡ false)
    × (text_eq (js "Remediation was not executed") success_title ≡ false)
    × (text_eq (js "Remediation execution failed") success_title ≡ false)
    × (text_eq (js "Executor accepted the remediation") success_title ≡ false)
    × (text_eq (js "Dispatching remediation") success_title ≡ false)
    × (text_eq (js "Verifying recovery") success_title ≡ false)
    × (text_eq (js "Remediation rolled back") success_title ≡ false)
    × (text_eq (js "Remediation status") success_title ≡ false)
    × (text_eq success_title success_title ≡ true)
unfolding js text_eq
titles = (refl, refl, refl, refl, refl, refl, refl, refl, refl)

outcome_title-success :
    (status : Text) (blocked : Bool)
    → text_eq (outcome_title status blocked) success_title ≡ text_eq status (js "succeeded")
unfolding outcome_title
outcome_title-success status blocked = ground (arith, titles)

succeeded-nonempty :
    (status : Text) → text_eq status (js "succeeded") ≡ true → nonempty status ≡ true
unfolding js text_eq
succeeded-nonempty [] h = ground (arith, h)
succeeded-nonempty (c ∷ s) h = refl

claims_success-if :
    (silent : Bool) (o : RemediationOutcome)
    → claims_success (if silent then none else some o)
      ≡ (not silent && text_eq o.title success_title)
claims_success-if true o = refl
claims_success-if false o = refl

-- A remediation is reported as executed exactly if its action says that it succeeded: no output and
-- no error text makes it look so.
pub claims_success_iff :
    (action : Value)
    → (claims_success (remediation_outcome_from_action action) ≡ true)
      ↔ (text_eq (token_of (object_or_empty action ! "status")) (js "succeeded") ≡ true)
unfolding remediation_outcome_from_action
claims_success_iff action =
    let safe_action = object_or_empty action in
    let status = token_of (safe_action ! "status") in
    let reason = outcome_reason safe_action in
    ground (
      arith,
      claims_success-if (not (nonempty status) && not (nonempty reason)) _,
      outcome_title-success status (is_automatic_policy_blocked safe_action reason),
      succeeded-nonempty status,
    )
