-- ===== src/Remediation/Commands.antt =====
-- appHelpers.jsx: `deriveExecutionCommands`.
pub mod Distinct
pub mod Shown
use kaims_latest.Prelude.{Bool, true, false, not, List, [], ◌∷◌, ◌++◌, map, if◌then◌else◌}
use kaims_latest.Js.Text.{Text, js, nonempty, trim, lower, member}
use kaims_latest.Js.Value.{
  Value, str, ◌!◌, text_of, object_or_empty, array_or_empty, is_array, is_object,
}
use kaims_latest.Timeline.Path.{decision_of}
use kaims_latest.Remediation.Plan.{Preview, build_preview_execution_plan}

-- The set and the array that `pushUnique` writes to.
pub record Lines : Type 0 where
  pub seen : List Text
  pub derived : List Text

-- The three prefixes that the code passes.
pub data Prefix : Type 0 where
  cmd script query : Prefix

abbrev pub prefix_text : Prefix → Text
prefix_text cmd = js "cmd: "
prefix_text script = js "script: "
prefix_text query = js "query: "

unfoldable pub push_line : Text → Lines → Lines
push_line line st =
    if member (lower line) st.seen
    then st
    else record { seen = lower line ∷ st.seen; derived = st.derived ++ line ∷ [] }

unfoldable pub push_unique : Prefix → Value → Lines → Lines
unfolding push_line
push_unique prefix value st =
    let token = trim (text_of value) in
    if not (nonempty token) then st else push_line (prefix_text prefix ++ token) st

-- `values.forEach((item) => pushUnique(item, prefix))`
unfoldable pub push_values : Prefix → List Value → Lines → Lines
unfolding push_unique
push_values prefix [] st = st
push_values prefix (v ∷ vs) st = push_values prefix vs (push_unique prefix v st)

unfoldable pub push_plan : Value → Lines → Lines
unfolding push_values
push_plan plan st =
    if not (is_object plan)
    then st
    else push_values query (array_or_empty (plan ! "validation_commands")) (
        push_values query (array_or_empty (plan ! "queries")) (
          push_values script (array_or_empty (plan ! "scripts"))
            (push_values cmd (array_or_empty (plan ! "commands")) st)))

unfoldable pub push_row : Value → Lines → Lines
unfolding push_plan push_values
push_row row st =
    let payload = object_or_empty (row ! "payload") in
    let payload_action = object_or_empty (payload ! "remediation_action") in
    let payload_params = object_or_empty (payload_action ! "parameters") in
    push_values cmd (array_or_empty (payload ! "commands")) (
      push_values cmd (array_or_empty (payload_params ! "commands"))
        (push_plan (payload_params ! "execution_plan") (push_plan (payload ! "execution_plan") st)))

unfoldable pub push_rows : List Value → Lines → Lines
unfolding push_row
push_rows [] st = st
push_rows (row ∷ rows) st = push_rows rows (push_row row st)

-- What is shown when nothing was recorded.
unfoldable pub push_preview : Preview → Lines → Lines
unfolding push_values push_unique
push_preview preview st = push_values query (map str preview.plan.queries) (
    push_values script (map str preview.plan.scripts) (
      push_values cmd (map str preview.plan.commands) (
        push_unique cmd (str (js "# recommended_action: " ++ preview.recommendation_text)) (
          push_unique cmd (str (js "Pending live executor - no command has been executed yet"))
            st))))

unfoldable pub explicit_commands : Value → Value → Value → List Value
explicit_commands recommendation remediation_action decision =
    if is_array (recommendation ! "commands")
    then array_or_empty (recommendation ! "commands")
    else if is_array (remediation_action ! "commands")
    then array_or_empty (remediation_action ! "commands")
    else array_or_empty (decision ! "commands")

abbrev pub no_lines : Lines
no_lines = record { seen = []; derived = [] }

abbrev pub is_empty : List Text → Bool
is_empty [] = true
is_empty (t ∷ ts) = false

-- The lines that were recorded with the workflow and its trace.
unfoldable pub recorded_lines : Value → List Value → Lines
unfolding explicit_commands push_values push_plan push_rows
recorded_lines safe_workflow trace_rows =
    let recommendation = object_or_empty (safe_workflow ! "recommendation") in
    let recommendation_metadata = object_or_empty (recommendation ! "metadata") in
    let remediation_action = object_or_empty (safe_workflow ! "remediation_action") in
    let decision = decision_of safe_workflow recommendation_metadata in
    let remediation_params = object_or_empty (remediation_action ! "parameters") in
    push_rows trace_rows (
      push_values cmd (array_or_empty (remediation_params ! "commands")) (
        push_plan (remediation_params ! "execution_plan") (
          push_values cmd (explicit_commands recommendation remediation_action decision) no_lines)))

abbrev pub with_preview : Preview → Lines → Lines
with_preview preview st = if is_empty st.derived then push_preview preview st else st

unfoldable pub derive_execution_commands : Value → Value → List Text
unfolding recorded_lines
derive_execution_commands workflow trace_rows =
    let safe_workflow = object_or_empty workflow in
    (with_preview (build_preview_execution_plan safe_workflow)
      (recorded_lines safe_workflow (array_or_empty trace_rows))).derived
