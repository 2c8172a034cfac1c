-- ===== src/Remediation/Commands/Shown.antt =====
-- appHelpers.jsx: `deriveExecutionCommands` always has something to show.
use kaims_latest.Prelude.{
  ◌≤◌, ◌<◌, ◌≡◌, refl, ◌∙◌, true, false, List, [], ◌∷◌, ◌++◌, map, arith, Bool-cases, inl, inr,
  length, length-append,
}
use kaims_latest.Js.Text.{Text, js, nonempty, trim, trim_start, trim_end, is_space, lower, member}
use kaims_latest.Js.Value.{Value, str, text_of, object_or_empty, array_or_empty}
use kaims_latest.Remediation.Plan.{Preview, build_preview_execution_plan}
use kaims_latest.Remediation.Commands.{
  Lines, Prefix, cmd, script, query, prefix_text, push_line, push_unique, push_values, push_preview,
  with_preview, derive_execution_commands, is_empty,
}
use kaims_latest.Remediation.Commands.Distinct.{IsGood, recorded_lines-IsGood}

push_unique-grows :
    (p : Prefix) (v : Value) (st : Lines) → length st.derived ≤ length (push_unique p v st).derived
unfolding push_unique push_line
push_unique-grows p v st =
    ground (arith, length-append st.derived ((prefix_text p ++ trim (text_of v)) ∷ []))

push_values-grows :
    (p : Prefix) (vs : List Value) (st : Lines)
    → length st.derived ≤ length (push_values p vs st).derived
unfolding push_values
push_values-grows p [] st = omega arith
push_values-grows p (v ∷ vs) st =
    omega (arith, push_unique-grows p v st, push_values-grows p vs (push_unique p v st))

abbrev pending_text : Text
pending_text = js "Pending live executor - no command has been executed yet"

pending_token : nonempty (trim (text_of (str pending_text))) ≡ true
unfolding js trim trim_start trim_end is_space text_of
pending_token = refl

push_line-new :
    (line : Text) (st : Lines)
    → member (lower line) st.seen ≡ false
    → 0 < length (push_line line st).derived
unfolding push_line
push_line-new line st h = ground (arith, h, length-append st.derived (line ∷ []))

push_unique-pending :
    (st : Lines)
    → ((k : Text) → member k st.seen ≡ false)
    → 0 < length (push_unique cmd (str pending_text) st).derived
unfolding push_unique
push_unique-pending st h = rw pending_token (push_line-new _ st (h _))

push_preview-shown :
    (preview : Preview) (st : Lines)
    → ((k : Text) → member k st.seen ≡ false)
    → 0 < length (push_preview preview st).derived
unfolding push_preview
push_preview-shown preview st h =
    let first = push_unique cmd (str pending_text) st in
    let second =
      push_unique cmd (str (js "# recommended_action: " ++ preview.recommendation_text)) first in
    let third = push_values cmd (map str preview.plan.commands) second in
    let fourth = push_values script (map str preview.plan.scripts) third in
    omega (
      arith,
      push_unique-pending st h,
      push_unique-grows cmd (str (js "# recommended_action: " ++ preview.recommendation_text))
          first,
      push_values-grows cmd (map str preview.plan.commands) second,
      push_values-grows script (map str preview.plan.scripts) third,
      push_values-grows query (map str preview.plan.queries) fourth,
    )

member-no_lines : (ts : List Text) (k : Text) → is_empty ts ≡ true → member k (map lower ts) ≡ false
unfolding member
member-no_lines [] k h = refl
member-no_lines (t ∷ ts) k h = ground (arith, h)

length-lines : (ts : List Text) → is_empty ts ≡ false → 0 < length ts
length-lines [] h = ground (arith, h)
length-lines (t ∷ ts) h = omega arith

nothing-seen :
    (st : Lines) → IsGood st → is_empty st.derived ≡ true → (k : Text) → member k st.seen ≡ false
nothing-seen st g h k = g.same k ∙ member-no_lines st.derived k h

with_preview-shown :
    (preview : Preview) (st : Lines) → IsGood st → 0 < length (with_preview preview st).derived
with_preview-shown preview st g = elim (Bool-cases (is_empty st.derived)) [
  | inl nothing ↦ rw nothing (push_preview-shown preview st (nothing-seen st g nothing))
  | inr lines ↦ rw lines (length-lines st.derived lines)
]

-- There is always a line: where nothing was recorded, the preview of the plan is shown.
pub derive_execution_commands-shown :
    (workflow trace_rows : Value) → 0 < length (derive_execution_commands workflow trace_rows)
unfolding derive_execution_commands
derive_execution_commands-shown workflow trace_rows =
    with_preview-shown (build_preview_execution_plan (object_or_empty workflow)) _
      (recorded_lines-IsGood (object_or_empty workflow) (array_or_empty trace_rows))
