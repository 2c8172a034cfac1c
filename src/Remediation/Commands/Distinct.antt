-- ===== src/Remediation/Commands/Distinct.antt =====
-- appHelpers.jsx: the lines that `deriveExecutionCommands` returns.
use kaims_latest.Prelude.{
  ◌≡◌, refl, sym, ap, ◌∙◌, true, false, ◌||◌, List, [], ◌∷◌, ◌++◌, map, arith, Bool-cases, inl, inr,
  All, All-append,
}
use kaims_latest.Js.Text.{Text, js, nonempty, trim, lower, member, text_eq}
use kaims_latest.Js.Text.Equality.{text_eq_comm}
use kaims_latest.Js.Value.{Value, str, ◌!◌, text_of, object_or_empty, array_or_empty, is_object}
use kaims_latest.Timeline.Path.{decision_of}
use kaims_latest.Remediation.Plan.{Preview, build_preview_execution_plan}
use kaims_latest.Remediation.Commands.{
  Lines, Prefix, cmd, script, query, prefix_text, push_line, push_unique, push_values, push_plan,
  push_row, push_rows, push_preview, no_lines, recorded_lines, with_preview,
  derive_execution_commands, is_empty, explicit_commands,
}

-- No text occurs twice.
abbrev pub IsDistinct : List Text → Type 0
IsDistinct [] = Unit
IsDistinct (t ∷ ts) = (member t ts ≡ false) × IsDistinct ts

-- A line is a prefix and a token that is not empty.
pub record IsLabelled (line : Text) : Type 0 where
  pub prefix : Prefix
  pub token : Text
  pub given : nonempty token ≡ true
  pub made_of : line ≡ prefix_text prefix ++ token

pub record IsGood (st : Lines) : Type 0 where
  pub same : (k : Text) → member k st.seen ≡ member k (map lower st.derived)
  pub distinct : IsDistinct (map lower st.derived)
  pub labelled : All IsLabelled st.derived

pub member-snoc :
    (k : Text) (ts : List Text) (t : Text) → member k (ts ++ t ∷ []) ≡ (text_eq t k || member k ts)
unfolding member
member-snoc k [] t = refl
member-snoc k (u ∷ ts) t = ground (arith, member-snoc k ts t)

pub IsDistinct-snoc :
    (ts : List Text) (t : Text) → IsDistinct ts → member t ts ≡ false → IsDistinct (ts ++ t ∷ [])
unfolding member
IsDistinct-snoc [] t d h = (refl, tt)
IsDistinct-snoc (u ∷ ts) t d h = (
  ground (arith, member-snoc u ts t, text_eq_comm t u, h, d.0),
  IsDistinct-snoc ts t d.1 (ground (arith, h)),
)

map-snoc : (ts : List Text) (t : Text) → map lower (ts ++ t ∷ []) ≡ map lower ts ++ lower t ∷ []
map-snoc [] t = refl
map-snoc (u ∷ ts) t = ap (λ us. lower u ∷ us) (map-snoc ts t)

push_line-IsGood :
    (line : Text) (st : Lines) → IsLabelled line → IsGood st → IsGood (push_line line st)
unfolding push_line member
push_line-IsGood line st l g = elim (Bool-cases (member (lower line) st.seen)) [
  | inl old ↦ rw old g
  | inr new ↦ rw new (record {
    same = λ k.
        rw (map-snoc st.derived line, member-snoc k (map lower st.derived) (lower line))
          (ap (λ b. text_eq (lower line) k || b) (g.same k));
    distinct = rw (map-snoc st.derived line) (
        IsDistinct-snoc (map lower st.derived) (lower line) g.distinct
          (sym (g.same (lower line)) ∙ new));
    labelled = All-append IsLabelled st.derived (line ∷ []) g.labelled (l, tt);
  })
]

push_unique-IsGood : (p : Prefix) (v : Value) (st : Lines) → IsGood st → IsGood (push_unique p v st)
unfolding push_unique
push_unique-IsGood p v st g = elim (Bool-cases (nonempty (trim (text_of v)))) [
  | inl some_token ↦ rw some_token (
      push_line-IsGood (prefix_text p ++ trim (text_of v)) st
        (record { prefix = p; token = trim (text_of v); given = some_token; made_of = refl }) g)
  | inr none_token ↦ rw none_token g
]

push_values-IsGood :
    (p : Prefix) (vs : List Value) (st : Lines) → IsGood st → IsGood (push_values p vs st)
unfolding push_values
push_values-IsGood p [] st g = g
push_values-IsGood p (v ∷ vs) st g =
    push_values-IsGood p vs (push_unique p v st) (push_unique-IsGood p v st g)

push_plan-IsGood : (plan : Value) (st : Lines) → IsGood st → IsGood (push_plan plan st)
unfolding push_plan
push_plan-IsGood plan st g = elim (Bool-cases (is_object plan)) [
  | inl object ↦ rw object (
      push_values-IsGood query (array_or_empty (plan ! "validation_commands")) _ (
        push_values-IsGood query (array_or_empty (plan ! "queries")) _ (
          push_values-IsGood script (array_or_empty (plan ! "scripts")) _
            (push_values-IsGood cmd (array_or_empty (plan ! "commands")) st g))))
  | inr other ↦ rw other g
]

push_row-IsGood : (row : Value) (st : Lines) → IsGood st → IsGood (push_row row st)
unfolding push_row
push_row-IsGood row st g =
    let payload = object_or_empty (row ! "payload") in
    let params =
      object_or_empty (object_or_empty (payload ! "remediation_action") ! "parameters") in
    push_values-IsGood cmd (array_or_empty (payload ! "commands")) _ (
      push_values-IsGood cmd (array_or_empty (params ! "commands")) _ (
        push_plan-IsGood (params ! "execution_plan") _
          (push_plan-IsGood (payload ! "execution_plan") st g)))

push_rows-IsGood : (rows : List Value) (st : Lines) → IsGood st → IsGood (push_rows rows st)
unfolding push_rows
push_rows-IsGood [] st g = g
push_rows-IsGood (row ∷ rows) st g =
    push_rows-IsGood rows (push_row row st) (push_row-IsGood row st g)

push_preview-IsGood :
    (preview : Preview) (st : Lines) → IsGood st → IsGood (push_preview preview st)
unfolding push_preview
push_preview-IsGood preview st g = push_values-IsGood query (map str preview.plan.queries) _ (
    push_values-IsGood script (map str preview.plan.scripts) _ (
      push_values-IsGood cmd (map str preview.plan.commands) _ (
        push_unique-IsGood cmd (str (js "# recommended_action: " ++ preview.recommendation_text)) _
          (push_unique-IsGood cmd
            (str (js "Pending live executor - no command has been executed yet")) st g))))

no_lines-IsGood : IsGood no_lines
unfolding member
no_lines-IsGood = record { same = λ k. refl; distinct = tt; labelled = tt }

pub recorded_lines-IsGood : (w : Value) (rows : List Value) → IsGood (recorded_lines w rows)
unfolding recorded_lines
recorded_lines-IsGood w rows =
    let recommendation = object_or_empty (w ! "recommendation") in
    let action = object_or_empty (w ! "remediation_action") in
    let decision = decision_of w (object_or_empty (recommendation ! "metadata")) in
    let params = object_or_empty (action ! "parameters") in
    push_rows-IsGood rows _ (
      push_values-IsGood cmd (array_or_empty (params ! "commands")) _ (
        push_plan-IsGood (params ! "execution_plan") _ (
          push_values-IsGood cmd (explicit_commands recommendation action decision) no_lines
            no_lines-IsGood)))

with_preview-IsGood :
    (preview : Preview) (st : Lines) → IsGood st → IsGood (with_preview preview st)
with_preview-IsGood preview st g = elim (Bool-cases (is_empty st.derived)) [
  | inl nothing ↦ rw nothing (push_preview-IsGood preview st g)
  | inr lines ↦ rw lines g
]

-- The lines are different from one another, letter case aside, and each of them is a label of the
-- code with a token that is not empty.
pub derive_execution_commands-IsDistinct :
    (workflow trace_rows : Value)
    → IsDistinct (map lower (derive_execution_commands workflow trace_rows))
      × All IsLabelled (derive_execution_commands workflow trace_rows)
unfolding derive_execution_commands
derive_execution_commands-IsDistinct workflow trace_rows =
    let good =
      with_preview-IsGood (build_preview_execution_plan (object_or_empty workflow)) _
        (recorded_lines-IsGood (object_or_empty workflow) (array_or_empty trace_rows)) in
    (good.distinct, good.labelled)
