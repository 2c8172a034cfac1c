-- ===== src/Timeline/Sections.antt =====
-- appHelpers.jsx: `buildDynamicFlowSections`.
pub mod Grouping
use kaims_latest.Prelude.{
  ℕ, suc, ◌+◌, ◌≡◌, refl, ap, ◌∙◌, sym, Bool, true, false, List, [], ◌∷◌, ◌++◌, map, any, filter,
  length, Option, if◌then◌else◌, All, arith, zero,
}
use kaims_latest.Js.Text.{Text, js, text_eq}
use kaims_latest.Js.Value.{Value, null, array_or_empty, truthy, decimal}
use kaims_latest.Timeline.Rows.{
  FlowStage, classify_flow_stage_from_row, timeline_row_has_error, timeline_row_status,
  infer_timeline_next_step,
}

pub record Section : Type 0 where
  pub key : Text
  pub kind : Text
  pub label : Text
  pub short : Text
  pub rows : List Value
  pub start_index : ℕ

abbrev pub open_section : Value → ℕ → ℕ → Section
open_section row index sections =
    let meta = classify_flow_stage_from_row row in
    record {
      key = meta.kind ++ js "-" ++ decimal sections;
      kind = meta.kind;
      label = meta.label;
      short = meta.short;
      rows = row ∷ [];
      start_index = index;
    }

-- One round of the loop. The sections are kept newest first, since only the last one is looked at.
unfoldable pub add_row : Value → ℕ → List Section → List Section
add_row row index [] = open_section row index 0 ∷ []
add_row row index (current ∷ done) =
    if text_eq current.kind (classify_flow_stage_from_row row).kind
    then record current { rows = current.rows ++ row ∷ [] } ∷ done
    else open_section row index (length (current ∷ done)) ∷ current ∷ done

unfoldable pub add_rows : List Value → ℕ → List Section → List Section
unfolding add_row
add_rows [] index sections = sections
add_rows (row ∷ rows) index sections = add_rows rows (suc index) (add_row row index sections)

abbrev pub oldest_first : List Section → List Section
oldest_first [] = []
oldest_first (section ∷ sections) = oldest_first sections ++ section ∷ []

-- `rows[index] || null` on rows without falsy values.
abbrev pub row_at : List Value → ℕ → Value
row_at [] index = null
row_at (row ∷ rows) zero = row
row_at (row ∷ rows) (suc index) = row_at rows index

abbrev pub last_row_of : List Value → Value
last_row_of [] = null
last_row_of (row ∷ []) = row
last_row_of (row ∷ next ∷ rows) = last_row_of (next ∷ rows)

pub record FlowSection : Type 0 where
  pub section : Section
  pub last_row : Value
  pub next_row : Value
  pub status : Text
  pub next_step : Text

unfoldable pub section_status : List Value → Text
section_status rows =
    if any timeline_row_has_error rows
    then js "failed"
    else if any (λ row. text_eq (timeline_row_status row null) (js "fallback")) rows
    then js "fallback"
    else js "observed"

abbrev pub safe_rows : Value → List Value
safe_rows rows = filter truthy (array_or_empty rows)

module _ (json : Text → Option Value) where
  unfoldable pub finish_section : List Value → Section → FlowSection
  finish_section rows section =
      let last_row = last_row_of section.rows in
      let next_row = row_at rows (section.start_index + length section.rows) in
      record {
        section = section;
        last_row = last_row;
        next_row = next_row;
        status = section_status section.rows;
        next_step = infer_timeline_next_step json last_row next_row;
      }

  unfoldable pub build_dynamic_flow_sections : Value → List FlowSection
  unfolding add_rows finish_section
  build_dynamic_flow_sections rows =
      map (finish_section (safe_rows rows)) (oldest_first (add_rows (safe_rows rows) 0 []))
