-- ===== src/Timeline/Sections/Grouping.antt =====
-- appHelpers.jsx: the sections of `buildDynamicFlowSections` group the rows.
use mathlib.Core.List.{append_assoc, append-nil}
use kaims_latest.Prelude.{
  ℕ, suc, ◌<◌, ◌≡◌, refl, ap, ◌∙◌, sym, true, false, List, [], ◌∷◌, ◌++◌, map, length, Option, All,
  arith, Bool-cases, inl, inr, All-append, length-append,
}
use kaims_latest.Js.Text.{Text, text_eq}
use kaims_latest.Js.Text.Equality.{text_eq_refl}
use kaims_latest.Js.Value.{Value}
use kaims_latest.Timeline.Rows.{classify_flow_stage_from_row}
use kaims_latest.Timeline.Sections.{
  Section, FlowSection, open_section, add_row, add_rows, oldest_first, safe_rows, finish_section,
  build_dynamic_flow_sections,
}

abbrev pub kind_of : Value → Text
kind_of row = (classify_flow_stage_from_row row).kind

-- The rows of the sections, in order.
abbrev pub rows_of : List Section → List Value
rows_of [] = []
rows_of (s ∷ ss) = s.rows ++ rows_of ss

abbrev pub sections_of : List FlowSection → List Section
sections_of fs = map (λ f. f.section) fs

rows_of-append : (ss ts : List Section) → rows_of (ss ++ ts) ≡ rows_of ss ++ rows_of ts
rows_of-append [] ts = refl
rows_of-append (s ∷ ss) ts =
    rw (rows_of-append ss ts) (sym (append_assoc s.rows (rows_of ss) (rows_of ts)))

rows_of-oldest_first :
    (s : Section) (ss : List Section)
    → rows_of (oldest_first (s ∷ ss)) ≡ rows_of (oldest_first ss) ++ s.rows
rows_of-oldest_first s ss =
    rows_of-append (oldest_first ss) (s ∷ [])
    ∙ ap (λ ys. rows_of (oldest_first ss) ++ ys) (append-nil s.rows)

rows_of-add_row :
    (row : Value) (index : ℕ) (ss : List Section)
    → rows_of (oldest_first (add_row row index ss)) ≡ rows_of (oldest_first ss) ++ row ∷ []
unfolding add_row
rows_of-add_row row index [] = refl
rows_of-add_row row index (s ∷ ss) = elim (Bool-cases (text_eq s.kind (kind_of row))) [
  | inl same ↦
      rw (same, rows_of-oldest_first s ss)
        (rows_of-oldest_first _ ss
          ∙ sym (append_assoc (rows_of (oldest_first ss)) s.rows (row ∷ [])))
  | inr other ↦ rw other (rows_of-oldest_first _ (s ∷ ss))
]

rows_of-add_rows :
    (rows : List Value) (index : ℕ) (ss : List Section)
    → rows_of (oldest_first (add_rows rows index ss)) ≡ rows_of (oldest_first ss) ++ rows
unfolding add_rows
rows_of-add_rows [] index ss = sym (append-nil _)
rows_of-add_rows (row ∷ rows) index ss =
    rows_of-add_rows rows (suc index) (add_row row index ss)
    ∙ ap (λ ys. ys ++ rows) (rows_of-add_row row index ss)
    ∙ append_assoc (rows_of (oldest_first ss)) (row ∷ []) rows

sections_of-finish :
    (json : Text → Option Value) (rows : List Value) (ss : List Section)
    → sections_of (map (finish_section json rows) ss) ≡ ss
unfolding finish_section
sections_of-finish json rows [] = refl
sections_of-finish json rows (s ∷ ss) = ap (λ ts. s ∷ ts) (sections_of-finish json rows ss)

-- The sections hold the rows of the timeline: each row once, in its order.
pub build_dynamic_flow_sections-rows :
    (json : Text → Option Value) (rows : Value)
    → rows_of (sections_of (build_dynamic_flow_sections json rows)) ≡ safe_rows rows
unfolding build_dynamic_flow_sections
build_dynamic_flow_sections-rows json rows =
    ap rows_of
      (sections_of-finish json (safe_rows rows) (oldest_first (add_rows (safe_rows rows) 0 [])))
    ∙ rows_of-add_rows (safe_rows rows) 0 []

-- A section has a row, and all its rows are of its kind.
abbrev pub IsUniform : Section → Type 0
IsUniform s = (0 < length s.rows) × All (λ row. text_eq s.kind (kind_of row) ≡ true) s.rows

-- Neighbours are of different kinds.
abbrev pub Alternates : List Section → Type 0
Alternates [] = Unit
Alternates (s ∷ []) = Unit
Alternates (s ∷ t ∷ ss) = (text_eq s.kind t.kind ≡ false) × Alternates (t ∷ ss)

Alternates-append :
    (ss : List Section) (s t : Section)
    → Alternates (ss ++ s ∷ [])
    → text_eq s.kind t.kind ≡ false
    → Alternates (ss ++ s ∷ t ∷ [])
Alternates-append [] s t a e = (e, tt)
Alternates-append (u ∷ []) s t a e = (a.0, (e, tt))
Alternates-append (u ∷ v ∷ ss) s t a e = (a.0, Alternates-append (v ∷ ss) s t a.1 e)

-- `Alternates` looks at the kinds alone.
Alternates-kind :
    (ss : List Section) (s t : Section)
    → s.kind ≡ t.kind
    → Alternates (ss ++ s ∷ [])
    → Alternates (ss ++ t ∷ [])
Alternates-kind [] s t e a = tt
Alternates-kind (u ∷ []) s t e a = (rw (sym e) a.0, tt)
Alternates-kind (u ∷ v ∷ ss) s t e a = (a.0, Alternates-kind (v ∷ ss) s t e a.1)

Alternates-add_row :
    (row : Value) (index : ℕ) (ss : List Section)
    → Alternates (oldest_first ss)
    → Alternates (oldest_first (add_row row index ss))
unfolding add_row
Alternates-add_row row index [] a = tt
Alternates-add_row row index (s ∷ ss) a = elim (Bool-cases (text_eq s.kind (kind_of row))) [
  | inl same ↦ rw same (Alternates-kind (oldest_first ss) s _ refl a)
  | inr other ↦
      let new = open_section row index (length (s ∷ ss)) in
      rw (other, append_assoc (oldest_first ss) (s ∷ []) (new ∷ []))
        (Alternates-append (oldest_first ss) s new a other)
]

Alternates-add_rows :
    (rows : List Value) (index : ℕ) (ss : List Section)
    → Alternates (oldest_first ss)
    → Alternates (oldest_first (add_rows rows index ss))
unfolding add_rows
Alternates-add_rows [] index ss a = a
Alternates-add_rows (row ∷ rows) index ss a =
    Alternates-add_rows rows (suc index) _ (Alternates-add_row row index ss a)

All-IsUniform-add_row :
    (row : Value) (index : ℕ) (ss : List Section)
    → All IsUniform ss
    → All IsUniform (add_row row index ss)
unfolding add_row
All-IsUniform-add_row row index [] a = ((omega arith, (text_eq_refl (kind_of row), tt)), tt)
All-IsUniform-add_row row index (s ∷ ss) a = elim (Bool-cases (text_eq s.kind (kind_of row))) [
  | inl same ↦ rw same (
    (
      omega (arith, length-append s.rows (row ∷ [])),
      All-append _ s.rows (row ∷ []) a.0.1 (same, tt),
    ),
    a.1,
  )
  | inr other ↦ rw other ((omega arith, (text_eq_refl (kind_of row), tt)), a)
]

All-IsUniform-add_rows :
    (rows : List Value) (index : ℕ) (ss : List Section)
    → All IsUniform ss
    → All IsUniform (add_rows rows index ss)
unfolding add_rows
All-IsUniform-add_rows [] index ss a = a
All-IsUniform-add_rows (row ∷ rows) index ss a =
    All-IsUniform-add_rows rows (suc index) _ (All-IsUniform-add_row row index ss a)

All-oldest_first : (ss : List Section) → All IsUniform ss → All IsUniform (oldest_first ss)
All-oldest_first [] a = tt
All-oldest_first (s ∷ ss) a =
    All-append IsUniform (oldest_first ss) (s ∷ []) (All-oldest_first ss a.1) (a.0, tt)

-- The sections are the runs of the timeline: no section is empty, its rows are of its kind, and
-- neighbours are of different kinds.
pub build_dynamic_flow_sections-runs :
    (json : Text → Option Value) (rows : Value)
    → All IsUniform (sections_of (build_dynamic_flow_sections json rows))
      × Alternates (sections_of (build_dynamic_flow_sections json rows))
unfolding build_dynamic_flow_sections
build_dynamic_flow_sections-runs json rows =
    let sections = add_rows (safe_rows rows) 0 [] in
    rw (sections_of-finish json (safe_rows rows) (oldest_first sections)) (
      All-oldest_first sections (All-IsUniform-add_rows (safe_rows rows) 0 [] tt),
      Alternates-add_rows (safe_rows rows) 0 [] tt,
    )
