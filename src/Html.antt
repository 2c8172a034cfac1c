-- ===== src/Html.antt =====
-- `htmlEscape`, `asDisplayValue` and `renderHtmlTable` of appHelpers.jsx: values of alerts as HTML.
pub mod Escape
mod Tests
use kaims_latest.Prelude.{
  ℕ, Bool, true, false, not, ◌&&◌, ◌||◌, List, [], ◌∷◌, ◌++◌, map, max, length, Option, none, some,
  ◌==◌, if◌then◌else◌,
}
use kaims_latest.Js.Text.{Text, js, text_eq, nonempty}
use kaims_latest.Js.Value.{Value, undefined, null, str, arr, obj, to_text, array_or_empty, decimal}

-- `s.replace(/c/g, by)` for one code unit.
unfoldable pub substitute : ℕ → Text → Text → Text
substitute c by [] = []
substitute c by (d ∷ t) = let rest = substitute c by t in if d == c then by ++ rest else d ∷ rest

unfoldable pub html_escape : Text → Text
unfolding substitute js
html_escape s = substitute 39 (js "&#39;") (
    substitute 34 (js "&quot;")
      (substitute 62 (js "&gt;") (substitute 60 (js "&lt;") (substitute 38 (js "&amp;") s))))

-- `pieces.join("")`
abbrev pub concat : List Text → Text
concat [] = []
concat (t ∷ ts) = t ++ concat ts

abbrev pub cell_tag : Text → Text → Text
cell_tag tag content = (60 ∷ tag ++ 62 ∷ []) ++ content ++ (60 ∷ 47 ∷ tag ++ 62 ∷ [])

-- `stringify` is `JSON.stringify`, with `none` where that throws.
module _ (stringify : Value → Option Text) where
  abbrev display_object : Option Text → Text
  display_object none = js "[object]"
  display_object (some t) = t

  unfoldable pub as_display_value : Value → Text
  unfolding to_text js
  as_display_value undefined = js "-"
  as_display_value null = js "-"
  as_display_value (str s) = if nonempty s then s else js "-"
  as_display_value (arr vs) = display_object (stringify (arr vs))
  as_display_value (obj fs) = display_object (stringify (obj fs))
  as_display_value v = to_text v

  unfoldable pub render_row : Value → Text
  unfolding html_escape as_display_value array_or_empty js
  render_row row =
      js "<tr>"
      ++ concat (
          map (λ cell. cell_tag (js "td") (html_escape (as_display_value cell)))
            (array_or_empty row))
      ++ js "</tr>"

  abbrev body_of : ℕ → List Value → Text
  body_of columns [] =
      js "<tr><td colspan=\"" ++ decimal (max 1 columns) ++ js "\">No rows available.</td></tr>"
  body_of columns (row ∷ rows) = concat (map render_row (row ∷ rows))

  unfoldable pub render_html_table : Value → Value → Text
  unfolding render_row html_escape to_text array_or_empty decimal js
  render_html_table headers rows =
      js "<table><thead><tr>"
      ++ concat (
          map (λ header. cell_tag (js "th") (html_escape (to_text header)))
            (array_or_empty headers))
      ++ js "</tr></thead><tbody>"
      ++ body_of (length (array_or_empty headers)) (array_or_empty rows)
      ++ js "</tbody></table>"
