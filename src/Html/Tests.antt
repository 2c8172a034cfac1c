-- ===== src/Html/Tests.antt =====
-- Runs of the escaping and of a table, and a concrete instance of its property.
use kaims_latest.Prelude.{◌≡◌, refl, false, [], ◌∷◌, any, none}
use kaims_latest.Js.Text.{js, join}
use kaims_latest.Js.Value.{str, num, arr, items, array_or_empty, to_text, decimal, digits}
use kaims_latest.Html.{substitute, html_escape, as_display_value, render_row, render_html_table}
use kaims_latest.Html.Escape.{escape_units, is_markup, html_escape-IsEscaped}

runs : Unit {0}
unfolding js join substitute html_escape as_display_value render_row render_html_table
    array_or_empty to_text decimal digits
runs = tt

html_tests :
    (html_escape (js "<b>&lt;'") ≡ js "&lt;b&gt;&amp;lt;&#39;")
    × (render_html_table
          (λ v. none)
          (arr (items (str (js "a") ∷ [])))
          (arr (items (arr (items (num 7 ∷ str [] ∷ [])) ∷ [])))
        ≡ js
            "<table><thead><tr><th>a</th></tr></thead><tbody><tr><td>7</td><td>-</td></tr></tbody></table>")
unfolding runs
html_tests = (refl, refl)

html_escape-IsEscaped_example :
    (html_escape (js "<script>") ≡ escape_units (js "<script>"))
    × (any is_markup (html_escape (js "<script>")) ≡ false)
html_escape-IsEscaped_example = html_escape-IsEscaped (js "<script>")
