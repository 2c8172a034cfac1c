-- ===== src/Html/Escape.antt =====
-- `htmlEscape` of appHelpers.jsx: five passes that do the work of one.
use kaims_latest.Prelude.{
  ℕ, ◌≡◌, refl, ap, sym, subst, ◌∙◌, Bool, true, false, ◌||◌, [], ◌∷◌, ◌++◌, any, any-append, ◌==◌,
  ==_iff, if◌then◌else◌, arith, Bool-cases, inl, inr,
}
use mathlib.Core.List.{append_assoc}
use kaims_latest.Js.Text.{Text, js}
use kaims_latest.Html.{substitute, html_escape}

substitute-append :
    (c : ℕ) (by s t : Text) → substitute c by (s ++ t) ≡ substitute c by s ++ substitute c by t
unfolding substitute
substitute-append c by [] t = refl
substitute-append c by (d ∷ s) t = elim (Bool-cases (d == c)) [
  | inl same ↦ rw same (
      ap (λ u. by ++ u) (substitute-append c by s t)
      ∙ sym (append_assoc by (substitute c by s) (substitute c by t)))
  | inr other ↦ rw other (ap (λ u. d ∷ u) (substitute-append c by s t))
]

pass :
    (c : ℕ) (by u s t : Text)
    → u ≡ s ++ t
    → substitute c by u ≡ substitute c by s ++ substitute c by t
pass c by u s t h = ap (substitute c by) h ∙ substitute-append c by s t

-- The text after each of the first four passes.
abbrev amps : Text → Text
amps s = substitute 38 (js "&amp;") s

abbrev lesses : Text → Text
lesses s = substitute 60 (js "&lt;") (amps s)

abbrev greaters : Text → Text
greaters s = substitute 62 (js "&gt;") (lesses s)

abbrev quotes : Text → Text
quotes s = substitute 34 (js "&quot;") (greaters s)

html_escape-append : (s t : Text) → html_escape (s ++ t) ≡ html_escape s ++ html_escape t
unfolding html_escape
html_escape-append s t = pass 39 (js "&#39;") (quotes (s ++ t)) (quotes s) (quotes t) (
    pass 34 (js "&quot;") (greaters (s ++ t)) (greaters s) (greaters t) (
      pass 62 (js "&gt;") (lesses (s ++ t)) (lesses s) (lesses t) (
        pass 60 (js "&lt;") (amps (s ++ t)) (amps s) (amps t)
          (substitute-append 38 (js "&amp;") s t))))

-- What one code unit is written as.
abbrev pub escape_unit : ℕ → Text
escape_unit c =
    if c == 38
    then js "&amp;"
    else if c == 60
    then js "&lt;"
    else if c == 62
    then js "&gt;"
    else if c == 34
    then js "&quot;"
    else if c == 39
    then js "&#39;"
    else c ∷ []

abbrev pub escape_units : Text → Text
escape_units [] = []
escape_units (c ∷ t) = escape_unit c ++ escape_units t

-- A unit that one of the passes replaces.
special_unit :
    (c special : ℕ)
    → (c == special) ≡ true
    → html_escape (special ∷ []) ≡ escape_unit special
    → html_escape (c ∷ []) ≡ escape_unit c
special_unit c special h e =
    subst (λ d. html_escape (d ∷ []) ≡ escape_unit d) (sym ((==_iff c special).0 h)) e

html_escape-unit : (c : ℕ) → html_escape (c ∷ []) ≡ escape_unit c
unfolding html_escape substitute js
html_escape-unit c = elim (Bool-cases (c == 38)) [
  | inl amp ↦ special_unit c 38 amp refl
  | inr a ↦ elim (Bool-cases (c == 60)) [
    | inl less ↦ special_unit c 60 less refl
    | inr l ↦ elim (Bool-cases (c == 62)) [
      | inl greater ↦ special_unit c 62 greater refl
      | inr g ↦ elim (Bool-cases (c == 34)) [
        | inl quote ↦ special_unit c 34 quote refl
        | inr q ↦ elim (Bool-cases (c == 39)) [
          | inl apostrophe ↦ special_unit c 39 apostrophe refl
          | inr p ↦ rw (a, l, g, q, p) refl
        ]
      ]
    ]
  ]
]

html_escape-units : (s : Text) → html_escape s ≡ escape_units s
unfolding html_escape substitute
html_escape-units [] = refl
html_escape-units (c ∷ s) =
    html_escape-append (c ∷ []) s
    ∙ ap (λ t. t ++ html_escape s) (html_escape-unit c)
    ∙ ap (λ t. escape_unit c ++ t) (html_escape-units s)

-- A unit that could begin or end a tag or the value of an attribute.
abbrev pub is_markup : ℕ → Bool
is_markup c = c == 60 || c == 62 || c == 34 || c == 39

markup-unit : (c : ℕ) → any is_markup (escape_unit c) ≡ false
unfolding js
markup-unit c = ground arith

markup-units : (s : Text) → any is_markup (escape_units s) ≡ false
markup-units [] = refl
markup-units (c ∷ s) =
    any-append is_markup (escape_unit c) (escape_units s) ∙ rw (markup-unit c, markup-units s) refl

-- The five passes over a text do what one pass would that writes each code unit once, so no escape
-- is escaped again; and what they give holds no `<`, `>` or quote, whatever the text.
pub html_escape-IsEscaped :
    (s : Text) → (html_escape s ≡ escape_units s) × (any is_markup (html_escape s) ≡ false)
html_escape-IsEscaped s =
    (html_escape-units s, ap (any is_markup) (html_escape-units s) ∙ markup-units s)
