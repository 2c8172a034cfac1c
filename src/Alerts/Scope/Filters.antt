-- ===== src/Alerts/Scope/Filters.antt =====
-- appHelpers.jsx: what the filters of the scope selector show.
use kaims_latest.Prelude.{
  ◌+◌, ◌≡◌, refl, ap, ◌∙◌, Bool, true, false, not, List, [], ◌∷◌, filter, count, All,
  All-filter-filter, All-filter, All-mono, sym, count-filter-not, filter-filter_idem, filter_idem,
  arith, if◌then◌else◌,
}
use kaims_latest.Js.Text.{Text, js, nonempty, text_eq, trim, lower}
use kaims_latest.Js.Text.Equality.{text_eq_refl}
use kaims_latest.Js.Value.{
  Value, str, arr, items, elements, array_or_empty, text_of, truthy, to_text,
}
use kaims_latest.Alerts.Scope.{
  token_of, real_use_case_scope, test_use_case_scope, is_generated_or_test_alert,
  is_kaiops_core_selection, infer_monitor_scope, names_application, filter_alerts_for_monitor,
  filter_rows_for_monitor,
}

-- The filter of alerts and the filter of other rows are written twice and are the same function.
pub filters_agree :
    (rows application : Value)
    → filter_alerts_for_monitor rows application ≡ filter_rows_for_monitor rows application
unfolding filter_alerts_for_monitor filter_rows_for_monitor
filters_agree rows application = refl

abbrev is_production : Value → Bool
is_production row = not (is_generated_or_test_alert row)

real_token : token_of (str real_use_case_scope) ≡ real_use_case_scope
unfolding token_of js trim lower text_of truthy to_text
real_token = refl

test_token : token_of (str test_use_case_scope) ≡ test_use_case_scope
unfolding token_of js trim lower text_of truthy to_text
test_token = refl

scope_texts :
    (nonempty real_use_case_scope ≡ true)
    × (nonempty test_use_case_scope ≡ true)
    × (text_eq test_use_case_scope real_use_case_scope ≡ false)
unfolding js text_eq
scope_texts = (refl, refl, refl)

filter_alerts-real :
    (rows : Value)
    → filter_alerts_for_monitor rows (str real_use_case_scope)
      ≡ filter is_production (array_or_empty rows)
unfolding filter_alerts_for_monitor
filter_alerts-real rows = rw (real_token, scope_texts.0, text_eq_refl real_use_case_scope)

filter_alerts-test :
    (rows : Value)
    → filter_alerts_for_monitor rows (str test_use_case_scope)
      ≡ filter is_generated_or_test_alert (array_or_empty rows)
unfolding filter_alerts_for_monitor
filter_alerts-test rows =
    rw (test_token, scope_texts.1, scope_texts.2, text_eq_refl test_use_case_scope)

-- The real and the test use cases make up all rows: each row is in one of them, as often as it is
-- among the rows.
pub use_cases_partition :
    (rows : Value) (p : Value → Bool)
    → count p (filter_alerts_for_monitor rows (str real_use_case_scope))
        + count p (filter_alerts_for_monitor rows (str test_use_case_scope))
      ≡ count p (array_or_empty rows)
use_cases_partition rows p =
    rw (filter_alerts-real rows, filter_alerts-test rows)
      (count-filter-not p is_generated_or_test_alert (array_or_empty rows))

abbrev HidesTests : List Value → Type 0
HidesTests = All (λ row. is_generated_or_test_alert row ≡ false)

HidesTests-if :
    (b : Bool) (xs ys : List Value)
    → (b ≡ true → HidesTests xs)
    → (b ≡ false → HidesTests ys)
    → HidesTests (if b then xs else ys)
HidesTests-if true xs ys h k = h refl
HidesTests-if false xs ys h k = k refl

HidesTests-of_production :
    (xs : List Value) → All (λ row. is_production row ≡ true) xs → HidesTests xs
HidesTests-of_production xs h =
    All-mono (λ row. is_production row ≡ true) (λ row. is_generated_or_test_alert row ≡ false) xs
      (λ row e. ground arith) h

HidesTests-production :
    (p : Value → Bool) (xs : List Value) → HidesTests (filter p (filter is_production xs))
HidesTests-production p xs = HidesTests-of_production _ (All-filter-filter p is_production xs)

-- Only the empty selection and the test use cases show generated or test alerts: any other
-- selection, an application's name too, hides them.
pub no_test_alerts :
    (rows application : Value)
    → nonempty (token_of application) ≡ true
    → text_eq (token_of application) test_use_case_scope ≡ false
    → All
        (λ row. is_generated_or_test_alert row ≡ false)
        (filter_alerts_for_monitor rows application)
unfolding filter_alerts_for_monitor
no_test_alerts rows application given other =
    let xs = array_or_empty rows in
    let target = token_of application in
    HidesTests-if (not (nonempty target)) _ _ (λ e. ground arith)
      (λ e.
        HidesTests-if (text_eq target real_use_case_scope) _ _
          (λ u. HidesTests-of_production _ (All-filter is_production xs))
          (λ u.
            HidesTests-if (text_eq target test_use_case_scope) _ _ (λ v. ground arith)
              (λ v.
                HidesTests-if (text_eq target (js "telemetry")) _ _
                  (λ w. HidesTests-production _ xs)
                  (λ w.
                    HidesTests-if (is_kaiops_core_selection target) _ _
                      (λ z. HidesTests-production _ xs) (λ z. HidesTests-production _ xs)))))

elements-items : (xs : List Value) → elements (items xs) ≡ xs
elements-items [] = refl
elements-items (x ∷ xs) = ap (◌∷◌ x) (elements-items xs)

abbrev IsIdempotent : (List Value → List Value) → Type 0
IsIdempotent f = (xs : List Value) → f (f xs) ≡ f xs

IsIdempotent-if :
    (b : Bool) (f g : List Value → List Value)
    → IsIdempotent f
    → IsIdempotent g
    → IsIdempotent (λ xs. if b then f xs else g xs)
IsIdempotent-if true f g h k = h
IsIdempotent-if false f g h k = k

-- The filter of a scope as a function of the rows.
select : Text → List Value → List Value
select target xs =
    if not (nonempty target)
    then xs
    else if text_eq target real_use_case_scope
    then filter is_production xs
    else if text_eq target test_use_case_scope
    then filter is_generated_or_test_alert xs
    else if text_eq target (js "telemetry")
    then filter (λ row. text_eq (infer_monitor_scope row) (js "telemetry"))
        (filter is_production xs)
    else if is_kaiops_core_selection target
    then filter (λ row. text_eq (infer_monitor_scope row) (js "kaiops")) (filter is_production xs)
    else filter (names_application target) (filter is_production xs)

filter_alerts-eq-select :
    (rows application : Value)
    → filter_alerts_for_monitor rows application
      ≡ select (token_of application) (array_or_empty rows)
unfolding filter_alerts_for_monitor select
filter_alerts-eq-select rows application = refl

select-IsIdempotent : (target : Text) → IsIdempotent (select target)
unfolding select
select-IsIdempotent target =
    IsIdempotent-if (not (nonempty target)) _ _ (λ xs. refl)
      (IsIdempotent-if (text_eq target real_use_case_scope) _ _ (filter_idem is_production) (
        IsIdempotent-if (text_eq target test_use_case_scope) _ _
          (filter_idem is_generated_or_test_alert)
          (IsIdempotent-if (text_eq target (js "telemetry")) _ _
            (filter-filter_idem _ is_production)
            (IsIdempotent-if (is_kaiops_core_selection target) _ _
              (filter-filter_idem _ is_production)
              (filter-filter_idem (names_application target) is_production)))))

-- Selecting twice is selecting once.
pub filter_alerts_idempotent :
    (rows application : Value)
    → filter_alerts_for_monitor
        (arr (items (filter_alerts_for_monitor rows application)))
        application
      ≡ filter_alerts_for_monitor rows application
unfolding array_or_empty
filter_alerts_idempotent rows application =
    let target = token_of application in
    let xs = array_or_empty rows in
    let shown = filter_alerts_for_monitor rows application in
    filter_alerts-eq-select (arr (items shown)) application
    ∙ ap (select target) (elements-items shown)
    ∙ ap (select target) (filter_alerts-eq-select rows application)
    ∙ select-IsIdempotent target xs
    ∙ sym (filter_alerts-eq-select rows application)
