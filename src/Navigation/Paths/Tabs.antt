-- ===== src/Navigation/Paths/Tabs.antt =====
-- app/navigation.ts: a tab's path leads back to the tab.
use kaims_latest.Prelude.{
  ◌≡◌, refl, Bool, false, [], ◌∷◌, ◌++◌, if◌then◌else◌, arith, length, length-append, ltb, true, ap,
  Bool-cases, inl, inr, ◌⊎◌,
}
use kaims_latest.Js.Text.{Text, js, text_eq, starts_with, without_slash}
use kaims_latest.Js.Order.{sort_desc, insert_desc}
use kaims_latest.Navigation.Kinds.{
  LegacyTabId, home_tab, stream_tab, copilot_tab, executive_tab, admin_tab, trace_tab, safety_tab,
  audit_tab, rag_tab, closed_tab, summary_tab, approval_tab, tab_text, same_tab,
}
use kaims_latest.Navigation.Paths.{
  path_of, collect_paths, path_by_tab, normalized, leads_to, candidates, first_or_dashboard,
  navigation_item_for_path, tab_for_path,
}

tables : Unit {0}
unfolding js text_eq starts_with without_slash sort_desc insert_desc tab_text same_tab path_of
    collect_paths path_by_tab normalized leads_to candidates navigation_item_for_path tab_for_path
tables = tt

own_path : (tab : LegacyTabId) → tab_for_path (path_by_tab tab) ≡ tab
unfolding tables
own_path home_tab = refl
own_path stream_tab = refl
own_path copilot_tab = refl
own_path executive_tab = refl
own_path admin_tab = refl
own_path trace_tab = refl
own_path safety_tab = refl
own_path audit_tab = refl
own_path rag_tab = refl
own_path closed_tab = refl
own_path summary_tab = refl
own_path approval_tab = refl

tab_for_path-longer :
    (path rest : Text)
    → ltb 1 (length path) ≡ true
    → tab_for_path (path ++ b'/' ∷ rest)
      ≡ (first_or_dashboard (candidates (without_slash (path ++ b'/' ∷ rest)))).legacy_tab
unfolding tab_for_path navigation_item_for_path normalized
tab_for_path-longer path rest h =
    let longer : ltb 1 (length (path ++ b'/' ∷ rest)) ≡ true =
      ground (arith, h, length-append path (b'/' ∷ rest)) in
    ap
      (λ (b : Bool).
        (first_or_dashboard (
          candidates
            (if b then without_slash (path ++ b'/' ∷ rest) else path ++ b'/' ∷ rest))).legacy_tab)
      longer

tab_below :
    (tab : LegacyTabId) (rest : Text)
    → same_tab tab home_tab ≡ false
    → tab_for_path (path_by_tab tab ++ b'/' ∷ rest) ≡ tab
unfolding tables
tab_below home_tab rest h = ground (arith, h)
tab_below stream_tab [] h = tab_for_path-longer (path_by_tab stream_tab) [] refl
tab_below stream_tab (c ∷ rest) h = tab_for_path-longer (path_by_tab stream_tab) (c ∷ rest) refl
tab_below copilot_tab [] h = tab_for_path-longer (path_by_tab copilot_tab) [] refl
tab_below copilot_tab (c ∷ rest) h = tab_for_path-longer (path_by_tab copilot_tab) (c ∷ rest) refl
tab_below executive_tab [] h = tab_for_path-longer (path_by_tab executive_tab) [] refl
tab_below executive_tab (c ∷ rest) h =
    tab_for_path-longer (path_by_tab executive_tab) (c ∷ rest) refl
tab_below admin_tab [] h = tab_for_path-longer (path_by_tab admin_tab) [] refl
tab_below admin_tab (c ∷ rest) h = tab_for_path-longer (path_by_tab admin_tab) (c ∷ rest) refl
tab_below trace_tab [] h = tab_for_path-longer (path_by_tab trace_tab) [] refl
tab_below trace_tab (c ∷ rest) h = tab_for_path-longer (path_by_tab trace_tab) (c ∷ rest) refl
tab_below safety_tab [] h = tab_for_path-longer (path_by_tab safety_tab) [] refl
tab_below safety_tab (c ∷ rest) h = tab_for_path-longer (path_by_tab safety_tab) (c ∷ rest) refl
tab_below audit_tab [] h = tab_for_path-longer (path_by_tab audit_tab) [] refl
tab_below audit_tab (c ∷ rest) h = tab_for_path-longer (path_by_tab audit_tab) (c ∷ rest) refl
tab_below rag_tab [] h = tab_for_path-longer (path_by_tab rag_tab) [] refl
tab_below rag_tab (c ∷ rest) h = tab_for_path-longer (path_by_tab rag_tab) (c ∷ rest) refl
tab_below closed_tab [] h = tab_for_path-longer (path_by_tab closed_tab) [] refl
tab_below closed_tab (c ∷ rest) h = tab_for_path-longer (path_by_tab closed_tab) (c ∷ rest) refl
tab_below summary_tab [] h = tab_for_path-longer (path_by_tab summary_tab) [] refl
tab_below summary_tab (c ∷ rest) h = tab_for_path-longer (path_by_tab summary_tab) (c ∷ rest) refl
tab_below approval_tab [] h = tab_for_path-longer (path_by_tab approval_tab) [] refl
tab_below approval_tab (c ∷ rest) h = tab_for_path-longer (path_by_tab approval_tab) (c ∷ rest) refl

-- A tab's path leads to the tab, and so does every path below it, unless the tab is the overview's.
pub tab_for_path-by_tab :
    (tab : LegacyTabId) (rest : Text)
    → (tab_for_path (path_by_tab tab) ≡ tab)
      × ((same_tab tab home_tab ≡ true) ⊎ (tab_for_path (path_by_tab tab ++ b'/' ∷ rest) ≡ tab))
tab_for_path-by_tab tab rest = (
  own_path tab,
  elim (Bool-cases (same_tab tab home_tab)) [
    | inl home ↦ inl home
    | inr other ↦ inr (tab_below tab rest other)
  ],
)
