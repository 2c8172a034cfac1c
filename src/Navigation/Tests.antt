-- ===== src/Navigation/Tests.antt =====
-- Runs of the navigation, and concrete instances of its properties.
use kaims_latest.Prelude.{◌≡◌, ◌⊎◌, refl, true, false, List, [], ◌∷◌, ◌++◌, map, All}
use kaims_latest.Js.Text.{
  Text, js, text_eq, starts_with, without_slash, member, trim, trim_start, trim_end, is_space,
  lower, lower_unit, includes, join, replace_all, replace_unit, unique, unique_from,
}
use kaims_latest.Js.Order.{sort_desc, insert_desc}
use kaims_latest.Navigation.Kinds.{
  home_tab, summary_tab, tab_text, same_tab, group_text, same_group, l1_operator_role, role_text,
  NavigationId, admin_id, alerts_id, integrations_id, approvals_id, id_text, same_id,
  NavigationItem,
}
use kaims_latest.Navigation.Items.{legacy_redirects}
use kaims_latest.Navigation.Paths.{
  path_of, collect_paths, path_by_tab, normalized, leads_to, candidates, navigation_item_for_path,
  tab_for_path, breadcrumb_for_path,
}
use kaims_latest.Navigation.Paths.Tabs.{tab_for_path-by_tab}
use kaims_latest.Navigation.Paths.Longest.{IsBest, navigation_item_for_path-IsBest}
use kaims_latest.Navigation.Permissions.{
  allows, navigation_for_role, grouped_navigation_for_role, split_spaces, words_of, corpus_of,
  search_words, search_navigation, can_access_destination, can_access_tab,
  allowed_legacy_tabs_for_role, explanation_for, permission_explanation,
}
use kaims_latest.Navigation.Permissions.Shown.{IsOpen, search_navigation-IsOpen}

runs : Unit {0}
unfolding js text_eq starts_with without_slash member trim trim_start trim_end is_space lower
    lower_unit includes join replace_all replace_unit unique unique_from sort_desc insert_desc
    tab_text same_tab group_text same_group role_text id_text same_id path_of collect_paths
    path_by_tab normalized leads_to candidates navigation_item_for_path tab_for_path
    breadcrumb_for_path allows navigation_for_role grouped_navigation_for_role split_spaces words_of
    corpus_of search_words search_navigation can_access_destination can_access_tab
    allowed_legacy_tabs_for_role explanation_for permission_explanation
runs = tt

abbrev operator : Text
operator = js "l1_operator"

abbrev ids_of : List NavigationItem → List NavigationId
ids_of items = map (λ (item : NavigationItem). item.id) items

-- The cases of navigation.test.ts.
navigation_tests :
    (can_access_tab l1_operator_role home_tab ≡ true)
    × (can_access_destination operator alerts_id ≡ true)
    × (can_access_destination operator admin_id ≡ false)
    × (allowed_legacy_tabs_for_role operator ≡ js "home" ∷ js "summary" ∷ js "stream" ∷ [])
    × (ids_of (search_navigation (js " Connector ") (js "administrator")) ≡ integrations_id ∷ [])
    × (search_navigation (js "connector") operator ≡ [])
    × (ids_of (search_navigation (js "human gate") (js "administrator")) ≡ approvals_id ∷ [])
    × (tab_for_path (js "/incidents/INC-3481") ≡ summary_tab)
    × (breadcrumb_for_path (js "/approvals") ≡ (js "Operations", js "Approvals", js "/approvals"))
unfolding runs
navigation_tests = (refl, refl, refl, refl, refl, refl, refl, refl, refl)

-- A redirect leads to a destination's own path.
redirect_tests :
    All (λ (r : Text × Text). (navigation_item_for_path r.1).path ≡ r.1) legacy_redirects
unfolding runs
redirect_tests = (refl, (refl, (refl, (refl, (refl, (refl, (refl, tt)))))))

tab_for_path-by_tab_example :
    (tab_for_path (path_by_tab summary_tab) ≡ summary_tab)
    × ((same_tab summary_tab home_tab ≡ true)
        ⊎ (tab_for_path (path_by_tab summary_tab ++ b'/' ∷ js "INC-3481") ≡ summary_tab))
tab_for_path-by_tab_example = tab_for_path-by_tab summary_tab (js "INC-3481")

navigation_item_for_path-IsBest_example :
    IsBest (normalized (js "/admin/users/7")) (navigation_item_for_path (js "/admin/users/7"))
navigation_item_for_path-IsBest_example = navigation_item_for_path-IsBest (js "/admin/users/7")

search_navigation-IsOpen_example :
    All (IsOpen operator) (search_navigation (js "live") operator)
    × All (IsOpen operator) (navigation_for_role operator)
search_navigation-IsOpen_example = search_navigation-IsOpen (js "live") operator
