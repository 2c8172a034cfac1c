-- ===== src/Navigation/Paths.antt =====
-- app/navigation.ts: from a path to its destination and its tab, and back.
pub mod Longest
pub mod Tabs
use kaims_latest.Prelude.{
  ℕ, Bool, true, false, not, ◌&&◌, ◌||◌, List, [], ◌∷◌, ◌++◌, filter, find, length, ltb, Option,
  none, some, if◌then◌else◌,
}
use kaims_latest.Js.Text.{Text, js, nonempty, text_eq, starts_with, without_slash}
use kaims_latest.Js.Order.{sort_desc}
use kaims_latest.Navigation.Kinds.{
  LegacyTabId, NavigationGroup, same_tab, same_group, NavigationItem,
}
use kaims_latest.Navigation.Items.{dashboard_item, navigation_items, navigation_groups}

-- `paths[tab]`
unfoldable pub path_of : LegacyTabId → List (LegacyTabId × Text) → Text
unfolding same_tab
path_of tab [] = []
path_of tab ((t, path) ∷ paths) =
    let rest = path_of tab paths in if same_tab t tab then path else rest

-- `NAVIGATION_ITEMS.reduce(…)`: the path of a tab's first destination.
unfoldable pub collect_paths :
    List NavigationItem → List (LegacyTabId × Text) → List (LegacyTabId × Text)
unfolding path_of
collect_paths [] paths = paths
collect_paths (item ∷ items) paths = collect_paths items (
    if not (nonempty (path_of item.legacy_tab paths))
    then paths ++ (item.legacy_tab, item.path) ∷ []
    else paths)

unfoldable pub path_by_tab : LegacyTabId → Text
unfolding collect_paths path_of
path_by_tab tab = path_of tab (collect_paths navigation_items [])

unfoldable pub normalized : Text → Text
unfolding without_slash
normalized pathname = if ltb 1 (length pathname) then without_slash pathname else pathname

-- The test of the filter, on a normalized path.
unfoldable pub leads_to : Text → NavigationItem → Bool
unfolding text_eq starts_with
leads_to path item =
    if text_eq item.path (js "/")
    then text_eq path (js "/")
    else text_eq path item.path || starts_with path (item.path ++ js "/")

abbrev pub path_length : NavigationItem → ℕ
path_length item = length item.path

unfoldable pub candidates : Text → List NavigationItem
unfolding leads_to sort_desc
candidates path = sort_desc path_length (filter (leads_to path) navigation_items)

-- `candidates[0] ?? NAVIGATION_ITEMS[0]`
abbrev pub first_or_dashboard : List NavigationItem → NavigationItem
first_or_dashboard [] = dashboard_item
first_or_dashboard (item ∷ items) = item

unfoldable pub navigation_item_for_path : Text → NavigationItem
unfolding candidates normalized
navigation_item_for_path pathname = first_or_dashboard (candidates (normalized pathname))

unfoldable pub tab_for_path : Text → LegacyTabId
unfolding navigation_item_for_path
tab_for_path pathname = (navigation_item_for_path pathname).legacy_tab

abbrev label_or : Option (NavigationGroup × Text) → Text
label_or none = js "KaiMS"
label_or (some (id, label)) = label

-- The two labels of `breadcrumbForPath`, and the path of the second.
unfoldable pub breadcrumb_for_path : Text → Text × Text × Text
unfolding navigation_item_for_path same_group
breadcrumb_for_path pathname =
    let item = navigation_item_for_path pathname in
    (
      label_or (find (λ group. same_group group.0 item.group) navigation_groups),
      item.label,
      item.path,
    )
