-- ===== src/Navigation/Permissions.antt =====
-- app/navigation.ts and app/permissions.ts: what a role may see, and what it is shown.
pub mod Agreement
pub mod Shown
use kaims_latest.Prelude.{
  ℕ, Bool, true, false, not, ◌&&◌, ◌||◌, List, [], ◌∷◌, ◌++◌, map, filter, any, find, Option, none,
  some, if◌then◌else◌,
}
use kaims_latest.Js.Text.{
  Text, js, nonempty, text_eq, member, trim, lower, is_space, includes, join, replace_all, unique,
  present,
}
use kaims_latest.Navigation.Kinds.{
  LegacyTabId, tab_text, same_tab, NavigationGroup, group_text, same_group, NavigationRole,
  role_text, NavigationId, same_id, NavigationItem,
}
use kaims_latest.Navigation.Items.{navigation_items, navigation_groups}

-- `item.allowedRoles.includes(role)`
unfoldable pub allows : Text → NavigationItem → Bool
unfolding member role_text
allows role item = member role (map role_text item.allowed_roles)

unfoldable pub navigation_for_role : Text → List NavigationItem
unfolding allows
navigation_for_role role =
    filter (λ item. item.show_in_navigation && allows role item) navigation_items

pub record NavigationSection : Type 0 where
  pub id : NavigationGroup
  pub label : Text
  pub items : List NavigationItem

abbrev pub section_of : List NavigationItem → NavigationGroup × Text → NavigationSection
section_of permitted (id, label) = record {
  id = id;
  label = label;
  items = filter (λ item. same_group item.group id) permitted;
}

abbrev pub has_items : NavigationSection → Bool
has_items section = elim section.items [ [] ↦ false | item ∷ items ↦ true ]

unfoldable pub grouped_navigation_for_role : Text → List NavigationSection
unfolding navigation_for_role same_group
grouped_navigation_for_role role =
    filter has_items (map (section_of (navigation_for_role role)) navigation_groups)

-- The pieces of a text between its white space.
unfoldable pub split_spaces : Text → Text → List Text
unfolding is_space
split_spaces word [] = word ∷ []
split_spaces word (c ∷ t) =
    let next = word ∷ split_spaces [] t in
    let more = split_spaces (word ++ c ∷ []) t in if is_space c then next else more

-- `query.trim().toLowerCase().split(/\s+/).filter(Boolean)`: the empty pieces go, so a run of white
-- space cuts as one does.
unfoldable pub words_of : Text → List Text
unfolding split_spaces trim lower
words_of query = present (split_spaces [] (lower (trim query)))

unfoldable pub corpus_of : NavigationItem → Text
unfolding join lower group_text js
corpus_of item =
    lower (join (js " ") (item.label ∷ item.page_title ∷ group_text item.group ∷ item.keywords))

-- `words.every((word) => corpus.includes(word))`
abbrev pub has_words : List Text → Text → Bool
has_words [] corpus = true
has_words (word ∷ words) corpus = includes corpus word && has_words words corpus

unfoldable pub search_words : List Text → Text → List NavigationItem
unfolding corpus_of includes navigation_for_role
search_words [] role = navigation_for_role role
search_words (word ∷ words) role =
    filter (λ item. has_words (word ∷ words) (corpus_of item))
      (filter (allows role) navigation_items)

unfoldable pub search_navigation : Text → Text → List NavigationItem
unfolding words_of search_words
search_navigation query role = search_words (words_of query) role

abbrev pub item_of : NavigationId → Option NavigationItem
item_of id = find (λ candidate. same_id candidate.id id) navigation_items

abbrev pub allowed_item : Text → Option NavigationItem → Bool
allowed_item role none = false
allowed_item role (some item) = allows role item

unfoldable pub can_access_destination : Text → NavigationId → Bool
unfolding same_id allows
can_access_destination role id = allowed_item role (item_of id)

unfoldable pub can_access_tab : NavigationRole → LegacyTabId → Bool
unfolding same_tab allows role_text
can_access_tab role tab_id =
    any (λ item. same_tab item.legacy_tab tab_id && allows (role_text role) item) navigation_items

-- The tabs as the texts that they are, which the set compares.
unfoldable pub allowed_legacy_tabs_for_role : Text → List Text
unfolding unique allows tab_text
allowed_legacy_tabs_for_role role =
    unique (map (λ item. tab_text item.legacy_tab) (filter (allows role) navigation_items))

unfoldable pub explanation_for : Text → NavigationItem → Text
unfolding js replace_all
explanation_for role item =
    item.label
    ++ js " is not available to the "
    ++ replace_all b'_' b' ' role
    ++ js " role. Contact an administrator if your responsibilities require access."

abbrev pub explain : Text → Option NavigationItem → Option Text
explain role none = none
explain role (some item) = if allows role item then none else some (explanation_for role item)

unfoldable pub permission_explanation : Text → NavigationId → Option Text
unfolding same_id allows explanation_for
permission_explanation role id = explain role (item_of id)
