-- ===== src/Navigation/Permissions/Shown.antt =====
-- app/navigation.ts: what the navigation and the search show.
use kaims_latest.Prelude.{
  All-filter_with, ℕ, ◌+◌, ◌≡◌, refl, ◌∙◌, Bool, true, false, ◌&&◌, List, [], ◌∷◌, map, filter,
  count, arith, Bool-cases, inl, inr, All, All-filter,
}
use kaims_latest.Js.Text.{Text}
use kaims_latest.Navigation.Kinds.{
  NavigationGroup, operations_group, governance_group, platform_group, administration_group,
  group_text, same_group, same_id, id_text, NavigationItem,
}
use kaims_latest.Navigation.Items.{navigation_items, navigation_groups}
use kaims_latest.Navigation.Permissions.{
  allows, navigation_for_role, NavigationSection, section_of, has_items,
  grouped_navigation_for_role, words_of, corpus_of, has_words, search_words, search_navigation,
  can_access_destination,
}

-- An identifier of the table finds its own destination.
own_items :
    (role : Text)
    → All
        (λ (item : NavigationItem). can_access_destination role item.id ≡ allows role item)
        navigation_items
unfolding can_access_destination same_id id_text
own_items role = (
  refl,
  (
    refl,
    (
      refl,
      (
        refl,
        (refl, (refl, (refl, (refl, (refl, (refl, (refl, (refl, (refl, (refl, (refl, tt))))))))))),
      ),
    ),
  ),
)

abbrev pub IsOpen : Text → NavigationItem → Type 0
IsOpen role item = can_access_destination role item.id ≡ true

navigation_for_role-IsOpen : (role : Text) → All (IsOpen role) (navigation_for_role role)
unfolding navigation_for_role
navigation_for_role-IsOpen role =
    All-filter_with (λ item. can_access_destination role item.id ≡ allows role item) (IsOpen role)
      (λ item. item.show_in_navigation && allows role item) navigation_items
      (λ item kept own. ground (arith, kept, own)) (own_items role)

search_words-IsOpen :
    (words : List Text) (role : Text) → All (IsOpen role) (search_words words role)
unfolding search_words
search_words-IsOpen [] role = navigation_for_role-IsOpen role
search_words-IsOpen (word ∷ words) role =
    All-filter_with (IsOpen role) (IsOpen role) (λ item. has_words (word ∷ words) (corpus_of item))
      (filter (allows role) navigation_items) (λ item kept allowed. allowed)
      (All-filter_with (λ item. can_access_destination role item.id ≡ allows role item)
        (IsOpen role) (allows role) navigation_items (λ item kept own. own ∙ kept) (own_items role))

-- Neither the navigation nor the search, for any query, shows a destination that the role may not
-- open.
pub search_navigation-IsOpen :
    (query role : Text)
    → All (IsOpen role) (search_navigation query role)
      × All (IsOpen role) (navigation_for_role role)
unfolding search_navigation
search_navigation-IsOpen query role =
    (search_words-IsOpen (words_of query) role, navigation_for_role-IsOpen role)

-- How many of the destinations of the sections pass a test.
abbrev pub count_sections : (NavigationItem → Bool) → List NavigationSection → ℕ
count_sections p [] = 0
count_sections p (section ∷ sections) = count p section.items + count_sections p sections

count-empty :
    (p : NavigationItem → Bool) (section : NavigationSection)
    → has_items section ≡ false
    → count p section.items ≡ 0
count-empty p section h = empty section.items h
  where
    empty :
        (items : List NavigationItem)
        → elim items [ [] ↦ false | item ∷ rest ↦ true ] ≡ false
        → count p items ≡ 0
    empty [] k = refl
    empty (item ∷ rest) k = ground (arith, k)

count_sections-filter :
    (p : NavigationItem → Bool) (sections : List NavigationSection)
    → count_sections p (filter has_items sections) ≡ count_sections p sections
count_sections-filter p [] = refl
count_sections-filter p (section ∷ sections) = elim (Bool-cases (has_items section)) [
  | inl kept ↦ rw kept (omega (arith, count_sections-filter p sections))
  | inr empty ↦
      rw empty (omega (arith, count_sections-filter p sections, count-empty p section empty))
]

-- A group is one of the four.
count-group :
    (p : NavigationItem → Bool) (group : NavigationGroup) (item : NavigationItem)
    → item.group ≡ group
    → count_sections p (map (section_of (item ∷ [])) navigation_groups) ≡ count p (item ∷ [])
unfolding same_group group_text
count-group p operations_group item h = rw h (omega arith)
count-group p platform_group item h = rw h (omega arith)
count-group p governance_group item h = rw h (omega arith)
count-group p administration_group item h = rw h (omega arith)

section-cons :
    (p : NavigationItem → Bool) (item : NavigationItem) (items : List NavigationItem)
    → count_sections p (map (section_of (item ∷ items)) navigation_groups)
      ≡ count_sections p (map (section_of (item ∷ [])) navigation_groups)
        + count_sections p (map (section_of items) navigation_groups)
section-cons p item items = ground arith

count-sections :
    (p : NavigationItem → Bool) (items : List NavigationItem)
    → count_sections p (map (section_of items) navigation_groups) ≡ count p items
unfolding same_group
count-sections p [] = omega arith
count-sections p (item ∷ items) =
    omega
      (arith, section-cons p item items, count-group p item.group item refl, count-sections p items)

-- The grouped navigation shows what the navigation of the role has, each destination once, and no
-- group of it is empty.
pub grouped_navigation_for_role-count :
    (role : Text) (p : NavigationItem → Bool)
    → (count_sections p (grouped_navigation_for_role role) ≡ count p (navigation_for_role role))
      × All (λ section. has_items section ≡ true) (grouped_navigation_for_role role)
unfolding grouped_navigation_for_role
grouped_navigation_for_role-count role p =
    let sections = map (section_of (navigation_for_role role)) navigation_groups in
    (
      count_sections-filter p sections ∙ count-sections p (navigation_for_role role),
      All-filter has_items sections,
    )
