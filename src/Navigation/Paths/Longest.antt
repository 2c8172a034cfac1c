-- ===== src/Navigation/Paths/Longest.antt =====
-- app/navigation.ts: which destination a path has.
use kaims_latest.Prelude.{
  ◌≤◌, ◌≡◌, refl, ap, Bool, true, false, List, [], ◌∷◌, ◌++◌, filter, length, length-append, ltb,
  arith, Bool-cases, inl, inr, ◌⊎◌, All, All-filter, All-mono,
}
use kaims_latest.Js.Text.{Text, nonempty, without_slash}
use kaims_latest.Js.Order.{
  sort_desc, sort_desc-IsDescending, IsDescending, All-of_sort_desc, All-sort_desc,
}
use kaims_latest.Navigation.Kinds.{NavigationItem}
use kaims_latest.Navigation.Items.{dashboard_item, navigation_items}
use kaims_latest.Navigation.Paths.{
  normalized, leads_to, path_length, candidates, first_or_dashboard, navigation_item_for_path,
}

All-of_filter :
    (P : NavigationItem → Type 0) (p : NavigationItem → Bool) (xs : List NavigationItem)
    → All P (filter p xs)
    → All (λ x. p x ≡ true → P x) xs
All-of_filter P p [] h = tt
All-of_filter P p (x ∷ xs) h = elim (Bool-cases (p x)) [
  | inl kept ↦ let (px, rest) = rw kept at h in ((λ k. px), All-of_filter P p xs rest)
  | inr left ↦
      let rest = rw left at h in ((λ k. ground (arith, k, left)), All-of_filter P p xs rest)
]

-- The destination is one that the path leads to, and none of those has a longer path; or the path
-- leads to no destination, and it is the dashboard.
abbrev pub IsBest : Text → NavigationItem → Type 0
IsBest path item =
    ((leads_to path item ≡ true)
      × All (λ other. leads_to path other ≡ true → path_length other ≤ path_length item)
          navigation_items)
    ⊎ ((item ≡ dashboard_item) × All (λ other. leads_to path other ≡ false) navigation_items)

first-IsBest :
    (path : Text) (items : List NavigationItem)
    → All (λ item. leads_to path item ≡ true) items
    → IsDescending path_length items
    → ((P : NavigationItem → Type 0)
        → All P items
        → All P (filter (leads_to path) navigation_items))
    → IsBest path (first_or_dashboard items)
first-IsBest path [] h d back = inr (
  refl,
  All-mono (λ other. leads_to path other ≡ true → leads_to path other ≡ false)
      (λ other. leads_to path other ≡ false) navigation_items
      (λ other f. elim (Bool-cases (leads_to path other)) [ inl y ↦ f y | inr n ↦ n ])
      (All-of_filter (λ other. leads_to path other ≡ false) (leads_to path) navigation_items
        (back (λ other. leads_to path other ≡ false) tt)),
)
first-IsBest path (item ∷ items) h d back = inl (
  h.0,
  All-of_filter (λ other. path_length other ≤ path_length item) (leads_to path) navigation_items
      (back (λ other. path_length other ≤ path_length item) (omega arith, d.0)),
)

-- Of the destinations that a path leads to, it gets one with the longest path; a path that leads to
-- none gets the dashboard.
pub navigation_item_for_path-IsBest :
    (pathname : Text) → IsBest (normalized pathname) (navigation_item_for_path pathname)
unfolding navigation_item_for_path candidates
navigation_item_for_path-IsBest pathname =
    let p = leads_to (normalized pathname) in
    let found = filter p navigation_items in
    first-IsBest (normalized pathname) (sort_desc path_length found)
      (All-sort_desc path_length (λ item. p item ≡ true) found (All-filter p navigation_items))
      (sort_desc-IsDescending path_length found) (λ P h. All-of_sort_desc path_length P found h)

without_slash-snoc : (path : Text) → without_slash (path ++ b'/' ∷ []) ≡ path
unfolding without_slash
without_slash-snoc [] = refl
without_slash-snoc (c ∷ []) = refl
without_slash-snoc (c ∷ d ∷ path) = ap (λ t. c ∷ t) (without_slash-snoc (d ∷ path))

normalized-slash :
    (path : Text)
    → nonempty path ≡ true
    → without_slash path ≡ path
    → normalized (path ++ b'/' ∷ []) ≡ normalized path
unfolding normalized
normalized-slash [] n h = ground (arith, n)
normalized-slash (c ∷ path) n h =
    let longer : ltb 1 (length (c ∷ path ++ b'/' ∷ [])) ≡ true =
      ground (arith, length-append path (b'/' ∷ [])) in
    rw (longer, without_slash-snoc (c ∷ path), h) (ground arith)

-- A slash at the end changes nothing.
pub navigation_item_for_path-slash :
    (path : Text)
    → nonempty path ≡ true
    → without_slash path ≡ path
    → navigation_item_for_path (path ++ b'/' ∷ []) ≡ navigation_item_for_path path
unfolding navigation_item_for_path
navigation_item_for_path-slash path n h =
    ap (λ p. first_or_dashboard (candidates p)) (normalized-slash path n h)
