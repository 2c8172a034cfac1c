-- ===== src/Navigation/Permissions/Agreement.antt =====
-- app/permissions.ts: the ways to ask for a permission agree.
use kaims_latest.Prelude.{
  ◌≡◌, ◌↔◌, refl, sym, ◌∙◌, true, ◌&&◌, List, [], ◌∷◌, map, filter, any, none, some, arith,
  Bool-cases, inl, inr,
}
use kaims_latest.Js.Text.{Text, member}
use kaims_latest.Js.Text.Equality.{member-unique}
use kaims_latest.Navigation.Kinds.{
  LegacyTabId, NavigationRole, NavigationId, dashboard_id, alerts_id, incidents_id, approvals_id,
  copilot_id, agent_flow_id, knowledge_id, safety_id, audit_id, closed_id, applications_id,
  integrations_id, admin_id, settings_id, executive_id, tab_text, role_text, id_text, same_tab,
  same_id, NavigationItem,
}
use kaims_latest.Navigation.Items.{navigation_items}
use kaims_latest.Navigation.Permissions.{
  allows, item_of, allowed_item, can_access_destination, can_access_tab,
  allowed_legacy_tabs_for_role, explain, permission_explanation,
}

-- Every identifier has its destination.
item_of-some : (id : NavigationId) → (item : NavigationItem) × (item_of id ≡ some item)
unfolding same_id id_text
item_of-some dashboard_id = (_, refl)
item_of-some alerts_id = (_, refl)
item_of-some incidents_id = (_, refl)
item_of-some approvals_id = (_, refl)
item_of-some copilot_id = (_, refl)
item_of-some agent_flow_id = (_, refl)
item_of-some knowledge_id = (_, refl)
item_of-some safety_id = (_, refl)
item_of-some audit_id = (_, refl)
item_of-some closed_id = (_, refl)
item_of-some applications_id = (_, refl)
item_of-some integrations_id = (_, refl)
item_of-some admin_id = (_, refl)
item_of-some settings_id = (_, refl)
item_of-some executive_id = (_, refl)

-- A destination is explained exactly where it is refused: there is an explanation for each role and
-- destination, or there is access.
pub permission_explanation-access :
    (role : Text) (id : NavigationId)
    → (permission_explanation role id ≡ none) ↔ (can_access_destination role id ≡ true)
unfolding permission_explanation can_access_destination
permission_explanation-access role id =
    let (item, found) = item_of-some id in rw found (explained item)
  where
    explained :
        (item : NavigationItem)
        → (explain role (some item) ≡ none) ↔ (allowed_item role (some item) ≡ true)
    explained item = elim (Bool-cases (allows role item)) [
      | inl y ↦ rw y ((λ e. refl), (λ e. refl))
      | inr n ↦ rw n (ground arith)
    ]

tabs_of-allowed :
    (role : Text) (tab : LegacyTabId) (items : List NavigationItem)
    → any (λ item. same_tab item.legacy_tab tab && allows role item) items
      ≡ member
          (tab_text tab)
          (map (λ (item : NavigationItem). tab_text item.legacy_tab) (filter (allows role) items))
unfolding member same_tab
tabs_of-allowed role tab [] = refl
tabs_of-allowed role tab (item ∷ items) = elim (Bool-cases (allows role item)) [
  | inl y ↦ rw y (ground (arith, tabs_of-allowed role tab items))
  | inr n ↦ rw n (ground (arith, tabs_of-allowed role tab items))
]

-- The tabs that a role is given are the tabs that it may open.
pub can_access_tab-member :
    (role : NavigationRole) (tab : LegacyTabId)
    → can_access_tab role tab
      ≡ member (tab_text tab) (allowed_legacy_tabs_for_role (role_text role))
unfolding can_access_tab allowed_legacy_tabs_for_role
can_access_tab-member role tab =
    tabs_of-allowed (role_text role) tab navigation_items
    ∙ sym (
        member-unique (tab_text tab) (
          map (λ (item : NavigationItem). tab_text item.legacy_tab)
            (filter (allows (role_text role)) navigation_items)))
