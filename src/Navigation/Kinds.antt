-- ===== src/Navigation/Kinds.antt =====
-- app/navigation.ts: the types of a destination.
use kaims_latest.Prelude.{Bool, List}
use kaims_latest.Js.Text.{Text, js, text_eq}

-- The string unions of the source; a constructor that stands for a string that two of them have
-- carries its type's name.
pub data LegacyTabId : Type 0 where
  home_tab stream_tab copilot_tab executive_tab admin_tab trace_tab safety_tab audit_tab rag_tab
        closed_tab summary_tab approval_tab :
      LegacyTabId

-- The string that it is.
unfoldable pub tab_text : LegacyTabId → Text
unfolding js
tab_text home_tab = js "home"
tab_text stream_tab = js "stream"
tab_text copilot_tab = js "copilot"
tab_text executive_tab = js "executive"
tab_text admin_tab = js "admin"
tab_text trace_tab = js "trace"
tab_text safety_tab = js "safety"
tab_text audit_tab = js "audit"
tab_text rag_tab = js "rag"
tab_text closed_tab = js "closed"
tab_text summary_tab = js "summary"
tab_text approval_tab = js "approval"

pub data NavigationGroup : Type 0 where
  operations_group governance_group platform_group administration_group : NavigationGroup

-- The string that it is.
unfoldable pub group_text : NavigationGroup → Text
unfolding js
group_text operations_group = js "operations"
group_text governance_group = js "governance"
group_text platform_group = js "platform"
group_text administration_group = js "administration"

pub data NavigationRole : Type 0 where
  administrator_role l1_operator_role l2_engineer_role l3_engineer_role executive_role :
      NavigationRole

-- The string that it is.
unfoldable pub role_text : NavigationRole → Text
unfolding js
role_text administrator_role = js "administrator"
role_text l1_operator_role = js "l1_operator"
role_text l2_engineer_role = js "l2_engineer"
role_text l3_engineer_role = js "l3_engineer"
role_text executive_role = js "executive"

pub data NavigationId : Type 0 where
  dashboard_id alerts_id incidents_id approvals_id copilot_id agent_flow_id knowledge_id safety_id
        audit_id closed_id applications_id integrations_id admin_id settings_id executive_id :
      NavigationId

-- The string that it is.
unfoldable pub id_text : NavigationId → Text
unfolding js
id_text dashboard_id = js "dashboard"
id_text alerts_id = js "alerts"
id_text incidents_id = js "incidents"
id_text approvals_id = js "approvals"
id_text copilot_id = js "copilot"
id_text agent_flow_id = js "agentFlow"
id_text knowledge_id = js "knowledge"
id_text safety_id = js "safety"
id_text audit_id = js "audit"
id_text closed_id = js "closed"
id_text applications_id = js "applications"
id_text integrations_id = js "integrations"
id_text admin_id = js "admin"
id_text settings_id = js "settings"
id_text executive_id = js "executive"

-- `===` on them.
unfoldable pub same_tab : LegacyTabId → LegacyTabId → Bool
unfolding tab_text text_eq
same_tab a b = text_eq (tab_text a) (tab_text b)

unfoldable pub same_group : NavigationGroup → NavigationGroup → Bool
unfolding group_text text_eq
same_group a b = text_eq (group_text a) (group_text b)

unfoldable pub same_id : NavigationId → NavigationId → Bool
unfolding id_text text_eq
same_id a b = text_eq (id_text a) (id_text b)

-- What the functions read of a destination; the component and the icon are the page's.
pub record NavigationItem : Type 0 where
  pub id : NavigationId
  pub legacy_tab : LegacyTabId
  pub path : Text
  pub label : Text
  pub page_title : Text
  pub group : NavigationGroup
  pub keywords : List Text
  pub allowed_roles : List NavigationRole
  pub show_in_navigation : Bool
