-- ===== src/Navigation/Items.antt =====
-- app/navigation.ts: the table of the destinations.
use kaims_latest.Prelude.{true, false, List, [], ◌∷◌}
use kaims_latest.Js.Text.{Text, js}
use kaims_latest.Navigation.Kinds.{
  LegacyTabId, home_tab, stream_tab, copilot_tab, executive_tab, admin_tab, trace_tab, safety_tab,
  audit_tab, rag_tab, closed_tab, summary_tab, approval_tab, NavigationGroup, operations_group,
  governance_group, platform_group, administration_group, NavigationRole, administrator_role,
  l1_operator_role, l2_engineer_role, l3_engineer_role, executive_role, dashboard_id, alerts_id,
  incidents_id, approvals_id, copilot_id, agent_flow_id, knowledge_id, safety_id, audit_id,
  closed_id, applications_id, integrations_id, admin_id, settings_id, executive_id, NavigationItem,
}

abbrev pub all_roles : List NavigationRole
all_roles =
    administrator_role ∷ l1_operator_role ∷ l2_engineer_role ∷ l3_engineer_role ∷ executive_role
    ∷ []

abbrev pub engineering_roles : List NavigationRole
engineering_roles = administrator_role ∷ l2_engineer_role ∷ l3_engineer_role ∷ []

abbrev pub incident_roles : List NavigationRole
incident_roles = administrator_role ∷ l2_engineer_role ∷ l3_engineer_role ∷ executive_role ∷ []

abbrev pub navigation_groups : List (NavigationGroup × Text)
navigation_groups =
    (operations_group, js "Operations")
    ∷ (platform_group, js "Platform")
    ∷ (governance_group, js "Governance")
    ∷ (administration_group, js "Administration")
    ∷ []

abbrev pub dashboard_item : NavigationItem
dashboard_item = record {
  id = dashboard_id;
  legacy_tab = home_tab;
  path = js "/";
  label = js "Overview";
  page_title = js "Operations Overview";
  group = operations_group;
  keywords = js "attention" ∷ js "reliability" ∷ js "overview" ∷ js "incident" ∷ js "summary" ∷ [];
  allowed_roles = all_roles;
  show_in_navigation = true;
}

abbrev pub incidents_item : NavigationItem
incidents_item = record {
  id = incidents_id;
  legacy_tab = summary_tab;
  path = js "/incidents";
  label = js "Unified Inbox";
  page_title = js "Unified Inbox";
  group = operations_group;
  keywords =
      js "signals"
      ∷ js "alerts"
      ∷ js "problems"
      ∷ js "case"
      ∷ js "investigation"
      ∷ js "resolution"
      ∷ [];
  allowed_roles = all_roles;
  show_in_navigation = true;
}

abbrev pub alerts_item : NavigationItem
alerts_item = record {
  id = alerts_id;
  legacy_tab = stream_tab;
  path = js "/alerts";
  label = js "Alerts";
  page_title = js "Alert Signals";
  group = operations_group;
  keywords = js "signals" ∷ js "live" ∷ js "ingestion" ∷ js "stream" ∷ js "events" ∷ [];
  allowed_roles = all_roles;
  show_in_navigation = true;
}

abbrev pub approvals_item : NavigationItem
approvals_item = record {
  id = approvals_id;
  legacy_tab = approval_tab;
  path = js "/approvals";
  label = js "Approvals";
  page_title = js "Approvals";
  group = operations_group;
  keywords = js "review" ∷ js "decision" ∷ js "human gate" ∷ [];
  allowed_roles = incident_roles;
  show_in_navigation = true;
}

abbrev pub copilot_item : NavigationItem
copilot_item = record {
  id = copilot_id;
  legacy_tab = copilot_tab;
  path = js "/copilot";
  label = js "Kai Assistant";
  page_title = js "Kai Assistant";
  group = operations_group;
  keywords = js "ask" ∷ js "assistant" ∷ js "analysis" ∷ js "ai" ∷ [];
  allowed_roles = incident_roles;
  show_in_navigation = false;
}

abbrev pub agent_flow_item : NavigationItem
agent_flow_item = record {
  id = agent_flow_id;
  legacy_tab = trace_tab;
  path = js "/agent-flow";
  label = js "Agent Flow";
  page_title = js "Agent Flow";
  group = governance_group;
  keywords = js "trace" ∷ js "workflow" ∷ js "agents" ∷ [];
  allowed_roles = engineering_roles;
  show_in_navigation = false;
}

abbrev pub applications_item : NavigationItem
applications_item = record {
  id = applications_id;
  legacy_tab = admin_tab;
  path = js "/applications";
  label = js "Applications";
  page_title = js "Application Portfolio";
  group = platform_group;
  keywords = js "projects" ∷ js "services" ∷ js "inventory" ∷ js "readiness" ∷ [];
  allowed_roles = engineering_roles;
  show_in_navigation = true;
}

abbrev pub integrations_item : NavigationItem
integrations_item = record {
  id = integrations_id;
  legacy_tab = admin_tab;
  path = js "/integrations";
  label = js "Integrations";
  page_title = js "Integration Launchpad";
  group = platform_group;
  keywords = js "connectors" ∷ js "monitoring" ∷ js "providers" ∷ js "onboarding" ∷ [];
  allowed_roles = engineering_roles;
  show_in_navigation = true;
}

abbrev pub knowledge_item : NavigationItem
knowledge_item = record {
  id = knowledge_id;
  legacy_tab = rag_tab;
  path = js "/knowledge";
  label = js "Knowledge";
  page_title = js "Operational Knowledge";
  group = platform_group;
  keywords = js "runbooks" ∷ js "rag" ∷ js "documents" ∷ js "evidence" ∷ [];
  allowed_roles = engineering_roles;
  show_in_navigation = true;
}

abbrev pub safety_item : NavigationItem
safety_item = record {
  id = safety_id;
  legacy_tab = safety_tab;
  path = js "/automation";
  label = js "Automation";
  page_title = js "AI Trust & Automation";
  group = governance_group;
  keywords = js "autonomy" ∷ js "policy" ∷ js "risk" ∷ js "guardrail" ∷ js "trust" ∷ [];
  allowed_roles = engineering_roles;
  show_in_navigation = true;
}

abbrev pub audit_item : NavigationItem
audit_item = record {
  id = audit_id;
  legacy_tab = audit_tab;
  path = js "/audit";
  label = js "Audit";
  page_title = js "Audit Trail";
  group = governance_group;
  keywords = js "history" ∷ js "compliance" ∷ js "events" ∷ [];
  allowed_roles = engineering_roles;
  show_in_navigation = true;
}

abbrev pub closed_item : NavigationItem
closed_item = record {
  id = closed_id;
  legacy_tab = closed_tab;
  path = js "/closed-incidents";
  label = js "Closed Incidents";
  page_title = js "Closed Incidents";
  group = governance_group;
  keywords = js "resolved" ∷ js "historical" ∷ js "tickets" ∷ [];
  allowed_roles = incident_roles;
  show_in_navigation = false;
}

abbrev pub admin_item : NavigationItem
admin_item = record {
  id = admin_id;
  legacy_tab = admin_tab;
  path = js "/admin/users";
  label = js "Users & Access";
  page_title = js "Users & Access";
  group = administration_group;
  keywords = js "users" ∷ js "roles" ∷ js "access" ∷ js "identity" ∷ [];
  allowed_roles = administrator_role ∷ [];
  show_in_navigation = true;
}

abbrev pub settings_item : NavigationItem
settings_item = record {
  id = settings_id;
  legacy_tab = admin_tab;
  path = js "/service-control";
  label = js "Service Control";
  page_title = js "Service Control Panel";
  group = platform_group;
  keywords = js "platform" ∷ js "services" ∷ js "health" ∷ js "status" ∷ js "control panel" ∷ [];
  allowed_roles = engineering_roles;
  show_in_navigation = true;
}

abbrev pub executive_item : NavigationItem
executive_item = record {
  id = executive_id;
  legacy_tab = executive_tab;
  path = js "/executive";
  label = js "Executive Dashboard";
  page_title = js "Executive Dashboard";
  group = governance_group;
  keywords = js "leadership" ∷ js "business" ∷ js "metrics" ∷ [];
  allowed_roles = administrator_role ∷ l3_engineer_role ∷ executive_role ∷ [];
  show_in_navigation = false;
}

abbrev pub navigation_items : List NavigationItem
navigation_items =
    dashboard_item ∷ incidents_item ∷ alerts_item ∷ approvals_item ∷ copilot_item ∷ agent_flow_item
    ∷ applications_item ∷ integrations_item ∷ knowledge_item ∷ safety_item ∷ audit_item
    ∷ closed_item ∷ admin_item ∷ settings_item ∷ executive_item ∷ []

-- A path, and where it leads.
abbrev pub legacy_redirects : List (Text × Text)
legacy_redirects =
    (js "/approval", js "/approvals")
    ∷ (js "/approval-queue-legacy", js "/approvals")
    ∷ (js "/stream", js "/alerts")
    ∷ (js "/summary", js "/incidents")
    ∷ (js "/gateway-safety", js "/automation")
    ∷ (js "/admin", js "/admin/users")
    ∷ (js "/admin/settings", js "/service-control")
    ∷ []

abbrev pub tab_shortcut_by_code : List (Text × LegacyTabId)
tab_shortcut_by_code =
    (js "Digit1", home_tab)
    ∷ (js "Digit2", stream_tab)
    ∷ (js "Digit3", summary_tab)
    ∷ (js "Digit4", approval_tab)
    ∷ (js "Digit5", copilot_tab)
    ∷ (js "Digit6", trace_tab)
    ∷ (js "Digit7", rag_tab)
    ∷ (js "Digit8", safety_tab)
    ∷ (js "Digit9", closed_tab)
    ∷ (js "Digit0", admin_tab)
    ∷ []
