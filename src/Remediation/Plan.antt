-- ===== src/Remediation/Plan.antt =====
-- appHelpers.jsx: `buildPreviewExecutionPlan`.
use kaims_latest.Prelude.{◌||◌, List, [], ◌∷◌, ◌++◌, if◌then◌else◌}
use kaims_latest.Js.Text.{Text, js, trim, lower, includes, text_eq}
use kaims_latest.Js.Value.{Value, str, ◌!◌, ◌or◌, to_text, object_or_empty}
use kaims_latest.Status.{or_text}

pub record Plan : Type 0 where
  pub commands : List Text
  pub scripts : List Text
  pub queries : List Text

pub record Preview : Type 0 where
  pub action_type : Text
  pub recommendation_text : Text
  pub plan : Plan

unfoldable pub action_type_of : Text → Text
action_type_of lowered =
    if includes lowered (js "restart pod")
    then js "restart_pod"
    else if includes lowered (js "scale")
    then js "scale_deployment"
    else if includes lowered (js "restart service")
    then js "restart_service"
    else if includes lowered (js "cache")
    then js "clear_cache"
    else if includes lowered (js "failover") || includes lowered (js "database")
    then js "failover_database"
    else if includes lowered (js "terraform")
    then js "terraform_rollback"
    else js "rollback_deployment"

abbrev rollout_status : Text → Text → Text
rollout_status target environment =
    js "kubectl rollout status deployment/"
    ++ target
    ++ js " -n "
    ++ environment
    ++ js " --timeout=180s"

abbrev failed_requests : Text → Text
failed_requests target =
    js "sum(rate(http_requests_total{service='" ++ target ++ js "',status=~'5..'}[5m]))"

unfoldable pub preview_plan : Text → Text → Text → Plan
preview_plan action_type target environment =
    if text_eq action_type (js "restart_pod")
    then record {
      commands =
          (js "kubectl rollout restart deployment/" ++ target ++ js " -n " ++ environment)
          ∷ rollout_status target environment
          ∷ [];
      scripts =
          (js "scripts/remediation/restart_pod.ps1 -Service "
            ++ target
            ++ js " -Namespace "
            ++ environment)
          ∷ [];
      queries = failed_requests target ∷ [];
    }
    else if text_eq action_type (js "scale_deployment")
    then record {
      commands =
          (js "kubectl scale deployment/" ++ target ++ js " --replicas=3 -n " ++ environment)
          ∷ rollout_status target environment
          ∷ [];
      scripts =
          (js "scripts/remediation/scale_deployment.ps1 -Service "
            ++ target
            ++ js " -Namespace "
            ++ environment
            ++ js " -Replicas 3")
          ∷ [];
      queries =
          (js "avg_over_time(container_cpu_usage_seconds_total{pod=~'" ++ target ++ js ".*'}[10m])")
          ∷ [];
    }
    else if text_eq action_type (js "restart_service")
    then record {
      commands =
          (js "ansible-playbook playbooks/restart-service.yml -e service="
            ++ target
            ++ js " -e env="
            ++ environment)
          ∷ [];
      scripts =
          (js "scripts/remediation/restart_service.ps1 -Service "
            ++ target
            ++ js " -Environment "
            ++ environment)
          ∷ [];
      queries = (js "max_over_time(up{job='" ++ target ++ js "'}[5m])") ∷ [];
    }
    else if text_eq action_type (js "clear_cache")
    then record {
      commands = (js "redis-cli -h " ++ target ++ js "-redis -n 0 FLUSHDB") ∷ [];
      scripts = (js "scripts/remediation/clear_cache.ps1 -Service " ++ target) ∷ [];
      queries = (js "sum(rate(cache_miss_total{service='" ++ target ++ js "'}[5m]))") ∷ [];
    }
    else if text_eq action_type (js "failover_database")
    then record {
      commands = js "mysql -e \"CALL mysql.rds_failover();\"" ∷ [];
      scripts = js "scripts/remediation/failover_database.ps1" ∷ [];
      queries = js "SHOW REPLICA STATUS;" ∷ [];
    }
    else if text_eq action_type (js "terraform_rollback")
    then record {
      commands =
          js "terraform init"
          ∷ (js "terraform apply -auto-approve -var service=" ++ target ++ js " -var rollback=true")
          ∷ [];
      scripts =
          (js "scripts/remediation/terraform_rollback.ps1 -Service "
            ++ target
            ++ js " -Environment "
            ++ environment)
          ∷ [];
      queries =
          (js "sum(rate(terraform_apply_failures_total{service='" ++ target ++ js "'}[15m]))") ∷ [];
    }
    else record {
      commands =
          (js "kubectl rollout undo deployment/" ++ target ++ js " -n " ++ environment)
          ∷ rollout_status target environment
          ∷ [];
      scripts =
          (js "scripts/remediation/rollback_deployment.ps1 -Service "
            ++ target
            ++ js " -Namespace "
            ++ environment)
          ∷ [];
      queries = failed_requests target ∷ [];
    }

unfoldable pub build_preview_execution_plan : Value → Preview
unfolding action_type_of preview_plan
build_preview_execution_plan workflow =
    let safe_workflow = object_or_empty workflow in
    let recommendation = object_or_empty (safe_workflow ! "recommendation") in
    let incident = object_or_empty (safe_workflow ! "incident") in
    let alert = object_or_empty (safe_workflow ! "alert") in
    let target = trim (
      to_text (
        recommendation ! "metadata" ! "remediation_target"
        or recommendation ! "target"
        or incident ! "service"
        or alert ! "service"
        or str (js "unknown-target"))) in
    let environment =
      or_text
        (trim (to_text (incident ! "environment" or alert ! "environment" or str (js "prod"))))
        (js "prod") in
    let recommendation_text =
      or_text
        (trim (to_text (recommendation ! "recommended_action" or str (js "rollback deployment"))))
        (js "rollback deployment") in
    let action_type = action_type_of (lower recommendation_text) in
    record {
      action_type = action_type;
      recommendation_text = recommendation_text;
      plan = preview_plan action_type target environment;
    }
