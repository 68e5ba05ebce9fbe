-- ===== src/Safety/Health.antt =====
-- src/futures_mvp/modules/ops_safety/observability.py: the incident state and the readiness that the gates'
-- decisions add up to.
use yanzl.Prelude.{Bool, true, false, not, ◌&&◌, ◌||◌, List, String}
use yanzl.Prelude.Tests.{if◌then◌else◌}
use yanzl.Prelude.Equality.{◌==◌, String_eq}
use yanzl.Prelude.Lists.{any, all}
use yanzl.Safety.Gates.{
  OpsIncidentState, ready, degraded, failed, paused, killed, OpsGateDecision,
  MigrationReadinessReport,
}

abbrev pub same_incident : OpsIncidentState → OpsIncidentState → Bool
same_incident ready ready = true
same_incident degraded degraded = true
same_incident failed failed = true
same_incident paused paused = true
same_incident killed killed = true
same_incident _ _ = false

pub record OpsHealthReport : Type 0 where
  pub runtime_status : String
  pub report_state : OpsIncidentState
  pub migration_readiness : MigrationReadinessReport
  pub safety_gate_decisions : List OpsGateDecision

-- `OpsHealthReport.is_ready`
unfoldable pub is_ready : OpsHealthReport → Bool
is_ready r =
    r.runtime_status == "READY"
    && same_incident r.report_state ready
    && r.migration_readiness.compatible
    && all (λ d. d.allowed) r.safety_gate_decisions

abbrev pub has_state : OpsIncidentState → OpsGateDecision → Bool
has_state s d = same_incident d.incident_state s

unfoldable pub incident_state_from_decisions :
    List OpsGateDecision → MigrationReadinessReport → String → OpsIncidentState
incident_state_from_decisions decisions migration runtime_status =
    if any (has_state killed) decisions
    then killed
    else if any (has_state paused) decisions
    then paused
    else if not migration.compatible || runtime_status == "FAILED"
    then failed
    else if runtime_status == "DEGRADED"
    then degraded
    else ready
