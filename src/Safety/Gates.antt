-- ===== src/Safety/Gates.antt =====
-- src/futures_mvp/modules/ops_safety/incident.py, migration.py and kill_switch.py: the gates of the kill
-- switch, and whether the database's revision is one that the program can use.
use yanzl.Prelude.{Bool, true, false, not, ◌||◌, Option, none, some, List, String}
use yanzl.Prelude.Tests.{if◌then◌else◌, is_some}
use yanzl.Prelude.Equality.{◌==◌, String_eq}
use yanzl.Prelude.Lists.{contains}
use yanzl.Safety.Config.{SafetyConfig, SafetyConfigError}

pub data OpsIncidentState : Type 0 where
  ready degraded failed paused killed : OpsIncidentState

-- Reasons: the source's texts, and the message of an error of the configuration.
pub data GateReason : Type 0 where
  text : String → GateReason
  config_error : SafetyConfigError → GateReason

pub record OpsGateDecision : Type 0 where
  pub allowed : Bool
  pub incident_state : OpsIncidentState
  pub reason : Option GateReason
  pub blocked_stage : Option String

abbrev pub allow : OpsGateDecision
allow = record { allowed = true; incident_state = ready; reason = none; blocked_stage = none }

abbrev pub refuse_gate : OpsIncidentState → String → OpsGateDecision
refuse_gate state reason = record {
  allowed = false;
  incident_state = state;
  reason = some (text reason);
  blocked_stage = none;
}

-- `_failed`
abbrev pub gate_failed : GateReason → OpsGateDecision
gate_failed reason = record {
  allowed = false;
  incident_state = failed;
  reason = some reason;
  blocked_stage = none;
}

unfoldable pub evaluate_scheduler_gate : SafetyConfig → OpsGateDecision
evaluate_scheduler_gate c =
    if c.kill_switch.global_kill_switch
    then refuse_gate killed "global kill switch is active"
    else if c.kill_switch.scheduler_paused
    then refuse_gate paused "scheduler is paused"
    else allow

unfoldable pub evaluate_replay_gate : SafetyConfig → OpsGateDecision
evaluate_replay_gate c =
    if c.kill_switch.global_kill_switch
    then refuse_gate killed "global kill switch is active"
    else if c.kill_switch.replay_paused
    then refuse_gate paused "replay is paused"
    else allow

unfoldable pub evaluate_stage_gate : SafetyConfig → String → OpsGateDecision
evaluate_stage_gate c stage_name =
    if c.kill_switch.global_kill_switch
    then record (refuse_gate killed "global kill switch is active") {
      blocked_stage = some stage_name;
    }
    else if contains c.kill_switch.per_stage_kill_switches stage_name
    then record (refuse_gate paused "stage kill switch is active") {
      blocked_stage = some stage_name;
    }
    else allow

unfoldable pub evaluate_broker_gate : SafetyConfig → OpsGateDecision
evaluate_broker_gate c =
    if c.kill_switch.global_kill_switch
    then refuse_gate killed "global kill switch is active"
    else if not c.live_gate.broker_enabled
    then refuse_gate paused "broker is disabled"
    else if not (is_some c.live_gate.broker_credentials_handle)
    then refuse_gate paused "broker credentials are absent"
    else allow

pub record MigrationReadinessReport : Type 0 where
  pub compatible : Bool
  pub current_revision : Option String
  pub expected_revision : Option String
  pub migration_reason : Option String

abbrev pub is_revision : Option String → String → Bool
is_revision none current = false
is_revision (some expected) current = current == expected

-- `_is_compatible`
unfoldable pub is_compatible : Option String → Option String → List String → Bool
is_compatible none expected compatible = false
is_compatible (some current) expected compatible =
    is_revision expected current || contains compatible current

-- What the query of the revision gives: an exception with its text, or the row's value, if there is a row.
pub data RevisionQuery : Type 0 where
  query_raised : String → RevisionQuery
  query_row : Option String → RevisionQuery

-- `MigrationReadinessChecker.check`, with the message of a failed query.
unfoldable pub check_readiness :
    Option String → List String → (String → String) → RevisionQuery → MigrationReadinessReport
check_readiness expected compatible message (query_raised e) = record {
  compatible = false;
  current_revision = none;
  expected_revision = expected;
  migration_reason = some (message e);
}
check_readiness expected compatible message (query_row current) = record {
  compatible = is_compatible current expected compatible;
  current_revision = current;
  expected_revision = expected;
  migration_reason =
      if is_compatible current expected compatible
      then none
      else some "db migration revision is incompatible";
}

abbrev pub disabled_migration_readiness_report : MigrationReadinessReport
disabled_migration_readiness_report = record {
  compatible = true;
  current_revision = none;
  expected_revision = none;
  migration_reason = some "migration readiness check disabled";
}
