-- ===== src/Safety/Submit.antt =====
-- src/futures_mvp/modules/ops_safety/submit_gate.py: the gate of live submission.
use yanzl.Prelude.{ℕ, not, Option, none, some, String}
use yanzl.Prelude.Tests.{if◌then◌else◌}
use yanzl.Prelude.Equality.{◌==◌, String_eq}
use yanzl.Prelude.Text.{is_empty}
use yanzl.Safety.Config.{SafetyConfig, SafetyConfigError, validate_environment}
use yanzl.Safety.Gates.{
  OpsGateDecision, MigrationReadinessReport, text, config_error, allow, gate_failed,
  evaluate_broker_gate,
}

pub record OperatorApproval : Type 0 where
  pub environment : String
  pub account_id : String
  pub adapter_target : String
  pub allowed_stage : String
  pub command_surface : String
  pub approved_at : ℕ
  pub decision_id : String
  pub operator_id : Option String

-- `OperatorApproval.__post_init__`: the text of the error that it raises.
unfoldable pub check_approval : OperatorApproval → Option String
check_approval a =
    if is_empty a.environment
    then some "approval environment is required"
    else if is_empty a.account_id
    then some "approval account_id is required"
    else if is_empty a.adapter_target
    then some "approval adapter_target is required"
    else if is_empty a.allowed_stage
    then some "approval allowed_stage is required"
    else if is_empty a.command_surface
    then some "approval command_surface is required"
    else if is_empty a.decision_id
    then some "approval decision_id is required"
    else none

-- What a live submission is asked for.
pub record SubmitTarget : Type 0 where
  pub target_environment : String
  pub target_account : String
  pub target_adapter : String
  pub target_stage : String
  pub target_surface : String

-- The comparison of the operator's approval with what is asked for.
unfoldable pub check_target : OperatorApproval → SubmitTarget → OpsGateDecision
check_target a t =
    if not (a.environment == t.target_environment)
    then gate_failed (text "operator approval environment mismatch")
    else if not (a.account_id == t.target_account)
    then gate_failed (text "operator approval account mismatch")
    else if not (a.adapter_target == t.target_adapter)
    then gate_failed (text "operator approval adapter target mismatch")
    else if not (a.allowed_stage == t.target_stage)
    then gate_failed (text "operator approval stage mismatch")
    else if not (a.command_surface == t.target_surface)
    then gate_failed (text "operator approval command surface mismatch")
    else allow

abbrev pub with_approval : Option OperatorApproval → SubmitTarget → OpsGateDecision
with_approval none t = gate_failed (text "operator approval is required")
with_approval (some a) t = check_target a t

abbrev pub unless_raised : Option SafetyConfigError → OpsGateDecision → OpsGateDecision
unless_raised (some e) rest = gate_failed (config_error e)
unless_raised none rest = rest

-- The next gate is asked where this one allows.
infixr 30 ◌and_then◌
abbrev pub ◌and_then◌ : OpsGateDecision → OpsGateDecision → OpsGateDecision
g and_then rest = if g.allowed then rest else g

unfoldable pub validate_live_submit_gate :
    SafetyConfig
    → SubmitTarget
    → Option OperatorApproval
    → MigrationReadinessReport
    → OpsGateDecision
validate_live_submit_gate c t approval migration =
    unless_raised (validate_environment c t.target_environment) (
      if not c.live_gate.explicit_live_flag
      then gate_failed (text "explicit live flag is required")
      else evaluate_broker_gate c
        and_then (if not c.live_gate.live_submit_enabled
            then gate_failed (text "live submit is disabled")
            else if not migration.compatible
            then gate_failed (text "migration readiness is incompatible")
            else with_approval approval t))
