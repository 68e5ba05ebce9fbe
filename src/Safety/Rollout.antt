-- ===== src/Safety/Rollout.antt =====
-- src/futures_mvp/modules/ops_safety/rollout.py: promotion and rollback of the rollout mode, the live gate,
-- the capital controls and the policy of replays.
use yanzl.Prelude.{Bool, true, false, not, ◌||◌, Option, none, some, List, [], ◌∷◌, String}
use yanzl.Prelude.Tests.{if◌then◌else◌}
use yanzl.Prelude.Equality.{String_eq}
use yanzl.Prelude.Int.{ltb_ℤ}
use yanzl.Prelude.Lists.{contains}
use yanzl.Prelude.Text.{is_empty}
use yanzl.Domain.Orders.{Decimal}
use yanzl.Safety.Config.{
  RolloutMode, paper, sim, live, same_mode, is_nil, SafetyConfig, CapitalControlConfig,
}
use yanzl.Safety.Gates.{
  OpsIncidentState, killed, GateReason, text, OpsGateDecision, allow, refuse_gate, gate_failed,
  MigrationReadinessReport, evaluate_scheduler_gate, evaluate_replay_gate,
}
use yanzl.Safety.Submit.{OperatorApproval, SubmitTarget, ◌and_then◌, validate_live_submit_gate}

pub record CapitalControlContext : Type 0 where
  pub order_size : Decimal
  pub projected_position_size : Decimal
  pub daily_loss : Decimal
  pub control_account : String
  pub control_instrument : String

pub record CapitalControlDecision : Type 0 where
  pub passed : Bool
  pub capital_reason : Option String

-- `_capital_rejected`
abbrev pub capital_rejected : String → CapitalControlDecision
capital_rejected reason = record { passed = false; capital_reason = some reason }

abbrev pub capital_passed : CapitalControlDecision
capital_passed = record { passed = true; capital_reason = none }

abbrev pub exceeds : Decimal → Option Decimal → Bool
exceeds value none = false
exceeds value (some bound) = ltb_ℤ bound value

-- A whitelist: an empty one is passed where the flag allows that and the mode is not LIVE.
abbrev pub is_unlisted : List String → String → Bool
is_unlisted [] key = false
is_unlisted (x ∷ xs) key = not (contains (x ∷ xs) key)

abbrev pub is_list_required : List String → RolloutMode → Bool → Bool
is_list_required [] mode allow_empty = same_mode mode live || not allow_empty
is_list_required (x ∷ xs) mode allow_empty = false

unfoldable pub check_lists :
    CapitalControlConfig → RolloutMode → CapitalControlContext → CapitalControlDecision
check_lists k mode x =
    if is_list_required k.account_whitelist mode k.allow_empty_account_whitelist_in_non_live
    then capital_rejected "account whitelist is required"
    else if is_unlisted k.account_whitelist x.control_account
    then capital_rejected "account is not whitelisted"
    else if is_list_required k.allowed_instruments mode
        k.allow_empty_instrument_whitelist_in_non_live
    then capital_rejected "instrument whitelist is required"
    else if is_unlisted k.allowed_instruments x.control_instrument
    then capital_rejected "instrument is not allowed"
    else capital_passed

unfoldable pub evaluate_capital_controls :
    SafetyConfig → CapitalControlContext → CapitalControlDecision
evaluate_capital_controls c x =
    let k = c.rollout.capital_controls in
    if exceeds x.order_size k.max_order_size
    then capital_rejected "order size exceeds max_order_size"
    else if exceeds x.projected_position_size k.max_position_size
    then capital_rejected "position size exceeds max_position_size"
    else if exceeds x.daily_loss k.max_daily_loss
    then capital_rejected "daily loss exceeds max_daily_loss"
    else check_lists k c.rollout.mode x

pub record RolloutGateContext : Type 0 where
  pub safety_config : SafetyConfig
  pub target : SubmitTarget
  pub approval : Option OperatorApproval
  pub migration : MigrationReadinessReport
  pub runtime_ready : Bool
  pub replay_healthy : Bool
  pub replay_running : Bool
  pub scheduler_healthy : Bool
  pub capital_controls : Option CapitalControlDecision
  pub unresolved_critical_incidents : List String

-- `reason or other`
abbrev pub text_or : Option String → String → String
text_or none other = other
text_or (some reason) other = if is_empty reason then other else reason

abbrev pub require_capital : Option CapitalControlDecision → OpsGateDecision → OpsGateDecision
require_capital none rest = gate_failed (text "capital controls are required")
require_capital (some d) rest =
    if not d.passed
    then gate_failed (text (text_or d.capital_reason "capital controls failed"))
    else rest

-- `evaluate_stage_p_live_gate`, from the state of the replay on.
unfoldable pub check_operations : RolloutGateContext → OpsGateDecision
check_operations x =
    if x.replay_running
    then gate_failed (text "replay is running")
    else evaluate_scheduler_gate x.safety_config
      and_then (if not x.scheduler_healthy
          then gate_failed (text "scheduler is not healthy")
          else require_capital x.capital_controls (
              if not (is_nil x.unresolved_critical_incidents)
              then gate_failed (text "unresolved critical incidents are present")
              else allow))

unfoldable pub evaluate_stage_p_live_gate : RolloutGateContext → OpsGateDecision
evaluate_stage_p_live_gate x =
    validate_live_submit_gate x.safety_config x.target x.approval x.migration
    and_then (if not x.runtime_ready
        then gate_failed (text "runtime is not READY")
        else if x.safety_config.kill_switch.global_kill_switch
        then refuse_gate killed "global kill switch is active"
        else check_operations x)

pub data PromotionStatus : Type 0 where
  promoted not_promoted no_op : PromotionStatus

pub record PromotionDecision : Type 0 where
  pub promotion_status : PromotionStatus
  pub from_mode : RolloutMode
  pub to_mode : RolloutMode
  pub promotion_reason : Option GateReason

-- `PromotionDecision.accepted`
abbrev pub is_promoted : PromotionStatus → Bool
is_promoted promoted = true
is_promoted no_op = true
is_promoted not_promoted = false

abbrev pub reason_or : Option GateReason → GateReason → GateReason
reason_or none other = other
reason_or (some r) other = r

unfoldable pub paper_to_sim_reject_reason : RolloutGateContext → Option GateReason
paper_to_sim_reject_reason x =
    if not x.runtime_ready
    then some (text "runtime is not READY")
    else if not x.migration.compatible
    then some (text "migration readiness is incompatible")
    else if not x.replay_healthy
    then some (text "replay is not clean")
    else elim x.approval [ none ↦ some (text "operator approval is required") | some a ↦ none ]

abbrev pub sim_to_live_reject_reason : OpsGateDecision → Option GateReason
sim_to_live_reject_reason gate =
    if not gate.allowed then some (reason_or gate.reason (text "live gate rejected")) else none

abbrev pub promotion_result : RolloutMode → RolloutMode → Option GateReason → PromotionDecision
promotion_result current requested none = record {
  promotion_status = promoted;
  from_mode = current;
  to_mode = requested;
  promotion_reason = none;
}
promotion_result current requested (some r) = record {
  promotion_status = not_promoted;
  from_mode = current;
  to_mode = requested;
  promotion_reason = some r;
}

abbrev pub no_op_promotion : RolloutMode → PromotionDecision
no_op_promotion mode = record {
  promotion_status = no_op;
  from_mode = mode;
  to_mode = mode;
  promotion_reason = none;
}

unfoldable pub evaluate_promotion :
    RolloutMode → RolloutMode → RolloutGateContext → PromotionDecision
evaluate_promotion paper paper x = no_op_promotion paper
evaluate_promotion sim sim x = no_op_promotion sim
evaluate_promotion live live x = no_op_promotion live
evaluate_promotion paper sim x = promotion_result paper sim (paper_to_sim_reject_reason x)
evaluate_promotion sim live x =
    promotion_result sim live (sim_to_live_reject_reason (evaluate_stage_p_live_gate x))
evaluate_promotion current requested x =
    promotion_result current requested (some (text "unsupported promotion path"))

pub data RollbackReason : Type 0 where
  by_operator by_kill_switch migration_incompatible by_incident : RollbackReason

pub record RollbackDecision : Type 0 where
  pub rolled_back : Bool
  pub rollback_from : RolloutMode
  pub rollback_to : RolloutMode
  pub rollback_reason : Option RollbackReason
  pub detail : Option String

abbrev pub is_rollback_path : RolloutMode → RolloutMode → Bool
is_rollback_path live sim = true
is_rollback_path live paper = true
is_rollback_path sim paper = true
is_rollback_path _ _ = false

unfoldable pub evaluate_rollback : RolloutMode → RolloutMode → RollbackReason → RollbackDecision
evaluate_rollback current requested reason = record {
  rolled_back = is_rollback_path current requested;
  rollback_from = current;
  rollback_to = requested;
  rollback_reason = some reason;
  detail = if is_rollback_path current requested then none else some "unsupported rollback path";
}

pub data ReplayPolicyStatus : Type 0 where
  replay_allowed replay_rejected replay_paused_status replay_blocked : ReplayPolicyStatus

pub record ReplayPolicyDecision : Type 0 where
  pub policy_status : ReplayPolicyStatus
  pub dry_run : Bool
  pub policy_reason : Option GateReason

abbrev pub policy : ReplayPolicyStatus → Bool → Option GateReason → ReplayPolicyDecision
policy status dry reason = record { policy_status = status; dry_run = dry; policy_reason = reason }

-- BLOCKED where the gate is killed, else PAUSED.
abbrev pub refused_replay : OpsIncidentState → ReplayPolicyStatus
refused_replay killed = replay_blocked
refused_replay _ = replay_paused_status

abbrev pub live_replay_policy : Bool → Bool → Option OperatorApproval → ReplayPolicyDecision
live_replay_policy requested allow_live approval =
    if not requested
    then policy replay_allowed true none
    else if not allow_live
    then policy replay_rejected true (some (text "LIVE replay apply requires allow_live_apply"))
    else elim approval [
      | none ↦
          policy replay_rejected true (some (text "LIVE replay apply requires operator approval"))
      | some a ↦ policy replay_allowed false none
    ]

unfoldable pub evaluate_replay_policy :
    RolloutMode → Bool → Bool → Option OperatorApproval → SafetyConfig → ReplayPolicyDecision
evaluate_replay_policy mode requested allow_live approval c =
    let gate = evaluate_replay_gate c in
    if not gate.allowed
    then policy (refused_replay gate.incident_state) true gate.reason
    else if same_mode mode live
    then live_replay_policy requested allow_live approval
    else policy replay_allowed (not requested) none
