-- ===== src/Safety/Tests.antt =====
-- Configurations and contexts on which the results about operational safety are tried.
use yanzl.Prelude.{◌≡◌, refl, ◌↔◌, true, false, none, some, [], ◌∷◌, ◌++◌}
use yanzl.Prelude.Int.{pos}
use yanzl.Safety.Config.{
  paper, sim, live, SafetyConfig, check_safety, check_capital_controls, reject_empty_names,
  require_decimal_or_none, validate_environment,
}
use yanzl.Safety.Gates.{
  killed, MigrationReadinessReport, evaluate_broker_gate, evaluate_scheduler_gate,
  evaluate_replay_gate, evaluate_stage_gate, is_compatible,
}
use yanzl.Safety.Submit.{
  OperatorApproval, SubmitTarget, check_target, validate_live_submit_gate, check_approval,
}
use yanzl.Safety.Rollout.{
  CapitalControlContext, RolloutGateContext, capital_passed, evaluate_capital_controls,
  check_operations, evaluate_stage_p_live_gate, evaluate_replay_policy, replay_blocked, by_operator,
  evaluate_promotion, paper_to_sim_reject_reason,
}
use yanzl.Safety.Health.{incident_state_from_decisions}
use yanzl.Safety.LiveGate.{IsLiveReady, live_gate_iff}
use yanzl.Safety.Capital.{KeepsCapital, capital_controls_iff}
use yanzl.Safety.Ladder.{
  promote, roll_back, mode_after, follow, IsSimReady, Climb, Climb-to_live, ladder_moves,
}
use yanzl.Safety.KillSwitch.{IsKilled, kill_switch_stops}

abbrev config : SafetyConfig
config = record {
  kill_switch = record {
    global_kill_switch = false;
    per_stage_kill_switches = "oms" ∷ [];
    scheduler_paused = false;
    replay_paused = false;
  };
  live_gate = record {
    broker_enabled = true;
    live_submit_enabled = true;
    explicit_live_flag = true;
    broker_credentials_handle = some "vault/ctp";
  };
  rollout = record {
    mode = live;
    previous_mode = some sim;
    requested_mode = none;
    capital_controls = record {
      max_order_size = some (pos 5);
      max_position_size = some (pos 20);
      max_daily_loss = none;
      account_whitelist = "acc-1" ∷ [];
      allowed_instruments = "rb2510" ∷ "cu2510" ∷ [];
      allow_empty_account_whitelist_in_non_live = true;
      allow_empty_instrument_whitelist_in_non_live = true;
    };
  };
  migration_readiness = record {
    enabled = true;
    expected_revision = some "0042";
    compatible_revisions = [];
  };
  known_environments = "sim" ∷ "production" ∷ [];
  production_explicit = true;
}

abbrev killed_config : SafetyConfig
killed_config = record config {
  kill_switch = record config.kill_switch { global_kill_switch = true };
}

abbrev target : SubmitTarget
target = record {
  target_environment = "production";
  target_account = "acc-1";
  target_adapter = "ctp";
  target_stage = "P";
  target_surface = "cli";
}

abbrev approval : OperatorApproval
approval = record {
  environment = "production";
  account_id = "acc-1";
  adapter_target = "ctp";
  allowed_stage = "P";
  command_surface = "cli";
  approved_at = 1000;
  decision_id = "d-7";
  operator_id = none;
}

abbrev migration : MigrationReadinessReport
migration = record {
  compatible = true;
  current_revision = some "0042";
  expected_revision = some "0042";
  migration_reason = none;
}

abbrev context : RolloutGateContext
context = record {
  safety_config = config;
  target = target;
  approval = some approval;
  migration = migration;
  runtime_ready = true;
  replay_healthy = true;
  replay_running = false;
  scheduler_healthy = true;
  capital_controls = some capital_passed;
  unresolved_critical_incidents = [];
}

abbrev killed_context : RolloutGateContext
killed_context = record context { safety_config = killed_config }

abbrev order : CapitalControlContext
order = record {
  order_size = pos 5;
  projected_position_size = pos 12;
  daily_loss = pos 0;
  control_account = "acc-1";
  control_instrument = "cu2510";
}

config_valid : check_safety config ≡ none
unfolding check_safety reject_empty_names
config_valid = refl

controls_valid : check_capital_controls config.rollout.capital_controls ≡ none
unfolding check_capital_controls reject_empty_names require_decimal_or_none
controls_valid = refl

approval_valid : check_approval approval ≡ none
unfolding check_approval
approval_valid = refl

revision_compatible : is_compatible (some "0042") (some "0042") [] ≡ true
unfolding is_compatible
revision_compatible = refl

gate_opens : (evaluate_stage_p_live_gate context).allowed ≡ true
unfolding evaluate_stage_p_live_gate validate_live_submit_gate validate_environment
    evaluate_broker_gate check_target check_operations evaluate_scheduler_gate
gate_opens = refl

climbs : follow paper (promote sim context ∷ promote live context ∷ []) ≡ live
unfolding follow mode_after evaluate_promotion paper_to_sim_reject_reason
climbs = rw gate_opens refl

sim_ready : IsSimReady context
sim_ready = record { runs = refl; migrated = refl; replayed = refl; approved = refl }

live_gate_iff_example : ((evaluate_stage_p_live_gate context).allowed ≡ true) ↔ IsLiveReady context
live_gate_iff_example = live_gate_iff context

capital_controls_iff_example :
    ((evaluate_capital_controls config order).passed ≡ true) ↔ KeepsCapital config order
capital_controls_iff_example = capital_controls_iff config order

Climb-to_live_example : Climb (promote sim context ∷ promote live context ∷ [])
Climb-to_live_example = Climb-to_live (promote sim context ∷ promote live context ∷ []) climbs

ladder_moves_example :
    (follow paper (promote sim context ∷ promote live context ∷ []) ≡ live)
    × (follow paper (roll_back paper by_operator ∷ []) ≡ paper)
ladder_moves_example =
    ladder_moves paper context context by_operator sim_ready ((live_gate_iff context).0 gate_opens)

kill_switch_stops_example :
    (IsKilled (evaluate_scheduler_gate killed_config)
      × IsKilled (evaluate_replay_gate killed_config)
      × IsKilled (evaluate_broker_gate killed_config)
      × IsKilled (evaluate_stage_gate killed_config "oms"))
    × (mode_after sim (promote live killed_context) ≡ sim)
    × (((evaluate_replay_policy paper true true (some approval) killed_config).policy_status
          ≡ replay_blocked)
        × ((evaluate_replay_policy paper true true (some approval) killed_config).dry_run ≡ true))
    × (incident_state_from_decisions
          ([] ++ evaluate_scheduler_gate killed_config ∷ [])
          migration
          "READY"
        ≡ killed)
kill_switch_stops_example =
    kill_switch_stops killed_context "oms" paper true true [] [] "READY" refl
