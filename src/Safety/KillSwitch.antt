-- ===== src/Safety/KillSwitch.antt =====
-- What the global kill switch stops.
use yanzl.Prelude.{
  ◌≡◌, refl, inl, inr, Bool, true, false, Option, List, [], ◌∷◌, ◌++◌, String, arith,
}
use yanzl.Prelude.Tests.{Bool-cases}
use yanzl.Prelude.Lists.{any}
use yanzl.Safety.Config.{RolloutMode, sim, live, SafetyConfig}
use yanzl.Safety.Gates.{
  OpsGateDecision, killed, MigrationReadinessReport, evaluate_broker_gate, evaluate_scheduler_gate,
  evaluate_replay_gate, evaluate_stage_gate,
}
use yanzl.Safety.Submit.{OperatorApproval}
use yanzl.Safety.Rollout.{
  RolloutGateContext, evaluate_promotion, evaluate_stage_p_live_gate, evaluate_replay_policy,
  replay_blocked,
}
use yanzl.Safety.Health.{has_state, incident_state_from_decisions}
use yanzl.Safety.LiveGate.{live_gate_iff}
use yanzl.Safety.Ladder.{promote, mode_after}

-- A gate that is shut by the kill switch.
abbrev pub IsKilled : OpsGateDecision → Type 0
IsKilled d = (d.allowed ≡ false) × (d.incident_state ≡ killed)

any-middle :
    {A : Type 0} (p : A → Bool) (before : List A) (a : A) (after : List A)
    → p a ≡ true
    → any p (before ++ a ∷ after) ≡ true
any-middle p [] a after h = ground arith
any-middle p (b ∷ before) a after h = ground (arith, any-middle p before a after h)

gates-IsKilled :
    (c : SafetyConfig) (stage : String)
    → c.kill_switch.global_kill_switch ≡ true
    → IsKilled (evaluate_scheduler_gate c)
      × IsKilled (evaluate_replay_gate c)
      × IsKilled (evaluate_broker_gate c)
      × IsKilled (evaluate_stage_gate c stage)
unfolding evaluate_scheduler_gate evaluate_replay_gate evaluate_broker_gate evaluate_stage_gate
gates-IsKilled c stage h = ground arith

policy_killed :
    (mode : RolloutMode) (requested allow_live : Bool) (approval : Option OperatorApproval)
    (c : SafetyConfig)
    → c.kill_switch.global_kill_switch ≡ true
    → let p = evaluate_replay_policy mode requested allow_live approval c in
      (p.policy_status ≡ replay_blocked) × (p.dry_run ≡ true)
unfolding evaluate_replay_policy evaluate_replay_gate
policy_killed mode requested allow_live approval c h = ground arith

live_gate_killed :
    (x : RolloutGateContext)
    → x.safety_config.kill_switch.global_kill_switch ≡ true
    → (evaluate_stage_p_live_gate x).allowed ≡ false
live_gate_killed x h = elim (Bool-cases (evaluate_stage_p_live_gate x).allowed) [
  | inl open_gate ↦ let k = ((live_gate_iff x).0 open_gate).not_killed in cc
  | inr shut ↦ shut
]

no_promotion :
    (x : RolloutGateContext)
    → x.safety_config.kill_switch.global_kill_switch ≡ true
    → mode_after sim (promote live x) ≡ sim
unfolding mode_after evaluate_promotion
no_promotion x h = rw (live_gate_killed x h) refl

report_killed :
    (ds es : List OpsGateDecision) (d : OpsGateDecision) (report : MigrationReadinessReport)
    (status : String)
    → d.incident_state ≡ killed
    → incident_state_from_decisions (ds ++ d ∷ es) report status ≡ killed
unfolding incident_state_from_decisions
report_killed ds es d report status h = rw (any-middle (has_state killed) ds d es (rw h refl)) refl

-- Under the global kill switch the gates of the scheduler, the replays, the broker and every stage are shut, no
-- promotion leads to LIVE, every replay is blocked and dry, and a health report that hears of the scheduler's
-- gate, whatever else it hears, is KILLED.
pub kill_switch_stops :
    (x : RolloutGateContext) (stage : String) (mode : RolloutMode) (requested allow_live : Bool)
    (ds es : List OpsGateDecision) (status : String)
    → x.safety_config.kill_switch.global_kill_switch ≡ true
    → let c = x.safety_config in
      (IsKilled (evaluate_scheduler_gate c)
        × IsKilled (evaluate_replay_gate c)
        × IsKilled (evaluate_broker_gate c)
        × IsKilled (evaluate_stage_gate c stage))
      × (mode_after sim (promote live x) ≡ sim)
      × (let p = evaluate_replay_policy mode requested allow_live x.approval c in
          (p.policy_status ≡ replay_blocked) × (p.dry_run ≡ true))
      × (incident_state_from_decisions (ds ++ evaluate_scheduler_gate c ∷ es) x.migration status
          ≡ killed)
kill_switch_stops x stage mode requested allow_live ds es status h = (
  gates-IsKilled x.safety_config stage h,
  no_promotion x h,
  policy_killed mode requested allow_live x.approval x.safety_config h,
  report_killed ds es (evaluate_scheduler_gate x.safety_config) x.migration status
      (gates-IsKilled x.safety_config stage h).0.1,
)
