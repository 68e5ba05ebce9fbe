-- ===== src/Safety/LiveGate.antt =====
-- What the live gate, the capital controls and the policy of replays ask for, as propositions.
use yanzl.Prelude.{
  ◌≡◌, refl, ◌↔◌, ◌≢◌, ◌⊎◌, inl, inr, true, false, Option, none, some, [], String, arith,
}
use yanzl.Prelude.Tests.{Bool-cases, is_some}
use yanzl.Prelude.Equality.{◌==◌, ==_iff, String_eq}
use yanzl.Prelude.Lists.{contains}
use yanzl.Safety.Config.{SafetyConfig, validate_environment}
use yanzl.Safety.Gates.{evaluate_broker_gate, evaluate_scheduler_gate}
use yanzl.Safety.Submit.{
  OperatorApproval, SubmitTarget, check_target, with_approval, validate_live_submit_gate,
}
use yanzl.Safety.Rollout.{
  CapitalControlDecision, RolloutGateContext, check_operations, evaluate_stage_p_live_gate,
}

-- The environment is a known one, and production is meant.
pub record IsKnownEnvironment (c : SafetyConfig) (environment : String) : Type 0 where
  pub is_known : contains c.known_environments environment ≡ true
  pub is_meant : (environment ≢ "production") ⊎ (c.production_explicit ≡ true)

-- An operator approved exactly what is asked for.
abbrev pub IsApproved : Option OperatorApproval → SubmitTarget → Type 0
IsApproved none t = ⊥
IsApproved (some a) t =
    (a.environment ≡ t.target_environment)
    × (a.account_id ≡ t.target_account)
    × (a.adapter_target ≡ t.target_adapter)
    × (a.allowed_stage ≡ t.target_stage)
    × (a.command_surface ≡ t.target_surface)

abbrev pub HasPassed : Option CapitalControlDecision → Type 0
HasPassed none = ⊥
HasPassed (some d) = d.passed ≡ true

-- All that must hold before an order goes to a live market.
pub record IsLiveReady (x : RolloutGateContext) : Type 0 where
  pub environment_known : IsKnownEnvironment x.safety_config x.target.target_environment
  pub live_flag : x.safety_config.live_gate.explicit_live_flag ≡ true
  pub broker : x.safety_config.live_gate.broker_enabled ≡ true
  pub credentials : is_some x.safety_config.live_gate.broker_credentials_handle ≡ true
  pub submit_enabled : x.safety_config.live_gate.live_submit_enabled ≡ true
  pub migrated : x.migration.compatible ≡ true
  pub approved : IsApproved x.approval x.target
  pub runtime : x.runtime_ready ≡ true
  pub not_killed : x.safety_config.kill_switch.global_kill_switch ≡ false
  pub no_replay : x.replay_running ≡ false
  pub scheduler_runs : x.safety_config.kill_switch.scheduler_paused ≡ false
  pub scheduler : x.scheduler_healthy ≡ true
  pub capital : HasPassed x.capital_controls
  pub no_incidents : x.unresolved_critical_incidents ≡ []

IsKnownEnvironment-iff :
    (c : SafetyConfig) (e : String) → (validate_environment c e ≡ none) ↔ IsKnownEnvironment c e
unfolding validate_environment
IsKnownEnvironment-iff c e = (
  λ h. record {
    is_known = ground arith;
    is_meant = elim (Bool-cases (e == "production")) [
      | inl same ↦ inr (ground arith)
      | inr other ↦ inl (λ q. cc ((==_iff e "production").1 q, other))
    ];
  },
  λ k. elim k.is_meant [
    | inl other ↦
        let different : (e == "production") ≡ false = elim (Bool-cases (e == "production")) [
          | inl same ↦ absurd (other ((==_iff e "production").0 same))
          | inr d ↦ d
        ] in
        rw (k.is_known, different) refl
    | inr meant ↦ rw (k.is_known, meant) (ground arith)
  ],
)

IsApproved-iff :
    (a : Option OperatorApproval) (t : SubmitTarget)
    → ((with_approval a t).allowed ≡ true) ↔ IsApproved a t
unfolding check_target
IsApproved-iff none t = (λ h. cc, λ h. absurd h)
IsApproved-iff (some a) t =
    let e1 = ==_iff a.environment t.target_environment in
    let e2 = ==_iff a.account_id t.target_account in
    let e3 = ==_iff a.adapter_target t.target_adapter in
    let e4 = ==_iff a.allowed_stage t.target_stage in
    let e5 = ==_iff a.command_surface t.target_surface in
    (
      λ h. (
        e1.0 (ground arith),
        e2.0 (ground arith),
        e3.0 (ground arith),
        e4.0 (ground arith),
        e5.0 (ground arith),
      ),
      λ (p1, p2, p3, p4, p5). rw (e1.1 p1, e2.1 p2, e3.1 p3, e4.1 p4, e5.1 p5) refl,
    )

module _ (x : RolloutGateContext) where
  submit_iff :
      ((validate_live_submit_gate x.safety_config x.target x.approval x.migration).allowed ≡ true)
      ↔ ((validate_environment x.safety_config x.target.target_environment ≡ none)
          × (x.safety_config.live_gate.explicit_live_flag ≡ true)
          × (x.safety_config.kill_switch.global_kill_switch ≡ false)
          × (x.safety_config.live_gate.broker_enabled ≡ true)
          × (is_some x.safety_config.live_gate.broker_credentials_handle ≡ true)
          × (x.safety_config.live_gate.live_submit_enabled ≡ true)
          × (x.migration.compatible ≡ true)
          × ((with_approval x.approval x.target).allowed ≡ true))
  unfolding validate_live_submit_gate evaluate_broker_gate
  submit_iff = ground arith

  operations_iff : ((check_operations x).allowed ≡ true) ↔ (
      (x.replay_running ≡ false)
      × (x.safety_config.kill_switch.global_kill_switch ≡ false)
      × (x.safety_config.kill_switch.scheduler_paused ≡ false)
      × (x.scheduler_healthy ≡ true)
      × HasPassed x.capital_controls
      × (x.unresolved_critical_incidents ≡ []))
  unfolding check_operations evaluate_scheduler_gate
  operations_iff = ground arith

  gates_iff : ((evaluate_stage_p_live_gate x).allowed ≡ true) ↔ (
      ((validate_live_submit_gate x.safety_config x.target x.approval x.migration).allowed ≡ true)
      × (x.runtime_ready ≡ true)
      × (x.safety_config.kill_switch.global_kill_switch ≡ false)
      × ((check_operations x).allowed ≡ true))
  unfolding evaluate_stage_p_live_gate
  gates_iff = ground arith

  -- The live gate of the rollout allows exactly the contexts that are ready for live orders: a known environment,
  -- the flags, the broker, the database's revision, an approval of this very target, a runtime and a scheduler that
  -- run, no kill switch, no replay, passed capital controls and no open incident.
  pub live_gate_iff : ((evaluate_stage_p_live_gate x).allowed ≡ true) ↔ IsLiveReady x
  live_gate_iff = (
    λ h.
        let (submitted, runs, alive, operations) = gates_iff.0 h in
        let (valid, flag, _, broker, handle, submit, migrated, approved) = submit_iff.0 submitted in
        let (no_replay, _, unpaused, healthy, capital, quiet) = operations_iff.0 operations in
        record {
          environment_known =
              (IsKnownEnvironment-iff x.safety_config x.target.target_environment).0 valid;
          live_flag = flag;
          broker = broker;
          credentials = handle;
          submit_enabled = submit;
          migrated = migrated;
          approved = (IsApproved-iff x.approval x.target).0 approved;
          runtime = runs;
          not_killed = alive;
          no_replay = no_replay;
          scheduler_runs = unpaused;
          scheduler = healthy;
          capital = capital;
          no_incidents = quiet;
        },
    λ k.
        let valid =
          (IsKnownEnvironment-iff x.safety_config x.target.target_environment).1
            k.environment_known in
        let approved = (IsApproved-iff x.approval x.target).1 k.approved in
        gates_iff.1 (
          submit_iff.1 (
            valid, k.live_flag, k.not_killed, k.broker, k.credentials, k.submit_enabled, k.migrated,
            approved,
          ),
          k.runtime,
          k.not_killed,
          operations_iff.1
              (k.no_replay, k.not_killed, k.scheduler_runs, k.scheduler, k.capital, k.no_incidents),
        ),
  )
