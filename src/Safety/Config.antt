-- ===== src/Safety/Config.antt =====
-- src/futures_mvp/modules/ops_safety/config.py: the configuration, and what its constructors refuse. A
-- constructor is a function of the fields that it receives: it gives back the error that it raises.
use yanzl.Prelude.{Bool, true, false, not, ◌&&◌, Option, none, some, List, [], ◌∷◌, String}
use yanzl.Prelude.Tests.{if◌then◌else◌}
use yanzl.Prelude.Equality.{◌==◌, String_eq}
use yanzl.Prelude.Int.{pos, ltb_ℤ}
use yanzl.Prelude.Lists.{contains, any}
use yanzl.Prelude.Text.{is_empty}
use yanzl.Domain.Orders.{Decimal}

pub data RolloutMode : Type 0 where
  paper sim live : RolloutMode

-- `a is b`
abbrev pub same_mode : RolloutMode → RolloutMode → Bool
same_mode paper paper = true
same_mode sim sim = true
same_mode live live = true
same_mode _ _ = false

-- `SafetyConfigError`, with the field or the environment that its message prints.
pub data SafetyConfigError : Type 0 where
  empty_values : String → SafetyConfigError
  negative : String → SafetyConfigError
  empty_handle : SafetyConfigError
  no_revision : SafetyConfigError
  empty_revision : SafetyConfigError
  same_previous_mode : SafetyConfigError
  live_without_broker : SafetyConfigError
  unknown_environment : String → SafetyConfigError
  production_implicit : SafetyConfigError

pub record KillSwitchConfig : Type 0 where
  pub global_kill_switch : Bool
  pub per_stage_kill_switches : List String
  pub scheduler_paused : Bool
  pub replay_paused : Bool

pub record LiveGateConfig : Type 0 where
  pub broker_enabled : Bool
  pub live_submit_enabled : Bool
  pub explicit_live_flag : Bool
  pub broker_credentials_handle : Option String

pub record MigrationReadinessConfig : Type 0 where
  pub enabled : Bool
  pub expected_revision : Option String
  pub compatible_revisions : List String

pub record CapitalControlConfig : Type 0 where
  pub max_order_size : Option Decimal
  pub max_position_size : Option Decimal
  pub max_daily_loss : Option Decimal
  pub account_whitelist : List String
  pub allowed_instruments : List String
  pub allow_empty_account_whitelist_in_non_live : Bool
  pub allow_empty_instrument_whitelist_in_non_live : Bool

pub record RolloutConfig : Type 0 where
  pub mode : RolloutMode
  pub previous_mode : Option RolloutMode
  pub requested_mode : Option RolloutMode
  pub capital_controls : CapitalControlConfig

pub record SafetyConfig : Type 0 where
  pub kill_switch : KillSwitchConfig
  pub live_gate : LiveGateConfig
  pub rollout : RolloutConfig
  pub migration_readiness : MigrationReadinessConfig
  pub known_environments : List String
  pub production_explicit : Bool

-- Python's `or` of two errors: the second check runs where the first raises nothing.
infixr 30 ◌then_check◌
abbrev pub ◌then_check◌ :
    Option SafetyConfigError → Option SafetyConfigError → Option SafetyConfigError
none then_check rest = rest
(some e) then_check rest = some e

-- `_reject_empty_names`
unfoldable pub reject_empty_names : List String → String → Option SafetyConfigError
reject_empty_names values field_name =
    if any is_empty values then some (empty_values field_name) else none

-- `_require_decimal_or_none`
unfoldable pub require_decimal_or_none : String → Option Decimal → Option SafetyConfigError
require_decimal_or_none field_name none = none
require_decimal_or_none field_name (some value) =
    if ltb_ℤ value (pos 0) then some (negative field_name) else none

unfoldable pub check_kill_switch : KillSwitchConfig → Option SafetyConfigError
check_kill_switch c = reject_empty_names c.per_stage_kill_switches "per_stage_kill_switches"

unfoldable pub check_live_gate : LiveGateConfig → Option SafetyConfigError
check_live_gate c = elim c.broker_credentials_handle [
  | none ↦ none
  | some handle ↦ if is_empty handle then some empty_handle else none
]

-- `not text` of an optional text.
abbrev pub is_unset : Option String → Bool
is_unset none = true
is_unset (some text) = is_empty text

abbrev pub is_nil {ℓ} : {A : Type ℓ} → List A → Bool
is_nil [] = true
is_nil (x ∷ xs) = false

unfoldable pub check_migration : MigrationReadinessConfig → Option SafetyConfigError
check_migration c =
    if c.enabled && is_unset c.expected_revision && is_nil c.compatible_revisions
    then some no_revision
    else elim c.expected_revision [
      | none ↦ reject_empty_names c.compatible_revisions "compatible_revisions"
      | some revision ↦
          if is_empty revision
          then some empty_revision
          else reject_empty_names c.compatible_revisions "compatible_revisions"
    ]

unfoldable pub check_capital_controls : CapitalControlConfig → Option SafetyConfigError
check_capital_controls c =
    require_decimal_or_none "max_order_size" c.max_order_size
    then_check require_decimal_or_none "max_position_size" c.max_position_size
    then_check require_decimal_or_none "max_daily_loss" c.max_daily_loss
    then_check reject_empty_names c.account_whitelist "account_whitelist"
    then_check reject_empty_names c.allowed_instruments "allowed_instruments"

unfoldable pub check_rollout : RolloutConfig → Option SafetyConfigError
check_rollout c = elim c.previous_mode [
  | none ↦ none
  | some previous ↦ if same_mode previous c.mode then some same_previous_mode else none
]

-- `SafetyConfig.__post_init__`, the parts being checked before it when they are built.
unfoldable pub check_safety : SafetyConfig → Option SafetyConfigError
check_safety c =
    reject_empty_names c.known_environments "known_environments"
    then_check (if same_mode c.rollout.mode live && not c.live_gate.broker_enabled
        then some live_without_broker
        else none)

-- `validate_environment`: the error that it raises.
unfoldable pub validate_environment : SafetyConfig → String → Option SafetyConfigError
validate_environment c environment =
    if not (contains c.known_environments environment)
    then some (unknown_environment environment)
    else if environment == "production" && not c.production_explicit
    then some production_implicit
    else none
