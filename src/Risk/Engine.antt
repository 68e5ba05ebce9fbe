-- ===== src/Risk/Engine.antt =====
-- src/futures_mvp/modules/risk/engine.py: `PureFuturesRiskEngine`. The checks of `__post_init__` are on
-- Python types, which the record's types stand for.
pub mod Laws
use yanzl.Prelude.{Bool, true, false, not, ◌&&◌, Option, none, some, List, [], ◌∷◌, String}
use yanzl.Prelude.Tests.{if◌then◌else◌, is_some}
use yanzl.Prelude.Equality.{◌==◌, String_eq}
use yanzl.Prelude.Int.{◌*ℤ◌, ltb_ℤ}
use yanzl.Prelude.Lists.{contains}
use yanzl.Domain.Enums.{Offset, RiskDecision, accepted, rejected, Offset_eq}
use yanzl.Domain.Orders.{Decimal, RiskResult}

-- What the engine reads of a signal.
pub record Signal : Type 0 where
  pub instrument_id : String
  pub offset : Offset
  pub limit_price : Decimal
  pub quantity : Decimal

pub record RiskConfig : Type 0 where
  pub disabled_instruments : List String
  pub max_order_quantity : Option Decimal
  pub max_notional : Option Decimal
  pub contract_multiplier_by_instrument : List (String × Decimal)
  pub limit_up_by_instrument : List (String × Decimal)
  pub limit_down_by_instrument : List (String × Decimal)
  pub is_trading_session_allowed : Bool
  pub allowed_offsets : List Offset
  pub available_margin : Option Decimal
  pub required_margin : Option Decimal
  pub current_position : Option Decimal
  pub projected_position : Option Decimal
  pub max_position : Option Decimal

-- A verdict, or a `RiskConfigurationError`.
pub data RiskOutcome : Type 0 where
  verdict : RiskResult → RiskOutcome
  misconfigured : String → RiskOutcome

-- `dict.get`
unfoldable pub get : List (String × Decimal) → String → Option Decimal
get [] key = none
get ((k, v) ∷ rest) key = elim (k == key) [ true ↦ some v | false ↦ get rest key ]

-- `bound is not None and bound < value`, and the same from below.
abbrev pub is_above : Decimal → Option Decimal → Bool
is_above value none = false
is_above value (some bound) = ltb_ℤ bound value

abbrev pub is_below : Decimal → Option Decimal → Bool
is_below value none = false
is_below value (some bound) = ltb_ℤ value bound

abbrev pub is_above_known : Option Decimal → Option Decimal → Bool
is_above_known none bound = false
is_above_known (some value) bound = is_above value bound

-- `_rejected`
abbrev pub refuse : String → String → RiskOutcome
refuse rule_name reason =
    verdict (record { decision = rejected; rule_name = rule_name; reason = some reason })

abbrev pub accept : RiskOutcome
accept = verdict (record { decision = accepted; rule_name = "all_pass"; reason = none })

-- Whether exactly one of two values is given.
abbrev pub is_half : Option Decimal → Option Decimal → Bool
is_half none none = false
is_half (some a) (some b) = false
is_half _ _ = true

-- `_validate_cross_field_config`: the error that it raises.
unfoldable pub validate_cross_field_config : RiskConfig → Signal → Option String
validate_cross_field_config c s =
    if is_some c.max_notional
      && not (is_some (get c.contract_multiplier_by_instrument s.instrument_id))
    then some "max_notional requires contract multiplier"
    else if is_half c.available_margin c.required_margin
    then some "available_margin and required_margin must be provided together"
    else if is_half c.projected_position c.max_position
    then some "projected_position and max_position must be provided together"
    else none

-- The rules behind the notional one.
unfoldable pub check_account : RiskConfig → RiskOutcome
check_account c =
    if is_above_known c.required_margin c.available_margin
    then refuse "margin_insufficient" "available_margin is below required_margin"
    else if is_above_known c.projected_position c.max_position
    then refuse "max_position" "projected_position exceeds max_position"
    else accept

unfoldable pub check_notional : Option Decimal → Option Decimal → Signal → RiskOutcome → RiskOutcome
check_notional none multiplier s rest = rest
check_notional (some bound) none s rest = misconfigured "max_notional requires contract multiplier"
check_notional (some bound) (some multiplier) s rest =
    if ltb_ℤ bound (s.limit_price *ℤ s.quantity *ℤ multiplier)
    then refuse "max_notional" "notional exceeds max_notional"
    else rest

unfoldable pub check_rules : RiskConfig → Signal → RiskOutcome
check_rules c s =
    if contains c.disabled_instruments s.instrument_id
    then refuse "disabled_instrument" "instrument is disabled"
    else if not c.is_trading_session_allowed
    then refuse "trading_session_closed" "trading session is closed"
    else if not (contains c.allowed_offsets s.offset)
    then refuse "offset_not_allowed" "offset is not allowed"
    else if is_above s.quantity c.max_order_quantity
    then refuse "max_order_quantity" "quantity exceeds max_order_quantity"
    else if is_above s.limit_price (get c.limit_up_by_instrument s.instrument_id)
    then refuse "price_limit_up" "limit_price is above limit_up"
    else if is_below s.limit_price (get c.limit_down_by_instrument s.instrument_id)
    then refuse "price_limit_down" "limit_price is below limit_down"
    else check_notional c.max_notional (get c.contract_multiplier_by_instrument s.instrument_id) s
        (check_account c)

abbrev pub unless_invalid : Option String → RiskOutcome → RiskOutcome
unless_invalid (some e) outcome = misconfigured e
unless_invalid none outcome = outcome

-- `check_order`
unfoldable pub check_order : RiskConfig → Signal → RiskOutcome
check_order c s = unless_invalid (validate_cross_field_config c s) (check_rules c s)
